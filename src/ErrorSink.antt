-- ===== src/ErrorSink.antt =====
-- The error sink (packages/error-sink/src): `redact.ts`, the redaction of what is reported, and `index.ts`,
-- the report. Parameters are the regular expressions of the values with what `replace` makes of a text,
-- the ids, the schema of a context, and whether the logger throws. A field of a report's extra is a tree;
-- none of its keys is "__proto__".
mod Redaction
mod Reports
mod Tests
use Prim.Native.Char.{code}
use Prim.Native.String
use workbench.Prelude.{
  ℕ, zero, suc, ◌+◌, String, Bool, true, false, ◌&&◌, ◌||◌, Option, none, some, or_else, List, [],
  ◌∷◌, ◌++◌, map, any, leb, nat_eq, if◌then◌else◌,
}

-- What is neither a text nor an array nor an object
pub data Scalar : Type 0 where
  undefined null : Scalar
  boolean : Bool → Scalar
  number : String → Scalar  -- as `String` writes it

mutual
  pub data Value : Type 0 where
    text : String → Value
    scalar : Scalar → Value
    array : Items → Value
    object : Fields → Value

  pub data Items : Type 0 where
    nil : Items
    cons : Value → Items → Items

  -- `Record<string, unknown>`, as its entries
  pub data Fields : Type 0 where
    end : Fields
    field : String → Value → Fields → Fields

abbrev pub codes : String → List ℕ
codes String.[] = []
codes (String.◌∷◌ c s) = code c ∷ codes s

-- Letters alike under the flag `i`
abbrev pub fold_case : ℕ → ℕ
fold_case c = if leb 65 c && leb c 90 then c + 32 else c

abbrev pub starts_with : List ℕ → List ℕ → Bool
starts_with [] s = true
starts_with (w ∷ ws) [] = false
starts_with (w ∷ ws) (c ∷ cs) = nat_eq (fold_case c) w && starts_with ws cs

-- The word stands somewhere in the text.
abbrev pub occurs : List ℕ → List ℕ → Bool
occurs word [] = starts_with word []
occurs word (c ∷ cs) = starts_with word (c ∷ cs) || occurs word cs

-- The alternatives of `SECRET_KEY_PATTERN`, with "api[-_]?key" written out
abbrev pub secret_words : List String
secret_words =
    "token" ∷ "secret" ∷ "password" ∷ "passwd" ∷ "api-key" ∷ "api_key" ∷ "apikey" ∷ "credential"
    ∷ "authorization" ∷ "cookie" ∷ []

-- `SECRET_KEY_PATTERN.test`
unfoldable pub is_secret_key : String → Bool
is_secret_key key = any (λ word. occurs (codes word) (codes key)) secret_words

-- What the regular expressions of the values make of a text
pub record Patterns : Type 0 where
  pub provider_key_shape : String → Bool
  pub secret_values : List (String → String)  -- `SECRET_VALUE_PATTERNS`, each with its `replace`
  pub sensitive_assignment : String → String
  pub query_param_assignment : String → String

abbrev pub redacted_mark : String
redacted_mark = "[redacted]"

module _ (patterns : Patterns) where
  -- The loop over the patterns
  unfoldable pub replace_all : List (String → String) → String → String
  replace_all [] redacted = redacted
  replace_all (replace ∷ rest) redacted = replace_all rest (replace redacted)

  unfoldable pub redact_text : String → String
  unfolding replace_all
  redact_text s =
      (patterns.query_param_assignment)
        ((patterns.sensitive_assignment) (replace_all (patterns.secret_values) s))

  -- A value under such a key is replaced whole.
  unfoldable pub hides : String → Bool
  unfolding is_secret_key
  hides key = is_secret_key key || (patterns.provider_key_shape) key

  unfoldable mutual
    pub redact_value : String → Value → Value
    redact_value key (text s) = if hides key then text redacted_mark else text (redact_text s)
    redact_value key (scalar s) = if hides key then text redacted_mark else scalar s
    redact_value key (array xs) =
        let rest = redact_items key xs in if hides key then text redacted_mark else array rest
    redact_value key (object fs) =
        let rest = redact_record fs in if hides key then text redacted_mark else object rest

    pub redact_items : String → Items → Items
    redact_items key nil = nil
    redact_items key (cons x xs) = cons (redact_value key x) (redact_items key xs)

    pub redact_record : Fields → Fields
    redact_record end = end
    redact_record (field key value fs) = field key (redact_value key value) (redact_record fs)

  abbrev pub redact_extra : Option Fields → Option Fields
  redact_extra none = none
  redact_extra (some extra) = some (redact_record extra)

-- An `Error` on the heap, whose cause is again whatever was thrown
pub data Thrown : Type 0 where
  error_at : ℕ → Thrown
  other_thrown : String → Thrown  -- as `String` writes it

pub record ErrorObject : Type 0 where
  pub message : String
  pub stack : Option String
  pub cause : Option Thrown

-- The copy that is logged: its message and stack, and the copy of its cause
pub data Copy : Type 0 where
  last : String → String → Copy
  caused_by : String → String → Copy → Copy

abbrev pub max_cause_depth : ℕ
max_cause_depth = 5

pub record ErrorContext : Type 0 where
  pub operation : String
  pub tenant_id : Option String
  pub workbench_id : Option String
  pub agent_id : Option String
  pub ref_id : Option String
  pub extra : Option Fields

pub record Properties : Type 0 where
  pub ref_id : String
  pub operation : String
  pub tenant_id : Option String
  pub workbench_id : Option String
  pub agent_id : Option String
  pub extra : Option Fields

pub record Sink : Type 0 where
  pub patterns : Patterns
  pub heap : ℕ → ErrorObject
  pub new_stack : String → String  -- the stack that a new `Error` gets, which begins with its message
  pub generated_id : String
  pub context_shape : ErrorContext → Option ErrorContext
  pub log_throws : Copy → Properties → Bool

module _ (sink : Sink) where
  -- `asError`
  abbrev pub as_error : Thrown → ErrorObject
  as_error (error_at e) = (sink.heap) e
  as_error (other_thrown s) = record {
    message = s;
    stack = some ((sink.new_stack) s);
    cause = none;
  }

  abbrev pub copied_stack : ErrorObject → String
  copied_stack e = elim e.stack [
    | none ↦ (sink.new_stack) (redact_text (sink.patterns) e.message)
    | some stack ↦ redact_text (sink.patterns) stack
  ]

  abbrev pub with_cause : ErrorObject → Option Copy → Copy
  with_cause e none = last (redact_text (sink.patterns) e.message) (copied_stack e)
  with_cause e (some copy) = caused_by (redact_text (sink.patterns) e.message) (copied_stack e) copy

  -- `redactedCopyOf`, with `MAX_CAUSE_DEPTH - depth` for the depth
  unfoldable pub redacted_copy_of : ℕ → ErrorObject → Copy
  redacted_copy_of zero e = with_cause e none
  redacted_copy_of (suc left) e =
      with_cause e
        (elim e.cause [ none ↦ none | some cause ↦ some (redacted_copy_of left (as_error cause)) ])

  abbrev pub operation_of : Option ErrorContext → String
  operation_of none = "unknown"
  operation_of (some context) = context.operation

  abbrev pub if_valid : {A : Type 0} → (ErrorContext → Option A) → Option ErrorContext → Option A
  if_valid part none = none
  if_valid part (some context) = part context

  unfoldable pub properties_of : String → Option ErrorContext → Properties
  properties_of ref_id safe_context = record {
    ref_id = ref_id;
    operation = operation_of safe_context;
    tenant_id = if_valid (λ c. c.tenant_id) safe_context;
    workbench_id = if_valid (λ c. c.workbench_id) safe_context;
    agent_id = if_valid (λ c. c.agent_id) safe_context;
    extra = redact_extra (sink.patterns) (if_valid (λ c. c.extra) safe_context);
  }

  -- `reportError`: what it returns, and what was handed to the logger
  unfoldable pub report_error : Thrown → ErrorContext → String × Copy × Properties
  unfolding redacted_copy_of properties_of
  report_error thrown context =
      let ref_id = or_else context.ref_id (sink.generated_id) in
      let copy = redacted_copy_of max_cause_depth (as_error thrown) in
      let properties = properties_of ref_id ((sink.context_shape) context) in
      (
        if (sink.log_throws) copy properties then or_else context.ref_id "unknown" else ref_id,
        copy,
        properties,
      )
