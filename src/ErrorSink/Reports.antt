-- ===== src/ErrorSink/Reports.antt =====
-- What a report hands to the logger (packages/error-sink/src/index.ts).
use workbench.Prelude.{
  ℕ, zero, suc, ◌≤◌, ◌≡◌, refl, ap, ◌⊎◌, inl, inr, String, true, false, Option, none, some, or_else,
  List, [], ◌∷◌, length, arith, Bool, if◌then◌else◌, Option-cases,
}
use workbench.ErrorSink.{
  redact_text, redact_record, Fields, Thrown, ErrorObject, Copy, last, caused_by, max_cause_depth,
  ErrorContext, Sink, as_error, copied_stack, redacted_copy_of, properties_of, report_error,
}

-- The messages and stacks of a copy, the outer ones first
abbrev pub links : Copy → List (String × String)
links (last message stack) = (message, stack) ∷ []
links (caused_by message stack copy) = (message, stack) ∷ links copy

module _ (sink : Sink) where
  -- The error, its cause, the cause of that, and so on: at most so many, also where the chain is a cycle
  abbrev pub chain : ℕ → Option Thrown → List ErrorObject
  chain zero thrown = []
  chain (suc n) none = []
  chain (suc n) (some thrown) = as_error sink thrown ∷ chain n (as_error sink thrown).cause

  -- A message and a stack that are those of the error, redacted; an error that has no stack gets the one
  -- that is made of its redacted message
  pub record IsRedacted (e : ErrorObject) (link : String × String) : Type 0 where
    pub message : link.0 ≡ redact_text (sink.patterns) e.message
    pub stack : (text : String) → e.stack ≡ some text → link.1 ≡ redact_text (sink.patterns) text
    pub no_stack :
        e.stack ≡ none → link.1 ≡ (sink.new_stack) (redact_text (sink.patterns) e.message)

  -- Each of the links is one of the errors, in order, and there are no others.
  abbrev pub AreRedacted : List ErrorObject → List (String × String) → Type 0
  AreRedacted [] [] = Unit
  AreRedacted [] (link ∷ rest) = ⊥
  AreRedacted (e ∷ es) [] = ⊥
  AreRedacted (e ∷ es) (link ∷ rest) = IsRedacted e link × AreRedacted es rest

  link-IsRedacted :
      (e : ErrorObject) → IsRedacted e (redact_text (sink.patterns) e.message, copied_stack sink e)
  link-IsRedacted e = record {
    message = refl;
    stack = λ text h. rw h refl;
    no_stack = λ h. rw h refl;
  }

  copy-AreRedacted :
      (left : ℕ) (thrown : Thrown)
      → AreRedacted
          (chain (suc left) (some thrown))
          (links (redacted_copy_of sink left (as_error sink thrown)))
  unfolding redacted_copy_of
  copy-AreRedacted zero thrown = (link-IsRedacted (as_error sink thrown), tt)
  copy-AreRedacted (suc left) thrown = elim (Option-cases (as_error sink thrown).cause) [
    | inl e ↦ rw e (link-IsRedacted (as_error sink thrown), tt)
    | inr (cause, e) ↦ rw e (link-IsRedacted (as_error sink thrown), copy-AreRedacted left cause)
  ]

  length-AreRedacted :
      (es : List ErrorObject) (ls : List (String × String))
      → AreRedacted es ls
      → length ls ≡ length es
  length-AreRedacted [] [] h = refl
  length-AreRedacted [] (l ∷ ls) h = absurd h
  length-AreRedacted (e ∷ es) [] h = absurd h
  length-AreRedacted (e ∷ es) (l ∷ ls) h = ap suc (length-AreRedacted es ls h.1)

  length-chain : (n : ℕ) (thrown : Option Thrown) → length (chain n thrown) ≤ n
  length-chain zero thrown = omega arith
  length-chain (suc n) none = omega arith
  length-chain (suc n) (some thrown) = omega (arith, length-chain n (as_error sink thrown).cause)

  -- What is logged of an error, and what is returned
  pub record IsReported (thrown : Thrown) (context : ErrorContext) : Type 0 where
    pub few_links : length (links (report_error sink thrown context).1) ≤ suc max_cause_depth
    pub redacted_links :
        AreRedacted
          (chain (suc max_cause_depth) (some thrown))
          (links (report_error sink thrown context).1)
    pub redacted_details :
        (valid : ErrorContext) (extra : Fields)
        → (sink.context_shape) context ≡ some valid
        → valid.extra ≡ some extra
        → (report_error sink thrown context).2.extra ≡ some (redact_record (sink.patterns) extra)
    pub no_details :
        (sink.context_shape) context ≡ none → (report_error sink thrown context).2.extra ≡ none
    pub traced :
        ((report_error sink thrown context).0 ≡ (report_error sink thrown context).2.ref_id)
        ⊎ ((context.ref_id ≡ none)
            × ((sink.log_throws)
                  (report_error sink thrown context).1
                  (report_error sink thrown context).2
                ≡ true))

  traced_by :
      (throws : Bool) (given : Option String) (id : String)
      → ((if throws then or_else given "unknown" else or_else given id) ≡ or_else given id)
        ⊎ ((given ≡ none) × (throws ≡ true))
  traced_by false given id = inl refl
  traced_by true (some ref) id = inl refl
  traced_by true none id = inr (refl, refl)

  -- Whatever is reported, also an error whose causes are a cycle: what is logged has at most six
  -- messages with their stacks, which are those of the error and its causes, in order, redacted; an error
  -- without a stack has the one made of its redacted message; the extra details of a valid context are
  -- redacted, and of an invalid one not logged; and the id that is returned is the one that is logged, unless the context
  -- names none and the logger throws.
  pub report_error-IsReported :
      (thrown : Thrown) (context : ErrorContext) → IsReported thrown context
  unfolding report_error properties_of
  report_error-IsReported thrown context = record {
    few_links =
        rw
          (length-AreRedacted (chain (suc max_cause_depth) (some thrown))
            (links (redacted_copy_of sink max_cause_depth (as_error sink thrown)))
            (copy-AreRedacted max_cause_depth thrown))
          (length-chain (suc max_cause_depth) (some thrown));
    redacted_links = copy-AreRedacted max_cause_depth thrown;
    redacted_details = λ valid extra e f. rw (e, f) refl;
    no_details = λ e. rw e refl;
    traced = traced_by _ context.ref_id (sink.generated_id);
  }
