-- ===== src/Provision/Refs.antt =====
-- External references, unit directory names and allocation ids of
-- apps/hub/src/provisioners/process.ts. `String(n)`, `Number(text)` and `trim` belong to the
-- JavaScript runtime: they are the parameter `Numerals`.
pub mod Parsing
use Prim.Native.Char.{Char, code}
use Prim.Native.String
use workbench.Prelude.{
  ◌<>◌, ℕ, zero, suc, ◌^◌, ◌<◌, ◌≡◌, ◌≢◌, String, ◌==◌, Bool, true, false, ◌&&◌, ◌||◌, Option, none,
  some, List, [], ◌∷◌, nat_eq, ltb, leb, if◌then◌else◌,
}

abbrev pub AllChars : (ℕ → Type 0) → String → Type 0
AllChars P String.[] = Unit
AllChars P (String.◌∷◌ c s) = P (code c) × AllChars P s

abbrev pub NoColon : String → Type 0
NoColon = AllChars (λ n. n ≢ b':')

-- The integers that a JavaScript number holds exactly.
abbrev pub IsSafeInteger : ℕ → Type 0
IsSafeInteger n = n < 2 ^ 53

pub record Numerals : Type 0 where
  pub show : ℕ → String  -- `String(n)`
  pub number : String → Option ℕ  -- `Number(text)`, where that is an integer and not negative
  pub trim : String → String
  pub number-show : (n : ℕ) → IsSafeInteger n → number (show n) ≡ some n
  pub show-NoColon : (n : ℕ) → IsSafeInteger n → NoColon (show n)
  pub trim-line : (n : ℕ) → IsSafeInteger n → trim (show n <> "\n") ≡ show n

-- `text.split(":")`
unfoldable pub split_from : String → String → List String
split_from cur String.[] = cur ∷ []
split_from cur (String.◌∷◌ c s) =
    let closed = cur ∷ split_from "" s in
    let longer = split_from (cur <> String.◌∷◌ c String.[]) s in
    if nat_eq (code c) b':' then closed else longer

unfoldable pub split_colon : String → List String
unfolding split_from
split_colon s = split_from "" s

pub record UnitRef : Type 0 where
  pub allocation_id : String
  pub generation : ℕ
  pub pid : ℕ

-- a letter, a digit, ".", "_" or "-"
unfoldable pub is_id_char : ℕ → Bool
is_id_char n =
    (leb b'A' n && leb n b'Z')
    || (leb b'a' n && leb n b'z')
    || (leb b'0' n && leb n b'9')
    || nat_eq n b'.'
    || nat_eq n b'_'
    || nat_eq n b'-'

unfoldable pub all_id_chars : String → Bool
all_id_chars String.[] = true
all_id_chars (String.◌∷◌ c s) = is_id_char (code c) && all_id_chars s

-- `ALLOCATION_ID_PATTERN.test`
unfoldable pub is_allocation_id : String → Bool
is_allocation_id String.[] = false
is_allocation_id (String.◌∷◌ c s) = is_id_char (code c) && all_id_chars s

-- What `startsWith("gen-")` and `slice` leave.
unfoldable pub after_prefix : String → String → Option String
after_prefix String.[] s = some s
after_prefix (String.◌∷◌ c p) String.[] = none
after_prefix (String.◌∷◌ c p) (String.◌∷◌ d s) =
    if nat_eq (code c) (code d) then after_prefix p s else none

abbrev pub unit_dir_prefix : String
unit_dir_prefix = "gen-"

abbrev pub positive : Option ℕ → Option ℕ
positive none = none
positive (some n) = if ltb 0 n then some n else none

module _ (js : Numerals) where
  unfoldable pub external_ref_of : String → ℕ → ℕ → String
  external_ref_of id generation pid = id <> ":" <> js.show generation <> ":" <> js.show pid

  unfoldable pub ref_of_numbers : String → Option ℕ → Option ℕ → Option UnitRef
  ref_of_numbers id none pid = none
  ref_of_numbers id (some g) none = none
  ref_of_numbers id (some g) (some pid) =
      if ltb 0 pid then some (record { allocation_id = id; generation = g; pid = pid }) else none

  unfoldable pub ref_of_parts : List String → Option UnitRef
  unfolding ref_of_numbers
  ref_of_parts (id ∷ g ∷ pid ∷ []) =
      if id == "" then none else ref_of_numbers id (js.number g) (js.number pid)
  ref_of_parts _ = none

  unfoldable pub parse_external_ref : String → Option UnitRef
  unfolding ref_of_parts
  parse_external_ref ref = ref_of_parts (split_colon ref)

  abbrev pub positive_number : Option String → Option ℕ
  positive_number none = none
  positive_number (some text) = positive (js.number text)

  unfoldable pub generation_of : String → Option ℕ
  unfolding after_prefix
  generation_of entry = positive_number (after_prefix unit_dir_prefix entry)

  -- the name of a unit's directory
  unfoldable pub unit_entry : ℕ → String
  unit_entry generation = unit_dir_prefix <> js.show generation

  -- `Number(raw.trim())`, if it is a positive integer
  unfoldable pub pid_of : String → Option ℕ
  pid_of raw = positive (js.number (js.trim raw))
