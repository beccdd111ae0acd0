-- ===== src/Provision/Refs/Parsing.antt =====
-- References and directory names read back as what they were made of.
use Prim.Native.Char.{Char, code}
use text.Mathlib.TextLemmas.{nil-append, cons-append, append_assoc, append-nil, cons-ne-nil}
use workbench.Prelude.{
  ◌<>◌, ℕ, ◌<◌, ◌≡◌, ◌≢◌, ap, ◌∙◌, String, ◌==◌, eq_iff, true, false, none, some, [], ◌∷◌, arith,
  nat_eq, ltb, if◌then◌else◌,
}
use workbench.Provision.Refs.{
  NoColon, IsSafeInteger, Numerals, split_from, split_colon, is_id_char, all_id_chars,
  is_allocation_id, after_prefix, external_ref_of, ref_of_numbers, parse_external_ref,
  generation_of, unit_entry, unit_dir_prefix, positive_number, pid_of,
}

id_char-no_colon : (n : ℕ) → is_id_char n ≡ true → n ≢ b':'
unfolding is_id_char
id_char-no_colon n h = ground arith

all_id_chars-NoColon : (s : String) → all_id_chars s ≡ true → NoColon s
unfolding all_id_chars
all_id_chars-NoColon String.[] h = tt
all_id_chars-NoColon (String.◌∷◌ c s) h =
    (id_char-no_colon (code c) (ground arith), all_id_chars-NoColon s (ground arith))

pub is_allocation_id-NoColon : (s : String) → is_allocation_id s ≡ true → NoColon s
unfolding is_allocation_id
is_allocation_id-NoColon String.[] h = tt
is_allocation_id-NoColon (String.◌∷◌ c s) h =
    (id_char-no_colon (code c) (ground arith), all_id_chars-NoColon s (ground arith))

pub is_allocation_id-ne-nil : (s : String) → is_allocation_id s ≡ true → s ≢ ""
unfolding is_allocation_id
is_allocation_id-ne-nil String.[] h e = cc
is_allocation_id-ne-nil (String.◌∷◌ c s) h e = cons-ne-nil c s e

not_colon : (n : ℕ) → n ≢ b':' → nat_eq n b':' ≡ false
not_colon n h = ground arith

push_append :
    (cur : String) (c : Char) (s : String) → (cur <> String.◌∷◌ c "") <> s ≡ cur <> String.◌∷◌ c s
push_append cur c s = simp (append_assoc, cons-append, nil-append)

split_from-colon : (cur rest : String) → split_from cur (":" <> rest) ≡ cur ∷ split_from "" rest
unfolding split_from
split_from-colon cur rest = rw cons-append (rw nil-append)

split_from-char :
    (cur : String) (c : Char) (s : String)
    → code c ≢ b':'
    → split_from cur (String.◌∷◌ c s) ≡ split_from (cur <> String.◌∷◌ c "") s
unfolding split_from
split_from-char cur c s h = rw (not_colon (code c) h)

split_from-part :
    (cur s rest : String)
    → NoColon s
    → split_from cur (s <> ":" <> rest) ≡ (cur <> s) ∷ split_from "" rest
split_from-part cur String.[] rest h = simp (nil-append, append-nil, split_from-colon)
split_from-part cur (String.◌∷◌ c s) rest h =
    simp (cons-append, split_from-char cur c _ h.0)
      (split_from-part (cur <> String.◌∷◌ c "") s rest h.1
        ∙ ap (λ t. t ∷ split_from "" rest) (push_append cur c s))

split_from-last : (cur s : String) → NoColon s → split_from cur s ≡ (cur <> s) ∷ []
split_from-last cur String.[] h = unfold split_from in rw append-nil
split_from-last cur (String.◌∷◌ c s) h =
    rw (split_from-char cur c s h.0)
      (split_from-last (cur <> String.◌∷◌ c "") s h.1 ∙ ap (λ t. t ∷ []) (push_append cur c s))

nat_eq_refl : (n : ℕ) → nat_eq n n ≡ true
nat_eq_refl n = ground arith

ne_nil-eq : (s : String) → s ≢ "" → (s == "") ≡ false
ne_nil-eq s h = ground (arith, eq_iff s "")

split_colon-ref :
    (a b d : String)
    → NoColon a
    → NoColon b
    → NoColon d
    → split_colon (a <> ":" <> b <> ":" <> d) ≡ a ∷ b ∷ d ∷ []
unfolding split_colon
split_colon-ref a b d ha hb hd =
    split_from-part "" a (b <> ":" <> d) ha
    ∙ ap (λ t. (("" <> a) ∷ t))
        (split_from-part "" b d hb ∙ ap (λ t. (("" <> b) ∷ t)) (split_from-last "" d hd))
    ∙ simp nil-append

-- Of an id that names a directory, a generation and a positive process id, both held exactly, the
-- external reference is read back.
pub parse-external_ref :
    (js : Numerals) (id : String) (g pid : ℕ)
    → is_allocation_id id ≡ true
    → IsSafeInteger g
    → IsSafeInteger pid
    → 0 < pid
    → parse_external_ref js (external_ref_of js id g pid)
      ≡ some (record { allocation_id = id; generation = g; pid = pid })
unfolding parse_external_ref external_ref_of ref_of_numbers
parse-external_ref js id g pid valid safe_g safe_pid pos =
    rw
      (split_colon-ref id (js.show g) (js.show pid) (is_allocation_id-NoColon id valid)
        (js.show-NoColon g safe_g) (js.show-NoColon pid safe_pid))
      (rw
        (
          ne_nil-eq id (is_allocation_id-ne-nil id valid),
          js.number-show g safe_g,
          js.number-show pid safe_pid,
        )
        (ground arith))

after_prefix-append : (p s : String) → after_prefix p (p <> s) ≡ some s
unfolding after_prefix
after_prefix-append String.[] s = rw nil-append
after_prefix-append (String.◌∷◌ c p) s =
    rw (cons-append, nat_eq_refl (code c)) (after_prefix-append p s)

-- A unit's directory name gives its generation back, if that is positive, and is passed over if
-- the generation is 0.
pub generation-unit_entry :
    (js : Numerals) (g : ℕ)
    → IsSafeInteger g
    → generation_of js (unit_entry js g) ≡ (if ltb 0 g then some g else none)
unfolding generation_of unit_entry
generation-unit_entry js g safe =
    ap (positive_number js) (after_prefix-append unit_dir_prefix (js.show g))
    ∙ (rw (js.number-show g safe))

-- The pid file that a start writes gives a positive process id back.
pub pid-of_line :
    (js : Numerals) (pid : ℕ)
    → IsSafeInteger pid
    → 0 < pid
    → pid_of js (js.show pid <> "\n") ≡ some pid
unfolding pid_of
pid-of_line js pid safe pos = rw (js.trim-line pid safe, js.number-show pid safe) (ground arith)
