-- ===== src/McpNames/Punycode.antt =====
-- `decodePunycodeLabel` of apps/web/src/mcp-server-name.ts, on texts as lists of UTF-16 code units. An
-- exception of the decoding is `none`; the label is then kept. The product of the weights is not bounded
-- by the source; a JavaScript number is exact up to 2^53, and a shift below 2^31; beyond that the model is not the code.
use workbench.Prelude.{
  ℕ, zero, suc, ◌+◌, ◌-◌, ◌*◌, ◌/◌, ◌%◌, ◌≤◌, ◌<◌, ◌≡◌, subst, refl, ap, Bool, Option, none, some,
  or_else, List, [], ◌∷◌, ◌++◌, length, ltb, leb, nat_eq, arith, if◌then◌else◌, Option-cases,
  Bool-cases, inl, inr, some_eq,
}

-- `digitFor`
unfoldable pub digit_for : ℕ → Option ℕ
digit_for code =
    if ltb code 48
    then none
    else if leb code 57
    then some (code - 22)
    else if ltb code 65
    then none
    else if leb code 90
    then some (code - 65)
    else if ltb code 97
    then none
    else if leb code 122
    then some (code - 97)
    else none

-- The loop of `adapt`, with `k` counted so far.
unfoldable pub adapt_loop : ℕ → ℕ → ℕ → Option ℕ
adapt_loop zero d k = none
adapt_loop (suc fuel) d k =
    let later = adapt_loop fuel (d / 35) (k + 36) in
    if ltb 455 d then later else some (k + 36 * d / (d + 38))

abbrev pub damped : ℕ → Bool → ℕ
damped delta first = if first then delta / 700 else delta / 2

unfoldable pub adapt : ℕ → ℕ → Bool → Option ℕ
unfolding adapt_loop
adapt delta points first =
    let d = damped delta first + damped delta first / points in adapt_loop (suc d) d 0

abbrev pub threshold : ℕ → ℕ → ℕ
threshold k bias = if leb k bias then 1 else if leb (bias + 26) k then 26 else k - bias

-- A number in the digits at the start of the tail: what they add to `i`, and the rest of the tail.
unfoldable pub decode_number : List ℕ → ℕ → ℕ → ℕ → ℕ → Option (ℕ × List ℕ)
decode_number [] i w k bias = none
decode_number (c ∷ tail) i w k bias = elim (digit_for c) [
  | none ↦ none
  | some digit ↦
      let later = decode_number tail (i + digit * w) (w * (36 - threshold k bias)) (k + 36) bias in
      if ltb digit (threshold k bias) then some (i + digit * w, tail) else later
]

-- `String.fromCodePoint(n)`
unfoldable pub from_code_point : ℕ → Option (List ℕ)
from_code_point n =
    if ltb n 65536
    then some (n ∷ [])
    else if ltb n 1114112
    then some ((55296 + (n - 65536) / 1024) ∷ (56320 + (n - 65536) % 1024) ∷ [])
    else none

abbrev pub insert_units : ℕ → List ℕ → List ℕ → List ℕ
insert_units zero units output = units ++ output
insert_units (suc i) units [] = units
insert_units (suc i) units (u ∷ output) = u ∷ insert_units i units output

-- What the outer loop keeps.
pub record Decoding : Type 0 where
  pub output : List ℕ
  pub n : ℕ
  pub i : ℕ
  pub bias : ℕ

abbrev pub inserted : Decoding → ℕ → Option ℕ → Option (List ℕ) → Option Decoding
inserted s i none units = none
inserted s i (some bias) none = none
inserted s i (some bias) (some units) =
    let points = suc (length s.output) in
    some (record {
      output = insert_units (i % points) units s.output;
      n = s.n + i / points;
      i = suc (i % points);
      bias = bias;
    })

-- One round of the outer loop, once the number is read.
unfoldable pub decode_round : Decoding → ℕ → Option Decoding
unfolding adapt from_code_point
decode_round s i =
    let points = suc (length s.output) in
    inserted s i (adapt (i - s.i) points (nat_eq s.i 0)) (from_code_point (s.n + i / points))

-- The outer loop; each round reads at least one unit of the tail.
unfoldable pub decode_tail : ℕ → List ℕ → Decoding → Option (Option (List ℕ))
decode_tail fuel [] s = some (some s.output)
decode_tail zero (c ∷ tail) s = none
decode_tail (suc fuel) (c ∷ tail) s = elim (decode_number (c ∷ tail) s.i 1 36 s.bias) [
  | none ↦ some none
  | some (i, rest) ↦ elim (decode_round s i) [
    | none ↦ some none
    | some next ↦ decode_tail fuel rest next
  ]
]

-- Before the last hyphen and after it, if there is one behind the first unit.
unfoldable pub split_hyphen : List ℕ → Option (List ℕ × List ℕ)
split_hyphen [] = none
split_hyphen (u ∷ us) = elim (split_hyphen us) [
  | some (before, after) ↦ some (u ∷ before, after)
  | none ↦ if nat_eq u 45 then some ([], us) else none
]

abbrev pub parts_of : List ℕ → Option (List ℕ × List ℕ) → List ℕ × List ℕ
parts_of payload none = ([], payload)
parts_of payload (some ([], after)) = ([], payload)
parts_of payload (some (u ∷ before, after)) = (u ∷ before, after)

abbrev pub initial : List ℕ → Decoding
initial output = record { output = output; n = 128; i = 0; bias = 72 }

abbrev pub decode_payload : List ℕ × List ℕ → Option (Option (List ℕ))
decode_payload (output, tail) = decode_tail (length tail) tail (initial output)

abbrev pub or_label : List ℕ → Option (Option (List ℕ)) → List ℕ
or_label label none = label
or_label label (some decoded) = or_else decoded label

unfoldable pub strip_prefix : List ℕ → List ℕ → Option (List ℕ)
strip_prefix [] label = some label
strip_prefix (p ∷ ps) [] = none
strip_prefix (p ∷ ps) (u ∷ label) =
    let rest = strip_prefix ps label in if nat_eq p u then rest else none

abbrev pub decode_stripped : List ℕ → Option (List ℕ) → List ℕ
decode_stripped label none = label
decode_stripped label (some payload) =
    or_label label (decode_payload (parts_of payload (split_hyphen payload)))

-- The prefix is "xn--".
unfoldable pub decode_punycode_label : List ℕ → List ℕ
unfolding decode_tail split_hyphen decode_round decode_number strip_prefix
decode_punycode_label label = decode_stripped label (strip_prefix (120 ∷ 110 ∷ 45 ∷ 45 ∷ []) label)

-- "xn--mnchen-3ya" is "münchen".
munich :
    decode_punycode_label
      (120 ∷ 110 ∷ 45 ∷ 45 ∷ 109 ∷ 110 ∷ 99 ∷ 104 ∷ 101 ∷ 110 ∷ 45 ∷ 51 ∷ 121 ∷ 97 ∷ [])
    ≡ 109 ∷ 252 ∷ 110 ∷ 99 ∷ 104 ∷ 101 ∷ 110 ∷ []
unfolding decode_punycode_label digit_for adapt_loop
munich = refl

adapt_loop-some : (fuel d k : ℕ) → d < fuel → (bias : ℕ) × (adapt_loop fuel d k ≡ some bias)
unfolding adapt_loop
adapt_loop-some zero d k h = absurd (omega (arith, h))
adapt_loop-some (suc fuel) d k h = elim (Bool-cases (ltb 455 d)) [
  | inl large ↦
      let falls : d / 35 < fuel =
        let big : 455 < d = ground (arith, large) in omega (arith, h, big) in
      let (bias, e) = adapt_loop-some fuel (d / 35) (k + 36) falls in (bias, rw large e)
  | inr small ↦ (k + 36 * d / (d + 38), rw small refl)
]

decode_number-shorter :
    (tail : List ℕ) (i w k bias j : ℕ) (rest : List ℕ)
    → decode_number tail i w k bias ≡ some (j, rest)
    → length rest < length tail
unfolding decode_number
decode_number-shorter [] i w k bias j rest e = absurd cc
decode_number-shorter (c ∷ tail) i w k bias j rest e = elim (Option-cases (digit_for c)) [
  | inl bad ↦ absurd (cc (rw (bad, decode_number) at e))
  | inr (digit, good) ↦ elim (Bool-cases (ltb digit (threshold k bias))) [
    | inl stop ↦
        subst (λ r. length r < suc (length tail))
          (ap (λ (p : ℕ × List ℕ). p.1) (some_eq (rw stop at (rw (good, decode_number) at e))))
          (omega arith)
    | inr on ↦ omega (
      arith,
      decode_number-shorter tail (i + digit * w) (w * (36 - threshold k bias)) (k + 36) bias j rest
          (rw on at (rw (good, decode_number) at e)),
    )
  ]
]

-- The bias is always found, so only the label's own faults keep it as it is.
pub decode_tail-some :
    (fuel : ℕ) (tail : List ℕ) (s : Decoding)
    → length tail ≤ fuel
    → (r : Option (List ℕ)) × (decode_tail fuel tail s ≡ some r)
unfolding decode_tail
decode_tail-some fuel [] s h = (some s.output, refl)
decode_tail-some zero (c ∷ tail) s h = absurd (omega (arith, h))
decode_tail-some (suc fuel) (c ∷ tail) s h =
    elim (Option-cases (decode_number (c ∷ tail) s.i 1 36 s.bias)) [
      | inl bad ↦ (none, rw (bad, decode_tail) refl)
      | inr ((i, rest), read) ↦ elim (Option-cases (decode_round s i)) [
        | inl bad ↦ (none, rw (read, decode_tail) (rw bad refl))
        | inr (next, good) ↦
            let (r, e) =
              decode_tail-some fuel rest next
                (omega (arith, h, decode_number-shorter (c ∷ tail) s.i 1 36 s.bias i rest read)) in
            (r, rw (read, decode_tail) (rw good e))
      ]
    ]

-- "xn--e28h" is a character of two units, and "xn--e28ha" the same twice, but the second is put between
-- the units of the first.
garbled :
    (decode_punycode_label (120 ∷ 110 ∷ 45 ∷ 45 ∷ 101 ∷ 50 ∷ 56 ∷ 104 ∷ []) ≡ 55357 ∷ 56832 ∷ [])
    × (decode_punycode_label (120 ∷ 110 ∷ 45 ∷ 45 ∷ 101 ∷ 50 ∷ 56 ∷ 104 ∷ 97 ∷ [])
        ≡ 55357 ∷ 55357 ∷ 56832 ∷ 56832 ∷ [])
unfolding decode_punycode_label digit_for adapt_loop
garbled = (refl, refl)
