-- ===== src/Sidecar/Lines.antt =====
-- The lines that are read do not depend on where the stream is cut into chunks.
use workbench.Prelude.{
  ℕ, zero, suc, ◌<◌, ◌≡◌, refl, sym, ap, ◌∙◌, Option, none, some, List, [], ◌∷◌, ◌++◌, map,
  append_assoc, append-nil, length, nat_eq, arith, Option-cases, true, false, Bool-cases,
  if◌then◌else◌, inl, inr,
}
use workbench.Sidecar.{
  Text, newline, ReadResult, Decoder, cut_line, without_cr, yielded, drain, then_lines, take_value,
  read_lines,
}

-- The lines of a whole text, in one pass over its characters, with the characters of a line so far
unfoldable pub lines_from : Text → Text → List Text
lines_from line [] = yielded line []
lines_from line (c ∷ cs) =
    let next = lines_from [] cs in
    let same = lines_from (line ++ c ∷ []) cs in
    if nat_eq c newline then yielded (without_cr line) next else same

module _ {Bytes : Type 0} (decoder : Decoder Bytes) where
  unfoldable pub decoded : decoder.State → List Bytes → Text
  decoded state [] = []
  decoded state (b ∷ bs) = let (text, after) = decoder.decode state b in text ++ decoded after bs

cut_eq :
    {a b c d : Text}
    → ◌≡◌ {A = Option (Text × Text)} (some (a, b)) (some (c, d))
    → (a ≡ c) × (b ≡ d)
cut_eq h = (cc, cc)

-- What is left behind a newline is shorter.
length-cut_line :
    (p : Text) {line rest : Text} → cut_line p ≡ some (line, rest) → length rest < length p
unfolding cut_line
length-cut_line [] h = absurd cc
length-cut_line (c ∷ cs) {line} {rest} h = elim (Bool-cases (nat_eq c newline)) [
  | inl e ↦ omega (arith, ap length ((cut_eq (rw (e) at h)).1))
  | inr e ↦ elim (Option-cases (cut_line cs)) [
    | inl f ↦ absurd (cc (rw (f) at (rw (e) at h)))
    | inr ((l, r), f) ↦
        omega (arith, length-cut_line cs f, ap length ((cut_eq (rw (f) at (rw (e) at h))).1))
  ]
]

-- A text without a newline is the rest of a line.
lines_from-uncut :
    (line p more : Text)
    → cut_line p ≡ none
    → lines_from line (p ++ more) ≡ lines_from (line ++ p) more
unfolding cut_line lines_from
lines_from-uncut line [] more h = ap (λ l. lines_from l more) (sym (append-nil line))
lines_from-uncut line (c ∷ cs) more h = elim (Bool-cases (nat_eq c newline)) [
  | inl e ↦ absurd (cc (rw (e) at h))
  | inr e ↦ elim (Option-cases (cut_line cs)) [
    | inr (p, f) ↦ absurd (cc (rw (f) at (rw (e) at h)))
    | inl f ↦ rw (e) (
        lines_from-uncut (line ++ c ∷ []) cs more f
        ∙ ap (λ l. lines_from l more) (append_assoc line (c ∷ []) cs))
  ]
]

-- At a newline a line ends.
lines_from-cut :
    (start p more : Text) {line rest : Text}
    → cut_line p ≡ some (line, rest)
    → lines_from start (p ++ more)
      ≡ yielded (without_cr (start ++ line)) (lines_from [] (rest ++ more))
unfolding cut_line lines_from
lines_from-cut start [] more h = absurd cc
lines_from-cut start (c ∷ cs) more {line} {rest} h = elim (Bool-cases (nat_eq c newline)) [
  | inl e ↦
      let (same, behind) = cut_eq (rw (e) at h) in
      rw (e) (rw (sym same, append-nil start, sym behind) refl)
  | inr e ↦ elim (Option-cases (cut_line cs)) [
    | inl f ↦ absurd (cc (rw (f) at (rw (e) at h)))
    | inr ((l, r), f) ↦
        let (same, behind) = cut_eq (rw (f) at (rw (e) at h)) in
        rw (e) (
          lines_from-cut (start ++ c ∷ []) cs more f
          ∙ rw (append_assoc start (c ∷ []) l, same, behind) refl)
  ]
]

append-yielded : (line : Text) (xs ys : List Text) → yielded line xs ++ ys ≡ yielded line (xs ++ ys)
append-yielded [] xs ys = refl
append-yielded (c ∷ cs) xs ys = refl

-- With more fuel than characters, the inner loop yields the lines of the text, whatever follows, and
-- leaves no newline.
abbrev pub Drained : Text → Option (List Text × Text) → Type 0
Drained p out =
    (lines : List Text) × (left : Text) × (out ≡ some (lines, left))
    × (cut_line left ≡ none)
    × ((more : Text) → lines_from [] (p ++ more) ≡ lines ++ lines_from [] (left ++ more))

drain-Drained : (fuel : ℕ) (p : Text) → length p < fuel → Drained p (drain fuel p)
unfolding drain
drain-Drained zero p h = absurd (omega (arith, h))
drain-Drained (suc fuel) p h = elim (Option-cases (cut_line p)) [
  | inl e ↦ ([], p, rw (e, drain) refl, e, λ more. refl)
  | inr ((line, rest), e) ↦
      let (lines, left, f, uncut, rest_of) =
        drain-Drained fuel rest (omega (arith, h, length-cut_line p e)) in
      (
        yielded (without_cr line) lines,
        left,
        rw (e, drain) (rw (f, drain) refl),
        uncut,
        λ more.
            lines_from-cut [] p more e
            ∙ ap (yielded (without_cr line)) (rest_of more)
            ∙ sym (append-yielded (without_cr line) lines (lines_from [] (left ++ more))),
      )
]

module _ {Bytes : Type 0} (decoder : Decoder Bytes) where
  abbrev pub chunk : Bytes → ReadResult Bytes
  chunk bytes = record { value = some bytes; done = false }

  -- The stream's last result
  abbrev pub end_of_stream : ReadResult Bytes
  end_of_stream = record { value = none; done = true }

  read_lines-pending :
      (bs : List Bytes) (state : decoder.State) (pending : Text)
      → cut_line pending ≡ none
      → read_lines decoder state pending (map chunk bs ++ end_of_stream ∷ [])
        ≡ some (lines_from [] (pending ++ decoded decoder state bs))
  unfolding read_lines take_value decoded lines_from
  read_lines-pending [] state pending h = ap some (sym (lines_from-uncut [] pending [] h))
  read_lines-pending (b ∷ bs) state pending h =
      let text = (decoder.decode state b).0 in
      let after = (decoder.decode state b).1 in
      let (lines, left, drained, uncut, rest_of) =
        drain-Drained (suc (length (pending ++ text))) (pending ++ text) (omega arith) in
      let taken : take_value decoder state pending (some b) ≡ some (lines, left, after) =
        rw (drained, take_value) refl in
      rw (taken, read_lines)
        (ap (then_lines lines) (read_lines-pending bs after left uncut)
          ∙ ap some (
              sym (rest_of (decoded decoder after bs))
              ∙ ap (lines_from []) (append_assoc pending text (decoded decoder after bs))))

  -- Where a stream is cut into chunks does not matter: for every list of chunks and every decoder, the
  -- reader ends, and yields the lines of the decoded text as a whole: each without its newline and a
  -- carriage return before it, no empty ones, and the last one as it is if no newline ends it.
  pub read_lines_lem :
      (bs : List Bytes)
      → read_lines decoder decoder.initial [] (map chunk bs ++ end_of_stream ∷ [])
        ≡ some (lines_from [] (decoded decoder decoder.initial bs))
  unfolding cut_line
  read_lines_lem bs = read_lines-pending bs decoder.initial [] refl
