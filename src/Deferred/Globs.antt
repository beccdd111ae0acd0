-- ===== src/Deferred/Globs.antt =====
-- The glob matcher decides a relation between patterns and names.
use Prim.Native.Char.{Char, code}
use workbench.Prelude.{
  ℕ, ◌≡◌, ◌≢◌, ◌↔◌, refl, inl, inr, String, Bool, true, false, arith, nat_eq, Bool-cases,
}
use workbench.Deferred.Match.{ends_line, any_run, one_char, glob, Runtime, matches_name_pattern}

-- `p` matches `s` whole: `*` stands for any run of characters with no line end in it, and any
-- other character for one that folds to the same.
pub data Matches (fold : ℕ → ℕ) : String → String → Type 0 where
  at_end : Matches fold String.[] String.[]
  char :
      {c d : Char} {p s : String}
      → code c ≢ b'*'
      → fold (code c) ≡ fold (code d)
      → Matches fold p s
      → Matches fold (String.◌∷◌ c p) (String.◌∷◌ d s)
  star_done :
      {c : Char} {p s : String} → code c ≡ b'*' → Matches fold p s → Matches fold (String.◌∷◌ c p) s
  star_more :
      {c d : Char} {p s : String}
      → code c ≡ b'*'
      → ends_line (code d) ≡ false
      → Matches fold (String.◌∷◌ c p) s
      → Matches fold (String.◌∷◌ c p) (String.◌∷◌ d s)

star_test : (c : Char) → code c ≡ b'*' → nat_eq (code c) b'*' ≡ true
star_test c h = ground arith

plain_test : (c : Char) → code c ≢ b'*' → nat_eq (code c) b'*' ≡ false
plain_test c h = ground arith

module _ (fold : ℕ → ℕ) where
  any_run_sound :
      (c : Char) (p s : String)
      → code c ≡ b'*'
      → ((t : String) → glob fold p t ≡ true → Matches fold p t)
      → any_run (glob fold p) s ≡ true
      → Matches fold (String.◌∷◌ c p) s
  unfolding any_run
  any_run_sound c p String.[] star ih h = star_done star (ih _ h)
  any_run_sound c p (String.◌∷◌ d s) star ih h = elim (Bool-cases (glob fold p (String.◌∷◌ d s))) [
    | inl now ↦ star_done star (ih _ now)
    | inr later ↦ star_more star (ground arith) (any_run_sound c p s star ih (ground arith))
  ]

  one_char_sound :
      (c : Char) (p s : String)
      → nat_eq (code c) b'*' ≡ false
      → ((t : String) → glob fold p t ≡ true → Matches fold p t)
      → one_char fold (code c) (glob fold p) s ≡ true
      → Matches fold (String.◌∷◌ c p) s
  unfolding one_char
  one_char_sound c p String.[] plain ih h = absurd (cc)
  one_char_sound c p (String.◌∷◌ d s) plain ih h =
      char (ground arith) (ground arith) (ih s (ground arith))

  glob_sound : (p s : String) → glob fold p s ≡ true → Matches fold p s
  unfolding glob
  glob_sound String.[] String.[] h = at_end
  glob_sound String.[] (String.◌∷◌ d s) h = absurd (cc)
  glob_sound (String.◌∷◌ c p) s h = elim (Bool-cases (nat_eq (code c) b'*')) [
    | inl star ↦ any_run_sound c p s (ground arith) (glob_sound p) (rw (star, glob) at h)
    | inr plain ↦ one_char_sound c p s plain (glob_sound p) (rw (plain, glob) at h)
  ]

  any_run_here : (k : String → Bool) (s : String) → k s ≡ true → any_run k s ≡ true
  unfolding any_run
  any_run_here k String.[] h = h
  any_run_here k (String.◌∷◌ c s) h = rw h

  glob-star :
      (c : Char) (p s : String)
      → code c ≡ b'*'
      → glob fold (String.◌∷◌ c p) s ≡ any_run (glob fold p) s
  unfolding glob
  glob-star c p s star = rw (star_test c star)

  glob-char :
      (c d : Char) (p s : String)
      → code c ≢ b'*'
      → fold (code c) ≡ fold (code d)
      → glob fold p s ≡ true
      → glob fold (String.◌∷◌ c p) (String.◌∷◌ d s) ≡ true
  unfolding glob one_char
  glob-char c d p s plain same h = rw (plain_test c plain, h) (ground arith)

  any_run_later :
      (k : String → Bool) (d : Char) (s : String)
      → ends_line (code d) ≡ false
      → any_run k s ≡ true
      → any_run k (String.◌∷◌ d s) ≡ true
  unfolding any_run
  any_run_later k d s inside h = rw (inside, h) (ground arith)

  glob_complete : {p s : String} → Matches fold p s → glob fold p s ≡ true
  glob_complete at_end = unfold glob in refl
  glob_complete (char {c} {d} {p} {s} plain same m) = glob-char c d p s plain same (glob_complete m)
  glob_complete (star_done {c} {p} {s} star m) =
      rw (glob-star c p s star) (any_run_here (glob fold p) s (glob_complete m))
  glob_complete (star_more {c} {d} {p} {s} star inside m) =
      rw (glob-star c p _ star)
        (any_run_later (glob fold p) d s inside (rw (glob-star c p s star) at (glob_complete m)))

-- A pattern matches a tool's name in the code exactly when the relation `Matches` holds of them.
pub matches_name_pattern_iff :
    (js : Runtime) (name pattern' : String)
    → (matches_name_pattern js name pattern' ≡ true) ↔ Matches js.fold pattern' name
unfolding matches_name_pattern
matches_name_pattern_iff js name pattern' =
    (glob_sound js.fold pattern' name, glob_complete js.fold)
