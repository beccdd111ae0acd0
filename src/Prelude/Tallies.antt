-- ===== src/Prelude/Tallies.antt =====
-- Numbers as texts of as many marks, for the runs of the models.
use Prim.Native.Nat.{ℕ, zero, suc}
use Prim.Native.String.{String}
use mathlib.Core.Path.{◌≡◌, refl, ap}

abbrev pub tally : ℕ → String
tally zero = String.[]
tally (suc n) = String.◌∷◌ "1" (tally n)

abbrev pub count_marks : String → ℕ
count_marks String.[] = 0
count_marks (String.◌∷◌ c s) = suc (count_marks s)

pub count_marks-tally : (n : ℕ) → count_marks (tally n) ≡ n
count_marks-tally zero = refl
count_marks-tally (suc n) = ap suc (count_marks-tally n)
