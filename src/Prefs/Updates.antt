-- ===== src/Prefs/Updates.antt =====
-- Writes to the list of the values of the preferences.
use jumpbox.Base.{
  ℕ, zero, suc, ◌<◌, ◌≡◌, refl, ap, Option, [], ◌∷◌, Text, arith, length, set, ◌==◌, if◌then◌else◌,
}
use jumpbox.Prefs.Values.{Values, at}

pub at-set :
    (l : Values) (i j : ℕ) (v : Option Text)
    → i < length l
    → at (set l i v) j ≡ (if i == j then v else at l j)
at-set [] i j v h = absurd (omega arith)
at-set (x ∷ l) zero zero v h = refl
at-set (x ∷ l) zero (suc j) v h = ground arith
at-set (x ∷ l) (suc i) zero v h = ground arith
at-set (x ∷ l) (suc i) (suc j) v h = ground (arith, at-set l i j v)

pub length-set : (l : Values) (i : ℕ) (v : Option Text) → length (set l i v) ≡ length l
length-set [] i v = refl
length-set (x ∷ l) zero v = refl
length-set (x ∷ l) (suc i) v = ap suc (length-set l i v)
