-- ===== src/Search/Fuzzy/Distance.antt =====
-- The rows compute the edit distance.
use synapt.Prelude.{ℕ, suc, ◌+◌, min, ◌≡◌, refl, List, [], ◌∷◌, length, Text, arith, ==_iff}
use synapt.Search.Fuzzy.{cost}

-- The fewest insertions, deletions and substitutions between two texts, by their last letters: the
-- texts are written back to front.
unfoldable pub distance : Text → Text → ℕ
distance [] t = length t
distance (x ∷ s) [] = suc (length s)
distance (x ∷ s) (y ∷ t) =
    min (min (distance s (y ∷ t) + 1) (distance (x ∷ s) t + 1)) (distance s t + cost x y)

abbrev pub reversed_onto : Text → Text → Text
reversed_onto [] done = done
reversed_onto (c ∷ s) done = reversed_onto s (c ∷ done)

cost_comm : (x y : ℕ) → cost x y ≡ cost y x
cost_comm x y = ground (arith, ==_iff x y, ==_iff y x)

pub distance_comm : (s t : Text) → distance s t ≡ distance t s
unfolding distance
distance_comm [] [] = refl
distance_comm [] (y ∷ t) = refl
distance_comm (x ∷ s) [] = refl
distance_comm (x ∷ s) (y ∷ t) =
    omega
      (arith, distance_comm s (y ∷ t), distance_comm (x ∷ s) t, distance_comm s t, cost_comm x y)

-- The row for a text: its distances to the beginnings of another, of which `done` is passed.
abbrev row_of : Text → Text → Text → List ℕ
row_of s done [] = distance s done ∷ []
row_of s done (y ∷ b) = distance s done ∷ row_of s (y ∷ done) b
