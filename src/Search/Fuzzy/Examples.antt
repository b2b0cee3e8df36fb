-- ===== src/Search/Fuzzy/Examples.antt =====
-- Distances of concrete words.
use synapt.Prelude.{◌≡◌, refl, [], codes}
use synapt.Search.Fuzzy.{levenshtein}

kitten : levenshtein (codes "kitten") (codes "sitting") ≡ 3
unfolding levenshtein
kitten = refl

empty : levenshtein [] (codes "abc") ≡ 3
unfolding levenshtein
empty = refl
