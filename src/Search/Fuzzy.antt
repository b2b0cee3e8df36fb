-- ===== src/Search/Fuzzy.antt =====
-- src-tauri/src/search/fuzzy.rs: the edit distance.
pub mod Distance
pub mod Similarity
mod Examples
use synapt.Prelude.{ℕ, ◌+◌, min, List, [], ◌∷◌, is_empty, length, ltb, ◌==◌, Text, if◌then◌else◌}

abbrev pub cost : ℕ → ℕ → ℕ
cost x y = if x == y then 0 else 1

-- `(0..=b.len()).collect()`, from a number on
unfoldable pub first_row : ℕ → Text → List ℕ
first_row n [] = n ∷ []
first_row n (y ∷ b) = n ∷ first_row (n + 1) b

-- The loop over `b`: what is left of the row above begins at the place before, and `left` is the
-- number just written.
unfoldable pub next_numbers : ℕ → ℕ → Text → List ℕ → List ℕ
next_numbers x left (y ∷ b) (diagonal ∷ up ∷ above) =
    let here = min (min (up + 1) (left + 1)) (diagonal + cost x y) in
    here ∷ next_numbers x here b (up ∷ above)
next_numbers x left b above = []

-- The loop over `a`, where `i` is the number of the row.
unfoldable pub rows : ℕ → Text → Text → List ℕ → List ℕ
unfolding next_numbers
rows i [] b row = row
rows i (x ∷ a) b row = rows (i + 1) a b (i ∷ next_numbers x i b row)

-- `prev[b.len()]`
abbrev pub last_or : ℕ → List ℕ → ℕ
last_or n [] = n
last_or n (m ∷ row) = last_or m row

unfoldable pub levenshtein_sorted : Text → Text → ℕ
unfolding first_row rows
levenshtein_sorted a b = if is_empty b then length a else last_or 0 (rows 1 a b (first_row 0 b))

unfoldable pub levenshtein : Text → Text → ℕ
unfolding levenshtein_sorted
levenshtein s1 s2 =
    if ltb (length s1) (length s2) then levenshtein_sorted s2 s1 else levenshtein_sorted s1 s2
