-- ===== src/Search/Fuzzy/Similarity.antt =====
-- search/fuzzy.rs: the Jaro-Winkler similarity and the matcher, over an abstract type for f64.
use synapt.Prelude.{
  ℕ, zero, suc, ◌+◌, ◌-◌, ◌/◌, min, max, Bool, true, false, not, ◌&&◌, ◌||◌, Option, none, some,
  List, [], ◌∷◌, length, take, Text, ltb, leb, ◌==◌, if◌then◌else◌, is_empty,
}
use synapt.Prelude.Sort.{sort_by}
use synapt.Search.Fuzzy.{levenshtein}
use synapt.Storage.Rows.{FileRow}

-- The type f64: a whole number, a literal in hundredths, the operators, and the order.
pub record Scores (F : Type 0) : Type 0 where
  pub of_nat : ℕ → F
  pub hundredths : ℕ → F
  pub add : F → F → F
  pub sub : F → F → F
  pub mul : F → F → F
  pub div : F → F → F
  pub gt : F → F → Bool
  pub ge : F → F → Bool

-- `break` at the first characters that differ, and after four
unfoldable pub common_prefix : ℕ → Text → Text → ℕ
common_prefix zero a b = 0
common_prefix (suc n) [] b = 0
common_prefix (suc n) (x ∷ a) [] = 0
common_prefix (suc n) (x ∷ a) (y ∷ b) =
    let more = common_prefix n a b in if x == y then suc more else 0

-- The inner loop: the flags of `b` with the first one set, from `start` and before `end`, that is
-- not set and whose character is `x`; none where there is no such one. `j` is the place in `b`.
unfoldable pub match_char : ℕ → ℕ → ℕ → ℕ → Text → List Bool → Option (List Bool)
match_char x start end j [] flags = none
match_char x start end j (y ∷ b) [] = none
match_char x start end j (y ∷ b) (taken ∷ flags) =
    let rest = match_char x start end (j + 1) b flags in
    if leb start j && (ltb j end && (not taken && x == y))
    then some (true ∷ flags)
    else elim rest [ none ↦ none | some flags' ↦ some (taken ∷ flags') ]

-- The outer loop, from place `i` on: the flags of `a`, those of `b`, and the number of matches.
unfoldable pub match_chars : ℕ → ℕ → Text → Text → List Bool → List Bool × List Bool × ℕ
unfolding match_char
match_chars max_dist i [] b flags = ([], flags, 0)
match_chars max_dist i (x ∷ a) b flags =
    let found = match_char x (i - max_dist) (min (i + max_dist + 1) (length b)) 0 b flags in
    let rest = match_chars max_dist (i + 1) a b (elim found [ none ↦ flags | some f ↦ f ]) in
    elim found [
      | none ↦ (false ∷ rest.0, rest.1, rest.2)
      | some f ↦ (true ∷ rest.0, rest.1, suc rest.2)
    ]

-- The characters that are flagged. The loop over `k` passes over the others.
unfoldable pub flagged : Text → List Bool → Text
flagged [] flags = []
flagged (c ∷ chars) [] = []
flagged (c ∷ chars) (f ∷ flags) = let more = flagged chars flags in if f then c ∷ more else more

unfoldable pub transpositions : Text → Text → ℕ
transpositions [] b = 0
transpositions (x ∷ a) [] = 0
transpositions (x ∷ a) (y ∷ b) = (if x == y then 0 else 1) + transpositions a b

abbrev pub unset : Text → List Bool
unset [] = []
unset (c ∷ chars) = false ∷ unset chars

pub record FuzzyMatch (F : Type 0) : Type 0 where
  pub path : Text
  pub name : Text
  pub score : F

module _ {F : Type 0} (sc : Scores F) where
  abbrev pub thirds : ℕ → ℕ → ℕ → ℕ → F
  thirds m t la lb =
      sc.div
        (sc.add (sc.add (sc.div (sc.of_nat m) (sc.of_nat la)) (sc.div (sc.of_nat m) (sc.of_nat lb)))
          (sc.div (sc.sub (sc.of_nat m) (sc.of_nat t)) (sc.of_nat m)))
        (sc.of_nat 3)

  unfoldable pub jaro : Text → Text → F
  unfolding match_chars flagged transpositions
  jaro a b =
      if is_empty a && is_empty b
      then sc.of_nat 1
      else if is_empty a || is_empty b
      then sc.of_nat 0
      else let matched = match_chars (max (length a) (length b) / 2 - 1) 0 a b (unset b) in
        if matched.2 == 0
        then sc.of_nat 0
        else thirds matched.2 (transpositions (flagged a matched.0) (flagged b matched.1) / 2)
            (length a) (length b)

  unfoldable pub jaro_winkler : Text → Text → F
  unfolding jaro common_prefix
  jaro_winkler s1 s2 =
      let j = jaro s1 s2 in
      sc.add j (
        sc.mul (sc.mul (sc.of_nat (common_prefix 4 s1 s2)) (sc.hundredths 10))
          (sc.sub (sc.of_nat 1) j))

  -- The score of a name, where it is near enough to the query.
  unfoldable pub score_of : F → ℕ → Text → Text → Option F
  unfolding jaro_winkler levenshtein
  score_of jw_threshold lev_max_dist q name =
      let jw = jaro_winkler q name in
      let dist = levenshtein q name in
      if sc.ge jw jw_threshold
      then some jw
      else if leb dist lev_max_dist
      then some (
          sc.sub (sc.of_nat 1)
            (sc.div (sc.of_nat dist) (sc.of_nat (max (max (length q) (length name)) 1))))
      else none

  -- The loop over the candidates. `lowercase` is `str::to_lowercase`, by the tables of Unicode.
  unfoldable pub scored : (Text → Text) → F → ℕ → Text → List FileRow → List (FuzzyMatch F)
  unfolding score_of
  scored lowercase jw_threshold lev_max_dist q [] = []
  scored lowercase jw_threshold lev_max_dist q (candidate ∷ candidates) =
      let rest = scored lowercase jw_threshold lev_max_dist q candidates in
      elim (score_of jw_threshold lev_max_dist q (lowercase candidate.name)) [
        | none ↦ rest
        | some score ↦ record { path = candidate.path; name = candidate.name; score = score } ∷ rest
      ]

  unfoldable pub match_candidates :
      (Text → Text) → Text → List FileRow → F → ℕ → ℕ → List (FuzzyMatch F)
  unfolding scored
  match_candidates lowercase query candidates jw_threshold lev_max_dist limit = take limit (
      sort_by (λ a b. sc.gt a.score b.score)
        (scored lowercase jw_threshold lev_max_dist (lowercase query) candidates))
