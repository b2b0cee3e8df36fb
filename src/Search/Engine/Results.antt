-- ===== src/Search/Engine/Results.antt =====
-- What a search of the names gives: no more than asked for, in order, and nothing twice.
use synapt.Prelude.{ℕ, ◌≤◌, ◌≡◌, true, List, length, All, Text, text_eq, Result, ok, err}
use synapt.Search.Fuzzy.Similarity.{Scores}
use synapt.Storage.Rows.{has_key}
use synapt.Search.Engine.{SearchResult, SearchError, LruCache, Calls, Found}
use synapt.Search.Engine.Distinct.{IsRanked, key_of, IsDistinct}

module _ {F : Type 0} (sc : Scores F) where
  -- Every result is known by its key, and no two by one.
  abbrev IsClean : Found sc → Type 0
  IsClean found =
      IsDistinct sc found.results
      × All (λ r. has_key (text_eq (key_of sc r)) found.seen ≡ true) found.results

  abbrev IsKeyed : Text × SearchResult F → Type 0
  IsKeyed hit = hit.0 ≡ key_of sc hit.1

  -- What holds of the value, where there is one.
  abbrev Gives : {A : Type 0} → Result A SearchError → (A → Type 0) → Type 0
  Gives (err e) P = Unit {0}
  Gives (ok a) P = P a

  module _ {C : Type 0} (lru : LruCache C (List (SearchResult F))) (calls : Calls) where
    -- No more results than asked for, applications first and then the higher score, nothing twice.
    abbrev pub IsGood : ℕ → List (SearchResult F) → Type 0
    IsGood n rs = (length rs ≤ n) × IsRanked sc rs × IsDistinct sc rs
