-- ===== src/Search/Engine/Distinct.antt =====
-- Results in order, none of them twice.
use synapt.Prelude.{
  ℕ, zero, suc, ◌≡◌, refl, sym, ◌≢◌, Bool, true, false, List, [], ◌∷◌, ◌++◌, take, All, Text, codes,
  text_eq, text_eq_refl, arith, if◌then◌else◌,
}
use synapt.Prelude.Sort.{insert_by, sort_by, IsSorted, IsOrdering, All-insert_by, All-sort_by}
use synapt.Prelude.Members.{All-append, All-imp, All-take}
use synapt.Search.Fuzzy.Similarity.{Scores}
use synapt.Storage.Rows.{has_key}
use synapt.Search.Engine.{ResultType, file, app, SearchResult, less, before}

pub less-IsOrdering :
    {F : Type 0} (sc : Scores F) → IsOrdering (λ a b. sc.gt a b) → IsOrdering (before sc)
unfolding less
less-IsOrdering {F = F} sc o = record {
  asymmetric = λ a b h. asym a.result_type b.result_type a.score b.score h;
  transitive =
      λ a b c h k. trans a.result_type b.result_type c.result_type a.score b.score c.score h k;
}
  where
    asym : (x y : ResultType) (s t : F) → less sc x s y t ≡ true → less sc y t x s ≡ false
    asym app app s t h = o.asymmetric s t h
    asym app file s t h = refl
    asym file app s t h = cc
    asym file file s t h = o.asymmetric s t h

    trans :
        (x y z : ResultType) (s t u : F)
        → less sc x s y t ≡ false
        → less sc y t z u ≡ false
        → less sc x s z u ≡ false
    trans app app app s t u h k = o.transitive s t u h k
    trans app app file s t u h k = cc
    trans app file z s t u h k = cc
    trans file y app s t u h k = refl
    trans file app file s t u h k = cc
    trans file file file s t u h k = o.transitive s t u h k

-- Applications stand before files, and within each kind a lower score never before a higher one.
abbrev pub MayPrecede : {F : Type 0} → Scores F → SearchResult F → SearchResult F → Type 0
MayPrecede sc a b =
    (b.result_type ≡ app → a.result_type ≡ app)
    × (a.result_type ≡ b.result_type → sc.gt b.score a.score ≡ false)

abbrev pub IsRanked : {F : Type 0} → Scores F → List (SearchResult F) → Type 0
IsRanked sc [] = Unit {0}
IsRanked sc (r ∷ rs) = All (MayPrecede sc r) rs × IsRanked sc rs

may_precede :
    {F : Type 0} (sc : Scores F) (a b : SearchResult F) → before sc b a ≡ false → MayPrecede sc a b
unfolding less
may_precede sc a b h = go a.result_type b.result_type refl refl
  where
    go : (x y : ResultType) → a.result_type ≡ x → b.result_type ≡ y → MayPrecede sc a b
    go app app e f = (λ k. e, λ k. ground (arith, e, f, h))
    go app file e f = (λ k. e, λ k. cc)
    go file app e f = absurd (ground (arith, e, f, h))
    go file file e f = (λ k. cc, λ k. ground (arith, e, f, h))

pub sorted-IsRanked :
    {F : Type 0} (sc : Scores F) (rs : List (SearchResult F))
    → IsSorted (before sc) rs
    → IsRanked sc rs
sorted-IsRanked sc [] s = tt
sorted-IsRanked sc (r ∷ rs) s = (All-imp (may_precede sc r) rs s.0, sorted-IsRanked sc rs s.1)

pub has_key_self : (seen : List Text) (key : Text) → has_key (text_eq key) (key ∷ seen) ≡ true
unfolding has_key
has_key_self seen key = ground (arith, text_eq_refl key)

module _ {F : Type 0} (sc : Scores F) where
  -- What the set `seen` knows a result by.
  abbrev pub key_of : SearchResult F → Text
  key_of r = elim r.result_type [ file ↦ r.path | app ↦ codes "app:" ++ r.path ]

  -- No two results are one file or one application.
  abbrev pub IsDistinct : List (SearchResult F) → Type 0
  IsDistinct [] = Unit {0}
  IsDistinct (r ∷ rs) = All (λ r'. key_of r' ≢ key_of r) rs × IsDistinct rs

  module _ (first : SearchResult F → SearchResult F → Bool) where
    pub insert_by-IsDistinct :
        (r : SearchResult F) (rs : List (SearchResult F))
        → All (λ r'. key_of r' ≢ key_of r) rs
        → IsDistinct rs
        → IsDistinct (insert_by first r rs)
    unfolding insert_by
    insert_by-IsDistinct r [] h d = (tt, tt)
    insert_by-IsDistinct r (r' ∷ rs) h d = go (first r' r) (insert_by-IsDistinct r rs h.1 d.1)
      where
        go :
            (b : Bool)
            → IsDistinct (insert_by first r rs)
            → IsDistinct (if b then r' ∷ insert_by first r rs else r ∷ r' ∷ rs)
        go true ih =
            (All-insert_by first (λ x. key_of x ≢ key_of r') r rs (λ e. h.0 (sym e)) d.0, ih)
        go false ih = (h, d)

    pub sort_by-IsDistinct :
        (rs : List (SearchResult F)) → IsDistinct rs → IsDistinct (sort_by first rs)
    unfolding sort_by
    sort_by-IsDistinct [] d = tt
    sort_by-IsDistinct (r ∷ rs) d =
        insert_by-IsDistinct r (sort_by first rs)
          (All-sort_by first (λ x. key_of x ≢ key_of r) rs d.0) (sort_by-IsDistinct rs d.1)

  pub take-IsDistinct :
      (n : ℕ) (rs : List (SearchResult F)) → IsDistinct rs → IsDistinct (take n rs)
  take-IsDistinct zero rs d = tt
  take-IsDistinct (suc n) [] d = tt
  take-IsDistinct (suc n) (r ∷ rs) d =
      (All-take (λ x. key_of x ≢ key_of r) n rs d.0, take-IsDistinct n rs d.1)

  pub IsDistinct-append :
      (rs : List (SearchResult F)) (r : SearchResult F)
      → IsDistinct rs
      → All (λ x. key_of r ≢ key_of x) rs
      → IsDistinct (rs ++ r ∷ [])
  IsDistinct-append [] r d h = (tt, tt)
  IsDistinct-append (x ∷ rs) r d h = (
    All-append (λ y. key_of y ≢ key_of x) rs (r ∷ []) d.0 (h.0, tt),
    IsDistinct-append rs r d.1 h.1,
  )
