-- ===== src/Search/Engine/Cache.antt =====
-- What the session cache of the search does to later searches.
use synapt.Prelude.{ℕ, ◌≡◌, refl, ap, ◌∙◌, none, some, List, Text, ok, arith}
use synapt.Search.Fuzzy.Similarity.{Scores}
use synapt.Search.Engine.{
  SearchResult, LruCache, Calls, SearchEngine, pipeline, applications, fuzzy, search_names,
  invalidate_cache,
}

module _ {F C : Type 0} (sc : Scores F) (lru : LruCache C (List (SearchResult F)))
    (calls : Calls) where
  -- The cache after a search that gave results has them for the query.
  stored :
      (engine : SearchEngine sc lru calls) (q : Text) (n : ℕ) (results : List (SearchResult F))
      → (search_names sc lru calls engine q n).0 ≡ ok results
      → (lru.get (search_names sc lru calls engine q n).1.cache q).0 ≡ some results
  unfolding search_names
  stored engine q n results h =
      ground (
        arith,
        lru.get-get engine.cache q results,
        lru.get-put (lru.get engine.cache q).1 q results,
      )

  from_cache :
      (engine : SearchEngine sc lru calls) (q : Text) (m : ℕ) (results : List (SearchResult F))
      → (lru.get engine.cache q).0 ≡ some results
      → (search_names sc lru calls engine q m).0 ≡ ok results
  unfolding search_names
  from_cache engine q m results h = ground (arith, h)

  anew :
      (engine : SearchEngine sc lru calls) (q : Text) (m : ℕ)
      → (lru.get engine.cache q).0 ≡ none
      → (search_names sc lru calls engine q m).0 ≡ pipeline sc lru calls engine q m
  unfolding search_names
  anew engine q m h = ground (arith, h)

pipeline-cache :
    {F C : Type 0} (sc : Scores F) (lru : LruCache C (List (SearchResult F))) (calls : Calls)
    (engine : SearchEngine sc lru calls) (cache : C) (q : Text) (m : ℕ)
    → pipeline sc lru calls (record engine { cache = cache }) q m ≡ pipeline sc lru calls engine q m
unfolding pipeline applications fuzzy
pipeline-cache sc lru calls engine cache q m = refl

-- As long as the cache is the one that a search with results left behind, its query gives the same
-- results again, whatever number of results is then asked for and whatever has become of the tree and
-- the database; once that cache is cleared, the query gives what the pipeline finds.
pub search_names-cached :
    {F C : Type 0} (sc : Scores F) (lru : LruCache C (List (SearchResult F))) (calls : Calls)
    (engine later : SearchEngine sc lru calls) (q : Text) (n m : ℕ)
    (results : List (SearchResult F))
    → (search_names sc lru calls engine q n).0 ≡ ok results
    → later.cache ≡ (search_names sc lru calls engine q n).1.cache
    → ((search_names sc lru calls later q m).0 ≡ ok results)
      × ((search_names sc lru calls (invalidate_cache sc lru calls later) q m).0
          ≡ pipeline sc lru calls later q m)
unfolding invalidate_cache
search_names-cached {C = C} sc lru calls engine later q n m results h same = (
  from_cache sc lru calls later q m results
      (ap (λ (c : C). (lru.get c q).0) same ∙ stored sc lru calls engine q n results h),
  anew sc lru calls (record later { cache = lru.clear later.cache }) q m
        (lru.get-clear later.cache q)
      ∙ pipeline-cache sc lru calls later (lru.clear later.cache) q m,
)
