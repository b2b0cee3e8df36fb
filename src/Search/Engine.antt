-- ===== src/Search/Engine.antt =====
-- src-tauri/src/search/engine.rs: the search over the tree, the full text index, the applications and
-- the names of the database, with a cache of what was found. A lock makes each call one step.
pub mod Distinct
pub mod Results
pub mod Cache
pub mod Examples
use synapt.Prelude.{
  ℕ, Bool, true, false, ◌||◌, none, some, List, [], ◌++◌, map, length, take, is_empty, Text, codes,
  ltb, as_i64, Result, ok, err, if◌then◌else◌,
}
use synapt.Prelude.Sort.{sort_by}
use synapt.Search.Bloom.{BloomFilter}
use synapt.Search.Bloom
use synapt.Search.Fuzzy.Similarity.{Scores, match_candidates}
use synapt.Search.Trie.{Trie, prefix_search}
use synapt.Search.Trie
use synapt.Storage.Rows.{Db}
use synapt.Storage.Catalog.{get_all_files_for_index}
use synapt.Storage.Lookup.{search_files_by_name, search_dirs_by_name, search_apps_by_name}
pub use synapt.Search.Ranked.{
  lru_capacity, lev_max_dist, min_results_before_fuzzy, ResultType, ResultSource, SearchResult,
  SearchError, LruCache, Lookup, Calls, ◌>>=◌, indexed, file_name_of, inserted, strip_prefix,
  dir_result, app_result, match_result, Found, by_path, before, file, app, local_file, local_app,
  remote, dirs, apps, files, db, index,
}
unfoldable pub use synapt.Search.Ranked.{
  build_from, build_indexes, ends_with_char, drop_leading, drop_trailing, trim_matches, file_result,
  add, add_all, less,
}

module _ {F : Type 0} (sc : Scores F) where
  module _ {C : Type 0} (lru : LruCache C (List (SearchResult F))) (calls : Calls) where
    pub record SearchEngine : Type 0 where
      pub trie : Trie
      pub bloom : BloomFilter
      pub cache : C
      pub db : Db

    abbrev pub looked_up : {A : Type 0} → Lookup → A → Result A SearchError
    looked_up lookup rows = if calls.fails lookup then err db else ok rows

    unfoldable pub init : Bool → Db → Result SearchEngine SearchError
    unfolding build_indexes get_all_files_for_index
    init available store =
        if available
        then (let built = build_indexes calls (get_all_files_for_index store) in
            ok (record {
              trie = built.0;
              bloom = built.1;
              cache = lru.empty lru_capacity;
              db = store;
            }))
        else err db

    unfoldable pub invalidate_cache : SearchEngine → SearchEngine
    invalidate_cache engine = record engine { cache = lru.clear engine.cache }

    unfoldable pub rebuild : Bool → SearchEngine → Result (Unit {0}) SearchError × SearchEngine
    unfolding build_indexes get_all_files_for_index invalidate_cache
    rebuild available engine =
        if available
        then (let built = build_indexes calls (get_all_files_for_index engine.db) in
            (ok tt, invalidate_cache (record engine { trie = built.0; bloom = built.1 })))
        else (err db, engine)

    -- The stages, each with its condition.
    unfoldable pub full_text : Text → ℕ → Found sc → Result (Found sc) SearchError
    unfolding add_all
    full_text q max_results found =
        if ltb (length found.results) max_results
        then (indexed (calls.index_search q max_results) >>= λ paths.
            ok (add_all sc found (by_path sc (sc.hundredths 80) paths)))
        else ok found

    unfoldable pub wildcard : Text → ℕ → Found sc → Result (Found sc) SearchError
    unfolding add_all
    wildcard q max_results found =
        if ltb (length found.results) min_results_before_fuzzy
        then (indexed (calls.index_wildcard q max_results) >>= λ paths.
            ok (add_all sc found (by_path sc (sc.hundredths 65) paths)))
        else ok found

    -- A search for applications that fails finds none.
    unfoldable pub applications : SearchEngine → Text → Found sc → Found sc
    unfolding add_all search_apps_by_name
    applications engine q found = add_all sc found (
        map (λ r. (codes "app:" ++ r.source_path, app_result sc r))
          (if calls.fails apps then [] else search_apps_by_name engine.db q))

    unfoldable pub fuzzy : SearchEngine → Text → ℕ → Found sc → Result (Found sc) SearchError
    unfolding add_all search_files_by_name match_candidates
    fuzzy engine q max_results found =
        if ltb (length found.results) min_results_before_fuzzy
        then (looked_up files (search_files_by_name engine.db q (as_i64 500)) >>= λ candidates. ok (
            add_all sc found (
              map (λ m. (m.path, match_result sc m))
                (match_candidates sc calls.to_lowercase q candidates (sc.hundredths 75) lev_max_dist
                  max_results))))
        else ok found

    unfoldable pub pipeline : SearchEngine → Text → ℕ → Result (List (SearchResult F)) SearchError
    unfolding full_text wildcard applications fuzzy add_all
    pipeline engine q max_results =
        let first =
          add_all sc (record { seen = []; results = [] })
            (by_path sc (sc.hundredths 100) (prefix_search engine.trie q max_results)) in
        full_text q max_results first >>= λ second. wildcard q max_results second >>= λ third.
        fuzzy engine q max_results (applications engine q third) >>= λ found.
        ok (take max_results (sort_by (before sc) found.results))

    -- What the cache has for the query, or what the pipeline finds, which is put into the cache.
    unfoldable pub search_names :
        SearchEngine → Text → ℕ → Result (List (SearchResult F)) SearchError × SearchEngine
    unfolding pipeline
    search_names engine q max_results =
        let (hit, cache) = lru.get engine.cache q in
        elim hit [
          | some results ↦ (ok results, record engine { cache = cache })
          | none ↦ elim (pipeline engine q max_results) [
            | err e ↦ (err e, record engine { cache = cache })
            | ok results ↦ (ok results, record engine { cache = lru.put cache q results })
          ]
        ]

    unfoldable pub search_dirs :
        SearchEngine → Text → ℕ → Result (List (SearchResult F)) SearchError
    unfolding search_dirs_by_name
    search_dirs engine dir_query max_results =
        if is_empty dir_query
        then ok []
        else looked_up dirs (search_dirs_by_name engine.db dir_query (as_i64 max_results))
          >>= λ rows. ok (map (dir_result sc) rows)

    unfoldable pub search_star : Text → ℕ → Result (List (SearchResult F)) SearchError
    search_star stripped max_results =
        if is_empty stripped
        then ok []
        else indexed (calls.index_wildcard stripped max_results) >>= λ paths.
            ok (map (λ path. file_result sc path (sc.hundredths 65)) paths)

    abbrev pub is_starred : Text → Bool
    is_starred query =
        elim (strip_prefix b'*' query) [ none ↦ false | some t ↦ true ] || ends_with_char b'*' query

    unfoldable pub search :
        SearchEngine → Text → ℕ → Result (List (SearchResult F)) SearchError × SearchEngine
    unfolding search_names search_dirs search_star trim_matches ends_with_char
    search engine query max_results =
        let query_trimmed = calls.trim query in
        if is_empty query_trimmed then (ok [], engine) else elim (strip_prefix b'/' query_trimmed) [
          | some dir_query ↦ (search_dirs engine (calls.trim dir_query) max_results, engine)
          | none ↦
              if is_starred query_trimmed
              then (
                search_star (calls.to_lowercase (trim_matches b'*' query_trimmed)) max_results,
                engine,
              )
              else search_names engine (calls.to_lowercase query_trimmed) max_results
        ]

    unfoldable pub add_file : SearchEngine → Text → Text → SearchEngine
    unfolding Bloom.insert
    add_file engine name path = record engine {
      trie = Trie.insert engine.trie (calls.to_lowercase name) path;
      bloom = inserted engine.bloom (calls.to_lowercase name);
    }

    unfoldable pub remove_file : SearchEngine → Text → SearchEngine
    remove_file engine name = record engine {
      trie = (Trie.remove engine.trie (calls.to_lowercase name)).0;
    }
