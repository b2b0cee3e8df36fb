-- ===== src/Search/Engine/Examples.antt =====
-- The engine over hundredths for f64 and a list for the cache, and its theorems at concrete searches.
use synapt.Prelude.{
  ℕ, ◌+◌, ◌-◌, ◌*◌, ◌/◌, ◌≡◌, refl, false, Option, none, some, List, [], ◌∷◌, Text, codes, text_eq,
  text_lt, text_eq_refl, ok, ltb, leb, arith, if◌then◌else◌,
}
use synapt.Prelude.Sort.{sort_by, insert_by}
use synapt.Search.Fuzzy.Similarity.{Scores}
use synapt.Search.Bloom
use synapt.Search.Trie
use synapt.Storage.Examples.{empty_db}
use synapt.Storage.Lookup.{search_apps_by_name, like, any_suffix}
use synapt.Network.Transfer.{file_name, split}
use synapt.Search.Trie.{prefix_search}
use synapt.Storage.Rows.{Db, has_key}
use synapt.Search.Engine.{
  SearchResult, LruCache, Calls, SearchEngine, less, app, file, local_app, local_file, full_text,
  wildcard, applications, fuzzy, add_all, add, file_result, pipeline, search_names,
  invalidate_cache,
}
use synapt.Search.Engine.Cache.{search_names-cached}

abbrev pub hundreds : Scores ℕ
hundreds = record {
  of_nat = λ n. n * 100;
  hundredths = λ n. n;
  add = λ a b. a + b;
  sub = λ a b. a - b;
  mul = λ a b. a * b / 100;
  div = λ a b. a;
  gt = λ a b. ltb b a;
  ge = λ a b. leb b a;
}

abbrev Results : Type 0
Results = List (SearchResult ℕ)

abbrev pub cached : List (Text × Results) → Text → Option Results
cached [] k = none
cached ((j, v) ∷ entries) k = if text_eq j k then some v else cached entries k

pub cached-put :
    (c : List (Text × Results)) (k : Text) (v : Results) → cached ((k, v) ∷ c) k ≡ some v
cached-put c k v = ground (arith, text_eq_refl k)

abbrev pub listed : LruCache (List (Text × Results)) Results
listed = record {
  empty = λ n. [];
  get = λ c k. (cached c k, c);
  put = λ c k v. (k, v) ∷ c;
  clear = λ c. [];
  get-put = cached-put;
  get-get = λ c k v h. h;
  get-clear = λ c k. refl;
}

-- A full text index that finds one file twice.
abbrev pub calls : Calls
calls = record {
  to_lowercase = λ t. t;
  trim = λ t. t;
  index_search = λ q n. ok (codes "/d/ab" ∷ codes "/d/xa" ∷ []);
  index_wildcard = λ q n. ok (codes "/d/xa" ∷ []);
  fails = λ l. false;
  bits_for = λ n. n;
  probes_for = λ m n. 1;
}

abbrev with_app : Db
with_app = record empty_db {
  applications =
      record {
        id = 1;
        name = codes "abc";
        exec = codes "run";
        icon_path = none;
        platform = codes "linux";
        source_path = codes "/a";
      }
      ∷ [];
}

abbrev pub engine : SearchEngine hundreds listed calls
engine = record {
  trie = Trie.insert Trie.new (codes "ab") (codes "/d/ab");
  bloom = Bloom.new (λ n. n) (λ m n. 1) 10;
  cache = [];
  db = with_app;
}

abbrev the_app : SearchResult ℕ
the_app = record {
  name = codes "abc";
  path = codes "/a";
  exec = some (codes "run");
  result_type = app;
  source = local_app;
  score = 100;
  icon_path = none;
}

abbrev the_file : SearchResult ℕ
the_file = record {
  name = codes "ab";
  path = codes "/d/ab";
  exec = none;
  result_type = file;
  source = local_file;
  score = 100;
  icon_path = none;
}

found : pipeline hundreds listed calls engine (codes "a") 2 ≡ ok (the_app ∷ the_file ∷ [])
unfolding pipeline full_text wildcard applications fuzzy add_all add file_result less prefix_search
    search_apps_by_name like any_suffix has_key text_eq text_lt sort_by insert_by file_name split
    Trie.insert Trie.new Bloom.new
found = refl

searched :
    (search_names hundreds listed calls engine (codes "a") 2).0 ≡ ok (the_app ∷ the_file ∷ [])
unfolding search_names
searched = ground (arith, found)

search_names-cached_example :
    ((search_names hundreds listed calls
        (search_names hundreds listed calls engine (codes "a") 2).1
        (codes "a")
        50).0
      ≡ ok (the_app ∷ the_file ∷ []))
    × ((search_names hundreds listed calls
          (invalidate_cache hundreds listed calls
            (search_names hundreds listed calls engine (codes "a") 2).1)
          (codes "a")
          50).0
        ≡ pipeline hundreds listed calls
            (search_names hundreds listed calls engine (codes "a") 2).1
            (codes "a")
            50)
search_names-cached_example =
    search_names-cached hundreds listed calls engine
      (search_names hundreds listed calls engine (codes "a") 2).1 (codes "a") 2 50
      (the_app ∷ the_file ∷ []) searched refl
