-- ===== src/Search/Ranked.antt =====
-- src-tauri/src/search/engine.rs: what a search gives, and the helpers of its stages.
use synapt.Prelude.{
  ◌≡◌, ℕ, max, Bool, true, false, ◌&&◌, ◌||◌, Option, none, some, List, [], ◌∷◌, ◌++◌, map, length,
  is_empty, Text, text_eq, ◌==◌, Result, ok, err, if◌then◌else◌,
}
use synapt.Network.Transfer.{file_name}
use synapt.Search.Bloom.{BloomFilter}
use synapt.Search.Bloom
use synapt.Search.Fuzzy.Similarity.{Scores, FuzzyMatch}
use synapt.Search.Trie.{Trie}
use synapt.Search.Trie
use synapt.Storage.Rows.{FileRow, AppRow, has_key}

abbrev pub lru_capacity : ℕ
lru_capacity = 200

abbrev pub lev_max_dist : ℕ
lev_max_dist = 2

abbrev pub min_results_before_fuzzy : ℕ
min_results_before_fuzzy = 3

pub data ResultType : Type 0 where
  file : ResultType
  app : ResultType

pub data ResultSource : Type 0 where
  local_file : ResultSource
  local_app : ResultSource
  remote : Text → ResultSource

pub record SearchResult (F : Type 0) : Type 0 where
  pub name : Text
  pub path : Text
  pub exec : Option Text
  pub result_type : ResultType
  pub source : ResultSource
  pub score : F
  pub icon_path : Option Text

pub data SearchError : Type 0 where
  db : SearchError
  index : Text → SearchError

-- The crate lru, with what it documents: a value that was put is there, and a look at it, which
-- makes it the most recent, keeps it; a cache that was cleared is empty.
pub record LruCache (C V : Type 0) : Type 0 where
  pub empty : ℕ → C
  pub get : C → Text → Option V × C
  pub put : C → Text → V → C
  pub clear : C → C
  pub get-put : (c : C) (k : Text) (v : V) → (get (put c k v) k).0 ≡ some v
  pub get-get : (c : C) (k : Text) (v : V) → (get c k).0 ≡ some v → (get (get c k).1 k).0 ≡ some v
  pub get-clear : (c : C) (k : Text) → (get (clear c) k).0 ≡ none

-- The searches of the database, by what they look for.
pub data Lookup : Type 0 where
  dirs : Lookup
  apps : Lookup
  files : Lookup

-- What the engine calls and does not hold: the case and the white space of Unicode, the full text
-- index of the crate tantivy, and whether a search of the database fails.
pub record Calls : Type 0 where
  pub to_lowercase : Text → Text
  pub trim : Text → Text
  pub index_search : Text → ℕ → Result (List Text) Text
  pub index_wildcard : Text → ℕ → Result (List Text) Text
  pub fails : Lookup → Bool
  pub bits_for : ℕ → ℕ
  pub probes_for : ℕ → ℕ → ℕ

infixl 5 ◌>>=◌
abbrev pub ◌>>=◌ :
    {A B : Type 0} → Result A SearchError → (A → Result B SearchError) → Result B SearchError
err e >>= f = err e
ok a >>= f = f a

abbrev pub indexed : {A : Type 0} → Result A Text → Result A SearchError
indexed (ok a) = ok a
indexed (err e) = err (index e)

abbrev pub file_name_of : Text → Text
file_name_of path = elim (file_name path) [ none ↦ path | some name ↦ name ]

-- The filter after an insertion; an index outside of its bits, a panic of the source, never occurs.
abbrev pub inserted : BloomFilter → Text → BloomFilter
inserted filter term = elim (Bloom.insert filter term) [ none ↦ filter | some filter' ↦ filter' ]

unfoldable pub build_from : Calls → List FileRow → Trie × BloomFilter → Trie × BloomFilter
build_from calls [] built = built
build_from calls (f ∷ rows) built = build_from calls rows (
  Trie.insert built.0 (calls.to_lowercase f.name) f.path,
  inserted built.1 (calls.to_lowercase f.name),
)

unfoldable pub build_indexes : Calls → List FileRow → Trie × BloomFilter
unfolding build_from
build_indexes calls rows =
    build_from calls rows
      (Trie.new, Bloom.new calls.bits_for calls.probes_for (max (length rows) 1000))

-- `strip_prefix`, `starts_with` and `ends_with` of a character, and `trim_matches`
abbrev pub strip_prefix : ℕ → Text → Option Text
strip_prefix c [] = none
strip_prefix c (d ∷ text) = if d == c then some text else none

unfoldable pub ends_with_char : ℕ → Text → Bool
ends_with_char c [] = false
ends_with_char c (d ∷ text) = (is_empty text && d == c) || ends_with_char c text

unfoldable pub drop_leading : ℕ → Text → Text
drop_leading c [] = []
drop_leading c (d ∷ text) = let rest = drop_leading c text in if d == c then rest else d ∷ text

unfoldable pub drop_trailing : ℕ → Text → Text
drop_trailing c [] = []
drop_trailing c (d ∷ text) =
    let rest = drop_trailing c text in if is_empty rest && d == c then [] else d ∷ rest

unfoldable pub trim_matches : ℕ → Text → Text
unfolding drop_leading drop_trailing
trim_matches c text = drop_trailing c (drop_leading c text)

module _ {F : Type 0} (sc : Scores F) where
  unfoldable pub file_result : Text → F → SearchResult F
  file_result path score = record {
    name = file_name_of path;
    path = path;
    exec = none;
    result_type = file;
    source = local_file;
    score = score;
    icon_path = none;
  }

  abbrev pub dir_result : FileRow → SearchResult F
  dir_result r = record {
    name = r.name;
    path = r.path;
    exec = none;
    result_type = file;
    source = local_file;
    score = sc.hundredths 100;
    icon_path = none;
  }

  abbrev pub app_result : AppRow → SearchResult F
  app_result r = record {
    name = r.name;
    path = r.source_path;
    exec = some r.exec;
    result_type = app;
    source = local_app;
    score = sc.hundredths 100;
    icon_path = r.icon_path;
  }

  abbrev pub match_result : FuzzyMatch F → SearchResult F
  match_result m = record {
    name = m.name;
    path = m.path;
    exec = none;
    result_type = file;
    source = local_file;
    score = sc.mul m.score (sc.hundredths 60);
    icon_path = none;
  }

  -- The results so far, and the set `seen`.
  pub record Found : Type 0 where
    pub seen : List Text
    pub results : List (SearchResult F)

  -- `if seen.insert(key) { results.push(result) }`
  unfoldable pub add : Found → Text → SearchResult F → Found
  unfolding has_key
  add found key result =
      if has_key (text_eq key) found.seen
      then found
      else record { seen = key ∷ found.seen; results = found.results ++ result ∷ [] }

  unfoldable pub add_all : Found → List (Text × SearchResult F) → Found
  unfolding add
  add_all found [] = found
  add_all found ((key, result) ∷ more) = add_all (add found key result) more

  abbrev pub by_path : F → List Text → List (Text × SearchResult F)
  by_path score paths = map (λ path. (path, file_result path score)) paths

  -- `Less` in the comparison of the sort: applications first, then the higher score.
  unfoldable pub less : ResultType → F → ResultType → F → Bool
  less app s file t = true
  less file s app t = false
  less app s app t = sc.gt s t
  less file s file t = sc.gt s t

  abbrev pub before : SearchResult F → SearchResult F → Bool
  before a b = less a.result_type a.score b.result_type b.score
