-- ===== src/Network/RemoteSearch/Disclosure.antt =====
-- What a peer is shown of this device, and what it can have run on it.
use mathlib.Core.Path.{subst}
use synapt.Prelude.{
  ap, text_eq, text_eq_iff, ◌≡◌, refl, sym, ◌⊎◌, inl, inr, Bool, true, false, Option, none, some,
  List, [], ◌∷◌, All, map, filter_by, Text, Result, ok, err, arith, if◌then◌else◌,
}
use synapt.Network.RemoteSearch.{
  System, SearchServerError, SearchMsg, search_error, db, search_request, search_results,
  launch_request, launch_result, embed_app_icon, may_show, visible, resolve_launch_exec,
  handle_launch_request, result_msg, respond,
}
use synapt.Network.Transfer.Serve.Access.{IsShared, is_path_allowed-get_shared_dirs}
use synapt.Prelude.Members.{In}
use synapt.Search.Engine.{
  SearchResult, ResultType, app, file, SearchError, LruCache, Calls, SearchEngine, search,
}
use synapt.Search.Fuzzy.Similarity.{Scores}
use synapt.Storage.Devices.Trust.{In-select}
use synapt.Storage.Rows.{AppRow, Db, select}
use synapt.Storage.Devices.{get_shared_dirs}
use synapt.Storage.Catalog.{app_exec_by_source_path}

module _ {F : Type 0} (sys : System F) where
  -- An application, or a file under a shared directory.
  abbrev pub IsShown : Db → SearchResult F → Type 0
  IsShown store r = (r.result_type ≡ app) ⊎ IsShared sys.canonicalize r.path store.shared_dirs

  shown :
      (store : Db) (r : SearchResult F)
      → may_show sys (get_shared_dirs store) r ≡ true
      → IsShown store (embed_app_icon sys r)
  unfolding embed_app_icon
  shown store r h = go r.result_type refl
    where
      go : (t : ResultType) → r.result_type ≡ t → IsShown store (embed_app_icon sys r)
      go app e = inl e
      go file e =
          inr (
            (is_path_allowed-get_shared_dirs sys.canonicalize r.path store).0
              (ground (arith, e, h)))

  visible-IsShown :
      (store : Db) (rs : List (SearchResult F))
      → All (IsShown store) (visible sys (get_shared_dirs store) rs)
  unfolding visible
  visible-IsShown store [] = tt
  visible-IsShown store (r ∷ rs) =
      go (may_show sys (get_shared_dirs store) r) refl (visible-IsShown store rs)
    where
      go :
          (b : Bool)
          → may_show sys (get_shared_dirs store) r ≡ b
          → All (IsShown store) (visible sys (get_shared_dirs store) rs)
          → All (IsShown store) (
              map (embed_app_icon sys) (
                if b
                then r ∷ filter_by (may_show sys (get_shared_dirs store)) rs
                else filter_by (may_show sys (get_shared_dirs store)) rs))
      go true e rest = (shown store r e, rest)
      go false e rest = rest

  -- The command that is stored for an application of the local index that was asked for.
  abbrev pub IsIndexed : Db → SearchMsg F → Text → Type 0
  IsIndexed store msg exec =
      (row : AppRow) × (msg ≡ launch_request row.source_path)
      × In row store.applications
      × (row.exec ≡ exec)

  indexed :
      (store : Db) (path exec : Text)
      → app_exec_by_source_path store path ≡ some exec
      → IsIndexed store (launch_request path) exec
  unfolding app_exec_by_source_path
  indexed store path exec h = go (select (λ r. text_eq r.source_path path) store.applications) refl
    where
      go :
          (o : Option AppRow)
          → select (λ r. text_eq r.source_path path) store.applications ≡ o
          → IsIndexed store (launch_request path) exec
      go none e = absurd (ground (arith, e, h))
      go (some row) e =
          let (m, t) = In-select (λ r. text_eq r.source_path path) row store.applications e in
          (
            row,
            ap (λ (x : Text). launch_request x) (sym ((text_eq_iff row.source_path path).0 t)),
            m,
            ground (arith, e, h),
          )

  launch-IsIndexed :
      (available : Bool) (store : Db) (path : Text)
      → All
          (IsIndexed store (launch_request path))
          (handle_launch_request sys available store path).1
  unfolding handle_launch_request resolve_launch_exec
  launch-IsIndexed false store path = tt
  launch-IsIndexed true store path = go (app_exec_by_source_path store path) refl
    where
      go :
          (o : Option Text)
          → app_exec_by_source_path store path ≡ o
          → All
              (IsIndexed store (launch_request path))
              (handle_launch_request sys true store path).1
      go none e =
          let run : (handle_launch_request sys true store path).1 ≡ [] = ground (arith, e) in
          subst (All (IsIndexed store (launch_request path))) (sym run) tt
      go (some exec) e =
          let run : (handle_launch_request sys true store path).1 ≡ exec ∷ [] = ground (arith, e) in
          subst (All (IsIndexed store (launch_request path))) (sym run)
            (indexed store path exec e, tt)

  -- Every result of an answer is one that may be shown.
  abbrev pub IsDisclosed : Db → Result (Option (SearchMsg F)) SearchServerError → Type 0
  IsDisclosed store (ok (some (search_results rs))) = All (IsShown store) rs
  IsDisclosed store answer = Unit

  -- What holds of an answer and of the commands run holds of what equals them.
  told :
      (store : Db) (msg : SearchMsg F) {a b : Result (Option (SearchMsg F)) SearchServerError}
      {run ran : List Text}
      → a ≡ b
      → run ≡ ran
      → IsDisclosed store b × All (IsIndexed store msg) ran
      → IsDisclosed store a × All (IsIndexed store msg) run
  told store msg e f (shown, indexed) =
      (subst (IsDisclosed store) (sym e) shown, subst (All (IsIndexed store msg)) (sym f) indexed)

  module _ {C : Type 0} (sc : Scores F) (lru : LruCache C (List (SearchResult F))) (calls : Calls)
      (available : Bool) where
    -- Whatever a peer asks for, every result that it is answered with is an application or a file
    -- under a directory that is shared, and every command that is run is the one stored for an
    -- application of the local index that the message asked to launch.
    pub respond_lem :
        (engine : SearchEngine sc lru calls) (msg : SearchMsg F)
        → IsDisclosed engine.db (respond sys sc lru calls available engine msg).0
          × All (IsIndexed engine.db msg) (respond sys sc lru calls available engine msg).2
    unfolding respond
    respond_lem engine (search_request q n) = go available (search sc lru calls engine q n).0 refl
      where
        go :
            (b : Bool) (o : Result (List (SearchResult F)) SearchError)
            → (search sc lru calls engine q n).0 ≡ o
            → IsDisclosed engine.db (respond sys sc lru calls b engine (search_request q n)).0
              × All
                  (IsIndexed engine.db (search_request q n))
                  (respond sys sc lru calls b engine (search_request q n)).2
        go b (err x) e =
            told engine.db (search_request q n) {b = err (search_error x)} {ran = []}
              (ground (arith, e)) (ground (arith, e)) (tt, tt)
        go true (ok rs) e =
            told engine.db (search_request q n)
              {b = ok (some (search_results (visible sys (get_shared_dirs engine.db) rs)))}
              {ran = []} (ground (arith, e)) (ground (arith, e)) (visible-IsShown engine.db rs, tt)
        go false (ok rs) e =
            told engine.db (search_request q n) {b = err db} {ran = []} (ground (arith, e))
              (ground (arith, e)) (tt, tt)
    respond_lem engine (launch_request path) = (
      launched (handle_launch_request sys available engine.db path).0,
      launch-IsIndexed available engine.db path,
    )
      where
        launched :
            (answer : Result (Unit {0}) Text)
            → IsDisclosed engine.db (ok (some (result_msg sys sc lru calls available answer)))
        launched (ok u) = tt
        launched (err x) = tt
    respond_lem engine (search_results rs) = (tt, tt)
    respond_lem engine (launch_result s e) = (tt, tt)
