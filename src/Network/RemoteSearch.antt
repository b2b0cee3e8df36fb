-- ===== src/Network/RemoteSearch.antt =====
-- src-tauri/src/network/search_server.rs: the server that answers searches and launches of a peer.
-- A connection is the one of Network/Stream; the nonces are random, and `spawned` are the commands
-- that have been run.
pub mod Disclosure
pub mod Launches
mod Examples
use synapt.Prelude.{
  ℕ, Bool, true, false, ◌||◌, Option, none, some, List, [], ◌∷◌, ◌++◌, ◌*◌, map, filter_by, length,
  Text, codes, text_eq, Result, ok, err, ok_or, map_err, leb, if◌then◌else◌,
}
use synapt.Network.Crypto.{Bytes, Primitives}
use synapt.Network.Session.{Json, session_handshake_server}
use synapt.Network.Stream.{TcpStream, SessionError, read_enc, write_enc}
use synapt.Network.Stream
use synapt.Network.Transfer.Serve.{is_path_allowed}
use synapt.Search.Engine.{
  SearchResult, ResultType, app, file, SearchError, LruCache, Calls, SearchEngine, search,
}
use synapt.Search.Fuzzy.Similarity.{Scores}
use synapt.Storage.Rows.{Db}
use synapt.Storage.Devices.{get_shared_dirs, get_trusted_peers}
use synapt.Storage.Catalog.{app_exec_by_source_path}
use synapt.Trust.{LocalIdentity}

pub data SearchServerError : Type 0 where
  session : SessionError → SearchServerError
  json : SearchServerError
  search_error : SearchError → SearchServerError
  db : SearchServerError

pub data SearchMsg (F : Type 0) : Type 0 where
  search_request : Text → ℕ → SearchMsg F
  search_results : List (SearchResult F) → SearchMsg F
  launch_request : Text → SearchMsg F
  launch_result : Bool → Option Text → SearchMsg F

abbrev pub max_icon_bytes : ℕ
max_icon_bytes = 256 * 1024

-- What the system and the crates do: the JSON of the messages, the components of a path, the content
-- of an icon's file where it can be read, base64, and whether a command can be run.
pub record System (F : Type 0) : Type 0 where
  pub to_vec : SearchMsg F → Bytes
  pub from_slice : Bytes → Option (SearchMsg F)
  pub canonicalize : Text → Option (List Text)
  pub read_icon : Text → Option Bytes
  pub to_lowercase : Text → Text
  pub encode : Bytes → Text
  pub launch_app : Text → Result (Unit {0}) Text

unfoldable pub ends_with : Text → Text → Bool
ends_with suffix [] = text_eq [] suffix
ends_with suffix (c ∷ text) = text_eq (c ∷ text) suffix || ends_with suffix text

unfoldable pub mime_of : Text → Option Text
unfolding ends_with
mime_of lower =
    if ends_with (codes ".png") lower
    then some (codes "image/png")
    else if ends_with (codes ".svg") lower
    then some (codes "image/svg+xml")
    else none

module _ {F : Type 0} (sys : System F) where
  -- The icon as a data URI, where its kind is known, it can be read, and it is not too large.
  unfoldable pub data_uri : Text → Option Text
  unfolding mime_of
  data_uri path = elim (mime_of (sys.to_lowercase path)) [
    | none ↦ none
    | some mime ↦ elim (sys.read_icon path) [
      | none ↦ none
      | some bytes ↦
          if leb (length bytes) max_icon_bytes
          then some (codes "data:" ++ (mime ++ (codes ";base64," ++ sys.encode bytes)))
          else none
    ]
  ]

  unfoldable pub embed_app_icon : SearchResult F → SearchResult F
  unfolding data_uri
  embed_app_icon r = record r {
    icon_path = elim r.result_type [
      | file ↦ r.icon_path
      | app ↦ elim r.icon_path [ none ↦ none | some path ↦ data_uri path ]
    ];
  }

  abbrev pub is_app : ResultType → Bool
  is_app app = true
  is_app file = false

  abbrev pub may_show : List Text → SearchResult F → Bool
  may_show shared_dirs r =
      is_app r.result_type || is_path_allowed sys.canonicalize r.path shared_dirs

  unfoldable pub visible : List Text → List (SearchResult F) → List (SearchResult F)
  unfolding embed_app_icon
  visible shared_dirs results = map embed_app_icon (filter_by (may_show shared_dirs) results)

  unfoldable pub resolve_launch_exec : Bool → Db → Text → Result Text Text
  unfolding app_exec_by_source_path
  resolve_launch_exec available store source_path =
      if available
      then ok_or (app_exec_by_source_path store source_path) (codes "App not found in local index")
      else err (codes "db error")

  -- The answer, and the command that was run.
  unfoldable pub handle_launch_request : Bool → Db → Text → Result (Unit {0}) Text × List Text
  unfolding resolve_launch_exec
  handle_launch_request available store source_path =
      elim (resolve_launch_exec available store source_path) [
        | err e ↦ (err e, [])
        | ok exec ↦ (sys.launch_app exec, exec ∷ [])
      ]

  module _ {C : Type 0} (sc : Scores F) (lru : LruCache C (List (SearchResult F))) (calls : Calls)
      (available : Bool) where
    abbrev pub result_msg : Result (Unit {0}) Text → SearchMsg F
    result_msg (ok u) = launch_result true none
    result_msg (err e) = launch_result false (some e)

    -- What a request is answered with, if it is one; the engine after it; and what was run.
    unfoldable pub respond :
        SearchEngine sc lru calls
        → SearchMsg F
        → Result (Option (SearchMsg F)) SearchServerError × SearchEngine sc lru calls × List Text
    unfolding visible handle_launch_request get_shared_dirs
    respond engine (search_request query max_results) =
        let (results, engine') = search sc lru calls engine query max_results in
        elim results [
          | err e ↦ (err (search_error e), engine', [])
          | ok rs ↦ (
            if available
                then ok (some (search_results (visible (get_shared_dirs engine.db) rs)))
                else err db,
            engine',
            [],
          )
        ]
    respond engine (launch_request source_path) =
        let (answer, run) = handle_launch_request available engine.db source_path in
        (ok (some (result_msg answer)), engine, run)
    respond engine (search_results rs) = (ok none, engine, [])
    respond engine (launch_result success error) = (ok none, engine, [])

    -- The whole of a connection: its result, the engine, the commands run, and the connection.
    pub record Served : Type 0 where
      pub result : Result (Unit {0}) SearchServerError
      pub engine : SearchEngine sc lru calls
      pub spawned : List Text
      pub stream : TcpStream

    abbrev pub ended :
        Result (Unit {0}) SearchServerError
        → SearchEngine sc lru calls
        → List Text
        → TcpStream
        → Served
    ended result engine spawned stream = record {
      result = result;
      engine = engine;
      spawned = spawned;
      stream = stream;
    }

    module _ (p : Primitives) (key nonce : Bytes) where
      unfoldable pub reply :
          Result (Option (SearchMsg F)) SearchServerError
          → SearchEngine sc lru calls
          → List Text
          → TcpStream
          → Served
      reply (err e) engine run s = ended (err e) engine run s
      reply (ok none) engine run s = ended (ok tt) engine run s
      reply (ok (some msg)) engine run s =
          let (sent, s') = write_enc p nonce key (sys.to_vec msg) s in
          ended (map_err session sent) engine run s'

      unfoldable pub serve_request : SearchEngine sc lru calls → TcpStream → Served
      unfolding respond reply
      serve_request engine s =
          let (bytes, s') = read_enc p key s in
          elim bytes [
            | err e ↦ ended (err (session e)) engine [] s'
            | ok b ↦ elim (sys.from_slice b) [
              | none ↦ ended (err json) engine [] s'
              | some msg ↦
                  let (answer, engine', run) = respond engine msg in reply answer engine' run s'
            ]
          ]

    unfoldable pub handle_search_conn :
        Primitives
        → Json
        → LocalIdentity
        → Bytes
        → Bytes
        → SearchEngine sc lru calls
        → TcpStream
        → Served
    unfolding serve_request
    handle_search_conn p sj identity session_nonce nonce engine s =
        let peers = if available then ok (get_trusted_peers engine.db) else err Stream.db in
        let (shaken, s') = session_handshake_server p sj identity peers session_nonce s in
        elim shaken [
          | err e ↦ ended (err (session e)) engine [] s'
          | ok k ↦ serve_request p k.0 nonce engine s'
        ]
