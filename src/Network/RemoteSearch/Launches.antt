-- ===== src/Network/RemoteSearch/Launches.antt =====
-- Which commands a connection can have run.
use mathlib.Core.Path.{subst}
use synapt.Prelude.{
  ◌≡◌, refl, sym, Bool, true, false, text_lt, Option, none, some, List, [], All, Text, Result, ok,
  err, arith, if◌then◌else◌,
}
use synapt.Prelude.Members.{In, In-sort_by_inv, All-imp}
use synapt.Network.Crypto.{Bytes, Primitives}
use synapt.Network.Session.{Json, session_handshake_server}
use synapt.Network.Stream.{TcpStream, SessionError, read_enc}
use synapt.Network.Stream
use synapt.Network.RemoteSearch.{
  System, SearchServerError, SearchMsg, respond, reply, serve_request, handle_search_conn,
}
use synapt.Network.RemoteSearch.Disclosure.{IsIndexed, respond_lem}
use synapt.Search.Engine.{SearchResult, LruCache, Calls, SearchEngine}
use synapt.Search.Fuzzy.Similarity.{Scores}
use synapt.Network.Session.Known.{handshake-known}
use synapt.Storage.Rows.{TrustedPeerRow, Db}
use synapt.Storage.Devices.{get_trusted_peers}
use synapt.Trust.{LocalIdentity}

-- The id of one of the peers that the database holds as trusted.
abbrev pub IsTrusted : Db → Text → Type 0
IsTrusted store peer = (row : TrustedPeerRow) × In row store.trusted_peers × (row.device_id ≡ peer)

ok_inj :
    {xs ys : List TrustedPeerRow} (r : Result (List TrustedPeerRow) SessionError)
    → r ≡ ok ys
    → r ≡ ok xs
    → xs ≡ ys
ok_inj r h k = cc

module _ {F : Type 0} (sys : System F) {C : Type 0} (sc : Scores F)
    (lru : LruCache C (List (SearchResult F))) (calls : Calls) (available : Bool)
    (p : Primitives) where
  -- A command whose launch was asked for by the message that a key opens.
  abbrev pub IsOpened : Bytes → TcpStream → SearchEngine sc lru calls → Text → Type 0
  IsOpened key s engine exec =
      (b : Bytes) × (msg : SearchMsg F) × ((read_enc p key s).0 ≡ ok b)
      × (sys.from_slice b ≡ some msg)
      × IsIndexed sys engine.db msg exec

  reply-spawned :
      (key nonce : Bytes) (answer : Result (Option (SearchMsg F)) SearchServerError)
      (engine : SearchEngine sc lru calls) (run : List Text) (s : TcpStream)
      → (reply sys sc lru calls available p key nonce answer engine run s).spawned ≡ run
  unfolding reply
  reply-spawned key nonce (err e) engine run s = refl
  reply-spawned key nonce (ok none) engine run s = refl
  reply-spawned key nonce (ok (some msg)) engine run s = refl

  module _ (key nonce : Bytes) (engine : SearchEngine sc lru calls) (s : TcpStream) where
    abbrev pub served : List Text
    served = (serve_request sys sc lru calls available p key nonce engine s).spawned

    of_msg :
        (b : Bytes) (o : Option (SearchMsg F))
        → (read_enc p key s).0 ≡ ok b
        → sys.from_slice b ≡ o
        → All (IsOpened key s engine) served
    unfolding serve_request
    of_msg b none r f =
        let run : served ≡ [] = ground (arith, r, f) in
        subst (All (IsOpened key s engine)) (sym run) tt
    of_msg b (some msg) r f =
        let turn = respond sys sc lru calls available engine msg in
        let run : served ≡ turn.2 =
          ground (arith, r, f, reply-spawned key nonce turn.0 turn.1 turn.2 (read_enc p key s).1) in
        subst (All (IsOpened key s engine)) (sym run) (
          All-imp (λ exec h. (b, msg, r, f, h)) turn.2
            (respond_lem sys sc lru calls available engine msg).1)

    served-IsOpened :
        (o : Result Bytes SessionError)
        → (read_enc p key s).0 ≡ o
        → All (IsOpened key s engine) served
    unfolding serve_request
    served-IsOpened (ok b) r = of_msg b (sys.from_slice b) r refl
    served-IsOpened (err e) r =
        let run : served ≡ [] = ground (arith, r) in
        subst (All (IsOpened key s engine)) (sym run) tt

  module _ (sj : Json) (identity : LocalIdentity) (session_nonce nonce : Bytes)
      (engine : SearchEngine sc lru calls) (s : TcpStream) where
    -- What the handshake comes to.
    abbrev pub shaken : Result (Bytes × Text) SessionError × TcpStream
    shaken =
        session_handshake_server p sj identity
          (if available then ok (get_trusted_peers engine.db) else err Stream.db) session_nonce s

    abbrev pub commands : List Text
    commands =
        let conn =
          handle_search_conn sys sc lru calls available p sj identity session_nonce nonce engine
            s in
        conn.spawned

    IsTrusted-shaken :
        {key : Bytes} {peer : Text} (b : Bool)
        → (session_handshake_server p sj identity
            (if b then ok (get_trusted_peers engine.db) else err Stream.db)
            session_nonce
            s).0
          ≡ ok (key, peer)
        → IsTrusted engine.db peer
    unfolding get_trusted_peers
    IsTrusted-shaken {key = key} {peer = peer} true e =
        let (peers, row, same, m, id) =
          handshake-known p sj identity session_nonce key peer (ok (get_trusted_peers engine.db)) s
            e in
        let m' : In row (get_trusted_peers engine.db) =
          subst (λ l. In row l) (ok_inj (ok (get_trusted_peers engine.db)) refl same) m in
        (
          row,
          In-sort_by_inv (λ a b. text_lt a.device_name b.device_name) row engine.db.trusted_peers
              m',
          id,
        )
    IsTrusted-shaken {key = key} {peer = peer} false e =
        let (peers, row, same, m, id) =
          handshake-known p sj identity session_nonce key peer (err Stream.db) s e in
        absurd (cc)

    -- A command that was asked for under the key of a session with a trusted peer.
    abbrev pub IsAuthorised : Text → Type 0
    IsAuthorised exec =
        (key : Bytes) × (peer : Text) × (shaken.0 ≡ ok (key, peer))
        × IsTrusted engine.db peer
        × IsOpened key shaken.1 engine exec

    of_session : (o : Result (Bytes × Text) SessionError) → shaken.0 ≡ o → All IsAuthorised commands
    unfolding handle_search_conn
    of_session (ok (key, peer)) e =
        let run : commands ≡ served key nonce engine shaken.1 = ground (arith, e) in
        subst (All IsAuthorised) (sym run) (
          All-imp (λ exec h. (key, peer, e, IsTrusted-shaken available e, h))
            (served key nonce engine shaken.1)
            (served-IsOpened key nonce engine shaken.1 (read_enc p key shaken.1).0 refl))
    of_session (err x) e =
        let run : commands ≡ [] = ground (arith, e) in subst (All IsAuthorised) (sym run) tt

    -- A connection has a command run only under the key of a session: the handshake ended with that key
    -- for a peer that the database holds as trusted, the message that the key opens asked to launch an application of
    -- the local index, and the command is the one stored for that application.
    pub handle_search_conn_lem : All IsAuthorised commands
    handle_search_conn_lem = of_session shaken.0 refl
