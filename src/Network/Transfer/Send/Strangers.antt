-- ===== src/Network/Transfer/Send/Strangers.antt =====
-- The server of transfers does nothing for a device that is not trusted.
use synapt.Prelude.{
  ◌≡◌, refl, sym, ap, ◌∙◌, Option, none, some, List, [], ◌∷◌, Bool, true, false, Text, Result, ok,
  err, ok_or, arith,
}
use synapt.Network.Crypto.{Bytes, Primitives}
use synapt.Network.Session.{Json, HandshakeInit, answer_peer, session_handshake_server}
use synapt.Network.Stream.{TcpStream, SessionError, json, lift, read_plain, ◌>>=◌}
use synapt.Network.Stream
use synapt.Network.Transfer.{TransferError, session, World, MsgJson, call}
use synapt.Network.Stream
use synapt.Network.Transfer.Send.{ask_peers, handle_server_conn}
use synapt.Storage.Rows.{TrustedPeerRow}
use synapt.Storage.Devices.{get_trusted_peers}
use synapt.Storage.Devices.Trust.{find_peer}
use synapt.Trust.{LocalIdentity}

module _ (p : Primitives) (sj : Json) (identity : LocalIdentity) (nonce : Bytes) where
  -- A handshake that ends well was answered for a peer that is known.
  answer_peer-known :
      (o : Option TrustedPeerRow) (s s' : TcpStream) (key : Bytes) (id : Text)
      → answer_peer p sj identity nonce o s ≡ (ok (key, id), s')
      → (peer : TrustedPeerRow) × (o ≡ some peer) × (id ≡ peer.device_id)
  unfolding answer_peer
  answer_peer-known none s s' key id h = ground arith
  answer_peer-known (some peer) s s' key id h = (peer, refl, ground arith)

  bind-inv :
      {A B : Type 0} (m : Stream.M A) (f : A → Stream.M B) (s s' : TcpStream) (b : B)
      → (m >>= f) s ≡ (ok b, s')
      → (a : A) × (s1 : TcpStream) × (m s ≡ (ok a, s1)) × (f a s1 ≡ (ok b, s'))
  bind-inv {A = A} {B = B} m f s s' b h = go (m s) refl h
    where
      go :
          (r : Result A SessionError × TcpStream)
          → m s ≡ r
          → (elim r.0 as (λ x. Result B SessionError × TcpStream) [
            | ok a ↦ f a r.1
            | err e ↦ (err e, r.1)
          ])
            ≡ (ok b, s')
          → (a : A) × (s1 : TcpStream) × (m s ≡ (ok a, s1)) × (f a s1 ≡ (ok b, s'))
      go (ok a, s1) e k = (a, s1, e, k)
      go (err x, s1) e k = cc

  -- The device that a handshake which ends well was made with: it named itself first.
  abbrev IsIntroduced : Result (List TrustedPeerRow) SessionError → TcpStream → Type 0
  IsIntroduced answer s =
      (bytes : Bytes) × (s1 : TcpStream) × (init : HandshakeInit) × (peers : List TrustedPeerRow)
      × (peer : TrustedPeerRow) × (read_plain s ≡ (ok bytes, s1))
      × (sj.init_from_slice bytes ≡ some init)
      × (answer ≡ ok peers)
      × (find_peer init.device_id peers ≡ some peer)

  abbrev with_peers : HandshakeInit → List TrustedPeerRow → Stream.M (Bytes × Text)
  with_peers init peers = answer_peer p sj identity nonce (find_peer init.device_id peers)

  abbrev with_init :
      Result (List TrustedPeerRow) SessionError → HandshakeInit → Stream.M (Bytes × Text)
  with_init answer init = lift answer >>= with_peers init

  of_lift :
      {A : Type 0} (r : Result A SessionError) (a : A) (s s' : TcpStream)
      → lift r s ≡ (ok a, s')
      → r ≡ ok a
  of_lift (ok x) a s s' h = cc
  of_lift (err e) a s s' h = cc

  of_option :
      (o : Option HandshakeInit) (init : HandshakeInit)
      → ◌≡◌ {A = Result HandshakeInit SessionError} (ok_or o json) (ok init)
      → o ≡ some init
  of_option none init h = cc
  of_option (some i) init h = cc

  introduced :
      (answer : Result (List TrustedPeerRow) SessionError) (s s' : TcpStream) (key : Bytes)
      (id : Text)
      → session_handshake_server p sj identity answer nonce s ≡ (ok (key, id), s')
      → IsIntroduced answer s
  unfolding session_handshake_server
  introduced answer s s' key id h =
      let (bytes, s1, e1, k1) =
        bind-inv read_plain (λ b. lift (ok_or (sj.init_from_slice b) json) >>= with_init answer) s
          s' (key, id) h in
      let (init, s2, e2, k2) =
        bind-inv (lift (ok_or (sj.init_from_slice bytes) json)) (with_init answer) s1 s' (key, id)
          k1 in
      let (peers, s3, e3, k3) = bind-inv (lift answer) (with_peers init) s2 s' (key, id) k2 in
      let (peer, e4, who) = answer_peer-known (find_peer init.device_id peers) s3 s' key id k3 in
      (
        bytes,
        s1,
        init,
        peers,
        peer,
        e1,
        of_option (sj.init_from_slice bytes) init
            (of_lift (ok_or (sj.init_from_slice bytes) json) init s1 s2 e2),
        of_lift answer peers s2 s3 e3,
        e4,
      )

-- Nothing but the connection has changed.
abbrev pub IsUnchanged : World → World → Type 0
IsUnchanged w w' =
    (w'.files ≡ w.files) × (w'.db ≡ w.db) × (w'.queue ≡ w.queue) × (w'.emitted ≡ w.emitted)

-- Asking the database for the peers changes nothing that is kept.
asked :
    (w : World)
    → (answer : Result (List TrustedPeerRow) SessionError) × (w1 : World) × (ask_peers w
        ≡ (ok answer, w1))
      × IsUnchanged w w1
      × (w1.stream ≡ w.stream)
      × ((peers : List TrustedPeerRow) → answer ≡ ok peers → peers ≡ get_trusted_peers w.db)
unfolding ask_peers call
asked w = go w.faults refl
  where
    go :
        (fs : List Bool)
        → w.faults ≡ fs
        → (answer : Result (List TrustedPeerRow) SessionError) × (w1 : World) × (ask_peers w
            ≡ (ok answer, w1))
          × IsUnchanged w w1
          × (w1.stream ≡ w.stream)
          × ((peers : List TrustedPeerRow) → answer ≡ ok peers → peers ≡ get_trusted_peers w.db)
    go [] e =
        (ok (get_trusted_peers w.db), w, rw e refl, (refl, refl, refl, refl), refl, λ peers h. cc)
    go (true ∷ later) e = (
      err Stream.db,
      record w { faults = later },
      rw e refl,
      (refl, refl, refl, refl),
      refl,
      λ peers h. cc,
    )
    go (false ∷ later) e = (
      ok (get_trusted_peers w.db),
      record w { faults = later },
      rw e refl,
      (refl, refl, refl, refl),
      refl,
      λ peers h. cc,
    )

-- Whatever a connection sends and whatever fails, unless it first names a device that is trusted, the
-- server of transfers ends with an error and changes no file, no row and no entry of the queue, and
-- the interface hears nothing.
pub handle_server_conn_lem :
    (p : Primitives) (j : MsgJson) (sj : Json) (canonicalize : Text → Option (List Text))
    (default_dir transfer_id : Text) (identity : LocalIdentity) (nonce : Bytes) (w : World)
    → ((bytes : Bytes) (s1 : TcpStream) (init : HandshakeInit)
        → read_plain w.stream ≡ (ok bytes, s1)
        → sj.init_from_slice bytes ≡ some init
        → find_peer init.device_id (get_trusted_peers w.db) ≡ none)
    → (e : TransferError) × (w' : World) × (handle_server_conn p j sj canonicalize default_dir
          transfer_id identity nonce w
        ≡ (err e, w'))
      × IsUnchanged w w'
unfolding handle_server_conn
handle_server_conn_lem p j sj canonicalize default_dir transfer_id identity nonce w stranger =
    let (answer, w1, e, same, at, from) = asked w in
    go answer w1 e same at from (session_handshake_server p sj identity answer nonce w1.stream) refl
  where
    go :
        (answer : Result (List TrustedPeerRow) SessionError) (w1 : World)
        → ask_peers w ≡ (ok answer, w1)
        → IsUnchanged w w1
        → w1.stream ≡ w.stream
        → ((peers : List TrustedPeerRow) → answer ≡ ok peers → peers ≡ get_trusted_peers w.db)
        → (r : Result (Bytes × Text) SessionError × TcpStream)
        → session_handshake_server p sj identity answer nonce w1.stream ≡ r
        → (e : TransferError) × (w' : World) × (handle_server_conn p j sj canonicalize default_dir
              transfer_id identity nonce w
            ≡ (err e, w'))
          × IsUnchanged w w'
    go answer w1 e same at from (err x, s) h =
        (session x, record w1 { stream = s }, ground (arith, e, h), same)
    go answer w1 e same at from (ok (key, id), s) h =
        let (bytes, s1, init, peers, peer, read, parsed, ans, found) =
          introduced p sj identity nonce answer w1.stream s key id h in
        let unknown = stranger bytes s1 init (ap read_plain (sym at) ∙ read) parsed in
        let known : find_peer init.device_id (get_trusted_peers w.db) ≡ some peer =
          ap (find_peer init.device_id) (sym (from peers ans)) ∙ found in
        absurd (cc)
