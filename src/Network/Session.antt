-- ===== src/Network/Session.antt =====
-- src-tauri/src/network/mod.rs: the handshake that gives both sides of a connection a session key.
pub mod Agreement
pub mod Known
pub mod Examples
use synapt.Prelude.{
  ◌≡◌, Option, none, some, List, length, Text, codes, Result, ok, err, ok_or, map_err, ◌==◌,
  if◌then◌else◌,
}
use synapt.Network.Crypto.{Bytes, Primitives, key_decode, session_key, static_dh, from_b64}
use synapt.Network.Stream.{
  SessionError, json, crypto, not_trusted, M, ◌>>=◌, ◌>>◌, pure, fail, lift, write_plain,
  read_plain,
}
use synapt.Storage.Rows.{TrustedPeerRow}
use synapt.Storage.Devices.Trust.{find_peer}
use synapt.Trust.{LocalIdentity}

pub record HandshakeInit : Type 0 where
  pub device_id : Text

pub data ServerHello : Type 0 where
  hello : Text → ServerHello
  rejected : ServerHello

-- The crate serde_json on these messages: it parses what it prints.
pub record Json : Type 0 where
  pub init_to_vec : HandshakeInit → Bytes
  pub init_from_slice : Bytes → Option HandshakeInit
  pub init_from-to : (m : HandshakeInit) → init_from_slice (init_to_vec m) ≡ some m
  pub hello_to_vec : ServerHello → Bytes
  pub hello_from_slice : Bytes → Option ServerHello
  pub hello_from-to : (m : ServerHello) → hello_from_slice (hello_to_vec m) ≡ some m

unfoldable pub to_key32 : Bytes → Result Bytes SessionError
to_key32 v =
    if length v == 32 then ok v else err (crypto (key_decode (codes "key/nonce wrong length")))

module _ (p : Primitives) (j : Json) where
  -- The rest of the responder's side, once it has looked for the peer.
  unfoldable pub answer_peer : LocalIdentity → Bytes → Option TrustedPeerRow → M (Bytes × Text)
  unfolding to_key32
  answer_peer identity nonce none = do write_plain (j.hello_to_vec rejected); fail not_trusted
  answer_peer identity nonce (some peer) = do
    decoded ← lift (map_err crypto (from_b64 p peer.pubkey_b64))
    their_pub ← lift (to_key32 decoded)
    let shared = static_dh p identity.privkey_bytes their_pub
    key ← lift (map_err crypto (session_key p shared nonce))
    write_plain (j.hello_to_vec (hello (p.b64_encode nonce)))
    pure (key, peer.device_id)

  -- `peers` is what the database answers; the nonce is random.
  unfoldable pub session_handshake_server :
      LocalIdentity → Result (List TrustedPeerRow) SessionError → Bytes → M (Bytes × Text)
  session_handshake_server identity answer nonce = do
    bytes ← read_plain
    init ← lift (ok_or (j.init_from_slice bytes) json)
    peers ← lift answer
    answer_peer identity nonce (find_peer init.device_id peers)

  unfoldable pub nonce_of : ServerHello → M Bytes
  unfolding to_key32
  nonce_of (hello nonce_b64) = do
    decoded ← lift (map_err crypto (from_b64 p nonce_b64))
    lift (to_key32 decoded)
  nonce_of rejected = fail not_trusted

  unfoldable pub session_handshake_client : Text → LocalIdentity → Text → M Bytes
  session_handshake_client local_device_id identity peer_pubkey_b64 = do
    write_plain (j.init_to_vec (record { device_id = local_device_id }))
    bytes ← read_plain
    reply ← lift (ok_or (j.hello_from_slice bytes) json)
    nonce ← nonce_of reply
    decoded ← lift (map_err crypto (from_b64 p peer_pubkey_b64))
    their_pub ← lift (to_key32 decoded)
    let shared = static_dh p identity.privkey_bytes their_pub
    lift (map_err crypto (session_key p shared nonce))
