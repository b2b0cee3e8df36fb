-- ===== src/Network/Pairing.antt =====
-- src-tauri/src/network/peer.rs: the pairing ceremony, by which two devices come to trust each other.
pub mod Messages
pub mod Sides
pub mod Completion
pub mod Consent
mod Examples
use synapt.Prelude.{Bool, true, false, Option, none, some, Text, ℤ, ok, err, ok_or, map_err}
use synapt.Network.Crypto.{
  Bytes, Primitives, write_frame, read_frame_len, from_b64, generate_ephemeral, ephemeral_dh,
  pairing_code,
}
use synapt.Network.Stream.{TcpStream, write_all, read_exact}
use synapt.Network.Stream
use synapt.Notify.{peer_pair_request, peer_paired}
use synapt.Trust.{LocalIdentity, TrustedPeer, fingerprint}
pub use synapt.Network.Ceremony.{
  max_pair_msg, PairMsg, PairingError, PendingPairing, PairEvent, Formats, Ceremony, Step, ◌>>=◌,
  ◌>>◌, give, modify, call, on_stream, emit, insert_id, row_of, peer_of, timestamp, connection,
  pair_request, pair_accept, pair_rejected, pair_confirm, pair_complete, io, json, crypto, rejected,
  timeout, unexpected_msg, db, trust, emit_error, asked, completed,
}
unfoldable pub use synapt.Network.Ceremony.{failing, to_key32, check_len, notify, upsert, trust_id}

module _ (p : Primitives) (j : Formats) where
  unfoldable pub send_msg : PairMsg → Step (Unit {0})
  unfolding write_frame write_all
  send_msg msg = do
    frame ← give (map_err crypto (write_frame (j.to_vec msg)))
    on_stream (write_all frame)

  unfoldable pub recv_msg : Step PairMsg
  unfolding check_len
  recv_msg = do
    len_buf ← on_stream (read_exact 4)
    let len = read_frame_len len_buf
    check_len len
    buf ← on_stream (read_exact len)
    give (ok_or (j.from_slice buf) json)

  abbrev pub unexpected : {A : Type 0} → PairMsg → Step A
  unexpected other = give (err (unexpected_msg (j.debug other)))

  -- `to_key32(from_b64(…)?)?`
  unfoldable pub key_of : Text → Step Bytes
  unfolding to_key32
  key_of pubkey_b64 = do
    decoded ← give (map_err crypto (from_b64 p pubkey_b64))
    give (to_key32 decoded)

  unfoldable pub pending_of : Bytes → PairMsg → Step PendingPairing
  unfolding key_of
  pending_of secret (pair_accept device_id device_name pubkey_b64) = do
    their_pub ← key_of pubkey_b64
    let shared = ephemeral_dh p secret their_pub
    stream ← connection
    give (
        ok (record {
          stream = stream;
          shared_secret = shared;
          peer_device_id = device_id;
          peer_name = device_name;
          peer_pubkey_b64 = pubkey_b64;
          verify_code = pairing_code p shared;
        }))
  pending_of secret pair_rejected = give (err rejected)
  pending_of secret (pair_request i n k) = unexpected (pair_request i n k)
  pending_of secret (pair_confirm k) = unexpected (pair_confirm k)
  pending_of secret (pair_complete k) = unexpected (pair_complete k)

  -- What connecting within ten seconds comes to: no answer is a timeout.
  unfoldable pub connected : Option (Option TcpStream) → Step (Unit {0})
  connected none = give (err timeout)
  connected (some none) = give (err io)
  connected (some (some s)) = modify (λ c. record c { stream = s })

  unfoldable pub begin_pairing :
      Option (Option TcpStream) → LocalIdentity → Bytes → Step PendingPairing
  unfolding send_msg recv_msg generate_ephemeral pending_of connected
  begin_pairing attempt identity random = do
    connected attempt
    let (secret, my_pub) = generate_ephemeral p random
    send_msg (pair_request identity.device_id identity.device_name (p.b64_encode my_pub))
    reply ← recv_msg
    pending_of secret reply

  unfoldable pub longterm_of_reply : PairMsg → Step Text
  longterm_of_reply (pair_complete longterm) = give (ok longterm)
  longterm_of_reply pair_rejected = give (err rejected)
  longterm_of_reply (pair_request i n k) = unexpected (pair_request i n k)
  longterm_of_reply (pair_accept i n k) = unexpected (pair_accept i n k)
  longterm_of_reply (pair_confirm k) = unexpected (pair_confirm k)

  -- `parse()` of the id, whose error is reported as an unexpected message
  abbrev pub parsed : Text → Step Text
  parsed id = give (map_err unexpected_msg (j.parse_uuid id))

  -- The fingerprint of the peer's key, and the row of the peer in the database.
  unfoldable pub remember : Text → Text → Text → Step (Text × ℤ)
  unfolding upsert
  remember id name longterm = do
    fp ← give (map_err trust (fingerprint p longterm))
    paired_at ← timestamp
    upsert (row_of id name longterm fp paired_at)
    give (ok (fp, paired_at))

  unfoldable pub confirm_pairing : PendingPairing → LocalIdentity → Step TrustedPeer
  unfolding send_msg recv_msg longterm_of_reply remember
  confirm_pairing pending identity = do
    modify (λ c. record c { stream = pending.stream })
    send_msg (pair_confirm identity.pubkey_b64)
    reply ← recv_msg
    longterm ← longterm_of_reply reply
    known ← remember pending.peer_device_id pending.peer_name longterm
    id ← parsed pending.peer_device_id
    give (ok (peer_of id pending.peer_name longterm known.0 known.1))

  unfoldable pub request_of : PairMsg → Step (Text × Text × Text)
  request_of (pair_request id name key) = give (ok (id, name, key))
  request_of (pair_accept i n k) = unexpected (pair_accept i n k)
  request_of pair_rejected = unexpected pair_rejected
  request_of (pair_confirm k) = unexpected (pair_confirm k)
  request_of (pair_complete k) = unexpected (pair_complete k)

  unfoldable pub longterm_of_confirm : PairMsg → Step Text
  longterm_of_confirm (pair_confirm longterm) = give (ok longterm)
  longterm_of_confirm (pair_request i n k) = unexpected (pair_request i n k)
  longterm_of_confirm (pair_accept i n k) = unexpected (pair_accept i n k)
  longterm_of_confirm pair_rejected = unexpected pair_rejected
  longterm_of_confirm (pair_complete k) = unexpected (pair_complete k)

  -- From the request of a device to the answer to it, with the code for the user to compare.
  unfoldable pub answer_request : Text → LocalIdentity → Bytes → Step (Text × Text)
  unfolding send_msg recv_msg request_of key_of generate_ephemeral failing notify
  answer_request ip identity random = do
    msg ← recv_msg
    their ← request_of msg
    their_eph ← key_of their.2
    let (secret, my_pub) = generate_ephemeral p random
    let code = pairing_code p (ephemeral_dh p secret their_eph)
    notify (peer_pair_request their.1)
    emit (asked their.0 their.1 ip code)
    send_msg (pair_accept identity.device_id identity.device_name (p.b64_encode my_pub))
    give (ok (their.0, their.1))

  -- From the peer's confirmation to the end, once the user has accepted.
  unfoldable pub complete_pairing : LocalIdentity → Text → Text → Step (Unit {0})
  unfolding send_msg recv_msg longterm_of_confirm remember trust_id failing notify
  complete_pairing identity their_id their_name = do
    msg ← recv_msg
    longterm ← longterm_of_confirm msg
    known ← remember their_id their_name longterm
    trust_id their_id
    send_msg (pair_complete identity.pubkey_b64)
    id ← parsed their_id
    emit (completed (peer_of id their_name longterm known.0 known.1))
    notify (peer_paired their_name)

  -- `decision` is what comes over the channel: none where its sender was dropped.
  unfoldable pub handle_responder : Text → LocalIdentity → Bytes → Option Bool → Step (Unit {0})
  unfolding answer_request complete_pairing send_msg
  handle_responder ip identity random decision = do
    their ← answer_request ip identity random
    elim decision [
      | some true ↦ complete_pairing identity their.0 their.1
      | some false ↦ send_msg pair_rejected
      | none ↦ send_msg pair_rejected
    ]
