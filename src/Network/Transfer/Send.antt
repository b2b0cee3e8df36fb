-- ===== src/Network/Transfer/Send.antt =====
-- network/transfer.rs: the pushing of local files to a peer, and the server's choice of what to do
-- with a connection.
mod Examples
pub mod Payload
pub mod Strangers
use synapt.Prelude.{
  ℕ, zero, suc, ◌+◌, Bool, not, Option, none, some, List, [], ◌∷◌, length, drop, is_empty, Text,
  codes, text_eq, ℤ, Result, ok, err, ok_or, if◌then◌else◌,
}
use synapt.Network.Crypto.{Bytes, Primitives}
use synapt.Network.Queue.{QueueEntry, in_progress, complete, failed, push, update}
use synapt.Network.Queue
use synapt.Network.Session.{Json, session_handshake_client, session_handshake_server}
use synapt.Network.Stream.{SessionError}
use synapt.Network.Stream
use synapt.Network.Transfer.{
  TransferError, io, json, not_trusted, protocol, TransferMsg, transfer_request,
  batch_transfer_request, push_start, push_accept, error, MsgJson, World, Action, ◌>>=◌, ◌>>◌, give,
  gets, call, query, emit, now, on_stream, connect, send, recv, read_chunk, file_name_or, progress,
  completed,
}
use synapt.Network.Transfer
use synapt.Network.Transfer.Push.{recv_pushed_file}
use synapt.Network.Transfer.Request.{update_queue}
use synapt.Network.Transfer.Retry.{quietly}
use synapt.Network.Transfer.Serve.{open_file, sha256_of_file, serve_one_file, serve_batch}
use synapt.Storage.Rows.{TrustedPeerRow, select}
use synapt.Storage.Devices.{get_trusted_peers}
use synapt.Storage.Devices.Trust.{find_peer}
use synapt.Trust.{LocalIdentity}

-- What the peer answers to the start of a push.
unfoldable pub accepted : MsgJson → TransferMsg → Result (Unit {0}) TransferError
accepted j push_accept = ok tt
accepted j (error code) = err (protocol code)
accepted j other = err (protocol (j.unexpected other))

module _ (p : Primitives) (j : MsgJson) (transfer_id : Text) where
  -- The closure that a push is given: the queue and the interface hear how much is sent.
  abbrev pub report : ℕ → Action (Unit {0})
  report sent =
      update_queue (λ q. Queue.update q transfer_id in_progress sent)
      >> emit (progress transfer_id sent)

  -- The loop over the chunks, with fuel for its rounds: how many bytes were sent.
  unfoldable pub push_chunks : Bytes → ℕ → Bytes → ℕ → Action ℕ
  push_chunks key zero left sent = give (err io)
  push_chunks key (suc fuel) left sent = do
    chunk ← read_chunk left
    if is_empty chunk then give (ok sent) else do
      send p key chunk
      report (sent + length chunk)
      push_chunks key fuel (drop (length chunk) left) (sent + length chunk)

  unfoldable pub send_push_payload : Bytes → Text → Text → ℕ → Text → Action ℕ
  unfolding open_file accepted push_chunks
  send_push_payload key path filename size checksum = do
    opened ← open_file path
    content ← give (ok_or opened io)
    send p key (j.to_vec (push_start filename size checksum))
    bytes ← recv p key
    reply ← give (ok_or (j.from_slice bytes) json)
    give (accepted j reply)
    push_chunks key (suc (length content)) content 0

  abbrev pub outgoing : Text → Text → Text → ℕ → ℤ → QueueEntry
  outgoing local_path filename peer_name size started_at = record {
    transfer_id = transfer_id;
    filename = filename;
    remote_path = local_path;
    peer_name = peer_name;
    status = in_progress;
    bytes_received = 0;
    total = size;
    started_at = started_at;
  }

  module _ (sj : Json) (identity : LocalIdentity) (is_file : Text → Bool) where
    -- `metadata`: the size of what the path names; `is_file` says whether that is a file.
    unfoldable pub push_one_file : Text → Text → Text → Action (Unit {0})
    unfolding open_file sha256_of_file send_push_payload
    push_one_file local_path peer_pubkey peer_name = do
      opened ← open_file local_path
      content ← give (ok_or opened io)
      if not (is_file local_path) then give (err (protocol (codes "not a file"))) else do
        checksum ← sha256_of_file p local_path
        started_at ← now
        update_queue (λ q.
            push q
              (outgoing local_path (file_name_or local_path) peer_name (length content) started_at))
        connect
        key ← on_stream (session_handshake_client p sj identity.device_id identity peer_pubkey)
        sent ← send_push_payload key local_path (file_name_or local_path) (length content) checksum
        update_queue (λ q. Queue.update q transfer_id complete sent)
        emit (completed transfer_id)

-- What goes wrong with one file is put into the log, and the next one is pushed. Each file has a
-- random id.
unfoldable pub push_each :
    Primitives
    → MsgJson
    → Json
    → LocalIdentity
    → (Text → Bool)
    → Text
    → Text
    → List (Text × Text)
    → Action (Unit {0})
unfolding push_one_file
push_each p j sj identity is_file peer_pubkey peer_name [] = give (ok tt)
push_each p j sj identity is_file peer_pubkey peer_name ((id, path) ∷ rest) =
    quietly (push_one_file p j id sj identity is_file path peer_pubkey peer_name)
    >> push_each p j sj identity is_file peer_pubkey peer_name rest

module _ (p : Primitives) (j : MsgJson) (sj : Json) (identity : LocalIdentity)
    (is_file : Text → Bool) (peer_device_id peer_name : Text) where
  unfoldable pub push_files : List (Text × Text) → Action (Unit {0})
  unfolding push_each
  push_files local_paths = do
    peers ← query get_trusted_peers
    peer ← give (ok_or (find_peer peer_device_id peers) not_trusted)
    push_each p j sj identity is_file peer.pubkey_b64 peer_name local_paths

  -- The entry of the transfer in the list of the queue, which tells how much was sent.
  abbrev pub sent_of : Option QueueEntry → ℕ
  sent_of none = 0
  sent_of (some entry) = entry.bytes_received

  unfoldable pub report_failure : Text → Text → Action (Unit {0})
  unfolding select
  report_failure transfer_id reason = do
    sent ←
        gets (λ w. sent_of (select (λ e. text_eq e.transfer_id transfer_id) (Queue.list w.queue)))
    update_queue (λ q. Queue.update q transfer_id (failed reason) sent)
    emit (Transfer.failed transfer_id reason)

  unfoldable pub push_clip : Text → Text → Action (Unit {0})
  unfolding push_one_file
  push_clip transfer_id local_path = do
    peers ← query get_trusted_peers
    peer ← give (ok_or (find_peer peer_device_id peers) not_trusted)
    push_one_file p j transfer_id sj identity is_file local_path peer.pubkey_b64 peer_name

  abbrev pub within : Option World → Action (Unit {0}) → Action (Unit {0})
  within none action w = action w
  within (some late) action w = (err io, late)

  -- A push that takes longer than a minute is dropped in whatever world it has come to, `late`.
  unfoldable pub push_clip_file :
      (TransferError → Text) → Option World → Text → Text → Action (Unit {0})
  unfolding push_clip report_failure
  push_clip_file display late transfer_id local_path w =
      let outcome = within late (push_clip transfer_id local_path) w in
      elim outcome.0 [
        | ok u ↦ (ok tt, outcome.1)
        | err e ↦ (err e, (report_failure transfer_id (display e) outcome.1).1)
      ]

-- What the database answers to a handshake.
unfoldable pub ask_peers : Action (Result (List TrustedPeerRow) SessionError)
ask_peers w =
    let asked = call Transfer.db w in
    elim asked.0 [
      | ok u ↦ (ok (ok (get_trusted_peers w.db)), asked.1)
      | err e ↦ (ok (err Stream.db), asked.1)
    ]

module _ (p : Primitives) (j : MsgJson) (sj : Json) (canonicalize : Text → Option (List Text))
    (default_dir transfer_id : Text) where
  unfoldable pub serve_msg : Bytes → Text → TransferMsg → Action (Unit {0})
  unfolding serve_one_file serve_batch recv_pushed_file
  serve_msg key peer (transfer_request path resume_offset) =
      serve_one_file p j key canonicalize path resume_offset
  serve_msg key peer (batch_transfer_request paths) = serve_batch p j key canonicalize paths
  serve_msg key peer (push_start filename size checksum) =
      recv_pushed_file p j key transfer_id peer default_dir filename size checksum
  serve_msg key peer other = give (err (protocol (j.unexpected other)))

  unfoldable pub handle_server_conn : LocalIdentity → Bytes → Action (Unit {0})
  unfolding ask_peers serve_msg
  handle_server_conn identity nonce = do
    answer ← ask_peers
    session ← on_stream (session_handshake_server p sj identity answer nonce)
    bytes ← recv p session.0
    msg ← give (ok_or (j.from_slice bytes) json)
    serve_msg session.0 session.1 msg
