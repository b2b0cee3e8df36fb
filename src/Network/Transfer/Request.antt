-- ===== src/Network/Transfer/Request.antt =====
-- network/transfer.rs: the side that asks for a file. The notification of a completed transfer is
-- left to the desktop.
pub mod Conclusion
pub mod Download
pub mod Opening
pub mod Receive
use synapt.Prelude.{
  ℕ, zero, suc, ◌+◌, ◌-◌, not, Option, none, some, [], ◌∷◌, ◌++◌, length, take, drop, is_empty,
  Text, codes, text_eq, ℤ, as_i64, Result, ok, err, ok_or, ltb, ◌==◌, if◌then◌else◌,
}
use synapt.Network.Crypto.{Bytes, Primitives}
use synapt.Network.Queue.{TransferQueue, QueueEntry, QueueStatus, queued, in_progress, push, update}
use synapt.Network.Queue
use synapt.Network.Session.{Json, session_handshake_client}
use synapt.Network.Transfer.{
  TransferError, io, json, access_denied, invalid_offset, checksum_mismatch, not_trusted, protocol,
  TransferMsg, transfer_request, transfer_start, transfer_complete, error, MsgJson, Action, ◌>>=◌,
  ◌>>◌, give, gets, modify, call, query, execute, emit, now, on_stream, connect, send, recv,
  file_name_or, join, progress, completed,
}
use synapt.Network.Transfer
use synapt.Network.Transfer.Serve.{sha256_of_file}
use synapt.Storage.Rows.{TransferHistoryRow}
use synapt.Storage.Devices.{get_trusted_peers}
use synapt.Storage.Devices.Trust.{find_peer}
use synapt.Storage.History.{insert_transfer, update_transfer_status, set_transfer_status}
use synapt.Trust.{LocalIdentity}

-- What a message is taken for where a file is to start, and where it is to end.
unfoldable pub started : MsgJson → TransferMsg → Result (Text × ℕ × ℕ) TransferError
started j (transfer_start filename size resume_offset) = ok (filename, size, resume_offset)
started j (error code) =
    if text_eq code (codes "access_denied")
    then err access_denied
    else if text_eq code (codes "invalid_offset")
    then err invalid_offset
    else err (protocol code)
started j other = err (protocol (j.unexpected other))

unfoldable pub ended : MsgJson → TransferMsg → Result Text TransferError
ended j (transfer_complete checksum) = ok checksum
ended j other = err (protocol (j.unexpected other))

abbrev pub store : Text → Option Bytes → Action (Unit {0})
store path content =
    modify (λ w. record w { files = λ q. if text_eq path q then content else w.files q })

abbrev pub update_queue : (TransferQueue → TransferQueue) → Action (Unit {0})
update_queue f = modify (λ w. record w { queue = f w.queue })

-- What a write at a position leaves: a gap before it is filled with zeros.
abbrev pub zeros : ℕ → Bytes
zeros zero = []
zeros (suc n) = 0 ∷ zeros n

unfoldable pub write_at : ℕ → Bytes → Bytes → Bytes
write_at at chunk content =
    (take at content ++ zeros (at - length content)) ++ (chunk ++ drop (at + length chunk) content)

abbrev pub content_of : Option Bytes → Bytes
content_of none = []
content_of (some content) = content

-- `OpenOptions` with create, write, and truncate where the offset is zero
unfoldable pub open_for_writing : Text → ℕ → Action (Unit {0})
open_for_writing path offset = do
  call io
  old ← gets (λ w. w.files path)
  store path (some (if offset == 0 then [] else content_of old))

-- `file.write_all` at the position that the file was left at
unfoldable pub write_file : Text → ℕ → Bytes → Action (Unit {0})
unfolding write_at
write_file path at chunk = do
  call io
  old ← gets (λ w. w.files path)
  store path (some (write_at at chunk (content_of old)))

-- `let _ = remove_file`: a failure leaves the file where it is.
unfoldable pub remove_file : Text → Action (Unit {0})
remove_file path w =
    let tried = call io w in
    elim tried.0 [ ok u ↦ store path none tried.1 | err e ↦ (ok tt, tried.1) ]

module _ (p : Primitives) (j : MsgJson) (key : Bytes) (transfer_id : Text) (id : ℕ) where
  -- What is done with a chunk that came.
  unfoldable pub receive_one : Text → ℕ → Bytes → Action (Unit {0})
  unfolding write_file
  receive_one path bytes_received chunk = do
    write_file path bytes_received chunk
    let bytes_received' = bytes_received + length chunk
    execute (λ db. update_transfer_status db id bytes_received' (codes "in_progress") none)
    update_queue (λ q. Queue.update q transfer_id in_progress bytes_received')
    emit (progress transfer_id bytes_received')

  -- `while bytes_received < size`, with fuel for the rounds: the bytes received in the end.
  unfoldable pub receive_chunks : ℕ → Text → ℕ → ℕ → Action ℕ
  unfolding receive_one
  receive_chunks zero path size bytes_received = give (ok bytes_received)
  receive_chunks (suc fuel) path size bytes_received =
      if not (ltb bytes_received size) then give (ok bytes_received) else do
        chunk ← recv p key
        if is_empty chunk then give (ok bytes_received) else do
          receive_one path bytes_received chunk
          receive_chunks fuel path size (bytes_received + length chunk)

  -- What is done where the digests agree, and where they do not.
  unfoldable pub complete_transfer : Text → ℕ → ℤ → Action Text
  complete_transfer local_path bytes_received time = do
    execute (λ db. update_transfer_status db id bytes_received (codes "complete") (some time))
    update_queue (λ q. Queue.update q transfer_id QueueStatus.complete bytes_received)
    emit (completed transfer_id)
    give (ok local_path)

  unfoldable pub fail_checksum : Text → ℤ → Action Text
  unfolding remove_file
  fail_checksum local_path time = do
    remove_file local_path
    execute (λ db. update_transfer_status db id 0 (codes "failed") (some time))
    update_queue (λ q. Queue.update q transfer_id (Queue.failed (codes "checksum_mismatch")) 0)
    emit (Transfer.failed transfer_id (codes "checksum_mismatch"))
    give (err checksum_mismatch)

  unfoldable pub conclude : Text → ℕ → Text → Action Text
  unfolding sha256_of_file complete_transfer fail_checksum
  conclude local_path bytes_received checksum = do
    actual ← sha256_of_file p local_path
    time ← now
    if text_eq actual checksum
        then complete_transfer local_path bytes_received time
        else fail_checksum local_path time

-- The row of the transfer: a retry keeps the one that it has.
unfoldable pub history_row : (ℤ → TransferHistoryRow) → Action ℕ
unfolding now
history_row row w = elim w.hist_id [
  | some id ↦ (execute (λ db. set_transfer_status db id (codes "in_progress")) >> give (ok id)) w
  | none ↦
      (now >>= λ time. call Transfer.db >> λ v. (
        ok (insert_transfer v.db (row time)).1,
        record v {
          db = (insert_transfer v.db (row time)).0;
          hist_id = some (insert_transfer v.db (row time)).1;
        },
      ))
        w
]

module _ (p : Primitives) (j : MsgJson) (sj : Json) (identity : LocalIdentity)
    (transfer_id peer_device_id remote_path download_dir peer_name : Text) where
  abbrev pub queue_entry : Text → QueueStatus → ℕ → ℕ → ℤ → QueueEntry
  queue_entry filename status bytes_received total started_at = record {
    transfer_id = transfer_id;
    filename = filename;
    remote_path = remote_path;
    peer_name = peer_name;
    status = status;
    bytes_received = bytes_received;
    total = total;
    started_at = started_at;
  }

  abbrev pub new_row : Text → Text → ℕ → ℕ → ℤ → TransferHistoryRow
  new_row filename local_path size server_offset time = record {
    peer_device_id = peer_device_id;
    filename = filename;
    remote_path = remote_path;
    local_path = local_path;
    size = some (as_i64 size);
    bytes_received = as_i64 server_offset;
    status = codes "in_progress";
    started_at = time;
    completed_at = none;
    transfer_id = some transfer_id;
  }

  -- What follows the message that starts the file.
  unfoldable pub download : Bytes → ℤ → Text → ℕ → ℕ → Action Text
  unfolding open_for_writing receive_chunks conclude ended history_row
  download key started_at filename size server_offset = do
    call io
    let local_path = join (join download_dir peer_name) filename
    open_for_writing local_path server_offset
    if ltb 0 server_offset then call io else give (ok tt)
    id ← history_row (new_row filename local_path size server_offset)
    update_queue (λ q. push q (queue_entry filename in_progress server_offset size started_at))
    bytes_received ←
        receive_chunks p j key transfer_id id (size - server_offset) local_path size server_offset
    call io
    bytes ← recv p key
    last ← give (ok_or (j.from_slice bytes) json)
    checksum ← give (ended j last)
    conclude p j key transfer_id id local_path bytes_received checksum

  unfoldable pub request_transfer : ℕ → Action Text
  unfolding started download
  request_transfer resume_offset = do
    started_at ← now
    update_queue
        (λ q. push q (queue_entry (file_name_or remote_path) queued resume_offset 0 started_at))
    connect
    peers ← query get_trusted_peers
    peer ← give (ok_or (find_peer peer_device_id peers) not_trusted)
    key ← on_stream (session_handshake_client p sj identity.device_id identity peer.pubkey_b64)
    send p key (j.to_vec (transfer_request remote_path resume_offset))
    bytes ← recv p key
    first ← give (ok_or (j.from_slice bytes) json)
    start ← give (started j first)
    download key started_at start.0 start.1 start.2
