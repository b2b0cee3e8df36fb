-- ===== src/Network/Transfer/Push.antt =====
-- network/transfer.rs: files that a peer pushes. The loop over the chunks and the comparison of the
-- digests are those of a request; notifying the desktop and handing a clip on are left out.
pub mod Containment
mod Examples
pub mod Names
pub mod Place
pub mod Safety
use synapt.Prelude.{ℕ, Option, none, some, [], is_empty, Text, codes, ℤ, as_i64, ok, if◌then◌else◌}
use synapt.Network.Crypto.{Bytes, Primitives}
use synapt.Network.Queue.{QueueEntry, in_progress, push}
use synapt.Network.Transfer.{
  io, push_accept, MsgJson, Action, ◌>>=◌, ◌>>◌, give, call, query, now, send, file_name_or, join,
}
use synapt.Network.Transfer
use synapt.Network.Transfer.Request.{store, update_queue, receive_chunks, conclude}
use synapt.Storage.Rows.{TrustedPeerRow, TransferHistoryRow}
use synapt.Storage.Devices.{get_setting, get_trusted_peers}
use synapt.Storage.Devices.Trust.{find_peer}
use synapt.Storage.History.{insert_transfer}

-- The setting, or the Synapt folder of the system's downloads where it is empty or not set.
abbrev pub download_dir_or : Text → Option Text → Text
download_dir_or default none = default
download_dir_or default (some dir) = if is_empty dir then default else dir

abbrev pub peer_name_or : Text → Option TrustedPeerRow → Text
peer_name_or peer_device_id none = peer_device_id
peer_name_or peer_device_id (some peer) = peer.device_name

unfoldable pub create_file : Text → Action (Unit {0})
create_file path = do call io; store path (some [])

unfoldable pub new_transfer : TransferHistoryRow → Action ℕ
new_transfer row = call Transfer.db >> λ w.
    (ok (insert_transfer w.db row).1, record w { db = (insert_transfer w.db row).0 })

module _ (p : Primitives) (j : MsgJson) (key : Bytes) (transfer_id peer_device_id : Text) where
  abbrev pub pushed_row : Text → Text → Text → ℕ → ℤ → TransferHistoryRow
  pushed_row safe_name filename local_path size started_at = record {
    peer_device_id = peer_device_id;
    filename = safe_name;
    remote_path = filename;
    local_path = local_path;
    size = some (as_i64 size);
    bytes_received = as_i64 0;
    status = codes "in_progress";
    started_at = started_at;
    completed_at = none;
    transfer_id = some transfer_id;
  }

  abbrev pub pushed_entry : Text → Text → Text → ℕ → ℤ → QueueEntry
  pushed_entry safe_name filename peer_name size started_at = record {
    transfer_id = transfer_id;
    filename = safe_name;
    remote_path = filename;
    peer_name = peer_name;
    status = in_progress;
    bytes_received = 0;
    total = size;
    started_at = started_at;
  }

  -- What follows once the place of the file is known.
  unfoldable pub receive_at : Text → Text → Text → ℕ → Text → Action (Unit {0})
  unfolding new_transfer create_file receive_chunks conclude
  receive_at peer_name filename local_path size checksum = do
    call io
    started_at ← now
    id ← new_transfer (pushed_row (file_name_or filename) filename local_path size started_at)
    update_queue
        (λ q. push q (pushed_entry (file_name_or filename) filename peer_name size started_at))
    send p key (j.to_vec push_accept)
    create_file local_path
    bytes_received ← receive_chunks p j key transfer_id id size local_path size 0
    call io
    done ← conclude p j key transfer_id id local_path bytes_received checksum
    give (ok tt)

  abbrev pub pushed_path : Text → Text → Text → Text
  pushed_path download_dir peer_name filename =
      join (join download_dir peer_name) (file_name_or filename)

  unfoldable pub recv_pushed_file : Text → Text → ℕ → Text → Action (Unit {0})
  unfolding receive_at
  recv_pushed_file default_dir filename size checksum = do
    setting ← query (λ db. get_setting db (codes "download_dir"))
    peers ← query get_trusted_peers
    let peer_name = peer_name_or peer_device_id (find_peer peer_device_id peers)
    let download_dir = download_dir_or default_dir setting
    receive_at peer_name filename (pushed_path download_dir peer_name filename) size checksum
