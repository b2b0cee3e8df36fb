-- ===== src/Storage/Examples.antt =====
-- The theorems about the tables at concrete databases.
use synapt.Prelude.{ℕ, ◌≡◌, refl, none, some, List, [], ◌∷◌, Text, codes, text_eq, pos}
use synapt.Prelude.Sort.{sort_by}
use synapt.Storage.Rows.{TrustedPeerRow, TransferHistoryRow, FileRow, Db}
use synapt.Storage.Devices.{get_trusted_peers, upsert_trusted_peer, remove_trusted_peer}
use synapt.Storage.Devices.Trust.{find_peer, find_peer-upsert, find_peer-remove}
use synapt.Storage.History.{find_partial_transfer}
use synapt.Storage.History.Laws.{IsLatest, find_partial_transfer-IsLatest}

abbrev pub empty_db : Db
empty_db = record {
  settings = [];
  trusted_peers = [];
  local_device = none;
  shared_dirs = [];
  transfer_history = [];
  next_transfer = 1;
  files = [];
  indexed_dirs = [];
  applications = [];
  next_app = 1;
}

abbrev peer : Text → TrustedPeerRow
peer id = record {
  device_id = id;
  device_name = codes "x";
  pubkey_b64 = [];
  fingerprint = [];
  paired_at = pos 5;
  last_seen = none;
}

find_peer-upsert_example :
    find_peer (codes "a") (
      get_trusted_peers
        (upsert_trusted_peer (upsert_trusted_peer empty_db (peer (codes "b"))) (peer (codes "a"))))
    ≡ some (peer (codes "a"))
find_peer-upsert_example =
    find_peer-upsert (upsert_trusted_peer empty_db (peer (codes "b"))) (peer (codes "a"))

find_peer-remove_example :
    find_peer (codes "a") (
      get_trusted_peers
        (remove_trusted_peer (upsert_trusted_peer empty_db (peer (codes "a"))) (codes "a")))
    ≡ none
find_peer-remove_example =
    find_peer-remove (upsert_trusted_peer empty_db (peer (codes "a"))) (codes "a")

abbrev transfer : Text → ℕ → TransferHistoryRow
transfer status started_at = record {
  peer_device_id = codes "p";
  filename = codes "f";
  remote_path = codes "/f";
  local_path = codes "f";
  size = none;
  bytes_received = pos 3;
  status = status;
  started_at = pos started_at;
  completed_at = none;
  transfer_id = none;
}

abbrev history : Db
history = record empty_db {
  transfer_history =
      (1, transfer (codes "partial") 10)
      ∷ (2, transfer (codes "partial") 20)
      ∷ (3, transfer (codes "failed") 30)
      ∷ [];
  next_transfer = 4;
}

latest : find_partial_transfer history (codes "p") (codes "/f") ≡ some (2, none, pos 3)
unfolding find_partial_transfer sort_by text_eq
latest = refl

find_partial_transfer_example :
    IsLatest history
      (codes "p")
      (codes "/f")
      (find_partial_transfer history (codes "p") (codes "/f"))
find_partial_transfer_example = find_partial_transfer-IsLatest history (codes "p") (codes "/f")

abbrev file : Text → Text → FileRow
file name path = record {
  name = name;
  path = path;
  parent_path = [];
  file_type = codes "file";
  size = none;
  last_modified = none;
  extension = none;
  is_hidden = pos 0;
}

abbrev rows : List FileRow
rows = file (codes "a") (codes "/a") ∷ file (codes "b") (codes "/a") ∷ []
