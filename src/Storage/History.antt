-- ===== src/Storage/History.antt =====
-- storage/db.rs: the table of transfers.
pub mod Laws
use synapt.Prelude.{
  ℕ, ◌+◌, Bool, not, ◌&&◌, Option, none, some, List, [], ◌∷◌, ◌++◌, map, filter_by, Text, codes,
  text_eq, ℤ, as_i64, leb_ℤ, ◌==◌,
}
use synapt.Prelude.Sort.{sort_by}
use synapt.Storage.Rows.{TransferHistoryRow, Db, write_rows, select}

-- The new row has the next id of the AUTOINCREMENT column.
unfoldable pub insert_transfer : Db → TransferHistoryRow → Db × ℕ
insert_transfer db t = (
  record db {
    transfer_history = db.transfer_history ++ (db.next_transfer, t) ∷ [];
    next_transfer = db.next_transfer + 1;
  },
  db.next_transfer,
)

abbrev pub with_progress : ℕ → Text → Option ℤ → ℕ × TransferHistoryRow → ℕ × TransferHistoryRow
with_progress bytes_received status completed_at r = (
  r.0,
  record (r.1) {
    bytes_received = as_i64 bytes_received;
    status = status;
    completed_at = completed_at;
  },
)

unfoldable pub update_transfer_status : Db → ℕ → ℕ → Text → Option ℤ → Db
unfolding write_rows
update_transfer_status db id bytes_received status completed_at = record db {
  transfer_history =
      write_rows (λ r. r.0 == id) (with_progress bytes_received status completed_at)
        db.transfer_history;
}

unfoldable pub get_transfer_history : Db → List TransferHistoryRow
get_transfer_history db =
    sort_by (λ a b. not (leb_ℤ a.started_at b.started_at)) (map (λ r. r.1) db.transfer_history)

unfoldable pub set_transfer_status : Db → ℕ → Text → Db
unfolding write_rows
set_transfer_status db id status = record db {
  transfer_history =
      write_rows (λ r. r.0 == id) (λ r. (r.0, record (r.1) { status = status }))
        db.transfer_history;
}

unfoldable pub get_transfer_bytes : Db → ℕ → Option ℤ
unfolding select
get_transfer_bytes db id = elim (select (λ r. r.0 == id) db.transfer_history) [
  | none ↦ none
  | some r ↦ some (r.1.bytes_received)
]

abbrev pub is_partial : Text → Text → ℕ × TransferHistoryRow → Bool
is_partial peer_device_id remote_path r =
    text_eq (r.1.peer_device_id) peer_device_id
    && (text_eq (r.1.remote_path) remote_path && text_eq (r.1.status) (codes "partial"))

-- `ORDER BY started_at DESC`
abbrev pub later : ℕ × TransferHistoryRow → ℕ × TransferHistoryRow → Bool
later a b = not (leb_ℤ (a.1.started_at) (b.1.started_at))

abbrev pub first_row : List (ℕ × TransferHistoryRow) → Option (ℕ × Option Text × ℤ)
first_row [] = none
first_row (r ∷ rows) = some (r.0, r.1.transfer_id, r.1.bytes_received)

unfoldable pub find_partial_transfer : Db → Text → Text → Option (ℕ × Option Text × ℤ)
find_partial_transfer db peer_device_id remote_path =
    first_row
      (sort_by later (filter_by (is_partial peer_device_id remote_path) db.transfer_history))
