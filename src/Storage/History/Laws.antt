-- ===== src/Storage/History/Laws.antt =====
-- What the statements on the table of transfers leave to be read.
use synapt.Prelude.{
  ◌↔◌, codes, leb_ℤ, text_eq_iff, ℕ, ◌+◌, ◌<◌, ◌≡◌, refl, sym, inl, inr, true, false, Option, none,
  some, List, [], ◌∷◌, ◌++◌, All, filter_by, Text, ℤ, ◌==◌, if◌then◌else◌, arith,
}
use synapt.Prelude.Sort.{sort_by, sort_by-IsSorted, IsSorted, IsOrdering}
use synapt.Prelude.Members.{
  In, All-In, In-sort_by, All-intro, In-filter_by, In-filter_by_inv, In-sort_by_inv,
}
use mathlib.Core.Path.{subst}
use synapt.Storage.Rows.{TransferHistoryRow, Db, write_rows, select}
use synapt.Storage.History.{
  insert_transfer, with_progress, update_transfer_status, set_transfer_status, is_partial, later,
  first_row, find_partial_transfer,
}

-- The row of a transfer.
unfoldable pub find_transfer : Db → ℕ → Option (ℕ × TransferHistoryRow)
unfolding select
find_transfer db id = select (λ r. r.0 == id) db.transfer_history

-- The found row, with a write made to it.
abbrev pub written :
    (ℕ × TransferHistoryRow → ℕ × TransferHistoryRow)
    → Option (ℕ × TransferHistoryRow)
    → Option (ℕ × TransferHistoryRow)
written f none = none
written f (some r) = some (f r)

module _ (f : ℕ × TransferHistoryRow → ℕ × TransferHistoryRow)
    (keeps : (r : ℕ × TransferHistoryRow) → (f r).0 ≡ r.0) (id : ℕ) where
  select-write_rows :
      (j : ℕ) (rows : List (ℕ × TransferHistoryRow))
      → select (λ r. r.0 == j) (write_rows (λ r. r.0 == id) f rows)
        ≡ (if id == j then written f (select (λ r. r.0 == j) rows) else select (λ r. r.0 == j) rows)
  unfolding select write_rows
  select-write_rows j [] = ground arith
  select-write_rows j (r ∷ rows) = ground (arith, select-write_rows j rows, keeps r)

-- `update_transfer_status` writes the bytes, the status and the time of the row with the id, and
-- `set_transfer_status` its status alone; neither touches another row.
pub find-update_transfer_status :
    (db : Db) (id j bytes_received : ℕ) (status : Text) (completed_at : Option ℤ)
    → (find_transfer (update_transfer_status db id bytes_received status completed_at) j ≡ (
        if id == j
        then written (with_progress bytes_received status completed_at) (find_transfer db j)
        else find_transfer db j))
      × (find_transfer (set_transfer_status db id status) j ≡ (
          if id == j
          then written (λ r. (r.0, record (r.1) { status = status })) (find_transfer db j)
          else find_transfer db j))
unfolding find_transfer update_transfer_status set_transfer_status
find-update_transfer_status db id j bytes_received status completed_at = (
  select-write_rows (with_progress bytes_received status completed_at) (λ r. refl) id j
      db.transfer_history,
  select-write_rows (λ r. (r.0, record (r.1) { status = status })) (λ r. refl) id j
      db.transfer_history,
)

-- Every id in use is below the next one.
abbrev pub IsFresh : Db → Type 0
IsFresh db = All (λ r. r.0 < db.next_transfer) db.transfer_history

select-append :
    (j id : ℕ) (t : TransferHistoryRow) (rows : List (ℕ × TransferHistoryRow))
    → All (λ r. r.0 < id) rows
    → select (λ r. r.0 == j) (rows ++ (id, t) ∷ [])
      ≡ (if id == j then some (id, t) else select (λ r. r.0 == j) rows)
unfolding select
select-append j id t [] h = ground arith
select-append j id t (r ∷ rows) h = ground (arith, select-append j id t rows h.1)

All-fresh :
    (id : ℕ) (t : TransferHistoryRow) (rows : List (ℕ × TransferHistoryRow))
    → All (λ r. r.0 < id) rows
    → All (λ r. r.0 < id + 1) (rows ++ (id, t) ∷ [])
All-fresh id t [] h = (omega arith, tt)
All-fresh id t (r ∷ rows) h = (omega arith, All-fresh id t rows h.1)

-- `insert_transfer` returns an id under which the new row, and no older one, is found; the rows
-- under other ids stay, and the ids stay below the next one.
pub find-insert_transfer :
    (db : Db) (t : TransferHistoryRow) (j : ℕ)
    → IsFresh db
    → (find_transfer (insert_transfer db t).0 j ≡ (
        if (insert_transfer db t).1 == j
        then some ((insert_transfer db t).1, t)
        else find_transfer db j))
      × IsFresh (insert_transfer db t).0
unfolding find_transfer insert_transfer
find-insert_transfer db t j h = (
  select-append j db.next_transfer t db.transfer_history h,
  All-fresh db.next_transfer t db.transfer_history h,
)

later-IsOrdering : IsOrdering later
later-IsOrdering = record {
  asymmetric = λ a b h. ground arith;
  transitive = λ a b c h k. ground arith;
}

-- A row of a partial transfer of the path from the peer.
abbrev pub IsPartial : Text → Text → ℕ × TransferHistoryRow → Type 0
IsPartial peer_device_id remote_path r =
    (r.1.peer_device_id ≡ peer_device_id)
    × (r.1.remote_path ≡ remote_path)
    × (r.1.status ≡ codes "partial")

-- What `find_partial_transfer` answers with: the latest of the partial transfers, or nothing when
-- there is none.
abbrev pub IsLatest : Db → Text → Text → Option (ℕ × Option Text × ℤ) → Type 0
IsLatest db peer_device_id remote_path none =
    All (λ r. ¬ (IsPartial peer_device_id remote_path r)) db.transfer_history
IsLatest db peer_device_id remote_path (some found) =
    (r : ℕ × TransferHistoryRow) × (found ≡ (r.0, r.1.transfer_id, r.1.bytes_received))
    × In r db.transfer_history
    × IsPartial peer_device_id remote_path r
    × All
        (λ q.
          IsPartial peer_device_id remote_path q → leb_ℤ (q.1.started_at) (r.1.started_at) ≡ true)
        db.transfer_history

is_partial_iff :
    (peer_device_id remote_path : Text) (r : ℕ × TransferHistoryRow)
    → (is_partial peer_device_id remote_path r ≡ true) ↔ IsPartial peer_device_id remote_path r
is_partial_iff peer_device_id remote_path r =
    let peer = text_eq_iff (r.1.peer_device_id) peer_device_id in
    let path = text_eq_iff (r.1.remote_path) remote_path in
    let status = text_eq_iff (r.1.status) (codes "partial") in
    (
      λ h. (peer.0 (ground (arith, h)), path.0 (ground (arith, h)), status.0 (ground (arith, h))),
      λ h. ground (arith, peer.1 h.0, path.1 h.1, status.1 h.2),
    )

not_later :
    (q r : ℕ × TransferHistoryRow)
    → later q r ≡ false
    → leb_ℤ (q.1.started_at) (r.1.started_at) ≡ true
not_later q r h = ground arith

later_self : (r : ℕ × TransferHistoryRow) → later r r ≡ false
later_self r = ground arith

module _ (db : Db) (peer_device_id remote_path : Text) where
  abbrev partials : List (ℕ × TransferHistoryRow)
  partials = filter_by (is_partial peer_device_id remote_path) db.transfer_history

  none-IsLatest :
      [] ≡ sort_by later partials
      → All (λ r. ¬ (IsPartial peer_device_id remote_path r)) db.transfer_history
  none-IsLatest e =
      All-intro (λ r. ¬ (IsPartial peer_device_id remote_path r)) db.transfer_history
        λ r m h. rw (sym e) at (
          In-sort_by later r partials (
            In-filter_by (is_partial peer_device_id remote_path) r db.transfer_history m
              ((is_partial_iff peer_device_id remote_path r).1 h)))

  first-IsLatest :
      (rows : List (ℕ × TransferHistoryRow))
      → rows ≡ sort_by later partials
      → IsLatest db peer_device_id remote_path (first_row rows)
  first-IsLatest [] e = none-IsLatest e
  first-IsLatest (r ∷ rows) e =
      let test = is_partial peer_device_id remote_path in
      let sorted : IsSorted later (r ∷ rows) =
        subst (λ l. IsSorted later l) (sym e) (sort_by-IsSorted later later-IsOrdering partials) in
      let member : In r partials =
        In-sort_by_inv later r partials (subst (λ l. In r l) e (inl refl)) in
      let both = In-filter_by_inv test r db.transfer_history member in
      (
        r,
        refl,
        both.0,
        (is_partial_iff peer_device_id remote_path r).0 both.1,
        All-intro
            (λ q.
              IsPartial peer_device_id remote_path q
              → leb_ℤ (q.1.started_at) (r.1.started_at) ≡ true)
            db.transfer_history
            λ q m h.
              let t = (is_partial_iff peer_device_id remote_path q).1 h in
              not_later q r (
                among q sorted.0 (
                  subst (λ l. In q l) (sym e)
                    (In-sort_by later q partials (In-filter_by test q db.transfer_history m t)))),
      )
    where
      among :
          (q : ℕ × TransferHistoryRow)
          → All (λ y. later y r ≡ false) rows
          → In q (r ∷ rows)
          → later q r ≡ false
      among q all (inl e) = rw e (later_self r)
      among q all (inr m) = All-In (λ y. later y r ≡ false) q rows all m

-- `find_partial_transfer` finds a partial transfer of the peer and the path whenever there is one,
-- and then one such that none of them started later.
pub find_partial_transfer-IsLatest :
    (db : Db) (peer_device_id remote_path : Text)
    → IsLatest db peer_device_id remote_path (find_partial_transfer db peer_device_id remote_path)
unfolding find_partial_transfer
find_partial_transfer-IsLatest db peer_device_id remote_path =
    first-IsLatest db peer_device_id remote_path
      (sort_by later (filter_by (is_partial peer_device_id remote_path) db.transfer_history)) refl
