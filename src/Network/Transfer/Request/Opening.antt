-- ===== src/Network/Transfer/Request/Opening.antt =====
-- The file and the row that a download starts from.
use synapt.Prelude.{
  ℕ, zero, suc, ◌≡◌, refl, ◌∙◌, Option, none, some, [], take, Text, text_eq, text_eq_refl, codes, ℤ,
  ◌==◌, ok, if◌then◌else◌, arith,
}
use synapt.Network.Crypto.{Bytes}
use synapt.Network.Transfer.{io, db, World, now}
use synapt.Network.Transfer.Delivery.{IsCalm, call-calm}
use synapt.Network.Transfer.Request.{open_for_writing, content_of, history_row}
use synapt.Network.Transfer.Request.Receive.{IsHeld}
use synapt.Storage.Rows.{Db, TransferHistoryRow}
use synapt.Storage.History.{set_transfer_status, insert_transfer}
use synapt.Storage.History.Laws.{find-update_transfer_status, find-insert_transfer, IsFresh}

-- The world as it is needed: no call fails; the row of a retry exists, and without one the next id is free.
abbrev pub HasHistory : Option ℕ → Db → Type 0
HasHistory none base = IsFresh base
HasHistory (some id) base = IsHeld base id

-- The id of the row of a transfer: that of the row that is retried, or the next one of the table.
abbrev pub row_id : Option ℕ → Db → ℕ
row_id none base = base.next_transfer
row_id (some id) base = id

abbrev pub opened : Text → ℕ → World → World
opened path offset w = record w {
  files = λ q.
      if text_eq path q
      then some (if offset == 0 then [] else content_of (w.files path))
      else w.files q;
}

pub open_for_writing-calm :
    (path : Text) (offset : ℕ) (w : World)
    → IsCalm w
    → open_for_writing path offset w ≡ (ok tt, opened path offset w)
unfolding open_for_writing
open_for_writing-calm path offset w c = ground (arith, call-calm io w c)

-- What a resumed transfer finds of the file, and a new one overwrites.
abbrev pub HasPart : ℕ → Bytes → Option Bytes → Type 0
HasPart zero content file = Unit
HasPart (suc n) content file = file ≡ some (take (suc n) content)

pub opened-part :
    (path : Text) (offset : ℕ) (content : Bytes) (w : World)
    → HasPart offset content (w.files path)
    → (opened path offset w).files path ≡ some (take offset content)
opened-part path zero content w h = rw (text_eq_refl path) refl
opened-part path (suc n) content w h = rw (text_eq_refl path) (ground (arith, h))

pub IsHeld-set :
    (base : Db) (id : ℕ) (status : Text)
    → IsHeld base id
    → IsHeld (set_transfer_status base id status) id
IsHeld-set base id status (row, e) = (
  (row.0, record (row.1) { status = status }),
  (find-update_transfer_status base id id 0 status none).1 ∙ ground (arith, e),
)

IsHeld-insert :
    (base : Db) (t : TransferHistoryRow)
    → IsFresh base
    → IsHeld (insert_transfer base t).0 (insert_transfer base t).1
IsHeld-insert base t h = (
  ((insert_transfer base t).1, t),
  (find-insert_transfer base t (insert_transfer base t).1 h).0 ∙ ground arith,
)

pub history_row-IsCalm :
    (row : ℤ → TransferHistoryRow) (w : World)
    → IsCalm w
    → HasHistory w.hist_id w.db
    → (w' : World) × (history_row row w ≡ (ok (row_id w.hist_id w.db), w'))
      × IsCalm w'
      × (w'.files ≡ w.files)
      × (w'.stream ≡ w.stream)
      × IsHeld w'.db (row_id w.hist_id w.db)
unfolding history_row now insert_transfer
history_row-IsCalm row w c h = go w.hist_id refl h
  where
    go :
        (known : Option ℕ)
        → w.hist_id ≡ known
        → HasHistory known w.db
        → (w' : World) × (history_row row w ≡ (ok (row_id known w.db), w'))
          × IsCalm w'
          × (w'.files ≡ w.files)
          × (w'.stream ≡ w.stream)
          × IsHeld w'.db (row_id known w.db)
    go (some id) e k = (
      record w { db = set_transfer_status w.db id (codes "in_progress") },
      ground (arith, e, call-calm db w c),
      record { no_faults = c.no_faults; nonces_fit = c.nonces_fit },
      refl,
      refl,
      IsHeld-set w.db id (codes "in_progress") k,
    )
    go none e k =
        let v = record w { clock = λ n. w.clock (suc n) } in
        let cv : IsCalm v = record { no_faults = c.no_faults; nonces_fit = c.nonces_fit } in
        let t = row (w.clock 0) in
        (
          record v { db = (insert_transfer w.db t).0; hist_id = some (insert_transfer w.db t).1 },
          ground (arith, e, call-calm db v cv),
          record { no_faults = c.no_faults; nonces_fit = c.nonces_fit },
          refl,
          refl,
          IsHeld-insert w.db t k,
        )
