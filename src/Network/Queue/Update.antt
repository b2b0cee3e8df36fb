-- ===== src/Network/Queue/Update.antt =====
-- What `update` of queue.rs does to the entries.
use synapt.Prelude.{
  ℕ, ◌≡◌, refl, Option, none, some, List, [], ◌∷◌, length, Text, text_eq, text_eq_iff,
  if◌then◌else◌, arith,
}
use synapt.Network.Queue.{QueueStatus, QueueEntry, TransferQueue, update_entries, update, list}
use synapt.Network.Queue.Laws.{find, Distinct, IsValid}

-- The entry with the two fields that `update` writes.
abbrev pub progressed : QueueStatus → ℕ → QueueEntry → QueueEntry
progressed status bytes_received e = record e { status = status; bytes_received = bytes_received }

-- The result of a search, with those fields written.
abbrev pub progress : QueueStatus → ℕ → Option QueueEntry → Option QueueEntry
progress status bytes_received none = none
progress status bytes_received (some e) = some (progressed status bytes_received e)

module _ (id : Text) (status : QueueStatus) (bytes_received : ℕ) where
  find-update_entries :
      (j : Text) (es : List QueueEntry)
      → find j (update_entries id status bytes_received es)
        ≡ (if text_eq id j then progress status bytes_received (find id es) else find j es)
  unfolding find update_entries
  find-update_entries j [] = ground arith
  find-update_entries j (e ∷ es) = ground (
    arith,
    find-update_entries j es,
    text_eq_iff e.transfer_id id,
    text_eq_iff e.transfer_id j,
    text_eq_iff id j,
  )

  length-update_entries :
      (es : List QueueEntry) → length (update_entries id status bytes_received es) ≡ length es
  unfolding update_entries
  length-update_entries [] = refl
  length-update_entries (e ∷ es) = ground (arith, length-update_entries es)

  find-none-update_entries :
      (j : Text) (es : List QueueEntry)
      → find j es ≡ none
      → find j (update_entries id status bytes_received es) ≡ none
  unfolding find update_entries
  find-none-update_entries j [] h = refl
  find-none-update_entries j (e ∷ es) h = ground (arith, find-none-update_entries j es)

  Distinct-update_entries :
      (es : List QueueEntry) → Distinct es → Distinct (update_entries id status bytes_received es)
  unfolding update_entries
  Distinct-update_entries [] d = tt
  Distinct-update_entries (e ∷ es) d =
      ground (arith, find-none-update_entries e.transfer_id es, Distinct-update_entries es d.1)

-- After `update` the entry with the id has the new status and bytes, and every other id is found
-- with the entry that it had; where no entry has the id, nothing changes.
pub find-update :
    (q : TransferQueue) (id j : Text) (status : QueueStatus) (bytes_received : ℕ)
    → find j (list (update q id status bytes_received)) ≡ (
        if text_eq id j then progress status bytes_received (find id (list q)) else find j (list q))
unfolding update list
find-update q id j status bytes_received = find-update_entries id status bytes_received j q.entries

-- `update` keeps a queue valid, and its length.
pub update-IsValid :
    (q : TransferQueue) (id : Text) (status : QueueStatus) (bytes_received : ℕ)
    → IsValid q
    → IsValid (update q id status bytes_received)
unfolding update
update-IsValid q id status bytes_received v = record {
  bounded = omega (arith, v.bounded, length-update_entries id status bytes_received q.entries);
  distinct = Distinct-update_entries id status bytes_received q.entries v.distinct;
}
