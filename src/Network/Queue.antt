-- ===== src/Network/Queue.antt =====
-- src-tauri/src/network/queue.rs: the in-memory ring of transfers that the interface shows.
-- A method that locks the mutex is a function from the old entries to the new ones.
pub mod Laws
pub mod Update
mod Examples
use synapt.Prelude.{
  ℕ, zero, suc, Option, none, some, List, [], ◌∷◌, ltb, length, Text, text_eq, ℤ, if◌then◌else◌,
}

pub data QueueStatus : Type 0 where
  queued : QueueStatus
  in_progress : QueueStatus
  complete : QueueStatus
  failed : Text → QueueStatus
  partial : QueueStatus

pub record QueueEntry : Type 0 where
  pub transfer_id : Text
  pub filename : Text
  pub remote_path : Text
  pub peer_name : Text
  pub status : QueueStatus
  pub bytes_received : ℕ
  pub total : ℕ
  pub started_at : ℤ

pub record TransferQueue : Type 0 where
  pub entries : List QueueEntry
  pub max_history : ℕ

unfoldable pub new : ℕ → TransferQueue
new max_history = record { entries = []; max_history = max_history }

-- `iter_mut().find(…)` with a write through the slot that it finds; `none` when it finds none.
unfoldable pub replace : QueueEntry → List QueueEntry → Option (List QueueEntry)
replace entry [] = none
replace entry (e ∷ es) =
    if text_eq e.transfer_id entry.transfer_id
    then some (entry ∷ es)
    else elim (replace entry es) [ none ↦ none | some es' ↦ some (e ∷ es') ]

unfoldable pub pop_back : List QueueEntry → List QueueEntry
pop_back [] = []
pop_back (e ∷ []) = []
pop_back (e ∷ f ∷ es) = e ∷ pop_back (f ∷ es)

-- `while entries.len() > self.max_history`, with fuel for the rounds.
unfoldable pub trim : ℕ → ℕ → List QueueEntry → List QueueEntry
trim zero max_history es = es
trim (suc fuel) max_history es =
    let rest = trim fuel max_history (pop_back es) in
    if ltb max_history (length es) then rest else es

unfoldable pub push : TransferQueue → QueueEntry → TransferQueue
unfolding replace trim pop_back
push q entry = elim (replace entry q.entries) [
  | some es ↦ record q { entries = es }
  | none ↦ record q {
    entries = trim (length (entry ∷ q.entries)) q.max_history (entry ∷ q.entries);
  }
]

-- The same search, with a write of two fields.
unfoldable pub update_entries : Text → QueueStatus → ℕ → List QueueEntry → List QueueEntry
update_entries transfer_id status bytes_received [] = []
update_entries transfer_id status bytes_received (e ∷ es) =
    if text_eq e.transfer_id transfer_id
    then record e { status = status; bytes_received = bytes_received } ∷ es
    else e ∷ update_entries transfer_id status bytes_received es

unfoldable pub update : TransferQueue → Text → QueueStatus → ℕ → TransferQueue
unfolding update_entries
update q transfer_id status bytes_received = record q {
  entries = update_entries transfer_id status bytes_received q.entries;
}

unfoldable pub list : TransferQueue → List QueueEntry
list q = q.entries
