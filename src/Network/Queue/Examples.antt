-- ===== src/Network/Queue/Examples.antt =====
-- Tests of queue.rs, and its theorems at concrete queues.
use synapt.Prelude.{◌≡◌, refl, [], ◌∷◌, Text, codes, text_eq, pos, arith}
use synapt.Network.Queue.{queued, QueueEntry, TransferQueue, new, push, list}
use synapt.Network.Queue.Laws.{find, IsValid, push_lem, push-IsValid}

abbrev entry : Text → QueueEntry
entry id = record {
  transfer_id = id;
  filename = id;
  remote_path = id;
  peer_name = codes "peer";
  status = queued;
  bytes_received = 0;
  total = 100;
  started_at = pos 0;
}

-- `push_trims_entries_over_max_history`
trims :
    list (push (push (push (new 2) (entry (codes "a"))) (entry (codes "b"))) (entry (codes "c")))
    ≡ entry (codes "c") ∷ entry (codes "b") ∷ []
unfolding list push new text_eq
trims = refl

abbrev two : TransferQueue
two = record { entries = entry (codes "b") ∷ entry (codes "a") ∷ []; max_history = 2 }

two-IsValid : IsValid two
unfolding find text_eq
two-IsValid = record { bounded = omega arith; distinct = (refl, (refl, tt)) }

push_example : list (push two (entry (codes "c"))) ≡ entry (codes "c") ∷ entry (codes "b") ∷ []
unfolding find text_eq
push_example = push_lem two (entry (codes "c")) two-IsValid

push-IsValid_example : IsValid (push two (entry (codes "a")))
push-IsValid_example = push-IsValid two (entry (codes "a")) two-IsValid
