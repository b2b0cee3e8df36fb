-- ===== src/Network/Transfer/Retry.antt =====
-- network/transfer.rs: requests that are tried again, and requests for several files.
pub mod Counts
mod Examples
pub mod Exhaustion
pub mod Rounds
use synapt.Prelude.{
  ℕ, ◌+◌, Option, none, some, List, [], ◌∷◌, length, Text, codes, ℤ, max_zero, Result, ok, err,
}
use synapt.Network.Crypto.{Primitives}
use synapt.Network.Queue.{partial}
use synapt.Network.Queue
use synapt.Network.Session.{Json}
use synapt.Network.Transfer.{
  TransferError, MsgJson, World, Action, ◌>>=◌, ◌>>◌, give, modify, query, execute, emit, now,
  retry, batch_completed,
}
use synapt.Network.Transfer.Request.{update_queue, request_transfer}
use synapt.Storage.History.{
  update_transfer_status, set_transfer_status, get_transfer_bytes, find_partial_transfer,
}
use synapt.Trust.{LocalIdentity}

abbrev pub retry_delays_secs : List ℕ
retry_delays_secs = 1 ∷ 2 ∷ 4 ∷ 8 ∷ 16 ∷ 30 ∷ []

-- `let _ = action`
abbrev pub quietly : Action (Unit {0}) → Action (Unit {0})
quietly action w = (ok tt, (action w).1)

abbrev pub sleep : ℕ → Action (Unit {0})
sleep secs = modify (λ w. record w { slept = w.slept + secs })

-- What is done for the row of the transfer, if it has one.
abbrev pub on_row : (ℕ → Action (Unit {0})) → Action (Unit {0})
on_row f w = elim w.hist_id [ none ↦ (ok tt, w) | some id ↦ f id w ]

abbrev pub bytes_or : ℕ → Result (Option ℤ) TransferError → ℕ
bytes_or other (ok (some bytes)) = max_zero bytes
bytes_or other (ok none) = other
bytes_or other (err e) = other

-- The bytes that the row counts, or the number given where there are none to be read.
unfoldable pub stored_bytes : ℕ → Action ℕ
stored_bytes other w = elim w.hist_id [
  | none ↦ (ok other, w)
  | some id ↦
      let answer = query (λ db. get_transfer_bytes db id) w in
      (ok (bytes_or other answer.0), answer.1)
]

module _ (display : TransferError → Text) (transfer_id : Text) where
  -- Between two attempts: the offset of the next.
  unfoldable pub retry_after : ℕ → ℕ → ℕ → Action ℕ
  unfolding stored_bytes
  retry_after attempt resume_offset delay = do
    on_row (λ id. quietly (execute (λ db. set_transfer_status db id (codes "partial"))))
    update_queue (λ q. Queue.update q transfer_id partial resume_offset)
    emit (retry transfer_id (attempt + 1) delay)
    sleep delay
    stored_bytes resume_offset

  -- After the last attempt.
  unfoldable pub give_up : TransferError → Action Text
  unfolding stored_bytes
  give_up e = do
    bytes ← stored_bytes 0
    on_row (λ id. now >>= λ time.
        quietly (execute (λ db. update_transfer_status db id bytes (codes "failed") (some time))))
    update_queue (λ q. Queue.update q transfer_id (Queue.failed (display e)) bytes)
    give (err e)

  -- The loop, over the delays that are left; `request` is an attempt from an offset on.
  unfoldable pub retry_loop : (ℕ → Action Text) → List ℕ → ℕ → ℕ → Action Text
  unfolding retry_after give_up
  retry_loop request [] attempt resume_offset w = elim (request resume_offset w).0 [
    | ok path ↦ (ok path, (request resume_offset w).1)
    | err e ↦ give_up e (request resume_offset w).1
  ]
  retry_loop request (delay ∷ delays) attempt resume_offset w = elim (request resume_offset w).0 [
    | ok path ↦ (ok path, (request resume_offset w).1)
    | err e ↦
        (retry_after attempt resume_offset delay >>= λ offset.
        retry_loop request delays (attempt + 1) offset)
          (request resume_offset w).1
  ]

-- What one file adds to the paths received and to the count of those skipped.
abbrev pub tally : Result Text TransferError → List Text × ℕ → List Text × ℕ
tally (ok path) (paths, skipped) = (path ∷ paths, skipped)
tally (err e) (paths, skipped) = (paths, skipped + 1)

module _ (p : Primitives) (j : MsgJson) (sj : Json) (display : TransferError → Text)
    (identity : LocalIdentity) (peer_device_id download_dir peer_name : Text) where
  abbrev requests : Text → Text → ℕ → Action Text
  requests transfer_id remote_path =
      request_transfer p j sj identity transfer_id peer_device_id remote_path download_dir peer_name

  abbrev pub id_or : Text → Option Text → Text
  id_or fresh none = fresh
  id_or fresh (some id) = id

  -- A partial transfer of the file is resumed under its id; `fresh` is a new one.
  unfoldable pub resume : Text → Text → Option (ℕ × Option Text × ℤ) → Action Text
  unfolding request_transfer retry_loop
  resume fresh remote_path none = do
    modify (λ w. record w { hist_id = none })
    retry_loop display fresh (requests fresh remote_path) retry_delays_secs 0 0
  resume fresh remote_path (some (id, transfer_id, bytes)) = do
    modify (λ w. record w { hist_id = some id })
    retry_loop display (id_or fresh transfer_id) (requests (id_or fresh transfer_id) remote_path)
        retry_delays_secs 0 (max_zero bytes)

  unfoldable pub request_transfer_with_retry : Text → Text → Action Text
  unfolding resume
  request_transfer_with_retry fresh remote_path = do
    found ← query (λ db. find_partial_transfer db peer_device_id remote_path)
    resume fresh remote_path found

  -- The loop over the files, each with a new id: the paths received, and how many were skipped.
  unfoldable pub request_each : List (Text × Text) → World → (List Text × ℕ) × World
  unfolding request_transfer_with_retry
  request_each [] w = (([], 0), w)
  request_each ((fresh, remote_path) ∷ rest) w =
      let tried = request_transfer_with_retry fresh remote_path w in
      let others = request_each rest tried.1 in (tally tried.0 others.0, others.1)

  unfoldable pub request_batch_transfer_with_retry : List (Text × Text) → Action (List Text)
  unfolding request_each
  request_batch_transfer_with_retry remote_paths w =
      let received = request_each remote_paths w in
      (emit (batch_completed (length remote_paths) received.0.1) >> give (ok received.0.0))
        received.1
