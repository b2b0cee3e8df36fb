-- ===== src/Network/Transfer/Push/Safety.antt =====
-- Where a pushed file ends up.
use synapt.Prelude.{
  ℕ, zero, suc, ◌+◌, ◌≡◌, refl, sym, ap, ◌∙◌, Bool, true, false, not, Option, none, some, [],
  is_empty, length, ltb, Text, codes, text_eq, ℤ, Result, ok, err, ok_or, if◌then◌else◌,
}
use synapt.Network.Crypto.{Bytes, Primitives}
use synapt.Network.Transfer.{
  io, db, MsgJson, World, Action, ◌>>=◌, ◌>>◌, give, gets, modify, execute, emit, query, now, call,
  recv, send, with_separator, join, file_name_or, TransferError, push_accept, Event, progress,
  completed, checksum_mismatch,
}
use synapt.Network.Queue.{TransferQueue, QueueStatus, in_progress, push}
use synapt.Network.Queue
use synapt.Network.Transfer
use synapt.Storage.History.{update_transfer_status, insert_transfer}
use synapt.Trust.{lower_hex}
use synapt.Network.Transfer.Request.{
  store, update_queue, write_file, remove_file, receive_one, receive_chunks, complete_transfer,
  fail_checksum, conclude,
}
use synapt.Network.Transfer.Serve.{hash_chunks, open_file, sha256_of_file}
use synapt.Network.Transfer.Push.{pushed_entry, pushed_row, create_file, new_transfer, receive_at}
use synapt.Network.Transfer.Push.Containment.{
  WritesOnly, bind-only, call-only, store-only, write_file-only, remove_file-only, execute-only,
  hash_chunks-only,
}
use synapt.Storage.Rows.{Db, TransferHistoryRow}

module _ (path : Text) where
  open_file-only : WritesOnly path (open_file path)
  unfolding open_file
  open_file-only w q e = go (call io w) refl
    where
      go :
          (r : Result (Unit {0}) TransferError × World)
          → call io w ≡ r
          → (elim r.0 as (λ x. Result (Option Bytes) TransferError × World) [
            | ok u ↦ (ok (w.files path), r.1)
            | err x ↦ (ok none, r.1)
          ]).1.files
              q
            ≡ w.files q
      go (ok u, w') h =
          ap (λ (x : Result (Unit {0}) TransferError × World). x.1.files q) (sym h)
          ∙ call-only path io w q e
      go (err x, w') h =
          ap (λ (x : Result (Unit {0}) TransferError × World). x.1.files q) (sym h)
          ∙ call-only path io w q e

  if-only :
      {A : Type 0} (b : Bool) (one two : Action A)
      → WritesOnly path one
      → WritesOnly path two
      → WritesOnly path (if b then one else two)
  if-only true one two h k = h
  if-only false one two h k = k

  -- The same, in a form from which an action can be read off.
  pub record Only {A : Type 0} (action : Action A) : Type 0 where
    pub frame : WritesOnly path action

  bind :
      {A B : Type 0} {first : Action A} {next : A → Action B}
      → Only first
      → ((a : A) → Only (next a))
      → Only (first >>= next)
  bind {first = first} {next = next} f n = record {
    frame = bind-only path first next f.frame (λ a. (n a).frame);
  }

  same : {A : Type 0} {action : Action A} → WritesOnly path action → Only action
  same f = record { frame = f }

  branch :
      {A : Type 0} (b : Bool) {one two : Action A}
      → Only one
      → Only two
      → Only (if b then one else two)
  branch b {one = one} {two = two} h k = record { frame = if-only b one two h.frame k.frame }

  only_execute : (f : Db → Db) → Only (execute f)
  only_execute f = same (execute-only path f)

  only_now : Only now
  unfolding now
  only_now = same (λ w q e. refl)

  only_give : {A : Type 0} (r : Result A TransferError) → Only (give r)
  only_give r = same (λ w q e. refl)

  only_call : (x : TransferError) → Only (call x)
  only_call x = same (call-only path x)

  only_modify_queue : (f : TransferQueue → TransferQueue) → Only (update_queue f)
  only_modify_queue f = same (λ w q e. refl)

  only_emit : (event : Event) → Only (emit event)
  only_emit event = same (λ w q e. refl)

  only_store : (content : Option Bytes) → Only (store path content)
  only_store content = same (store-only path content)

  only_query : {A : Type 0} (f : Db → A) → Only (query f)
  only_query f =
      bind {first = call db} {next = λ _. gets (λ w. f w.db)} (only_call db)
        (λ _. same (λ w q e. refl))

  only_insert : (row : TransferHistoryRow) → Only (new_transfer row)
  unfolding new_transfer
  only_insert row =
      bind
        {next = λ _ w.
          (ok (insert_transfer w.db row).1, record w { db = (insert_transfer w.db row).0 })}
        (only_call db) (λ _. same (λ w q e. refl))

  only_create : Only (create_file path)
  unfolding create_file
  only_create = bind (only_call io) (λ _. only_store (some []))

  module _ (p : Primitives) (j : MsgJson) (key : Bytes) (transfer_id : Text) where
    only_recv : Only (recv p key)
    unfolding recv
    only_recv = same (λ w q e. refl)

    only_send : (m : Bytes) → Only (send p key m)
    unfolding send
    only_send m = same (λ w q e. refl)

    only_sha256 : Only (sha256_of_file p path)
    unfolding sha256_of_file
    only_sha256 = bind (same {action = open_file path} open_file-only) (λ opened.
        bind (only_give (ok_or opened io)) (λ content.
          bind
            (same {action = hash_chunks (suc (length content)) content}
              (hash_chunks-only path (suc (length content)) content))
            (λ fed. only_give (ok (lower_hex (p.sha256 fed))))))

    only_receive_one :
        (id n : ℕ) (chunk : Bytes) → Only (receive_one p j key transfer_id id path n chunk)
    unfolding receive_one
    only_receive_one id n chunk =
        bind (same {action = write_file path n chunk} (write_file-only path n chunk)) (λ _.
          bind
            (only_execute
              (λ db. update_transfer_status db id (n + length chunk) (codes "in_progress") none))
            (λ _.
              bind
                (only_modify_queue (λ q. Queue.update q transfer_id in_progress (n + length chunk)))
                (λ _. only_emit (progress transfer_id (n + length chunk)))))

    only_receive_chunks :
        (id fuel size n : ℕ) → Only (receive_chunks p j key transfer_id id fuel path size n)
    unfolding receive_chunks
    only_receive_chunks id zero size n = only_give (ok n)
    only_receive_chunks id (suc fuel) size n = branch (not (ltb n size)) (only_give (ok n)) (
        bind only_recv (λ chunk. branch (is_empty chunk) (only_give (ok n)) (
          bind (only_receive_one id n chunk)
            (λ _. only_receive_chunks id fuel size (n + length chunk)))))

    only_complete :
        (id n : ℕ) (time : ℤ) → Only (complete_transfer p j key transfer_id id path n time)
    unfolding complete_transfer
    only_complete id n time =
        bind (only_execute (λ db. update_transfer_status db id n (codes "complete") (some time)))
          (λ _.
            bind (only_modify_queue (λ q. Queue.update q transfer_id QueueStatus.complete n))
              (λ _. bind (only_emit (completed transfer_id)) (λ _. only_give (ok path))))

    only_fail : (id : ℕ) (time : ℤ) → Only (fail_checksum p j key transfer_id id path time)
    unfolding fail_checksum
    only_fail id time = bind (same {action = remove_file path} (remove_file-only path)) (λ _.
        bind (only_execute (λ db. update_transfer_status db id 0 (codes "failed") (some time)))
          (λ _.
            bind
              (only_modify_queue
                (λ q. Queue.update q transfer_id (Queue.failed (codes "checksum_mismatch")) 0))
              (λ _.
                bind (only_emit (Transfer.failed transfer_id (codes "checksum_mismatch")))
                  (λ _. only_give (err checksum_mismatch)))))

    only_conclude : (id n : ℕ) (sum : Text) → Only (conclude p j key transfer_id id path n sum)
    unfolding conclude
    only_conclude id n sum = bind only_sha256 (λ actual.
        bind only_now
          (λ time. branch (text_eq actual sum) (only_complete id n time) (only_fail id time)))

    pub only_receive_at :
        (peer_device_id peer_name filename : Text) (size : ℕ) (sum : Text)
        → Only (receive_at p j key transfer_id peer_device_id peer_name filename path size sum)
    unfolding receive_at
    only_receive_at peer_device_id peer_name filename size sum = bind (only_call io) (λ _.
        bind only_now (λ started_at.
          bind
            (only_insert (
              pushed_row p j key transfer_id peer_device_id (file_name_or filename) filename path
                size started_at))
            (λ id.
              bind
                (only_modify_queue (λ q. push q (
                  pushed_entry p j key transfer_id peer_device_id (file_name_or filename) filename
                    peer_name size started_at)))
                (λ _. bind (only_send (j.to_vec push_accept)) (λ _. bind only_create (λ _.
                  bind (only_receive_chunks id size size 0) (λ n.
                    bind (only_call io)
                      (λ _. bind (only_conclude id n sum) (λ _. only_give (ok tt))))))))))
