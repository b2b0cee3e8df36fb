-- ===== src/Network/Transfer/Request/Conclusion.antt =====
-- What the comparison of the digests leaves behind.
use synapt.Prelude.{
  ℕ, suc, ◌≡◌, refl, sym, ap, ◌∙◌, Bool, true, false, Option, none, some, [], ◌∷◌, ◌++◌, Text,
  text_eq, text_eq_refl, codes, ℤ, as_i64, Result, ok, err, if◌then◌else◌, arith,
}
use mathlib.Core.Path.{subst}
use synapt.Network.Crypto.{Bytes, Primitives}
use synapt.Network.Queue.{QueueStatus}
use synapt.Network.Queue
use synapt.Network.Transfer
use synapt.Network.Transfer.{
  Event, completed, TransferError, io, db, World, Action, ◌>>=◌, ◌>>◌, give, gets, call, now,
  checksum_mismatch, MsgJson,
}
use synapt.Network.Transfer.Delivery.{IsCalm, call-calm, bind-ok}
use synapt.Network.Transfer.Serve.{sha256_of_file}
use synapt.Network.Transfer.Serve.Chunks.{sha256_of_file-calm}
use synapt.Network.Transfer.Request.{remove_file, complete_transfer, fail_checksum, conclude}
use synapt.Network.Transfer.Request.Receive.{IsHeld, IsHeld-update}
use synapt.Storage.Rows.{Db, TransferHistoryRow}
use synapt.Storage.History.{with_progress, update_transfer_status}
use synapt.Storage.History.Laws.{find_transfer, find-update_transfer_status}
use synapt.Trust.{lower_hex}

-- The row of the transfer has the status and the count.
abbrev pub IsRow : Db → ℕ → Text → ℕ → Type 0
IsRow base id status n =
    (row : ℕ × TransferHistoryRow) × (find_transfer base id ≡ some row)
    × (row.1.status ≡ status)
    × (row.1.bytes_received ≡ as_i64 n)

pub IsRow-update :
    (base : Db) (id n : ℕ) (status : Text) (time : Option ℤ)
    → IsHeld base id
    → IsRow (update_transfer_status base id n status time) id status n
IsRow-update base id n status time (row, e) =
    let (row', e') = IsHeld-update base id n status time (row, e) in
    (
      with_progress n status time row,
      (find-update_transfer_status base id id n status time).0 ∙ ground (arith, e),
      refl,
      refl,
    )

-- Where the digests agree the file stays and its row is complete; where they do not the file is
-- gone, its row has failed, and none of its bytes count.
abbrev pub IsConclusion : Bool → Text → Bytes → ℕ → ℕ → Result Text TransferError × World → Type 0
IsConclusion true path content id n (answer, w) =
    (answer ≡ ok path) × (w.files path ≡ some content) × IsRow w.db id (codes "complete") n
IsConclusion false path content id n (answer, w) =
    (answer ≡ err checksum_mismatch) × (w.files path ≡ none) × IsRow w.db id (codes "failed") 0

module _ (p : Primitives) (j : MsgJson) (key : Bytes) (transfer_id : Text) (id : ℕ) where
  abbrev settled : ℕ → Text → Option ℤ → QueueStatus → Event → World → World
  settled n status time shown event w = record w {
    db = update_transfer_status w.db id n status time;
    queue = Queue.update w.queue transfer_id shown n;
    emitted = w.emitted ++ event ∷ [];
  }

  abbrev without : Text → World → World
  without path w = record w { files = λ q. if text_eq path q then none else w.files q }

  complete_transfer-eq :
      (path : Text) (n : ℕ) (time : ℤ) (w : World)
      → IsCalm w
      → complete_transfer p j key transfer_id id path n time w ≡ (
        ok path,
        settled n (codes "complete") (some time) QueueStatus.complete (completed transfer_id) w,
      )
  unfolding complete_transfer
  complete_transfer-eq path n time w c = ground (arith, call-calm db w c)

  fail_checksum-eq :
      (path : Text) (time : ℤ) (w : World)
      → IsCalm w
      → fail_checksum p j key transfer_id id path time w ≡ (
        err checksum_mismatch,
        settled 0
            (codes "failed")
            (some time)
            (Queue.failed (codes "checksum_mismatch"))
            (Transfer.failed transfer_id (codes "checksum_mismatch"))
            (without path w),
      )
  unfolding fail_checksum remove_file
  fail_checksum-eq path time w c =
      let v = without path w in
      let cv : IsCalm v = record { no_faults = c.no_faults; nonces_fit = c.nonces_fit } in
      ground (arith, call-calm io w c, call-calm db v cv)

  complete_transfer-calm :
      (path : Text) (content : Bytes) (n : ℕ) (time : ℤ) (w : World)
      → IsCalm w
      → IsHeld w.db id
      → w.files path ≡ some content
      → IsConclusion true path content id n (complete_transfer p j key transfer_id id path n time w)
  complete_transfer-calm path content n time w c h f =
      subst (λ r. IsConclusion true path content id n r)
        (sym (complete_transfer-eq path n time w c))
        (refl, f, IsRow-update w.db id n (codes "complete") (some time) h)

  fail_checksum-calm :
      (path : Text) (content : Bytes) (n : ℕ) (time : ℤ) (w : World)
      → IsCalm w
      → IsHeld w.db id
      → IsConclusion false path content id n (fail_checksum p j key transfer_id id path time w)
  fail_checksum-calm path content n time w c h =
      subst (λ r. IsConclusion false path content id n r) (sym (fail_checksum-eq path time w c))
        (refl, rw (text_eq_refl path) refl, IsRow-update w.db id 0 (codes "failed") (some time) h)

  -- Where no call of the system fails, the end of a transfer keeps the file that was received and
  -- marks its row as complete where its digest is the one announced; any other file is removed, its
  -- row is marked as failed, and the transfer ends with `checksum_mismatch`.
  pub conclude_lem :
      (path : Text) (content : Bytes) (n : ℕ) (checksum : Text) (w : World)
      → IsCalm w
      → IsHeld w.db id
      → w.files path ≡ some content
      → IsConclusion
          (text_eq (lower_hex (p.sha256 content)) checksum)
          path
          content
          id
          n
          (conclude p j key transfer_id id path n checksum w)
  unfolding conclude now
  conclude_lem path content n checksum w c h f =
      let (w1, hashed, s) = sha256_of_file-calm p key path content w c f in
      let actual = lower_hex (p.sha256 content) in
      let w2 = record w1 { clock = λ k. w1.clock (suc k) } in
      let c2 : IsCalm w2 = record {
        no_faults = s.calm.no_faults;
        nonces_fit = s.calm.nonces_fit;
      } in
      let h2 : IsHeld w2.db id = subst (λ x. IsHeld x id) (sym s.same_db) h in
      let f2 : w2.files path ≡ some content =
        ap (λ (g : Text → Option Bytes). g path) s.same_files ∙ f in
      let time = w1.clock 0 in
      subst (λ r. IsConclusion (text_eq actual checksum) path content id n r)
        (sym (
          bind-ok (sha256_of_file p path)
            (λ a. now >>= λ t.
              if text_eq a checksum
              then complete_transfer p j key transfer_id id path n t
              else fail_checksum p j key transfer_id id path t)
            w actual w1 hashed))
        (go w2 time (text_eq actual checksum) c2 h2 f2)
    where
      go :
          (v : World) (time : ℤ) (same : Bool)
          → IsCalm v
          → IsHeld v.db id
          → v.files path ≡ some content
          → IsConclusion same path content id n (
              (if same
                  then complete_transfer p j key transfer_id id path n time
                  else fail_checksum p j key transfer_id id path time)
                v)
      go v time true cv hv fv = complete_transfer-calm path content n time v cv hv fv
      go v time false cv hv fv = fail_checksum-calm path content n time v cv hv
