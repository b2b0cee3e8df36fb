-- ===== src/Network/Transfer/Retry/Exhaustion.antt =====
-- A transfer whose peer cannot be reached.
use synapt.Prelude.{
  ℕ, suc, ◌+◌, ◌<◌, ◌≡◌, refl, sym, ap, inl, inr, Bool, true, false, Option, none, some, List, [],
  ◌∷◌, append-nil, Text, ℤ, max_zero, ◌==◌, err, arith,
}
use mathlib.Core.Path.{subst}
use synapt.Network.Crypto.{Primitives}
use synapt.Network.Queue.{queued, push}
use synapt.Network.Session.{Json}
use synapt.Network.Transfer.{TransferError, io, db, MsgJson, World, now, connect, file_name_or}
use synapt.Network.Transfer.Delivery.{IsCalm, call-calm}
use synapt.Network.Transfer.Request.{request_transfer, queue_entry}
use synapt.Network.Transfer.Request.Receive.{IsHeld}
use synapt.Network.Transfer.Retry.{resume, request_transfer_with_retry, id_or, retry_delays_secs}
use synapt.Storage.Rows.{Db, select, TransferHistoryRow}
use synapt.Storage.History.{find_partial_transfer}
use synapt.Storage.History.Laws.{find_transfer, IsLatest, find_partial_transfer-IsLatest}
use synapt.Prelude.Members.{In}
use synapt.Trust.{LocalIdentity}
use synapt.Network.Transfer.Retry.Rounds.{HasRow, HasFailed, Later, retries, Fails, retry_loop-cut}

IsHeld-In :
    (r : ℕ × TransferHistoryRow) (rows : List (ℕ × TransferHistoryRow))
    → In r rows
    → (row : ℕ × TransferHistoryRow) × (select (λ q. q.0 == r.0) rows ≡ some row)
unfolding select
IsHeld-In r [] m = absurd m
IsHeld-In r (q ∷ rows) (inl e) = (q, ground (arith, ap (λ (x : ℕ × TransferHistoryRow). x.0) e))
IsHeld-In r (q ∷ rows) (inr m) = go (q.0 == r.0) refl (IsHeld-In r rows m)
  where
    go :
        (b : Bool)
        → (q.0 == r.0) ≡ b
        → (row : ℕ × TransferHistoryRow) × (select (λ x. x.0 == r.0) rows ≡ some row)
        → (row : ℕ × TransferHistoryRow) × (select (λ x. x.0 == r.0) (q ∷ rows) ≡ some row)
    go true e h = (q, rw e refl)
    go false e (row, h) = (row, rw e h)

module _ (p : Primitives) (j : MsgJson) (sj : Json) (display : TransferError → Text)
    (identity : LocalIdentity) (peer_device_id download_dir peer_name : Text) where
  request-cut :
      (transfer_id remote_path : Text)
      → Fails display transfer_id
          (request_transfer p j sj identity transfer_id peer_device_id remote_path download_dir
            peer_name)
          io
  unfolding request_transfer now connect
  request-cut transfer_id remote_path known offset left w c = (
    record w {
      clock = λ n. w.clock (suc n);
      queue = push w.queue (
          queue_entry p j sj identity transfer_id peer_device_id remote_path download_dir peer_name
            (file_name_or remote_path) queued offset 0 (w.clock 0));
      connections = λ n. w.connections (suc n);
    },
    ground (arith, c.unreachable 0 (omega arith)),
    record {
      calm = record { no_faults = c.calm.no_faults; nonces_fit = c.calm.nonces_fit };
      unreachable = λ n h. c.unreachable (suc n) (omega (arith, h));
      row = c.row;
      held = c.held;
    },
    record {
      told = sym (append-nil w.emitted);
      waited = omega arith;
      tried = λ n. let same : suc n ≡ 1 + n = omega arith in ap (λ (k : ℕ). w.connections k) same;
    },
  )

  -- The row and the id of the transfer that is found to resume.
  abbrev pub row_found : Option (ℕ × Option Text × ℤ) → Option ℕ
  row_found none = none
  row_found (some found) = some found.0

  abbrev pub id_found : Text → Option (ℕ × Option Text × ℤ) → Text
  id_found fresh none = fresh
  id_found fresh (some (row, transfer_id, bytes)) =
      id_or p j sj display identity peer_device_id download_dir peer_name fresh transfer_id

  HasRow-row_found :
      (base : Db) (peer path : Text) (found : Option (ℕ × Option Text × ℤ))
      → IsLatest base peer path found
      → HasRow (row_found found) base
  unfolding find_transfer
  HasRow-row_found base peer path none l = tt
  HasRow-row_found base peer path (some found) (r, e, m, is, others) =
      subst (λ (k : ℕ). IsHeld base k) (sym (ap (λ (x : ℕ × Option Text × ℤ). x.0) e))
        (IsHeld-In r base.transfer_history m)

  resume-cut :
      (fresh remote_path : Text) (found : Option (ℕ × Option Text × ℤ)) (w : World)
      → IsCalm w
      → ((n : ℕ) → n < 7 → w.connections n ≡ none)
      → HasRow (row_found found) w.db
      → (w' : World) × (resume p j sj display identity peer_device_id download_dir peer_name fresh
            remote_path found w
          ≡ (err io, w'))
        × HasFailed (row_found found) w'.db
        × Later w w' (retries display (id_found fresh found) 0 retry_delays_secs) 61 7
  unfolding resume
  resume-cut fresh remote_path none w c u h =
      let v = record w { hist_id = none } in
      let (w', e, f, l) =
        retry_loop-cut display fresh
          (request_transfer p j sj identity fresh peer_device_id remote_path download_dir peer_name)
          io retry_delays_secs 0 0 none v (request-cut fresh remote_path)
          (record {
            calm = record { no_faults = c.no_faults; nonces_fit = c.nonces_fit };
            unreachable = u;
            row = refl;
            held = tt;
          }) in
      (w', e, f, record { told = l.told; waited = l.waited; tried = l.tried })
  resume-cut fresh remote_path (some (id, transfer_id, bytes)) w c u h =
      let v = record w { hist_id = some id } in
      let tid = id_found fresh (some (id, transfer_id, bytes)) in
      let (w', e, f, l) =
        retry_loop-cut display tid
          (request_transfer p j sj identity tid peer_device_id remote_path download_dir peer_name)
          io retry_delays_secs 0 (max_zero bytes) (some id) v (request-cut tid remote_path)
          (record {
            calm = record { no_faults = c.no_faults; nonces_fit = c.nonces_fit };
            unreachable = u;
            row = refl;
            held = h;
          }) in
      (w', e, f, record { told = l.told; waited = l.waited; tried = l.tried })

  -- Where the next seven connections cannot be made and nothing else fails, a request makes exactly
  -- those seven: it ends with the error of the connection and leaves every later connection to come,
  -- having told the interface of six retries and waited 61 seconds in all, and the row of the transfer
  -- that it resumed, if there is one, has failed.
  pub request_transfer_with_retry_lem :
      (fresh remote_path : Text) (w : World)
      → IsCalm w
      → ((n : ℕ) → n < 7 → w.connections n ≡ none)
      → (w' : World) × (request_transfer_with_retry p j sj display identity peer_device_id
            download_dir peer_name fresh remote_path w
          ≡ (err io, w'))
        × HasFailed (row_found (find_partial_transfer w.db peer_device_id remote_path)) w'.db
        × Later w w'
            (retries display
              (id_found fresh (find_partial_transfer w.db peer_device_id remote_path))
              0
              (1 ∷ 2 ∷ 4 ∷ 8 ∷ 16 ∷ 30 ∷ []))
            61
            7
  unfolding request_transfer_with_retry
  request_transfer_with_retry_lem fresh remote_path w c u =
      let found = find_partial_transfer w.db peer_device_id remote_path in
      let (w', e, f, l) = resume-cut fresh remote_path found w c u (
        HasRow-row_found w.db peer_device_id remote_path found
          (find_partial_transfer-IsLatest w.db peer_device_id remote_path)) in
      (w', ground (arith, call-calm db w c, e), f, l)
