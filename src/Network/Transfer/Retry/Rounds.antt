-- ===== src/Network/Transfer/Retry/Rounds.antt =====
-- The rounds of a transfer whose peer cannot be reached.
use synapt.Prelude.{
  ℕ, suc, ◌<◌, length, ◌+◌, ◌≡◌, refl, sym, ap, ◌∙◌, Option, none, some, List, [], ◌∷◌, ◌++◌,
  append-nil, append_assoc, Text, codes, ok, err, arith,
}
use synapt.Network.Queue.{QueueEntry, queued, partial, push}
use synapt.Network.Queue
use synapt.Network.Transfer.{TransferError, db, World, Action, now, retry, Event}
use synapt.Network.Transfer.Delivery.{IsCalm, call-calm}
use synapt.Network.Transfer.Request.Receive.{IsHeld}
use synapt.Network.Transfer.Request.Conclusion.{IsRow, IsRow-update}
use synapt.Network.Transfer.Request.Opening.{IsHeld-set}
use synapt.Network.Transfer.Retry.{stored_bytes, bytes_or, retry_after, give_up, retry_loop}
use synapt.Storage.Rows.{Db}
use synapt.Storage.History.{set_transfer_status, update_transfer_status, get_transfer_bytes}

abbrev pub HasRow : Option ℕ → Db → Type 0
HasRow none base = Unit
HasRow (some id) base = IsHeld base id

abbrev pub HasFailed : Option ℕ → Db → Type 0
HasFailed none base = Unit
HasFailed (some id) base = (n : ℕ) × IsRow base id (codes "failed") n

-- Nothing fails but the next connections, this many of them, and the row of the transfer exists if it
-- has one.
pub record IsCutOff (known : Option ℕ) (left : ℕ) (w : World) : Type 0 where
  pub calm : IsCalm w
  pub unreachable : (n : ℕ) → n < left → w.connections n ≡ none
  pub row : w.hist_id ≡ known
  pub held : HasRow known w.db

-- The second world has these events and seconds more, and this many connections fewer to come.
pub record Later (w w' : World) (events : List Event) (secs tries : ℕ) : Type 0 where
  pub told : w'.emitted ≡ w.emitted ++ events
  pub waited : w'.slept ≡ w.slept + secs
  pub tried : (n : ℕ) → w'.connections n ≡ w.connections (tries + n)

none_tried : (w : World) (n : ℕ) → w.connections n ≡ w.connections (0 + n)
none_tried w n = let same : n ≡ 0 + n = omega arith in ap (λ (k : ℕ). w.connections k) same

Later-append :
    (w w' w'' : World) (es es' : List Event) (n m k a b c : ℕ)
    → k ≡ n + m
    → c ≡ a + b
    → Later w w' es n a
    → Later w' w'' es' m b
    → Later w w'' (es ++ es') k c
Later-append w w' w'' es es' n m k a b c e f l l' = record {
  told = l'.told ∙ ap (λ (x : List Event). x ++ es') l.told ∙ append_assoc w.emitted es es';
  waited = omega (arith, l.waited, l'.waited);
  tried = λ i.
      let same : a + (b + i) ≡ c + i = omega (arith, f) in
      l'.tried i ∙ l.tried (b + i) ∙ ap (λ (x : ℕ). w.connections x) same;
}

module _ (display : TransferError → Text) (transfer_id : Text) where
  retry_after-cut :
      (attempt offset delay left : ℕ) (known : Option ℕ) (w : World)
      → IsCutOff known left w
      → (offset' : ℕ) × (w' : World) × (retry_after display transfer_id attempt offset delay w
          ≡ (ok offset', w'))
        × IsCutOff known left w'
        × Later w w' (retry transfer_id (attempt + 1) delay ∷ []) delay 0
  unfolding retry_after stored_bytes
  retry_after-cut attempt offset delay left none w c = (
    offset,
    record w {
      queue = Queue.update w.queue transfer_id partial offset;
      emitted = w.emitted ++ retry transfer_id (attempt + 1) delay ∷ [];
      slept = w.slept + delay;
    },
    ground (arith, c.row),
    record {
      calm = record { no_faults = c.calm.no_faults; nonces_fit = c.calm.nonces_fit };
      unreachable = c.unreachable;
      row = c.row;
      held = c.held;
    },
    record { told = refl; waited = refl; tried = none_tried w },
  )
  retry_after-cut attempt offset delay left (some id) w c =
      let v = record w {
        db = set_transfer_status w.db id (codes "partial");
        queue = Queue.update w.queue transfer_id partial offset;
        emitted = w.emitted ++ retry transfer_id (attempt + 1) delay ∷ [];
        slept = w.slept + delay;
      } in
      let cv : IsCalm v = record { no_faults = c.calm.no_faults; nonces_fit = c.calm.nonces_fit } in
      (
        bytes_or offset (ok (get_transfer_bytes v.db id)),
        v,
        ground (arith, c.row, call-calm db w c.calm, call-calm db v cv),
        record {
          calm = cv;
          unreachable = c.unreachable;
          row = c.row;
          held = IsHeld-set w.db id (codes "partial") c.held;
        },
        record { told = refl; waited = refl; tried = none_tried w },
      )

  give_up-cut :
      (e : TransferError) (known : Option ℕ) (w : World)
      → IsCutOff known 0 w
      → (w' : World) × (give_up display transfer_id e w ≡ (err e, w'))
        × HasFailed known w'.db
        × Later w w' [] 0 0
  unfolding give_up stored_bytes now
  give_up-cut e none w c = (
    record w { queue = Queue.update w.queue transfer_id (Queue.failed (display e)) 0 },
    ground (arith, c.row),
    tt,
    record { told = sym (append-nil w.emitted); waited = omega arith; tried = none_tried w },
  )
  give_up-cut e (some id) w c =
      let n = bytes_or 0 (ok (get_transfer_bytes w.db id)) in
      let v = record w { clock = λ k. w.clock (suc k) } in
      let cv : IsCalm v = record { no_faults = c.calm.no_faults; nonces_fit = c.calm.nonces_fit } in
      (
        record v {
          db = update_transfer_status w.db id n (codes "failed") (some (w.clock 0));
          queue = Queue.update w.queue transfer_id (Queue.failed (display e)) n;
        },
        ground (arith, c.row, call-calm db w c.calm, call-calm db v cv),
        (n, IsRow-update w.db id n (codes "failed") (some (w.clock 0)) c.held),
        record { told = sym (append-nil w.emitted); waited = omega arith; tried = none_tried w },
      )

  abbrev pub total : List ℕ → ℕ
  total [] = 0
  total (d ∷ ds) = d + total ds

  abbrev pub retries : ℕ → List ℕ → List Event
  retries attempt [] = []
  retries attempt (d ∷ ds) = retry transfer_id (attempt + 1) d ∷ retries (attempt + 1) ds

  -- An attempt that takes one connection, ends with the error and tells nothing.
  abbrev pub Fails : (ℕ → Action Text) → TransferError → Type 0
  Fails request e =
      (known : Option ℕ) (offset left : ℕ) (w : World)
      → IsCutOff known (suc left) w
      → (w' : World) × (request offset w ≡ (err e, w')) × IsCutOff known left w' × Later w w' [] 0 1

  pub retry_loop-cut :
      (request : ℕ → Action Text) (e : TransferError) (delays : List ℕ) (attempt offset : ℕ)
      (known : Option ℕ) (w : World)
      → Fails request e
      → IsCutOff known (suc (length delays)) w
      → (w' : World) × (retry_loop display transfer_id request delays attempt offset w
          ≡ (err e, w'))
        × HasFailed known w'.db
        × Later w w' (retries attempt delays) (total delays) (suc (length delays))
  unfolding retry_loop
  retry_loop-cut request e [] attempt offset known w fails c =
      let (w1, h1, c1, l1) = fails known offset 0 w c in
      let (w2, h2, f, l2) = give_up-cut e known w1 c1 in
      (
        w2,
        ground (arith, h1, h2),
        f,
        Later-append w w1 w2 [] [] 0 0 0 1 0 1 (omega arith) (omega arith) l1 l2,
      )
  retry_loop-cut request e (d ∷ ds) attempt offset known w fails c =
      let (w1, h1, c1, l1) = fails known offset (suc (length ds)) w c in
      let (offset', w2, h2, c2, l2) =
        retry_after-cut attempt offset d (suc (length ds)) known w1 c1 in
      let (w3, h3, f, l3) = retry_loop-cut request e ds (attempt + 1) offset' known w2 fails c2 in
      (
        w3,
        ground (arith, h1, h2, h3),
        f,
        Later-append w w1 w3 [] (retries attempt (d ∷ ds)) 0 (total (d ∷ ds)) (total (d ∷ ds)) 1
            (suc (length ds)) (suc (suc (length ds))) (omega arith) (omega arith) l1
            (Later-append w1 w2 w3 (retry transfer_id (attempt + 1) d ∷ [])
              (retries (attempt + 1) ds) d (total ds) (total (d ∷ ds)) 0 (suc (length ds))
              (suc (length ds)) refl (omega arith) l2 l3),
      )
