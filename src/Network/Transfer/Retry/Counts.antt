-- ===== src/Network/Transfer/Retry/Counts.antt =====
-- The counts of a batch of requests.
use synapt.Prelude.{
  ℕ, suc, ◌+◌, ◌≡◌, refl, List, [], ◌∷◌, ◌++◌, length, Text, Result, ok, err, arith,
}
use synapt.Network.Crypto.{Primitives}
use synapt.Network.Session.{Json}
use synapt.Network.Transfer.{TransferError, Event, MsgJson, World, batch_completed}
use synapt.Network.Transfer.Retry.{
  request_transfer_with_retry, tally, request_each, request_batch_transfer_with_retry,
}
use synapt.Trust.{LocalIdentity}

tally-counts :
    (r : Result Text TransferError) (others : List Text × ℕ) (n : ℕ)
    → length others.0 + others.1 ≡ n
    → length (tally r others).0 + (tally r others).1 ≡ suc n
tally-counts (ok path) (paths, skipped) n h = omega arith
tally-counts (err e) (paths, skipped) n h = omega arith

module _ (p : Primitives) (j : MsgJson) (sj : Json) (display : TransferError → Text)
    (identity : LocalIdentity) (peer_device_id download_dir peer_name : Text) where
  counted :
      (files : List (Text × Text)) (w : World)
      → let r =
          request_each p j sj display identity peer_device_id download_dir peer_name files w in
        length r.0.0 + r.0.1 ≡ length files
  unfolding request_each
  counted [] w = omega arith
  counted ((fresh, remote_path) ∷ files) w =
      let tried =
        request_transfer_with_retry p j sj display identity peer_device_id download_dir peer_name
          fresh remote_path w in
      let others =
        request_each p j sj display identity peer_device_id download_dir peer_name files tried.1 in
      tally-counts tried.0 others.0 (length files) (counted files tried.1)

  -- Whatever fails, a batch of requests ends well: the paths that it returns and the files that it
  -- tells the interface it skipped are together as many as were asked for.
  pub request_batch_lem :
      (files : List (Text × Text)) (w : World)
      → (paths : List Text) × (skipped : ℕ) × (before : List Event) × (w' : World)
        × (request_batch_transfer_with_retry p j sj display identity peer_device_id download_dir
              peer_name files w
            ≡ (ok paths, w'))
        × (length paths + skipped ≡ length files)
        × (w'.emitted ≡ before ++ batch_completed (length files) skipped ∷ [])
  unfolding request_batch_transfer_with_retry
  request_batch_lem files w =
      let r = request_each p j sj display identity peer_device_id download_dir peer_name files w in
      (
        r.0.0,
        r.0.1,
        r.1.emitted,
        record (r.1) { emitted = r.1.emitted ++ batch_completed (length files) r.0.1 ∷ [] },
        refl,
        counted files w,
        refl,
      )
