-- ===== src/Network/Transfer/Retry/Examples.antt =====
-- The theorems about retries at concrete files.
use synapt.Prelude.{ℕ, ◌+◌, ◌≡◌, refl, List, [], ◌∷◌, ◌++◌, length, Text, codes, ok, err}
use synapt.Network.Crypto.Examples.{toy}
use synapt.Network.Session.Examples.{json, laptop}
use synapt.Network.Transfer.{TransferError, io, Event, batch_completed, World}
use synapt.Network.Transfer.Examples.{msgs, world, calm}
use synapt.Network.Transfer.Retry.{request_transfer_with_retry, request_batch_transfer_with_retry}
use synapt.Network.Transfer.Retry.Counts.{request_batch_lem}
use synapt.Network.Transfer.Retry.Exhaustion.{row_found, id_found, request_transfer_with_retry_lem}
use synapt.Network.Transfer.Retry.Rounds.{HasFailed, Later, retries}
use synapt.Storage.History.{find_partial_transfer}

abbrev display : TransferError → Text
display e = codes "error"

request_transfer_with_retry_example :
    (w' : World) × (request_transfer_with_retry toy msgs json display laptop
        (codes "D")
        (codes "/dl")
        (codes "D")
        (codes "n")
        (codes "/d/f")
        (world [])
      ≡ (err io, w'))
    × HasFailed
        (row_found toy msgs json display laptop
          (codes "D")
          (codes "/dl")
          (codes "D")
          (find_partial_transfer (world []).db (codes "D") (codes "/d/f")))
        w'.db
    × Later
        (world [])
        w'
        (retries display
          (id_found toy msgs json display laptop
            (codes "D")
            (codes "/dl")
            (codes "D")
            (codes "n")
            (find_partial_transfer (world []).db (codes "D") (codes "/d/f")))
          0
          (1 ∷ 2 ∷ 4 ∷ 8 ∷ 16 ∷ 30 ∷ []))
        61
        7
request_transfer_with_retry_example =
    request_transfer_with_retry_lem toy msgs json display laptop (codes "D") (codes "/dl")
      (codes "D") (codes "n") (codes "/d/f") (world []) (calm []) (λ n h. refl)

request_batch_example :
    (paths : List Text) × (skipped : ℕ) × (before : List Event) × (w' : World)
    × (request_batch_transfer_with_retry toy msgs json display laptop
          (codes "D")
          (codes "/dl")
          (codes "D")
          ((codes "n", codes "/d/f") ∷ [])
          (world [])
        ≡ (ok paths, w'))
    × (length paths + skipped ≡ 1)
    × (w'.emitted ≡ before ++ batch_completed 1 skipped ∷ [])
request_batch_example =
    request_batch_lem toy msgs json display laptop (codes "D") (codes "/dl") (codes "D")
      ((codes "n", codes "/d/f") ∷ []) (world [])
