-- ===== src/Trust/Examples.antt =====
-- The theorems about the local identity at concrete values.
use synapt.Prelude.{ℕ, zero, suc, ◌≡◌, refl, true, none, [], ◌∷◌, codes, ok}
use synapt.Network.Crypto.{Bytes}
use synapt.Network.Crypto.Examples.{toy}
use synapt.Storage.Examples.{empty_db}
use synapt.Trust.{Generated, init_identity, generated_identity}
use synapt.Trust.Identity.{init_identity-once}

abbrev repeat : ℕ → ℕ → Bytes
repeat zero b = []
repeat (suc n) b = b ∷ repeat n b

abbrev generated : ℕ → Generated
generated b = record { secret = repeat 32 b; device_id = codes "0123456789"; hostname = none }

init_identity-once_example :
    ((init_identity toy (λ t. ok t) true (generated 1) empty_db).0
      ≡ ok (generated_identity toy (λ t. ok t) (generated 1)))
    × (init_identity toy
          (λ t. ok t)
          true
          (generated 2)
          (init_identity toy (λ t. ok t) true (generated 1) empty_db).1
        ≡ (
          ok (generated_identity toy (λ t. ok t) (generated 1)),
          (init_identity toy (λ t. ok t) true (generated 1) empty_db).1,
        ))
init_identity-once_example =
    init_identity-once toy (λ t. ok t) (generated 1) (generated 2) empty_db refl refl refl
