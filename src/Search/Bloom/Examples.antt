-- ===== src/Search/Bloom/Examples.antt =====
-- The filter at concrete sizes.
use synapt.Prelude.{◌+◌, ◌≡◌, refl, some, false, [], ◌∷◌, All, Text, codes}
use synapt.Search.Bloom.{BloomFilter, new, may_contain, fnv1a, as_bytes}
use synapt.Search.Bloom.Membership.{IsFound, insert_all, may_contain_lem}

hash_of_a : fnv1a (as_bytes (codes "a")) ≡ 12638187200555641996
unfolding fnv1a as_bytes
hash_of_a = refl

may_contain_example :
    ((filter : BloomFilter) × (insert_all
          (new (λ n. n + 90) (λ m n. 3) 10)
          (codes "hello" ∷ codes "" ∷ [])
        ≡ some filter)
      × All (IsFound filter) (codes "hello" ∷ codes "" ∷ []))
    × ((other : Text) → may_contain (new (λ n. n + 90) (λ m n. 3) 10) other ≡ some false)
may_contain_example = may_contain_lem (λ n. n + 90) (λ m n. 3) 10 (codes "hello" ∷ codes "" ∷ [])
