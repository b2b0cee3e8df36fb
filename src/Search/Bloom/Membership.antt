-- ===== src/Search/Bloom/Membership.antt =====
-- A term that was inserted is found, and nothing is in a new filter.
use synapt.Prelude.{
  ℕ, zero, suc, ◌/◌, ◌%◌, ◌<◌, ◌≡◌, max, refl, ap, ◌∙◌, Bool, true, false, Option, none, some, List,
  [], ◌∷◌, length, All, Text, arith,
}
use synapt.Search.Bloom.{
  Word, BloomFilter, repeat, words_for, new, hash_i, bit_of, word_bit, get_bit, probes, insert,
  all_set, may_contain,
}
use synapt.Search.Bloom.Bits.{
  IsArray, Grows, get_bit-defined, has, set_bits_lem, probes-lt, all_set_lem, all_set-All,
}

IsArray-repeat :
    (n : ℕ)
    → (length (repeat (repeat false 64) n) ≡ n)
      × All (λ w. length w ≡ 64) (repeat (repeat false 64) n)
IsArray-repeat zero = (refl, tt)
IsArray-repeat (suc n) = let ih = IsArray-repeat n in (ap suc ih.0, (refl, ih.1))

-- At least one bit and one probe, and an array of the words that the bits need.
pub record IsValid (filter : BloomFilter) : Type 0 where
  pub some_bits : 0 < filter.m
  pub some_probes : 0 < filter.k
  pub array : IsArray filter.m filter.bits

new-IsValid :
    (bits_for : ℕ → ℕ) (probes_for : ℕ → ℕ → ℕ) (capacity : ℕ)
    → IsValid (new bits_for probes_for capacity)
unfolding new
new-IsValid bits_for probes_for capacity = record {
  some_bits = omega arith;
  some_probes = omega arith;
  array = IsArray-repeat (words_for (max (bits_for (max capacity 1)) 1));
}

abbrev pub IsFound : BloomFilter → Text → Type 0
IsFound filter term = may_contain filter term ≡ some true

-- Bits that are set stay set.
All-Grows :
    (more : ℕ → Bool) (bits bits' : List Word) (ps : List ℕ)
    → Grows more bits bits'
    → All (λ p. get_bit p bits ≡ some true) ps
    → All (λ p. get_bit p bits' ≡ some true) ps
All-Grows more bits bits' [] g h = tt
All-Grows more bits bits' (p ∷ ps) g h =
    (ground (arith, g p true h.0), All-Grows more bits bits' ps g h.1)

-- The positions that were written read as set.
All-written :
    (m : ℕ) (bits bits' : List Word) (ps qs : List ℕ)
    → IsArray m bits
    → All (λ p. p < m) ps
    → Grows (has qs) bits bits'
    → All (λ p. has qs p ≡ true) ps
    → All (λ p. get_bit p bits' ≡ some true) ps
All-written m bits bits' [] qs a h g k = tt
All-written m bits bits' (p ∷ ps) qs a h g k =
    let (b, e) = get_bit-defined m p bits h.0 a in
    (ground (arith, g p b e, k.0), All-written m bits bits' ps qs a h.1 g k.1)

has-weaken :
    (q : ℕ) (qs ps : List ℕ) → All (λ p. has qs p ≡ true) ps → All (λ p. has (q ∷ qs) p ≡ true) ps
has-weaken q qs [] h = tt
has-weaken q qs (p ∷ ps) h = (ground (arith, h.0), has-weaken q qs ps h.1)

has_self : (ps : List ℕ) → All (λ p. has ps p ≡ true) ps
has_self [] = tt
has_self (p ∷ ps) = (ground arith, has-weaken p ps ps (has_self ps))

insert_lem :
    (filter : BloomFilter) (term : Text)
    → IsValid filter
    → (filter' : BloomFilter) × (insert filter term ≡ some filter')
      × IsValid filter'
      × IsFound filter' term
      × ((other : Text) → IsFound filter other → IsFound filter' other)
unfolding insert may_contain
insert_lem filter term v =
    let ps = probes filter.m term 0 filter.k in
    let inside = probes-lt filter.m term 0 filter.k v.some_bits in
    let (bits', e, a, g) = set_bits_lem filter.m ps filter.bits inside v.array in
    (
      record filter { bits = bits' },
      ground (arith, e),
      record { some_bits = v.some_bits; some_probes = v.some_probes; array = a },
      all_set_lem ps bits'
          (All-written filter.m filter.bits bits' ps ps v.array inside g (has_self ps)),
      λ other h. all_set_lem (probes filter.m other 0 filter.k) bits' (
          All-Grows (has ps) filter.bits bits' (probes filter.m other 0 filter.k) g
            (all_set-All (probes filter.m other 0 filter.k) filter.bits h)),
    )

-- The loop that fills a filter
abbrev pub insert_all : BloomFilter → List Text → Option BloomFilter
insert_all filter [] = some filter
insert_all filter (term ∷ terms) = elim (insert filter term) [
  | none ↦ none
  | some filter' ↦ insert_all filter' terms
]

abbrev Filled : BloomFilter → List Text → Type 0
Filled filter terms =
    (filter' : BloomFilter) × (insert_all filter terms ≡ some filter')
    × All (IsFound filter') terms
    × ((other : Text) → IsFound filter other → IsFound filter' other)

fill : (filter : BloomFilter) (terms : List Text) → IsValid filter → Filled filter terms
fill filter [] v = (filter, refl, tt, λ other h. h)
fill filter (term ∷ terms) v =
    let (f1, e1, v1, found, keeps) = insert_lem filter term v in
    let (f2, e2, all, keeps') = fill f1 terms v1 in
    (f2, ground (arith, e1, e2), (keeps' term found, all), λ other h. keeps' other (keeps other h))

get_bit-repeat :
    (i j n : ℕ)
    → i < n
    → word_bit i j (repeat (repeat false 64) n) ≡ some (bit_of j (repeat false 64))
unfolding word_bit
get_bit-repeat i j zero h = absurd (omega (arith, h))
get_bit-repeat zero j (suc n) h = refl
get_bit-repeat (suc i) j (suc n) h = get_bit-repeat i j n (omega (arith, h))

bit_of-repeat : (j n : ℕ) → bit_of j (repeat false n) ≡ false
bit_of-repeat zero zero = refl
bit_of-repeat (suc j) zero = refl
bit_of-repeat zero (suc n) = refl
bit_of-repeat (suc j) (suc n) = bit_of-repeat j n

empty_lem :
    (filter : BloomFilter) (term : Text)
    → IsValid filter
    → filter.bits ≡ repeat (repeat false 64) (words_for filter.m)
    → may_contain filter term ≡ some false
unfolding may_contain get_bit all_set
empty_lem filter term v e = go filter.k v.some_probes
  where
    go : (k : ℕ) → 0 < k → all_set (probes filter.m term 0 k) filter.bits ≡ some false
    go zero h = absurd (omega (arith, h))
    go (suc k) h =
        let pos = hash_i filter.m term 0 in
        let inside = (probes-lt filter.m term 0 (suc k) v.some_bits).0 in
        let unset : get_bit pos filter.bits ≡ some false =
          ap (get_bit pos) e
          ∙ get_bit-repeat (pos / 64) (pos % 64) (words_for filter.m) (omega (arith, inside))
          ∙ ap (λ (b : Bool). some b) (bit_of-repeat (pos % 64) 64) in
        ground (arith, unset)

-- Whatever the sizes are, a filter into which terms are inserted says of each of them that it may
-- contain it, and the empty filter says of no text that it may. No index is outside the array of
-- bits.
pub may_contain_lem :
    (bits_for : ℕ → ℕ) (probes_for : ℕ → ℕ → ℕ) (capacity : ℕ) (terms : List Text)
    → ((filter : BloomFilter) × (insert_all (new bits_for probes_for capacity) terms ≡ some filter)
        × All (IsFound filter) terms)
      × ((other : Text) → may_contain (new bits_for probes_for capacity) other ≡ some false)
unfolding new
may_contain_lem bits_for probes_for capacity terms =
    let v = new-IsValid bits_for probes_for capacity in
    let (filter, e, all, keeps) = fill (new bits_for probes_for capacity) terms v in
    ((filter, e, all), λ other. empty_lem (new bits_for probes_for capacity) other v refl)
