-- ===== src/Search/Bloom.antt =====
-- src-tauri/src/search/bloom.rs: the Bloom filter.
-- A u64 of the bit array is the list of its 64 bits, the lowest first; an index outside the array,
-- at which the source panics, gives `none`. The sizes come from floating point functions, which are
-- arguments: `bits_for` the number of bits for a capacity, `probes_for` that of the probes.
pub mod Bits
pub mod Membership
mod Examples
use Prim.Native.Nat.{bit_xor}
use synapt.Prelude.{
  ℕ, zero, suc, ◌+◌, ◌*◌, ◌-◌, ◌/◌, ◌%◌, ◌^◌, max, Bool, true, false, Option, none, some, List, [],
  ◌∷◌, ◌++◌, Text, ltb, if◌then◌else◌,
}
use synapt.Network.Crypto.{Bytes}

abbrev pub Word : Type 0
Word = List Bool

pub record BloomFilter : Type 0 where
  pub bits : List Word
  pub k : ℕ
  pub m : ℕ
  pub capacity : ℕ

abbrev pub repeat : {A : Type 0} → A → ℕ → List A
repeat a zero = []
repeat a (suc n) = a ∷ repeat a n

-- `div_ceil`
abbrev pub words_for : ℕ → ℕ
words_for m = (m + 63) / 64

unfoldable pub new : (ℕ → ℕ) → (ℕ → ℕ → ℕ) → ℕ → BloomFilter
new bits_for probes_for capacity =
    let cap = max capacity 1 in
    let m = max (bits_for cap) 1 in
    record {
      bits = repeat (repeat false 64) (words_for m);
      k = max (probes_for m cap) 1;
      m = m;
      capacity = cap;
    }

-- The bytes of a text in UTF-8
abbrev pub utf8 : ℕ → Bytes
utf8 c =
    if ltb c 128
    then c ∷ []
    else if ltb c 2048
    then (192 + c / 64) ∷ (128 + c % 64) ∷ []
    else if ltb c 65536
    then (224 + c / 4096) ∷ (128 + c / 64 % 64) ∷ (128 + c % 64) ∷ []
    else (240 + c / 262144) ∷ (128 + c / 4096 % 64) ∷ (128 + c / 64 % 64) ∷ (128 + c % 64) ∷ []

unfoldable pub as_bytes : Text → Bytes
as_bytes [] = []
as_bytes (c ∷ chars) = utf8 c ++ as_bytes chars

-- The loops of `fnv1a` and `djb2`, from the hash so far.
unfoldable pub fnv1a_from : ℕ → Bytes → ℕ
fnv1a_from hash [] = hash
fnv1a_from hash (byte ∷ bytes) = fnv1a_from (bit_xor hash byte * 1099511628211 % 2 ^ 64) bytes

unfoldable pub fnv1a : Bytes → ℕ
unfolding fnv1a_from
fnv1a bytes = fnv1a_from 14695981039346656037 bytes

unfoldable pub djb2_from : ℕ → Bytes → ℕ
djb2_from hash [] = hash
djb2_from hash (byte ∷ bytes) =
    djb2_from (((hash * 32 % 2 ^ 64 + hash) % 2 ^ 64 + byte) % 2 ^ 64) bytes

unfoldable pub djb2 : Bytes → ℕ
unfolding djb2_from
djb2 bytes = djb2_from 5381 bytes

-- `djb2(…) | 1`
abbrev pub step_of : ℕ → ℕ
step_of h = h - h % 2 + 1

-- Of the filter the probes read the number `m` alone.
unfoldable pub hash_i : ℕ → Text → ℕ → ℕ
unfolding as_bytes fnv1a djb2
hash_i m term i = (fnv1a (as_bytes term) + i * step_of (djb2 (as_bytes term)) % 2 ^ 64) % 2 ^ 64 % m

-- `self.bits[i] |= 1u64 << j`, with `j` below 64
abbrev pub set_at : ℕ → Word → Word
set_at j [] = []
set_at zero (b ∷ w) = true ∷ w
set_at (suc j) (b ∷ w) = b ∷ set_at j w

unfoldable pub set_word : ℕ → ℕ → List Word → Option (List Word)
set_word i j [] = none
set_word zero j (w ∷ ws) = some (set_at j w ∷ ws)
set_word (suc i) j (w ∷ ws) = elim (set_word i j ws) [ none ↦ none | some r ↦ some (w ∷ r) ]

unfoldable pub set_bit : ℕ → List Word → Option (List Word)
unfolding set_word
set_bit pos bits = set_word (pos / 64) (pos % 64) bits

-- `(self.bits[i] >> j) & 1 == 1`
abbrev pub bit_of : ℕ → Word → Bool
bit_of j [] = false
bit_of zero (b ∷ w) = b
bit_of (suc j) (b ∷ w) = bit_of j w

unfoldable pub word_bit : ℕ → ℕ → List Word → Option Bool
word_bit i j [] = none
word_bit zero j (w ∷ ws) = some (bit_of j w)
word_bit (suc i) j (w ∷ ws) = word_bit i j ws

unfoldable pub get_bit : ℕ → List Word → Option Bool
unfolding word_bit
get_bit pos bits = word_bit (pos / 64) (pos % 64) bits

-- The positions of the probes `i`, `i + 1`, …, as many as there are left.
unfoldable pub probes : ℕ → Text → ℕ → ℕ → List ℕ
unfolding hash_i
probes m term i zero = []
probes m term i (suc n) = hash_i m term i ∷ probes m term (i + 1) n

unfoldable pub set_bits : List ℕ → List Word → Option (List Word)
unfolding set_bit
set_bits [] bits = some bits
set_bits (pos ∷ positions) bits = elim (set_bit pos bits) [
  | none ↦ none
  | some bits' ↦ set_bits positions bits'
]

unfoldable pub insert : BloomFilter → Text → Option BloomFilter
unfolding probes set_bits
insert filter term = elim (set_bits (probes filter.m term 0 filter.k) filter.bits) [
  | none ↦ none
  | some bits ↦ some (record filter { bits = bits })
]

-- `all` stops at the first bit that is not set.
unfoldable pub all_set : List ℕ → List Word → Option Bool
unfolding get_bit
all_set [] bits = some true
all_set (pos ∷ positions) bits = elim (get_bit pos bits) [
  | none ↦ none
  | some false ↦ some false
  | some true ↦ all_set positions bits
]

unfoldable pub may_contain : BloomFilter → Text → Option Bool
unfolding probes all_set
may_contain filter term = all_set (probes filter.m term 0 filter.k) filter.bits

unfoldable pub bit_count : BloomFilter → ℕ
bit_count filter = filter.m
