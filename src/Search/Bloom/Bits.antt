-- ===== src/Search/Bloom/Bits.antt =====
-- The bit array: what a write does to the reads.
use native.Mathlib.Nat.{mod-lt}
use synapt.Prelude.{
  ℕ, zero, suc, ◌+◌, ◌/◌, ◌%◌, ◌<◌, ◌≡◌, refl, ap, ◌∙◌, Bool, true, false, ◌||◌, ◌&&◌, some, List,
  [], ◌∷◌, length, All, Text, arith, ◌==◌,
}
use synapt.Search.Bloom.{
  Word, words_for, hash_i, set_at, set_word, set_bit, bit_of, word_bit, get_bit, probes, set_bits,
  all_set,
}

abbrev pub IsArray : ℕ → List Word → Type 0
IsArray m bits = (length bits ≡ words_for m) × All (λ w. length w ≡ 64) bits

pub length-set_at : (j : ℕ) (w : Word) → length (set_at j w) ≡ length w
length-set_at j [] = refl
length-set_at zero (b ∷ w) = refl
length-set_at (suc j) (b ∷ w) = ap suc (length-set_at j w)

pub bit_of-set_at :
    (i j : ℕ) (w : Word) → i < length w → bit_of j (set_at i w) ≡ (i == j || bit_of j w)
bit_of-set_at i j [] h = absurd (omega (arith, h))
bit_of-set_at zero zero (b ∷ w) h = refl
bit_of-set_at zero (suc j) (b ∷ w) h = ground arith
bit_of-set_at (suc i) zero (b ∷ w) h = ground arith
bit_of-set_at (suc i) (suc j) (b ∷ w) h = ground (arith, bit_of-set_at i j w (omega (arith, h)))

-- What a write does to every later read.
abbrev pub Writes : ℕ → ℕ → List Word → List Word → Type 0
Writes i j ws ws' =
    (length ws' ≡ length ws)
    × All (λ w. length w ≡ 64) ws'
    × ((i' j' : ℕ) (b : Bool)
        → word_bit i' j' ws ≡ some b
        → word_bit i' j' ws' ≡ some ((i == i' && j == j') || b))

pub set_word_lem :
    (i j : ℕ) (ws : List Word)
    → i < length ws
    → j < 64
    → All (λ w. length w ≡ 64) ws
    → (ws' : List Word) × (set_word i j ws ≡ some ws') × Writes i j ws ws'
unfolding set_word word_bit
set_word_lem i j [] h l all = absurd (omega (arith, h))
set_word_lem zero j (w ∷ ws) h l all =
    (set_at j w ∷ ws, refl, (refl, (length-set_at j w ∙ all.0, all.1), go))
  where
    go :
        (i' j' : ℕ) (b : Bool)
        → word_bit i' j' (w ∷ ws) ≡ some b
        → word_bit i' j' (set_at j w ∷ ws) ≡ some ((zero == i' && j == j') || b)
    go zero j' b e = ground (arith, bit_of-set_at j j' w (omega (arith, l, all.0)))
    go (suc i') j' b e = ground arith
set_word_lem (suc i) j (w ∷ ws) h l all =
    let (ws', e, write) = set_word_lem i j ws (omega (arith, h)) l all.1 in
    (w ∷ ws', rw e refl, (ap suc write.0, (all.0, write.1), go ws' write.2))
  where
    go :
        (ws' : List Word)
        → ((i' j' : ℕ) (b : Bool)
            → word_bit i' j' ws ≡ some b
            → word_bit i' j' ws' ≡ some ((i == i' && j == j') || b))
        → (i' j' : ℕ) (b : Bool) → word_bit i' j' (w ∷ ws) ≡ some b
        → word_bit i' j' (w ∷ ws') ≡ some ((suc i == i' && j == j') || b)
    go ws' read zero j' b e = ground arith
    go ws' read (suc i') j' b e = ground (arith, read i' j' b e)

pub same_bit : (p q : ℕ) → (p / 64 == q / 64 && p % 64 == q % 64) ≡ (p == q)
same_bit p q = ground arith

-- What a write does to every later read, by positions: the set that the array stands for grows.
abbrev pub Grows : (ℕ → Bool) → List Word → List Word → Type 0
Grows more bits bits' =
    (q : ℕ) (b : Bool) → get_bit q bits ≡ some b → get_bit q bits' ≡ some (more q || b)

pub set_bit_lem :
    (m pos : ℕ) (bits : List Word)
    → pos < m
    → IsArray m bits
    → (bits' : List Word) × (set_bit pos bits ≡ some bits')
      × IsArray m bits'
      × Grows (λ q. pos == q) bits bits'
unfolding set_bit get_bit
set_bit_lem m pos bits h a =
    let (bits', e, write) =
      set_word_lem (pos / 64) (pos % 64) bits (omega (arith, h, a.0)) (omega arith) a.1 in
    (
      bits',
      e,
      (write.0 ∙ a.0, write.1),
      λ q b g. write.2 (q / 64) (q % 64) b g ∙ ap (λ (x : Bool). some (x || b)) (same_bit pos q),
    )

pub word_bit-defined :
    (i j : ℕ) (ws : List Word) → i < length ws → (b : Bool) × (word_bit i j ws ≡ some b)
unfolding word_bit
word_bit-defined i j [] h = absurd (omega (arith, h))
word_bit-defined zero j (w ∷ ws) h = (bit_of j w, refl)
word_bit-defined (suc i) j (w ∷ ws) h = word_bit-defined i j ws (omega (arith, h))

pub get_bit-defined :
    (m pos : ℕ) (bits : List Word)
    → pos < m
    → IsArray m bits
    → (b : Bool) × (get_bit pos bits ≡ some b)
unfolding get_bit
get_bit-defined m pos bits h a = word_bit-defined (pos / 64) (pos % 64) bits (omega (arith, h, a.0))

abbrev pub has : List ℕ → ℕ → Bool
has [] q = false
has (p ∷ ps) q = p == q || has ps q

pub set_bits_lem :
    (m : ℕ) (ps : List ℕ) (bits : List Word)
    → All (λ p. p < m) ps
    → IsArray m bits
    → (bits' : List Word) × (set_bits ps bits ≡ some bits')
      × IsArray m bits'
      × Grows (has ps) bits bits'
unfolding set_bits
set_bits_lem m [] bits h a = (bits, refl, a, λ q b g. g)
set_bits_lem m (p ∷ ps) bits h a =
    let (b1, e1, a1, g1) = set_bit_lem m p bits h.0 a in
    let (b2, e2, a2, g2) = set_bits_lem m ps b1 h.1 a1 in
    (b2, ground (arith, e1, e2), a2, λ q b g. ground (arith, g2 q (p == q || b), g1 q b g))

pub probes-lt : (m : ℕ) (term : Text) (i n : ℕ) → 0 < m → All (λ p. p < m) (probes m term i n)
unfolding probes hash_i
probes-lt m term i zero h = tt
probes-lt m term i (suc n) h = (mod-lt _ h, probes-lt m term (i + 1) n h)

pub all_set_lem :
    (ps : List ℕ) (bits : List Word)
    → All (λ p. get_bit p bits ≡ some true) ps
    → all_set ps bits ≡ some true
unfolding all_set
all_set_lem [] bits h = refl
all_set_lem (p ∷ ps) bits h = ground (arith, h.0, all_set_lem ps bits h.1)

pub all_set-All :
    (ps : List ℕ) (bits : List Word)
    → all_set ps bits ≡ some true
    → All (λ p. get_bit p bits ≡ some true) ps
unfolding all_set
all_set-All [] bits h = tt
all_set-All (p ∷ ps) bits h = (ground arith, all_set-All ps bits (ground arith))
