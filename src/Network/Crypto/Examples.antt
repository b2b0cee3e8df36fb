-- ===== src/Network/Crypto/Examples.antt =====
-- Concrete primitives that meet the laws, tests of crypto.rs, and its theorems at concrete values.
use synapt.Prelude.{
  ◌^◌, ℕ, ◌+◌, ◌%◌, ◌≤◌, ◌<◌, ◌≡◌, refl, ap, ◌⊎◌, some, [], ◌∷◌, ◌++◌, length, take, drop,
  get_elem?, All, drop-append, codes, ok, err, arith,
}
use synapt.Network.Crypto.{
  Bytes, Primitives, max_frame_bytes, frame_too_large, write_frame, read_frame_len, pairing_code,
}
use synapt.Network.Crypto.Frames.{read_frame_len-write_frame}
use synapt.Network.Crypto.Codes.{IsDigit, read_decimal, of_bytes, expanded, pairing_code_lem}

abbrev pub total : Bytes → ℕ
total [] = 0
total (b ∷ bytes) = b + total bytes

abbrev pub mix : Bytes → Bytes → Bytes
mix a b = (total a + total b) % 256 ∷ []

pub mix_comm : (a b : Bytes) → mix a b ≡ mix b a
mix_comm a b = ap (λ (n : ℕ). n % 256 ∷ []) (omega arith)

pub unseal-seal_toy :
    (key nonce plaintext ct : Bytes)
    → some (key ++ plaintext) ≡ some ct
    → some (drop (length key) ct) ≡ some plaintext
unseal-seal_toy key nonce plaintext ct h =
    let same : key ++ plaintext ≡ ct = ground arith in
    rw same at (ap (λ (x : Bytes). some x) (drop-append key plaintext))

-- Every primitive as a small function, with the laws.
abbrev pub toy : Primitives
toy = record {
  seal = λ key nonce plaintext. some (key ++ plaintext);
  unseal = λ key nonce ct. some (drop (length key) ct);
  unseal-seal = unseal-seal_toy;
  hkdf_expand = λ salt ikm info n. some (ikm ++ salt);
  public_key = λ a. a;
  diffie_hellman = mix;
  diffie_hellman_comm = mix_comm;
  b64_encode = λ b. b;
  b64_decode = λ t. ok t;
  b64_decode-encode = λ b. refl;
  sha256 = λ b. total b % 256 ∷ [];
}

-- `frame_roundtrip`, on a shorter payload
frame : write_frame (7 ∷ 8 ∷ 9 ∷ []) ≡ ok (3 ∷ 0 ∷ 0 ∷ 0 ∷ 7 ∷ 8 ∷ 9 ∷ [])
unfolding write_frame
frame = refl

code : pairing_code toy (200 ∷ 1 ∷ 2 ∷ []) ≡ codes "13107458"
unfolding pairing_code
code = refl

read_frame_len-write_frame_example :
    (max_frame_bytes < 1 × (write_frame (7 ∷ []) ≡ err (frame_too_large 1)))
    ⊎ ((1 ≤ max_frame_bytes)
        × (f : Bytes) × (write_frame (7 ∷ []) ≡ ok f)
        × (read_frame_len (take 4 f) ≡ 1)
        × (drop 4 f ≡ 7 ∷ []))
read_frame_len-write_frame_example = read_frame_len-write_frame (7 ∷ [])

abbrev nonce : Bytes
nonce = codes "twelve bytes"

pairing_code_example :
    (length (pairing_code toy (200 ∷ 1 ∷ 2 ∷ [])) ≡ 8)
    × All IsDigit (pairing_code toy (200 ∷ 1 ∷ 2 ∷ []))
    × (read_decimal 0 (pairing_code toy (200 ∷ 1 ∷ 2 ∷ []))
        ≡ of_bytes (expanded toy (200 ∷ 1 ∷ 2 ∷ [])))
    × (of_bytes (expanded toy (200 ∷ 1 ∷ 2 ∷ [])) < 2 ^ 24)
    × (d : ℕ) × (get_elem? (pairing_code toy (200 ∷ 1 ∷ 2 ∷ [])) 0 ≡ some (b'0' + d))
    × (d ≤ 1)
pairing_code_example = pairing_code_lem toy (200 ∷ 1 ∷ 2 ∷ [])
