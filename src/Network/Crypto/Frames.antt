-- ===== src/Network/Crypto/Frames.antt =====
-- A frame reads back as the length that it was written with, and a sealed text opens.
use synapt.Prelude.{
  ℕ, ◌%◌, ◌^◌, ◌≤◌, ◌<◌, ◌≡◌, ◌∙◌, refl, ◌⊎◌, inl, inr, true, false, Option, none, some, ◌++◌,
  length, take, drop, length-append, take-append, drop-append, Result, ok, err, ltb, Bool-cases,
  arith,
}
use synapt.Network.Crypto.{
  Bytes, Primitives, CryptoError, frame_too_large, max_frame_bytes, to_le_bytes, from_le_bytes,
  write_frame, read_frame_len, encrypt, decrypt, encrypt_failed,
}

pub from_le_bytes-to : (n : ℕ) → n < 2 ^ 32 → from_le_bytes (to_le_bytes n) ≡ n
unfolding from_le_bytes to_le_bytes
from_le_bytes-to n h = omega arith

pub length-to_le_bytes : (n : ℕ) → length (to_le_bytes n) ≡ 4
unfolding to_le_bytes
length-to_le_bytes n = refl

-- A frame is refused exactly when its payload is over the limit. Otherwise its first four bytes read
-- as the length of the payload, and the payload follows them.
pub read_frame_len-write_frame :
    (payload : Bytes)
    → (max_frame_bytes < length payload
        × (write_frame payload ≡ err (frame_too_large (length payload))))
      ⊎ ((length payload ≤ max_frame_bytes)
          × (frame : Bytes) × (write_frame payload ≡ ok frame)
          × (read_frame_len (take 4 frame) ≡ length payload)
          × (drop 4 frame ≡ payload))
unfolding write_frame read_frame_len
read_frame_len-write_frame payload = go (Bool-cases (ltb max_frame_bytes (length payload)))
  where
    n : ℕ
    n = length payload % 2 ^ 32

    low : (l : ℕ) → l ≤ max_frame_bytes → from_le_bytes (to_le_bytes (l % 2 ^ 32)) ≡ l
    low l h = unfold from_le_bytes to_le_bytes in omega arith

    go :
        (ltb max_frame_bytes (length payload) ≡ true)
          ⊎ (ltb max_frame_bytes (length payload) ≡ false)
        → (max_frame_bytes < length payload
            × (write_frame payload ≡ err (frame_too_large (length payload))))
          ⊎ ((length payload ≤ max_frame_bytes)
              × (frame : Bytes) × (write_frame payload ≡ ok frame)
              × (read_frame_len (take 4 frame) ≡ length payload)
              × (drop 4 frame ≡ payload))
    go (inl h) = inl (ground arith, ground arith)
    go (inr h) = inr (
      ground arith,
      to_le_bytes n ++ payload,
      ground arith,
      low (length payload) (ground arith),
      refl,
    )

-- What `encrypt` seals under a key and a nonce of twelve bytes, `decrypt` opens under that key.
pub decrypt-encrypt :
    (p : Primitives) (nonce key plaintext sealed : Bytes)
    → length nonce ≡ 12
    → encrypt p nonce key plaintext ≡ ok sealed
    → decrypt p key sealed ≡ ok plaintext
unfolding encrypt decrypt
decrypt-encrypt p nonce key plaintext sealed l h = go (p.seal key nonce plaintext) refl h
  where
    opens :
        (ct : Bytes)
        → p.seal key nonce plaintext ≡ some ct
        → decrypt p key (nonce ++ ct) ≡ ok plaintext
    opens ct e = ground (
      arith,
      length-append nonce ct,
      rw l at (take-append nonce ct),
      rw l at (drop-append nonce ct),
      p.unseal-seal key nonce plaintext ct e,
    )

    go :
        (o : Option Bytes)
        → p.seal key nonce plaintext ≡ o
        → (elim o as (λ x. Result Bytes CryptoError) [
          | none ↦ err encrypt_failed
          | some ct ↦ ok (nonce ++ ct)
        ])
          ≡ ok sealed
        → decrypt p key sealed ≡ ok plaintext
    go none e k = cc
    go (some ct) e k = let same : nonce ++ ct ≡ sealed = ground arith in rw same at (opens ct e)

-- The parts of a frame: four bytes that read as the length of the payload, and the payload.
pub frame_parts :
    (payload frame : Bytes)
    → write_frame payload ≡ ok frame
    → (length payload ≤ max_frame_bytes)
      × (head : Bytes) × (frame ≡ head ++ payload)
      × (length head ≡ 4)
      × (read_frame_len head ≡ length payload)
unfolding write_frame read_frame_len
frame_parts payload frame h = (
  ground arith,
  to_le_bytes (length payload % 2 ^ 32),
  ground arith,
  length-to_le_bytes (length payload % 2 ^ 32),
  from_le_bytes-to (length payload % 2 ^ 32) (omega arith) ∙ small (length payload) (ground arith),
)
  where
    small : (n : ℕ) → n ≤ max_frame_bytes → n % 2 ^ 32 ≡ n
    small n h = omega arith
