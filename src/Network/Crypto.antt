-- ===== src/Network/Crypto.antt =====
-- src-tauri/src/network/crypto.rs: frames, session keys, and the calls of the cryptographic crates.
pub mod Frames
pub mod Codes
pub mod Examples
use synapt.Prelude.{
  ℕ, zero, suc, ◌+◌, ◌*◌, ◌/◌, ◌%◌, ◌^◌, ◌≡◌, Option, none, some, List, [], ◌∷◌, ◌++◌, length, take,
  drop, get_elem?, Text, codes, Result, ok, err, ok_or, map_err, ltb, if◌then◌else◌,
}

abbrev pub Bytes : Type 0
Bytes = List ℕ

-- The crates x25519_dalek, chacha20poly1305, hkdf, base64 and sha2, with what they document: a
-- sealed text opens under its key and nonce, both sides of a Diffie-Hellman exchange get one secret,
-- and base64 decodes what it encodes.
pub record Primitives : Type 0 where
  pub seal : Bytes → Bytes → Bytes → Option Bytes
  pub unseal : Bytes → Bytes → Bytes → Option Bytes
  pub unseal-seal :
      (key nonce plaintext ct : Bytes)
      → seal key nonce plaintext ≡ some ct
      → unseal key nonce ct ≡ some plaintext
  pub hkdf_expand : Bytes → Bytes → Bytes → ℕ → Option Bytes
  pub public_key : Bytes → Bytes
  pub diffie_hellman : Bytes → Bytes → Bytes
  pub diffie_hellman_comm :
      (a b : Bytes) → diffie_hellman a (public_key b) ≡ diffie_hellman b (public_key a)
  pub b64_encode : Bytes → Text
  pub b64_decode : Text → Result Bytes Text
  pub b64_decode-encode : (b : Bytes) → b64_decode (b64_encode b) ≡ ok b
  pub sha256 : Bytes → Bytes

pub data CryptoError : Type 0 where
  encrypt_failed : CryptoError
  decrypt_failed : CryptoError
  key_decode : Text → CryptoError
  hkdf_failed : CryptoError
  frame_too_large : ℕ → CryptoError

abbrev pub max_frame_bytes : ℕ
max_frame_bytes = 64 * 1024 * 1024

-- `u32::to_le_bytes` and `u32::from_le_bytes`
unfoldable pub to_le_bytes : ℕ → Bytes
to_le_bytes n = n % 256 ∷ (n / 256) % 256 ∷ (n / 65536) % 256 ∷ (n / 16777216) % 256 ∷ []

unfoldable pub from_le_bytes : Bytes → ℕ
from_le_bytes [] = 0
from_le_bytes (b ∷ bytes) = b + 256 * from_le_bytes bytes

-- `len as u32` keeps the low 32 bits.
unfoldable pub write_frame : Bytes → Result Bytes CryptoError
unfolding to_le_bytes
write_frame payload =
    if ltb max_frame_bytes (length payload)
    then err (frame_too_large (length payload))
    else ok (to_le_bytes (length payload % 2 ^ 32) ++ payload)

unfoldable pub read_frame_len : Bytes → ℕ
unfolding from_le_bytes
read_frame_len buf = from_le_bytes buf

module _ (p : Primitives) where
  -- `generate_nonce` is random: the nonce is an argument.
  unfoldable pub encrypt : Bytes → Bytes → Bytes → Result Bytes CryptoError
  encrypt nonce key plaintext = elim (p.seal key nonce plaintext) [
    | none ↦ err encrypt_failed
    | some ct ↦ ok (nonce ++ ct)
  ]

  unfoldable pub decrypt : Bytes → Bytes → Result Bytes CryptoError
  decrypt key sealed =
      if ltb (length sealed) 12
      then err decrypt_failed
      else ok_or (p.unseal key (take 12 sealed) (drop 12 sealed)) decrypt_failed

  unfoldable pub session_key : Bytes → Bytes → Result Bytes CryptoError
  session_key shared_secret nonce =
      ok_or (p.hkdf_expand nonce shared_secret (codes "synapt-session-key") 32) hkdf_failed

  unfoldable pub static_dh : Bytes → Bytes → Bytes
  static_dh privkey their_pubkey = p.diffie_hellman privkey their_pubkey

  unfoldable pub from_b64 : Text → Result Bytes CryptoError
  from_b64 s = map_err key_decode (p.b64_decode s)

  -- The three bytes of the expansion; a failed one leaves the buffer zero.
  unfoldable pub pairing_bytes : Bytes → ℕ × ℕ × ℕ
  pairing_bytes shared_secret =
      elim (p.hkdf_expand (codes "synapt-pair-verify") shared_secret [] 3) [
        | none ↦ (0, 0, 0)
        | some okm ↦ (
          elim (get_elem? okm 0) [ none ↦ 0 | some b ↦ b % 256 ],
          elim (get_elem? okm 1) [ none ↦ 0 | some b ↦ b % 256 ],
          elim (get_elem? okm 2) [ none ↦ 0 | some b ↦ b % 256 ],
        )
      ]

-- `u32::from_be_bytes([0, a, b, c]) % 100_000_000`
unfoldable pub pairing_number : ℕ × ℕ × ℕ → ℕ
pairing_number (a, b, c) = (a * 65536 + b * 256 + c) % 100_000_000

-- The last `width` decimal digits, as `{:08}` prints a number of at most eight.
unfoldable pub decimal : ℕ → ℕ → Text → Text
decimal zero n digits = digits
decimal (suc width) n digits = decimal width (n / 10) ((b'0' + n % 10) ∷ digits)

module _ (p : Primitives) where
  unfoldable pub pairing_code : Bytes → Text
  unfolding pairing_bytes pairing_number decimal
  pairing_code shared_secret = decimal 8 (pairing_number (pairing_bytes p shared_secret)) []

module _ (p : Primitives) where
  -- The random secret is an argument.
  unfoldable pub generate_ephemeral : Bytes → Bytes × Bytes
  generate_ephemeral secret = (secret, p.public_key secret)

  unfoldable pub ephemeral_dh : Bytes → Bytes → Bytes
  ephemeral_dh secret their_pubkey = p.diffie_hellman secret their_pubkey
