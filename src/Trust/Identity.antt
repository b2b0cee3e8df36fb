-- ===== src/Trust/Identity.antt =====
-- The identity of this device is made once and then kept.
use synapt.Prelude.{
  ℕ, ◌*◌, ◌≤◌, ◌≡◌, refl, ◌⊎◌, inl, inr, true, none, [], ◌∷◌, length, All, Text, Result, ok, err,
  arith,
}
use synapt.Network.Crypto.{Bytes, Primitives}
use synapt.Storage.Rows.{Db}
use synapt.Trust.{
  key_decode, Generated, ParseUuid, init_identity, generated_identity, lower_hex, fingerprint,
}

-- On a first run `init_identity` stores the identity that it generates; every later run, whatever
-- random values it is given, loads that identity and changes nothing. The generated id is one that
-- the parser of ids reads back, and the secret has 32 bytes.
pub init_identity-once :
    (p : Primitives) (parse_uuid : ParseUuid) (first later : Generated) (db : Db)
    → db.local_device ≡ none
    → parse_uuid first.device_id ≡ ok first.device_id
    → length first.secret ≡ 32
    → ((init_identity p parse_uuid true first db).0 ≡ ok (generated_identity p parse_uuid first))
      × (init_identity p parse_uuid true later (init_identity p parse_uuid true first db).1 ≡ (
        ok (generated_identity p parse_uuid first),
        (init_identity p parse_uuid true first db).1,
      ))
unfolding init_identity
init_identity-once p parse_uuid first later db h u l = (
  ground (arith, p.b64_decode-encode first.secret),
  ground (arith, p.b64_decode-encode first.secret),
)

abbrev pub IsHexDigit : ℕ → Type 0
IsHexDigit c = ((b'0' ≤ c) × (c ≤ b'9')) ⊎ ((b'a' ≤ c) × (c ≤ b'f'))

lower_hex-digits :
    (bytes : Bytes)
    → (length (lower_hex bytes) ≡ 2 * length bytes) × All IsHexDigit (lower_hex bytes)
unfolding lower_hex
lower_hex-digits [] = (refl, tt)
lower_hex-digits (b ∷ bytes) =
    let ih = lower_hex-digits bytes in (omega (arith, ih.0), (ground arith, (ground arith, ih.1)))

-- A fingerprint is two lower-case hexadecimal digits for each byte of the digest of the decoded key,
-- and there is none exactly when the key is no base64.
pub fingerprint_lem :
    (p : Primitives) (pubkey_b64 : Text)
    → ((bytes : Bytes) × (f : Text) × (p.b64_decode pubkey_b64 ≡ ok bytes)
        × (fingerprint p pubkey_b64 ≡ ok f)
        × (length f ≡ 2 * length (p.sha256 bytes))
        × All IsHexDigit f)
      ⊎ ((e : Text) × (p.b64_decode pubkey_b64 ≡ err e)
          × (fingerprint p pubkey_b64 ≡ err (key_decode e)))
unfolding fingerprint
fingerprint_lem p pubkey_b64 = go (p.b64_decode pubkey_b64) refl
  where
    go :
        (o : Result Bytes Text)
        → p.b64_decode pubkey_b64 ≡ o
        → ((bytes : Bytes) × (f : Text) × (p.b64_decode pubkey_b64 ≡ ok bytes)
            × (fingerprint p pubkey_b64 ≡ ok f)
            × (length f ≡ 2 * length (p.sha256 bytes))
            × All IsHexDigit f)
          ⊎ ((e : Text) × (p.b64_decode pubkey_b64 ≡ err e)
              × (fingerprint p pubkey_b64 ≡ err (key_decode e)))
    go (ok bytes) e =
        let h = lower_hex-digits (p.sha256 bytes) in
        inl (bytes, lower_hex (p.sha256 bytes), e, ground arith, h.0, h.1)
    go (err x) e = inr (x, e, ground arith)
