-- ===== src/Trust.antt =====
-- src-tauri/src/trust/store.rs: the identity of this device, and the peers that it trusts.
-- Random values are arguments; `available` says whether the database answers.
pub mod Identity
mod Examples
use synapt.Prelude.{
  ℕ, ◌+◌, ◌-◌, ◌/◌, ◌%◌, Bool, not, Option, none, some, List, [], ◌∷◌, ◌++◌, length, take, Text,
  codes, ℤ, Result, ok, err, map_err, ltb, ◌==◌, if◌then◌else◌,
}
use synapt.Network.Crypto.{Bytes, Primitives}
use synapt.Storage.Rows.{LocalDeviceRow, TrustedPeerRow, Db}
use synapt.Storage.Devices.{
  get_local_device, insert_local_device, get_trusted_peers, remove_trusted_peer,
}

pub data TrustError : Type 0 where
  db_error : TrustError
  key_decode : Text → TrustError

pub record LocalIdentity : Type 0 where
  pub device_id : Text
  pub device_name : Text
  pub pubkey_b64 : Text
  pub privkey_bytes : Bytes

-- `synapt_core::TrustedPeer`
pub record TrustedPeer : Type 0 where
  pub device_id : Text
  pub device_name : Text
  pub pubkey_b64 : Text
  pub fingerprint : Text
  pub paired_at : ℤ
  pub last_seen : Option ℤ

-- The crate uuid: the parser of device ids. A `Uuid` is the text that it prints as.
abbrev pub ParseUuid : Type 0
ParseUuid = Text → Result Text Text

-- The random values of `generate_and_store`, and the name of the host where it has one.
pub record Generated : Type 0 where
  pub secret : Bytes
  pub device_id : Text
  pub hostname : Option Text

-- `try_into` an array of 32 bytes
unfoldable pub to_array32 : Bytes → Result Bytes TrustError
to_array32 bytes =
    if length bytes == 32 then ok bytes else err (key_decode (codes "private key wrong length"))

abbrev hex_digit : ℕ → ℕ
hex_digit d = if ltb d 10 then b'0' + d else b'a' + (d - 10)

-- `{:x}` of a digest
unfoldable pub lower_hex : Bytes → Text
lower_hex [] = []
lower_hex (b ∷ bytes) = hex_digit (b / 16 % 16) ∷ hex_digit (b % 16) ∷ lower_hex bytes

infixl 5 ◌>>=◌
abbrev ◌>>=◌ : {A B E : Type 0} → Result A E → (A → Result B E) → Result B E
ok a >>= f = f a
err e >>= f = err e

unfoldable pub fingerprint : Primitives → Text → Result Text TrustError
unfolding lower_hex
fingerprint p pubkey_b64 = do
  bytes ← map_err key_decode (p.b64_decode pubkey_b64)
  ok (lower_hex (p.sha256 bytes))

module _ (p : Primitives) (parse_uuid : ParseUuid) where
  unfoldable pub identity_of_row : LocalDeviceRow → Result LocalIdentity TrustError
  unfolding to_array32
  identity_of_row row = do
    bytes ← map_err key_decode (p.b64_decode row.privkey_b64)
    privkey_bytes ← to_array32 bytes
    device_id ← map_err key_decode (parse_uuid row.device_id)
    ok (record {
      device_id = device_id;
      device_name = row.device_name;
      pubkey_b64 = row.pubkey_b64;
      privkey_bytes = privkey_bytes;
    })

  abbrev pub default_name : Generated → Text
  default_name g = elim g.hostname [ some h ↦ h | none ↦ codes "device-" ++ take 8 g.device_id ]

  abbrev pub generated_row : Generated → LocalDeviceRow
  generated_row g = record {
    device_id = g.device_id;
    device_name = default_name g;
    pubkey_b64 = p.b64_encode (p.public_key g.secret);
    privkey_b64 = p.b64_encode g.secret;
  }

  abbrev pub generated_identity : Generated → LocalIdentity
  generated_identity g = record {
    device_id = g.device_id;
    device_name = default_name g;
    pubkey_b64 = p.b64_encode (p.public_key g.secret);
    privkey_bytes = g.secret;
  }

  unfoldable pub generate_and_store : Bool → Generated → Db → Result LocalIdentity TrustError × Db
  unfolding insert_local_device
  generate_and_store available g db =
      if not available
      then (err db_error, db)
      else elim (insert_local_device db (generated_row g)) [
        | none ↦ (err db_error, db)
        | some db' ↦ (ok (generated_identity g), db')
      ]

  unfoldable pub init_identity : Bool → Generated → Db → Result LocalIdentity TrustError × Db
  unfolding get_local_device generate_and_store identity_of_row
  init_identity available g db =
      if not available then (err db_error, db) else elim (get_local_device db) [
        | some row ↦ (identity_of_row row, db)
        | none ↦ generate_and_store available g db
      ]

  unfoldable pub trusted_peer : TrustedPeerRow → Result TrustedPeer TrustError
  trusted_peer r = do
    device_id ← map_err key_decode (parse_uuid r.device_id)
    ok (record {
      device_id = device_id;
      device_name = r.device_name;
      pubkey_b64 = r.pubkey_b64;
      fingerprint = r.fingerprint;
      paired_at = r.paired_at;
      last_seen = r.last_seen;
    })

  -- `map(…).collect()` into a `Result` stops at the first error.
  unfoldable pub collect_peers : List TrustedPeerRow → Result (List TrustedPeer) TrustError
  unfolding trusted_peer
  collect_peers [] = ok []
  collect_peers (r ∷ rows) = do peer ← trusted_peer r; peers ← collect_peers rows; ok (peer ∷ peers)

  unfoldable pub list_trusted_peers : Bool → Db → Result (List TrustedPeer) TrustError
  unfolding get_trusted_peers collect_peers
  list_trusted_peers available db =
      if available then collect_peers (get_trusted_peers db) else err db_error

unfoldable pub revoke_peer : Bool → Db → Text → Result (Unit {0}) TrustError × Db
unfolding remove_trusted_peer
revoke_peer available db device_id =
    if available then (ok tt, remove_trusted_peer db device_id) else (err db_error, db)
