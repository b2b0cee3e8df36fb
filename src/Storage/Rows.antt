-- ===== src/Storage/Rows.antt =====
-- storage/db.rs: the rows of the tables, and what the shapes of SQL statement do to a list of rows.
use synapt.Prelude.{
  ℕ, Bool, false, not, ◌||◌, Option, none, some, List, [], ◌∷◌, ◌++◌, filter_by, Text, ℤ,
  if◌then◌else◌,
}

pub record LocalDeviceRow : Type 0 where
  pub device_id : Text
  pub device_name : Text
  pub pubkey_b64 : Text
  pub privkey_b64 : Text

pub record TrustedPeerRow : Type 0 where
  pub device_id : Text
  pub device_name : Text
  pub pubkey_b64 : Text
  pub fingerprint : Text
  pub paired_at : ℤ
  pub last_seen : Option ℤ

pub record TransferHistoryRow : Type 0 where
  pub peer_device_id : Text
  pub filename : Text
  pub remote_path : Text
  pub local_path : Text
  pub size : Option ℤ
  pub bytes_received : ℤ
  pub status : Text
  pub started_at : ℤ
  pub completed_at : Option ℤ
  pub transfer_id : Option Text

pub record FileRow : Type 0 where
  pub name : Text
  pub path : Text
  pub parent_path : Text
  pub file_type : Text
  pub size : Option ℤ
  pub last_modified : Option ℤ
  pub extension : Option Text
  pub is_hidden : ℤ

pub record AppRow : Type 0 where
  pub id : ℕ
  pub name : Text
  pub exec : Text
  pub icon_path : Option Text
  pub platform : Text
  pub source_path : Text

pub record IndexedDirRow : Type 0 where
  pub path : Text
  pub file_count : ℤ
  pub last_indexed : Option ℤ

pub record Db : Type 0 where
  pub settings : List (Text × Text)
  pub trusted_peers : List TrustedPeerRow
  pub local_device : Option LocalDeviceRow
  pub shared_dirs : List Text
  pub transfer_history : List (ℕ × TransferHistoryRow)
  pub next_transfer : ℕ
  pub files : List FileRow
  pub indexed_dirs : List IndexedDirRow
  pub applications : List AppRow
  pub next_app : ℕ

-- `INSERT … ON CONFLICT(key) DO UPDATE`: the row with the key is written in its place; where there
-- is none, the new row is appended. `same` tests the key.
unfoldable pub has_key {ℓ} : {A : Type ℓ} → (A → Bool) → List A → Bool
has_key same [] = false
has_key same (r ∷ rows) = same r || has_key same rows

unfoldable pub write_rows {ℓ} : {A : Type ℓ} → (A → Bool) → (A → A) → List A → List A
write_rows same f [] = []
write_rows same f (r ∷ rows) = (if same r then f r else r) ∷ write_rows same f rows

unfoldable pub upsert {ℓ} : {A : Type ℓ} → (A → Bool) → A → List A → List A
unfolding has_key write_rows
upsert same row rows =
    if has_key same rows then write_rows same (λ r. row) rows else rows ++ row ∷ []

-- `DELETE … WHERE key = ?`
unfoldable pub delete {ℓ} : {A : Type ℓ} → (A → Bool) → List A → List A
delete same rows = filter_by (λ r. not (same r)) rows

-- `SELECT … WHERE key = ?` on a unique key
unfoldable pub select {ℓ} : {A : Type ℓ} → (A → Bool) → List A → Option A
select same [] = none
select same (r ∷ rows) = if same r then some r else select same rows
