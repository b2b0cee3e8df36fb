-- ===== src/Storage/Devices.antt =====
-- storage/db.rs: settings, the local device, trusted peers and shared directories.
pub mod Trust
use synapt.Prelude.{Option, none, some, List, [], ◌∷◌, ◌++◌, Text, text_eq, text_lt, if◌then◌else◌}
use synapt.Prelude.Sort.{sort_by}
use synapt.Storage.Rows.{LocalDeviceRow, TrustedPeerRow, Db, has_key, upsert, delete, select}

unfoldable pub get_setting : Db → Text → Option Text
unfolding select
get_setting db key = elim (select (λ r. text_eq r.0 key) db.settings) [
  | none ↦ none
  | some r ↦ some r.1
]

unfoldable pub set_setting : Db → Text → Text → Db
unfolding upsert
set_setting db key value = record db {
  settings = upsert (λ r. text_eq r.0 key) (key, value) db.settings;
}

unfoldable pub get_trusted_peers : Db → List TrustedPeerRow
get_trusted_peers db = sort_by (λ a b. text_lt a.device_name b.device_name) db.trusted_peers

unfoldable pub upsert_trusted_peer : Db → TrustedPeerRow → Db
unfolding upsert
upsert_trusted_peer db peer = record db {
  trusted_peers = upsert (λ r. text_eq r.device_id peer.device_id) peer db.trusted_peers;
}

unfoldable pub remove_trusted_peer : Db → Text → Db
unfolding delete
remove_trusted_peer db device_id = record db {
  trusted_peers = delete (λ r. text_eq r.device_id device_id) db.trusted_peers;
}

unfoldable pub get_local_device : Db → Option LocalDeviceRow
get_local_device db = db.local_device

unfoldable pub update_local_device_name : Db → Text → Db
update_local_device_name db name = record db {
  local_device = elim db.local_device [
    | none ↦ none
    | some row ↦ some (record row { device_name = name })
  ];
}

-- A second insert breaks the primary key 'self' and is an error, `none`.
unfoldable pub insert_local_device : Db → LocalDeviceRow → Option Db
insert_local_device db row = elim db.local_device [
  | none ↦ some (record db { local_device = some row })
  | some old ↦ none
]

unfoldable pub get_shared_dirs : Db → List Text
get_shared_dirs db = sort_by text_lt db.shared_dirs

-- `INSERT OR IGNORE`
unfoldable pub add_shared_dir : Db → Text → Db
unfolding has_key
add_shared_dir db path =
    if has_key (text_eq path) db.shared_dirs
    then db
    else record db { shared_dirs = db.shared_dirs ++ path ∷ [] }

unfoldable pub remove_shared_dir : Db → Text → Db
unfolding delete
remove_shared_dir db path = record db { shared_dirs = delete (text_eq path) db.shared_dirs }
