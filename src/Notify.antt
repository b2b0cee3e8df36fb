-- ===== src/Notify.antt =====
-- src-tauri/src/notify.rs: the titles and texts of the system's notifications.
use synapt.Prelude.{◌++◌, Bool, true, not, Option, none, some, Text, codes, text_eq}
use synapt.Storage.Rows.{Db}
use synapt.Storage.Devices.{get_setting}

pub record Notification : Type 0 where
  pub title : Text
  pub body : Text

-- What the database answers: an error is `none`, a setting that is not there `some none`.
unfoldable pub enabled_by : Option (Option Text) → Bool
enabled_by (some (some value)) = not (text_eq value (codes "false"))
enabled_by (some none) = true
enabled_by none = true

unfoldable pub enabled : Db → Bool
unfolding get_setting enabled_by
enabled db = enabled_by (some (get_setting db (codes "notifications_enabled")))

unfoldable pub transfer_complete : Text → Text → Notification
transfer_complete filename peer_name = record {
  title = codes "Transfer complete";
  body = filename ++ codes " received from " ++ peer_name;
}

unfoldable pub peer_pair_request : Text → Notification
peer_pair_request peer_name = record {
  title = codes "Pairing request";
  body = peer_name ++ codes " wants to pair with this device. Open Synapt to accept or reject.";
}

unfoldable pub peer_paired : Text → Notification
peer_paired peer_name = record {
  title = codes "Device paired";
  body = peer_name ++ codes " is now a trusted device";
}

unfoldable pub update_available : Text → Notification
update_available version = record {
  title = codes "Update available";
  body = codes "Synapt " ++ version ++ codes " is ready to install. Open Settings to update.";
}

unfoldable pub peer_online : Text → Notification
peer_online peer_name = record {
  title = codes "Device online";
  body = peer_name ++ codes " is now available";
}
