-- ===== src/Ipc.antt =====
-- src-tauri/src/ipc/server.rs: the requests of the local clipboard program.
-- A request is served on the world of a transfer, which the spawned push goes on to change.
pub mod Clips
mod Examples
use synapt.Prelude.{
  ℕ, Bool, true, not, ◌||◌, Option, none, some, List, [], ◌++◌, map, filter_by, is_empty, Text,
  codes, text_eq, Result, ok, err, ok_or, map_err, if◌then◌else◌,
}
use synapt.Network.Discovery.{Peer, PeerMap, transfer_port, list_peers}
use synapt.Network.Transfer.{io, World, Action, ◌>>=◌, ◌>>◌, give, gets, call, join}
use synapt.Network.Transfer.Request.{store, remove_file}
use synapt.Search.Bloom.{as_bytes}
use synapt.Storage.Rows.{has_key, select}
use synapt.Trust.{ParseUuid}

pub data StatusCode : Type 0 where
  accepted : StatusCode
  forbidden : StatusCode
  not_found : StatusCode
  unprocessable_entity : StatusCode
  service_unavailable : StatusCode

pub record ClipSendRequest : Type 0 where
  pub peer_id : Text
  pub content : Text
  pub content_type : Text

-- The status, the code of the error and its message.
abbrev pub Refusal : Type 0
Refusal = StatusCode × Text × Text

unfoldable pub check_loopback : (Text → Bool) → Text → Result (Unit {0}) StatusCode
check_loopback is_loopback addr = if is_loopback addr then ok tt else err forbidden

-- The middleware in front of every route.
unfoldable pub require_loopback : {A : Type 0} → (Text → Bool) → Text → A → Result A StatusCode
unfolding check_loopback
require_loopback is_loopback addr response = elim (check_loopback is_loopback addr) [
  | err status ↦ err status
  | ok u ↦ ok response
]

-- What is told of a peer.
pub record PeerJson : Type 0 where
  pub id : Text
  pub name : Text
  pub ip : Text
  pub port : ℕ
  pub online : Bool
  pub last_seen : Text

unfoldable pub peers_response : Text → List Peer → List Text → List PeerJson
unfolding has_key
peers_response now peers trusted_ids =
    map
      (λ p. record {
        id = p.device_id;
        name = p.device_name;
        ip = p.ip;
        port = transfer_port;
        online = true;
        last_seen = now;
      })
      (filter_by (λ p. has_key (text_eq p.device_id) trusted_ids) peers)

unfoldable pub peers_handler : Text → PeerMap → List Text → List PeerJson
unfolding peers_response list_peers
peers_handler now peer_map trusted_ids = peers_response now (list_peers peer_map) trusted_ids

abbrev pub offline : Refusal
offline = (not_found, codes "peer_not_found", codes "No peer with that ID is currently online")

infixl 5 ◌>>?◌
abbrev pub ◌>>?◌ : {A B : Type 0} → Result A Refusal → (A → Result B Refusal) → Result B Refusal
ok a >>? f = f a
err e >>? f = err e

unfoldable pub check_fields : ClipSendRequest → Result (Unit {0}) Refusal
check_fields body =
    if not (text_eq body.content_type (codes "text"))
    then err (
      unprocessable_entity,
      codes "unsupported_content_type",
      codes "Only content_type 'text' is supported in v1",
    )
    else if is_empty body.peer_id || is_empty body.content
    then err
        (unprocessable_entity, codes "missing_fields", codes "peer_id and content are required")
    else ok tt

-- `trusted_ids` is none where the lock of the set is poisoned: then no peer counts as trusted.
unfoldable pub check_trusted : Option (List Text) → Peer → Result Peer Refusal
unfolding has_key
check_trusted none peer =
    err (not_found, codes "peer_not_found", codes "Peer is not trusted. Pair the device first.")
check_trusted (some trusted_ids) peer =
    if has_key (text_eq peer.device_id) trusted_ids
    then ok peer
    else err
        (not_found, codes "peer_not_found", codes "Peer is not trusted. Pair the device first.")

unfoldable pub validate_and_resolve :
    ParseUuid → ClipSendRequest → PeerMap → Option (List Text) → Result Peer Refusal
unfolding check_fields check_trusted select list_peers
validate_and_resolve parse_uuid body peer_map trusted_ids = check_fields body >>? λ u.
    map_err (λ e. (not_found, codes "peer_not_found", codes "Invalid peer_id format"))
      (parse_uuid body.peer_id)
    >>? λ id. ok_or (select (λ p. text_eq p.device_id id) (list_peers peer_map)) offline >>? λ peer.
        check_trusted trusted_ids peer

-- The directory and the new file are made, and the content is written; where only the writing fails,
-- the file is dropped, and so removed.
unfoldable pub create_clip : Text → Text → Text → Action Text
unfolding remove_file
create_clip temp_dir transfer_id content w =
    let path = join (join temp_dir (codes "synapt-clips")) (transfer_id ++ codes ".txt") in
    let opened =
      (call io
          >> (gets (λ w. w.files path) >>= λ old. elim old [
            | some b ↦ give (err io)
            | none ↦ call io >> store path (some [])
          ]))
        w in
    elim opened.0 [
      | err e ↦ (err e, opened.1)
      | ok u ↦
          let written = (call io >> store path (some (as_bytes content))) opened.1 in
          elim written.0 [
            | ok u ↦ (ok path, written.1)
            | err e ↦ (err e, (remove_file path written.1).1)
          ]
    ]

-- The file is removed when the transfer has ended, however it has.
unfoldable pub send_temp_clip : Text → Action (Unit {0}) → Action (Unit {0})
unfolding remove_file
send_temp_clip path transfer w = let ended = transfer w in (ended.0, (remove_file path ended.1).1)

module _ (parse_uuid : ParseUuid) (temp_dir : Text)
    -- `push_clip_file` to a peer, of the file at a path
    (push_clip_file : Text → Peer → Text → Action (Unit {0})) where
  -- The answer, and the world once the push that was spawned has ended.
  unfoldable pub clips_send_handler :
      ClipSendRequest → PeerMap → Option (List Text) → Text → World → (StatusCode × Text) × World
  unfolding validate_and_resolve create_clip send_temp_clip
  clips_send_handler body peer_map trusted_ids transfer_id w =
      elim (validate_and_resolve parse_uuid body peer_map trusted_ids) [
        | err refusal ↦ ((refusal.0, refusal.1), w)
        | ok peer ↦
            let created = create_clip temp_dir transfer_id body.content w in
            elim created.0 [
              | err e ↦ ((service_unavailable, codes "transfer_unavailable"), created.1)
              | ok path ↦ (
                (accepted, transfer_id),
                (send_temp_clip path (push_clip_file transfer_id peer path) created.1).1,
              )
            ]
      ]
