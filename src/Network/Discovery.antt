-- ===== src/Network/Discovery.antt =====
-- src-tauri/src/network/discovery.rs: which devices are on the local network.
-- The map of peers is a list of the ids with their entries, and an instant is a number of
-- milliseconds. A round of the loop is a function of what it reads: the shared names and sets, the
-- clock, and the datagram, if one came before the time was up.
pub mod Presence
mod Examples
use synapt.Prelude.{
  ℕ, ◌-◌, Bool, true, false, not, ◌||◌, Option, none, some, List, [], ◌∷◌, map, filter_by, take,
  Text, codes, text_eq, ok, err, ltb, leb, if◌then◌else◌,
}
use synapt.Network.Crypto.{Bytes}
use synapt.Network.Invite.{pairing_port}
use synapt.Notify.{Notification, peer_online, enabled}
use synapt.Storage.Rows.{Db, has_key, select}
use synapt.Trust.{ParseUuid}

-- What the program keeps in a `synapt_core::Peer`, with an address as the text that it prints as.
pub data PeerStatus : Type 0 where
  discovered : PeerStatus
  trusted : PeerStatus

pub record Peer : Type 0 where
  pub device_id : Text
  pub device_name : Text
  pub ip : Text
  pub pairing_port : ℕ
  pub status : PeerStatus

pub record PresencePacket : Type 0 where
  pub packet_type : Text
  pub device_id : Text
  pub device_name : Text
  pub version : Text
  pub pairing_port : ℕ

pub record PeerEntry : Type 0 where
  pub peer : Peer
  pub last_seen : ℕ

abbrev pub PeerMap : Type 0
PeerMap = List (Text × PeerEntry)

abbrev pub transfer_port : ℕ
transfer_port = 42102

abbrev pub broadcast_interval : ℕ
broadcast_interval = 5000

abbrev pub peer_timeout : ℕ
peer_timeout = 20000

-- The variables of the loop, with the map that it shares.
pub record Discovery : Type 0 where
  pub peer_map : PeerMap
  pub last_tx : ℕ
  pub last_online_trusted : List Text

-- What a round reads, in this order: the flag, the clock and the name for a broadcast, the datagram
-- with its sender, the set of trusted ids, and the clock when it came and when the map is swept.
pub record Round : Type 0 where
  pub forced : Bool
  pub sent_at : ℕ
  pub device_name : Text
  pub datagram : Option (Text × Bytes)
  pub trusted_ids : List Text
  pub heard_at : ℕ
  pub swept_at : ℕ

abbrev pub insert : Text → PeerEntry → PeerMap → PeerMap
insert id entry peers = (id, entry) ∷ filter_by (λ r. not (text_eq r.0 id)) peers

abbrev pub is_trusted : PeerStatus → Bool
is_trusted trusted = true
is_trusted discovered = false

unfoldable pub list_peers : PeerMap → List Peer
list_peers peers = map (λ r. r.1.peer) peers

unfoldable pub retain : ℕ → PeerMap → PeerMap
retain now peers = filter_by (λ r. ltb (now - r.1.last_seen) peer_timeout) peers

unfoldable pub online_trusted : PeerMap → List Text
online_trusted peers = map (λ r. r.0) (filter_by (λ r. is_trusted r.1.peer.status) peers)

-- The ids with the names that the map has for them.
unfoldable pub named : PeerMap → List Text → List (Text × Text)
unfolding select
named peers [] = []
named peers (id ∷ ids) =
    let rest = named peers ids in
    elim (select (λ r. text_eq r.0 id) peers) [
      | none ↦ rest
      | some r ↦ (id, r.1.peer.device_name) ∷ rest
    ]

-- The trusted peers that have appeared, and the loop that remembers them.
unfoldable pub newly_online : Discovery → List (Text × Text) × Discovery
unfolding online_trusted named has_key
newly_online d =
    let online = online_trusted d.peer_map in
    (
      named d.peer_map (filter_by (λ id. not (has_key (text_eq id) d.last_online_trusted)) online),
      record d { last_online_trusted = online },
    )

module _ (local_device_id version nil : Text) (parse_uuid : ParseUuid)
    (from_slice : Bytes → Option PresencePacket) where
  unfoldable pub broadcast : Discovery → Round → Option PresencePacket × Discovery
  broadcast d round =
      if round.forced || leb broadcast_interval (round.sent_at - d.last_tx)
      then (
        some (record {
          packet_type = codes "presence";
          device_id = local_device_id;
          device_name = round.device_name;
          version = version;
          pairing_port = pairing_port;
        }),
        record d { last_tx = round.sent_at },
      )
      else (none, d)

  unfoldable pub uuid_or_default : Text → Text
  uuid_or_default id = elim (parse_uuid id) [ ok uuid ↦ uuid | err e ↦ nil ]

  unfoldable pub entry_of : Round → Text → PresencePacket → PeerEntry
  unfolding has_key uuid_or_default
  entry_of round ip pkt = record {
    peer = record {
      device_id = uuid_or_default pkt.device_id;
      device_name = pkt.device_name;
      ip = ip;
      pairing_port = pkt.pairing_port;
      status = if has_key (text_eq pkt.device_id) round.trusted_ids then trusted else discovered;
    };
    last_seen = round.heard_at;
  }

  -- The map after a packet; none where the round goes no further.
  unfoldable pub hear_packet : Round → Text → PresencePacket → PeerMap → Option PeerMap
  unfolding entry_of
  hear_packet round ip pkt peers =
      if text_eq pkt.device_id local_device_id
      then none
      else if not (text_eq pkt.packet_type (codes "presence"))
      then none
      else some (insert pkt.device_id (entry_of round ip pkt) peers)

  -- A datagram is cut at the size of the buffer, and one that is no packet is let pass.
  unfoldable pub hear : Round → PeerMap → Option PeerMap
  unfolding hear_packet
  hear round peers = elim round.datagram [
    | none ↦ some peers
    | some d ↦ elim (from_slice (take 1024 d.1)) [
      | none ↦ some peers
      | some pkt ↦ hear_packet round d.0 pkt peers
    ]
  ]

  -- A round: the packet sent, the trusted peers that have appeared, and the state after it.
  unfoldable pub run_round :
      Discovery → Round → Option PresencePacket × List (Text × Text) × Discovery
  unfolding broadcast hear retain newly_online
  run_round d round =
      let (sent, d') = broadcast d round in
      elim (hear round d'.peer_map) [
        | none ↦ (sent, [], d')
        | some peers ↦
            let (appeared, d'') =
              newly_online (record d' { peer_map = retain round.swept_at peers }) in
            (sent, appeared, d'')
      ]

-- The map and the set are empty at first, and the first round broadcasts.
abbrev pub started : ℕ → Discovery
started now = record { peer_map = []; last_tx = now - broadcast_interval; last_online_trusted = [] }

-- What the user is told, where the window is there.
unfoldable pub notify : Bool → Db → List (Text × Text) → List Notification
unfolding enabled
notify handle db appeared =
    if handle then (if enabled db then map (λ r. peer_online r.1) appeared else []) else []
