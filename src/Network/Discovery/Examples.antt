-- ===== src/Network/Discovery/Examples.antt =====
-- A trusted laptop that appears and stays.
use synapt.Prelude.{
  ◌≡◌, refl, not, ◌&&◌, Option, some, List, [], ◌∷◌, false, Text, codes, text_eq, ok,
}
use synapt.Network.Crypto.{Bytes}
use synapt.Network.Discovery.{
  Discovery, Round, PresencePacket, run_round, started, broadcast, hear, hear_packet, entry_of,
  uuid_or_default, retain, newly_online, online_trusted, named,
}
use synapt.Network.Discovery.Presence.{is_announced, is_online, begun, round, run_round_lem}
use synapt.Storage.Rows.{has_key, select}

-- The bytes of a packet are the id of its device.
abbrev packet : Bytes → Option PresencePacket
packet b = some (record {
  packet_type = codes "presence";
  device_id = b;
  device_name = codes "laptop";
  version = codes "1";
  pairing_port = 42100;
})

abbrev heard : Round
heard = record {
  forced = false;
  sent_at = 100000;
  device_name = codes "desktop";
  datagram = some (codes "ip", codes "L");
  trusted_ids = codes "L" ∷ [];
  heard_at = 100100;
  swept_at = 100200;
}

abbrev after : Discovery → Round → Option PresencePacket × List (Text × Text) × Discovery
after = run_round (codes "D") (codes "1") (codes "0") (λ t. ok t) packet

abbrev once : Discovery
once = (after (started 90000) heard).2

-- It is announced when it appears.
appears : (after (started 90000) heard).1 ≡ (codes "L", codes "laptop") ∷ []
unfolding run_round broadcast hear hear_packet entry_of uuid_or_default retain newly_online
    online_trusted named has_key select text_eq
appears = refl

run_round_example : is_announced (codes "L") (after once heard).1 ≡ (
    is_online (codes "L") (after once heard).2.peer_map
    && not (is_online (codes "L") once.peer_map))
run_round_example =
    run_round_lem (codes "D") (codes "1") (codes "0") (λ t. ok t) packet once
      (round (started 90000) heard (begun 90000)) heard (codes "L")
