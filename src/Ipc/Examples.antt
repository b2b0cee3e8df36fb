-- ===== src/Ipc/Examples.antt =====
-- A clip for a peer that is online and trusted.
use synapt.Prelude.{◌≡◌, ◌↔◌, refl, false, some, [], ◌∷◌, codes, text_eq, ok, is_empty}
use synapt.Network.Discovery.{Peer, PeerMap, trusted, list_peers}
use synapt.Network.Transfer.{call, join}
use synapt.Network.Transfer.Examples.{world}
use synapt.Ipc.{ClipSendRequest, validate_and_resolve, accepted, clips_send_handler}
use synapt.Ipc.Clips.{IsResolved, validate_and_resolve_lem}

abbrev laptop : Peer
laptop = record {
  device_id = codes "L";
  device_name = codes "laptop";
  ip = codes "ip";
  pairing_port = 42100;
  status = trusted;
}

abbrev online : PeerMap
online = (codes "L", record { peer = laptop; last_seen = 0 }) ∷ []

abbrev clip : ClipSendRequest
clip = record { peer_id = codes "L"; content = codes "hello"; content_type = codes "text" }

validate_and_resolve_example :
    (validate_and_resolve (λ t. ok t) clip online (some (codes "L" ∷ [])) ≡ ok laptop) ↔ (
      (codes "text" ≡ codes "text")
      × (is_empty (codes "L") ≡ false)
      × (is_empty (codes "hello") ≡ false)
      × IsResolved (λ t. ok t) (codes "L") (list_peers online) (some (codes "L" ∷ [])) laptop)
validate_and_resolve_example =
    validate_and_resolve_lem (λ t. ok t) clip online (some (codes "L" ∷ [])) laptop

-- The clip is accepted, and its file is gone.
sent :
    (clips_send_handler
      (λ t. ok t)
      (codes "/tmp")
      (λ id peer path w. (ok tt, w))
      clip
      online
      (some (codes "L" ∷ []))
      (codes "t")
      (world [])).0
    ≡ (accepted, codes "t")
unfolding clips_send_handler list_peers text_eq call join
sent = refl
