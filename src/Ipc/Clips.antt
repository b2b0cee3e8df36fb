-- ===== src/Ipc/Clips.antt =====
-- Whom a clip is sent to, and what is left of it.
use synapt.Prelude.{
  ◌≡◌, refl, sym, ap, ◌∙◌, ◌↔◌, Bool, true, false, Option, none, some, List, [], Text, codes,
  text_eq, text_eq_iff, text_eq_refl, Result, ok, err, arith, is_empty,
}
use synapt.Network.Discovery.{Peer, PeerMap, list_peers}
use synapt.Network.Transfer.{World, Action, call}
use synapt.Network.Transfer.Request.{remove_file}
use synapt.Storage.Rows.{has_key, select}
use synapt.Trust.{ParseUuid}
use synapt.Ipc.{ClipSendRequest, check_fields, check_trusted, validate_and_resolve, send_temp_clip}

-- The id of the request is that of the first such peer online, which is trusted.
abbrev pub IsResolved : ParseUuid → Text → List Peer → Option (List Text) → Peer → Type 0
IsResolved parse_uuid peer_id peers trusted_ids peer =
    ((id : Text) × (parse_uuid peer_id ≡ ok id)
      × (select (λ p. text_eq p.device_id id) peers ≡ some peer))
    × ((ids : List Text) × (trusted_ids ≡ some ids) × (has_key (text_eq peer.device_id) ids ≡ true))

check_trusted_ok :
    (t : Option (List Text)) (p peer : Peer)
    → check_trusted t p ≡ ok peer
    → (p ≡ peer)
      × ((ids : List Text) × (t ≡ some ids) × (has_key (text_eq peer.device_id) ids ≡ true))
unfolding check_trusted
check_trusted_ok none p peer h = absurd (cc)
check_trusted_ok (some ids) p peer h = go (has_key (text_eq p.device_id) ids) refl h
  where
    go :
        (b : Bool)
        → has_key (text_eq p.device_id) ids ≡ b
        → check_trusted (some ids) p ≡ ok peer
        → (p ≡ peer)
          × ((ids' : List Text) × (some ids ≡ some ids')
              × (has_key (text_eq peer.device_id) ids' ≡ true))
    go true e k =
        let same : p ≡ peer = ground (arith, e, k) in
        (same, (ids, refl, ap (λ (x : Peer). has_key (text_eq x.device_id) ids) (sym same) ∙ e))
    go false e k = absurd (ground (arith, e, k))

trusted_found :
    (peer : Peer) (ids : List Text) (t : Option (List Text))
    → t ≡ some ids
    → has_key (text_eq peer.device_id) ids ≡ true
    → check_trusted t peer ≡ ok peer
unfolding check_trusted
trusted_found peer ids t e h = ground (arith, e, h)

-- The request to send a clip is resolved to a peer exactly when the type is text, the fields are there,
-- the id is read as that of the first such peer that is online, and that peer is trusted.
pub validate_and_resolve_lem :
    (parse_uuid : ParseUuid) (body : ClipSendRequest) (peer_map : PeerMap)
    (trusted_ids : Option (List Text)) (peer : Peer)
    → (validate_and_resolve parse_uuid body peer_map trusted_ids ≡ ok peer) ↔ (
        (body.content_type ≡ codes "text")
        × (is_empty body.peer_id ≡ false)
        × (is_empty body.content ≡ false)
        × IsResolved parse_uuid body.peer_id (list_peers peer_map) trusted_ids peer)
unfolding validate_and_resolve check_fields
validate_and_resolve_lem parse_uuid body peer_map trusted_ids peer = (
  λ h. (
    ground (arith, h, text_eq_iff body.content_type (codes "text")),
    ground (arith, h),
    ground (arith, h),
    resolved h,
  ),
  λ (t, i, c, ((id, e, f), (ids, g, k))). ground (
    arith,
    t,
    i,
    c,
    e,
    f,
    trusted_found peer ids trusted_ids g k,
    text_eq_iff body.content_type (codes "text"),
  ),
)
  where
    of_peer :
        (id : Text)
        → parse_uuid body.peer_id ≡ ok id
        → (q : Option Peer) → select (λ p. text_eq p.device_id id) (list_peers peer_map) ≡ q
        → validate_and_resolve parse_uuid body peer_map trusted_ids ≡ ok peer
        → IsResolved parse_uuid body.peer_id (list_peers peer_map) trusted_ids peer
    of_peer id e none s h = absurd (ground (arith, e, s, h))
    of_peer id e (some p) s h =
        let k : check_trusted trusted_ids p ≡ ok peer = ground (arith, e, s, h) in
        let (same, known) = check_trusted_ok trusted_ids p peer k in
        ((id, e, s ∙ ap (λ (x : Peer). some x) same), known)

    of_id :
        (o : Result Text Text)
        → parse_uuid body.peer_id ≡ o
        → validate_and_resolve parse_uuid body peer_map trusted_ids ≡ ok peer
        → IsResolved parse_uuid body.peer_id (list_peers peer_map) trusted_ids peer
    of_id (ok id) e h =
        of_peer id e (select (λ p. text_eq p.device_id id) (list_peers peer_map)) refl h
    of_id (err x) e h = absurd (ground (arith, e, h))

    resolved :
        validate_and_resolve parse_uuid body peer_map trusted_ids ≡ ok peer
        → IsResolved parse_uuid body.peer_id (list_peers peer_map) trusted_ids peer
    resolved h = of_id (parse_uuid body.peer_id) refl h

-- Removing a file leaves nothing at its path, where the system does remove it.
gone : (path : Text) (w : World) → w.faults ≡ [] → (remove_file path w).1.files path ≡ none
unfolding remove_file call
gone path w h = ground (arith, h, text_eq_refl path)

-- Whatever the transfer of a clip comes to, its result is handed on and the file of the clip is gone
-- afterwards, where the system removes it.
pub send_temp_clip_lem :
    (path : Text) (transfer : Action (Unit {0})) (w : World)
    → (transfer w).1.faults ≡ []
    → ((send_temp_clip path transfer w).0 ≡ (transfer w).0)
      × ((send_temp_clip path transfer w).1.files path ≡ none)
unfolding send_temp_clip
send_temp_clip_lem path transfer w h = (refl, gone path (transfer w).1 h)
