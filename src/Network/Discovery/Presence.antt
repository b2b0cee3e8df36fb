-- ===== src/Network/Discovery/Presence.antt =====
-- Which trusted peers a round of discovery announces.
use synapt.Prelude.{
  ℕ, ◌≡◌, refl, ap, ◌∙◌, Bool, true, false, not, ◌&&◌, ◌||◌, Option, none, some, List, [], ◌∷◌, All,
  map, filter_by, Text, text_eq, text_eq_iff, text_eq_refl, arith, if◌then◌else◌,
}
use synapt.Prelude.Members.{All-imp}
use synapt.Network.Crypto.{Bytes}
use synapt.Network.Discovery.{
  Discovery, PeerStatus, trusted, discovered, Round, PeerEntry, PeerMap, PresencePacket, is_trusted,
  online_trusted, named, newly_online, retain, broadcast, hear, run_round, started,
}
use synapt.Storage.Rows.{has_key, select}
use synapt.Trust.{ParseUuid}

-- Whether a trusted peer with an id is in the map.
abbrev pub is_online : Text → PeerMap → Bool
is_online id [] = false
is_online id ((device_id, entry) ∷ peers) =
    (text_eq id device_id && elim entry.peer.status [ trusted ↦ true | discovered ↦ false ])
    || is_online id peers

is_online-online_trusted :
    (id : Text) (peers : PeerMap) → has_key (text_eq id) (online_trusted peers) ≡ is_online id peers
unfolding online_trusted has_key
is_online-online_trusted id [] = refl
is_online-online_trusted id ((device_id, entry) ∷ peers) =
    go entry.peer.status (is_online-online_trusted id peers)
  where
    go :
        (s : PeerStatus)
        → has_key (text_eq id) (online_trusted peers) ≡ is_online id peers
        → has_key (text_eq id) (
            map
              (λ r. r.0)
              (if is_trusted s
                then (device_id, entry) ∷ filter_by (λ r. is_trusted r.1.peer.status) peers
                else filter_by (λ r. is_trusted r.1.peer.status) peers))
          ≡ ((text_eq id device_id && elim s [ trusted ↦ true | discovered ↦ false ])
              || is_online id peers)
    go trusted rest = ground (arith, rest)
    go discovered rest = ground (arith, rest)

abbrev pub is_announced : Text → List (Text × Text) → Bool
is_announced id appeared = has_key (λ n. text_eq id n.0) appeared

select_found :
    (same : Text × PeerEntry → Bool) (peers : PeerMap)
    → has_key same peers ≡ true
    → (r : Text × PeerEntry) × (select same peers ≡ some r)
unfolding has_key select
select_found same [] h = absurd (cc)
select_found same (r ∷ peers) h = go (same r) refl (select_found same peers)
  where
    go :
        (b : Bool)
        → same r ≡ b
        → (has_key same peers ≡ true
            → (found : Text × PeerEntry) × (select same peers ≡ some found))
        → (found : Text × PeerEntry) × (select same (r ∷ peers) ≡ some found)
    go true e rest = (r, ground (arith, e))
    go false e rest = let (found, k) = rest (ground (arith, e, h)) in (found, ground (arith, e, k))

abbrev IsKey : PeerMap → Text → Type 0
IsKey peers id = has_key (λ r. text_eq r.0 id) peers ≡ true

keys-online_trusted : (peers : PeerMap) → All (IsKey peers) (online_trusted peers)
unfolding online_trusted has_key
keys-online_trusted [] = tt
keys-online_trusted (r ∷ peers) = go (is_trusted r.1.peer.status) (
    All-imp {Q = IsKey (r ∷ peers)} (λ i h. ground (arith, h)) (online_trusted peers)
      (keys-online_trusted peers))
  where
    go :
        (b : Bool)
        → All (IsKey (r ∷ peers)) (online_trusted peers)
        → All (IsKey (r ∷ peers)) (
            map
              (λ r. r.0)
              (if b
                then r ∷ filter_by (λ x. is_trusted x.1.peer.status) peers
                else filter_by (λ x. is_trusted x.1.peer.status) peers))
    go true rest = (ground (arith, text_eq_refl r.0), rest)
    go false rest = rest

announced-named :
    (id : Text) (peers : PeerMap) (ids : List Text)
    → All (IsKey peers) ids
    → is_announced id (named peers ids) ≡ has_key (text_eq id) ids
unfolding named has_key
announced-named id peers [] h = refl
announced-named id peers (i ∷ ids) (k, h) =
    let (r, e) = select_found (λ r. text_eq r.0 i) peers k in
    let rest = announced-named id peers ids h in ground (arith, e, rest)

appeared_lem :
    (id : Text) (last ids : List Text)
    → has_key (text_eq id) (filter_by (λ i. not (has_key (text_eq i) last)) ids)
      ≡ (has_key (text_eq id) ids && not (has_key (text_eq id) last))
unfolding has_key
appeared_lem id last [] = refl
appeared_lem id last (i ∷ ids) =
    go (has_key (text_eq i) last) (text_eq id i) refl refl (appeared_lem id last ids)
  where
    go :
        (b c : Bool)
        → has_key (text_eq i) last ≡ b
        → text_eq id i ≡ c
        → has_key (text_eq id) (filter_by (λ i. not (has_key (text_eq i) last)) ids)
          ≡ (has_key (text_eq id) ids && not (has_key (text_eq id) last))
        → has_key (text_eq id) (filter_by (λ i. not (has_key (text_eq i) last)) (i ∷ ids))
          ≡ (has_key (text_eq id) (i ∷ ids) && not (has_key (text_eq id) last))
    go b true e f rest =
        let same : id ≡ i = (text_eq_iff id i).0 f in
        let known : has_key (text_eq id) last ≡ b = ap (λ x. has_key (text_eq x) last) same ∙ e in
        ground (arith, e, f, known, rest)
    go true false e f rest = ground (arith, e, f, rest)
    go false false e f rest = ground (arith, e, f, rest)

All-filter_by :
    (P : Text → Type 0) (t : Text → Bool) (ids : List Text) → All P ids → All P (filter_by t ids)
All-filter_by P t [] h = tt
All-filter_by P t (i ∷ ids) (h, k) = go (t i) (All-filter_by P t ids k)
  where
    go :
        (b : Bool)
        → All P (filter_by t ids)
        → All P (if b then i ∷ filter_by t ids else filter_by t ids)
    go true rest = (h, rest)
    go false rest = rest

-- The ids that the loop remembers are those of the trusted peers in the map.
abbrev pub IsSettled : Discovery → Type 0
IsSettled d = d.last_online_trusted ≡ online_trusted d.peer_map

newly_online_lem :
    (d : Discovery) (id : Text)
    → is_announced id (newly_online d).0
      ≡ (is_online id d.peer_map && not (has_key (text_eq id) d.last_online_trusted))
unfolding newly_online
newly_online_lem d id =
    let is_new = λ (i : Text). not (has_key (text_eq i) d.last_online_trusted) in
    announced-named id d.peer_map (filter_by is_new (online_trusted d.peer_map)) (
      All-filter_by (IsKey d.peer_map) is_new (online_trusted d.peer_map)
        (keys-online_trusted d.peer_map))
    ∙ appeared_lem id d.last_online_trusted (online_trusted d.peer_map)
    ∙ ap (λ b. b && not (has_key (text_eq id) d.last_online_trusted))
        (is_online-online_trusted id d.peer_map)

module _ (local_device_id version nil : Text) (parse_uuid : ParseUuid)
    (from_slice : Bytes → Option PresencePacket) where
  -- The states that the loop comes to.
  pub data Reachable : Discovery → Type 0 where
    begun : (now : ℕ) → Reachable (started now)
    round :
        (d : Discovery) (r : Round)
        → Reachable d
        → Reachable (run_round local_device_id version nil parse_uuid from_slice d r).2

  -- A round announces an id exactly when a trusted peer with it is in the map after the round
  -- and none was before it.
  IsAnnounced : Discovery → Round → Type 0
  IsAnnounced d r =
      let after = run_round local_device_id version nil parse_uuid from_slice d r in
      (id : Text)
      → is_announced id after.1 ≡ (is_online id after.2.peer_map && not (is_online id d.peer_map))

  kept_by_broadcast :
      (d : Discovery) (r : Round)
      → ((broadcast local_device_id version nil parse_uuid from_slice d r).1.peer_map ≡ d.peer_map)
        × ((broadcast local_device_id version nil parse_uuid from_slice d r).1.last_online_trusted
            ≡ d.last_online_trusted)
  unfolding broadcast
  kept_by_broadcast d r = (ground arith, ground arith)

  settled_round :
      (d : Discovery) (r : Round)
      → IsSettled d
      → IsSettled (run_round local_device_id version nil parse_uuid from_slice d r).2
        × IsAnnounced d r
  unfolding run_round newly_online IsAnnounced
  settled_round d r h =
      let d' = (broadcast local_device_id version nil parse_uuid from_slice d r).1 in
      go (hear local_device_id version nil parse_uuid from_slice r d'.peer_map) refl
    where
      go :
          (o : Option PeerMap)
          → hear local_device_id version nil parse_uuid from_slice r
              (broadcast local_device_id version nil parse_uuid from_slice d r).1.peer_map
            ≡ o
          → IsSettled (run_round local_device_id version nil parse_uuid from_slice d r).2
            × IsAnnounced d r
      go none e =
          let (k, l) = kept_by_broadcast d r in
          (ground (arith, e, h, k, l), λ id. ground (arith, e, h, k, l))
      go (some peers) e =
          let (k, l) = kept_by_broadcast d r in
          let d' = (broadcast local_device_id version nil parse_uuid from_slice d r).1 in
          let swept = record d' { peer_map = retain r.swept_at peers } in
          (
            ground (arith, e),
            λ id. ground (
              arith,
              e,
              h,
              k,
              l,
              newly_online_lem swept id,
              is_online-online_trusted id d.peer_map,
            ),
          )

  Reachable-IsSettled : (d : Discovery) → Reachable d → IsSettled d
  unfolding online_trusted
  Reachable-IsSettled d (begun now) = refl
  Reachable-IsSettled d (round d' r known) = (settled_round d' r (Reachable-IsSettled d' known)).0

  -- From any state that the loop comes to, a round announces an id exactly when a trusted peer with
  -- that id is in the map after the round and none was before it.
  pub run_round_lem :
      (d : Discovery)
      → Reachable d
      → (r : Round) (id : Text)
      → is_announced id (run_round local_device_id version nil parse_uuid from_slice d r).1 ≡ (
          is_online id (run_round local_device_id version nil parse_uuid from_slice d r).2.peer_map
          && not (is_online id d.peer_map))
  unfolding IsAnnounced
  run_round_lem d known r id = (settled_round d r (Reachable-IsSettled d known)).1 id
