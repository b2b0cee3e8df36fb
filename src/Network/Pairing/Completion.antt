-- ===== src/Network/Pairing/Completion.antt =====
-- A pairing that both users confirm, from its first message to its last.
use synapt.Prelude.{
  ◌+◌, ◌≤◌, ◌≡◌, ap, ◌∙◌, append_assoc, List, [], ◌∷◌, ◌++◌, length, Text, ok, arith, true, some,
  append-nil, sym, text_eq, text_eq_refl,
}
use synapt.Network.Crypto.{Bytes, Primitives, pairing_code, ephemeral_dh}
use synapt.Network.Stream.{TcpStream}
use synapt.Storage.Rows.{has_key}
use synapt.Storage.Devices.{get_trusted_peers, upsert_trusted_peer}
use synapt.Storage.Devices.Trust.{find_peer, find_peer-upsert}
use synapt.Trust.{LocalIdentity, fingerprint}
use synapt.Network.Pairing.{
  PendingPairing, Formats, Ceremony, asked, completed, insert_id, row_of, peer_of, begin_pairing,
  confirm_pairing, handle_responder,
}
use synapt.Network.Pairing.Messages.{frame_of, IsSmall}
use synapt.Network.Pairing.Sides.{
  request, accept, confirm, complete, moved, code_for, pending_for, answered, finished, begins,
  confirms, answers, completes,
}

-- Both sides show one code.
code_for_comm : (p : Primitives) (j : Formats) (a b : Bytes) → code_for p j a b ≡ code_for p j b a
unfolding ephemeral_dh
code_for_comm p j a b = ap (pairing_code p) (p.diffie_hellman_comm a b)

has_key-insert_id : (id : Text) (ids : List Text) → has_key (text_eq id) (insert_id id ids) ≡ true
unfolding has_key
has_key-insert_id id ids = ground (arith, text_eq_refl id)

-- When both users confirm, no call fails, every message has a size that is allowed and the
-- connections hold, a pairing completes. Each side writes the two messages that the other side
-- reads, both users are shown the same code, and from then on each device finds the other in its
-- database with the long-term key that it sent, and the responder trusts the initiator at once.
pub pairing_lem :
    (p : Primitives) (j : Formats) (client server : LocalIdentity) (a b : Bytes)
    (ip fc fs idc ids : Text) (k : TcpStream) (c s : Ceremony)
    → c.faults ≡ []
    → s.faults ≡ []
    → IsSmall j (request p j client a)
    → IsSmall j (accept p j server b)
    → IsSmall j (confirm p j client)
    → IsSmall j (complete p j server)
    → length (p.public_key a) ≡ 32
    → length (p.public_key b) ≡ 32
    → length (frame_of j (request p j client a)) + length (frame_of j (confirm p j client)) ≤ k.room
    → length (frame_of j (accept p j server b)) + length (frame_of j (complete p j server))
      ≤ s.stream.room
    → k.received ≡ frame_of j (accept p j server b) ++ frame_of j (complete p j server)
    → s.stream.received ≡ frame_of j (request p j client a) ++ frame_of j (confirm p j client)
    → fingerprint p client.pubkey_b64 ≡ ok fc
    → fingerprint p server.pubkey_b64 ≡ ok fs
    → j.parse_uuid client.device_id ≡ ok idc
    → j.parse_uuid server.device_id ≡ ok ids
    → (pending : PendingPairing) × (c1 : Ceremony) × (c2 : Ceremony) × (s2 : Ceremony)
      × (begin_pairing p j (some (some k)) client a c ≡ (ok pending, c1))
      × (confirm_pairing p j pending client c1
          ≡ (ok (peer_of ids server.device_name server.pubkey_b64 fs c.timestamp), c2))
      × (handle_responder p j ip server b (some true) s ≡ (ok tt, s2))
      × (c2.stream.sent
          ≡ k.sent ++ (frame_of j (request p j client a) ++ frame_of j (confirm p j client)))
      × (s2.stream.sent
          ≡ s.stream.sent ++ (frame_of j (accept p j server b) ++ frame_of j (complete p j server)))
      × (s2.emitted
          ≡ s.emitted
            ++ (asked client.device_id client.device_name ip pending.verify_code
                ∷ completed (peer_of idc client.device_name client.pubkey_b64 fc s.timestamp)
                ∷ []))
      × (find_peer server.device_id (get_trusted_peers c2.db)
          ≡ some (row_of server.device_id server.device_name server.pubkey_b64 fs c.timestamp))
      × (find_peer client.device_id (get_trusted_peers s2.db)
          ≡ some (row_of client.device_id client.device_name client.pubkey_b64 fc s.timestamp))
      × (has_key (text_eq client.device_id) s2.trusted_ids ≡ true)
unfolding handle_responder
pairing_lem p j client server a b ip fc fs idc ids k c s hc hs s1 s2 s3 s4 la lb rc rs kr sr fpc fps
      uc us =
    let k1 = moved p j k (request p j client a) (frame_of j (complete p j server)) in
    let pending = pending_for p j k1 server a b in
    let c1 = record c { stream = k1 } in
    let s1' = answered p j client server a b ip (frame_of j (confirm p j client)) s in
    let shown = λ (code : Text). asked client.device_id client.device_name ip code in
    let last = completed (peer_of idc client.device_name client.pubkey_b64 fc s.timestamp) in
    let row_s = row_of server.device_id server.device_name server.pubkey_b64 fs c.timestamp in
    let row_c = row_of client.device_id client.device_name client.pubkey_b64 fc s.timestamp in
    (
      pending,
      c1,
      record c1 {
        stream = moved p j k1 (confirm p j client) [];
        db = upsert_trusted_peer c.db row_s;
      },
      finished p j client server a b fc idc [] s1',
      begins p j client server a b k (frame_of j (complete p j server)) c s1 s2 lb
          (omega (arith, rc)) kr,
      confirms p j client server a b pending [] fs ids c1 hc s3 s4 (omega (arith, rc))
          (sym (append-nil (frame_of j (complete p j server)))) fps us,
      ground (
        arith,
        answers p j client server a b ip (frame_of j (confirm p j client)) s hs s1 s2 la
            (omega (arith, rs)) sr,
        completes p j client server a b [] fc idc s1' hs s3 s4 (omega (arith, rs))
            (sym (append-nil (frame_of j (confirm p j client)))) fpc uc,
      ),
      append_assoc k.sent (frame_of j (request p j client a)) (frame_of j (confirm p j client)),
      append_assoc s.stream.sent (frame_of j (accept p j server b))
          (frame_of j (complete p j server)),
      append_assoc s.emitted (shown (code_for p j b a) ∷ []) (last ∷ [])
          ∙ ap (λ (code : Text). s.emitted ++ (shown code ∷ last ∷ [])) (code_for_comm p j b a),
      find_peer-upsert c.db row_s,
      find_peer-upsert s.db row_c,
      has_key-insert_id client.device_id s.trusted_ids,
    )
