-- ===== src/Network/Pairing/Sides.antt =====
-- What each side of the ceremony does with the messages of the other, where no call fails.
use synapt.Prelude.{
  ◌-◌, ◌≤◌, ◌≡◌, [], ◌∷◌, ◌++◌, length, Text, ok, arith, some, codes, if◌then◌else◌,
}
use synapt.Network.Crypto.{
  Bytes, Primitives, from_b64, pairing_code, ephemeral_dh, generate_ephemeral,
}
use synapt.Network.Stream.{TcpStream}
use synapt.Notify.{Notification, enabled_by, peer_pair_request, peer_paired}
use synapt.Storage.Devices.{get_setting, upsert_trusted_peer}
use synapt.Trust.{LocalIdentity, fingerprint}
use synapt.Network.Pairing.{
  PairMsg, pair_request, pair_accept, pair_confirm, pair_complete, PendingPairing, Formats,
  Ceremony, asked, completed, failing, notify, upsert, trust_id, insert_id, row_of, peer_of, key_of,
  to_key32, pending_of, connected, begin_pairing, longterm_of_reply, longterm_of_confirm, remember,
  confirm_pairing, request_of, answer_request, complete_pairing,
}
use synapt.Network.Pairing.Messages.{frame_of, IsSmall, sends, receives}

module _ (p : Primitives) (j : Formats) where
  key_of-encode :
      (k : Bytes) (c : Ceremony) → length k ≡ 32 → key_of p j (p.b64_encode k) c ≡ (ok k, c)
  unfolding key_of to_key32 from_b64
  key_of-encode k c l = ground (arith, p.b64_decode-encode k)

  -- The notice of a pairing, where no call fails.
  abbrev pub noticed : Notification → Ceremony → Ceremony
  noticed n c = record c {
    notified =
        if enabled_by (some (get_setting c.db (codes "notifications_enabled")))
        then c.notified ++ n ∷ []
        else c.notified;
  }

  notify_calm :
      (n : Notification) (c : Ceremony) → c.faults ≡ [] → notify n c ≡ (ok tt, noticed n c)
  unfolding notify failing
  notify_calm n c h = ground arith

  remember_calm :
      (id name longterm fp : Text) (c : Ceremony)
      → c.faults ≡ []
      → fingerprint p longterm ≡ ok fp
      → remember p j id name longterm c ≡ (
        ok (fp, c.timestamp),
        record c { db = upsert_trusted_peer c.db (row_of id name longterm fp c.timestamp) },
      )
  unfolding remember upsert failing
  remember_calm id name longterm fp c h f = ground arith

  abbrev pub request : LocalIdentity → Bytes → PairMsg
  request identity random =
      pair_request identity.device_id identity.device_name (p.b64_encode (p.public_key random))

  abbrev pub accept : LocalIdentity → Bytes → PairMsg
  accept identity random =
      pair_accept identity.device_id identity.device_name (p.b64_encode (p.public_key random))

  abbrev pub confirm : LocalIdentity → PairMsg
  confirm identity = pair_confirm identity.pubkey_b64

  abbrev pub complete : LocalIdentity → PairMsg
  complete identity = pair_complete identity.pubkey_b64

  -- The connection after a message has been written to it and what is behind has been left unread.
  abbrev pub moved : TcpStream → PairMsg → Bytes → TcpStream
  moved s m rest = record s {
    received = rest;
    sent = s.sent ++ frame_of j m;
    room = s.room - length (frame_of j m);
  }

  -- The code that a side with the secret `mine` shows, where the other side has the secret `theirs`.
  abbrev pub code_for : Bytes → Bytes → Text
  code_for mine theirs = pairing_code p (ephemeral_dh p mine (p.public_key theirs))

  abbrev pub pending_for : TcpStream → LocalIdentity → Bytes → Bytes → PendingPairing
  pending_for s peer mine theirs = record {
    stream = s;
    shared_secret = ephemeral_dh p mine (p.public_key theirs);
    peer_device_id = peer.device_id;
    peer_name = peer.device_name;
    peer_pubkey_b64 = p.b64_encode (p.public_key theirs);
    verify_code = code_for mine theirs;
  }

  module _ (client server : LocalIdentity) (a b : Bytes) where
    pub begins :
        (k : TcpStream) (rest : Bytes) (c : Ceremony)
        → IsSmall j (request client a)
        → IsSmall j (accept server b)
        → length (p.public_key b) ≡ 32
        → length (frame_of j (request client a)) ≤ k.room
        → k.received ≡ frame_of j (accept server b) ++ rest
        → begin_pairing p j (some (some k)) client a c ≡ (
          ok (pending_for (moved k (request client a) rest) server a b),
          record c { stream = moved k (request client a) rest },
        )
    unfolding begin_pairing connected generate_ephemeral pending_of
    begins k rest c s1 s2 l room r = ground (
      arith,
      sends p j (request client a) (record c { stream = k }) s1 room,
      receives p j (accept server b) rest
          (record c {
            stream = record k {
              sent = k.sent ++ frame_of j (request client a);
              room = k.room - length (frame_of j (request client a));
            };
          })
          s2 r,
      key_of-encode (p.public_key b) (record c { stream = moved k (request client a) rest }) l,
    )

    pub confirms :
        (pending : PendingPairing) (rest : Bytes) (fp id : Text) (c : Ceremony)
        → c.faults ≡ []
        → IsSmall j (confirm client)
        → IsSmall j (complete server)
        → length (frame_of j (confirm client)) ≤ pending.stream.room
        → pending.stream.received ≡ frame_of j (complete server) ++ rest
        → fingerprint p server.pubkey_b64 ≡ ok fp
        → j.parse_uuid pending.peer_device_id ≡ ok id
        → confirm_pairing p j pending client c ≡ (
          ok (peer_of id pending.peer_name server.pubkey_b64 fp c.timestamp),
          record c {
            stream = moved pending.stream (confirm client) rest;
            db =
                upsert_trusted_peer c.db (
                  row_of pending.peer_device_id pending.peer_name server.pubkey_b64 fp c.timestamp);
          },
        )
    unfolding confirm_pairing longterm_of_reply
    confirms pending rest fp id c h s1 s2 room r f u = ground (
      arith,
      sends p j (confirm client) (record c { stream = pending.stream }) s1 room,
      receives p j (complete server) rest
          (record c {
            stream = record pending.stream {
              sent = pending.stream.sent ++ frame_of j (confirm client);
              room = pending.stream.room - length (frame_of j (confirm client));
            };
          })
          s2 r,
      remember_calm pending.peer_device_id pending.peer_name server.pubkey_b64 fp
          (record c { stream = moved pending.stream (confirm client) rest }) h f,
    )

    -- The responder once it has shown its code and accepted.
    abbrev pub answered : Text → Bytes → Ceremony → Ceremony
    answered ip rest c =
        let n =
          noticed (peer_pair_request client.device_name)
            (record c { stream = record c.stream { received = rest } }) in
        record n {
          emitted = c.emitted ++ asked client.device_id client.device_name ip (code_for b a) ∷ [];
          stream = moved c.stream (accept server b) rest;
        }

    pub answers :
        (ip : Text) (rest : Bytes) (c : Ceremony)
        → c.faults ≡ []
        → IsSmall j (request client a)
        → IsSmall j (accept server b)
        → length (p.public_key a) ≡ 32
        → length (frame_of j (accept server b)) ≤ c.stream.room
        → c.stream.received ≡ frame_of j (request client a) ++ rest
        → answer_request p j ip server b c
          ≡ (ok (client.device_id, client.device_name), answered ip rest c)
    unfolding answer_request request_of generate_ephemeral failing
    answers ip rest c h s1 s2 l room r =
        let heard = record c { stream = record c.stream { received = rest } } in
        let n = noticed (peer_pair_request client.device_name) heard in
        ground (
          arith,
          receives p j (request client a) rest c s1 r,
          key_of-encode (p.public_key a) heard l,
          notify_calm (peer_pair_request client.device_name) heard h,
          sends p j (accept server b)
              (record n {
                emitted =
                    n.emitted ++ asked client.device_id client.device_name ip (code_for b a) ∷ [];
              })
              s2,
        )

    abbrev pub finished : Text → Text → Bytes → Ceremony → Ceremony
    finished fp id rest c = noticed (peer_paired client.device_name) (record c {
      emitted =
          c.emitted
          ++ completed (peer_of id client.device_name client.pubkey_b64 fp c.timestamp) ∷ [];
      stream = moved c.stream (complete server) rest;
      db =
          upsert_trusted_peer c.db
            (row_of client.device_id client.device_name client.pubkey_b64 fp c.timestamp);
      trusted_ids = insert_id client.device_id c.trusted_ids;
    })

    pub completes :
        (rest : Bytes) (fp id : Text) (c : Ceremony)
        → c.faults ≡ []
        → IsSmall j (confirm client)
        → IsSmall j (complete server)
        → length (frame_of j (complete server)) ≤ c.stream.room
        → c.stream.received ≡ frame_of j (confirm client) ++ rest
        → fingerprint p client.pubkey_b64 ≡ ok fp
        → j.parse_uuid client.device_id ≡ ok id
        → complete_pairing p j server client.device_id client.device_name c
          ≡ (ok tt, finished fp id rest c)
    unfolding complete_pairing longterm_of_confirm trust_id failing
    completes rest fp id c h s1 s2 room r f u =
        let heard = record c { stream = record c.stream { received = rest } } in
        let stored = record heard {
          db =
              upsert_trusted_peer c.db
                (row_of client.device_id client.device_name client.pubkey_b64 fp c.timestamp);
        } in
        let trusting = record stored { trusted_ids = insert_id client.device_id c.trusted_ids } in
        let said = record trusting { stream = moved c.stream (complete server) rest } in
        ground (
          arith,
          receives p j (confirm client) rest c s1 r,
          remember_calm client.device_id client.device_name client.pubkey_b64 fp heard h f,
          sends p j (complete server) trusting s2 room,
          notify_calm (peer_paired client.device_name)
              (record said {
                emitted =
                    c.emitted
                    ++ completed (peer_of id client.device_name client.pubkey_b64 fp c.timestamp)
                      ∷ [];
              })
              h,
        )
