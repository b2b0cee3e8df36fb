-- ===== src/Network/Pairing/Examples.antt =====
-- The pairing of two concrete devices.
use synapt.Prelude.{
  zero, suc, ◌≡◌, ◌∷◌, [], ◌++◌, codes, some, none, pos, true, false, ok, refl, Option, length,
  arith, take, drop, take-append, drop-append, text_eq,
}
use synapt.Network.Crypto.{Bytes, to_le_bytes}
use synapt.Network.Crypto.Examples.{toy}
use synapt.Network.Session.Examples.{laptop, device, repeat}
use synapt.Network.Stream.{TcpStream}
use synapt.Storage.Rows.{has_key}
use synapt.Trust.{LocalIdentity, fingerprint, lower_hex}
use synapt.Storage.Examples.{empty_db}
use synapt.Storage.Devices.{get_trusted_peers}
use synapt.Storage.Devices.Trust.{find_peer}
use synapt.Network.Pairing.{
  PairMsg, pair_request, pair_accept, pair_rejected, pair_confirm, pair_complete, Formats, Ceremony,
  PendingPairing, row_of, peer_of, asked, completed, begin_pairing, confirm_pairing,
  handle_responder,
}
use synapt.Network.Pairing.Messages.{frame_of}
use synapt.Network.Pairing.Sides.{request, accept, confirm, complete}
use synapt.Network.Pairing.Completion.{pairing_lem}
use synapt.Network.Pairing.Consent.{IsUntouched, consent_lem}

-- The ids and names of these devices are one letter long.
abbrev msg_bytes : PairMsg → Bytes
msg_bytes (pair_request i n k) = 0 ∷ length i ∷ length n ∷ (i ++ (n ++ k))
msg_bytes (pair_accept i n k) = 1 ∷ length i ∷ length n ∷ (i ++ (n ++ k))
msg_bytes pair_rejected = 2 ∷ []
msg_bytes (pair_confirm k) = 3 ∷ k
msg_bytes (pair_complete k) = 4 ∷ k

abbrev bytes_msg : Bytes → Option PairMsg
bytes_msg (zero ∷ i ∷ n ∷ t) =
    some (pair_request (take i t) (take n (drop i t)) (drop n (drop i t)))
bytes_msg (suc zero ∷ i ∷ n ∷ t) =
    some (pair_accept (take i t) (take n (drop i t)) (drop n (drop i t)))
bytes_msg (suc (suc zero) ∷ t) = some pair_rejected
bytes_msg (suc (suc (suc zero)) ∷ t) = some (pair_confirm t)
bytes_msg (suc (suc (suc (suc m))) ∷ t) = some (pair_complete t)
bytes_msg _ = none

three :
    (i n k : Bytes)
    → (take (length i) (i ++ (n ++ k)) ≡ i)
      × (take (length n) (drop (length i) (i ++ (n ++ k))) ≡ n)
      × (drop (length n) (drop (length i) (i ++ (n ++ k))) ≡ k)
three i n k = rw (drop-append i (n ++ k)) (take-append i (n ++ k), take-append n k, drop-append n k)

msg_again : (m : PairMsg) → bytes_msg (msg_bytes m) ≡ some m
msg_again (pair_request i n k) = let h = three i n k in ground (arith)
msg_again (pair_accept i n k) = let h = three i n k in ground (arith)
msg_again pair_rejected = refl
msg_again (pair_confirm k) = refl
msg_again (pair_complete k) = refl

abbrev formats : Formats
formats = record {
  to_vec = msg_bytes;
  from_slice = bytes_msg;
  from_slice-to_vec = msg_again;
  debug = λ m. codes "message";
  parse_uuid = λ id. ok id;
}

abbrev stream : Bytes → TcpStream
stream received = record { received = received; sent = []; room = 1000 }

abbrev side : TcpStream → Ceremony
side s = record {
  stream = s;
  db = empty_db;
  trusted_ids = [];
  emitted = [];
  notified = [];
  timestamp = pos 7;
  faults = [];
}

abbrev desktop : LocalIdentity
desktop = device (codes "D") 2

abbrev secret_a : Bytes
secret_a = repeat 32 3

abbrev secret_b : Bytes
secret_b = repeat 32 4

abbrev to_client : Bytes
to_client =
    frame_of formats (accept toy formats desktop secret_b)
    ++ frame_of formats (complete toy formats desktop)

abbrev to_server : Bytes
to_server =
    frame_of formats (request toy formats laptop secret_a)
    ++ frame_of formats (confirm toy formats laptop)

pairing_example :
    (pending : PendingPairing) × (c1 : Ceremony) × (c2 : Ceremony) × (s2 : Ceremony)
    × (begin_pairing toy formats (some (some (stream to_client))) laptop secret_a (side (stream []))
        ≡ (ok pending, c1))
    × (confirm_pairing toy formats pending laptop c1
        ≡ (ok (peer_of (codes "D") (codes "D") (repeat 32 2) (codes "40") (pos 7)), c2))
    × (handle_responder toy formats
          (codes "ip")
          desktop
          secret_b
          (some true)
          (side (stream to_server))
        ≡ (ok tt, s2))
    × (c2.stream.sent ≡ to_server)
    × (s2.stream.sent ≡ to_client)
    × (s2.emitted
        ≡ asked (codes "L") (codes "L") (codes "ip") pending.verify_code
          ∷ completed (peer_of (codes "L") (codes "L") (repeat 32 1) (codes "20") (pos 7))
          ∷ [])
    × (find_peer (codes "D") (get_trusted_peers c2.db)
        ≡ some (row_of (codes "D") (codes "D") (repeat 32 2) (codes "40") (pos 7)))
    × (find_peer (codes "L") (get_trusted_peers s2.db)
        ≡ some (row_of (codes "L") (codes "L") (repeat 32 1) (codes "20") (pos 7)))
    × (has_key (text_eq (codes "L")) s2.trusted_ids ≡ true)
unfolding fingerprint lower_hex to_le_bytes
pairing_example =
    pairing_lem toy formats laptop desktop secret_a secret_b (codes "ip") (codes "20") (codes "40")
      (codes "L") (codes "D") (stream to_client) (side (stream [])) (side (stream to_server)) refl
      refl (omega arith) (omega arith) (omega arith) (omega arith) refl refl (omega arith)
      (omega arith) refl refl refl refl refl refl

consent_example :
    IsUntouched
      (side (stream to_server))
      (begin_pairing toy formats
        (some (some (stream to_client)))
        laptop
        secret_a
        (side (stream to_server))).1
    × IsUntouched
        (side (stream to_server))
        (handle_responder toy formats
          (codes "ip")
          laptop
          secret_a
          (some false)
          (side (stream to_server))).1
consent_example =
    consent_lem toy formats (some (some (stream to_client))) (codes "ip") laptop secret_a
      (some false) (side (stream to_server)) (λ e. cc)
