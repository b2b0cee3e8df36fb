-- ===== src/Network/Session/Known.antt =====
-- Whom the responder of a handshake gives a key.
use synapt.Prelude.{◌≡◌, refl, Option, none, some, List, Text, text_eq, Result, ok, err, arith}
use synapt.Prelude.Members.{In}
use synapt.Network.Crypto.{Bytes, Primitives}
use synapt.Network.Session.{HandshakeInit, Json, answer_peer, session_handshake_server}
use synapt.Network.Stream.{TcpStream, SessionError, read_plain}
use synapt.Storage.Rows.{TrustedPeerRow}
use synapt.Storage.Devices.Trust.{find_peer, In-select}
use synapt.Trust.{LocalIdentity}

module _ (p : Primitives) (j : Json) (identity : LocalIdentity) (nonce key : Bytes)
    (peer : Text) where
  answered :
      (o : Option TrustedPeerRow) (s : TcpStream)
      → (answer_peer p j identity nonce o s).0 ≡ ok (key, peer)
      → (row : TrustedPeerRow) × (o ≡ some row) × (row.device_id ≡ peer)
  unfolding answer_peer
  answered none s h = absurd (ground (arith, h))
  answered (some row) s h = (row, refl, ground (arith, h))

  found :
      (id : Text) (peers : List TrustedPeerRow) (row : TrustedPeerRow)
      → find_peer id peers ≡ some row
      → In row peers
  unfolding find_peer
  found id peers row e = (In-select (λ r. text_eq r.device_id id) row peers e).0

  -- A key is given for one of the peers that the database answers with.
  pub handshake-known :
      (answer : Result (List TrustedPeerRow) SessionError) (s : TcpStream)
      → (session_handshake_server p j identity answer nonce s).0 ≡ ok (key, peer)
      → (peers : List TrustedPeerRow) × (row : TrustedPeerRow) × (answer ≡ ok peers)
        × In row peers
        × (row.device_id ≡ peer)
  unfolding session_handshake_server
  handshake-known (err e) s h = absurd (go (read_plain s).0 refl)
    where
      go : (o : Result Bytes SessionError) → (read_plain s).0 ≡ o → ⊥
      go (err x) r = ground (arith, r, h)
      go (ok b) r = ground (arith, r, h)
  handshake-known (ok peers) s h = (peers, known.0, refl, known.1, known.2)
    where
      of_init :
          (b : Bytes) (o : Option HandshakeInit)
          → (read_plain s).0 ≡ ok b
          → j.init_from_slice b ≡ o
          → (row : TrustedPeerRow) × In row peers × (row.device_id ≡ peer)
      of_init b none r i = absurd (ground (arith, r, i, h))
      of_init b (some init) r i =
          let given =
            answered (find_peer init.device_id peers) (read_plain s).1 (ground (arith, r, i, h)) in
          let (row, e, same) = given in (row, found init.device_id peers row e, same)

      of_bytes :
          (o : Result Bytes SessionError)
          → (read_plain s).0 ≡ o
          → (row : TrustedPeerRow) × In row peers × (row.device_id ≡ peer)
      of_bytes (err x) r = absurd (ground (arith, r, h))
      of_bytes (ok b) r = of_init b (j.init_from_slice b) r refl

      known : (row : TrustedPeerRow) × In row peers × (row.device_id ≡ peer)
      known = of_bytes (read_plain s).0 refl
