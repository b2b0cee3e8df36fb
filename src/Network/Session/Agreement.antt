-- ===== src/Network/Session/Agreement.antt =====
-- Both sides of a handshake get one key, and a stranger gets none.
use synapt.Prelude.{length, drop, Text, Result, ok, err}
use synapt.Network.Crypto.{Bytes, Primitives, CryptoError}
use synapt.Network.Stream.{TcpStream, crypto, M, ◌>>◌, pure, write_plain}
use synapt.Trust.{LocalIdentity}
use synapt.Network.Session.{Json, hello}

module _ (p : Primitives) (j : Json) where
  -- The responder's answer, by what the key derivation gives.
  abbrev answered : Bytes → Text → Result Bytes CryptoError → M (Bytes × Text)
  answered nonce id (err e) s = (err (crypto e), s)
  answered nonce id (ok key) s =
      (write_plain (j.hello_to_vec (hello (p.b64_encode nonce))) >> pure (key, id)) s

-- The bytes that a step added to the wire.
abbrev pub added : TcpStream → TcpStream → Bytes
added before after = drop (length before.sent) after.sent

-- The first write of the initiator.
abbrev pub greet : Json → LocalIdentity → M (Unit {0})
greet j identity = write_plain (j.init_to_vec (record { device_id = identity.device_id }))
