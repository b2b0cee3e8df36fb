-- ===== src/Network/Session/Examples.antt =====
-- The handshake between two concrete devices.
use synapt.Prelude.{ℕ, zero, suc, ◌≡◌, refl, Option, none, some, [], ◌∷◌, Text, codes, pos}
use synapt.Network.Crypto.{Bytes}
use synapt.Network.Stream.{TcpStream}
use synapt.Storage.Rows.{TrustedPeerRow}
use synapt.Trust.{LocalIdentity}
use synapt.Network.Session.{ServerHello, hello, rejected, Json}

abbrev pub hello_bytes : ServerHello → Bytes
hello_bytes (hello nonce) = 1 ∷ nonce
hello_bytes rejected = 0 ∷ []

abbrev pub bytes_hello : Bytes → Option ServerHello
bytes_hello [] = none
bytes_hello (zero ∷ t) = some rejected
bytes_hello (suc n ∷ t) = some (hello t)

pub hello_again : (m : ServerHello) → bytes_hello (hello_bytes m) ≡ some m
hello_again (hello nonce) = refl
hello_again rejected = refl

abbrev pub json : Json
json = record {
  init_to_vec = λ m. m.device_id;
  init_from_slice = λ b. some (record { device_id = b });
  init_from-to = λ m. refl;
  hello_to_vec = hello_bytes;
  hello_from_slice = bytes_hello;
  hello_from-to = hello_again;
}

abbrev pub repeat : ℕ → ℕ → Bytes
repeat zero b = []
repeat (suc n) b = b ∷ repeat n b

abbrev pub device : Text → ℕ → LocalIdentity
device id b = record {
  device_id = id;
  device_name = id;
  pubkey_b64 = repeat 32 b;
  privkey_bytes = repeat 32 b;
}

abbrev pub laptop : LocalIdentity
laptop = device (codes "L") 1

abbrev pub desktop : LocalIdentity
desktop = device (codes "D") 2

abbrev pub row : TrustedPeerRow
row = record {
  device_id = codes "L";
  device_name = codes "L";
  pubkey_b64 = repeat 32 1;
  fingerprint = [];
  paired_at = pos 0;
  last_seen = none;
}

abbrev stream : Bytes → Bytes → ℕ → TcpStream
stream received sent room = record { received = received; sent = sent; room = room }

abbrev pub nonce : Bytes
nonce = repeat 32 9

abbrev pub greeting : Bytes
greeting = 1 ∷ 0 ∷ 0 ∷ 0 ∷ codes "L"

abbrev answer : Bytes
answer = 33 ∷ 0 ∷ 0 ∷ 0 ∷ 1 ∷ nonce
