-- ===== src/Network/Stream/Examples.antt =====
-- The theorems about connections at concrete bytes.
use synapt.Prelude.{◌≡◌, refl, [], ◌∷◌, ◌++◌, codes, ok, err}
use synapt.Network.Crypto.{Bytes, encrypt}
use synapt.Network.Crypto.Examples.{toy}
use synapt.Network.Stream.{TcpStream, io, write_plain, write_enc, read_enc}
use synapt.Network.Stream.Roundtrip.{read_enc-write_enc}

abbrev idle : TcpStream
idle = record { received = []; sent = []; room = 100 }

abbrev heard : Bytes → TcpStream
heard bytes = record { received = bytes; sent = []; room = 100 }

-- A connection that breaks in the middle of a frame
breaks :
    write_plain (1 ∷ 2 ∷ []) (record { received = []; sent = []; room = 5 })
    ≡ (err io, record { received = []; sent = 2 ∷ 0 ∷ 0 ∷ 0 ∷ 1 ∷ []; room = 0 })
unfolding write_plain
breaks = refl

abbrev wire : Bytes
wire = 14 ∷ 0 ∷ 0 ∷ 0 ∷ codes "twelve bytes" ++ 5 ∷ 42 ∷ []

read_enc-write_enc_example : read_enc toy (5 ∷ []) (heard wire) ≡ (ok (42 ∷ []), heard [])
unfolding write_enc encrypt write_plain
read_enc-write_enc_example =
    read_enc-write_enc toy (codes "twelve bytes") (5 ∷ []) (42 ∷ []) [] idle
      (record { received = []; sent = wire; room = 82 }) (heard wire) refl refl refl
