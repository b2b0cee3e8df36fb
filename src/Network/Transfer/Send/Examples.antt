-- ===== src/Network/Transfer/Send/Examples.antt =====
-- A file that is pushed to a peer that accepts it, and a connection from a stranger.
use synapt.Prelude.{◌≡◌, refl, ap, none, [], ◌∷◌, ◌++◌, codes, text_eq, ok, err}
use synapt.Prelude.Sort.{sort_by}
use synapt.Network.Crypto.{Bytes, decrypt, read_frame_len}
use synapt.Network.Crypto.Examples.{toy}
use synapt.Network.Session.Examples.{json, laptop}
use synapt.Network.Stream.{TcpStream, read_enc, read_plain, read_exact, check_len}
use synapt.Network.Transfer.{TransferError, World}
use synapt.Network.Transfer.Examples.{msgs, world, calm}
use synapt.Network.Transfer.Send.{send_push_payload, handle_server_conn}
use synapt.Network.Transfer.Send.Payload.{Counts, IsPush, send_push_payload_lem}
use synapt.Network.Transfer.Send.Strangers.{IsUnchanged, handle_server_conn_lem}
use synapt.Storage.Devices.{get_trusted_peers}
use synapt.Storage.Devices.Trust.{find_peer}

abbrev file : Bytes
file = 70 ∷ 71 ∷ 72 ∷ []

-- The frame in which the peer accepts.
abbrev accepting : Bytes
accepting = 15 ∷ 0 ∷ 0 ∷ 0 ∷ (codes "twelve bytes" ++ 5 ∷ 7 ∷ 0 ∷ [])

accepts :
    (t : TcpStream)
    → t.received ≡ accepting
    → read_enc toy (5 ∷ []) t ≡ (ok (7 ∷ 0 ∷ []), record t { received = [] })
unfolding read_enc read_plain read_exact check_len decrypt read_frame_len
accepts t e = ap (λ (r : Bytes). read_enc toy (5 ∷ []) (record t { received = r })) e

send_push_payload_example :
    Counts toy (5 ∷ []) (world accepting) (IsPush msgs (codes "f") (codes "d5") file) (
      send_push_payload toy msgs
        (codes "t")
        (5 ∷ [])
        (codes "/d/f")
        (codes "f")
        3
        (codes "d5")
        (world accepting))
unfolding text_eq
send_push_payload_example =
    send_push_payload_lem toy msgs (codes "t") (5 ∷ []) (codes "/d/f") (codes "f") (codes "d5") file
      [] (world accepting) (calm accepting) refl accepts

handle_server_conn_example :
    (e : TransferError) × (w' : World) × (handle_server_conn toy msgs json
        (λ path. none)
        (codes "/dl")
        (codes "t")
        laptop
        (codes "nonce")
        (world (1 ∷ 0 ∷ 0 ∷ 0 ∷ codes "L"))
      ≡ (err e, w'))
    × IsUnchanged (world (1 ∷ 0 ∷ 0 ∷ 0 ∷ codes "L")) w'
unfolding find_peer get_trusted_peers sort_by
handle_server_conn_example =
    handle_server_conn_lem toy msgs json (λ path. none) (codes "/dl") (codes "t") laptop
      (codes "nonce") (world (1 ∷ 0 ∷ 0 ∷ 0 ∷ codes "L")) (λ bytes s1 init h k. refl)
