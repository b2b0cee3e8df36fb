-- ===== src/Network/Transfer/Push/Examples.antt =====
-- A push with a name that points outside.
use synapt.Prelude.{◌≡◌, refl, some, none, [], ◌∷◌, ◌++◌, Text, codes, text_eq, false}
use synapt.Network.Crypto.Examples.{toy}
use synapt.Network.Transfer.{file_name, join, with_separator}
use synapt.Network.Transfer.Examples.{msgs, world, home}
use synapt.Network.Transfer.Push.{recv_pushed_file}
use synapt.Network.Transfer.Push.Names.{IsPlain}
use synapt.Network.Transfer.Push.Place.{peer_dir, recv_pushed_file_lem}

last_component : file_name (codes "../up//f/.") ≡ some (codes "f")
unfolding file_name text_eq
last_component = refl

two_dots : file_name (codes "a/..") ≡ none
unfolding file_name text_eq
two_dots = refl

absolute : join (codes "/d") (codes "/e") ≡ codes "/e"
unfolding join
absolute = refl

recv_pushed_file_example :
    (name : Text) × IsPlain name
    × ((q : Text)
        → text_eq
            (with_separator (peer_dir toy msgs (5 ∷ []) (codes "t") (codes "D") (codes "/dl") home)
              ++ name)
            q
          ≡ false
        → (recv_pushed_file toy msgs
              (5 ∷ [])
              (codes "t")
              (codes "D")
              (codes "/dl")
              (codes "../../home/f")
              3
              (codes "d5")
              (world [])).1.files
            q
          ≡ (world []).files q)
recv_pushed_file_example =
    recv_pushed_file_lem toy msgs (5 ∷ []) (codes "t") (codes "D") (codes "/dl")
      (codes "../../home/f") 3 (codes "d5") (world [])
