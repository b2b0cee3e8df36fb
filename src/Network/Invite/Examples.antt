-- ===== src/Network/Invite/Examples.antt =====
-- Tests of manual_pair.rs, and its theorems at concrete codes.
use synapt.Prelude.{ℕ, ◌^◌, ◌<◌, ◌≡◌, refl, none, some, codes, arith}
use synapt.Network.Invite.{pairing_port, encode_invite, clean, decode_invite}
use synapt.Network.Invite.Roundtrip.{Mangled, done, put_in, left_out, kept, decode-encode}
use synapt.Network.Invite.Soundness.{encode-decode}

-- 192.168.1.42
abbrev address : ℕ
address = 0xc0a8012a

encoded : encode_invite address pairing_port ≡ codes "DGQG3-VL7C37"
unfolding encode_invite
encoded = refl

-- `decode_rejects_wrong_length`, and a code for another port
rejected :
    (decode_invite (codes "ACDEF") ≡ none) × (decode_invite (encode_invite address 1234) ≡ none)
unfolding decode_invite encode_invite
rejected = (refl, refl)

-- With a space in front, two letters in lower case and no dash.
mangled : Mangled (encode_invite address pairing_port) (codes " dgqg3VL7C37")
unfolding encode_invite
mangled = put_in 32 refl (
    kept b'D' b'd' refl refl (
      kept b'G' b'g' refl refl (
        kept b'Q' b'q' refl refl (
          kept b'G' b'g' refl refl (
            kept b'3' b'3' refl refl (
              left_out b'-' refl (
                kept b'V' b'V' refl refl (
                  kept b'L' b'L' refl refl (
                    kept b'7' b'7' refl refl (
                      kept b'C' b'C' refl refl
                        (kept b'3' b'3' refl refl (kept b'7' b'7' refl refl done))))))))))))

decode-encode_example : decode_invite (codes " dgqg3VL7C37") ≡ some (address, pairing_port)
decode-encode_example = decode-encode address (codes " dgqg3VL7C37") (omega arith) mangled

decoded : decode_invite (codes "dgqg3vl7c37") ≡ some (address, pairing_port)
unfolding decode_invite
decoded = refl

encode-decode_example :
    (pairing_port ≡ pairing_port)
    × (address < 2 ^ 32)
    × (clean (codes "dgqg3vl7c37") ≡ clean (encode_invite address pairing_port))
encode-decode_example = encode-decode (codes "dgqg3vl7c37") address pairing_port decoded
