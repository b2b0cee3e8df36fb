-- ===== src/Network/Pairing/Messages.antt =====
-- The frames of the pairing messages.
use synapt.Prelude.{◌-◌, ◌%◌, ◌^◌, ◌≤◌, ◌≡◌, refl, ap, ◌∙◌, append_assoc, ◌++◌, length, ok, arith}
use synapt.Network.Crypto.{Bytes, Primitives, write_frame, to_le_bytes}
use synapt.Network.Crypto.Frames.{frame_parts}
use synapt.Network.Stream.{write_all, read_exact}
use synapt.Network.Stream.Roundtrip.{read_exact-append}
use synapt.Network.Pairing.{PairMsg, Formats, Ceremony, send_msg, recv_msg, check_len, max_pair_msg}

-- The bytes of a message on the wire.
abbrev pub frame_of : Formats → PairMsg → Bytes
frame_of j m = to_le_bytes (length (j.to_vec m) % 2 ^ 32) ++ j.to_vec m

abbrev pub IsSmall : Formats → PairMsg → Type 0
IsSmall j m = length (j.to_vec m) ≤ max_pair_msg

module _ (p : Primitives) (j : Formats) where
  framed : (m : PairMsg) → IsSmall j m → write_frame (j.to_vec m) ≡ ok (frame_of j m)
  unfolding write_frame
  framed m small = ground (arith)

  pub sends :
      (m : PairMsg) (c : Ceremony)
      → IsSmall j m
      → length (frame_of j m) ≤ c.stream.room
      → send_msg p j m c ≡ (
        ok tt,
        record c {
          stream = record c.stream {
            sent = c.stream.sent ++ frame_of j m;
            room = c.stream.room - length (frame_of j m);
          };
        },
      )
  unfolding send_msg write_all
  sends m c small room = ground (arith, framed m small)

  pub receives :
      (m : PairMsg) (rest : Bytes) (c : Ceremony)
      → IsSmall j m
      → c.stream.received ≡ frame_of j m ++ rest
      → recv_msg p j c ≡ (ok m, record c { stream = record c.stream { received = rest } })
  unfolding recv_msg check_len
  receives m rest c small r =
      let (fits, head, e, l, n) = frame_parts (j.to_vec m) (frame_of j m) (framed m small) in
      let first : read_exact 4 c.stream
          ≡ (ok head, record c.stream { received = j.to_vec m ++ rest }) =
        read_exact-append 4 head (j.to_vec m ++ rest) c.stream l
          (r ∙ ap (λ (x : Bytes). x ++ rest) e ∙ append_assoc head (j.to_vec m) rest) in
      let second : read_exact (length (j.to_vec m))
            (record c.stream { received = j.to_vec m ++ rest })
          ≡ (ok (j.to_vec m), record c.stream { received = rest }) =
        read_exact-append (length (j.to_vec m)) (j.to_vec m) rest
          (record c.stream { received = j.to_vec m ++ rest }) refl refl in
      ground (arith, first, second, n, j.from_slice-to_vec m)
