-- ===== src/Network/Stream/Roundtrip.antt =====
-- What one side of a connection writes the other side reads.
use synapt.Prelude.{
  ℕ, ◌≡◌, refl, ap, ◌∙◌, ◌++◌, append_assoc, length, drop, length-append, take-append, drop-append,
  Result, ok, err, map_err, arith,
}
use synapt.Network.Crypto.{Bytes, Primitives, CryptoError, write_frame, encrypt}
use synapt.Network.Crypto.Frames.{frame_parts, decrypt-encrypt}
use synapt.Network.Stream.{
  TcpStream, crypto, lift, write_all, read_exact, write_plain, read_plain, check_len, write_enc,
  read_enc, ◌>>=◌,
}

pub read_exact-append :
    (n : ℕ) (xs ys : Bytes) (s : TcpStream)
    → length xs ≡ n
    → s.received ≡ xs ++ ys
    → read_exact n s ≡ (ok xs, record s { received = ys })
unfolding read_exact
read_exact-append n xs ys s l r =
    rw (r, ← l) (ground (arith, length-append xs ys, take-append xs ys, drop-append xs ys))

-- A frame that is first among the received bytes is read whole, and what follows it is left.
pub read_plain-frame :
    (payload frame rest : Bytes) (s : TcpStream)
    → write_frame payload ≡ ok frame
    → s.received ≡ frame ++ rest
    → read_plain s ≡ (ok payload, record s { received = rest })
unfolding read_plain check_len
read_plain-frame payload frame rest s w r =
    let (small, head, e, l, n) = frame_parts payload frame w in
    let first : read_exact 4 s ≡ (ok head, record s { received = payload ++ rest }) =
      read_exact-append 4 head (payload ++ rest) s l
        (r ∙ ap (λ (x : Bytes). x ++ rest) e ∙ append_assoc head payload rest) in
    let second : read_exact (length payload) (record s { received = payload ++ rest })
        ≡ (ok payload, record s { received = rest }) =
      read_exact-append (length payload) payload rest (record s { received = payload ++ rest }) refl
        refl in
    ground (arith, first, second, n)

-- A successful write appends one frame to what was sent.
pub write_plain_ok :
    (bytes : Bytes) (s s' : TcpStream)
    → write_plain bytes s ≡ (ok tt, s')
    → (frame : Bytes) × (write_frame bytes ≡ ok frame)
      × (s'.sent ≡ s.sent ++ frame)
      × (s'.received ≡ s.received)
unfolding write_plain write_all
write_plain_ok bytes s s' h = go (write_frame bytes) refl h
  where
    go :
        (o : Result Bytes CryptoError)
        → write_frame bytes ≡ o
        → (lift (map_err crypto o) >>= write_all) s ≡ (ok tt, s')
        → (frame : Bytes) × (write_frame bytes ≡ ok frame)
          × (s'.sent ≡ s.sent ++ frame)
          × (s'.received ≡ s.received)
    go (ok frame) e k = (frame, e, ground arith, ground arith)
    go (err x) e k = cc

module _ (p : Primitives) where
  write_enc_ok :
      (nonce key plaintext : Bytes) (s s' : TcpStream)
      → write_enc p nonce key plaintext s ≡ (ok tt, s')
      → (sealed : Bytes) × (encrypt p nonce key plaintext ≡ ok sealed)
        × (write_plain sealed s ≡ (ok tt, s'))
  unfolding write_enc
  write_enc_ok nonce key plaintext s s' h = go (encrypt p nonce key plaintext) refl h
    where
      go :
          (o : Result Bytes CryptoError)
          → encrypt p nonce key plaintext ≡ o
          → (lift (map_err crypto o) >>= write_plain) s ≡ (ok tt, s')
          → (sealed : Bytes) × (encrypt p nonce key plaintext ≡ ok sealed)
            × (write_plain sealed s ≡ (ok tt, s'))
      go (ok sealed) e k = (sealed, e, k)
      go (err x) e k = cc

  read_enc-frame :
      (nonce key plaintext sealed frame rest : Bytes) (t : TcpStream)
      → length nonce ≡ 12
      → encrypt p nonce key plaintext ≡ ok sealed
      → write_frame sealed ≡ ok frame
      → t.received ≡ frame ++ rest
      → read_enc p key t ≡ (ok plaintext, record t { received = rest })
  unfolding read_enc
  read_enc-frame nonce key plaintext sealed frame rest t l e w r = ground (
    arith,
    read_plain-frame sealed frame rest t w r,
    decrypt-encrypt p nonce key plaintext sealed l e,
  )

  -- A message that is written under a session key adds bytes to the wire from which the other side,
  -- with the same key, reads that message, whatever comes behind it.
  pub read_enc-write_enc :
      (nonce key plaintext rest : Bytes) (s s' t : TcpStream)
      → length nonce ≡ 12
      → write_enc p nonce key plaintext s ≡ (ok tt, s')
      → t.received ≡ drop (length s.sent) s'.sent ++ rest
      → read_enc p key t ≡ (ok plaintext, record t { received = rest })
  read_enc-write_enc nonce key plaintext rest s s' t l h r =
      let (sealed, e, w) = write_enc_ok nonce key plaintext s s' h in
      let (frame, f, sent, same) = write_plain_ok sealed s s' w in
      read_enc-frame nonce key plaintext sealed frame rest t l e f (
        r
        ∙ ap (λ (x : Bytes). drop (length s.sent) x ++ rest) sent
        ∙ ap (λ (x : Bytes). x ++ rest) (drop-append s.sent frame))

  -- The same, by the frame that is written.
  pub write_enc_appends :
      (nonce key plaintext : Bytes) (s s' : TcpStream)
      → length nonce ≡ 12
      → write_enc p nonce key plaintext s ≡ (ok tt, s')
      → (frame : Bytes) × (s'.sent ≡ s.sent ++ frame)
        × ((t : TcpStream) (behind : Bytes)
            → t.received ≡ frame ++ behind
            → read_enc p key t ≡ (ok plaintext, record t { received = behind }))
  write_enc_appends nonce key plaintext s s' l h =
      let (sealed, e, w) = write_enc_ok nonce key plaintext s s' h in
      let (frame, f, sent, same) = write_plain_ok sealed s s' w in
      (frame, sent, λ t behind r. read_enc-frame nonce key plaintext sealed frame behind t l e f r)
