-- ===== src/Network/Transfer/Send/Payload.antt =====
-- A file that is pushed goes over the wire whole.
use synapt.Prelude.{
  ℕ, zero, suc, ◌+◌, ◌<◌, ◌≡◌, refl, sym, ap, ◌∙◌, append-nil, some, List, [], ◌∷◌, ◌++◌, length,
  drop, is_empty, Text, Result, ok, err, ok_or, if◌then◌else◌, arith, length-append,
}
use mathlib.Core.Path.{subst}
use synapt.Network.Crypto.{Bytes, Primitives}
use synapt.Network.Queue.{in_progress}
use synapt.Network.Queue
use synapt.Network.Stream.{TcpStream, read_enc, write_enc, write_plain, write_all}
use synapt.Network.Transfer.{
  TransferError, io, json, World, Action, ◌>>=◌, ◌>>◌, give, progress, send, recv, read_chunk,
  MsgJson, push_start, push_accept,
}
use synapt.Network.Transfer.Delivery.{
  IsCalm, call-calm, bind-ok, IsSession, Sent, Sent-append, After, After-send,
}
use synapt.Network.Transfer.Serve.{open_file}
use synapt.Network.Transfer.Serve.Chunks.{
  IsChunk, after_read, IsCalm-after_read, read_chunk-calm, chunk-shorter, Sent-after_read,
  IsChunking,
}
use synapt.Network.Transfer.Send.{report, push_chunks, send_push_payload, accepted}

-- Sending leaves alone what was received.
send-received :
    (p : Primitives) (key m : Bytes) (w : World)
    → (send p key m w).1.stream.received ≡ w.stream.received
unfolding send write_enc write_plain write_all
send-received p key m w = ground arith

module _ (p : Primitives) (key : Bytes) where
  -- An action ends well with a number, having sent messages, or with an error of the session.
  abbrev pub Counts : World → (ℕ → List Bytes → Type 0) → Result ℕ TransferError × World → Type 0
  Counts w Q (ok n, w') = (ms : List Bytes) × Q n ms × Sent p key w w' ms
  Counts w Q (err e, w') = IsSession e

  Counts-send :
      (w : World) (m : Bytes) (Q : ℕ → List Bytes → Type 0) (next : Action ℕ)
      → IsCalm w
      → ((w' : World)
          → w'.stream.received ≡ w.stream.received
          → Sent p key w w' (m ∷ [])
          → Counts w' (λ n ms. Q n (m ∷ ms)) (next w'))
      → Counts w Q ((send p key m >> next) w)
  Counts-send w m Q next c k =
      go (send p key m w) (send-received p key m w) (After-send p key w m c)
    where
      into :
          (w' : World) (r : Result ℕ TransferError × World)
          → Sent p key w w' (m ∷ [])
          → Counts w' (λ n ms. Q n (m ∷ ms)) r
          → Counts w Q r
      into w' (ok n, w'') s (ms, q, s') = (m ∷ ms, q, Sent-append p key w w' w'' (m ∷ []) ms s s')
      into w' (err e, w'') s a = a

      go :
          (r : Result (Unit {0}) TransferError × World)
          → r.1.stream.received ≡ w.stream.received
          → After p key w (λ ms. ms ≡ m ∷ []) r
          → Counts w Q (elim r.0 as (λ x. Result ℕ TransferError × World) [
            | err e ↦ (err e, r.1)
            | ok a ↦ next r.1
          ])
      go (ok u, w') same (ms, e, s) =
          let s' = subst (λ (x : List Bytes). Sent p key w w' x) e s in
          into w' (next w') s' (k w' same s')
      go (err e, w') same a = a

  Counts-quiet :
      (w w' : World) (Q : ℕ → List Bytes → Type 0) (r : Result ℕ TransferError × World)
      → Sent p key w w' []
      → Counts w' Q r
      → Counts w Q r
  Counts-quiet w w' Q (ok n, w'') s (ms, q, s') = (ms, q, Sent-append p key w w' w'' [] ms s s')
  Counts-quiet w w' Q (err e, w'') s a = a

  Counts-imp :
      (w : World) (P Q : ℕ → List Bytes → Type 0) (r : Result ℕ TransferError × World)
      → ((n : ℕ) (ms : List Bytes) → P n ms → Q n ms)
      → Counts w P r
      → Counts w Q r
  Counts-imp w P Q (ok n, w') f (ms, q, s) = (ms, f n ms q, s)
  Counts-imp w P Q (err e, w') f a = a

  module _ (j : MsgJson) (transfer_id : Text) where
    -- The world once the progress of a push has been reported.
    abbrev reported : ℕ → World → World
    reported sent w = record w {
      queue = Queue.update w.queue transfer_id in_progress sent;
      emitted = w.emitted ++ progress transfer_id sent ∷ [];
    }

    Sent-reported : (sent : ℕ) (w : World) → IsCalm w → Sent p key w (reported sent w) []
    Sent-reported sent w c = record {
      calm = record { no_faults = c.no_faults; nonces_fit = c.nonces_fit };
      same_files = refl;
      same_db = refl;
      wire = [];
      appended = sym (append-nil w.stream.sent);
      delivered = refl;
    }

    -- The chunks of what is left, and how much is sent in the end.
    abbrev pub IsRest : Bytes → ℕ → ℕ → List Bytes → Type 0
    IsRest left sent n ms = IsChunking left ms × (n ≡ sent + length left)

    abbrev pushed_by : Bytes → ℕ → ℕ → Bytes → Action ℕ
    pushed_by left fuel sent chunk = if is_empty chunk then give (ok sent) else do
      send p key chunk
      report p j transfer_id (sent + length chunk)
      push_chunks p j transfer_id key fuel (drop (length chunk) left) (sent + length chunk)

    Counts-push_chunks :
        (fuel : ℕ) (left : Bytes) (sent : ℕ) (w : World)
        → IsCalm w
        → length left < fuel
        → Counts w (IsRest left sent) (push_chunks p j transfer_id key fuel left sent w)
    unfolding push_chunks
    Counts-push_chunks zero left sent w c l = absurd (omega (arith, l))
    Counts-push_chunks (suc fuel) left sent w c l =
        let (chunk, reads, is) = read_chunk-calm left w c in
        subst (λ r. Counts w (IsRest left sent) r)
          (sym (bind-ok (read_chunk left) (pushed_by left fuel sent) w chunk (after_read w) reads))
          (go (λ left' sent' w' c' l'. Counts-push_chunks fuel left' sent' w' c' l') chunk is)
      where
        go :
            ((left' : Bytes) (sent' : ℕ) (v : World)
              → IsCalm v
              → length left' < fuel
              → Counts v (IsRest left' sent') (push_chunks p j transfer_id key fuel left' sent' v))
            → (chunk : Bytes) → IsChunk left chunk
            → Counts w (IsRest left sent) (pushed_by left fuel sent chunk (after_read w))
        go ih [] is = (
          [],
          ((sym (is.ends refl), tt), omega (arith, ap (λ (x : Bytes). length x) (is.ends refl))),
          Sent-after_read p key w c,
        )
        go ih (b ∷ bs) is =
            let left' = drop (length (b ∷ bs)) left in
            let sent' = sent + length (b ∷ bs) in
            Counts-quiet w (after_read w) (IsRest left sent)
              (pushed_by left fuel sent (b ∷ bs) (after_read w)) (Sent-after_read p key w c)
              (Counts-send (after_read w) (b ∷ bs) (IsRest left sent)
                (report p j transfer_id sent' >> push_chunks p j transfer_id key fuel left' sent')
                (IsCalm-after_read w c)
                (λ w' same s.
                  Counts-quiet w' (reported sent' w') (λ n ms. IsRest left sent n ((b ∷ bs) ∷ ms))
                    (push_chunks p j transfer_id key fuel left' sent' (reported sent' w'))
                    (Sent-reported sent' w' s.calm)
                    (Counts-imp (reported sent' w') (IsRest left' sent')
                      (λ n ms. IsRest left sent n ((b ∷ bs) ∷ ms))
                      (push_chunks p j transfer_id key fuel left' sent' (reported sent' w'))
                      (λ n ms ((q, sizes), total). (
                        (
                          ap (λ (x : Bytes). (b ∷ bs) ++ x) q ∙ is.whole,
                          ((omega arith, is.fits), sizes),
                        ),
                        omega (
                          arith,
                          total,
                          length-append (b ∷ bs) left',
                          ap (λ (x : Bytes). length x) is.whole,
                        ),
                      ))
                      (ih left' sent' (reported sent' w') (Sent-reported sent' w' s.calm).calm
                        (omega (arith, chunk-shorter left b bs is))))))

-- A message that is there to be read is received, and nothing is sent.
Sent-recv :
    (p : Primitives) (key m rest : Bytes) (w : World)
    → IsCalm w
    → read_enc p key w.stream ≡ (ok m, record w.stream { received = rest })
    → (recv p key w ≡ (ok m, record w { stream = record w.stream { received = rest } }))
      × Sent p key w (record w { stream = record w.stream { received = rest } }) []
unfolding recv
Sent-recv p key m rest w c h = (
  ground (arith, h),
  record {
    calm = record { no_faults = c.no_faults; nonces_fit = c.nonces_fit };
    same_files = refl;
    same_db = refl;
    wire = [];
    appended = sym (append-nil w.stream.sent);
    delivered = refl;
  },
)

-- What is pushed of a file: the name and the digest given, its size, and then its bytes, all of
-- which are counted.
abbrev pub IsPush : MsgJson → Text → Text → Bytes → ℕ → List Bytes → Type 0
IsPush j filename checksum content n ms =
    (chunks : List Bytes) × IsChunking content chunks
    × (ms ≡ j.to_vec (push_start filename (length content) checksum) ∷ chunks)
    × (n ≡ length content)

module _ (p : Primitives) (j : MsgJson) (transfer_id : Text) (key : Bytes) where
  abbrev after_start : Bytes → Action ℕ
  after_start content = do
    bytes ← recv p key
    reply ← give (ok_or (j.from_slice bytes) json)
    give (accepted j reply)
    push_chunks p j transfer_id key (suc (length content)) content 0

  Counts-after_start :
      (content rest : Bytes) (w : World)
      → IsCalm w
      → read_enc p key w.stream ≡ (ok (j.to_vec push_accept), record w.stream { received = rest })
      → Counts p key w
          (λ n ms. IsChunking content ms × (n ≡ length content))
          (after_start content w)
  unfolding accepted
  Counts-after_start content rest w c h =
      let w' = record w { stream = record w.stream { received = rest } } in
      let (heard, s) = Sent-recv p key (j.to_vec push_accept) rest w c h in
      let chunks = push_chunks p j transfer_id key (suc (length content)) content 0 in
      let e : after_start content w ≡ chunks w' = ground (arith, heard, j.from-to push_accept) in
      subst (λ r. Counts p key w (λ n ms. IsChunking content ms × (n ≡ length content)) r) (sym e)
        (Counts-quiet p key w w' (λ n ms. IsChunking content ms × (n ≡ length content)) (chunks w')
          s
          (Counts-imp p key w' (IsRest p key j transfer_id content 0)
            (λ n ms. IsChunking content ms × (n ≡ length content)) (chunks w')
            (λ n ms (q, total). (q, omega (arith, total)))
            (Counts-push_chunks p key j transfer_id (suc (length content)) content 0 w' s.calm
              (omega arith))))

-- Where no call of the system fails and the peer accepts, a push sends the name and the digest that it
-- is given with the size of the file, and then all of the bytes of the file in chunks that are not
-- empty, and returns the size of the file; otherwise it ends with an error of the session.
pub send_push_payload_lem :
    (p : Primitives) (j : MsgJson) (transfer_id : Text) (key : Bytes)
    (path filename checksum : Text) (content rest : Bytes) (w : World)
    → IsCalm w
    → w.files path ≡ some content
    → ((t : TcpStream)
        → t.received ≡ w.stream.received
        → read_enc p key t ≡ (ok (j.to_vec push_accept), record t { received = rest }))
    → Counts p key w
        (IsPush j filename checksum content)
        (send_push_payload p j transfer_id key path filename (length content) checksum w)
unfolding send_push_payload open_file
send_push_payload_lem p j transfer_id key path filename checksum content rest w c f accepts =
    let start = j.to_vec (push_start filename (length content) checksum) in
    let e : send_push_payload p j transfer_id key path filename (length content) checksum w
        ≡ (send p key start >> after_start p j transfer_id key content) w =
      ground (arith, call-calm io w c, f) in
    subst (λ r. Counts p key w (IsPush j filename checksum content) r) (sym e)
      (Counts-send p key w start (IsPush j filename checksum content)
        (after_start p j transfer_id key content) c
        (λ w' same s.
          Counts-imp p key w' (λ n ms. IsChunking content ms × (n ≡ length content))
            (λ n ms. IsPush j filename checksum content n (start ∷ ms))
            (after_start p j transfer_id key content w') (λ n ms (q, total). (ms, q, refl, total))
            (Counts-after_start p j transfer_id key content rest w' s.calm
              (accepts w'.stream same))))
