-- ===== src/Network/Transfer/Serve/Chunks.antt =====
-- Reading an open file by chunks, to its end.
use synapt.Prelude.{
  ℕ, zero, suc, ◌≤◌, ◌<◌, min, ◌≡◌, refl, sym, ap, ◌∙◌, true, some, List, [], ◌∷◌, ◌++◌, append-nil,
  length, take, drop, is_empty, All, length-take, length-append, Text, ok, if◌then◌else◌, arith,
}
use mathlib.Core.Path.{subst}
use synapt.Network.Crypto.{Bytes, Primitives}
use synapt.Network.Transfer.{
  io, World, Action, ◌>>=◌, ◌>>◌, give, gets, call, read_chunk, chunk_size, MsgJson, send,
}
use synapt.Network.Transfer.Delivery.{
  IsCalm, call-calm, bind-ok, Sent, Sent-append, After, After-bind, After-quiet, After-imp,
  After-send,
}
use synapt.Network.Transfer.Serve.{open_file, hash_chunks, sha256_of_file, send_chunks}
use synapt.Trust.{lower_hex}

-- What one read gives of what is left: a chunk of it, empty only at the end.
pub record IsChunk (left chunk : Bytes) : Type 0 where
  pub whole : chunk ++ drop (length chunk) left ≡ left
  pub ends : is_empty chunk ≡ true → left ≡ []
  pub fits : length chunk ≤ chunk_size

drop-length-take : (n : ℕ) (xs : Bytes) → take n xs ++ drop (length (take n xs)) xs ≡ xs
drop-length-take zero xs = refl
drop-length-take (suc n) [] = refl
drop-length-take (suc n) (x ∷ xs) = ap (λ (l : Bytes). x ∷ l) (drop-length-take n xs)

take-ends : (n : ℕ) (xs : Bytes) → 0 < n → is_empty (take n xs) ≡ true → xs ≡ []
take-ends zero xs l h = absurd (omega arith)
take-ends (suc n) [] l h = refl
take-ends (suc n) (x ∷ xs) l h = cc

abbrev pub after_read : World → World
after_read w = record w { short_reads = λ n. w.short_reads (suc n) }

pub IsCalm-after_read : (w : World) → IsCalm w → IsCalm (after_read w)
IsCalm-after_read w c = record { no_faults = c.no_faults; nonces_fit = c.nonces_fit }

pub read_chunk-calm :
    (left : Bytes) (w : World)
    → IsCalm w
    → (chunk : Bytes) × (read_chunk left w ≡ (ok chunk, after_read w)) × IsChunk left chunk
unfolding read_chunk
read_chunk-calm left w c =
    let k = min chunk_size (suc (w.short_reads 0)) in
    let one : 0 < k = omega arith in
    (
      take k left,
      bind-ok (call io) (λ _. gets (λ _. take k left)) (after_read w) tt (after_read w)
          (call-calm io (after_read w) (IsCalm-after_read w c)),
      record {
        whole = drop-length-take k left;
        ends = take-ends k left one;
        fits = omega (arith, length-take k left);
      },
    )

pub chunk-shorter :
    (left : Bytes) (b : ℕ) (bs : Bytes)
    → IsChunk left (b ∷ bs)
    → length (drop (length (b ∷ bs)) left) < length left
chunk-shorter left b bs c = omega (
  arith,
  length-append (b ∷ bs) (drop (length (b ∷ bs)) left),
  ap (λ (x : Bytes). length x) c.whole,
)

pub Sent-after_read :
    (p : Primitives) (key : Bytes) (w : World) → IsCalm w → Sent p key w (after_read w) []
Sent-after_read p key w c = record {
  calm = IsCalm-after_read w c;
  same_files = refl;
  same_db = refl;
  wire = [];
  appended = sym (append-nil w.stream.sent);
  delivered = refl;
}

-- The rest of a round of `hash_chunks`.
abbrev fed_by : Bytes → ℕ → Bytes → Action Bytes
fed_by left fuel chunk =
    if is_empty chunk
    then give (ok [])
    else do fed ← hash_chunks fuel (drop (length chunk) left); give (ok (chunk ++ fed))

-- The hasher is fed the whole file.
pub hash_chunks-all :
    (p : Primitives) (key : Bytes) (fuel : ℕ) (left : Bytes) (w : World)
    → IsCalm w
    → length left < fuel
    → (w' : World) × (hash_chunks fuel left w ≡ (ok left, w')) × Sent p key w w' []
unfolding hash_chunks
hash_chunks-all p key zero left w c l = absurd (omega arith)
hash_chunks-all p key (suc fuel) left w c l =
    let (chunk, reads, is) = read_chunk-calm left w c in
    go (λ left' w' c' l'. hash_chunks-all p key fuel left' w' c' l') chunk reads is
  where
    go :
        ((left' : Bytes) (v : World)
          → IsCalm v
          → length left' < fuel
          → (w' : World) × (hash_chunks fuel left' v ≡ (ok left', w')) × Sent p key v w' [])
        → (chunk : Bytes) → read_chunk left w ≡ (ok chunk, after_read w)
        → IsChunk left chunk
        → (w' : World) × (hash_chunks (suc fuel) left w ≡ (ok left, w')) × Sent p key w w' []
    go ih [] reads is = (
      after_read w,
      bind-ok (read_chunk left) (fed_by left fuel) w [] (after_read w) reads
          ∙ ap (λ (x : Bytes). (ok x, after_read w)) (sym (is.ends refl)),
      Sent-after_read p key w c,
    )
    go ih (b ∷ bs) reads is =
        let left' = drop (length (b ∷ bs)) left in
        let (w', fed, s) =
          ih left' (after_read w) (IsCalm-after_read w c)
            (omega (arith, chunk-shorter left b bs is)) in
        (
          w',
          bind-ok (read_chunk left) (fed_by left fuel) w (b ∷ bs) (after_read w) reads
              ∙ bind-ok (hash_chunks fuel left') (λ x. give (ok (b ∷ bs ++ x))) (after_read w) left'
                  w' fed
              ∙ ap (λ (x : Bytes). (ok x, w')) is.whole,
          Sent-append p key w (after_read w) w' [] [] (Sent-after_read p key w c) s,
        )

pub sha256_of_file-calm :
    (p : Primitives) (key : Bytes) (path : Text) (content : Bytes) (w : World)
    → IsCalm w
    → w.files path ≡ some content
    → (w' : World) × (sha256_of_file p path w ≡ (ok (lower_hex (p.sha256 content)), w'))
      × Sent p key w w' []
unfolding sha256_of_file open_file
sha256_of_file-calm p key path content w c f =
    let (w', fed, s) = hash_chunks-all p key (suc (length content)) content w c (omega arith) in
    (w', ground (arith, call-calm io w c, f, fed), s)

-- Chunks of a file: together its bytes, each of them with something in it and not too long.
abbrev pub concat : List Bytes → Bytes
concat [] = []
concat (c ∷ chunks) = c ++ concat chunks

abbrev pub IsChunking : Bytes → List Bytes → Type 0
IsChunking left chunks =
    (concat chunks ≡ left) × All (λ (c : Bytes). (0 < length c) × (length c ≤ chunk_size)) chunks

module _ (p : Primitives) (j : MsgJson) (key : Bytes) where
  abbrev sent_by : Bytes → ℕ → Bytes → Action (Unit {0})
  sent_by left fuel chunk =
      if is_empty chunk
      then give (ok tt)
      else do send p key chunk; send_chunks p j key fuel (drop (length chunk) left)

  -- The loop over the chunks sends all that is left, in chunks, unless the session fails.
  pub After-send_chunks :
      (fuel : ℕ) (left : Bytes) (w : World)
      → IsCalm w
      → length left < fuel
      → After p key w (IsChunking left) (send_chunks p j key fuel left w)
  unfolding send_chunks
  After-send_chunks zero left w c l = absurd (omega arith)
  After-send_chunks (suc fuel) left w c l =
      let (chunk, reads, is) = read_chunk-calm left w c in
      subst (λ r. After p key w (IsChunking left) r)
        (sym (bind-ok (read_chunk left) (sent_by left fuel) w chunk (after_read w) reads))
        (go (λ left' w' c' l'. After-send_chunks fuel left' w' c' l') chunk is)
    where
      go :
          ((left' : Bytes) (v : World)
            → IsCalm v
            → length left' < fuel
            → After p key v (IsChunking left') (send_chunks p j key fuel left' v))
          → (chunk : Bytes) → IsChunk left chunk
          → After p key w (IsChunking left) (sent_by left fuel chunk (after_read w))
      go ih [] is = ([], (sym (is.ends refl), tt), Sent-after_read p key w c)
      go ih (b ∷ bs) is =
          let left' = drop (length (b ∷ bs)) left in
          After-quiet p key w (after_read w) (IsChunking left)
            (sent_by left fuel (b ∷ bs) (after_read w)) (Sent-after_read p key w c)
            (After-bind p key (after_read w) (λ ms. ms ≡ (b ∷ bs) ∷ []) (IsChunking left)
              (send p key (b ∷ bs)) (send_chunks p j key fuel left')
              (After-send p key (after_read w) (b ∷ bs) (IsCalm-after_read w c))
              (λ w' ms e s.
                subst
                  (λ ms.
                    After p key w' (λ ms'. IsChunking left (ms ++ ms'))
                      (send_chunks p j key fuel left' w'))
                  (sym e)
                  (After-imp p key w' (IsChunking left') (λ ms'. IsChunking left ((b ∷ bs) ∷ ms'))
                    (send_chunks p j key fuel left' w')
                    (λ ms' (q, sizes). (
                      ap (λ (x : Bytes). (b ∷ bs) ++ x) q ∙ is.whole,
                      ((omega arith, is.fits), sizes),
                    ))
                    (ih left' w' s.calm (omega (arith, chunk-shorter left b bs is))))))
