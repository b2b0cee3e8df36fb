-- ===== src/Network/Transfer/Request/Receive.antt =====
-- What the loop over the chunks that come makes of them.
use synapt.Prelude.{
  ℕ, zero, suc, ◌+◌, ◌-◌, ◌≤◌, ◌<◌, ◌≡◌, refl, sym, ap, ap₂, ◌∙◌, true, Option, none, some, List,
  [], ◌∷◌, ◌++◌, append-nil, append_assoc, length, drop, is_empty, All, take-length, length-append,
  ltb, lt→ltb, Text, text_eq, text_eq_refl, codes, ℤ, ok, if◌then◌else◌, arith,
}
use synapt.Network.Crypto.{Bytes, Primitives}
use synapt.Network.Queue.{in_progress}
use synapt.Network.Queue
use synapt.Network.Stream.{TcpStream, read_enc}
use synapt.Network.Transfer.{
  io, db, World, Action, ◌>>=◌, ◌>>◌, give, recv, chunk_size, progress, MsgJson,
}
use synapt.Network.Transfer.Delivery.{IsCalm, call-calm, bind-ok, Delivers}
use synapt.Network.Transfer.Serve.Chunks.{concat}
use synapt.Network.Transfer.Request.{zeros, write_at, write_file, receive_one, receive_chunks}
use synapt.Storage.Rows.{Db, TransferHistoryRow}
use synapt.Storage.History.Laws.{find_transfer, find-update_transfer_status}
use synapt.Storage.History.{with_progress, update_transfer_status}

drop_past : (n : ℕ) (xs : Bytes) → length xs ≤ n → drop n xs ≡ []
drop_past zero [] h = refl
drop_past zero (x ∷ xs) h = absurd (omega arith)
drop_past (suc n) [] h = refl
drop_past (suc n) (x ∷ xs) h = drop_past n xs (omega arith)

-- A write at the end appends.
write_at-end : (content chunk : Bytes) → write_at (length content) chunk content ≡ content ++ chunk
unfolding write_at
write_at-end content chunk =
    let n = length content in
    let none_left : n - n ≡ 0 = omega arith in
    ap₂ (λ (a b : Bytes). a ++ b)
      (ap₂ (λ (a b : Bytes). a ++ b) (take-length content n (omega arith))
          (ap (λ (k : ℕ). zeros k) none_left)
        ∙ append-nil content)
      (ap (λ (a : Bytes). chunk ++ a) (drop_past (n + length chunk) content (omega arith))
        ∙ append-nil chunk)

-- The database has a row for the transfer.
abbrev pub IsHeld : Db → ℕ → Type 0
IsHeld base id = (row : ℕ × TransferHistoryRow) × (find_transfer base id ≡ some row)

pub IsHeld-update :
    (base : Db) (id n : ℕ) (status : Text) (time : Option ℤ)
    → IsHeld base id
    → IsHeld (update_transfer_status base id n status time) id
IsHeld-update base id n status time (row, e) = (
  with_progress n status time row,
  (find-update_transfer_status base id id n status time).0 ∙ ground (arith, e),
)

module _ (p : Primitives) (j : MsgJson) (key : Bytes) (transfer_id : Text) (id : ℕ) where
  abbrev after_one : Text → Bytes → Bytes → World → World
  after_one path content chunk w =
      let n = length content + length chunk in
      record w {
        files = λ q. if text_eq path q then some (content ++ chunk) else w.files q;
        db = update_transfer_status w.db id n (codes "in_progress") none;
        queue = Queue.update w.queue transfer_id in_progress n;
        emitted = w.emitted ++ progress transfer_id n ∷ [];
      }

  receive_one-calm :
      (path : Text) (content chunk : Bytes) (w : World)
      → IsCalm w
      → w.files path ≡ some content
      → receive_one p j key transfer_id id path (length content) chunk w
        ≡ (ok tt, after_one path content chunk w)
  unfolding receive_one write_file
  receive_one-calm path content chunk w c f =
      let v = record w {
        files = λ q. if text_eq path q then some (content ++ chunk) else w.files q;
      } in
      let cv : IsCalm v = record { no_faults = c.no_faults; nonces_fit = c.nonces_fit } in
      ground (arith, call-calm io w c, f, write_at-end content chunk, call-calm db v cv)

  -- The file at the path is whole, and the next message waits.
  pub record Received (w' : World) (path : Text) (content behind : Bytes) : Type 0 where
    pub calm : IsCalm w'
    pub written_file : w'.files path ≡ some content
    pub waiting : w'.stream.received ≡ behind
    pub held : IsHeld w'.db id

  abbrev round : ℕ → Text → ℕ → ℕ → Bytes → Action ℕ
  round fuel path size n chunk = if is_empty chunk then give (ok n) else do
    receive_one p j key transfer_id id path n chunk
    receive_chunks p j key transfer_id id fuel path size (n + length chunk)

  abbrev pub after_recv : World → Bytes → World
  after_recv w rest = record w { stream = record (w.stream) { received = rest } }

  pub recv-delivered :
      (chunk frame rest : Bytes) (w : World)
      → ((t : TcpStream) (behind : Bytes)
          → t.received ≡ frame ++ behind
          → read_enc p key t ≡ (ok chunk, record t { received = behind }))
      → w.stream.received ≡ frame ++ rest
      → recv p key w ≡ (ok chunk, after_recv w rest)
  unfolding recv
  recv-delivered chunk frame rest w reads r = ground (arith, reads w.stream rest r)

  receive_chunks-more :
      (fuel size : ℕ) (path : Text) (n : ℕ) (w : World)
      → ltb n size ≡ true
      → receive_chunks p j key transfer_id id (suc fuel) path size n w
        ≡ (recv p key >>= round fuel path size n) w
  unfolding receive_chunks
  receive_chunks-more fuel size path n w e = rw e refl

  -- Chunks that are delivered end up behind what the file holds, and the count is the size.
  pub receive_chunks-delivered :
      (fuel size : ℕ) (path : Text) (content : Bytes) (chunks : List Bytes) (bytes behind : Bytes)
      (w : World)
      → IsCalm w
      → IsHeld w.db id
      → w.files path ≡ some content
      → Delivers p key chunks bytes
      → w.stream.received ≡ bytes ++ behind
      → All (λ (c : Bytes). (0 < length c) × (length c ≤ chunk_size)) chunks
      → length content + length (concat chunks) ≡ size
      → size - length content ≤ fuel
      → (w' : World) × (receive_chunks p j key transfer_id id fuel path size (length content) w
          ≡ (ok size, w'))
        × Received w' path (content ++ concat chunks) behind
  unfolding receive_chunks
  receive_chunks-delivered zero size path content [] bytes behind w c h f d r a n l = (
    w,
    ap (λ (k : ℕ). (ok k, w)) (omega arith),
    record {
      calm = c;
      written_file = f ∙ ap (λ (x : Bytes). some x) (sym (append-nil content));
      waiting = r ∙ ap (λ (x : Bytes). x ++ behind) d;
      held = h;
    },
  )
  receive_chunks-delivered (suc fuel) size path content [] bytes behind w c h f d r a n l = (
    w,
    ground arith,
    record {
      calm = c;
      written_file = f ∙ ap (λ (x : Bytes). some x) (sym (append-nil content));
      waiting = r ∙ ap (λ (x : Bytes). x ++ behind) d;
      held = h;
    },
  )
  receive_chunks-delivered zero size path content (m ∷ ms) bytes behind w c h f d r a n l =
      absurd (omega (arith, a.0.0, length-append m (concat ms)))
  receive_chunks-delivered (suc fuel) size path content ([] ∷ ms) bytes behind w c h f d r a n l =
      absurd (omega (arith, a.0.0))
  receive_chunks-delivered (suc fuel) size path content ((b ∷ bs) ∷ ms) bytes behind w c h f
        (frame, rest, e, reads, d) r a n l =
      let chunk = b ∷ bs in
      let got =
        recv-delivered chunk frame (rest ++ behind) w reads
          (r ∙ ap (λ (x : Bytes). x ++ behind) e ∙ append_assoc frame rest behind) in
      let w1 = after_recv w (rest ++ behind) in
      let c1 : IsCalm w1 = record { no_faults = c.no_faults; nonces_fit = c.nonces_fit } in
      let w2 = after_one path content chunk w1 in
      let c2 : IsCalm w2 = record { no_faults = c.no_faults; nonces_fit = c.nonces_fit } in
      let longer : length (content ++ chunk) ≡ length content + length chunk =
        length-append content chunk in
      let (w', rest_of, is) =
        receive_chunks-delivered fuel size path (content ++ chunk) ms rest behind w2 c2
          (IsHeld-update w.db id (length content + length chunk) (codes "in_progress") none h)
          (rw (text_eq_refl path) refl) d refl a.1
          (omega (arith, longer, length-append chunk (concat ms))) (omega (arith, longer)) in
      let more : length content < size = omega (arith, length-append chunk (concat ms)) in
      (
        w',
        receive_chunks-more fuel size path (length content) w (lt→ltb (length content) size more)
            ∙ bind-ok (recv p key) (round fuel path size (length content)) w chunk w1 got
            ∙ bind-ok (receive_one p j key transfer_id id path (length content) chunk)
                (λ _.
                  receive_chunks p j key transfer_id id fuel path size
                    (length content + length chunk))
                w1 tt w2 (receive_one-calm path content chunk w1 c1 f)
            ∙ ap (λ (k : ℕ). receive_chunks p j key transfer_id id fuel path size k w2) (sym longer)
            ∙ rest_of,
        record {
          calm = is.calm;
          written_file =
              is.written_file ∙ ap (λ (x : Bytes). some x) (append_assoc content chunk (concat ms));
          waiting = is.waiting;
          held = is.held;
        },
      )
