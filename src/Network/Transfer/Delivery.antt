-- ===== src/Network/Transfer/Delivery.antt =====
-- What the actions of a transfer put on the wire, in messages that the other side reads.
use synapt.Prelude.{
  ℕ, suc, ◌≡◌, refl, sym, ap, ◌∙◌, List, [], ◌∷◌, ◌++◌, append_assoc, append-nil, length, Result,
  ok, err, map_err, arith,
}
use synapt.Network.Crypto.{Bytes, Primitives}
use synapt.Network.Stream.{TcpStream, SessionError, write_enc, read_enc}
use synapt.Network.Stream.Roundtrip.{write_enc_appends}
use synapt.Network.Transfer.{TransferError, session, World, Action, ◌>>=◌, ◌>>◌, call, send}

-- A world in which no call of the system fails.
pub record IsCalm (w : World) : Type 0 where
  pub no_faults : w.faults ≡ []
  pub nonces_fit : (n : ℕ) → length (w.nonces n) ≡ 12

pub call-calm : (e : TransferError) (w : World) → IsCalm w → call e w ≡ (ok tt, w)
unfolding call
call-calm e w c = rw c.no_faults refl

-- The rest of an action runs from where its first step ends well.
pub bind-ok :
    {A B : Type 0} (first : Action A) (next : A → Action B) (w : World) (a : A) (w' : World)
    → first w ≡ (ok a, w')
    → (first >>= next) w ≡ next a w'
bind-ok first next w a w' h = ground (arith, h)

abbrev pub IsSession : TransferError → Type 0
IsSession (session e) = Unit
IsSession _ = ⊥

module _ (p : Primitives) (key : Bytes) where
  -- The bytes are those messages sealed one after the other: whoever has the key reads the first,
  -- and finds the others behind it.
  abbrev pub Delivers : List Bytes → Bytes → Type 0
  Delivers [] bytes = bytes ≡ []
  Delivers (m ∷ ms) bytes =
      (frame : Bytes) × (rest : Bytes) × (bytes ≡ frame ++ rest)
      × ((t : TcpStream) (behind : Bytes)
          → t.received ≡ frame ++ behind
          → read_enc p key t ≡ (ok m, record t { received = behind }))
      × Delivers ms rest

  -- From the first world to the second, exactly these messages were sent.
  pub record Sent (w w' : World) (ms : List Bytes) : Type 0 where
    pub calm : IsCalm w'
    pub same_files : w'.files ≡ w.files
    pub same_db : w'.db ≡ w.db
    pub wire : Bytes
    pub appended : w'.stream.sent ≡ w.stream.sent ++ wire
    pub delivered : Delivers ms wire

  Delivers-append :
      (ms ms' : List Bytes) (bytes bytes' : Bytes)
      → Delivers ms bytes
      → Delivers ms' bytes'
      → Delivers (ms ++ ms') (bytes ++ bytes')
  Delivers-append [] ms' bytes bytes' d d' = rw d d'
  Delivers-append (m ∷ ms) ms' bytes bytes' (frame, rest, e, reads, d) d' = (
    frame,
    rest ++ bytes',
    ap (λ (x : Bytes). x ++ bytes') e ∙ append_assoc frame rest bytes',
    reads,
    Delivers-append ms ms' rest bytes' d d',
  )

  pub Delivers-split :
      (ms ms' : List Bytes) (bytes : Bytes)
      → Delivers (ms ++ ms') bytes
      → (first : Bytes) × (second : Bytes) × (bytes ≡ first ++ second)
        × Delivers ms first
        × Delivers ms' second
  Delivers-split [] ms' bytes d = ([], bytes, refl, refl, d)
  Delivers-split (m ∷ ms) ms' bytes (frame, rest, e, reads, d) =
      let (first, second, e', d1, d2) = Delivers-split ms ms' rest d in
      (
        frame ++ first,
        second,
        e ∙ ap (λ (x : Bytes). frame ++ x) e' ∙ sym (append_assoc frame first second),
        (frame, first, refl, reads, d1),
        d2,
      )

  pub Sent-none : (w : World) → IsCalm w → Sent w w []
  Sent-none w c = record {
    calm = c;
    same_files = refl;
    same_db = refl;
    wire = [];
    appended = sym (append-nil w.stream.sent);
    delivered = refl;
  }

  pub Sent-append :
      (w w' w'' : World) (ms ms' : List Bytes)
      → Sent w w' ms
      → Sent w' w'' ms'
      → Sent w w'' (ms ++ ms')
  Sent-append w w' w'' ms ms' s s' = record {
    calm = s'.calm;
    same_files = s'.same_files ∙ s.same_files;
    same_db = s'.same_db ∙ s.same_db;
    wire = s.wire ++ s'.wire;
    appended =
        s'.appended
        ∙ ap (λ (x : Bytes). x ++ s'.wire) s.appended
        ∙ append_assoc w.stream.sent s.wire s'.wire;
    delivered = Delivers-append ms ms' s.wire s'.wire s.delivered s'.delivered;
  }

  -- An action ends well, having sent messages with the property, or with an error of the session.
  abbrev pub After :
      World → (List Bytes → Type 0) → Result (Unit {0}) TransferError × World → Type 0
  After w Q (ok u, w') = (ms : List Bytes) × Q ms × Sent w w' ms
  After w Q (err e, w') = IsSession e

  pub After-bind :
      (w : World) (P Q : List Bytes → Type 0) (first next : Action (Unit {0}))
      → After w P (first w)
      → ((w' : World) (ms : List Bytes)
          → P ms
          → Sent w w' ms
          → After w' (λ ms'. Q (ms ++ ms')) (next w'))
      → After w Q ((first >> next) w)
  After-bind w P Q first next a k = go (first w) a
    where
      into :
          (w' : World) (ms : List Bytes) (r : Result (Unit {0}) TransferError × World)
          → Sent w w' ms
          → After w' (λ ms'. Q (ms ++ ms')) r
          → After w Q r
      into w' ms (ok u, w'') s (ms', q, s') = (ms ++ ms', q, Sent-append w w' w'' ms ms' s s')
      into w' ms (err e, w'') s a' = a'

      go :
          (r : Result (Unit {0}) TransferError × World)
          → After w P r
          → After w Q (elim r.0 as (λ x. Result (Unit {0}) TransferError × World) [
            | err e ↦ (err e, r.1)
            | ok a ↦ next r.1
          ])
      go (ok u, w') (ms, q, s) = into w' ms (next w') s (k w' ms q s)
      go (err e, w') a' = a'

  -- What runs after a step that sends nothing counts from before it.
  pub After-quiet :
      (w w' : World) (Q : List Bytes → Type 0) (r : Result (Unit {0}) TransferError × World)
      → Sent w w' []
      → After w' Q r
      → After w Q r
  After-quiet w w' Q (ok u, w'') s (ms, q, s') = (ms, q, Sent-append w w' w'' [] ms s s')
  After-quiet w w' Q (err e, w'') s a = a

  pub After-imp :
      (w : World) (P Q : List Bytes → Type 0) (r : Result (Unit {0}) TransferError × World)
      → ((ms : List Bytes) → P ms → Q ms)
      → After w P r
      → After w Q r
  After-imp w P Q (ok u, w') f (ms, q, s) = (ms, f ms q, s)
  After-imp w P Q (err e, w') f a = a

  pub After-send : (w : World) (m : Bytes) → IsCalm w → After w (λ ms. ms ≡ m ∷ []) (send p key m w)
  unfolding send
  After-send w m c = go (write_enc p (w.nonces 0) key m w.stream) refl
    where
      go :
          (r : Result (Unit {0}) SessionError × TcpStream)
          → write_enc p (w.nonces 0) key m w.stream ≡ r
          → After w
              (λ ms. ms ≡ m ∷ [])
              (map_err session r.0, record w { nonces = λ n. w.nonces (suc n); stream = r.1 })
      go (err e, s) h = tt
      go (ok u, s) h =
          let (frame, sent, reads) =
            write_enc_appends p (w.nonces 0) key m w.stream s (c.nonces_fit 0) h in
          (
            m ∷ [],
            refl,
            record {
              calm = record { no_faults = c.no_faults; nonces_fit = λ n. c.nonces_fit (suc n) };
              same_files = refl;
              same_db = refl;
              wire = frame;
              appended = sent;
              delivered = (frame, [], sym (append-nil frame), reads, refl);
            },
          )
