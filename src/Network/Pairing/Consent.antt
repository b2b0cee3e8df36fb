-- ===== src/Network/Pairing/Consent.antt =====
-- Nothing is trusted before the users of both devices have agreed.
use synapt.Prelude.{
  ℕ, suc, ◌≡◌, refl, ap, ◌∙◌, List, [], ◌∷◌, ◌++◌, Text, Result, ok, err, arith, Bool, true, false,
  Option, some, none, ◌≢◌,
}
use synapt.Network.Crypto.{Bytes, Primitives, generate_ephemeral}
use synapt.Network.Stream.{TcpStream}
use synapt.Network.Stream
use synapt.Notify.{Notification}
use synapt.Trust.{LocalIdentity}
use synapt.Network.Pairing.{
  PairMsg, pair_request, pair_accept, pair_confirm, pair_complete, pair_rejected, Formats, Ceremony,
  PairEvent, asked, completed, Step, ◌>>=◌, give, on_stream, send_msg, recv_msg, failing, notify,
  key_of, pending_of, connection, connected, begin_pairing, request_of, answer_request,
  handle_responder, check_len, emit, PairingError,
}

abbrev pub completions : List PairEvent → ℕ
completions [] = 0
completions (asked i n a v ∷ events) = completions events
completions (completed peer ∷ events) = suc (completions events)

-- What the user has agreed to stays as it was.
abbrev pub IsUntouched : Ceremony → Ceremony → Type 0
IsUntouched c c' =
    (c'.db ≡ c.db)
    × (c'.trusted_ids ≡ c.trusted_ids)
    × (completions c'.emitted ≡ completions c.emitted)

abbrev Keeps : {A : Type 0} → Step A → Type 0
Keeps step = (c : Ceremony) → IsUntouched c (step c).1

after :
    {A : Type 0} (r : Result A PairingError) (c0 c1 : Ceremony) {B : Type 0} (f : A → Step B)
    → IsUntouched c0 c1
    → ((a : A) → Keeps (f a))
    → IsUntouched c0 (
        (elim r as (λ x. Result B PairingError × Ceremony) [
          | err e ↦ (err e, c1)
          | ok a ↦ f a c1
        ]).1)
after (ok a) c0 c1 f h k = let (d, t, e) = k a c1 in (d ∙ h.0, t ∙ h.1, e ∙ h.2)
after (err x) c0 c1 f h k = h

Keeps-bind :
    {A B : Type 0} (m : Step A) (f : A → Step B)
    → Keeps m
    → ((a : A) → Keeps (f a))
    → Keeps (m >>= f)
Keeps-bind m f h k c = after (m c).0 c (m c).1 f (h c) k

Keeps-give : {A : Type 0} (r : Result A PairingError) → Keeps (give r)
Keeps-give r c = (refl, refl, refl)

Keeps-connection : Keeps connection
Keeps-connection c = (refl, refl, refl)

Keeps-on_stream : {A : Type 0} (step : Stream.M A) → Keeps (on_stream step)
Keeps-on_stream step c = (refl, refl, refl)

Keeps-failing : Keeps failing
unfolding failing
Keeps-failing c = (ground arith, ground arith, ground arith)

completions-asked :
    (i n a v : Text) (events : List PairEvent)
    → completions (events ++ asked i n a v ∷ []) ≡ completions events
completions-asked i n a v [] = refl
completions-asked i n a v (asked i' n' a' v' ∷ events) = completions-asked i n a v events
completions-asked i n a v (completed p ∷ events) = ap suc (completions-asked i n a v events)

Keeps-emit : (i n a v : Text) → Keeps (emit (asked i n a v))
unfolding failing
Keeps-emit i n a v c =
    (ground arith, ground arith, ground (arith, completions-asked i n a v c.emitted))

Keeps-notify : (n : Notification) → Keeps (notify n)
unfolding notify failing
Keeps-notify n c = (ground arith, ground arith, ground arith)

module _ (p : Primitives) (j : Formats) where
  Keeps-send : (m : PairMsg) → Keeps (send_msg p j m)
  unfolding send_msg
  Keeps-send m c = (ground arith, ground arith, ground arith)

  Keeps-check_len : (n : ℕ) → Keeps (check_len n)
  unfolding check_len
  Keeps-check_len n c = (ground arith, ground arith, ground arith)

  Keeps-recv : Keeps (recv_msg p j)
  unfolding recv_msg
  Keeps-recv = search (Keeps-bind, Keeps-give, Keeps-on_stream, Keeps-check_len)

  Keeps-key_of : (k : Text) → Keeps (key_of p j k)
  unfolding key_of
  Keeps-key_of k = search (Keeps-bind, Keeps-give)

  Keeps-request_of : (m : PairMsg) → Keeps (request_of p j m)
  unfolding request_of
  Keeps-request_of m c = (ground arith, ground arith, ground arith)

  Keeps-pending_of : (secret : Bytes) (m : PairMsg) → Keeps (pending_of p j secret m)
  unfolding pending_of
  Keeps-pending_of secret (pair_accept i n k) = search (Keeps-bind, Keeps-key_of, Keeps-connection)
  Keeps-pending_of secret pair_rejected = λ c. (refl, refl, refl)
  Keeps-pending_of secret (pair_request i n k) = λ c. (refl, refl, refl)
  Keeps-pending_of secret (pair_confirm k) = λ c. (refl, refl, refl)
  Keeps-pending_of secret (pair_complete k) = λ c. (refl, refl, refl)

  Keeps-connected : (attempt : Option (Option TcpStream)) → Keeps (connected p j attempt)
  unfolding connected
  Keeps-connected none c = (refl, refl, refl)
  Keeps-connected (some none) c = (refl, refl, refl)
  Keeps-connected (some (some s)) c = (refl, refl, refl)

  Keeps-begin :
      (attempt : Option (Option TcpStream)) (identity : LocalIdentity) (random : Bytes)
      → Keeps (begin_pairing p j attempt identity random)
  unfolding begin_pairing generate_ephemeral
  Keeps-begin attempt identity random =
      search (Keeps-bind, Keeps-connected, Keeps-send, Keeps-recv, Keeps-pending_of)

  Keeps-answer :
      (ip : Text) (identity : LocalIdentity) (random : Bytes)
      → Keeps (answer_request p j ip identity random)
  unfolding answer_request generate_ephemeral
  Keeps-answer ip identity random =
      search
        (
          Keeps-bind, Keeps-recv, Keeps-request_of, Keeps-key_of, Keeps-notify, Keeps-emit,
          Keeps-send, Keeps-give,
        )
        depth 16

-- Whatever comes over the connection and whatever fails, a device does not change the peers that it
-- trusts and announces no pairing while it begins one, nor while it answers one that its user has
-- not accepted: the user has declined, or the request was replaced by another.
pub consent_lem :
    (p : Primitives) (j : Formats) (attempt : Option (Option TcpStream)) (ip : Text)
    (identity : LocalIdentity) (random : Bytes) (decision : Option Bool) (c : Ceremony)
    → decision ≢ some true
    → IsUntouched c (begin_pairing p j attempt identity random c).1
      × IsUntouched c (handle_responder p j ip identity random decision c).1
unfolding handle_responder
consent_lem p j attempt ip identity random (some true) c h = absurd (h refl)
consent_lem p j attempt ip identity random (some false) c h = (
  Keeps-begin p j attempt identity random c,
  Keeps-bind (answer_request p j ip identity random) (λ their. send_msg p j pair_rejected)
      (Keeps-answer p j ip identity random) (λ their. Keeps-send p j pair_rejected) c,
)
consent_lem p j attempt ip identity random none c h = (
  Keeps-begin p j attempt identity random c,
  Keeps-bind (answer_request p j ip identity random) (λ their. send_msg p j pair_rejected)
      (Keeps-answer p j ip identity random) (λ their. Keeps-send p j pair_rejected) c,
)
