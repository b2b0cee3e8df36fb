-- ===== src/Network/Ceremony.antt =====
-- src-tauri/src/network/peer.rs: the messages of the pairing ceremony, and what one side of it works on:
-- its connection, its database, the ids that it trusts while it runs, what it has told the interface,
-- and which of the next calls that can fail do so.
use synapt.Prelude.{
  ◌==◌, ℕ, ◌≡◌, Bool, false, Option, none, some, List, [], ◌∷◌, ◌++◌, length, Text, codes, text_eq,
  ℤ, Result, ok, err, map_err, ltb, if◌then◌else◌, to_string,
}
use synapt.Network.Crypto.{Bytes, CryptoError}
use synapt.Network.Stream.{TcpStream}
use synapt.Network.Stream
use synapt.Notify.{Notification, enabled_by}
use synapt.Storage.Rows.{TrustedPeerRow, Db, has_key}
use synapt.Storage.Devices.{get_setting, upsert_trusted_peer}
use synapt.Trust.{TrustError, TrustedPeer, ParseUuid}

abbrev pub max_pair_msg : ℕ
max_pair_msg = 65536

-- The three texts of a message are the id and the name of the device, and its one-time key.
pub data PairMsg : Type 0 where
  pair_request : Text → Text → Text → PairMsg
  pair_accept : Text → Text → Text → PairMsg
  pair_rejected : PairMsg
  pair_confirm : Text → PairMsg
  pair_complete : Text → PairMsg

pub data PairingError : Type 0 where
  io : PairingError
  json : PairingError
  crypto : CryptoError → PairingError
  rejected : PairingError
  timeout : PairingError
  unexpected_msg : Text → PairingError
  db : PairingError
  trust : TrustError → PairingError
  emit_error : PairingError

pub record PendingPairing : Type 0 where
  pub stream : TcpStream
  pub shared_secret : Bytes
  pub peer_device_id : Text
  pub peer_name : Text
  pub peer_pubkey_b64 : Text
  pub verify_code : Text

pub data PairEvent : Type 0 where
  asked : Text → Text → Text → Text → PairEvent
  completed : TrustedPeer → PairEvent

-- The crates serde_json and uuid: the printing and parsing of messages and ids; `debug` is what
-- `derive(Debug)` prints.
pub record Formats : Type 0 where
  pub to_vec : PairMsg → Bytes
  pub from_slice : Bytes → Option PairMsg
  pub from_slice-to_vec : (m : PairMsg) → from_slice (to_vec m) ≡ some m
  pub debug : PairMsg → Text
  pub parse_uuid : ParseUuid

pub record Ceremony : Type 0 where
  pub stream : TcpStream
  pub db : Db
  pub trusted_ids : List Text
  pub emitted : List PairEvent
  pub notified : List Notification
  pub timestamp : ℤ
  pub faults : List Bool

abbrev pub Step : Type 0 → Type 0
Step A = Ceremony → Result A PairingError × Ceremony

infixl 5 ◌>>=◌ ◌>>◌
abbrev pub ◌>>=◌ : {A B : Type 0} → Step A → (A → Step B) → Step B
◌>>=◌ first next c =
    let (answer, c') = first c in elim answer [ err e ↦ (err e, c') | ok a ↦ next a c' ]

abbrev pub ◌>>◌ : {B : Type 0} → Step (Unit {0}) → Step B → Step B
first >> next = first >>= λ _. next

abbrev pub give : {A : Type 0} → Result A PairingError → Step A
give answer c = (answer, c)

abbrev pub modify : (Ceremony → Ceremony) → Step (Unit {0})
modify f c = (ok tt, f c)

-- Whether the next call that can fail does so.
unfoldable pub failing : Step Bool
failing c = elim c.faults [
  | [] ↦ (ok false, c)
  | fault ∷ later ↦ (ok fault, record c { faults = later })
]

abbrev pub call : PairingError → Step (Unit {0})
call e = failing >>= λ fault. if fault then give (err e) else give (ok tt)

-- The reads and writes of a whole buffer, whose errors are all of the connection.
abbrev pub on_stream : {A : Type 0} → Stream.M A → Step A
on_stream step c = (map_err (λ _. io) (step c.stream).0, record c { stream = (step c.stream).1 })

abbrev pub emit : PairEvent → Step (Unit {0})
emit event = call emit_error >> modify (λ c. record c { emitted = c.emitted ++ event ∷ [] })

unfoldable pub to_key32 : Bytes → Result Bytes PairingError
to_key32 v = if length v == 32 then ok v else err (unexpected_msg (codes "public key wrong length"))

unfoldable pub check_len : ℕ → Step (Unit {0})
unfolding to_string
check_len len =
    if ltb max_pair_msg len
    then give (err (unexpected_msg (codes "frame too large: " ++ to_string len)))
    else give (ok tt)

-- `if crate::notify::enabled(&db).await { … }`: a database that does not answer counts as enabled.
unfoldable pub notify : Notification → Step (Unit {0})
unfolding failing get_setting enabled_by
notify n = do
  silent ← failing
  modify (λ c. record c {
    notified =
        if enabled_by
          (if silent then none else some (get_setting c.db (codes "notifications_enabled")))
        then c.notified ++ n ∷ []
        else c.notified;
  })

unfoldable pub upsert : TrustedPeerRow → Step (Unit {0})
unfolding failing upsert_trusted_peer
upsert row = call db >> modify (λ c. record c { db = upsert_trusted_peer c.db row })

-- A set of ids, as the list of its members.
abbrev pub insert_id : Text → List Text → List Text
insert_id id ids = if has_key (text_eq id) ids then ids else id ∷ ids

-- The id joins the set of trusted ids, whether or not its lock is poisoned.
unfoldable pub trust_id : Text → Step (Unit {0})
trust_id id = modify (λ c. record c { trusted_ids = insert_id id c.trusted_ids })

abbrev pub row_of : Text → Text → Text → Text → ℤ → TrustedPeerRow
row_of id name longterm fp at = record {
  device_id = id;
  device_name = name;
  pubkey_b64 = longterm;
  fingerprint = fp;
  paired_at = at;
  last_seen = none;
}

abbrev pub peer_of : Text → Text → Text → Text → ℤ → TrustedPeer
peer_of id name longterm fp at = record {
  device_id = id;
  device_name = name;
  pubkey_b64 = longterm;
  fingerprint = fp;
  paired_at = at;
  last_seen = none;
}

abbrev pub timestamp : Step ℤ
timestamp c = (ok c.timestamp, c)

abbrev pub connection : Step TcpStream
connection c = (ok c.stream, c)
