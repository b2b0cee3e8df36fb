-- ===== src/Network/Transfer.antt =====
-- src-tauri/src/network/transfer.rs: the messages of a file transfer, its errors, and the world in
-- which its code runs. Serve is the side that has the file, Request the side that asks for it.
pub mod Send
pub mod Delivery
pub mod Examples
pub mod Serve
pub mod Push
pub mod Request
pub mod Retry
use synapt.Prelude.{
  ℕ, suc, Bool, false, not, ◌&&◌, Option, none, some, List, [], ◌∷◌, ◌++◌, ◌≡◌, take, is_empty,
  filter_by, Text, codes, text_eq, ℤ, Result, ok, err, map_err, min, ◌==◌, if◌then◌else◌,
}
use synapt.Network.Crypto.{Bytes, Primitives}
use synapt.Network.Queue.{TransferQueue}
use synapt.Network.Stream.{TcpStream, SessionError, write_enc, read_enc}
use synapt.Network.Stream
use synapt.Storage.Rows.{Db}

abbrev pub chunk_size : ℕ
chunk_size = 65536

pub data TransferError : Type 0 where
  io : TransferError
  json : TransferError
  access_denied : TransferError
  invalid_offset : TransferError
  checksum_mismatch : TransferError
  not_trusted : TransferError
  db : TransferError
  session : SessionError → TransferError
  protocol : Text → TransferError

pub data TransferMsg : Type 0 where
  transfer_request : Text → ℕ → TransferMsg
  batch_transfer_request : List Text → TransferMsg
  transfer_start : Text → ℕ → ℕ → TransferMsg
  transfer_complete : Text → TransferMsg
  file_skipped : Text → Text → TransferMsg
  batch_complete : ℕ → ℕ → TransferMsg
  push_start : Text → ℕ → Text → TransferMsg
  push_accept : TransferMsg
  error : Text → TransferMsg

-- The crate serde_json on the messages, which parses what it prints; `unexpected` is the derived
-- Debug text of a message in an error.
pub record MsgJson : Type 0 where
  pub to_vec : TransferMsg → Bytes
  pub from_slice : Bytes → Option TransferMsg
  pub from-to : (m : TransferMsg) → from_slice (to_vec m) ≡ some m
  pub unexpected : TransferMsg → Text

-- What the interface is told while a transfer runs: its id, and bytes received or a reason.
pub data Event : Type 0 where
  progress : Text → ℕ → Event
  completed : Text → Event
  failed : Text → Text → Event
  retry : Text → ℕ → ℕ → Event
  batch_completed : ℕ → ℕ → Event

-- The connection, the shared state and what the system supplies: the times that the clock will
-- give, the nonces, how much less than asked the next reads of a file give, and which of the next
-- calls of the database or the file system fail. A file is known by the path that names it.
-- `connections` are those that the next calls of connect give, or none where they fail, each with
-- the bytes that its peer will have sent; `slept` are the seconds waited; `hist_id` is the row of the transfer that is asked for.
pub record World : Type 0 where
  pub stream : TcpStream
  pub db : Db
  pub queue : TransferQueue
  pub files : Text → Option Bytes
  pub clock : ℕ → ℤ
  pub nonces : ℕ → Bytes
  pub short_reads : ℕ → ℕ
  pub connections : ℕ → Option TcpStream
  pub hist_id : Option ℕ
  pub faults : List Bool
  pub emitted : List Event
  pub slept : ℕ

-- An action on the world, which may end early with an error.
abbrev pub Action : Type 0 → Type 0
Action A = World → Result A TransferError × World

infixl 5 ◌>>=◌ ◌>>◌
abbrev pub ◌>>=◌ : {A B : Type 0} → Action A → (A → Action B) → Action B
◌>>=◌ first next w =
    let (answer, w') = first w in elim answer [ err e ↦ (err e, w') | ok a ↦ next a w' ]

abbrev pub ◌>>◌ : {B : Type 0} → Action (Unit {0}) → Action B → Action B
first >> next = first >>= λ _. next

abbrev pub give : {A : Type 0} → Result A TransferError → Action A
give answer w = (answer, w)

-- The next call that can fail does so when the system says it does.
unfoldable pub call : TransferError → Action (Unit {0})
call e w = elim w.faults [
  | [] ↦ (ok tt, w)
  | fault ∷ later ↦ (if fault then err e else ok tt, record w { faults = later })
]

abbrev pub gets : {A : Type 0} → (World → A) → Action A
gets f w = (ok (f w), w)

abbrev pub modify : (World → World) → Action (Unit {0})
modify f w = (ok tt, f w)

-- A call of the database that reads, and one that writes.
abbrev pub query : {A : Type 0} → (Db → A) → Action A
query f = call TransferError.db >> gets (λ w. f w.db)

abbrev pub execute : (Db → Db) → Action (Unit {0})
execute f = call TransferError.db >> modify (λ w. record w { db = f w.db })

abbrev pub emit : Event → Action (Unit {0})
emit event = modify (λ w. record w { emitted = w.emitted ++ event ∷ [] })

unfoldable pub now : Action ℤ
now w = (ok (w.clock 0), record w { clock = λ n. w.clock (suc n) })

-- A step of the connection; its `?` wraps the error of the session.
abbrev pub on_stream : {A : Type 0} → Stream.M A → Action A
on_stream step w = (map_err session (step w.stream).0, record w { stream = (step w.stream).1 })

unfoldable pub connect : Action (Unit {0})
connect w = elim (w.connections 0) [
  | none ↦ (err io, record w { connections = λ n. w.connections (suc n) })
  | some s ↦ (ok tt, record w { stream = s; connections = λ n. w.connections (suc n) })
]

-- `write_enc` with the next random nonce, and `read_enc`
unfoldable pub send : Primitives → Bytes → Bytes → Action (Unit {0})
send p key plaintext w =
    on_stream (write_enc p (w.nonces 0) key plaintext) (record w { nonces = λ n. w.nonces (suc n) })

unfoldable pub recv : Primitives → Bytes → Action Bytes
recv p key = on_stream (read_enc p key)

-- `file.read(&mut buf)` on what is left of an open file: at most a chunk, perhaps less, and nothing
-- only at the end.
unfoldable pub read_chunk : Bytes → Action Bytes
read_chunk left w =
    (call io >> gets (λ _. take (min chunk_size (suc (w.short_reads 0))) left))
      (record w { short_reads = λ n. w.short_reads (suc n) })

-- `Path::file_name`: the last component, where empty components and dots do not count, and none for
-- two dots.
abbrev pub extend : ℕ → List Text → List Text
extend c [] = (c ∷ []) ∷ []
extend c (s ∷ segments) = (c ∷ s) ∷ segments

unfoldable pub split : Text → List Text
split [] = [] ∷ []
split (c ∷ path) = if c == b'/' then [] ∷ split path else extend c (split path)

abbrev pub is_component : Text → Bool
is_component s = not (is_empty s) && not (text_eq s (codes "."))

abbrev pub last_normal : List Text → Option Text
last_normal [] = none
last_normal (s ∷ []) = if text_eq s (codes "..") then none else some s
last_normal (s ∷ t ∷ segments) = last_normal (t ∷ segments)

unfoldable pub file_name : Text → Option Text
unfolding split
file_name path = last_normal (filter_by is_component (split path))

abbrev pub file_name_or : Text → Text
file_name_or path = elim (file_name path) [ none ↦ codes "file" | some name ↦ name ]

-- `Path::join`: an absolute path takes the place of the directory.
abbrev pub is_absolute : Text → Bool
is_absolute [] = false
is_absolute (c ∷ path) = c == b'/'

abbrev pub with_separator : Text → Text
with_separator [] = []
with_separator (c ∷ []) = if c == b'/' then c ∷ [] else c ∷ b'/' ∷ []
with_separator (c ∷ d ∷ dir) = c ∷ with_separator (d ∷ dir)

unfoldable pub join : Text → Text → Text
join dir path = if is_absolute path then path else with_separator dir ++ path
