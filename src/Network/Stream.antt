-- ===== src/Network/Stream.antt =====
-- src-tauri/src/network/mod.rs: frames on a connection, in the clear and sealed.
-- A connection holds the bytes that the peer has sent, and has room for as many bytes as it takes
-- before it breaks; what is written is appended to `sent`.
pub mod Roundtrip
mod Examples
use synapt.Prelude.{
  ℕ, ◌-◌, [], ◌++◌, length, take, drop, Result, ok, err, map_err, ltb, leb, if◌then◌else◌,
}
use synapt.Network.Crypto.{
  Bytes, Primitives, CryptoError, frame_too_large, max_frame_bytes, write_frame, read_frame_len,
  encrypt, decrypt,
}

pub record TcpStream : Type 0 where
  pub received : Bytes
  pub sent : Bytes
  pub room : ℕ

-- `io` is an error of the connection, `json` one of serde, `db` one of the database.
pub data SessionError : Type 0 where
  io : SessionError
  json : SessionError
  crypto : CryptoError → SessionError
  not_trusted : SessionError
  db : SessionError

-- An action on a connection: its result, and the connection after it.
abbrev pub M : Type 0 → Type 0
M A = TcpStream → Result A SessionError × TcpStream

infixl 5 ◌>>=◌ ◌>>◌
abbrev pub ◌>>=◌ : {A B : Type 0} → M A → (A → M B) → M B
◌>>=◌ m f s = elim (m s).0 [ ok a ↦ f a (m s).1 | err e ↦ (err e, (m s).1) ]

abbrev pub ◌>>◌ : {A B : Type 0} → M A → M B → M B
m >> k = m >>= λ _. k

abbrev pub pure : {A : Type 0} → A → M A
pure a s = (ok a, s)

abbrev pub fail : {A : Type 0} → SessionError → M A
fail e s = (err e, s)

-- The `?` of a result that touches no connection.
abbrev pub lift : {A : Type 0} → Result A SessionError → M A
lift r s = (r, s)

-- `write_all`: a connection that breaks half way takes what it has room for.
unfoldable pub write_all : Bytes → M (Unit {0})
write_all bytes s =
    if leb (length bytes) s.room
    then (ok tt, record s { sent = s.sent ++ bytes; room = s.room - length bytes })
    else (err io, record s { sent = s.sent ++ take s.room bytes; room = 0 })

-- `read_exact`: an error when the peer closes before all of it has come.
unfoldable pub read_exact : ℕ → M Bytes
read_exact n s =
    if leb n (length s.received)
    then (ok (take n s.received), record s { received = drop n s.received })
    else (err io, record s { received = [] })

unfoldable pub write_plain : Bytes → M (Unit {0})
unfolding write_frame write_all
write_plain bytes = do frame ← lift (map_err crypto (write_frame bytes)); write_all frame

unfoldable pub check_len : ℕ → M (Unit {0})
check_len len = if ltb max_frame_bytes len then fail (crypto (frame_too_large len)) else pure tt

unfoldable pub read_plain : M Bytes
read_plain = do
  len_buf ← read_exact 4
  let len = read_frame_len len_buf
  check_len len
  read_exact len

module _ (p : Primitives) where
  unfoldable pub write_enc : Bytes → Bytes → Bytes → M (Unit {0})
  unfolding write_plain
  write_enc nonce key plaintext = do
    ct ← lift (map_err crypto (encrypt p nonce key plaintext))
    write_plain ct

  unfoldable pub read_enc : Bytes → M Bytes
  read_enc key = do ct ← read_plain; lift (map_err crypto (decrypt p key ct))
