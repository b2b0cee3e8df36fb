-- ===== src/Network/Invite.antt =====
-- src-tauri/src/network/manual_pair.rs: invite codes, which carry an IPv4 address (a `u32`) and a
-- port (a `u16`) in eleven digits of base 25. Codes are lists of bytes.
pub mod Digits
pub mod Roundtrip
pub mod Soundness
mod Examples
use synapt.Prelude.{
  ℕ, zero, suc, ◌+◌, ◌-◌, ◌*◌, ◌/◌, ◌%◌, ◌^◌, Bool, not, ◌&&◌, ◌||◌, Option, none, some, List, [],
  ◌∷◌, length, get_elem?, codes, ltb, leb, ◌==◌, if◌then◌else◌,
}

abbrev pub Bytes : Type 0
Bytes = List ℕ

-- `PAIRING_PORT` of discovery.rs
abbrev pub pairing_port : ℕ
pairing_port = 42100

abbrev pub alphabet : Bytes
alphabet = codes "ACDEFGHJKLMNPQRTUVWXY3479"

abbrev pub code_len : ℕ
code_len = 11

abbrev pub dash_at : ℕ
dash_at = 5

-- `ALPHABET[i]`; every index is a remainder by 25
unfoldable pub symbol : ℕ → ℕ
symbol i = elim (get_elem? alphabet i) [ none ↦ b'A' | some ch ↦ ch ]

-- The loop over the slots from the last to the first, which prepends to the digits so far.
unfoldable pub fill : ℕ → ℕ → Bytes → Bytes
unfolding symbol
fill zero value digits = digits
fill (suc slots) value digits = fill slots (value / 25) (symbol (value % 25) ∷ digits)

-- The loop that renders the digits, from index `i` on.
unfoldable pub render : ℕ → Bytes → Bytes
render i [] = []
render i (ch ∷ digits) =
    let rest = render (i + 1) digits in if i == dash_at then b'-' ∷ ch ∷ rest else ch ∷ rest

-- `(ip << 16) | port`: the low 16 bits of the shifted address are zero.
abbrev pub packed : ℕ → ℕ → ℕ
packed ip port = ip * 2 ^ 16 + port

unfoldable pub encode_invite : ℕ → ℕ → Bytes
unfolding fill render
encode_invite ip port = render 0 (fill code_len (packed ip port) [])

-- `is_ascii_whitespace`, or a dash
abbrev pub is_separator : ℕ → Bool
is_separator b = b == 32 || b == 9 || b == 10 || b == 12 || b == 13 || b == b'-'

-- `to_ascii_uppercase`
abbrev pub to_upper : ℕ → ℕ
to_upper b = if leb b'a' b && leb b b'z' then b - 32 else b

unfoldable pub clean : Bytes → Bytes
clean [] = []
clean (b ∷ code) = let rest = clean code in if not (is_separator b) then to_upper b ∷ rest else rest

-- `iter().position(|a| *a == ch)`
unfoldable pub position : ℕ → Bytes → Option ℕ
position ch [] = none
position ch (a ∷ rest) =
    if a == ch then some 0 else elim (position ch rest) [ none ↦ none | some i ↦ some (suc i) ]

-- The loop over the digits; a `u64` holds every value of eleven of them.
unfoldable pub read_digits : ℕ → Bytes → Option ℕ
unfolding position
read_digits value [] = some value
read_digits value (ch ∷ rest) = elim (position ch alphabet) [
  | none ↦ none
  | some digit ↦ read_digits (value * 25 + digit) rest
]

-- The port test and `u32::try_from(value >> 16)`
unfoldable pub unpack : ℕ → Option (ℕ × ℕ)
unpack value =
    if not (value % 2 ^ 16 == pairing_port)
    then none
    else if ltb (value / 2 ^ 16) (2 ^ 32)
    then some (value / 2 ^ 16, value % 2 ^ 16)
    else none

-- What `decode_invite` does with the cleaned bytes.
unfoldable pub decode_cleaned : Bytes → Option (ℕ × ℕ)
unfolding read_digits unpack
decode_cleaned cleaned =
    if not (length cleaned == code_len)
    then none
    else elim (read_digits 0 cleaned) [ none ↦ none | some value ↦ unpack value ]

unfoldable pub decode_invite : Bytes → Option (ℕ × ℕ)
unfolding clean decode_cleaned
decode_invite code = decode_cleaned (clean code)
