-- ===== src/Network/Crypto/Codes.antt =====
-- The pairing code of crypto.rs.
use mathlib.Core.Path.{subst}
use synapt.Prelude.{
  ℕ, ◌+◌, ◌-◌, ◌*◌, ◌/◌, ◌%◌, ◌^◌, ◌≤◌, ◌<◌, ◌≡◌, refl, ◌∙◌, ◌∷◌, Text, codes, Option, none, some,
  [], length, get_elem?, All, arith,
}
use synapt.Network.Crypto.{Bytes, Primitives, pairing_bytes, pairing_number, decimal, pairing_code}

abbrev pub IsDigit : ℕ → Type 0
IsDigit b = (b'0' ≤ b) × (b ≤ b'9')

byte-lt : (o : Option ℕ) → (elim o as (λ x. ℕ) [ none ↦ 0 | some b ↦ b % 256 ]) < 256
byte-lt none = omega arith
byte-lt (some b) = omega arith

pairing_bytes_lt :
    (p : Primitives) (s : Bytes)
    → ((pairing_bytes p s).0 < 256) × ((pairing_bytes p s).1 < 256) × ((pairing_bytes p s).2 < 256)
unfolding pairing_bytes
pairing_bytes_lt p s = ground arith

-- The remainder by 100 000 000 never takes effect: three bytes stay below 2 ^ 24.
pub pairing_number-lt : (p : Primitives) (s : Bytes) → pairing_number (pairing_bytes p s) < 2 ^ 24
unfolding pairing_number
pairing_number-lt p s = omega (arith, pairing_bytes_lt p s)

decimal_eight :
    (n : ℕ)
    → n < 2 ^ 24
    → (length (decimal 8 n []) ≡ 8)
      × All IsDigit (decimal 8 n [])
      × (d : ℕ) × (get_elem? (decimal 8 n []) 0 ≡ some (b'0' + d))
      × (d ≤ 1)
unfolding decimal
decimal_eight n h =
    (refl, omega arith, n / 10 / 10 / 10 / 10 / 10 / 10 / 10 % 10, refl, omega arith)

-- The number that digits are read as.
abbrev pub read_decimal : ℕ → Text → ℕ
read_decimal n [] = n
read_decimal n (d ∷ digits) = read_decimal (n * 10 + (d - b'0')) digits

-- A number of three bytes, the first of them the highest.
abbrev pub of_bytes : ℕ × ℕ × ℕ → ℕ
of_bytes (a, b, c) = (a * 256 + b) * 256 + c

abbrev pub byte_at : ℕ → Bytes → ℕ
byte_at i okm = elim (get_elem? okm i) [ none ↦ 0 | some b ↦ b % 256 ]

-- The three bytes that a secret expands to, or zeros where it does not.
abbrev pub expanded : Primitives → Bytes → ℕ × ℕ × ℕ
expanded p s = elim (p.hkdf_expand (codes "synapt-pair-verify") s [] 3) [
  | none ↦ (0, 0, 0)
  | some okm ↦ (byte_at 0 okm, byte_at 1 okm, byte_at 2 okm)
]

pairing_bytes-expanded : (p : Primitives) (s : Bytes) → pairing_bytes p s ≡ expanded p s
unfolding pairing_bytes
pairing_bytes-expanded p s = refl

-- One more digit of a number.
digit_read : (m n : ℕ) → m ≡ n / 10 → m * 10 + (b'0' + n % 10 - b'0') ≡ n
digit_read m n h = omega arith

decimal_read : (n : ℕ) → n < 2 ^ 24 → read_decimal 0 (decimal 8 n []) ≡ n
unfolding decimal
decimal_read n h =
    let n1 = n / 10 in
    let n2 = n1 / 10 in
    let n3 = n2 / 10 in
    let n4 = n3 / 10 in
    let n5 = n4 / 10 in
    let n6 = n5 / 10 in
    let n7 = n6 / 10 in
    digit_read _ n (
      digit_read _ n1 (
        digit_read _ n2 (
          digit_read _ n3
            (digit_read _ n4 (digit_read _ n5 (digit_read _ n6 (digit_read 0 n7 (omega arith))))))))

of_pairing_number :
    (b : ℕ × ℕ × ℕ) → (b.0 < 256) × (b.1 < 256) × (b.2 < 256) → pairing_number b ≡ of_bytes b
unfolding pairing_number
of_pairing_number (x, y, z) h = omega arith

read_pairing_code :
    (p : Primitives) (s : Bytes) → read_decimal 0 (pairing_code p s) ≡ of_bytes (expanded p s)
unfolding pairing_code pairing_bytes pairing_number
read_pairing_code p s =
    decimal_read (pairing_number (pairing_bytes p s)) (pairing_number-lt p s)
    ∙ of_pairing_number (pairing_bytes p s) (pairing_bytes_lt p s)

-- A pairing code has eight decimal digits. They are read as the number, below 2 ^ 24, of the three
-- bytes that the shared secret expands to, so the first digit is 0 or 1.
pub pairing_code_lem :
    (p : Primitives) (s : Bytes)
    → (length (pairing_code p s) ≡ 8)
      × All IsDigit (pairing_code p s)
      × (read_decimal 0 (pairing_code p s) ≡ of_bytes (expanded p s))
      × (of_bytes (expanded p s) < 2 ^ 24)
      × (d : ℕ) × (get_elem? (pairing_code p s) 0 ≡ some (b'0' + d))
      × (d ≤ 1)
unfolding pairing_code
pairing_code_lem p s =
    let n = pairing_number (pairing_bytes p s) in
    let (eight, digits, d, first, low) = decimal_eight n (pairing_number-lt p s) in
    let same = of_pairing_number (pairing_bytes p s) (pairing_bytes_lt p s) in
    let bound : of_bytes (expanded p s) < 2 ^ 24 =
      subst (λ m. m < 2 ^ 24) same (pairing_number-lt p s) in
    (eight, digits, read_pairing_code p s, bound, d, first, low)
