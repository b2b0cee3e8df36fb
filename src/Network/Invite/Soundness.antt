-- ===== src/Network/Invite/Soundness.antt =====
-- Whatever decodes is an invite code, up to case and separators.
use synapt.Prelude.{
  ℕ, ◌+◌, ◌*◌, ◌/◌, ◌^◌, ◌<◌, ◌≡◌, refl, sym, ap, ap₂, ◌∙◌, Option, none, some, [], ◌∷◌, length,
  arith,
}
use synapt.Network.Invite.{
  Bytes, pairing_port, code_len, alphabet, packed, position, read_digits, unpack, clean,
  encode_invite, decode_cleaned, decode_invite,
}
use synapt.Network.Invite.Digits.{digits_of, read_digits-digits_of, length-digits_of}
use synapt.Network.Invite.Roundtrip.{
  position-injective, read_from, read_digits_cons, read_digits-leading, clean-encode_invite,
  packed-lt,
}

same_digit : (a i j p v : ℕ) → v / p ≡ a * 25 + i → v / p ≡ a * 25 + j → i ≡ j
same_digit a i j p v h k = omega arith

-- Codes of one length that read as one number are equal.
read_digits-injective :
    (value v : ℕ) (xs ys : Bytes)
    → length xs ≡ length ys
    → read_digits value xs ≡ some v
    → read_digits value ys ≡ some v
    → xs ≡ ys
read_digits-injective value v [] [] l h k = refl
read_digits-injective value v [] (y ∷ ys) l h k = absurd (omega arith)
read_digits-injective value v (x ∷ xs) [] l h k = absurd (omega arith)
read_digits-injective value v (x ∷ xs) (y ∷ ys) l h k =
    go (position x alphabet) (position y alphabet) refl refl (sym (read_digits_cons value x xs) ∙ h)
      (sym (read_digits_cons value y ys) ∙ k) (λ a. read_digits-injective a v xs ys (omega arith))
  where
    go :
        (o p : Option ℕ)
        → position x alphabet ≡ o
        → position y alphabet ≡ p
        → read_from o value xs ≡ some v
        → read_from p value ys ≡ some v
        → ((a : ℕ) → read_digits a xs ≡ some v → read_digits a ys ≡ some v → xs ≡ ys)
        → x ∷ xs ≡ y ∷ ys
    go none p e f h' k' below = cc
    go (some i) none e f h' k' below = cc
    go (some i) (some j) e f h' k' below =
        let lengths : length xs ≡ length ys = omega arith in
        let same : i ≡ j =
          same_digit value i j (25 ^ length xs) v (read_digits-leading (value * 25 + i) v xs h')
            (ap (λ (n : ℕ). v / 25 ^ n) lengths ∙ read_digits-leading (value * 25 + j) v ys k') in
        ap₂ (λ (a : ℕ) (l : Bytes). a ∷ l) (position-injective x y i alphabet e (rw same f))
          (below (value * 25 + i) h' (rw same k'))

-- What a successful `unpack` says of the number.
unpack_inv :
    (v ip port : ℕ)
    → unpack v ≡ some (ip, port)
    → (port ≡ pairing_port) × (ip < 2 ^ 32) × (v ≡ packed ip pairing_port)
unfolding unpack
unpack_inv v ip port h = ground arith

abbrev unpacked : Option ℕ → Option (ℕ × ℕ)
unpacked none = none
unpacked (some v) = unpack v

decode_cleaned_inv :
    (cleaned : Bytes) (ip port : ℕ)
    → decode_cleaned cleaned ≡ some (ip, port)
    → (length cleaned ≡ code_len) × (unpacked (read_digits 0 cleaned) ≡ some (ip, port))
unfolding decode_cleaned
decode_cleaned_inv cleaned ip port h = ground arith

canonical :
    (cleaned : Bytes) (ip port : ℕ) (o : Option ℕ)
    → length cleaned ≡ code_len
    → read_digits 0 cleaned ≡ o
    → unpacked o ≡ some (ip, port)
    → (port ≡ pairing_port)
      × (ip < 2 ^ 32)
      × (cleaned ≡ digits_of code_len (packed ip pairing_port))
canonical cleaned ip port none l e h = cc
canonical cleaned ip port (some v) l e h =
    let inv = unpack_inv v ip port h in
    let n = packed ip pairing_port in
    (
      inv.0,
      inv.1,
      read_digits-injective 0 v cleaned (digits_of code_len n)
          (l ∙ sym (length-digits_of code_len n)) e
          (read_digits-digits_of code_len n (packed-lt ip pairing_port inv.1 (omega arith))
            ∙ ap (λ (m : ℕ). some m) (sym inv.2)),
    )

-- A code that decodes carries the pairing port and a 32-bit address, and is, up to case and
-- separators, the invite code of that address: no two codes decode to one address otherwise, and a
-- damaged code is refused or names another address.
pub encode-decode :
    (code : Bytes) (ip port : ℕ)
    → decode_invite code ≡ some (ip, port)
    → (port ≡ pairing_port) × (ip < 2 ^ 32) × (clean code ≡ clean (encode_invite ip port))
unfolding decode_invite
encode-decode code ip port h =
    let inv = decode_cleaned_inv (clean code) ip port h in
    let c = canonical (clean code) ip port (read_digits 0 (clean code)) inv.0 refl inv.1 in
    (c.0, c.1, c.2 ∙ sym (rw c.0 (clean-encode_invite ip pairing_port)))
