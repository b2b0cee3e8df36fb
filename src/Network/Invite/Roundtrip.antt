-- ===== src/Network/Invite/Roundtrip.antt =====
-- Decoding an invite code gives back what was encoded, and nothing else decodes.
use synapt.Prelude.{
  ℕ, zero, suc, ◌+◌, ◌*◌, ◌/◌, ◌%◌, ◌^◌, ◌<◌, ◌≡◌, refl, sym, ap, ◌∙◌, true, Option, none, some, [],
  ◌∷◌, ◌++◌, append-nil, length, arith,
}
use native.Mathlib.Nat.{pow-suc, div-div-eq-div-mul}
use synapt.Network.Invite.{
  Bytes, pairing_port, code_len, alphabet, symbol, fill, render, packed, position, read_digits,
  unpack, clean, is_separator, to_upper, encode_invite, decode_cleaned, decode_invite,
}
use synapt.Network.Invite.Digits.{
  symbol_laws, digits_of, fill-eq, read_digits-digits_of, length-digits_of,
}

-- `Mangled s t`: the second code is the first with separators put in or left out, and letters in
-- either case.
pub data Mangled : Bytes → Bytes → Type 0 where
  done : Mangled [] []
  put_in : {s t : Bytes} (b : ℕ) → is_separator b ≡ true → Mangled s t → Mangled s (b ∷ t)
  left_out : {s t : Bytes} (b : ℕ) → is_separator b ≡ true → Mangled s t → Mangled (b ∷ s) t
  kept :
      {s t : Bytes} (b c : ℕ)
      → is_separator b ≡ is_separator c
      → to_upper b ≡ to_upper c
      → Mangled s t
      → Mangled (b ∷ s) (c ∷ t)

clean-Mangled : {s t : Bytes} → Mangled s t → clean s ≡ clean t
unfolding clean
clean-Mangled done = refl
clean-Mangled (put_in b sep m) = ground (arith, clean-Mangled m)
clean-Mangled (left_out b sep m) = ground (arith, clean-Mangled m)
clean-Mangled (kept b c sep same m) = ground (arith, clean-Mangled m)

clean-append : (xs ys : Bytes) → clean (xs ++ ys) ≡ clean xs ++ clean ys
unfolding clean
clean-append [] ys = refl
clean-append (x ∷ xs) ys = ground (arith, clean-append xs ys)

clean-digits_of : (slots value : ℕ) → clean (digits_of slots value) ≡ digits_of slots value
clean-digits_of zero value = unfold clean in refl
clean-digits_of (suc slots) value =
    rw
      (
        clean-append (digits_of slots (value / 25)) (symbol (value % 25) ∷ []),
        clean-digits_of slots (value / 25),
      )
      (ap (λ (l : Bytes). digits_of slots (value / 25) ++ l) (last (value % 25) (omega arith)))
  where
    last : (i : ℕ) → i < 25 → clean (symbol i ∷ []) ≡ symbol i ∷ []
    last i h = unfold clean in ground (arith, symbol_laws i h)

-- The dash that `render` puts in is cleaned away.
clean-render : (i : ℕ) (digits : Bytes) → clean (render i digits) ≡ clean digits
unfolding clean render
clean-render i [] = refl
clean-render i (ch ∷ digits) = ground (arith, clean-render (i + 1) digits)

pub clean-encode_invite :
    (ip port : ℕ) → clean (encode_invite ip port) ≡ digits_of code_len (packed ip port)
clean-encode_invite ip port =
    unfold encode_invite in
    (clean-render 0 (fill code_len (packed ip port) [])
      ∙ ap clean
          (fill-eq code_len (packed ip port) [] ∙ append-nil (digits_of code_len (packed ip port)))
      ∙ clean-digits_of code_len (packed ip port))

pub packed-lt : (ip port : ℕ) → ip < 2 ^ 32 → port < 2 ^ 16 → packed ip port < 25 ^ 11
packed-lt ip port h k = omega arith

unpack-packed : (ip : ℕ) → ip < 2 ^ 32 → unpack (packed ip pairing_port) ≡ some (ip, pairing_port)
unfolding unpack
unpack-packed ip h = ground arith

pub decode_cleaned-some :
    (cleaned : Bytes) (v : ℕ)
    → length cleaned ≡ code_len
    → read_digits 0 cleaned ≡ some v
    → decode_cleaned cleaned ≡ unpack v
unfolding decode_cleaned
decode_cleaned-some cleaned v h k = ground arith

-- An invite code for the pairing port decodes to the address that it was made from, in either case
-- of its letters and with separators put in or left out anywhere.
pub decode-encode :
    (ip : ℕ) (code : Bytes)
    → ip < 2 ^ 32
    → Mangled (encode_invite ip pairing_port) code
    → decode_invite code ≡ some (ip, pairing_port)
decode-encode ip code h m =
    let v = packed ip pairing_port in
    unfold decode_invite in
    (ap decode_cleaned (sym (clean-Mangled m) ∙ clean-encode_invite ip pairing_port)
      ∙ decode_cleaned-some (digits_of code_len v) v (length-digits_of code_len v)
          (read_digits-digits_of code_len v (packed-lt ip pairing_port h (omega arith)))
      ∙ unpack-packed ip h)

pub position-injective :
    (x y i : ℕ) (xs : Bytes) → position x xs ≡ some i → position y xs ≡ some i → x ≡ y
unfolding position
position-injective x y i [] h k = cc
position-injective x y zero (a ∷ xs) h k = ground arith
position-injective x y (suc i) (a ∷ xs) h k = ground (arith, position-injective x y i xs)

abbrev pub read_from : Option ℕ → ℕ → Bytes → Option ℕ
read_from none value rest = none
read_from (some digit) value rest = read_digits (value * 25 + digit) rest

pub read_digits_cons :
    (value x : ℕ) (xs : Bytes)
    → read_digits value (x ∷ xs) ≡ read_from (position x alphabet) value xs
unfolding read_digits
read_digits_cons value x xs = go (position x alphabet)
  where
    go :
        (o : Option ℕ)
        → (elim o as (λ x. Option ℕ) [
          | none ↦ none
          | some digit ↦ read_digits (value * 25 + digit) xs
        ])
          ≡ read_from o value xs
    go none = refl
    go (some digit) = refl

-- A symbol stands for a digit below 25.
pub position-lt : (x i : ℕ) (xs : Bytes) → position x xs ≡ some i → i < length xs
unfolding position
position-lt x i [] h = cc
position-lt x zero (a ∷ xs) h = omega arith
position-lt x (suc i) (a ∷ xs) h = ground (arith, position-lt x i xs)

leading : (v p value i : ℕ) → v / p ≡ value * 25 + i → i < 25 → v / p / 25 ≡ value
leading v p value i h k = omega arith

-- The digits read so far are the leading ones of the result.
pub read_digits-leading :
    (value v : ℕ) (xs : Bytes) → read_digits value xs ≡ some v → v / 25 ^ length xs ≡ value
read_digits-leading value v [] h = unfold read_digits in ground arith
read_digits-leading value v (x ∷ xs) h =
    go (position x alphabet) refl (sym (read_digits_cons value x xs) ∙ h)
      (λ a. read_digits-leading a v xs)
  where
    go :
        (o : Option ℕ)
        → position x alphabet ≡ o
        → read_from o value xs ≡ some v
        → ((a : ℕ) → read_digits a xs ≡ some v → v / 25 ^ length xs ≡ a)
        → v / 25 ^ length (x ∷ xs) ≡ value
    go none e k below = cc
    go (some i) e k below =
        ap (λ (p : ℕ). v / p) (pow-suc 25 (length xs))
        ∙ sym (div-div-eq-div-mul v (25 ^ length xs) 25)
        ∙ leading v (25 ^ length xs) value i (below (value * 25 + i) k) (position-lt x i alphabet e)
