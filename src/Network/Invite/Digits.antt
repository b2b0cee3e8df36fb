-- ===== src/Network/Invite/Digits.antt =====
-- Digits of base 25: what `fill` writes, `read_digits` reads.
use synapt.Prelude.{
  ℕ, zero, suc, ◌+◌, ◌*◌, ◌/◌, ◌%◌, ◌^◌, ◌<◌, ◌≡◌, refl, sym, ap, ◌∙◌, Bool, true, false, not, ◌&&◌,
  Option, none, some, [], ◌∷◌, ◌++◌, append_assoc, length, length-append, ◌==◌, arith,
}
use native.Mathlib.Nat.{pow-suc}
use synapt.Network.Invite.{
  Bytes, alphabet, symbol, fill, position, read_digits, is_separator, to_upper,
}

-- Whether a test holds of all the numbers below a bound.
abbrev holds_below : (ℕ → Bool) → ℕ → Bool
holds_below test zero = true
holds_below test (suc bound) = holds_below test bound && test bound

holds_below-at :
    (test : ℕ → Bool) (bound i : ℕ) → i < bound → holds_below test bound ≡ true → test i ≡ true
holds_below-at test zero i l all = absurd (omega arith)
holds_below-at test (suc bound) i l all = ground (arith, holds_below-at test bound i)

abbrev is_some_of : Option ℕ → ℕ → Bool
is_some_of none i = false
is_some_of (some j) i = j == i

-- A symbol is found at its own place, and is its own cleaned form.
abbrev symbol_test : ℕ → Bool
symbol_test i =
    is_some_of (position (symbol i) alphabet) i
    && (not (is_separator (symbol i)) && to_upper (symbol i) == symbol i)

symbol_table : holds_below symbol_test 25 ≡ true
unfolding symbol position
symbol_table = refl

is_some_of_eq : (o : Option ℕ) (i : ℕ) → is_some_of o i ≡ true → o ≡ some i
is_some_of_eq none i h = cc
is_some_of_eq (some j) i h = ground arith

pub symbol_laws :
    (i : ℕ)
    → i < 25
    → (position (symbol i) alphabet ≡ some i)
      × (is_separator (symbol i) ≡ false)
      × (to_upper (symbol i) ≡ symbol i)
symbol_laws i h =
    let t : symbol_test i ≡ true = holds_below-at symbol_test 25 i h symbol_table in
    (is_some_of_eq (position (symbol i) alphabet) i (ground arith), ground arith, ground arith)

-- The symbols of the digits of `value`, the most significant first.
abbrev pub digits_of : ℕ → ℕ → Bytes
digits_of zero value = []
digits_of (suc slots) value = digits_of slots (value / 25) ++ symbol (value % 25) ∷ []

pub fill-eq :
    (slots value : ℕ) (digits : Bytes) → fill slots value digits ≡ digits_of slots value ++ digits
unfolding fill
fill-eq zero value digits = refl
fill-eq (suc slots) value digits =
    fill-eq slots (value / 25) (symbol (value % 25) ∷ digits)
    ∙ sym (append_assoc (digits_of slots (value / 25)) (symbol (value % 25) ∷ []) digits)

abbrev then_read : Bytes → Option ℕ → Option ℕ
then_read ys none = none
then_read ys (some value) = read_digits value ys

read_digits-append :
    (value : ℕ) (xs ys : Bytes) → read_digits value (xs ++ ys) ≡ then_read ys (read_digits value xs)
unfolding read_digits
read_digits-append value [] ys = refl
read_digits-append value (x ∷ xs) ys = go (position x alphabet) (λ v. read_digits-append v xs ys)
  where
    go :
        (o : Option ℕ)
        → ((v : ℕ) → read_digits v (xs ++ ys) ≡ then_read ys (read_digits v xs))
        → (elim o as (λ x. Option ℕ) [
          | none ↦ none
          | some digit ↦ read_digits (value * 25 + digit) (xs ++ ys)
        ])
          ≡ then_read ys (elim o as (λ x. Option ℕ) [
            | none ↦ none
            | some digit ↦ read_digits (value * 25 + digit) xs
          ])
    go none below = refl
    go (some digit) below = below (value * 25 + digit)

read_digits-symbol :
    (value i : ℕ) → i < 25 → read_digits value (symbol i ∷ []) ≡ some (value * 25 + i)
unfolding read_digits
read_digits-symbol value i h = rw ((symbol_laws i h).0, read_digits) refl

pub read_digits-digits_of :
    (slots value : ℕ) → value < 25 ^ slots → read_digits 0 (digits_of slots value) ≡ some value
read_digits-digits_of zero value h = unfold read_digits in ground arith
read_digits-digits_of (suc slots) value h =
    rw
      (
        read_digits-append 0 (digits_of slots (value / 25)) (symbol (value % 25) ∷ []),
        read_digits-digits_of slots (value / 25) (omega (arith, pow-suc 25 slots)),
      )
      (read_digits-symbol (value / 25) (value % 25) (omega arith)
        ∙ ap (λ (n : ℕ). some n) (omega arith))

pub length-digits_of : (slots value : ℕ) → length (digits_of slots value) ≡ slots
length-digits_of zero value = refl
length-digits_of (suc slots) value = omega (
  arith,
  length-append (digits_of slots (value / 25)) (symbol (value % 25) ∷ []),
  length-digits_of slots (value / 25),
)
