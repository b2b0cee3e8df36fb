-- ===== src/Search/Calc/Written.antt =====
-- Expressions as they are typed: every token with a space behind it.
use synapt.Prelude.{
  ℕ, zero, suc, ◌≤◌, ◌<◌, ◌≡◌, refl, sym, ap, ◌∙◌, none, some, List, [], ◌∷◌, ◌++◌, append_assoc,
  append-nil, length, length-append, All, Text, ok, arith, true, false,
}
use synapt.Search.Calc.{
  Floats, Token, num, plus, minus, star, slash, lparen, rparen, Run, ◌>>=◌, is_number_char,
  take_number, drop_number, is_space, symbol, next_token, scan, tokenize, evaluate_tokens, evaluate,
}
use synapt.Search.Calc.Grammar.{Sum, print_sum, value_sum}
use synapt.Search.Calc.Complete.{evaluate_print}

module _ {F : Type 0} (fl : Floats F) (show : F → Text) where
  -- A number is written by at least one digit or point, and reads as itself.
  abbrev pub IsWritten : Token F → Type 0
  IsWritten (num n) =
      (c : ℕ) × (digits : Text) × (show n ≡ c ∷ digits)
      × (is_number_char c ≡ true)
      × All (λ d. is_number_char d ≡ true) digits
      × (fl.parse (show n) ≡ some n)
  IsWritten plus = Unit {0}
  IsWritten minus = Unit {0}
  IsWritten star = Unit {0}
  IsWritten slash = Unit {0}
  IsWritten lparen = Unit {0}
  IsWritten rparen = Unit {0}

  abbrev pub text_of : Token F → Text
  text_of (num n) = show n
  text_of plus = b'+' ∷ []
  text_of minus = b'-' ∷ []
  text_of star = b'*' ∷ []
  text_of slash = b'/' ∷ []
  text_of lparen = b'(' ∷ []
  text_of rparen = b')' ∷ []

  abbrev pub render : List (Token F) → Text
  render [] = []
  render (t ∷ ts) = text_of t ++ b' ' ∷ render ts

  taken :
      (digits behind : Text)
      → All (λ d. is_number_char d ≡ true) digits
      → (take_number (digits ++ b' ' ∷ behind) ≡ digits)
        × (drop_number (digits ++ b' ' ∷ behind) ≡ b' ' ∷ behind)
  unfolding take_number drop_number is_number_char
  taken [] behind h = (refl, refl)
  taken (d ∷ digits) behind h =
      let ih = taken digits behind h.1 in (ground (arith, h.0), ground (arith, h.0))

  plain : (c : ℕ) → is_number_char c ≡ true → (is_space c ≡ false) × (symbol {F = F} c ≡ none)
  unfolding is_number_char is_space symbol
  plain c h = (ground arith, ground arith)

  next_number :
      (n : F) (c : ℕ) (digits behind : Text)
      → show n ≡ c ∷ digits
      → is_number_char c ≡ true
      → All (λ d. is_number_char d ≡ true) digits
      → fl.parse (show n) ≡ some n
      → next_token fl c (digits ++ b' ' ∷ behind) ≡ ok (some (num n), b' ' ∷ behind)
  unfolding next_token
  next_number n c digits behind e h all p =
      ground (arith, taken (c ∷ digits) behind (h, all), plain c h)

  two_rounds :
      (t : Token F) (behind : Text) (tokens : List (Token F)) (fuel : ℕ)
      → IsWritten t
      → scan fl (suc (suc fuel)) (text_of t ++ b' ' ∷ behind) tokens
        ≡ scan fl fuel behind (tokens ++ t ∷ [])
  unfolding scan next_token is_space symbol
  two_rounds (num n) behind tokens fuel (c, digits, e, h, all, p) =
      rw e (ground (arith, next_number n c digits behind e h all p))
  two_rounds plus behind tokens fuel h = refl
  two_rounds minus behind tokens fuel h = refl
  two_rounds star behind tokens fuel h = refl
  two_rounds slash behind tokens fuel h = refl
  two_rounds lparen behind tokens fuel h = refl
  two_rounds rparen behind tokens fuel h = refl

  length-text_of : (t : Token F) → IsWritten t → 1 ≤ length (text_of t)
  length-text_of (num n) (c, digits, e, h, all, p) = rw e (omega arith)
  length-text_of plus h = omega arith
  length-text_of minus h = omega arith
  length-text_of star h = omega arith
  length-text_of slash h = omega arith
  length-text_of lparen h = omega arith
  length-text_of rparen h = omega arith

  scan-render :
      (ts tokens : List (Token F)) (fuel : ℕ)
      → All IsWritten ts
      → length (render ts) < fuel
      → scan fl fuel (render ts) tokens ≡ some (ok (tokens ++ ts))
  unfolding scan
  scan-render ts tokens zero all h = absurd (omega (arith, h))
  scan-render [] tokens (suc fuel) all h =
      ap (λ (x : List (Token F)). some (ok x)) (sym (append-nil tokens))
  scan-render (t ∷ ts) tokens (suc zero) all h =
      absurd (omega (arith, h, length-append (text_of t) (b' ' ∷ render ts)))
  scan-render (t ∷ ts) tokens (suc (suc fuel)) all h =
      two_rounds t (render ts) tokens fuel all.0
      ∙ scan-render ts (tokens ++ t ∷ []) fuel all.1
          (omega (arith, h, length-append (text_of t) (b' ' ∷ render ts), length-text_of t all.0))
      ∙ ap (λ (x : List (Token F)). some (ok x)) (append_assoc tokens (t ∷ []) ts)

-- An expression that is typed with a space behind every token evaluates to its value, or to the
-- division by zero that its value meets first, where its numbers are written with digits and points
-- and read as themselves.
pub evaluate-render :
    {F : Type 0} (fl : Floats F) (debug : Token F → Text) (show : F → Text) (s : Sum F)
    → All (IsWritten fl show) (print_sum s [])
    → evaluate fl debug (render fl show (print_sum s [])) ≡ some (value_sum fl s)
unfolding evaluate tokenize
evaluate-render {F = F} fl debug show s all =
    ap (λ (x : Run (List (Token F))). x >>= evaluate_tokens fl debug)
      (scan-render fl show (print_sum s []) [] (suc (length (render fl show (print_sum s [])))) all
        (omega arith))
    ∙ evaluate_print fl debug s
