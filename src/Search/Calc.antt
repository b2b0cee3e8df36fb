-- ===== src/Search/Calc.antt =====
-- src-tauri/src/search/calc.rs: the calculator of the overlay.
-- Floating point numbers are a type with the operations that the code calls. `none` says that the
-- fuel has run out, which `evaluate` never does. The parser holds the tokens from `pos` on.
pub mod Descent
pub mod Termination
pub mod Grammar
pub mod Sound
pub mod Fuel
pub mod Runs
pub mod Complete
pub mod Written
mod Examples
use synapt.Prelude.{
  ℕ, zero, suc, ◌+◌, ◌*◌, Bool, false, not, ◌&&◌, ◌||◌, Option, none, some, List, [], ◌∷◌, ◌++◌,
  length, Text, codes, Result, ok, err, ltb, leb, ◌==◌, if◌then◌else◌,
}

pub data CalcError : Type 0 where
  parse_error : Text → CalcError
  division_by_zero : CalcError

-- The type f64: its operators, the comparison with 0.0, and `str::parse`, which may fail.
pub record Floats (F : Type 0) : Type 0 where
  pub add : F → F → F
  pub sub : F → F → F
  pub mul : F → F → F
  pub div : F → F → F
  pub neg : F → F
  pub is_zero : F → Bool
  pub parse : Text → Option F

pub data Token (F : Type 0) : Type 0 where
  num : F → Token F
  plus : Token F
  minus : Token F
  star : Token F
  slash : Token F
  lparen : Token F
  rparen : Token F

unfoldable pub is_ascii_digit : ℕ → Bool
is_ascii_digit c = leb b'0' c && leb c b'9'

unfoldable pub is_number_char : ℕ → Bool
unfolding is_ascii_digit
is_number_char c = is_ascii_digit c || c == b'.'

-- What the inner loop passes over, and what it leaves.
unfoldable pub take_number : Text → Text
take_number [] = []
take_number (c ∷ chars) = let more = take_number chars in if is_number_char c then c ∷ more else []

unfoldable pub drop_number : Text → Text
drop_number [] = []
drop_number (c ∷ chars) =
    let more = drop_number chars in if is_number_char c then more else c ∷ chars

unfoldable pub is_space : ℕ → Bool
is_space c = c == b' ' || (c == 9 || (c == 13 || c == 10))

abbrev pub Run : Type 0 → Type 0
Run A = Option (Result A CalcError)

infixl 5 ◌>>=◌
abbrev pub ◌>>=◌ : {A B : Type 0} → Run A → (A → Run B) → Run B
none >>= f = none
some (err e) >>= f = some (err e)
some (ok a) >>= f = f a

abbrev pub fail : {A : Type 0} → Text → Run A
fail msg = some (err (parse_error msg))

-- The token of one character, where there is one.
unfoldable pub symbol : {F : Type 0} → ℕ → Option (Token F)
symbol c =
    if c == b'+'
    then some plus
    else if c == b'-'
    then some minus
    else if c == b'*'
    then some star
    else if c == b'/'
    then some slash
    else if c == b'('
    then some lparen
    else if c == b')'
    then some rparen
    else none

module _ {F : Type 0} (fl : Floats F) where
  abbrev pub invalid_number : Text → Text
  invalid_number text = codes "invalid number '" ++ text ++ codes "'"

  abbrev pub unexpected_char : ℕ → Text
  unexpected_char c = codes "unexpected character '" ++ c ∷ codes "'"

  -- One round of the loop: the token it pushes, if any, and the characters that are left.
  unfoldable pub next_token : ℕ → Text → Result (Option (Token F) × Text) CalcError
  unfolding is_space symbol is_number_char take_number drop_number
  next_token c chars = if is_space c then ok (none, chars) else elim (symbol {F = F} c) [
    | some token ↦ ok (some token, chars)
    | none ↦
        if is_number_char c
        then elim (fl.parse (take_number (c ∷ chars))) [
          | none ↦ err (parse_error (invalid_number (take_number (c ∷ chars))))
          | some value ↦ ok (some (num value), drop_number (c ∷ chars))
        ]
        else err (parse_error (unexpected_char c))
  ]

  abbrev pub push_token : Option (Token F) → List (Token F) → List (Token F)
  push_token none tokens = tokens
  push_token (some token) tokens = tokens ++ token ∷ []

  -- The loop over the characters, with the tokens so far.
  unfoldable pub scan : ℕ → Text → List (Token F) → Run (List (Token F))
  unfolding next_token
  scan zero chars tokens = none
  scan (suc fuel) [] tokens = some (ok tokens)
  scan (suc fuel) (c ∷ chars) tokens =
      some (next_token c chars) >>= λ r. scan fuel r.1 (push_token r.0 tokens)

  unfoldable pub tokenize : Text → Run (List (Token F))
  unfolding scan
  tokenize input = scan (suc (length input)) input []

  module _ (debug : Token F → Text) where
    abbrev pub Parse : Type 0
    Parse = List (Token F) → Run (F × List (Token F))

    -- `advance` after `expr` in a parenthesis
    unfoldable pub close_paren : F → Parse
    close_paren value (rparen ∷ ts) = some (ok (value, ts))
    close_paren value [] = fail (codes "expected ')'")
    close_paren value (num n ∷ ts) = fail (codes "expected ')'")
    close_paren value (plus ∷ ts) = fail (codes "expected ')'")
    close_paren value (minus ∷ ts) = fail (codes "expected ')'")
    close_paren value (star ∷ ts) = fail (codes "expected ')'")
    close_paren value (slash ∷ ts) = fail (codes "expected ')'")
    close_paren value (lparen ∷ ts) = fail (codes "expected ')'")

    abbrev pub unexpected_token : Token F → Run (F × List (Token F))
    unexpected_token other = fail (codes "unexpected token " ++ debug other)

    -- The quotient, where the divisor is not zero.
    unfoldable pub divided : F → F → Run F
    divided value rhs =
        if fl.is_zero rhs then some (err division_by_zero) else some (ok (fl.div value rhs))

    unfoldable mutual
      unfolding close_paren divided

      pub expr : ℕ → Parse
      expr zero ts = none
      expr (suc fuel) ts = term fuel ts >>= λ r. expr_loop fuel r.0 r.1

      -- The loops of `expr` and `term`, with the value so far.
      pub expr_loop : ℕ → F → Parse
      expr_loop zero value ts = none
      expr_loop (suc fuel) value (plus ∷ ts) =
          term fuel ts >>= λ r. expr_loop fuel (fl.add value r.0) r.1
      expr_loop (suc fuel) value (minus ∷ ts) =
          term fuel ts >>= λ r. expr_loop fuel (fl.sub value r.0) r.1
      expr_loop (suc fuel) value [] = some (ok (value, []))
      expr_loop (suc fuel) value (num n ∷ ts) = some (ok (value, num n ∷ ts))
      expr_loop (suc fuel) value (star ∷ ts) = some (ok (value, star ∷ ts))
      expr_loop (suc fuel) value (slash ∷ ts) = some (ok (value, slash ∷ ts))
      expr_loop (suc fuel) value (lparen ∷ ts) = some (ok (value, lparen ∷ ts))
      expr_loop (suc fuel) value (rparen ∷ ts) = some (ok (value, rparen ∷ ts))

      pub term : ℕ → Parse
      term zero ts = none
      term (suc fuel) ts = factor fuel ts >>= λ r. term_loop fuel r.0 r.1

      pub term_loop : ℕ → F → Parse
      term_loop zero value ts = none
      term_loop (suc fuel) value (star ∷ ts) =
          factor fuel ts >>= λ r. term_loop fuel (fl.mul value r.0) r.1
      term_loop (suc fuel) value (slash ∷ ts) =
          factor fuel ts >>= λ r. divided value r.0 >>= λ q. term_loop fuel q r.1
      term_loop (suc fuel) value [] = some (ok (value, []))
      term_loop (suc fuel) value (num n ∷ ts) = some (ok (value, num n ∷ ts))
      term_loop (suc fuel) value (plus ∷ ts) = some (ok (value, plus ∷ ts))
      term_loop (suc fuel) value (minus ∷ ts) = some (ok (value, minus ∷ ts))
      term_loop (suc fuel) value (lparen ∷ ts) = some (ok (value, lparen ∷ ts))
      term_loop (suc fuel) value (rparen ∷ ts) = some (ok (value, rparen ∷ ts))

      pub factor : ℕ → Parse
      factor zero ts = none
      factor (suc fuel) (num n ∷ ts) = some (ok (n, ts))
      factor (suc fuel) (minus ∷ ts) = factor fuel ts >>= λ r. some (ok (fl.neg r.0, r.1))
      factor (suc fuel) (lparen ∷ ts) = expr fuel ts >>= λ r. close_paren r.0 r.1
      factor (suc fuel) (plus ∷ ts) = unexpected_token plus
      factor (suc fuel) (star ∷ ts) = unexpected_token star
      factor (suc fuel) (slash ∷ ts) = unexpected_token slash
      factor (suc fuel) (rparen ∷ ts) = unexpected_token rparen
      factor (suc fuel) [] = fail (codes "unexpected end of input")

    unfoldable pub finish : F → List (Token F) → Run F
    finish value [] = some (ok value)
    finish value (t ∷ ts) = fail (codes "unexpected trailing input")

    abbrev pub fuel_for : List (Token F) → ℕ
    fuel_for tokens = 4 * length tokens + 3

    unfoldable pub evaluate_tokens : List (Token F) → Run F
    unfolding expr finish
    evaluate_tokens [] = fail (codes "empty expression")
    evaluate_tokens (t ∷ ts) = expr (fuel_for (t ∷ ts)) (t ∷ ts) >>= λ r. finish r.0 r.1

    unfoldable pub evaluate : Text → Run F
    unfolding tokenize evaluate_tokens
    evaluate input = tokenize input >>= evaluate_tokens

unfoldable pub any : (ℕ → Bool) → Text → Bool
any test [] = false
any test (c ∷ chars) = test c || any test chars

unfoldable pub count : ℕ → Text → ℕ
count c [] = 0
count c (d ∷ chars) = (if d == c then 1 else 0) + count c chars

-- `char::is_whitespace`, which the standard library reads from the tables of Unicode, is an argument.
unfoldable pub trim_start : (ℕ → Bool) → Text → Text
trim_start is_whitespace [] = []
trim_start is_whitespace (c ∷ chars) =
    let more = trim_start is_whitespace chars in if is_whitespace c then more else c ∷ chars

unfoldable pub starts_with_char : ℕ → Text → Bool
starts_with_char c [] = false
starts_with_char c (d ∷ chars) = d == c

unfoldable pub looks_like_expression : (ℕ → Bool) → Text → Bool
unfolding any count is_ascii_digit trim_start starts_with_char
looks_like_expression is_whitespace input =
    let contains = λ (c : ℕ). any (λ d. d == c) input in
    let multiple_minus = ltb 1 (count b'-' input) in
    let minus_not_at_start =
      contains b'-' && not (starts_with_char b'-' (trim_start is_whitespace input)) in
    let has_op =
      contains b'+'
      || (contains b'*'
          || (contains b'/' || (contains b'(' || (multiple_minus || minus_not_at_start)))) in
    any is_ascii_digit input && has_op
