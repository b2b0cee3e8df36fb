-- ===== src/Search/Calc/Examples.antt =====
-- The tests of calc.rs, over numbers of three digits for f64, and the theorems at concrete expressions.
use synapt.Prelude.{
  ℕ, ◌+◌, ◌-◌, ◌*◌, ◌/◌, ◌≡◌, ◌↔◌, refl, some, [], ◌∷◌, Text, codes, Result, ok, err, true, false,
  ◌==◌,
}
use synapt.Search.Calc.{
  CalcError, division_by_zero, Floats, Token, evaluate, evaluate_tokens, looks_like_expression,
  tokenize, is_number_char,
}
use synapt.Search.Calc.Grammar.{Sum, lit, group, one, times, single, sum, print_sum, value_sum}
use synapt.Search.Calc.Termination.{evaluate_ends}
use synapt.Search.Calc.Complete.{evaluate_tokens_lem}
use synapt.Search.Calc.Written.{evaluate-render}

abbrev value_of : ℕ → Text → ℕ
value_of n [] = n
value_of n (c ∷ chars) = value_of (n * 10 + (c - 48)) chars

abbrev numbers : Floats ℕ
numbers = record {
  add = λ a b. a + b;
  sub = λ a b. a - b;
  mul = λ a b. a * b;
  div = λ a b. a / b;
  neg = λ a. 0 - a;
  is_zero = λ a. a == 0;
  parse = λ t. some (value_of 0 t);
}

abbrev debug : Token ℕ → Text
debug t = codes "token"

precedence : evaluate numbers debug (codes "2 + 3 * 4") ≡ some (ok 14)
unfolding evaluate tokenize is_number_char
precedence = refl

by_zero : evaluate numbers debug (codes "1 / 0") ≡ some (err division_by_zero)
unfolding evaluate tokenize is_number_char
by_zero = refl

abbrev digit : ℕ → Text
digit n = (48 + n) ∷ []

-- (2 + 3) * 4
abbrev grouped : Sum ℕ
grouped = single (times (one (group (sum (single (one (lit 2))) (one (lit 3))))) (lit 4))

evaluate_ends_example :
    (r : Result ℕ CalcError) × (evaluate numbers debug (codes "(2 + 3) * 4") ≡ some r)
evaluate_ends_example = evaluate_ends numbers debug (codes "(2 + 3) * 4")

evaluate_tokens_example :
    (evaluate_tokens numbers debug (print_sum grouped []) ≡ some (ok 20))
    ↔ ((s : Sum ℕ) × (print_sum grouped [] ≡ print_sum s []) × (value_sum numbers s ≡ ok 20))
evaluate_tokens_example = evaluate_tokens_lem numbers debug (print_sum grouped []) 20

evaluate-render_example : evaluate numbers debug (codes "( 2 + 3 ) * 4 ") ≡ some (ok 20)
unfolding print_sum value_sum is_number_char
evaluate-render_example = evaluate-render numbers debug digit grouped (
  tt,
  (
    (50, [], refl, refl, tt, refl),
    (tt, ((51, [], refl, refl, tt, refl), (tt, (tt, ((52, [], refl, refl, tt, refl), tt))))),
  ),
)

looks_like_arithmetic : looks_like_expression (λ c. c == 32) (codes "2 + 2") ≡ true
unfolding looks_like_expression
looks_like_arithmetic = refl

a_file_name : looks_like_expression (λ c. c == 32) (codes "report.pdf") ≡ false
unfolding looks_like_expression
a_file_name = refl
