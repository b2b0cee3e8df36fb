-- ===== src/Search/Calc/Grammar.antt =====
-- What the calculator is meant to read: sums of products of factors, to the left, and their values.
use synapt.Prelude.{List, ◌∷◌, Result, ok, err, if◌then◌else◌}
use synapt.Search.Calc.{
  CalcError, division_by_zero, Floats, Token, num, plus, minus, star, slash, lparen, rparen,
}

mutual
  pub data Factor (F : Type 0) : Type 0 where
    lit : F → Factor F
    negated : Factor F → Factor F
    group : Sum F → Factor F

  pub data Product (F : Type 0) : Type 0 where
    one : Factor F → Product F
    times : Product F → Factor F → Product F
    over : Product F → Factor F → Product F

  pub data Sum (F : Type 0) : Type 0 where
    single : Product F → Sum F
    sum : Sum F → Product F → Sum F
    difference : Sum F → Product F → Sum F

infixl 5 ◌>>=◌
abbrev pub ◌>>=◌ :
    {A B : Type 0} → Result A CalcError → (A → Result B CalcError) → Result B CalcError
err e >>= f = err e
ok a >>= f = f a

module _ {F : Type 0} where
  -- The tokens of an expression, in front of those given.
  unfoldable mutual
    pub print_factor : Factor F → List (Token F) → List (Token F)
    print_factor (lit n) ts = num n ∷ ts
    print_factor (negated f) ts = minus ∷ print_factor f ts
    print_factor (group s) ts = lparen ∷ print_sum s (rparen ∷ ts)

    pub print_product : Product F → List (Token F) → List (Token F)
    print_product (one f) ts = print_factor f ts
    print_product (times p f) ts = print_product p (star ∷ print_factor f ts)
    print_product (over p f) ts = print_product p (slash ∷ print_factor f ts)

    pub print_sum : Sum F → List (Token F) → List (Token F)
    print_sum (single p) ts = print_product p ts
    print_sum (sum s p) ts = print_sum s (plus ∷ print_product p ts)
    print_sum (difference s p) ts = print_sum s (minus ∷ print_product p ts)

  module _ (fl : Floats F) where
    abbrev pub quotient : F → F → Result F CalcError
    quotient v w = if fl.is_zero w then err division_by_zero else ok (fl.div v w)

    unfoldable mutual
      pub value_factor : Factor F → Result F CalcError
      value_factor (lit n) = ok n
      value_factor (negated f) = value_factor f >>= λ v. ok (fl.neg v)
      value_factor (group s) = value_sum s

      pub value_product : Product F → Result F CalcError
      value_product (one f) = value_factor f
      value_product (times p f) = value_product p >>= λ v. value_factor f >>= λ w. ok (fl.mul v w)
      value_product (over p f) = value_product p >>= λ v. value_factor f >>= λ w. quotient v w

      pub value_sum : Sum F → Result F CalcError
      value_sum (single p) = value_product p
      value_sum (sum s p) = value_sum s >>= λ v. value_product p >>= λ w. ok (fl.add v w)
      value_sum (difference s p) = value_sum s >>= λ v. value_product p >>= λ w. ok (fl.sub v w)
