-- ===== src/Search/Calc/Sound.antt =====
-- What the parser accepts is an expression, and the value is that of the expression.
use synapt.Prelude.{
  ℕ, zero, suc, ◌≡◌, refl, ap, ◌∙◌, none, some, List, [], ◌∷◌, Text, ok, err, arith,
}
use synapt.Search.Calc.{
  Floats, Token, num, plus, minus, star, slash, lparen, rparen, Run, ◌>>=◌, close_paren, divided,
  expr, expr_loop, term, term_loop, factor,
}
use synapt.Search.Calc.Grammar.{
  Factor, Product, Sum, lit, negated, group, one, times, over, single, sum, difference,
  print_factor, print_product, print_sum, value_factor, value_product, value_sum, quotient,
}

module _ {F : Type 0} (fl : Floats F) (debug : Token F → Text) where
  pub bind-ok :
      {A B : Type 0} (r : Run A) (f : A → Run B) (b : B)
      → (r >>= f) ≡ some (ok b)
      → (a : A) × (r ≡ some (ok a)) × (f a ≡ some (ok b))
  bind-ok none f b h = cc
  bind-ok (some (err e)) f b h = cc
  bind-ok (some (ok a)) f b h = (a, refl, h)

  closed :
      (v w : F) (ts rest : List (Token F))
      → close_paren fl debug v ts ≡ some (ok (w, rest))
      → (ts ≡ rparen ∷ rest) × (v ≡ w)
  unfolding close_paren
  closed v w (rparen ∷ ts) rest h = (cc, cc)
  closed v w [] rest h = cc
  closed v w (num n ∷ ts) rest h = cc
  closed v w (plus ∷ ts) rest h = cc
  closed v w (minus ∷ ts) rest h = cc
  closed v w (star ∷ ts) rest h = cc
  closed v w (slash ∷ ts) rest h = cc
  closed v w (lparen ∷ ts) rest h = cc

  divided-quotient : (v w q : F) → divided fl debug v w ≡ some (ok q) → quotient fl v w ≡ ok q
  unfolding divided
  divided-quotient v w q h = ground arith

  abbrev pub IsSum : F → List (Token F) → List (Token F) → Type 0
  IsSum v ts rest = (s : Sum F) × (ts ≡ print_sum s rest) × (value_sum fl s ≡ ok v)

  abbrev pub IsProduct : F → List (Token F) → List (Token F) → Type 0
  IsProduct v ts rest = (p : Product F) × (ts ≡ print_product p rest) × (value_product fl p ≡ ok v)

  abbrev pub IsFactor : F → List (Token F) → List (Token F) → Type 0
  IsFactor v ts rest = (f : Factor F) × (ts ≡ print_factor f rest) × (value_factor fl f ≡ ok v)

  sum_on :
      (s : Sum F) (p : Product F) (v w : F)
      → value_sum fl s ≡ ok v
      → value_product fl p ≡ ok w
      → (value_sum fl (sum s p) ≡ ok (fl.add v w))
        × (value_sum fl (difference s p) ≡ ok (fl.sub v w))
  unfolding value_sum
  sum_on s p v w hs hp = (ground arith, ground arith)

  product_on :
      (p : Product F) (f : Factor F) (v w : F)
      → value_product fl p ≡ ok v
      → value_factor fl f ≡ ok w
      → (value_product fl (times p f) ≡ ok (fl.mul v w))
        × (value_product fl (over p f) ≡ quotient fl v w)
  unfolding value_sum
  product_on p f v w hp hf = (ground arith, ground arith)

  stop :
      (s : Sum F) (v : F) (ts : List (Token F)) (w : F) (rest : List (Token F))
      → ◌≡◌ {A = Run (F × List (Token F))} (some (ok (v, ts))) (some (ok (w, rest)))
      → value_sum fl s ≡ ok v
      → IsSum w (print_sum s ts) rest
  stop s v ts w rest h hs = (s, ap (print_sum s) (cc), ground (arith))

  halt :
      (p : Product F) (v : F) (ts : List (Token F)) (w : F) (rest : List (Token F))
      → ◌≡◌ {A = Run (F × List (Token F))} (some (ok (v, ts))) (some (ok (w, rest)))
      → value_product fl p ≡ ok v
      → IsProduct w (print_product p ts) rest
  halt p v ts w rest h hp = (p, ap (print_product p) (cc), ground (arith))

  negate :
      (f : Factor F) (u v : F) (ts behind rest : List (Token F))
      → ◌≡◌ {A = Run (F × List (Token F))} (some (ok (fl.neg u, behind))) (some (ok (v, rest)))
      → ts ≡ print_factor f behind
      → value_factor fl f ≡ ok u
      → IsFactor v (minus ∷ ts) rest
  unfolding print_sum value_sum
  negate f u v ts behind rest k t a =
      let same : behind ≡ rest = cc in
      (
        negated f,
        ap (λ (x : List (Token F)). minus ∷ x) (t ∙ ap (print_factor f) same),
        ground arith,
      )

  mutual
    unfolding expr print_sum value_sum

    pub sound_expr :
        (fuel : ℕ) (ts : List (Token F)) (v : F) (rest : List (Token F))
        → expr fl debug fuel ts ≡ some (ok (v, rest))
        → IsSum v ts rest
    sound_expr zero ts v rest h = cc
    sound_expr (suc fuel) ts v rest h =
        let (r, e, k) = bind-ok (term fl debug fuel ts) _ (v, rest) h in
        let (p, t, a) = sound_term fuel ts r.0 r.1 e in
        let (s, same, b) = sound_expr_loop fuel r.0 r.1 v rest k (single p) a in (s, t ∙ same, b)

    sound_expr_loop :
        (fuel : ℕ) (v : F) (ts : List (Token F)) (w : F) (rest : List (Token F))
        → expr_loop fl debug fuel v ts ≡ some (ok (w, rest))
        → (s : Sum F) → value_sum fl s ≡ ok v
        → IsSum w (print_sum s ts) rest
    sound_expr_loop zero v ts w rest h s hs = cc
    sound_expr_loop (suc fuel) v (plus ∷ ts) w rest h s hs =
        let (r, e, k) = bind-ok (term fl debug fuel ts) _ (w, rest) h in
        let (p, t, a) = sound_term fuel ts r.0 r.1 e in
        let (s', same, b) =
          sound_expr_loop fuel (fl.add v r.0) r.1 w rest k (sum s p) (sum_on s p v r.0 hs a).0 in
        (s', ap (λ (x : List (Token F)). print_sum s (plus ∷ x)) t ∙ same, b)
    sound_expr_loop (suc fuel) v (minus ∷ ts) w rest h s hs =
        let (r, e, k) = bind-ok (term fl debug fuel ts) _ (w, rest) h in
        let (p, t, a) = sound_term fuel ts r.0 r.1 e in
        let (s', same, b) =
          sound_expr_loop fuel (fl.sub v r.0) r.1 w rest k (difference s p)
            (sum_on s p v r.0 hs a).1 in
        (s', ap (λ (x : List (Token F)). print_sum s (minus ∷ x)) t ∙ same, b)
    sound_expr_loop (suc fuel) v [] w rest h s hs = stop s v [] w rest h hs
    sound_expr_loop (suc fuel) v (num n ∷ ts) w rest h s hs = stop s v (num n ∷ ts) w rest h hs
    sound_expr_loop (suc fuel) v (star ∷ ts) w rest h s hs = stop s v (star ∷ ts) w rest h hs
    sound_expr_loop (suc fuel) v (slash ∷ ts) w rest h s hs = stop s v (slash ∷ ts) w rest h hs
    sound_expr_loop (suc fuel) v (lparen ∷ ts) w rest h s hs = stop s v (lparen ∷ ts) w rest h hs
    sound_expr_loop (suc fuel) v (rparen ∷ ts) w rest h s hs = stop s v (rparen ∷ ts) w rest h hs

    sound_term :
        (fuel : ℕ) (ts : List (Token F)) (v : F) (rest : List (Token F))
        → term fl debug fuel ts ≡ some (ok (v, rest))
        → IsProduct v ts rest
    sound_term zero ts v rest h = cc
    sound_term (suc fuel) ts v rest h =
        let (r, e, k) = bind-ok (factor fl debug fuel ts) _ (v, rest) h in
        let (f, t, a) = sound_factor fuel ts r.0 r.1 e in
        let (p, same, b) = sound_term_loop fuel r.0 r.1 v rest k (one f) a in (p, t ∙ same, b)

    sound_term_loop :
        (fuel : ℕ) (v : F) (ts : List (Token F)) (w : F) (rest : List (Token F))
        → term_loop fl debug fuel v ts ≡ some (ok (w, rest))
        → (p : Product F) → value_product fl p ≡ ok v
        → IsProduct w (print_product p ts) rest
    sound_term_loop zero v ts w rest h p hp = cc
    sound_term_loop (suc fuel) v (star ∷ ts) w rest h p hp =
        let (r, e, k) = bind-ok (factor fl debug fuel ts) _ (w, rest) h in
        let (f, t, a) = sound_factor fuel ts r.0 r.1 e in
        let (p', same, b) =
          sound_term_loop fuel (fl.mul v r.0) r.1 w rest k (times p f)
            (product_on p f v r.0 hp a).0 in
        (p', ap (λ (x : List (Token F)). print_product p (star ∷ x)) t ∙ same, b)
    sound_term_loop (suc fuel) v (slash ∷ ts) w rest h p hp =
        let (r, e, k) = bind-ok (factor fl debug fuel ts) _ (w, rest) h in
        let (f, t, a) = sound_factor fuel ts r.0 r.1 e in
        let (q, d, l) = bind-ok (divided fl debug v r.0) _ (w, rest) k in
        let (p', same, b) =
          sound_term_loop fuel q r.1 w rest l (over p f)
            ((product_on p f v r.0 hp a).1 ∙ divided-quotient v r.0 q d) in
        (p', ap (λ (x : List (Token F)). print_product p (slash ∷ x)) t ∙ same, b)
    sound_term_loop (suc fuel) v [] w rest h p hp = halt p v [] w rest h hp
    sound_term_loop (suc fuel) v (num n ∷ ts) w rest h p hp = halt p v (num n ∷ ts) w rest h hp
    sound_term_loop (suc fuel) v (plus ∷ ts) w rest h p hp = halt p v (plus ∷ ts) w rest h hp
    sound_term_loop (suc fuel) v (minus ∷ ts) w rest h p hp = halt p v (minus ∷ ts) w rest h hp
    sound_term_loop (suc fuel) v (lparen ∷ ts) w rest h p hp = halt p v (lparen ∷ ts) w rest h hp
    sound_term_loop (suc fuel) v (rparen ∷ ts) w rest h p hp = halt p v (rparen ∷ ts) w rest h hp

    sound_factor :
        (fuel : ℕ) (ts : List (Token F)) (v : F) (rest : List (Token F))
        → factor fl debug fuel ts ≡ some (ok (v, rest))
        → IsFactor v ts rest
    sound_factor zero ts v rest h = cc
    sound_factor (suc fuel) (num n ∷ ts) v rest h = (lit n, cc, cc)
    sound_factor (suc fuel) (minus ∷ ts) v rest h =
        let (r, e, k) = bind-ok (factor fl debug fuel ts) _ (v, rest) h in
        let (f, t, a) = sound_factor fuel ts r.0 r.1 e in negate f r.0 v ts r.1 rest k t a
    sound_factor (suc fuel) (lparen ∷ ts) v rest h =
        let (r, e, k) = bind-ok (expr fl debug fuel ts) _ (v, rest) h in
        let (s, t, a) = sound_expr fuel ts r.0 r.1 e in
        let (c, same) = closed r.0 v r.1 rest k in
        (group s, ap (λ (x : List (Token F)). lparen ∷ x) (t ∙ ap (print_sum s) c), a ∙ ap ok same)
    sound_factor (suc fuel) (plus ∷ ts) v rest h = cc
    sound_factor (suc fuel) (star ∷ ts) v rest h = cc
    sound_factor (suc fuel) (slash ∷ ts) v rest h = cc
    sound_factor (suc fuel) (rparen ∷ ts) v rest h = cc
    sound_factor (suc fuel) [] v rest h = cc
