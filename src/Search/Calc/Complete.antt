-- ===== src/Search/Calc/Complete.antt =====
-- The parser reads every expression, and `evaluate_tokens` gives its value.
use synapt.Prelude.{
  ℕ, ◌+◌, ◌≡◌, refl, sym, ap, ◌∙◌, ◌↔◌, some, List, [], ◌∷◌, Text, Result, ok, err, arith,
}
use synapt.Search.Calc.{
  CalcError, Floats, Token, num, plus, minus, star, slash, lparen, rparen, Run, ◌>>=◌, close_paren,
  divided, expr, expr_loop, term, term_loop, factor, finish, evaluate_tokens, fuel_for,
}
use synapt.Search.Calc.Fuel.{expr_more}
use synapt.Search.Calc.Sound.{bind-ok, sound_expr}
use synapt.Search.Calc.Termination.{expr_answers}
use synapt.Search.Calc.Grammar
use synapt.Search.Calc.Grammar.{
  Factor, Product, Sum, lit, negated, group, one, times, over, single, sum, difference,
  print_factor, print_product, print_sum, value_factor, value_product, value_sum, quotient,
}
use synapt.Search.Calc.Runs.{
  Ends, Ends-suc, at_once, Parsed, Next, with_rest, IsAfter, halts, SumGoes, ProductGoes, follow,
  Next-bind, quotient_goes, round, stays,
}

module _ {F : Type 0} (fl : Floats F) (debug : Token F → Text) where
  mutual
    unfolding expr print_sum value_sum close_paren

    complete_factor :
        (f : Factor F) (ts : List (Token F))
        → Ends
            (λ n. factor fl debug n (print_factor f ts))
            (with_rest fl debug (value_factor fl f) ts)
    complete_factor (lit x) ts =
        at_once (λ n. factor fl debug n (num x ∷ ts)) (ok (x, ts)) (λ n. refl)
    complete_factor (negated f) ts =
        round fl debug (λ n. factor fl debug n (minus ∷ print_factor f ts))
          (λ n. factor fl debug n (print_factor f ts)) (value_factor fl f) ts (λ v. ok (fl.neg v))
          (λ n x. some (ok (fl.neg x.0, x.1))) (λ v r. r ≡ ok (v, ts))
          (with_rest fl debug (value_factor fl (negated f)) ts) (λ n. refl) (complete_factor f ts)
          (stays fl debug (value_factor fl (negated f)) ts (λ v r. r ≡ ok (v, ts)) (λ v. refl))
          (λ w k. (0, λ m l. ap (λ (x : Parsed fl debug). some x) (sym k)))
    complete_factor (group s) ts =
        Ends-suc (λ n. factor fl debug n (lparen ∷ print_sum s (rparen ∷ ts)))
          (λ n. expr fl debug n (print_sum s (rparen ∷ ts)) >>= λ x. close_paren fl debug x.0 x.1)
          (with_rest fl debug (value_sum fl s) ts) (λ n. refl)
          (follow fl debug (λ n. expr fl debug n (print_sum s (rparen ∷ ts))) (value_sum fl s)
            (rparen ∷ ts) (λ n x. close_paren fl debug x.0 x.1)
            (with_rest fl debug (value_sum fl s) ts)
            (complete_sum s (rparen ∷ ts) (with_rest fl debug (value_sum fl s) (rparen ∷ ts)) tt (
              stays fl debug (value_sum fl s) (rparen ∷ ts) (SumGoes fl debug (rparen ∷ ts)) λ v.
                at_once (λ n. expr_loop fl debug n v (rparen ∷ ts)) (ok (v, rparen ∷ ts))
                  (λ n. refl)))
            (stays fl debug (value_sum fl s) ts
              (λ v r. Ends (λ n. close_paren fl debug v (rparen ∷ ts)) r) λ v. (0, λ m l. refl)))

    complete_product :
        (p : Product F) (ts : List (Token F)) (r : Parsed fl debug)
        → Next fl debug (value_product fl p) (ProductGoes fl debug ts) r
        → Ends (λ n. term fl debug n (print_product p ts)) r
    complete_product (one f) ts r h =
        Ends-suc (λ n. term fl debug n (print_factor f ts))
          (λ n. factor fl debug n (print_factor f ts) >>= λ x. term_loop fl debug n x.0 x.1) r
          (λ n. refl)
          (follow fl debug (λ n. factor fl debug n (print_factor f ts)) (value_factor fl f) ts
            (λ n x. term_loop fl debug n x.0 x.1) r (complete_factor f ts) h)
    complete_product (times p f) ts r h = complete_product p (star ∷ print_factor f ts) r (
        Next-bind fl debug (value_product fl p)
          (λ v. Grammar.◌>>=◌ (value_factor fl f) λ w. ok (fl.mul v w)) (ProductGoes fl debug ts)
          (ProductGoes fl debug (star ∷ print_factor f ts)) r h
          λ v k.
            round fl debug (λ n. term_loop fl debug n v (star ∷ print_factor f ts))
              (λ n. factor fl debug n (print_factor f ts)) (value_factor fl f) ts
              (λ w. ok (fl.mul v w)) (λ n x. term_loop fl debug n (fl.mul v x.0) x.1)
              (ProductGoes fl debug ts) r (λ n. refl) (complete_factor f ts) k (λ w l. l))
    complete_product (over p f) ts r h = complete_product p (slash ∷ print_factor f ts) r (
        Next-bind fl debug (value_product fl p)
          (λ v. Grammar.◌>>=◌ (value_factor fl f) λ w. quotient fl v w) (ProductGoes fl debug ts)
          (ProductGoes fl debug (slash ∷ print_factor f ts)) r h
          λ v k.
            round fl debug (λ n. term_loop fl debug n v (slash ∷ print_factor f ts))
              (λ n. factor fl debug n (print_factor f ts)) (value_factor fl f) ts
              (λ w. quotient fl v w)
              (λ n x. divided fl debug v x.0 >>= λ q. term_loop fl debug n q x.1)
              (ProductGoes fl debug ts) r (λ n. refl) (complete_factor f ts) k
              (λ w l. quotient_goes fl debug v w ts r l))

    complete_sum :
        (s : Sum F) (ts : List (Token F)) (r : Parsed fl debug)
        → IsAfter fl debug ts
        → Next fl debug (value_sum fl s) (SumGoes fl debug ts) r
        → Ends (λ n. expr fl debug n (print_sum s ts)) r
    complete_sum (single p) ts r a h =
        Ends-suc (λ n. expr fl debug n (print_product p ts))
          (λ n. term fl debug n (print_product p ts) >>= λ x. expr_loop fl debug n x.0 x.1) r
          (λ n. refl)
          (follow fl debug (λ n. term fl debug n (print_product p ts)) (value_product fl p) ts
            (λ n x. expr_loop fl debug n x.0 x.1) r
            (complete_product p ts (with_rest fl debug (value_product fl p) ts) (
              stays fl debug (value_product fl p) ts (ProductGoes fl debug ts)
                (λ v. halts fl debug v ts a)))
            h)
    complete_sum (sum s p) ts r a h = complete_sum s (plus ∷ print_product p ts) r tt (
        Next-bind fl debug (value_sum fl s)
          (λ v. Grammar.◌>>=◌ (value_product fl p) λ w. ok (fl.add v w)) (SumGoes fl debug ts)
          (SumGoes fl debug (plus ∷ print_product p ts)) r h
          λ v k.
            round fl debug (λ n. expr_loop fl debug n v (plus ∷ print_product p ts))
              (λ n. term fl debug n (print_product p ts)) (value_product fl p) ts
              (λ w. ok (fl.add v w)) (λ n x. expr_loop fl debug n (fl.add v x.0) x.1)
              (SumGoes fl debug ts) r (λ n. refl)
              (complete_product p ts (with_rest fl debug (value_product fl p) ts) (
                stays fl debug (value_product fl p) ts (ProductGoes fl debug ts)
                  (λ v. halts fl debug v ts a)))
              k (λ w l. l))
    complete_sum (difference s p) ts r a h = complete_sum s (minus ∷ print_product p ts) r tt (
        Next-bind fl debug (value_sum fl s)
          (λ v. Grammar.◌>>=◌ (value_product fl p) λ w. ok (fl.sub v w)) (SumGoes fl debug ts)
          (SumGoes fl debug (minus ∷ print_product p ts)) r h
          λ v k.
            round fl debug (λ n. expr_loop fl debug n v (minus ∷ print_product p ts))
              (λ n. term fl debug n (print_product p ts)) (value_product fl p) ts
              (λ w. ok (fl.sub v w)) (λ n x. expr_loop fl debug n (fl.sub v x.0) x.1)
              (SumGoes fl debug ts) r (λ n. refl)
              (complete_product p ts (with_rest fl debug (value_product fl p) ts) (
                stays fl debug (value_product fl p) ts (ProductGoes fl debug ts)
                  (λ v. halts fl debug v ts a)))
              k (λ w l. l))

  -- An expression has at least one token.
  abbrev HasHead : List (Token F) → Type 0
  HasHead ts = (t : Token F) × (behind : List (Token F)) × (ts ≡ t ∷ behind)

  head_product : (p : Product F) (ts : List (Token F)) → HasHead (print_product p ts)
  unfolding print_sum
  head_product (one (lit n)) ts = (num n, ts, refl)
  head_product (one (negated f)) ts = (minus, print_factor f ts, refl)
  head_product (one (group s)) ts = (lparen, print_sum s (rparen ∷ ts), refl)
  head_product (times p f) ts = head_product p (star ∷ print_factor f ts)
  head_product (over p f) ts = head_product p (slash ∷ print_factor f ts)

  head_sum : (s : Sum F) (ts : List (Token F)) → HasHead (print_sum s ts)
  unfolding print_sum
  head_sum (single p) ts = head_product p ts
  head_sum (sum s p) ts = head_sum s (plus ∷ print_product p ts)
  head_sum (difference s p) ts = head_sum s (minus ∷ print_product p ts)

  -- `evaluate_tokens` on at least one token
  evaluate_some :
      (ts : List (Token F))
      → HasHead ts
      → evaluate_tokens fl debug ts
        ≡ (expr fl debug (fuel_for fl debug ts) ts >>= λ r. finish fl debug r.0 r.1)
  unfolding evaluate_tokens
  evaluate_some [] (t, behind, h) = cc
  evaluate_some (u ∷ ts) h = refl

  -- What has been answered with some fuel is the answer with any fuel that answers.
  same_answer :
      (ts : List (Token F)) (fuel : ℕ) (r r' : Parsed fl debug)
      → expr fl debug fuel ts ≡ some r
      → Ends (λ n. expr fl debug n ts) r'
      → r ≡ r'
  same_answer ts fuel r r' h k =
      let a = expr_more fl debug fuel (fuel + k.0) ts r (omega arith) h in
      let b = k.1 (fuel + k.0) (omega arith) in cc

  finished :
      (o : Result F CalcError)
      → (some (with_rest fl debug o []) >>= λ r. finish fl debug r.0 r.1) ≡ some o
  unfolding finish
  finished (ok v) = refl
  finished (err e) = refl

  pub evaluate_print :
      (s : Sum F) → evaluate_tokens fl debug (print_sum s []) ≡ some (value_sum fl s)
  unfolding expr
  evaluate_print s =
      let ts = print_sum s [] in
      let (r, e) = expr_answers fl debug ts in
      let same =
        same_answer ts (fuel_for fl debug ts) r (with_rest fl debug (value_sum fl s) []) e (
          complete_sum s [] (with_rest fl debug (value_sum fl s) []) tt (
            stays fl debug (value_sum fl s) [] (SumGoes fl debug [])
              λ v. at_once (λ n. expr_loop fl debug n v []) (ok (v, [])) (λ n. refl))) in
      evaluate_some ts (head_sum s [])
      ∙ ap (λ (x : Run (F × List (Token F))). x >>= λ y. finish fl debug y.0 y.1)
          (e ∙ ap (λ (x : Parsed fl debug). some x) same)
      ∙ finished (value_sum fl s)

  at_end :
      (u : F) (ts : List (Token F)) (v : F)
      → finish fl debug u ts ≡ some (ok v)
      → (ts ≡ []) × (u ≡ v)
  unfolding finish
  at_end u [] v h = (refl, cc)
  at_end u (t ∷ ts) v h = cc

  evaluate_sound :
      (ts : List (Token F)) (v : F)
      → evaluate_tokens fl debug ts ≡ some (ok v)
      → (s : Sum F) × (ts ≡ print_sum s []) × (value_sum fl s ≡ ok v)
  unfolding evaluate_tokens
  evaluate_sound [] v h = cc
  evaluate_sound (t ∷ ts) v h =
      let (r, e, k) =
        bind-ok fl debug (expr fl debug (fuel_for fl debug (t ∷ ts)) (t ∷ ts)) _ v h in
      let (s, same, a) = sound_expr fl debug (fuel_for fl debug (t ∷ ts)) (t ∷ ts) r.0 r.1 e in
      let (nil, u) = at_end r.0 r.1 v k in
      (s, same ∙ ap (print_sum s) nil, a ∙ ap (λ (x : F). ok x) u)

-- The calculator is exact on the grammar of sums of products of factors, where operators of one
-- level go to the left: it gives a value on those lists of tokens, and no others, that are the tokens
-- of an expression with that value.
pub evaluate_tokens_lem :
    {F : Type 0} (fl : Floats F) (debug : Token F → Text) (ts : List (Token F)) (v : F)
    → (evaluate_tokens fl debug ts ≡ some (ok v))
      ↔ ((s : Sum F) × (ts ≡ print_sum s []) × (value_sum fl s ≡ ok v))
evaluate_tokens_lem fl debug ts v = (
  evaluate_sound fl debug ts v,
  λ (s, same, a). ap (evaluate_tokens fl debug) same ∙ evaluate_print fl debug s ∙ ap some a,
)
