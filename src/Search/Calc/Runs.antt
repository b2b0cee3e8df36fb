-- ===== src/Search/Calc/Runs.antt =====
-- Runs that end with an answer once they have enough fuel.
use synapt.Prelude.{
  ℕ, zero, suc, ◌+◌, ◌≤◌, ◌≡◌, refl, sym, ap, ◌∙◌, some, List, [], ◌∷◌, Text, Result, ok, err,
  arith, Bool, true, false, if◌then◌else◌,
}
use synapt.Search.Calc.{
  CalcError, division_by_zero, Floats, Token, num, plus, minus, star, slash, lparen, rparen, Run,
  ◌>>=◌, divided, expr, expr_loop, term_loop,
}
use synapt.Search.Calc.Grammar
use synapt.Search.Calc.Grammar.{
  Factor, Product, Sum, lit, negated, group, one, times, over, single, sum, difference,
  print_factor, print_product, print_sum, value_factor, value_product, value_sum, quotient,
}

-- With enough fuel the run gives the answer.
abbrev pub Ends : {A : Type 0} → (ℕ → Run A) → Result A CalcError → Type 0
Ends {A} run r = (n : ℕ) × ((m : ℕ) → n ≤ m → run m ≡ some r)

module _ {A B : Type 0} where
  pub Ends-bind :
      (run : ℕ → Run A) (a : A) (next : ℕ → A → Run B) (r : Result B CalcError)
      → Ends run (ok a)
      → Ends (λ n. next n a) r
      → Ends (λ n. run n >>= next n) r
  Ends-bind run a next r h k =
      (h.0 + k.0, λ m l. rw (h.1 m (omega (arith, l))) (k.1 m (omega (arith, l))))

  pub Ends-err :
      (run : ℕ → Run A) (e : CalcError) (next : ℕ → A → Run B)
      → Ends run (err e)
      → Ends (λ n. run n >>= next n) (err e)
  Ends-err run e next h = (h.0, λ m l. rw (h.1 m l) refl)

module _ {A : Type 0} where
  -- A run that spends one unit of fuel first.
  pub Ends-suc :
      (run later : ℕ → Run A) (r : Result A CalcError)
      → ((n : ℕ) → run (suc n) ≡ later n)
      → Ends later r
      → Ends run r
  Ends-suc run later r s h = (suc h.0, λ m l. go m l)
    where
      go : (m : ℕ) → suc h.0 ≤ m → run m ≡ some r
      go zero l = absurd (omega (arith, l))
      go (suc m) l = s m ∙ h.1 m (omega (arith, l))

  pub at_once :
      (run : ℕ → Run A) (r : Result A CalcError) → ((n : ℕ) → run (suc n) ≡ some r) → Ends run r
  at_once run r s = Ends-suc run (λ n. some r) r s (0, λ m l. refl)

module _ {F : Type 0} (fl : Floats F) (debug : Token F → Text) where
  abbrev pub Parsed : Type 0
  Parsed = Result (F × List (Token F)) CalcError

  -- How a parse goes on after a value, or ends with its error.
  abbrev pub Next : Result F CalcError → (F → Parsed → Type 0) → Parsed → Type 0
  Next (ok v) P r = P v r
  Next (err e) P r = r ≡ err e

  abbrev pub with_rest : Result F CalcError → List (Token F) → Parsed
  with_rest (ok v) ts = ok (v, ts)
  with_rest (err e) ts = err e

  -- What may follow a product.
  abbrev pub IsAfter : List (Token F) → Type 0
  IsAfter (star ∷ ts) = ⊥
  IsAfter (slash ∷ ts) = ⊥
  IsAfter [] = Unit {0}
  IsAfter (num n ∷ ts) = Unit {0}
  IsAfter (plus ∷ ts) = Unit {0}
  IsAfter (minus ∷ ts) = Unit {0}
  IsAfter (lparen ∷ ts) = Unit {0}
  IsAfter (rparen ∷ ts) = Unit {0}

  pub halts :
      (v : F) (ts : List (Token F))
      → IsAfter ts
      → Ends (λ n. term_loop fl debug n v ts) (ok (v, ts))
  unfolding expr
  halts v (star ∷ ts) h = absurd h
  halts v (slash ∷ ts) h = absurd h
  halts v [] h = at_once (λ n. term_loop fl debug n v []) (ok (v, [])) (λ n. refl)
  halts v (num x ∷ ts) h =
      at_once (λ n. term_loop fl debug n v (num x ∷ ts)) (ok (v, num x ∷ ts)) (λ n. refl)
  halts v (plus ∷ ts) h =
      at_once (λ n. term_loop fl debug n v (plus ∷ ts)) (ok (v, plus ∷ ts)) (λ n. refl)
  halts v (minus ∷ ts) h =
      at_once (λ n. term_loop fl debug n v (minus ∷ ts)) (ok (v, minus ∷ ts)) (λ n. refl)
  halts v (lparen ∷ ts) h =
      at_once (λ n. term_loop fl debug n v (lparen ∷ ts)) (ok (v, lparen ∷ ts)) (λ n. refl)
  halts v (rparen ∷ ts) h =
      at_once (λ n. term_loop fl debug n v (rparen ∷ ts)) (ok (v, rparen ∷ ts)) (λ n. refl)

  abbrev pub SumGoes : List (Token F) → F → Parsed → Type 0
  SumGoes ts v r = Ends (λ n. expr_loop fl debug n v ts) r

  abbrev pub ProductGoes : List (Token F) → F → Parsed → Type 0
  ProductGoes ts v r = Ends (λ n. term_loop fl debug n v ts) r

  -- A run that ends with a value and what is left, followed by what the value leads to.
  pub follow :
      (run : ℕ → Run (F × List (Token F))) (o : Result F CalcError) (ts : List (Token F))
      (next : ℕ → F × List (Token F) → Run (F × List (Token F))) (r : Parsed)
      → Ends run (with_rest o ts)
      → Next o (λ v r. Ends (λ n. next n (v, ts)) r) r
      → Ends (λ n. run n >>= next n) r
  follow run (ok v) ts next r h k = Ends-bind run (v, ts) next r h k
  follow run (err e) ts next r h k = rw k (Ends-err run e next h)

  -- The value of an operation, once its first operand is known.
  pub Next-bind :
      (o : Result F CalcError) (op : F → Result F CalcError) (P Q : F → Parsed → Type 0)
      (r : Parsed)
      → Next (Grammar.◌>>=◌ o op) P r
      → ((v : F) → Next (op v) P r → Q v r)
      → Next o Q r
  Next-bind (ok v) op P Q r h k = k v h
  Next-bind (err e) op P Q r h k = h

  pub quotient_goes :
      (v w : F) (ts : List (Token F)) (r : Parsed)
      → Next (quotient fl v w) (ProductGoes ts) r
      → Ends (λ n. divided fl debug v w >>= λ q. term_loop fl debug n q ts) r
  unfolding divided
  quotient_goes v w ts r h = go (fl.is_zero w) h
    where
      go :
          (b : Bool)
          → Next (if b then err division_by_zero else ok (fl.div v w)) (ProductGoes ts) r
          → Ends
              (λ n. (if b then some (err division_by_zero) else some (ok (fl.div v w))) >>= λ q.
                term_loop fl debug n q ts)
              r
      go true h = (0, λ m l. ap (λ (x : Parsed). some x) (sym h))
      go false h = h

  -- One round of a loop: the operator, the operand, and what the loop does with its value.
  pub round :
      (run later : ℕ → Run (F × List (Token F))) (o : Result F CalcError) (ts : List (Token F))
      (op : F → Result F CalcError) (next : ℕ → F × List (Token F) → Run (F × List (Token F)))
      (P : F → Parsed → Type 0) (r : Parsed)
      → ((n : ℕ) → run (suc n) ≡ later n >>= next n)
      → Ends later (with_rest o ts)
      → Next (Grammar.◌>>=◌ o op) P r
      → ((w : F) → Next (op w) P r → Ends (λ n. next n (w, ts)) r)
      → Ends run r
  round run later o ts op next P r s h k goes =
      Ends-suc run (λ n. later n >>= next n) r s
        (follow later o ts next r h
          (Next-bind o op P (λ w x. Ends (λ n. next n (w, ts)) x) r k goes))

  -- Where the loop stops at once, what it leads to is its value.
  pub stays :
      (o : Result F CalcError) (ts : List (Token F)) (P : F → Parsed → Type 0)
      → ((v : F) → P v (ok (v, ts)))
      → Next o P (with_rest o ts)
  stays (ok v) ts P h = h v
  stays (err e) ts P h = refl
