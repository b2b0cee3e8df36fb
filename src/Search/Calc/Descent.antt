-- ===== src/Search/Calc/Descent.antt =====
-- The recursive descent answers within its fuel.
use synapt.Prelude.{
  ℕ, zero, suc, ◌+◌, ◌*◌, ◌≤◌, ◌-◌, true, false, none, some, List, [], ◌∷◌, length, Text, ok, err,
  arith, Bool, if◌then◌else◌,
}
use synapt.Search.Calc.{
  CalcError, Floats, Token, num, plus, minus, star, slash, lparen, rparen, Run, ◌>>=◌, close_paren,
  divided, expr, expr_loop, term, term_loop, factor,
}

module _ {F : Type 0} where
  -- An answer has come, and a value leaves no more than `n` tokens.
  abbrev pub Answers : ℕ → Run (F × List (Token F)) → Type 0
  Answers n none = ⊥
  Answers n (some (err e)) = Unit {0}
  Answers n (some (ok (v, rest))) = length rest ≤ n

  pub Answers-weaken : (n m : ℕ) (r : Run (F × List (Token F))) → n ≤ m → Answers n r → Answers m r
  Answers-weaken n m none h a = a
  Answers-weaken n m (some (err e)) h a = tt
  Answers-weaken n m (some (ok (v, rest))) h a = omega (arith, h, a)

  pub Answers-bind :
      (n m : ℕ) (r : Run (F × List (Token F))) (f : F × List (Token F) → Run (F × List (Token F)))
      → Answers n r
      → ((v : F) (rest : List (Token F)) → length rest ≤ n → Answers m (f (v, rest)))
      → Answers m (r >>= f)
  Answers-bind n m none f a k = a
  Answers-bind n m (some (err e)) f a k = tt
  Answers-bind n m (some (ok (v, rest))) f a k = k v rest a

  module _ (fl : Floats F) (debug : Token F → Text) where
    pub Answers-close :
        (n : ℕ) (v : F) (ts : List (Token F))
        → length ts ≤ suc n
        → Answers n (close_paren fl debug v ts)
    unfolding close_paren
    Answers-close n v (rparen ∷ ts) h = omega (arith, h)
    Answers-close n v [] h = tt
    Answers-close n v (num x ∷ ts) h = tt
    Answers-close n v (plus ∷ ts) h = tt
    Answers-close n v (minus ∷ ts) h = tt
    Answers-close n v (star ∷ ts) h = tt
    Answers-close n v (slash ∷ ts) h = tt
    Answers-close n v (lparen ∷ ts) h = tt

    pub Answers-divided :
        (m : ℕ) (v w : F) (f : F → Run (F × List (Token F)))
        → ((q : F) → Answers m (f q))
        → Answers m (divided fl debug v w >>= f)
    unfolding divided
    Answers-divided m v w f k = go (fl.is_zero w)
      where
        go :
            (b : Bool)
            → Answers m (
                (if b then some (err CalcError.division_by_zero) else some (ok (fl.div v w))) >>= f)
        go true = tt
        go false = k (fl.div v w)

    mutual
      unfolding expr

      pub Answers-expr :
          (fuel n : ℕ) (ts : List (Token F))
          → length ts ≤ n
          → 4 * n + 3 ≤ fuel
          → Answers (n - 1) (expr fl debug fuel ts)
      Answers-expr zero n ts l h = absurd (omega (arith, h))
      Answers-expr (suc fuel) n ts l h =
          Answers-bind (n - 1) (n - 1) (term fl debug fuel ts)
            (λ r. expr_loop fl debug fuel r.0 r.1) (Answers-term fuel n ts l (omega (arith, h)))
            λ v rest k. Answers-expr_loop fuel (n - 1) v rest k (omega (arith, h))

      pub Answers-expr_loop :
          (fuel n : ℕ) (v : F) (ts : List (Token F))
          → length ts ≤ n
          → 4 * n + 1 ≤ fuel
          → Answers n (expr_loop fl debug fuel v ts)
      Answers-expr_loop zero n v ts l h = absurd (omega (arith, h))
      Answers-expr_loop (suc fuel) n v (plus ∷ ts) l h =
          Answers-bind (n - 2) n (term fl debug fuel ts)
            (λ r. expr_loop fl debug fuel (fl.add v r.0) r.1)
            (Answers-weaken (n - 1 - 1) (n - 2) (term fl debug fuel ts) (omega arith)
              (Answers-term fuel (n - 1) ts (omega (arith, l)) (omega (arith, h, l))))
            λ w rest k.
              Answers-weaken (n - 2) n (expr_loop fl debug fuel (fl.add v w) rest) (omega arith)
                (Answers-expr_loop fuel (n - 2) (fl.add v w) rest k (omega (arith, h, l)))
      Answers-expr_loop (suc fuel) n v (minus ∷ ts) l h =
          Answers-bind (n - 2) n (term fl debug fuel ts)
            (λ r. expr_loop fl debug fuel (fl.sub v r.0) r.1)
            (Answers-weaken (n - 1 - 1) (n - 2) (term fl debug fuel ts) (omega arith)
              (Answers-term fuel (n - 1) ts (omega (arith, l)) (omega (arith, h, l))))
            λ w rest k.
              Answers-weaken (n - 2) n (expr_loop fl debug fuel (fl.sub v w) rest) (omega arith)
                (Answers-expr_loop fuel (n - 2) (fl.sub v w) rest k (omega (arith, h, l)))
      Answers-expr_loop (suc fuel) n v [] l h = l
      Answers-expr_loop (suc fuel) n v (num x ∷ ts) l h = l
      Answers-expr_loop (suc fuel) n v (star ∷ ts) l h = l
      Answers-expr_loop (suc fuel) n v (slash ∷ ts) l h = l
      Answers-expr_loop (suc fuel) n v (lparen ∷ ts) l h = l
      Answers-expr_loop (suc fuel) n v (rparen ∷ ts) l h = l

      pub Answers-term :
          (fuel n : ℕ) (ts : List (Token F))
          → length ts ≤ n
          → 4 * n + 2 ≤ fuel
          → Answers (n - 1) (term fl debug fuel ts)
      Answers-term zero n ts l h = absurd (omega (arith, h))
      Answers-term (suc fuel) n ts l h =
          Answers-bind (n - 1) (n - 1) (factor fl debug fuel ts)
            (λ r. term_loop fl debug fuel r.0 r.1) (Answers-factor fuel n ts l (omega (arith, h)))
            λ v rest k. Answers-term_loop fuel (n - 1) v rest k (omega (arith, h))

      pub Answers-term_loop :
          (fuel n : ℕ) (v : F) (ts : List (Token F))
          → length ts ≤ n
          → 4 * n + 1 ≤ fuel
          → Answers n (term_loop fl debug fuel v ts)
      Answers-term_loop zero n v ts l h = absurd (omega (arith, h))
      Answers-term_loop (suc fuel) n v (star ∷ ts) l h =
          Answers-bind (n - 2) n (factor fl debug fuel ts)
            (λ r. term_loop fl debug fuel (fl.mul v r.0) r.1)
            (Answers-weaken (n - 1 - 1) (n - 2) (factor fl debug fuel ts) (omega arith)
              (Answers-factor fuel (n - 1) ts (omega (arith, l)) (omega (arith, h, l))))
            λ w rest k.
              Answers-weaken (n - 2) n (term_loop fl debug fuel (fl.mul v w) rest) (omega arith)
                (Answers-term_loop fuel (n - 2) (fl.mul v w) rest k (omega (arith, h, l)))
      Answers-term_loop (suc fuel) n v (slash ∷ ts) l h =
          Answers-bind (n - 2) n (factor fl debug fuel ts)
            (λ r. divided fl debug v r.0 >>= λ q. term_loop fl debug fuel q r.1)
            (Answers-weaken (n - 1 - 1) (n - 2) (factor fl debug fuel ts) (omega arith)
              (Answers-factor fuel (n - 1) ts (omega (arith, l)) (omega (arith, h, l))))
            λ w rest k.
              Answers-divided n v w (λ q. term_loop fl debug fuel q rest)
                λ q.
                  Answers-weaken (n - 2) n (term_loop fl debug fuel q rest) (omega arith)
                    (Answers-term_loop fuel (n - 2) q rest k (omega (arith, h, l)))
      Answers-term_loop (suc fuel) n v [] l h = l
      Answers-term_loop (suc fuel) n v (num x ∷ ts) l h = l
      Answers-term_loop (suc fuel) n v (plus ∷ ts) l h = l
      Answers-term_loop (suc fuel) n v (minus ∷ ts) l h = l
      Answers-term_loop (suc fuel) n v (lparen ∷ ts) l h = l
      Answers-term_loop (suc fuel) n v (rparen ∷ ts) l h = l

      pub Answers-factor :
          (fuel n : ℕ) (ts : List (Token F))
          → length ts ≤ n
          → 4 * n + 1 ≤ fuel
          → Answers (n - 1) (factor fl debug fuel ts)
      Answers-factor zero n ts l h = absurd (omega (arith, h))
      Answers-factor (suc fuel) n (num x ∷ ts) l h = omega (arith, l)
      Answers-factor (suc fuel) n (minus ∷ ts) l h =
          Answers-bind (n - 1 - 1) (n - 1) (factor fl debug fuel ts)
            (λ r. some (ok (fl.neg r.0, r.1)))
            (Answers-factor fuel (n - 1) ts (omega (arith, l)) (omega (arith, h, l)))
            λ v rest k. omega (arith, k)
      Answers-factor (suc fuel) n (lparen ∷ ts) l h =
          Answers-bind (n - 1 - 1) (n - 1) (expr fl debug fuel ts)
            (λ r. close_paren fl debug r.0 r.1)
            (Answers-expr fuel (n - 1) ts (omega (arith, l)) (omega (arith, h, l)))
            λ v rest k. Answers-close (n - 1) v rest (omega (arith, k))
      Answers-factor (suc fuel) n (plus ∷ ts) l h = tt
      Answers-factor (suc fuel) n (star ∷ ts) l h = tt
      Answers-factor (suc fuel) n (slash ∷ ts) l h = tt
      Answers-factor (suc fuel) n (rparen ∷ ts) l h = tt
      Answers-factor (suc fuel) n [] l h = tt
