-- ===== src/Search/Calc/Fuel.antt =====
-- More fuel changes no answer, and what it takes to reach one.
use synapt.Prelude.{
  ℕ, zero, suc, ◌+◌, ◌≤◌, ◌-◌, ◌≡◌, refl, ◌∙◌, none, some, List, [], ◌∷◌, Text, Result, ok, err,
  arith,
}
use synapt.Search.Calc.{
  CalcError, Floats, Token, num, plus, minus, star, slash, lparen, rparen, Run, ◌>>=◌, close_paren,
  divided, expr, expr_loop, term, term_loop, factor,
}

module _ {A : Type 0} where
  -- What the one answers the other answers too.
  abbrev pub IsKept : Run A → Run A → Type 0
  IsKept none s = Unit {0}
  IsKept (some r) s = s ≡ some r

  pub IsKept-refl : (r : Run A) → IsKept r r
  IsKept-refl none = tt
  IsKept-refl (some r) = refl

  IsKept-trans : (r s t : Run A) → IsKept r s → IsKept s t → IsKept r t
  IsKept-trans none s t h k = tt
  IsKept-trans (some x) none t h k = cc
  IsKept-trans (some x) (some y) t h k = k ∙ h

module _ {A B : Type 0} where
  IsKept-bind :
      (r s : Run A) (f g : A → Run B)
      → IsKept r s
      → ((a : A) → IsKept (f a) (g a))
      → IsKept (r >>= f) (s >>= g)
  IsKept-bind none s f g h k = tt
  IsKept-bind (some x) none f g h k = cc
  IsKept-bind (some (err e)) (some (err e')) f g h k = ground arith
  IsKept-bind (some (err e)) (some (ok a)) f g h k = cc
  IsKept-bind (some (ok a)) (some (err e)) f g h k = cc
  IsKept-bind (some (ok a)) (some (ok b)) f g h k = let same : b ≡ a = cc in rw same (k a)

module _ {F : Type 0} (fl : Floats F) (debug : Token F → Text) where
  mutual
    unfolding expr

    IsKept-expr :
        (n : ℕ) (ts : List (Token F)) → IsKept (expr fl debug n ts) (expr fl debug (suc n) ts)
    IsKept-expr zero ts = tt
    IsKept-expr (suc n) ts =
        IsKept-bind (term fl debug n ts) (term fl debug (suc n) ts) _ _ (IsKept-term n ts)
          λ r. IsKept-expr_loop n r.0 r.1

    IsKept-expr_loop :
        (n : ℕ) (v : F) (ts : List (Token F))
        → IsKept (expr_loop fl debug n v ts) (expr_loop fl debug (suc n) v ts)
    IsKept-expr_loop zero v ts = tt
    IsKept-expr_loop (suc n) v (plus ∷ ts) =
        IsKept-bind (term fl debug n ts) (term fl debug (suc n) ts)
          (λ r. expr_loop fl debug n (fl.add v r.0) r.1)
          (λ r. expr_loop fl debug (suc n) (fl.add v r.0) r.1) (IsKept-term n ts)
          λ r. IsKept-expr_loop n (fl.add v r.0) r.1
    IsKept-expr_loop (suc n) v (minus ∷ ts) =
        IsKept-bind (term fl debug n ts) (term fl debug (suc n) ts)
          (λ r. expr_loop fl debug n (fl.sub v r.0) r.1)
          (λ r. expr_loop fl debug (suc n) (fl.sub v r.0) r.1) (IsKept-term n ts)
          λ r. IsKept-expr_loop n (fl.sub v r.0) r.1
    IsKept-expr_loop (suc n) v [] = refl
    IsKept-expr_loop (suc n) v (num x ∷ ts) = refl
    IsKept-expr_loop (suc n) v (star ∷ ts) = refl
    IsKept-expr_loop (suc n) v (slash ∷ ts) = refl
    IsKept-expr_loop (suc n) v (lparen ∷ ts) = refl
    IsKept-expr_loop (suc n) v (rparen ∷ ts) = refl

    IsKept-term :
        (n : ℕ) (ts : List (Token F)) → IsKept (term fl debug n ts) (term fl debug (suc n) ts)
    IsKept-term zero ts = tt
    IsKept-term (suc n) ts =
        IsKept-bind (factor fl debug n ts) (factor fl debug (suc n) ts)
          (λ r. term_loop fl debug n r.0 r.1) (λ r. term_loop fl debug (suc n) r.0 r.1)
          (IsKept-factor n ts) λ r. IsKept-term_loop n r.0 r.1

    IsKept-term_loop :
        (n : ℕ) (v : F) (ts : List (Token F))
        → IsKept (term_loop fl debug n v ts) (term_loop fl debug (suc n) v ts)
    IsKept-term_loop zero v ts = tt
    IsKept-term_loop (suc n) v (star ∷ ts) =
        IsKept-bind (factor fl debug n ts) (factor fl debug (suc n) ts)
          (λ r. term_loop fl debug n (fl.mul v r.0) r.1)
          (λ r. term_loop fl debug (suc n) (fl.mul v r.0) r.1) (IsKept-factor n ts)
          λ r. IsKept-term_loop n (fl.mul v r.0) r.1
    IsKept-term_loop (suc n) v (slash ∷ ts) =
        IsKept-bind (factor fl debug n ts) (factor fl debug (suc n) ts)
          (λ r. divided fl debug v r.0 >>= λ q. term_loop fl debug n q r.1)
          (λ r. divided fl debug v r.0 >>= λ q. term_loop fl debug (suc n) q r.1)
          (IsKept-factor n ts)
          λ r.
            IsKept-bind (divided fl debug v r.0) (divided fl debug v r.0)
              (λ q. term_loop fl debug n q r.1) (λ q. term_loop fl debug (suc n) q r.1)
              (IsKept-refl (divided fl debug v r.0)) λ q. IsKept-term_loop n q r.1
    IsKept-term_loop (suc n) v [] = refl
    IsKept-term_loop (suc n) v (num x ∷ ts) = refl
    IsKept-term_loop (suc n) v (plus ∷ ts) = refl
    IsKept-term_loop (suc n) v (minus ∷ ts) = refl
    IsKept-term_loop (suc n) v (lparen ∷ ts) = refl
    IsKept-term_loop (suc n) v (rparen ∷ ts) = refl

    IsKept-factor :
        (n : ℕ) (ts : List (Token F)) → IsKept (factor fl debug n ts) (factor fl debug (suc n) ts)
    IsKept-factor zero ts = tt
    IsKept-factor (suc n) (minus ∷ ts) =
        IsKept-bind (factor fl debug n ts) (factor fl debug (suc n) ts)
          (λ r. some (ok (fl.neg r.0, r.1))) (λ r. some (ok (fl.neg r.0, r.1))) (IsKept-factor n ts)
          λ r. refl
    IsKept-factor (suc n) (lparen ∷ ts) =
        IsKept-bind (expr fl debug n ts) (expr fl debug (suc n) ts)
          (λ r. close_paren fl debug r.0 r.1) (λ r. close_paren fl debug r.0 r.1) (IsKept-expr n ts)
          λ r. IsKept-refl (close_paren fl debug r.0 r.1)
    IsKept-factor (suc n) (num x ∷ ts) = refl
    IsKept-factor (suc n) (plus ∷ ts) = refl
    IsKept-factor (suc n) (star ∷ ts) = refl
    IsKept-factor (suc n) (slash ∷ ts) = refl
    IsKept-factor (suc n) (rparen ∷ ts) = refl
    IsKept-factor (suc n) [] = refl

  IsKept-more :
      (k n m : ℕ) (ts : List (Token F))
      → m ≡ k + n
      → IsKept (expr fl debug n ts) (expr fl debug m ts)
  IsKept-more zero n m ts e =
      let same : m ≡ n = omega (arith, e) in rw same (IsKept-refl (expr fl debug n ts))
  IsKept-more (suc k) n zero ts e = absurd (omega (arith, e))
  IsKept-more (suc k) n (suc m) ts e =
      IsKept-trans (expr fl debug n ts) (expr fl debug m ts) (expr fl debug (suc m) ts)
        (IsKept-more k n m ts (omega (arith, e))) (IsKept-expr m ts)

  -- An answer of `expr` stays the same on more fuel.
  pub expr_more :
      (n m : ℕ) (ts : List (Token F)) (r : Result (F × List (Token F)) CalcError)
      → n ≤ m
      → expr fl debug n ts ≡ some r
      → expr fl debug m ts ≡ some r
  expr_more n m ts r l h = rw h at (IsKept-more (m - n) n m ts (omega (arith, l)))
