-- ===== src/Search/Calc/Termination.antt =====
-- The calculator never runs out of fuel.
use synapt.Prelude.{
  ℕ, zero, suc, ◌+◌, ◌*◌, ◌≤◌, ◌<◌, ◌-◌, ◌≡◌, refl, Option, none, some, List, [], ◌∷◌, length, Text,
  Result, ok, err, arith,
}
use synapt.Search.Calc.{
  CalcError, Floats, Token, Run, ◌>>=◌, drop_number, next_token, push_token, scan, tokenize, expr,
  finish, evaluate_tokens, evaluate,
}
use synapt.Search.Calc.Descent.{Answers, Answers-weaken, Answers-expr}

module _ {F : Type 0} where
  module _ (fl : Floats F) (debug : Token F → Text) where
    abbrev IsSettled : {A : Type 0} → Run A → Type 0
    IsSettled none = ⊥
    IsSettled (some r) = Unit {0}

    settled :
        (n : ℕ) (r : Run (F × List (Token F)))
        → Answers n r
        → IsSettled (r >>= λ x. finish fl debug x.0 x.1)
    unfolding finish
    settled n none a = a
    settled n (some (err e)) a = tt
    settled n (some (ok (v, []))) a = tt
    settled n (some (ok (v, t ∷ ts))) a = tt

    evaluate_tokens-IsSettled : (ts : List (Token F)) → IsSettled (evaluate_tokens fl debug ts)
    unfolding evaluate_tokens
    evaluate_tokens-IsSettled [] = tt
    evaluate_tokens-IsSettled (t ∷ ts) =
        settled (length ts) (expr fl debug (4 * length (t ∷ ts) + 3) (t ∷ ts)) (
          Answers-weaken (suc (length ts) - 1) (length ts)
            (expr fl debug (4 * length (t ∷ ts) + 3) (t ∷ ts)) (omega arith)
            (Answers-expr fl debug (4 * length (t ∷ ts) + 3) (suc (length ts)) (t ∷ ts)
              (omega arith) (omega arith)))

    length-drop_number : (chars : Text) → length (drop_number chars) ≤ length chars
    unfolding drop_number
    length-drop_number [] = omega arith
    length-drop_number (c ∷ chars) = let ih = length-drop_number chars in ground arith

    length-next_token :
        (c : ℕ) (chars : Text) (r : Option (Token F) × Text)
        → next_token fl c chars ≡ ok r
        → length r.1 ≤ length chars
    unfolding next_token drop_number
    length-next_token c chars r h = let l = length-drop_number chars in ground arith

    scan-IsSettled :
        (fuel : ℕ) (chars : Text) (tokens : List (Token F))
        → length chars < fuel
        → IsSettled (scan fl fuel chars tokens)
    unfolding scan
    scan-IsSettled zero chars tokens h = absurd (omega (arith, h))
    scan-IsSettled (suc fuel) [] tokens h = tt
    scan-IsSettled (suc fuel) (c ∷ chars) tokens h =
        go (next_token fl c chars) (length-next_token c chars)
          λ r k. scan-IsSettled fuel r.1 (push_token fl r.0 tokens) (omega (arith, h, k))
      where
        go :
            (o : Result (Option (Token F) × Text) CalcError)
            → ((r : Option (Token F) × Text) → o ≡ ok r → length r.1 ≤ length chars)
            → ((r : Option (Token F) × Text)
                → length r.1 ≤ length chars
                → IsSettled (scan fl fuel r.1 (push_token fl r.0 tokens)))
            → IsSettled (some o >>= λ r. scan fl fuel r.1 (push_token fl r.0 tokens))
        go (err e) l k = tt
        go (ok r) l k = k r (l r refl)

    IsSettled-bind :
        {A B : Type 0} (r : Run A) (f : A → Run B)
        → IsSettled r
        → ((a : A) → IsSettled (f a))
        → IsSettled (r >>= f)
    IsSettled-bind none f h k = h
    IsSettled-bind (some (err e)) f h k = tt
    IsSettled-bind (some (ok a)) f h k = k a

    IsSettled-result :
        {A : Type 0} (r : Run A) → IsSettled r → (x : Result A CalcError) × (r ≡ some x)
    IsSettled-result none h = absurd h
    IsSettled-result (some x) h = (x, refl)

-- The calculator gives a value or an error for every text: its loops and its recursive descent end
-- within the fuel that `evaluate` starts them with.
pub evaluate_ends :
    {F : Type 0} (fl : Floats F) (debug : Token F → Text) (input : Text)
    → (r : Result F CalcError) × (evaluate fl debug input ≡ some r)
unfolding evaluate tokenize
evaluate_ends fl debug input = IsSettled-result fl debug (evaluate fl debug input) (
    IsSettled-bind fl debug (tokenize fl input) (evaluate_tokens fl debug)
      (scan-IsSettled fl debug (suc (length input)) input [] (omega arith))
      (evaluate_tokens-IsSettled fl debug))

answered :
    {F : Type 0} (n : ℕ) (r : Run (F × List (Token F)))
    → Answers n r
    → (x : Result (F × List (Token F)) CalcError) × (r ≡ some x)
answered n none a = absurd a
answered n (some x) a = (x, refl)

-- `expr` answers within the fuel that `evaluate_tokens` gives it.
pub expr_answers :
    {F : Type 0} (fl : Floats F) (debug : Token F → Text) (ts : List (Token F))
    → (r : Result (F × List (Token F)) CalcError) × (expr fl debug (4 * length ts + 3) ts ≡ some r)
expr_answers fl debug ts =
    answered (length ts - 1) (expr fl debug (4 * length ts + 3) ts)
      (Answers-expr fl debug (4 * length ts + 3) (length ts) ts (omega arith) (omega arith))
