-- ===== src/Prelude/Members.antt =====
-- Membership with its position kept, and the first entries of a sorted list.
use Prim.Native.Nat.{ℕ, zero, suc}
use mathlib.Core.Path.{◌≡◌, refl, sym, subst, ap, ◌∙◌}
use mathlib.Core.Logic.{◌⊎◌, inl, inr}
use mathlib.Core.Bool.{Bool, true, false}
use mathlib.Core.List.{List, [], ◌∷◌, ◌++◌}
use native.Mathlib.Omega.{arith}
use synapt.Prelude.Tests.{if◌then◌else◌}
use synapt.Prelude.Lists.{All, length, take, filter_by}
use synapt.Prelude.Sort.{insert_by, sort_by, IsSorted, All-sort_by}

module _ {A : Type 0} where
  abbrev pub In : A → List A → Type 0
  In a [] = ⊥
  In a (x ∷ xs) = (a ≡ x) ⊎ In a xs

  pub In-append_left : (a : A) (xs ys : List A) → In a xs → In a (xs ++ ys)
  In-append_left a [] ys h = absurd h
  In-append_left a (x ∷ xs) ys (inl e) = inl e
  In-append_left a (x ∷ xs) ys (inr h) = inr (In-append_left a xs ys h)

  pub In-append_right : (a : A) (xs ys : List A) → In a ys → In a (xs ++ ys)
  In-append_right a [] ys h = h
  In-append_right a (x ∷ xs) ys h = inr (In-append_right a xs ys h)

  pub All-In {κ} : (P : A → Type κ) (a : A) (xs : List A) → All P xs → In a xs → P a
  All-In P a [] all h = absurd h
  All-In P a (x ∷ xs) all (inl e) = subst P (sym e) all.0
  All-In P a (x ∷ xs) all (inr h) = All-In P a xs all.1 h

  pub All-append {κ} : (P : A → Type κ) (xs ys : List A) → All P xs → All P ys → All P (xs ++ ys)
  All-append P [] ys a b = b
  All-append P (x ∷ xs) ys a b = (a.0, All-append P xs ys a.1 b)

  pub All-imp {κ μ} :
      {P : A → Type κ} {Q : A → Type μ}
      → ((a : A) → P a → Q a)
      → (xs : List A) → All P xs
      → All Q xs
  All-imp f [] h = tt
  All-imp f (x ∷ xs) h = (f x h.0, All-imp f xs h.1)

  pub All-take {κ} : (P : A → Type κ) (n : ℕ) (xs : List A) → All P xs → All P (take n xs)
  All-take P zero xs h = tt
  All-take P (suc n) [] h = tt
  All-take P (suc n) (x ∷ xs) h = (h.0, All-take P n xs h.1)

module _ {A : Type 0} (before : A → A → Bool) where
  In-insert_by_self : (x : A) (ys : List A) → In x (insert_by before x ys)
  unfolding insert_by
  In-insert_by_self x [] = inl refl
  In-insert_by_self x (y ∷ ys) =
      elim (before y x) as (λ b. In x (if b then y ∷ insert_by before x ys else x ∷ y ∷ ys)) [
        | true ↦ inr (In-insert_by_self x ys)
        | false ↦ inl refl
      ]

  In-insert_by : (a x : A) (ys : List A) → In a ys → In a (insert_by before x ys)
  unfolding insert_by
  In-insert_by a x [] h = inr h
  In-insert_by a x (y ∷ ys) (inl e) =
      elim (before y x) as (λ b. In a (if b then y ∷ insert_by before x ys else x ∷ y ∷ ys)) [
        | true ↦ inl e
        | false ↦ inr (inl e)
      ]
  In-insert_by a x (y ∷ ys) (inr h) =
      elim (before y x) as (λ b. In a (if b then y ∷ insert_by before x ys else x ∷ y ∷ ys)) [
        | true ↦ inr (In-insert_by a x ys h)
        | false ↦ inr (inr h)
      ]

  pub In-sort_by : (a : A) (xs : List A) → In a xs → In a (sort_by before xs)
  unfolding sort_by
  In-sort_by a [] h = h
  In-sort_by a (x ∷ xs) (inl e) =
      subst (λ y. In y (insert_by before x (sort_by before xs))) (sym e)
        (In-insert_by_self x (sort_by before xs))
  In-sort_by a (x ∷ xs) (inr h) = In-insert_by a x (sort_by before xs) (In-sort_by a xs h)

  -- What the cut of a sorted list leaves out comes before nothing that it keeps.
  pub In-take_sorted :
      (n : ℕ) (a : A) (xs : List A)
      → IsSorted before xs
      → In a xs
      → In a (take n xs) ⊎ ((length (take n xs) ≡ n) × All (λ x. before a x ≡ false) (take n xs))
  In-take_sorted n a [] s h = absurd h
  In-take_sorted zero a (x ∷ xs) s h = inr (refl, tt)
  In-take_sorted (suc n) a (x ∷ xs) s (inl e) = inl (inl e)
  In-take_sorted (suc n) a (x ∷ xs) s (inr h) = go (In-take_sorted n a xs s.1 h)
    where
      go :
          In a (take n xs) ⊎ ((length (take n xs) ≡ n) × All (λ x. before a x ≡ false) (take n xs))
          → In a (take (suc n) (x ∷ xs))
            ⊎ ((length (take (suc n) (x ∷ xs)) ≡ suc n)
                × All (λ x. before a x ≡ false) (take (suc n) (x ∷ xs)))
      go (inl kept) = inl (inr kept)
      go (inr (full, below)) =
          inr (omega arith, (All-In (λ y. before y x ≡ false) a xs s.0 h, below))

module _ {A : Type 0} where
  pub All-intro {κ} : (P : A → Type κ) (xs : List A) → ((a : A) → In a xs → P a) → All P xs
  All-intro P [] h = tt
  All-intro P (x ∷ xs) h = (h x (inl refl), All-intro P xs (λ a m. h a (inr m)))

  pub In-filter_by :
      (test : A → Bool) (a : A) (xs : List A) → In a xs → test a ≡ true → In a (filter_by test xs)
  In-filter_by test a [] m h = m
  In-filter_by test a (x ∷ xs) (inl e) h =
      let t : test x ≡ true = ap test (sym e) ∙ h in rw t (inl e)
  In-filter_by test a (x ∷ xs) (inr m) h =
      elim (test x) as (λ b. In a (if b then x ∷ filter_by test xs else filter_by test xs)) [
        | true ↦ inr (In-filter_by test a xs m h)
        | false ↦ In-filter_by test a xs m h
      ]

  pub In-filter_by_inv :
      (test : A → Bool) (a : A) (xs : List A) → In a (filter_by test xs) → In a xs × (test a ≡ true)
  In-filter_by_inv test a [] m = absurd m
  In-filter_by_inv test a (x ∷ xs) m = go (test x) refl m (In-filter_by_inv test a xs)
    where
      go :
          (b : Bool)
          → test x ≡ b
          → In a (if b then x ∷ filter_by test xs else filter_by test xs)
          → (In a (filter_by test xs) → In a xs × (test a ≡ true))
          → (In a (x ∷ xs)) × (test a ≡ true)
      go true t (inl e) below = (inl e, ap test e ∙ t)
      go true t (inr k) below = let h = below k in (inr h.0, h.1)
      go false t k below = let h = below k in (inr h.0, h.1)

  pub In-sort_by_inv :
      (before : A → A → Bool) (a : A) (xs : List A) → In a (sort_by before xs) → In a xs
  In-sort_by_inv before a xs m =
      All-In (λ x. In x xs) a (sort_by before xs)
        (All-sort_by before (λ x. In x xs) xs (All-intro (λ x. In x xs) xs (λ x h. h))) m
