-- ===== src/Prelude/Sort.antt =====
-- Rust's stable `sort_by`, as an insertion sort. `before a b` says that the comparison of `a` with
-- `b` is `Less`; elements that do not come before one another keep their order.
use mathlib.Core.Path.{◌≡◌, refl}
use mathlib.Core.Bool.{Bool, true, false}
use mathlib.Core.List.{List, [], ◌∷◌, Perm}
use mathlib.Core.List.Perm
use native.Mathlib.Omega.{arith}
use synapt.Prelude.Tests.{if◌then◌else◌}
use Prim.Native.Nat.{ℕ, zero, suc}
use synapt.Prelude.Lists.{All, length, take}

module _ {ℓ} {A : Type ℓ} (before : A → A → Bool) where
  unfoldable pub insert_by : A → List A → List A
  insert_by x [] = x ∷ []
  insert_by x (y ∷ ys) = if before y x then y ∷ insert_by x ys else x ∷ y ∷ ys

  unfoldable pub sort_by : List A → List A
  unfolding insert_by
  sort_by [] = []
  sort_by (x ∷ xs) = insert_by x (sort_by xs)

  -- No element comes before one that stands to its left.
  abbrev pub IsSorted : List A → Type 0
  IsSorted [] = Unit
  IsSorted (x ∷ xs) = All (λ y. before y x ≡ false) xs × IsSorted xs

  perm-insert_by : (x : A) (ys : List A) → Perm (insert_by x ys) (x ∷ ys)
  unfolding insert_by
  perm-insert_by x [] = Perm.refl (x ∷ [])
  perm-insert_by x (y ∷ ys) =
      elim (before y x) as (λ b. Perm (if b then y ∷ insert_by x ys else x ∷ y ∷ ys) (x ∷ y ∷ ys)) [
        | true ↦ Perm.trans (Perm.cons y (perm-insert_by x ys)) (Perm.swap x y ys)
        | false ↦ Perm.refl (x ∷ y ∷ ys)
      ]

  pub sort_by-perm : (xs : List A) → Perm (sort_by xs) xs
  unfolding sort_by
  sort_by-perm [] = Perm.refl []
  sort_by-perm (x ∷ xs) = Perm.trans (perm-insert_by x (sort_by xs)) (Perm.cons x (sort_by-perm xs))

  pub All-insert_by {κ} :
      (P : A → Type κ) (x : A) (ys : List A) → P x → All P ys → All P (insert_by x ys)
  unfolding insert_by
  All-insert_by P x [] p h = (p, tt)
  All-insert_by P x (y ∷ ys) p h =
      elim (before y x) as (λ b. All P (if b then y ∷ insert_by x ys else x ∷ y ∷ ys)) [
        | true ↦ (h.0, All-insert_by P x ys p h.1)
        | false ↦ (p, h)
      ]

  pub All-sort_by {κ} : (P : A → Type κ) (xs : List A) → All P xs → All P (sort_by xs)
  unfolding sort_by
  All-sort_by P [] h = tt
  All-sort_by P (x ∷ xs) h = All-insert_by P x (sort_by xs) h.0 (All-sort_by P xs h.1)

  length-insert_by : (x : A) (ys : List A) → length (insert_by x ys) ≡ length (x ∷ ys)
  unfolding insert_by
  length-insert_by x [] = refl
  length-insert_by x (y ∷ ys) = ground (arith, length-insert_by x ys)

  pub length-sort_by : (xs : List A) → length (sort_by xs) ≡ length xs
  unfolding sort_by
  length-sort_by [] = refl
  length-sort_by (x ∷ xs) = omega (arith, length-insert_by x (sort_by xs), length-sort_by xs)

  -- A comparison that orders: asymmetric, and its negation transitive.
  pub record IsOrdering : Type ℓ where
    pub asymmetric : (a b : A) → before a b ≡ true → before b a ≡ false
    pub transitive : (a b c : A) → before a b ≡ false → before b c ≡ false → before a c ≡ false

  module _ (o : IsOrdering) where
    All-not_before :
        (x y : A) (ys : List A)
        → before y x ≡ false
        → All (λ z. before z y ≡ false) ys
        → All (λ z. before z x ≡ false) ys
    All-not_before x y [] h all = tt
    All-not_before x y (z ∷ ys) h all = (o.transitive z y x all.0 h, All-not_before x y ys h all.1)

    insert_by-IsSorted : (x : A) (ys : List A) → IsSorted ys → IsSorted (insert_by x ys)
    unfolding insert_by
    insert_by-IsSorted x [] s = (tt, tt)
    insert_by-IsSorted x (y ∷ ys) s = go (before y x) refl (insert_by-IsSorted x ys s.1)
      where
        go :
            (b : Bool)
            → before y x ≡ b
            → IsSorted (insert_by x ys)
            → IsSorted (if b then y ∷ insert_by x ys else x ∷ y ∷ ys)
        go true e below =
            (All-insert_by (λ z. before z y ≡ false) x ys (o.asymmetric y x e) s.0, below)
        go false e below = ((e, All-not_before x y ys e s.0), s)

    pub sort_by-IsSorted : (xs : List A) → IsSorted (sort_by xs)
    unfolding sort_by
    sort_by-IsSorted [] = tt
    sort_by-IsSorted (x ∷ xs) = insert_by-IsSorted x (sort_by xs) (sort_by-IsSorted xs)

  pub IsSorted-take : (n : ℕ) (xs : List A) → IsSorted xs → IsSorted (take n xs)
  IsSorted-take zero xs s = tt
  IsSorted-take (suc n) [] s = tt
  IsSorted-take (suc n) (x ∷ xs) s =
      (All-take_prefix (λ y. before y x ≡ false) n xs s.0, IsSorted-take n xs s.1)
    where
      All-take_prefix : (P : A → Type 0) (n : ℕ) (ys : List A) → All P ys → All P (take n ys)
      All-take_prefix P zero ys h = tt
      All-take_prefix P (suc n) [] h = tt
      All-take_prefix P (suc n) (y ∷ ys) h = (h.0, All-take_prefix P n ys h.1)
