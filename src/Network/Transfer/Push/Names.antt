-- ===== src/Network/Transfer/Push/Names.antt =====
-- The names that pushed files are given.
use synapt.Prelude.{
  ℕ, ◌≡◌, refl, Bool, true, false, Option, none, some, List, [], ◌∷◌, ◌++◌, is_empty, All,
  filter_by, Text, codes, text_eq, ◌==◌, if◌then◌else◌, arith,
}
use synapt.Network.Transfer.{
  split, extend, is_component, last_normal, file_name, file_name_or, join, with_separator,
}

-- A name that stands for an entry of the directory it is joined to, and no other.
pub record IsPlain (name : Text) : Type 0 where
  pub no_separator : All (λ c. (c == b'/') ≡ false) name
  pub something : is_empty name ≡ false
  pub not_dot : text_eq name (codes ".") ≡ false
  pub not_dots : text_eq name (codes "..") ≡ false

abbrev NoSeparator : Text → Type 0
NoSeparator s = All (λ c. (c == b'/') ≡ false) s

extend-All :
    (c : ℕ) (segments : List Text)
    → (c == b'/') ≡ false
    → All NoSeparator segments
    → All NoSeparator (extend c segments)
extend-All c [] e a = ((e, tt), tt)
extend-All c (s ∷ segments) e a = ((e, a.0), a.1)

split-All : (path : Text) → All NoSeparator (split path)
unfolding split
split-All [] = (tt, tt)
split-All (c ∷ path) = go (c == b'/') refl (split-All path)
  where
    go :
        (b : Bool)
        → (c == b'/') ≡ b
        → All NoSeparator (split path)
        → All NoSeparator (if b then [] ∷ split path else extend c (split path))
    go true e a = (tt, a)
    go false e a = extend-All c (split path) e a

abbrev IsKept : Text → Type 0
IsKept s = NoSeparator s × (is_component s ≡ true)

filter-IsKept :
    (segments : List Text) → All NoSeparator segments → All IsKept (filter_by is_component segments)
filter-IsKept [] a = tt
filter-IsKept (s ∷ segments) a = go (is_component s) refl (filter-IsKept segments a.1)
  where
    go :
        (b : Bool)
        → is_component s ≡ b
        → All IsKept (filter_by is_component segments)
        → All IsKept
            (if b then s ∷ filter_by is_component segments else filter_by is_component segments)
    go true e r = ((a.0, e), r)
    go false e r = r

abbrev PlainIf : Option Text → Type 0
PlainIf none = Unit
PlainIf (some name) = IsPlain name

last_normal-IsPlain : (segments : List Text) → All IsKept segments → PlainIf (last_normal segments)
last_normal-IsPlain [] a = tt
last_normal-IsPlain (s ∷ []) a = go (text_eq s (codes "..")) refl
  where
    go : (b : Bool) → text_eq s (codes "..") ≡ b → PlainIf (if b then none else some s)
    go true e = tt
    go false e = record {
      no_separator = a.0.0;
      something = ground (arith, a.0.1);
      not_dot = ground (arith, a.0.1);
      not_dots = e;
    }
last_normal-IsPlain (s ∷ t ∷ segments) a = last_normal-IsPlain (t ∷ segments) a.1

pub file_name_or-IsPlain : (path : Text) → IsPlain (file_name_or path)
unfolding file_name text_eq
file_name_or-IsPlain path = go (last_normal (filter_by is_component (split path))) (
    last_normal-IsPlain (filter_by is_component (split path))
      (filter-IsKept (split path) (split-All path)))
  where
    go : (o : Option Text) → PlainIf o → IsPlain (elim o [ none ↦ codes "file" | some name ↦ name ])
    go none h = record {
      no_separator = (refl, (refl, (refl, (refl, tt))));
      something = refl;
      not_dot = refl;
      not_dots = refl;
    }
    go (some name) h = h

-- A plain name is joined below the directory.
pub join-IsPlain : (dir name : Text) → IsPlain name → join dir name ≡ with_separator dir ++ name
unfolding join
join-IsPlain dir [] h = refl
join-IsPlain dir (c ∷ name) h = rw (h.no_separator.0) refl
