-- ===== src/Network/Transfer/Serve/Access.antt =====
-- Which paths `is_path_allowed` lets through.
use synapt.Prelude.{
  ◌≡◌, refl, sym, ap, ◌∙◌, ◌↔◌, inl, inr, Bool, true, false, Option, none, some, List, [], ◌∷◌,
  ◌++◌, Text, text_lt, text_eq_iff, text_eq_refl, arith,
}
use synapt.Prelude.Members.{In, In-sort_by, In-sort_by_inv}
use synapt.Network.Transfer.Serve.{starts_with, is_under, is_path_allowed}
use synapt.Storage.Rows.{Db}
use synapt.Storage.Devices.{get_shared_dirs}

starts_with_sound :
    (path dir : List Text) → starts_with path dir ≡ true → (rest : List Text) × (path ≡ dir ++ rest)
unfolding starts_with
starts_with_sound path [] h = (path, refl)
starts_with_sound [] (d ∷ dir) h = absurd (cc)
starts_with_sound (c ∷ path) (d ∷ dir) h =
    let same : c ≡ d = (text_eq_iff c d).0 (ground (arith, h)) in
    let (rest, e) = starts_with_sound path dir (ground (arith, h)) in
    (rest, ap (λ (x : List Text). c ∷ x) e ∙ ap (λ (x : Text). x ∷ (dir ++ rest)) same)

starts_with_append : (dir rest : List Text) → starts_with (dir ++ rest) dir ≡ true
unfolding starts_with
starts_with_append [] rest = refl
starts_with_append (d ∷ dir) rest = ground (arith, text_eq_refl d, starts_with_append dir rest)

module _ (canonicalize : Text → Option (List Text)) where
  -- The path has a canonical one, and so has a directory of the list, and its components are the first
  -- of those of the path.
  abbrev pub IsShared : Text → List Text → Type 0
  IsShared path shared_dirs =
      (c : List Text) × (dir : Text) × (d : List Text) × (rest : List Text) × (canonicalize path
        ≡ some c)
      × In dir shared_dirs
      × (canonicalize dir ≡ some d)
      × (c ≡ d ++ rest)

  -- The same of components that are canonical already.
  abbrev IsBelow : List Text → List Text → Type 0
  IsBelow c shared_dirs =
      (dir : Text) × (d : List Text) × (rest : List Text) × In dir shared_dirs
      × (canonicalize dir ≡ some d)
      × (c ≡ d ++ rest)

  IsBelow-tail :
      (c : List Text) (dir : Text) (dirs : List Text) → IsBelow c dirs → IsBelow c (dir ∷ dirs)
  IsBelow-tail c dir dirs (e, d, rest, m, f, g) = (e, d, rest, inr m, f, g)

  is_under_sound :
      (c : List Text) (dirs : List Text) → is_under canonicalize c dirs ≡ true → IsBelow c dirs
  unfolding is_under
  is_under_sound c [] h = absurd (cc)
  is_under_sound c (dir ∷ dirs) h = go (canonicalize dir) refl (is_under_sound c dirs)
    where
      first :
          (d : List Text) (b : Bool)
          → canonicalize dir ≡ some d
          → starts_with c d ≡ b
          → (is_under canonicalize c dirs ≡ true → IsBelow c dirs)
          → IsBelow c (dir ∷ dirs)
      first d true e s below =
          let (rest, f) = starts_with_sound c d s in (dir, d, rest, inl refl, e, f)
      first d false e s below = IsBelow-tail c dir dirs (below (ground (arith, e, s, h)))

      go :
          (o : Option (List Text))
          → canonicalize dir ≡ o
          → (is_under canonicalize c dirs ≡ true → IsBelow c dirs)
          → IsBelow c (dir ∷ dirs)
      go none e below = IsBelow-tail c dir dirs (below (ground (arith, e, h)))
      go (some d) e below = first d (starts_with c d) e refl below

  is_under_complete :
      (c : List Text) (dirs : List Text) → IsBelow c dirs → is_under canonicalize c dirs ≡ true
  unfolding is_under
  is_under_complete c [] (e, d, rest, m, f, g) = absurd m
  is_under_complete c (dir ∷ dirs) (e, d, rest, inl m, f, g) =
      let k : canonicalize dir ≡ some d = ap canonicalize (sym m) ∙ f in
      let s : starts_with c d ≡ true = ap (λ x. starts_with x d) g ∙ starts_with_append d rest in
      ground (arith, k, s)
  is_under_complete c (dir ∷ dirs) (e, d, rest, inr m, f, g) =
      let below = is_under_complete c dirs (e, d, rest, m, f, g) in ground (arith, below)

  -- A path is let through exactly when it is under a directory that is shared.
  pub is_path_allowed_iff :
      (path : Text) (dirs : List Text)
      → (is_path_allowed canonicalize path dirs ≡ true) ↔ IsShared path dirs
  unfolding is_path_allowed
  is_path_allowed_iff path dirs = (
    λ h. go (canonicalize path) refl h,
    λ (c, dir, d, rest, e, m, f, g).
        ground (arith, e, is_under_complete c dirs (dir, d, rest, m, f, g)),
  )
    where
      go :
          (o : Option (List Text))
          → canonicalize path ≡ o
          → is_path_allowed canonicalize path dirs ≡ true
          → IsShared path dirs
      go none e h = absurd (ground (arith, e, h))
      go (some c) e h =
          let (dir, d, rest, m, f, g) = is_under_sound c dirs (ground (arith, e, h)) in
          (c, dir, d, rest, e, m, f, g)

  -- So it is for the directories of a database.
  pub is_path_allowed-get_shared_dirs :
      (path : Text) (store : Db)
      → (is_path_allowed canonicalize path (get_shared_dirs store) ≡ true)
        ↔ IsShared path store.shared_dirs
  unfolding get_shared_dirs
  is_path_allowed-get_shared_dirs path store = (
    λ h.
        let (c, dir, d, rest, e, m, f, g) =
          (is_path_allowed_iff path (get_shared_dirs store)).0 h in
        (c, dir, d, rest, e, In-sort_by_inv text_lt dir store.shared_dirs m, f, g),
    λ (c, dir, d, rest, e, m, f, g).
        (is_path_allowed_iff path (get_shared_dirs store)).1
          (c, dir, d, rest, e, In-sort_by text_lt dir store.shared_dirs m, f, g),
  )
