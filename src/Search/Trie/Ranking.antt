-- ===== src/Search/Trie/Ranking.antt =====
-- The specification of `prefix_search` of trie.rs: the best entries under a prefix.
use mathlib.Core.List.{Perm}
use mathlib.Core.List.Perm
use mathlib.Core.Path.{subst}
use synapt.Prelude.{
  ℕ, ◌≤◌, ◌≡◌, refl, ap, ◌⊎◌, inl, inr, false, Option, none, some, List, [], ◌∷◌, ◌++◌, map, length,
  take, drop, take-append-drop, length-take, sym, All, Text, arith,
}
use synapt.Prelude.Sort.{
  sort_by, sort_by-perm, All-sort_by, sort_by-IsSorted, IsSorted, IsSorted-take, IsOrdering,
}
use synapt.Prelude.Members.{In, All-imp, All-take, In-sort_by, In-take_sorted}
use synapt.Search.Trie.{
  TrieNode, node, child, descend, Trie, collect, more_frequent, value_of, prefix_search,
}
use synapt.Search.Trie.Entries.{own_of, entry, entry_in}
use synapt.Search.Trie.Order.{IsOrdered}
use synapt.Search.Trie.Removal.{IsOrderedIn, IsOrdered-child_in}
use synapt.Search.Trie.Prefix.{Stored, items, collect-eq, items-Stored, In-items}

-- Some key that begins with `prefix` is stored with this frequency and value.
abbrev pub StoredUnder : Text → TrieNode → ℕ × Text → Type 0
StoredUnder prefix n a = (key : Text) × (entry (prefix ++ key) n ≡ some (a.0, some a.1))

-- The frequencies never go up.
abbrev pub Descending : List (ℕ × Text) → Type 0
Descending [] = Unit
Descending (a ∷ rest) = All (λ b. b.0 ≤ a.0) rest × Descending rest

-- One item for each key with a value in a tree that may not be there.
abbrev pub items_in : Option TrieNode → List (ℕ × Text)
items_in none = []
items_in (some n) = items n

-- A ranking is a list of best entries under a prefix, no longer than the limit: each is stored, the
-- more frequent come first, an entry is left out only where the list is full of entries that are as
-- frequent, and the list and what is left out are the items of the keys under the prefix, each as
-- often as it is an item.
pub record IsRanking (prefix : Text) (n : TrieNode) (limit : ℕ) (ranking : List (ℕ × Text))
    : Type 0 where
  pub stored : All (StoredUnder prefix n) ranking
  pub bounded : length ranking ≤ limit
  pub sorted : Descending ranking
  pub left_out : List (ℕ × Text)
  pub whole : Perm (ranking ++ left_out) (items_in (descend prefix n))
  pub best :
      (a : ℕ × Text)
      → StoredUnder prefix n a
      → In a ranking ⊎ ((length ranking ≡ limit) × All (λ b. a.0 ≤ b.0) ranking)

Descending-sorted : (xs : List (ℕ × Text)) → IsSorted more_frequent xs → Descending xs
Descending-sorted [] s = tt
Descending-sorted (x ∷ xs) s = (All-imp (λ b h. ground arith) xs s.0, Descending-sorted xs s.1)

more_frequent-IsOrdering : IsOrdering more_frequent
more_frequent-IsOrdering = record {
  asymmetric = λ a b h. ground arith;
  transitive = λ a b c h k. ground arith;
}

entry-append :
    (prefix key : Text) (n : TrieNode) → entry (prefix ++ key) n ≡ entry_in key (descend prefix n)
unfolding entry
entry-append [] key n = refl
entry-append (c ∷ prefix) key (node children is_end frequency v) =
    go (child children c) (entry-append prefix key)
  where
    go :
        (o : Option TrieNode)
        → ((n : TrieNode) → entry (prefix ++ key) n ≡ entry_in key (descend prefix n))
        → own_of (elim o as (λ x. Option TrieNode) [
          | none ↦ none
          | some below ↦ descend (prefix ++ key) below
        ])
          ≡ entry_in key
              (elim o as (λ x. Option TrieNode) [ none ↦ none | some below ↦ descend prefix below ])
    go none below = refl
    go (some n) below = below n

IsOrdered-descend : (prefix : Text) (n : TrieNode) → IsOrdered n → IsOrderedIn (descend prefix n)
unfolding descend
IsOrdered-descend [] n h = h
IsOrdered-descend (c ∷ prefix) (node children is_end frequency v) h =
    go (child children c) (IsOrdered-child_in children c h) (IsOrdered-descend prefix)
  where
    go :
        (o : Option TrieNode)
        → IsOrderedIn o
        → ((n : TrieNode) → IsOrdered n → IsOrderedIn (descend prefix n))
        → IsOrderedIn
            (elim o as (λ x. Option TrieNode) [ none ↦ none | some below ↦ descend prefix below ])
    go none g below = tt
    go (some n) g below = below n g

-- The pairs that `prefix_search` ranks, before it keeps the values.
abbrev ranking_of : ℕ → Option TrieNode → List (ℕ × Text)
ranking_of limit none = []
ranking_of limit (some n) = take limit (sort_by more_frequent (items n))

prefix_search-eq :
    (t : Trie) (prefix : Text) (limit : ℕ)
    → prefix_search t prefix limit ≡ map value_of (ranking_of limit (descend prefix t.root))
unfolding prefix_search
prefix_search-eq t prefix limit = go (descend prefix t.root)
  where
    go :
        (o : Option TrieNode)
        → (elim o as (λ x. List Text) [
          | none ↦ []
          | some n ↦ map value_of (take limit (sort_by more_frequent (collect n [])))
        ])
          ≡ map value_of (ranking_of limit o)
    go none = refl
    go (some n) =
        ap (λ (l : List (ℕ × Text)). map value_of (take limit (sort_by more_frequent l)))
          (collect-eq n [])

All-le :
    (a : ℕ × Text) (xs : List (ℕ × Text))
    → All (λ x. more_frequent a x ≡ false) xs
    → All (λ b. a.0 ≤ b.0) xs
All-le a xs = All-imp (λ b h. ground arith) xs

-- A cut of a sorted list, in terms of frequencies.
cut :
    (limit : ℕ) (a : ℕ × Text) (xs : List (ℕ × Text))
    → In a xs ⊎ ((length xs ≡ limit) × All (λ x. more_frequent a x ≡ false) xs)
    → In a xs ⊎ ((length xs ≡ limit) × All (λ b. a.0 ≤ b.0) xs)
cut limit a xs (inl h) = inl h
cut limit a xs (inr (full, below)) = inr (full, All-le a xs below)

module _ (prefix : Text) (root : TrieNode) (limit : ℕ) where
  entry_below :
      {n : TrieNode} {a : ℕ × Text} (s : StoredUnder prefix root a)
      → descend prefix root ≡ some n
      → entry s.0 n ≡ some (a.0, some a.1)
  entry_below s e = ground (arith, entry-append prefix s.0 root)

  Stored-under :
      (n : TrieNode) (a : ℕ × Text)
      → descend prefix root ≡ some n
      → Stored n a
      → StoredUnder prefix root a
  Stored-under n a e (key, h) = (key, ground (arith, entry-append prefix key root))

  ranking_of-IsRanking :
      (o : Option TrieNode)
      → descend prefix root ≡ o
      → IsOrderedIn o
      → IsRanking prefix root limit (ranking_of limit o)
  ranking_of-IsRanking none e h = record {
    stored = tt;
    bounded = omega arith;
    sorted = tt;
    left_out = [];
    whole = subst (λ o. Perm [] (items_in o)) (sym e) (Perm.refl []);
    best = λ a s. ground (arith, entry-append prefix s.0 root);
  }
  ranking_of-IsRanking (some n) e h =
      let sorted = sort_by-IsSorted more_frequent more_frequent-IsOrdering (items n) in
      record {
        stored = All-take (StoredUnder prefix root) limit (sort_by more_frequent (items n)) (
            All-sort_by more_frequent (StoredUnder prefix root) (items n)
              (All-imp (λ a. Stored-under n a e) (items n) (items-Stored n h)));
        bounded = length-take limit (sort_by more_frequent (items n));
        sorted =
            Descending-sorted (take limit (sort_by more_frequent (items n)))
              (IsSorted-take more_frequent limit (sort_by more_frequent (items n)) sorted);
        left_out = drop limit (sort_by more_frequent (items n));
        whole =
            subst
              (λ o.
                Perm
                  (take limit (sort_by more_frequent (items n))
                    ++ drop limit (sort_by more_frequent (items n)))
                  (items_in o))
              (sym e)
              (subst (λ l. Perm l (items n))
                (sym (take-append-drop limit (sort_by more_frequent (items n))))
                (sort_by-perm more_frequent (items n)));
        best = λ a s. cut limit a (take limit (sort_by more_frequent (items n))) (
            In-take_sorted more_frequent limit a (sort_by more_frequent (items n)) sorted
              (In-sort_by more_frequent a (items n) (In-items s.0 n a (entry_below s e))));
      }

-- In an ordered tree `prefix_search` returns the values of a ranking of the entries whose keys begin
-- with the prefix: no more than the limit, the more frequent first, each as often as it is stored, and
-- none left out but where the list is full of entries that are as frequent.
pub prefix_search_lem :
    (t : Trie) (prefix : Text) (limit : ℕ)
    → IsOrdered t.root
    → (ranking : List (ℕ × Text)) × (prefix_search t prefix limit ≡ map (λ a. a.1) ranking)
      × IsRanking prefix t.root limit ranking
prefix_search_lem t prefix limit h = (
  ranking_of limit (descend prefix t.root),
  prefix_search-eq t prefix limit,
  ranking_of-IsRanking prefix t.root limit (descend prefix t.root) refl
      (IsOrdered-descend prefix t.root h),
)
