-- ===== src/Search/Trie/Removal.antt =====
-- What `remove` does to the entries, and that it keeps the children in order.
use synapt.Prelude.{
  ℕ, ◌≤◌, ◌≡◌, refl, Bool, true, false, Option, none, some, [], ◌∷◌, Text, ok, err, ◌==◌,
  if◌then◌else◌, arith,
}
use synapt.Search.Trie.{
  TrieNode, node, Children, nil, cons, set_nth, find, child, remove_child, RemoveResult,
  remove_below, remove_rec,
}
use synapt.Search.Trie.Order.{Above, IsOrdered, AreOrdered}

pub child_below :
    (d k : ℕ) (children : Children) → d ≤ k → Above k children → child children d ≡ none
unfolding child
child_below d k nil h a = refl
child_below d k (cons j n rest) h a = ground arith

-- `remove_child` takes the child for `c` away and no other.
pub child-remove_child :
    (children : Children) (c d : ℕ)
    → AreOrdered children
    → child (remove_child children c) d ≡ (if c == d then none else child children d)
unfolding remove_child child
child-remove_child nil c d a = ground arith
child-remove_child (cons k n rest) c d a =
    ground (arith, child-remove_child rest c d a.2, child_below c k rest, child_below d k rest)

-- The write that the walk of `remove` makes through its reference to a child.
abbrev pub rewritten : Children → ℕ → TrieNode → Children
rewritten children c below = elim (find children c) as (λ x. Children) [
  | ok i ↦ set_nth children i below
  | err i ↦ children
]

pub child-rewritten :
    (children : Children) (c d : ℕ) (old below : TrieNode)
    → child children c ≡ some old
    → child (rewritten children c below) d ≡ (if c == d then some below else child children d)
unfolding child set_nth
child-rewritten nil c d old below h = cc
child-rewritten (cons k n rest) c d old below h = ground (arith, child-rewritten rest c d old below)

Above-rewritten :
    (j : ℕ) (children : Children) (c : ℕ) (below : TrieNode)
    → Above j children
    → Above j (rewritten children c below)
unfolding find set_nth
Above-rewritten j nil c below a = tt
Above-rewritten j (cons k n rest) c below a = ground (arith, Above-rewritten j rest c below a.1)

pub AreOrdered-rewritten :
    (children : Children) (c : ℕ) (below : TrieNode)
    → IsOrdered below
    → AreOrdered children
    → AreOrdered (rewritten children c below)
unfolding find set_nth
AreOrdered-rewritten nil c below h a = tt
AreOrdered-rewritten (cons k n rest) c below h a =
    ground (arith, AreOrdered-rewritten rest c below h a.2, Above-rewritten k rest c below)

Above-remove_child :
    (j : ℕ) (children : Children) (c : ℕ) → Above j children → Above j (remove_child children c)
unfolding remove_child
Above-remove_child j nil c a = tt
Above-remove_child j (cons k n rest) c a = ground (arith, Above-remove_child j rest c a.1)

AreOrdered-remove_child :
    (children : Children) (c : ℕ) → AreOrdered children → AreOrdered (remove_child children c)
unfolding remove_child
AreOrdered-remove_child nil c a = tt
AreOrdered-remove_child (cons k n rest) c a =
    ground (arith, AreOrdered-remove_child rest c a.2, Above-remove_child k rest c)

pub AreOrdered-rewritten_remove :
    (children : Children) (c : ℕ) (below : TrieNode)
    → IsOrdered below
    → AreOrdered children
    → AreOrdered (remove_child (rewritten children c below) c)
AreOrdered-rewritten_remove children c below h a =
    AreOrdered-remove_child (rewritten children c below) c
      (AreOrdered-rewritten children c below h a)

abbrev pub IsOrderedIn : Option TrieNode → Type 0
IsOrderedIn none = Unit
IsOrderedIn (some n) = IsOrdered n

pub IsOrdered-child_in :
    (children : Children) (c : ℕ) → AreOrdered children → IsOrderedIn (child children c)
unfolding child
IsOrdered-child_in nil c a = tt
IsOrdered-child_in (cons k n rest) c a = ground (arith, IsOrdered-child_in rest c a.2)

-- The node under a reference, after a removal in it.
abbrev IsOrderedResult : Option (TrieNode × RemoveResult) → Type 0
IsOrderedResult none = Unit
IsOrderedResult (some (below, result)) = IsOrdered below

IsOrdered-remove_below :
    (children : Children) (is_end : Bool) (frequency : ℕ) (v : Option Text) (c : ℕ)
    (o : Option (TrieNode × RemoveResult))
    → IsOrderedResult o
    → AreOrdered children
    → IsOrdered (remove_below children is_end frequency v c o).0
unfolding remove_below
IsOrdered-remove_below children is_end frequency v c none h a = a
IsOrdered-remove_below children is_end frequency v c (some (below, result)) h a = ground (
  arith,
  AreOrdered-rewritten children c below h a,
  AreOrdered-rewritten_remove children c below h a,
)

-- `remove` keeps the children of every node in order.
pub IsOrdered-remove_rec :
    (key : Text) (n : TrieNode) → IsOrdered n → IsOrdered (remove_rec key n).0
unfolding remove_rec
IsOrdered-remove_rec [] (node children false frequency v) h = h
IsOrdered-remove_rec [] (node children true frequency v) h = ground arith
IsOrdered-remove_rec (c ∷ key) (node children is_end frequency v) h =
    unfold child in
    IsOrdered-remove_below children is_end frequency v c
      (elim (child children c) [ none ↦ none | some below ↦ some (remove_rec key below) ])
      (go (child children c) (IsOrdered-child_in children c h) (IsOrdered-remove_rec key)) h
  where
    go :
        (o : Option TrieNode)
        → IsOrderedIn o
        → ((n : TrieNode) → IsOrdered n → IsOrdered (remove_rec key n).0)
        → IsOrderedResult (elim o as (λ x. Option (TrieNode × RemoveResult)) [
          | none ↦ none
          | some below ↦ some (remove_rec key below)
        ])
    go none g below = tt
    go (some n) g below = below n g
