-- ===== src/Search/Trie/Prefix.antt =====
-- What `prefix_search` of trie.rs returns.
use synapt.Prelude.{
  ℕ, ◌≡◌, refl, sym, ap, ◌∙◌, ◌⊎◌, inl, inr, Bool, true, false, Option, none, some, List, [], ◌∷◌,
  ◌++◌, append-nil, append_assoc, All, Text, ltb, Bool-cases, arith,
}
use synapt.Prelude.Members.{In, In-append_left, In-append_right, All-append, All-imp}
use synapt.Search.Trie.{TrieNode, node, Children, nil, cons, child, collect, collect_children}
use synapt.Search.Trie.Nodes.{child_cons}
use synapt.Search.Trie.Entries.{own, entry, entry_in, entry_cons}
use synapt.Search.Trie.Order.{Above, IsOrdered, AreOrdered}
use synapt.Search.Trie.Removal.{child_below}

-- The keys below a node, as pairs of a frequency and a value, in the order of the walk.
abbrev mutual
  pub items : TrieNode → List (ℕ × Text)
  items (node children true frequency (some v)) = (frequency, v) ∷ items_below children
  items (node children true frequency none) = items_below children
  items (node children false frequency v) = items_below children

  pub items_below : Children → List (ℕ × Text)
  items_below nil = []
  items_below (cons k n rest) = items n ++ items_below rest

mutual
  unfolding collect

  pub collect-eq : (n : TrieNode) (out : List (ℕ × Text)) → collect n out ≡ out ++ items n
  collect-eq (node children true frequency (some v)) out =
      collect_children-eq children (out ++ (frequency, v) ∷ [])
      ∙ append_assoc out ((frequency, v) ∷ []) (items_below children)
  collect-eq (node children true frequency none) out = collect_children-eq children out
  collect-eq (node children false frequency v) out = collect_children-eq children out

  pub collect_children-eq :
      (children : Children) (out : List (ℕ × Text))
      → collect_children children out ≡ out ++ items_below children
  collect_children-eq nil out = sym (append-nil out)
  collect_children-eq (cons k n rest) out =
      collect_children-eq rest (collect n out)
      ∙ ap (λ (l : List (ℕ × Text)). l ++ items_below rest) (collect-eq n out)
      ∙ append_assoc out (items n) (items_below rest)

-- A pair is what some key below the node stores.
abbrev pub Stored : TrieNode → ℕ × Text → Type 0
Stored n a = (key : Text) × (entry key n ≡ some (a.0, some a.1))

abbrev pub StoredBelow : Children → ℕ × Text → Type 0
StoredBelow children a =
    (c : ℕ) × (key : Text) × (entry_in key (child children c) ≡ some (a.0, some a.1))

Stored-below :
    (children : Children) (is_end : Bool) (frequency : ℕ) (v : Option Text) (a : ℕ × Text)
    → StoredBelow children a
    → Stored (node children is_end frequency v) a
Stored-below children is_end frequency v a (c, key, e) =
    (c ∷ key, entry_cons c key children is_end frequency v ∙ e)

StoredBelow-head :
    (k : ℕ) (n : TrieNode) (rest : Children) (a : ℕ × Text)
    → Stored n a
    → StoredBelow (cons k n rest) a
StoredBelow-head k n rest a (key, e) = (k, key, ground (arith, child_cons k k n rest))

StoredBelow-tail :
    (k : ℕ) (n : TrieNode) (rest : Children) (a : ℕ × Text)
    → Above k rest
    → StoredBelow rest a
    → StoredBelow (cons k n rest) a
StoredBelow-tail k n rest a above (c, key, e) =
    (c, key, ground (arith, child_cons k c n rest, child_below c k rest))

mutual
  unfolding entry

  pub items-Stored : (n : TrieNode) → IsOrdered n → All (Stored n) (items n)
  items-Stored (node children true frequency (some v)) h = (
    ([], refl),
    All-imp (Stored-below children true frequency (some v)) (items_below children)
        (items_below-Stored children h),
  )
  items-Stored (node children true frequency none) h =
      All-imp (Stored-below children true frequency none) (items_below children)
        (items_below-Stored children h)
  items-Stored (node children false frequency v) h =
      All-imp (Stored-below children false frequency v) (items_below children)
        (items_below-Stored children h)

  pub items_below-Stored :
      (children : Children)
      → AreOrdered children
      → All (StoredBelow children) (items_below children)
  items_below-Stored nil h = tt
  items_below-Stored (cons k n rest) h =
      All-append (StoredBelow (cons k n rest)) (items n) (items_below rest)
        (All-imp (StoredBelow-head k n rest) (items n) (items-Stored n h.0))
        (All-imp (λ a. StoredBelow-tail k n rest a h.1) (items_below rest)
          (items_below-Stored rest h.2))

-- Every value below a node is among its items.
In-items-own :
    (children : Children) (is_end : Bool) (frequency : ℕ) (v : Option Text) (a : ℕ × Text)
    → own (node children is_end frequency v) ≡ some (a.0, some a.1)
    → In a (items (node children is_end frequency v))
In-items-own children true frequency (some v) a h = inl (ground arith)
In-items-own children true frequency none a h = cc
In-items-own children false frequency v a h = cc

In-items_below :
    (children : Children) (is_end : Bool) (frequency : ℕ) (v : Option Text) (a : ℕ × Text)
    → In a (items_below children)
    → In a (items (node children is_end frequency v))
In-items_below children true frequency (some v) a h = inr h
In-items_below children true frequency none a h = h
In-items_below children false frequency v a h = h

In-items-child :
    (children : Children) (c : ℕ) (n : TrieNode) (a : ℕ × Text)
    → child children c ≡ some n
    → In a (items n)
    → In a (items_below children)
unfolding child
In-items-child nil c n a h found = cc
In-items-child (cons k m rest) c n a h found = go (Bool-cases (ltb k c)) (In-items-child rest c n a)
  where
    go :
        (ltb k c ≡ true) ⊎ (ltb k c ≡ false)
        → (child rest c ≡ some n → In a (items n) → In a (items_below rest))
        → In a (items m ++ items_below rest)
    go (inl e) below = In-append_right a (items m) (items_below rest) (below (ground arith) found)
    go (inr e) below =
        let same : n ≡ m = ground arith in
        In-append_left a (items m) (items_below rest) (rw same at found)

pub In-items :
    (key : Text) (n : TrieNode) (a : ℕ × Text) → entry key n ≡ some (a.0, some a.1) → In a (items n)
In-items [] (node children is_end frequency v) a h =
    In-items-own children is_end frequency v a (unfold entry in h)
In-items (c ∷ key) (node children is_end frequency v) a h =
    In-items_below children is_end frequency v a (
      go (child children c) refl (sym (entry_cons c key children is_end frequency v) ∙ h)
        (λ n. In-items key n a))
  where
    go :
        (o : Option TrieNode)
        → child children c ≡ o
        → entry_in key (child children c) ≡ some (a.0, some a.1)
        → ((n : TrieNode) → entry key n ≡ some (a.0, some a.1) → In a (items n))
        → In a (items_below children)
    go none e stored below = cc
    go (some n) e stored below = In-items-child children c n a e (below n (rw e at stored))
