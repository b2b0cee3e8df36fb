-- ===== src/Search/Trie/Erasure.antt =====
-- What `remove` does to the entries of the tree.
use synapt.Prelude.{
  ℕ, ◌-◌, ◌%◌, ◌^◌, ◌≡◌, refl, ap, Bool, true, false, ◌&&◌, Option, none, some, [], ◌∷◌, Text,
  text_eq, ◌==◌, if◌then◌else◌, arith,
}
use synapt.Search.Trie.{
  TrieNode, node, Children, nil, cons, child, decrement, remove_child, RemoveResult, is_dead,
  remove_below, remove_rec, Trie, remove,
}
use synapt.Search.Trie.Entries.{entry, entry_in, entry_cons}
use synapt.Search.Trie.Order.{IsOrdered, AreOrdered}
use synapt.Search.Trie.Removal.{
  child-remove_child, rewritten, child-rewritten, AreOrdered-rewritten, IsOrderedIn,
  IsOrdered-child_in, IsOrdered-remove_rec,
}

-- One less, on 32 bits: zero wraps around to the greatest number.
abbrev pub lowered : ℕ → ℕ
lowered frequency = if frequency % 2 ^ 32 == 0 then 2 ^ 32 - 1 else frequency % 2 ^ 32 - 1

decrement-lowered : (frequency : ℕ) → decrement frequency ≡ lowered frequency
decrement-lowered frequency = ground arith

-- An entry after one removal of its key.
abbrev pub dropped : Option (ℕ × Option Text) → Option (ℕ × Option Text)
dropped none = none
dropped (some (frequency, v)) = if lowered frequency == 0 then none else some (lowered frequency, v)

-- What a removal reports for an entry.
abbrev pub outcome : Option (ℕ × Option Text) → RemoveResult
outcome none = record { existed = false; fully_removed = false }
outcome (some (frequency, v)) = record { existed = true; fully_removed = lowered frequency == 0 }

-- A dead node stores nothing.
entry-is_dead : (key : Text) (n : TrieNode) → is_dead n ≡ true → entry key n ≡ none
unfolding entry child
entry-is_dead [] (node nil false frequency v) h = refl
entry-is_dead [] (node nil true frequency v) h = cc
entry-is_dead [] (node (cons k n rest) is_end frequency v) h = cc
entry-is_dead (c ∷ key) (node nil is_end frequency v) h = refl
entry-is_dead (c ∷ key) (node (cons k n rest) is_end frequency v) h = cc

module _ (children : Children) (is_end : Bool) (frequency : ℕ) (v : Option Text) (c d : ℕ)
    (j : Text) where
  entry-rewritten :
      (old below : TrieNode)
      → child children c ≡ some old
      → entry_in j (child (rewritten children c below) d)
        ≡ (if c == d then entry j below else entry_in j (child children d))
  entry-rewritten old below h = ground (arith, child-rewritten children c d old below h)

  -- Taking a dead node away changes nothing that is stored.
  entry-pruned :
      (old below : TrieNode)
      → child children c ≡ some old
      → AreOrdered children
      → IsOrdered below
      → is_dead below ≡ true
      → entry_in j (child (remove_child (rewritten children c below) c) d)
        ≡ (if c == d then entry j below else entry_in j (child children d))
  entry-pruned old below h a b dead = ground (
    arith,
    child-remove_child (rewritten children c below) c d (AreOrdered-rewritten children c below b a),
    child-rewritten children c d old below h,
    entry-is_dead j below dead,
  )

  entry-remove_below :
      (old below : TrieNode) (result : RemoveResult)
      → child children c ≡ some old
      → AreOrdered children
      → IsOrdered below
      → entry (d ∷ j) (remove_below children is_end frequency v c (some (below, result))).0
        ≡ (if c == d then entry j below else entry_in j (child children d))
  unfolding remove_below
  entry-remove_below old below result h a b = ground (
    arith,
    entry_cons d j (rewritten children c below) is_end frequency v,
    entry_cons d j (remove_child (rewritten children c below) c) is_end frequency v,
    entry-rewritten old below h,
    entry-pruned old below h a b,
  )

-- The recursion of `remove_rec` under a child that may be absent.
abbrev pub recursion : Text → Option TrieNode → Option (TrieNode × RemoveResult)
recursion key o = elim o [ none ↦ none | some n ↦ some (remove_rec key n) ]

module _ (children : Children) (is_end : Bool) (frequency : ℕ) (v : Option Text) (c : ℕ)
    (key : Text) where
  pub remove_rec_cons :
      remove_rec (c ∷ key) (node children is_end frequency v)
      ≡ remove_below children is_end frequency v c (recursion key (child children c))
  unfolding remove_rec
  remove_rec_cons = refl

  -- The node above keeps its own entry.
  entry_nil-remove_below :
      (o : Option (TrieNode × RemoveResult))
      → entry [] (remove_below children is_end frequency v c o).0
        ≡ entry [] (node children is_end frequency v)
  unfolding remove_below entry
  entry_nil-remove_below none = refl
  entry_nil-remove_below (some (below, result)) = ground arith

  result-remove_below :
      (o : Option TrieNode)
      → ((n : TrieNode) → (remove_rec key n).1 ≡ outcome (entry key n))
      → (remove_below children is_end frequency v c (recursion key o)).1 ≡ outcome (entry_in key o)
  unfolding remove_below
  result-remove_below none below = refl
  result-remove_below (some n) below = ground (arith, below n)

  entry-remove_step :
      (d : ℕ) (j : Text) (o : Option TrieNode)
      → child children c ≡ o
      → IsOrderedIn o
      → AreOrdered children
      → ((n : TrieNode) → IsOrdered n → IsOrdered (remove_rec key n).0)
      → ((n : TrieNode)
          → IsOrdered n
          → entry j (remove_rec key n).0
            ≡ (if text_eq key j then dropped (entry key n) else entry j n))
      → entry (d ∷ j) (remove_below children is_end frequency v c (recursion key o)).0 ≡ (
          if c == d && text_eq key j
          then dropped (entry_in key o)
          else entry (d ∷ j) (node children is_end frequency v))
  entry-remove_step d j none h b a ordered below =
      unfold remove_below in ground (arith, entry_cons d j children is_end frequency v)
  entry-remove_step d j (some n) h b a ordered below = ground (
    arith,
    entry_cons d j children is_end frequency v,
    entry-remove_below children is_end frequency v c d j n (remove_rec key n).0 (remove_rec key n).1
        h a (ordered n b),
    below n b,
  )

-- In an ordered tree `remove_rec` lowers the frequency of its key by one, erases the key when that
-- reaches zero, and leaves what every other key stores.
pub entry-remove_rec :
    (key j : Text) (n : TrieNode)
    → IsOrdered n
    → entry j (remove_rec key n).0 ≡ (if text_eq key j then dropped (entry key n) else entry j n)
unfolding text_eq
entry-remove_rec [] [] (node children false frequency v) h = unfold remove_rec entry in refl
entry-remove_rec [] [] (node children true frequency v) h =
    unfold remove_rec entry in ground (arith, decrement-lowered frequency)
entry-remove_rec [] (d ∷ j) (node children false frequency v) h = unfold remove_rec entry in refl
entry-remove_rec [] (d ∷ j) (node children true frequency v) h =
    unfold remove_rec entry in ground arith
entry-remove_rec (c ∷ key) [] (node children is_end frequency v) h =
    rw (remove_rec_cons children is_end frequency v c key)
      (entry_nil-remove_below children is_end frequency v c key (recursion key (child children c)))
entry-remove_rec (c ∷ key) (d ∷ j) (node children is_end frequency v) h =
    rw
      (
        entry_cons c key children is_end frequency v,
        remove_rec_cons children is_end frequency v c key,
      )
      (entry-remove_step children is_end frequency v c key d j (child children c) refl
        (IsOrdered-child_in children c h) h (IsOrdered-remove_rec key) (entry-remove_rec key j))

-- What a removal reports: whether the key was stored, and whether it is now erased.
pub result-remove_rec : (key : Text) (n : TrieNode) → (remove_rec key n).1 ≡ outcome (entry key n)
result-remove_rec [] (node children false frequency v) = unfold remove_rec entry in refl
result-remove_rec [] (node children true frequency v) =
    unfold remove_rec entry in ground (arith, decrement-lowered frequency)
result-remove_rec (c ∷ key) (node children is_end frequency v) =
    rw
      (
        entry_cons c key children is_end frequency v,
        remove_rec_cons children is_end frequency v c key,
      )
      (result-remove_below children is_end frequency v c key (child children c)
        (result-remove_rec key))

-- In an ordered tree `remove` lowers the frequency of its key by one, from zero to the greatest number
-- of 32 bits, erases the key when that reaches zero, and leaves what every other key stores; it returns whether the key was stored.
pub remove_refines :
    (t : Trie) (key j : Text)
    → IsOrdered t.root
    → (entry j (remove t key).0.root
        ≡ (if text_eq key j then dropped (entry key t.root) else entry j t.root))
      × ((remove t key).1 ≡ (outcome (entry key t.root)).existed)
remove_refines t key j h =
    unfold remove in
    (
      entry-remove_rec key j t.root h,
      ap (λ (r : RemoveResult). r.existed) (result-remove_rec key t.root),
    )
