-- ===== src/Search/Trie/Size.antt =====
-- The cached count of keys in trie.rs, and the invariant of the whole tree.
use synapt.Prelude.{
  ℕ, suc, ◌+◌, ◌≡◌, refl, Bool, true, false, Option, none, some, [], ◌∷◌, Text, arith,
}
use synapt.Search.Trie.{
  TrieNode, node, Children, nil, cons, nth, set_nth, child, child_or_insert, remove_child, is_dead,
  remove_below, remove_rec, insert_at, Trie, new, insert, len, remove,
}
use synapt.Search.Trie.Order.{IsOrdered, IsOrdered-insert_at}
use synapt.Search.Trie.Removal.{rewritten, child-rewritten, IsOrdered-remove_rec}
use synapt.Search.Trie.Erasure.{recursion, remove_rec_cons}

-- The number of keys that a tree stores.
abbrev mutual
  pub keys : TrieNode → ℕ
  keys (node children true frequency v) = suc (keys_below children)
  keys (node children false frequency v) = keys_below children

  pub keys_below : Children → ℕ
  keys_below nil = 0
  keys_below (cons k n rest) = keys n + keys_below rest

-- 1 for a key that came or went, and 0 otherwise
abbrev pub counted_as : Bool → ℕ
counted_as true = 1
counted_as false = 0

keys_node :
    (children : Children) (is_end : Bool) (frequency : ℕ) (v : Option Text)
    → keys (node children is_end frequency v) ≡ counted_as is_end + keys_below children
keys_node children true frequency v = omega arith
keys_node children false frequency v = omega arith

keys-written :
    (children : Children) (c : ℕ) (m : TrieNode)
    → keys_below (set_nth (child_or_insert children c).0 (child_or_insert children c).1 m)
        + keys (nth (child_or_insert children c).0 (child_or_insert children c).1)
      ≡ keys_below children + keys m
unfolding child_or_insert set_nth nth
keys-written nil c m = omega arith
keys-written (cons k n rest) c m = ground (arith, keys-written rest c m)

-- A key that `insert` finds new is one key more.
keys-insert_at :
    (key value : Text) (n : TrieNode)
    → keys (insert_at key value n).0 ≡ keys n + counted_as (insert_at key value n).1
unfolding insert_at
keys-insert_at [] value (node children true frequency v) = omega arith
keys-insert_at [] value (node children false frequency v) = omega arith
keys-insert_at (c ∷ key) value (node children is_end frequency v) =
    let (children', i) = child_or_insert children c in
    let target = nth children' i in
    ground (
      arith,
      keys_node children is_end frequency v,
      keys_node (set_nth children' i (insert_at key value target).0) is_end frequency v,
      keys-written children c (insert_at key value target).0,
      keys-insert_at key value target,
    )

keys-rewritten :
    (children : Children) (c : ℕ) (old below : TrieNode)
    → child children c ≡ some old
    → keys_below (rewritten children c below) + keys old ≡ keys_below children + keys below
unfolding child set_nth
keys-rewritten nil c old below h = cc
keys-rewritten (cons k n rest) c old below h = ground (arith, keys-rewritten rest c old below)

keys-is_dead : (n : TrieNode) → is_dead n ≡ true → keys n ≡ 0
keys-is_dead (node nil false frequency v) h = refl
keys-is_dead (node nil true frequency v) h = cc
keys-is_dead (node (cons k n rest) is_end frequency v) h = cc

keys-remove_child :
    (children : Children) (c : ℕ) (n : TrieNode)
    → child children c ≡ some n
    → keys_below (remove_child children c) + keys n ≡ keys_below children
unfolding child remove_child
keys-remove_child nil c n h = cc
keys-remove_child (cons k m rest) c n h = ground (arith, keys-remove_child rest c n)

module _ (children : Children) (is_end : Bool) (frequency : ℕ) (v : Option Text) (c : ℕ)
    (key : Text) where
  keys-remove_below :
      (o : Option TrieNode)
      → child children c ≡ o
      → ((n : TrieNode)
          → keys (remove_rec key n).0 + counted_as (remove_rec key n).1.fully_removed ≡ keys n)
      → keys (remove_below children is_end frequency v c (recursion key o)).0
          + counted_as
              (remove_below children is_end frequency v c (recursion key o)).1.fully_removed
        ≡ keys (node children is_end frequency v)
  unfolding remove_below
  keys-remove_below none h below = omega arith
  keys-remove_below (some n) h below =
      let m = (remove_rec key n).0 in
      let children' = rewritten children c m in
      ground (
        arith,
        below n,
        keys_node children is_end frequency v,
        keys_node children' is_end frequency v,
        keys_node (remove_child children' c) is_end frequency v,
        keys-rewritten children c n m h,
        keys-is_dead m,
        child-rewritten children c c n m h,
        keys-remove_child children' c m,
      )

-- A key that `remove` erases is one key less.
keys-remove_rec :
    (key : Text) (n : TrieNode)
    → keys (remove_rec key n).0 + counted_as (remove_rec key n).1.fully_removed ≡ keys n
keys-remove_rec [] (node children false frequency v) = unfold remove_rec in omega arith
keys-remove_rec [] (node children true frequency v) = unfold remove_rec in ground arith
keys-remove_rec (c ∷ key) (node children is_end frequency v) =
    rw (remove_rec_cons children is_end frequency v c key) (
      keys-remove_below children is_end frequency v c key (child children c) refl
        (keys-remove_rec key))

-- Every node has its children in order, and the count is that of the keys.
pub record IsValid (t : Trie) : Type 0 where
  pub ordered : IsOrdered t.root
  pub counted : len t ≡ keys t.root

pub new-IsValid : IsValid new
unfolding new len
new-IsValid = record { ordered = tt; counted = refl }

-- `insert` keeps a valid tree valid.
pub insert-IsValid : (t : Trie) (key value : Text) → IsValid t → IsValid (insert t key value)
unfolding insert len
insert-IsValid t key value h = record {
  ordered = IsOrdered-insert_at key value t.root h.ordered;
  counted = ground (arith, h.counted, keys-insert_at key value t.root);
}

-- `remove` keeps a valid tree valid; its decrement of the count never meets zero.
pub remove-IsValid :
    (t : Trie) (key : Text)
    → IsValid t
    → IsValid (remove t key).0
      × (len (remove t key).0 + counted_as (remove_rec key t.root).1.fully_removed ≡ len t)
unfolding remove len
remove-IsValid t key h = (
  record {
    ordered = IsOrdered-remove_rec key t.root h.ordered;
    counted = ground (arith, h.counted, keys-remove_rec key t.root);
  },
  ground (arith, h.counted, keys-remove_rec key t.root),
)
