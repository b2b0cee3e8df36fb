-- ===== src/Search/Trie/Entries.antt =====
-- The tree as a map from keys to a frequency and a value, and what `insert` does to it.
use synapt.Prelude.{
  ℕ, ◌+◌, ◌%◌, ◌^◌, ◌≡◌, refl, Bool, true, false, Option, none, some, [], ◌∷◌, Text, text_eq,
  if◌then◌else◌, arith,
}
use synapt.Search.Trie.{
  TrieNode, node, Children, nth, set_nth, child, child_or_insert, insert_at, descend, own_value,
  Trie, insert, get,
}
use synapt.Search.Trie.Nodes.{node_or_new, nth-child_or_insert, child-set_nth}

-- What a node stores for the key that ends in it.
abbrev pub own : TrieNode → Option (ℕ × Option Text)
own (node children true frequency v) = some (frequency, v)
own (node children false frequency v) = none

abbrev pub own_of : Option TrieNode → Option (ℕ × Option Text)
own_of none = none
own_of (some n) = own n

-- The frequency and the value of a key.
unfoldable pub entry : Text → TrieNode → Option (ℕ × Option Text)
unfolding descend
entry key n = own_of (descend key n)

abbrev pub entry_in : Text → Option TrieNode → Option (ℕ × Option Text)
entry_in key none = none
entry_in key (some n) = entry key n

pub entry_cons :
    (c : ℕ) (key : Text) (children : Children) (is_end : Bool) (frequency : ℕ) (v : Option Text)
    → entry (c ∷ key) (node children is_end frequency v) ≡ entry_in key (child children c)
unfolding entry
entry_cons c key children is_end frequency v = ground arith

pub entry_new : (key : Text) → entry key (node_or_new none) ≡ none
unfolding entry child
entry_new [] = refl
entry_new (c ∷ key) = refl

entry-node_or_new : (key : Text) (o : Option TrieNode) → entry key (node_or_new o) ≡ entry_in key o
entry-node_or_new key none = entry_new key
entry-node_or_new key (some n) = refl

-- An entry after one more insertion of its key; the frequency is one of 32 bits.
abbrev pub bumped : Text → Option (ℕ × Option Text) → ℕ × Option Text
bumped value none = (1, some value)
bumped value (some (frequency, v)) = ((frequency + 1) % 2 ^ 32, v)

pub entry-insert_at :
    (key j value : Text) (n : TrieNode)
    → entry j (insert_at key value n).0
      ≡ (if text_eq key j then some (bumped value (entry key n)) else entry j n)
unfolding insert_at text_eq
entry-insert_at [] [] value (node children true frequency v) = unfold entry in refl
entry-insert_at [] [] value (node children false frequency v) = unfold entry in refl
entry-insert_at [] (d ∷ j) value (node children true frequency v) = unfold entry in refl
entry-insert_at [] (d ∷ j) value (node children false frequency v) = unfold entry in refl
entry-insert_at (c ∷ key) [] value (node children is_end frequency v) = unfold entry in refl
entry-insert_at (c ∷ key) (d ∷ j) value (node children is_end frequency v) =
    let target = nth (child_or_insert children c).0 (child_or_insert children c).1 in
    ground (
      arith,
      entry_cons d j children is_end frequency v,
      entry_cons c key children is_end frequency v,
      entry_cons d j
          (set_nth (child_or_insert children c).0 (child_or_insert children c).1
            (insert_at key value target).0)
          is_end frequency v,
      child-set_nth children c d (insert_at key value target).0,
      nth-child_or_insert children c,
      entry-node_or_new j (child children c),
      entry-node_or_new key (child children c),
      entry-insert_at key j value target,
    )

-- Inserting a key changes what is stored for that key alone: a new key has frequency 1 and the
-- value given, and an old one keeps its value and has its frequency raised by one, modulo 2 ^ 32.
pub insert_refines :
    (t : Trie) (key j value : Text)
    → entry j (insert t key value).root
      ≡ (if text_eq key j then some (bumped value (entry key t.root)) else entry j t.root)
unfolding insert
insert_refines t key j value = entry-insert_at key j value t.root

abbrev pub value_in : Option (ℕ × Option Text) → Option Text
value_in none = none
value_in (some (frequency, v)) = v

-- `get` reads the value of the entry.
pub get-eq-value : (t : Trie) (key : Text) → get t key ≡ value_in (entry key t.root)
unfolding get entry
get-eq-value t key = go (descend key t.root)
  where
    go :
        (o : Option TrieNode)
        → (elim o as (λ x. Option Text) [ none ↦ none | some n ↦ own_value n ])
          ≡ value_in (own_of o)
    go none = refl
    go (some (node children true frequency v)) = refl
    go (some (node children false frequency v)) = refl
