-- ===== src/Search/Trie/Nodes.antt =====
-- How the children of a node read after a write.
use synapt.Prelude.{ℕ, ◌≡◌, refl, Option, none, some, ltb, ◌==◌, if◌then◌else◌, arith}
use synapt.Search.Trie.{
  TrieNode, Children, nil, cons, new_node, nth, set_nth, child, child_or_insert,
}

-- The search for a child, as the walk that it is over children in order.
pub child_cons :
    (k c : ℕ) (n : TrieNode) (rest : Children)
    → child (cons k n rest) c ≡ (if ltb k c then child rest c else if k == c then some n else none)
unfolding child
child_cons k c n rest = ground arith

-- The children with the child for `c` replaced, or put in where it is absent.
abbrev pub put_child : Children → ℕ → (TrieNode → TrieNode) → Children
put_child children c f =
    let (children', i) = child_or_insert children c in set_nth children' i (f (nth children' i))

abbrev pub node_or_new : Option TrieNode → TrieNode
node_or_new none = new_node
node_or_new (some n) = n

pub nth-child_or_insert :
    (children : Children) (c : ℕ)
    → nth (child_or_insert children c).0 (child_or_insert children c).1
      ≡ node_or_new (child children c)
unfolding child_or_insert child nth
nth-child_or_insert nil c = refl
nth-child_or_insert (cons k n rest) c = ground (arith, nth-child_or_insert rest c)

-- A write to the child for `c` is read back at `c`, and nothing else changes.
pub child-set_nth :
    (children : Children) (c d : ℕ) (m : TrieNode)
    → child (set_nth (child_or_insert children c).0 (child_or_insert children c).1 m) d
      ≡ (if c == d then some m else child children d)
unfolding child_or_insert child set_nth
child-set_nth nil c d m = ground arith
child-set_nth (cons k n rest) c d m = ground (arith, child-set_nth rest c d m)
