-- ===== src/Search/Trie/Order.antt =====
-- The order of the children, on which the search for a child rests, and that `insert` keeps it.
use synapt.Prelude.{ℕ, ◌<◌, true, false, [], ◌∷◌, Text, arith}
use synapt.Search.Trie.{
  TrieNode, node, Children, nil, cons, nth, set_nth, child, child_or_insert, insert_at,
}
use synapt.Search.Trie.Nodes.{node_or_new, nth-child_or_insert}

-- The keys of the children are all above `k`.
abbrev pub Above : ℕ → Children → Type 0
Above k nil = Unit
Above k (cons j n rest) = (k < j) × Above k rest

-- In every node the children stand in strictly increasing order of their characters.
abbrev mutual
  pub IsOrdered : TrieNode → Type 0
  IsOrdered (node children is_end frequency v) = AreOrdered children

  pub AreOrdered : Children → Type 0
  AreOrdered nil = Unit
  AreOrdered (cons k n rest) = IsOrdered n × Above k rest × AreOrdered rest

pub Above-trans : (j k : ℕ) (rest : Children) → j < k → Above k rest → Above j rest
Above-trans j k nil h a = tt
Above-trans j k (cons i n rest) h a = (omega arith, Above-trans j k rest h a.1)

-- A write for a character above `k`.
abbrev written : Children → ℕ → TrieNode → Children
written children c m = set_nth (child_or_insert children c).0 (child_or_insert children c).1 m

Above-written :
    (k c : ℕ) (children : Children) (m : TrieNode)
    → k < c
    → Above k children
    → Above k (written children c m)
unfolding child_or_insert set_nth
Above-written k c nil m h a = (h, tt)
Above-written k c (cons i n rest) m h a = ground (arith, Above-written k c rest m h a.1)

AreOrdered-written :
    (c : ℕ) (children : Children) (m : TrieNode)
    → IsOrdered m
    → AreOrdered children
    → AreOrdered (written children c m)
unfolding child_or_insert set_nth
AreOrdered-written c nil m h a = (h, tt, tt)
AreOrdered-written c (cons i n rest) m h a =
    ground
      (arith, AreOrdered-written c rest m h a.2, Above-written i c rest m, Above-trans c i rest)

pub IsOrdered-child :
    (children : Children) (c : ℕ) → AreOrdered children → IsOrdered (node_or_new (child children c))
unfolding child
IsOrdered-child nil c a = tt
IsOrdered-child (cons k n rest) c a = ground (arith, IsOrdered-child rest c a.2)

IsOrdered-target :
    (children : Children) (c : ℕ)
    → AreOrdered children
    → IsOrdered (nth (child_or_insert children c).0 (child_or_insert children c).1)
IsOrdered-target children c a = rw nth-child_or_insert (IsOrdered-child children c a)

-- `insert` keeps the children of every node in order.
pub IsOrdered-insert_at :
    (key value : Text) (n : TrieNode) → IsOrdered n → IsOrdered (insert_at key value n).0
unfolding insert_at
IsOrdered-insert_at [] value (node children true frequency v) h = h
IsOrdered-insert_at [] value (node children false frequency v) h = h
IsOrdered-insert_at (c ∷ key) value (node children is_end frequency v) h =
    let target = nth (child_or_insert children c).0 (child_or_insert children c).1 in
    AreOrdered-written c children (insert_at key value target).0
      (IsOrdered-insert_at key value target (IsOrdered-target children c h)) h
