-- ===== src/Search/Trie.antt =====
-- src-tauri/src/search/trie.rs: the frequency-weighted prefix tree of file names.
-- A `&mut` into the tree is a function that returns the changed tree. A walk down the characters of
-- a key is a recursion on the key.
pub mod Nodes
pub mod Entries
pub mod Order
pub mod Removal
pub mod Erasure
pub mod Size
pub mod Prefix
pub mod Ranking
mod Examples
use synapt.Prelude.{
  ℕ, zero, suc, ◌+◌, ◌-◌, ◌%◌, ◌^◌, Bool, true, false, not, ◌&&◌, Option, none, some, List, [], ◌∷◌,
  ◌++◌, map, take, Text, Result, ok, err, ltb, ◌==◌, if◌then◌else◌,
}
use synapt.Prelude.Sort.{sort_by}

-- `struct TrieNode`, and the vector of its children.
mutual
  pub data TrieNode : Type 0 where
    node : Children → Bool → ℕ → Option Text → TrieNode

  pub data Children : Type 0 where
    nil : Children
    cons : ℕ → TrieNode → Children → Children

abbrev pub new_node : TrieNode
new_node = node nil false 0 none

-- `Vec::is_empty` of the children
abbrev pub no_children : Children → Bool
no_children nil = true
no_children (cons k n rest) = false

-- `self.children[i].1`; the index always comes from `find`, so the last line is never reached.
unfoldable pub nth : Children → ℕ → TrieNode
nth (cons k n rest) zero = n
nth (cons k n rest) (suc i) = nth rest i
nth nil i = new_node

-- A write through `&mut self.children[i].1`.
unfoldable pub set_nth : Children → ℕ → TrieNode → Children
set_nth nil i m = nil
set_nth (cons k n rest) zero m = cons k m rest
set_nth (cons k n rest) (suc i) m = cons k n (set_nth rest i m)

-- `Vec::insert`
unfoldable pub insert_nth : Children → ℕ → ℕ → TrieNode → Children
insert_nth rest zero c m = cons c m rest
insert_nth nil (suc i) c m = cons c m nil
insert_nth (cons k n rest) (suc i) c m = cons k n (insert_nth rest i c m)

-- `Vec::remove`
unfoldable pub remove_nth : Children → ℕ → Children
remove_nth nil i = nil
remove_nth (cons k n rest) zero = rest
remove_nth (cons k n rest) (suc i) = cons k n (remove_nth rest i)

abbrev shift : Result ℕ ℕ → Result ℕ ℕ
shift (ok i) = ok (suc i)
shift (err i) = err (suc i)

-- What `binary_search_by` returns on children in order: the index of `c`, or that of the first
-- child above it.
unfoldable pub find : Children → ℕ → Result ℕ ℕ
find nil c = err 0
find (cons k n rest) c = if ltb k c then shift (find rest c) else if k == c then ok 0 else err 0

unfoldable pub child : Children → ℕ → Option TrieNode
unfolding find nth
child children c = elim (find children c) [ ok i ↦ some (nth children i) | err i ↦ none ]

-- The children with one for `c`, and its index.
unfoldable pub child_or_insert : Children → ℕ → Children × ℕ
unfolding find insert_nth
child_or_insert children c = elim (find children c) [
  | ok i ↦ (children, i)
  | err i ↦ (insert_nth children i c new_node, i)
]

unfoldable pub remove_child : Children → ℕ → Children
unfolding find remove_nth
remove_child children c = elim (find children c) [ ok i ↦ remove_nth children i | err i ↦ children ]

-- `frequency += 1` and `frequency -= 1` on a `u32`, with the wrap of a release build
abbrev pub increment : ℕ → ℕ
increment frequency = (frequency + 1) % 2 ^ 32

abbrev pub decrement : ℕ → ℕ
decrement frequency = (frequency + (2 ^ 32 - 1)) % 2 ^ 32

-- The walk of `insert` and its write at the end; the flag says that the key is new.
unfoldable pub insert_at : Text → Text → TrieNode → TrieNode × Bool
unfolding child_or_insert nth set_nth
insert_at [] value (node children true frequency v) =
    (node children true (increment frequency) v, false)
insert_at [] value (node children false frequency v) = (node children true 1 (some value), true)
insert_at (c ∷ key) value (node children is_end frequency v) =
    let (children', i) = child_or_insert children c in
    let (below, fresh) = insert_at key value (nth children' i) in
    (node (set_nth children' i below) is_end frequency v, fresh)

pub record RemoveResult : Type 0 where
  pub existed : Bool
  pub fully_removed : Bool

abbrev missing : RemoveResult
missing = record { existed = false; fully_removed = false }

-- The node with nothing below it and no key of its own.
abbrev pub is_dead : TrieNode → Bool
is_dead (node children is_end frequency v) = no_children children && not is_end

-- What `remove_rec` does in a node above the one that it removes from.
unfoldable pub remove_below :
    Children
    → Bool
    → ℕ
    → Option Text
    → ℕ
    → Option (TrieNode × RemoveResult)
    → TrieNode × RemoveResult
unfolding remove_child find set_nth
remove_below children is_end frequency v c none = (node children is_end frequency v, missing)
remove_below children is_end frequency v c (some (below, result)) =
    let children' : Children = elim (find children c) [
      | ok i ↦ set_nth children i below
      | err i ↦ children
    ] in
    if result.existed && is_dead below
    then (node (remove_child children' c) is_end frequency v, result)
    else (node children' is_end frequency v, result)

-- `chars[i..]` is the list of the characters that are left.
unfoldable pub remove_rec : Text → TrieNode → TrieNode × RemoveResult
unfolding child remove_below
remove_rec [] (node children false frequency v) = (node children false frequency v, missing)
remove_rec [] (node children true frequency v) =
    if decrement frequency == 0
    then (node children false 0 none, record { existed = true; fully_removed = true })
    else (
      node children true (decrement frequency) v,
      record { existed = true; fully_removed = false },
    )
remove_rec (c ∷ chars) (node children is_end frequency v) =
    remove_below children is_end frequency v c
      (elim (child children c) [ none ↦ none | some below ↦ some (remove_rec chars below) ])

abbrev pub own_value : TrieNode → Option Text
own_value (node children true frequency v) = v
own_value (node children false frequency v) = none

-- The walk of `get` and `prefix_search`.
unfoldable pub descend : Text → TrieNode → Option TrieNode
unfolding child
descend [] n = some n
descend (c ∷ key) (node children is_end frequency v) = elim (child children c) [
  | none ↦ none
  | some below ↦ descend key below
]

pub record Trie : Type 0 where
  pub root : TrieNode
  pub size : ℕ

unfoldable pub new : Trie
new = record { root = new_node; size = 0 }

unfoldable pub insert : Trie → Text → Text → Trie
unfolding insert_at
insert t key value =
    let (root, fresh) = insert_at key value t.root in
    record { root = root; size = if fresh then t.size + 1 else t.size }

unfoldable pub remove : Trie → Text → Trie × Bool
unfolding remove_rec
remove t key =
    let (root, result) = remove_rec key t.root in
    (
      record { root = root; size = if result.fully_removed then t.size - 1 else t.size },
      result.existed,
    )

unfoldable pub get : Trie → Text → Option Text
unfolding descend
get t key = elim (descend key t.root) [ none ↦ none | some n ↦ own_value n ]

-- `collect`, with the vector that it pushes to as an accumulator.
unfoldable mutual
  pub collect : TrieNode → List (ℕ × Text) → List (ℕ × Text)
  collect (node children true frequency (some v)) out =
      collect_children children (out ++ (frequency, v) ∷ [])
  collect (node children true frequency none) out = collect_children children out
  collect (node children false frequency v) out = collect_children children out

  pub collect_children : Children → List (ℕ × Text) → List (ℕ × Text)
  collect_children nil out = out
  collect_children (cons k n rest) out = collect_children rest (collect n out)

-- The order of `sort_by_key(Reverse(frequency))`.
abbrev pub more_frequent : ℕ × Text → ℕ × Text → Bool
more_frequent a b = ltb b.0 a.0

abbrev pub value_of : ℕ × Text → Text
value_of a = a.1

unfoldable pub prefix_search : Trie → Text → ℕ → List Text
unfolding descend collect
prefix_search t prefix limit = elim (descend prefix t.root) [
  | none ↦ []
  | some n ↦ map value_of (take limit (sort_by more_frequent (collect n [])))
]

-- The nodes below a node.
unfoldable mutual
  pub node_count_below : TrieNode → ℕ
  node_count_below (node children is_end frequency v) = count_children children

  pub count_children : Children → ℕ
  count_children nil = 0
  count_children (cons k n rest) = suc (node_count_below n + count_children rest)

unfoldable pub node_count : Trie → ℕ
unfolding node_count_below
node_count t = 1 + node_count_below t.root

unfoldable pub len : Trie → ℕ
len t = t.size

unfoldable pub is_empty_trie : Trie → Bool
is_empty_trie t = t.size == 0
