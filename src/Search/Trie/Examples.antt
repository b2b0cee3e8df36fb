-- ===== src/Search/Trie/Examples.antt =====
-- Tests of trie.rs, and its theorems at a concrete tree.
use synapt.Prelude.{
  ℕ, ◌+◌, ◌≡◌, refl, some, List, [], ◌∷◌, map, Text, codes, text_eq, if◌then◌else◌,
}
use synapt.Prelude.Sort.{sort_by}
use synapt.Search.Trie.{Trie, new, insert, remove, remove_rec, get, len, prefix_search, node_count}
use synapt.Search.Trie.Entries.{entry, bumped, insert_refines}
use synapt.Search.Trie.Erasure.{dropped, outcome, remove_refines}
use synapt.Search.Trie.Size.{counted_as, IsValid, new-IsValid, insert-IsValid, remove-IsValid}
use synapt.Search.Trie.Ranking.{IsRanking, prefix_search_lem}

abbrev insert_self : Text → Trie → Trie
insert_self key t = insert t key key

abbrev report : Trie
report =
    insert_self (codes "readme.md")
      (insert_self (codes "report.pdf") (insert_self (codes "report.pdf") new))

-- `prefix_search_frequency_ordered`
frequency_ordered :
    prefix_search report (codes "re") 10 ≡ codes "report.pdf" ∷ codes "readme.md" ∷ []
unfolding prefix_search sort_by insert new
frequency_ordered = refl

-- `remove_decrements_frequency`
twice : get (remove report (codes "report.pdf")).0 (codes "report.pdf") ≡ some (codes "report.pdf")
unfolding get remove insert new
twice = refl

erased : (remove report (codes "readme.md")).0.size ≡ 1
unfolding remove insert new
erased = refl

nodes : node_count report ≡ 18
unfolding node_count insert new
nodes = refl

report-IsValid : IsValid report
report-IsValid = insert-IsValid _ (codes "readme.md") (codes "readme.md") (
    insert-IsValid _ (codes "report.pdf") (codes "report.pdf")
      (insert-IsValid _ (codes "report.pdf") (codes "report.pdf") new-IsValid))

insert_refines_example : entry (codes "a") (insert report (codes "a") (codes "x")).root ≡ (
    if text_eq (codes "a") (codes "a")
    then some (bumped (codes "x") (entry (codes "a") report.root))
    else entry (codes "a") report.root)
insert_refines_example = insert_refines report (codes "a") (codes "a") (codes "x")

remove_refines_example :
    (entry (codes "report.pdf") (remove report (codes "report.pdf")).0.root ≡ (
      if text_eq (codes "report.pdf") (codes "report.pdf")
      then dropped (entry (codes "report.pdf") report.root)
      else entry (codes "report.pdf") report.root))
    × ((remove report (codes "report.pdf")).1
        ≡ (outcome (entry (codes "report.pdf") report.root)).existed)
remove_refines_example =
    remove_refines report (codes "report.pdf") (codes "report.pdf") report-IsValid.ordered

insert-IsValid_example : IsValid (insert report (codes "a") (codes "x"))
insert-IsValid_example = insert-IsValid report (codes "a") (codes "x") report-IsValid

remove-IsValid_example :
    IsValid (remove report (codes "readme.md")).0
    × (len (remove report (codes "readme.md")).0
          + counted_as (remove_rec (codes "readme.md") report.root).1.fully_removed
        ≡ len report)
remove-IsValid_example = remove-IsValid report (codes "readme.md") report-IsValid

prefix_search_example :
    (ranking : List (ℕ × Text)) × (prefix_search report (codes "re") 1 ≡ map (λ a. a.1) ranking)
    × IsRanking (codes "re") report.root 1 ranking
prefix_search_example = prefix_search_lem report (codes "re") 1 report-IsValid.ordered
