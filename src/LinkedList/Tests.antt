-- ===== src/LinkedList/Tests.antt =====
-- A list of two nodes, and the theorems at it.
use the_foundation.Base.{◌==◌, if◌then◌else◌, none, some, [], ◌∷◌, ◌≡◌, refl, arith}
use the_foundation.LinkedList.{LinkedList, Iterator, insert_after, remove, init_iterator, visit}
use the_foundation.LinkedList.Chain.{IsList}
use the_foundation.LinkedList.Insertion.{insert_after-IsList}
use the_foundation.LinkedList.Removal.{remove-IsList}
use the_foundation.LinkedList.Iteration.{visit-init_iterator}

abbrev two_nodes : LinkedList
two_nodes = record {
  next = λ j. if j == 0 then some 1 else if j == 1 then some 2 else if j == 2 then some 0 else none;
  prev = λ j. if j == 0 then some 2 else if j == 1 then some 0 else if j == 2 then some 1 else none;
  size = 2;
}

two_nodes-IsList : IsList two_nodes (1 ∷ 2 ∷ [])
two_nodes-IsList = record {
  links = (refl, refl, (refl, refl, (refl, refl)));
  distinct = (((λ e. omega arith), ((λ e. omega arith), tt)), (((λ e. omega arith), tt), (tt, tt)));
  size_eq = refl;
}

-- The node 7 between the two.
insert_after-IsList_example :
    (d' : LinkedList) × (insert_after two_nodes (some 1) 7 ≡ some d') × IsList d' (1 ∷ 7 ∷ 2 ∷ [])
insert_after-IsList_example =
    insert_after-IsList 7 (1 ∷ []) (2 ∷ []) two_nodes-IsList (λ e. omega arith)
      ((λ e. omega arith), ((λ e. omega arith), tt))

remove-IsList_example :
    (d' : LinkedList) × (remove two_nodes 1 ≡ some d')
    × IsList d' (2 ∷ [])
    × (d'.next 1 ≡ none)
    × (d'.prev 1 ≡ none)
remove-IsList_example = remove-IsList 1 [] (2 ∷ []) two_nodes-IsList

visit-init_iterator_example :
    (i : Iterator) × (init_iterator two_nodes ≡ some i) × (visit 3 two_nodes i ≡ some (1 ∷ 2 ∷ []))
visit-init_iterator_example = visit-init_iterator two_nodes (1 ∷ 2 ∷ []) two_nodes-IsList
