-- ===== src/Map/Tests.antt =====
-- The theorems on maps at the keys -1, 4, 9, and runs.
use the_foundation.Base.{some, List, [], ◌∷◌, ℤ, pos, negsuc, ◌≡◌, ◌↔◌, refl, arith}
use mathlib.Core.List.{Sublistᴰ}
use the_foundation.IntSet.{cmp_int}
use the_foundation.IntSet.Order.{cmp_int-IsOrder}
use the_foundation.Map.{Map, value, insert, remove, visit}
use the_foundation.Map.Repair.{Node, Tree, leaf, node, red, black, left, right, verify}
use the_foundation.Map.Contents.{flat}
use the_foundation.Map.Balance.{IsRb, verify_iff}
use the_foundation.Map.Descent.{IsMap}
use the_foundation.Map.Laws.{Inserted, insert-Inserted}
use the_foundation.Map.Deletion.{Removed, remove-Removed}
use the_foundation.Map.Iteration.{visit-Sublist}

abbrev entry : ℤ → Node
entry key = record { key = key; item = 0 }

abbrev sample_tree : Tree
sample_tree =
    node black (node red leaf (entry (negsuc 0)) leaf) (entry (pos 4))
      (node red leaf (entry (pos 9)) leaf)

abbrev sample : Map
sample = record { size = 3; root = sample_tree; cmp = cmp_int }

sample-IsMap : IsMap sample
sample-IsMap = record {
  order = cmp_int-IsOrder;
  rooted = record {
    black_root = refl;
    height = 2;
    balanced = (1, refl, (refl, refl, refl, refl), (refl, refl, refl, refl));
  };
  rising = (((refl, (refl, tt)), ((refl, tt), (tt, tt))));
  size_eq = refl;
}

-- A root with one child, on the left: the iteration does not visit the root.
abbrev two : Map
two = record {
  size = 2;
  root = node black (node red leaf (entry (pos 1)) leaf) (entry (pos 2)) leaf;
  cmp = cmp_int;
}

visit_run : visit 9 right two ≡ some (entry (pos 1) ∷ [])
unfolding visit the_foundation.Map.visit_from the_foundation.Map.first_in_order
    the_foundation.Map.next_in_order the_foundation.Map.climb
visit_run = refl

visit_back_run : visit 9 left two ≡ some (entry (pos 2) ∷ entry (pos 1) ∷ [])
unfolding visit the_foundation.Map.visit_from the_foundation.Map.first_in_order
    the_foundation.Map.next_in_order the_foundation.Map.climb
visit_back_run = refl

insert-Inserted_example :
    (d' : Map) × (insert sample (entry (pos 7)) ≡ some (value sample (pos 7), d'))
    × Inserted sample (entry (pos 7)) d'
insert-Inserted_example = insert-Inserted sample (entry (pos 7)) sample-IsMap

remove-Removed_example :
    (d' : Map) × (remove sample (pos 4) ≡ some (value sample (pos 4), d'))
    × Removed sample (pos 4) d'
remove-Removed_example = remove-Removed sample (pos 4) sample-IsMap

verify_iff_example : (verify sample_tree ≡ some 2) ↔ IsRb sample_tree 2
verify_iff_example = verify_iff sample_tree 2

visit-Sublist_example :
    (ns : List Node) × (visit 4 right sample ≡ some ns) × Sublistᴰ ns (flat sample_tree)
visit-Sublist_example = visit-Sublist sample 4 (omega arith)
