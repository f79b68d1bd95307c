-- ===== src/Garbage/Tests.antt =====
-- The theorems on scopes at two allocations, and a run.
use the_foundation.Base.{
  false, ◌↔◌, ◌≢◌, arith, ℕ, ◌+◌, some, none, List, [], ◌∷◌, length, ◌>>=◌, ◌≡◌, refl,
}
use mathlib.Core.List.{reverse}
use the_foundation.Garbage.{
  CollectedPtr, Collected, new_collected, deref_object, delete, has_del, begin_scope, end_scope,
  recycle, push, is_deref,
}
use the_foundation.Garbage.Stack.{contents}
use the_foundation.Garbage.Recent.{Recent, push_iff}
use the_foundation.Garbage.Scopes.{Ended, push_all, end_scope-begin_scope}

abbrev memory : ℕ → CollectedPtr
memory p = record { ptr = p; del = some (delete 1) }

abbrev items : List CollectedPtr
items = memory 7 ∷ memory 8 ∷ []

abbrev before : Collected
before = record new_collected { nodes = (memory 5 ∷ []) ∷ [] }

abbrev inside : Collected
inside = record before {
  nodes = (memory 8 ∷ memory 7 ∷ record { ptr = 0; del = none } ∷ memory 5 ∷ []) ∷ [];
}

collected_run : (begin_scope before >>= λ m. push_all m items) ≡ some inside
unfolding begin_scope the_foundation.Garbage.collect push push_all the_foundation.Garbage.is_new
    the_foundation.Garbage.previous
collected_run = refl

end_scope-begin_scope_example :
    Ended before (reverse items) (contents before.nodes) (end_scope (length items + 1) inside)
end_scope-begin_scope_example =
    end_scope-begin_scope items before inside (omega arith, tt) collected_run (refl, (refl, tt))

-- The same pointer is collected twice.
collected_twice_run : push inside (memory 5) ≡ none
unfolding push the_foundation.Garbage.is_new the_foundation.Garbage.previous
collected_twice_run = refl

push_iff_example :
    (push inside (memory 5) ≡ none)
    ↔ (((memory 5).ptr ≢ 0) × (is_deref (memory 5) ≡ false) × Recent (contents inside.nodes) 5 8)
push_iff_example = push_iff inside (memory 5) (omega arith, tt)
