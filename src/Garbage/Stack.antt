-- ===== src/Garbage/Stack.antt =====
-- The nodes of the collected allocations are one stack.
use the_foundation.Base.{
  ◌≤◌, true, false, ◌||◌, some, List, [], ◌∷◌, ◌++◌, append-nil, length, ◌==◌, ◌≡◌, refl, arith,
  Bool-cases, inl, inr, All,
}
use the_foundation.Garbage.{
  CollectedPtr, Collected, has_del, calls, is_full, pop, with_room, push_back, push, is_deref,
  is_new,
}

-- All that is collected, the last one first.
abbrev pub contents : List (List CollectedPtr) → List CollectedPtr
contents [] = []
contents (node ∷ nodes) = node ++ contents nodes

-- All nodes but the one at the back are full.
abbrev pub IsStack : List (List CollectedPtr) → Type 0
IsStack [] = Unit
IsStack (node ∷ nodes) = (length node ≤ 32) × All (λ node. length node ≡ 32) nodes

-- What a pop does: the last one goes, and is deleted if it is no mark.
pub record Popped (d : Collected) (a : CollectedPtr) (rest : List CollectedPtr) : Type 0 where
  pub result : Collected
  pub ran : pop d ≡ (has_del a, result)
  pub stack : IsStack result.nodes
  pub left : contents result.nodes ≡ rest
  pub called : result.deleted ≡ d.deleted ++ calls a
  pub idle : result.is_recycling ≡ d.is_recycling

pub pop-Popped :
    (d : Collected) (a : CollectedPtr) (rest : List CollectedPtr)
    → IsStack d.nodes
    → contents d.nodes ≡ a ∷ rest
    → Popped d a rest
unfolding pop
pop-Popped d a rest s e = go d.nodes s e
  where
    head : (b : CollectedPtr) (bs : List CollectedPtr) → (b ∷ bs) ≡ (a ∷ rest) → b ≡ a
    head b bs e = cc

    tail : (b : CollectedPtr) (bs : List CollectedPtr) → (b ∷ bs) ≡ (a ∷ rest) → bs ≡ rest
    tail b bs e = cc

    go :
        (nodes : List (List CollectedPtr))
        → IsStack nodes
        → contents nodes ≡ a ∷ rest
        → Popped (record d { nodes = nodes }) a rest
    go [] s e = cc
    go ([] ∷ []) s e = cc
    go ([] ∷ ([] ∷ nodes)) (s, (full, more)) e = absurd (omega (arith, full))
    go ([] ∷ ((b ∷ node) ∷ nodes)) (s, (full, more)) e = record {
      result = record d { nodes = node ∷ nodes; deleted = d.deleted ++ calls b };
      ran = rw (head b (node ++ contents nodes) e) refl;
      stack = (omega (arith, full), more);
      left = tail b (node ++ contents nodes) e;
      called = rw (head b (node ++ contents nodes) e) refl;
      idle = refl;
    }
    go ((b ∷ node) ∷ nodes) (s, more) e = record {
      result = record d { nodes = node ∷ nodes; deleted = d.deleted ++ calls b };
      ran = rw (head b (node ++ contents nodes) e) refl;
      stack = (omega (arith, s), more);
      left = tail b (node ++ contents nodes) e;
      called = rw (head b (node ++ contents nodes) e) refl;
      idle = refl;
    }

-- With nothing collected a pop gives false, and changes no more than the nodes.
pub pop-empty : (d : Collected) → IsStack d.nodes → contents d.nodes ≡ [] → pop d ≡ (false, d)
unfolding pop
pop-empty d s e = go d.nodes s e
  where
    go :
        (nodes : List (List CollectedPtr))
        → IsStack nodes
        → contents nodes ≡ []
        → pop (record d { nodes = nodes }) ≡ (false, record d { nodes = nodes })
    go [] s e = refl
    go ([] ∷ []) s e = rw (append-nil d.deleted) refl
    go ([] ∷ ([] ∷ nodes)) (s, (full, more)) e = absurd (omega (arith, full))
    go ([] ∷ ((b ∷ node) ∷ nodes)) s e = cc
    go ((b ∷ node) ∷ nodes) s e = cc

-- What a push does.
pub record Pushed (d : Collected) (a : CollectedPtr) (d' : Collected) : Type 0 where
  pub stack : IsStack d'.nodes
  pub top : contents d'.nodes ≡ a ∷ contents d.nodes
  pub same_deleted : d'.deleted ≡ d.deleted
  pub idle : d'.is_recycling ≡ d.is_recycling

-- A pointer that is none of the last eight, or that can be collected again.
abbrev pub IsFresh : Collected → CollectedPtr → Type 0
IsFresh d a = (a.ptr == 0 || is_deref a || is_new (with_room d.nodes) a.ptr 8) ≡ true

pub push-Pushed :
    (d : Collected) (a : CollectedPtr)
    → IsStack d.nodes
    → IsFresh d a
    → (d' : Collected) × (push d a ≡ some d') × Pushed d a d'
unfolding push
push-Pushed d a s fresh =
    rw fresh (record d { nodes = push_back (with_room d.nodes) a }, refl, go d.nodes s)
  where
    go :
        (nodes : List (List CollectedPtr))
        → IsStack nodes
        → Pushed (record d { nodes = nodes }) a (record d { nodes = push_back (with_room nodes) a })
    go [] s = record { stack = (omega arith, tt); top = refl; same_deleted = refl; idle = refl }
    go (node ∷ nodes) (s, more) = elim (Bool-cases (is_full node)) [
      | inl f ↦
          let full : length node ≡ 32 = ground (arith, f) in
          rw f (record {
            stack = (omega arith, (full, more));
            top = refl;
            same_deleted = refl;
            idle = refl;
          })
      | inr f ↦ rw f (record {
        stack = (ground (arith, f, s), more);
        top = refl;
        same_deleted = refl;
        idle = refl;
      })
    ]
