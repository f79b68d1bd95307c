-- ===== src/Garbage/Scopes.antt =====
-- The end of a scope deletes what was collected in it, the last one first.
use the_foundation.Base.{
  ℕ, zero, suc, ◌+◌, ◌<◌, true, false, Option, none, some, List, [], ◌∷◌, ◌++◌, append_assoc,
  length, ◌>>=◌, ◌≡◌, refl, ap, ◌∙◌, arith, All, ◌||◌, ◌==◌, Bool-cases, inl, inr,
}
use mathlib.Core.List.{reverse, reverse_aux, reverse_aux-eq}
use the_foundation.Garbage.{
  CollectedPtr, Collected, has_del, calls, push, begin_scope, end_scope, collect, is_deref, is_new,
  with_room,
}
use the_foundation.Garbage.Stack.{contents, IsStack, pop-Popped, push-Pushed}

-- The mark of a scope.
abbrev pub mark : CollectedPtr
mark = record { ptr = 0; del = none }

-- What the end of a scope leaves, and what it deletes.
pub record Ended (d : Collected) (own rest : List CollectedPtr) (run : Option Collected)
    : Type 0 where
  pub result : Collected
  pub ran : run ≡ some result
  pub stack : IsStack result.nodes
  pub left : contents result.nodes ≡ rest
  pub called : result.deleted ≡ d.deleted ++ own

-- The end of a scope, with fuel for what was collected in it and its mark, deletes what was collected
-- since its mark, the last one first, takes the mark away, and leaves what was collected before. Each
-- allocation of the scope has a function that deletes it.
pub end_scope-Ended :
    (own rest : List CollectedPtr) (d : Collected) (fuel : ℕ)
    → IsStack d.nodes
    → All (λ a. has_del a ≡ true) own
    → contents d.nodes ≡ own ++ (mark ∷ rest)
    → length own < fuel
    → Ended d own rest (end_scope fuel d)
unfolding end_scope
end_scope-Ended own rest d zero s all e h = absurd (omega (arith, h))
end_scope-Ended [] rest d (suc fuel) s all e h =
    let p = pop-Popped d mark rest s e in
    rw p.ran
      (record { result = p.result; ran = refl; stack = p.stack; left = p.left; called = p.called })
end_scope-Ended (a ∷ own) rest d (suc fuel) s (has, all) e h =
    let p = pop-Popped d a (own ++ (mark ∷ rest)) s e in
    let one : calls a ≡ a ∷ [] = rw has refl in
    let later = end_scope-Ended own rest p.result fuel p.stack all p.left (omega (arith, h)) in
    rw (p.ran, has)
      (record {
        result = later.result;
        ran = later.ran;
        stack = later.stack;
        left = later.left;
        called = later.called ∙ rw (p.called, one) (append_assoc d.deleted (a ∷ []) own);
      })

-- Collecting one after the other.
unfoldable pub push_all : Collected → List CollectedPtr → Option Collected
push_all d [] = some d
push_all d (a ∷ items) = do d' ← push d a; push_all d' items

length-reverse_aux :
    (items own : List CollectedPtr) → length (reverse_aux items own) ≡ length items + length own
length-reverse_aux [] own = omega arith
length-reverse_aux (a ∷ items) own = omega (arith, length-reverse_aux items (a ∷ own))

reverse_aux-All :
    (items own : List CollectedPtr)
    → All (λ a. has_del a ≡ true) items
    → All (λ a. has_del a ≡ true) own
    → All (λ a. has_del a ≡ true) (reverse_aux items own)
reverse_aux-All [] own all more = more
reverse_aux-All (a ∷ items) own (h, all) more = reverse_aux-All items (a ∷ own) all (h, more)

push_all-Pushed :
    (items : List CollectedPtr) (d d' : Collected)
    → IsStack d.nodes
    → push_all d items ≡ some d'
    → IsStack d'.nodes
      × (contents d'.nodes ≡ reverse_aux items (contents d.nodes))
      × (d'.deleted ≡ d.deleted)
unfolding push_all push
push_all-Pushed [] d d' s e = let same : d ≡ d' = cc in rw (← same) (s, refl, refl)
push_all-Pushed (a ∷ items) d d' s e =
    elim (Bool-cases (a.ptr == 0 || is_deref a || is_new (with_room d.nodes) a.ptr 8)) [
      | inl fresh ↦
          let (m, ran, p) = push-Pushed d a s fresh in
          let (s', top, same) = push_all-Pushed items m d' p.stack (rw ran at e) in
          (s', top ∙ ap (reverse_aux items) p.top, same ∙ p.same_deleted)
      | inr stale ↦ absurd (refused d a stale (λ d''. push_all d'' items) d' e)
    ]
  where
    refused :
        (d : Collected) (a : CollectedPtr)
        → (a.ptr == 0 || is_deref a || is_new (with_room d.nodes) a.ptr 8) ≡ false
        → (next : Collected → Option Collected) (d' : Collected) → (push d a >>= next) ≡ some d'
        → ⊥
    refused d a stale next d' e = cc (rw stale at e)

-- A scope: when it ends, what was collected in it is deleted, the last one first, and what was
-- collected before is as it was. The nodes are a stack; no allocation of the scope fails the
-- assertion on those collected twice, and each has a function that deletes it.
pub end_scope-begin_scope :
    (items : List CollectedPtr) (d d' : Collected)
    → IsStack d.nodes
    → (begin_scope d >>= λ m. push_all m items) ≡ some d'
    → All (λ a. has_del a ≡ true) items
    → Ended d (reverse items) (contents d.nodes) (end_scope (length items + 1) d')
unfolding begin_scope collect
end_scope-begin_scope items d d' s e all =
    let (m, ran, p) = push-Pushed d mark s refl in
    let (s', top, same) = push_all-Pushed items m d' p.stack (rw ran at e) in
    let held : contents d'.nodes ≡ reverse items ++ (mark ∷ contents d.nodes) =
      top ∙ ap (reverse_aux items) p.top ∙ reverse_aux-eq items (mark ∷ contents d.nodes) in
    let r =
      end_scope-Ended (reverse items) (contents d.nodes) d' (length items + 1) s'
        (reverse_aux-All items [] all tt) held (omega (arith, length-reverse_aux items [])) in
    record {
      result = r.result;
      ran = r.ran;
      stack = r.stack;
      left = r.left;
      called = r.called ∙ ap (λ l. l ++ reverse items) (same ∙ p.same_deleted);
    }
