-- ===== src/LinkedList/Iteration.antt =====
-- The iterators visit the nodes of a list in order.
use mathlib.Core.List.{reverse, reverse_aux}
use the_foundation.Base.{
  ℕ, zero, suc, ◌+◌, ◌<◌, Option, none, some, List, [], ◌∷◌, length, ◌≡◌, refl, ◌∙◌, ◌>>=◌, arith,
  ==-false,
}
use the_foundation.LinkedList.{
  LinkedList, root, Iterator, next_node, init_iterator, next_iterator, visit, init_reverse,
  next_reverse, visit_reverse,
}
use the_foundation.LinkedList.Chain.{Links, Without, IsList}

head : List ℕ → Option ℕ
head [] = none
head (x ∷ xs) = some x

tail : List ℕ → List ℕ
tail [] = []
tail (x ∷ xs) = xs

-- The iterator before the nodes that remain.
before : List ℕ → Iterator
before xs = record { value = head xs; ahead = head (tail xs) }

next_node-head :
    (d : LinkedList) (a : ℕ) (xs : List ℕ)
    → Links d.next d.prev a xs root
    → Without root xs
    → next_node d (some a) ≡ some (head xs)
unfolding head
next_node-head d a [] (e, e') w = rw e refl
next_node-head d a (x ∷ xs) (e, e', l) (ne, w) = rw (e, ==-false x root ne) refl

-- Past the first of the nodes that remain.
ahead-head :
    (d : LinkedList) (a : ℕ) (xs : List ℕ)
    → Links d.next d.prev a xs root
    → Without root xs
    → next_node d (head xs) ≡ some (head (tail xs))
unfolding head tail
ahead-head d a [] l w = refl
ahead-head d a (x ∷ xs) (e, e', l) (ne, w) = next_node-head d x xs l w

visit-before :
    (d : LinkedList) (a : ℕ) (xs : List ℕ) (fuel : ℕ)
    → Links d.next d.prev a xs root
    → Without root xs
    → length xs < fuel
    → visit fuel d (before xs) ≡ some xs
unfolding visit before head tail next_iterator
visit-before d a xs zero l w h = absurd (omega arith)
visit-before d a [] (suc fuel) l w h = refl
visit-before d a (x ∷ xs) (suc fuel) (e, e', l) (ne, w) h =
    rw (ahead-head d x xs l w, visit-before d x xs fuel l w (omega arith)) refl

-- An iteration over a list has no fault, ends, and visits the nodes of the list in order.
pub visit-init_iterator :
    (d : LinkedList) (xs : List ℕ)
    → IsList d xs
    → (i : Iterator) × (init_iterator d ≡ some i) × (visit (d.size + 1) d i ≡ some xs)
unfolding init_iterator before
visit-init_iterator d xs v =
    let (w, di) = v.distinct in
    (
      before xs,
      rw (next_node-head d root xs v.links w, ahead-head d root xs v.links w) refl,
      visit-before d root xs (d.size + 1) v.links w (omega (arith, v.size_eq)),
    )

-- The list with its links the other way.
flipped : LinkedList → LinkedList
flipped d = record { next = d.prev; prev = d.next; size = d.size }

Links-reverse_aux :
    (next prev : ℕ → Option ℕ) (x b c : ℕ) (xs behind : List ℕ)
    → Links next prev x xs b
    → Links prev next x behind c
    → Links prev next b (reverse_aux xs (x ∷ behind)) c
Links-reverse_aux next prev x b c [] behind (e, e') r = (e', e, r)
Links-reverse_aux next prev x b c (y ∷ xs) behind (e, e', l) r =
    Links-reverse_aux next prev y b c xs (x ∷ behind) l (e', e, r)

Links-reverse :
    (next prev : ℕ → Option ℕ) (a b : ℕ) (xs : List ℕ)
    → Links next prev a xs b
    → Links prev next b (reverse xs) a
Links-reverse next prev a b [] (e, e') = (e', e)
Links-reverse next prev a b (x ∷ xs) (e, e', l) = Links-reverse_aux next prev x b a xs [] l (e', e)

Without-reverse_aux :
    (a : ℕ) (xs behind : List ℕ)
    → Without a xs
    → Without a behind
    → Without a (reverse_aux xs behind)
Without-reverse_aux a [] behind w r = r
Without-reverse_aux a (x ∷ xs) behind (ne, w) r = Without-reverse_aux a xs (x ∷ behind) w (ne, r)

length-reverse_aux :
    (xs behind : List ℕ) → length (reverse_aux xs behind) ≡ length xs + length behind
length-reverse_aux [] behind = omega arith
length-reverse_aux (x ∷ xs) behind = omega (arith, length-reverse_aux xs (x ∷ behind))

visit_reverse-flipped :
    (fuel : ℕ) (d : LinkedList) (i : Iterator) → visit_reverse fuel d i ≡ visit fuel (flipped d) i
unfolding visit_reverse visit next_reverse next_iterator flipped
visit_reverse-flipped zero d i = refl
visit_reverse-flipped (suc fuel) d i = λ t. elim i.value [
  | none ↦ some []
  | some node ↦
      next_reverse d i >>= λ i'. (visit_reverse-flipped fuel d i' t >>= λ rest. some (node ∷ rest))
]

-- An iteration backwards has no fault, ends, and visits the nodes of the list in the opposite order.
pub visit_reverse-init_reverse :
    (d : LinkedList) (xs : List ℕ)
    → IsList d xs
    → (i : Iterator) × (init_reverse d ≡ some i)
      × (visit_reverse (d.size + 1) d i ≡ some (reverse xs))
unfolding init_reverse flipped before
visit_reverse-init_reverse d xs v =
    let (w, di) = v.distinct in
    let l = Links-reverse d.next d.prev root root xs v.links in
    let w' = Without-reverse_aux root xs [] w tt in
    (
      before (reverse xs),
      rw
          (
            next_node-head (flipped d) root (reverse xs) l w',
            ahead-head (flipped d) root (reverse xs) l w',
          )
          refl,
      visit_reverse-flipped (d.size + 1) d (before (reverse xs))
          ∙ visit-before (flipped d) root (reverse xs) (d.size + 1) l w'
              (omega (arith, v.size_eq, length-reverse_aux xs [])),
    )
