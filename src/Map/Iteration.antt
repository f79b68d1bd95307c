-- ===== src/Map/Iteration.antt =====
-- The iteration over the nodes of a map.
use the_foundation.Base.{
  ℕ, zero, suc, ◌<◌, Bool, true, false, not, ◌&&◌, Option, none, some, List, [], ◌∷◌, ◌++◌,
  append-nil, append_assoc, length, length-append, ◌≡◌, refl, sym, ap, ◌∙◌, arith, Bool-cases, inl,
  inr,
}
use mathlib.Core.List.{Sublistᴰ}
use mathlib.Core.List.Sublistᴰ.{slnil, cons, cons-cons}
use the_foundation.Map.{Map, Position, first_in_order, climb, next_in_order, visit_from, visit}
use the_foundation.Map.Repair.{
  Node, Tree, leaf, node, Side, left, right, Frame, plug, is_leaf, same_side,
}
use the_foundation.Map.Contents.{flat, behind, behind_frame}

-- The nodes at a position and behind it, in order.
abbrev pub ahead : Option Position → List Node
ahead none = []
ahead (some p) = p.item ∷ (flat p.high ++ behind p.path)

sublist-nil : (ys : List Node) → Sublistᴰ [] ys
sublist-nil [] = slnil
sublist-nil (y ∷ ys) = cons (sublist-nil ys)

sublist-append : (xs ys zs : List Node) → Sublistᴰ xs zs → Sublistᴰ xs (ys ++ zs)
sublist-append xs [] zs p = p
sublist-append xs (y ∷ ys) zs p = cons (sublist-append xs ys zs p)

-- What is ahead is the end of a list.
abbrev pub Ends : Option Position → List Node → Type 0
Ends p ys = (xs : List Node) × (ys ≡ xs ++ ahead p)

Ends-further : (p : Option Position) (xs ys : List Node) → Ends p ys → Ends p (xs ++ ys)
Ends-further p xs ys (ws, e) = (xs ++ ws, ap (λ y. xs ++ y) e ∙ sym (append_assoc xs ws (ahead p)))

first_in_order-Ends :
    (t : Tree) (path : List Frame)
    → is_leaf t ≡ false
    → Ends (first_in_order right t path) (flat t ++ behind path)
unfolding first_in_order
first_in_order-Ends leaf path e = cc
first_in_order-Ends (node c l n r) path e = elim (Bool-cases (is_leaf l)) [
  | inl z ↦ rw z (flat l, append_assoc (flat l) (n ∷ flat r) (behind path))
  | inr z ↦
      let f : Frame = record { side = left; color = c; item = n; other = r } in
      rw (z, append_assoc (flat l) (n ∷ flat r) (behind path)) (first_in_order-Ends l (f ∷ path) z)
]

forward :
    (s : Side) (n : Node) (o : Tree) (b : Bool)
    → same_side s left && not b ≡ true
    → behind_frame s n o ≡ n ∷ flat o
forward left n o b e = refl
forward right n o b e = cc

climb-Ends : (t : Tree) (path : List Frame) → Ends (climb right t path) (behind path)
unfolding climb
climb-Ends t [] = ([], refl)
climb-Ends t (f ∷ path) = elim (Bool-cases (same_side f.side left && not (is_leaf f.other))) [
  | inl z ↦ rw (z, forward f.side f.item f.other (is_leaf f.other) z) ([], refl)
  | inr z ↦ rw z (
      Ends-further (climb right (plug t f) path) (behind_frame f.side f.item f.other) (behind path)
        (climb-Ends (plug t f) path))
]

next_in_order-Ends : (p : Position) → Ends (next_in_order right p) (flat p.high ++ behind p.path)
unfolding next_in_order
next_in_order-Ends p = elim (Bool-cases (is_leaf p.high)) [
  | inl z ↦ rw z (
      Ends-further (climb right (node p.color p.low p.item p.high) p.path) (flat p.high)
        (behind p.path) (climb-Ends (node p.color p.low p.item p.high) p.path))
  | inr z ↦
      let f : Frame = record { side = right; color = p.color; item = p.item; other = p.low } in
      rw z (first_in_order-Ends p.high (f ∷ p.path) z)
]

visit_from-Sublist :
    (fuel : ℕ) (p : Option Position)
    → length (ahead p) < fuel
    → (ns : List Node) × (visit_from fuel right p ≡ some ns) × Sublistᴰ ns (ahead p)
unfolding visit_from
visit_from-Sublist zero p h = ground (arith, h)
visit_from-Sublist (suc fuel) none h = ([], refl, slnil)
visit_from-Sublist (suc fuel) (some p) h =
    let (xs, e) = next_in_order-Ends p in
    let q = next_in_order right p in
    let (ns, ran, picked) =
      visit_from-Sublist fuel q (omega (arith, h, ap length e, length-append xs (ahead q))) in
    (p.item ∷ ns, rw ran refl, cons-cons refl (rw e (sublist-append ns xs (ahead q) picked)))

-- With as much fuel as a tree has nodes, and one more, the iteration forwards ends, and what it
-- visits are nodes of the tree, in its order, each at most as often as it stands there.
pub visit-Sublist :
    (d : Map) (fuel : ℕ)
    → length (flat d.root) < fuel
    → (ns : List Node) × (visit fuel right d ≡ some ns) × Sublistᴰ ns (flat d.root)
unfolding visit first_in_order
visit-Sublist d fuel h = go d.root h
  where
    go :
        (t : Tree)
        → length (flat t) < fuel
        → (ns : List Node) × (visit_from fuel right (first_in_order right t []) ≡ some ns)
          × Sublistᴰ ns (flat t)
    go leaf h = (visit_from-Sublist fuel none h)
    go (node c l n r) h =
        let t = node c l n r in
        let (xs, e) = first_in_order-Ends t [] refl in
        let p = first_in_order right t [] in
        let whole : flat t ≡ xs ++ ahead p = sym (append-nil (flat t)) ∙ e in
        let (ns, ran, s) =
          visit_from-Sublist fuel p
            (omega (arith, h, ap length whole, length-append xs (ahead p))) in
        (ns, ran, rw whole (sublist-append ns xs (ahead p) s))
