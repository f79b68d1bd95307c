-- ===== src/Map/Unlinking.antt =====
-- A node is unlinked: the tree without it is red-black and has the other nodes in order.
use the_foundation.Base.{
  ℕ, suc, ◌<◌, Bool, true, false, ◌||◌, Option, some, List, [], ◌∷◌, ◌++◌, append-nil, append_assoc,
  if◌then◌else◌, ◌>>=◌, ◌≡◌, refl, sym, ap, ◌∙◌, arith, Bool-cases, inl, inr,
}
use mathlib.Core.Path.{ap₂}
use the_foundation.Map.{last_node, remove_at, remove_node}
use the_foundation.Map.Repair.{
  Node, Tree, leaf, node, Color, red, black, left, right, Frame, zip, is_leaf, is_red, blacken,
  repair_removal,
}
use the_foundation.Map.Contents.{flat, before, behind, flat-zip, flat-blacken}
use the_foundation.Map.Balance.{IsRb, Fits, Allowed, IsRooted, zip-IsRooted, blacken-IsRb}
use the_foundation.Map.Settling.{Settled}
use the_foundation.Map.Remove.{repair_removal-Settled}
use the_foundation.Map.Descent.{Stands, child-Stands}
use the_foundation.Map.Laws.{replaced-Stands}

IsRb-pos : (t : Tree) (k : ℕ) → IsRb t k → 0 < k
IsRb-pos leaf k e = omega (arith, e)
IsRb-pos (node red l n r) k (nl, nr, p, q) = IsRb-pos l k p
IsRb-pos (node black l n r) k (m, e, p, q) = omega (arith, e)

not_red-Allowed : (t : Tree) (path : List Frame) → is_red t ≡ false → Allowed t path
not_red-Allowed t [] e = e
not_red-Allowed t (f ∷ path) e = rw e refl

-- A tree that takes the place of its parent.
record Linked (t : Tree) (path : List Frame) (run : Option Tree) : Type 0 where
  root : Tree
  ran : run ≡ some root
  rooted : IsRooted root
  order : flat root ≡ before path ++ (flat t ++ behind path)

red_child-Linked :
    (t : Tree) (path : List Frame) (k : ℕ)
    → is_red t ≡ false
    → IsRb t k
    → Fits path k
    → Linked t path (some (zip t path))
red_child-Linked t path k e b fits = record {
  root = zip t path;
  ran = refl;
  rooted = zip-IsRooted t path k b fits (not_red-Allowed t path e);
  order = flat-zip t path;
}

-- The place of a black node.
black_child-Linked :
    (t : Tree) (path : List Frame) (k : ℕ)
    → IsRb t k
    → Fits path (suc k)
    → Linked t path (
        if is_red t
        then some (zip (blacken t) path)
        else (repair_removal path >>= λ path'. some (zip t path')))
black_child-Linked t path k b fits = elim (Bool-cases (is_red t)) [
  | inl r ↦ rw r (record {
    root = zip (blacken t) path;
    ran = refl;
    rooted =
        zip-IsRooted (blacken t) path (suc k) (blacken-IsRb t k r b) fits
          (not_red-Allowed (blacken t) path (black_now t));
    order =
        flat-zip (blacken t) path ∙ ap (λ x. before path ++ (x ++ behind path)) (flat-blacken t);
  })
  | inr nr ↦ rw nr (repaired nr (repair_removal-Settled path k (IsRb-pos t k b) fits))
]
  where
    black_now : (t : Tree) → is_red (blacken t) ≡ false
    black_now leaf = refl
    black_now (node c l n r) = refl

    repaired :
        is_red t ≡ false
        → Settled path k (repair_removal path)
        → Linked t path (repair_removal path >>= λ path'. some (zip t path'))
    repaired nr s = record {
      root = zip t s.result;
      ran = rw (s.ran) refl;
      rooted = zip-IsRooted t s.result k b s.fits (not_red-Allowed t s.result nr);
      order = flat-zip t s.result ∙ ap₂ (λ x y. x ++ (flat t ++ y)) s.before_same s.behind_same;
    }

-- The removal of a node with one child at most.
remove_at-Linked :
    (c : Color) (l : Tree) (n : Node) (r : Tree) (path : List Frame)
    → (is_leaf l || is_leaf r) ≡ true
    → Stands (node c l n r) path
    → Linked (if is_leaf l then r else l) path (remove_at c l r path)
unfolding remove_at
remove_at-Linked red l n r path e v =
    let (nl, nr, bl, br) = v.balanced in
    rw e (elim (Bool-cases (is_leaf l)) [
      | inl h ↦ rw h (red_child-Linked r path v.height nr br v.fits)
      | inr h ↦ rw h (red_child-Linked l path v.height nl bl v.fits)
    ])
remove_at-Linked black l n r path e v =
    let (m, same, bl, br) = v.balanced in
    let fits : Fits path (suc m) = rw (← same) v.fits in
    rw e (elim (Bool-cases (is_leaf l)) [
      | inl h ↦ rw h (black_child-Linked r path m br fits)
      | inr h ↦ rw h (black_child-Linked l path m bl fits)
    ])

-- The last node of a tree below any path.
record Deepest (c : Color) (l : Tree) (n : Node) (r : Tree) (frames base : List Frame)
    : Type 0 where
  stands :
      Stands (node c l n r) (frames ++ base)
      → Stands
          (node
            ((last_node c l n r frames).0)
            ((last_node c l n r frames).1)
            ((last_node c l n r frames).2)
            leaf)
          ((last_node c l n r frames).3 ++ base)
  before_eq :
      before ((last_node c l n r frames).3 ++ base)
        ++ (flat ((last_node c l n r frames).1) ++ ((last_node c l n r frames).2 ∷ []))
      ≡ before (frames ++ base) ++ flat (node c l n r)
  behind_eq : behind ((last_node c l n r frames).3 ++ base) ≡ behind (frames ++ base)

last_node-Deepest :
    (c : Color) (l : Tree) (n : Node) (r : Tree) (frames base : List Frame)
    → Deepest c l n r frames base
unfolding last_node
last_node-Deepest c l n leaf frames base = record {
  stands = λ v. v;
  before_eq = refl;
  behind_eq = refl;
}
last_node-Deepest c l n (node c' l' n' r') frames base =
    let f : Frame = record { side = right; color = c; item = n; other = l } in
    let deeper = last_node-Deepest c' l' n' r' (f ∷ frames) base in
    record {
      stands = λ v. deeper.stands (child-Stands right c (node c' l' n' r') n l (frames ++ base) v);
      before_eq =
          deeper.before_eq
          ∙ append_assoc (before (frames ++ base)) (flat l ++ (n ∷ [])) (flat (node c' l' n' r'))
          ∙ ap (λ x. before (frames ++ base) ++ x)
              (append_assoc (flat l) (n ∷ []) (flat (node c' l' n' r')));
      behind_eq = deeper.behind_eq;
    }

-- What is left without a node.
pub record Unlinked (l r : Tree) (path : List Frame) (run : Option Tree) : Type 0 where
  pub root : Tree
  pub ran : run ≡ some root
  pub rooted : IsRooted root
  pub order : flat root ≡ (before path ++ flat l) ++ (flat r ++ behind path)

only_child-flat : (l : Tree) → flat (if is_leaf l then leaf else l) ≡ flat l
only_child-flat leaf = refl
only_child-flat (node c l n r) = refl

is_leaf-or : (b : Bool) → (b || true) ≡ true
is_leaf-or true = refl
is_leaf-or false = refl

-- The predecessor has taken the place of the node, and the node is below it with no child on one side.
predecessor :
    (c : Color) (t r : Tree) (path : List Frame) (cp : Color) (lp : Tree) (pred : Node)
    (frames : List Frame)
    → (let base = record { side = left; color = c; item = pred; other = r } ∷ path in
        Stands (node cp lp pred leaf) (frames ++ base)
        → before (frames ++ base) ++ (flat lp ++ (pred ∷ [])) ≡ (before path ++ []) ++ flat t
        → behind (frames ++ base) ≡ (pred ∷ flat r) ++ behind path
        → Unlinked t r path (remove_at cp lp leaf (frames ++ base)))
predecessor c t r path cp lp pred frames v before_eq behind_eq =
    let base = record { side = left; color = c; item = pred; other = r } ∷ path in
    let m = remove_at-Linked cp lp pred leaf (frames ++ base) (is_leaf-or (is_leaf lp)) v in
    let rest = flat r ++ behind path in
    record {
      root = m.root;
      ran = m.ran;
      rooted = m.rooted;
      order =
          m.order
          ∙ ap₂ (λ x y. before (frames ++ base) ++ (x ++ y)) (only_child-flat lp) behind_eq
          ∙ ap (λ x. before (frames ++ base) ++ x) (sym (append_assoc (flat lp) (pred ∷ []) rest))
          ∙ sym (append_assoc (before (frames ++ base)) (flat lp ++ (pred ∷ [])) rest)
          ∙ ap (λ x. x ++ rest) (before_eq ∙ ap (λ x. x ++ flat t) (append-nil (before path)));
    }

pub remove_node-Unlinked :
    (c : Color) (l : Tree) (n : Node) (r : Tree) (path : List Frame)
    → Stands (node c l n r) path
    → Unlinked l r path (remove_node c l r path)
unfolding remove_node
remove_node-Unlinked c leaf n r path v =
    let m = remove_at-Linked c leaf n r path refl v in
    record {
      root = m.root;
      ran = m.ran;
      rooted = m.rooted;
      order = m.order ∙ ap (λ x. x ++ (flat r ++ behind path)) (sym (append-nil (before path)));
    }
remove_node-Unlinked c (node c' l' n' r') n leaf path v =
    let t = node c' l' n' r' in
    let m = remove_at-Linked c t n leaf path refl v in
    record {
      root = m.root;
      ran = m.ran;
      rooted = m.rooted;
      order = m.order ∙ sym (append_assoc (before path) (flat t) (behind path));
    }
remove_node-Unlinked c (node c' l' n' r') n (node c'' l'' n'' r'') path v =
    let pred = (last_node c' l' n' r' []).2 in
    let last =
      last_node-Deepest c' l' n' r' []
        (record { side = left; color = c; item = pred; other = node c'' l'' n'' r'' } ∷ path) in
    predecessor c (node c' l' n' r') (node c'' l'' n'' r'') path ((last_node c' l' n' r' []).0)
      ((last_node c' l' n' r' []).1) pred ((last_node c' l' n' r' []).3)
      (last.stands (
        child-Stands left c (node c' l' n' r') pred (node c'' l'' n'' r'') path
          (replaced-Stands c (node c' l' n' r') n pred (node c'' l'' n'' r'') path v)))
      last.before_eq last.behind_eq
