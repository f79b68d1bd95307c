-- ===== src/Map/Raising.antt =====
-- The two ways for the repair after an insertion to end or to go on: at a black uncle and a red one.
use the_foundation.Base.{ℕ, suc, true, false, Option, some, List, if◌then◌else◌, ◌≡◌, refl, sym}
use the_foundation.Map.Repair.{
  Node, Tree, leaf, node, Color, red, black, Side, left, right, Frame, make, plug, zip, raise,
  is_red, same_side, blacken,
}
use the_foundation.Map.Contents.{flat, is_red-make, flat-raised}
use the_foundation.Map.Balance.{IsRb, IsRooted, make-IsRb, blacken-IsRb}

-- What the repair leaves.
pub record Repaired (t : Tree) (path : List Frame) (run : Option Tree) : Type 0 where
  pub root : Tree
  pub ran : run ≡ some root
  pub rooted : IsRooted root
  pub order : flat root ≡ flat (zip t path)

-- The red parent of a red node, under a black grandparent.
pub record Top (s : Side) (f : Frame) (t : Tree) (k : ℕ) : Type 0 where
  pub near : Tree
  pub item : Node
  pub far : Tree
  pub raised :
      (if same_side f.side s then some (plug t f) else raise f.side (plug t f))
      ≡ some (make s red near item far)
  pub near_ok : IsRb near k
  pub far_ok : IsRb far k
  pub far_black : is_red far ≡ false
  pub order : flat (make s red near item far) ≡ flat (plug t f)

straight :
    (s : Side) (t : Tree) (n : Node) (o : Tree) (k : ℕ)
    → IsRb t k
    → is_red o ≡ false
    → IsRb o k
    → Top s (record { side = s; color = red; item = n; other = o }) t k
straight left t n o k b ob bo = record {
  near = t;
  item = n;
  far = o;
  raised = refl;
  near_ok = b;
  far_ok = bo;
  far_black = ob;
  order = refl;
}
straight right t n o k b ob bo = record {
  near = t;
  item = n;
  far = o;
  raised = refl;
  near_ok = b;
  far_ok = bo;
  far_black = ob;
  order = refl;
}

-- On the other side the node comes up in place of its parent.
bent :
    (t : Tree) (n : Node) (o : Tree) (k : ℕ)
    → IsRb t k
    → is_red t ≡ true
    → is_red o ≡ false
    → IsRb o k
    → Top left (record { side = right; color = red; item = n; other = o }) t k
      × Top right (record { side = left; color = red; item = n; other = o }) t k
bent leaf n o k b e ob bo = cc
bent (node black x m y) n o k b e ob bo = cc
bent (node red x m y) n o k (nx, ny, bx, by) e ob bo = (
  record {
    near = node red o n x;
    item = m;
    far = y;
    raised = refl;
    near_ok = (ob, nx, bo, bx);
    far_ok = by;
    far_black = ny;
    order = flat-raised left red red red red o n x m y;
  },
  record {
    near = node red y n o;
    item = m;
    far = x;
    raised = refl;
    near_ok = (ny, ob, by, bo);
    far_ok = bx;
    far_black = nx;
    order = sym (flat-raised left red red red red x m y n o);
  },
)

pub top :
    (s : Side) (f : Frame) (t : Tree) (k : ℕ)
    → f.color ≡ red
    → IsRb t k
    → is_red t ≡ true
    → is_red f.other ≡ false
    → IsRb f.other k
    → Top s f t k
top s f t k e b r ob bo = go s f.side f.color e
  where
    go :
        (s side : Side) (c : Color)
        → c ≡ red
        → Top s (record { side = side; color = c; item = f.item; other = f.other }) t k
    go s side black e = cc
    go left left red e = straight left t f.item f.other k b ob bo
    go right right red e = straight right t f.item f.other k b ob bo
    go left right red e = (bent t f.item f.other k b r ob bo).0
    go right left red e = (bent t f.item f.other k b r ob bo).1

-- The uncle is red: the grandparent is, and its children are black.
pub recolored :
    (t : Tree) (f g : Frame) (k : ℕ)
    → IsRb t k
    → IsRb f.other k
    → IsRb g.other k
    → is_red g.other ≡ true
    → IsRb
        (plug
          (plug t (record f { color = black }))
          (record g { color = red; other = blacken g.other }))
        (suc k)
recolored t f g k b bo bu u =
    make-IsRb g.side red (plug t (record f { color = black })) g.item (blacken g.other) (suc k) (
      is_red-make f.side black t f.item f.other,
      not_red g.other,
      make-IsRb f.side black t f.item f.other (suc k) (k, refl, b, bo),
      blacken-IsRb g.other k u bu,
    )
  where
    not_red : (t : Tree) → is_red (blacken t) ≡ false
    not_red leaf = refl
    not_red (node c l n r) = refl
