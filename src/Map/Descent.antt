-- ===== src/Map/Descent.antt =====
-- The place of a key in a map, and what the search finds.
use the_foundation.Base.{
  ℕ, true, false, not, List, [], ◌∷◌, ◌++◌, append-nil, length, All-join, ℤ, ◌≡◌, refl, arith, inl,
  inr,
}
use the_foundation.SortedArray.Order.{IsOrder, Lt, Eqv, Lt_of_pos, sign-cases}
use the_foundation.Map.{Map, find, Place, found, missing, descend}
use the_foundation.Map.Repair.{
  Node, Tree, leaf, node, Color, red, black, Side, left, right, Frame, make, zip, is_red,
  is_black_color,
}
use the_foundation.Map.Contents.{flat, before, behind, is_red-make}
use the_foundation.Map.Balance.{IsRb, IsRb-make, Fits, Allowed, Under, IsRooted}
use the_foundation.Map.Rising.{
  lookup, Below, Above, Rising, around, lookup-Below, lookup-Above, lookup-insert, Above-trans,
  Below-trans,
}

-- A map: a red-black tree of nodes in the order of their keys.
pub record IsMap (d : Map) : Type 0 where
  pub order : IsOrder d.cmp
  pub rooted : IsRooted d.root
  pub rising : Rising d.cmp (flat d.root)
  pub size_eq : d.size ≡ length (flat d.root)

-- A tree that stands in a path as it should.
pub record Stands (t : Tree) (path : List Frame) : Type 0 where
  pub height : ℕ
  pub balanced : IsRb t height
  pub fits : Fits path height
  pub allowed : Allowed t path

-- The red nodes have black parents.
pub Allowed-Under : (t : Tree) (path : List Frame) → is_red t ≡ true → Allowed t path → Under path
Allowed-Under t [] r a = cc
Allowed-Under t (f ∷ path) r a = go f.color (rw r at a)
  where
    go : (c : Color) → not (is_black_color c) ≡ false → c ≡ black
    go red e = cc
    go black e = refl

-- A child in its frame.
pub child-Stands :
    (s : Side) (c : Color) (x : Tree) (n : Node) (y : Tree) (path : List Frame)
    → Stands (make s c x n y) path
    → Stands x (record { side = s; color = c; item = n; other = y } ∷ path)
child-Stands s red x n y path v =
    let (nx, ny, bx, by) = IsRb-make s red x n y v.height v.balanced in
    record {
      height = v.height;
      balanced = bx;
      fits = (
        ny,
        by,
        v.fits,
        Allowed-Under (make s red x n y) path (is_red-make s red x n y) v.allowed,
      );
      allowed = rw nx refl;
    }
child-Stands s black x n y path v =
    let (m, e, bx, by) = IsRb-make s black x n y v.height v.balanced in
    record { height = m; balanced = bx; fits = (by, rw (← e) v.fits); allowed = ground arith }

module _ {cmp : ℤ → ℤ → ℤ} (o : IsOrder cmp) where
  pub find-lookup :
      (key : ℤ) (t : Tree) → Rising cmp (flat t) → find cmp key t ≡ lookup cmp key (flat t)
  unfolding find
  find-lookup key leaf r = refl
  find-lookup key (node c l n r) rising =
      let v = around o n (flat l) (flat r) rising in
      elim (sign-cases (cmp key n.key)) [
        | inl (z, p, g) ↦ rw (lookup-insert o n key (flat l) (flat r) v.below, z) refl
        | inr (inl (z, p, g)) ↦
            rw
              (
                lookup-insert o n key (flat l) (flat r) v.below,
                z,
                p,
                lookup-Below o key (flat l) (flat r)
                    (Below-trans o n.key key (flat l) v.below (Lt_of_pos o key n.key p)),
              )
              (find-lookup key r v.rising_above)
        | inr (inr (z, p, g)) ↦
            rw
              (
                lookup-insert o n key (flat l) (flat r) v.below,
                z,
                p,
                lookup-Above o key (flat l) (flat r) (Above-trans o key n.key (flat r) g v.above),
              )
              (find-lookup key l v.rising_below)
      ]

  -- Where the descent ends.
  pub data Reached (key : ℤ) (whole : Tree) : Place → Type 0 where
    at_node :
        (c : Color) (l : Tree) (n : Node) (r : Tree) (path : List Frame)
        → Eqv cmp key n.key
        → zip (node c l n r) path ≡ whole
        → Stands (node c l n r) path
        → Reached key whole (found c l n r path)
    at_end :
        (path : List Frame)
        → zip leaf path ≡ whole
        → Below cmp key (before path)
        → Above cmp key (behind path)
        → Fits path 1
        → Reached key whole (missing path)

  pub descend-Reached :
      (key : ℤ) (t : Tree) (path : List Frame)
      → Rising cmp (flat t)
      → Stands t path
      → Below cmp key (before path)
      → Above cmp key (behind path)
      → Reached key (zip t path) (descend cmp key t path)
  unfolding descend
  descend-Reached key leaf path rising v b a = at_end path refl b a (rw v.balanced at v.fits)
  descend-Reached key (node c l n r) path rising v b a =
      let w = around o n (flat l) (flat r) rising in
      elim (sign-cases (cmp key n.key)) [
        | inl (z, p, g) ↦ rw z (at_node c l n r path z refl v)
        | inr (inl (z, p, g)) ↦
            let lt : Lt cmp n.key key = Lt_of_pos o key n.key p in
            rw (z, g)
              (descend-Reached key r
                (record { side = right; color = c; item = n; other = l } ∷ path) w.rising_above
                (child-Stands right c r n l path v)
                (All-join (λ (m : Node). Lt cmp m.key key) (before path) (flat l ++ (n ∷ [])) b
                  (All-join (λ (m : Node). Lt cmp m.key key) (flat l) (n ∷ [])
                    (Below-trans o n.key key (flat l) w.below lt) (lt, tt)))
                a)
        | inr (inr (z, p, g)) ↦
            rw (z, g)
              (descend-Reached key l (record { side = left; color = c; item = n; other = r } ∷ path)
                w.rising_below (child-Stands left c l n r path v) (rw (append-nil (before path)) b)
                (
                  g,
                  All-join (λ (m : Node). Lt cmp key m.key) (flat r) (behind path)
                      (Above-trans o key n.key (flat r) g w.above) a,
                ))
      ]
