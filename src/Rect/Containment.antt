-- ===== src/Rect/Containment.antt =====
-- A rectangle that contains others: the test of its corners, and the union.
use the_foundation.Base.{
  ℕ, zero, suc, ◌+◌, ◌-◌, ◌*◌, ◌%◌, ◌^◌, ◌≤◌, ◌<◌, Bool, true, false, ◌&&◌, ==-false, ◌≡◌, refl,
  arith, ◌↔◌,
}
use the_foundation.Vec2
use the_foundation.Vec2.{Int2, init, one_vec, max_vec, min_vec}
use the_foundation.Vec2.Ints.{offset, add_int, sub_int, offset-sub_int}
use the_foundation.Rect.{Rect, bottom_right, contains, contains_rect, is_empty, union, init_corners}
use the_foundation.Rect.Spans.{
  IsSpan, IsRect, Inside, offset-end, contains_iff, IsSpan-join, end_word,
}

-- In a rectangle that is not empty, the corner inside the end.
abbrev last : Rect → Int2
last d = Vec2.sub (bottom_right d) one_vec

last-offset :
    (start len : ℕ)
    → IsSpan start len
    → 0 < len
    → offset (sub_int (add_int start len) 1) ≡ offset start + len - 1
last-offset start len s h =
    let e = offset-end start len s in
    rw
      (
        offset-sub_int (add_int start len) 1 (end_word start len) (omega arith)
            (rw e (omega (arith, h))),
        e,
      )
      refl

and_parts :
    (a b c e : Bool)
    → (a && b && c && e) ≡ true ↔ ((a ≡ true) × (b ≡ true) × (c ≡ true) × (e ≡ true))
and_parts a b c e = ground arith

-- The inclusion of the points, by the corners.
abbrev Corners : Rect → Rect → Type 0
Corners d o =
    Inside d o.pos
    × Inside d (init (last o).x o.pos.y)
    × Inside d (last o)
    × Inside d (init o.pos.x (last o).y)

contains_rect_lem : (d o : Rect) → IsRect d → (contains_rect d o ≡ true) ↔ Corners d o
unfolding contains_rect
contains_rect_lem d o v = (to, from)
  where
    at : (p : Int2) → (contains d p ≡ true) ↔ Inside d p
    at p = contains_iff d v p

    to : contains_rect d o ≡ true → Corners d o
    to h =
        let (a, b, c, e) =
          (and_parts (contains d o.pos) (contains d (init (last o).x o.pos.y)) (contains d (last o))
              (contains d (init o.pos.x (last o).y))).0
            h in
        (
          (at o.pos).0 a,
          (at (init (last o).x o.pos.y)).0 b,
          (at (last o)).0 c,
          (at (init o.pos.x (last o).y)).0 e,
        )

    from : Corners d o → contains_rect d o ≡ true
    from (a, b, c, e) =
        (and_parts (contains d o.pos) (contains d (init (last o).x o.pos.y)) (contains d (last o))
            (contains d (init o.pos.x (last o).y))).1
          (
            (at o.pos).1 a,
            (at (init (last o).x o.pos.y)).1 b,
            (at (last o)).1 c,
            (at (init o.pos.x (last o).y)).1 e,
          )

-- One rectangle contains another that is not empty, by the test of its corners, if and only if it has
-- all its points; sizes are not negative and corners do not overflow.
pub contains_rect_iff :
    (d o : Rect)
    → IsRect d
    → IsRect o
    → 0 < o.size.x
    → 0 < o.size.y
    → (contains_rect d o ≡ true) ↔ ((p : Int2) → contains o p ≡ true → contains d p ≡ true)
contains_rect_iff d o v w ox oy = (to, from)
  where
    lx : offset (sub_int (add_int o.pos.x o.size.x) 1) ≡ offset o.pos.x + o.size.x - 1
    lx = last-offset o.pos.x o.size.x w.across ox

    ly : offset (sub_int (add_int o.pos.y o.size.y) 1) ≡ offset o.pos.y + o.size.y - 1
    ly = last-offset o.pos.y o.size.y w.down oy

    to : contains_rect d o ≡ true → (p : Int2) → contains o p ≡ true → contains d p ≡ true
    to h p i =
        let (a, b, c, e) = (contains_rect_lem d o v).0 h in
        let ((ix, jx), (iy, jy)) = (contains_iff o w p).0 i in
        let ((a1, a2), (a3, a4)) = a in
        let ((c1, c2), (c3, c4)) = rw (lx, ly) at c in
        (contains_iff d v p).1 (
          (omega (arith, ix, a1), omega (arith, jx, c2)),
          (omega (arith, iy, a3), omega (arith, jy, c4)),
        )

    from : ((p : Int2) → contains o p ≡ true → contains d p ≡ true) → contains_rect d o ≡ true
    from all =
        let inside : (p : Int2) → Inside o p → Inside d p =
          λ p i. (contains_iff d v p).0 (all p ((contains_iff o w p).1 i)) in
        (contains_rect_lem d o v).1 (
          inside o.pos ((ground (arith, ox, oy))),
          inside (init (last o).x o.pos.y) (rw (lx) (ground (arith, ox, oy))),
          inside (last o) (rw (lx, ly) (ground (arith, ox, oy))),
          inside (init o.pos.x (last o).y) (rw (ly) (ground (arith, ox, oy))),
        )

product-pos : (m n : ℕ) → 0 < m → 0 < n → 0 < m * n
product-pos zero n h k = absurd (omega (arith, h))
product-pos (suc m) zero h k = absurd (omega (arith, k))
product-pos (suc m) (suc n) h k = omega arith

pub not_empty :
    (d : Rect) → 0 < d.size.x → 0 < d.size.y → d.size.x * d.size.y < 2 ^ 32 → is_empty d ≡ false
unfolding is_empty
not_empty d x y small =
    ==-false (d.size.x * d.size.y % 2 ^ 32) 0
      (λ e. omega (arith, e, small, product-pos d.size.x d.size.y x y))

-- A rectangle that has points, and whose area does not overflow.
pub record IsFilled (d : Rect) : Type 0 where
  pub valid : IsRect d
  pub wide : 0 < d.size.x
  pub high : 0 < d.size.y
  pub area_fits : d.size.x * d.size.y < 2 ^ 32

-- Both extents over two rectangles are less than 2 ^ 31.
pub record IsNear (d o : Rect) : Type 0 where
  pub right_near : offset d.pos.x + d.size.x < offset o.pos.x + 2 ^ 31
  pub left_near : offset o.pos.x + o.size.x < offset d.pos.x + 2 ^ 31
  pub bottom_near : offset d.pos.y + d.size.y < offset o.pos.y + 2 ^ 31
  pub top_near : offset o.pos.y + o.size.y < offset d.pos.y + 2 ^ 31

-- The extents of one rectangle are within those of another.
abbrev Within : Rect → Rect → Type 0
Within o d =
    (offset d.pos.x ≤ offset o.pos.x)
    × (offset o.pos.x + o.size.x ≤ offset d.pos.x + d.size.x)
    × (offset d.pos.y ≤ offset o.pos.y)
    × (offset o.pos.y + o.size.y ≤ offset d.pos.y + d.size.y)

contains_rect-Within :
    (d o : Rect)
    → IsRect d
    → IsRect o
    → 0 < o.size.x
    → 0 < o.size.y
    → (contains_rect d o ≡ true) ↔ Within o d
contains_rect-Within d o v w ox oy = (
  λ h.
      let (((a1, a2), (a3, a4)), b, c, e) = (contains_rect_lem d o v).0 h in
      let ((c1, c2), (c3, c4)) = rw (lx, ly) at c in (a1, omega (arith, c2), a3, omega (arith, c4)),
  λ (a, b, c, e). (contains_rect_lem d o v).1 (rw (lx, ly) (ground (arith, ox, oy))),
)
  where
    lx : offset (sub_int (add_int o.pos.x o.size.x) 1) ≡ offset o.pos.x + o.size.x - 1
    lx = last-offset o.pos.x o.size.x w.across ox

    ly : offset (sub_int (add_int o.pos.y o.size.y) 1) ≡ offset o.pos.y + o.size.y - 1
    ly = last-offset o.pos.y o.size.y w.down oy

-- The union of two rectangles that have points is a rectangle, and what contains it is what contains
-- both, by the test of the corners. No corner and no area overflows, and the extents over both are
-- less than 2 ^ 31.
pub union-contains_rect :
    (d o r : Rect)
    → IsFilled d
    → IsFilled o
    → IsNear d o
    → IsRect r
    → IsRect (union d o)
      × ((contains_rect r (union d o) ≡ true)
          ↔ ((contains_rect r d ≡ true) × (contains_rect r o ≡ true)))
unfolding union
union-contains_rect d o r v w near u =
    let (sx, lx, hx) =
      IsSpan-join d.pos.x d.size.x o.pos.x o.size.x v.valid.across w.valid.across near.right_near
        near.left_near in
    let (sy, ly, hy) =
      IsSpan-join d.pos.y d.size.y o.pos.y o.size.y v.valid.down w.valid.down near.bottom_near
        near.top_near in
    rw (not_empty d v.wide v.high v.area_fits, not_empty o w.wide w.high w.area_fits)
      (
        record { across = sx; down = sy },
        both
            (contains_rect-Within r
              (init_corners (min_vec d.pos o.pos) (max_vec (bottom_right d) (bottom_right o))) u
              (record { across = sx; down = sy }) (omega (arith, lx, hx, v.wide))
              (omega (arith, ly, hy, v.high)))
            (contains_rect-Within r d u v.valid v.wide v.high)
            (contains_rect-Within r o u w.valid w.wide w.high) (rw (hx, hy, lx, ly) (ground arith)),
      )
  where
    both :
        {A B C A' B' C' : Type 0} → (A ↔ A') → (B ↔ B') → (C ↔ C') → (A' ↔ (B' × C')) → A ↔ (B × C)
    both a b c e = (
      λ h. let (h1, h2) = e.0 (a.0 h) in (b.1 h1, c.1 h2),
      λ (h1, h2). a.1 (e.1 (b.0 h1, c.0 h2)),
    )
