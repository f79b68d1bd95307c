-- ===== src/Rect/Regions.antt =====
-- Rectangles as sets of points: intersection, union, overlap and containment.
use the_foundation.Base.{◌+◌, ◌<◌, true, ◌≡◌, arith, ◌↔◌, inl, inr, Bool-cases}
use the_foundation.Vec2.{Int2, max_vec, min_vec}
use the_foundation.Vec2.Ints.{offset, offset-max_int}
use the_foundation.Rect.{
  Rect, zero_rect, bottom_right, contains, is_overlapping, intersect, init_corners,
}
use the_foundation.Rect.Spans.{IsRect, Inside, offset-end, contains_iff, IsSpan-meet}

-- Along both axes, each starts before the other ends.
abbrev pub Overlap : Rect → Rect → Type 0
Overlap d o =
    (offset o.pos.x < offset d.pos.x + d.size.x)
    × (offset o.pos.y < offset d.pos.y + d.size.y)
    × (offset d.pos.x < offset o.pos.x + o.size.x)
    × (offset d.pos.y < offset o.pos.y + o.size.y)

is_overlapping_lem : (d o : Rect) → IsRect d → IsRect o → (is_overlapping d o ≡ true) ↔ Overlap d o
unfolding is_overlapping
is_overlapping_lem d o v w =
    rw
      (
        offset-end d.pos.x d.size.x v.across,
        offset-end d.pos.y d.size.y v.down,
        offset-end o.pos.x o.size.x w.across,
        offset-end o.pos.y o.size.y w.down,
      )
      (ground arith)

zero-IsRect : IsRect zero_rect
zero-IsRect = record {
  across = record { start_word = omega arith; len_small = omega arith; end_fits = omega arith };
  down = record { start_word = omega arith; len_small = omega arith; end_fits = omega arith };
}

-- What holds for the points inside holds for the test.
contains-both :
    (r d o : Rect)
    → IsRect r
    → IsRect d
    → IsRect o
    → (p : Int2) → Inside r p ↔ (Inside d p × Inside o p)
    → (contains r p ≡ true) ↔ ((contains d p ≡ true) × (contains o p ≡ true))
contains-both r d o u v w p (to, from) = (
  λ h.
      let (a, b) = to ((contains_iff r u p).0 h) in
      ((contains_iff d v p).1 a, (contains_iff o w p).1 b),
  λ (a, b). (contains_iff r u p).1 (from ((contains_iff d v p).0 a, (contains_iff o w p).0 b)),
)

zero-empty : (p : Int2) → Inside zero_rect p → ⊥
zero-empty p ((a, b), c) = omega (arith, a, b)

apart : (d o : Rect) (p : Int2) → (Overlap d o → ⊥) → Inside d p × Inside o p → ⊥
apart d o p none_over (((a, b), (c, e)), ((a', b'), (c', e'))) =
    none_over (omega arith, omega arith, omega arith, omega arith)

-- The points of the intersection of two rectangles whose sizes are not negative and whose corners do
-- not overflow are exactly the points of both, also where there are none; it is such a rectangle.
pub intersect-contains :
    (d o : Rect)
    → IsRect d
    → IsRect o
    → IsRect (intersect d o)
      × ((p : Int2)
          → (contains (intersect d o) p ≡ true) ↔ ((contains d p ≡ true) × (contains o p ≡ true)))
unfolding intersect
intersect-contains d o v w = elim (Bool-cases (is_overlapping d o)) [
  | inl h ↦
      let (a, b, c, e) = (is_overlapping_lem d o v w).0 h in
      let (sx, lx, hx) =
        IsSpan-meet d.pos.x d.size.x o.pos.x o.size.x v.across w.across (omega (arith, c))
          (omega (arith, a)) in
      let (sy, ly, hy) =
        IsSpan-meet d.pos.y d.size.y o.pos.y o.size.y v.down w.down (omega (arith, e))
          (omega (arith, b)) in
      let r : IsRect
          (init_corners (max_vec d.pos o.pos) (min_vec (bottom_right d) (bottom_right o))) =
        record { across = sx; down = sy } in
      rw h (
        r,
        λ p.
            contains-both
              (init_corners (max_vec d.pos o.pos) (min_vec (bottom_right d) (bottom_right o))) d o r
              v w p (rw (hx, hy, lx, ly) (ground arith)),
      )
  | inr h ↦ rw h (
    zero-IsRect,
    λ p. contains-both zero_rect d o zero-IsRect v w p (
      λ i. absurd (zero-empty p i),
      λ i. absurd (apart d o p (λ k. cc ((is_overlapping_lem d o v w).1 k)) i),
    ),
  )
]

-- Two rectangles with sizes that are not negative and corners that do not overflow overlap, by the
-- test, if and only if some point is in both, where neither size is zero.
pub is_overlapping_iff :
    (d o : Rect)
    → IsRect d
    → IsRect o
    → 0 < d.size.x
    → 0 < d.size.y
    → 0 < o.size.x
    → 0 < o.size.y
    → (is_overlapping d o ≡ true) ↔ ((p : Int2) × (contains d p ≡ true) × (contains o p ≡ true))
is_overlapping_iff d o v w dx dy ox oy = (to, from)
  where
    to : is_overlapping d o ≡ true → (p : Int2) × (contains d p ≡ true) × (contains o p ≡ true)
    to h =
        let (a, b, c, e) = (is_overlapping_lem d o v w).0 h in
        let p = max_vec d.pos o.pos in
        let px = offset-max_int d.pos.x o.pos.x in
        let py = offset-max_int d.pos.y o.pos.y in
        (
          p,
          (contains_iff d v p).1 (
              rw (px, py)
                ((omega arith, omega (arith, dx, a)), (omega arith, omega (arith, dy, b)))),
          (contains_iff o w p).1 (
              rw (px, py)
                ((omega arith, omega (arith, ox, c)), (omega arith, omega (arith, oy, e)))),
        )

    from : (p : Int2) × (contains d p ≡ true) × (contains o p ≡ true) → is_overlapping d o ≡ true
    from (p, a, b) = elim (Bool-cases (is_overlapping d o)) [
      | inl h ↦ h
      | inr h ↦ absurd (
          apart d o p (λ k. cc ((is_overlapping_lem d o v w).1 k))
            ((contains_iff d v p).0 a, (contains_iff o w p).0 b))
    ]
