-- ===== src/Rect/Walk.antt =====
-- The walk along the edge of a rectangle.
use the_foundation.Base.{
  ℕ, ◌+◌, ◌-◌, ◌*◌, ◌^◌, ◌≤◌, ◌<◌, ltb, ◌≡◌, refl, arith, Bool-cases, inl, inr,
}
use the_foundation.Vec2.{Int2}
use the_foundation.Vec2.Ints.{offset, sub_int, lt_int-small, offset-add_int, offset-sub_int}
use the_foundation.Rect.{Rect, right, bottom, edge_left, edge_bottom, edge_right, edge_pos}
use the_foundation.Rect.Spans.{IsRect, offset-end, end_word}

-- A rectangle with an edge whose length does not overflow.
pub record IsEdged (d : Rect) : Type 0 where
  pub valid : IsRect d
  pub wide : 0 < d.size.x
  pub high : 0 < d.size.y
  pub short : d.size.x + d.size.y < 2 ^ 30

-- Clockwise from the corner at the top on the left: the side, and the steps on it.
pub data Walked (d : Rect) (i : ℕ) (p : Int2) : Type 0 where
  on_top :
      i < d.size.x → offset p.x ≡ offset d.pos.x + i → offset p.y ≡ offset d.pos.y → Walked d i p
  on_right :
      (j : ℕ)
      → i + 1 ≡ d.size.x + j
      → 0 < j
      → j < d.size.y
      → offset p.x + 1 ≡ offset d.pos.x + d.size.x
      → offset p.y ≡ offset d.pos.y + j
      → Walked d i p
  on_bottom :
      (j : ℕ)
      → i + 2 ≡ d.size.x + d.size.y + j
      → 0 < j
      → j < d.size.x
      → offset p.x + 1 + j ≡ offset d.pos.x + d.size.x
      → offset p.y + 1 ≡ offset d.pos.y + d.size.y
      → Walked d i p
  on_left :
      (j : ℕ)
      → i + 3 ≡ d.size.x + d.size.y + d.size.x + j
      → 0 < j
      → offset p.x ≡ offset d.pos.x
      → offset p.y + 1 + j ≡ offset d.pos.y + d.size.y
      → Walked d i p

module _ (d : Rect) (v : IsEdged d) where
  offset-right : offset (sub_int (right d) 1) ≡ offset d.pos.x + d.size.x - 1
  offset-right =
      let e = offset-end d.pos.x d.size.x v.valid.across in
      rw
        (
          offset-sub_int (right d) 1 (end_word d.pos.x d.size.x) (omega arith)
              (rw e (omega (arith, v.wide))),
          e,
        )
        refl

  offset-bottom : offset (sub_int (bottom d) 1) ≡ offset d.pos.y + d.size.y - 1
  offset-bottom =
      let e = offset-end d.pos.y d.size.y v.valid.down in
      rw
        (
          offset-sub_int (bottom d) 1 (end_word d.pos.y d.size.y) (omega arith)
              (rw e (omega (arith, v.high))),
          e,
        )
        refl

  pub small_x : d.size.x < 2 ^ 30
  small_x = omega (arith, v.short)

  pub small_y : d.size.y < 2 ^ 30
  small_y = omega (arith, v.short)

  -- The rest of a walk behind a side of the length `n`.
  rest_of :
      (n i : ℕ) → 0 < n → n < 2 ^ 30 → n ≤ i → i < 2 ^ 31 → sub_int i (sub_int n 1) ≡ i - (n - 1)
  rest_of n i h k l m = omega (arith, h, k, l, m)

  walk_left :
      (i j : ℕ)
      → i + 3 ≡ d.size.x + d.size.y + d.size.x + j
      → 0 < j
      → j < d.size.y
      → Walked d i (edge_left d j)
  walk_left i j e more less =
      let word : sub_int (bottom d) 1 < 2 ^ 32 = omega arith in
      let small : j ≤ offset (sub_int (bottom d) 1) = rw offset-bottom (omega (arith, less)) in
      on_left j e more refl (
        rw
          (
            offset-sub_int (sub_int (bottom d) 1) j word (omega (arith, less, small_y)) small,
            offset-bottom,
          )
          (omega (arith, less)))

  walk_bottom :
      (i j : ℕ)
      → i + 2 ≡ d.size.x + d.size.y + j
      → 0 < j
      → j + 1 < d.size.x + d.size.y
      → Walked d i (edge_bottom d j)
  walk_bottom i j e more less = elim (Bool-cases (ltb j d.size.x)) [
    | inl h ↦
        let h' : j < d.size.x = ground (arith, h) in
        let word : sub_int (right d) 1 < 2 ^ 32 = omega arith in
        let small : j ≤ offset (sub_int (right d) 1) = rw offset-right (omega (arith, h')) in
        rw (lt_int-small j d.size.x (omega (arith, h', small_x)) (omega (arith, small_x)), h)
          (on_bottom j e more h'
            (rw
              (
                offset-sub_int (sub_int (right d) 1) j word (omega (arith, h', small_x)) small,
                offset-right,
              )
              (omega (arith, h')))
            (rw offset-bottom (omega (arith, v.high))))
    | inr h ↦
        let h' : d.size.x ≤ j = ground (arith, h) in
        rw
          (
            lt_int-small j d.size.x (omega (arith, less, v.short)) (omega (arith, small_x)),
            h,
            rest_of d.size.x j v.wide small_x h' (omega (arith, less, v.short)),
          )
          (walk_left i (j - (d.size.x - 1)) (omega (arith, e, h', v.wide))
            (omega (arith, h', v.wide)) (omega (arith, less, h', v.wide)))
  ]

  walk_right :
      (i j : ℕ)
      → i + 1 ≡ d.size.x + j
      → 0 < j
      → j + 2 < d.size.x + d.size.y + d.size.y
      → Walked d i (edge_right d j)
  walk_right i j e more less = elim (Bool-cases (ltb j d.size.y)) [
    | inl h ↦
        let h' : j < d.size.y = ground (arith, h) in
        rw (lt_int-small j d.size.y (omega (arith, h', small_y)) (omega (arith, small_y)), h)
          (on_right j e more h' (rw offset-right (omega (arith, v.wide))) (
            offset-add_int d.pos.y j v.valid.down.start_word (omega (arith, h', small_y))
              (omega (arith, h', v.valid.down.end_fits))))
    | inr h ↦
        let h' : d.size.y ≤ j = ground (arith, h) in
        rw
          (
            lt_int-small j d.size.y (omega (arith, less, v.short)) (omega (arith, small_y)),
            h,
            rest_of d.size.y j v.high small_y h' (omega (arith, less, v.short)),
          )
          (walk_bottom i (j - (d.size.y - 1)) (omega (arith, e, h', v.high))
            (omega (arith, h', v.high)) (omega (arith, less, h', v.high)))
  ]

  -- A number below the length of the edge.
  pub edge_pos-Walked : (i : ℕ) → i + 4 < 2 * d.size.x + 2 * d.size.y → Walked d i (edge_pos d i)
  unfolding edge_pos
  edge_pos-Walked i less = elim (Bool-cases (ltb i d.size.x)) [
    | inl h ↦
        let h' : i < d.size.x = ground (arith, h) in
        rw (lt_int-small i d.size.x (omega (arith, h', small_x)) (omega (arith, small_x)), h)
          (on_top h'
            (offset-add_int d.pos.x i v.valid.across.start_word (omega (arith, h', small_x))
              (omega (arith, h', v.valid.across.end_fits)))
            refl)
    | inr h ↦
        let h' : d.size.x ≤ i = ground (arith, h) in
        rw
          (
            lt_int-small i d.size.x (omega (arith, less, v.short)) (omega (arith, small_x)),
            h,
            rest_of d.size.x i v.wide small_x h' (omega (arith, less, v.short)),
          )
          (walk_right i (i - (d.size.x - 1)) (omega (arith, h', v.wide)) (omega (arith, h', v.wide))
            (omega (arith, less, h', v.wide)))
  ]
