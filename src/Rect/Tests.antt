-- ===== src/Rect/Tests.antt =====
-- The theorems on rectangles at two that overlap, and runs.
use the_foundation.Base.{◌+◌, ◌*◌, true, none, some, [], ◌∷◌, ◌≡◌, ◌↔◌, refl, arith}
use the_foundation.Vec2.{Int2}
use the_foundation.Vec2
use the_foundation.Vec2.Ints.{neg_int}
use the_foundation.Rect.{
  Rect, init, contains, contains_rect, is_overlapping, is_empty, union, intersect, expand, shrink,
  adjust_edges, edge_pos, random_edge_pos, is_not_corner, visit, init_iterator,
}
use the_foundation.Rect.Spans.{IsRect}
use the_foundation.Rect.Regions.{intersect-contains, is_overlapping_iff}
use the_foundation.Rect.Containment.{IsFilled, IsNear, contains_rect_iff, union-contains_rect}
use the_foundation.Rect.Iteration.{rows, visit-rows}
use the_foundation.Rect.Walk.{IsEdged}
use the_foundation.Rect.Edges.{OnEdge, AtCorner, edge_pos-OnEdge, random_edge_pos-OnEdge}
use the_foundation.Rect.Sizes.{shrink-expand}

-- The corner is at -2, 1.
abbrev one : Rect
one = init 0xffff_fffe 1 5 4

abbrev other : Rect
other = init 0 0 4 3

abbrev around : Rect
around = init 0xffff_fff0 0xffff_fff0 50 50

one-IsRect : IsRect one
one-IsRect = record {
  across = record { start_word = omega arith; len_small = omega arith; end_fits = omega arith };
  down = record { start_word = omega arith; len_small = omega arith; end_fits = omega arith };
}

other-IsRect : IsRect other
other-IsRect = record {
  across = record { start_word = omega arith; len_small = omega arith; end_fits = omega arith };
  down = record { start_word = omega arith; len_small = omega arith; end_fits = omega arith };
}

around-IsRect : IsRect around
around-IsRect = record {
  across = record { start_word = omega arith; len_small = omega arith; end_fits = omega arith };
  down = record { start_word = omega arith; len_small = omega arith; end_fits = omega arith };
}

one-IsFilled : IsFilled one
one-IsFilled = record {
  valid = one-IsRect;
  wide = omega arith;
  high = omega arith;
  area_fits = omega arith;
}

other-IsFilled : IsFilled other
other-IsFilled = record {
  valid = other-IsRect;
  wide = omega arith;
  high = omega arith;
  area_fits = omega arith;
}

one-IsNear : IsNear one other
one-IsNear = record {
  right_near = omega arith;
  left_near = omega arith;
  bottom_near = omega arith;
  top_near = omega arith;
}

one-IsEdged : IsEdged one
one-IsEdged = record {
  valid = one-IsRect;
  wide = omega arith;
  high = omega arith;
  short = omega arith;
}

intersect-contains_example :
    IsRect (intersect one other)
    × ((p : Int2)
        → (contains (intersect one other) p ≡ true)
          ↔ ((contains one p ≡ true) × (contains other p ≡ true)))
intersect-contains_example = intersect-contains one other one-IsRect other-IsRect

contains_rect_iff_example :
    (contains_rect around one ≡ true)
    ↔ ((p : Int2) → contains one p ≡ true → contains around p ≡ true)
contains_rect_iff_example =
    contains_rect_iff around one around-IsRect one-IsRect (omega arith) (omega arith)

is_overlapping_iff_example :
    (is_overlapping one other ≡ true)
    ↔ ((p : Int2) × (contains one p ≡ true) × (contains other p ≡ true))
is_overlapping_iff_example =
    is_overlapping_iff one other one-IsRect other-IsRect (omega arith) (omega arith) (omega arith)
      (omega arith)

union-contains_rect_example :
    IsRect (union one other)
    × ((contains_rect around (union one other) ≡ true)
        ↔ ((contains_rect around one ≡ true) × (contains_rect around other ≡ true)))
union-contains_rect_example =
    union-contains_rect one other around one-IsFilled other-IsFilled one-IsNear around-IsRect

-- The area of a rectangle of 65536 by 65536 wraps around to zero.
is_empty_run : is_empty (init 0 0 0x1_0000 0x1_0000) ≡ true
unfolding is_empty
is_empty_run = refl

visit-rows_example : visit (3 * 4 + 1) other (init_iterator other) ≡ some (rows 0 0 4 3)
visit-rows_example = visit-rows other 1 other-IsRect (omega arith)

edge_pos-OnEdge_example : OnEdge one one-IsEdged (edge_pos one 9)
edge_pos-OnEdge_example = edge_pos-OnEdge one one-IsEdged 9 (omega arith)

random_edge_pos-OnEdge_example :
    (p : Int2) × (random_edge_pos one (4 ∷ 5 ∷ 6 ∷ []) ≡ some p)
    × OnEdge one one-IsEdged p
    × (AtCorner one one-IsEdged p → ⊥)
unfolding is_not_corner
random_edge_pos-OnEdge_example =
    random_edge_pos-OnEdge one one-IsEdged (4 ∷ []) (6 ∷ []) 5
      ((omega arith, omega arith), ((omega arith, omega arith), ((omega arith, omega arith), tt)))
      refl

-- In a rectangle of 2 by 2 all numbers are those of corners.
random_edge_pos_run : random_edge_pos (init 0 0 2 2) (1 ∷ 2 ∷ 3 ∷ []) ≡ none
unfolding random_edge_pos is_not_corner
random_edge_pos_run = refl

shrink-expand_example :
    (shrink (expand one (Vec2.init 3 0xffff_ffff)) (Vec2.init 3 0xffff_ffff) ≡ one)
    × (expand one (Vec2.init 3 0xffff_ffff)
        ≡ adjust_edges one (neg_int 0xffff_ffff) 3 0xffff_ffff (neg_int 3))
shrink-expand_example =
    shrink-expand one (Vec2.init 3 0xffff_ffff)
      (record { x_word = omega arith; y_word = omega arith })
      (record { x_word = omega arith; y_word = omega arith })
      (record { x_word = omega arith; y_word = omega arith })
