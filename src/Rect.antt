-- ===== src/Rect.antt =====
-- The rectangles of include/the_Foundation/rect.h and src/rect.c: a corner with the least coordinates,
-- and a size. The point at the other corner is outside.
pub mod Spans
pub mod Regions
pub mod Containment
pub mod Iteration
pub mod Walk
pub mod Edges
pub mod Sizes
mod Tests
use the_foundation.Base.{
  ℕ, zero, suc, ◌+◌, ◌-◌, Bool, true, false, not, ◌&&◌, ◌||◌, Option, none, some, List, [], ◌∷◌,
  ◌==◌, if◌then◌else◌, ◌>>=◌,
}
use the_foundation.Vec2
use the_foundation.Vec2.{Int2, one_vec, zero_vec, halve, min_vec, max_vec, is_equal, prod}
use the_foundation.Vec2.Ints.{add_int, sub_int, mul_int, neg_int, half_int, lt_int, le_int}

-- `iRect`
pub record Rect : Type 0 where
  pub pos : Int2
  pub size : Int2

abbrev pub zero_rect : Rect
zero_rect = record { pos = zero_vec; size = zero_vec }

abbrev pub init : ℕ → ℕ → ℕ → ℕ → Rect
init x y width height = record { pos = Vec2.init x y; size = Vec2.init width height }

abbrev pub init_corners : Int2 → Int2 → Rect
init_corners top_left bottom_right = record {
  pos = top_left;
  size = Vec2.sub bottom_right top_left;
}

abbrev pub init_centered : Int2 → Int2 → Rect
init_centered center size = record { pos = Vec2.sub center (halve size); size = size }

abbrev pub init_size : ℕ → ℕ → Rect
init_size width height = init 0 0 width height

abbrev pub left : Rect → ℕ
left d = d.pos.x

abbrev pub right : Rect → ℕ
right d = add_int d.pos.x d.size.x

abbrev pub top : Rect → ℕ
top d = d.pos.y

abbrev pub bottom : Rect → ℕ
bottom d = add_int d.pos.y d.size.y

abbrev pub area : Rect → ℕ
area d = mul_int d.size.x d.size.y

abbrev pub mid : Rect → Int2
mid d = Vec2.add d.pos (halve d.size)

abbrev pub top_left : Rect → Int2
top_left d = d.pos

abbrev pub top_mid : Rect → Int2
top_mid d = Vec2.init (add_int d.pos.x (half_int d.size.x)) d.pos.y

abbrev pub top_right : Rect → Int2
top_right d = Vec2.init (right d) d.pos.y

abbrev pub bottom_left : Rect → Int2
bottom_left d = Vec2.init d.pos.x (bottom d)

abbrev pub bottom_mid : Rect → Int2
bottom_mid d = Vec2.init (add_int d.pos.x (half_int d.size.x)) (bottom d)

abbrev pub bottom_right : Rect → Int2
bottom_right d = Vec2.add d.pos d.size

-- `contains_Rect`
unfoldable pub contains : Rect → Int2 → Bool
contains d p =
    le_int d.pos.x p.x
    && le_int d.pos.y p.y
    && lt_int p.x (bottom_right d).x
    && lt_int p.y (bottom_right d).y

-- `containsRect_Rect`
unfoldable pub contains_rect : Rect → Rect → Bool
contains_rect d other =
    let br = Vec2.sub (bottom_right other) one_vec in
    contains d (top_left other)
    && contains d (Vec2.init br.x (top other))
    && contains d br
    && contains d (Vec2.init (left other) br.y)

-- `isOverlapping_Rect`
unfoldable pub is_overlapping : Rect → Rect → Bool
is_overlapping d other = not (
    le_int (right d) other.pos.x
    || le_int (bottom d) other.pos.y
    || le_int (right other) d.pos.x
    || le_int (bottom other) d.pos.y)

-- `isEmpty_Rect`
unfoldable pub is_empty : Rect → Bool
is_empty d = prod d.size == 0

abbrev pub equal : Rect → Rect → Bool
equal d other = is_equal d.pos other.pos && is_equal d.size other.size

-- `union_Rect`
unfoldable pub union : Rect → Rect → Rect
union d other =
    if is_empty d
    then other
    else if is_empty other
    then d
    else init_corners (min_vec d.pos other.pos) (max_vec (bottom_right d) (bottom_right other))

-- `intersect_Rect`
unfoldable pub intersect : Rect → Rect → Rect
intersect d other =
    if not (is_overlapping d other)
    then zero_rect
    else init_corners (max_vec d.pos other.pos) (min_vec (bottom_right d) (bottom_right other))

-- `expand_Rect` and `expanded_Rect`
unfoldable pub expand : Rect → Int2 → Rect
expand d value = record { pos = Vec2.sub d.pos value; size = Vec2.add d.size (Vec2.muli value 2) }

-- `shrink_Rect` and `shrunk_Rect`
unfoldable pub shrink : Rect → Int2 → Rect
shrink d value = expand d (Vec2.neg value)

unfoldable pub adjust_edges : Rect → (top right bottom left : ℕ) → Rect
adjust_edges d top right bottom left = record {
  pos = Vec2.init (add_int d.pos.x left) (add_int d.pos.y top);
  size = Vec2.init (add_int (sub_int d.size.x left) right) (add_int (sub_int d.size.y top) bottom);
}

abbrev pub adjusted : Rect → Int2 → Int2 → Rect
adjusted d tl br = init_corners (Vec2.add d.pos tl) (Vec2.add (bottom_right d) br)

abbrev pub moved : Rect → Int2 → Rect
moved d offset = record { pos = Vec2.add d.pos offset; size = d.size }

-- `edgeLength_Rect_`
abbrev pub edge_length : Rect → ℕ
edge_length d = add_int (mul_int 2 (sub_int d.size.x 1)) (mul_int 2 (sub_int d.size.y 1))

-- The rounds of `edgePos_Rect`, from the last one.
abbrev pub edge_left : Rect → ℕ → Int2
edge_left d pos = Vec2.init d.pos.x (sub_int (sub_int (bottom d) 1) pos)

abbrev pub edge_bottom : Rect → ℕ → Int2
edge_bottom d pos =
    if lt_int pos d.size.x
    then Vec2.init (sub_int (sub_int (right d) 1) pos) (sub_int (bottom d) 1)
    else edge_left d (sub_int pos (sub_int d.size.x 1))

abbrev pub edge_right : Rect → ℕ → Int2
edge_right d pos =
    if lt_int pos d.size.y
    then Vec2.init (sub_int (right d) 1) (add_int (top d) pos)
    else edge_bottom d (sub_int pos (sub_int d.size.y 1))

-- `edgePos_Rect`
unfoldable pub edge_pos : Rect → ℕ → Int2
edge_pos d pos =
    if lt_int pos d.size.x
    then Vec2.init (add_int d.pos.x pos) d.pos.y
    else edge_right d (sub_int pos (sub_int d.size.x 1))

-- The test of `randomEdgePos_Rect` that ends its loop.
unfoldable pub is_not_corner : Rect → ℕ → Bool
is_not_corner d i =
    let dim = Vec2.sub d.size one_vec in
    not (i == dim.x) && not (i == add_int dim.x dim.y) && not (i == add_int (mul_int 2 dim.x) dim.y)

-- `randomEdgePos_Rect` with the random numbers that `iRandom(1, edgeLength_Rect_(d))` gives, or none
-- where the loop does not end within them.
unfoldable pub random_edge_pos : Rect → List ℕ → Option Int2
random_edge_pos d [] = none
random_edge_pos d (i ∷ numbers) =
    let rest = random_edge_pos d numbers in if is_not_corner d i then some (edge_pos d i) else rest

-- `iRectConstIterator`, without the rectangle.
pub record RectConstIterator : Type 0 where
  pub value : Bool
  pub pos : Int2

-- `init_RectConstIterator`
unfoldable pub init_iterator : Rect → RectConstIterator
init_iterator rect = record { pos = rect.pos; value = not (is_empty rect) }

-- `next_RectConstIterator`
unfoldable pub next_iterator : Rect → RectConstIterator → RectConstIterator
next_iterator rect d =
    let x = add_int d.pos.x 1 in
    let pos =
      if x == right rect then Vec2.init (left rect) (add_int d.pos.y 1) else Vec2.init x d.pos.y in
    record { pos = pos; value = lt_int pos.y (bottom rect) }

-- The loop `iConstForEach`: the positions visited, or none where it does not end within the fuel.
unfoldable pub visit : ℕ → Rect → RectConstIterator → Option (List Int2)
visit zero rect d = if d.value then none else some []
visit (suc fuel) rect d =
    let rest = visit fuel rect (next_iterator rect d) in
    if d.value then (do ps ← rest; some (d.pos ∷ ps)) else some []
