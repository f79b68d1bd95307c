-- ===== src/Rect/Sizes.antt =====
-- The operations that move the edges of a rectangle.
use the_foundation.Base.{ℕ, ◌^◌, ◌<◌, ◌≡◌, refl, arith}
use the_foundation.Vec2.{Int2}
use the_foundation.Vec2.Ints.{add_int, sub_int, mul_int, neg_int}
use the_foundation.Rect.{Rect, expand, shrink, adjust_edges}

-- The coordinates are words.
pub record IsWords (p : Int2) : Type 0 where
  pub x_word : p.x < 2 ^ 32
  pub y_word : p.y < 2 ^ 32

moved_back : (a v : ℕ) → a < 2 ^ 32 → v < 2 ^ 32 → sub_int (sub_int a v) (neg_int v) ≡ a
moved_back a v ha hv = omega (arith, ha, hv)

sized_back :
    (a v : ℕ)
    → a < 2 ^ 32
    → v < 2 ^ 32
    → add_int (add_int a (mul_int v 2)) (mul_int (neg_int v) 2) ≡ a
sized_back a v ha hv = omega (arith, ha, hv)

-- Shrinking a rectangle undoes expanding it by the same vector, also where the arithmetic wraps
-- around; expanding is moving each edge outwards.
pub shrink-expand :
    (d : Rect) (value : Int2)
    → IsWords d.pos
    → IsWords d.size
    → IsWords value
    → (shrink (expand d value) value ≡ d)
      × (expand d value ≡ adjust_edges d (neg_int value.y) value.x value.y (neg_int value.x))
unfolding expand shrink adjust_edges
shrink-expand d value p s w = (
  rw
      (
        moved_back d.pos.x value.x p.x_word w.x_word,
        moved_back d.pos.y value.y p.y_word w.y_word,
        sized_back d.size.x value.x s.x_word w.x_word,
        sized_back d.size.y value.y s.y_word w.y_word,
      )
      refl,
  rw
      (
        outwards d.pos.x value.x w.x_word,
        outwards d.pos.y value.y w.y_word,
        wider d.size.x value.x w.x_word,
        wider d.size.y value.y w.y_word,
      )
      refl,
)
  where
    outwards : (a v : ℕ) → v < 2 ^ 32 → add_int a (neg_int v) ≡ sub_int a v
    outwards a v hv = omega (arith, hv)

    wider : (a v : ℕ) → v < 2 ^ 32 → add_int (sub_int a (neg_int v)) v ≡ add_int a (mul_int v 2)
    wider a v hv = omega (arith, hv)
