-- ===== src/Rect/Edges.antt =====
-- The positions along the edge of a rectangle.
use the_foundation.Base.{
  ℕ, ◌+◌, ◌-◌, ◌*◌, ◌<◌, true, some, List, [], ◌∷◌, ◌++◌, All, ◌≡◌, refl, arith, Bool-cases, ◌⊎◌,
  inl, inr,
}
use the_foundation.Vec2.{Int2}
use the_foundation.Vec2.Ints.{offset, add_int, sub_int, mul_int, sub_int-small}
use the_foundation.Rect.{Rect, contains, edge_pos, is_not_corner, random_edge_pos}
use the_foundation.Rect.Spans.{contains_iff}
use the_foundation.Rect.Walk.{
  IsEdged, Walked, on_top, on_right, on_bottom, on_left, small_x, small_y, edge_pos-Walked,
}

module _ (d : Rect) (v : IsEdged d) where
  -- On the edge: inside, and at one end along an axis.
  abbrev pub OnEdge : Int2 → Type 0
  OnEdge p =
      (contains d p ≡ true)
      × ((offset p.x ≡ offset d.pos.x)
          ⊎ (offset p.x + 1 ≡ offset d.pos.x + d.size.x)
          ⊎ (offset p.y ≡ offset d.pos.y)
          ⊎ (offset p.y + 1 ≡ offset d.pos.y + d.size.y))

  -- At a corner: at an end along both axes.
  abbrev pub AtCorner : Int2 → Type 0
  AtCorner p =
      ((offset p.x ≡ offset d.pos.x) ⊎ (offset p.x + 1 ≡ offset d.pos.x + d.size.x))
      × ((offset p.y ≡ offset d.pos.y) ⊎ (offset p.y + 1 ≡ offset d.pos.y + d.size.y))

  Walked-OnEdge :
      (i : ℕ) → i + 4 < 2 * d.size.x + 2 * d.size.y → (p : Int2) → Walked d i p → OnEdge p
  Walked-OnEdge i less p (on_top h ex ey) = (
    (contains_iff d v.valid p).1
        ((omega (arith, ex), omega (arith, ex, h)), (omega (arith, ey), omega (arith, ey, v.high))),
    inr (inr (inl ey)),
  )
  Walked-OnEdge i less p (on_right j e more h ex ey) = (
    (contains_iff d v.valid p).1
        ((omega (arith, ex, v.wide), omega (arith, ex)), (omega (arith, ey), omega (arith, ey, h))),
    inr (inl ex),
  )
  Walked-OnEdge i less p (on_bottom j e more h ex ey) = (
    (contains_iff d v.valid p).1
        ((omega (arith, ex, h), omega (arith, ex)), (omega (arith, ey, v.high), omega (arith, ey))),
    inr (inr (inr ey)),
  )
  Walked-OnEdge i less p (on_left j e more ex ey) = (
    (contains_iff d v.valid p).1 (
      (omega (arith, ex), omega (arith, ex, v.wide)),
      (omega (arith, ey, e, less), omega (arith, ey)),
    ),
    inl ex,
  )

  -- The numbers of the corners.
  abbrev IsCorner : ℕ → Type 0
  IsCorner i =
      (i ≡ 0)
      ⊎ (i + 1 ≡ d.size.x)
      ⊎ (i + 2 ≡ d.size.x + d.size.y)
      ⊎ (i + 3 ≡ d.size.x + d.size.y + d.size.x)

  Walked-IsCorner :
      (i : ℕ)
      → i + 4 < 2 * d.size.x + 2 * d.size.y
      → (p : Int2) → Walked d i p
      → AtCorner p
      → IsCorner i
  Walked-IsCorner i less p (on_top h ex ey) c = ground arith
  Walked-IsCorner i less p (on_right j e more h ex ey) c = ground arith
  Walked-IsCorner i less p (on_bottom j e more h ex ey) c = ground arith
  Walked-IsCorner i less p (on_left j e more ex ey) c = ground arith

  -- What `iRandom` gives for the edge.
  abbrev pub InRange : ℕ → Type 0
  InRange i = (0 < i) × (i + 4 < 2 * d.size.x + 2 * d.size.y)

  not_corner : (i : ℕ) → InRange i → is_not_corner d i ≡ true → IsCorner i → ⊥
  unfolding is_not_corner
  not_corner i (more, less) e c =
      let w = small_x d v in
      let h = small_y d v in
      let x = v.wide in
      let y = v.high in
      let sx : sub_int d.size.x 1 ≡ d.size.x - 1 = sub_int-small d.size.x 1 (omega arith) v.wide in
      let sy : sub_int d.size.y 1 ≡ d.size.y - 1 = sub_int-small d.size.y 1 (omega arith) v.high in
      let e1 : add_int (d.size.x - 1) (d.size.y - 1) ≡ d.size.x - 1 + (d.size.y - 1) =
        omega arith in
      let e2 : add_int (mul_int 2 (d.size.x - 1)) (d.size.y - 1)
          ≡ 2 * (d.size.x - 1) + (d.size.y - 1) =
        omega (arith, v.short) in
      let e' = rw (sx, sy, e1, e2) at e in ground arith

-- The positions along the edge are inside, in the first or the last row or column: in a rectangle with
-- both sides positive, with no corner that overflows, and of sides below 2 ^ 30 in sum, for the
-- numbers below the length of the edge.
pub edge_pos-OnEdge :
    (d : Rect) (v : IsEdged d) (i : ℕ)
    → i + 4 < 2 * d.size.x + 2 * d.size.y
    → OnEdge d v (edge_pos d i)
edge_pos-OnEdge d v i less = Walked-OnEdge d v i less (edge_pos d i) (edge_pos-Walked d v i less)

between_corners :
    (d : Rect) (v : IsEdged d) (i : ℕ)
    → InRange d v i
    → is_not_corner d i ≡ true
    → OnEdge d v (edge_pos d i) × (AtCorner d v (edge_pos d i) → ⊥)
between_corners d v i (more, less) e = (
  edge_pos-OnEdge d v i less,
  λ c.
      not_corner d v i (more, less) e
        (Walked-IsCorner d v i less (edge_pos d i) (edge_pos-Walked d v i less) c),
)

-- As soon as a random number is not the one of a corner, the choice of a position on the edge ends,
-- and the position is on the edge and at no corner: in a rectangle with both sides positive, with no
-- corner that overflows, and of sides below 2 ^ 30 in sum, for random numbers from 1 on and below the
-- length of the edge.
pub random_edge_pos-OnEdge :
    (d : Rect) (v : IsEdged d) (xs ys : List ℕ) (n : ℕ)
    → All (InRange d v) (xs ++ (n ∷ ys))
    → is_not_corner d n ≡ true
    → (p : Int2) × (random_edge_pos d (xs ++ (n ∷ ys)) ≡ some p)
      × OnEdge d v p
      × (AtCorner d v p → ⊥)
unfolding random_edge_pos
random_edge_pos-OnEdge d v [] ys n (range, all) e =
    let (edge, no_corner) = between_corners d v n range e in
    (edge_pos d n, rw e refl, edge, no_corner)
random_edge_pos-OnEdge d v (x ∷ xs) ys n (range, all) e =
    let later = random_edge_pos-OnEdge d v xs ys n all e in
    elim (Bool-cases (is_not_corner d x)) [
      | inl h ↦
          let (edge, no_corner) = between_corners d v x range h in
          rw h (edge_pos d x, refl, edge, no_corner)
      | inr h ↦ rw h later
    ]
