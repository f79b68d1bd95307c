-- ===== src/Rect/Iteration.antt =====
-- The iteration over the positions of a rectangle.
use the_foundation.Base.{
  ℕ, zero, suc, ◌+◌, ◌*◌, ◌%◌, ◌^◌, ◌<◌, Bool, true, false, ==-true, ==-false, Option, none, some,
  List, [], ◌∷◌, ◌++◌, ◌>>=◌, ◌≡◌, refl, sym, arith,
}
use the_foundation.Vec2.{Int2, init}
use the_foundation.Vec2.Ints.{offset, add_int, lt_int}
use the_foundation.Rect.{
  Rect, right, bottom, is_empty, RectConstIterator, init_iterator, next_iterator, visit,
}
use the_foundation.Rect.Spans.{IsRect, offset-end}
use the_foundation.Rect.Containment.{not_empty}

-- `n` positions of a row, from a column on.
unfoldable pub row : (x y n : ℕ) → List Int2
row x y zero = []
row x y (suc n) = init x y ∷ row (add_int x 1) y n

-- `m` rows from a row on, one below the other.
unfoldable pub rows : (x y n m : ℕ) → List Int2
rows x y n zero = []
rows x y n (suc m) = row x y n ++ rows x (add_int y 1) n m

rows-zero : (x y m : ℕ) → rows x y 0 m ≡ []
unfolding row rows
rows-zero x y zero = refl
rows-zero x y (suc m) = rows-zero x (add_int y 1) m

module _ (rect : Rect) where
  abbrev at : Bool → ℕ → ℕ → RectConstIterator
  at b x y = record { value = b; pos = init x y }

  -- Within a row, and at its end.
  next-column :
      (x y n : ℕ)
      → 0 < n
      → n < 2 ^ 31
      → add_int (add_int x 1) n ≡ right rect
      → next_iterator rect (at true x y) ≡ at (lt_int y (bottom rect)) (add_int x 1) y
  unfolding next_iterator
  next-column x y n more small e =
      rw (==-false (add_int x 1) (right rect) (λ h. omega (arith, e, h, more, small))) refl

  next-row :
      (x y : ℕ)
      → add_int x 1 ≡ right rect
      → next_iterator rect (at true x y)
        ≡ at (lt_int (add_int y 1) (bottom rect)) rect.pos.x (add_int y 1)
  unfolding next_iterator
  next-row x y e = rw (==-true (add_int x 1) (right rect) e) refl

  visit-step :
      (fuel x y : ℕ)
      → visit (suc fuel) rect (at true x y)
        ≡ (visit fuel rect (next_iterator rect (at true x y)) >>= λ ps. some (init x y ∷ ps))
  unfolding visit
  visit-step fuel x y = refl

  visit-row :
      (n x y fuel : ℕ)
      → n < 2 ^ 31
      → add_int (add_int x 1) n ≡ right rect
      → lt_int y (bottom rect) ≡ true
      → visit (suc n + fuel) rect (at true x y) ≡ (
          visit fuel rect (at (lt_int (add_int y 1) (bottom rect)) rect.pos.x (add_int y 1))
          >>= λ ps. some (row x y (suc n) ++ ps))
  unfolding row
  visit-row zero x y fuel small e inside =
      let t : suc zero + fuel ≡ suc fuel = omega arith in
      rw (t, visit-step fuel x y, next-row x y (omega (arith, e))) refl
  visit-row (suc n) x y fuel small e inside =
      let t : suc (suc n) + fuel ≡ suc (suc n + fuel) = omega arith in
      rw
        (
          t,
          visit-step (suc n + fuel) x y,
          next-column x y (suc n) (omega arith) small e,
          inside,
          visit-row n (add_int x 1) y fuel (omega (arith, small)) (omega (arith, e)) inside,
        )
        (joined
          (visit fuel rect (at (lt_int (add_int y 1) (bottom rect)) rect.pos.x (add_int y 1))))
    where
      joined :
          (r : Option (List Int2))
          → ((r >>= λ ps. some (row (add_int x 1) y (suc n) ++ ps)) >>= λ ps. some (init x y ∷ ps))
            ≡ (r >>= λ ps. some (row x y (suc (suc n)) ++ ps))
      joined none = refl
      joined (some ps) = refl

  visit-end : (fuel x y : ℕ) → visit fuel rect (at false x y) ≡ some []
  unfolding visit
  visit-end zero x y = refl
  visit-end (suc fuel) x y = refl

  visit_below :
      (m n y extra : ℕ)
      → n < 2 ^ 31
      → add_int (add_int rect.pos.x 1) n ≡ right rect
      → offset y + m ≡ offset (bottom rect)
      → visit (m * suc n + extra) rect (at (lt_int y (bottom rect)) rect.pos.x y)
        ≡ some (rows rect.pos.x y (suc n) m)
  unfolding rows
  visit_below zero n y extra small e f =
      let t : 0 * suc n + extra ≡ extra = omega arith in
      rw (at_bottom y f, t) (visit-end extra rect.pos.x y)
    where
      at_bottom : (y : ℕ) → offset y + 0 ≡ offset (bottom rect) → lt_int y (bottom rect) ≡ false
      at_bottom y f = ground (arith, f)
  visit_below (suc m) n y extra small e f =
      let inside : lt_int y (bottom rect) ≡ true = ground (arith, f) in
      let below : offset (add_int y 1) + m ≡ offset (bottom rect) = omega (arith, f) in
      let fuel : suc m * suc n + extra ≡ suc n + (m * suc n + extra) = omega arith in
      rw
        (
          inside,
          fuel,
          visit-row n rect.pos.x y (m * suc n + extra) small e inside,
          visit_below m n (add_int y 1) extra small e below,
        )
        refl

abbrev sized : Int2 → (w h : ℕ) → Rect
sized pos w h = record { pos = pos; size = init w h }

-- The iteration over a rectangle whose size is not negative, whose corner does not overflow and whose
-- area is below 2 ^ 32 ends after as many rounds as it has positions, and visits them all, row by
-- row, each once; with a side that is zero it visits none.
pub visit-rows :
    (d : Rect) (extra : ℕ)
    → IsRect d
    → d.size.x * d.size.y < 2 ^ 32
    → visit (d.size.y * d.size.x + extra) d (init_iterator d)
      ≡ some (rows d.pos.x d.pos.y d.size.x d.size.y)
unfolding init_iterator is_empty rows
visit-rows d extra v small = go d.pos d.size.x d.size.y v small
  where
    go :
        (pos : Int2) (w h : ℕ)
        → IsRect (sized pos w h)
        → w * h < 2 ^ 32
        → visit (h * w + extra) (sized pos w h) (init_iterator (sized pos w h))
          ≡ some (rows pos.x pos.y w h)
    go pos zero h v small =
        rw (==-true (0 * h % 2 ^ 32) 0 (omega arith), rows-zero pos.x pos.y h)
          (visit-end (sized pos 0 h) (h * 0 + extra) pos.x pos.y)
    go pos (suc n) zero v small =
        rw (==-true (suc n * 0 % 2 ^ 32) 0 (omega arith))
          (visit-end (sized pos (suc n) 0) (0 * suc n + extra) pos.x pos.y)
    go pos (suc n) (suc m) v small =
        let d = sized pos (suc n) (suc m) in
        let below = offset-end pos.y (suc m) v.down in
        let inside : lt_int pos.y (bottom d) ≡ true = rw below (ground arith) in
        rw (not_empty d (omega arith) (omega arith) small, ← inside)
          (visit_below d (suc m) n pos.y extra (omega (arith, v.across.len_small)) (omega arith)
            (sym below))
