-- ===== src/Map/Settling.antt =====
-- The end of a round of the repair after a removal: the red-black invariant and the order.
use the_foundation.Base.{
  ℕ, suc, ◌<◌, true, false, not, ◌||◌, Option, some, List, ◌∷◌, ◌++◌, ◌≡◌, refl, sym, ap, ◌∙◌,
  arith, Bool-cases, inl, inr,
}
use the_foundation.Map.Repair.{
  Node, Tree, leaf, node, Color, red, black, Side, left, right, Frame, make, near, far, is_red,
  is_black_color, blacken, redden, settle,
}
use the_foundation.Map.Contents.{
  flat, before, behind, before_frame, behind_frame, View, empty, seen, view, is_red-make,
  blacken-make, redden-make, blacken_near-make, near-make, far-make, parts-make, raise-make,
  flat-raised, flat-children, flat-blacken, behind_frame-two, before_frame-two,
}
use the_foundation.Map.Balance.{IsRb, Fits, Under, make-IsRb, IsRb-make, blacken-IsRb, redden-IsRb}

-- A path for a tree of the height `k`, in place of one for a tree that is higher.
pub record Settled (path : List Frame) (k : ℕ) (run : Option (List Frame)) : Type 0 where
  pub result : List Frame
  pub ran : run ≡ some result
  pub fits : Fits result k
  pub before_same : before result ≡ before path
  pub behind_same : behind result ≡ behind path

-- What the rest of a path needs below a frame of the colour `c`, under which a tree of the height `k`
-- is to stand as if it had one more black node.
abbrev pub Room : Color → List Frame → ℕ → Type 0
Room red path k = Fits path (suc k) × Under path
Room black path k = Fits path (suc (suc k))

blacken-not_red : (t : Tree) → is_red (blacken t) ≡ false
blacken-not_red leaf = refl
blacken-not_red (node c l n r) = refl

Fits-Room :
    (s : Side) (c : Color) (m : Node) (y : Tree) (path : List Frame) (k : ℕ)
    → is_red y ≡ false
    → IsRb y (suc k)
    → Room c path k
    → Fits (record { side = s; color = c; item = m; other = y } ∷ path) (suc k)
Fits-Room s red m y path k ny b (fits, under) = (ny, b, fits, under)
Fits-Room s black m y path k ny b fits = (b, fits)

-- The sibling comes up with the colour of the parent, which goes down to the node and is black.
raised :
    (s : Side) (c d : Color) (n : Node) (t x : Tree) (m : Node) (y : Tree) (path : List Frame)
    (k : ℕ) (run : Option (List Frame))
    → run
      ≡ some (
          record { side = s; color = black; item = n; other = x }
          ∷ record { side = s; color = c; item = m; other = blacken y }
          ∷ path)
    → flat t ≡ flat (make s d x m y)
    → IsRb x k
    → IsRb (blacken y) (suc k)
    → Room c path k
    → Settled (record { side = s; color = c; item = n; other = t } ∷ path) k run
raised s c d n t x m y path k run e order bx bz room =
    let same = order ∙ flat-children s d d x x m y (blacken y) refl (sym (flat-blacken y)) in
    record {
      result =
          record { side = s; color = black; item = n; other = x }
          ∷ record { side = s; color = c; item = m; other = blacken y }
          ∷ path;
      ran = e;
      fits = (bx, Fits-Room s c m (blacken y) path k (blacken-not_red y) bz room);
      before_same = before_frame-two s d n t x m (blacken y) (before path) same;
      behind_same = behind_frame-two s d n t x m (blacken y) (behind path) same;
    }

module _ (s : Side) (c : Color) (n : Node) (x : Tree) (m : Node) (y : Tree) (path : List Frame)
    (k : ℕ) (bx : IsRb x k) (by : IsRb y k) (room : Room c path k) where
  abbrev frame : Frame
  frame = record { side = s; color = c; item = n; other = make s black x m y }

  -- The child of the sibling on the far side is red.
  far_red : is_red y ≡ true → Settled (frame ∷ path) k (settle frame path)
  unfolding settle
  far_red ry =
      raised s c black n (make s black x m y) x m y path k (settle frame path)
        (rw
          (
            is_red-make s black x m y,
            near-make s black x m y,
            far-make s black x m y,
            ry,
            parts-make s black x m y,
          )
          (ground arith))
        refl bx (blacken-IsRb y k ry by) room

  -- Only the child on the near side is red: it comes up first.
  near_red : is_red y ≡ false → is_red x ≡ true → Settled (frame ∷ path) k (settle frame path)
  unfolding settle
  near_red ny rx = turned x bx rx (view s x)
    where
      turned :
          (x : Tree)
          → IsRb x k
          → is_red x ≡ true
          → View s x
          → Settled
              (record { side = s; color = c; item = n; other = make s black x m y } ∷ path)
              k
              (settle (record { side = s; color = c; item = n; other = make s black x m y }) path)
      turned leaf b r empty = cc
      turned tree b r (seen black u q v) = cc (is_red-make s black u q v)
      turned tree b r (seen red u q v) =
          let (nu, nv, bu, bv) = IsRb-make s red u q v k b in
          raised s c black n (make s black (make s red u q v) m y) u q (make s red v m y) path k
            (settle
              (record {
                side = s;
                color = c;
                item = n;
                other = make s black (make s red u q v) m y;
              })
              path)
            (rw
              (
                is_red-make s black (make s red u q v) m y,
                near-make s black (make s red u q v) m y,
                far-make s black (make s red u q v) m y,
                is_red-make s red u q v,
                ny,
                blacken_near-make s black (make s red u q v) m y,
                blacken-make s red u q v,
                redden-make s black (make s black u q v) m y,
                raise-make s red black u q v m y,
                parts-make s black u q (make s red v m y),
              )
              (ground arith))
            (flat-raised s black red red black u q v m y) bu
            (rw (blacken-make s red v m y) (make-IsRb s black v m y (suc k) (k, refl, bv, by))) room

  -- Neither child is red, and the parent is: the colours of parent and sibling change places.
  recolored :
      c ≡ red → is_red y ≡ false → is_red x ≡ false → Settled (frame ∷ path) k (settle frame path)
  unfolding settle
  recolored e ny nx = record {
    result =
        record { side = s; color = black; item = n; other = redden (make s black x m y) } ∷ path;
    ran =
        rw (is_red-make s black x m y, near-make s black x m y, far-make s black x m y, nx, ny, e)
          refl;
    fits = (
      rw (redden-make s black x m y)
          (redden-IsRb s x m y k nx ny (make-IsRb s black x m y (suc k) (k, refl, bx, by))),
      (rw e at room).0,
    );
    before_same = ap (λ l. before path ++ l) (same_before s);
    behind_same = ap (λ l. l ++ behind path) (same_behind s);
  }
    where
      same_before :
          (s : Side)
          → before_frame s n (redden (make s black x m y)) ≡ before_frame s n (make s black x m y)
      same_before left = refl
      same_before right = refl

      same_behind :
          (s : Side)
          → behind_frame s n (redden (make s black x m y)) ≡ behind_frame s n (make s black x m y)
      same_behind left = refl
      same_behind right = refl

  -- All ways for a round to end, where the parent is red or a child of the sibling is.
  settle-Settled :
      (not (is_black_color c) || is_red x || is_red y) ≡ true
      → Settled (frame ∷ path) k (settle frame path)
  settle-Settled some_red = elim (Bool-cases (is_red y)) [
    | inl ry ↦ far_red ry
    | inr ny ↦ elim (Bool-cases (is_red x)) [
      | inl rx ↦ near_red ny rx
      | inr nx ↦ recolored (red_color c (ground (arith, some_red))) ny nx
    ]
  ]
    where
      red_color : (c : Color) → not (is_black_color c) ≡ true → c ≡ red
      red_color red e = refl
      red_color black e = cc

-- A sibling that is not red, where the round ends at once.
pub settle_black :
    (s : Side) (c : Color) (n : Node) (t : Tree) (path : List Frame) (k : ℕ)
    → 0 < k
    → is_red t ≡ false
    → IsRb t (suc k)
    → Room c path k
    → (not (is_black_color c) || is_red (near s t) || is_red (far s t)) ≡ true
    → Settled
        (record { side = s; color = c; item = n; other = t } ∷ path)
        k
        (settle (record { side = s; color = c; item = n; other = t }) path)
settle_black s c n t path k more nt b room some_red = go t nt b some_red (view s t)
  where
    go :
        (t : Tree)
        → is_red t ≡ false
        → IsRb t (suc k)
        → (not (is_black_color c) || is_red (near s t) || is_red (far s t)) ≡ true
        → View s t
        → Settled
            (record { side = s; color = c; item = n; other = t } ∷ path)
            k
            (settle (record { side = s; color = c; item = n; other = t }) path)
    go leaf nt b some_red empty = absurd (omega (arith, b))
    go tree nt b some_red (seen red x m y) = cc (is_red-make s red x m y)
    go tree nt b some_red (seen black x m y) =
        let (h, e, bx, by) = IsRb-make s black x m y (suc k) b in
        let same : h ≡ k = omega (arith, e) in
        settle-Settled s c n x m y path k (rw (← same) bx) (rw (← same) by) room
          (rw (near-make s black x m y, far-make s black x m y) at some_red)
