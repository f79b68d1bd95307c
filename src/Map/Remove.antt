-- ===== src/Map/Remove.antt =====
-- The repair after a removal restores the red-black invariant and keeps the order.
use the_foundation.Base.{
  ℕ, suc, ◌<◌, Bool, true, false, not, ◌&&◌, ◌||◌, Option, some, List, [], ◌∷◌, ◌++◌, ◌>>=◌, ◌≡◌,
  refl, ap, ◌∙◌, arith, Bool-cases, inl, inr,
}
use mathlib.Core.Path.{ap₂}
use the_foundation.Map.Repair.{
  Node, Tree, leaf, Color, red, black, Side, left, right, Frame, make, parts, near, far, is_red,
  redden, settle, repair_removal,
}
use the_foundation.Map.Contents.{
  before, behind, before_frame, behind_frame, View, empty, seen, view, is_red-make, redden-make,
  near-make, far-make, parts-make, flat-redden, behind_frame-two, before_frame-two,
}
use the_foundation.Map.Balance.{IsRb, Fits, IsRb-make, redden-IsRb}
use the_foundation.Map.Settling.{Settled, settle_black}

-- The round goes on to the parent, where all of parent, sibling and its children are black.
climbed :
    (s : Side) (n : Node) (t : Tree) (path : List Frame) (k : ℕ) (run : Option (List Frame))
    → 0 < k
    → is_red t ≡ false
    → is_red (near s t) ≡ false
    → is_red (far s t) ≡ false
    → IsRb t (suc k)
    → Settled path (suc k) run
    → Settled (record { side = s; color = black; item = n; other = t } ∷ path) k (
        run >>= λ path'.
        some (record { side = s; color = black; item = n; other = redden t } ∷ path'))
climbed s n t path k run more nt nn nf b r = record {
  result = record { side = s; color = black; item = n; other = redden t } ∷ r.result;
  ran = rw (r.ran) refl;
  fits = (reddened t nt nn nf b (view s t), r.fits);
  before_same = ap₂ (λ l l'. l ++ l') r.before_same (same_before s);
  behind_same = ap₂ (λ l l'. l ++ l') (same_behind s) r.behind_same;
}
  where
    reddened :
        (t : Tree)
        → is_red t ≡ false
        → is_red (near s t) ≡ false
        → is_red (far s t) ≡ false
        → IsRb t (suc k)
        → View s t
        → IsRb (redden t) k
    reddened leaf nt nn nf b empty = absurd (omega (arith, b))
    reddened tree nt nn nf b (seen red x m y) = cc (is_red-make s red x m y)
    reddened tree nt nn nf b (seen black x m y) = rw (redden-make s black x m y) (
        redden-IsRb s x m y k (rw (near-make s black x m y) at nn)
          (rw (far-make s black x m y) at nf) b)

    same_before : (s : Side) → before_frame s n (redden t) ≡ before_frame s n t
    same_before left = refl
    same_before right = ap (λ l. l ++ (n ∷ [])) (flat-redden t)

    same_behind : (s : Side) → behind_frame s n (redden t) ≡ behind_frame s n t
    same_behind left = ap (λ l. n ∷ l) (flat-redden t)
    same_behind right = refl

-- A red sibling comes up first; then the sibling is black, and the parent red.
turned_sibling :
    (s : Side) (n : Node) (t : Tree) (path : List Frame) (k : ℕ)
    → 0 < k
    → is_red t ≡ true
    → IsRb t (suc k)
    → Fits path (suc (suc k))
    → Settled (record { side = s; color = black; item = n; other = t } ∷ path) k (
        parts s t >>= λ p.
        settle
          (record { side = s; color = red; item = n; other = p.near })
          (record { side = s; color = black; item = p.item; other = p.far } ∷ path))
turned_sibling s n t path k more r b fits = go t r b (view s t)
  where
    go :
        (t : Tree)
        → is_red t ≡ true
        → IsRb t (suc k)
        → View s t
        → Settled (record { side = s; color = black; item = n; other = t } ∷ path) k (
            parts s t >>= λ p.
            settle
              (record { side = s; color = red; item = n; other = p.near })
              (record { side = s; color = black; item = p.item; other = p.far } ∷ path))
    go leaf r b empty = cc
    go tree r b (seen black x m y) = cc (is_red-make s black x m y)
    go tree r b (seen red x m y) =
        let (nx, ny, bx, by) = IsRb-make s red x m y (suc k) b in
        let below =
          settle_black s red n x (record { side = s; color = black; item = m; other = y } ∷ path) k
            more nx bx ((by, fits), refl) refl in
        record {
          result = below.result;
          ran = rw (parts-make s red x m y) below.ran;
          fits = below.fits;
          before_same =
              below.before_same
              ∙ before_frame-two s red n (make s red x m y) x m y (before path) refl;
          behind_same =
              below.behind_same
              ∙ behind_frame-two s red n (make s red x m y) x m y (behind path) refl;
        }

tests_some : (a b : Bool) → (a || b) ≡ true → (not a && not b) ≡ false
tests_some a b e = ground (arith, e)

tests_none : (a b : Bool) → (a || b) ≡ false → (a ≡ false) × (b ≡ false)
tests_none a b e = ground (arith, e)

-- In a path for a tree with one more black node, where the tree has at least one: the repair ends
-- without a fault, and the path is then one for the tree.
pub repair_removal-Settled :
    (path : List Frame) (k : ℕ) → 0 < k → Fits path (suc k) → Settled path k (repair_removal path)
unfolding repair_removal
repair_removal-Settled [] k more fits = record {
  result = [];
  ran = refl;
  fits = tt;
  before_same = refl;
  behind_same = refl;
}
repair_removal-Settled (f ∷ path) k more fits =
    go f.side f.color f.item f.other fits (repair_removal-Settled path (suc k) (omega arith))
  where
    go :
        (s : Side) (c : Color) (n : Node) (t : Tree)
        → Fits (record { side = s; color = c; item = n; other = t } ∷ path) (suc k)
        → (Fits path (suc (suc k)) → Settled path (suc k) (repair_removal path))
        → Settled
            (record { side = s; color = c; item = n; other = t } ∷ path)
            k
            (repair_removal (record { side = s; color = c; item = n; other = t } ∷ path))
    go s red n t (nt, b, fits, under) above =
        rw nt (settle_black s red n t path k more nt b (fits, under) refl)
    go s black n t (b, fits) above = elim (Bool-cases (is_red t)) [
      | inl r ↦ rw r (turned_sibling s n t path k more r b fits)
      | inr nt ↦ elim (Bool-cases (is_red (near s t) || is_red (far s t))) [
        | inl some_red ↦
            rw (nt, tests_some (is_red (near s t)) (is_red (far s t)) some_red)
              (settle_black s black n t path k more nt b fits some_red)
        | inr none_red ↦
            let (nn, nf) = tests_none (is_red (near s t)) (is_red (far s t)) none_red in
            rw (nt, nn, nf)
              (climbed s n t path k (repair_removal path) more nt nn nf b (above fits))
      ]
    ]
