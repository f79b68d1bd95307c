-- ===== src/Map/Insert.antt =====
-- The repair after an insertion restores the red-black invariant and keeps the order.
use the_foundation.Base.{
  ℕ, suc, true, false, List, [], ◌∷◌, ◌≡◌, refl, sym, ◌∙◌, Bool-cases, ◌⊎◌, inl, inr,
}
use the_foundation.Map.Repair.{
  Tree, leaf, node, Color, red, black, Frame, make, plug, zip, is_red, blacken, repair_insert,
}
use the_foundation.Map.Contents.{
  zip-same, is_red-make, blacken-make, raise-make, flat-raised, flat-color, flat-children,
  flat-blacken,
}
use the_foundation.Map.Balance.{
  IsRb, Fits, Under, zip-IsRooted, Allowed-black, make-IsRb, blacken-IsRb,
}
use the_foundation.Map.Raising.{Repaired, Top, top, recolored}

black-Fit :
    (f : Frame) (path : List Frame) (k : ℕ)
    → f.color ≡ black
    → Fits (f ∷ path) k
    → IsRb f.other k × Fits path (suc k)
black-Fit f path k e fits = rw e at fits

red-Fit :
    (f : Frame) (path : List Frame) (k : ℕ)
    → f.color ≡ red
    → Fits (f ∷ path) k
    → (is_red f.other ≡ false) × IsRb f.other k × Fits path k × Under path
red-Fit f path k e fits = rw e at fits

Color-cases : (c : Color) → (c ≡ black) ⊎ (c ≡ red)
Color-cases black = inl refl
Color-cases red = inr refl

-- A red node in a path that fits it: the repair ends without a fault, the root is that of a red-black
-- tree, and the order is the same.
pub repair_insert-Repaired :
    (t : Tree) (path : List Frame) (k : ℕ)
    → IsRb t k
    → is_red t ≡ true
    → Fits path k
    → Repaired t path (repair_insert t path)
unfolding repair_insert
repair_insert-Repaired t [] k b r fits = record {
  root = blacken t;
  ran = refl;
  rooted = record { black_root = blacken_root t; height = suc k; balanced = blacken-IsRb t k r b };
  order = flat-blacken t;
}
  where
    blacken_root : (t : Tree) → is_red (blacken t) ≡ false
    blacken_root leaf = refl
    blacken_root (node c l n r) = refl
repair_insert-Repaired t (f ∷ []) k b r fits = elim (Color-cases f.color) [
  | inl e ↦ record {
    root = plug t f;
    ran = rw e refl;
    rooted = zip-IsRooted t (f ∷ []) k b fits (rw (e, r) refl);
    order = refl;
  }
  | inr e ↦ absurd ((red-Fit f [] k e fits).3)
]
repair_insert-Repaired t (f ∷ g ∷ path) k b r fits = elim (Color-cases f.color) [
  | inl e ↦ record {
    root = zip t (f ∷ g ∷ path);
    ran = rw e refl;
    rooted = zip-IsRooted t (f ∷ g ∷ path) k b fits (rw (e, r) refl);
    order = refl;
  }
  | inr e ↦
      let (ob, bo, fits', under) = red-Fit f (g ∷ path) k e fits in
      let (bu, fits'') = black-Fit g path k under fits' in
      elim (Bool-cases (is_red g.other)) [
        | inl u ↦ climbed e u (
            repair_insert-Repaired
              (plug (plug t (record f { color = black }))
                (record g { color = red; other = blacken g.other }))
              path (suc k) (recolored t f g k b bo bu u)
              (is_red-make g.side red (plug t (record f { color = black })) g.item
                (blacken g.other))
              fits'')
        | inr u ↦ rotated e u bu fits'' (top g.side f t k e b r ob bo)
      ]
]
  where
    climbed :
        f.color ≡ red
        → is_red g.other ≡ true
        → Repaired
            (plug
              (plug t (record f { color = black }))
              (record g { color = red; other = blacken g.other }))
            path
            (repair_insert
              (plug
                (plug t (record f { color = black }))
                (record g { color = red; other = blacken g.other }))
              path)
        → Repaired t (f ∷ g ∷ path) (repair_insert t (f ∷ g ∷ path))
    climbed e u m = record {
      root = m.root;
      ran = rw (e, u) m.ran;
      rooted = m.rooted;
      order =
          m.order
          ∙ zip-same
              (plug (plug t (record f { color = black }))
                (record g { color = red; other = blacken g.other }))
              (plug (plug t f) g) path
              (flat-children g.side red g.color (plug t (record f { color = black })) (plug t f)
                g.item (blacken g.other) g.other (flat-color f.side black f.color t f.item f.other)
                (flat-blacken g.other));
    }

    rotated :
        f.color ≡ red
        → is_red g.other ≡ false
        → IsRb g.other k
        → Fits path (suc k)
        → Top g.side f t k
        → Repaired t (f ∷ g ∷ path) (repair_insert t (f ∷ g ∷ path))
    rotated e u bu fits'' m =
        let tree = make g.side black m.near m.item (make g.side red m.far g.item g.other) in
        record {
          root = zip tree path;
          ran =
              rw
                (
                  u,
                  m.raised,
                  blacken-make g.side red m.near m.item m.far,
                  raise-make g.side red black m.near m.item m.far g.item g.other,
                  e,
                )
                refl;
          rooted =
              zip-IsRooted tree path (suc k)
                (make-IsRb g.side black m.near m.item (make g.side red m.far g.item g.other) (suc k)
                  (
                    k,
                    refl,
                    m.near_ok,
                    make-IsRb g.side red m.far g.item g.other k (m.far_black, u, m.far_ok, bu),
                  ))
                fits''
                (Allowed-black g.side m.near m.item (make g.side red m.far g.item g.other) path);
          order = zip-same tree (plug (plug t f) g) path (
              sym (flat-raised g.side g.color red red black m.near m.item m.far g.item g.other)
              ∙ flat-children g.side g.color g.color (make g.side red m.near m.item m.far)
                  (plug t f) g.item g.other g.other m.order refl);
        }
