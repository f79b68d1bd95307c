-- ===== src/SortedArray/Order.antt =====
-- What a comparison has to be, and what the order of a sorted array is.
use the_foundation.Base.{
  ℕ, ◌<◌, Bool, true, false, ℤ, pos, negsuc, ◌≡◌, refl, arith, ◌⊎◌, inl, inr, sym, ◌∙◌, Bool-cases,
}
use the_foundation.Array.{Array, size}
use the_foundation.Array.Shape.{IsValid, at}
use the_foundation.SortedArray.{SortedArray, is_zero, is_pos, is_neg}

-- A result of a comparison has one sign.
pub sign-cases :
    (c : ℤ)
    → ((is_zero c ≡ true) × (is_pos c ≡ false) × (is_neg c ≡ false))
      ⊎ ((is_zero c ≡ false) × (is_pos c ≡ true) × (is_neg c ≡ false))
      ⊎ ((is_zero c ≡ false) × (is_pos c ≡ false) × (is_neg c ≡ true))
sign-cases (pos n) = ground arith
sign-cases (negsuc n) = inr (inr (refl, refl, refl))

module _ {A : Type 0} where
  -- `x` before `y`, and equal to `y`, by the sign of the comparison.
  abbrev pub Lt : (A → A → ℤ) → A → A → Type 0
  Lt cmp x y = is_neg (cmp x y) ≡ true

  abbrev pub Eqv : (A → A → ℤ) → A → A → Type 0
  Eqv cmp x y = is_zero (cmp x y) ≡ true

  -- A comparison whose signs are those of a total preorder.
  pub record IsOrder (cmp : A → A → ℤ) : Type 0 where
    pub flip : (x y : A) → is_pos (cmp x y) ≡ is_neg (cmp y x)
    pub le_lt : (x y z : A) → is_neg (cmp y x) ≡ false → Lt cmp y z → Lt cmp x z
    pub lt_le : (x y z : A) → Lt cmp x y → is_neg (cmp z y) ≡ false → Lt cmp x z

  -- No element stands behind a greater one.
  abbrev pub IsMonotone : (A → A → ℤ) → Array A → Type 0
  IsMonotone cmp d = (i j : ℕ) → i < j → j < size d → is_neg (cmp (at d j) (at d i)) ≡ false

  -- The elements stand in strictly rising order.
  pub record IsSorted (d : SortedArray A) : Type 0 where
    pub valid : IsValid d.values
    pub order : IsOrder d.cmp
    pub rising : (i j : ℕ) → i < j → j < size d.values → Lt d.cmp (at d.values i) (at d.values j)

  module _ {cmp : A → A → ℤ} (o : IsOrder cmp) where
    pub Lt_of_pos : (x y : A) → is_pos (cmp x y) ≡ true → Lt cmp y x
    Lt_of_pos x y h = cc (o.flip x y)

    -- What is smaller is not greater.
    pub Lt_asymm : (x y : A) → Lt cmp x y → is_neg (cmp y x) ≡ false
    Lt_asymm x y h = elim (sign-cases (cmp x y)) [
      | inl (_, _, z) ↦ cc
      | inr (inl (_, _, z)) ↦ cc
      | inr (inr (_, p, _)) ↦ sym (o.flip x y) ∙ p
    ]

    pub Lt_irrefl : (x : A) → is_neg (cmp x x) ≡ false
    Lt_irrefl x = elim (Bool-cases (is_neg (cmp x x))) [ inl h ↦ Lt_asymm x x h | inr h ↦ h ]

    pub Lt_trans : (x y z : A) → Lt cmp x y → Lt cmp y z → Lt cmp x z
    Lt_trans x y z p q = o.le_lt x y z (Lt_asymm x y p) q

    -- Equal values are in no order.
    pub Eqv-not_lt : (x y : A) → Eqv cmp x y → ¬ Lt cmp x y
    Eqv-not_lt x y e h = elim (sign-cases (cmp x y)) [
      | inl (_, _, z) ↦ cc
      | inr (inl (z, _, _)) ↦ cc
      | inr (inr (z, _, _)) ↦ cc
    ]

    pub Eqv-not_gt : (x y : A) → Eqv cmp x y → ¬ Lt cmp y x
    Eqv-not_gt x y e h = elim (sign-cases (cmp x y)) [
      | inl (_, p, _) ↦ cc (o.flip x y)
      | inr (inl (z, _, _)) ↦ cc
      | inr (inr (z, _, _)) ↦ cc
    ]

    -- The other signs of comparisons, from those of two.
    pub Eqv-intro : (x y : A) → is_neg (cmp x y) ≡ false → is_neg (cmp y x) ≡ false → Eqv cmp x y
    Eqv-intro x y p q = elim (sign-cases (cmp x y)) [
      | inl (z, _, _) ↦ z
      | inr (inl (_, g, _)) ↦ cc (o.flip x y)
      | inr (inr (_, _, l)) ↦ cc
    ]

    not_lt_of_Eqv : (x y : A) → Eqv cmp x y → is_neg (cmp x y) ≡ false
    not_lt_of_Eqv x y e = elim (Bool-cases (is_neg (cmp x y))) [
      | inl h ↦ absurd (Eqv-not_lt x y e h)
      | inr h ↦ h
    ]

    not_gt_of_Eqv : (x y : A) → Eqv cmp x y → is_neg (cmp y x) ≡ false
    not_gt_of_Eqv x y e = elim (Bool-cases (is_neg (cmp y x))) [
      | inl h ↦ absurd (Eqv-not_gt x y e h)
      | inr h ↦ h
    ]

    pub Eqv-refl : (x : A) → Eqv cmp x x
    Eqv-refl x = Eqv-intro x x (Lt_irrefl x) (Lt_irrefl x)

    pub Eqv-sym : (x y : A) → Eqv cmp x y → Eqv cmp y x
    Eqv-sym x y e = Eqv-intro y x (not_gt_of_Eqv x y e) (not_lt_of_Eqv x y e)

    pub Eqv-Lt : (x y z : A) → Eqv cmp x y → Lt cmp y z → Lt cmp x z
    Eqv-Lt x y z e h = o.le_lt x y z (not_gt_of_Eqv x y e) h

    pub Lt-Eqv : (x y z : A) → Lt cmp x y → Eqv cmp y z → Lt cmp x z
    Lt-Eqv x y z h e = o.lt_le x y z h (not_gt_of_Eqv y z e)

    pub Eqv-trans : (x y z : A) → Eqv cmp x y → Eqv cmp y z → Eqv cmp x z
    Eqv-trans x y z p q = Eqv-intro x z (not-true forward) (not-true backward)
      where
        not-true : {b : Bool} → ¬ (b ≡ true) → b ≡ false
        not-true {b} h = elim (Bool-cases b) [ inl e ↦ absurd (h e) | inr e ↦ e ]

        forward : ¬ Lt cmp x z
        forward h = Eqv-not_lt y z q (Eqv-Lt y x z (Eqv-sym x y p) h)

        backward : ¬ Lt cmp z x
        backward h = Eqv-not_gt y z q (Lt-Eqv z x y h p)
