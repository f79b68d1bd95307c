-- ===== src/Map/Rising.antt =====
-- Nodes in strictly rising order of their keys, and what a search of them finds.
use the_foundation.Base.{
  false, Option, none, some, List, [], ◌∷◌, ◌++◌, All, All-imp, All-split, All-join, ℤ,
  if◌then◌else◌, ◌≡◌, refl, ap, Bool-cases, inl, inr,
}
use the_foundation.SortedArray.{is_zero}
use the_foundation.SortedArray.Order.{
  IsOrder, Lt, Eqv, Lt_trans, Eqv-not_lt, Eqv-not_gt, Eqv-Lt, Lt-Eqv, Eqv-sym, Eqv-trans,
}
use the_foundation.Map.Repair.{Node}

-- The node with a key.
abbrev pub lookup : (ℤ → ℤ → ℤ) → ℤ → List Node → Option Node
lookup cmp key [] = none
lookup cmp key (n ∷ ns) = if is_zero (cmp key n.key) then some n else lookup cmp key ns

module _ (cmp : ℤ → ℤ → ℤ) where
  abbrev pub Below : ℤ → List Node → Type 0
  Below key ns = All (λ n. Lt cmp n.key key) ns

  abbrev pub Above : ℤ → List Node → Type 0
  Above key ns = All (λ n. Lt cmp key n.key) ns

  abbrev pub Rising : List Node → Type 0
  Rising [] = Unit
  Rising (n ∷ ns) = Above n.key ns × Rising ns

module _ {cmp : ℤ → ℤ → ℤ} (o : IsOrder cmp) where
  not_zero : (key k : ℤ) → ¬ Eqv cmp key k → is_zero (cmp key k) ≡ false
  not_zero key k h = elim (Bool-cases (is_zero (cmp key k))) [ inl e ↦ absurd (h e) | inr e ↦ e ]

  pub lookup-Below :
      (key : ℤ) (xs ys : List Node)
      → Below cmp key xs
      → lookup cmp key (xs ++ ys) ≡ lookup cmp key ys
  lookup-Below key [] ys b = refl
  lookup-Below key (x ∷ xs) ys (h, b) =
      rw (not_zero key x.key (λ e. Eqv-not_gt o key x.key e h)) (lookup-Below key xs ys b)

  pub lookup-none : (key : ℤ) (ys : List Node) → Above cmp key ys → lookup cmp key ys ≡ none
  lookup-none key [] a = refl
  lookup-none key (y ∷ ys) (h, a) =
      rw (not_zero key y.key (λ e. Eqv-not_lt o key y.key e h)) (lookup-none key ys a)

  pub lookup-Above :
      (key : ℤ) (xs ys : List Node)
      → Above cmp key ys
      → lookup cmp key (xs ++ ys) ≡ lookup cmp key xs
  lookup-Above key [] ys a = lookup-none key ys a
  lookup-Above key (x ∷ xs) ys a =
      ap (λ t. if is_zero (cmp key x.key) then some x else t) (lookup-Above key xs ys a)

  pub Above-trans : (k k' : ℤ) (ys : List Node) → Lt cmp k k' → Above cmp k' ys → Above cmp k ys
  Above-trans k k' ys h a = All-imp (λ n g. Lt_trans o k k' n.key h g) ys a

  pub Below-trans : (k k' : ℤ) (xs : List Node) → Below cmp k xs → Lt cmp k k' → Below cmp k' xs
  Below-trans k k' xs b h = All-imp (λ n g. Lt_trans o n.key k k' g h) xs b

  -- Both sides of a node.
  pub record Around (n : Node) (xs ys : List Node) : Type 0 where
    pub below : Below cmp n.key xs
    pub above : Above cmp n.key ys
    pub rising_below : Rising cmp xs
    pub rising_above : Rising cmp ys
    pub without : Rising cmp (xs ++ ys)

  pub around : (n : Node) (xs ys : List Node) → Rising cmp (xs ++ (n ∷ ys)) → Around n xs ys
  around n [] ys (a, r) = record {
    below = tt;
    above = a;
    rising_below = tt;
    rising_above = r;
    without = r;
  }
  around n (x ∷ xs) ys (a, r) =
      let v = around n xs ys r in
      let (l, (h, g)) = All-split (λ (m : Node). Lt cmp x.key m.key) xs (n ∷ ys) a in
      record {
        below = (h, v.below);
        above = v.above;
        rising_below = (l, v.rising_below);
        rising_above = v.rising_above;
        without = (All-join (λ (m : Node). Lt cmp x.key m.key) xs ys l g, v.without);
      }

  pub insert-Rising :
      (n : Node) (xs ys : List Node)
      → Rising cmp (xs ++ ys)
      → Below cmp n.key xs
      → Above cmp n.key ys
      → Rising cmp (xs ++ (n ∷ ys))
  insert-Rising n [] ys r b a = (a, r)
  insert-Rising n (x ∷ xs) ys (l, r) (h, b) a =
      let (lx, ly) = All-split (λ (m : Node). Lt cmp x.key m.key) xs ys l in
      (
        All-join (λ (m : Node). Lt cmp x.key m.key) xs (n ∷ ys) lx (h, ly),
        insert-Rising n xs ys r b a,
      )

  -- What is found with one node more: that node by its key, and the others as before.
  pub lookup-insert :
      (n : Node) (key : ℤ) (xs ys : List Node)
      → Below cmp n.key xs
      → lookup cmp key (xs ++ (n ∷ ys))
        ≡ (if is_zero (cmp key n.key) then some n else lookup cmp key (xs ++ ys))
  lookup-insert n key [] ys b = refl
  lookup-insert n key (x ∷ xs) ys (h, b) = elim (Bool-cases (is_zero (cmp key x.key))) [
    | inl e ↦
        rw
          (
            e,
            not_zero key n.key (λ g.
                Eqv-not_lt o x.key n.key (Eqv-trans o x.key key n.key (Eqv-sym o key x.key e) g) h),
          )
          refl
    | inr e ↦ rw e (lookup-insert n key xs ys b)
  ]

  pub Below-Eqv : (k k' : ℤ) (xs : List Node) → Below cmp k xs → Eqv cmp k k' → Below cmp k' xs
  Below-Eqv k k' xs b e = All-imp (λ n g. Lt-Eqv o n.key k k' g e) xs b

  pub Above-Eqv : (k k' : ℤ) (xs : List Node) → Above cmp k xs → Eqv cmp k k' → Above cmp k' xs
  Above-Eqv k k' xs b e = All-imp (λ n g. Eqv-Lt o k' k n.key (Eqv-sym o k k' e) g) xs b
