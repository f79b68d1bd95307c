-- ===== src/Array/Shape.antt =====
-- What an array holds, when its buffer is well formed, and how shifting keeps both.
use the_foundation.Base.{
  ℕ, zero, suc, ◌+◌, ◌-◌, ◌*◌, ◌/◌, ◌^◌, ◌≤◌, ◌<◌, ◌&&◌, ◌||◌, not, some, ltb, leb, ◌==◌, pos,
  negsuc, neg, neg-suc, ◌≡◌, refl, arith, Bool-cases, ◌⊎◌, inl, inr,
}
use the_foundation.Array.{
  Array, size, at?, shift, rebalance, imbalance, move_elements, moved_up, moved_down,
}

module _ {A : Type 0} where
  -- The element at the position `i`.
  abbrev pub at : Array A → ℕ → A
  at d i = d.cells (d.start + i)

  -- The elements lie inside of the allocation, which is no larger than an address space allows.
  pub record IsValid (d : Array A) : Type 0 where
    pub ordered : d.start ≤ d.end
    pub fits : d.end ≤ d.alloc_size
    pub small : d.alloc_size ≤ 2 ^ 62

  -- The same elements, in a buffer of the same size.
  pub record SameView (d d' : Array A) : Type 0 where
    pub valid : IsValid d'
    pub size_eq : size d' ≡ size d
    pub alloc_eq : d'.alloc_size ≡ d.alloc_size
    pub at_eq : (i : ℕ) → i < size d → at d' i ≡ at d i

  -- A position inside of the array is read.
  pub at?-some : (d : Array A) (i : ℕ) → i < size d → at? d i ≡ some (at d i)
  unfolding at?
  at?-some d i h = ground arith

  pub shift_up :
      {d : Array A} (k : ℕ)
      → IsValid d
      → d.end + k ≤ d.alloc_size
      → (d' : Array A) × (shift d (pos k) ≡ some d') × SameView d d' × (d'.start ≡ d.start + k)
  unfolding shift move_elements
  shift_up {d} k v h = (
    record {
      cells = moved_up d.cells d.start d.end k;
      start = d.start + k;
      end = d.end + k;
      alloc_size = d.alloc_size;
    },
    ground arith,
    record {
      valid = omega arith;
      size_eq = omega arith;
      alloc_eq = refl;
      at_eq = λ i hi. ground arith;
    },
    refl,
  )

  shift_negsuc :
      {d : Array A} (k : ℕ)
      → IsValid d
      → k + 1 ≤ d.start
      → (d' : Array A) × (shift d (negsuc k) ≡ some d')
        × SameView d d'
        × (d'.start ≡ d.start - (k + 1))
  unfolding shift move_elements
  shift_negsuc {d} k v h = (
    record {
      cells = moved_down d.cells d.start d.end (k + 1);
      start = d.start - (k + 1);
      end = d.end - (k + 1);
      alloc_size = d.alloc_size;
    },
    ground arith,
    record {
      valid = omega arith;
      size_eq = omega arith;
      alloc_eq = refl;
      at_eq = λ i hi. ground arith;
    },
    refl,
  )

  pub shift_down :
      {d : Array A} (k : ℕ)
      → IsValid d
      → k ≤ d.start
      → (d' : Array A) × (shift d (neg k) ≡ some d') × SameView d d' × (d'.start ≡ d.start - k)
  shift_down {d} zero v h =
      let (d', e, same, at_start) = shift_up zero v (omega arith) in (d', e, same, omega arith)
  shift_down {d} (suc k) v h =
      let (d', e, same, at_start) = shift_negsuc k v (omega arith) in
      (d', rw (neg-suc k) e, same, omega arith)

  pub SameView-refl : {d : Array A} → IsValid d → SameView d d
  SameView-refl v = record { valid = v; size_eq = refl; alloc_eq = refl; at_eq = λ i h. refl }

  -- What the balance asks for is a shift that stays inside of the allocation.
  imbalance-cases :
      (d : Array A)
      → IsValid d
      → ((k : ℕ) × (imbalance d ≡ pos k) × (d.end + k ≤ d.alloc_size))
        ⊎ ((k : ℕ) × (imbalance d ≡ neg k) × (k ≤ d.start))
  unfolding imbalance
  imbalance-cases d v =
      let left = d.start in
      let right = d.alloc_size - d.end in
      elim (Bool-cases (leb left 4 && leb right 4)) [
        | inl tight ↦ inl (0, ground arith, omega arith)
        | inr loose ↦ elim (Bool-cases (ltb (2 * right) left || ltb (2 * left) right)) [
          | inl uneven ↦ elim (Bool-cases (leb left right)) [
            | inl rightward ↦
                inl ((right - left) / 2, rw (loose, uneven, rightward), omega (arith, v.fits))
            | inr leftward ↦ inr ((left - right) / 2, rw (loose, uneven, leftward), omega arith)
          ]
          | inr even ↦ inl (0, rw (loose, even), omega arith)
        ]
      ]

  -- Rebalancing a well-formed array shifts inside of its allocation, and keeps the size, the
  -- allocation, the elements and the well-formedness.
  pub rebalance-SameView :
      {d : Array A} → IsValid d → (d' : Array A) × (rebalance d ≡ some d') × SameView d d'
  unfolding rebalance
  rebalance-SameView {d} v =
      elim (Bool-cases (not (d.end == d.start) && (d.end == d.alloc_size || d.start == 0))) [
        | inl touching ↦ elim (imbalance-cases d v) [
          | inl (k, e, h) ↦
              let (d', shifted, same, _) = shift_up k v h in (d', rw (touching, e) shifted, same)
          | inr (k, e, h) ↦
              let (d', shifted, same, _) = shift_down k v h in (d', rw (touching, e) shifted, same)
        ]
        | inr apart ↦ (d, rw apart, SameView-refl v)
      ]
