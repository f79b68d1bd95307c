-- ===== src/Array/Moves.antt =====
-- `moveElements_Array_`: where the elements of a block are after it has moved, and what stays.
use the_foundation.Base.{
  ℕ, zero, suc, ◌+◌, ◌-◌, ◌≤◌, ◌<◌, some, pos, negsuc, neg, neg-suc, ◌≡◌, refl, arith,
}
use the_foundation.Array.{Array, move_elements, moved_up, moved_down}

module _ {A : Type 0} where
  -- A block that moves down by `k` places; what lies above it stays.
  pub record MovedDown (d d' : Array A) (lo hi k : ℕ) : Type 0 where
    pub start_eq : d'.start ≡ d.start
    pub end_eq : d'.end ≡ d.end
    pub alloc_eq : d'.alloc_size ≡ d.alloc_size
    pub block : (j : ℕ) → lo ≤ j → j < hi → d'.cells (j - k) ≡ d.cells j
    pub above : (j : ℕ) → hi ≤ j → d'.cells j ≡ d.cells j
    pub below : (j : ℕ) → j + k < lo → d'.cells j ≡ d.cells j

  -- A block that moves up by `k` places; what lies below it stays.
  pub record MovedUp (d d' : Array A) (lo hi k : ℕ) : Type 0 where
    pub start_eq : d'.start ≡ d.start
    pub end_eq : d'.end ≡ d.end
    pub alloc_eq : d'.alloc_size ≡ d.alloc_size
    pub block : (j : ℕ) → lo ≤ j → j < hi → d'.cells (j + k) ≡ d.cells j
    pub below : (j : ℕ) → j < lo → d'.cells j ≡ d.cells j
    pub above : (j : ℕ) → hi + k ≤ j → d'.cells j ≡ d.cells j

  pub move_up :
      (d : Array A) {lo hi : ℕ} (k : ℕ)
      → lo ≤ hi
      → hi + k ≤ d.alloc_size
      → (d' : Array A) × (move_elements d lo hi (pos k) ≡ some d') × MovedUp d d' lo hi k
  unfolding move_elements
  move_up d {lo} {hi} k h fits = (
    record d { cells = moved_up d.cells lo hi k },
    ground arith,
    record {
      start_eq = refl;
      end_eq = refl;
      alloc_eq = refl;
      block = λ j p q. ground arith;
      below = λ j p. ground arith;
      above = λ j p. ground arith;
    },
  )

  move_negsuc :
      (d : Array A) {lo hi : ℕ} (k : ℕ)
      → lo ≤ hi
      → hi ≤ d.alloc_size
      → k + 1 ≤ lo
      → (d' : Array A) × (move_elements d lo hi (negsuc k) ≡ some d') × MovedDown d d' lo hi (suc k)
  unfolding move_elements
  move_negsuc d {lo} {hi} k h fits room = (
    record d { cells = moved_down d.cells lo hi (k + 1) },
    ground arith,
    record {
      start_eq = refl;
      end_eq = refl;
      alloc_eq = refl;
      block = λ j p q. ground arith;
      above = λ j p. ground arith;
      below = λ j p. ground arith;
    },
  )

  pub move_down :
      (d : Array A) {lo hi : ℕ} (k : ℕ)
      → lo ≤ hi
      → hi ≤ d.alloc_size
      → k ≤ lo
      → (d' : Array A) × (move_elements d lo hi (neg k) ≡ some d') × MovedDown d d' lo hi k
  move_down d {lo} {hi} zero h fits room =
      let (d', e, m) = move_up d {lo = lo} {hi = hi} 0 h (omega arith) in
      (
        d',
        e,
        record {
          start_eq = m.start_eq;
          end_eq = m.end_eq;
          alloc_eq = m.alloc_eq;
          block = λ j p q. ground (arith, m.block j p q);
          above = λ j p. m.above j (omega arith);
          below = λ j p. m.below j (omega arith);
        },
      )
  move_down d {lo} {hi} (suc k) h fits room =
      let (d', e, m) = move_negsuc d {lo = lo} {hi = hi} k h fits (omega arith) in
      (d', rw (neg-suc k) e, m)
