-- ===== src/Md5/Blocks.antt =====
-- How the blocks of a message are added to a state.
use the_foundation.Base.{
  ℕ, zero, suc, ◌+◌, ◌-◌, ◌*◌, ◌/◌, ◌≤◌, ◌<◌, ◌≡◌, refl, ap, ◌∙◌, sym, arith, some, inl, inr, List,
  ◌++◌, length, length-append, length-drop, take, drop, take-append_le, drop-append_le, leb,
  Bool-cases, tests,
}
use the_foundation.Md5.{transform_blocks}
use the_foundation.Md5.Transform.{State, transform}
use the_foundation.Md5.Digest.{absorb, absorb_all}

-- What is left behind `n` blocks.
pub length-absorb :
    (n : ℕ) (s : State) (xs : List ℕ) → length (absorb n s xs).1 ≡ length xs - n * 64
unfolding absorb
length-absorb zero s xs = omega arith
length-absorb (suc n) s xs =
    omega (arith, length-absorb n (transform s (take 64 xs)) (drop 64 xs), length-drop 64 xs)

-- Blocks of a message that goes on behind them.
pub absorb-append :
    (n : ℕ) (s : State) (xs ys : List ℕ)
    → n * 64 ≤ length xs
    → absorb n s (xs ++ ys) ≡ ((absorb n s xs).0, (absorb n s xs).1 ++ ys)
unfolding absorb
absorb-append zero s xs ys h = refl
absorb-append (suc n) s xs ys h =
    rw (take-append_le 64 xs ys (omega arith), drop-append_le 64 xs ys (omega arith))
      (absorb-append n (transform s (take 64 xs)) (drop 64 xs) ys
        (omega (arith, length-drop 64 xs)))

pub absorb-count : (m n : ℕ) (s : State) (xs : List ℕ) → m ≡ n → absorb m s xs ≡ absorb n s xs
absorb-count m n s xs e = ap (λ i. absorb i s xs) e

-- Blocks one after the other.
pub absorb-add :
    (n k : ℕ) (s : State) (xs : List ℕ)
    → absorb (n + k) s xs ≡ absorb k (absorb n s xs).0 (absorb n s xs).1
unfolding absorb
absorb-add zero k s xs = absorb-count (0 + k) k s xs (omega arith)
absorb-add (suc n) k s xs =
    absorb-count (suc n + k) (suc (n + k)) s xs (omega arith)
    ∙ absorb-add n k (transform s (take 64 xs)) (drop 64 xs)

-- The blocks of a message of 64 bytes or more.
pub absorb-step :
    (s : State) (xs : List ℕ)
    → 64 ≤ length xs
    → absorb (length xs / 64) s xs
      ≡ absorb (length (drop 64 xs) / 64) (transform s (take 64 xs)) (drop 64 xs)
unfolding absorb
absorb-step s xs h =
    absorb-count (length xs / 64) (suc (length (drop 64 xs) / 64)) s xs
      (omega (arith, length-drop 64 xs))

-- The loop adds all the whole blocks, with fuel for one round more.
pub transform_blocks-absorb :
    (fuel : ℕ) (s : State) (xs : List ℕ)
    → length xs / 64 < fuel
    → transform_blocks fuel s xs ≡ some (absorb (length xs / 64) s xs)
unfolding absorb transform_blocks
transform_blocks-absorb zero s xs h = absurd (omega arith)
transform_blocks-absorb (suc fuel) s xs h = elim (Bool-cases (leb 64 (length xs))) [
  | inl e ↦ rw e (
      transform_blocks-absorb fuel (transform s (take 64 xs)) (drop 64 xs)
        (omega (tests, length-drop 64 xs))
      ∙ ap some (sym (absorb-step s xs (omega tests))))
  | inr e ↦ rw e (ap some (absorb-count 0 (length xs / 64) s xs (ground arith)))
]

-- Blocks of a message that goes on, from what its first part left.
pub absorb_all-append :
    (s : State) (xs ys : List ℕ)
    → absorb_all s (xs ++ ys) ≡ absorb_all (absorb_all s xs).0 ((absorb_all s xs).1 ++ ys)
absorb_all-append s xs ys =
    absorb-count (length (xs ++ ys) / 64) (length xs / 64 + length ((absorb_all s xs).1 ++ ys) / 64)
      s (xs ++ ys)
      (omega (
        arith,
        length-append xs ys,
        length-append (absorb_all s xs).1 ys,
        length-absorb (length xs / 64) s xs,
      ))
    ∙ absorb-add (length xs / 64) (length ((absorb_all s xs).1 ++ ys) / 64) s (xs ++ ys)
    ∙ rw (absorb-append (length xs / 64) s xs ys (omega arith)) refl
