-- ===== src/Array/Insertion.antt =====
-- Insertion into an array, `insertN_Array` and what calls it (src/array.c, array.h).
pub mod Ends
pub mod Middle
pub mod Laws
use the_foundation.Base.{
  ℕ, zero, suc, ◌+◌, ◌-◌, ◌*◌, ◌/◌, ◌%◌, ◌^◌, ◌≤◌, ◌<◌, min, Bool, true, false, ◌&&◌, ◌||◌, not,
  Option, none, some, ltb, leb, ◌==◌, if◌then◌else◌, ℤ, pos, negsuc, neg, negate, to_int, half_diff,
  check, ◌>>=◌, ◌>>◌, sub_ℕ, List, [], ◌∷◌,
}
use the_foundation.Array.{Array, size, shift, rebalance, reserve, write, move_elements}

-- The halves of a split array, `part[i]` of the source.
pub data Half : Type 0 where
  first second : Half

-- What the loop over the halves changes.
pub record Opening (A : Type 0) : Type 0 where
  pub array : Array A
  pub place : ℕ
  pub needed : ℕ

module _ {A : Type 0} where
  pub insert_back : Array A → (ℕ → A) → ℕ → Option (Array A)
  unfolding shift write
  insert_back d value count = do
    s ←
        if ltb d.alloc_size (d.end + count)
        then shift d (negate (to_int (d.end + count - d.alloc_size)))
        else some d
    w ← write s s.end value count
    some (record w { end = w.end + count })

  pub insert_front : Array A → (ℕ → A) → ℕ → Option (Array A)
  unfolding shift write
  insert_front d value count = do
    s ← if ltb d.start count then shift d (pos (count - d.start)) else some d
    check (leb count s.start)
    write (record s { start = s.start - count }) (s.start - count) value count

  -- Moving one half aside, as far as there is room on its side.
  pub open_half : (split : ℕ) → Half → Opening A → Option (Opening A)
  unfolding move_elements
  open_half split first o =
      let d = o.array in
      let avail = min o.needed d.start in
      do
        m ← move_elements d d.start split (neg avail)
        some (record {
          array = record m { start = d.start - avail };
          place = o.place - avail;
          needed = o.needed - avail;
        })
  open_half split second o =
      let d = o.array in
      let avail = min o.needed (d.alloc_size - d.end) in
      do
        m ← move_elements d split d.end (pos avail)
        some (record {
          array = record m { end = d.end + avail };
          place = o.place;
          needed = o.needed - avail;
        })

  -- The loop over the two halves, which ends when nothing more is needed.
  pub open_halves : (split : ℕ) → List Half → Opening A → Option (Opening A)
  unfolding open_half
  open_halves split [] o = some o
  open_halves split (h ∷ hs) o =
      if o.needed == 0 then some o else (do o' ← open_half split h o; open_halves split hs o')

  -- The half that moves first: the smaller one, but the first half only if room stays at the start.
  abbrev pub half_order : Array A → (split count : ℕ) → List Half
  half_order d split count =
      if leb (split - d.start) (d.end - split) && ltb count d.start
      then first ∷ second ∷ []
      else second ∷ first ∷ []

  pub insert_middle : Array A → (split : ℕ) → (ℕ → A) → ℕ → Option (Array A)
  unfolding open_halves write
  insert_middle d split value count = do
    o ←
        open_halves split (half_order d split count)
          (record { array = d; place = split; needed = count })
    check (o.needed == 0)
    write o.array o.place value count

  -- The three kinds of insertion, at a place `p` of the buffer.
  pub insert_at : Array A → (p : ℕ) → (ℕ → A) → ℕ → Option (Array A)
  unfolding insert_back insert_front insert_middle
  insert_at d p value count =
      if p == d.end
      then insert_back d value count
      else if p == d.start
      then insert_front d value count
      else insert_middle d p value count

  unfoldable pub insert_n : Array A → (p : ℕ) → (ℕ → A) → (count : ℕ) → Option (Array A)
  unfolding reserve insert_at rebalance
  insert_n d p value count = if count == 0 then some d else do
    check (leb p (size d))
    r ← reserve d (size d + count)
    i ← insert_at r (p + r.start) value count
    rebalance i

  pub push_back_n : Array A → (ℕ → A) → (count : ℕ) → Option (Array A)
  unfolding insert_n
  push_back_n d value count = insert_n d (size d) value count

  pub push_front_n : Array A → (ℕ → A) → (count : ℕ) → Option (Array A)
  unfolding insert_n
  push_front_n d value count = insert_n d 0 value count
