-- ===== src/Array/Insertion/Middle.antt =====
-- Insertion between two elements: the halves move apart, as far as each side has room.
use the_foundation.Base.{
  ℕ, ◌+◌, ◌-◌, ◌≤◌, ◌<◌, min, false, ◌&&◌, some, ltb, leb, le→leb, ==-true, ==-false, ◌≡◌, ◌∙◌,
  refl, arith, List, [], ◌∷◌, ◌==◌, Bool-cases, ◌⊎◌, inl, inr,
}
use native.Mathlib.Nat.{sub-zero, add-zero}
use the_foundation.Array.{Array, size, write, copied}
use the_foundation.Array.Shape.{IsValid, at}
use the_foundation.Array.Moves.{move_up, move_down}
use the_foundation.Array.Insertion.{
  Half, first, second, Opening, open_half, open_halves, half_order, insert_middle,
}
use the_foundation.Array.Insertion.Ends.{Inserted}

module _ {A : Type 0} where
  -- `d'` is `d` with the first half moved down by `a` places and the second half up by `b`.
  record Opens (d : Array A) (split a b : ℕ) (d' : Array A) : Type 0 where
    start_eq : d'.start ≡ d.start - a
    end_eq : d'.end ≡ d.end + b
    alloc_eq : d'.alloc_size ≡ d.alloc_size
    lower : (j : ℕ) → d.start ≤ j → j < split → d'.cells (j - a) ≡ d.cells j
    upper : (j : ℕ) → split ≤ j → j < d.end → d'.cells (j + b) ≡ d.cells j

  module _ {d : Array A} {split : ℕ} (v : IsValid d) (above : d.start ≤ split)
      (below : split ≤ d.end) where
    open_first :
        {b : ℕ} (o : Opening A)
        → Opens d split 0 b o.array
        → d.end + b ≤ d.alloc_size
        → let k = min o.needed o.array.start in
          (o' : Opening A) × (open_half split first o ≡ some o')
          × Opens d split k b o'.array
          × (o'.place ≡ o.place - k)
          × (o'.needed ≡ o.needed - k)
    unfolding open_half
    open_first {b} o opens room =
        let k = min o.needed o.array.start in
        let (m, e, moved) =
          move_down o.array {lo = o.array.start} {hi = split} k (omega (arith, opens.start_eq))
            (omega (arith, opens.alloc_eq)) (omega arith) in
        (
          record {
            array = record m { start = o.array.start - k };
            place = o.place - k;
            needed = o.needed - k;
          },
          rw e refl,
          record {
            start_eq = omega (arith, opens.start_eq);
            end_eq = moved.end_eq ∙ opens.end_eq;
            alloc_eq = moved.alloc_eq ∙ opens.alloc_eq;
            lower = λ j p q.
                moved.block j (omega (arith, opens.start_eq)) q
                ∙ (rw sub-zero at (opens.lower j p q));
            upper = λ j p q. moved.above (j + b) (omega arith) ∙ opens.upper j p q;
          },
          refl,
          refl,
        )

    open_second :
        (n : ℕ)
        → let k = min n (d.alloc_size - d.end) in
          (o' : Opening A) × (open_half split second
              (record { array = d; place = split; needed = n })
            ≡ some o')
          × Opens d split 0 k o'.array
          × (o'.place ≡ split)
          × (o'.needed ≡ n - k)
    unfolding open_half
    open_second n =
        let k = min n (d.alloc_size - d.end) in
        let (m, e, moved) = move_up d {lo = split} {hi = d.end} k below (omega (arith, v)) in
        (
          record { array = record m { end = d.end + k }; place = split; needed = n - k },
          rw e refl,
          record {
            start_eq = omega (arith, moved.start_eq);
            end_eq = refl;
            alloc_eq = moved.alloc_eq;
            lower = λ j p q. rw sub-zero (moved.below j q);
            upper = λ j p q. moved.block j p q;
          },
          refl,
          refl,
        )

    Opens-refl : Opens d split 0 0 d
    Opens-refl = record {
      start_eq = omega arith;
      end_eq = omega arith;
      alloc_eq = refl;
      lower = λ j p q. rw sub-zero;
      upper = λ j p q. rw add-zero;
    }

    -- What the loop over the halves comes to: they open by `count` together.
    record Opened (hs : List Half) (count : ℕ) : Type 0 where
      down : ℕ
      up : ℕ
      opening : Opening A
      runs :
          open_halves split hs (record { array = d; place = split; needed = count }) ≡ some opening
      opens : Opens d split down up opening.array
      place_eq : opening.place ≡ split - down
      needed_eq : opening.needed ≡ 0
      total : down + up ≡ count
      room_down : down ≤ d.start
      room_up : d.end + up ≤ d.alloc_size

    first-Opened : (count : ℕ) → 0 < count → count < d.start → Opened (first ∷ second ∷ []) count
    unfolding open_halves
    first-Opened count some_needed room =
        let (o, e, opens, place_eq, needed_eq) =
          open_first (record { array = d; place = split; needed = count }) Opens-refl
            (omega (arith, v)) in
        record {
          down = min count d.start;
          up = 0;
          opening = o;
          runs =
              rw (==-false count 0 (omega arith), e, ==-true o.needed 0 (omega (arith, needed_eq)));
          opens = opens;
          place_eq = place_eq;
          needed_eq = omega (arith, needed_eq);
          total = omega arith;
          room_down = omega arith;
          room_up = omega (arith, v);
        }

    second-Opened :
        (count : ℕ) → 0 < count → size d + count ≤ d.alloc_size → Opened (second ∷ first ∷ []) count
    unfolding open_halves
    second-Opened count some_needed room =
        let (o, e, opens, place_eq, needed_eq) = open_second count in
        elim (Bool-cases (o.needed == 0)) [
          | inl done ↦ record {
            down = 0;
            up = min count (d.alloc_size - d.end);
            opening = o;
            runs = rw (==-false count 0 (omega arith), e, done);
            opens = opens;
            place_eq = rw sub-zero place_eq;
            needed_eq = ground arith;
            total = ground (arith, needed_eq);
            room_down = omega arith;
            room_up = omega (arith, v);
          }
          | inr more ↦ rest_first o e opens place_eq needed_eq more
        ]
      where
        b : ℕ
        b = min count (d.alloc_size - d.end)

        rest_first :
            (o : Opening A)
            → open_half split second (record { array = d; place = split; needed = count }) ≡ some o
            → Opens d split 0 b o.array
            → o.place ≡ split
            → o.needed ≡ count - b
            → (o.needed == 0) ≡ false
            → Opened (second ∷ first ∷ []) count
        rest_first o e opens place_eq needed_eq more =
            let (o', e', opens', place_eq', needed_eq') = open_first o opens (omega (arith, v)) in
            record {
              down = min o.needed o.array.start;
              up = b;
              opening = o';
              runs = rw (==-false count 0 (omega arith), e, more, e');
              opens = opens';
              place_eq = omega (arith, place_eq, place_eq');
              needed_eq = omega (arith, needed_eq, needed_eq', opens.start_eq, v);
              total = omega (arith, needed_eq, needed_eq', opens.start_eq, v);
              room_down = omega (arith, opens.start_eq);
              room_up = omega (arith, v);
            }

    -- What the opened array holds, seen from its own start.
    module _ {hs : List Half} (value : ℕ → A) (count : ℕ) (o : Opened hs count) where
      outside :
          (j : ℕ)
          → (j < o.opening.place) ⊎ (o.opening.place + count ≤ j)
          → copied o.opening.array.cells o.opening.place value count j ≡ o.opening.array.cells j
      outside j h = ground arith

      within :
          (i : ℕ)
          → i < count
          → copied o.opening.array.cells o.opening.place value count
              (o.opening.array.start + (split - d.start + i))
            ≡ value i
      within i q = copied_at (omega (arith, o))
        where
          copied_at :
              {j : ℕ}
              → j ≡ o.opening.place + i
              → copied o.opening.array.cells o.opening.place value count j ≡ value i
          copied_at h = ground arith

      lower_at :
          (i : ℕ) → i < split - d.start → o.opening.array.cells (o.opening.array.start + i) ≡ at d i
      lower_at i q = ground (arith, o.opens.lower (d.start + i), o.opens.start_eq, o.room_down)

      upper_at :
          (i : ℕ)
          → split - d.start ≤ i
          → i < size d
          → o.opening.array.cells (o.opening.array.start + (i + count)) ≡ at d i
      upper_at i q r =
          ground (arith, o.opens.upper (d.start + i), o.opens.start_eq, o.room_down, o.total)

    finish-Inserted :
        {hs : List Half} (value : ℕ → A) (count : ℕ)
        → (o : Opened hs count)
        → (d' : Array A) × (write o.opening.array o.opening.place value count ≡ some d')
          × Inserted d (split - d.start) value count d'
    unfolding write
    finish-Inserted value count o =
        let m = o.opening.array in
        let p = o.opening.place in
        (
          record m { cells = copied m.cells p value count },
          rw (le→leb (p + count) m.alloc_size (omega (arith, o))) refl,
          record {
            valid = omega (arith, o, v);
            size_eq = omega (arith, o, v);
            before = λ i q.
                outside value count o (m.start + i) (omega (arith, o)) ∙ lower_at value count o i q;
            inside = λ i q. within value count o i q;
            after = λ i q r.
                outside value count o (m.start + (i + count)) (omega (arith, o))
                ∙ upper_at value count o i q r;
          },
        )

    insert_middle_of_Opened :
        (value : ℕ → A) (count : ℕ)
        → Opened (half_order d split count) count
        → (d' : Array A) × (insert_middle d split value count ≡ some d')
          × Inserted d (split - d.start) value count d'
    unfolding insert_middle
    insert_middle_of_Opened value count o =
        let (d', e, ins) = finish-Inserted value count o in
        (d', rw (o.runs, ==-true o.opening.needed 0 o.needed_eq) e, ins)

    pub insert_middle-Inserted :
        (value : ℕ → A) (count : ℕ)
        → 0 < count
        → size d + count ≤ d.alloc_size
        → (d' : Array A) × (insert_middle d split value count ≡ some d')
          × Inserted d (split - d.start) value count d'
    insert_middle-Inserted value count some_needed room =
        insert_middle_of_Opened value count
          (elim (Bool-cases (leb (split - d.start) (d.end - split) && ltb count d.start)) [
            | inl near ↦ rw near (first-Opened count some_needed (ground arith))
            | inr far ↦ rw far (second-Opened count some_needed room)
          ])
