-- ===== src/Array/Insertion/Laws.antt =====
-- `insertN_Array` as a whole: it never faults, and it inserts into the sequence of elements.
use the_foundation.Base.{
  ℕ, ◌+◌, ◌^◌, ◌≤◌, ◌<◌, some, le→leb, ==_iff, ◌≡◌, ◌∙◌, refl, ap, arith, ◌==◌, Bool-cases, inl,
  inr,
}
use the_foundation.Array.{Array, size}
use the_foundation.Array.Shape.{IsValid, at, rebalance-SameView}
use the_foundation.Array.Growth.{Reserved, reserve-Reserved}
use the_foundation.Array.Insertion.{insert_at, insert_n, push_back_n, push_front_n}
use the_foundation.Array.Insertion.Ends.{
  Inserted, SameView-Inserted, insert_back-Inserted, insert_front-Inserted,
}
use the_foundation.Array.Insertion.Middle.{insert_middle-Inserted}
use native.Mathlib.Nat.{add-zero}

module _ {A : Type 0} where
  Inserted-Reserved :
      {d r d' : Array A} {p count reserved : ℕ} {value : ℕ → A}
      → Reserved d r reserved
      → Inserted r p value count d'
      → Inserted d p value count d'
  Inserted-Reserved {d} {r} same ins = record {
    valid = ins.valid;
    size_eq = omega (arith, ins, same);
    before = λ i h. ins.before i h ∙ at_eq i;
    inside = ins.inside;
    after = λ i h k. ins.after i h (omega (arith, same)) ∙ at_eq i;
  }
    where
      at_eq : (i : ℕ) → at r i ≡ at d i
      at_eq i = same.cells_eq (r.start + i) ∙ ap d.cells (omega (arith, same.start_eq))

  Inserted-zero : {d : Array A} (p : ℕ) (value : ℕ → A) → IsValid d → Inserted d p value 0 d
  Inserted-zero {d} p value v = record {
    valid = v;
    size_eq = omega arith;
    before = λ i h. refl;
    inside = λ i h. absurd (omega arith);
    after = λ i h k. rw add-zero;
  }

  -- Each of the three kinds of insertion, at its place of the buffer.
  insert_at-Inserted :
      {d : Array A} (p : ℕ) (value : ℕ → A) (count : ℕ)
      → IsValid d
      → p ≤ size d
      → 0 < count
      → count < 2 ^ 31
      → size d + count ≤ d.alloc_size
      → (d' : Array A) × (insert_at d (p + d.start) value count ≡ some d')
        × Inserted d p value count d'
  unfolding insert_at
  insert_at-Inserted {d} p value count v h some_needed small room =
      elim (Bool-cases (p + d.start == d.end)) [
        | inl last ↦
            let (d', e, ins) = insert_back-Inserted d value count v room small in
            (d', rw last e, at_place (ground (arith, v)) ins)
        | inr inner ↦ elim (Bool-cases (p + d.start == d.start)) [
          | inl front ↦
              let (d', e, ins) = insert_front-Inserted d value count v room in
              (d', rw (inner, front) e, at_place (ground arith) ins)
          | inr middle ↦
              let (d', e, ins) =
                insert_middle-Inserted {split = p + d.start} v (omega arith) (omega (arith, v))
                  value count some_needed room in
              (d', rw (inner, middle) e, at_place (omega arith) ins)
        ]
      ]
    where
      at_place :
          {q : ℕ} {d' : Array A} → q ≡ p → Inserted d q value count d' → Inserted d p value count d'
      at_place e ins = rw (← e) ins

  -- With its position inside of the array and sizes that a machine has, an insertion succeeds: no
  -- assertion of the source fails and no access leaves the allocation. The array then holds the
  -- elements before the position, the inserted ones, and the others, in order, and is well formed.
  pub insert_n-Inserted :
      {d : Array A} (p : ℕ) (value : ℕ → A) (count : ℕ)
      → IsValid d
      → p ≤ size d
      → count < 2 ^ 31
      → size d + count ≤ 2 ^ 61
      → (d' : Array A) × (insert_n d p value count ≡ some d') × Inserted d p value count d'
  unfolding insert_n
  insert_n-Inserted {d} p value count v h small bounded = elim (Bool-cases (count == 0)) [
    | inl nothing ↦
        let zero_eq : count ≡ 0 = (==_iff count 0).0 nothing in
        (d, rw nothing, rw zero_eq (Inserted-zero p value v))
    | inr something ↦
        let (r, reserved, same) = reserve-Reserved (size d + count) v bounded in
        let (i, inserted, ins) =
          insert_at-Inserted p value count same.valid (omega (arith, same)) (ground arith) small
            (omega (arith, same)) in
        let (d', balanced, view) = rebalance-SameView ins.valid in
        (
          d',
          rw (something, le→leb p (size d) h, reserved, inserted) balanced,
          SameView-Inserted h (Inserted-Reserved same ins) view,
        )
  ]

  -- Appending puts the elements behind all others.
  pub push_back_n-Inserted :
      {d : Array A} (value : ℕ → A) (count : ℕ)
      → IsValid d
      → count < 2 ^ 31
      → size d + count ≤ 2 ^ 61
      → (d' : Array A) × (push_back_n d value count ≡ some d') × Inserted d (size d) value count d'
  unfolding push_back_n
  push_back_n-Inserted {d} value count v small bounded =
      insert_n-Inserted (size d) value count v (omega arith) small bounded

  -- Prepending puts the elements before all others.
  pub push_front_n-Inserted :
      {d : Array A} (value : ℕ → A) (count : ℕ)
      → IsValid d
      → count < 2 ^ 31
      → size d + count ≤ 2 ^ 61
      → (d' : Array A) × (push_front_n d value count ≡ some d') × Inserted d 0 value count d'
  unfolding push_front_n
  push_front_n-Inserted value count v small bounded =
      insert_n-Inserted 0 value count v (omega arith) small bounded
