-- ===== src/Block/Owning.antt =====
-- Detaching and reserving: the block is then alone on its data, reads what it read, and has room.
use the_foundation.Base.{
  ℕ, ◌+◌, ◌^◌, ◌≤◌, ◌<◌, some, true, false, ◌≡◌, refl, ◌∙◌, arith, ==-true, ==-false, Bool-cases,
  inl, inr, leb, ltb, lt→ltb, max, min,
}
use the_foundation.Array.Growth.{grow-some}
use the_foundation.Block.{
  World, BlockData, block, put, assign, new_data, deref, detach, reserve, reserve_data, filled,
  alloc_size_for,
}
use the_foundation.Block.Sharing.{
  IsWorldWith, IsWorld, base, one_more, Reads, Keeps, lt-next, count-pos,
}
use the_foundation.Block.References.{KeepsAll, new_data-World}
use the_foundation.Block.Dropping.{Dropped, deref-Dropped}
use the_foundation.Block.Placing.{
  assign-World, assign-Keeps, assign-block, deref-assign, edit-Reads,
}

-- The block `h` is alone on its data, which have room for `m` bytes and a null; it reads `n` bytes `f`,
-- and the other blocks what they read.
pub record Owned (w w' : World) (h m n : ℕ) (f : ℕ → ℕ) : Type 0 where
  pub valid : IsWorld w'
  pub id : ℕ
  pub contents : BlockData
  pub on : block w' h ≡ some id
  pub found : w'.datas id ≡ some contents
  pub alone : contents.ref_count ≡ 1
  pub room : m < contents.alloc_size
  pub fits : n < contents.alloc_size
  pub small : contents.alloc_size ≤ 2 ^ 63
  pub size_eq : contents.size ≡ n
  pub bytes_eq : (p : ℕ) → p < n → contents.bytes p ≡ f p
  pub keeps : Keeps w w' h

module _ (garbage : ℕ → ℕ) {w : World} {h n : ℕ} {f : ℕ → ℕ} (v : IsWorld w)
    (r : Reads w h n f) where
  -- The data of a block that shares them are copied.
  detach-shared :
      (alloc_size : ℕ)
      → alloc_size ≤ 2 ^ 63
      → ltb 1 r.contents.ref_count ≡ true
      → (w' : World) × (detach garbage w h alloc_size ≡ some w') × Owned w w' h n n f
  unfolding detach
  detach-shared alloc_size small more = dropped (
      deref-Dropped r.id moved (λ e. omega arith) r.contents
        (rw (==-false r.id w.next (omega (arith, old))) r.found))
    where
      d : BlockData
      d = r.contents

      old : r.id < w.next
      old = lt-next v r.id r.contents r.found

      bytes : ℕ → ℕ
      bytes = filled garbage d.bytes (min d.alloc_size (d.size + 1))

      w1 : World
      w1 = new_data w bytes d.size alloc_size

      fresh : IsWorldWith (one_more w.next base) w1 × KeepsAll w w1
      fresh =
          new_data-World v bytes d.size alloc_size (ground (arith, v.counted r.id d r.found)) small

      moved : IsWorldWith (one_more r.id base) (assign w1 h w.next)
      moved = assign-World w1 h r.id w.next r.on base fresh.0

      dropped :
          (w' : World) × (deref (assign w1 h w.next) r.id ≡ some w')
            × Dropped base r.id (assign w1 h w.next) w'
          → (w' : World) × (detach garbage w h alloc_size ≡ some w') × Owned w w' h n n f
      dropped (w', eq, drop) = (
        w',
        rw (r.on, r.found, more, deref-assign w1 h r.id w.next) eq,
        record {
          valid = drop.valid;
          id = w.next;
          contents = record {
            ref_count = 1;
            bytes = bytes;
            size = d.size;
            alloc_size = max (d.size + 1) alloc_size;
          };
          on = rw drop.blocks_eq (assign-block w1 h r.id w.next r.on);
          found = drop.others w.next (omega (arith, old)) ∙ rw (==-true w.next w.next refl) refl;
          alone = refl;
          room = omega (arith, r.size_eq);
          fits = omega (arith, r.size_eq);
          small = ground (arith, v.counted r.id d r.found);
          size_eq = r.size_eq;
          bytes_eq = λ p q. ground (arith, r.bytes_eq p q, v.counted r.id d r.found, r.size_eq);
          keeps = λ k n f ne s.
              drop.keeps k n f (assign-Keeps w1 h r.id w.next r.on k n f ne (fresh.1 k n f s));
        },
      )

  -- Afterwards the block is alone on its data, whatever other blocks shared them.
  pub detach-Owned :
      (alloc_size : ℕ)
      → alloc_size ≤ 2 ^ 63
      → (w' : World) × (detach garbage w h alloc_size ≡ some w') × Owned w w' h n n f
  unfolding detach
  detach-Owned alloc_size small = elim (Bool-cases (ltb 1 r.contents.ref_count)) [
    | inl more ↦ detach-shared alloc_size small more
    | inr one ↦ (
      w,
      rw (r.on, r.found, one, ==-true r.contents.ref_count 1 (alone one)) refl,
      record {
        valid = v;
        id = r.id;
        contents = r.contents;
        on = r.on;
        found = r.found;
        alone = alone one;
        room = ground (arith, v.counted r.id r.contents r.found, r.size_eq);
        fits = ground (arith, v.counted r.id r.contents r.found, r.size_eq);
        small = ground (arith, v.counted r.id r.contents r.found);
        size_eq = r.size_eq;
        bytes_eq = r.bytes_eq;
        keeps = λ k n f ne s. s;
      },
    )
  ]
    where
      alone : ltb 1 r.contents.ref_count ≡ false → r.contents.ref_count ≡ 1
      alone one = ground (arith, v.counted r.id r.contents r.found, count-pos h r.id w.blocks r.on)

alloc_size_for-some :
    (m : ℕ) → m < 2 ^ 62 → (a : ℕ) × (alloc_size_for m ≡ some a) × (m < a) × (a ≤ 2 ^ 63)
unfolding alloc_size_for
alloc_size_for-some m h =
    let (a, e, enough, above, below) = grow-some 61 8 (m + 1) (omega arith) (omega arith) in
    (a, e, omega arith, omega arith)

module _ (garbage : ℕ → ℕ) {w w' : World} {h n : ℕ} {f : ℕ → ℕ} (o : Owned w w' h n n f) where
  reserve_data-Owned :
      (m : ℕ)
      → m < 2 ^ 62
      → (w'' : World) × (reserve_data garbage w' h m ≡ some w'') × Owned w w'' h m n f
  unfolding reserve_data
  reserve_data-Owned m small = elim (Bool-cases (leb (m + 1) o.contents.alloc_size)) [
    | inl room ↦ (
      w',
      rw (o.on, o.found, room) refl,
      record {
        valid = o.valid;
        id = o.id;
        contents = o.contents;
        on = o.on;
        found = o.found;
        alone = o.alone;
        room = ground arith;
        fits = o.fits;
        small = o.small;
        size_eq = o.size_eq;
        bytes_eq = o.bytes_eq;
        keeps = o.keeps;
      },
    )
    | inr more ↦
        let (a, e, enough, below) = alloc_size_for-some m small in grown a e enough below more
  ]
    where
      grown :
          (a : ℕ)
          → alloc_size_for m ≡ some a
          → m < a
          → a ≤ 2 ^ 63
          → leb (m + 1) o.contents.alloc_size ≡ false
          → (w'' : World) × (reserve_data garbage w' h m ≡ some w'') × Owned w w'' h m n f
      grown a e enough below more =
          let d : BlockData = record o.contents {
            bytes = filled garbage o.contents.bytes o.contents.alloc_size;
            alloc_size = a;
          } in
          let big : n < a = ground (arith, o.fits) in
          let (valid, reads, keeps) =
            edit-Reads h o.id o.contents d o.valid o.on o.found o.alone o.alone
              (omega (arith, o.size_eq)) below in
          (
            put w' o.id (some d),
            rw
                (
                  o.on,
                  o.found,
                  more,
                  ==-true o.contents.ref_count 1 o.alone,
                  lt→ltb 0 o.contents.alloc_size (omega (arith, o.fits)),
                  e,
                )
                refl,
            record {
              valid = valid;
              id = o.id;
              contents = d;
              on = o.on;
              found = rw (==-true o.id o.id refl) refl;
              alone = o.alone;
              room = enough;
              fits = big;
              small = below;
              size_eq = o.size_eq;
              bytes_eq = λ p q.
                  rw (lt→ltb p o.contents.alloc_size (omega (arith, o.fits))) (o.bytes_eq p q);
              keeps = λ k n f ne s. keeps k n f ne (o.keeps k n f ne s);
            },
          )

-- Reserving room for fewer than 2 ^ 62 bytes succeeds; the block is then alone on its data, with that
-- room, and every block reads what it read.
pub reserve-Owned :
    (garbage : ℕ → ℕ) {w : World} {h n : ℕ} {f : ℕ → ℕ} (m : ℕ)
    → IsWorld w
    → Reads w h n f
    → m < 2 ^ 62
    → (w' : World) × (reserve garbage w h m ≡ some w') × Owned w w' h m n f
unfolding reserve
reserve-Owned garbage m v r small =
    let (a, e, enough, below) = alloc_size_for-some m small in
    let (w', e', o) = detach-Owned garbage v r a below in
    let (w'', e'', o') = reserve_data-Owned garbage o m small in (w'', rw (e, e') e'', o')
