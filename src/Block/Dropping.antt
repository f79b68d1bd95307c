-- ===== src/Block/Dropping.antt =====
-- Giving up a reference to data: they are freed when it was the last one.
use the_foundation.Base.{
  ℕ, ◌+◌, ◌-◌, ◌<◌, none, some, ◌==◌, ◌≡◌, ◌≢◌, refl, sym, arith, ==-false, Bool-cases, inl, inr,
  true, false,
}
use the_foundation.Block.{World, BlockData, block, put, deref}
use the_foundation.Block.Sharing.{count, IsData, IsWorldWith, one_more, count-pos, lt-next}
use the_foundation.Block.References.{KeepsAll, same_bytes-KeepsAll}

-- The world after one reference to the data `i` less.
pub record Dropped (held : ℕ → ℕ) (i : ℕ) (w w' : World) : Type 0 where
  pub valid : IsWorldWith held w'
  pub keeps : KeepsAll w w'
  pub blocks_eq : w'.blocks ≡ w.blocks
  pub others : (j : ℕ) → j ≢ i → w'.datas j ≡ w.datas j

module _ {w : World} {held : ℕ → ℕ} (i : ℕ) (v : IsWorldWith (one_more i held) w)
    (stays : i ≡ 0 → 0 < count 0 w.blocks + held 0) (d : BlockData)
    (found : w.datas i ≡ some d) where
  deref-shared :
      (d.ref_count == 1) ≡ false
      → Dropped held i w (put w i (some (record d { ref_count = d.ref_count - 1 })))
  deref-shared more = record {
    valid = record {
      counted = λ j e q. counted j e q;
      live = λ j h. live j h;
      empty = λ e q. ground (arith, v.empty d, v.empty e, found);
      fresh = λ j h. rw (==-false j i (omega (arith, lt-next v i d found))) (v.fresh j h);
      rooted = rooted;
    };
    keeps =
        same_bytes-KeepsAll i d (record d { ref_count = d.ref_count - 1 }) found refl (λ p h. refl);
    blocks_eq = refl;
    others = λ j ne. rw (==-false j i ne) refl;
  }
    where
      w' : World
      w' = put w i (some (record d { ref_count = d.ref_count - 1 }))

      rooted : (e : BlockData) × (w'.datas 0 ≡ some e)
      rooted = elim (Bool-cases (0 == i)) [
        | inl at ↦ (record d { ref_count = d.ref_count - 1 }, rw at refl)
        | inr other ↦ rw other v.rooted
      ]

      counted : (j : ℕ) (e : BlockData) → w'.datas j ≡ some e → IsData (count j w.blocks + held j) e
      counted j e q = elim (Bool-cases (j == i)) [
        | inl at ↦ ground (arith, v.counted i d found)
        | inr other ↦ ground (arith, v.counted j e)
      ]

      live : (j : ℕ) → 0 < count j w.blocks + held j → (e : BlockData) × (w'.datas j ≡ some e)
      live j h = elim (Bool-cases (j == i)) [
        | inl at ↦ (record d { ref_count = d.ref_count - 1 }, rw at refl)
        | inr other ↦ rw other (v.live j (ground arith))
      ]

  -- The last reference: no block is on the data.
  deref-last : (d.ref_count == 1) ≡ true → (i ≢ 0) × Dropped held i w (put w i none)
  deref-last one = (
    not_empty,
    record {
      valid = record {
        counted = λ j e q. counted j e q;
        live = λ j h. live j h;
        empty = λ e q. ground (arith, v.empty e);
        fresh = λ j h. ground (arith, v.fresh j h);
        rooted = rw (==-false 0 i (λ e. not_empty (sym e))) v.rooted;
      };
      keeps = λ k n f r. record {
        id = r.id;
        contents = r.contents;
        on = r.on;
        found = rw (==-false r.id i (apart k r.id r.on)) r.found;
        size_eq = r.size_eq;
        bytes_eq = r.bytes_eq;
      };
      blocks_eq = refl;
      others = λ j ne. rw (==-false j i ne) refl;
    },
  )
    where
      w' : World
      w' = put w i none

      unused : count i w.blocks + held i ≡ 0
      unused = ground (arith, v.counted i d found)

      not_empty : i ≢ 0
      not_empty e = ground (arith, unused, stays e)

      apart : (k j : ℕ) → block w k ≡ some j → j ≢ i
      apart k j on e = ground (arith, count-pos k j w.blocks on, unused)

      counted : (j : ℕ) (e : BlockData) → w'.datas j ≡ some e → IsData (count j w.blocks + held j) e
      counted j e q = elim (Bool-cases (j == i)) [
        | inl at ↦ ground arith
        | inr other ↦ ground (arith, v.counted j e)
      ]

      live : (j : ℕ) → 0 < count j w.blocks + held j → (e : BlockData) × (w'.datas j ≡ some e)
      live j h = elim (Bool-cases (j == i)) [
        | inl at ↦ ground (arith, unused)
        | inr other ↦ rw other (v.live j (ground arith))
      ]

  -- A reference that was counted is given up without a fault.
  pub deref-Dropped : (w' : World) × (deref w i ≡ some w') × Dropped held i w w'
  unfolding deref
  deref-Dropped = elim (Bool-cases (d.ref_count == 1)) [
    | inl one ↦
        let (ne, dropped) = deref-last one in
        (put w i none, rw (found, one, ==-false i 0 ne) refl, dropped)
    | inr more ↦ (
      put w i (some (record d { ref_count = d.ref_count - 1 })),
      rw (found, more) refl,
      deref-shared more,
    )
  ]
