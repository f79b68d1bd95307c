-- ===== src/Block/References.antt =====
-- The steps that move references: each keeps the counts right, and what the blocks read.
use the_foundation.Base.{
  ℕ, ◌+◌, ◌^◌, ◌≤◌, ◌<◌, some, ◌==◌, ◌≡◌, refl, sym, ap, ◌∙◌, arith, ==-false, Bool-cases, inl, inr,
  max,
}
use the_foundation.Block.{World, BlockData, put, new_data, reref}
use the_foundation.Block.Sharing.{
  count, IsData, IsWorldWith, one_more, Reads, lt-next, refs-fresh, next-pos,
}

-- What every block reads stays.
abbrev pub KeepsAll : World → World → Type 0
KeepsAll w w' = (k n : ℕ) (f : ℕ → ℕ) → Reads w k n f → Reads w' k n f

module _ {w : World} {held : ℕ → ℕ} (v : IsWorldWith held w) where
  pub new_data-World :
      (bytes : ℕ → ℕ) (size alloc_size : ℕ)
      → size < 2 ^ 63
      → alloc_size ≤ 2 ^ 63
      → IsWorldWith (one_more w.next held) (new_data w bytes size alloc_size)
        × KeepsAll w (new_data w bytes size alloc_size)
  new_data-World bytes size alloc_size small room = (
    record {
      counted = λ i d e. counted i d e;
      live = λ i h. live i h;
      empty = λ d e. empty d e;
      fresh = λ i h. rw (==-false i w.next (omega arith)) (v.fresh i (omega arith));
      rooted = rw (==-false 0 w.next (omega (arith, next-pos v))) v.rooted;
    },
    λ k n f r. record {
      id = r.id;
      contents = r.contents;
      on = r.on;
      found = rw (==-false r.id w.next (omega (arith, lt-next v r.id r.contents r.found))) r.found;
      size_eq = r.size_eq;
      bytes_eq = r.bytes_eq;
    },
  )
    where
      w' : World
      w' = new_data w bytes size alloc_size

      counted :
          (i : ℕ) (d : BlockData)
          → w'.datas i ≡ some d
          → IsData (count i w.blocks + one_more w.next held i) d
      counted i d e = elim (Bool-cases (i == w.next)) [
        | inl at ↦ ground (arith, refs-fresh v i)
        | inr other ↦ ground (arith, v.counted i d)
      ]

      live :
          (i : ℕ)
          → 0 < count i w.blocks + one_more w.next held i
          → (d : BlockData) × (w'.datas i ≡ some d)
      live i h = elim (Bool-cases (i == w.next)) [
        | inl at ↦ (
          record {
            ref_count = 1;
            bytes = bytes;
            size = size;
            alloc_size = max (size + 1) alloc_size;
          },
          rw at refl,
        )
        | inr other ↦ rw other (v.live i (ground arith))
      ]

      empty : (d : BlockData) → w'.datas 0 ≡ some d → d.size ≡ 0
      empty d e = ground (arith, next-pos v, v.empty d)

-- Where a change of some data keeps their bytes, every block reads what it read.
pub same_bytes-KeepsAll :
    {w : World} (i : ℕ) (d d' : BlockData)
    → w.datas i ≡ some d
    → d'.size ≡ d.size
    → ((p : ℕ) → p < d.size → d'.bytes p ≡ d.bytes p)
    → KeepsAll w (put w i (some d'))
same_bytes-KeepsAll {w} i d d' found size_eq bytes_eq k n f r = elim (Bool-cases (r.id == i)) [
  | inl at ↦
      let same : r.contents ≡ d = ground (arith, r.found, found) in
      record {
        id = r.id;
        contents = d';
        on = r.on;
        found = rw at refl;
        size_eq = size_eq ∙ ap (λ e. e.size) (sym same) ∙ r.size_eq;
        bytes_eq = λ p h.
            bytes_eq p (ground (arith, r.size_eq, same))
            ∙ ap (λ e. e.bytes p) (sym same)
            ∙ r.bytes_eq p h;
      }
  | inr other ↦ record {
    id = r.id;
    contents = r.contents;
    on = r.on;
    found = rw other r.found;
    size_eq = r.size_eq;
    bytes_eq = r.bytes_eq;
  }
]

module _ {w : World} {held : ℕ → ℕ} (v : IsWorldWith held w) (i : ℕ) (d : BlockData)
    (found : w.datas i ≡ some d) where
  pub reref-World :
      (w' : World) × (reref w i ≡ some w')
      × IsWorldWith (one_more i held) w'
      × KeepsAll w w'
      × (w'.blocks ≡ w.blocks)
  unfolding reref
  reref-World = (
    put w i (some (record d { ref_count = d.ref_count + 1 })),
    rw found refl,
    record {
      counted = λ j e q. counted j e q;
      live = λ j h. live j h;
      empty = λ e q. ground (arith, v.empty d, v.empty e, found);
      fresh = λ j h. rw (==-false j i (omega (arith, lt-next v i d found))) (v.fresh j h);
      rooted = rooted;
    },
    same_bytes-KeepsAll i d (record d { ref_count = d.ref_count + 1 }) found refl (λ p h. refl),
    refl,
  )
    where
      w' : World
      w' = put w i (some (record d { ref_count = d.ref_count + 1 }))

      rooted : (e : BlockData) × (w'.datas 0 ≡ some e)
      rooted = elim (Bool-cases (0 == i)) [
        | inl at ↦ (record d { ref_count = d.ref_count + 1 }, rw at refl)
        | inr other ↦ rw other v.rooted
      ]

      counted :
          (j : ℕ) (e : BlockData)
          → w'.datas j ≡ some e
          → IsData (count j w.blocks + one_more i held j) e
      counted j e q = elim (Bool-cases (j == i)) [
        | inl at ↦ ground (arith, v.counted i d found)
        | inr other ↦ ground (arith, v.counted j e)
      ]

      live :
          (j : ℕ)
          → 0 < count j w.blocks + one_more i held j
          → (e : BlockData) × (w'.datas j ≡ some e)
      live j h = elim (Bool-cases (j == i)) [
        | inl at ↦ (record d { ref_count = d.ref_count + 1 }, rw at refl)
        | inr other ↦ rw other (v.live j (ground arith))
      ]
