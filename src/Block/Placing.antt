-- ===== src/Block/Placing.antt =====
-- A block that is put on other data, and a change of the data that it alone is on.
use the_foundation.Base.{
  ℕ, ◌+◌, ◌^◌, ◌≤◌, ◌<◌, some, ◌==◌, ◌≡◌, ◌≢◌, refl, sym, arith, ◌>>=◌, get_elem?-set_self,
  get_elem?-set_ne, ==-true, ==-false, Bool-cases, inl, inr, Option-cases,
}
use the_foundation.Block.{World, BlockData, block, put, assign, deref}
use the_foundation.Block.Sharing.{
  count, IsData, IsWorldWith, base, one_more, IsWorld, Reads, Keeps, count-set, count-pos,
  count-alone, lt-next, block-lt,
}

-- A block that moves to other data takes one reference from those held, and leaves one.
module _ (w : World) (h i j : ℕ) (on : block w h ≡ some i) where
  pub assign-World :
      (held : ℕ → ℕ)
      → IsWorldWith (one_more j held) w
      → IsWorldWith (one_more i held) (assign w h j)
  assign-World held v = record {
    counted = λ k d e. ground (arith, v.counted k d e, count-set k j h i w.blocks on);
    live = λ k p. v.live k (ground (arith, count-set k j h i w.blocks on));
    empty = v.empty;
    fresh = v.fresh;
    rooted = v.rooted;
  }

  pub assign-Keeps : Keeps w (assign w h j) h
  assign-Keeps k n f ne r = record {
    id = r.id;
    contents = r.contents;
    on = rw (get_elem?-set_ne w.blocks {i = h} {j = k} (some j) (λ e. ne (sym e))) r.on;
    found = r.found;
    size_eq = r.size_eq;
    bytes_eq = r.bytes_eq;
  }

  pub assign-block : block (assign w h j) h ≡ some j
  assign-block = rw (get_elem?-set_self w.blocks h (some j) (block-lt w.blocks h i on)) refl

-- Moving a block and giving up a reference can change places.
pub deref-assign :
    (w : World) (h i j : ℕ) → (deref w i >>= λ w'. some (assign w' h j)) ≡ deref (assign w h j) i
unfolding deref
deref-assign w h i j = elim (Option-cases (w.datas i)) [
  | inl e ↦ rw e refl
  | inr (d, e) ↦ elim (Bool-cases (d.ref_count == 1)) [
    | inr other ↦ rw (e, other) refl
    | inl one ↦ elim (Bool-cases (i == 0)) [
      | inl at ↦ rw (e, one, at) refl
      | inr ne ↦ rw (e, one, ne) refl
    ]
  ]
]

-- A change in place of data that only one block is on.
pub edit-Reads :
    {w : World} (h i : ℕ) (d d' : BlockData)
    → IsWorld w
    → block w h ≡ some i
    → w.datas i ≡ some d
    → d.ref_count ≡ 1
    → d'.ref_count ≡ 1
    → d'.size < d'.alloc_size
    → d'.alloc_size ≤ 2 ^ 63
    → IsWorld (put w i (some d'))
      × Reads (put w i (some d')) h d'.size d'.bytes
      × Keeps w (put w i (some d')) h
edit-Reads {w} h i d d' v on found one one' fits small = (
  record {
    counted = λ j e q. counted j e q;
    live = λ j p. live j p;
    empty = λ e q. ground (arith, v.empty e, not_empty);
    fresh = λ j p. rw (==-false j i (omega (arith, lt-next v i d found))) (v.fresh j p);
    rooted = rw (==-false 0 i (λ e. not_empty (sym e))) v.rooted;
  },
  record {
    id = i;
    contents = d';
    on = on;
    found = rw (==-true i i refl) refl;
    size_eq = refl;
    bytes_eq = λ p q. refl;
  },
  λ k n f ne r. record {
    id = r.id;
    contents = r.contents;
    on = r.on;
    found = rw (==-false r.id i (apart k r.id ne r.on)) r.found;
    size_eq = r.size_eq;
    bytes_eq = r.bytes_eq;
  },
)
  where
    refs-eq : count i w.blocks + base i ≡ 1
    refs-eq = ground (arith, v.counted i d found)

    on-pos : 0 < count i w.blocks
    on-pos = count-pos h i w.blocks on

    not_empty : i ≢ 0
    not_empty e = ground (arith, refs-eq, on-pos)

    apart : (k j : ℕ) → k ≢ h → block w k ≡ some j → j ≢ i
    apart k j ne on' e =
        ne (count-alone h k i w.blocks on (rw e at on') (omega (arith, refs-eq, on-pos)))

    counted :
        (j : ℕ) (e : BlockData)
        → (put w i (some d')).datas j ≡ some e
        → IsData (count j w.blocks + base j) e
    counted j e q = elim (Bool-cases (j == i)) [
      | inl at ↦ ground (arith, refs-eq)
      | inr other ↦ ground (arith, v.counted j e)
    ]

    live :
        (j : ℕ)
        → 0 < count j w.blocks + base j
        → (e : BlockData) × ((put w i (some d')).datas j ≡ some e)
    live j p = elim (Bool-cases (j == i)) [
      | inl at ↦ (d', rw at refl)
      | inr other ↦ rw other (v.live j p)
    ]
