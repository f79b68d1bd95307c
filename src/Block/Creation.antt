-- ===== src/Block/Creation.antt =====
-- Blocks that are made from bytes, from a part of a block, and from two blocks.
use the_foundation.Base.{
  ℕ, ◌+◌, ◌-◌, ◌^◌, ◌<◌, not, false, Option, some, length, ltb, leb, ◌==◌, min, max, if◌then◌else◌,
  check, ◌>>=◌, ◌>>◌, ◌≡◌, refl, ◌∙◌, arith, Bool-cases, inl, inr, ==-true,
}
use the_foundation.Block.{
  World, BlockData, new_data, reref, filled, put, edit, written, closed, copy_in, close_at,
}
use the_foundation.Block.Edit.{data_of, push_block, init_block}
use the_foundation.Block.Sharing.{IsWorldWith, IsWorld, base, one_more, Reads, block-lt}
use the_foundation.Block.References.{KeepsAll, new_data-World, reref-World}
use the_foundation.Block.Placing.{edit-Reads}
use the_foundation.Block.Lifetimes.{push_block-World, push_block-Keeps, push_block-block}

module _ (garbage : ℕ → ℕ) where
  -- `initData_Block`: the bytes and a null in new data.
  unfoldable pub init_data : World → (ℕ → ℕ) → (n : ℕ) → Option World
  init_data w source n =
      if ltb 0 n
      then some (
          push_block (new_data w (λ p. if p == n then 0 else filled garbage source n p) n 0) w.next)
      else init_block garbage w n

  unfoldable pub mid : World → (h start count : ℕ) → Option World
  mid w h start count = do
    d ← data_of w h
    if leb d.size start
        then init_block garbage w 0
        else init_data w (λ p. d.bytes (start + p)) (min count (d.size - start))

  -- `concat_Block`: the null is also written where there are no bytes, to the literal that
  -- `emptyBlockData` has.
  unfoldable pub concat : World → (h other : ℕ) → Option World
  concat w h other = do
    d ← data_of w h
    e ← data_of w other
    check (not (d.size + e.size == 0))
    w' ← init_block garbage w (d.size + e.size)
    edit w' (length w.blocks) (λ c. do
      first ← copy_in c 0 d.bytes d.size
      second ← copy_in first d.size e.bytes e.size
      close_at second c.size)

-- A new block that reads `n` bytes `f`, besides those there were.
pub record Made (w w' : World) (n : ℕ) (f : ℕ → ℕ) : Type 0 where
  pub valid : IsWorld w'
  pub reads : Reads w' (length w.blocks) n f
  pub keeps : KeepsAll w w'

Made-bytes :
    {w w' : World} {n : ℕ} {f g : ℕ → ℕ}
    → Made w w' n f
    → ((p : ℕ) → p < n → f p ≡ g p)
    → Made w w' n g
Made-bytes m same = record {
  valid = m.valid;
  reads = record {
    id = m.reads.id;
    contents = m.reads.contents;
    on = m.reads.on;
    found = m.reads.found;
    size_eq = m.reads.size_eq;
    bytes_eq = λ p h. m.reads.bytes_eq p h ∙ same p h;
  };
  keeps = m.keeps;
}

init_empty-Made :
    (garbage : ℕ → ℕ) {w : World} (f : ℕ → ℕ)
    → IsWorld w
    → (w' : World) × (init_block garbage w 0 ≡ some w') × Made w w' 0 f
unfolding init_block
init_empty-Made garbage {w} f v =
    let (d, found) = v.rooted in referred d found (reref-World v 0 d found)
  where
    referred :
        (d : BlockData)
        → w.datas 0 ≡ some d
        → (w1 : World) × (reref w 0 ≡ some w1)
          × IsWorldWith (one_more 0 base) w1
          × KeepsAll w w1
          × (w1.blocks ≡ w.blocks)
        → (w' : World) × (init_block garbage w 0 ≡ some w') × Made w w' 0 f
    referred d found (w1, e, v1, keeps, blocks) =
        let (d1, found1) = v1.rooted in
        (
          push_block w1 0,
          rw e refl,
          record {
            valid = push_block-World 0 v1;
            reads = record {
              id = 0;
              contents = d1;
              on = rw (← blocks) (push_block-block w1 0);
              found = found1;
              size_eq = v1.empty d1 found1;
              bytes_eq = λ p h. absurd (omega arith);
            };
            keeps = λ k n f t. push_block-Keeps w1 0 k n f (keeps k n f t);
          },
        )

-- In a well-formed world a block is made without a fault of fewer than 2 ^ 62 bytes that lie elsewhere.
pub init_data-Made :
    (garbage : ℕ → ℕ) {w : World} (source : ℕ → ℕ) (n : ℕ)
    → IsWorld w
    → n < 2 ^ 62
    → (w' : World) × (init_data garbage w source n ≡ some w') × Made w w' n source
unfolding init_data
init_data-Made garbage {w} source n v small = elim (Bool-cases (ltb 0 n)) [
  | inl more ↦
      let copied : ℕ → ℕ = λ p. if p == n then 0 else filled garbage source n p in
      let (v1, keeps) = new_data-World v copied n 0 (omega arith) (omega arith) in
      (
        push_block (new_data w copied n 0) w.next,
        rw more refl,
        record {
          valid = push_block-World w.next v1;
          reads = record {
            id = w.next;
            contents = record {
              ref_count = 1;
              bytes = copied;
              size = n;
              alloc_size = max (n + 1) 0;
            };
            on = push_block-block (new_data w copied n 0) w.next;
            found = rw (==-true w.next w.next refl) refl;
            size_eq = refl;
            bytes_eq = λ p h. ground arith;
          };
          keeps = λ k m f t. push_block-Keeps (new_data w copied n 0) w.next k m f (keeps k m f t);
        },
      )
  | inr none_of ↦
      let zero_eq : n ≡ 0 = ground arith in rw (none_of, zero_eq) (init_empty-Made garbage source v)
]

-- In a well-formed world a part of a block is copied without a fault to a new block, cut at the end
-- and empty behind it.
pub mid-Made :
    (garbage : ℕ → ℕ) {w : World} {h n : ℕ} {f : ℕ → ℕ} (start count : ℕ)
    → IsWorld w
    → Reads w h n f
    → n < 2 ^ 62
    → (w' : World) × (mid garbage w h start count ≡ some w')
      × Made w w' (min count (n - start)) (λ p. f (start + p))
unfolding mid
mid-Made garbage {w} {h} {n} {f} start count v r small = elim (Bool-cases (leb n start)) [
  | inl behind ↦
      let none_left : min count (n - start) ≡ 0 = ground arith in
      rw (r.on, r.found, r.size_eq, behind, none_left)
        (init_empty-Made garbage (λ p. f (start + p)) v)
  | inr inside ↦
      let (w', e, made) =
        init_data-Made garbage (λ p. r.contents.bytes (start + p)) (min count (n - start)) v
          (omega arith) in
      (
        w',
        rw (r.on, r.found, r.size_eq, inside) e,
        Made-bytes made (λ p p_lt. r.bytes_eq (start + p) (omega arith)),
      )
]

-- In a well-formed world two blocks, not both of them empty, of fewer than 2 ^ 62 bytes in all are
-- put together in a new one without a fault.
pub concat-Made :
    (garbage : ℕ → ℕ) {w : World} {h k n m : ℕ} {f g : ℕ → ℕ}
    → IsWorld w
    → Reads w h n f
    → Reads w k m g
    → 0 < n + m
    → n + m < 2 ^ 62
    → (w' : World) × (concat garbage w h k ≡ some w')
      × Made w w' (n + m) (λ p. if ltb p n then f p else g (p - n))
unfolding concat init_block edit
concat-Made garbage {w} {h} {k} {n} {m} {f} {g} v r s some_bytes small =
    let (v1, keeps) = new_data-World v garbage (n + m) 0 (omega arith) (omega arith) in
    let on = push_block-block made w.next in
    let (valid, reads, others) =
      edit-Reads (length w.blocks) w.next fresh joined (push_block-World w.next v1) on at_next refl
        refl (omega arith) (omega arith) in
    (
      put (push_block made w.next) w.next (some joined),
      rw (r.on, r.found, s.on, s.found, r.size_eq, s.size_eq, not_empty, on, at_next)
          (ground arith),
      record {
        valid = valid;
        reads = record {
          id = reads.id;
          contents = reads.contents;
          on = reads.on;
          found = reads.found;
          size_eq = reads.size_eq;
          bytes_eq =
              λ p p_lt. reads.bytes_eq p p_lt ∙ ground (arith, r.bytes_eq p, s.bytes_eq (p - n));
        };
        keeps = λ i c f t.
            others i c f (λ e. omega (arith, block-lt w.blocks i t.id t.on))
              (push_block-Keeps made w.next i c f (keeps i c f t));
      },
    )
  where
    made : World
    made = new_data w garbage (n + m) 0

    fresh : BlockData
    fresh = record { ref_count = 1; bytes = garbage; size = n + m; alloc_size = max (n + m + 1) 0 }

    joined : BlockData
    joined = closed (written (written fresh 0 r.contents.bytes n) n s.contents.bytes m) (n + m)

    at_next : made.datas w.next ≡ some fresh
    at_next = rw (==-true w.next w.next refl) refl

    not_empty : (n + m == 0) ≡ false
    not_empty = ground arith
