-- ===== src/Block/Copies.antt =====
-- The operations that move references only: a copy reads what the original reads, and so does every
-- other block.
use the_foundation.Base.{
  ℕ, ◌+◌, ◌-◌, ◌^◌, ◌<◌, Option, none, some, false, ◌==◌, ==_iff, if◌then◌else◌, get_elem?, ◌≡◌,
  ◌≢◌, refl, sym, ap, ◌∙◌, arith, ◌>>=◌, Bool-cases, inl, inr, ◌&&◌, ltb,
}
use the_foundation.Block.{World, block, assign, reref, deref}
use the_foundation.Block.Sharing.{
  count-pos, count-alone, IsWorldWith, IsWorld, base, one_more, Reads,
}
use the_foundation.Block.References.{KeepsAll, reref-World}
use the_foundation.Block.Dropping.{Dropped, deref-Dropped}
use the_foundation.Block.Placing.{assign-World, assign-Keeps, assign-block, deref-assign}
use the_foundation.Block.Edit.{set_block, clear, append, append_data}
use the_foundation.Block.Changes.{Changed, Edited, Edited-bytes}
use the_foundation.Block.Laws.{append_data-Edited}

-- A step that cannot fail, between two that can.
bind-some :
    {A B C : Type 0} (m : Option A) (f : A → B) (k : B → Option C)
    → (m >>= λ t. k (f t)) ≡ ((m >>= λ t. some (f t)) >>= k)
bind-some none f k = refl
bind-some (some a) f k = refl

-- A block on data that another block reads.
assign-Reads :
    {w : World} {h i k n j : ℕ} {f : ℕ → ℕ}
    → block w h ≡ some i
    → Reads w k n f
    → block w k ≡ some j
    → Reads (assign w h j) h n f
assign-Reads {w} {h} {i} {k} {n} {j} {f} on r onk = record {
  id = j;
  contents = r.contents;
  on = assign-block w h i j on;
  found = ap w.datas (ground (arith, r.on, onk)) ∙ r.found;
  size_eq = r.size_eq;
  bytes_eq = r.bytes_eq;
}

-- In a well-formed world a block is set to another one, or to itself, without a fault: it then reads
-- what the other reads, the world stays well formed, and the other blocks read what they read.
pub set_block-Changed :
    {w : World} {h k n m : ℕ} {f g : ℕ → ℕ}
    → IsWorld w
    → Reads w h n f
    → Reads w k m g
    → (w' : World) × (set_block w h k ≡ some w') × Changed w h w' m g
unfolding set_block
set_block-Changed {w} {h} {k} {n} {m} {f} {g} v r s = elim (Bool-cases (r.id == s.id)) [
  | inl same ↦ (
    w,
    rw (r.on, s.on, same) refl,
    record {
      valid = v;
      reads = record {
        id = s.id;
        contents = s.contents;
        on = r.on ∙ ap some ((==_iff r.id s.id).0 same);
        found = s.found;
        size_eq = s.size_eq;
        bytes_eq = s.bytes_eq;
      };
      keeps = λ k n f ne t. t;
    },
  )
  | inr other ↦ referred other (reref-World v s.id s.contents s.found)
]
  where
    referred :
        (r.id == s.id) ≡ false
        → (w1 : World) × (reref w s.id ≡ some w1)
          × IsWorldWith (one_more s.id base) w1
          × KeepsAll w w1
          × (w1.blocks ≡ w.blocks)
        → (w' : World) × (set_block w h k ≡ some w') × Changed w h w' m g
    referred other (w1, e1, v1, keeps1, blocks1) = dropped (
        deref-Dropped r.id (assign-World w1 h r.id s.id on1 base v1) (λ e. omega arith) r1.contents
          (ap w1.datas (ground (arith, r1.on, on1)) ∙ r1.found))
      where
        on1 : block w1 h ≡ some r.id
        on1 = rw blocks1 r.on

        r1 : Reads w1 h n f
        r1 = keeps1 h n f r

        dropped :
            (w' : World) × (deref (assign w1 h s.id) r.id ≡ some w')
              × Dropped base r.id (assign w1 h s.id) w'
            → (w' : World) × (set_block w h k ≡ some w') × Changed w h w' m g
        dropped (w', e', drop) = (
          w',
          rw (r.on, s.on, other, e1, deref-assign w1 h r.id s.id) e',
          record {
            valid = drop.valid;
            reads = drop.keeps h m g (
                assign-Reads on1 (keeps1 k m g s)
                  (ap (λ b. get_elem? b k >>= λ o. o) blocks1 ∙ s.on));
            keeps = λ j n f ne t.
                drop.keeps j n f (assign-Keeps w1 h r.id s.id on1 j n f ne (keeps1 j n f t));
          },
        )

-- In a well-formed world the bytes of another block, which may share the data, are appended without
-- a fault if there are fewer than 2 ^ 62 bytes in all: the block then reads its bytes and those of
-- the other behind them, with a null that ends them, the world stays well formed, and the other
-- blocks read what they read.
pub append-Edited :
    (garbage : ℕ → ℕ) {w : World} {h k n m : ℕ} {f g : ℕ → ℕ}
    → IsWorld w
    → Reads w h n f
    → Reads w k m g
    → k ≢ h
    → n + m < 2 ^ 62
    → (w' : World) × (append garbage w h k ≡ some w')
      × Edited w h w' (n + m) (λ p. if ltb p n then f p else g (p - n))
unfolding append
append-Edited garbage {w} {h} {k} {n} {m} {f} {g} v r s ne small =
    let (w', e, edited) = append_data-Edited garbage v r s.contents.bytes m small in
    appended w' e edited
  where
    apart : (r.id == s.id && r.contents.ref_count == 1) ≡ false
    apart = elim (Bool-cases (r.id == s.id)) [
      | inr other ↦ rw other refl
      | inl same ↦ elim (Bool-cases (r.contents.ref_count == 1)) [
        | inr more ↦ rw (same, more) refl
        | inl one ↦ absurd (
            ne (
              count-alone h k r.id w.blocks r.on (s.on ∙ ap some (sym ((==_iff r.id s.id).0 same)))
                (ground
                  (arith, v.counted r.id r.contents r.found, count-pos h r.id w.blocks r.on))))
      ]
    ]

    appended :
        (w' : World)
        → append_data garbage w h s.contents.bytes m ≡ some w'
        → Edited w h w' (n + m) (λ p. if ltb p n then f p else s.contents.bytes (p - n))
        → (w' : World) × (append garbage w h k ≡ some w')
          × Edited w h w' (n + m) (λ p. if ltb p n then f p else g (p - n))
    appended w' e edited = (
      w',
      rw (r.on, s.on, r.found, s.found, s.size_eq, apart) e,
      Edited-bytes (λ p q. ground (arith, s.bytes_eq (p - n))) edited,
    )

-- The world does not depend on how the references held are written.
held-eq :
    {w : World} {held held' : ℕ → ℕ}
    → ((i : ℕ) → held i ≡ held' i)
    → IsWorldWith held w
    → IsWorldWith held' w
held-eq same v = record {
  counted = λ i d e. ground (arith, v.counted i d e, same i);
  live = λ i h. v.live i (omega (arith, same i));
  empty = v.empty;
  fresh = v.fresh;
  rooted = v.rooted;
}

-- Clearing a block puts it on the empty data.
pub clear-Changed :
    {w : World} {h n : ℕ} {f : ℕ → ℕ}
    → IsWorld w
    → Reads w h n f
    → (g : ℕ → ℕ) → (w' : World) × (clear w h ≡ some w') × Changed w h w' 0 g
unfolding clear
clear-Changed {w} {h} {n} {f} v r g = dropped (
    deref-Dropped r.id moved
      (λ e. omega (arith, count-pos h 0 (assign w h 0).blocks (assign-block w h r.id 0 r.on)))
      r.contents r.found)
  where
    none_held : ℕ → ℕ
    none_held i = 0

    moved : IsWorldWith (one_more r.id none_held) (assign w h 0)
    moved = assign-World w h r.id 0 r.on none_held (held-eq (λ i. ground arith) v)

    dropped :
        (w1 : World) × (deref (assign w h 0) r.id ≡ some w1)
          × Dropped none_held r.id (assign w h 0) w1
        → (w' : World) × (clear w h ≡ some w') × Changed w h w' 0 g
    dropped (w1, e1, drop) =
        referred (reref-World drop.valid 0 drop.valid.rooted.0 drop.valid.rooted.1)
      where
        on1 : block w1 h ≡ some 0
        on1 = rw drop.blocks_eq (assign-block w h r.id 0 r.on)

        empty : Reads w1 h 0 g
        empty = record {
          id = 0;
          contents = drop.valid.rooted.0;
          on = on1;
          found = drop.valid.rooted.1;
          size_eq = drop.valid.empty drop.valid.rooted.0 drop.valid.rooted.1;
          bytes_eq = λ p q. absurd (omega arith);
        }

        referred :
            (w2 : World) × (reref w1 0 ≡ some w2)
              × IsWorldWith (one_more 0 none_held) w2
              × KeepsAll w1 w2
              × (w2.blocks ≡ w1.blocks)
            → (w' : World) × (clear w h ≡ some w') × Changed w h w' 0 g
        referred (w2, e2, v2, keeps2, blocks2) = (
          w2,
          rw r.on (
              bind-some (deref w r.id) (λ t. assign t h 0) (λ t. reref t 0)
              ∙ ap (λ t. t >>= λ x. reref x 0) (deref-assign w h r.id 0 ∙ e1)
              ∙ e2),
          record {
            valid = held-eq (λ i. ground arith) v2;
            reads = keeps2 h 0 g empty;
            keeps = λ k n f ne t.
                keeps2 k n f (drop.keeps k n f (assign-Keeps w h r.id 0 r.on k n f ne t));
          },
        )
