-- ===== src/Block/Lifetimes.antt =====
-- Blocks that come and go: a new copy shares its data, and a block that goes leaves the others alone.
use the_foundation.Base.{
  ℕ, zero, suc, ◌+◌, ◌<◌, Option, none, some, ◌==◌, ==-true, ◌-◌, if◌then◌else◌, List, [], ◌∷◌,
  ◌++◌, length, get_elem?, set, ◌≡◌, ◌≢◌, refl, sym, ap, ◌∙◌, arith, ◌>>=◌, Bool-cases,
  Option-cases, inl, inr, get_elem?-set_ne,
}
use the_foundation.Block.{World, BlockData, block, put, reref, deref}
use the_foundation.Block.Sharing.{
  count, IsWorldWith, IsWorld, base, one_more, Reads, Keeps, block-lt,
}
use the_foundation.Block.References.{KeepsAll, reref-World}
use the_foundation.Block.Dropping.{Dropped, deref-Dropped}
use the_foundation.Block.Edit.{init_copy, push_block, deinit}

count-push :
    (i j : ℕ) (hs : List (Option ℕ))
    → count i (hs ++ (some j ∷ [])) ≡ count i hs + (if j == i then 1 else 0)
unfolding count
count-push i j [] = ground arith
count-push i j (none ∷ hs) = count-push i j hs
count-push i j (some k ∷ hs) = omega (arith, count-push i j hs)

get_elem?-push :
    {A : Type 0} (xs : List A) (a : A) → get_elem? (xs ++ (a ∷ [])) (length xs) ≡ some a
get_elem?-push [] a = refl
get_elem?-push (x ∷ xs) a = get_elem?-push xs a

get_elem?-append_lt :
    {A : Type 0} (xs ys : List A) (i : ℕ) → i < length xs → get_elem? (xs ++ ys) i ≡ get_elem? xs i
get_elem?-append_lt [] ys i h = absurd (omega arith)
get_elem?-append_lt (x ∷ xs) ys zero h = refl
get_elem?-append_lt (x ∷ xs) ys (suc i) h = get_elem?-append_lt xs ys i (omega arith)

count-drop :
    (i h j : ℕ) (hs : List (Option ℕ))
    → (get_elem? hs h >>= λ o. o) ≡ some j
    → count i (set hs h none) + (if j == i then 1 else 0) ≡ count i hs
unfolding count
count-drop i h j [] e = cc
count-drop i zero j (none ∷ hs) e = cc
count-drop i zero j (some k ∷ hs) e = ground arith
count-drop i (suc h) j (none ∷ hs) e = count-drop i h j hs e
count-drop i (suc h) j (some k ∷ hs) e = omega (arith, count-drop i h j hs e)

-- A block that is pushed on data with one reference held for it.
module _ {w : World} (i : ℕ) where
  pub push_block-World : IsWorldWith (one_more i base) w → IsWorld (push_block w i)
  push_block-World v = record {
    counted = λ j d e. ground (arith, v.counted j d e, count-push j i w.blocks);
    live = λ j p. v.live j (ground (arith, p, count-push j i w.blocks));
    empty = v.empty;
    fresh = v.fresh;
    rooted = v.rooted;
  }

pub push_block-block : (w : World) (i : ℕ) → block (push_block w i) (length w.blocks) ≡ some i
push_block-block w i = rw (get_elem?-push w.blocks (some i)) refl

pub push_block-Keeps : (w : World) (i : ℕ) → KeepsAll w (push_block w i)
push_block-Keeps w i k n f t = record {
  id = t.id;
  contents = t.contents;
  on = rw (get_elem?-append_lt w.blocks (some i ∷ []) k (block-lt w.blocks k t.id t.on)) t.on;
  found = t.found;
  size_eq = t.size_eq;
  bytes_eq = t.bytes_eq;
}

-- A copy of a block is a new block that reads the same; no block reads anything else than before.
pub init_copy-Reads :
    {w : World} {h n : ℕ} {f : ℕ → ℕ}
    → IsWorld w
    → Reads w h n f
    → (w' : World) × (init_copy w h ≡ some w')
      × IsWorld w'
      × Reads w' (length w.blocks) n f
      × KeepsAll w w'
unfolding init_copy
init_copy-Reads {w} {h} {n} {f} v r = referred (reref-World v r.id r.contents r.found)
  where
    referred :
        (w1 : World) × (reref w r.id ≡ some w1)
          × IsWorldWith (one_more r.id base) w1
          × KeepsAll w w1
          × (w1.blocks ≡ w.blocks)
        → (w' : World) × (init_copy w h ≡ some w')
          × IsWorld w'
          × Reads w' (length w.blocks) n f
          × KeepsAll w w'
    referred (w1, e1, v1, keeps1, blocks1) = (
      push_block w1 r.id,
      rw (r.on, e1) refl,
      push_block-World r.id v1,
      record {
        id = r.id;
        contents = r1.contents;
        on = rw (← blocks1) (push_block-block w1 r.id);
        found = ap w1.datas (ground (arith, r1.on, on1)) ∙ r1.found;
        size_eq = r1.size_eq;
        bytes_eq = r1.bytes_eq;
      },
      λ k n f t. push_block-Keeps w1 r.id k n f (keeps1 k n f t),
    )
      where
        on1 : block w1 h ≡ some r.id
        on1 = rw blocks1 r.on

        r1 : Reads w1 h n f
        r1 = keeps1 h n f r

abbrev release : World → ℕ → World
release w h = record w { blocks = set w.blocks h none }

deref-release :
    (w : World) (h i : ℕ) → (deref w i >>= λ w'. some (release w' h)) ≡ deref (release w h) i
unfolding deref
deref-release w h i = elim (Option-cases (w.datas i)) [
  | inl e ↦ rw e refl
  | inr (d, e) ↦ elim (Bool-cases (d.ref_count == 1)) [
    | inr other ↦ rw (e, other) refl
    | inl one ↦ elim (Bool-cases (i == 0)) [
      | inl at ↦ rw (e, one, at) refl
      | inr ne ↦ rw (e, one, ne) refl
    ]
  ]
]

-- What is left of a block `h` on the data `i`, which were `d`: the block is gone, and the data have one
-- reference less, or are freed where that was the only one.
pub record Released (w : World) (h i : ℕ) (d : BlockData) (w' : World) : Type 0 where
  pub gone : block w' h ≡ none
  pub blocks_eq : w'.blocks ≡ set w.blocks h none
  pub data_eq :
      w'.datas i
      ≡ (if d.ref_count == 1 then none else some (record d { ref_count = d.ref_count - 1 }))
  pub others : (j : ℕ) → j ≢ i → w'.datas j ≡ w.datas j

get_elem?-set_none :
    (hs : List (Option ℕ)) (h : ℕ) → (get_elem? (set hs h none) h >>= λ o. o) ≡ none
get_elem?-set_none [] h = refl
get_elem?-set_none (x ∷ hs) zero = refl
get_elem?-set_none (x ∷ hs) (suc h) = get_elem?-set_none hs h

-- The count of the data after one reference less.
deref-data :
    (w : World) (i : ℕ) (d : BlockData) (w' : World)
    → w.datas i ≡ some d
    → deref w i ≡ some w'
    → w'.datas i
      ≡ (if d.ref_count == 1 then none else some (record d { ref_count = d.ref_count - 1 }))
unfolding deref
deref-data w i d w' found e = elim (Bool-cases (d.ref_count == 1)) [
  | inl one ↦ elim (Bool-cases (i == 0)) [
    | inl at ↦ cc (rw (found, one, at) at e)
    | inr ne ↦
        let done : put w i none ≡ w' = cc (rw (found, one, ne) at e) in
        rw (one, ← done, ==-true i i refl) refl
  ]
  | inr more ↦
      let done : put w i (some (record d { ref_count = d.ref_count - 1 })) ≡ w' =
        cc (rw (found, more) at e) in
      rw (more, ← done, ==-true i i refl) refl
]

-- In a well-formed world a block that reads something is deinitialised without a fault: the block is
-- gone, and its data have one reference less, or are freed where that was the only one. The world
-- stays well formed, all other data are as they were, and the other blocks read what they read.
pub deinit-Keeps :
    {w : World} {h n : ℕ} {f : ℕ → ℕ}
    → IsWorld w
    → (r : Reads w h n f)
    → (w' : World) × (deinit w h ≡ some w')
      × IsWorld w'
      × Keeps w w' h
      × Released w h r.id r.contents w'
unfolding deinit
deinit-Keeps {w} {h} {n} {f} v r =
    dropped (deref-Dropped r.id released (λ e. omega arith) r.contents r.found)
  where
    released : IsWorldWith (one_more r.id base) (release w h)
    released = record {
      counted = λ i d e. ground (arith, v.counted i d e, count-drop i h r.id w.blocks r.on);
      live = λ i p. v.live i (ground (arith, p, count-drop i h r.id w.blocks r.on));
      empty = v.empty;
      fresh = v.fresh;
      rooted = v.rooted;
    }

    dropped :
        (w' : World) × (deref (release w h) r.id ≡ some w') × Dropped base r.id (release w h) w'
        → (w' : World) × (deinit w h ≡ some w')
          × IsWorld w'
          × Keeps w w' h
          × Released w h r.id r.contents w'
    dropped (w', e, drop) = (
      w',
      rw r.on (deref-release w h r.id ∙ e),
      drop.valid,
      λ k n f ne t. drop.keeps k n f (kept k ne t),
      record {
        gone = rw drop.blocks_eq (get_elem?-set_none w.blocks h);
        blocks_eq = drop.blocks_eq;
        data_eq = deref-data (release w h) r.id r.contents w' r.found e;
        others = drop.others;
      },
    )
      where
        kept : {n : ℕ} {f : ℕ → ℕ} (k : ℕ) → k ≢ h → Reads w k n f → Reads (release w h) k n f
        kept k ne t = record {
          id = t.id;
          contents = t.contents;
          on = rw (get_elem?-set_ne w.blocks {i = h} {j = k} none (λ e. ne (sym e))) t.on;
          found = t.found;
          size_eq = t.size_eq;
          bytes_eq = t.bytes_eq;
        }
