-- ===== src/Block/Sharing.antt =====
-- When the counts of references are right, and what a block reads.
use the_foundation.Base.{
  ℕ, zero, suc, ◌+◌, ◌^◌, ◌≤◌, ◌<◌, Option, none, some, List, [], ◌∷◌, ◌==◌, if◌then◌else◌,
  get_elem?, set, length, ◌≡◌, ◌≢◌, refl, ap, arith, ◌>>=◌, Bool-cases, inl, inr, leb, leb→le, ltb,
  ltb→lt,
}
use the_foundation.Block.{World, BlockData, block}

-- The blocks that are on the data `i`.
unfoldable pub count : ℕ → List (Option ℕ) → ℕ
count i [] = 0
count i (none ∷ hs) = count i hs
count i (some j ∷ hs) = count i hs + (if j == i then 1 else 0)

-- Data are counted, have room for a null behind them, and are in no more memory than there is.
pub record IsData (refs : ℕ) (d : BlockData) : Type 0 where
  pub counted : d.ref_count ≡ refs
  pub fits : d.size < d.alloc_size
  pub small : d.alloc_size ≤ 2 ^ 63

-- The references to each of the data: those of blocks, and those that are held besides.
pub record IsWorldWith (held : ℕ → ℕ) (w : World) : Type 0 where
  pub counted : (i : ℕ) (d : BlockData) → w.datas i ≡ some d → IsData (count i w.blocks + held i) d
  pub live : (i : ℕ) → 0 < count i w.blocks + held i → (d : BlockData) × (w.datas i ≡ some d)
  pub empty : (d : BlockData) → w.datas 0 ≡ some d → d.size ≡ 0
  pub fresh : (i : ℕ) → w.next ≤ i → w.datas i ≡ none
  pub rooted : (d : BlockData) × (w.datas 0 ≡ some d)

-- The program holds one reference to the empty data.
abbrev pub base : ℕ → ℕ
base i = if i == 0 then 1 else 0

abbrev pub IsWorld : World → Type 0
IsWorld w = IsWorldWith base w

-- One reference more.
abbrev pub one_more : ℕ → (ℕ → ℕ) → ℕ → ℕ
one_more i held j = held j + (if j == i then 1 else 0)

-- A block with the size `n` and the bytes `f`.
pub record Reads (w : World) (h n : ℕ) (f : ℕ → ℕ) : Type 0 where
  pub id : ℕ
  pub contents : BlockData
  pub on : block w h ≡ some id
  pub found : w.datas id ≡ some contents
  pub size_eq : contents.size ≡ n
  pub bytes_eq : (p : ℕ) → p < n → contents.bytes p ≡ f p

-- All other blocks read what they read.
abbrev pub Keeps : World → World → ℕ → Type 0
Keeps w w' h = (k n : ℕ) (f : ℕ → ℕ) → k ≢ h → Reads w k n f → Reads w' k n f

pub count-set :
    (i v h j : ℕ) (hs : List (Option ℕ))
    → (get_elem? hs h >>= λ o. o) ≡ some j
    → count i (set hs h (some v)) + (if j == i then 1 else 0)
      ≡ count i hs + (if v == i then 1 else 0)
unfolding count
count-set i v h j [] e = cc
count-set i v zero j (none ∷ hs) e = cc
count-set i v zero j (some k ∷ hs) e = ground arith
count-set i v (suc h) j (none ∷ hs) e = count-set i v h j hs e
count-set i v (suc h) j (some k ∷ hs) e = omega (arith, count-set i v h j hs e)

pub count-pos :
    (h i : ℕ) (hs : List (Option ℕ)) → (get_elem? hs h >>= λ o. o) ≡ some i → 0 < count i hs
unfolding count
count-pos h i [] e = cc
count-pos zero i (none ∷ hs) e = cc
count-pos zero i (some k ∷ hs) e = ground arith
count-pos (suc h) i (none ∷ hs) e = count-pos h i hs e
count-pos (suc h) i (some k ∷ hs) e = omega (arith, count-pos h i hs e)

pub block-lt :
    (hs : List (Option ℕ)) (h i : ℕ) → (get_elem? hs h >>= λ o. o) ≡ some i → h < length hs
block-lt [] h i e = cc
block-lt (o ∷ hs) zero i e = omega arith
block-lt (o ∷ hs) (suc h) i e = omega (arith, block-lt hs h i e)

-- With one block on the data, no other block is on them.
pub count-alone :
    (h k i : ℕ) (hs : List (Option ℕ))
    → (get_elem? hs h >>= λ o. o) ≡ some i
    → (get_elem? hs k >>= λ o. o) ≡ some i
    → count i hs ≡ 1
    → k ≡ h
unfolding count
count-alone h k i [] e e' one = cc
count-alone zero zero i (o ∷ hs) e e' one = refl
count-alone zero (suc k) i (none ∷ hs) e e' one = cc
count-alone zero (suc k) i (some j ∷ hs) e e' one = ground (arith, count-pos k i hs e')
count-alone (suc h) zero i (none ∷ hs) e e' one = cc
count-alone (suc h) zero i (some j ∷ hs) e e' one = ground (arith, count-pos h i hs e)
count-alone (suc h) (suc k) i (none ∷ hs) e e' one = ap suc (count-alone h k i hs e e' one)
count-alone (suc h) (suc k) i (some j ∷ hs) e e' one =
    ap suc (count-alone h k i hs e e' (ground (arith, count-pos h i hs e)))

module _ {w : World} {held : ℕ → ℕ} (v : IsWorldWith held w) where
  -- Data that are there are not fresh.
  pub lt-next : (i : ℕ) (d : BlockData) → w.datas i ≡ some d → i < w.next
  lt-next i d e = elim (Bool-cases (leb w.next i)) [
    | inl h ↦ cc (v.fresh i (leb→le w.next i h))
    | inr h ↦ ground arith
  ]

  -- Fresh data have no references.
  pub refs-fresh : (i : ℕ) → w.next ≤ i → count i w.blocks + held i ≡ 0
  refs-fresh i h = elim (Bool-cases (ltb 0 (count i w.blocks + held i))) [
    | inl e ↦ let (d, found) = v.live i (ltb→lt 0 (count i w.blocks + held i) e) in cc (v.fresh i h)
    | inr e ↦ ground arith
  ]

  pub next-pos : 0 < w.next
  next-pos = let (d, found) = v.rooted in omega (arith, lt-next 0 d found)
