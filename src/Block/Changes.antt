-- ===== src/Block/Changes.antt =====
-- What an operation does that reserves or detaches and then changes the data in place.
use the_foundation.Base.{ℕ, ◌^◌, ◌<◌, Option, some, ◌≡◌, refl, ap, ◌∙◌, arith, ◌>>=◌, ==-true}
use the_foundation.Block.{World, BlockData, put, detach, reserve, edit}
use the_foundation.Block.Sharing.{IsWorld, Reads, Keeps}
use the_foundation.Block.Placing.{edit-Reads}
use the_foundation.Block.Owning.{Owned, detach-Owned, reserve-Owned}

-- The block `h` reads `n` bytes `f`, the other blocks what they read.
pub record Changed (w : World) (h : ℕ) (w' : World) (n : ℕ) (f : ℕ → ℕ) : Type 0 where
  pub valid : IsWorld w'
  pub reads : Reads w' h n f
  pub keeps : Keeps w w' h

-- There is a null behind the bytes besides.
pub record Edited (w : World) (h : ℕ) (w' : World) (n : ℕ) (f : ℕ → ℕ) : Type 0 where
  pub changed : Changed w h w' n f
  pub open changed use *
  pub null : reads.contents.bytes n ≡ 0

-- What a block reads, by other words for its bytes.
pub Edited-bytes :
    {w w' : World} {h n : ℕ} {f g : ℕ → ℕ}
    → ((p : ℕ) → p < n → f p ≡ g p)
    → Edited w h w' n f
    → Edited w h w' n g
Edited-bytes same e = record {
  changed = record {
    valid = e.valid;
    reads = record {
      id = e.reads.id;
      contents = e.reads.contents;
      on = e.reads.on;
      found = e.reads.found;
      size_eq = e.reads.size_eq;
      bytes_eq = λ p h. e.reads.bytes_eq p h ∙ same p h;
    };
    keeps = e.keeps;
  };
  null = e.null;
}

module _ {w w1 : World} {h m n : ℕ} {f : ℕ → ℕ} (o : Owned w w1 h m n f) where
  pub edit-Changed :
      (g : BlockData → Option BlockData) (d' : BlockData) (n' : ℕ) (f' : ℕ → ℕ)
      → g o.contents ≡ some d'
      → d'.ref_count ≡ o.contents.ref_count
      → d'.alloc_size ≡ o.contents.alloc_size
      → d'.size ≡ n'
      → n' < o.contents.alloc_size
      → ((p : ℕ) → p < n' → d'.bytes p ≡ f' p)
      → (w' : World) × (edit w1 h g ≡ some w')
        × (c : Changed w h w' n' f') × (c.reads.contents ≡ d')
  unfolding edit
  edit-Changed g d' n' f' run refs alloc size room bytes =
      let (valid, reads, keeps) =
        edit-Reads h o.id o.contents d' o.valid o.on o.found o.alone (refs ∙ o.alone)
          (omega (arith, size, alloc)) (omega (arith, alloc, o.small)) in
      (
        put w1 o.id (some d'),
        rw (o.on, o.found, run) refl,
        record {
          valid = valid;
          reads = record {
            id = o.id;
            contents = d';
            on = o.on;
            found = rw (==-true o.id o.id refl) refl;
            size_eq = size;
            bytes_eq = bytes;
          };
          keeps = λ k n f ne s. keeps k n f ne (o.keeps k n f ne s);
        },
        refl,
      )

  pub edit-Edited :
      (g : BlockData → Option BlockData) (d' : BlockData) (n' : ℕ) (f' : ℕ → ℕ)
      → g o.contents ≡ some d'
      → d'.ref_count ≡ o.contents.ref_count
      → d'.alloc_size ≡ o.contents.alloc_size
      → d'.size ≡ n'
      → n' < o.contents.alloc_size
      → ((p : ℕ) → p < n' → d'.bytes p ≡ f' p)
      → d'.bytes n' ≡ 0
      → (w' : World) × (edit w1 h g ≡ some w') × Edited w h w' n' f'
  edit-Edited g d' n' f' run refs alloc size room bytes null =
      let (w', e, c, same) = edit-Changed g d' n' f' run refs alloc size room bytes in
      (w', e, record { changed = c; null = ap (λ d. d.bytes n') same ∙ null })

module _ (garbage : ℕ → ℕ) {w : World} {h n : ℕ} {f : ℕ → ℕ} (v : IsWorld w)
    (r : Reads w h n f) where
  -- An operation that reserves room, and one that detaches only, before they change the data in place.
  pub after_reserve :
      (run : Option World) (m : ℕ) (g : BlockData → Option BlockData) (P : World → Type 0)
      → run ≡ (reserve garbage w h m >>= λ w1. edit w1 h g)
      → m < 2 ^ 62
      → ((w1 : World) → Owned w w1 h m n f → (w2 : World) × (edit w1 h g ≡ some w2) × P w2)
      → (w2 : World) × (run ≡ some w2) × P w2
  after_reserve run m g P e small k = reserved (reserve-Owned garbage m v r small)
    where
      reserved :
          (w1 : World) × (reserve garbage w h m ≡ some w1) × Owned w w1 h m n f
          → (w2 : World) × (run ≡ some w2) × P w2
      reserved (w1, e1, o) =
          let (w2, e2, p) = k w1 o in (w2, e ∙ ap (λ t. t >>= λ w1. edit w1 h g) e1 ∙ e2, p)

  pub after_detach :
      (run : Option World) (g : BlockData → Option BlockData) (P : World → Type 0)
      → run ≡ (detach garbage w h 0 >>= λ w1. edit w1 h g)
      → ((w1 : World) → Owned w w1 h n n f → (w2 : World) × (edit w1 h g ≡ some w2) × P w2)
      → (w2 : World) × (run ≡ some w2) × P w2
  after_detach run g P e k = detached (detach-Owned garbage v r 0 (omega arith))
    where
      detached :
          (w1 : World) × (detach garbage w h 0 ≡ some w1) × Owned w w1 h n n f
          → (w2 : World) × (run ≡ some w2) × P w2
      detached (w1, e1, o) =
          let (w2, e2, p) = k w1 o in (w2, e ∙ ap (λ t. t >>= λ w1. edit w1 h g) e1 ∙ e2, p)

  -- A change in place that gives `n'` bytes `f'` of data with the room for `m`, with a null behind them.
  abbrev pub Gives : (BlockData → Option BlockData) → (m n' : ℕ) → (ℕ → ℕ) → Type 0
  Gives g m n' f' =
      (e : BlockData)
      → e.size ≡ n
      → ((p : ℕ) → p < n → e.bytes p ≡ f p)
      → n < e.alloc_size
      → m < e.alloc_size
      → (d' : BlockData) × (g e ≡ some d')
        × (d'.ref_count ≡ e.ref_count)
        × (d'.alloc_size ≡ e.alloc_size)
        × (d'.size ≡ n')
        × (n' < e.alloc_size)
        × ((p : ℕ) → p < n' → d'.bytes p ≡ f' p)
        × (d'.bytes n' ≡ 0)

  pub given :
      {w1 : World} {m : ℕ} (o : Owned w w1 h m n f) (g : BlockData → Option BlockData) (n' : ℕ)
      (f' : ℕ → ℕ)
      → Gives g m n' f'
      → (w2 : World) × (edit w1 h g ≡ some w2) × Edited w h w2 n' f'
  given o g n' f' gives =
      let (d', run, refs, alloc, size, room, bytes, null) =
        gives o.contents o.size_eq o.bytes_eq o.fits o.room in
      edit-Edited o g d' n' f' run refs alloc size room bytes null

  pub reserve-Edited :
      (run : Option World) (m n' : ℕ) (g : BlockData → Option BlockData) (f' : ℕ → ℕ)
      → run ≡ (reserve garbage w h m >>= λ w1. edit w1 h g)
      → m < 2 ^ 62
      → Gives g m n' f'
      → (w2 : World) × (run ≡ some w2) × Edited w h w2 n' f'
  reserve-Edited run m n' g f' e small gives =
      after_reserve run m g (λ w2. Edited w h w2 n' f') e small (λ w1 o. given o g n' f' gives)

  pub detach-Edited :
      (run : Option World) (n' : ℕ) (g : BlockData → Option BlockData) (f' : ℕ → ℕ)
      → run ≡ (detach garbage w h 0 >>= λ w1. edit w1 h g)
      → Gives g n n' f'
      → (w2 : World) × (run ≡ some w2) × Edited w h w2 n' f'
  detach-Edited run n' g f' e gives =
      after_detach run g (λ w2. Edited w h w2 n' f') e (λ w1 o. given o g n' f' gives)
