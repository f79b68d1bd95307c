-- ===== src/Block/Resizing.antt =====
-- Operations that set all of the bytes, the size, or some bytes in place.
use the_foundation.Base.{
  ℕ, zero, suc, ◌+◌, ◌-◌, ◌^◌, ◌≤◌, ◌<◌, Option, some, ◌==◌, if◌then◌else◌, ◌&&◌, check, ◌>>◌, ◌≡◌,
  refl, arith, ◌>>=◌, Bool-cases, inl, inr, leb, ltb, lt→ltb, ltb→lt, max, min,
}
use the_foundation.Block.{World, BlockData, detach, written, closed, copy_in, close_at}
use the_foundation.Block.Sharing.{IsWorld, Reads}
use the_foundation.Block.Owning.{Owned, detach-Owned}
use the_foundation.Block.Edit.{resize, truncate, fill, set_sub_data, replace, replaced}
use the_foundation.Block.Changes.{
  Changed, Edited, Edited-bytes, after_reserve, reserve-Edited, detach-Edited, edit-Changed,
}

module _ (garbage : ℕ → ℕ) {w : World} {h n : ℕ} {f : ℕ → ℕ} (v : IsWorld w)
    (r : Reads w h n f) where
  -- A block that gets shorter.
  truncate-shorter :
      (m : ℕ) → m < n → (w' : World) × (truncate garbage w h m ≡ some w') × Edited w h w' m f
  unfolding truncate
  truncate-shorter m less =
      detach-Edited garbage v r (truncate garbage w h m) m (λ e. close_at e (min e.size m)) f
        (rw (r.on, r.found, r.size_eq, lt→ltb m n less) refl)
        (λ e s b fits room. (
          closed e m,
          ground (arith, s),
          refl,
          refl,
          refl,
          omega arith,
          λ p q. ground (arith, b p),
          ground arith,
        ))

  -- In a well-formed world a resize to fewer than 2 ^ 62 bytes has no fault: the block keeps the
  -- bytes that remain, reads zeros in the new ones, and has a null behind them; the world stays well
  -- formed, and the other blocks read what they read.
  pub resize-Edited :
      (m : ℕ)
      → m < 2 ^ 62
      → (w' : World) × (resize garbage w h m ≡ some w')
        × Edited w h w' m (λ p. if ltb p n then f p else 0)
  unfolding resize
  resize-Edited m small = elim (Bool-cases (ltb m n)) [
    | inl less ↦
        let (w', e, edited) = truncate-shorter m (ltb→lt m n less) in
        (w', rw (r.on, r.found, r.size_eq, less) e, Edited-bytes (λ p q. ground arith) edited)
    | inr more ↦
        reserve-Edited garbage v r (resize garbage w h m) m m
          (λ e. copy_in (record e { size = m }) e.size (λ q. 0) (m - e.size + 1))
          (λ p. if ltb p n then f p else 0) (rw (r.on, r.found, r.size_eq, more) refl) small
          (λ e s b fits room. (
            written (record e { size = m }) n (λ q. 0) (m - n + 1),
            ground (arith, s),
            refl,
            refl,
            refl,
            room,
            λ p q. ground (arith, b p),
            ground arith,
          ))
  ]

  pub fill-Edited :
      (value : ℕ) → (w' : World) × (fill garbage w h value ≡ some w') × Edited w h w' n (λ p. value)
  unfolding fill
  fill-Edited value =
      detach-Edited garbage v r (fill garbage w h value) n
        (λ e. do e' ← copy_in e 0 (λ q. value) e.size; close_at e' e.size) (λ p. value) refl
        (λ e s b fits room. (
          closed (written e 0 (λ q. value) n) n,
          ground (arith, s),
          refl,
          refl,
          refl,
          room,
          λ p q. ground arith,
          ground arith,
        ))

  -- Overwriting bytes from a position inside of the block or at its end, which may make it longer.
  pub set_sub_data-Changed :
      (p : ℕ) (source : ℕ → ℕ) (m : ℕ)
      → p ≤ n
      → p + m < 2 ^ 62
      → (w' : World) × (set_sub_data garbage w h p source m ≡ some w')
        × Changed w h w'
            (max n (p + m))
            (λ q. if leb p q && ltb q (p + m) then source (q - p) else f q)
  unfolding set_sub_data
  set_sub_data-Changed p source m inside small =
      after_reserve garbage v r (set_sub_data garbage w h p source m) (p + m) edited
        (λ w2. Changed w h w2 (max n (p + m)) bytes) refl small
        (λ w1 o. elim (Bool-cases (max n (p + m) == p + m)) [
          | inl longer ↦
              let (w2, e, c, same) =
                edit-Changed o edited (closed (written o.contents p source m) (p + m))
                  (max n (p + m)) bytes (ground (arith, o.size_eq, o.room)) refl refl (ground arith)
                  (omega (arith, o.room, o.fits)) (λ q k. ground (arith, o.bytes_eq q)) in
              (w2, e, c)
          | inr shorter ↦
              let (w2, e, c, same) =
                edit-Changed o edited (written o.contents p source m) (max n (p + m)) bytes
                  (ground (arith, o.size_eq, o.room)) refl refl (ground (arith, o.size_eq))
                  (omega (arith, o.room, o.fits)) (λ q k. ground (arith, o.bytes_eq q)) in
              (w2, e, c)
        ])
    where
      edited : BlockData → Option BlockData
      edited e = do
        check (leb p e.size)
        e' ← copy_in e p source m
        if max e.size (p + m) == p + m then close_at e' (p + m) else some e'

      bytes : ℕ → ℕ
      bytes q = if leb p q && ltb q (p + m) then source (q - p) else f q

  -- Replacing a byte by another everywhere, and how often it stood there.
  pub replace-Changed :
      (old new : ℕ)
      → (w' : World) × (replace garbage w h old new ≡ some (replaced old f n, w'))
        × Changed w h w' n (λ p. if f p == old then new else f p)
  unfolding replace replaced
  replace-Changed old new = detached (detach-Owned garbage v r 0 (omega arith))
    where
      replaced-eq :
          (g : ℕ → ℕ) (k : ℕ) → ((p : ℕ) → p < k → g p ≡ f p) → replaced old g k ≡ replaced old f k
      replaced-eq g zero e = refl
      replaced-eq g (suc k) e =
          rw (e k (omega arith), replaced-eq g k (λ p h. e p (omega arith))) refl

      detached :
          (w1 : World) × (detach garbage w h 0 ≡ some w1) × Owned w w1 h n n f
          → (w' : World) × (replace garbage w h old new ≡ some (replaced old f n, w'))
            × Changed w h w' n (λ p. if f p == old then new else f p)
      detached (w1, e1, o) =
          let (w2, e2, c, same) =
            edit-Changed o
              (λ e. copy_in e 0 (λ q. if e.bytes q == old then new else e.bytes q) e.size)
              (written o.contents 0
                (λ q. if o.contents.bytes q == old then new else o.contents.bytes q) n)
              n (λ p. if f p == old then new else f p) (ground (arith, o.size_eq, o.fits)) refl refl
              o.size_eq o.fits (λ p q. ground (arith, o.bytes_eq p)) in
          (
            w2,
            rw (e1, o.on, o.found, o.size_eq, e2, replaced-eq o.contents.bytes n o.bytes_eq) refl,
            c,
          )
