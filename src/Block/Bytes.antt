-- ===== src/Block/Bytes.antt =====
-- Single bytes, and all bytes at once.
use the_foundation.Base.{
  ℕ, ◌-◌, ◌^◌, ◌<◌, some, ltb, lt→ltb, ◌==◌, if◌then◌else◌, check, ◌>>=◌, ◌>>◌, ==-false, ◌≡◌, refl,
  arith,
}
use the_foundation.Block.{World, written, closed, copy_in, close_at}
use the_foundation.Block.Sharing.{IsWorld, Reads}
use the_foundation.Block.Changes.{
  Changed, Edited, reserve-Edited, detach-Edited, after_detach, edit-Changed,
}
use the_foundation.Block.Edit.{pop_back, set_byte, set_data}

module _ (garbage : ℕ → ℕ) {w : World} {h n : ℕ} {f : ℕ → ℕ} (v : IsWorld w)
    (r : Reads w h n f) where
  -- The last byte is dropped, if there is one.
  pub pop_back-Edited :
      0 < n → (w' : World) × (pop_back garbage w h ≡ some w') × Edited w h w' (n - 1) f
  unfolding pop_back
  pop_back-Edited more =
      detach-Edited garbage v r (pop_back garbage w h) (n - 1)
        (λ e. if ltb 0 e.size then close_at e (e.size - 1) else some e) f refl
        (λ e s b fits room. (
          closed e (n - 1),
          rw (s, lt→ltb 0 n more) (ground arith),
          refl,
          refl,
          refl,
          omega arith,
          λ p q. ground (arith, b p),
          ground arith,
        ))

  -- One byte is replaced.
  pub set_byte-Changed :
      (p value : ℕ)
      → p < n
      → (w' : World) × (set_byte garbage w h p value ≡ some w')
        × Changed w h w' n (λ q. if q == p then value else f q)
  unfolding set_byte
  set_byte-Changed p value inside =
      after_detach garbage v r (set_byte garbage w h p value)
        (λ e. do check (ltb p e.size); copy_in e p (λ q. value) 1)
        (λ w2. Changed w h w2 n (λ q. if q == p then value else f q)) refl
        (λ w1 o.
          let (w2, e, c, same) =
            edit-Changed o (λ e. do check (ltb p e.size); copy_in e p (λ q. value) 1)
              (written o.contents p (λ q. value) 1) n (λ q. if q == p then value else f q)
              (ground (arith, o.size_eq, o.fits)) refl refl o.size_eq o.fits
              (λ q k. ground (arith, o.bytes_eq q)) in
          (w2, e, c))

  -- All bytes are replaced by some that lie elsewhere.
  pub set_data-Edited :
      (source : ℕ → ℕ) (m : ℕ)
      → 0 < m
      → m < 2 ^ 62
      → (w' : World) × (set_data garbage w h source m ≡ some w') × Edited w h w' m source
  unfolding set_data
  set_data-Edited source m some_bytes small =
      reserve-Edited garbage v r (set_data garbage w h source m) m m
        (λ e. do e' ← copy_in e 0 source m; close_at e' m) source
        (rw (==-false m 0 (λ e. omega arith)) refl) small
        (λ e s b fits room. (
          closed (written e 0 source m) m,
          ground (arith, s),
          refl,
          refl,
          refl,
          room,
          λ p q. ground arith,
          ground arith,
        ))
