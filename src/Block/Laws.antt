-- ===== src/Block/Laws.antt =====
-- What each operation does to the bytes of its block; the other blocks read what they read.
use the_foundation.Base.{
  ℕ, ◌+◌, ◌-◌, ◌^◌, ◌≤◌, ◌<◌, some, ◌==◌, if◌then◌else◌, ◌&&◌, check, ◌>>◌, ◌≡◌, refl, ap, arith,
  ◌>>=◌, Bool-cases, inl, inr, leb, ltb, min,
}
use the_foundation.Block.{World, written, closed, copy_in, close_at}
use the_foundation.Block.Sharing.{IsWorld, Reads}
use the_foundation.Block.Edit.{remove, push_back, append_data, insert_data, removed_count}
use the_foundation.Block.Changes.{Edited, reserve-Edited, detach-Edited}

-- The bytes after an insertion of `m` bytes at the position `p`.
abbrev pub inserted : (ℕ → ℕ) → (p : ℕ) → (ℕ → ℕ) → (m : ℕ) → ℕ → ℕ
inserted f p source m q =
    if ltb q p then f q else if ltb q (p + m) then source (q - p) else f (q - m)

-- The bytes after `c` bytes at `start` are gone.
abbrev pub without : (ℕ → ℕ) → (start c : ℕ) → ℕ → ℕ
without f start c q = if ltb q start then f q else f (q + c)

module _ (garbage : ℕ → ℕ) {w : World} {h n : ℕ} {f : ℕ → ℕ} (v : IsWorld w)
    (r : Reads w h n f) where
  -- Appending fewer than 2 ^ 62 bytes in all, which lie elsewhere: they follow the old ones, and a null
  -- follows them.
  pub append_data-Edited :
      (source : ℕ → ℕ) (m : ℕ)
      → n + m < 2 ^ 62
      → (w' : World) × (append_data garbage w h source m ≡ some w')
        × Edited w h w' (n + m) (λ p. if ltb p n then f p else source (p - n))
  unfolding append_data
  append_data-Edited source m small =
      reserve-Edited garbage v r (append_data garbage w h source m) (n + m) (n + m)
        (λ e. do e' ← copy_in e e.size source m; close_at e' (e.size + m))
        (λ p. if ltb p n then f p else source (p - n)) (rw (r.on, r.found, r.size_eq) refl) small
        (λ e s b fits room. (
          closed (written e n source m) (n + m),
          ground (arith, s),
          refl,
          refl,
          refl,
          room,
          λ p q. ground (arith, b p),
          ground arith,
        ))

  pub push_back-Edited :
      (value : ℕ)
      → n + 1 < 2 ^ 62
      → (w' : World) × (push_back garbage w h value ≡ some w')
        × Edited w h w' (n + 1) (λ p. if ltb p n then f p else value)
  unfolding push_back
  push_back-Edited value small =
      reserve-Edited garbage v r (push_back garbage w h value) (n + 1) (n + 1)
        (λ e. do e' ← copy_in e e.size (λ q. value) 1; close_at e' (e.size + 1))
        (λ p. if ltb p n then f p else value) (rw (r.on, r.found, r.size_eq) refl) small
        (λ e s b fits room. (
          closed (written e n (λ q. value) 1) (n + 1),
          ground (arith, s),
          refl,
          refl,
          refl,
          room,
          λ p q. ground (arith, b p),
          ground arith,
        ))

  -- In a well-formed world bytes that lie outside of the block are inserted without a fault at a
  -- position inside of it or at its end if there are fewer than 2 ^ 62 bytes in all: the block then
  -- reads its bytes before the position, the new ones, and its others behind them, with a null that
  -- ends them; the world stays well formed, and the other blocks read what they read.
  pub insert_data-Edited :
      (p : ℕ) (source : ℕ → ℕ) (m : ℕ)
      → p ≤ n
      → n + m < 2 ^ 62
      → (w' : World) × (insert_data garbage w h p source m ≡ some w')
        × Edited w h w' (n + m) (inserted f p source m)
  unfolding insert_data
  insert_data-Edited p source m inside small =
      reserve-Edited garbage v r (insert_data garbage w h p source m) (n + m) (n + m)
        (λ e. do
          check (leb p e.size)
          moved ← copy_in e (p + m) (λ q. e.bytes (p + q)) (e.size - p)
          e' ← copy_in moved p source m
          close_at e' (e.size + m))
        (inserted f p source m) (rw (r.on, r.found, r.size_eq) refl) small
        (λ e s b fits room. (
          closed (written (written e (p + m) (λ q. e.bytes (p + q)) (n - p)) p source m) (n + m),
          ground (arith, s),
          refl,
          refl,
          refl,
          room,
          λ q k. insert_bytes e.bytes b p source m q inside k,
          ground arith,
        ))
    where
      insert_bytes :
          (bytes : ℕ → ℕ)
          → ((p : ℕ) → p < n → bytes p ≡ f p)
          → (p : ℕ) (source : ℕ → ℕ) (m q : ℕ) → p ≤ n
          → q < n + m
          → (if q == n + m
              then 0
              else if leb p q && ltb q (p + m)
              then source (q - p)
              else if leb (p + m) q && ltb q (p + m + (n - p))
              then bytes (p + (q - (p + m)))
              else bytes q)
            ≡ inserted f p source m q
      insert_bytes bytes b p source m q inside k = elim (Bool-cases (ltb q p)) [
        | inl before ↦ ground (arith, b q)
        | inr behind ↦ elim (Bool-cases (ltb q (p + m))) [
          | inl within ↦ ground arith
          | inr after ↦
              let place : p + (q - (p + m)) ≡ q - m = ground arith in
              ground (arith, b (q - m), ap bytes place)
        ]
      ]

  -- In a well-formed world the removal of a run that starts inside of the block or at its end, with
  -- start and count below 2 ^ 64 - 1 in sum, has no fault: the run, cut at the end of the block, is
  -- gone, the bytes around it remain in order with a null that ends them, the world stays well
  -- formed, and the other blocks read what they read.
  pub remove-Edited :
      (start count : ℕ)
      → start ≤ n
      → start + count < 2 ^ 64 - 1
      → (w' : World) × (remove garbage w h start count ≡ some w')
        × Edited w h w' (n - min count (n - start)) (without f start (min count (n - start)))
  unfolding remove
  remove-Edited start count inside bounded =
      detach-Edited garbage v r (remove garbage w h start count) (n - c)
        (λ e. do
          check (leb start e.size)
          let c = removed_count e.size start count
          e' ← copy_in e start (λ q. e.bytes (start + c + q)) (e.size - start - c)
          close_at e' (e.size - c))
        (without f start c) refl
        (λ e s b fits room. (
          closed (written e start (λ q. e.bytes (start + c + q)) (n - start - c)) (n - c),
          rw (s, count-eq) (ground arith),
          refl,
          refl,
          refl,
          omega arith,
          λ q k. remove_bytes e.bytes b q k,
          ground arith,
        ))
    where
      c : ℕ
      c = min count (n - start)

      count-eq : removed_count n start count ≡ c
      count-eq = ground arith

      remove_bytes :
          (bytes : ℕ → ℕ)
          → ((p : ℕ) → p < n → bytes p ≡ f p)
          → (q : ℕ) → q < n - c
          → (if q == n - c
              then 0
              else if leb start q && ltb q (start + (n - start - c))
              then bytes (start + c + (q - start))
              else bytes q)
            ≡ without f start c q
      remove_bytes bytes b q k = elim (Bool-cases (ltb q start)) [
        | inl before ↦ ground (arith, b q)
        | inr behind ↦
            let place : start + c + (q - start) ≡ q + c = ground arith in
            ground (arith, b (q + c), ap bytes place)
      ]
