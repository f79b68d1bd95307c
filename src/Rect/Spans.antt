-- ===== src/Rect/Spans.antt =====
-- The extent of a rectangle along an axis.
use the_foundation.Base.{
  ℕ, ◌+◌, ◌-◌, ◌^◌, ◌≤◌, ◌<◌, min, max, true, ◌≡◌, refl, arith, ◌↔◌, Bool-cases, inl, inr,
}
use the_foundation.Vec2.{Int2}
use the_foundation.Vec2.Ints.{
  offset, add_int, sub_int, lt_int, min_int, max_int, offset-add_int, sub_int-eq, offset-min_int,
  offset-max_int,
}
use the_foundation.Rect.{Rect, contains}

-- An extent that is not negative, and whose end does not overflow.
pub record IsSpan (start len : ℕ) : Type 0 where
  pub start_word : start < 2 ^ 32
  pub len_small : len < 2 ^ 31
  pub end_fits : offset start + len < 2 ^ 32

pub record IsRect (d : Rect) : Type 0 where
  pub across : IsSpan d.pos.x d.size.x
  pub down : IsSpan d.pos.y d.size.y

-- A coordinate is in an extent.
abbrev pub In : (start len q : ℕ) → Type 0
In start len q = (offset start ≤ offset q) × (offset q < offset start + len)

abbrev pub Inside : Rect → Int2 → Type 0
Inside d p = In d.pos.x d.size.x p.x × In d.pos.y d.size.y p.y

pub offset-end :
    (start len : ℕ) → IsSpan start len → offset (add_int start len) ≡ offset start + len
offset-end start len s = offset-add_int start len s.start_word s.len_small s.end_fits

pub contains_iff : (d : Rect) → IsRect d → (p : Int2) → (contains d p ≡ true) ↔ Inside d p
unfolding contains
contains_iff d v p =
    let ex = offset-end d.pos.x d.size.x v.across in
    let ey = offset-end d.pos.y d.size.y v.down in rw (ex, ey) (ground arith)

-- The extent between two ends.
pub IsSpan-between :
    (a b : ℕ)
    → a < 2 ^ 32
    → b < 2 ^ 32
    → offset a ≤ offset b
    → offset b - offset a < 2 ^ 31
    → IsSpan a (sub_int b a) × (offset a + sub_int b a ≡ offset b)
IsSpan-between a b ha hb h small =
    let e = sub_int-eq b a hb ha h in
    let fits : offset a + sub_int b a ≡ offset b = rw e (omega (arith, h)) in
    let word : offset b < 2 ^ 32 = omega arith in
    (record { start_word = ha; len_small = rw e small; end_fits = rw fits word }, fits)

pub min_word : (a b : ℕ) → a < 2 ^ 32 → b < 2 ^ 32 → min_int a b < 2 ^ 32
min_word a b ha hb = elim (Bool-cases (lt_int a b)) [ inl h ↦ rw h ha | inr h ↦ rw h hb ]

pub max_word : (a b : ℕ) → a < 2 ^ 32 → b < 2 ^ 32 → max_int a b < 2 ^ 32
max_word a b ha hb = elim (Bool-cases (lt_int b a)) [ inl h ↦ rw h ha | inr h ↦ rw h hb ]

pub end_word : (start len : ℕ) → add_int start len < 2 ^ 32
end_word start len = omega arith

-- Two extents that meet.
pub IsSpan-meet :
    (a m b n : ℕ)
    → IsSpan a m
    → IsSpan b n
    → offset a ≤ offset b + n
    → offset b ≤ offset a + m
    → (let start = max_int a b in
        let len = sub_int (min_int (add_int a m) (add_int b n)) start in
        IsSpan start len
        × (offset start ≡ max (offset a) (offset b))
        × (offset start + len ≡ min (offset a + m) (offset b + n)))
IsSpan-meet a m b n s t h k =
    let low = offset-max_int a b in
    let high : offset (min_int (add_int a m) (add_int b n)) ≡ min (offset a + m) (offset b + n) =
      rw (offset-min_int (add_int a m) (add_int b n), offset-end a m s, offset-end b n t) refl in
    let (v, e) =
      IsSpan-between (max_int a b) (min_int (add_int a m) (add_int b n))
        (max_word a b s.start_word t.start_word)
        (min_word (add_int a m) (add_int b n) (end_word a m) (end_word b n))
        (rw (low, high) (omega (arith, h, k)))
        (rw (low, high) (omega (arith, h, k, s.len_small))) in
    (v, low, rw e high)

-- The least extent over two.
pub IsSpan-join :
    (a m b n : ℕ)
    → IsSpan a m
    → IsSpan b n
    → offset a + m < offset b + 2 ^ 31
    → offset b + n < offset a + 2 ^ 31
    → (let start = min_int a b in
        let len = sub_int (max_int (add_int a m) (add_int b n)) start in
        IsSpan start len
        × (offset start ≡ min (offset a) (offset b))
        × (offset start + len ≡ max (offset a + m) (offset b + n)))
IsSpan-join a m b n s t h k =
    let low = offset-min_int a b in
    let high : offset (max_int (add_int a m) (add_int b n)) ≡ max (offset a + m) (offset b + n) =
      rw (offset-max_int (add_int a m) (add_int b n), offset-end a m s, offset-end b n t) refl in
    let (v, e) =
      IsSpan-between (min_int a b) (max_int (add_int a m) (add_int b n))
        (min_word a b s.start_word t.start_word)
        (max_word (add_int a m) (add_int b n) (end_word a m) (end_word b n))
        (rw (low, high) (omega arith))
        (rw (low, high) (omega (arith, h, k, s.len_small, t.len_small))) in
    (v, low, rw e high)
