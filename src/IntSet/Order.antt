-- ===== src/IntSet/Order.antt =====
-- The comparison of integers is a total order whose equal values are the same.
use the_foundation.Base.{◌≡◌, ap, arith, ℤ, pos, negsuc, false}
use the_foundation.SortedArray.Order.{IsOrder, Eqv, Lt}
use the_foundation.SortedArray.{is_neg, is_pos}
use the_foundation.IntSet.{cmp_int}

flip_int : (x y : ℤ) → is_pos (cmp_int x y) ≡ is_neg (cmp_int y x)
flip_int (pos a) (pos b) = ground arith
flip_int (pos a) (negsuc b) = ground arith
flip_int (negsuc a) (pos b) = ground arith
flip_int (negsuc a) (negsuc b) = ground arith

le_lt_int : (x y z : ℤ) → is_neg (cmp_int y x) ≡ false → Lt cmp_int y z → Lt cmp_int x z
le_lt_int (pos a) (pos b) (pos c) h k = ground arith
le_lt_int (pos a) (pos b) (negsuc c) h k = ground arith
le_lt_int (pos a) (negsuc b) (pos c) h k = ground arith
le_lt_int (pos a) (negsuc b) (negsuc c) h k = ground arith
le_lt_int (negsuc a) (pos b) (pos c) h k = ground arith
le_lt_int (negsuc a) (pos b) (negsuc c) h k = ground arith
le_lt_int (negsuc a) (negsuc b) (pos c) h k = ground arith
le_lt_int (negsuc a) (negsuc b) (negsuc c) h k = ground arith

lt_le_int : (x y z : ℤ) → Lt cmp_int x y → is_neg (cmp_int z y) ≡ false → Lt cmp_int x z
lt_le_int (pos a) (pos b) (pos c) h k = ground arith
lt_le_int (pos a) (pos b) (negsuc c) h k = ground arith
lt_le_int (pos a) (negsuc b) (pos c) h k = ground arith
lt_le_int (pos a) (negsuc b) (negsuc c) h k = ground arith
lt_le_int (negsuc a) (pos b) (pos c) h k = ground arith
lt_le_int (negsuc a) (pos b) (negsuc c) h k = ground arith
lt_le_int (negsuc a) (negsuc b) (pos c) h k = ground arith
lt_le_int (negsuc a) (negsuc b) (negsuc c) h k = ground arith

pub cmp_int-IsOrder : IsOrder cmp_int
cmp_int-IsOrder = record { flip = flip_int; le_lt = le_lt_int; lt_le = lt_le_int }

pub eq_of_Eqv : (x y : ℤ) → Eqv cmp_int x y → x ≡ y
eq_of_Eqv (pos a) (pos b) h = ap pos (ground arith)
eq_of_Eqv (pos a) (negsuc b) h = ground arith
eq_of_Eqv (negsuc a) (pos b) h = ground arith
eq_of_Eqv (negsuc a) (negsuc b) h = ap negsuc (ground arith)
