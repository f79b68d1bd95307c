-- ===== src/Vec2.antt =====
-- The integer vectors of include/the_Foundation/vec2.h. The operations with `float` are left out.
pub mod Ints
use the_foundation.Base.{ℕ, Bool, true, false, not, ◌&&◌, ◌==◌}
use the_foundation.Vec2.Ints.{
  add_int, sub_int, mul_int, neg_int, abs_int, half_int, lt_int, le_int, min_int, max_int,
}

-- `iInt2`
pub record Int2 : Type 0 where
  pub x : ℕ
  pub y : ℕ

-- `iBool2`
pub record Bool2 : Type 0 where
  pub x : Bool
  pub y : Bool

abbrev pub init : ℕ → ℕ → Int2
init x y = record { x = x; y = y }

abbrev pub init1 : ℕ → Int2
init1 x = init x x

abbrev pub zero_vec : Int2
zero_vec = init 0 0

abbrev pub one_vec : Int2
one_vec = init 1 1

abbrev pub yx : Int2 → Int2
yx d = init d.y d.x

abbrev pub add_x : Int2 → ℕ → Int2
add_x a dx = init (add_int a.x dx) a.y

abbrev pub add_y : Int2 → ℕ → Int2
add_y a dy = init a.x (add_int a.y dy)

abbrev pub add : Int2 → Int2 → Int2
add a b = init (add_int a.x b.x) (add_int a.y b.y)

abbrev pub addi : Int2 → ℕ → Int2
addi a b = init (add_int a.x b) (add_int a.y b)

abbrev pub sub : Int2 → Int2 → Int2
sub a b = init (sub_int a.x b.x) (sub_int a.y b.y)

abbrev pub subi : Int2 → ℕ → Int2
subi a b = init (sub_int a.x b) (sub_int a.y b)

abbrev pub mul : Int2 → Int2 → Int2
mul a b = init (mul_int a.x b.x) (mul_int a.y b.y)

abbrev pub muli : Int2 → ℕ → Int2
muli a b = init (mul_int a.x b) (mul_int a.y b)

-- `divi_I2` by 2
abbrev pub halve : Int2 → Int2
halve a = init (half_int a.x) (half_int a.y)

abbrev pub min_vec : Int2 → Int2 → Int2
min_vec a b = init (min_int a.x b.x) (min_int a.y b.y)

abbrev pub max_vec : Int2 → Int2 → Int2
max_vec a b = init (max_int a.x b.x) (max_int a.y b.y)

abbrev pub neg : Int2 → Int2
neg a = init (neg_int a.x) (neg_int a.y)

abbrev pub neg_x : Int2 → Int2
neg_x a = init (neg_int a.x) a.y

abbrev pub neg_y : Int2 → Int2
neg_y a = init a.x (neg_int a.y)

abbrev pub abs : Int2 → Int2
abs a = init (abs_int a.x) (abs_int a.y)

abbrev pub equal : Int2 → Int2 → Bool2
equal a b = record { x = a.x == b.x; y = a.y == b.y }

abbrev pub not_equal : Int2 → Int2 → Bool2
not_equal a b = record { x = not (a.x == b.x); y = not (a.y == b.y) }

abbrev pub greater : Int2 → Int2 → Bool2
greater a b = record { x = lt_int b.x a.x; y = lt_int b.y a.y }

abbrev pub greater_equal : Int2 → Int2 → Bool2
greater_equal a b = record { x = le_int b.x a.x; y = le_int b.y a.y }

abbrev pub less : Int2 → Int2 → Bool2
less a b = record { x = lt_int a.x b.x; y = lt_int a.y b.y }

abbrev pub less_equal : Int2 → Int2 → Bool2
less_equal a b = record { x = le_int a.x b.x; y = le_int a.y b.y }

abbrev pub is_equal : Int2 → Int2 → Bool
is_equal a b = (a.x == b.x) && (a.y == b.y)

abbrev pub clamp : Int2 → Int2 → Int2 → Int2
clamp t a b = min_vec (max_vec t a) b

abbrev pub sum : Int2 → ℕ
sum a = add_int a.x a.y

abbrev pub prod : Int2 → ℕ
prod a = mul_int a.x a.y

abbrev pub dot : Int2 → Int2 → ℕ
dot a b = sum (mul a b)

abbrev pub manhattan : Int2 → Int2 → ℕ
manhattan a b = sum (abs (sub b a))
