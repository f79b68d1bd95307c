-- ===== src/Hash/Shape.antt =====
-- When a tree of buckets is well formed: the path to a leaf is what the keys of its nodes share,
-- no key occurs twice, and no branch is deeper than a key of 32 digits tells apart.
use the_foundation.Base.{
  ℕ, ◌+◌, ◌*◌, ◌/◌, ◌%◌, ◌^◌, ◌<◌, ◌≤◌, List, ◌≡◌, arith, ap, sym, ◌∙◌, length,
}
use native.Mathlib.Nat.{pow-suc, mod-eq-sub-div-mul, div-div-eq-div-mul, div-add-mod'}
use the_foundation.Hash.{Node, Bucket, leaf, branch, digit, shift_key, Hash}
use the_foundation.Hash.Nodes.{AllKeys, AllKeys-map, IsDistinct, length_of_one_key}

-- A key of a bucket at a depth: its lower digits are those of the path.
abbrev pub IsOnPath : (depth path key : ℕ) → Type 0
IsOnPath depth path key = (key < 2 ^ 32) × (key % 4 ^ depth ≡ path)

abbrev pub IsWell : (depth path : ℕ) → Bucket → Type 0
IsWell depth path (leaf ns) = AllKeys (IsOnPath depth path) ns × IsDistinct ns
IsWell depth path (branch c) =
    (depth < 16) × ((i : ℕ) → i < 4 → IsWell (depth + 1) (path + i * 4 ^ depth) (c i))

abbrev pub IsWellHash : Hash → Type 0
IsWellHash d = IsWell 0 0 d.root

-- One more pair of digits of a path.
pub path-suc :
    (key depth : ℕ) → key % 4 ^ (depth + 1) ≡ key % 4 ^ depth + digit key depth * 4 ^ depth
path-suc key depth =
    ap (λ m. key % m) (ap (λ e. 4 ^ e) (omega arith) ∙ pow-suc 4 depth) ∙ two_digits
  where
    m : ℕ
    m = 4 ^ depth

    two_digits : key % (m * 4) ≡ key % m + key / m % 4 * m
    two_digits = omega (
      arith,
      mod-eq-sub-div-mul key (m * 4),
      ap (λ t. t * m) (div-div-eq-div-mul key m 4),
      ap (λ t. t * m) (div-add-mod' (key / m) 4),
      div-add-mod' key m,
    )

pub shift-suc : (key depth : ℕ) → shift_key key (depth + 1) ≡ shift_key key depth / 4
shift-suc key depth =
    ap (λ t. key / t) (ap (λ e. 4 ^ e) (omega arith) ∙ pow-suc 4 depth)
    ∙ sym (div-div-eq-div-mul key (4 ^ depth) 4)

pub IsOnPath-suc :
    (depth path key : ℕ)
    → IsOnPath depth path key
    → IsOnPath (depth + 1) (path + digit key depth * 4 ^ depth) key
IsOnPath-suc depth path key h = (h.0, omega (arith, path-suc key depth, h.1))

-- At depth 16 the path is the whole key, so a leaf has one node at most.
pub length-deep :
    (path : ℕ) (ns : List Node) → AllKeys (IsOnPath 16 path) ns → IsDistinct ns → length ns ≤ 1
length-deep path ns h d =
    length_of_one_key path ns
      (AllKeys-map (IsOnPath 16 path) (λ k. k ≡ path) ns (λ k on. omega (arith, on)) h) d
