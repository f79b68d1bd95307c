-- ===== src/Hash/Remove.antt =====
-- `remove_Hash`: the node under a key is taken out, and no other; emptied branches are trimmed.
use the_foundation.Base.{
  ℕ, zero, suc, ◌+◌, ◌*◌, ◌/◌, ◌%◌, ◌^◌, ◌<◌, Bool, true, false, ◌&&◌, Option, none, List, [], ◌∷◌,
  ◌==◌, ◌≡◌, ◌≢◌, refl, arith, ap, sym, ◌∙◌, if◌then◌else◌, Bool-cases, inl, inr, ◌⊎◌, ==_iff,
  ==-false,
}
use native.Mathlib.Nat.{mod-one, div-one}
use the_foundation.Hash.{
  Node, Bucket, leaf, branch, digit, shift_key, set_child, find_node, remove_from, remove_node,
  is_empty, is_some, Hash, remove, value,
}
use the_foundation.Hash.Nodes.{
  unlink-existing, unlink-lookup, unlink-gone, unlink-AllKeys, unlink-IsDistinct,
  remove_from-unlink,
}
use the_foundation.Hash.Shape.{IsOnPath, IsWell, IsWellHash, path-suc, shift-suc}

-- What a removal below the root comes to.
pub record Removed (depth path key : ℕ) (b : Bucket) (removed : Option Node) (b' : Bucket)
    : Type 0 where
  pub well : IsWell depth path b'
  pub node : removed ≡ find_node key (shift_key key depth) b
  pub found :
      (j : ℕ)
      → j % 4 ^ depth ≡ path
      → find_node j (shift_key j depth) b'
        ≡ (if j == key then none else find_node j (shift_key j depth) b)

leaf-Removed :
    (depth path key : ℕ) (ns : List Node)
    → IsWell depth path (leaf ns)
    → Removed depth path key (leaf ns) (remove_from key ns).0 (leaf (remove_from key ns).1)
unfolding find_node
leaf-Removed depth path key ns w =
    let (same, rest) = remove_from-unlink key ns in
    rw (same, rest)
      (record {
        well = (unlink-AllKeys (IsOnPath depth path) key ns w.0, unlink-IsDistinct key ns w.1);
        node = unlink-existing key ns;
        found = λ j h. elim (Bool-cases (j == key)) [
          | inl e ↦ rw (e, (==_iff j key).0 e) (unlink-gone key ns w.1)
          | inr e ↦ rw e (unlink-lookup key j ns (ground (arith, e)))
        ];
      })

-- A branch with one child changed.
branch_case :
    (depth path key : ℕ) (c : ℕ → Bucket) (removed : Option Node) (b' : Bucket)
    → IsWell depth path (branch c)
    → Removed (depth + 1) (path + digit key depth * 4 ^ depth) key (c (digit key depth)) removed b'
    → Removed depth path key (branch c) removed (branch (set_child c (digit key depth) b'))
unfolding find_node
branch_case depth path key c removed b' w rem = record {
  well = (w.0, λ j h. well j h (Bool-cases (j == i)));
  node = rw shift-suc at rem.node;
  found = λ j h. found j h (Bool-cases (digit j depth == i));
}
  where
    i : ℕ
    i = digit key depth

    well :
        (j : ℕ)
        → j < 4
        → ((j == i) ≡ true) ⊎ ((j == i) ≡ false)
        → IsWell (depth + 1) (path + j * 4 ^ depth) (set_child c i b' j)
    well j h (inl e) = rw (e, (==_iff j i).0 e) rem.well
    well j h (inr e) = rw e (w.1 j h)

    found :
        (j : ℕ)
        → j % 4 ^ depth ≡ path
        → ((digit j depth == i) ≡ true) ⊎ ((digit j depth == i) ≡ false)
        → find_node j (shift_key j depth / 4) (set_child c i b' (digit j depth))
          ≡ (if j == key then none else find_node j (shift_key j depth / 4) (c (digit j depth)))
    found j h (inl e) =
        let same : digit j depth ≡ i = (==_iff (digit j depth) i).0 e in
        rw (e, same)
          (rw shift-suc at
            (rem.found j (omega (arith, path-suc j depth, h, ap (λ t. t * 4 ^ depth) same))))
    found j h (inr e) =
        rw (e, ==-false j key (λ q. absurd (other_digit (ap (λ t. digit t depth) q)))) refl
      where
        other_digit : digit j depth ≢ i
        other_digit q = ground (arith, e, q)

-- A branch whose children are all empty finds nothing.
find_node-empty : (j k : ℕ) (b : Bucket) → is_empty b ≡ true → find_node j k b ≡ none
unfolding find_node
find_node-empty j k (leaf []) e = refl
find_node-empty j k (leaf (n ∷ ns)) e = cc
find_node-empty j k (branch c) e = cc

trimmed :
    (depth path key : ℕ) (b : Bucket) (removed : Option Node) (c : ℕ → Bucket)
    → is_empty (c 0) && is_empty (c 1) && is_empty (c 2) && is_empty (c 3) ≡ true
    → Removed depth path key b removed (branch c)
    → Removed depth path key b removed (leaf [])
unfolding find_node
trimmed depth path key b removed c e rem = record {
  well = (tt, tt);
  node = rem.node;
  found = λ j h.
      sym (
        find_node-empty j (shift_key j depth / 4) (c (digit j depth))
          (child (digit j depth) (omega arith)))
      ∙ rem.found j h;
}
  where
    child : (i : ℕ) → i < 4 → is_empty (c i) ≡ true
    child zero h = ground arith
    child (suc zero) h = ground arith
    child (suc (suc zero)) h = ground arith
    child (suc (suc (suc zero))) h = ground arith
    child (suc (suc (suc (suc i)))) h = absurd (omega arith)

pub remove_node-Removed :
    (depth path key : ℕ) (b : Bucket)
    → IsWell depth path b
    → key % 4 ^ depth ≡ path
    → (removed : Option Node) × (b' : Bucket) × (trim : Bool) × (remove_node key
          (shift_key key depth)
          b
        ≡ (removed, b', trim))
      × Removed depth path key b removed b'
unfolding remove_node
remove_node-Removed depth path key (leaf ns) w on =
    let (removed, rest) = remove_from key ns in
    (
      removed,
      leaf rest,
      is_some removed && is_empty (leaf rest),
      refl,
      leaf-Removed depth path key ns w,
    )
remove_node-Removed depth path key (branch c) w on =
    let i = digit key depth in
    let (removed, b', trim, e, rem) =
      remove_node-Removed (depth + 1) (path + i * 4 ^ depth) key (c i) (w.1 i (omega arith))
        (omega (arith, path-suc key depth, on)) in
    at_branch removed b' trim (rw shift-suc at e) (branch_case depth path key c removed b' w rem)
  where
    i : ℕ
    i = digit key depth

    at_branch :
        (removed : Option Node) (b' : Bucket) (trim : Bool)
        → remove_node key (shift_key key depth / 4) (c i) ≡ (removed, b', trim)
        → Removed depth path key (branch c) removed (branch (set_child c i b'))
        → (removed : Option Node) × (b' : Bucket) × (trim : Bool) × (remove_node key
              (shift_key key depth)
              (branch c)
            ≡ (removed, b', trim))
          × Removed depth path key (branch c) removed b'
    at_branch removed b' trim e rem =
        let c' = set_child c i b' in
        elim (Bool-cases
          (trim && is_empty (c' 0) && is_empty (c' 1) && is_empty (c' 2) && is_empty (c' 3))) [
            | inl all ↦ (
              removed,
              leaf [],
              true,
              rw (e, all),
              trimmed depth path key (branch c) removed c' (ground arith) rem,
            )
            | inr not_all ↦ (removed, branch c', false, rw (e, not_all), rem)
          ]

-- A removal from a well-formed hash gives the node that the key had, if any. The result is well
-- formed; the key then has no node, and every other key has what it had.
pub remove-value :
    (d : Hash) (key : ℕ)
    → IsWellHash d
    → let (removed, d') = remove d key in
      (removed ≡ value d key)
      × IsWellHash d'
      × ((j : ℕ) → value d' j ≡ (if j == key then none else value d j))
unfolding remove value
remove-value d key w =
    let (removed, b', trim, e, rem) = remove_node-Removed 0 0 key d.root w (mod-one key) in
    at_root removed b' trim e rem
  where
    at_root :
        (removed : Option Node) (b' : Bucket) (trim : Bool)
        → remove_node key (shift_key key 0) d.root ≡ (removed, b', trim)
        → Removed 0 0 key d.root removed b'
        → let (removed, d') = remove d key in
          (removed ≡ value d key)
          × IsWellHash d'
          × ((j : ℕ) → value d' j ≡ (if j == key then none else value d j))
    at_root removed b' trim e rem =
        rw (rw div-one at e)
          (rw div-one at rem.node, rem.well, λ j. rw div-one at (rem.found j (mod-one j)))
