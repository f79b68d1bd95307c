-- ===== src/Hash/Insert.antt =====
-- `insert_Hash`: no assertion fails, the tree stays well formed, and a search then finds the new
-- node under its key and what was there under every other.
use the_foundation.Base.{
  ℕ, ◌+◌, ◌-◌, ◌*◌, ◌/◌, ◌%◌, ◌^◌, ◌<◌, ◌≤◌, true, false, Option, some, List, ◌∷◌, ◌==◌, ◌≡◌, ◌≢◌,
  refl, arith, ap, length, leb, leb→le, lt→ltb, if◌then◌else◌, Bool-cases, inl, inr, ◌⊎◌, ==_iff,
  ==-false,
}
use the_foundation.Hash.{
  Node, Bucket, leaf, branch, digit, shift_key, set_child, find_node, unlink, split, insert_node,
  max_nodes, max_depth, Hash, insert, value, is_some,
}
use the_foundation.Hash.Nodes.{unlink-count}
use native.Mathlib.Nat.{mod-one, div-one}
use the_foundation.Hash.Shape.{
  IsOnPath, IsWell, IsWellHash, path-suc, shift-suc, IsOnPath-suc, length-deep,
}
use the_foundation.Hash.Leaves.{Inserted, leaf-Inserted, split-Inserted}

-- One bucket, wherever it stands: a leaf that is full is split, which happens at depths below 16.
leaf_case :
    (depth path key : ℕ) (n : Node) (ns : List Node)
    → depth ≤ 16
    → IsWell depth path (leaf ns)
    → IsOnPath depth path n.key
    → (existing : Option Node) × (b' : Bucket) × (insert_node depth key n (leaf ns)
        ≡ some (existing, b'))
      × Inserted depth path n (leaf ns) existing b'
unfolding insert_node
leaf_case depth path key n ns deep w on = elim (Bool-cases (leb max_nodes (unlink n.key ns).1)) [
  | inl full ↦
      let crowded : 8 ≤ length ns =
        omega (arith, leb→le 8 (unlink n.key ns).1 full, unlink-count n.key ns) in
      let shallow = not_deepest depth path ns deep w crowded in
      (
        (unlink n.key ns).0,
        split depth (unlink n.key ns).2 n,
        rw (full, lt→ltb depth max_depth (omega arith)),
        split-Inserted depth path n ns w on shallow,
      )
  | inr room ↦ (
    (unlink n.key ns).0,
    leaf (n ∷ (unlink n.key ns).2),
    rw room,
    leaf-Inserted depth path n ns w on,
  )
]
  where
    not_deepest :
        (depth path : ℕ) (ns : List Node)
        → depth ≤ 16
        → IsWell depth path (leaf ns)
        → 8 ≤ length ns
        → depth < 16
    not_deepest depth path ns deep w crowded = elim (Bool-cases (depth == 16)) [
      | inl e ↦ absurd (omega (arith, length-deep path ns (rw ((==_iff depth 16).0 e) at w.0) w.1))
      | inr e ↦ ground arith
    ]

-- A branch with one child changed.
branch_case :
    (depth path : ℕ) (n : Node) (c : ℕ → Bucket) (existing : Option Node) (b' : Bucket)
    → IsWell depth path (branch c)
    → Inserted
        (depth + 1)
        (path + digit n.key depth * 4 ^ depth)
        n
        (c (digit n.key depth))
        existing
        b'
    → Inserted depth path n (branch c) existing (branch (set_child c (digit n.key depth) b'))
unfolding find_node
branch_case depth path n c existing b' w ins = record {
  well = (w.0, λ j h. well j h (Bool-cases (j == i)));
  replaced = rw shift-suc at ins.replaced;
  found = λ key h. found key h (Bool-cases (digit key depth == i));
}
  where
    i : ℕ
    i = digit n.key depth

    well :
        (j : ℕ)
        → j < 4
        → ((j == i) ≡ true) ⊎ ((j == i) ≡ false)
        → IsWell (depth + 1) (path + j * 4 ^ depth) (set_child c i b' j)
    well j h (inl e) = rw (e, (==_iff j i).0 e) ins.well
    well j h (inr e) = rw e (w.1 j h)

    found :
        (key : ℕ)
        → key % 4 ^ depth ≡ path
        → ((digit key depth == i) ≡ true) ⊎ ((digit key depth == i) ≡ false)
        → find_node key (shift_key key depth / 4) (set_child c i b' (digit key depth)) ≡ (
            if key == n.key
            then some n
            else find_node key (shift_key key depth / 4) (c (digit key depth)))
    found key h (inl e) =
        let same : digit key depth ≡ i = (==_iff (digit key depth) i).0 e in
        rw (e, same)
          (rw shift-suc at
            (ins.found key (omega (arith, path-suc key depth, h, ap (λ t. t * 4 ^ depth) same))))
    found key h (inr e) =
        rw (e, ==-false key n.key (λ q. absurd (other_digit (ap (λ t. digit t depth) q)))) refl
      where
        other_digit : digit key depth ≢ i
        other_digit q = ground (arith, e, q)

-- Every bucket.
pub insert_node-Inserted :
    (depth path : ℕ) (n : Node) (b : Bucket)
    → depth ≤ 16
    → IsWell depth path b
    → IsOnPath depth path n.key
    → (existing : Option Node) × (b' : Bucket) × (insert_node depth (shift_key n.key depth) n b
        ≡ some (existing, b'))
      × Inserted depth path n b existing b'
unfolding insert_node
insert_node-Inserted depth path n (leaf ns) deep w on =
    leaf_case depth path (shift_key n.key depth) n ns deep w on
insert_node-Inserted depth path n (branch c) deep w on =
    let i = digit n.key depth in
    let (existing, b', e, ins) =
      insert_node-Inserted (depth + 1) (path + i * 4 ^ depth) n (c i) (omega (arith, w.0))
        (w.1 i (omega arith)) (IsOnPath-suc depth path n.key on) in
    (
      existing,
      branch (set_child c i b'),
      rw (rw shift-suc at e) refl,
      branch_case depth path n c existing b' w ins,
    )

-- The insertion of a node with a key of 32 digits into a well-formed hash succeeds: no assertion
-- of the source fails, also that on the depth of a split. The result is well formed. It gives the
-- node that the key had, if any; the key then has the new node, and every other key what it had.
pub insert-value :
    (d : Hash) (n : Node)
    → IsWellHash d
    → n.key < 2 ^ 32
    → (d' : Hash) × (insert d n ≡ some (value d n.key, d'))
      × IsWellHash d'
      × ((key : ℕ) → value d' key ≡ (if key == n.key then some n else value d key))
unfolding insert value
insert-value d n w h =
    let (existing, b', e, ins) =
      insert_node-Inserted 0 0 n d.root (omega arith) w (h, omega (arith, mod-one n.key)) in
    at_root existing b' e ins
  where
    at_root :
        (existing : Option Node) (b' : Bucket)
        → insert_node 0 (shift_key n.key 0) n d.root ≡ some (existing, b')
        → Inserted 0 0 n d.root existing b'
        → (d' : Hash) × (insert d n ≡ some (value d n.key, d'))
          × IsWellHash d'
          × ((key : ℕ) → value d' key ≡ (if key == n.key then some n else value d key))
    at_root existing b' e ins =
        let replaced : existing ≡ find_node n.key n.key d.root = rw div-one at ins.replaced in
        (
          record {
            root = b';
            size = (if is_some (find_node n.key n.key d.root) then d.size - 1 else d.size) + 1;
          },
          rw (rw div-one at e, replaced),
          ins.well,
          λ key. rw div-one at (ins.found key (mod-one key)),
        )
