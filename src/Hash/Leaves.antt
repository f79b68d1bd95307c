-- ===== src/Hash/Leaves.antt =====
-- What an insertion into a leaf comes to, also where the leaf is split.
use the_foundation.Base.{
  ℕ, ◌+◌, ◌*◌, ◌%◌, ◌^◌, ◌<◌, Option, none, some, List, [], ◌∷◌, ◌==◌, ◌≡◌, refl, arith, ap, sym,
  ◌∙◌, if◌then◌else◌, Bool-cases, inl, inr, ==_iff, ==-true, ==-false,
}
use the_foundation.Hash.{
  Node, Bucket, leaf, digit, shift_key, lookup, find_node, unlink, add_node, divide, split,
}
use the_foundation.Hash.Nodes.{
  AllKeys, AllKeys-map, IsDistinct, unlink-existing, unlink-lookup, unlink-gone, unlink-AllKeys,
  unlink-IsDistinct, or_else, add_node-other, lookup-divide, AllKeys-divide, IsDistinct-divide,
  AllKeys-add_node, IsDistinct-add_node, or_else-none, none_yet,
}
use the_foundation.Hash.Shape.{IsOnPath, IsWell, IsOnPath-suc}

-- What an insertion below the root comes to, at a depth and for the path to it.
pub record Inserted (depth path : ℕ) (n : Node) (b : Bucket) (existing : Option Node) (b' : Bucket)
    : Type 0 where
  pub well : IsWell depth path b'
  pub replaced : existing ≡ find_node n.key (shift_key n.key depth) b
  pub found :
      (key : ℕ)
      → key % 4 ^ depth ≡ path
      → find_node key (shift_key key depth) b'
        ≡ (if key == n.key then some n else find_node key (shift_key key depth) b)

-- A leaf with room.
pub leaf-Inserted :
    (depth path : ℕ) (n : Node) (ns : List Node)
    → IsWell depth path (leaf ns)
    → IsOnPath depth path n.key
    → Inserted depth path n (leaf ns) (unlink n.key ns).0 (leaf (n ∷ (unlink n.key ns).2))
unfolding find_node
leaf-Inserted depth path n ns w on = record {
  well = (
    (on, unlink-AllKeys (IsOnPath depth path) n.key ns w.0),
    (unlink-gone n.key ns w.1, unlink-IsDistinct n.key ns w.1),
  );
  replaced = unlink-existing n.key ns;
  found = λ key h. elim (Bool-cases (key == n.key)) [
    | inl e ↦ rw (e, ==-true n.key key (sym ((==_iff key n.key).0 e)))
    | inr e ↦
        rw (e, ==-false n.key key (ground (arith, e)))
          (unlink-lookup n.key key ns (ground (arith, e)))
  ];
}

-- A leaf that is split.
pub split-Inserted :
    (depth path : ℕ) (n : Node) (ns : List Node)
    → IsWell depth path (leaf ns)
    → IsOnPath depth path n.key
    → depth < 16
    → Inserted depth path n (leaf ns) (unlink n.key ns).0 (split depth (unlink n.key ns).2 n)
unfolding find_node split
split-Inserted depth path n ns w on shallow = record {
  well = (shallow, λ i h. (keys i, distinct i));
  replaced = unlink-existing n.key ns;
  found = λ key h. found key;
}
  where
    rest : List Node
    rest = (unlink n.key ns).2

    rest_distinct : IsDistinct rest
    rest_distinct = unlink-IsDistinct n.key ns w.1

    keys :
        (i : ℕ)
        → AllKeys
            (IsOnPath (depth + 1) (path + i * 4 ^ depth))
            (add_node (divide depth (λ j. []) rest) (digit n.key depth) n i)
    keys i =
        AllKeys-add_node (λ j. IsOnPath (depth + 1) (path + j * 4 ^ depth))
          (divide depth (λ j. []) rest) n (digit n.key depth) i (IsOnPath-suc depth path n.key on)
          (AllKeys-divide depth (λ j. IsOnPath (depth + 1) (path + j * 4 ^ depth)) (λ j. []) rest
            (λ j. tt)
            (AllKeys-map (IsOnPath depth path)
              (λ k. IsOnPath (depth + 1) (path + digit k depth * 4 ^ depth) k) rest
              (IsOnPath-suc depth path) (unlink-AllKeys (IsOnPath depth path) n.key ns w.0))
            i)

    distinct : (i : ℕ) → IsDistinct (add_node (divide depth (λ j. []) rest) (digit n.key depth) n i)
    distinct i =
        IsDistinct-add_node (divide depth (λ j. []) rest) n (digit n.key depth) i
          (lookup-divide depth n.key (λ j. []) rest rest_distinct
            ∙ ap (λ o. or_else o none) (unlink-gone n.key ns w.1))
          (IsDistinct-divide depth (λ j. []) rest (λ j. tt) (λ j. none_yet rest) rest_distinct i)

    found :
        (key : ℕ)
        → lookup key
            (add_node (divide depth (λ j. []) rest) (digit n.key depth) n (digit key depth))
          ≡ (if key == n.key then some n else lookup key ns)
    found key = elim (Bool-cases (key == n.key)) [
      | inl e ↦ rw (
        e,
        (==_iff key n.key).0 e,
        ==-true (digit n.key depth) (digit n.key depth) refl,
        ==-true n.key n.key refl,
      )
      | inr e ↦
          add_node-other depth key (digit n.key depth) (digit key depth)
            (divide depth (λ j. []) rest) n (ground (arith, e))
          ∙ lookup-divide depth key (λ j. []) rest rest_distinct
          ∙ rw (e, unlink-lookup n.key key ns (ground (arith, e))) (or_else-none (lookup key ns))
    ]
