-- ===== src/Hash.antt =====
-- The hash of src/hash.c and include/the_Foundation/hash.h: a tree with four children at a branch,
-- chosen by two digits of the key at a time, and lists of nodes at the leaves. A bucket is a branch
-- where `child[0]` is set; a branch lists no nodes. The parents and the links of a list are the
-- shape of the data here.
pub mod Nodes
pub mod Shape
pub mod Leaves
pub mod Insert
pub mod Remove
mod Tests
use the_foundation.Base.{
  ℕ, zero, suc, ◌+◌, ◌-◌, ◌*◌, ◌/◌, ◌%◌, ◌^◌, Bool, true, false, ◌&&◌, Option, none, some, List, [],
  ◌∷◌, ltb, leb, ◌==◌, if◌then◌else◌, check, ◌>>=◌, ◌>>◌,
}

-- `iHashNode`: the key, and what tells the node from others.
pub record Node : Type 0 where
  pub key : ℕ
  pub item : ℕ

-- `child[i]` for `i` below 4.
pub data Bucket : Type 0 where
  leaf : List Node → Bucket
  branch : (ℕ → Bucket) → Bucket

abbrev pub max_nodes : ℕ
max_nodes = 8

abbrev pub max_depth : ℕ
max_depth = 32

-- `shiftKey_HashBucket_`, and with the mask the index of `child_HashBucket_`.
abbrev pub shift_key : ℕ → ℕ → ℕ
shift_key key levels = key / 4 ^ levels

abbrev pub digit : ℕ → ℕ → ℕ
digit key depth = shift_key key depth % 4

abbrev pub set_child : (ℕ → Bucket) → ℕ → Bucket → ℕ → Bucket
set_child c i b j = if j == i then b else c j

-- The search through the list of a bucket.
abbrev pub lookup : ℕ → List Node → Option Node
lookup key [] = none
lookup key (n ∷ ns) = if n.key == key then some n else lookup key ns

-- `findNode_HashBucket_`, with the key that is left to shift.
pub find_node : (elem_key key : ℕ) → Bucket → Option Node
find_node elem_key key (leaf ns) = lookup elem_key ns
find_node elem_key key (branch c) = find_node elem_key (key / 4) (c (key % 4))

-- The loop of `insert_Hash` for an existing node: that node, the nodes counted, the other nodes.
pub unlink : ℕ → List Node → Option Node × ℕ × List Node
unlink key [] = (none, 0, [])
unlink key (n ∷ ns) =
    let (existing, count, rest) = unlink key ns in
    if n.key == key then (some n, 0, ns) else (existing, count + 1, n ∷ rest)

-- `addNode_HashBucket_` to one of the lists of a branch under construction.
abbrev pub add_node : (ℕ → List Node) → ℕ → Node → ℕ → List Node
add_node lists i n j = if j == i then n ∷ lists j else lists j

-- The loop of `split_HashBucket_`.
pub divide : ℕ → (ℕ → List Node) → List Node → ℕ → List Node
divide depth lists [] = lists
divide depth lists (n ∷ ns) = divide depth (add_node lists (digit n.key depth) n) ns

pub split : ℕ → List Node → Node → Bucket
unfolding divide
split depth ns n = branch (λ i. leaf (add_node (divide depth (λ j. []) ns) (digit n.key depth) n i))

-- `insert_Hash` below the root: the node that was replaced, and the new bucket.
pub insert_node : (depth key : ℕ) → Node → Bucket → Option (Option Node × Bucket)
unfolding unlink split
insert_node depth key n (leaf ns) =
    let (existing, count, rest) = unlink n.key ns in
    if leb max_nodes count
    then (do check (ltb depth max_depth); some (existing, split depth rest n))
    else some (existing, leaf (n ∷ rest))
insert_node depth key n (branch c) = do
  (existing, b) ← insert_node (depth + 1) (key / 4) n (c (key % 4))
  some (existing, branch (set_child c (key % 4) b))

-- The loop of `remove_HashBucket_`: the node removed, and the others.
pub remove_from : ℕ → List Node → Option Node × List Node
remove_from key [] = (none, [])
remove_from key (n ∷ ns) =
    let (removed, rest) = remove_from key ns in
    if n.key == key then (some n, ns) else (removed, n ∷ rest)

abbrev pub is_empty : Bucket → Bool
is_empty (leaf []) = true
is_empty (leaf (n ∷ ns)) = false
is_empty (branch c) = false

abbrev pub is_some : Option Node → Bool
is_some none = false
is_some (some n) = true

-- What `remove_HashBucket_` and `trim_HashBucket_` leave: the node removed, the bucket, and
-- whether trimming goes on above it.
pub remove_node : (elem_key key : ℕ) → Bucket → Option Node × Bucket × Bool
unfolding remove_from
remove_node elem_key key (leaf ns) =
    let (removed, rest) = remove_from elem_key ns in
    (removed, leaf rest, is_some removed && is_empty (leaf rest))
remove_node elem_key key (branch c) =
    let (removed, b, trim) = remove_node elem_key (key / 4) (c (key % 4)) in
    let c' = set_child c (key % 4) b in
    if trim && is_empty (c' 0) && is_empty (c' 1) && is_empty (c' 2) && is_empty (c' 3)
    then (removed, leaf [], true)
    else (removed, branch c', false)

pub record Hash : Type 0 where
  pub root : Bucket
  pub size : ℕ

pub init : Hash
init = record { root = leaf []; size = 0 }

pub clear : Hash → Hash
clear d = record { root = leaf []; size = 0 }

pub value : Hash → ℕ → Option Node
unfolding find_node
value d key = find_node key key d.root

pub contains : Hash → ℕ → Bool
unfolding value
contains d key = is_some (value d key)

-- The count goes down for a node that is replaced, and up for the one inserted.
pub insert : Hash → Node → Option (Option Node × Hash)
unfolding insert_node
insert d n = do
  (existing, root) ← insert_node 0 n.key n d.root
  some (
    existing,
    record { root = root; size = (if is_some existing then d.size - 1 else d.size) + 1 },
  )

pub remove : Hash → ℕ → Option Node × Hash
unfolding remove_node
remove d key =
    let (removed, root, trim) = remove_node key key d.root in
    (removed, record { root = root; size = if is_some removed then d.size - 1 else d.size })
