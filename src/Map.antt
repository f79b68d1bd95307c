-- ===== src/Map.antt =====
-- The maps of src/map.c and include/the_Foundation/map.h: red-black trees of nodes that their owner
-- gives. The child links are the shape of the data, and the parents of a node are a path: the frames
-- from its parent up to the root. `left` is the side of `child[0]`. The comparison is a parameter. The
-- result `none` is an assertion that fails or an access through NULL.
pub mod Repair
pub mod Rising
pub mod Contents
pub mod Balance
pub mod Descent
pub mod Raising
pub mod Insert
pub mod Settling
pub mod Remove
pub mod Laws
pub mod Unlinking
pub mod Deletion
pub mod Iteration
mod Tests
use the_foundation.Base.{
  ℕ, zero, suc, ◌+◌, ◌-◌, Bool, true, false, not, ◌&&◌, ◌||◌, Option, none, some, List, [], ◌∷◌,
  ◌++◌, ℤ, ◌==◌, if◌then◌else◌, check, ◌>>=◌, ◌>>◌,
}
use the_foundation.SortedArray.{is_zero, is_neg, is_pos}
use the_foundation.Map.Repair.{
  Node, Tree, leaf, node, Color, red, black, Side, left, right, Frame, plug, same_side, zip, is_red,
  is_leaf, is_black_color, blacken, repair_insert, repair_removal, verified,
}

-- `iMap`
pub record Map : Type 0 where
  pub size : ℕ
  pub root : Tree
  pub cmp : ℤ → ℤ → ℤ

-- `init_Map`
abbrev pub init : (ℤ → ℤ → ℤ) → Map
init cmp = record { size = 0; root = leaf; cmp = cmp }

abbrev pub clear : Map → Map
clear d = record d { size = 0; root = leaf }

-- The loop of `value_Map`.
unfoldable pub find : (ℤ → ℤ → ℤ) → ℤ → Tree → Option Node
find cmp key leaf = none
find cmp key (node c l n r) =
    let low = find cmp key l in
    let high = find cmp key r in
    if is_zero (cmp key n.key) then some n else if is_pos (cmp key n.key) then high else low

abbrev pub value : Map → ℤ → Option Node
value d key = find d.cmp key d.root

-- `contains_Map`
abbrev pub contains : Map → ℤ → Bool
contains d key = elim (value d key) [ none ↦ false | some n ↦ true ]

-- Where the loop of `insertNode_Map_` ends: at a node with the key, or at a link that is NULL.
pub data Place : Type 0 where
  found : Color → Tree → Node → Tree → List Frame → Place
  missing : List Frame → Place

unfoldable pub descend : (ℤ → ℤ → ℤ) → ℤ → Tree → List Frame → Place
descend cmp key leaf path = missing path
descend cmp key (node c l n r) path =
    let low = descend cmp key l (record { side = left; color = c; item = n; other = r } ∷ path) in
    let high = descend cmp key r (record { side = right; color = c; item = n; other = l } ∷ path) in
    if is_zero (cmp key n.key)
    then found c l n r path
    else if is_neg (cmp key n.key)
    then low
    else high

-- `insertNode_Map_` from the place on, with the repair and the root of `insert_Map`: the node that
-- was there, and the tree.
unfoldable pub insert_at : Node → Place → Option (Option Node × Tree)
insert_at new (found c l n r path) = some (some n, zip (node c l new r) path)
insert_at new (missing path) = do
  root ← repair_insert (node red leaf new leaf) path
  some (none, root)

-- The end of `insert_Map`: only a new node counts.
abbrev pub counted : Map → Option Node → Tree → Option Node × Map
counted d old root =
    (old, record d { root = root; size = elim old [ none ↦ d.size + 1 | some n ↦ d.size ] })

-- `insert_Map`: the node that was replaced, and the map. The assertion on the new node alone is a part
-- of the check of the tree.
unfoldable pub insert : Map → Node → Option (Option Node × Map)
insert d new = do
  (old, root) ← insert_at new (descend d.cmp new.key d.root [])
  verified root
  some (counted d old root)

-- The last node in order of a tree: what it has of its own, and the frames above it. This is
-- `adjacent_MapNode_` towards `child[0]`, after the step to that child.
unfoldable pub last_node :
    Color → Tree → Node → Tree → List Frame → Color × Tree × Node × List Frame
last_node c l n leaf frames = (c, l, n, frames)
last_node c l n (node c' l' n' r') frames =
    last_node c' l' n' r' (record { side = right; color = c; item = n; other = l } ∷ frames)

-- `removeNodeWithZeroOrOneChild_Map_` of a node with the colour and the children given. The node is
-- unlinked before the repair, which does not look at it.
unfoldable pub remove_at : Color → Tree → Tree → List Frame → Option Tree
remove_at c l r path = do
  check (is_leaf l || is_leaf r)
  let child = if is_leaf l then r else l
  if is_black_color c
      then (if is_red child
          then some (zip (blacken child) path)
          else (do path' ← repair_removal path; some (zip child path')))
      else some (zip child path)

-- `removeNode_Map` of a node that is there: with two children it changes places with its predecessor,
-- which keeps the colours where they are.
unfoldable pub remove_node : Color → Tree → Tree → List Frame → Option Tree
remove_node c leaf r path = remove_at c leaf r path
remove_node c (node c' l' n' r') leaf path = remove_at c (node c' l' n' r') leaf path
remove_node c (node c' l' n' r') (node c'' l'' n'' r'') path =
    let (cp, lp, pred, frames) = last_node c' l' n' r' [] in
    remove_at cp lp leaf (
      frames
      ++ (record { side = left; color = c; item = pred; other = node c'' l'' n'' r'' } ∷ path))

-- `removeNode_Map` of the node at a place, NULL where there is none: the node, and the map.
abbrev pub removed : Map → Place → Option (Option Node × Map)
removed d (missing path) = some (none, d)
removed d (found c l n r path) = do
  root ← remove_node c l r path
  verified root
  some (some n, record d { root = root; size = d.size - 1 })

-- `remove_Map`
unfoldable pub remove : Map → ℤ → Option (Option Node × Map)
remove d key = removed d (descend d.cmp key d.root [])

-- A node of a map with its children and its path.
pub record Position : Type 0 where
  pub color : Color
  pub low : Tree
  pub item : Node
  pub high : Tree
  pub path : List Frame

-- `constFirstInOrder_MapNode_`: the first node forwards, which is `right`, or backwards.
unfoldable pub first_in_order : Side → Tree → List Frame → Option Position
first_in_order dir leaf path = none
first_in_order right (node c l n r) path =
    let deeper =
      first_in_order right l (record { side = left; color = c; item = n; other = r } ∷ path) in
    if is_leaf l
    then some (record { color = c; low = l; item = n; high = r; path = path })
    else deeper
first_in_order left (node c l n r) path =
    let deeper =
      first_in_order left r (record { side = right; color = c; item = n; other = l } ∷ path) in
    if is_leaf r
    then some (record { color = c; low = l; item = n; high = r; path = path })
    else deeper

-- The loop of `constNextInOrder_MapNode_`: the way up from a tree.
unfoldable pub climb : Side → Tree → List Frame → Option Position
climb dir t [] = none
climb right t (f ∷ path) =
    let above = climb right (plug t f) path in
    if same_side f.side left && not (is_leaf f.other)
    then some (record { color = f.color; low = t; item = f.item; high = f.other; path = path })
    else above
climb left t (f ∷ path) =
    let above = climb left (plug t f) path in
    if same_side f.side right && not (is_leaf f.other)
    then some (record { color = f.color; low = f.other; item = f.item; high = t; path = path })
    else above

-- `constNextInOrder_MapNode_`, with `adjacent_MapNode_`
unfoldable pub next_in_order : Side → Position → Option Position
next_in_order right p =
    if is_leaf p.high
    then climb right (node p.color p.low p.item p.high) p.path
    else first_in_order right p.high
        (record { side = right; color = p.color; item = p.item; other = p.low } ∷ p.path)
next_in_order left p =
    if is_leaf p.low
    then climb left (node p.color p.low p.item p.high) p.path
    else first_in_order left p.low
        (record { side = left; color = p.color; item = p.item; other = p.high } ∷ p.path)

-- The loop `iConstForEach` with `init_MapConstIterator` and `next_MapConstIterator`: the nodes that it
-- visits, or none where it does not end within the fuel.
unfoldable pub visit_from : ℕ → Side → Option Position → Option (List Node)
visit_from zero dir p = none
visit_from (suc fuel) dir none = some []
visit_from (suc fuel) dir (some p) = do
  rest ← visit_from fuel dir (next_in_order dir p)
  some (p.item ∷ rest)

unfoldable pub visit : ℕ → Side → Map → Option (List Node)
visit fuel dir d = visit_from fuel dir (first_in_order dir d.root [])
