-- ===== src/Map/Repair.antt =====
-- The trees of src/map.c, rotations, and the repairs after an insertion and a removal.
use the_foundation.Base.{
  ℕ, ◌+◌, Bool, true, false, not, ◌&&◌, ◌||◌, Option, none, some, List, [], ◌∷◌, ℤ, if◌then◌else◌,
  check, ◌==◌, ◌>>=◌, ◌>>◌,
}

-- `iMapNode` of an owner: its key, and what tells it from others.
pub record Node : Type 0 where
  pub key : ℤ
  pub item : ℕ

pub data Color : Type 0 where
  red black : Color

pub data Tree : Type 0 where
  leaf : Tree
  node : Color → Tree → Node → Tree → Tree

pub data Side : Type 0 where
  left right : Side

-- A parent, without the child on one side.
pub record Frame : Type 0 where
  pub side : Side
  pub color : Color
  pub item : Node
  pub other : Tree

abbrev pub is_leaf : Tree → Bool
is_leaf leaf = true
is_leaf (node c l n r) = false

abbrev pub is_black_color : Color → Bool
is_black_color red = false
is_black_color black = true

-- `isRed_MapNode_`
abbrev pub is_red : Tree → Bool
is_red leaf = false
is_red (node c l n r) = not (is_black_color c)

-- A node that is given a colour, where it is not NULL.
abbrev pub blacken : Tree → Tree
blacken leaf = leaf
blacken (node c l n r) = node black l n r

abbrev pub redden : Tree → Tree
redden leaf = leaf
redden (node c l n r) = node red l n r

-- A node with its children by side: the one on the side given, and the one on the other side.
abbrev pub make : Side → Color → Tree → Node → Tree → Tree
make left c near n far = node c near n far
make right c near n far = node c far n near

pub record Parts : Type 0 where
  pub color : Color
  pub near : Tree
  pub item : Node
  pub far : Tree

abbrev pub parts : Side → Tree → Option Parts
parts s leaf = none
parts left (node c l n r) = some (record { color = c; near = l; item = n; far = r })
parts right (node c l n r) = some (record { color = c; near = r; item = n; far = l })

-- The children of a node that can be NULL.
abbrev pub near : Side → Tree → Tree
near s leaf = leaf
near left (node c l n r) = l
near right (node c l n r) = r

abbrev pub far : Side → Tree → Tree
far s leaf = leaf
far left (node c l n r) = r
far right (node c l n r) = l

abbrev pub blacken_near : Side → Tree → Tree
blacken_near s leaf = leaf
blacken_near left (node c l n r) = node c (blacken l) n r
blacken_near right (node c l n r) = node c l n (blacken r)

abbrev pub same_side : Side → Side → Bool
same_side left left = true
same_side left right = false
same_side right left = false
same_side right right = true

abbrev pub plug : Tree → Frame → Tree
plug t f = make f.side f.color t f.item f.other

-- The root, from a node and its path.
abbrev pub zip : Tree → List Frame → Tree
zip t [] = t
zip t (f ∷ path) = zip (plug t f) path

-- `rotate_MapNode_`: the child on the side given comes up. A rotation to the left is one of the right
-- child.
abbrev pub raise : Side → Tree → Option Tree
raise s t = do
  p ← parts s t
  q ← parts s p.near
  some (make s q.color q.near q.item (make s p.color q.far p.item p.far))

-- `repairAfterInsert_MapNode_` of a node with its path: the root. A rotation does not read colours,
-- so that they are set before the last one here.
unfoldable pub repair_insert : Tree → List Frame → Option Tree
repair_insert t [] = some (blacken t)
repair_insert t (f ∷ []) = if is_black_color f.color then some (plug t f) else none
repair_insert t (f ∷ g ∷ path) =
    let above =
      repair_insert
        (plug (plug t (record f { color = black }))
          (record g { color = red; other = blacken g.other }))
        path in
    if is_black_color f.color
    then some (zip t (f ∷ g ∷ path))
    else if is_red g.other
    then above
    else (do
      parent ← if same_side f.side g.side then some (plug t f) else raise f.side (plug t f)
      top ← raise g.side (plug (blacken parent) (record g { color = red }))
      some (zip top path))

-- The end of a round of `repairAfterRemoval_MapNode_` that does not go on to the parent: the path of
-- the node after it.
unfoldable pub settle : Frame → List Frame → Option (List Frame)
settle f path =
    let s = f.other in
    if not (is_black_color f.color)
      && not (is_red s)
      && not (is_red (near f.side s))
      && not (is_red (far f.side s))
    then some (record f { color = black; other = redden s } ∷ path)
    else (do
      s' ←
          if not (is_red s) && not (is_red (far f.side s)) && is_red (near f.side s)
          then raise f.side (redden (blacken_near f.side s))
          else some s
      p ← parts f.side s'
      some (
          record f { color = black; other = p.near }
          ∷ record f { item = p.item; other = blacken p.far }
          ∷ path))

-- `repairAfterRemoval_MapNode_` of a node with this path: its path afterwards. Where its sibling is
-- red, the parent is red after the rotation, so that the round does not go on to it.
unfoldable pub repair_removal : List Frame → Option (List Frame)
repair_removal [] = some []
repair_removal (f ∷ path) =
    let above = repair_removal path in
    if is_red f.other
    then (do
      p ← parts f.side f.other
      settle (record f { color = red; other = p.near })
          (record f { color = black; item = p.item; other = p.far } ∷ path))
    else if is_black_color f.color
        && not (is_red (near f.side f.other))
        && not (is_red (far f.side f.other))
    then (do path' ← above; some (record f { other = redden f.other } ∷ path'))
    else settle f path

-- `verify_MapNode_`: the count of black nodes on each way down, NULL counted. The links to parents are
-- right by construction.
unfoldable pub verify : Tree → Option ℕ
verify leaf = some 1
verify (node c l n r) = do
  check (is_black_color c || (not (is_red l) && not (is_red r)))
  low ← verify l
  high ← verify r
  check (low == high)
  some (low + (if is_black_color c then 1 else 0))

-- The check of a whole tree in the builds with assertions: after an insertion and a removal.
abbrev pub verified : Tree → Option (Unit {0})
verified t = do check (not (is_red t)); height ← verify t; some tt
