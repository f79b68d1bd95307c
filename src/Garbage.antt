-- ===== src/Garbage.antt =====
-- The allocations of src/garbage.c that a thread collects, with scopes. A node is the allocations of
-- its array up to `count`, the last one first, and the nodes are the list from its back on. A NULL
-- pointer is 0. The functions that delete are called in the order of `deleted`, and do not collect.
-- The result `none` is an assertion that fails.
pub mod Stack
pub mod Recent
pub mod Scopes
mod Tests
use the_foundation.Base.{
  ℕ, zero, suc, ◌+◌, ◌-◌, Bool, true, false, not, ◌&&◌, ◌||◌, Option, none, some, List, [], ◌∷◌,
  ◌++◌, length, get_elem?, ltb, leb, ◌==◌, if◌then◌else◌, check, ◌>>=◌, ◌>>◌,
}

-- `iDeleteFunc`: the one that derefs objects, and others.
pub data Delete : Type 0 where
  deref_object : Delete
  delete : ℕ → Delete

-- `iCollectedPtr`
pub record CollectedPtr : Type 0 where
  pub ptr : ℕ
  pub del : Option Delete

-- `iGarbageNodeMax`
abbrev pub node_max : ℕ
node_max = 32

-- `iCollected`
pub record Collected : Type 0 where
  pub nodes : List (List CollectedPtr)
  pub is_recycling : Bool
  pub deleted : List CollectedPtr

-- `new_Collected_`
abbrev pub new_collected : Collected
new_collected = record { nodes = []; is_recycling = false; deleted = [] }

abbrev pub is_full : List CollectedPtr → Bool
is_full node = length node == node_max

abbrev pub has_del : CollectedPtr → Bool
has_del a = elim a.del [ none ↦ false | some f ↦ true ]

-- What is called for an allocation.
abbrev pub calls : CollectedPtr → List CollectedPtr
calls a = if has_del a then a ∷ [] else []

-- `popBack_GarbageNode_`, with the calls.
abbrev pub pop_node : List CollectedPtr → Bool × List CollectedPtr × List CollectedPtr
pop_node [] = (false, [], [])
pop_node (a ∷ node) = (has_del a, node, calls a)

-- The calls of `delete_GarbageNode_`.
unfoldable pub delete_node : List CollectedPtr → List CollectedPtr
delete_node [] = []
delete_node (a ∷ node) = calls a ++ delete_node node

-- The calls for all nodes, from the back.
unfoldable pub delete_nodes : List (List CollectedPtr) → List CollectedPtr
delete_nodes [] = []
delete_nodes (node ∷ nodes) = delete_node node ++ delete_nodes nodes

-- `recycle_Collected_`
unfoldable pub recycle : Collected → Collected
recycle d =
    if not d.is_recycling && ltb 0 (length d.nodes)
    then record d { nodes = []; deleted = d.deleted ++ delete_nodes d.nodes }
    else d

-- The end of `pop_Collected_`, at the last node.
abbrev pub pop_back : Collected → Bool × Collected
pop_back d = elim d.nodes [
  | [] ↦ (false, d)
  | node ∷ nodes ↦
      let (popped, node', called) = pop_node node in
      (popped, record d { nodes = node' ∷ nodes; deleted = d.deleted ++ called })
]

-- `pop_Collected_`: an empty node at the back goes, unless it is the only one.
unfoldable pub pop : Collected → Bool × Collected
pop d = elim d.nodes [
  | [] ↦ (false, d)
  | [] ∷ [] ↦ pop_back d
  | [] ∷ node ∷ nodes ↦ pop_back (record d { nodes = node ∷ nodes })
  | (a ∷ node) ∷ nodes ↦ pop_back d
]

abbrev pub ptr_of : Option CollectedPtr → ℕ
ptr_of none = 0
ptr_of (some a) = a.ptr

-- The pointer some places before the end of a node.
abbrev pub ptr_at : List CollectedPtr → ℕ → ℕ
ptr_at node n = ptr_of (get_elem? node (n - 1))

-- `previous_Collected_`: what was collected some places before, where the node has it or the one
-- before it.
unfoldable pub previous : List (List CollectedPtr) → ℕ → ℕ
previous [] n = 0
previous (node ∷ []) n = if ltb (length node) n then 0 else ptr_at node n
previous (node ∷ node' ∷ nodes) n =
    if ltb (length node) n
    then (if leb (n - length node) (length node') then ptr_at node' (n - length node) else 0)
    else ptr_at node n

abbrev pub is_deref : CollectedPtr → Bool
is_deref a = elim a.del [ some deref_object ↦ true | some (delete f) ↦ false | none ↦ false ]

-- No pointer of the last `n` is the one given.
unfoldable pub is_new : List (List CollectedPtr) → ℕ → ℕ → Bool
is_new nodes p zero = true
is_new nodes p (suc n) = is_new nodes p n && not (previous nodes (suc n) == p)

-- The node at the back, which is a new one where there is none or it is full.
abbrev pub with_room : List (List CollectedPtr) → List (List CollectedPtr)
with_room [] = [] ∷ []
with_room (node ∷ nodes) = if is_full node then [] ∷ node ∷ nodes else node ∷ nodes

abbrev pub push_back : List (List CollectedPtr) → CollectedPtr → List (List CollectedPtr)
push_back [] a = []
push_back (node ∷ nodes) a = (a ∷ node) ∷ nodes

-- `push_Collected_`
unfoldable pub push : Collected → CollectedPtr → Option Collected
push d a = do
  let nodes = with_room d.nodes
  check (a.ptr == 0 || is_deref a || is_new nodes a.ptr 8)
  some (record d { nodes = push_back nodes a })

-- `collect_Garbage`
unfoldable pub collect : Collected → ℕ → Option Delete → Option Collected
collect d p f = push d (record { ptr = p; del = f })

-- `beginScope_Garbage`
unfoldable pub begin_scope : Collected → Option Collected
begin_scope d = collect d 0 none

-- `endScope_Garbage`, or none where its loop does not end within the fuel.
unfoldable pub end_scope : ℕ → Collected → Option Collected
end_scope zero d = none
end_scope (suc fuel) d =
    let (popped, d') = pop d in let rest = end_scope fuel d' in if popped then rest else some d'

-- `delete_Collected_`: the calls.
unfoldable pub deinit : Collected → List CollectedPtr
deinit d = (recycle d).deleted
