-- ===== src/LinkedList.antt =====
-- The circular lists of src/list.c and include/the_Foundation/list.h. A node is a number, 0 for the
-- root of the list, and the links are a store: `next` and `prev` give the node that a pointer has, or
-- `none` for NULL. The result `none` of an operation is an assertion that fails or an access
-- through NULL.
pub mod Chain
pub mod Insertion
pub mod Removal
pub mod Iteration
mod Tests
use the_foundation.Base.{
  ℕ, zero, suc, ◌+◌, ◌-◌, Bool, not, Option, none, some, List, [], ◌∷◌, ltb, ◌==◌, if◌then◌else◌,
  check, ◌>>=◌, ◌>>◌,
}

pub record LinkedList : Type 0 where
  pub next : ℕ → Option ℕ
  pub prev : ℕ → Option ℕ
  pub size : ℕ

abbrev pub root : ℕ
root = 0

-- A pointer that is set.
abbrev pub link : (ℕ → Option ℕ) → ℕ → Option ℕ → ℕ → Option ℕ
link links i v j = if j == i then v else links j

-- `clear_List`, also `init_List`
unfoldable pub clear : LinkedList → LinkedList
clear d = record {
  next = link d.next root (some root);
  prev = link d.prev root (some root);
  size = 0;
}

-- `front_List` and `back_List`: the answer is none where it is NULL.
abbrev pub front : LinkedList → Option ℕ
front d = if ltb 0 d.size then d.next root else none

abbrev pub back : LinkedList → Option ℕ
back d = if ltb 0 d.size then d.prev root else none

-- `insertAfter_ListNode_` of the node `node`.
unfoldable pub insert_after_node : LinkedList → (node after : ℕ) → Option LinkedList
insert_after_node d node after = do
  u ← d.next after
  let next1 = link d.next node (some u)
  u' ← next1 after
  some (record d {
    next = link next1 after (some node);
    prev = link (link d.prev u' (some node)) node (some after);
  })

-- `insertBefore_ListNode_`
unfoldable pub insert_before_node : LinkedList → (node before : ℕ) → Option LinkedList
insert_before_node d node before = do
  u ← d.prev before
  let prev1 = link d.prev node (some u)
  u' ← prev1 before
  some (record d {
    prev = link prev1 before (some node);
    next = link (link d.next u' (some node)) node (some before);
  })

-- `remove_ListNode_`
unfoldable pub remove_node : LinkedList → ℕ → Option LinkedList
remove_node d node = do
  u ← d.next node
  t ← d.prev node
  let prev1 = link d.prev u (some t)
  t' ← prev1 node
  let next1 = link d.next t' (some u)
  some (record d { next = link next1 node none; prev = link prev1 node none })

-- `insertAfter_List`, where `after` can be NULL.
unfoldable pub insert_after : LinkedList → (after : Option ℕ) → (node : ℕ) → Option LinkedList
insert_after d after node = do
  t ← elim after [ none ↦ d.prev root | some t ↦ some t ]
  d' ← insert_after_node d node t
  some (record d' { size = d.size + 1 })

unfoldable pub insert_before : LinkedList → (before : Option ℕ) → (node : ℕ) → Option LinkedList
insert_before d before node = do
  u ← elim before [ none ↦ d.next root | some u ↦ some u ]
  d' ← insert_before_node d node u
  some (record d' { size = d.size + 1 })

abbrev pub push_back : LinkedList → ℕ → Option LinkedList
push_back d node = insert_before d (some root) node

abbrev pub push_front : LinkedList → ℕ → Option LinkedList
push_front d node = insert_after d (some root) node

-- `remove_List`
unfoldable pub remove : LinkedList → ℕ → Option LinkedList
remove d node = do check (ltb 0 d.size); remove_node (record d { size = d.size - 1 }) node

-- `popFront_List` and `popBack_List`, with the node that they give.
unfoldable pub pop_front : LinkedList → Option (Option ℕ × LinkedList)
pop_front d =
    if d.size == 0
    then some (none, d)
    else (do node ← front d; d' ← remove d node; some (some node, d'))

unfoldable pub pop_back : LinkedList → Option (Option ℕ × LinkedList)
pop_back d =
    if d.size == 0
    then some (none, d)
    else (do node ← back d; d' ← remove d node; some (some node, d'))

-- `nextNode_List_` and `prevNode_List_` of a node that can be NULL.
abbrev pub next_node : LinkedList → Option ℕ → Option (Option ℕ)
next_node d none = some none
next_node d (some node) = do u ← d.next node; some (if u == root then none else some u)

abbrev pub prev_node : LinkedList → Option ℕ → Option (Option ℕ)
prev_node d none = some none
prev_node d (some node) = do t ← d.prev node; some (if t == root then none else some t)

-- `iListIterator`: the node, and the one after it, read before the node can be removed.
pub record Iterator : Type 0 where
  pub value : Option ℕ
  pub ahead : Option ℕ

-- `init_ListIterator` and `next_ListIterator`
unfoldable pub init_iterator : LinkedList → Option Iterator
init_iterator d = do
  value ← next_node d (some root)
  ahead ← next_node d value
  some (record { value = value; ahead = ahead })

unfoldable pub next_iterator : LinkedList → Iterator → Option Iterator
next_iterator d i = do ahead ← next_node d i.ahead; some (record { value = i.ahead; ahead = ahead })

-- `init_ListReverseIterator` and `next_ListReverseIterator`
unfoldable pub init_reverse : LinkedList → Option Iterator
init_reverse d = do
  value ← prev_node d (some root)
  ahead ← prev_node d value
  some (record { value = value; ahead = ahead })

unfoldable pub next_reverse : LinkedList → Iterator → Option Iterator
next_reverse d i = do ahead ← prev_node d i.ahead; some (record { value = i.ahead; ahead = ahead })

-- The loop `iForEach` with its iterator: the nodes that it visits. It does not end within the fuel
-- where the answer is none.
unfoldable pub visit : ℕ → LinkedList → Iterator → Option (List ℕ)
visit zero d i = none
visit (suc fuel) d i = elim i.value [
  | none ↦ some []
  | some node ↦ (do i' ← next_iterator d i; rest ← visit fuel d i'; some (node ∷ rest))
]

-- The loop `iReverseForEach` with its iterator.
unfoldable pub visit_reverse : ℕ → LinkedList → Iterator → Option (List ℕ)
visit_reverse zero d i = none
visit_reverse (suc fuel) d i = elim i.value [
  | none ↦ some []
  | some node ↦ (do i' ← next_reverse d i; rest ← visit_reverse fuel d i'; some (node ∷ rest))
]
