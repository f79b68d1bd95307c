-- ===== src/Hash/Nodes.antt =====
-- The lists of nodes at the leaves: searching, unlinking and dividing them.
use the_foundation.Base.{
  ℕ, ◌≤◌, Option, none, some, List, [], ◌∷◌, ◌==◌, ◌≡◌, ◌≢◌, refl, arith, length, Bool-cases, inl,
  inr, ==_iff, ==-true, ==-false, ◌∙◌,
}
use the_foundation.Hash.{Node, lookup, unlink, remove_from, divide, add_node, digit}

-- All nodes have keys with the property; no key occurs twice.
abbrev pub AllKeys : (ℕ → Type 0) → List Node → Type 0
AllKeys P [] = Unit {0}
AllKeys P (n ∷ ns) = P n.key × AllKeys P ns

abbrev pub IsDistinct : List Node → Type 0
IsDistinct [] = Unit {0}
IsDistinct (n ∷ ns) = (lookup n.key ns ≡ none) × IsDistinct ns

pub AllKeys-map :
    (P Q : ℕ → Type 0) (ns : List Node) → ((k : ℕ) → P k → Q k) → AllKeys P ns → AllKeys Q ns
AllKeys-map P Q [] f h = tt
AllKeys-map P Q (n ∷ ns) f h = (f n.key h.0, AllKeys-map P Q ns f h.1)

-- Unlinking a key takes its node out of the list, and no other.
pub unlink-existing : (key : ℕ) (ns : List Node) → (unlink key ns).0 ≡ lookup key ns
unfolding unlink
unlink-existing key [] = refl
unlink-existing key (n ∷ ns) = ground (arith, unlink-existing key ns)

pub unlink-lookup :
    (key j : ℕ) (ns : List Node) → j ≢ key → lookup j (unlink key ns).2 ≡ lookup j ns
unfolding unlink
unlink-lookup key j [] h = refl
unlink-lookup key j (n ∷ ns) h = ground (arith, unlink-lookup key j ns)

pub unlink-gone : (key : ℕ) (ns : List Node) → IsDistinct ns → lookup key (unlink key ns).2 ≡ none
unfolding unlink
unlink-gone key [] d = refl
unlink-gone key (n ∷ ns) d = elim (Bool-cases (n.key == key)) [
  | inl e ↦ rw (e, ← (==_iff n.key key).0 e) d.0
  | inr e ↦ rw (e, e) (unlink-gone key ns d.1)
]

pub unlink-AllKeys :
    (P : ℕ → Type 0) (key : ℕ) (ns : List Node) → AllKeys P ns → AllKeys P (unlink key ns).2
unfolding unlink
unlink-AllKeys P key [] h = tt
unlink-AllKeys P key (n ∷ ns) h = elim (Bool-cases (n.key == key)) [
  | inl e ↦ rw e h.1
  | inr e ↦ rw e (h.0, unlink-AllKeys P key ns h.1)
]

pub unlink-IsDistinct : (key : ℕ) (ns : List Node) → IsDistinct ns → IsDistinct (unlink key ns).2
unfolding unlink
unlink-IsDistinct key [] d = tt
unlink-IsDistinct key (n ∷ ns) d = elim (Bool-cases (n.key == key)) [
  | inl e ↦ rw e d.1
  | inr e ↦
      rw e (unlink-lookup key n.key ns (ground (arith, e)) ∙ d.0, unlink-IsDistinct key ns d.1)
]

pub unlink-count : (key : ℕ) (ns : List Node) → (unlink key ns).1 ≤ length ns
unfolding unlink
unlink-count key [] = omega arith
unlink-count key (n ∷ ns) = ground (arith, unlink-count key ns)

-- `remove_HashBucket_` walks the same list.
pub remove_from-unlink :
    (key : ℕ) (ns : List Node)
    → ((remove_from key ns).0 ≡ (unlink key ns).0) × ((remove_from key ns).1 ≡ (unlink key ns).2)
unfolding unlink remove_from
remove_from-unlink key [] = (refl, refl)
remove_from-unlink key (n ∷ ns) = elim (Bool-cases (n.key == key)) [
  | inl e ↦ (rw e, rw e)
  | inr e ↦ let (same, rest) = remove_from-unlink key ns in (rw (e, same), rw (e, rest))
]

-- Nodes with one key only are one node at most.
pub length_of_one_key :
    (key : ℕ) (ns : List Node) → AllKeys (λ k. k ≡ key) ns → IsDistinct ns → length ns ≤ 1
length_of_one_key key [] h d = omega arith
length_of_one_key key (n ∷ []) h d = omega arith
length_of_one_key key (n ∷ m ∷ ns) h d = ground (arith, h.0, h.1, d.0)

abbrev pub or_else : Option Node → Option Node → Option Node
or_else none o = o
or_else (some n) o = some n

pub or_else-none : (o : Option Node) → or_else o none ≡ o
or_else-none none = refl
or_else-none (some n) = refl

pub none_yet : (ns : List Node) → AllKeys (λ k. lookup k [] ≡ none) ns
none_yet [] = tt
none_yet (n ∷ ns) = (refl, none_yet ns)

-- One node more in one of the lists.
pub AllKeys-add_node :
    (P : ℕ → ℕ → Type 0) (lists : ℕ → List Node) (n : Node) (i j : ℕ)
    → P i n.key
    → AllKeys (P j) (lists j)
    → AllKeys (P j) (add_node lists i n j)
AllKeys-add_node P lists n i j new old = elim (Bool-cases (j == i)) [
  | inl e ↦ rw e (rw (← (==_iff j i).0 e) at new, old)
  | inr e ↦ rw e old
]

pub IsDistinct-add_node :
    (lists : ℕ → List Node) (n : Node) (i j : ℕ)
    → lookup n.key (lists i) ≡ none
    → IsDistinct (lists j)
    → IsDistinct (add_node lists i n j)
IsDistinct-add_node lists n i j new old = elim (Bool-cases (j == i)) [
  | inl e ↦ rw e (rw (← (==_iff j i).0 e) at new, old)
  | inr e ↦ rw e old
]

-- The divided lists hold what the list held, each node in the list of its digit.
module _ (depth : ℕ) where
  add_node_self :
      (key : ℕ) (lists : ℕ → List Node) (n : Node)
      → n.key ≡ key
      → lookup key (add_node lists (digit n.key depth) n (digit key depth)) ≡ some n
  add_node_self key lists n e =
      rw (← e, ==-true (digit n.key depth) (digit n.key depth) refl, ==-true n.key n.key refl)

  pub add_node-other :
      (key i j : ℕ) (lists : ℕ → List Node) (n : Node)
      → n.key ≢ key
      → lookup key (add_node lists i n j) ≡ lookup key (lists j)
  add_node-other key i j lists n ne = elim (Bool-cases (j == i)) [
    | inl e ↦ rw (e, ==-false n.key key ne)
    | inr e ↦ rw e
  ]

  pub lookup-divide :
      (key : ℕ) (lists : ℕ → List Node) (ns : List Node)
      → IsDistinct ns
      → lookup key (divide depth lists ns (digit key depth))
        ≡ or_else (lookup key ns) (lookup key (lists (digit key depth)))
  unfolding divide
  lookup-divide key lists [] d = refl
  lookup-divide key lists (n ∷ ns) d =
      let lists' = add_node lists (digit n.key depth) n in
      elim (Bool-cases (n.key == key)) [
        | inl e ↦
            let same : n.key ≡ key = (==_iff n.key key).0 e in
            lookup-divide key lists' ns d.1
            ∙ rw (e, rw same at d.0) (add_node_self key lists n same)
        | inr e ↦
            lookup-divide key lists' ns d.1
            ∙ rw (
              e,
              add_node-other key (digit n.key depth) (digit key depth) lists n (ground (arith, e)),
            )
      ]

  pub AllKeys-divide :
      (P : ℕ → ℕ → Type 0) (lists : ℕ → List Node) (ns : List Node)
      → ((i : ℕ) → AllKeys (P i) (lists i))
      → AllKeys (λ k. P (digit k depth) k) ns
      → (i : ℕ) → AllKeys (P i) (divide depth lists ns i)
  unfolding divide
  AllKeys-divide P lists [] h all i = h i
  AllKeys-divide P lists (n ∷ ns) h all i =
      AllKeys-divide P (add_node lists (digit n.key depth) n) ns
        (λ j. AllKeys-add_node P lists n (digit n.key depth) j all.0 (h j)) all.1 i

  -- Keys that the lists do not hold yet.
  abbrev pub AllFresh : (ℕ → List Node) → List Node → Type 0
  AllFresh lists ns = (i : ℕ) → AllKeys (λ k. lookup k (lists i) ≡ none) ns

  fresh-add_node :
      (lists : ℕ → List Node) (n : Node) (i : ℕ) (ns : List Node)
      → lookup n.key ns ≡ none
      → AllKeys (λ k. lookup k (lists i) ≡ none) ns
      → AllKeys (λ k. lookup k (add_node lists (digit n.key depth) n i) ≡ none) ns
  fresh-add_node lists n i [] d h = tt
  fresh-add_node lists n i (m ∷ ns) d h = elim (Bool-cases (m.key == n.key)) [
    | inl e ↦ cc (rw e at d)
    | inr e ↦ (
      add_node-other m.key (digit n.key depth) i lists n (ground (arith, e)) ∙ h.0,
      fresh-add_node lists n i ns (rw e at d) h.1,
    )
  ]

  pub IsDistinct-divide :
      (lists : ℕ → List Node) (ns : List Node)
      → ((i : ℕ) → IsDistinct (lists i))
      → AllFresh lists ns
      → IsDistinct ns
      → (i : ℕ) → IsDistinct (divide depth lists ns i)
  unfolding divide
  IsDistinct-divide lists [] h fresh d i = h i
  IsDistinct-divide lists (n ∷ ns) h fresh d i =
      IsDistinct-divide (add_node lists (digit n.key depth) n) ns
        (λ j. IsDistinct-add_node lists n (digit n.key depth) j (fresh (digit n.key depth)).0 (h j))
        (λ j. fresh-add_node lists n j ns d.0 (fresh j).1) d.1 i
