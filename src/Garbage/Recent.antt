-- ===== src/Garbage/Recent.antt =====
-- The assertion of `push_Collected_`: it fails exactly for a pointer among the last eight.
use the_foundation.Base.{
  ℕ, zero, suc, ◌-◌, ◌≤◌, ◌<◌, Bool, true, false, not, ◌&&◌, ◌||◌, Option, none, some, List, [],
  ◌∷◌, ◌++◌, length, get_elem?, ltb, leb, ◌==◌, ==_iff, ◌≡◌, ◌≢◌, ◌↔◌, refl, sym, ap, ◌∙◌, arith,
  Bool-cases, inl, inr, check, ◌>>◌,
}
use the_foundation.Garbage.{
  CollectedPtr, Collected, ptr_at, ptr_of, previous, is_new, is_deref, is_full, with_room,
  push_back, push,
}
use the_foundation.Garbage.Stack.{contents, IsStack}

get_elem?-append_left :
    (xs ys : List CollectedPtr) (i : ℕ) → i < length xs → get_elem? (xs ++ ys) i ≡ get_elem? xs i
get_elem?-append_left [] ys i h = absurd (omega (arith, h))
get_elem?-append_left (x ∷ xs) ys zero h = refl
get_elem?-append_left (x ∷ xs) ys (suc i) h = get_elem?-append_left xs ys i (omega (arith, h))

get_elem?-append_right :
    (xs ys : List CollectedPtr) (i : ℕ)
    → length xs ≤ i
    → get_elem? (xs ++ ys) i ≡ get_elem? ys (i - length xs)
get_elem?-append_right [] ys i h = ap (get_elem? ys) (omega arith)
get_elem?-append_right (x ∷ xs) ys zero h = absurd (omega (arith, h))
get_elem?-append_right (x ∷ xs) ys (suc i) h =
    get_elem?-append_right xs ys i (omega (arith, h)) ∙ ap (get_elem? ys) (omega arith)

-- Up to 32 places before the end, both nodes together have what was collected there.
previous-ptr_at :
    (nodes : List (List CollectedPtr)) (n : ℕ)
    → IsStack nodes
    → 0 < n
    → n ≤ 32
    → previous nodes n ≡ ptr_at (contents nodes) n
unfolding previous
previous-ptr_at [] n s more most = refl
previous-ptr_at (node ∷ []) n s more most = elim (Bool-cases (ltb (length node) n)) [
  | inl h ↦ rw h (ap ptr_of (sym (get_elem?-append_right node [] (n - 1) (ground (arith, h)))))
  | inr h ↦ rw h (ap ptr_of (sym (get_elem?-append_left node [] (n - 1) (ground (arith, h, more)))))
]
previous-ptr_at (node ∷ node' ∷ nodes) n (s, (full, rest)) more most =
    elim (Bool-cases (ltb (length node) n)) [
      | inl h ↦
          let inside : n - length node - 1 < length node' = ground (arith, h, full, most) in
          let here : leb (n - length node) (length node') ≡ true = ground (arith, full, most) in
          let same : n - 1 - length node ≡ n - length node - 1 = omega arith in
          let behind : get_elem? (node ++ (node' ++ contents nodes)) (n - 1)
              ≡ get_elem? node' (n - length node - 1) =
            get_elem?-append_right node (node' ++ contents nodes) (n - 1) (ground (arith, h))
            ∙ ap (get_elem? (node' ++ contents nodes)) same
            ∙ get_elem?-append_left node' (contents nodes) (n - length node - 1) inside in
          rw (h, here) (ap ptr_of (sym behind))
      | inr h ↦ rw h (
          ap ptr_of (
            sym (
              get_elem?-append_left node (node' ++ contents nodes) (n - 1)
                (ground (arith, h, more)))))
    ]

-- A pointer is among the last `n`.
abbrev pub Recent : List CollectedPtr → ℕ → ℕ → Type 0
Recent xs p n = (i : ℕ) × (i < n) × ((a : CollectedPtr) × (get_elem? xs i ≡ some a) × (a.ptr ≡ p))

is_new-Recent :
    (nodes : List (List CollectedPtr)) (p n : ℕ)
    → IsStack nodes
    → p ≢ 0
    → n ≤ 32
    → (is_new nodes p n ≡ false) ↔ Recent (contents nodes) p n
unfolding is_new
is_new-Recent nodes p zero s ne most = (λ e. cc, λ (i, h, r). absurd (omega (arith, h)))
is_new-Recent nodes p (suc n) s ne most =
    let index : suc n - 1 ≡ n = omega arith in
    let same : previous nodes (suc n) ≡ ptr_of (get_elem? (contents nodes) n) =
      previous-ptr_at nodes (suc n) s (omega arith) most
      ∙ ap (λ i. ptr_of (get_elem? (contents nodes) i)) index in
    let rest = is_new-Recent nodes p n s ne (omega (arith, most)) in (to same rest, from same rest)
  where
    at : (o : Option CollectedPtr) → ptr_of o ≡ p → (a : CollectedPtr) × (o ≡ some a) × (a.ptr ≡ p)
    at none e = absurd (ne (sym e))
    at (some a) e = (a, refl, e)

    to :
        previous nodes (suc n) ≡ ptr_of (get_elem? (contents nodes) n)
        → (is_new nodes p n ≡ false) ↔ Recent (contents nodes) p n
        → (is_new nodes p n && not (previous nodes (suc n) == p)) ≡ false
        → Recent (contents nodes) p (suc n)
    to same rest e = elim (Bool-cases (is_new nodes p n)) [
      | inl h ↦
          let here : previous nodes (suc n) ≡ p = ground (arith, e, h) in
          (n, omega arith, at (get_elem? (contents nodes) n) (sym same ∙ here))
      | inr h ↦ let (i, less, r) = rest.0 h in (i, omega (arith, less), r)
    ]

    from :
        previous nodes (suc n) ≡ ptr_of (get_elem? (contents nodes) n)
        → (is_new nodes p n ≡ false) ↔ Recent (contents nodes) p n
        → Recent (contents nodes) p (suc n)
        → (is_new nodes p n && not (previous nodes (suc n) == p)) ≡ false
    from same rest (i, less, (a, e, q)) = elim (Bool-cases (i == n)) [
      | inl h ↦
          let last : i ≡ n = (==_iff i n).0 h in
          let here : previous nodes (suc n) ≡ p =
            same ∙ ap (λ i. ptr_of (get_elem? (contents nodes) i)) (sym last) ∙ ap ptr_of e ∙ q in
          ground (arith, here)
      | inr h ↦ rw (rest.1 (i, ground (arith, h, less), (a, e, q))) refl
    ]

with_room-IsStack :
    (nodes : List (List CollectedPtr))
    → IsStack nodes
    → IsStack (with_room nodes) × (contents (with_room nodes) ≡ contents nodes)
with_room-IsStack [] s = ((omega arith, tt), refl)
with_room-IsStack (node ∷ nodes) (s, more) = elim (Bool-cases (is_full node)) [
  | inl f ↦ rw f ((omega arith, (ground (arith, f), more)), refl)
  | inr f ↦ rw f ((s, more), refl)
]

check_iff : (b : Bool) (d : Collected) → ((check b >> some d) ≡ none) ↔ (b ≡ false)
check_iff true d = (λ e. cc, λ e. cc)
check_iff false d = (λ e. refl, λ e. refl)

-- Collecting fails, by its assertion, exactly for a pointer that is not NULL, that is not to be
-- dereferenced as an object, and that is among the last eight collected. The nodes are a stack.
pub push_iff :
    (d : Collected) (a : CollectedPtr)
    → IsStack d.nodes
    → (push d a ≡ none) ↔ ((a.ptr ≢ 0) × (is_deref a ≡ false) × Recent (contents d.nodes) a.ptr 8)
unfolding push
push_iff d a s =
    let (room, same) = with_room-IsStack d.nodes s in
    let nodes = with_room d.nodes in
    let failed =
      check_iff (a.ptr == 0 || is_deref a || is_new nodes a.ptr 8)
        (record d { nodes = push_back nodes a }) in
    (
      λ e.
          let b = failed.0 e in
          let ne : a.ptr ≢ 0 = ground (arith, b) in
          let old : is_new nodes a.ptr 8 ≡ false = ground (arith, b) in
          (
            ne,
            ground (arith, b),
            rw (← same) ((is_new-Recent nodes a.ptr 8 room ne (omega arith)).0 old),
          ),
      λ (ne, no_deref, r).
          let old : is_new nodes a.ptr 8 ≡ false =
            (is_new-Recent nodes a.ptr 8 room ne (omega arith)).1 (rw same r) in
          failed.1 (ground (arith, ne, no_deref, old)),
    )
