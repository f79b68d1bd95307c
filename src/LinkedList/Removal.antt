-- ===== src/LinkedList/Removal.antt =====
-- Removal of a node of the list, anywhere or at an end.
use the_foundation.Base.{
  All-split, ℕ, ◌-◌, none, some, true, List, [], ◌∷◌, ◌++◌, length-append, append-nil, ltb, lt→ltb,
  ◌≡◌, ◌≢◌, refl, sym, arith, ==-false,
}
use the_foundation.LinkedList.{
  LinkedList, root, link, remove_node, remove, pop_front, pop_back, back,
}
use the_foundation.LinkedList.Chain.{
  Without, Distinct, IsList, last_of, first_of, next-place, next-after, prev-after, relink,
  remove-Distinct, last_of-ne, first_of-ne,
}

module _ {d : LinkedList} (n : ℕ) (ys zs : List ℕ) (v : IsList d (ys ++ (n ∷ zs))) where
  abbrev t : ℕ
  t = last_of root ys

  abbrev u : ℕ
  u = first_of zs root

  apart : Without n (root ∷ (ys ++ zs)) × Distinct (root ∷ (ys ++ zs))
  apart = remove-Distinct n (root ∷ ys) zs v.distinct

  t-ne : t ≢ n
  t-ne = last_of-ne root n ys (apart.0.0) ((All-split (λ x. x ≢ n) ys zs (apart.0.1)).0)

  u-ne : u ≢ n
  u-ne = first_of-ne root n zs (apart.0.0) ((All-split (λ x. x ≢ n) ys zs (apart.0.1)).1)

  removed : LinkedList
  removed = record {
    next = link (link d.next t (some u)) n none;
    prev = link (link d.prev u (some t)) n none;
    size = d.size - 1;
  }

  -- A node of a list is removed without a fault, wherever it is: the list holds the others in order,
  -- linked both ways and counted, and the node's own links are NULL.
  pub remove-IsList :
      (d' : LinkedList) × (remove d n ≡ some d')
      × IsList d' (ys ++ zs)
      × (d'.next n ≡ none)
      × (d'.prev n ≡ none)
  unfolding remove remove_node removed
  remove-IsList =
      let (e, e') = next-place d.next d.prev root root ys (n ∷ zs) v.links in
      let (wn, di) = apart in
      (
        removed,
        rw
            (
              some_left,
              next-after d.next d.prev root root n ys zs v.links,
              e',
              ==-false n u (λ h. u-ne (sym h)),
            )
            refl,
        record {
          links =
              relink root root ys (n ∷ []) [] zs
                (record {
                  next_same = λ j jn jt. ground arith;
                  prev_same = λ j jn ju. ground arith;
                })
                v.links (ground (arith, t-ne), ground (arith, u-ne)) (wn.0) (wn.0) (wn.1) (di.1)
                (di.0) (di.0);
          distinct = di;
          size_eq = omega (arith, v.size_eq, length-append ys zs, length-append ys (n ∷ zs));
        },
        ground arith,
        ground arith,
      )
    where
      some_left : ltb 0 d.size ≡ true
      some_left = lt→ltb 0 d.size (omega (arith, v.size_eq, length-append ys (n ∷ zs)))

-- The first node of a list is taken from it, or none where there is none.
pub pop_front-IsList :
    {d : LinkedList} (n : ℕ) (xs : List ℕ)
    → IsList d (n ∷ xs)
    → (d' : LinkedList) × (pop_front d ≡ some (some n, d')) × IsList d' xs
unfolding pop_front
pop_front-IsList {d} n xs v =
    let (d', run, v', e, e') = remove-IsList n [] xs v in
    let (at, back) = next-place d.next d.prev root root [] (n ∷ xs) v.links in
    (
      d',
      rw
          (
            ==-false d.size 0 (λ h. omega (arith, v.size_eq)),
            lt→ltb 0 d.size (omega (arith, v.size_eq)),
            at,
            run,
          )
          refl,
      v',
    )

-- The last one.
pub pop_back-IsList :
    {d : LinkedList} (n : ℕ) (xs : List ℕ)
    → IsList d (xs ++ (n ∷ []))
    → (d' : LinkedList) × (pop_back d ≡ some (some n, d')) × IsList d' xs
unfolding pop_back
pop_back-IsList {d} n xs v =
    let (d', run, v', e, e') = remove-IsList n xs [] v in
    (
      d',
      rw
          (
            ==-false d.size 0 (λ h. omega (arith, v.size_eq, length-append xs (n ∷ []))),
            lt→ltb 0 d.size (omega (arith, v.size_eq, length-append xs (n ∷ []))),
            prev-after d.next d.prev root root n xs [] v.links,
            run,
          )
          refl,
      rw (append-nil xs) at v',
    )
