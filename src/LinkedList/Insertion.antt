-- ===== src/LinkedList/Insertion.antt =====
-- Insertion of a node that is not in the list.
use the_foundation.Base.{
  All-split, ℕ, ◌+◌, Option, some, List, [], ◌∷◌, ◌++◌, length-append, append-nil, ◌≡◌, ◌≢◌, refl,
  sym, arith, ==-false,
}
use the_foundation.LinkedList.{
  LinkedList, root, link, insert_after_node, insert_before_node, insert_after, insert_before,
  push_back, push_front, clear,
}
use the_foundation.LinkedList.Chain.{
  Without, IsList, last_of, first_of, next-place, relink, insert-Distinct, last_of-ne, first_of-ne,
}

module _ {d : LinkedList} (n : ℕ) (ys zs : List ℕ) (v : IsList d (ys ++ zs)) (ne : n ≢ root)
    (new : Without n (ys ++ zs)) where
  abbrev t : ℕ
  t = last_of root ys

  abbrev u : ℕ
  u = first_of zs root

  t-ne : t ≢ n
  t-ne = last_of-ne root n ys (λ e. ne (sym e)) ((All-split (λ x. x ≢ n) ys zs new).0)

  u-ne : u ≢ n
  u-ne = first_of-ne root n zs (λ e. ne (sym e)) ((All-split (λ x. x ≢ n) ys zs new).1)

  -- The links that both insertions make.
  abbrev next' : ℕ → Option ℕ
  next' = link (link d.next n (some u)) t (some n)

  abbrev prev' : ℕ → Option ℕ
  prev' = link (link d.prev u (some n)) n (some t)

  inserted-IsList :
      (e : LinkedList)
      → ((j : ℕ) → e.next j ≡ next' j)
      → ((j : ℕ) → e.prev j ≡ prev' j)
      → e.size ≡ d.size + 1
      → IsList e (ys ++ (n ∷ zs))
  inserted-IsList e en ep es =
      let (wr, di) = v.distinct in
      record {
        links =
            relink root root ys [] (n ∷ []) zs
              (record {
                next_same = λ j jn jt. ground (arith, en j);
                prev_same = λ j jn ju. ground (arith, ep j);
              })
              v.links
              (
                ground (arith, en t),
                ground (arith, ep n),
                (ground (arith, en n, t-ne), ground (arith, ep u, u-ne)),
              )
              (λ h. ne (sym h)) (λ h. ne (sym h)) new di wr wr;
        distinct = insert-Distinct n (root ∷ ys) zs ((λ h. ne (sym h)), new) (wr, di);
        size_eq = omega (arith, es, v.size_eq, length-append ys zs, length-append ys (n ∷ zs));
      }

  -- A node that is not in a list and is not its root is inserted after the root or any node of the
  -- list without a fault: the list then holds the nodes up to that place, the new one, and the
  -- others, linked both ways and counted.
  pub insert_after-IsList :
      (d' : LinkedList) × (insert_after d (some (last_of root ys)) n ≡ some d')
      × IsList d' (ys ++ (n ∷ zs))
  unfolding insert_after insert_after_node
  insert_after-IsList =
      let (e, e') = next-place d.next d.prev root root ys zs v.links in
      (
        record { next = next'; prev = prev'; size = d.size + 1 },
        rw (e, ==-false t n t-ne) refl,
        inserted-IsList (record { next = next'; prev = prev'; size = d.size + 1 }) (λ j. refl)
            (λ j. refl) refl,
      )

  pub insert_before-IsList :
      (d' : LinkedList) × (insert_before d (some (first_of zs root)) n ≡ some d')
      × IsList d' (ys ++ (n ∷ zs))
  unfolding insert_before insert_before_node
  insert_before-IsList =
      let (e, e') = next-place d.next d.prev root root ys zs v.links in
      (
        made,
        rw (e', ==-false u n u-ne) refl,
        inserted-IsList made (λ j. ground (arith, t-ne)) (λ j. ground (arith, u-ne)) refl,
      )
    where
      made : LinkedList
      made = record {
        prev = link (link d.prev n (some t)) u (some n);
        next = link (link d.next t (some n)) n (some u);
        size = d.size + 1;
      }

-- A node that is not in a list becomes its last one, and its first one.
pub push_back-IsList :
    {d : LinkedList} (n : ℕ) (xs : List ℕ)
    → IsList d xs
    → n ≢ root
    → Without n xs
    → (d' : LinkedList) × (push_back d n ≡ some d') × IsList d' (xs ++ (n ∷ []))
push_back-IsList {d} n xs v ne new =
    insert_before-IsList n xs [] (rw (append-nil xs) v) ne (rw (append-nil xs) new)

pub push_front-IsList :
    {d : LinkedList} (n : ℕ) (xs : List ℕ)
    → IsList d xs
    → n ≢ root
    → Without n xs
    → (d' : LinkedList) × (push_front d n ≡ some d') × IsList d' (n ∷ xs)
push_front-IsList n xs v ne new = insert_after-IsList n [] xs v ne new

pub clear-IsList : (d : LinkedList) → IsList (clear d) []
unfolding clear
clear-IsList d = record { links = (refl, refl); distinct = (tt, tt); size_eq = refl }
