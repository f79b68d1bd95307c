-- ===== src/Map/Deletion.antt =====
-- The map that a removal makes, and what is found in it.
use the_foundation.Base.{
  ◌-◌, false, none, some, List, [], ◌∷◌, ◌++◌, length, length-append, ℤ, if◌then◌else◌, ◌≡◌, refl,
  sym, ap, ◌∙◌, arith, Bool-cases, inl, inr,
}
use the_foundation.SortedArray.{is_zero}
use the_foundation.SortedArray.Order.{IsOrder, Eqv, Eqv-sym, Eqv-trans}
use the_foundation.Map.{Map, value, Place, descend, removed, remove}
use the_foundation.Map.Repair.{Node, Tree, leaf, node, Frame, zip}
use the_foundation.Map.Balance.{verified-IsRooted}
use the_foundation.Map.Contents.{flat, before, behind, flat-zip}
use the_foundation.Map.Balance.{IsRooted}
use the_foundation.Map.Rising.{
  lookup, Below, Above, Rising, Around, around, lookup-Below, lookup-none, lookup-insert, Below-Eqv,
  Above-Eqv,
}
use the_foundation.Map.Descent.{IsMap, find-lookup, Reached, at_node, at_end}
use the_foundation.Map.Laws.{map-Reached, parts-append}
use the_foundation.Map.Unlinking.{remove_node-Unlinked}

-- What a removal of a key leaves.
pub record Removed (d : Map) (key : ℤ) (d' : Map) : Type 0 where
  pub valid : IsMap d'
  pub finds : (k : ℤ) → value d' k ≡ (if is_zero (d.cmp k key) then none else value d k)

-- In a map whose comparison is an order and whose tree is red-black, in order and of the size given, a
-- removal has no failed assertion, the check of the tree included, and no access through NULL; it
-- gives the node that the key had, leaves a map of that kind, and takes away what is found for keys
-- equal to the one removed only.
pub remove-Removed :
    (d : Map) (key : ℤ)
    → IsMap d
    → (d' : Map) × (remove d key ≡ some (value d key, d')) × Removed d key d'
unfolding remove
remove-Removed d key v = go (descend d.cmp key d.root []) (map-Reached d v key)
  where
    o : IsOrder d.cmp
    o = v.order

    gone :
        (l : Tree) (n : Node) (r : Tree) (path : List Frame) (root : Tree)
        → Eqv d.cmp key n.key
        → flat d.root ≡ (before path ++ flat l) ++ (n ∷ (flat r ++ behind path))
        → flat root ≡ (before path ++ flat l) ++ (flat r ++ behind path)
        → IsRooted root
        → (value d key ≡ some n) × Removed d key (record d { root = root; size = d.size - 1 })
    gone l n r path root same e e' rooted =
        let w = around o n xs ys (rw e at v.rising) in
        let rising : Rising d.cmp (flat root) = rw e' w.without in
        (
          find-lookup o key d.root v.rising
              ∙ ap (lookup d.cmp key) e
              ∙ lookup-insert o n key xs ys w.below
              ∙ rw same refl,
          record {
            valid = record {
              order = o;
              rooted = rooted;
              rising = rising;
              size_eq = omega (
                arith,
                v.size_eq,
                ap length e,
                ap length e',
                length-append xs (n ∷ ys),
                length-append xs ys,
              );
            };
            finds = λ k. find-lookup o k root rising ∙ ap (lookup d.cmp k) e' ∙ finds k w;
          },
        )
      where
        xs : List Node
        xs = before path ++ flat l

        ys : List Node
        ys = flat r ++ behind path

        value-eq :
            (k : ℤ)
            → Around o n xs ys
            → value d k ≡ (if is_zero (d.cmp k n.key) then some n else lookup d.cmp k (xs ++ ys))
        value-eq k w =
            find-lookup o k d.root v.rising
            ∙ ap (lookup d.cmp k) e
            ∙ lookup-insert o n k xs ys w.below

        finds :
            (k : ℤ)
            → Around o n xs ys
            → lookup d.cmp k (xs ++ ys) ≡ (if is_zero (d.cmp k key) then none else value d k)
        finds k w = elim (Bool-cases (is_zero (d.cmp k key))) [
          | inl z ↦
              let at : Eqv d.cmp k n.key = Eqv-trans o k key n.key z same in
              rw z (
                lookup-Below o k xs ys (Below-Eqv o n.key k xs w.below (Eqv-sym o k n.key at))
                ∙ lookup-none o k ys (Above-Eqv o n.key k ys w.above (Eqv-sym o k n.key at)))
          | inr z ↦
              let other : is_zero (d.cmp k n.key) ≡ false =
                elim (Bool-cases (is_zero (d.cmp k n.key))) [
                  | inl h ↦ cc (Eqv-trans o k n.key key h (Eqv-sym o key n.key same))
                  | inr h ↦ h
                ] in
              rw z (sym (value-eq k w ∙ rw other refl))
        ]

    absent :
        (path : List Frame)
        → zip leaf path ≡ d.root
        → Below d.cmp key (before path)
        → Above d.cmp key (behind path)
        → (value d key ≡ none) × Removed d key d
    absent path e b a = (
      none_at key b a,
      record {
        valid = v;
        finds = λ k. elim (Bool-cases (is_zero (d.cmp k key))) [
          | inl z ↦ rw z (
              none_at k (Below-Eqv o key k (before path) b (Eqv-sym o k key z))
                (Above-Eqv o key k (behind path) a (Eqv-sym o k key z)))
          | inr z ↦ rw z refl
        ];
      },
    )
      where
        none_at :
            (k : ℤ) → Below d.cmp k (before path) → Above d.cmp k (behind path) → value d k ≡ none
        none_at k b a =
            find-lookup o k d.root v.rising
            ∙ ap (lookup d.cmp k) (ap flat (sym e) ∙ flat-zip leaf path)
            ∙ lookup-Below o k (before path) (behind path) b
            ∙ lookup-none o k (behind path) a

    go :
        (p : Place)
        → Reached o key d.root p
        → (d' : Map) × (removed d p ≡ some (value d key, d')) × Removed d key d'
    go place (at_node c l n r path same e s) =
        let m = remove_node-Unlinked c l n r path s in
        let parts =
          ap flat (sym e)
          ∙ flat-zip (node c l n r) path
          ∙ parts-append (before path) (flat l) n (flat r) (behind path) in
        let (found_n, i) = gone l n r path m.root same parts m.order m.rooted in
        (
          record d { root = m.root; size = d.size - 1 },
          rw (m.ran, verified-IsRooted m.root m.rooted, found_n) refl,
          i,
        )
    go place (at_end path e b a fits) =
        let (none_there, i) = absent path e b a in (d, rw none_there refl, i)
