-- ===== src/Map/Laws.antt =====
-- The map that an insertion makes, and what is found in it.
use the_foundation.Base.{
  ℕ, suc, ◌+◌, Bool, true, false, none, some, List, [], ◌∷◌, ◌++◌, append_assoc, length,
  length-append, ℤ, if◌then◌else◌, ◌>>=◌, ◌>>◌, ◌≡◌, refl, sym, ap, ◌∙◌, arith, Bool-cases, inl,
  inr,
}
use the_foundation.SortedArray.{is_zero}
use the_foundation.SortedArray.Order.{IsOrder, Eqv, Eqv-sym, Eqv-trans}
use the_foundation.Map.{Map, value, Place, descend, insert_at, counted, insert}
use the_foundation.Map.Repair.{
  Node, Tree, leaf, node, Color, red, black, Frame, zip, repair_insert, verified,
}
use the_foundation.Map.Contents.{flat, before, behind, flat-zip}
use the_foundation.Map.Balance.{IsRb, Allowed, IsRooted, zip-IsRooted, verified-IsRooted}
use the_foundation.Map.Raising.{Repaired}
use the_foundation.Map.Insert.{repair_insert-Repaired}
use the_foundation.Map.Rising.{
  lookup, Below, Above, Rising, around, lookup-Below, lookup-none, lookup-insert, insert-Rising,
  Below-Eqv, Above-Eqv,
}
use the_foundation.Map.Descent.{
  IsMap, Stands, find-lookup, Reached, at_node, at_end, descend-Reached,
}

-- The place of a key in a whole map.
pub map-Reached :
    (d : Map) (v : IsMap d) (key : ℤ) → Reached v.order key d.root (descend d.cmp key d.root [])
map-Reached d v key =
    descend-Reached v.order key d.root [] v.rising
      (record {
        height = v.rooted.height;
        balanced = v.rooted.balanced;
        fits = tt;
        allowed = v.rooted.black_root;
      })
      tt tt

-- What an insertion leaves, when it gives the node `old`.
pub record Inserted (d : Map) (new : Node) (d' : Map) : Type 0 where
  pub valid : IsMap d'
  pub finds :
      (key : ℤ) → value d' key ≡ (if is_zero (d.cmp key new.key) then some new else value d key)

-- A tree with one node more, or with one in place of an equal one.
added :
    (d : Map) (v : IsMap d) (new : Node) (xs ys old : List Node) (root : Tree) (n : ℕ)
    → flat d.root ≡ xs ++ (old ++ ys)
    → flat root ≡ xs ++ (new ∷ ys)
    → IsRooted root
    → Below d.cmp new.key xs
    → Above d.cmp new.key ys
    → Rising d.cmp (xs ++ ys)
    → n ≡ suc (length (xs ++ ys))
    → ((key : ℤ)
        → is_zero (d.cmp key new.key) ≡ false
        → lookup d.cmp key (xs ++ (old ++ ys)) ≡ lookup d.cmp key (xs ++ ys))
    → Inserted d new (record d { root = root; size = n })
added d v new xs ys old root n e e' rooted b a r count others = record {
  valid = record {
    order = v.order;
    rooted = rooted;
    rising = rising;
    size_eq = omega (arith, count, ap length e', length-append xs (new ∷ ys), length-append xs ys);
  };
  finds = λ key.
      find-lookup v.order key root rising
      ∙ ap (lookup d.cmp key) e'
      ∙ lookup-insert v.order new key xs ys b
      ∙ found_else key (is_zero (d.cmp key new.key)) refl;
}
  where
    rising : Rising d.cmp (flat root)
    rising = rw e' (insert-Rising v.order new xs ys r b a)

    found_else :
        (key : ℤ) (z : Bool)
        → is_zero (d.cmp key new.key) ≡ z
        → (if z then some new else lookup d.cmp key (xs ++ ys))
          ≡ (if z then some new else value d key)
    found_else key true h = refl
    found_else key false h =
        sym (find-lookup v.order key d.root v.rising ∙ ap (lookup d.cmp key) e ∙ others key h)

-- The parts of a tree in a path, around its node.
pub parts-append :
    (b l : List Node) (n : Node) (r e : List Node)
    → b ++ ((l ++ (n ∷ r)) ++ e) ≡ (b ++ l) ++ (n ∷ (r ++ e))
parts-append b l n r e =
    ap (λ t. b ++ t) (append_assoc l (n ∷ r) e) ∙ sym (append_assoc b l (n ∷ (r ++ e)))

-- Another node in the place of one.
pub replaced-Stands :
    (c : Color) (l : Tree) (n new : Node) (r : Tree) (path : List Frame)
    → Stands (node c l n r) path
    → Stands (node c l new r) path
replaced-Stands c l n new r path v = record {
  height = v.height;
  balanced = same c v.balanced;
  fits = v.fits;
  allowed = same_allowed path v.allowed;
}
  where
    same : (c : Color) → IsRb (node c l n r) v.height → IsRb (node c l new r) v.height
    same red b = b
    same black b = b

    same_allowed : (path : List Frame) → Allowed (node c l n r) path → Allowed (node c l new r) path
    same_allowed [] a = a
    same_allowed (f ∷ path) a = a

-- In a map whose comparison is an order and whose tree is red-black, in order and of the size given,
-- an insertion has no failed assertion, the check of the tree included, and no access through NULL; it
-- gives the node that an equal key had, leaves a map of that kind, and changes what is found for keys
-- equal to the node's only.
pub insert-Inserted :
    (d : Map) (new : Node)
    → IsMap d
    → (d' : Map) × (insert d new ≡ some (value d new.key, d')) × Inserted d new d'
unfolding insert insert_at
insert-Inserted d new v = go (descend d.cmp new.key d.root []) (map-Reached d v new.key)
  where
    o : IsOrder d.cmp
    o = v.order

    present :
        (c : Color) (l : Tree) (n : Node) (r : Tree) (path : List Frame)
        → Eqv d.cmp new.key n.key
        → zip (node c l n r) path ≡ d.root
        → Stands (node c l new r) path
        → (value d new.key ≡ some n)
          × Inserted d new (record d { root = zip (node c l new r) path })
    present c l n r path same e s =
        let w = around o n xs ys (rw parts at v.rising) in
        let b = Below-Eqv o n.key new.key xs w.below (Eqv-sym o new.key n.key same) in
        (
          find-lookup o new.key d.root v.rising
              ∙ ap (lookup d.cmp new.key) parts
              ∙ lookup-insert o n new.key xs ys w.below
              ∙ rw same refl,
          added d v new xs ys (n ∷ []) (zip (node c l new r) path) d.size parts
              (flat-zip (node c l new r) path
                ∙ parts-append (before path) (flat l) new (flat r) (behind path))
              (zip-IsRooted (node c l new r) path s.height s.balanced s.fits s.allowed) b
              (Above-Eqv o n.key new.key ys w.above (Eqv-sym o new.key n.key same)) w.without
              (omega
                (arith, v.size_eq, ap length parts, length-append xs (n ∷ ys), length-append xs ys))
              (λ key h. lookup-insert o n key xs ys w.below ∙ rw (not_same key h) refl),
        )
      where
        xs : List Node
        xs = before path ++ flat l

        ys : List Node
        ys = flat r ++ behind path

        parts : flat d.root ≡ xs ++ (n ∷ ys)
        parts =
            ap flat (sym e)
            ∙ flat-zip (node c l n r) path
            ∙ parts-append (before path) (flat l) n (flat r) (behind path)

        not_same :
            (key : ℤ) → is_zero (d.cmp key new.key) ≡ false → is_zero (d.cmp key n.key) ≡ false
        not_same key h = elim (Bool-cases (is_zero (d.cmp key n.key))) [
          | inl z ↦ cc (Eqv-trans o key n.key new.key z (Eqv-sym o new.key n.key same))
          | inr z ↦ z
        ]

    absent :
        (path : List Frame)
        → zip leaf path ≡ d.root
        → Below d.cmp new.key (before path)
        → Above d.cmp new.key (behind path)
        → (m : Repaired (node red leaf new leaf) path (repair_insert (node red leaf new leaf) path))
        → (value d new.key ≡ none) × Inserted d new (record d { root = m.root; size = d.size + 1 })
    absent path e b a m = (
      find-lookup o new.key d.root v.rising
          ∙ ap (lookup d.cmp new.key) parts
          ∙ lookup-Below o new.key (before path) (behind path) b
          ∙ lookup-none o new.key (behind path) a,
      added d v new (before path) (behind path) [] m.root (d.size + 1) parts
          (m.order ∙ flat-zip (node red leaf new leaf) path) m.rooted b a (rw parts at v.rising)
          (omega (arith, v.size_eq, ap length parts)) (λ key h. refl),
    )
      where
        parts : flat d.root ≡ before path ++ behind path
        parts = ap flat (sym e) ∙ flat-zip leaf path

    go :
        (p : Place)
        → Reached o new.key d.root p
        → (d' : Map) × ((insert_at new p >>= λ r. verified (r.1) >> some (counted d r.0 r.1))
            ≡ some (value d new.key, d'))
          × Inserted d new d'
    go place (at_node c l n r path same e s) =
        let (found_n, i) = present c l n r path same e (replaced-Stands c l n new r path s) in
        (
          record d { root = zip (node c l new r) path },
          rw (verified-IsRooted (zip (node c l new r) path) i.valid.rooted, found_n) refl,
          i,
        )
    go place (at_end path e b a fits) =
        let m =
          repair_insert-Repaired (node red leaf new leaf) path 1 (refl, refl, refl, refl) refl
            fits in
        let (none_there, i) = absent path e b a m in
        (
          record d { root = m.root; size = d.size + 1 },
          rw (m.ran, verified-IsRooted m.root m.rooted, none_there) refl,
          i,
        )
