-- ===== src/Map/Balance.antt =====
-- The red-black invariant, and that the repairs restore it.
use the_foundation.Base.{
  ℕ, suc, ◌+◌, Bool, true, false, not, ◌&&◌, Option, none, some, List, [], ◌∷◌, ◌>>=◌, ◌≡◌, refl,
  sym, ap, arith, Bool-cases, inl, inr, ◌↔◌, ◌==◌, ==-true, ==_iff, check, ◌>>◌,
}
use the_foundation.Map.Contents.{is_red-make}
use the_foundation.Map.Repair.{
  Node, Tree, leaf, node, Color, red, black, Side, left, right, Frame, make, plug, zip, is_red,
  is_black_color, blacken, verify, verified,
}

-- No red child of a red node, and `k` black nodes on each way down, the NULL at its end counted.
abbrev pub IsRb : Tree → ℕ → Type 0
IsRb leaf k = k ≡ 1
IsRb (node red l n r) k = (is_red l ≡ false) × (is_red r ≡ false) × IsRb l k × IsRb r k
IsRb (node black l n r) k = (m : ℕ) × (k ≡ suc m) × IsRb l m × IsRb r m

-- What a node of a colour needs of its children.
abbrev pub Fit : Color → Tree → Tree → ℕ → Type 0
Fit red x y k = (is_red x ≡ false) × (is_red y ≡ false) × IsRb x k × IsRb y k
Fit black x y k = (m : ℕ) × (k ≡ suc m) × IsRb x m × IsRb y m

pub make-IsRb :
    (s : Side) (c : Color) (x : Tree) (n : Node) (y : Tree) (k : ℕ)
    → Fit c x y k
    → IsRb (make s c x n y) k
make-IsRb left red x n y k f = f
make-IsRb left black x n y k f = f
make-IsRb right red x n y k (a, b, p, q) = (b, a, q, p)
make-IsRb right black x n y k (m, e, p, q) = (m, e, q, p)

pub IsRb-make :
    (s : Side) (c : Color) (x : Tree) (n : Node) (y : Tree) (k : ℕ)
    → IsRb (make s c x n y) k
    → Fit c x y k
IsRb-make left red x n y k f = f
IsRb-make left black x n y k f = f
IsRb-make right red x n y k (a, b, p, q) = (b, a, q, p)
IsRb-make right black x n y k (m, e, p, q) = (m, e, q, p)

-- The frame above is black, and there is one.
abbrev pub Under : List Frame → Type 0
Under [] = ⊥
Under (f ∷ path) = f.color ≡ black

-- A path in which a tree of the height `k` can stand.
abbrev pub Fits : List Frame → ℕ → Type 0
Fits [] k = Unit
Fits (f ∷ path) k = elim f.color [
  | red ↦ (is_red f.other ≡ false) × IsRb f.other k × Fits path k × Under path
  | black ↦ IsRb f.other k × Fits path (suc k)
]

-- A tree whose colour can stand there.
abbrev pub Allowed : Tree → List Frame → Type 0
Allowed t [] = is_red t ≡ false
Allowed t (f ∷ path) = (is_red t && not (is_black_color f.color)) ≡ false

-- A whole tree: its root is black.
pub record IsRooted (t : Tree) : Type 0 where
  pub black_root : is_red t ≡ false
  pub height : ℕ
  pub balanced : IsRb t height

pub Allowed-black :
    (s : Side) (x : Tree) (n : Node) (y : Tree) (path : List Frame)
    → Allowed (make s black x n y) path
Allowed-black s x n y [] = is_red-make s black x n y
Allowed-black s x n y (f ∷ path) = rw (is_red-make s black x n y) refl

-- A tree under a frame fits into the rest of the path.
plug-Fits :
    (t : Tree) (s : Side) (c : Color) (n : Node) (o : Tree) (path : List Frame) (k : ℕ)
    → IsRb t k
    → Fits (record { side = s; color = c; item = n; other = o } ∷ path) k
    → Allowed t (record { side = s; color = c; item = n; other = o } ∷ path)
    → (m : ℕ) × IsRb (make s c t n o) m × Fits path m × Allowed (make s c t n o) path
plug-Fits t s red n o path k b (no_red, bo, fits, under) a =
    (k, make-IsRb s red t n o k (ground (arith, a), no_red, b, bo), fits, red_allowed path under)
  where
    red_allowed : (path : List Frame) → Under path → Allowed (make s red t n o) path
    red_allowed [] u = absurd u
    red_allowed (f ∷ path) u = rw (is_red-make s red t n o, u) refl
plug-Fits t s black n o path k b (bo, fits) a =
    (suc k, make-IsRb s black t n o (suc k) (k, refl, b, bo), fits, Allowed-black s t n o path)

pub zip-IsRooted :
    (t : Tree) (path : List Frame) (k : ℕ)
    → IsRb t k
    → Fits path k
    → Allowed t path
    → IsRooted (zip t path)
zip-IsRooted t [] k b f a = record { black_root = a; height = k; balanced = b }
zip-IsRooted t (f ∷ path) k b fits a =
    let (m, b', fits', a') = plug-Fits t f.side f.color f.item f.other path k b fits a in
    zip-IsRooted (plug t f) path m b' fits' a'

pub blacken-IsRb : (t : Tree) (k : ℕ) → is_red t ≡ true → IsRb t k → IsRb (blacken t) (suc k)
blacken-IsRb leaf k e b = cc
blacken-IsRb (node red l n r) k e (a, a', p, q) = (k, refl, p, q)
blacken-IsRb (node black l n r) k e b = cc

pub redden-IsRb :
    (s : Side) (x : Tree) (n : Node) (y : Tree) (k : ℕ)
    → is_red x ≡ false
    → is_red y ≡ false
    → IsRb (make s black x n y) (suc k)
    → IsRb (make s red x n y) k
redden-IsRb s x n y k a a' b =
    let (m, e, p, q) = IsRb-make s black x n y (suc k) b in
    let same : m ≡ k = omega (arith, e) in
    make-IsRb s red x n y k (a, a', rw (← same) p, rw (← same) q)

-- What a node whose check passes has.
sums :
    (b : Bool) (x y : Option ℕ) (d k : ℕ)
    → (do check b; low ← x; high ← y; check (low == high); some (low + d)) ≡ some k
    → (m : ℕ) × (b ≡ true) × (x ≡ some m) × (y ≡ some m) × (k ≡ m + d)
sums false x y d k e = cc
sums true none y d k e = cc
sums true (some m) none d k e = cc
sums true (some m) (some m') d k e = elim (Bool-cases (m == m')) [
  | inl t ↦
      let same : m ≡ m' = (==_iff m m').0 t in
      (m, refl, refl, ap some (sym same), ground (arith, e, t))
  | inr f ↦ ground (arith, e, f)
]

-- The check of the builds for debugging passes, with a count, exactly for the trees in which no red
-- node has a red child and each way down has as many black nodes as the count, NULL among them.
pub verify_iff : (t : Tree) (k : ℕ) → (verify t ≡ some k) ↔ IsRb t k
unfolding verify
verify_iff t k = (to t k, from t k)
  where
    to : (t : Tree) (k : ℕ) → verify t ≡ some k → IsRb t k
    to leaf k e = ground (arith, e)
    to (node red l n r) k e =
        let (m, c, p, q, s) = sums (not (is_red l) && not (is_red r)) (verify l) (verify r) 0 k e in
        let same : m ≡ k = omega (arith, s) in
        let low = to l m p in
        let high = to r m q in
        (ground (arith, c), ground (arith, c), rw (← same) low, rw (← same) high)
    to (node black l n r) k e =
        let (m, c, p, q, s) = sums true (verify l) (verify r) 1 k e in
        (m, omega (arith, s), to l m p, to r m q)

    from : (t : Tree) (k : ℕ) → IsRb t k → verify t ≡ some k
    from leaf k e = ap some (sym e)
    from (node red l n r) k (nl, nr, p, q) =
        rw (nl, nr, from l k p, from r k q, ==-true k k refl) (ap some (omega arith))
    from (node black l n r) k (m, e, p, q) =
        rw (from l m p, from r m q, ==-true m m refl) (ap some (omega (arith, e)))

pub verified-IsRooted : (t : Tree) → IsRooted t → verified t ≡ some tt
verified-IsRooted t r = rw (r.black_root, (verify_iff t r.height).1 r.balanced) refl
