-- ===== src/Map/Contents.antt =====
-- The nodes of a tree in order, and that the repairs keep them.
use the_foundation.Base.{
  not, some, List, [], ◌∷◌, ◌++◌, append-nil, append_assoc, ◌≡◌, refl, sym, ap, ◌∙◌,
}
use mathlib.Core.Path.{ap₂}
use the_foundation.Map.Repair.{
  Node, Tree, leaf, node, Color, red, black, Side, left, right, Frame, make, parts, plug, zip,
  raise, blacken, redden, blacken_near, near, far, is_red, is_black_color,
}

abbrev pub flat : Tree → List Node
flat leaf = []
flat (node c l n r) = flat l ++ (n ∷ flat r)

-- The nodes before a path, and those behind it.
abbrev pub before_frame : Side → Node → Tree → List Node
before_frame left n other = []
before_frame right n other = flat other ++ (n ∷ [])

abbrev pub behind_frame : Side → Node → Tree → List Node
behind_frame left n other = n ∷ flat other
behind_frame right n other = []

abbrev pub before : List Frame → List Node
before [] = []
before (f ∷ path) = before path ++ before_frame f.side f.item f.other

abbrev pub behind : List Frame → List Node
behind [] = []
behind (f ∷ path) = behind_frame f.side f.item f.other ++ behind path

pub flat-make :
    (s : Side) (c : Color) (t : Tree) (n : Node) (other : Tree)
    → flat (make s c t n other) ≡ before_frame s n other ++ (flat t ++ behind_frame s n other)
flat-make left c t n other = refl
flat-make right c t n other =
    ap (λ x. flat other ++ (n ∷ x)) (sym (append-nil (flat t)))
    ∙ sym (append_assoc (flat other) (n ∷ []) (flat t ++ []))

-- Appending around a middle, twice.
around :
    {A : Type 0} (a b m c d : List A) → a ++ ((b ++ (m ++ c)) ++ d) ≡ (a ++ b) ++ (m ++ (c ++ d))
around a b m c d =
    ap (λ x. a ++ x) (append_assoc b (m ++ c) d ∙ ap (λ x. b ++ x) (append_assoc m c d))
    ∙ sym (append_assoc a b (m ++ (c ++ d)))

pub flat-zip :
    (t : Tree) (path : List Frame) → flat (zip t path) ≡ before path ++ (flat t ++ behind path)
flat-zip t [] = sym (append-nil (flat t))
flat-zip t (f ∷ path) =
    flat-zip (plug t f) path
    ∙ ap (λ x. before path ++ (x ++ behind path)) (flat-make f.side f.color t f.item f.other)
    ∙ around (before path) (before_frame f.side f.item f.other) (flat t)
        (behind_frame f.side f.item f.other) (behind path)

pub flat-blacken : (t : Tree) → flat (blacken t) ≡ flat t
flat-blacken leaf = refl
flat-blacken (node c l n r) = refl

pub flat-redden : (t : Tree) → flat (redden t) ≡ flat t
flat-redden leaf = refl
flat-redden (node c l n r) = refl

pub flat-blacken_near : (s : Side) (t : Tree) → flat (blacken_near s t) ≡ flat t
flat-blacken_near s leaf = refl
flat-blacken_near left (node c l n r) = ap (λ x. x ++ (n ∷ flat r)) (flat-blacken l)
flat-blacken_near right (node c l n r) = ap (λ x. flat l ++ (n ∷ x)) (flat-blacken r)

pub zip-same :
    (t u : Tree) (path : List Frame) → flat t ≡ flat u → flat (zip t path) ≡ flat (zip u path)
zip-same t u path e =
    flat-zip t path ∙ ap (λ x. before path ++ (x ++ behind path)) e ∙ sym (flat-zip u path)

-- A tree as a child on one side sees it.
pub data View (s : Side) : Tree → Type 0 where
  empty : View s leaf
  seen : (c : Color) (x : Tree) (n : Node) (y : Tree) → View s (make s c x n y)

pub view : (s : Side) (t : Tree) → View s t
view s leaf = empty
view left (node c l n r) = seen c l n r
view right (node c l n r) = seen c r n l

pub parts-make :
    (s : Side) (c : Color) (x : Tree) (n : Node) (y : Tree)
    → parts s (make s c x n y) ≡ some (record { color = c; near = x; item = n; far = y })
parts-make left c x n y = refl
parts-make right c x n y = refl

pub near-make :
    (s : Side) (c : Color) (x : Tree) (n : Node) (y : Tree) → near s (make s c x n y) ≡ x
near-make left c x n y = refl
near-make right c x n y = refl

pub far-make : (s : Side) (c : Color) (x : Tree) (n : Node) (y : Tree) → far s (make s c x n y) ≡ y
far-make left c x n y = refl
far-make right c x n y = refl

pub is_red-make :
    (s : Side) (c : Color) (x : Tree) (n : Node) (y : Tree)
    → is_red (make s c x n y) ≡ not (is_black_color c)
is_red-make left c x n y = refl
is_red-make right c x n y = refl

pub blacken-make :
    (s : Side) (c : Color) (x : Tree) (n : Node) (y : Tree)
    → blacken (make s c x n y) ≡ make s black x n y
blacken-make left c x n y = refl
blacken-make right c x n y = refl

pub redden-make :
    (s : Side) (c : Color) (x : Tree) (n : Node) (y : Tree)
    → redden (make s c x n y) ≡ make s red x n y
redden-make left c x n y = refl
redden-make right c x n y = refl

pub blacken_near-make :
    (s : Side) (c : Color) (x : Tree) (n : Node) (y : Tree)
    → blacken_near s (make s c x n y) ≡ make s c (blacken x) n y
blacken_near-make left c x n y = refl
blacken_near-make right c x n y = refl

pub raise-make :
    (s : Side) (c c' : Color) (x : Tree) (m : Node) (y : Tree) (n : Node) (z : Tree)
    → raise s (make s c (make s c' x m y) n z) ≡ some (make s c' x m (make s c y n z))
raise-make left c c' x m y n z = refl
raise-make right c c' x m y n z = refl

-- A rotation keeps the order.
pub flat-raised :
    (s : Side) (c c' d d' : Color) (x : Tree) (m : Node) (y : Tree) (n : Node) (z : Tree)
    → flat (make s c (make s c' x m y) n z) ≡ flat (make s d' x m (make s d y n z))
flat-raised left c c' d d' x m y n z = append_assoc (flat x) (m ∷ flat y) (n ∷ flat z)
flat-raised right c c' d d' x m y n z = sym (append_assoc (flat z) (n ∷ flat y) (m ∷ flat x))

pub flat-color :
    (s : Side) (c d : Color) (x : Tree) (n : Node) (y : Tree)
    → flat (make s c x n y) ≡ flat (make s d x n y)
flat-color left c d x n y = refl
flat-color right c d x n y = refl

pub flat-children :
    (s : Side) (c d : Color) (x x' : Tree) (n : Node) (y y' : Tree)
    → flat x ≡ flat x'
    → flat y ≡ flat y'
    → flat (make s c x n y) ≡ flat (make s d x' n y')
flat-children left c d x x' n y y' e e' = ap₂ (λ a b. a ++ (n ∷ b)) e e'
flat-children right c d x x' n y y' e e' = ap₂ (λ a b. b ++ (n ∷ a)) e e'

-- Two frames in place of one whose tree had the nodes of both.
pub behind_frame-two :
    (s : Side) (c : Color) (n : Node) (t x : Tree) (m : Node) (y : Tree) (end : List Node)
    → flat t ≡ flat (make s c x m y)
    → behind_frame s n x ++ (behind_frame s m y ++ end) ≡ behind_frame s n t ++ end
behind_frame-two left c n t x m y end e =
    ap (λ a. n ∷ a) (sym (append_assoc (flat x) (m ∷ flat y) end) ∙ ap (λ a. a ++ end) (sym e))
behind_frame-two right c n t x m y end e = refl

pub before_frame-two :
    (s : Side) (c : Color) (n : Node) (t x : Tree) (m : Node) (y : Tree) (start : List Node)
    → flat t ≡ flat (make s c x m y)
    → (start ++ before_frame s m y) ++ before_frame s n x ≡ start ++ before_frame s n t
before_frame-two left c n t x m y start e = append-nil (start ++ []) ∙ refl
before_frame-two right c n t x m y start e =
    append_assoc start (flat y ++ (m ∷ [])) (flat x ++ (n ∷ []))
    ∙ ap (λ a. start ++ a)
        (append_assoc (flat y) (m ∷ []) (flat x ++ (n ∷ []))
          ∙ sym (append_assoc (flat y) (m ∷ flat x) (n ∷ []))
          ∙ ap (λ a. a ++ (n ∷ [])) (sym e))
