-- ===== src/LinkedList/Chain.antt =====
-- The nodes between two places of a list, linked both ways.
use the_foundation.Base.{
  ℕ, Option, some, List, [], ◌∷◌, ◌++◌, length, All, All-split, All-join, ◌≡◌, ◌≢◌, sym, ◌∙◌,
}
use the_foundation.LinkedList.{LinkedList, root}

-- From `a` by way of `xs` to `b`.
abbrev pub Links : (next prev : ℕ → Option ℕ) → (a : ℕ) → List ℕ → (b : ℕ) → Type 0
Links next prev a [] b = (next a ≡ some b) × (prev b ≡ some a)
Links next prev a (x ∷ xs) b = (next a ≡ some x) × (prev x ≡ some a) × Links next prev x xs b

abbrev pub Without : ℕ → List ℕ → Type 0
Without a xs = All (λ x. x ≢ a) xs

abbrev pub Distinct : List ℕ → Type 0
Distinct [] = Unit
Distinct (x ∷ xs) = Without x xs × Distinct xs

-- The list holds the nodes `xs`.
pub record IsList (d : LinkedList) (xs : List ℕ) : Type 0 where
  pub links : Links d.next d.prev root xs root
  pub distinct : Distinct (root ∷ xs)
  pub size_eq : d.size ≡ length xs

-- The last node of `a ∷ xs`, and the first of `xs ++ b`.
abbrev pub last_of : ℕ → List ℕ → ℕ
last_of a [] = a
last_of a (x ∷ xs) = last_of x xs

abbrev pub first_of : List ℕ → ℕ → ℕ
first_of [] b = b
first_of (x ∷ xs) b = x

pub last_of-ne : (a c : ℕ) (xs : List ℕ) → a ≢ c → Without c xs → last_of a xs ≢ c
last_of-ne a c [] h w = h
last_of-ne a c (x ∷ xs) h (ne, w) = last_of-ne x c xs ne w

pub first_of-ne : (b c : ℕ) (xs : List ℕ) → b ≢ c → Without c xs → first_of xs b ≢ c
first_of-ne b c [] h w = h
first_of-ne b c (x ∷ xs) h (ne, w) = ne

pub next-place :
    (next prev : ℕ → Option ℕ) (a b : ℕ) (ys zs : List ℕ)
    → Links next prev a (ys ++ zs) b
    → (next (last_of a ys) ≡ some (first_of zs b)) × (prev (first_of zs b) ≡ some (last_of a ys))
next-place next prev a b [] [] (e, e') = (e, e')
next-place next prev a b [] (z ∷ zs) (e, e', l) = (e, e')
next-place next prev a b (y ∷ ys) zs (e, e', l) = next-place next prev y b ys zs l

-- The links behind a place.
abbrev Behind : (next prev : ℕ → Option ℕ) → List ℕ → ℕ → Type 0
Behind next prev [] b = Unit
Behind next prev (z ∷ zs) b = Links next prev z zs b

Links-Behind :
    (next prev : ℕ → Option ℕ) (a b : ℕ) (ms zs : List ℕ)
    → Links next prev a (ms ++ zs) b
    → Behind next prev zs b
Links-Behind next prev a b [] [] l = tt
Links-Behind next prev a b [] (z ∷ zs) (e, e', l) = l
Links-Behind next prev a b (m ∷ ms) zs (e, e', l) = Links-Behind next prev m b ms zs l

join-Links :
    (next prev : ℕ → Option ℕ) (a b : ℕ) (ms zs : List ℕ)
    → Links next prev a ms (first_of zs b)
    → Behind next prev zs b
    → Links next prev a (ms ++ zs) b
join-Links next prev a b [] [] l r = l
join-Links next prev a b [] (z ∷ zs) (e, e') r = (e, e', r)
join-Links next prev a b (m ∷ ms) zs (e, e', l) r = (e, e', join-Links next prev m b ms zs l r)

-- New links that are the old ones but from the places `n` and `t`, and back from `n` and `u`.
pub record IsChange (next prev next' prev' : ℕ → Option ℕ) (n t u : ℕ) : Type 0 where
  pub next_same : (j : ℕ) → j ≢ n → j ≢ t → next' j ≡ next j
  pub prev_same : (j : ℕ) → j ≢ n → j ≢ u → prev' j ≡ prev j

module _ {next prev next' prev' : ℕ → Option ℕ} {n : ℕ} where
  -- A chain that has none of the places.
  away :
      {t u : ℕ} (c : IsChange next prev next' prev' n t u) (a b : ℕ) (xs : List ℕ)
      → Links next prev a xs b
      → a ≢ n
      → a ≢ t
      → b ≢ n
      → b ≢ u
      → Without n xs
      → Without t xs
      → Without u xs
      → Links next' prev' a xs b
  away c a b [] (e, e') an at bn bu wn wt wu = (c.next_same a an at ∙ e, c.prev_same b bn bu ∙ e')
  away c a b (x ∷ xs) (e, e', l) an at bn bu (xn, wn) (xt, wt) (xu, wu) =
      (c.next_same a an at ∙ e, c.prev_same x xn xu ∙ e', away c x b xs l xn xt bn bu wn wt wu)

  -- The nodes `ms` between `ys` and `zs` are replaced by `ms'`.
  pub relink :
      (a b : ℕ) (ys ms ms' zs : List ℕ)
      → IsChange next prev next' prev' n (last_of a ys) (first_of zs b)
      → Links next prev a (ys ++ (ms ++ zs)) b
      → Links next' prev' (last_of a ys) ms' (first_of zs b)
      → a ≢ n
      → b ≢ n
      → Without n (ys ++ zs)
      → Distinct (ys ++ zs)
      → Without a (ys ++ zs)
      → Without b (ys ++ zs)
      → Links next' prev' a (ys ++ (ms' ++ zs)) b
  relink a b [] ms ms' [] c l l' an bn wn di wa wb = join-Links next' prev' a b ms' [] l' tt
  relink a b [] ms ms' (z ∷ zs) c l l' an bn (zn, wn) (wz, di) (za, wa) (zb, wb) =
      join-Links next' prev' a b ms' (z ∷ zs) l' (
        away c z b zs (Links-Behind next prev a b ms (z ∷ zs) l) zn za bn (λ e. zb (sym e)) wn wa
          wz)
  relink a b (y ∷ ys) ms ms' zs c (e, e', l) l' an bn (yn, wn) (wy, di) (ya, wa) (yb, wb) = (
    c.next_same a an (λ h. last_of-ne y a ys ya ((All-split (λ x. x ≢ a) ys zs wa).0) (sym h)) ∙ e,
    c.prev_same y yn
          (λ h. first_of-ne b y zs (λ k. yb (sym k)) ((All-split (λ x. x ≢ y) ys zs wy).1) (sym h))
        ∙ e',
    relink y b ys ms ms' zs c l l' yn bn wn di wy wb,
  )

-- A node that is added to distinct ones, and one that is taken from them.
pub insert-Distinct :
    (n : ℕ) (ys zs : List ℕ)
    → Without n (ys ++ zs)
    → Distinct (ys ++ zs)
    → Distinct (ys ++ (n ∷ zs))
insert-Distinct n [] zs w d = (w, d)
insert-Distinct n (y ∷ ys) zs (ne, w) (wy, d) =
    let (l, r) = All-split (λ x. x ≢ y) ys zs wy in
    (All-join (λ x. x ≢ y) ys (n ∷ zs) l (λ e. ne (sym e), r), insert-Distinct n ys zs w d)

pub remove-Distinct :
    (n : ℕ) (ys zs : List ℕ)
    → Distinct (ys ++ (n ∷ zs))
    → Without n (ys ++ zs) × Distinct (ys ++ zs)
remove-Distinct n [] zs d = d
remove-Distinct n (y ∷ ys) zs (wy, d) =
    let (l, (ne, r)) = All-split (λ x. x ≢ y) ys (n ∷ zs) wy in
    let (w, d') = remove-Distinct n ys zs d in
    ((λ e. ne (sym e), w), (All-join (λ x. x ≢ y) ys zs l r, d'))

pub next-after :
    (next prev : ℕ → Option ℕ) (a b n : ℕ) (ys zs : List ℕ)
    → Links next prev a (ys ++ (n ∷ zs)) b
    → next n ≡ some (first_of zs b)
next-after next prev a b n [] [] (e, e', (l, l')) = l
next-after next prev a b n [] (z ∷ zs) (e, e', l) = l.0
next-after next prev a b n (y ∷ ys) zs (e, e', l) = next-after next prev y b n ys zs l

pub prev-after :
    (next prev : ℕ → Option ℕ) (a b n : ℕ) (ys zs : List ℕ)
    → Links next prev a (ys ++ (n ∷ zs)) b
    → prev (first_of zs b) ≡ some n
prev-after next prev a b n [] [] (e, e', (l, l')) = l'
prev-after next prev a b n [] (z ∷ zs) (e, e', l) = l.1
prev-after next prev a b n (y ∷ ys) zs (e, e', l) = prev-after next prev y b n ys zs l
