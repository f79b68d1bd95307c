-- ===== src/Hash/Tests.antt =====
-- Runs of the hash, and its theorems at a concrete one.
use the_foundation.Base.{
  ℕ, Option, none, some, List, [], ◌∷◌, ◌≡◌, refl, arith, ◌>>=◌, ◌==◌, if◌then◌else◌, ◌*◌,
}
use the_foundation.Hash.{Hash, Node, leaf, init, insert, remove, value}
use the_foundation.Hash.Shape.{IsWellHash}
use the_foundation.Hash.Insert.{insert-value}
use the_foundation.Hash.Remove.{remove-value}

abbrev node : ℕ → ℕ → Node
node k v = record { key = k; item = v }

abbrev sample : Hash
sample = record { root = leaf (node 5 50 ∷ node 7 70 ∷ []); size = 2 }

sample-IsWellHash : IsWellHash sample
sample-IsWellHash = (omega arith, (refl, (refl, tt)))

insert_all : List ℕ → Hash → Option Hash
insert_all [] d = some d
insert_all (k ∷ ks) d = do (existing, d') ← insert d (node k (k * 10)); insert_all ks d'

-- What a search finds before and after a removal.
probe : Hash → List (Option Node)
unfolding value remove
probe d = value d 9 ∷ value d 4 ∷ value d 10 ∷ value (remove d 4).1 4 ∷ []

-- The ninth node splits the root; the keys stay where a search finds them.
split_run :
    (do d ← insert_all (1 ∷ 2 ∷ 3 ∷ 4 ∷ 5 ∷ 6 ∷ 7 ∷ 8 ∷ 9 ∷ []) init; some (probe d))
    ≡ some (some (node 9 90) ∷ some (node 4 40) ∷ none ∷ none ∷ [])
unfolding insert_all init insert probe
split_run = refl

insert-value_example :
    (d' : Hash) × (insert sample (node 7 71) ≡ some (value sample 7, d'))
    × IsWellHash d'
    × ((key : ℕ) → value d' key ≡ (if key == 7 then some (node 7 71) else value sample key))
insert-value_example = insert-value sample (node 7 71) sample-IsWellHash (omega arith)

remove-value_example :
    let (removed, d') = remove sample 5 in
    (removed ≡ value sample 5)
    × IsWellHash d'
    × ((j : ℕ) → value d' j ≡ (if j == 5 then none else value sample j))
remove-value_example = remove-value sample 5 sample-IsWellHash
