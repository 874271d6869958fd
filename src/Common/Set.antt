-- ===== src/Common/Set.antt =====
-- common/set.go: a set, kept as a Go map to the empty struct. The map is the list of its keys, each
-- once. `Pop` takes the key that the map is ranged over first, which Go leaves open: `pick` says
-- which.
use go_trust_net.Prelude.{
  ℕ, zero, suc, ◌%◌, Bool, true, false, List, [], ◌∷◌, Option, none, some, ite, length,
}

module _ {A : Type 0} (dec : Discrete A) where
  unfoldable pub new_set : List A
  new_set = []

  unfoldable pub size : List A → ℕ
  size data' = length data'

  unfoldable pub has : List A → A → Bool
  has [] a = false
  has (x ∷ xs) a = ite (dec x a) true (has xs a)

  unfoldable pub add_one : List A → A → List A
  unfolding has
  add_one data' a = elim (has data' a) [ true ↦ data' | false ↦ a ∷ data' ]

  unfoldable pub add : List A → List A → List A
  unfolding add_one
  add data' [] = data'
  add data' (a ∷ items) = add (add_one data' a) items

  unfoldable pub remove_one : List A → A → List A
  remove_one [] a = []
  remove_one (x ∷ xs) a = ite (dec x a) (remove_one xs a) (x ∷ remove_one xs a)

  unfoldable pub remove : List A → List A → List A
  unfolding remove_one
  remove data' [] = data'
  remove data' (a ∷ items) = remove (remove_one data' a) items

  -- The set without its `i`-th key, and that key.
  unfoldable pub take_at : List A → ℕ → List A × Option A
  take_at [] i = ([], none)
  take_at (x ∷ xs) zero = (xs, some x)
  take_at (x ∷ xs) (suc i) = let r = take_at xs i in (x ∷ r.0, r.1)

  unfoldable pub pop : List A → ℕ → List A × Option A
  unfolding take_at
  pop data' pick = take_at data' (pick % length data')
