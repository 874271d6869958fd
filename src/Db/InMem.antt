-- ===== src/Db/InMem.antt =====
-- db/databaseInMem.go: a Go map from core.Byte64 to byte strings. The map is an association list,
-- the last write first; a key of any length is cut or padded to 64 bytes.
pub mod Laws
use go_trust_net.Prelude.{ℕ, Bool, true, false, Option, some, none, List, [], ◌∷◌, ite, ℕ_discrete}
use go_trust_net.Core.Types.{bytes_to_byte64}

unfoldable pub key_dec : Discrete (List ℕ)
key_dec = hlevel ℕ_discrete

pub record DatabaseInMem (V : Type 0) : Type 0 where
  pub mdb : List (List ℕ × V)

module _ {V : Type 0} where
  -- The operations of a Go map.
  unfoldable pub map_get : List ℕ → List (List ℕ × V) → Option V
  map_get k [] = none
  map_get k ((j, v) ∷ m) = ite (key_dec j k) (some v) (map_get k m)

  unfoldable pub map_delete : List ℕ → List (List ℕ × V) → List (List ℕ × V)
  map_delete k [] = []
  map_delete k ((j, v) ∷ m) = ite (key_dec j k) (map_delete k m) ((j, v) ∷ map_delete k m)

  unfoldable pub map_put : List ℕ → V → List (List ℕ × V) → List (List ℕ × V)
  map_put k v m = (k, v) ∷ map_delete k m

  unfoldable pub new_database_in_mem : DatabaseInMem V
  new_database_in_mem = record { mdb = [] }

  -- `Put` reports no error.
  unfoldable pub put : DatabaseInMem V → List ℕ → V → Option (DatabaseInMem V)
  unfolding map_put
  put db key value = some (record { mdb = map_put (bytes_to_byte64 key) value db.mdb })

  -- `Get`; `none` is the error "not found".
  unfoldable pub get : DatabaseInMem V → List ℕ → Option V
  unfolding map_get
  get db key = map_get (bytes_to_byte64 key) db.mdb

  unfoldable pub has : DatabaseInMem V → List ℕ → Bool
  unfolding map_get
  has db key = elim (map_get (bytes_to_byte64 key) db.mdb) [ none ↦ false | some _ ↦ true ]

  unfoldable pub delete : DatabaseInMem V → List ℕ → Option (DatabaseInMem V)
  unfolding map_delete
  delete db key = some (record { mdb = map_delete (bytes_to_byte64 key) db.mdb })
