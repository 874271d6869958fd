-- ===== src/Db/InMem/Laws.antt =====
-- db/databaseInMem.go: what is read after a write.
use mathlib.Core.Logic.{◌≢◌}
use go_trust_net.Prelude.{
  ℕ, false, some, none, List, [], ◌∷◌, ite, ◌≡◌, refl, arith, if_pos, if_neg, ◌↔◌, ◌∙◌,
}
use go_trust_net.Core.Types.{bytes_to_byte64}
use go_trust_net.Db.{Database}
use go_trust_net.Db.InMem.{DatabaseInMem, key_dec, map_get, map_delete, put, get, has, delete}

module _ {V : Type 0} where
  map_get-map_delete :
      (k j : List ℕ) (m : List (List ℕ × V))
      → map_get j (map_delete k m) ≡ ite (key_dec k j) none (map_get j m)
  unfolding map_get map_delete
  map_get-map_delete k j [] = ground arith
  map_get-map_delete k j ((i, v) ∷ m) = ground (arith, map_get-map_delete k j m)

  -- A read after a write to any two keys: the written value if the keys agree when cut or padded
  -- to 64 bytes, and the old answer if they do not. `Has` agrees with `Get`.
  pub get-put :
      (db : DatabaseInMem V) (k j : List ℕ) (v : V) {db' : DatabaseInMem V}
      → put db k v ≡ some db'
      → (get db' j ≡ ite (key_dec (bytes_to_byte64 k) (bytes_to_byte64 j)) (some v) (get db j))
        × ((has db' j ≡ false) ↔ (get db' j ≡ none))
  unfolding put get has map_get
  get-put db k j v h =
      ground (arith, map_get-map_delete (bytes_to_byte64 k) (bytes_to_byte64 j) db.mdb)

  -- A read after a delete of any two keys: no answer if the keys agree when cut or padded to 64
  -- bytes, and the old answer if they do not.
  pub get-delete :
      (db : DatabaseInMem V) (k j : List ℕ) {db' : DatabaseInMem V}
      → delete db k ≡ some db'
      → get db' j ≡ ite (key_dec (bytes_to_byte64 k) (bytes_to_byte64 j)) none (get db j)
  unfolding delete get
  get-delete db k j h =
      ground (arith, map_get-map_delete (bytes_to_byte64 k) (bytes_to_byte64 j) db.mdb)

  -- A read of any key after a write and after a delete of a key: the written value and no answer if the
  -- keys agree when cut or padded to 64 bytes, and the old answer if they do not; after the write `Has`
  -- says no exactly where the read has no answer.
  pub get_lem :
      (db db₁ db₂ : DatabaseInMem V) (k j : List ℕ) (v : V)
      → put db k v ≡ some db₁
      → delete db k ≡ some db₂
      → (get db₁ j ≡ ite (key_dec (bytes_to_byte64 k) (bytes_to_byte64 j)) (some v) (get db j))
        × ((has db₁ j ≡ false) ↔ (get db₁ j ≡ none))
        × (get db₂ j ≡ ite (key_dec (bytes_to_byte64 k) (bytes_to_byte64 j)) none (get db j))
  get_lem db db₁ db₂ k j v w d = let (x, y) = get-put db k j v w in (x, y, get-delete db k j d)

  -- `Put` reports no error.
  pub put_total : (db : DatabaseInMem V) (k : List ℕ) (v : V) → put db k v ≢ none
  unfolding put
  put_total db k v = λ e. cc

-- The interface, for keys whose encodings differ in the first 64 bytes.
module _ {K V : Type 0} (encode : K → List ℕ)
    (distinct : (j k : K) → bytes_to_byte64 (encode j) ≡ bytes_to_byte64 (encode k) → j ≡ k) where
  in_mem-get-put_self :
      (db : DatabaseInMem V) (k : K) (v : V) {t : DatabaseInMem V}
      → put db (encode k) v ≡ some t
      → get t (encode k) ≡ some v
  in_mem-get-put_self db k v h =
      (get-put db (encode k) (encode k) v h).0 ∙ if_pos (key_dec _ _) refl _ _

  in_mem-get-put_ne :
      (db : DatabaseInMem V) (k : K) (v : V) (j : K) {t : DatabaseInMem V}
      → put db (encode k) v ≡ some t
      → k ≢ j
      → get t (encode j) ≡ get db (encode j)
  in_mem-get-put_ne db k v j h ne =
      (get-put db (encode k) (encode j) v h).0 ∙ if_neg (key_dec _ _) (λ e. ne (distinct k j e)) _ _

  in_mem-get-delete_self :
      (db : DatabaseInMem V) (k : K) {t : DatabaseInMem V}
      → delete db (encode k) ≡ some t
      → get t (encode k) ≡ none
  in_mem-get-delete_self db k h =
      get-delete db (encode k) (encode k) h ∙ if_pos (key_dec _ _) refl _ _

  in_mem-get-delete_ne :
      (db : DatabaseInMem V) (k j : K) {t : DatabaseInMem V}
      → delete db (encode k) ≡ some t
      → k ≢ j
      → get t (encode j) ≡ get db (encode j)
  in_mem-get-delete_ne db k j h ne =
      get-delete db (encode k) (encode j) h ∙ if_neg (key_dec _ _) (λ e. ne (distinct k j e)) _ _

  unfoldable pub in_mem : Database K V
  unfolding in_mem-get-put_self in_mem-get-put_ne in_mem-get-delete_self in_mem-get-delete_ne
  in_mem = record {
    State = DatabaseInMem V;
    get = λ db k. get db (encode k);
    put = λ db k v. put db (encode k) v;
    delete = λ db k. delete db (encode k);
    get-put_self = in_mem-get-put_self;
    get-put_ne = in_mem-get-put_ne;
    get-delete_self = in_mem-get-delete_self;
    get-delete_ne = in_mem-get-delete_ne;
  }
