-- ===== src/Trie/WorldView/History.antt =====
-- core/trie/trieImpl.go: the world state after many operations.
use go_trust_net.Prelude.{ℕ, List, [], ◌∷◌, ite, ◌≡◌, refl, ◌∙◌, ap, All}
use go_trust_net.Core.Digest.{Digests}
use go_trust_net.Db.{Database}
use go_trust_net.Db.InMem.{key_dec}
use go_trust_net.Trie.{Key, Value, MptWorldState}
use go_trust_net.Trie.Store.{IsCollisionFree}
use go_trust_net.Trie.State.{update, delete_key, lookup, found, err, not_found, Result}
use go_trust_net.Trie.Tables.{TakesAll}
use go_trust_net.Trie.WorldView.{IsBytes, IsValid, lookup-update, lookup-delete_key}

-- A write of the world state, with its key.
pub data Write : Type 0 where
  updated : List ℕ → List ℕ → Write
  deleted : List ℕ → Write

abbrev pub HasBytes : Write → Type 0
HasBytes (updated key value) = IsBytes key
HasBytes (deleted key) = IsBytes key

module _ (H : Digests) (D : Database (Key H.Byte64) (Value H.Byte64)) where
  unfoldable pub run : MptWorldState H D → List Write → MptWorldState H D
  run w [] = w
  run w (updated key value ∷ writes) = run (update H D w key value) writes
  run w (deleted key ∷ writes) = run (delete_key H D w key) writes

  -- The answer for a key under a map: that of the last write to the key, or the answer from before.
  unfoldable pub last_write : List Write → List ℕ → Result (List ℕ) → Result (List ℕ)
  last_write [] key r = r
  last_write (updated k value ∷ writes) key r =
      last_write writes key (ite (key_dec key k) (found H D value) r)
  last_write (deleted k ∷ writes) key r =
      last_write writes key (ite (key_dec key k) (err not_found) r)

  -- With hashes that do not collide, on a store that takes every write, and for keys of bytes:
  -- after any sequence of `Update` and `Delete` a valid world state is still valid, and `Lookup`
  -- of any key gives the last value written to it, which is the error `not_found` after a delete
  -- or an empty value, and the answer from before if the key was not written.
  pub lookup-run :
      (laws : IsCollisionFree H) (w : MptWorldState H D) (writes : List Write) (key : List ℕ)
      → TakesAll H D
      → IsValid H D w
      → All HasBytes writes
      → IsBytes key
      → IsValid H D (run w writes)
        × (lookup H D (run w writes) key ≡ last_write writes key (lookup H D w key))
  unfolding run last_write
  lookup-run laws w [] key r v bytes hex = (v, refl)
  lookup-run laws w (updated k value ∷ writes) key r v bytes hex =
      let (x, y) = lookup-update H D laws w k value key r v bytes.0 hex in
      let (z, e) = lookup-run laws (update H D w k value) writes key r x bytes.1 hex in
      (z, e ∙ ap (last_write writes key) y)
  lookup-run laws w (deleted k ∷ writes) key r v bytes hex =
      let (x, y) = lookup-delete_key H D laws w k key r v bytes.0 hex in
      let (z, e) = lookup-run laws (delete_key H D w k) writes key r x bytes.1 hex in
      (z, e ∙ ap (last_write writes key) y)
