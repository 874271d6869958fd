-- ===== src/Trie/WorldView/Fresh.antt =====
-- core/trie/trieImpl.go: a new world state.
use go_trust_net.Prelude.{ℕ, List, [], ◌∷◌, some, if_pos, ◌≡◌, inl, refl, ◌∙◌, ap, arith}
use go_trust_net.Core.Digest.{Digests}
use go_trust_net.Db.{Database}
use go_trust_net.Trie.{Key, Value, hash, new_node, MptWorldState}
use go_trust_net.Trie.Walk.{make_hex, put_state, lookup_depth_first}
use go_trust_net.Trie.Store.{
  IsCollisionFree, IsClosed, WellFormed, get_state-put_state, put_state-WellFormed,
}
use go_trust_net.Trie.State.{lookup, found, err, not_found, new_mpt_world_state, tx_root}
use go_trust_net.Trie.Tables.{TakesAll, put_node_total, put_root-SameStates, WellFormed-SameStates}
use go_trust_net.Trie.WorldView.{IsValid}

module _ (H : Digests) (D : Database (Key H.Byte64) (Value H.Byte64)) where
  open H use {Byte64, dec, null}

  lookup-new_node :
      (s : D.State) (key_hex : List ℕ) → lookup_depth_first H D s (new_node H) key_hex ≡ []
  unfolding lookup_depth_first new_node
  lookup-new_node s [] = refl
  lookup-new_node s (i ∷ key_hex) = if_pos (dec null null) refl _ _

  new_node-IsClosed : (s : D.State) → IsClosed H D s (new_node H)
  unfolding new_node
  new_node-IsClosed s = record { at = λ i h. inl refl }

  -- With hashes that do not collide, on a well formed store that takes every write,
  -- `NewMptWorldState` makes a valid world state, where `Lookup` finds no key.
  pub new_mpt_world_state-IsValid :
      (laws : IsCollisionFree H) (s : D.State) (key : List ℕ)
      → TakesAll H D
      → WellFormed H D s
      → (w : MptWorldState H D) × (new_mpt_world_state H D s ≡ some w)
        × IsValid H D w
        × (lookup H D w key ≡ err not_found)
  unfolding new_mpt_world_state lookup found put_state
  new_mpt_world_state-IsValid laws s key r wf =
      let (s₁, e₁) = put_node_total H D s _ (new_node H) r in
      let (s₂, e₂) = put_node_total H D s₁ (tx_root H D (hash H (new_node H))) (new_node H) r in
      let same = put_root-SameStates H D s₁ (hash H (new_node H)) (new_node H) e₂ in
      (
        record {
          root_hash = hash H (new_node H);
          root_node = new_node H;
          tx_node = new_node H;
          db = s₂;
        },
        ground (arith, e₁, e₂),
        record {
          well_formed =
              WellFormed-SameStates H D same
                (put_state-WellFormed H D laws s (new_node H) wf (new_node-IsClosed s) e₁);
          closed = new_node-IsClosed s₂;
          root = refl;
          saved = (
            new_node H,
            same.at _
                ∙ get_state-put_state H D s _ (new_node H) (hash H (new_node H)) e₁
                ∙ if_pos (dec _ _) refl _ _,
          );
        },
        ap (found H D) (lookup-new_node s₂ (make_hex key)),
      )
