-- ===== src/Trie/State.antt =====
-- core/trie/trieImpl.go: the operations of `MptWorldState`. An operation returns the new state with
-- its result; an error that the source only logs is dropped, and the store stays as it was.
use go_trust_net.Prelude.{ℕ, zero, suc, List, [], ◌∷◌, Option, none, some, ite}
use go_trust_net.Core.Digest.{Digests}
use go_trust_net.Db.{Database}
use go_trust_net.Trie.{
  marked, unmarked, Tombstone-discrete, Node, transaction_root_by_world_state, transaction_flat_kv,
  Key, table_key, Value, block_id, hash, new_node, MptWorldState,
}
use go_trust_net.Trie.Walk.{
  make_hex, put_node, get_node, put_state, get_state, delete_state, get_tx, delete_tx, tomb_stone,
  update_depth_first, delete_depth_first, lookup_depth_first,
}

-- The codes of core/trie/errors.go, and the error of the store.
pub data Error : Type 0 where
  not_found update_failed db_error : Error

pub data Result {ℓ} (A : Type ℓ) : Type ℓ where
  ok : A → Result A
  err : Error → Result A

module _ (H : Digests) (D : Database (Key H.Byte64) (Value H.Byte64)) where
  open H use {Byte64, dec, null}
  open D use {State, get, put, delete}

  -- The store after a write whose error is dropped.
  unfoldable pub or_else : State → Option State → State
  or_else s none = s
  or_else s (some t) = t

  abbrev pub tx_root : Byte64 → Key Byte64
  tx_root h = table_key transaction_root_by_world_state h

  -- `NewMptWorldState`; `none` where the source returns nil.
  unfoldable pub new_mpt_world_state : State → Option (MptWorldState H D)
  new_mpt_world_state s =
      let h = hash H (new_node H) in
      elim (put_state H D s h (new_node H)) [
        | none ↦ none
        | some s₁ ↦ elim (put_node H D s₁ (tx_root h) (new_node H)) [
          | none ↦ none
          | some s₂ ↦
              some (record { root_hash = h; root_node = new_node H; tx_node = new_node H; db = s₂ })
        ]
      ]

  -- The end of `Update` and `Delete`: the root of the transactions moves on to the new root hash.
  unfoldable pub switch_root : MptWorldState H D → State × Node Byte64 × Byte64 → MptWorldState H D
  unfolding or_else
  switch_root w (s, n, h) =
      ite (dec h null) (record w { db = s; root_node = n })
        (let marked_tx = record (w.tx_node) { tombstone = marked } in
          let tx = record (w.tx_node) { tombstone = unmarked } in
          let s₁ = or_else s (put_node H D s (tx_root w.root_hash) marked_tx) in
          elim (put_node H D s₁ (tx_root h) tx) [
            | none ↦ record w { db = s₁; root_node = n; tx_node = tx }
            | some s₂ ↦ record { root_hash = h; root_node = n; tx_node = tx; db = s₂ }
          ])

  -- `Update` and `Delete` return the root hash of the new state.
  unfoldable pub update : MptWorldState H D → List ℕ → List ℕ → MptWorldState H D
  update w key value = switch_root w (update_depth_first H D w.db w.root_node (make_hex key) value)

  unfoldable pub delete_key : MptWorldState H D → List ℕ → MptWorldState H D
  delete_key w key = switch_root w (delete_depth_first H D w.db w.root_node (make_hex key))

  -- `Lookup`: an empty value counts as a missing key.
  unfoldable pub found : List ℕ → Result (List ℕ)
  found [] = err not_found
  found (b ∷ value) = ok (b ∷ value)

  unfoldable pub lookup : MptWorldState H D → List ℕ → Result (List ℕ)
  lookup w key = found (lookup_depth_first H D w.db w.root_node (make_hex key))

  -- `HasTransaction`, over the flat table.
  unfoldable pub has_transaction : MptWorldState H D → Byte64 → Option Byte64
  has_transaction w tx_id = elim (get w.db (table_key transaction_flat_kv tx_id)) [
    | some (block_id b) ↦ some b
    | _ ↦ none
  ]

  -- `RegisterTransaction`; `none` is the error of the store.
  unfoldable pub register_transaction :
      MptWorldState H D → Byte64 → Byte64 → Option (MptWorldState H D)
  register_transaction w tx_id b =
      elim (put w.db (table_key transaction_flat_kv tx_id) (block_id b)) [
        | none ↦ none
        | some s ↦ some (record w { db = s })
      ]

  -- `Rebase` once the two roots have been read.
  unfoldable pub rebase_onto :
      MptWorldState H D → Byte64 → Node Byte64 → Node Byte64 → MptWorldState H D × Result (Unit {0})
  unfolding or_else tomb_stone
  rebase_onto w h root tx =
      let root' = record root { tombstone = unmarked } in
      let tx' = record tx { tombstone = unmarked } in
      elim (put_state H D w.db (hash H root') root') [
        | none ↦ (w, err db_error)
        | some s₁ ↦ elim (put_node H D s₁ (tx_root (hash H root')) tx') [
          | none ↦ (record w { db = s₁ }, err db_error)
          | some s₂ ↦
              let old_tx = record (w.tx_node) { tombstone = marked } in
              (
                record {
                  root_hash = h;
                  root_node = root';
                  tx_node = tx';
                  db = or_else s₂ (put_node H D s₂ (tx_root w.root_hash) old_tx);
                },
                ok tt,
              )
        ]
      ]

  unfoldable pub rebase : MptWorldState H D → Byte64 → MptWorldState H D × Result (Unit {0})
  rebase w h = elim (get_state H D w.db h) [
    | none ↦ (w, err not_found)
    | some root ↦ elim (get_node H D w.db (tx_root h)) [
      | none ↦ (w, err not_found)
      | some tx ↦ rebase_onto w h root tx
    ]
  ]

  -- The loop of `cleanupDepthFirst` over the indexes of a node, from `i` on.
  unfoldable pub cleanup_children :
      (State → Byte64 → Option (Node Byte64))
      → (State → Node Byte64 → Option State)
      → ℕ
      → ℕ
      → State
      → (ℕ → Byte64)
      → Option State
  cleanup_children getter clean zero i s idxs = some s
  cleanup_children getter clean (suc k) i s idxs =
      ite (dec (idxs i) null) (cleanup_children getter clean k (suc i) s idxs)
        (elim (getter s (idxs i)) [
          | none ↦ cleanup_children getter clean k (suc i) s idxs
          | some child ↦ elim (clean s child) [
            | none ↦ none
            | some s' ↦ cleanup_children getter clean k (suc i) s' idxs
          ]
        ])

  -- `cleanupDepthFirst` on fuel, which is the depth of the trie; `none` means that it ran out.
  unfoldable pub cleanup_depth_first :
      (State → Byte64 → Option (Node Byte64))
      → (State → Byte64 → Option State)
      → ℕ
      → State
      → Node Byte64
      → Option State
  unfolding cleanup_children or_else
  cleanup_depth_first getter del zero s n = none
  cleanup_depth_first getter del (suc fuel) s n = elim (Tombstone-discrete n.tombstone unmarked) [
    | yes _ ↦ some s
    | no _ ↦ elim (cleanup_children getter (cleanup_depth_first getter del fuel) 16 0 s n.idxs) [
      | none ↦ none
      | some s' ↦ some (or_else s' (del s' (hash H n)))
    ]
  ]

  -- The part of `Cleanup` that follows the world state.
  unfoldable pub cleanup_tx : ℕ → MptWorldState H D → Byte64 → Option (MptWorldState H D)
  unfolding cleanup_depth_first or_else
  cleanup_tx fuel w h = elim (get_node H D w.db (tx_root h)) [
    | none ↦ some w
    | some tx ↦ elim (cleanup_depth_first (get_tx H D) (delete_tx H D) fuel w.db tx) [
      | none ↦ none
      | some s ↦ some (record w { db = or_else s (delete s (tx_root h)) })
    ]
  ]

  unfoldable pub cleanup :
      ℕ → MptWorldState H D → Byte64 → Option (MptWorldState H D × Result (Unit {0}))
  unfolding cleanup_depth_first cleanup_tx
  cleanup fuel w h = elim (get_state H D w.db h) [
    | none ↦ some (w, err not_found)
    | some stale ↦ elim (cleanup_depth_first (get_state H D) (delete_state H D) fuel w.db stale) [
      | none ↦ none
      | some s ↦ elim (cleanup_tx fuel (record w { db = s }) h) [
        | none ↦ none
        | some w' ↦ some (w', ok tt)
      ]
    ]
  ]
