-- ===== src/Trie.antt =====
-- core/trie/trieImpl.go: the nodes of the world state trie, the keys of its tables, and the state
-- of `MptWorldState`. A store holds typed values: `common.Serialize` and `common.Deserialize`
-- (encoding/gob) are taken to be inverse to one another.
pub mod Walk
pub mod Store
pub mod Update
pub mod Walks
pub mod Tables
pub mod WorldView
pub mod State
use go_trust_net.Prelude.{ℕ, suc, zero, List, [], ◌∷◌, ◌++◌, ◌+◌, ◌*◌, replicate, length}
use go_trust_net.Core.Digest.{Digests, Piece, raw, digest}
use go_trust_net.Db.{Database}

pub data Tombstone : Type 0 where
  uninitialized marked unmarked : Tombstone

pub Tombstone-discrete : Discrete Tombstone
Tombstone-discrete = hlevel

-- `Idxs [16]core.Byte64` is a function, read below 16 only. A nil `Value` is the empty list.
pub record Node (B : Type 0) : Type 0 where
  pub idxs : ℕ → B
  pub value : List ℕ
  pub tombstone : Tombstone

-- The prefixes of the keys.
pub data Table : Type 0 where
  transaction_root_by_world_state transaction_node transaction_flat_kv mpt_world_state_node : Table

-- `tableKey(prefix, key)`.
pub data Key (B : Type 0) : Type 0 where
  table_key : Table → B → Key B

-- What the tables hold: nodes, and in `transaction_flat_kv` the hash of a block.
pub data Value (B : Type 0) : Type 0 where
  node : Node B → Value B
  block_id : B → Value B

module _ (H : Digests) where
  open H use {Byte64, null, sha512}

  -- The sixteen indexes, in order from `i` on.
  unfoldable pub index_pieces : ℕ → ℕ → (ℕ → Byte64) → List (Piece Byte64)
  index_pieces zero i idxs = []
  index_pieces (suc k) i idxs = digest (idxs i) ∷ index_pieces k (suc i) idxs

  -- `(*node).hash`: the buffer starts with 16 * 64 + len(Value) zeros, then come the indexes and
  -- the value.
  unfoldable pub hash : Node Byte64 → Byte64
  unfolding index_pieces
  hash n = sha512 (
      raw (replicate (16 * 64 + length n.value) 0) ∷ (index_pieces 16 0 n.idxs ++ raw n.value ∷ []))

  -- `&node{Tombstone: uninitialized}`.
  unfoldable pub new_node : Node Byte64
  new_node = record { idxs = λ _. null; value = []; tombstone = uninitialized }

-- `MptWorldState`, over a store.
pub record MptWorldState (H : Digests) (D : Database (Key H.Byte64) (Value H.Byte64)) : Type 0 where
  pub root_hash : H.Byte64
  pub root_node : Node H.Byte64
  pub tx_node : Node H.Byte64
  pub db : D.State
