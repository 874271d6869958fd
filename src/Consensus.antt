-- ===== src/Consensus.antt =====
-- The package consensus: the blocks and chain nodes of the block DAG, the keys and values of its
-- tables, and the state of the engine `BlockChainConsensus`. An eight-byte number (core.Byte8) is
-- the uint64 that it stands for.
pub mod Blocks
pub mod Store
pub mod Validate
pub mod Insert
pub mod Operations
pub mod Reads
use go_trust_net.Prelude.{ℕ, Bool, List, Option, ◌≡◌, ◌⊎◌, inl, inr, refl}
use go_trust_net.Core.Digest.{Digests}
use go_trust_net.Db.{Database}

-- consensus/error.go.
pub data Error : Type 0 where
  initialization_failed db_corrupted invalid_arg tx_not_found tx_not_applied key_not_found : Error
  not_mainlist state_incorrect block_unhashed duplicate_tx duplicate_block : Error
  block_validation block_orphan greedy_block invalid_tx not_found db_error panic : Error

pub data Result {ℓ} (A : Type ℓ) : Type ℓ where
  ok : A → Result A
  err : Error → Result A

pub record Transaction : Type 0 where
  pub payload : List ℕ
  pub signature : List ℕ
  pub submitter : List ℕ
  pub timestamp : ℕ

-- The fields that go over the wire.
pub record BlockSpec (B : Type 0) : Type 0 where
  pub phash : B
  pub miner : List ℕ
  pub state : B
  pub txs : List Transaction
  pub ts : ℕ
  pub delta : ℕ
  pub depth : ℕ
  pub wt : ℕ
  pub uncles : List B
  pub nonce : ℕ

-- `trie.WorldState` and `trie.NewMptWorldState`: a world state is a view into tables that all views
-- share, so an operation takes the tables and gives them back. `rebase` and `new_world` give `none`
-- for an error. (`HasTransaction` and `RegisterTransaction` use one flat table, whatever the view:
-- it stands in the engine's own store, under `transaction_key`.)
pub record WorldStates (B : Type 0) : Type 1 where
  pub Tables : Type 0
  pub World : Type 0
  pub hash : World → B
  pub new_world : Tables → Tables × Option World
  pub lookup : Tables → World → List ℕ → Option (List ℕ)
  pub update : Tables → World → List ℕ → List ℕ → Tables × World
  pub delete : Tables → World → List ℕ → Tables × World
  pub rebase : Tables → World → B → Tables × Option World
  pub cleanup : Tables → World → B → Tables

-- A block; its fields of the wire are `spec`. In `variables` a deleted key has the value `none`.
pub record Block (B W : Type 0) : Type 0 where
  pub spec : BlockSpec B
  pub uncle_miners : List (List ℕ)
  pub world_state : Option W
  pub hash : Option B
  pub is_network_block : Bool
  pub variables : List (List ℕ × Option (List ℕ))
  pub transactions : List B

-- chainNode.go.
pub record ChainNode (B : Type 0) : Type 0 where
  pub parent : B
  pub depth : ℕ
  pub weight : ℕ
  pub is_main_list : Bool
  pub children : List B
  pub hash : B

pub record Uncle (B : Type 0) : Type 0 where
  pub hash : B
  pub miner : List ℕ
  pub depth : ℕ
  pub distance : ℕ

-- `tableKey(prefix, key)`, and the key of the tip.
pub data Key (B : Type 0) : Type 0 where
  chain_node_key : B → Key B
  block_key : B → Key B
  transaction_key : B → Key B
  dag_tip : Key B

pub data Value (B : Type 0) : Type 0 where
  chain_node : ChainNode B → Value B
  block_spec : BlockSpec B → Value B
  block_id : B → Value B
  tip_hash : B → Value B

abbrev pub max_blocks : ℕ
max_blocks = 100

abbrev pub max_uncle_distance : ℕ
max_uncle_distance = 5

-- `BlockChainConsensus`, over a store and an implementation of the world state.
pub record Engine (H : Digests) (D : Database (Key H.Byte64) (Value H.Byte64))
    (W : WorldStates H.Byte64) : Type 0 where
  pub state : W.World
  pub tip : Block H.Byte64 W.World
  pub weight : ℕ
  pub genesis_node : ChainNode H.Byte64
  pub miner_id : List ℕ
  pub db : D.State
  pub tables : W.Tables

pub Result-cases {ℓ} :
    {A : Type ℓ} (r : Result A) → ((a : A) × (r ≡ ok a)) ⊎ ((e : Error) × (r ≡ err e))
Result-cases (ok a) = inl (a, refl)
Result-cases (err e) = inr (e, refl)
