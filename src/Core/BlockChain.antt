-- ===== src/Core/BlockChain.antt =====
-- core/block.go, core/chain/blockNode.go and core/chain/blockChain.go: the types of the earlier block
-- chain, whose main list is the heaviest path. A 64 bit number that is stored as bytes is the number.
pub mod Nodes
pub mod Chain
pub mod Kept
pub mod Walks
pub mod Choice
use go_trust_net.Prelude.{ℕ, Bool, List, Option}

-- core/errors.go; `panic` is a nil dereference.
pub data Error : Type 0 where
  duplicate_block orphan_block invalid_hash invalid_block db_uninitialized db_corrupted
        invalid_uncle panic :
      Error

pub data Result (A : Type 0) : Type 0 where
  ok : A → Result A
  err : Error → Result A

pub record BlockSpec (B : Type 0) : Type 0 where
  pub parent_hash : B
  pub miner : B
  pub transactions : List (List ℕ)
  pub timestamp : ℕ
  pub depth : ℕ
  pub weight : ℕ
  pub state : B
  pub uncles : List B
  pub nonce : ℕ

-- `SimpleBlock`: the fields of its specification, and its hash.
pub record SimpleBlock (B : Type 0) : Type 0 where
  pub spec : BlockSpec B
  pub hash : Option B

-- `BlockNode`; its BLOCK is its HASH.
pub record BlockNode (B : Type 0) : Type 0 where
  pub hash : B
  pub parent : B
  pub depth : ℕ
  pub weight : ℕ
  pub is_main_list : Bool
  pub children : List B

-- The keys of the tables, and what they hold.
pub data Key (B : Type 0) : Type 0 where
  dag_tip : Key B
  block_node_key block_spec_key : B → Key B

pub data Value (B : Type 0) : Type 0 where
  tip_hash : B → Value B
  block_node : BlockNode B → Value B
  block_spec : BlockSpec B → Value B

-- `uncle`, as `findUncles` reports it.
pub record Uncle (B : Type 0) : Type 0 where
  pub hash : B
  pub miner : B
  pub depth : ℕ
  pub distance : ℕ

-- `BlockChainInMem`; `td` is the timestamp of the tip.
pub record BlockChainInMem (B S : Type 0) : Type 0 where
  pub genesis : BlockNode B
  pub tip : B
  pub td : ℕ
  pub depth : ℕ
  pub weight : ℕ
  pub db : S

abbrev pub max_blocks : ℕ
max_blocks = 100

abbrev pub max_uncle_distance : ℕ
max_uncle_distance = 5
