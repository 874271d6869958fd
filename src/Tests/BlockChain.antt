-- ===== src/Tests/BlockChain.antt =====
-- core/chain/blockChain.go at concrete inputs: a genesis block with one child, and a heavier block on that.
use go_trust_net.Prelude.{ℕ, ◌≤◌, true, List, [], ◌∷◌, length, Option, none, some, ite}
use go_trust_net.Db.{Database}
use go_trust_net.Core.BlockChain.{
  BlockSpec, SimpleBlock, BlockNode, Key, dag_tip, block_node_key, block_spec_key, Value, tip_hash,
  block_node, block_spec, max_blocks,
}
use go_trust_net.Core.BlockChain.Chain.{Chain, blocks, block_specs}
use go_trust_net.Core.BlockChain.Choice.{length-blocks_bounded}
use go_trust_net.Tests.{digests, list_dec, table}

key_dec : Discrete (Key (List ℕ))
key_dec = hlevel list_dec

abbrev D : Database (Key (List ℕ)) (Value (List ℕ))
D = table key_dec

abbrev spec : ℕ → ℕ → BlockSpec (List ℕ)
spec parent weight = record {
  parent_hash = parent ∷ [];
  miner = 8 ∷ [];
  transactions = [];
  timestamp = 1000;
  depth = weight;
  weight = weight;
  state = [];
  uncles = [];
  nonce = 0;
}

abbrev node : ℕ → ℕ → ℕ → List (List ℕ) → BlockNode (List ℕ)
node hash parent weight children = record {
  hash = hash ∷ [];
  parent = parent ∷ [];
  depth = weight;
  weight = weight;
  is_main_list = true;
  children = children;
}

find : List (Key (List ℕ) × Value (List ℕ)) → Key (List ℕ) → Option (Value (List ℕ))
find [] k = none
find ((j, v) ∷ entries) k = ite (key_dec j k) (some v) (find entries k)

abbrev chain : Chain digests D
chain = record {
  genesis = node 1 0 0 [];
  tip = 2 ∷ [];
  td = 1000;
  depth = 1;
  weight = 1;
  db = find (
      (block_node_key (1 ∷ []), block_node (node 1 0 0 ((2 ∷ []) ∷ [])))
      ∷ (block_node_key (2 ∷ []), block_node (node 2 1 1 []))
      ∷ (block_spec_key (1 ∷ []), block_spec (spec 0 0))
      ∷ (block_spec_key (2 ∷ []), block_spec (spec 1 1))
      ∷ (dag_tip, tip_hash (2 ∷ []))
      ∷ []);
}

-- A store with the node of the genesis block only.
abbrev lone : BlockNode (List ℕ)
lone = node 1 0 0 []

abbrev genesis_only : Key (List ℕ) → Option (Value (List ℕ))
genesis_only k = ite (key_dec (block_node_key (1 ∷ [])) k) (some (block_node lone)) none

abbrev young : Chain digests D
young = record { genesis = lone; tip = 1 ∷ []; td = 1000; depth = 0; weight = 0; db = genesis_only }

abbrev second : SimpleBlock (List ℕ)
second = record { spec = spec 1 1; hash = some (2 ∷ []) }

length-blocks_bounded_example :
    (length (blocks digests D chain (1 ∷ []) 7) ≤ 7)
    × (length (blocks digests D chain (1 ∷ []) 7) ≤ max_blocks)
    × (length (block_specs digests D chain (1 ∷ []) 7) ≤ 7)
    × (length (block_specs digests D chain (1 ∷ []) 7) ≤ max_blocks)
length-blocks_bounded_example = length-blocks_bounded digests D chain (1 ∷ []) 7
