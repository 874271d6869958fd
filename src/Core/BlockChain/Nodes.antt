-- ===== src/Core/BlockChain/Nodes.antt =====
-- core/block.go and core/chain/blockNode.go: blocks and nodes; and of core/chain/blockChain.go the reads of
-- the store and the search for uncles.
use go_trust_net.Prelude.{
  ℕ, zero, suc, ◌+◌, ◌-◌, ◌%◌, ◌^◌, leb, true, false, List, [], ◌∷◌, ◌++◌, map, Option, none, some,
  ite, if◌then◌else◌,
}
use go_trust_net.Core.Digest.{Digests, Piece, raw, digest}
use go_trust_net.Core.Types.{uint64_to_byte8}
use go_trust_net.Db.{Database}
use go_trust_net.Core.BlockChain.{
  BlockSpec, SimpleBlock, BlockNode, Key, block_node_key, block_spec_key, Value, block_node,
  block_spec, Uncle, max_uncle_distance,
}

module _ (H : Digests) where
  open H use {Byte64, null, sha512, dec}

  -- `NewSimpleBlock`; a time of zero is the present, `now`. The miner is the id as an array.
  unfoldable pub new_simple_block : ℕ → Byte64 → ℕ → ℕ → ℕ → Byte64 → SimpleBlock Byte64
  new_simple_block now previous weight depth ts miner = record {
    spec = record {
      parent_hash = previous;
      miner = miner;
      transactions = [];
      timestamp = elim ts [ zero ↦ now | suc n ↦ suc n ];
      depth = depth;
      weight = weight;
      state = null;
      uncles = [];
      nonce = 0;
    };
    hash = none;
  }

  unfoldable pub add_transaction : SimpleBlock Byte64 → List ℕ → SimpleBlock Byte64
  add_transaction b op = record b {
    spec = record (b.spec) { transactions = b.spec.transactions ++ op ∷ [] };
  }

  unfoldable pub add_uncle : SimpleBlock Byte64 → Byte64 → ℕ → SimpleBlock Byte64
  add_uncle b uncle weight = record b {
    spec = record (b.spec) {
      uncles = b.spec.uncles ++ uncle ∷ [];
      weight = (weight + b.spec.weight) % 2 ^ 64;
    };
  }

  -- What `ComputeHash` hashes.
  unfoldable pub hash_pieces : BlockSpec Byte64 → List (Piece Byte64)
  hash_pieces s =
      digest s.parent_hash
      ∷ digest s.miner
      ∷ raw (uint64_to_byte8 s.timestamp)
      ∷ digest s.state
      ∷ (map raw s.transactions
          ++ raw (uint64_to_byte8 s.weight)
            ∷ (map digest s.uncles ++ raw (uint64_to_byte8 s.nonce) ∷ []))

  unfoldable pub compute_hash : SimpleBlock Byte64 → SimpleBlock Byte64
  unfolding hash_pieces
  compute_hash b = record b { hash = some (sha512 (hash_pieces b.spec)) }

  -- `NewSimpleBlockFromSpec`.
  unfoldable pub new_simple_block_from_spec : BlockSpec Byte64 → SimpleBlock Byte64
  unfolding compute_hash
  new_simple_block_from_spec s = compute_hash (record { spec = s; hash = none })

  -- `NewBlockNode` of a block with the given hash.
  unfoldable pub new_block_node : SimpleBlock Byte64 → Byte64 → BlockNode Byte64
  new_block_node b h = record {
    hash = h;
    parent = b.spec.parent_hash;
    depth = b.spec.depth;
    weight = b.spec.weight;
    is_main_list = false;
    children = [];
  }

  unfoldable pub add_child : BlockNode Byte64 → Byte64 → BlockNode Byte64
  add_child n h = record n { children = n.children ++ h ∷ [] }

  module _ (D : Database (Key Byte64) (Value Byte64)) where
    open D use {State, get, put}

    -- `BlockNode` of the chain: a value of another table cannot be decoded.
    unfoldable pub get_block_node : State → Byte64 → Option (BlockNode Byte64)
    get_block_node s h = elim (get s (block_node_key h)) [ some (block_node n) ↦ some n | _ ↦ none ]

    unfoldable pub get_block_spec : State → Byte64 → Option (BlockSpec Byte64)
    get_block_spec s h = elim (get s (block_spec_key h)) [ some (block_spec b) ↦ some b | _ ↦ none ]

    unfoldable pub get_block : State → Byte64 → Option (SimpleBlock Byte64)
    unfolding get_block_spec new_simple_block_from_spec
    get_block s h = elim (get_block_spec s h) [
      | none ↦ none
      | some spec ↦ some (new_simple_block_from_spec spec)
    ]

    -- `SaveBlockNode`, where the caller drops the error.
    unfoldable pub save_block_node : State → BlockNode Byte64 → State
    save_block_node s n = elim (put s (block_node_key n.hash) (block_node n)) [
      | none ↦ s
      | some s' ↦ s'
    ]

    -- `SaveBlock`, where the caller drops the error.
    unfoldable pub save_block : State → SimpleBlock Byte64 → Byte64 → State
    save_block s b h = elim (put s (block_spec_key h) (block_spec b.spec)) [
      | none ↦ s
      | some s' ↦ s'
    ]

    -- The loops of `findNonDirectAncestors` and `findUncles`, where `below` makes the recursive call for a
    -- child that is reported. A block has the hash that its specification gives.
    unfoldable pub uncles_among :
        State → Option ℕ → ℕ → (Byte64 → List (Uncle Byte64)) → List Byte64 → List (Uncle Byte64)
    unfolding get_block
    uncles_among s max_depth distance below [] = []
    uncles_among s max_depth distance below (c ∷ cs) =
        let rest = uncles_among s max_depth distance below cs in
        elim (get_block s c) [
          | none ↦ rest
          | some b ↦ elim b.hash [
            | none ↦ rest
            | some h ↦
                if elim max_depth [ none ↦ true | some m ↦ leb b.spec.depth m ]
                then (record {
                  hash = h;
                  miner = b.spec.miner;
                  depth = b.spec.depth;
                  distance = distance;
                }
                    ∷ (below c ++ rest))
                else rest
          ]
        ]

    unfoldable pub find_non_direct_ancestors : State → ℕ → ℕ → Byte64 → List (Uncle Byte64)
    unfolding get_block_node uncles_among
    find_non_direct_ancestors s zero max_depth h = []
    find_non_direct_ancestors s (suc d) max_depth h = elim (get_block_node s h) [
      | none ↦ []
      | some n ↦
          uncles_among s (some max_depth) (max_uncle_distance - suc d)
            (λ c. find_non_direct_ancestors s d max_depth c) n.children
    ]

    -- The children of a node other than the parent.
    unfoldable pub without : Byte64 → List Byte64 → List Byte64
    without h [] = []
    without h (c ∷ cs) = ite (dec c h) (without h cs) (c ∷ without h cs)

    unfoldable pub find_uncles : State → ℕ → ℕ → Byte64 → Byte64 → List (Uncle Byte64)
    unfolding get_block_node uncles_among find_non_direct_ancestors without
    find_uncles s zero max_depth grand_parent parent = []
    find_uncles s (suc d) max_depth grand_parent parent = elim (get_block_node s grand_parent) [
      | none ↦ []
      | some n ↦
          uncles_among s none (max_uncle_distance - suc d + 1)
            (λ c. find_non_direct_ancestors s d max_depth c) (without parent n.children)
          ++ find_uncles s d max_depth n.parent n.hash
    ]

    -- `findMainListChild`.
    unfoldable pub find_main_list_child :
        State → List Byte64 → Option Byte64 → Option (BlockNode Byte64)
    unfolding get_block_node
    find_main_list_child s [] skip = none
    find_main_list_child s (c ∷ cs) skip =
        let rest = find_main_list_child s cs skip in
        elim (get_block_node s c) [
          | none ↦ rest
          | some n ↦
              if n.is_main_list
              then elim skip [ none ↦ some n | some h ↦ ite (dec h n.hash) rest (some n) ]
              else rest
        ]
