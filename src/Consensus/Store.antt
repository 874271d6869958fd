-- ===== src/Consensus/Store.antt =====
-- consensus/blockChainConsensus.go: the tables of the engine, and the searches that read them. A
-- stored block is its `BlockSpec`; `common.Serialize` and `common.Deserialize` (encoding/gob) are
-- taken to be inverse to one another.
use go_trust_net.Prelude.{
  ℕ, zero, suc, ◌+◌, ◌-◌, Bool, true, false, leb, if◌then◌else◌, List, [], ◌∷◌, ◌++◌, Option, none,
  some, ite,
}
use go_trust_net.Core.Digest.{Digests}
use go_trust_net.Db.{Database}
use go_trust_net.Consensus.{
  Result, ok, err, WorldStates, Block, ChainNode, Uncle, Key, chain_node_key, block_key,
  transaction_key, Value, chain_node, block_spec, block_id, tx_not_found, db_corrupted,
  tx_not_applied, Transaction, max_uncle_distance,
}
use go_trust_net.Consensus.Blocks.{serialize_block, de_serialize_block, tx_id}

module _ (H : Digests) (D : Database (Key H.Byte64) (Value H.Byte64))
    (W : WorldStates H.Byte64) where
  open H use {Byte64, dec, null}
  open D use {State, get, put}
  open W use {World}

  -- The store after a write whose error is dropped.
  unfoldable pub or_else : State → Option State → State
  or_else s none = s
  or_else s (some t) = t

  unfoldable pub get_chain_node : State → Byte64 → Option (ChainNode Byte64)
  get_chain_node s h = elim (get s (chain_node_key h)) [ some (chain_node n) ↦ some n | _ ↦ none ]

  -- A block that is read has the hash that it was asked for.
  unfoldable pub get_block : State → Byte64 → Option (Block Byte64 World)
  unfolding de_serialize_block
  get_block s h = elim (get s (block_key h)) [
    | some (block_spec spec) ↦ some (record (de_serialize_block H W spec) { hash = some h })
    | _ ↦ none
  ]

  -- `putChainNode`, its error dropped, as every caller but the constructor does.
  unfoldable pub put_chain_node : State → ChainNode Byte64 → State
  unfolding or_else
  put_chain_node s n = or_else s (put s (chain_node_key n.hash) (chain_node n))

  -- `putBlock` of a block with the given hash; `none` is an error of the serialization or of the
  -- store.
  unfoldable pub put_block : State → Block Byte64 World → Byte64 → Option State
  unfolding serialize_block
  put_block s b h = elim (serialize_block H W b) [
    | ok spec ↦ put s (block_key h) (block_spec spec)
    | err _ ↦ none
  ]

  -- The loops of `findNonDirectAncestors` and `findUncles` over the children of a node, where
  -- `below` makes the recursive call for a child that is reported.
  unfoldable pub uncles_among :
      State
      → (Block Byte64 World → Bool)
      → ℕ
      → (Byte64 → List (Uncle Byte64))
      → List Byte64
      → List (Uncle Byte64)
  uncles_among s report distance below [] = []
  uncles_among s report distance below (h ∷ hs) =
      let rest = uncles_among s report distance below hs in
      elim (get_block s h) [
        | none ↦ rest
        | some b ↦
            if report b
            then (record {
              hash = h;
              miner = b.spec.miner;
              depth = b.spec.depth;
              distance = distance;
            }
                ∷ (below h ++ rest))
            else rest
      ]

  unfoldable pub find_non_direct_ancestors : State → Byte64 → ℕ → ℕ → List (Uncle Byte64)
  unfolding uncles_among
  find_non_direct_ancestors s child zero max_depth = []
  find_non_direct_ancestors s child (suc remaining) max_depth = elim (get_chain_node s child) [
    | none ↦ []
    | some n ↦
        uncles_among s (λ b. leb b.spec.depth max_depth) (max_uncle_distance - suc remaining)
          (λ h. find_non_direct_ancestors s h remaining max_depth) n.children
  ]

  unfoldable pub without : Byte64 → List Byte64 → List Byte64
  without h [] = []
  without h (j ∷ hs) = ite (dec j h) (without h hs) (j ∷ without h hs)

  unfoldable pub find_uncles : State → Byte64 → Byte64 → ℕ → ℕ → List (Uncle Byte64)
  unfolding uncles_among without
  find_uncles s grand_parent parent zero max_depth = []
  find_uncles s grand_parent parent (suc remaining) max_depth =
      ite (dec grand_parent null) [] (elim (get_chain_node s grand_parent) [
        | none ↦ []
        | some n ↦
            uncles_among s (λ b. true) (max_uncle_distance - suc remaining + 1)
              (λ h. find_non_direct_ancestors s h remaining max_depth) (without parent n.children)
            ++ find_uncles s n.parent n.hash remaining max_depth
      ])

  -- `findMainListChild`: the first child on the main list whose hash is not the one to skip.
  unfoldable pub find_main_list_child :
      State → List Byte64 → Option Byte64 → Option (ChainNode Byte64)
  find_main_list_child s [] skip = none
  find_main_list_child s (h ∷ hs) skip =
      let rest = find_main_list_child s hs skip in
      elim (get_chain_node s h) [
        | none ↦ rest
        | some child ↦
            if child.is_main_list
            then elim skip [ none ↦ some child | some j ↦ ite (dec j child.hash) rest (some child) ]
            else rest
      ]

  -- `HasTransaction` and `RegisterTransaction` of the world state.
  unfoldable pub has_transaction : State → Byte64 → Option Byte64
  has_transaction s id = elim (get s (transaction_key id)) [ some (block_id h) ↦ some h | _ ↦ none ]

  -- `registerTransactions` of a block: the store, and whether every write succeeded.
  unfoldable pub register_all : State → List Transaction → Byte64 → State × Bool
  register_all s [] h = (s, true)
  register_all s (tx ∷ txs) h = elim (put s (transaction_key (tx_id H W tx)) (block_id h)) [
    | none ↦ (s, false)
    | some s' ↦ register_all s' txs h
  ]

  unfoldable pub register_transactions : State → Block Byte64 World → Byte64 → State × Bool
  unfolding register_all
  register_transactions s b h = elim b.world_state [
    | none ↦ (s, true)
    | some _ ↦ register_all s b.spec.txs h
  ]

  -- `transactionStatus`, where it finds a block.
  unfoldable pub transaction_status :
      State → Byte64 → Result (Block Byte64 World × ChainNode Byte64)
  transaction_status s id = elim (has_transaction s id) [
    | none ↦ err tx_not_found
    | some h ↦ elim (get_chain_node s h) [
      | none ↦ err db_corrupted
      | some n ↦
          if n.is_main_list
          then elim (get_block s h) [ none ↦ err db_corrupted | some b ↦ ok (b, n) ]
          else err tx_not_applied
    ]
  ]
