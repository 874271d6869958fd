-- ===== src/Consensus/Insert.antt =====
-- consensus/blockChainConsensus.go: `addValidatedBlock`, which adds a block to the DAG and moves
-- the main list if the block is better than the tip.
pub mod Choice
pub mod Runs
pub mod Duplicates
pub mod Tree
pub mod Walks
pub mod Ends
pub mod Rebalance
pub mod Total
use go_trust_net.Prelude.{
  ℕ, zero, suc, ◌+◌, Bool, true, false, ◌==◌, ltb, ◌&&◌, ◌||◌, if◌then◌else◌, List, [], ◌∷◌, ◌++◌,
  Option, none, some,
}
use go_trust_net.Core.Digest.{Digests}
use go_trust_net.Db.{Database}
use go_trust_net.Consensus.{
  Error, db_corrupted, duplicate_block, duplicate_tx, panic, state_incorrect, Result, ok, err,
  Transaction, BlockSpec, WorldStates, Block, ChainNode, Key, dag_tip, Value, tip_hash, Engine,
}
use go_trust_net.Consensus.Blocks.{numeric, new_chain_node, add_child, set_main_list, tx_id}
use go_trust_net.Consensus.Store.{
  or_else, get_chain_node, get_block, put_chain_node, put_block, find_main_list_child,
  register_transactions, register_all, transaction_status,
}

module _ (H : Digests) (D : Database (Key H.Byte64) (Value H.Byte64))
    (W : WorldStates H.Byte64) where
  open H use {Byte64}
  open D use {State, put}
  open W use {World, Tables}

  -- The check of one transaction against the chain.
  unfoldable pub is_duplicate : State → Block Byte64 World → Transaction → Bool
  unfolding transaction_status
  is_duplicate s child tx = elim (transaction_status H D W s (tx_id H W tx)) [
    | err _ ↦ false
    | ok (b, n) ↦
        n.is_main_list
        || (ltb child.spec.wt b.spec.wt
            || (b.spec.wt == child.spec.wt && ltb (numeric H W b) (numeric H W child)))
  ]

  unfoldable pub has_duplicate : State → Block Byte64 World → List Transaction → Bool
  unfolding is_duplicate
  has_duplicate s child [] = false
  has_duplicate s child (tx ∷ txs) = is_duplicate s child tx || has_duplicate s child txs

  -- The test for a better block: a greater weight, or the same and a smaller hash in numbers.
  unfoldable pub is_better : ℕ → Block Byte64 World → Block Byte64 World → Bool
  is_better weight tip child =
      ltb weight child.spec.wt
      || (weight == child.spec.wt && ltb (numeric H W child) (numeric H W tip))

  -- The loop up the ancestors, on fuel: it puts them on the main list until it meets one that is.
  -- The result has that ancestor, and the node below it. `none` is a nil dereference, where an
  -- ancestor is not in the store, or the end of the fuel.
  unfoldable pub promote :
      State
      → ℕ
      → ChainNode Byte64
      → ChainNode Byte64
      → Option (State × ChainNode Byte64 × ChainNode Byte64)
  unfolding put_chain_node set_main_list
  promote s zero n below = none
  promote s (suc fuel) n below = elim n.is_main_list [
    | true ↦ some (s, n, below)
    | false ↦
        let n' = set_main_list n true in
        let s₁ = put_chain_node H D W s n' in
        let s₂ : State = elim (get_block H D W s₁ n.hash) [
          | none ↦ s₁
          | some b ↦ (register_all H D W s₁ b.spec.txs n.hash).0
        ] in
        elim (get_chain_node H D W s₂ n.parent) [ none ↦ none | some p ↦ promote s₂ fuel p n' ]
  ]

  -- The loop down the old main list, on fuel: it takes the nodes off.
  unfoldable pub demote : State → ℕ → Option (ChainNode Byte64) → Option State
  unfolding put_chain_node set_main_list find_main_list_child
  demote s zero n = none
  demote s (suc fuel) none = some s
  demote s (suc fuel) (some n) =
      let s₁ = put_chain_node H D W s (set_main_list n false) in
      demote s₁ fuel (find_main_list_child H D W s₁ n.children none)

  -- The two loops, for a child that becomes the tip.
  unfoldable pub rebalance : State → ℕ → ChainNode Byte64 → ChainNode Byte64 → Option State
  unfolding promote demote set_main_list put_chain_node find_main_list_child
  rebalance s fuel parent_node child_node =
      let child = set_main_list child_node true in
      elim (promote s fuel parent_node child) [
        | none ↦ none
        | some (s₁, p, below) ↦
            let s₂ = put_chain_node H D W s₁ child in
            demote s₂ fuel (find_main_list_child H D W s₂ p.children (some below.hash))
      ]

  -- The branch for a better block, from the move of the tip on.
  unfoldable pub switch_tip :
      ℕ
      → Engine H D W
      → Block Byte64 World
      → Byte64
      → ChainNode Byte64
      → ChainNode Byte64
      → Engine H D W × Result (Unit {0})
  switch_tip fuel e child h parent_node child_node =
      let e₁ = record e { weight = child_node.weight; tip = child } in
      elim (put e.db dag_tip (tip_hash h)) [
        | none ↦ (e₁, err db_corrupted)
        | some s₁ ↦
            let (t, w) = W.rebase e.tables e.state child.spec.state in
            let e₂ = record e₁ { db = s₁; tables = t } in
            elim w [
              | none ↦ (e₂, err state_incorrect)
              | some world ↦
                  let (s₂, registered) = register_transactions H D W s₁ child h in
                  let e₃ = record e₂ { state = world; db = s₂ } in
                  if registered
                  then elim (rebalance s₂ fuel parent_node child_node) [
                    | none ↦ (e₃, err panic)
                    | some s₃ ↦ (record e₃ { db = s₃ }, ok tt)
                  ]
                  else (e₃, err db_corrupted)
            ]
      ]

  -- The writes of `addValidatedBlock`, once its checks have passed.
  unfoldable pub insert_block :
      ℕ → Engine H D W → Block Byte64 World → Byte64 → Byte64 → Engine H D W × Result (Unit {0})
  unfolding new_chain_node
  insert_block fuel e child h parent_hash =
      let child_node = new_chain_node H W child h in
      let s₁ = or_else H D W e.db (put_block H D W e.db child h) in
      elim (get_chain_node H D W s₁ parent_hash) [
        | none ↦ (record e { db = s₁ }, err db_corrupted)
        | some n ↦
            let parent_node = add_child n h in
            let s₂ = put_chain_node H D W s₁ parent_node in
            if is_better e.weight e.tip child
            then switch_tip fuel (record e { db = s₂ }) child h parent_node child_node
            else (record e { db = put_chain_node H D W s₂ child_node }, ok tt)
      ]

  -- `addValidatedBlock`. A block without a hash is a nil dereference. The loops over the main list
  -- end with the fuel.
  unfoldable pub add_validated_block :
      ℕ → Engine H D W → Block Byte64 World → Block Byte64 World → Engine H D W × Result (Unit {0})
  add_validated_block fuel e child parent = elim child.hash [
    | none ↦ (e, err panic)
    | some h ↦ elim (get_chain_node H D W e.db h) [
      | some _ ↦ (e, err duplicate_block)
      | none ↦
          if has_duplicate e.db child child.spec.txs
          then (e, err duplicate_tx)
          else elim parent.hash [ none ↦ (e, err panic) | some ph ↦ insert_block fuel e child h ph ]
    ]
  ]
