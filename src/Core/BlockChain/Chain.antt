-- ===== src/Core/BlockChain/Chain.antt =====
-- core/chain/blockChain.go: the operations of `BlockChainInMem`. The walks along the main list run on fuel,
-- and give `panic` at its end.
use go_trust_net.Prelude.{
  ℕ, zero, suc, ltb, leb, Bool, true, false, List, [], ◌∷◌, Option, none, some, if◌then◌else◌,
}
use go_trust_net.Core.Digest.{Digests}
use go_trust_net.Db.{Database}
use go_trust_net.Core.BlockChain.{
  duplicate_block, orphan_block, invalid_hash, invalid_block, db_uninitialized, db_corrupted,
  invalid_uncle, panic, Result, ok, err, BlockSpec, SimpleBlock, BlockNode, Key, dag_tip,
  block_node_key, block_spec_key, Value, tip_hash, block_node, block_spec, Uncle, BlockChainInMem,
  max_blocks, max_uncle_distance,
}
use go_trust_net.Core.BlockChain.Nodes.{
  add_uncle, compute_hash, new_block_node, add_child, get_block_node, get_block_spec, get_block,
  save_block_node, save_block, find_uncles, find_main_list_child,
}

module _ (H : Digests) (D : Database (Key H.Byte64) (Value H.Byte64)) where
  open H use {Byte64}
  open D use {State, get, put, delete}

  abbrev pub Chain : Type 0
  Chain = BlockChainInMem Byte64 State

  unfoldable pub has : State → Key Byte64 → Bool
  has s k = elim (get s k) [ none ↦ false | some _ ↦ true ]

  -- `SaveBlockNode` and `SaveBlock`, of a genesis block, where an error is returned.
  unfoldable pub save_genesis : State → SimpleBlock Byte64 → BlockNode Byte64 → Option State
  save_genesis s b n = elim (put s dag_tip (tip_hash n.hash)) [
    | none ↦ none
    | some s₁ ↦ elim (put s₁ (block_spec_key n.hash) (block_spec b.spec)) [
      | none ↦ none
      | some s₂ ↦ put s₂ (block_node_key n.hash) (block_node n)
    ]
  ]

  -- The chain whose tip is read from the store.
  unfoldable pub restore : State → SimpleBlock Byte64 → BlockNode Byte64 → Byte64 → Result Chain
  restore s b n tip = elim (get_block_node H D s tip) [
    | none ↦ err db_corrupted
    | some node ↦ elim (get_block H D s tip) [
      | none ↦ err db_corrupted
      | some top ↦ ok (record {
        genesis = n;
        tip = tip;
        td = top.spec.timestamp;
        depth = node.depth;
        weight = 0;
        db = s;
      })
    ]
  ]

  -- `NewBlockChainInMem`.
  unfoldable pub new_block_chain_in_mem : SimpleBlock Byte64 → State → Result Chain
  unfolding save_genesis restore new_block_node
  new_block_chain_in_mem b s = elim b.hash [
    | none ↦ err panic
    | some h ↦
        let n = record (new_block_node H b h) { is_main_list = true } in
        elim (get s dag_tip) [
          | some (tip_hash t) ↦ restore s b n t
          | _ ↦ elim (save_genesis s b n) [
            | none ↦ err db_uninitialized
            | some s' ↦ ok (record {
              genesis = n;
              tip = h;
              td = b.spec.timestamp;
              depth = 0;
              weight = 0;
              db = s';
            })
          ]
        ]
  ]

  -- A delete whose error is only logged.
  unfoldable pub drop : State → Key Byte64 → State
  drop s k = elim (delete s k) [ none ↦ s | some t ↦ t ]

  -- The loop of `Flush`.
  unfoldable pub drop_list : ℕ → State → Option (BlockNode Byte64) → Option State
  unfolding drop
  drop_list fuel s none = some s
  drop_list zero s (some n) = none
  drop_list (suc fuel) s (some n) =
      let s₂ = drop (drop s (block_node_key n.hash)) (block_spec_key n.hash) in
      drop_list fuel s₂ (find_main_list_child H D s₂ n.children none)

  unfoldable pub flush : ℕ → Chain → Chain × Result (Unit {0})
  unfolding drop_list
  flush fuel c =
      let c₁ = record c { tip = c.genesis.hash } in
      elim (put c.db dag_tip (tip_hash c.genesis.hash)) [
        | none ↦ (c₁, err db_uninitialized)
        | some s ↦
            let c₂ = record c₁ { db = s; depth = 0 } in
            elim (get_block H D s c.genesis.hash) [
              | none ↦ (c₂, err panic)
              | some b ↦
                  let c₃ = record c₂ { td = b.spec.timestamp } in
                  elim (get_block_node H D s c.genesis.hash) [
                    | none ↦ (c₃, err panic)
                    | some n ↦
                        elim (drop_list fuel s (find_main_list_child H D s n.children none)) [
                          | none ↦ (c₃, err panic)
                          | some t ↦ (record c₃ { db = t }, ok tt)
                        ]
                  ]
            ]
      ]

  -- `Tip`.
  unfoldable pub tip_node : Chain → Option (BlockNode Byte64)
  tip_node c = get_block_node H D c.db c.tip

  -- The walk up of `addBlock`: the store, the first ancestor on the main list, and the hash of the node
  -- below it.
  unfoldable pub promote :
      ℕ → State → BlockNode Byte64 → Byte64 → State × Option (BlockNode Byte64 × Byte64)
  promote zero s n below = (s, if n.is_main_list then some (n, below) else none)
  promote (suc fuel) s n below =
      let s' = save_block_node H D s (record n { is_main_list = true }) in
      elim n.is_main_list [
        | true ↦ (s, some (n, below))
        | false ↦ elim (get_block_node H D s' n.parent) [
          | none ↦ (s', none)
          | some p ↦ promote fuel s' p n.hash
        ]
      ]

  -- The walk down the old main list.
  unfoldable pub demote : ℕ → State → Option (BlockNode Byte64) → State × Bool
  demote fuel s none = (s, true)
  demote zero s (some n) = (s, false)
  demote (suc fuel) s (some n) =
      let s' = save_block_node H D s (record n { is_main_list = false }) in
      demote fuel s' (find_main_list_child H D s' n.children none)

  -- The main list is moved to a child of the given node.
  unfoldable pub rebalance :
      ℕ → State → BlockNode Byte64 → BlockNode Byte64 → State × Result (Unit {0})
  unfolding promote demote
  rebalance fuel s child parent =
      let (s₁, found) = promote fuel s parent child.hash in
      elim found [
        | none ↦ (s₁, err panic)
        | some (top, below) ↦
            let s₂ = save_block_node H D s₁ (record child { is_main_list = true }) in
            let (s₃, ended) =
              demote fuel s₂ (find_main_list_child H D s₂ top.children (some below)) in
            (s₃, if ended then ok tt else err panic)
      ]

  -- The part of `addBlock` for a block that outweighs the tip.
  unfoldable pub move_tip :
      ℕ
      → Chain
      → SimpleBlock Byte64
      → BlockNode Byte64
      → BlockNode Byte64
      → Chain × Result (Unit {0})
  unfolding rebalance
  move_tip fuel c b child parent =
      let c₁ = record c {
        td = b.spec.timestamp;
        depth = child.depth;
        weight = child.weight;
        tip = child.hash;
      } in
      elim (put c.db dag_tip (tip_hash child.hash)) [
        | none ↦ (c₁, err db_corrupted)
        | some s ↦ let (s', r) = rebalance fuel s child parent in (record c₁ { db = s' }, r)
      ]

  -- `addBlock`, of a block with the given hash.
  unfoldable pub add_block :
      ℕ → Chain → SimpleBlock Byte64 → Byte64 → BlockNode Byte64 → Chain × Result (Unit {0})
  unfolding move_tip new_block_node
  add_block fuel c b h parent =
      let child = new_block_node H b h in
      let parent' = add_child H parent h in
      let s = save_block_node H D (save_block H D c.db b h) parent' in
      if ltb c.weight child.weight
      then move_tip fuel (record c { db = s }) b child parent'
      else (record c { db = save_block_node H D s child }, ok tt)

  unfoldable pub add_uncles : SimpleBlock Byte64 → List (Uncle Byte64) → SimpleBlock Byte64
  add_uncles b [] = b
  add_uncles b (u ∷ us) = add_uncles (add_uncle H b u.hash 1) us

  -- `AddBlockNode`: the chain, the block as it stands, and the error.
  unfoldable pub add_block_node :
      ℕ → Chain → SimpleBlock Byte64 → Chain × SimpleBlock Byte64 × Result (Unit {0})
  unfolding add_block add_uncles has
  add_block_node fuel c b = elim b.hash [
    | some _ ↦ (c, b, err invalid_block)
    | none ↦ elim (get_block_node H D c.db b.spec.parent_hash) [
      | none ↦ (c, b, err orphan_block)
      | some parent ↦ elim b.spec.uncles [
        | _ ∷ _ ↦ (c, b, err invalid_block)
        | [] ↦
            let b' = compute_hash H (
              add_uncles b
                (find_uncles H D c.db max_uncle_distance parent.depth parent.parent parent.hash)) in
            elim b'.hash [
              | none ↦ (c, b', err panic)
              | some h ↦
                  if has c.db (block_node_key h)
                  then (c, b', err duplicate_block)
                  else (let (c', r) = add_block fuel c b' h parent in (c', b', r))
            ]
      ]
    ]
  ]

  -- Whether all uncles of a list are stored.
  unfoldable pub all_known : State → List Byte64 → Bool
  unfolding has
  all_known s [] = true
  all_known s (u ∷ us) = if has s (block_node_key u) then all_known s us else false

  -- `AddNetworkNode`.
  unfoldable pub add_network_node : ℕ → Chain → SimpleBlock Byte64 → Chain × Result (Unit {0})
  unfolding add_block all_known has
  add_network_node fuel c b = elim b.hash [
    | none ↦ (c, err invalid_hash)
    | some h ↦
        if has c.db (block_node_key h)
        then (c, err duplicate_block)
        else elim (get_block_node H D c.db b.spec.parent_hash) [
          | none ↦ (c, err orphan_block)
          | some parent ↦
              if all_known c.db b.spec.uncles
              then add_block fuel c b h parent
              else (c, err invalid_uncle)
        ]
  ]

  -- The loops of `Blocks` and `BlockSpecs`, where `read` is `Block` or `BlockSpec`.
  unfoldable pub walk :
      {A : Type 0} → (Byte64 → Option A) → State → ℕ → Option (BlockNode Byte64) → List A
  walk read s zero n = []
  walk read s (suc count) none = []
  walk read s (suc count) (some n) =
      let rest = walk read s count (find_main_list_child H D s n.children none) in
      elim (read n.hash) [ none ↦ [] | some b ↦ b ∷ rest ]

  unfoldable pub blocks_by : {A : Type 0} → (Byte64 → Option A) → State → Byte64 → ℕ → List A
  unfolding walk
  blocks_by read s parent max' =
      let count = if leb max' max_blocks then max' else max_blocks in
      elim (get_block_node H D s parent) [
        | none ↦ []
        | some n ↦ walk read s count (find_main_list_child H D s n.children none)
      ]

  unfoldable pub blocks : Chain → Byte64 → ℕ → List (SimpleBlock Byte64)
  unfolding blocks_by
  blocks c = blocks_by (get_block H D c.db) c.db

  unfoldable pub block_specs : Chain → Byte64 → ℕ → List (BlockSpec Byte64)
  unfolding blocks_by
  block_specs c = blocks_by (get_block_spec H D c.db) c.db
