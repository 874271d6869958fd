-- ===== src/Core/BlockChain/Choice.antt =====
-- core/chain/blockChain.go: how the tip of the earlier block chain moves, and how many blocks it lists.
use go_trust_net.Prelude.{
  ℕ, zero, suc, ◌≤◌, ◌<◌, leb, true, false, length, Option, none, some, ◌≡◌, inl, inr, ◌⊎◌,
  Bool-cases, Option-cases, arith,
}
use go_trust_net.Core.Digest.{Digests}
use go_trust_net.Db.{Database}
use go_trust_net.Core.BlockChain.{
  Error, Result, err, SimpleBlock, BlockNode, Key, block_node_key, Value, max_blocks,
}
use go_trust_net.Core.BlockChain.Nodes.{
  new_block_node, add_child, get_block_node, get_block, get_block_spec, find_main_list_child,
}
use go_trust_net.Core.BlockChain.Chain.{Chain, has, all_known, walk, blocks_by, blocks, block_specs}
use go_trust_net.Core.BlockChain.Walks.{Kept}

module _ (H : Digests) (D : Database (Key H.Byte64) (Value H.Byte64)) where
  open H use {Byte64}
  open D use {State, put}

  -- The tip moves to a block that outweighs it, and stays otherwise.
  abbrev pub Moves : Chain H D → SimpleBlock Byte64 → Byte64 → Chain H D → Type 0
  Moves c b h c' =
      ((c.weight < b.spec.weight)
        × (c'.tip ≡ h)
        × (c'.weight ≡ b.spec.weight)
        × (c'.depth ≡ b.spec.depth)
        × (c'.td ≡ b.spec.timestamp))
      ⊎ ((b.spec.weight ≤ c.weight)
          × (c'.tip ≡ c.tip)
          × (c'.weight ≡ c.weight)
          × (c'.depth ≡ c.depth)
          × (c'.td ≡ c.td))

  -- How AddNetworkNode ends: a refusal that changes nothing, or the block is added.
  abbrev pub Added : Chain H D → SimpleBlock Byte64 → Chain H D × Result (Unit {0}) → Type 0
  Added c b (c', r) =
      ((c' ≡ c) × ((x : Error) × (r ≡ err x)))
      ⊎ ((h : Byte64) × (b.hash ≡ some h)
          × (has H D c.db (block_node_key h) ≡ false)
          × ((parent : BlockNode Byte64) × (get_block_node H D c.db b.spec.parent_hash
                ≡ some parent)
              × Kept H D b.spec.parent_hash (add_child H parent h) (new_block_node H b h) b.spec
                  (c'.db, r))
          × (all_known H D c.db b.spec.uncles ≡ true)
          × Moves c b h c')

  length-walk :
      {A : Type 0} (read : Byte64 → Option A) (s : State) (count : ℕ)
      (n : Option (BlockNode Byte64))
      → length (walk H D read s count n) ≤ count
  unfolding walk
  length-walk read s zero n = omega arith
  length-walk read s (suc count) none = omega arith
  length-walk read s (suc count) (some n) =
      let l = length-walk read s count (find_main_list_child H D s n.children none) in
      elim (Option-cases (read n.hash)) [
        | inl e ↦ rw (walk, e) (omega arith)
        | inr (b, e) ↦ rw (walk, e) (omega (arith, l))
      ]

  length-blocks_by :
      {A : Type 0} (read : Byte64 → Option A) (s : State) (parent : Byte64) (max' : ℕ)
      → (length (blocks_by H D read s parent max') ≤ max')
        × (length (blocks_by H D read s parent max') ≤ max_blocks)
  unfolding blocks_by
  length-blocks_by read s parent max' = elim (Option-cases (get_block_node H D s parent)) [
    | inl e ↦ rw (blocks_by, e) (omega arith, omega arith)
    | inr (n, e) ↦ elim (Bool-cases (leb max' max_blocks)) [
      | inl k ↦
          let l = length-walk read s max' (find_main_list_child H D s n.children none) in
          let m : max' ≤ max_blocks = ground (arith, k) in
          rw (blocks_by, e, k) (l, omega (arith, l, m))
      | inr k ↦
          let l = length-walk read s max_blocks (find_main_list_child H D s n.children none) in
          let m : max_blocks ≤ max' = ground (arith, k) in
          rw (blocks_by, e, k) (omega (arith, l, m), l)
    ]
  ]

  -- Blocks and BlockSpecs end, on any store, even one whose nodes form a circle, with at most as many
  -- blocks as were asked for, and at most a hundred.
  pub length-blocks_bounded :
      (c : Chain H D) (parent : Byte64) (max' : ℕ)
      → (length (blocks H D c parent max') ≤ max')
        × (length (blocks H D c parent max') ≤ max_blocks)
        × (length (block_specs H D c parent max') ≤ max')
        × (length (block_specs H D c parent max') ≤ max_blocks)
  unfolding blocks block_specs
  length-blocks_bounded c parent max' =
      let (a, b) = length-blocks_by (get_block H D c.db) c.db parent max' in
      let (x, y) = length-blocks_by (get_block_spec H D c.db) c.db parent max' in (a, b, x, y)
