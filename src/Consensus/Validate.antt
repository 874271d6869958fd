-- ===== src/Consensus/Validate.antt =====
-- consensus/blockChainConsensus.go: the validation of a block and of its uncles.
pub mod Exact
pub mod Distance
use go_trust_net.Prelude.{
  ℕ, zero, suc, ◌+◌, ◌^◌, ◌%◌, Bool, true, false, ◌==◌, leb, ltb, not, if◌then◌else◌, List, [], ◌∷◌,
  ◌++◌, Option, none, some, ite,
}
use go_trust_net.Core.Digest.{Digests}
use go_trust_net.Db.{Database}
use go_trust_net.Consensus.{
  Error, block_orphan, block_validation, Result, ok, err, BlockSpec, WorldStates, Block, ChainNode,
  Key, Value, max_uncle_distance,
}
use go_trust_net.Consensus.Store.{get_chain_node, get_block}

module _ (H : Digests) (D : Database (Key H.Byte64) (Value H.Byte64))
    (W : WorldStates H.Byte64) where
  open H use {Byte64, dec}
  open D use {State}
  open W use {World}

  -- The loops of `isUncleValid` that move a node up to a depth, on fuel: the node where the loop
  -- ends, and the distance; `none` if it ends on nil.
  unfoldable pub climb : State → ℕ → ℕ → ChainNode Byte64 → ℕ → Option (ChainNode Byte64 × ℕ)
  climb s zero target n distance = none
  climb s (suc fuel) target n distance = elim (ltb target n.depth) [
    | false ↦ some (n, distance)
    | true ↦ elim (get_chain_node H D W s n.parent) [
      | none ↦ none
      | some p ↦ climb s fuel target p (distance + 1)
    ]
  ]

  -- The loop that moves both nodes up until they meet: the distance then.
  unfoldable pub meet : State → ℕ → ChainNode Byte64 → ChainNode Byte64 → ℕ → Option ℕ
  meet s zero p u distance = none
  meet s (suc fuel) p u distance = elim (dec p.hash u.hash) [
    | yes _ ↦ some distance
    | no _ ↦ elim (get_chain_node H D W s p.parent) [
      | none ↦ none
      | some p' ↦ elim (get_chain_node H D W s u.parent) [
        | none ↦ none
        | some u' ↦ meet s fuel p' u' (distance + 1)
      ]
    ]
  ]

  -- The distance from the block's parent to the uncle through their nearest common ancestor;
  -- `none` where the source finds none, or the uncle is an ancestor. A climb from depth d takes at
  -- most d rounds.
  unfoldable pub uncle_distance : State → ChainNode Byte64 → ChainNode Byte64 → Option ℕ
  unfolding climb meet
  uncle_distance s parent uncle = elim (climb s (suc parent.depth) uncle.depth parent 0) [
    | none ↦ none
    | some (p, d) ↦ elim (climb s (suc uncle.depth) p.depth uncle d) [
      | none ↦ none
      | some (u, d') ↦ elim (dec p.hash u.hash) [
        | yes _ ↦ none
        | no _ ↦ meet s (suc p.depth) p u d'
      ]
    ]
  ]

  -- `isUncleValid`: the miner of a valid uncle, which the source appends to `uncleMiners`.
  -- Of the block it reads the parent's hash.
  unfoldable pub is_uncle_valid : State → Byte64 → Byte64 → Option (List ℕ)
  unfolding uncle_distance
  is_uncle_valid s phash u_hash = elim (get_chain_node H D W s u_hash) [
    | none ↦ none
    | some uncle ↦ elim (get_chain_node H D W s phash) [
      | none ↦ none
      | some parent ↦ elim (uncle_distance s parent uncle) [
        | none ↦ none
        | some d ↦
            if leb d max_uncle_distance
            then elim (get_block H D W s u_hash) [ none ↦ none | some b ↦ some b.spec.miner ]
            else none
      ]
    ]
  ]

  -- The loop over the uncles: `uncleMiners` and the weight.
  unfoldable pub validate_uncles :
      State → Byte64 → List (List ℕ) → ℕ → List Byte64 → Result (List (List ℕ) × ℕ)
  validate_uncles s phash miners weight [] = ok (miners, weight)
  validate_uncles s phash miners weight (u ∷ us) = elim (is_uncle_valid s phash u) [
    | none ↦ err block_validation
    | some miner ↦ validate_uncles s phash (miners ++ miner ∷ []) ((weight + 1) % 2 ^ 64) us
  ]

  -- `validateBlock`: the block with the miners of its uncles, and its parent. (Only one type
  -- implements `Block`, so the type assertion holds.)
  unfoldable pub validate_block :
      State → Block Byte64 World → Result (Block Byte64 World × Block Byte64 World)
  validate_block s b = elim (get_block H D W s b.spec.phash) [
    | none ↦ err block_orphan
    | some parent ↦
        if b.spec.depth == (parent.spec.depth + 1) % 2 ^ 64
        then elim (validate_uncles s b.spec.phash b.uncle_miners ((parent.spec.wt + 1) % 2 ^ 64)
            b.spec.uncles) [
              | err e ↦ err e
              | ok (miners, weight) ↦
                  if b.spec.wt == weight
                  then ok (record b { uncle_miners = miners }, parent)
                  else err block_validation
            ]
        else err block_validation
  ]
