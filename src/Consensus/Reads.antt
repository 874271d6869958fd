-- ===== src/Consensus/Reads.antt =====
-- consensus/blockChainConsensus.go: the operations that read the chain.
pub mod Bounds
use go_trust_net.Prelude.{
  ℕ, zero, suc, ◌+◌, ◌-◌, ◌%◌, ◌^◌, Bool, true, false, ◌==◌, ltb, leb, if◌then◌else◌, List, [], ◌∷◌,
  ◌++◌, length, Option, none, some, ite, min,
}
use go_trust_net.Core.Digest.{Digests}
use go_trust_net.Db.{Database}
use go_trust_net.Consensus.{
  Error, invalid_arg, not_found, not_mainlist, state_incorrect, panic, Result, ok, err, BlockSpec,
  WorldStates, Block, ChainNode, Key, Value, max_blocks, Engine,
}
use go_trust_net.Consensus.Blocks.{clone}
use go_trust_net.Consensus.Store.{
  get_block, get_chain_node, find_main_list_child, transaction_status,
}

module _ (H : Digests) (D : Database (Key H.Byte64) (Value H.Byte64))
    (W : WorldStates H.Byte64) where
  open H use {Byte64, dec}
  open D use {State}
  open W use {World, Tables}

  -- `TransactionStatus`.
  unfoldable pub status : Engine H D W → Byte64 → Result (Block Byte64 World)
  status e id = elim (transaction_status H D W e.db id) [ err x ↦ err x | ok (b, _) ↦ ok b ]

  -- `Block`: the world state is made to check that it can be.
  unfoldable pub block_of : Engine H D W → Byte64 → Engine H D W × Result (Block Byte64 World)
  block_of e h = elim (get_block H D W e.db h) [
    | none ↦ (e, err not_found)
    | some b ↦
        let (t₁, made) = W.new_world e.tables in
        elim made [
          | none ↦ (record e { tables = t₁ }, err panic)
          | some w ↦
              let (t₂, based) = W.rebase t₁ w b.spec.state in
              (record e { tables = t₂ }, elim based [ none ↦ err state_incorrect | some _ ↦ ok b ])
        ]
  ]

  -- `BestBlock`; `none` is nil.
  unfoldable pub best_block : Engine H D W → Engine H D W × Option (Block Byte64 World)
  best_block e =
      let (t₁, made) = W.new_world e.tables in
      elim made [
        | none ↦ (record e { tables = t₁ }, none)
        | some w ↦
            let (t₂, based) = W.rebase t₁ w (W.hash e.state) in
            (
              record e { tables = t₂ },
              elim based [ none ↦ none | some world ↦ some (clone H W e.tip world) ],
            )
      ]

  -- The loop of `Ancestor`; `last` is `lastBlock`, nil before the first round.
  unfoldable pub ancestor_from :
      State
      → ℕ
      → ChainNode Byte64
      → Option (Block Byte64 World)
      → Result (Option (Block Byte64 World))
  ancestor_from s zero n last = ok last
  ancestor_from s (suc max') n last = elim (n.depth == 0) [
    | true ↦ ok last
    | false ↦ elim (get_block H D W s n.parent) [
      | none ↦ err not_found
      | some b ↦ elim (get_chain_node H D W s n.parent) [
        | none ↦ err not_found
        | some p ↦ ancestor_from s max' p (some b)
      ]
    ]
  ]

  -- `Ancestor`, for a maximum that is not negative.
  unfoldable pub ancestor : Engine H D W → Byte64 → ℕ → Result (Option (Block Byte64 World))
  unfolding ancestor_from
  ancestor e child max' =
      ite (dec child e.genesis_node.hash) (err invalid_arg)
        (elim (get_chain_node H D W e.db child) [
          | none ↦ err not_found
          | some n ↦ ancestor_from e.db max' n none
        ])

  -- The uncles of a block; `none` if one is not in the store.
  unfoldable pub get_blocks : State → List Byte64 → Option (List (Block Byte64 World))
  get_blocks s [] = some []
  get_blocks s (h ∷ hs) = elim (get_block H D W s h) [
    | none ↦ none
    | some b ↦ elim (get_blocks s hs) [ none ↦ none | some bs ↦ some (b ∷ bs) ]
  ]

  -- One round of the loop of `Descendents`: the blocks that it adds, or `none` where it breaks.
  unfoldable pub descendents_round :
      State → Byte64 → ℕ → ℕ → Byte64 → Result (Option (List (Block Byte64 World)))
  descendents_round s parent max' count h = elim (get_block H D W s h) [
    | none ↦ err not_found
    | some b ↦
        if leb max' (count + length b.spec.uncles)
        then ok none
        else elim (get_blocks s b.spec.uncles) [
          | none ↦ err not_found
          | some us ↦ ok (some (us ++ ite (dec h parent) [] (b ∷ [])))
        ]
  ]

  -- The loop, on fuel: the blocks, and the error if there is one. `out` is `descendents`, and its
  -- length is `count`.
  unfoldable pub descendents_from :
      State
      → Byte64
      → ℕ
      → ℕ
      → Option (ChainNode Byte64)
      → List (Block Byte64 World)
      → Option (List (Block Byte64 World) × Option Error)
  descendents_from s parent max' zero n out = none
  descendents_from s parent max' (suc fuel) none out = some (out, none)
  descendents_from s parent max' (suc fuel) (some n) out = elim (ltb (length out) max') [
    | false ↦ some (out, none)
    | true ↦ elim (descendents_round s parent max' (length out) n.hash) [
      | err x ↦ some (out, some x)
      | ok none ↦ some (out, none)
      | ok (some bs) ↦
          descendents_from s parent max' fuel (find_main_list_child H D W s n.children none)
            (out ++ bs)
    ]
  ]

  -- `Descendents`. The maximum is an int, given by its 64 bits: of a negative one no slice can be
  -- made, which panics.
  unfoldable pub descendents :
      ℕ → Engine H D W → Byte64 → ℕ → Option (List (Block Byte64 World) × Option Error)
  descendents fuel e parent max' =
      if leb (2 ^ 63) max' then some ([], some panic) else elim (get_chain_node H D W e.db parent) [
        | none ↦ some ([], some not_found)
        | some n ↦
            if n.is_main_list
            then descendents_from e.db parent (min max' max_blocks) fuel (some n) []
            else some ([], some not_mainlist)
      ]
