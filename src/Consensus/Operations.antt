-- ===== src/Consensus/Operations.antt =====
-- consensus/blockChainConsensus.go: the constructor and the operations that change the engine.
pub mod Candidate
pub mod Grown
use go_trust_net.Prelude.{
  ℕ, zero, suc, ◌+◌, ◌-◌, ◌%◌, ◌^◌, Bool, true, false, if◌then◌else◌, List, [], ◌∷◌, ◌++◌, Option,
  none, some, ite, replicate,
}
use go_trust_net.Core.Digest.{Digests}
use go_trust_net.Db.{Database}
use go_trust_net.Consensus.{
  Error, initialization_failed, db_error, block_validation, block_unhashed, state_incorrect, panic,
  Result, ok, err, Transaction, BlockSpec, WorldStates, Block, ChainNode, Uncle, Key, dag_tip,
  chain_node_key, Value, chain_node, tip_hash, max_uncle_distance, Engine,
}
use go_trust_net.Consensus.Blocks.{
  new_block, add_uncle, compute_hash, clone, new_chain_node, set_main_list, de_serialize_block,
}
use go_trust_net.Consensus.Store.{get_block, find_uncles, put_block}
use go_trust_net.Consensus.Validate.{validate_block}
use go_trust_net.Consensus.Insert.{add_validated_block}

module _ (H : Digests) (D : Database (Key H.Byte64) (Value H.Byte64))
    (W : WorldStates H.Byte64) where
  open H use {Byte64, dec, null}
  open D use {State, get, put}
  open W use {World, Tables}

  -- The genesis block, with its hash (no proof of work is asked of it); its miner is 64 zero bytes.
  unfoldable pub genesis_block : Tables → World → ℕ → ℕ → Tables × (Block Byte64 World × Bool)
  genesis_block t w now genesis_time =
      compute_hash H W (λ _ _ _. true) 1 t
        (new_block H W now null 0 0 genesis_time 0 (replicate 64 0) w)

  -- The end of the constructor, where the store has no tip yet.
  unfoldable pub init_store :
      State → Tables → World → List ℕ → Block Byte64 World → Byte64 → Result (Engine H D W)
  init_store s t w miner_id g h =
      let node = set_main_list (new_chain_node H W g h) true in
      elim (put s dag_tip (tip_hash h)) [
        | none ↦ err db_error
        | some s₁ ↦ elim (put_block H D W s₁ g h) [
          | none ↦ err initialization_failed
          | some s₂ ↦ elim (put s₂ (chain_node_key h) (chain_node node)) [
            | none ↦ err initialization_failed
            | some s₃ ↦ ok (record {
              state = w;
              tip = g;
              weight = g.spec.wt;
              genesis_node = node;
              miner_id = miner_id;
              db = s₃;
              tables = t;
            })
          ]
        ]
      ]

  -- The end of the constructor, where the store has a tip.
  unfoldable pub restore :
      State → Tables → World → List ℕ → Block Byte64 World → Byte64 → Byte64 → Result (Engine H D W)
  restore s t w miner_id g h tip = elim (get_block H D W s tip) [
    | none ↦ err initialization_failed
    | some b ↦
        let (t', w') = W.rebase t w b.spec.state in
        elim w' [
          | none ↦ err initialization_failed
          | some world ↦ ok (record {
            state = world;
            tip = b;
            weight = b.spec.wt;
            genesis_node = set_main_list (new_chain_node H W g h) true;
            miner_id = miner_id;
            db = s;
            tables = t';
          })
        ]
  ]

  -- `NewBlockChainConsensus`, at the time `now`. Without a new world state
  -- the source goes on with nil, and fails at a later step.
  unfoldable pub new_block_chain_consensus : ℕ → ℕ → List ℕ → State → Tables → Result (Engine H D W)
  unfolding genesis_block init_store restore
  new_block_chain_consensus now genesis_time miner_id s t₀ =
      let (t₁, made) = W.new_world t₀ in
      elim made [
        | none ↦ err initialization_failed
        | some w ↦
            let (t, hashed) = genesis_block t₁ w now genesis_time in
            let g = hashed.0 in
            elim g.hash [
              | none ↦ err panic
              | some h ↦ elim (get s dag_tip) [
                | some (tip_hash tip) ↦ restore s t w miner_id g h tip
                | _ ↦ init_store s t w miner_id g h
              ]
            ]
      ]

  unfoldable pub add_uncles : Block Byte64 World → List (Uncle Byte64) → Block Byte64 World
  unfolding add_uncle
  add_uncles b [] = b
  add_uncles b (u ∷ us) = add_uncles (add_uncle H W b u) us

  -- `NewCandidateBlock`, at the time `ts`; `none` is nil, and stands for the nil dereferences of a world
  -- state that cannot be made and of a tip without a hash.
  unfoldable pub new_candidate_block : ℕ → Engine H D W → Engine H D W × Option (Block Byte64 World)
  new_candidate_block ts e =
      let (t₁, made) = W.new_world e.tables in
      elim made [
        | none ↦ (record e { tables = t₁ }, none)
        | some w ↦
            let (t₂, based) = W.rebase t₁ w (W.hash e.state) in
            let e' = record e { tables = t₂ } in
            elim based [
              | none ↦ (e', none)
              | some world ↦ elim e.tip.hash [
                | none ↦ (e', none)
                | some h ↦
                    let b =
                      new_block H W ts h ((e.tip.spec.wt + 1) % 2 ^ 64)
                        ((e.tip.spec.depth + 1) % 2 ^ 64) ts
                        ((ts + 2 ^ 64 - e.tip.spec.ts) % 2 ^ 64) e.miner_id world in
                    (
                      e',
                      some (
                          add_uncles b (
                            find_uncles H D W e.db e.tip.spec.phash h max_uncle_distance
                              e.tip.spec.depth)),
                    )
              ]
            ]
      ]

  -- `mineCandidateBlock`: the engine, the block as it stands, and what the callback is given.
  unfoldable pub mine_candidate_block :
      ℕ
      → (Byte64 → ℕ → ℕ → Bool)
      → ℕ
      → Engine H D W
      → Block Byte64 World
      → Engine H D W × Result (Block Byte64 World)
  mine_candidate_block fuel pow rounds e child = elim (validate_block H D W e.db child) [
    | err x ↦ (e, err x)
    | ok (child₁, parent) ↦
        let (t, (child₂, hashed)) = compute_hash H W pow rounds e.tables child₁ in
        let e₁ = record e { tables = t } in
        if hashed
        then (let (e₂, r) = add_validated_block H D W fuel e₁ child₂ parent in
            elim r [ err x ↦ (e₂, err x) | ok _ ↦ (e₂, ok child₂) ])
        else (e₁, err block_unhashed)
  ]

  -- `CheckNetworkBlockPoW`.
  unfoldable pub check_network_block_pow :
      (Byte64 → ℕ → ℕ → Bool)
      → ℕ
      → Engine H D W
      → Block Byte64 World
      → Engine H D W × Result (Block Byte64 World)
  check_network_block_pow pow rounds e b =
      if b.is_network_block
      then (let (t, (b', hashed)) = compute_hash H W pow rounds e.tables b in
          (record e { tables = t }, if hashed then ok b' else err block_unhashed))
      else (e, err block_validation)

  -- `processNetworkBlock`: the block, based on its parent's world state.
  unfoldable pub process_network_block :
      Engine H D W → Block Byte64 World → Engine H D W × Result (Block Byte64 World)
  process_network_block e b₀ =
      elim (validate_block H D W e.db (record b₀ { is_network_block = true })) [
        | err x ↦ (e, err x)
        | ok (b, parent) ↦
            let (t₁, made) = W.new_world e.tables in
            elim made [
              | none ↦ (record e { tables = t₁ }, err panic)
              | some w ↦
                  let (t₂, based) = W.rebase t₁ w parent.spec.state in
                  (
                    record e { tables = t₂ },
                    elim based [
                      | none ↦ err state_incorrect
                      | some world ↦ ok (record b { world_state = some world })
                    ],
                  )
            ]
      ]

  -- `DecodeNetworkBlockSpec`: its new block differs from a deserialized one in the network flag
  -- alone, which `processNetworkBlock` sets.
  unfoldable pub decode_network_block_spec :
      Engine H D W → BlockSpec Byte64 → Engine H D W × Result (Block Byte64 World)
  unfolding process_network_block de_serialize_block
  decode_network_block_spec e spec =
      process_network_block e (record (de_serialize_block H W spec) { is_network_block = false })

  -- `AcceptNetworkBlock`: the engine, the block as it stands, and the error; the hash that
  -- `computeHash` returns is dropped. `pow` is the approver that the block carries. Where
  -- `validateBlock` fails, the block is the one that came in: the miners of uncles that the source may
  -- have appended to it by then are left out.
  unfoldable pub accept_network_block :
      ℕ
      → (Byte64 → ℕ → ℕ → Bool)
      → ℕ
      → Engine H D W
      → Block Byte64 World
      → Engine H D W × Block Byte64 World × Result (Unit {0})
  accept_network_block fuel pow rounds e b = elim (validate_block H D W e.db b) [
    | err x ↦ (e, b, err x)
    | ok (b₁, parent) ↦
        let (t, (b₂, _)) = compute_hash H W pow rounds e.tables b₁ in
        let e₁ = record e { tables = t } in
        elim b₂.world_state [
          | none ↦ (e₁, b₂, err panic)
          | some w ↦
              let (e₂, r) = add_validated_block H D W fuel e₁ b₂ parent in
              ite (dec (W.hash w) b₂.spec.state) (e₂, b₂, r) (e₁, b₂, err state_incorrect)
        ]
  ]
