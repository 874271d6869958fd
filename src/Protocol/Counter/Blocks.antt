-- ===== src/Protocol/Counter/Blocks.antt =====
-- protocol/counter/manager.go: the counters of a block, the blocks that this node mines, and those of the
-- network.
use go_trust_net.Prelude.{
  ℕ, zero, suc, ◌+◌, ◌-◌, ◌%◌, ◌^◌, ◌==◌, Bool, true, false, List, [], ◌∷◌, Option, none, some,
  if◌then◌else◌, ℕ_discrete,
}
use go_trust_net.Core.Digest.{Digests}
use go_trust_net.Core.Types.{uint64_to_byte8}
use go_trust_net.Db.{Database}
use go_trust_net.Db.PeerSet.{peer_nodes_with_msg_not_seen}
use go_trust_net.Consensus.{
  Transaction, WorldStates, Block, Key, Value, Result, ok, err, panic, invalid_tx,
}
use go_trust_net.Consensus.Blocks.{update, lookup, wire_spec, add_transaction}
use go_trust_net.Consensus.Store.{has_transaction}
use go_trust_net.Consensus.Operations.{
  new_candidate_block, mine_candidate_block, accept_network_block,
}
use go_trust_net.Consensus.Reads.{best_block}
use go_trust_net.CountrApp.{number_of}
use go_trust_net.Protocol
use go_trust_net.Protocol.{NodeId, ManagerBase, set_node, add_tx, has_tx}
use go_trust_net.Protocol.Counter.{
  Message, new_block, CountrManager, Surroundings, op_increment, op_decrement, countr_name,
  make_transaction_payload, get_transaction_from_payload,
}

module _ (H : Digests) (D : Database (Key H.Byte64) (Value H.Byte64))
    (W : WorldStates H.Byte64) where
  open H use {Byte64}
  open W use {World, Tables}

  -- `countr`, whose callers drop the error: its number is 0 then. A block without a world state is a nil
  -- dereference.
  unfoldable pub countr : Tables → Block Byte64 World → List ℕ → Block Byte64 World × Option ℕ
  countr t b name = let (b', r) = lookup H W t b name in (b', number_of H W r)

  -- `Countr`, of the best block; `none` is a nil dereference.
  unfoldable pub countr_of : CountrManager H D W → List ℕ → CountrManager H D W × Option ℕ
  unfolding countr
  countr_of mgr name =
      let (e, best) = best_block H D W mgr.engine in
      (record mgr { engine = e }, elim best [ none ↦ none | some b ↦ (countr e.tables b name).1 ])

  -- The counter of a name as the opcode says, and whether the opcode is known: the switch of `delta` and
  -- that of `processBlock`.
  unfoldable pub apply_op :
      Tables → Block Byte64 World → List ℕ → ℕ → Result (Block Byte64 World × Bool)
  unfolding countr
  apply_op t b name op_code =
      let (b', current) = countr t b name in
      elim current [
        | none ↦ err panic
        | some n ↦
            if op_code == op_increment
            then ok (update H W b' name (uint64_to_byte8 ((n + 1) % 2 ^ 64)), true)
            else if op_code == op_decrement
            then ok (update H W b' name (uint64_to_byte8 ((n + (2 ^ 64 - 1)) % 2 ^ 64)), true)
            else ok (b', false)
      ]

  -- The loop of `processBlock` over the transactions.
  unfoldable pub process_txs :
      Tables → Block Byte64 World → List Transaction → Block Byte64 World × Result (Unit {0})
  unfolding apply_op
  process_txs t b [] = (b, ok tt)
  process_txs t b (tx ∷ txs) = elim (get_transaction_from_payload tx.payload) [
    | none ↦ (b, err invalid_tx)
    | some (name, op_code) ↦ elim (apply_op t b name op_code) [
      | err x ↦ (b, err x)
      | ok (b', false) ↦ (b', err invalid_tx)
      | ok (b', true) ↦ process_txs t b' txs
    ]
  ]

  module _ (S : Surroundings) where
    -- A pointer to the hash of a block is added to what a node knows.
    unfoldable pub mark_seen : CountrManager H D W → NodeId → ℕ → CountrManager H D W
    mark_seen mgr id r = record mgr {
      base = set_node mgr.base id (add_tx ℕ_discrete (mgr.base.heap id) (S.picks id) r);
    }

    unfoldable pub send : CountrManager H D W → NodeId → Message Byte64 → CountrManager H D W × Bool
    send mgr id m =
        let (base, delivered) = Protocol.send S.sends mgr.base id m in
        (record mgr { base = base }, delivered)

    -- The loop of `broadCast`, with its count.
    unfoldable pub relay :
        CountrManager H D W → List NodeId → ℕ → Message Byte64 → CountrManager H D W × ℕ
    unfolding mark_seen send
    relay mgr [] r m = (mgr, 0)
    relay mgr (id ∷ ids) r m =
        let (mgr', n) = relay (send (mark_seen mgr id r) id m).0 ids r m in (mgr', n + 1)

    unfoldable pub broad_cast :
        CountrManager H D W → Block Byte64 World → ℕ → CountrManager H D W × ℕ
    unfolding relay
    broad_cast mgr b r =
        relay mgr
          (peer_nodes_with_msg_not_seen mgr.base.db (λ id. has_tx ℕ_discrete (mgr.base.heap id) r))
          r (new_block (wire_spec H W b))

    -- The loop of `delta`, at the time `now`: the error of `AddTransaction` is dropped.
    unfoldable pub fill :
        CountrManager H D W
        → Tables
        → Block Byte64 World
        → List ℕ
        → ℕ
        → ℕ
        → ℕ
        → Result (Block Byte64 World)
    unfolding apply_op make_transaction_payload
    fill mgr t b name op_code now zero = ok b
    fill mgr t b name op_code now (suc n) = elim (apply_op t b name op_code) [
      | err x ↦ err x
      | ok (b₁, _) ↦
          elim (add_transaction H W (has_transaction H D W mgr.engine.db) b₁
            (S.new_transaction (make_transaction_payload name op_code) mgr.miner now)) [
              | ok b₂ ↦ fill mgr t b₂ name op_code now n
              | err panic ↦ err panic
              | err _ ↦ fill mgr t b₁ name op_code now n
            ]
    ]

    -- `delta`, at the time `now`, and its result; `none` is a nil dereference. The result is awaited, so
    -- the call and the mining are one.
    unfoldable pub delta :
        CountrManager H D W → List ℕ → ℕ → ℕ → ℕ → CountrManager H D W × Option Bool
    unfolding fill broad_cast
    delta mgr name op_code n now =
        let (e₁, candidate) = new_candidate_block H D W now mgr.engine in
        let mgr₁ = record mgr { engine = e₁ } in
        elim candidate [
          | none ↦ (mgr₁, none)
          | some b ↦ elim (fill mgr₁ e₁.tables b name op_code now n) [
            | err x ↦ (mgr₁, none)
            | ok b₁ ↦
                let (e₂, mined) =
                  mine_candidate_block H D W S.fuel (λ h ts d. true) S.rounds e₁ b₁ in
                let mgr₂ = record mgr₁ { engine = e₂ } in
                elim mined [
                  | err panic ↦ (mgr₂, none)
                  | err _ ↦ (mgr₂, some false)
                  | ok b₂ ↦
                      let r = mgr₂.refs in
                      ((broad_cast (record mgr₂ { refs = suc r }) b₂ r).0, some true)
                ]
          ]
        ]

    -- The loops of `Increment` and `Decrement`, which differ in the opcode, with the times of the rounds.
    unfoldable pub change_by :
        CountrManager H D W → List ℕ → ℕ → (ℕ → ℕ) → ℕ → CountrManager H D W × Option ℕ
    unfolding delta countr_of
    change_by mgr name op_code now zero = countr_of mgr countr_name
    change_by mgr name op_code now (suc n) =
        let (mgr', mined) = delta mgr name op_code 1 (now n) in
        elim mined [
          | none ↦ (mgr', none)
          | some false ↦ (mgr', some 0)
          | some true ↦ change_by mgr' name op_code now n
        ]

    unfoldable pub increment :
        CountrManager H D W → List ℕ → (ℕ → ℕ) → ℕ → CountrManager H D W × Option ℕ
    unfolding change_by
    increment mgr name now n = change_by mgr name op_increment now n

    unfoldable pub decrement :
        CountrManager H D W → List ℕ → (ℕ → ℕ) → ℕ → CountrManager H D W × Option ℕ
    unfolding change_by
    decrement mgr name now n = change_by mgr name op_decrement now n

    -- `processBlock`, with the hash of the block as it stands in the end. The block was made for this
    -- message: no node is marked with the pointer to its hash yet.
    unfoldable pub process_block :
        CountrManager H D W
        → Block Byte64 World
        → NodeId
        → CountrManager H D W × Option Byte64 × Result (Unit {0})
    unfolding process_txs mark_seen broad_cast
    process_block mgr b from =
        let (b₁, taken) = process_txs mgr.engine.tables b b.spec.txs in
        elim taken [
          | err x ↦ (mgr, b₁.hash, err x)
          | ok _ ↦
              let (e, b₂, accepted) =
                accept_network_block H D W S.fuel (λ h ts d. true) S.rounds mgr.engine b₁ in
              let mgr₁ = record mgr { engine = e } in
              elim accepted [
                | err x ↦ (mgr₁, b₂.hash, err x)
                | ok _ ↦
                    let r = mgr₁.refs in
                    (
                      (broad_cast (mark_seen (record mgr₁ { refs = suc r }) from r) b₂ r).0,
                      b₂.hash,
                      ok tt,
                    )
              ]
        ]
