-- ===== src/Network/Platform/Producer.antt =====
-- network/platform.go: `blockProducer`, the goroutine that puts transactions into candidate blocks and
-- has these mined. Its loop waits for an event: the shutdown, which Network/Platform/Lifecycle has, a
-- transaction, or the timer.
use go_trust_net.Prelude.{
  ℕ, suc, ◌+◌, ◌==◌, ltb, List, [], ◌∷◌, length, Option, none, some, if◌then◌else◌,
}
use go_trust_net.Core.Digest.{Digests}
use go_trust_net.Db.{Database}
use go_trust_net.Common.Set.{add_one}
use go_trust_net.Consensus.{Transaction, WorldStates, Block, Key, Value, Result, ok, err}
use go_trust_net.Consensus
use go_trust_net.Consensus.Blocks.{tx_id, add_transaction}
use go_trust_net.Consensus.Operations.{new_candidate_block, mine_candidate_block}
use go_trust_net.Consensus.Store.{has_transaction}
use go_trust_net.Network.Trustee.{new_mining_reward_tx}
use go_trust_net.Network.Platform.{Outcome, done, panicked, Platform, Manager, max_tx_count}
use go_trust_net.Network.Platform.Peers.{broadcast}
use go_trust_net.Network.Platform.Handlers.{is_panic}

-- The variables of the loop; `new_block` is nil between two blocks.
pub record Candidate (B W : Type 0) : Type 0 where
  pub new_block : Option (Block B W)
  pub tx_count : ℕ

unfoldable pub no_candidate : {B W : Type 0} → Candidate B W
no_candidate = record { new_block = none; tx_count = 0 }

module _ (H : Digests) (D : Database (Key H.Byte64) (Value H.Byte64)) (W : WorldStates H.Byte64)
    (P : Platform H W) where
  open H use {Byte64, dec}
  open W use {World}

  -- `deadTxs[id] = true`, of all transactions of a list.
  unfoldable pub bury : List Byte64 → List Transaction → List Byte64
  bury dead [] = dead
  bury dead (tx ∷ txs) = bury (add_one dec dead (tx_id H W tx)) txs

  -- `mineCandidateBlock`, and what follows it where the mining fails.
  unfoldable pub mine : Manager H D W → Block Byte64 World → Manager H D W × Outcome
  unfolding bury broadcast
  mine mgr b =
      let (e, mined) = mine_candidate_block H D W P.fuel P.pow_approver P.rounds mgr.engine b in
      let mgr₁ = record mgr { engine = e } in
      elim mined [
        | err x ↦
            if is_panic H D W P x
            then (mgr₁, panicked)
            else (record mgr₁ { dead_txs = bury mgr₁.dead_txs b.spec.txs }, done)
        | ok b' ↦ elim b'.hash [
          | none ↦ (mgr₁, panicked)
          | some _ ↦
              ((broadcast H D W P (record mgr₁ { refs = suc mgr₁.refs }) b' mgr₁.refs).0, done)
        ]
      ]

  -- `AddTransaction`, its error dropped; `none` is a nil dereference.
  unfoldable pub add_dropping :
      Manager H D W → Block Byte64 World → Transaction → Option (Block Byte64 World)
  add_dropping mgr b tx = elim (add_transaction H W (has_transaction H D W mgr.engine.db) b tx) [
    | ok b' ↦ some b'
    | err Consensus.panic ↦ none
    | err _ ↦ some b
  ]

  -- A candidate block with its reward transaction, which the trustee has added already.
  unfoldable pub new_candidate : ℕ → Manager H D W → Manager H D W × Option (Block Byte64 World)
  unfolding add_dropping
  new_candidate now mgr =
      let (e, candidate) = new_candidate_block H D W now mgr.engine in
      let mgr₁ = record mgr { engine = e } in
      elim candidate [
        | none ↦ (mgr₁, none)
        | some b ↦
            elim (new_mining_reward_tx H W P.codec (has_transaction H D W e.db) P.address now
              e.tables b) [
                | err _ ↦ (mgr₁, none)
                | ok (_, none) ↦ (mgr₁, none)
                | ok (b', some tx) ↦ (mgr₁, add_dropping mgr₁ b' tx)
              ]
      ]

  -- The case of a transaction, once there is a candidate block.
  unfoldable pub put_tx :
      Manager H D W
      → Block Byte64 World
      → ℕ
      → Transaction
      → Manager H D W × Candidate Byte64 World × Outcome
  unfolding mine add_dropping no_candidate
  put_tx mgr b count tx =
      let (b₁, taken) = P.tx_processor mgr.engine.tables b tx in
      if taken
      then elim (add_dropping mgr b₁ tx) [
        | none ↦ (mgr, no_candidate, panicked)
        | some b₂ ↦
            if count + 1 == max_tx_count
            then (let (mgr', o) = mine mgr b₂ in (mgr', no_candidate, o))
            else (mgr, record { new_block = some b₂; tx_count = count + 1 }, done)
      ]
      else (
        record mgr { dead_txs = add_one dec mgr.dead_txs (tx_id H W tx) },
        record { new_block = some b₁; tx_count = count },
        done,
      )

  -- The case of a transaction, which is taken from the queue.
  unfoldable pub on_tx :
      ℕ → Manager H D W → Candidate Byte64 World → Manager H D W × Candidate Byte64 World × Outcome
  unfolding put_tx new_candidate no_candidate
  on_tx now mgr c = elim mgr.tx_q [
    | [] ↦ (mgr, c, done)
    | tx ∷ txs ↦
        let mgr₁ = record mgr { tx_q = txs } in
        elim c.new_block [
          | some b ↦ put_tx mgr₁ b c.tx_count tx
          | none ↦
              let (mgr₂, made) = new_candidate now mgr₁ in
              elim made [
                | none ↦ (mgr₂, no_candidate, panicked)
                | some b ↦ put_tx mgr₂ b c.tx_count tx
              ]
        ]
  ]

  -- The case of the timer.
  unfoldable pub on_timer :
      Manager H D W → Candidate Byte64 World → Manager H D W × Candidate Byte64 World × Outcome
  unfolding mine no_candidate
  on_timer mgr c = elim c.new_block [
    | none ↦ (mgr, no_candidate, done)
    | some b ↦
        if ltb 1 (length b.spec.txs)
        then (let (mgr', o) = mine mgr b in (mgr', no_candidate, o))
        else (mgr, no_candidate, done)
  ]
