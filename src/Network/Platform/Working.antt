-- ===== src/Network/Platform/Working.antt =====
-- network/platform.go: what a round of the producer does to the manager, and the bounds of its candidate.
use go_trust_net.Prelude.{
  ℕ, suc, ◌+◌, ◌<◌, ◌==◌, ltb, List, ◌∷◌, length, none, some, ◌≡◌, refl, inl, inr, Option-cases,
  List-cases, Bool-cases, arith,
}
use go_trust_net.Core.Digest.{Digests}
use go_trust_net.Db.{Database}
use go_trust_net.Consensus.{Transaction, WorldStates, Block, Key, Value, Result-cases}
use go_trust_net.Consensus.Operations.{new_candidate_block, mine_candidate_block}
use go_trust_net.Consensus.Store.{has_transaction}
use go_trust_net.Network.Trustee.{new_mining_reward_tx}
use go_trust_net.Network.Platform.{Platform, Manager, max_tx_count}
use go_trust_net.Network.Platform.Producer.{
  Candidate, no_candidate, mine, bury, add_dropping, new_candidate, put_tx, on_tx, on_timer,
}
use go_trust_net.Network.Platform.Handlers.{is_panic}
use go_trust_net.Network.Platform.Quiet.{
  Quiet, Quiet-refl, Quiet-trans, engine-Quiet, refs-Quiet, broadcast-Quiet,
}

-- Fewer transactions than a block is mined for, and none without a block to put them in.
pub record Filling {B W : Type 0} (c : Candidate B W) : Type 0 where
  pub room : c.tx_count < max_tx_count
  pub placed : c.new_block ≡ none → c.tx_count ≡ 0

pub no_candidate-Filling : {B W : Type 0} → Filling {B = B} {W = W} no_candidate
unfolding no_candidate
no_candidate-Filling = record { room = omega arith; placed = λ e. refl }

module _ (H : Digests) (D : Database (Key H.Byte64) (Value H.Byte64)) (W : WorldStates H.Byte64)
    (P : Platform H W) where
  open H use {Byte64}
  open W use {World}

  abbrev State : Type 0
  State = Manager H D W

  dead-Quiet : (mgr : State) (dead : List Byte64) → Quiet H D W mgr (record mgr { dead_txs = dead })
  dead-Quiet mgr dead = record {
    is_running = refl;
    producers = refl;
    waiting = refl;
    tx_q = refl;
    signals = λ i h. h;
    fresh = λ f. f;
  }

  mine-Quiet : (mgr : State) (b : Block Byte64 World) → Quiet H D W mgr (mine H D W P mgr b).0
  unfolding mine
  mine-Quiet mgr b =
      let mined = mine_candidate_block H D W P.fuel P.pow_approver P.rounds mgr.engine b in
      let mgr₁ : State = record mgr { engine = mined.0 } in
      let q = engine-Quiet H D W P mgr mined.0 in
      elim (Result-cases mined.1) [
        | inr (x, e) ↦ elim (Bool-cases (is_panic H D W P x)) [
          | inl a ↦ rw (mine, e, a) q
          | inr a ↦
              rw (mine, e, a)
                (Quiet-trans H D W q (dead-Quiet mgr₁ (bury H D W P mgr₁.dead_txs b.spec.txs)))
        ]
        | inl (b', e) ↦ elim (Option-cases b'.hash) [
          | inl n ↦ rw (mine, e, n) q
          | inr (h, n) ↦
              rw (mine, e, n)
                (Quiet-trans H D W q (
                  Quiet-trans H D W (refs-Quiet H D W P mgr₁) (
                    broadcast-Quiet H D W P (record mgr₁ { refs = suc mgr₁.refs }) b' mgr₁.refs
                      (omega arith))))
        ]
      ]

  new_candidate-Quiet : (now : ℕ) (mgr : State) → Quiet H D W mgr (new_candidate H D W P now mgr).0
  unfolding new_candidate
  new_candidate-Quiet now mgr =
      let r = new_candidate_block H D W now mgr.engine in
      let q = engine-Quiet H D W P mgr r.0 in
      elim (Option-cases r.1) [
        | inl e ↦ rw (new_candidate, e) q
        | inr (b, e) ↦
            elim (Result-cases (
              new_mining_reward_tx H W P.codec (has_transaction H D W r.0.db) P.address now
                r.0.tables b)) [
                  | inr (x, n) ↦ rw (new_candidate, e, n) q
                  | inl ((b', none), n) ↦ rw (new_candidate, e, n) q
                  | inl ((b', some tx), n) ↦ rw (new_candidate, e, n) q
                ]
      ]

  put_tx-Quiet :
      (mgr : State) (b : Block Byte64 World) (count : ℕ) (tx : Transaction)
      → Quiet H D W mgr (put_tx H D W P mgr b count tx).0
  unfolding put_tx
  put_tx-Quiet mgr b count tx =
      let r = P.tx_processor mgr.engine.tables b tx in
      elim (Bool-cases r.1) [
        | inr e ↦ rw (put_tx, e) (dead-Quiet mgr _)
        | inl e ↦ elim (Option-cases (add_dropping H D W P mgr r.0 tx)) [
          | inl n ↦ rw (put_tx, e, n) (Quiet-refl H D W mgr)
          | inr (b', n) ↦ elim (Bool-cases (count + 1 == max_tx_count)) [
            | inl m ↦ rw (put_tx, e, n, m) (mine-Quiet mgr b')
            | inr m ↦ rw (put_tx, e, n, m) (Quiet-refl H D W mgr)
          ]
        ]
      ]

  put_tx-Filling :
      (mgr : State) (b : Block Byte64 World) (count : ℕ) (tx : Transaction)
      → count < max_tx_count
      → Filling (put_tx H D W P mgr b count tx).1
  unfolding put_tx
  put_tx-Filling mgr b count tx h =
      let r = P.tx_processor mgr.engine.tables b tx in
      elim (Bool-cases r.1) [
        | inr e ↦ rw (put_tx, e) (record { room = h; placed = λ x. ground (arith, x) })
        | inl e ↦ elim (Option-cases (add_dropping H D W P mgr r.0 tx)) [
          | inl n ↦ rw (put_tx, e, n) no_candidate-Filling
          | inr (b', n) ↦ elim (Bool-cases (count + 1 == max_tx_count)) [
            | inl m ↦ rw (put_tx, e, n, m) no_candidate-Filling
            | inr m ↦
                rw (put_tx, e, n, m)
                  (record { room = ground (arith, m, h); placed = λ x. ground (arith, x) })
          ]
        ]
      ]

  pub on_timer-Quiet :
      (mgr : State) (c : Candidate Byte64 World) → Quiet H D W mgr (on_timer H D W P mgr c).0
  unfolding on_timer
  on_timer-Quiet mgr c = elim (Option-cases c.new_block) [
    | inl e ↦ rw (on_timer, e) (Quiet-refl H D W mgr)
    | inr (b, e) ↦ elim (Bool-cases (ltb 1 (length b.spec.txs))) [
      | inl m ↦ rw (on_timer, e, m) (mine-Quiet mgr b)
      | inr m ↦ rw (on_timer, e, m) (Quiet-refl H D W mgr)
    ]
  ]

  pub on_timer-no_candidate :
      (mgr : State) (c : Candidate Byte64 World) → (on_timer H D W P mgr c).1 ≡ no_candidate
  unfolding on_timer
  on_timer-no_candidate mgr c = elim (Option-cases c.new_block) [
    | inl e ↦ rw (on_timer, e) refl
    | inr (b, e) ↦ elim (Bool-cases (ltb 1 (length b.spec.txs))) [
      | inl m ↦ rw (on_timer, e, m) refl
      | inr m ↦ rw (on_timer, e, m) refl
    ]
  ]

  -- A round for a transaction is quiet but for the queue, whose first element it takes.
  pub on_tx-Quiet :
      (now : ℕ) (mgr : State) (c : Candidate Byte64 World) (tx : Transaction)
      (txs : List Transaction)
      → mgr.tx_q ≡ tx ∷ txs
      → Quiet H D W (record mgr { tx_q = txs }) (on_tx H D W P now mgr c).0
  unfolding on_tx
  on_tx-Quiet now mgr c tx txs q =
      let mgr₁ : State = record mgr { tx_q = txs } in
      let r = new_candidate H D W P now mgr₁ in
      elim (Option-cases c.new_block) [
        | inr (b, e) ↦ rw (on_tx, q, e) (put_tx-Quiet mgr₁ b c.tx_count tx)
        | inl e ↦ elim (Option-cases r.1) [
          | inl n ↦ rw (on_tx, q, e, n) (new_candidate-Quiet now mgr₁)
          | inr (b, n) ↦
              rw (on_tx, q, e, n)
                (Quiet-trans H D W (new_candidate-Quiet now mgr₁)
                  (put_tx-Quiet r.0 b c.tx_count tx))
        ]
      ]

  pub on_tx-Filling :
      (now : ℕ) (mgr : State) (c : Candidate Byte64 World)
      → Filling c
      → Filling (on_tx H D W P now mgr c).1
  unfolding on_tx
  on_tx-Filling now mgr c f = elim (List-cases mgr.tx_q) [
    | inl q ↦ rw (on_tx, q) f
    | inr (tx, txs, q) ↦
        let mgr₁ : State = record mgr { tx_q = txs } in
        let r = new_candidate H D W P now mgr₁ in
        elim (Option-cases c.new_block) [
          | inr (b, e) ↦ rw (on_tx, q, e) (put_tx-Filling mgr₁ b c.tx_count tx f.room)
          | inl e ↦ elim (Option-cases r.1) [
            | inl n ↦ rw (on_tx, q, e, n) no_candidate-Filling
            | inr (b, n) ↦ rw (on_tx, q, e, n) (put_tx-Filling r.0 b c.tx_count tx f.room)
          ]
        ]
  ]
