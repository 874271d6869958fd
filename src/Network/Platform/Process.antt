-- ===== src/Network/Platform/Process.antt =====
-- network/platform.go: a block from the network.
use go_trust_net.Prelude.{
  suc, Bool, true, false, List, [], ◌∷◌, Option, none, some, if◌then◌else◌, ltb, length,
}
use go_trust_net.Core.Digest.{Digests}
use go_trust_net.Db.{Database}
use go_trust_net.Db.PeerSet.{have_i_seen_it}
use go_trust_net.Consensus.{
  Transaction, WorldStates, Block, Key, Value, Result, ok, err, greedy_block, invalid_tx,
  block_validation, duplicate_block,
}
use go_trust_net.Consensus
use go_trust_net.Consensus.Operations.{check_network_block_pow, accept_network_block}
use go_trust_net.Network.Trustee.{verify_mining_reward_tx}
use go_trust_net.Network.Platform.{PeerId, Platform, Manager}
use go_trust_net.Network.Platform.Peers.{mark_seen, broadcast}

module _ (H : Digests) (D : Database (Key H.Byte64) (Value H.Byte64)) (W : WorldStates H.Byte64)
    (P : Platform H W) where
  open H use {Byte64, dec}
  open W use {World, Tables}

  -- The loop over the application's transactions: the block, and whether all were taken.
  unfoldable pub process_txs :
      Tables → Block Byte64 World → List Transaction → Block Byte64 World × Bool
  process_txs t b [] = (b, true)
  process_txs t b (tx ∷ txs) =
      let (b', taken) = P.tx_processor t b tx in
      elim taken [ false ↦ (b', false) | true ↦ process_txs t b' txs ]

  -- The end of `processBlock`, once the engine has accepted the block. The block was made for this
  -- message: no peer is marked with the pointer to its hash yet.
  unfoldable pub forward_block :
      Manager H D W → Block Byte64 World → Byte64 → PeerId → Manager H D W × Result (Unit {0})
  unfolding mark_seen broadcast
  forward_block mgr b h from =
      let r = mgr.refs in
      let mgr₁ = mark_seen H D W P (record mgr { refs = suc r }) from r in
      let (db, seen) = have_i_seen_it dec mgr₁.peer_db h in
      let mgr₂ = record mgr₁ { peer_db = db } in
      if seen then (mgr₂, err duplicate_block) else ((broadcast H D W P mgr₂ b r).0, ok tt)

  -- The part of `processBlock` from the proof of work on. The result has the hash of the block as it
  -- stands in the end.
  unfoldable pub submit_block :
      Manager H D W
      → Block Byte64 World
      → PeerId
      → Manager H D W × Option Byte64 × Result (Unit {0})
  submit_block mgr b from =
      let (e₁, checked) = check_network_block_pow H D W P.pow_approver P.rounds mgr.engine b in
      let mgr₁ = record mgr { engine = e₁ } in
      elim checked [
        | err x ↦ (mgr₁, b.hash, err x)
        | ok b₁ ↦
            let (e₂, b₂, accepted) =
              accept_network_block H D W P.fuel P.pow_approver P.rounds e₁ b₁ in
            let mgr₂ = record mgr₁ { engine = e₂ } in
            elim accepted [
              | err x ↦ (mgr₂, b₂.hash, err x)
              | ok _ ↦ elim b₂.hash [
                | none ↦ (mgr₂, none, err Consensus.panic)
                | some h ↦ let (mgr₃, r) = forward_block mgr₂ b₂ h from in (mgr₃, some h, r)
              ]
            ]
      ]

  -- The part of `processBlock` from the application on: the first transaction is the reward.
  unfoldable pub apply_block :
      Manager H D W
      → Block Byte64 World
      → List Transaction
      → PeerId
      → Manager H D W × Option Byte64 × Result (Unit {0})
  unfolding process_txs submit_block
  apply_block mgr b [] from = (mgr, b.hash, err Consensus.panic)
  apply_block mgr b (_ ∷ txs) from =
      let (b', taken) = process_txs mgr.engine.tables b txs in
      if taken then submit_block mgr b' from else (mgr, b'.hash, err invalid_tx)

  -- `processBlock`, with the hash of the block as it stands in the end.
  unfoldable pub process_block :
      Manager H D W
      → Block Byte64 World
      → PeerId
      → Manager H D W × Option Byte64 × Result (Unit {0})
  unfolding apply_block
  process_block mgr b from =
      if ltb (length b.spec.txs) 2
      then (mgr, b.hash, err greedy_block)
      else elim (verify_mining_reward_tx H W P.codec mgr.engine.tables b) [
        | err x ↦ (mgr, b.hash, err x)
        | ok (b₁, false) ↦ (mgr, b₁.hash, err block_validation)
        | ok (b₁, true) ↦ apply_block mgr b₁ b.spec.txs from
      ]
