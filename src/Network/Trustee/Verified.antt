-- ===== src/Network/Trustee/Verified.antt =====
-- network/trustee.go: the reward transaction of a block from the network.
use go_trust_net.Prelude.{
  ℕ, ◌+◌, ◌%◌, ◌^◌, ◌<◌, true, List, [], ◌∷◌, ◌≡◌, ◌⊎◌, inl, inr, refl, ap, arith, Option-cases,
  Bool-cases, ◌∙◌,
}
use go_trust_net.Core.Digest.{Digests}
use go_trust_net.Consensus.{Transaction, WorldStates, Block, ok}
use go_trust_net.Consensus.Blocks.{bytes_dec}
use go_trust_net.Network.Trustee.{
  Codec, mining_reward_balance, process_ops, process, verify_mining_reward_tx,
}
use go_trust_net.Network.Trustee.Rewards.{rewards, process_ops-rewards}

module _ (H : Digests) (W : WorldStates H.Byte64) (K : Codec) where
  open H use {Byte64}
  open W use {World, Tables}

  txs-cases :
      (txs : List Transaction)
      → (txs ≡ []) ⊎ ((tx : Transaction) × (rest : List Transaction) × (txs ≡ tx ∷ rest))
  txs-cases [] = inl refl
  txs-cases (tx ∷ rest) = inr (tx, rest, refl)

  -- If the reward transaction of a block verifies, then the block's first transaction is by its
  -- miner and has a valid signature, and any account with a balance, a uint64, has gained what it
  -- is due, as a uint64: 1000000 for the miner of the block, and 200000 for each of the block's
  -- uncles that it has mined, by the list of miners of uncles that the block carries. An account
  -- that is due nothing keeps its balance.
  pub verify_mining_reward_tx-rewards :
      (t : Tables) (b b' : Block Byte64 World) (x : List ℕ) (n : ℕ)
      → verify_mining_reward_tx H W K t b ≡ ok (b', true)
      → mining_reward_balance H W t b x ≡ ok n
      → n < 2 ^ 64
      → (tx : Transaction) × (rest : List Transaction) × (b.spec.txs ≡ tx ∷ rest)
        × (tx.submitter ≡ b.spec.miner)
        × (K.verify tx.payload tx.signature tx.submitter ≡ true)
        × (mining_reward_balance H W t b' x
            ≡ ok ((n + rewards b.spec.miner b.uncle_miners x) % 2 ^ 64))
  unfolding verify_mining_reward_tx process
  verify_mining_reward_tx-rewards t b b' x n h is l = elim (txs-cases b.spec.txs) [
    | inl e ↦ absurd (ground arith)
    | inr (tx, rest, e) ↦ elim (Bool-cases (K.verify tx.payload tx.signature tx.submitter)) [
      | inr f ↦ absurd (ground arith)
      | inl f ↦ elim (bytes_dec tx.submitter b.spec.miner) [
        | no ne ↦ absurd (ground arith)
        | yes mine ↦ elim (Option-cases (K.decode tx.payload)) [
          | inl d ↦ absurd (ground arith)
          | inr (ops, d) ↦
              let paid : process_ops H W t b tx.submitter ops ≡ ok (b', true) = ground arith in
              (
                tx,
                rest,
                e,
                mine,
                f,
                process_ops-rewards H W t b b' tx.submitter ops x n paid is l
                    ∙ ap (λ m. ok ((n + rewards m b.uncle_miners x) % 2 ^ 64)) mine,
              )
        ]
      ]
    ]
  ]
