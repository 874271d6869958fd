-- ===== src/Tests/Rewards.antt =====
-- network/trustee.go and the variables of consensus/block.go at concrete inputs.
use go_trust_net.Prelude.{
  inr, if_pos, ◌∙◌, ℕ, ◌+◌, ◌-◌, ◌%◌, ◌^◌, leb, if◌then◌else◌, true, List, [], ◌∷◌, none, some, ite,
  ◌≡◌, refl, arith, ℕ_discrete,
}
use go_trust_net.Consensus.{Transaction, Block, ok, err, key_not_found}
use go_trust_net.Consensus.Blocks.{bytes_dec, get_variable, update, delete, lookup, lookup_world}
use go_trust_net.Consensus.Blocks.Variables.{lookup-update_delete}
use go_trust_net.Network.Trustee.{
  Codec, verify_mining_reward_tx, process, rtu_bytes, bytes_to_rtu, bytes_of, mining_reward_balance,
  Op, op_reward, param_miner, param_award, miner_award, bytes_to_hex_string, uncle_ops, debit,
  process_ops, reward_ops,
}
use go_trust_net.Network.Trustee.Rewards.{rewards, debit-balance}
use go_trust_net.Network.Trustee.Verified.{verify_mining_reward_tx-rewards}
use go_trust_net.Network.Trustee.Accepted.{Reordered, Reordered-refl, process_ops-reward_ops}
use go_trust_net.Tests.{digests}
use go_trust_net.Tests.Chain.{worlds, block, spec}

-- A block of miner 20, with an uncle of miner 30.
abbrev mined : Block (List ℕ) (List ℕ)
mined = record (block none (spec (2 ∷ []) 20 2 3 ((3 ∷ []) ∷ []))) { uncle_miners = (30 ∷ []) ∷ [] }

-- The operations as they are written, but for the first, whose parameters are swapped.
abbrev shuffled : List Op
shuffled =
    record {
      op_code = op_reward;
      params = (param_award, miner_award) ∷ (param_miner, bytes_to_hex_string (20 ∷ [])) ∷ [];
    }
    ∷ uncle_ops ((30 ∷ []) ∷ [])

shuffled-Reordered : Reordered (reward_ops (20 ∷ []) mined.uncle_miners) shuffled
unfolding reward_ops
shuffled-Reordered = (inr refl, Reordered-refl (uncle_ops ((30 ∷ []) ∷ [])))

process_ops-reward_ops_example :
    (b' : Block (List ℕ) (List ℕ)) × (process_ops digests worlds tt mined (20 ∷ []) shuffled
      ≡ ok (b', true))
process_ops-reward_ops_example =
    process_ops-reward_ops digests worlds tt mined (20 ∷ []) shuffled (9 ∷ []) refl (λ e. cc)
      (λ e. cc, tt) shuffled-Reordered

-- An encoding that knows one payload, and takes every signature.
abbrev pub codec : Codec
codec = record {
  encode = λ ops. 1 ∷ [];
  decode = λ payload. some (reward_ops (20 ∷ []) mined.uncle_miners);
  sign = λ payload. 2 ∷ [];
  verify = λ payload sign submitter. true;
}

abbrev pub reward : Transaction
reward = record { payload = 1 ∷ []; signature = 2 ∷ []; submitter = 20 ∷ []; timestamp = 1000 }

abbrev pub received : Block (List ℕ) (List ℕ)
received = record mined { spec = record (mined.spec) { txs = reward ∷ [] } }

processed_received :
    (b' : Block (List ℕ) (List ℕ)) × (process_ops digests worlds tt received
        (20 ∷ [])
        (reward_ops (20 ∷ []) received.uncle_miners)
      ≡ ok (b', true))
processed_received =
    process_ops-reward_ops digests worlds tt received (20 ∷ [])
      (reward_ops (20 ∷ []) received.uncle_miners) (9 ∷ []) refl (λ e. cc) (λ e. cc, tt)
      (Reordered-refl (reward_ops (20 ∷ []) received.uncle_miners))

abbrev rewarded : Block (List ℕ) (List ℕ)
rewarded = processed_received.0

verified : verify_mining_reward_tx digests worlds codec tt received ≡ ok (rewarded, true)
unfolding verify_mining_reward_tx process
verified = if_pos (bytes_dec (20 ∷ []) (20 ∷ [])) refl _ _ ∙ processed_received.1

no_balance : mining_reward_balance digests worlds tt received (51 ∷ 48 ∷ []) ≡ ok 0
unfolding mining_reward_balance bytes_of lookup lookup_world get_variable bytes_to_rtu
no_balance = refl

verify_mining_reward_tx-rewards_example :
    (tx : Transaction) × (rest : List Transaction) × (received.spec.txs ≡ tx ∷ rest)
    × (tx.submitter ≡ received.spec.miner)
    × (codec.verify tx.payload tx.signature tx.submitter ≡ true)
    × (mining_reward_balance digests worlds tt rewarded (51 ∷ 48 ∷ [])
        ≡ ok ((0 + rewards received.spec.miner received.uncle_miners (51 ∷ 48 ∷ [])) % 2 ^ 64))
verify_mining_reward_tx-rewards_example =
    verify_mining_reward_tx-rewards digests worlds codec tt received rewarded (51 ∷ 48 ∷ []) 0
      verified no_balance (omega arith)

-- A block where the account "30" has a balance of five.
abbrev rich : Block (List ℕ) (List ℕ)
rich = record mined { variables = (51 ∷ 48 ∷ [], some (0 ∷ 0 ∷ 0 ∷ 0 ∷ 0 ∷ 0 ∷ 0 ∷ 5 ∷ [])) ∷ [] }

five : mining_reward_balance digests worlds tt rich (51 ∷ 48 ∷ []) ≡ ok 5
unfolding mining_reward_balance bytes_of lookup get_variable bytes_to_rtu bytes_dec ℕ_discrete
five = refl

abbrev poor : Block (List ℕ) (List ℕ)
poor = update digests worlds rich (51 ∷ 48 ∷ []) (rtu_bytes 3)

paid : debit digests worlds tt rich (51 ∷ 48 ∷ []) 2 ≡ ok (poor, true)
unfolding debit bytes_of lookup get_variable bytes_to_rtu bytes_dec ℕ_discrete
paid = refl

debit-balance_example :
    (true ≡ leb 2 5)
    × (mining_reward_balance digests worlds tt poor (51 ∷ 48 ∷ []) ≡ (
        if true then ite (bytes_dec (51 ∷ 48 ∷ []) (51 ∷ 48 ∷ [])) (ok (5 - 2)) (ok 5) else ok 5))
debit-balance_example =
    debit-balance digests worlds tt rich poor (51 ∷ 48 ∷ []) (51 ∷ 48 ∷ []) 2 5 5 true five
      (omega arith) five paid

lookup-update_delete_example :
    ((lookup digests worlds tt (update digests worlds rich (7 ∷ []) (8 ∷ [])) (51 ∷ 48 ∷ [])).1
      ≡ ite
          (bytes_dec (7 ∷ []) (51 ∷ 48 ∷ []))
          (ok (8 ∷ []))
          (lookup digests worlds tt rich (51 ∷ 48 ∷ [])).1)
    × ((lookup digests worlds tt (delete digests worlds rich (7 ∷ [])) (51 ∷ 48 ∷ [])).1
        ≡ ite
            (bytes_dec (7 ∷ []) (51 ∷ 48 ∷ []))
            (err key_not_found)
            (lookup digests worlds tt rich (51 ∷ 48 ∷ [])).1)
lookup-update_delete_example =
    lookup-update_delete digests worlds tt rich (7 ∷ []) (51 ∷ 48 ∷ []) (8 ∷ [])
