-- ===== src/Network/Trustee.antt =====
-- network/trustee.go and network/trusteeTransactions.go: the rewards for mining, kept as balances in
-- the world state of a block. A Go string is the list of its bytes; a Go map of parameters is the
-- list of its entries, in the order in which it is ranged over.
pub mod Rewards
pub mod Accepted
pub mod Verified
use go_trust_net.Prelude.{
  ℕ, zero, suc, ◌+◌, ◌-◌, ◌*◌, ◌/◌, ◌%◌, ◌^◌, Bool, true, false, ◌&&◌, ◌==◌, ltb, leb,
  if◌then◌else◌, List, [], ◌∷◌, ◌++◌, length, Option, none, some, ite, ◌≡◌,
}
use go_trust_net.Core.Digest.{Digests}
use go_trust_net.Core.Types.{uint64_to_byte8, bytes_to_byte8, uint64}
use go_trust_net.Consensus.{Transaction, WorldStates, Block, Error, panic, Result, ok, err}
use go_trust_net.Consensus.Blocks.{bytes_dec, update, lookup, add_transaction}

pub record Op : Type 0 where
  pub op_code : List ℕ
  pub params : List (List ℕ × List ℕ)

-- "REWARD", "MINER", "UNCLE", "AWARD", "1000000" and "200000".
abbrev pub op_reward : List ℕ
op_reward = 82 ∷ 69 ∷ 87 ∷ 65 ∷ 82 ∷ 68 ∷ []

abbrev pub param_miner : List ℕ
param_miner = 77 ∷ 73 ∷ 78 ∷ 69 ∷ 82 ∷ []

abbrev pub param_uncle : List ℕ
param_uncle = 85 ∷ 78 ∷ 67 ∷ 76 ∷ 69 ∷ []

abbrev pub param_award : List ℕ
param_award = 65 ∷ 87 ∷ 65 ∷ 82 ∷ 68 ∷ []

abbrev pub miner_award : List ℕ
miner_award = 49 ∷ 48 ∷ 48 ∷ 48 ∷ 48 ∷ 48 ∷ 48 ∷ []

abbrev pub uncle_award : List ℕ
uncle_award = 50 ∷ 48 ∷ 48 ∷ 48 ∷ 48 ∷ 48 ∷ []

-- `fmt.Sprintf("%x", bytes)`.
unfoldable pub hex_digit : ℕ → ℕ
hex_digit d = if ltb d 10 then 48 + d else 87 + d

unfoldable pub bytes_to_hex_string : List ℕ → List ℕ
unfolding hex_digit
bytes_to_hex_string [] = []
bytes_to_hex_string (b ∷ bytes) =
    hex_digit (b / 16) ∷ hex_digit (b % 16) ∷ bytes_to_hex_string bytes

-- `strconv.ParseUint(value, 10, 64)`; `none` is an error.
unfoldable pub parse_digits : ℕ → List ℕ → Option ℕ
parse_digits acc [] = some acc
parse_digits acc (c ∷ cs) =
    let next = acc * 10 + (c - 48) in
    let rest = parse_digits next cs in
    if leb 48 c && (leb c 57 && ltb next (2 ^ 64)) then rest else none

unfoldable pub parse_uint : List ℕ → Option ℕ
unfolding parse_digits
parse_uint [] = none
parse_uint (c ∷ cs) = parse_digits 0 (c ∷ cs)

-- `RTU`: a uint64, kept as eight bytes.
unfoldable pub rtu_bytes : ℕ → List ℕ
unfolding uint64_to_byte8
rtu_bytes rtu = uint64_to_byte8 rtu

unfoldable pub bytes_to_rtu : List ℕ → ℕ
unfolding bytes_to_byte8 uint64
bytes_to_rtu bytes = uint64 (bytes_to_byte8 bytes)

-- What the loops of `process` over the parameters keep: `validOp`, `account` and `amount`.
pub record Reward : Type 0 where
  pub valid_op : Bool
  pub account : List ℕ
  pub amount : ℕ

abbrev pub no_reward : Reward
no_reward = record { valid_op = true; account = []; amount = 0 }

-- One round: `param` names who is rewarded, who has to be `owner`, with the amount `award`.
unfoldable pub read_param : List ℕ → List ℕ → List ℕ → List ℕ × List ℕ → Reward → Reward
read_param param owner award (key, value) r =
    ite (bytes_dec key param)
      (ite (bytes_dec value owner) (record r { account = value }) (record r { valid_op = false }))
      (ite (bytes_dec key param_award)
        (ite (bytes_dec value award)
          (elim (parse_uint value) [
            | none ↦ record r { valid_op = false }
            | some val ↦ record r { amount = val }
          ])
          (record r { valid_op = false }))
        (record r { valid_op = false }))

unfoldable pub read_params : List ℕ → List ℕ → List ℕ → List (List ℕ × List ℕ) → Reward → Reward
unfolding read_param
read_params param owner award [] r = r
read_params param owner award (p ∷ ps) r =
    read_params param owner award ps (read_param param owner award p r)

-- What the trustee uses of encoding/gob and of go-ethereum's crypto.
pub record Codec : Type 0 where
  pub encode : List Op → List ℕ
  pub decode : List ℕ → Option (List Op)
  pub sign : List ℕ → List ℕ
  pub verify : List ℕ → List ℕ → List ℕ → Bool

-- The operations of `NewMiningRewardTx`. The parameters of an operation are a map in the source, which
-- `process` ranges over in any order; here they are a list, in the order in which they are written.
unfoldable pub uncle_ops : List (List ℕ) → List Op
uncle_ops [] = []
uncle_ops (uncle ∷ uncles) =
    record {
      op_code = op_reward;
      params = (param_uncle, bytes_to_hex_string uncle) ∷ (param_award, uncle_award) ∷ [];
    }
    ∷ uncle_ops uncles

unfoldable pub reward_ops : List ℕ → List (List ℕ) → List Op
reward_ops address uncles =
    record {
      op_code = op_reward;
      params = (param_miner, bytes_to_hex_string address) ∷ (param_award, miner_award) ∷ [];
    }
    ∷ uncle_ops uncles

module _ (H : Digests) (W : WorldStates H.Byte64) where
  open H use {Byte64}
  open W use {World, Tables}

  -- What an error of `Lookup` stands for: nothing; a block without a world state is a nil dereference.
  unfoldable pub bytes_of : Result (List ℕ) → Option (List ℕ)
  bytes_of (ok bytes) = some bytes
  bytes_of (err panic) = none
  bytes_of (err _) = some []

  -- `MiningRewardBalance`, of an account's hex string.
  unfoldable pub mining_reward_balance : Tables → Block Byte64 World → List ℕ → Result ℕ
  mining_reward_balance t b account = elim (bytes_of (lookup H W t b account).1) [
    | none ↦ err panic
    | some bytes ↦ ok (bytes_to_rtu bytes)
  ]

  -- `Credit`.
  unfoldable pub credit : Tables → Block Byte64 World → List ℕ → ℕ → Result (Block Byte64 World)
  credit t b account delta =
      let (b', r) = lookup H W t b account in
      elim (bytes_of r) [
        | none ↦ err panic
        | some bytes ↦
            ok (update H W b' account (rtu_bytes ((bytes_to_rtu bytes + delta) % 2 ^ 64)))
      ]

  -- `Debit`: the block, and whether the balance was high enough.
  unfoldable pub debit :
      Tables → Block Byte64 World → List ℕ → ℕ → Result (Block Byte64 World × Bool)
  debit t b account delta =
      let (b', r) = lookup H W t b account in
      elim (bytes_of r) [
        | none ↦ err panic
        | some bytes ↦
            if ltb (bytes_to_rtu bytes) delta
            then ok (b', false)
            else ok (update H W b' account (rtu_bytes (bytes_to_rtu bytes - delta)), true)
      ]

  -- The credit after a loop over parameters: the block, and whether the reward was valid.
  unfoldable pub credit_reward :
      Tables → Block Byte64 World → Reward → Result (Block Byte64 World × Bool)
  credit_reward t b r =
      if r.valid_op && (ltb 0 (length r.account) && ltb 0 r.amount)
      then elim (credit t b r.account r.amount) [ err x ↦ err x | ok b' ↦ ok (b', true) ]
      else ok (b, false)

  -- The loop over the uncles, whose number is that of the operations.
  unfoldable pub process_uncles :
      Tables → Block Byte64 World → List (List ℕ) → List Op → Result (Block Byte64 World × Bool)
  process_uncles t b [] ops = ok (b, true)
  process_uncles t b (uncle ∷ uncles) [] = err panic
  process_uncles t b (uncle ∷ uncles) (op ∷ ops) =
      elim (credit_reward t b
        (read_params param_uncle (bytes_to_hex_string uncle) uncle_award op.params no_reward)) [
          | err x ↦ err x
          | ok (b', false) ↦ ok (b', false)
          | ok (b', true) ↦ process_uncles t b' uncles ops
        ]

  -- `process` of a decoded payload: the block, and the result.
  unfoldable pub process_ops :
      Tables → Block Byte64 World → List ℕ → List Op → Result (Block Byte64 World × Bool)
  process_ops t b submitter [] = ok (b, false)
  process_ops t b submitter (op ∷ ops) =
      if length ops == length b.uncle_miners
      then elim (credit_reward t b (
          read_params param_miner (bytes_to_hex_string submitter) miner_award op.params
            no_reward)) [
              | err x ↦ err x
              | ok (b', false) ↦ ok (b', false)
              | ok (b', true) ↦ process_uncles t b' b.uncle_miners ops
            ]
      else ok (b, false)

  module _ (K : Codec) where
    unfoldable pub process :
        Tables → Block Byte64 World → Transaction → Result (Block Byte64 World × Bool)
    process t b tx = elim (K.decode tx.payload) [
      | none ↦ ok (b, false)
      | some ops ↦ process_ops t b tx.submitter ops
    ]

    -- `VerifyMiningRewardTx`: a block without transactions is an index out of range.
    unfoldable pub verify_mining_reward_tx :
        Tables → Block Byte64 World → Result (Block Byte64 World × Bool)
    verify_mining_reward_tx t b = elim b.spec.txs [
      | [] ↦ err panic
      | tx ∷ _ ↦
          if K.verify tx.payload tx.signature tx.submitter
          then ite (bytes_dec tx.submitter b.spec.miner) (process t b tx) (ok (b, false))
          else ok (b, false)
    ]

    -- `NewMiningRewardTx` of the node with the given address, at the time `now`: what it has done to
    -- the block, and the transaction. The errors of `AddTransaction` and of `process` are dropped;
    -- `known` is the world state's `HasTransaction`.
    unfoldable pub new_mining_reward_tx :
        (Byte64 → Option Byte64)
        → List ℕ
        → ℕ
        → Tables
        → Block Byte64 World
        → Result (Block Byte64 World × Option Transaction)
    new_mining_reward_tx known address now t b =
        let payload = K.encode (reward_ops address b.uncle_miners) in
        let tx : Transaction = record {
          payload = payload;
          signature = K.sign payload;
          submitter = address;
          timestamp = now;
        } in
        let added : Result (Block Byte64 World) = elim (add_transaction H W known b tx) [
          | ok b' ↦ ok b'
          | err panic ↦ err panic
          | err _ ↦ ok b
        ] in
        if ltb 0 (length (K.sign payload))
        then elim added [
          | err x ↦ err x
          | ok b₁ ↦ elim (process t b₁ tx) [ err x ↦ err x | ok (b₂, _) ↦ ok (b₂, some tx) ]
        ]
        else ok (b, none)
