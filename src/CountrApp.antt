-- ===== src/CountrApp.antt =====
-- countrApp/app.go: the counter application on the platform. Its transactions, the callbacks that it
-- gives to the platform, and the operations that its command line reads. An int64 or int is given by
-- its 64 bits, a string by its bytes.
pub mod Counters
pub mod Commands
use go_trust_net.Prelude.{
  ℕ, zero, suc, ◌+◌, ◌-◌, ◌%◌, ◌^◌, Bool, true, false, ◌&&◌, ◌==◌, if◌then◌else◌, List, [], ◌∷◌,
  ◌++◌, map, Option, none, some, ite,
}
use go_trust_net.Core.Digest.{Digests}
use go_trust_net.Core.Types.{uint64_to_byte8, bytes_to_byte8, uint64}
use go_trust_net.Consensus.{Transaction, WorldStates, Block, panic, Result, ok, err}
use go_trust_net.Consensus.Blocks.{bytes_dec, update, lookup}
use go_trust_net.Network.Trustee.{credit, debit}

-- `testTx`.
pub record TestTx : Type 0 where
  pub op : List ℕ
  pub source : List ℕ
  pub target : List ℕ
  pub delta : ℕ

-- "incr", "decr" and "xfer".
abbrev pub op_incr : List ℕ
op_incr = 105 ∷ 110 ∷ 99 ∷ 114 ∷ []

abbrev pub op_decr : List ℕ
op_decr = 100 ∷ 101 ∷ 99 ∷ 114 ∷ []

abbrev pub op_xfer : List ℕ
op_xfer = 120 ∷ 102 ∷ 101 ∷ 114 ∷ []

-- What `incrementTx` and `decrementTx` serialize.
unfoldable pub increment_tx : List ℕ → ℕ → TestTx
increment_tx name delta = record { op = op_incr; source = []; target = name; delta = delta }

unfoldable pub decrement_tx : List ℕ → ℕ → TestTx
decrement_tx name delta = record { op = op_decr; source = []; target = name; delta = delta }

-- `op`: a counter that a command names, and the number that follows.
pub record CommandOp : Type 0 where
  pub name : List ℕ
  pub delta : ℕ

-- The loop of `scanOps` over the words that are left, where `atoi` is `strconv.Atoi`: `curr` is
-- `currOp`, and `reading` is `readName`.
unfoldable pub scan_words :
    (List ℕ → Option ℕ) → List (List ℕ) → CommandOp → Bool → List CommandOp → List CommandOp
scan_words atoi [] curr reading ops = if reading then ops ++ curr ∷ [] else ops
scan_words atoi (word ∷ words) curr reading ops =
    let empty : CommandOp = record { name = []; delta = 0 } in
    let named =
      scan_words atoi words (record { name = word; delta = 1 }) true
        (if reading then ops ++ curr ∷ [] else ops) in
    elim (atoi word) [
      | none ↦ named
      | some n ↦
          ite (bytes_dec curr.name []) ops
            (scan_words atoi words empty false (ops ++ record { name = curr.name; delta = n } ∷ []))
    ]

unfoldable pub scan_ops : (List ℕ → Option ℕ) → List (List ℕ) → List CommandOp
unfolding scan_words
scan_ops atoi words = scan_words atoi words (record { name = []; delta = 0 }) false []

-- The payloads that the commands "incr" and "decr" submit; `encode` is `common.Serialize`.
unfoldable pub incr_payloads :
    (TestTx → List ℕ) → (List ℕ → Option ℕ) → List (List ℕ) → List (List ℕ)
unfolding scan_ops increment_tx
incr_payloads encode atoi words =
    map (λ op. encode (increment_tx op.name op.delta)) (scan_ops atoi words)

unfoldable pub decr_payloads :
    (TestTx → List ℕ) → (List ℕ → Option ℕ) → List (List ℕ) → List (List ℕ)
unfolding scan_ops decrement_tx
decr_payloads encode atoi words =
    map (λ op. encode (decrement_tx op.name op.delta)) (scan_ops atoi words)

-- The proof of work of the application: the hash starts with two zero bytes. A hash
-- has 64 bytes, so the first two clauses are not met.
unfoldable pub pow_approver : List ℕ → ℕ → ℕ → Bool
pow_approver [] ts delta = false
pow_approver (a ∷ []) ts delta = false
pow_approver (a ∷ b ∷ hash) ts delta = (a == 0) && (b == 0)

module _ (H : Digests) (W : WorldStates H.Byte64) where
  open H use {Byte64}
  open W use {World, Tables}

  -- What `lookup` makes of the result of `Lookup`; a block without a world state is a nil
  -- dereference.
  unfoldable pub number_of : Result (List ℕ) → Option ℕ
  number_of (ok bytes) = some (uint64 (bytes_to_byte8 bytes))
  number_of (err panic) = none
  number_of (err _) = some 0

  -- `lookup`.
  unfoldable pub lookup_number :
      Tables → Block Byte64 World → List ℕ → Block Byte64 World × Option ℕ
  unfolding number_of
  lookup_number t b key = let (b', r) = lookup H W t b key in (b', number_of r)

  -- The end of the operations on a counter, whose value is an int64.
  unfoldable pub change :
      Tables → Block Byte64 World → List ℕ → ℕ → Result (Block Byte64 World × Bool)
  unfolding lookup_number
  change t b target delta =
      let (b', found) = lookup_number t b target in
      elim found [
        | none ↦ err panic
        | some n ↦ ok (update H W b' target (uint64_to_byte8 ((n + delta) % 2 ^ 64)), true)
      ]

  -- The operation "xfer".
  unfoldable pub transfer :
      Tables → Block Byte64 World → TestTx → Result (Block Byte64 World × Bool)
  transfer t b tx = elim (debit H W t b tx.source tx.delta) [
    | err x ↦ err x
    | ok (b₁, false) ↦ ok (b₁, false)
    | ok (b₁, true) ↦ elim (credit H W t b₁ tx.target tx.delta) [
      | err x ↦ err x
      | ok b₂ ↦ ok (b₂, true)
    ]
  ]

  -- The switch of `txProcessor` on the operation.
  unfoldable pub run_op : Tables → Block Byte64 World → TestTx → Result (Block Byte64 World × Bool)
  unfolding change transfer
  run_op t b tx = ite (bytes_dec tx.op op_incr) (change t b tx.target tx.delta) (
      ite (bytes_dec tx.op op_decr) (change t b tx.target ((2 ^ 64 - tx.delta) % 2 ^ 64))
        (ite (bytes_dec tx.op op_xfer) (transfer t b tx) (ok (b, false))))

  -- `txProcessor`: the block, and whether the transaction was taken; `decode` is
  -- `common.Deserialize`.
  unfoldable pub tx_processor :
      (List ℕ → Option TestTx)
      → Tables
      → Block Byte64 World
      → Transaction
      → Result (Block Byte64 World × Bool)
  unfolding run_op
  tx_processor decode t b tx = elim (decode tx.payload) [
    | none ↦ ok (b, false)
    | some op ↦ run_op t b op
  ]
