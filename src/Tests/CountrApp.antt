-- ===== src/Tests/CountrApp.antt =====
-- countrApp/app.go at concrete inputs: the words "a 5 b" on a block without counters, and a transfer.
use go_trust_net.Prelude.{
  ℕ, Bool, false, List, [], ◌∷◌, ◌++◌, length, take, drop, Option, none, some, ◌≡◌, refl, ap, arith,
  ℕ_discrete,
}
use go_trust_net.Consensus.{Transaction, Block, Result, ok, err}
use go_trust_net.Consensus.Blocks.{bytes_dec, lookup, lookup_world, get_variable}
use go_trust_net.Network.Trustee.{parse_uint}
use go_trust_net.Network.Platform.{Platform}
use go_trust_net.Network.Platform.Process.{process_txs}
use go_trust_net.CountrApp.{
  TestTx, CommandOp, op_xfer, increment_tx, decrement_tx, tx_processor, incr_payloads,
  decr_payloads, scan_ops, scan_words, lookup_number, number_of,
}
use go_trust_net.CountrApp.Counters.{effects, Shows, Calls, Refines, process_txs-Refines}
use go_trust_net.CountrApp.Commands.{
  Spells, nothing, plain, valued, each, raises, lowers, incr_payloads-Refines,
}
use go_trust_net.Tests.{digests}
use go_trust_net.Tests.Chain.{worlds, D, block, spec}
use go_trust_net.Tests.Platform.{platform}

-- An encoding: the lengths, and the bytes.
abbrev encode : TestTx → List ℕ
encode tx = length tx.op ∷ length tx.source ∷ tx.delta ∷ (tx.op ++ (tx.source ++ tx.target))

abbrev decode : List ℕ → Option TestTx
decode (m ∷ n ∷ delta ∷ rest) = some (record {
  op = take m rest;
  source = take n (drop m rest);
  target = drop n (drop m rest);
  delta = delta;
})
decode _ = none

take-append : (xs ys : List ℕ) → take (length xs) (xs ++ ys) ≡ xs
take-append [] ys = refl
take-append (x ∷ xs) ys = ap (λ zs. x ∷ zs) (take-append xs ys)

drop-append : (xs ys : List ℕ) → drop (length xs) (xs ++ ys) ≡ ys
drop-append [] ys = refl
drop-append (x ∷ xs) ys = drop-append xs ys

decode-encode : (tx : TestTx) → decode (encode tx) ≡ some tx
decode-encode tx = simp (take-append, drop-append)

-- The platform with the application's processor.
abbrev returned :
    Block (List ℕ) (List ℕ)
    → Result (Block (List ℕ) (List ℕ) × Bool)
    → Block (List ℕ) (List ℕ) × Bool
returned b (ok r) = r
returned b (err _) = (b, false)

abbrev app : Platform digests worlds
app = record platform {
  tx_processor = λ t b tx. returned b (tx_processor digests worlds decode t b tx);
}

app-Calls : Calls digests worlds D app decode
app-Calls t b tx r e = ap (returned b) e

abbrev pub start : Block (List ℕ) (List ℕ)
start = block none (spec (2 ∷ []) 20 2 3 [])

pub start-Shows : Shows digests worlds tt start (λ x. 0)
unfolding lookup_number number_of lookup lookup_world get_variable
start-Shows x = (refl, omega arith)

abbrev sent : TestTx → Transaction
sent tx = record { payload = encode tx; signature = []; submitter = 9 ∷ []; timestamp = 5 }

abbrev counter : ℕ → ℕ → CommandOp
counter name delta = record { name = name ∷ []; delta = delta }

abbrev words : List (List ℕ)
words = (97 ∷ []) ∷ (53 ∷ []) ∷ (98 ∷ []) ∷ []

words-Spells : Spells parse_uint (counter 97 5 ∷ counter 98 1 ∷ []) words
unfolding parse_uint
words-Spells =
    valued (97 ∷ []) (53 ∷ []) 5 (λ e. cc) refl refl (plain (98 ∷ []) (λ e. cc) refl nothing)

abbrev incrs : List Transaction
incrs = sent (increment_tx (97 ∷ []) 5) ∷ sent (increment_tx (98 ∷ []) 1) ∷ []

abbrev decrs : List Transaction
decrs = sent (decrement_tx (97 ∷ []) 5) ∷ sent (decrement_tx (98 ∷ []) 1) ∷ []

incr_payloads-Refines_example :
    Refines digests worlds D app decode tt
      (process_txs digests D worlds app tt start incrs)
      (some (each raises (counter 97 5 ∷ counter 98 1 ∷ []) (λ x. 0)))
    × Refines digests worlds D app decode tt
        (process_txs digests D worlds app tt start decrs)
        (some (each lowers (counter 97 5 ∷ counter 98 1 ∷ []) (λ x. 0)))
unfolding incr_payloads decr_payloads scan_ops scan_words bytes_dec ℕ_discrete parse_uint
incr_payloads-Refines_example =
    incr_payloads-Refines digests worlds D app encode decode parse_uint tt start (λ x. 0)
      (counter 97 5 ∷ counter 98 1 ∷ []) words incrs decrs decode-encode app-Calls words-Spells
      start-Shows refl refl

-- From "a" with 5 a transfer of 3 to "b".
abbrev moved : List Transaction
moved =
    sent (increment_tx (97 ∷ []) 5)
    ∷ sent (record { op = op_xfer; source = 97 ∷ []; target = 98 ∷ []; delta = 3 })
    ∷ []

process_txs-Refines_example :
    Refines digests worlds D app decode tt
      (process_txs digests D worlds app tt start moved)
      (effects decode moved (λ x. 0))
process_txs-Refines_example =
    process_txs-Refines digests worlds D app decode tt start (λ x. 0) moved app-Calls start-Shows

-- Of no counter nothing can be moved.
refused :
    effects decode
      (sent (record { op = op_xfer; source = 97 ∷ []; target = 98 ∷ []; delta = 3 }) ∷ [])
      (λ x. 0)
    ≡ none
unfolding bytes_dec ℕ_discrete
refused = refl
