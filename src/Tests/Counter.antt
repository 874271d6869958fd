-- ===== src/Tests/Counter.antt =====
-- protocol/counter/manager.go at concrete inputs: the counter "a" up twice and down once.
use go_trust_net.Prelude.{true, false, List, [], ◌∷◌, refl}
use go_trust_net.Consensus.{Transaction}
use go_trust_net.Protocol.Counter.Blocks.{process_txs}
use go_trust_net.Protocol.Counter.Totals.{Step, payload_of, Adds, process_txs-Adds}
use go_trust_net.Tests.{digests}
use go_trust_net.Tests.Chain.{worlds, D}
use go_trust_net.Tests.CountrApp.{start, start-Shows}

abbrev steps : List Step
steps = (97 ∷ [], true) ∷ (97 ∷ [], true) ∷ (97 ∷ [], false) ∷ []

abbrev tx : Step → Transaction
tx step = record { payload = payload_of step; signature = []; submitter = 9 ∷ []; timestamp = 5 }

abbrev txs : List Transaction
txs = tx (97 ∷ [], true) ∷ tx (97 ∷ [], true) ∷ tx (97 ∷ [], false) ∷ []

process_txs-Adds_example :
    Adds digests D worlds tt (λ x. 0) steps (process_txs digests D worlds tt start txs)
process_txs-Adds_example =
    process_txs-Adds digests D worlds tt start (λ x. 0) steps txs
      (λ e. cc, (λ e. cc, (λ e. cc, tt))) refl start-Shows
