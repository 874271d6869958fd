-- ===== src/Tests/Parts.antt =====
-- core/types.go, db/databaseInMem.go and network/node.go at concrete inputs.
use go_trust_net.Prelude.{
  ℕ, ◌≤◌, true, false, List, [], ◌∷◌, none, some, ite, ◌≡◌, ◌↔◌, refl, arith, length, ℕ_discrete,
}
use go_trust_net.Core.Types.{uint64, uint64_to_byte8, bytes_to_byte64}
use go_trust_net.Core.Types.RoundTrip.{uint64_lem}
use go_trust_net.Db.InMem.{DatabaseInMem, key_dec, map_put, map_delete, put, get, has, delete}
use go_trust_net.Db.InMem.Laws.{get_lem}
use go_trust_net.Network.PeerNode.{
  PeerNode, Picks, max_known_txs, max_known_blocks, add_tx, has_tx, add_block, has_block,
}
use go_trust_net.Network.PeerNode.Known.{add-has_bounded}

abbrev million : List ℕ
million = 0 ∷ 0 ∷ 0 ∷ 0 ∷ 0 ∷ 15 ∷ 66 ∷ 64 ∷ []

uint64_lem_example :
    (uint64 (uint64_to_byte8 1000000) ≡ 1000000) × (uint64_to_byte8 (uint64 million) ≡ million)
uint64_lem_example = uint64_lem 1000000 million (omega arith) refl (
  omega arith,
  (
    omega arith,
    (omega arith, (omega arith, (omega arith, (omega arith, (omega arith, (omega arith, tt)))))),
  ),
)

abbrev filled : DatabaseInMem ℕ
filled = record { mdb = (bytes_to_byte64 (1 ∷ []), 5) ∷ [] }

abbrev written : DatabaseInMem ℕ
written = record { mdb = (bytes_to_byte64 (1 ∷ []), 6) ∷ [] }

get_lem_example :
    (get written (1 ∷ [])
      ≡ ite
          (key_dec (bytes_to_byte64 (1 ∷ [])) (bytes_to_byte64 (1 ∷ [])))
          (some 6)
          (get filled (1 ∷ [])))
    × ((has written (1 ∷ []) ≡ false) ↔ (get written (1 ∷ []) ≡ none))
    × (get (record { mdb = [] }) (1 ∷ [])
        ≡ ite
            (key_dec (bytes_to_byte64 (1 ∷ [])) (bytes_to_byte64 (1 ∷ [])))
            none
            (get filled (1 ∷ [])))
unfolding put map_put map_delete delete key_dec bytes_to_byte64 get has ℕ_discrete
get_lem_example = get_lem filled written (record { mdb = [] }) (1 ∷ []) (1 ∷ []) 6 refl refl

abbrev peer : PeerNode ℕ
peer = record { known_txs = 3 ∷ 4 ∷ []; known_blocks = 5 ∷ [] }

abbrev picks : Picks
picks = record { first = 0; second = 0; third = 0 }

add-has_bounded_example :
    (has_tx ℕ_discrete (add_tx ℕ_discrete peer picks 9) 9 ≡ true)
    × (length (add_tx ℕ_discrete peer picks 9).known_txs ≤ max_known_txs)
    × (has_block ℕ_discrete (add_block ℕ_discrete peer picks 9) 9 ≡ true)
    × (length (add_block ℕ_discrete peer picks 9).known_blocks ≤ max_known_blocks)
add-has_bounded_example = add-has_bounded ℕ_discrete peer picks 9 (omega arith) (omega arith)
