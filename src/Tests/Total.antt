-- ===== src/Tests/Total.antt =====
-- consensus/blockChainConsensus.go at concrete inputs: a first block on a store that has the genesis block
-- alone.
use go_trust_net.Prelude.{◌≢◌, ℕ, true, List, [], ◌∷◌, Option, none, some, refl, ap, arith}
use mathlib.Core.Option.{some-injective}
use go_trust_net.Consensus.{
  WorldStates, ChainNode, Key, Value, Block, Engine, Result, ok, err, panic,
}
use go_trust_net.Consensus.Blocks.{
  compute_hash, persist_state, persist_variables, search_nonce, keep_hash, hash_pieces, state_root,
}
use go_trust_net.Consensus.Operations.{new_block_chain_consensus, genesis_block, init_store}
use go_trust_net.Consensus.Operations.Grown.{Grown, founded, Grown-ends}
use go_trust_net.Consensus.Store.{get_chain_node, put_chain_node}
use go_trust_net.Consensus.Insert.{add_validated_block}
use go_trust_net.Consensus.Insert.Ends.{IsSound}
use go_trust_net.Consensus.Insert.Total.{
  IsGood, IsNext, genesis-IsSound, add_validated_block-IsGood,
}
use go_trust_net.Core.Digest.{Digests}
use go_trust_net.Tests.{digests}
use go_trust_net.Tests.Chain.{program, worlds, D, spec, block, chain, engine, second, takes_all}

abbrev root : ChainNode (List ℕ)
root = chain 1 0 0 true []

abbrev empty : Key (List ℕ) → Option (Value (List ℕ))
empty k = none

abbrev fresh : Engine digests D worlds
fresh = record engine { db = put_chain_node digests D worlds empty root }

fresh-IsSound : IsSound digests D worlds (1 ∷ []) 1 fresh.db
unfolding get_chain_node
fresh-IsSound =
    genesis-IsSound digests D worlds 1 empty root takes_all (λ k. refl) (refl, refl, refl)

second-IsNext : IsNext digests D worlds 1 fresh.db second
unfolding program
second-IsNext = record {
  above = λ n e.
      let d = ap (λ (m : ChainNode (List ℕ)). m.depth) (some-injective root n e) in omega arith;
  within = omega arith;
}

add_validated_block-IsGood_example :
    IsGood digests D worlds (1 ∷ []) 1 (
      add_validated_block digests D worlds 3 fresh second
        (block (some (1 ∷ [])) (spec [] 0 0 0 [])))
add_validated_block-IsGood_example =
    add_validated_block-IsGood digests D worlds (1 ∷ []) 1 3 fresh second
      (block (some (1 ∷ [])) (spec [] 0 0 0 [])) (2 ∷ []) takes_all fresh-IsSound second-IsNext refl
      refl (omega arith)

-- Hashes that are all the same.
abbrev short : Digests
short = record digests { sha512 = λ ps. 7 ∷ [] }

-- World states whose first one has the hash 9.
abbrev seeded : WorldStates (List ℕ)
seeded = record worlds { new_world = λ t. (t, some (9 ∷ [])) }

abbrev other : Engine short D seeded
other = record {
  state = engine.state;
  tip = engine.tip;
  weight = engine.weight;
  genesis_node = engine.genesis_node;
  miner_id = engine.miner_id;
  db = engine.db;
  tables = engine.tables;
}

engine_of : Result (Engine short D seeded) → Engine short D seeded
engine_of (ok e) = e
engine_of (err _) = other

-- The engine that the constructor makes on an empty store.
abbrev new_engine : Engine short D seeded
new_engine = engine_of (new_block_chain_consensus short D seeded 5 3 (20 ∷ []) empty tt)

abbrev first : Block (List ℕ) (List ℕ)
first = block (some (2 ∷ [])) (spec new_engine.genesis_node.hash 20 1 1 [])

new_engine-Grown : Grown short D seeded 1 new_engine
unfolding program engine_of new_block_chain_consensus genesis_block init_store compute_hash
    persist_state persist_variables search_nonce keep_hash hash_pieces state_root
new_engine-Grown = founded {s = empty} 5 3 (20 ∷ []) tt (λ k. refl) refl refl

first-IsNext : IsNext short D seeded 1 new_engine.db first
unfolding program engine_of new_block_chain_consensus genesis_block init_store compute_hash
    persist_state persist_variables search_nonce keep_hash hash_pieces state_root
first-IsNext = record {
  above = λ n e.
      let d =
        ap (λ (m : ChainNode (List ℕ)). m.depth) (some-injective new_engine.genesis_node n e) in
      omega arith;
  within = omega arith;
}

Grown-ends_example :
    (add_validated_block short D seeded 3 new_engine first
      (block (some new_engine.genesis_node.hash) first.spec)).1
    ≢ err panic
Grown-ends_example =
    Grown-ends short D seeded 1 3 new_engine first
      (block (some new_engine.genesis_node.hash) first.spec) (2 ∷ []) takes_all new_engine-Grown
      first-IsNext refl refl (omega arith)
