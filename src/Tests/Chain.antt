-- ===== src/Tests/Chain.antt =====
-- consensus/blockChainConsensus.go at concrete inputs: a genesis block, two blocks on it, and a block on one of
-- these with the other as its uncle. A world state is its hash here.
use mathlib.Core.List.{Mem}
use go_trust_net.Prelude.{
  ℕ, ◌^◌, ◌<◌, ◌≤◌, Bool, true, false, List, [], ◌∷◌, length, Option, none, some, ite, ◌≡◌, ◌≢◌,
  ◌⊎◌, ◌↔◌, refl, sym, ◌∙◌, ap, arith, All, ◌++◌, ℕ_discrete, if_pos, if_neg,
}
use go_trust_net.Db.{Database}
use go_trust_net.Consensus.{
  WorldStates, BlockSpec, Block, ChainNode, Key, chain_node_key, block_key, dag_tip, Value,
  chain_node, block_spec, tip_hash, duplicate_block, err, Engine, ok, Error, panic, max_blocks,
}
use go_trust_net.Consensus.Store.{
  get_chain_node, get_block, find_main_list_child, or_else, put_chain_node, put_block,
  register_transactions, register_all, find_uncles, find_non_direct_ancestors, uncles_among,
  without,
}
use go_trust_net.Consensus.Validate.{climb, meet, uncle_distance, is_uncle_valid, validate_block}
use go_trust_net.Consensus.Validate.Exact.{IsValid, validate_block-ok_iff}
use go_trust_net.Consensus.Validate.Distance.{AreCousins, is_uncle_valid-AreCousins}
use go_trust_net.Consensus.Blocks.{
  numeric, sum_bytes, new_chain_node, add_child, set_main_list, serialize_block, de_serialize_block,
  new_block, add_uncle,
}
use go_trust_net.Consensus.Insert.{
  has_duplicate, is_better, promote, demote, rebalance, switch_tip, insert_block,
  add_validated_block,
}
use go_trust_net.Consensus.Insert.Choice.{
  Beats, IsTracking, Accepts, start, accept, add_validated_block-tip,
}
use go_trust_net.Consensus.Insert.Duplicates.{TakesAll, add_validated_block-duplicate}
use go_trust_net.Consensus.Insert.Runs.{Accepts-best, Accepts-agree}
use go_trust_net.Consensus.Operations.{add_uncles, new_candidate_block}
use go_trust_net.Consensus.Operations.Candidate.{IsCandidate, new_candidate_block-IsCandidate}
use go_trust_net.Consensus.Reads.{descendents}
use go_trust_net.Consensus.Reads.Bounds.{IsLayered, descendents_bounded}
use go_trust_net.Tests.{digests, list_dec, table}

abbrev pub worlds : WorldStates (List ℕ)
worlds = record {
  Tables = Unit {0};
  World = List ℕ;
  hash = λ w. w;
  new_world = λ t. (t, some []);
  lookup = λ t w k. none;
  update = λ t w k v. (t, k ++ v ++ w);
  delete = λ t w k. (t, w);
  rebase = λ t w h. (t, some h);
  cleanup = λ t w h. t;
}

unfoldable pub key_decidable : Discrete (Key (List ℕ))
key_decidable = hlevel list_dec

abbrev pub D : Database (Key (List ℕ)) (Value (List ℕ))
D = table key_decidable

-- A block of the given parent, miner, depth, weight and uncles.
abbrev pub spec : List ℕ → ℕ → ℕ → ℕ → List (List ℕ) → BlockSpec (List ℕ)
spec phash miner depth wt uncles = record {
  phash = phash;
  miner = miner ∷ [];
  state = 9 ∷ [];
  txs = [];
  ts = 1000;
  delta = 10;
  depth = depth;
  wt = wt;
  uncles = uncles;
  nonce = 0;
}

abbrev pub block : Option (List ℕ) → BlockSpec (List ℕ) → Block (List ℕ) (List ℕ)
block h s = record {
  spec = s;
  uncle_miners = [];
  world_state = some (9 ∷ []);
  hash = h;
  is_network_block = false;
  variables = [];
  transactions = [];
}

abbrev pub chain : ℕ → ℕ → ℕ → Bool → List (List ℕ) → ChainNode (List ℕ)
chain hash parent depth main children = record {
  parent = parent ∷ [];
  depth = depth;
  weight = depth;
  is_main_list = main;
  children = children;
  hash = hash ∷ [];
}

unfoldable pub find : List (Key (List ℕ) × Value (List ℕ)) → Key (List ℕ) → Option (Value (List ℕ))
find [] k = none
find ((j, v) ∷ entries) k = ite (key_decidable j k) (some v) (find entries k)

-- The blocks 1 (the genesis block), 2 and 3 (its children).
abbrev pub stored : Key (List ℕ) → Option (Value (List ℕ))
stored = find (
    (chain_node_key (1 ∷ []), chain_node (chain 1 0 0 true ((2 ∷ []) ∷ (3 ∷ []) ∷ [])))
    ∷ (chain_node_key (2 ∷ []), chain_node (chain 2 1 1 true []))
    ∷ (chain_node_key (3 ∷ []), chain_node (chain 3 1 1 false []))
    ∷ (block_key (1 ∷ []), block_spec (spec (0 ∷ []) 0 0 0 []))
    ∷ (block_key (2 ∷ []), block_spec (spec (1 ∷ []) 20 1 1 []))
    ∷ (block_key (3 ∷ []), block_spec (spec (1 ∷ []) 30 1 1 []))
    ∷ (dag_tip, tip_hash (2 ∷ []))
    ∷ [])

unfoldable pub program : Unit {0}
unfolding find ℕ_discrete list_dec key_decidable get_chain_node get_block climb meet uncle_distance
    is_uncle_valid numeric sum_bytes new_chain_node add_child or_else put_chain_node put_block
    find_main_list_child register_transactions register_all has_duplicate is_better promote demote
    rebalance switch_tip insert_block add_validated_block set_main_list serialize_block
    de_serialize_block new_block add_uncle find_uncles find_non_direct_ancestors uncles_among
    without add_uncles new_candidate_block
program = tt

is_uncle_valid-AreCousins_example :
    (parent : ChainNode (List ℕ)) × (uncle : ChainNode (List ℕ)) × (b : Block (List ℕ) (List ℕ))
    × (get_chain_node digests D worlds stored (2 ∷ []) ≡ some parent)
    × (get_chain_node digests D worlds stored (3 ∷ []) ≡ some uncle)
    × (get_block digests D worlds stored (3 ∷ []) ≡ some b)
    × (b.spec.miner ≡ 30 ∷ [])
    × AreCousins digests D worlds stored parent uncle
unfolding program
is_uncle_valid-AreCousins_example =
    is_uncle_valid-AreCousins digests D worlds stored (2 ∷ []) (3 ∷ []) (30 ∷ []) refl

abbrev pub second : Block (List ℕ) (List ℕ)
second = block (some (2 ∷ [])) (spec (1 ∷ []) 20 1 1 [])

-- A child of block 2, with block 3 as its uncle.
abbrev pub fourth : Block (List ℕ) (List ℕ)
fourth = block (some (4 ∷ [])) (spec (2 ∷ []) 40 2 3 ((3 ∷ []) ∷ []))

abbrev pub engine : Engine digests D worlds
engine = record {
  state = 9 ∷ [];
  tip = second;
  weight = 1;
  genesis_node = chain 1 0 0 true ((2 ∷ []) ∷ (3 ∷ []) ∷ []);
  miner_id = 50 ∷ [];
  db = stored;
  tables = tt;
}

validate_block-ok_iff_example :
    ((b' : Block (List ℕ) (List ℕ)) × (validate_block digests D worlds stored fourth
        ≡ ok (b', second)))
    ↔ IsValid digests D worlds stored fourth second
validate_block-ok_iff_example = validate_block-ok_iff digests D worlds stored fourth second

abbrev pub accepted : Engine digests D worlds
accepted = (add_validated_block digests D worlds 10 engine fourth second).0

accepted-ok : add_validated_block digests D worlds 10 engine fourth second ≡ (accepted, ok tt)
unfolding program
accepted-ok = refl

add_validated_block-tip_example :
    IsTracking digests D worlds accepted
    × (((accepted.tip ≡ fourth) × Beats digests D worlds fourth engine.tip)
        ⊎ ((accepted.tip ≡ engine.tip) × (¬ Beats digests D worlds fourth engine.tip)))
add_validated_block-tip_example =
    add_validated_block-tip digests D worlds 10 engine accepted fourth second refl accepted-ok

run : Accepts digests D worlds engine (fourth ∷ second ∷ []) accepted
run = accept 10 fourth second accepted start accepted-ok

Accepts-best_example :
    IsTracking digests D worlds accepted
    × Mem accepted.tip (fourth ∷ second ∷ [])
    × All (λ b. ¬ Beats digests D worlds b accepted.tip) (fourth ∷ second ∷ [])
Accepts-best_example = Accepts-best digests D worlds run refl

Accepts-agree_example :
    (accepted.tip.spec.wt ≡ accepted.tip.spec.wt)
    × (numeric digests worlds accepted.tip ≡ numeric digests worlds accepted.tip)
Accepts-agree_example =
    Accepts-agree digests D worlds engine accepted engine accepted (fourth ∷ second ∷ [])
      (fourth ∷ second ∷ []) run run refl refl (λ b. (λ m. m, λ m. m))

abbrev candidate : Engine digests D worlds × Option (Block (List ℕ) (List ℕ))
candidate = new_candidate_block digests D worlds 2000 engine

abbrev uncle_of_tip : Block (List ℕ) (List ℕ)
uncle_of_tip =
    record (block none
      (record (spec (2 ∷ []) 50 2 3 ((3 ∷ []) ∷ [])) { ts = 2000; delta = 1000 })) {
        uncle_miners = (30 ∷ []) ∷ [];
      }

candidate-some : candidate ≡ (candidate.0, some uncle_of_tip)
unfolding program
candidate-some = refl

new_candidate_block-IsCandidate_example : IsCandidate digests D worlds engine uncle_of_tip
new_candidate_block-IsCandidate_example =
    new_candidate_block-IsCandidate digests D worlds 2000 engine candidate.0 uncle_of_tip
      (omega arith) (omega arith) (omega arith) candidate-some

-- A store with the genesis block only.
abbrev lone : ChainNode (List ℕ)
lone = chain 1 0 0 true []

abbrev genesis_only : Key (List ℕ) → Option (Value (List ℕ))
genesis_only k = ite (key_decidable (chain_node_key (1 ∷ [])) k) (some (chain_node lone)) none

genesis_only-get :
    (h : List ℕ) (n : ChainNode (List ℕ))
    → get_chain_node digests D worlds genesis_only h ≡ some n
    → (h ≡ 1 ∷ []) × (n ≡ lone)
unfolding get_chain_node
genesis_only-get h n e = elim (key_decidable (chain_node_key (1 ∷ [])) (chain_node_key h)) [
  | yes p ↦ (cc, ground (arith, at p))
  | no p ↦ absurd (ground (arith, at_none p))
]
  where
    at :
        chain_node_key (1 ∷ []) ≡ chain_node_key h
        → genesis_only (chain_node_key h) ≡ some (chain_node lone)
    at p = if_pos (key_decidable (chain_node_key (1 ∷ [])) (chain_node_key h)) p _ _

    at_none : chain_node_key (1 ∷ []) ≢ chain_node_key h → genesis_only (chain_node_key h) ≡ none
    at_none p = if_neg (key_decidable (chain_node_key (1 ∷ [])) (chain_node_key h)) p _ _

no_child :
    (h : List ℕ) (n c : ChainNode (List ℕ))
    → get_chain_node digests D worlds genesis_only h ≡ some n
    → find_main_list_child digests D worlds genesis_only n.children none ≡ some c
    → n.depth < c.depth
unfolding find_main_list_child
no_child h n c e f = absurd (ground (arith, (genesis_only-get h n e).1))

genesis_only-IsLayered : IsLayered digests D worlds genesis_only
genesis_only-IsLayered = record {
  hashed = λ h n e.
      let (p, q) = genesis_only-get h n e in ap (λ (m : ChainNode (List ℕ)). m.hash) q ∙ sym p;
  deeper = no_child;
}

descendents_bounded_example :
    (bs : List (Block (List ℕ) (List ℕ))) × (x : Option Error) × (descendents digests D worlds 103
        (record engine { db = genesis_only })
        (1 ∷ [])
        7
      ≡ some (bs, x))
    × (length bs ≤ 7)
    × (length bs ≤ max_blocks)
    × ((7 < 2 ^ 63) ⊎ (x ≡ some panic))
descendents_bounded_example =
    descendents_bounded digests D worlds 103 (record engine { db = genesis_only }) (1 ∷ []) 7
      (omega arith) genesis_only-IsLayered

pub takes_all : TakesAll digests D worlds
takes_all s k v = λ e. cc

add_validated_block-duplicate_example :
    add_validated_block digests D worlds 7 accepted fourth second ≡ (accepted, err duplicate_block)
add_validated_block-duplicate_example =
    add_validated_block-duplicate digests D worlds 10 7 engine accepted fourth second fourth second
      takes_all accepted-ok refl
