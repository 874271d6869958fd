-- ===== src/Consensus/Blocks.antt =====
-- consensus/block.go, consensus/transaction.go and consensus/chainNode.go.
pub mod Variables
use go_trust_net.Prelude.{
  ℕ, zero, suc, ◌+◌, ◌-◌, ◌%◌, ◌^◌, Bool, true, false, ◌==◌, if◌then◌else◌, List, [], ◌∷◌, ◌++◌,
  map, Option, none, some, ite, ℕ_discrete,
}
use go_trust_net.Core.Digest.{Digests, Piece, raw, digest}
use go_trust_net.Core.Types.{uint64_to_byte8}
use go_trust_net.Consensus.{
  state_incorrect, block_unhashed, duplicate_tx, key_not_found, not_found, panic, Result, ok, err,
  Transaction, BlockSpec, WorldStates, Block, ChainNode, Uncle,
}

unfoldable pub bytes_dec : Discrete (List ℕ)
bytes_dec = hlevel ℕ_discrete

-- The variables of a block, a Go map: a write replaces the entry of the key.
unfoldable pub set_variable :
    List ℕ → Option (List ℕ) → List (List ℕ × Option (List ℕ)) → List (List ℕ × Option (List ℕ))
set_variable k v [] = (k, v) ∷ []
set_variable k v ((j, u) ∷ m) = ite (bytes_dec j k) ((k, v) ∷ m) ((j, u) ∷ set_variable k v m)

unfoldable pub get_variable : List ℕ → List (List ℕ × Option (List ℕ)) → Option (Option (List ℕ))
get_variable k [] = none
get_variable k ((j, u) ∷ m) = ite (bytes_dec j k) (some u) (get_variable k m)

unfoldable pub sum_bytes : ℕ → List ℕ → ℕ
sum_bytes num [] = num
sum_bytes num (b ∷ bs) = sum_bytes ((num + b) % 2 ^ 64) bs

module _ (H : Digests) (W : WorldStates H.Byte64) where
  open H use {Byte64, dec, null, sha512, bytes}
  open W use {World, Tables}

  -- `(*Transaction).Bytes`, in pieces, and `(*Transaction).Id`.
  unfoldable pub tx_pieces : Transaction → List (Piece Byte64)
  tx_pieces tx =
      raw tx.payload ∷ raw tx.signature ∷ raw tx.submitter ∷ raw (uint64_to_byte8 tx.timestamp) ∷ []

  unfoldable pub tx_id : Transaction → Byte64
  unfolding tx_pieces
  tx_id tx = sha512 (tx_pieces tx)

  -- `Update` and `Delete` write to the variables only.
  unfoldable pub update : Block Byte64 World → List ℕ → List ℕ → Block Byte64 World
  unfolding set_variable
  update b key value = record b { variables = set_variable key (some value) b.variables }

  unfoldable pub delete : Block Byte64 World → List ℕ → Block Byte64 World
  unfolding set_variable
  delete b key = record b { variables = set_variable key none b.variables }

  -- The part of `Lookup` that asks the world state; what it finds is kept as a variable. A block
  -- without a world state is a nil dereference.
  unfoldable pub lookup_world :
      Tables → Block Byte64 World → List ℕ → Block Byte64 World × Result (List ℕ)
  unfolding set_variable
  lookup_world t b key = elim b.world_state [
    | none ↦ (b, err panic)
    | some w ↦ elim (W.lookup t w key) [
      | none ↦ (b, err not_found)
      | some value ↦ (record b { variables = set_variable key (some value) b.variables }, ok value)
    ]
  ]

  unfoldable pub lookup :
      Tables → Block Byte64 World → List ℕ → Block Byte64 World × Result (List ℕ)
  unfolding get_variable lookup_world
  lookup t b key = elim (get_variable key b.variables) [
    | some (some v) ↦ (b, ok v)
    | some none ↦ (b, err key_not_found)
    | none ↦ lookup_world t b key
  ]

  -- The weight is a uint64.
  unfoldable pub add_uncle : Block Byte64 World → Uncle Byte64 → Block Byte64 World
  add_uncle b u = record b {
    spec = record (b.spec) { uncles = b.spec.uncles ++ u.hash ∷ []; wt = (b.spec.wt + 1) % 2 ^ 64 };
    uncle_miners = b.uncle_miners ++ u.miner ∷ [];
  }

  unfoldable pub has_hash : Byte64 → List Byte64 → Bool
  has_hash h [] = false
  has_hash h (j ∷ hs) = ite (dec j h) true (has_hash h hs)

  -- The part of `AddTransaction` after the check of the parent's world state.
  unfoldable pub append_transaction : Block Byte64 World → Transaction → Result (Block Byte64 World)
  unfolding has_hash tx_id
  append_transaction b tx =
      if has_hash (tx_id tx) b.transactions
      then err duplicate_tx
      else ok (record b {
        transactions = tx_id tx ∷ b.transactions;
        spec = record (b.spec) { txs = b.spec.txs ++ tx ∷ [] };
      })

  -- `known` is the world state's `HasTransaction`.
  unfoldable pub add_transaction :
      (Byte64 → Option Byte64) → Block Byte64 World → Transaction → Result (Block Byte64 World)
  unfolding append_transaction tx_id
  add_transaction known b tx = elim b.world_state [
    | none ↦ err panic
    | some w ↦ elim (known (tx_id tx)) [
      | some _ ↦ err duplicate_tx
      | none ↦ append_transaction b tx
    ]
  ]

  -- The loop of `persistState`; the list of variables is in the order in which the map is ranged
  -- over. `skipped` is `skippedParentState`.
  unfoldable pub persist_variables :
      Tables → World → Bool → List (List ℕ × Option (List ℕ)) → Tables × World
  persist_variables t w skipped [] = (t, w)
  persist_variables t w skipped ((key, value) ∷ vars) =
      let (t', w') : Tables × World = elim value [
        | none ↦ W.delete t w key
        | some v ↦ W.update t w key v
      ] in
      let same = persist_variables t' w' skipped vars in
      let cleaned =
        persist_variables (if skipped then W.cleanup t' w' (W.hash w) else t') w' true vars in
      ite (dec (W.hash w') (W.hash w)) same cleaned

  -- The world state root that is hashed.
  unfoldable pub state_root : Block Byte64 World → Byte64
  state_root b = elim b.world_state [ none ↦ b.spec.state | some w ↦ W.hash w ]

  unfoldable pub persist_state : Tables → Block Byte64 World → Tables × Block Byte64 World
  unfolding persist_variables
  persist_state t b = elim b.world_state [
    | none ↦ (t, b)
    | some w ↦
        let (t', w') = persist_variables t w false b.variables in
        if b.is_network_block
        then (t', record b { world_state = some w' })
        else (t', record b { world_state = some w'; spec = record (b.spec) { state = W.hash w' } })
  ]

  -- The data that `computeHash` hashes.
  unfoldable pub hash_pieces : Block Byte64 World → ℕ → List (Piece Byte64)
  unfolding tx_pieces state_root
  hash_pieces b nonce =
      digest b.spec.phash
      ∷ raw b.spec.miner
      ∷ raw (uint64_to_byte8 b.spec.ts)
      ∷ raw (uint64_to_byte8 b.spec.delta)
      ∷ digest (state_root b)
      ∷ (pieces b.spec.txs
          ++ raw (uint64_to_byte8 b.spec.wt)
            ∷ (map digest b.spec.uncles ++ raw (uint64_to_byte8 nonce) ∷ []))
    where
      pieces : List Transaction → List (Piece Byte64)
      pieces [] = []
      pieces (tx ∷ txs) = tx_pieces tx ++ pieces txs

  -- The loop over nonces, on fuel: the source stops it after ten seconds. `pow` is the approver of
  -- the proof of work, which takes the hash, the timestamp and the delta. The result is the nonce
  -- last tried, and the hash if it was approved.
  unfoldable pub search_nonce :
      (Byte64 → ℕ → ℕ → Bool) → ℕ → ℕ → ℕ → Block Byte64 World → ℕ × Option Byte64
  unfolding hash_pieces
  search_nonce pow zero last nonce b = (last, none)
  search_nonce pow (suc fuel) last nonce b =
      let h = sha512 (hash_pieces b nonce) in
      let next = search_nonce pow fuel nonce ((nonce + 1) % 2 ^ 64) b in
      if pow h b.spec.ts b.spec.delta
      then (nonce, some h)
      else if b.is_network_block
      then (nonce, none)
      else next

  -- The end of `computeHash`: where it returns nil, the block keeps the hash that it had.
  unfoldable pub keep_hash : Block Byte64 World → ℕ × Option Byte64 → Block Byte64 World × Bool
  keep_hash b (nonce, none) = (record b { spec = record (b.spec) { nonce = nonce } }, false)
  keep_hash b (nonce, some h) =
      (record b { spec = record (b.spec) { nonce = nonce }; hash = some h }, true)

  -- `computeHash`: the tables, the block, and whether it returns a hash.
  unfoldable pub compute_hash :
      (Byte64 → ℕ → ℕ → Bool)
      → ℕ
      → Tables
      → Block Byte64 World
      → Tables × (Block Byte64 World × Bool)
  unfolding persist_state search_nonce keep_hash
  compute_hash pow fuel t b =
      let (t', b') = persist_state t b in
      (t', keep_hash b' (search_nonce pow fuel b'.spec.nonce b'.spec.nonce b'))

  unfoldable pub clone : Block Byte64 World → World → Block Byte64 World
  clone b w = record {
    spec = record (b.spec) { state = W.hash w; txs = []; uncles = [] };
    uncle_miners = [];
    world_state = some w;
    hash = b.hash;
    is_network_block = false;
    variables = [];
    transactions = [];
  }

  -- `Spec`.
  unfoldable pub wire_spec : Block Byte64 World → BlockSpec Byte64
  unfolding state_root
  wire_spec b = record (b.spec) { state = state_root b }

  -- `Numeric`: without a hash, the largest uint64.
  unfoldable pub numeric : Block Byte64 World → ℕ
  unfolding sum_bytes
  numeric b = elim b.hash [ none ↦ 2 ^ 64 - 1 | some h ↦ sum_bytes 0 (bytes h) ]

  -- `newBlock` at the time `now`, which is taken for a missing timestamp.
  unfoldable pub new_block : ℕ → Byte64 → ℕ → ℕ → ℕ → ℕ → List ℕ → World → Block Byte64 World
  new_block now previous weight depth given p_ts miner w =
      let ts = if given == 0 then now else given in
      record {
        spec = record {
          phash = previous;
          miner = miner;
          state = W.hash w;
          txs = [];
          ts = ts;
          delta = (ts + 2 ^ 64 - p_ts) % 2 ^ 64;
          depth = depth;
          wt = weight;
          uncles = [];
          nonce = 0;
        };
        uncle_miners = [];
        world_state = some w;
        hash = none;
        is_network_block = false;
        variables = [];
        transactions = [];
      }

  -- The checks of `serializeBlock`; only the fields of the wire are exported.
  unfoldable pub serialize_block : Block Byte64 World → Result (BlockSpec Byte64)
  serialize_block b = ite (dec b.spec.state null) (err state_incorrect) (elim b.world_state [
    | none ↦ hashed
    | some w ↦ ite (dec (W.hash w) b.spec.state) hashed (err state_incorrect)
  ])
    where
      hashed : Result (BlockSpec Byte64)
      hashed = elim b.hash [ none ↦ err block_unhashed | some _ ↦ ok b.spec ]

  unfoldable pub de_serialize_block : BlockSpec Byte64 → Block Byte64 World
  de_serialize_block spec = record {
    spec = spec;
    uncle_miners = [];
    world_state = none;
    hash = none;
    is_network_block = true;
    variables = [];
    transactions = [];
  }

  -- `newChainNode`, of a block whose hash is known.
  unfoldable pub new_chain_node : Block Byte64 World → Byte64 → ChainNode Byte64
  new_chain_node b h = record {
    parent = b.spec.phash;
    depth = b.spec.depth;
    weight = b.spec.wt;
    is_main_list = false;
    children = [];
    hash = h;
  }

-- `addChild` and `setMainList`.
unfoldable pub add_child : {B : Type 0} → ChainNode B → B → ChainNode B
add_child n h = record n { children = n.children ++ h ∷ [] }

unfoldable pub set_main_list : {B : Type 0} → ChainNode B → Bool → ChainNode B
set_main_list n b = record n { is_main_list = b }
