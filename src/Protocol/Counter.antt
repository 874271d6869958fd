-- ===== src/Protocol/Counter.antt =====
-- protocol/counter/manager.go and protocol/counter/messages.go: the counter protocol, an earlier
-- application that speaks to the engine by itself. A node is in the heap of `ManagerBase`, and the marks
-- of the messages that it knows are pointers to hashes, numbers that are given out in order. The file
-- calls `consensus.NewTransaction` with two arguments, which the package consensus no longer takes: what
-- it makes of a payload, the miner and the time is a parameter.
pub mod Blocks
pub mod Handlers
pub mod Sync
pub mod Totals
use go_trust_net.Prelude.{
  ℕ, ◌+◌, ltb, ◌==◌, ◌||◌, ◌&&◌, Bool, true, false, List, [], ◌∷◌, ◌++◌, length, take, drop, Option,
  none, some, if◌then◌else◌,
}
use go_trust_net.Core.Digest.{Digests}
use go_trust_net.Core.Types.{uint64_to_byte8, bytes_to_byte8, bytes_to_byte16, uint64}
use go_trust_net.Db.{Database}
use go_trust_net.Db.PeerSet.{new_peer_set_db}
use go_trust_net.Consensus.{Transaction, BlockSpec, WorldStates, Block, Key, Value, Engine}
use go_trust_net.Consensus
use go_trust_net.Consensus.Blocks.{numeric}
use go_trust_net.Network.PeerNode.{Picks}
use go_trust_net.Network.Platform.{pos}
use go_trust_net.Protocol.{Error, HandshakeMsg, NodeId, ManagerBase, new_node}
use go_trust_net.Prelude.{ℕ_discrete}

-- The codes of the messages whose payload is decoded, and the messages.
pub data Code : Type 0 where
  block_hashes_request_code block_hashes_response_code : Code
  blocks_request_code blocks_response_code new_block_code : Code

pub data Message (B : Type 0) : Type 0 where
  handshake_status : HandshakeMsg B → Message B
  get_block_hashes_request : B → ℕ → Message B
  get_block_hashes_response : List B → Message B
  get_block_hashes_rewind : B → Message B
  get_blocks_request : List B → Message B
  get_blocks_response : List (BlockSpec B) → Message B
  new_block : BlockSpec B → Message B
  garbled : Code → Message B
  unknown : Message B

-- How a call ends: also with a nil dereference, or never, since it waits on a channel that nobody reads.
pub data Outcome : Type 0 where
  done blocked panicked : Outcome
  failed : Error → Outcome
  engine_failed : Consensus.Error → Outcome

abbrev pub max_blocks : ℕ
max_blocks = 10

abbrev pub op_increment : ℕ
op_increment = 1

abbrev pub op_decrement : ℕ
op_decrement = 2

-- "WorldState-Countr".
abbrev pub countr_name : List ℕ
countr_name =
    87 ∷ 111 ∷ 114 ∷ 108 ∷ 100 ∷ 83 ∷ 116 ∷ 97 ∷ 116 ∷ 101 ∷ 45 ∷ 67 ∷ 111 ∷ 117 ∷ 110 ∷ 116 ∷ 114
    ∷ []

unfoldable pub make_transaction_payload : List ℕ → ℕ → List ℕ
unfolding uint64_to_byte8
make_transaction_payload name op_code = uint64_to_byte8 op_code ++ name

-- The name and the opcode; `none` stands for a nil opcode.
unfoldable pub get_transaction_from_payload : List ℕ → Option (List ℕ × ℕ)
unfolding bytes_to_byte8 uint64
get_transaction_from_payload payload =
    if ltb (length payload) 9
    then none
    else some (drop 8 payload, uint64 (bytes_to_byte8 (take 8 payload)))

-- What the manager takes from its surroundings: whether `Send` to a peer succeeds, the keys that `Pop`
-- picks, the bounds on the loops of the engine, and the transaction of a payload, a miner and a time.
pub record Surroundings : Type 0 where
  pub sends : NodeId → Bool
  pub picks : NodeId → Picks
  pub fuel : ℕ
  pub rounds : ℕ
  pub new_transaction : List ℕ → List ℕ → ℕ → Transaction

-- `CountrProtocolManager`, with the package's `handshakeMsg`; `refs` counts the pointers to hashes that
-- a peer was marked with.
pub record CountrManager (H : Digests) (D : Database (Key H.Byte64) (Value H.Byte64))
    (W : WorldStates H.Byte64) : Type 0 where
  pub base : ManagerBase H.Byte64 ℕ (Message H.Byte64)
  pub engine : Engine H D W
  pub miner : List ℕ
  pub is_in_shutdown : Bool
  pub handshake_msg : HandshakeMsg H.Byte64
  pub refs : ℕ

module _ (H : Digests) (D : Database (Key H.Byte64) (Value H.Byte64))
    (W : WorldStates H.Byte64) where
  open H use {Byte64}
  open W use {World}

  -- The end of `NewCountrProtocolManager`, once the engine is there.
  unfoldable pub new_countr_protocol_manager : List ℕ → Engine H D W → CountrManager H D W
  new_countr_protocol_manager miner e = record {
    base = record {
      db = new_peer_set_db;
      peer_count = pos 0;
      heap = λ id. new_node ℕ_discrete;
      sent = [];
    };
    engine = e;
    miner = miner;
    is_in_shutdown = false;
    handshake_msg = record {
      network_id = bytes_to_byte16 (1 ∷ 2 ∷ 3 ∷ 4 ∷ []);
      shard_id = bytes_to_byte16 [];
      total_weight = 0;
      genesis = e.genesis_node.hash;
      tip_numeric = 0;
    };
    refs = 0;
  }

  -- `Shutdown`, up to the closing of the store.
  unfoldable pub shutdown : CountrManager H D W → CountrManager H D W
  shutdown mgr = record mgr { is_in_shutdown = true }

  -- `getHandshakeMsg` writes to the package's variable, and gives a pointer to it.
  unfoldable pub get_handshake_msg : CountrManager H D W → Block Byte64 World → CountrManager H D W
  get_handshake_msg mgr best = record mgr {
    handshake_msg = record (mgr.handshake_msg) {
      total_weight = best.spec.wt;
      tip_numeric = numeric H W best;
    };
  }

  -- `isSyncNeeded`, of the status of a node.
  unfoldable pub is_sync_needed : Block Byte64 World → HandshakeMsg Byte64 → Bool
  is_sync_needed best status =
      ltb best.spec.wt status.total_weight
      || (status.total_weight == best.spec.wt && ltb status.tip_numeric (numeric H W best))
