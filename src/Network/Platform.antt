-- ===== src/Network/Platform.antt =====
-- network/platform.go, network/types.go and network/protocol.go: the state of the platform manager,
-- its messages, and what it takes from the application and from go-ethereum's p2p. A peer node is an
-- object that the set of peers and the goroutines of its connection share: it stands in a heap under
-- the id of its peer.
pub mod Lifecycle
pub mod Peers
pub mod Process
pub mod Handlers
pub mod Sync
pub mod Producer
pub mod Quiet
pub mod Listening
pub mod Working
pub mod Healthy
pub mod Syncing
pub mod Invariant
pub mod Production
pub mod Reach
pub mod Flood
pub mod Join
pub mod Sound
pub mod Spread
use go_trust_net.Prelude.{
  ℕ, zero, suc, Bool, List, [], ◌∷◌, ◌++◌, Option, ite, ◌≡◌, refl, inl, inr, ◌⊎◌,
}
use go_trust_net.Core.Digest.{Digests}
use go_trust_net.Db.{Database}
use go_trust_net.Db.PeerSet.{PeerSetDb}
use go_trust_net.Consensus.{Transaction, BlockSpec, WorldStates, Block, Key, Value, Engine}
use go_trust_net.Consensus
use go_trust_net.Network.PeerNode.{PeerNode, Picks}
use go_trust_net.Network.Trustee.{Codec}

-- network/protocol.go and network/error.go; `engine` stands for an error of the package consensus.
pub data Error : Type 0 where
  handshake_failed unknown_message_type sync_failed invalid_request not_found bad_block : Error
  duplicate_start duplicate_suspend peer_invalid send_failed read_failed : Error
  engine : Consensus.Error → Error

-- How a call ends: with no error, with an error, with a nil dereference, or in a wait on a
-- channel that nobody serves.
pub data Outcome : Type 0 where
  done blocked panicked : Outcome
  failed : Error → Outcome

pub Outcome-cases :
    (o : Outcome) → (o ≡ done) ⊎ (o ≡ blocked) ⊎ (o ≡ panicked) ⊎ ((x : Error) × (o ≡ failed x))
Outcome-cases done = inl refl
Outcome-cases blocked = inr (inl refl)
Outcome-cases panicked = inr (inr (inl refl))
Outcome-cases (failed x) = inr (inr (inr (x, refl)))

-- The integers, for `peerCount`.
pub data ℤ : Type 0 where
  pos negsuc : ℕ → ℤ

unfoldable pub incr : ℤ → ℤ
incr (pos n) = pos (suc n)
incr (negsuc zero) = pos 0
incr (negsuc (suc n)) = negsuc n

unfoldable pub decr : ℤ → ℤ
decr (pos zero) = negsuc 0
decr (pos (suc n)) = pos n
decr (negsuc n) = negsuc (suc n)

-- The values of `GetBlockHashesChan`, a channel with room for two.
pub data Signal : Type 0 where
  chan_error chan_next chan_abort chan_retry chan_done : Signal

pub record AppConfig : Type 0 where
  pub network_id : List ℕ
  pub node_id : List ℕ
  pub node_name : List ℕ
  pub protocol_id : List ℕ

pub record HandshakeMsg (B : Type 0) : Type 0 where
  pub network_id : List ℕ
  pub genesis : B
  pub protocol_id : List ℕ
  pub total_weight : ℕ
  pub tip_numeric : ℕ

-- The codes of the messages whose payload is decoded, and the messages. `garbled` has a payload that
-- `Decode` refuses.
pub data Code : Type 0 where
  handshake_code block_hashes_request_code block_hashes_response_code : Code
  blocks_request_code blocks_response_code new_block_code : Code

pub data Message (B : Type 0) : Type 0 where
  handshake : HandshakeMsg B → Message B
  get_block_hashes_request : B → ℕ → Message B
  get_block_hashes_response : List B → Message B
  get_block_hashes_rewind : B → Message B
  get_blocks_request : List B → Message B
  get_blocks_response : List (BlockSpec B) → Message B
  new_block : BlockSpec B → Message B
  garbled : Code → Message B
  unknown : Message B

-- A string, as its bytes; it names a peer.
abbrev pub PeerId : Type 0
PeerId = List ℕ

-- `peerNode`, without its connection. What a peer is known to know are pointers to hashes, which the
-- code compares as pointers: each is a number here.
pub record Peer (B : Type 0) : Type 0 where
  pub known : PeerNode ℕ
  pub status : Option (HandshakeMsg B)
  pub get_block_hashes_chan : List Signal
  pub chan_closed : Bool
  pub last_hash : Option B
  pub node_id : List ℕ
  pub name : List ℕ

-- What the manager takes from its surroundings: the callbacks of the application, the signatures and
-- encodings of the trustee, the address of its key, whether `Send` to a peer succeeds, the keys that `Pop` picks, and the
-- bounds on the loops of the engine.
pub record Platform (H : Digests) (W : WorldStates H.Byte64) : Type 0 where
  pub tx_processor : W.Tables → Block H.Byte64 W.World → Transaction → Block H.Byte64 W.World × Bool
  pub pow_approver : H.Byte64 → ℕ → ℕ → Bool
  pub peer_validator : AppConfig → Bool
  pub codec : Codec
  pub address : List ℕ
  pub sends : PeerId → Bool
  pub picks : PeerId → Picks
  pub fuel : ℕ
  pub rounds : ℕ

-- `platformManager`. `producers` counts the block producers that run, `waiting` the sends
-- into `shutdownBlockProducer` that no producer has taken yet, and `sent` are the messages sent,
-- the first first; `refs` counts the pointers to hashes that a peer was marked with.
pub record Manager (H : Digests) (D : Database (Key H.Byte64) (Value H.Byte64))
    (W : WorldStates H.Byte64) : Type 0 where
  pub config : AppConfig
  pub genesis : H.Byte64
  pub engine : Engine H D W
  pub tx_q : List Transaction
  pub peer_db : PeerSetDb PeerId PeerId H.Byte64
  pub dead_txs : List H.Byte64
  pub peers : List (PeerId × AppConfig)
  pub peer_count : ℤ
  pub is_running : Bool
  pub producers : ℕ
  pub waiting : ℕ
  pub heap : PeerId → Peer H.Byte64
  pub sent : List (PeerId × Message H.Byte64)
  pub refs : ℕ

abbrev pub tx_queue_size : ℕ
tx_queue_size = 10

abbrev pub max_tx_count : ℕ
max_tx_count = 10

abbrev pub max_request : ℕ
max_request = 10

-- The room of `GetBlockHashesChan`.
abbrev pub chan_size : ℕ
chan_size = 2
