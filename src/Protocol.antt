-- ===== src/Protocol.antt =====
-- protocol/manager.go and protocol/node.go: what the application protocols share. A node is an object
-- that the store of peers and the goroutines of its connection share: it stands in a heap under the id
-- of its peer. The connection is go-ethereum's p2p: `sends` says whether `Send` to a peer succeeds.
pub mod Pager
pub mod Counter
use go_trust_net.Prelude.{
  ℕ, Bool, true, false, List, [], ◌∷◌, ◌++◌, Option, none, some, ite, if◌then◌else◌,
}
use go_trust_net.Db.PeerSet.{
  PeerSetDb, new_peer_set_db, register_peer_node, un_register_peer_node_for_id,
}
use go_trust_net.Consensus.Blocks.{bytes_dec}
use go_trust_net.Network.PeerNode
use go_trust_net.Network.PeerNode.{PeerNode, Picks, new_peer_node}
use go_trust_net.Network.Platform.{ℤ, pos, incr, decr}

-- The codes of `NewProtocolError`, and the errors of a connection: `read_failed` of `ReadMsg` and
-- `Decode`, and `send_failed`.
pub data Error : Type 0 where
  handshake_failed max_peers_reached unknown_message_type not_implemented sync_failed : Error
  invalid_request invalid_response not_found bad_block read_failed send_failed : Error

-- The values of the channels of a node.
pub data Signal : Type 0 where
  chan_error chan_next chan_abort chan_retry chan_done : Signal

pub record HandshakeMsg (B : Type 0) : Type 0 where
  pub network_id : List ℕ
  pub shard_id : List ℕ
  pub total_weight : ℕ
  pub genesis : B
  pub tip_numeric : ℕ

abbrev pub NodeId : Type 0
NodeId = List ℕ

-- `Node`, without its connection. Nothing writes to `GetBlocksChan`.
pub record Node (B A : Type 0) : Type 0 where
  pub status : Option (HandshakeMsg B)
  pub known : PeerNode A
  pub get_block_hashes_chan : List Signal
  pub chan_closed : Bool
  pub last_hash : Option B

-- `ManagerBase`, with the nodes, and the messages sent, the first first.
pub record ManagerBase (B A M : Type 0) : Type 0 where
  pub db : PeerSetDb NodeId NodeId A
  pub peer_count : ℤ
  pub heap : NodeId → Node B A
  pub sent : List (NodeId × M)

-- What is read as the answer to a handshake: nothing in time or an error, a message of another code,
-- one whose payload is refused, or a status.
pub data Reply (B : Type 0) : Type 0 where
  unread other_code garbled : Reply B
  status_of : HandshakeMsg B → Reply B

module _ {B A : Type 0} (dec : Discrete A) where
  unfoldable pub new_node : Node B A
  new_node = record {
    status = none;
    known = new_peer_node dec;
    get_block_hashes_chan = [];
    chan_closed = false;
    last_hash = none;
  }

  unfoldable pub add_tx : Node B A → Picks → A → Node B A
  add_tx node p tx = record node { known = PeerNode.add_tx dec node.known p tx }

  unfoldable pub has_tx : Node B A → A → Bool
  has_tx node tx = PeerNode.has_tx dec node.known tx

  unfoldable pub add_block : Node B A → Picks → A → Node B A
  add_block node p block = record node { known = PeerNode.add_block dec node.known p block }

  unfoldable pub has_block : Node B A → A → Bool
  has_block node block = PeerNode.has_block dec node.known block

unfoldable pub set_status : {B A : Type 0} → Node B A → HandshakeMsg B → Node B A
set_status node status = record node { status = some status }

module _ {B A M : Type 0} where
  -- A write to the object of a peer.
  unfoldable pub set_node : ManagerBase B A M → NodeId → Node B A → ManagerBase B A M
  set_node mgr id n = record mgr { heap = λ i. ite (bytes_dec id i) n (mgr.heap i) }

  unfoldable pub decr_peer : ManagerBase B A M → ManagerBase B A M
  decr_peer mgr = record mgr { peer_count = decr mgr.peer_count }

  unfoldable pub unregister_peer : ManagerBase B A M → NodeId → ManagerBase B A M
  unfolding decr_peer
  unregister_peer mgr id =
      decr_peer (record mgr { db = un_register_peer_node_for_id bytes_dec mgr.db id })

  -- `AddPeer`.
  unfoldable pub add_peer : ManagerBase B A M → NodeId → ManagerBase B A M × Option Error
  add_peer mgr id = (mgr, some not_implemented)

  module _ (sends : NodeId → Bool) where
    -- `Send`: the manager, and whether there was no error.
    unfoldable pub send : ManagerBase B A M → NodeId → M → ManagerBase B A M × Bool
    send mgr id m =
        if sends id then (record mgr { sent = mgr.sent ++ (id, m) ∷ [] }, true) else (mgr, false)

    -- The end of `Handshake`, for a status that was read.
    unfoldable pub admit :
        Discrete B
        → ManagerBase B A M
        → HandshakeMsg B
        → NodeId
        → HandshakeMsg B
        → ManagerBase B A M × Option Error
    unfolding set_node set_status
    admit dec mgr status id handshake =
        ite (bytes_dec handshake.network_id status.network_id)
          (ite (bytes_dec handshake.shard_id status.shard_id)
            (ite (dec handshake.genesis status.genesis)
              (
                set_node
                    (record mgr {
                      db = register_peer_node bytes_dec mgr.db id id;
                      peer_count = incr mgr.peer_count;
                    })
                    id (set_status (mgr.heap id) handshake),
                none,
              )
              (mgr, some handshake_failed))
            (mgr, some handshake_failed))
          (mgr, some handshake_failed)

    -- What follows the read of the answer.
    unfoldable pub take_reply :
        Discrete B
        → ManagerBase B A M
        → HandshakeMsg B
        → NodeId
        → Reply B
        → ManagerBase B A M × Option Error
    unfolding admit
    take_reply dec mgr status id (status_of msg) = admit dec mgr status id msg
    take_reply dec mgr status id _ = (mgr, some handshake_failed)

    -- `Handshake`, where `wrap` makes a message of a status.
    unfoldable pub handshake :
        Discrete B
        → (HandshakeMsg B → M)
        → ManagerBase B A M
        → HandshakeMsg B
        → NodeId
        → Reply B
        → ManagerBase B A M × Option Error
    unfolding send take_reply
    handshake dec wrap mgr status id reply =
        let (mgr', delivered) = send mgr id (wrap status) in
        if delivered then take_reply dec mgr' status id reply else (mgr', some handshake_failed)
