-- ===== src/Protocol/Pager.antt =====
-- protocol/pager/manager.go and protocol/pager/messages.go: a protocol that passes text messages on to
-- all peers. A message id is a value here, so that two messages with one id are one to the sets.
pub mod Once
use go_trust_net.Prelude.{
  ℕ, ◌+◌, Bool, true, false, leb, List, [], ◌∷◌, ◌++◌, Option, none, some, ite, if◌then◌else◌,
  replicate,
}
use go_trust_net.Core.Types.{bytes_to_byte16}
use go_trust_net.Db.PeerSet.{
  PeerSetDb, new_peer_set_db, peer_node_for_id, peer_nodes_with_msg_not_seen, have_i_seen_it,
}
use go_trust_net.Consensus.Blocks.{bytes_dec}
use go_trust_net.Network.PeerNode.{Picks}
use go_trust_net.Network.Platform.{ℤ, pos, negsuc}
use go_trust_net.Protocol
use go_trust_net.Protocol.{
  Error, max_peers_reached, read_failed, unknown_message_type, HandshakeMsg, NodeId, Node,
  ManagerBase, Reply, new_node, add_tx, has_tx, set_node, unregister_peer, send,
}

pub record BroadcastTextMsg : Type 0 where
  pub msg_id : List ℕ
  pub msg_text : List ℕ

-- What is sent, and what is read: a message may have a payload that `Decode` refuses, or another code.
pub data Message : Type 0 where
  handshake_status : HandshakeMsg (List ℕ) → Message
  broadcast_text : BroadcastTextMsg → Message
  garbled_text other : Message

abbrev pub max_peers : ℕ
max_peers = 10

-- `defaultHandshake`: its genesis is 64 zero bytes.
abbrev pub default_handshake : HandshakeMsg (List ℕ)
default_handshake = record {
  network_id = bytes_to_byte16 (1 ∷ 2 ∷ 3 ∷ 4 ∷ []);
  shard_id = bytes_to_byte16 [];
  total_weight = 0;
  genesis = replicate 64 0;
  tip_numeric = 0;
}

-- `PagerProtocolManager`; `shown` are the messages that the callback was called with, the last first.
pub record PagerManager : Type 0 where
  pub base : ManagerBase (List ℕ) (List ℕ) Message
  pub shown : List (NodeId × BroadcastTextMsg)

-- How a call ends; a peer that the store does not find is a nil dereference.
pub data Outcome : Type 0 where
  done panicked : Outcome
  failed : Error → Outcome

unfoldable pub new_pager_manager : PagerManager
new_pager_manager = record {
  base = record {
    db = new_peer_set_db;
    peer_count = pos 0;
    heap = λ id. new_node bytes_dec;
    sent = [];
  };
  shown = [];
}

module _ (sends : NodeId → Bool) (picks : NodeId → Picks) where
  -- The loop of `Broadcast`, with its count; the error of `p2p.Send` is dropped.
  unfoldable pub relay : PagerManager → List NodeId → BroadcastTextMsg → PagerManager × ℕ
  unfolding set_node add_tx send
  relay mgr [] msg = (mgr, 0)
  relay mgr (id ∷ ids) msg =
      let base = mgr.base in
      let base₁ = set_node base id (add_tx bytes_dec (base.heap id) (picks id) msg.msg_id) in
      let base₂ = (send sends base₁ id (broadcast_text msg)).0 in
      let (mgr', n) = relay (record mgr { base = base₂ }) ids msg in (mgr', n + 1)

  unfoldable pub broadcast : PagerManager → BroadcastTextMsg → PagerManager × ℕ
  unfolding relay has_tx
  broadcast mgr msg =
      relay mgr
        (peer_nodes_with_msg_not_seen mgr.base.db
          (λ id. has_tx bytes_dec (mgr.base.heap id) msg.msg_id))
        msg

  -- `handleBroadcastMsg` of a decoded message.
  unfoldable pub handle_broadcast_msg :
      PagerManager → BroadcastTextMsg → NodeId → PagerManager × Outcome
  unfolding broadcast set_node add_tx
  handle_broadcast_msg mgr msg from =
      let (db, seen) = have_i_seen_it bytes_dec mgr.base.db msg.msg_id in
      let base = record (mgr.base) { db = db } in
      if seen
      then (record mgr { base = base }, done)
      else elim (peer_node_for_id bytes_dec db from) [
        | none ↦ (record mgr { base = base }, panicked)
        | some id ↦ (
          (broadcast
              (record {
                base = set_node base id (add_tx bytes_dec (base.heap id) (picks id) msg.msg_id);
                shown = (from, msg) ∷ mgr.shown;
              })
              msg).0,
          done,
        )
      ]

  -- One round of the loop of `Run`; `none` is an error of `ReadMsg`.
  unfoldable pub listen_step : PagerManager → Option Message → NodeId → PagerManager × Outcome
  unfolding handle_broadcast_msg
  listen_step mgr none from = (mgr, failed read_failed)
  listen_step mgr (some (broadcast_text msg)) from = handle_broadcast_msg mgr msg from
  listen_step mgr (some garbled_text) from = (mgr, failed read_failed)
  listen_step mgr (some (handshake_status _)) from = (mgr, failed unknown_message_type)
  listen_step mgr (some other) from = (mgr, failed unknown_message_type)

  -- Whether `PeerCount() >= maxPeers`.
  unfoldable pub is_full : ℤ → Bool
  is_full (pos n) = leb max_peers n
  is_full (negsuc n) = false

  -- The start of `Run`: the new node, the test of the number of peers, and the handshake.
  unfoldable pub connect : PagerManager → NodeId → Reply (List ℕ) → PagerManager × Option Error
  unfolding is_full set_node
  connect mgr id reply =
      if is_full mgr.base.peer_count
      then (mgr, some max_peers_reached)
      else (let (base, failure) =
            Protocol.handshake sends bytes_dec handshake_status
              (set_node mgr.base id (new_node bytes_dec)) default_handshake id reply in
          (record mgr { base = base }, failure))

  -- The end of `Run`, once the handshake had succeeded.
  unfoldable pub leave : PagerManager → NodeId → PagerManager
  unfolding unregister_peer
  leave mgr id = record mgr { base = unregister_peer mgr.base id }
