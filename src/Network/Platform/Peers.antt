-- ===== src/Network/Platform/Peers.antt =====
-- network/platform.go: the handshake, the set of peers, and the messages to peers.
use go_trust_net.Prelude.{
  ℕ_discrete, ℕ, ◌+◌, ltb, ◌==◌, ◌||◌, ◌&&◌, Bool, true, false, List, [], ◌∷◌, ◌++◌, Option, none,
  some, ite, if◌then◌else◌, length,
}
use go_trust_net.Core.Digest.{Digests}
use go_trust_net.Db.{Database}
use go_trust_net.Db.PeerSet.{
  peer_node_for_id, register_peer_node, un_register_peer_node_for_id, peer_nodes_with_msg_not_seen,
  drop_node,
}
use go_trust_net.Consensus.{WorldStates, Block, Key, Value}
use go_trust_net.Consensus.Blocks.{bytes_dec, numeric, wire_spec}
use go_trust_net.Network.PeerNode.{add_tx, has_tx}
use go_trust_net.Network.Platform.{
  handshake_failed, peer_invalid, not_found, Outcome, done, blocked, failed, incr, decr, Signal,
  AppConfig, HandshakeMsg, Message, handshake, new_block, PeerId, Peer, Platform, Manager,
  chan_size,
}

module _ (H : Digests) (D : Database (Key H.Byte64) (Value H.Byte64))
    (W : WorldStates H.Byte64) where
  open H use {Byte64, dec}
  open W use {World}

  -- A write to the object of a peer.
  unfoldable pub set_peer : Manager H D W → PeerId → Peer Byte64 → Manager H D W
  set_peer mgr id p = record mgr { heap = λ i. ite (bytes_dec id i) p (mgr.heap i) }

  -- `from.GetBlockHashesChan <- s`: a call that finds the channel full waits.
  unfoldable pub signal : Manager H D W → PeerId → Signal → Manager H D W × Outcome
  unfolding set_peer
  signal mgr id s =
      let p = mgr.heap id in
      if ltb (length p.get_block_hashes_chan) chan_size
      then (
        set_peer mgr id (record p { get_block_hashes_chan = p.get_block_hashes_chan ++ s ∷ [] }),
        done,
      )
      else (mgr, blocked)

  module _ (P : Platform H W) where
    -- `Send`: the manager, and whether there was no error.
    unfoldable pub send : Manager H D W → PeerId → Message Byte64 → Manager H D W × Bool
    send mgr id m =
        if P.sends id then (record mgr { sent = mgr.sent ++ (id, m) ∷ [] }, true) else (mgr, false)

    -- `peer.AddTx` of a pointer to a hash.
    unfoldable pub mark_seen : Manager H D W → PeerId → ℕ → Manager H D W
    unfolding set_peer
    mark_seen mgr id r =
        let p = mgr.heap id in
        set_peer mgr id (record p { known = add_tx ℕ_discrete p.known (P.picks id) r })

    -- The loop of `broadcast`, with its count.
    unfoldable pub relay : Manager H D W → List PeerId → ℕ → Message Byte64 → Manager H D W × ℕ
    unfolding mark_seen send
    relay mgr [] r m = (mgr, 0)
    relay mgr (id ∷ ids) r m =
        let (mgr', n) = relay (send (mark_seen mgr id r) id m).0 ids r m in (mgr', n + 1)

    -- `broadcast` of a block whose `Hash` is the given pointer.
    unfoldable pub broadcast : Manager H D W → Block Byte64 World → ℕ → Manager H D W × ℕ
    unfolding relay
    broadcast mgr b r =
        relay mgr
          (peer_nodes_with_msg_not_seen mgr.peer_db (λ id. has_tx ℕ_discrete (mgr.heap id).known r))
          r (new_block (wire_spec H W b))

    unfoldable pub register_peer :
        Manager H D W → PeerId → HandshakeMsg Byte64 → AppConfig → Manager H D W
    unfolding set_peer
    register_peer mgr id msg conf =
        set_peer
          (record mgr {
            peer_db = register_peer_node bytes_dec mgr.peer_db id id;
            peer_count = incr mgr.peer_count;
            peers = (id, conf) ∷ drop_node bytes_dec mgr.peers id;
          })
          id (record (mgr.heap id) { status = some msg })

    unfoldable pub unregister_peer : Manager H D W → PeerId → Manager H D W
    unregister_peer mgr id = record mgr {
      peer_db = un_register_peer_node_for_id bytes_dec mgr.peer_db id;
      peer_count = decr mgr.peer_count;
      peers = drop_node bytes_dec mgr.peers id;
    }

    -- The end of a connection whose handshake had succeeded: the set of peers, and `close` of the
    -- channels.
    unfoldable pub end_connection : Manager H D W → PeerId → Manager H D W
    unfolding unregister_peer set_peer
    end_connection mgr id =
        set_peer (unregister_peer mgr id) id (record (mgr.heap id) { chan_closed = true })

    -- `Disconnect`, by the hex string of the node's id, up to the call of the connection's own.
    unfoldable pub disconnect : Manager H D W → PeerId → Manager H D W × Outcome
    disconnect mgr id = elim (peer_node_for_id bytes_dec mgr.peer_db id) [
      | none ↦ (mgr, failed not_found)
      | some _ ↦
          (record mgr { peer_db = un_register_peer_node_for_id bytes_dec mgr.peer_db id }, done)
    ]

    -- `validateAndAdd`.
    unfoldable pub validate_and_add :
        Manager H D W → HandshakeMsg Byte64 → PeerId → Manager H D W × Outcome
    unfolding register_peer
    validate_and_add mgr msg id =
        let conf : AppConfig = record {
          network_id = msg.network_id;
          node_id = 4 ∷ (mgr.heap id).node_id;
          node_name = (mgr.heap id).name;
          protocol_id = msg.protocol_id;
        } in
        ite (bytes_dec msg.network_id mgr.config.network_id)
          (ite (dec msg.genesis mgr.genesis)
            (if P.peer_validator conf
              then (register_peer mgr id msg conf, done)
              else (mgr, failed peer_invalid))
            (mgr, failed handshake_failed))
          (mgr, failed handshake_failed)

    -- `getHandshakeMsg`; the weight is a field of the best block.
    unfoldable pub get_handshake_msg : Manager H D W → Block Byte64 World → HandshakeMsg Byte64
    get_handshake_msg mgr best = record {
      network_id = mgr.config.network_id;
      genesis = mgr.genesis;
      protocol_id = mgr.config.protocol_id;
      total_weight = best.spec.wt;
      tip_numeric = numeric H W best;
    }

    -- The status in the message that was read, `none` for an error or a timeout: the message has to be
    -- a handshake whose payload can be decoded.
    unfoldable pub read_handshake : Option (Message Byte64) → Option (HandshakeMsg Byte64)
    read_handshake none = none
    read_handshake (some (handshake msg)) = some msg
    read_handshake (some _) = none

    -- `handshake`.
    unfoldable pub perform_handshake :
        Manager H D W
        → HandshakeMsg Byte64
        → PeerId
        → Option (Message Byte64)
        → Manager H D W × Outcome
    unfolding send validate_and_add read_handshake
    perform_handshake mgr status id reply =
        let (mgr₁, delivered) = send mgr id (handshake status) in
        if delivered
        then elim (read_handshake reply) [
          | some msg ↦ validate_and_add mgr₁ msg id
          | none ↦ (mgr₁, failed handshake_failed)
        ]
        else (mgr₁, failed handshake_failed)

  -- `isSyncNeeded`, of the status of a peer.
  unfoldable pub is_sync_needed : Block Byte64 World → HandshakeMsg Byte64 → Bool
  is_sync_needed best status =
      ltb best.spec.wt status.total_weight
      || (status.total_weight == best.spec.wt && ltb status.tip_numeric (numeric H W best))
