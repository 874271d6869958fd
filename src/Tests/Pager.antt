-- ===== src/Tests/Pager.antt =====
-- protocol/pager/manager.go at concrete inputs: a peer joins, and sends one message twice.
use go_trust_net.Prelude.{Bool, true, [], ◌∷◌, length, some, ◌≡◌, ◌≢◌, refl, ℕ_discrete}
use go_trust_net.Network.PeerNode.{Picks}
use go_trust_net.Common.Set
use go_trust_net.Core.Types.{bytes_to_byte16, copy_bytes}
use go_trust_net.Consensus.Blocks.{bytes_dec}
use go_trust_net.Db.PeerSet.{
  have_i_seen_it, register_peer_node, new_peer_set_db, peer_node_for_id,
  peer_nodes_with_msg_not_seen, drop_node, find_node, not_seen,
}
use go_trust_net.Network.PeerNode
use go_trust_net.Network.Platform
use go_trust_net.Protocol
use go_trust_net.Protocol.{NodeId, status_of}
use go_trust_net.Protocol.Pager.{
  BroadcastTextMsg, PagerManager, Outcome, done, panicked, broadcast_text, default_handshake,
  new_pager_manager, broadcast, relay, handle_broadcast_msg, listen_step, is_full, connect,
}
use go_trust_net.Protocol.Pager.Once.{
  Reachable, made, heard, joined, NoRepeat, shown_ids, Reachable-NoRepeat,
}

abbrev sends : NodeId → Bool
sends id = true

abbrev picks : NodeId → Picks
picks id = record { first = 0; second = 0; third = 0 }

abbrev hello : BroadcastTextMsg
hello = record { msg_id = 7 ∷ []; msg_text = 104 ∷ 105 ∷ [] }

abbrev one_peer : PagerManager
one_peer = (connect sends picks new_pager_manager (1 ∷ []) (status_of default_handshake)).0

abbrev told : PagerManager
told = (listen_step sends picks one_peer (some (broadcast_text hello)) (1 ∷ [])).0

abbrev told_twice : PagerManager
told_twice = (listen_step sends picks told (some (broadcast_text hello)) (1 ∷ [])).0

done-ne : (o : Outcome) → o ≡ done → o ≢ panicked
done-ne o e f = cc

told-done : (listen_step sends picks one_peer (some (broadcast_text hello)) (1 ∷ [])).1 ≡ done
unfolding listen_step handle_broadcast_msg broadcast relay is_full connect new_pager_manager
    Protocol.handshake Protocol.take_reply Protocol.admit Protocol.send Protocol.set_node
    Protocol.set_status Protocol.new_node Protocol.add_tx Protocol.has_tx have_i_seen_it
    register_peer_node new_peer_set_db peer_node_for_id peer_nodes_with_msg_not_seen drop_node
    find_node not_seen PeerNode.has_tx PeerNode.add_tx PeerNode.new_peer_node PeerNode.pop_three
    Set.add Set.add_one Set.has Set.size Set.new_set bytes_dec ℕ_discrete bytes_to_byte16 copy_bytes
    Platform.incr
told-done = refl

again-done : (listen_step sends picks told (some (broadcast_text hello)) (1 ∷ [])).1 ≡ done
unfolding listen_step handle_broadcast_msg broadcast relay is_full connect new_pager_manager
    Protocol.handshake Protocol.take_reply Protocol.admit Protocol.send Protocol.set_node
    Protocol.set_status Protocol.new_node Protocol.add_tx Protocol.has_tx have_i_seen_it
    register_peer_node new_peer_set_db peer_node_for_id peer_nodes_with_msg_not_seen drop_node
    find_node not_seen PeerNode.has_tx PeerNode.add_tx PeerNode.new_peer_node PeerNode.pop_three
    Set.add Set.add_one Set.has Set.size Set.new_set bytes_dec ℕ_discrete bytes_to_byte16 copy_bytes
    Platform.incr
again-done = refl

told_twice-Reachable : Reachable sends picks told_twice
told_twice-Reachable =
    heard (some (broadcast_text hello)) (1 ∷ [])
      (heard (some (broadcast_text hello)) (1 ∷ [])
        (joined (1 ∷ []) (status_of default_handshake) made) (done-ne _ told-done))
      (done-ne _ again-done)

Reachable-NoRepeat_example :
    (told_twice.base.db.my_history ≡ shown_ids told_twice) × NoRepeat (shown_ids told_twice)
Reachable-NoRepeat_example = Reachable-NoRepeat sends picks told_twice told_twice-Reachable

told_once : length told_twice.shown ≡ 1
unfolding listen_step handle_broadcast_msg broadcast relay is_full connect new_pager_manager
    Protocol.handshake Protocol.take_reply Protocol.admit Protocol.send Protocol.set_node
    Protocol.set_status Protocol.new_node Protocol.add_tx Protocol.has_tx have_i_seen_it
    register_peer_node new_peer_set_db peer_node_for_id peer_nodes_with_msg_not_seen drop_node
    find_node not_seen PeerNode.has_tx PeerNode.add_tx PeerNode.new_peer_node PeerNode.pop_three
    Set.add Set.add_one Set.has Set.size Set.new_set bytes_dec ℕ_discrete bytes_to_byte16 copy_bytes
    Platform.incr
told_once = refl
