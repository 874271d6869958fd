-- ===== src/Protocol/Pager/Once.antt =====
-- protocol/pager/manager.go: over any run of the protocol a message is shown once.
use go_trust_net.Prelude.{
  ℕ, Bool, false, List, [], ◌∷◌, map, Option, none, some, ite-cases, ◌++◌, ◌≡◌, ◌≢◌, refl, sym, ap,
  subst, ◌∙◌, arith, inl, inr, Bool-cases, Option-cases,
}
use go_trust_net.Common.Set.{has}
use go_trust_net.Db.PeerSet.{
  new_peer_set_db, un_register_peer_node_for_id, register_peer_node, have_i_seen_it,
  peer_node_for_id, peer_nodes_with_msg_not_seen,
}
use go_trust_net.Consensus.Blocks.{bytes_dec}
use go_trust_net.Network.PeerNode.{Picks}
use go_trust_net.Protocol
use go_trust_net.Protocol.{
  Error, NodeId, Reply, ManagerBase, new_node, add_tx, has_tx, set_node, send, unregister_peer,
  decr_peer, admit, take_reply, status_of, HandshakeMsg,
}
use go_trust_net.Protocol.Pager.{
  BroadcastTextMsg, Message, broadcast_text, handshake_status, garbled_text, other, PagerManager,
  panicked, new_pager_manager, relay, broadcast, handle_broadcast_msg, listen_step, is_full,
  connect, leave, default_handshake,
}

-- No item twice.
abbrev pub NoRepeat : List (List ℕ) → Type 0
NoRepeat [] = Unit {0}
NoRepeat (x ∷ xs) = (has bytes_dec xs x ≡ false) × NoRepeat xs

-- The ids of the messages that were shown.
abbrev pub shown_ids : PagerManager → List (List ℕ)
shown_ids mgr = map (λ (p : NodeId × BroadcastTextMsg). p.1.msg_id) mgr.shown

module _ (sends : NodeId → Bool) (picks : NodeId → Picks) where
  -- The runs of the manager: its user sends a message, a peer's message is read, a peer connects, and a
  -- connection ends.
  pub data Reachable : PagerManager → Type 0 where
    made : Reachable new_pager_manager
    said :
        {mgr : PagerManager} (msg : BroadcastTextMsg)
        → Reachable mgr
        → Reachable (broadcast sends picks mgr msg).0
    heard :
        {mgr : PagerManager} (m : Option Message) (from : NodeId)
        → Reachable mgr
        → (listen_step sends picks mgr m from).1 ≢ panicked
        → Reachable (listen_step sends picks mgr m from).0
    joined :
        {mgr : PagerManager} (id : NodeId) (reply : Reply (List ℕ))
        → Reachable mgr
        → Reachable (connect sends picks mgr id reply).0
    left : {mgr : PagerManager} (id : NodeId) → Reachable mgr → Reachable (leave sends picks mgr id)

  -- What a call leaves as it is.
  abbrev Keeps : PagerManager → PagerManager → Type 0
  Keeps mgr mgr' = (mgr'.shown ≡ mgr.shown) × (mgr'.base.db.my_history ≡ mgr.base.db.my_history)

  relay-Keeps :
      (ids : List NodeId) (mgr : PagerManager) (msg : BroadcastTextMsg)
      → Keeps mgr (relay sends picks mgr ids msg).0
  unfolding relay send set_node
  relay-Keeps [] mgr msg = (refl, refl)
  relay-Keeps (id ∷ ids) mgr msg =
      let base = mgr.base in
      let marked = set_node base id (add_tx bytes_dec (base.heap id) (picks id) msg.msg_id) in
      elim (Bool-cases (sends id)) [
        | inl e ↦
            let base' = record marked { sent = marked.sent ++ (id, broadcast_text msg) ∷ [] } in
            rw (relay, send, e) (relay-Keeps ids (record mgr { base = base' }) msg)
        | inr e ↦ rw (relay, send, e) (relay-Keeps ids (record mgr { base = marked }) msg)
      ]

  broadcast-Keeps :
      (mgr : PagerManager) (msg : BroadcastTextMsg) → Keeps mgr (broadcast sends picks mgr msg).0
  unfolding broadcast
  broadcast-Keeps mgr msg =
      relay-Keeps
        (peer_nodes_with_msg_not_seen mgr.base.db
          (λ id. has_tx bytes_dec (mgr.base.heap id) msg.msg_id))
        mgr msg

  abbrev Base : Type 0
  Base = ManagerBase (List ℕ) (List ℕ) Message

  abbrev Remembers : Base → Base × Option Error → Type 0
  Remembers mgr (mgr', x) = mgr'.db.my_history ≡ mgr.db.my_history

  admit-Remembers :
      (mgr : Base) (s h : HandshakeMsg (List ℕ)) (id : NodeId)
      → Remembers mgr (admit sends bytes_dec mgr s id h)
  unfolding admit set_node register_peer_node
  admit-Remembers mgr s h id =
      ite-cases (Remembers mgr) (bytes_dec h.network_id s.network_id) _ _
        (λ e.
          ite-cases (Remembers mgr) (bytes_dec h.shard_id s.shard_id) _ _
            (λ f.
              ite-cases (Remembers mgr) (bytes_dec h.genesis s.genesis) _ _ (λ g. refl) (λ g. refl))
            (λ f. refl))
        (λ e. refl)

  take_reply-Remembers :
      (mgr : Base) (s : HandshakeMsg (List ℕ)) (id : NodeId) (reply : Reply (List ℕ))
      → Remembers mgr (take_reply sends bytes_dec mgr s id reply)
  unfolding take_reply
  take_reply-Remembers mgr s id (status_of h) = admit-Remembers mgr s h id
  take_reply-Remembers mgr s id Protocol.unread = refl
  take_reply-Remembers mgr s id Protocol.other_code = refl
  take_reply-Remembers mgr s id Protocol.garbled = refl

  handshake-Remembers :
      (mgr : Base) (s : HandshakeMsg (List ℕ)) (id : NodeId) (reply : Reply (List ℕ))
      → Remembers mgr (Protocol.handshake sends bytes_dec handshake_status mgr s id reply)
  unfolding Protocol.handshake send
  handshake-Remembers mgr s id reply = elim (Bool-cases (sends id)) [
    | inr e ↦ rw (Protocol.handshake, send, e) refl
    | inl e ↦
        rw (Protocol.handshake, send, e)
          (take_reply-Remembers (record mgr { sent = mgr.sent ++ (id, handshake_status s) ∷ [] }) s
            id reply)
  ]

  connect-Keeps :
      (mgr : PagerManager) (id : NodeId) (reply : Reply (List ℕ))
      → Keeps mgr (connect sends picks mgr id reply).0
  unfolding connect set_node
  connect-Keeps mgr id reply = elim (Bool-cases (is_full sends picks mgr.base.peer_count)) [
    | inl e ↦ rw (connect, e) (refl, refl)
    | inr e ↦
        rw (connect, e)
          (
            refl,
            handshake-Remembers (set_node mgr.base id (new_node bytes_dec)) default_handshake id
                reply,
          )
  ]

  leave-Keeps : (mgr : PagerManager) (id : NodeId) → Keeps mgr (leave sends picks mgr id)
  unfolding leave unregister_peer decr_peer un_register_peer_node_for_id
  leave-Keeps mgr id = (refl, refl)

  -- The message is shown exactly if it is new.
  abbrev IsKept : PagerManager → Type 0
  IsKept mgr = (mgr.base.db.my_history ≡ shown_ids mgr) × NoRepeat (shown_ids mgr)

  Keeps-IsKept : (mgr mgr' : PagerManager) → Keeps mgr mgr' → IsKept mgr → IsKept mgr'
  Keeps-IsKept mgr mgr' (e, f) (h, n) =
      let same : shown_ids mgr' ≡ shown_ids mgr =
        ap (map (λ (p : NodeId × BroadcastTextMsg). p.1.msg_id)) e in
      (f ∙ h ∙ sym same, subst NoRepeat (sym same) n)

  handle_broadcast_msg-IsKept :
      (mgr : PagerManager) (msg : BroadcastTextMsg) (from : NodeId)
      → (handle_broadcast_msg sends picks mgr msg from).1 ≢ panicked
      → IsKept mgr
      → IsKept (handle_broadcast_msg sends picks mgr msg from).0
  unfolding handle_broadcast_msg have_i_seen_it set_node
  handle_broadcast_msg-IsKept mgr msg from ne (h, n) =
      elim (Bool-cases (has bytes_dec mgr.base.db.my_history msg.msg_id)) [
        | inl e ↦ rw (handle_broadcast_msg, have_i_seen_it, e) (h, n)
        | inr e ↦
            let db = record (mgr.base.db) { my_history = msg.msg_id ∷ mgr.base.db.my_history } in
            let new : has bytes_dec (shown_ids mgr) msg.msg_id ≡ false =
              subst (λ ids. has bytes_dec ids msg.msg_id ≡ false) h e in
            elim (Option-cases (peer_node_for_id bytes_dec db from)) [
              | inl f ↦ absurd (ne (ground (arith, e, f)))
              | inr (id, f) ↦
                  let base = record (mgr.base) { db = db } in
                  let mgr' : PagerManager = record {
                    base = set_node base id (add_tx bytes_dec (base.heap id) (picks id) msg.msg_id);
                    shown = (from, msg) ∷ mgr.shown;
                  } in
                  let same : (handle_broadcast_msg sends picks mgr msg from).0
                      ≡ (broadcast sends picks mgr' msg).0 =
                    ground (arith, e, f) in
                  subst IsKept (sym same) (
                    Keeps-IsKept mgr' (broadcast sends picks mgr' msg).0 (broadcast-Keeps mgr' msg)
                      (ap (λ ids. msg.msg_id ∷ ids) h, (new, n)))
            ]
      ]

  listen_step-IsKept :
      (mgr : PagerManager) (m : Option Message) (from : NodeId)
      → (listen_step sends picks mgr m from).1 ≢ panicked
      → IsKept mgr
      → IsKept (listen_step sends picks mgr m from).0
  unfolding listen_step
  listen_step-IsKept mgr none from ne h = h
  listen_step-IsKept mgr (some (broadcast_text msg)) from ne h =
      handle_broadcast_msg-IsKept mgr msg from ne h
  listen_step-IsKept mgr (some garbled_text) from ne h = h
  listen_step-IsKept mgr (some (handshake_status _)) from ne h = h
  listen_step-IsKept mgr (some other) from ne h = h

  -- In any run the ids that the manager remembers to have seen are those of the messages that it has
  -- shown, in the same order, and no two are the same: each message is shown once, whichever peers send
  -- it however often. (A run in which a message of a peer that is not registered is read has ended.)
  pub Reachable-NoRepeat :
      (mgr : PagerManager)
      → Reachable mgr
      → (mgr.base.db.my_history ≡ shown_ids mgr) × NoRepeat (shown_ids mgr)
  unfolding new_pager_manager new_peer_set_db
  Reachable-NoRepeat _ made = (refl, tt)
  Reachable-NoRepeat _ (said {mgr} msg r) =
      Keeps-IsKept mgr (broadcast sends picks mgr msg).0 (broadcast-Keeps mgr msg)
        (Reachable-NoRepeat mgr r)
  Reachable-NoRepeat _ (heard {mgr} m from r ne) =
      listen_step-IsKept mgr m from ne (Reachable-NoRepeat mgr r)
  Reachable-NoRepeat _ (joined {mgr} id reply r) =
      Keeps-IsKept mgr (connect sends picks mgr id reply).0 (connect-Keeps mgr id reply)
        (Reachable-NoRepeat mgr r)
  Reachable-NoRepeat _ (left {mgr} id r) =
      Keeps-IsKept mgr (leave sends picks mgr id) (leave-Keeps mgr id) (Reachable-NoRepeat mgr r)
