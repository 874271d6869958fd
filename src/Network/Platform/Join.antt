-- ===== src/Network/Platform/Join.antt =====
-- network/platform.go: who is let into the set of peers, and who is synced with.
use go_trust_net.Prelude.{
  true, ◌∷◌, Option, some, ◌≡◌, ◌≢◌, refl, ap, ◌∙◌, inl, inr, ◌⊎◌, ◌↔◌, Bool-cases, arith,
}
use go_trust_net.Core.Digest.{Digests}
use go_trust_net.Db.{Database}
use go_trust_net.Db.PeerSet.{peer_node_for_id, drop_node}
use go_trust_net.Consensus.{WorldStates, Block, Key, Value}
use go_trust_net.Consensus.Blocks.{bytes_dec}
use go_trust_net.Consensus.Insert.Choice.{Beats}
use go_trust_net.Network.Platform.{
  incr, Error, Outcome, done, failed, AppConfig, HandshakeMsg, Message, handshake, PeerId, Platform,
  Manager,
}
use go_trust_net.Network.Platform.Handlers.{set_last_hash}
use go_trust_net.Network.Platform.Sync.{Stage, requesting, finished, needs_sync, begin_sync}
use go_trust_net.Network.Platform.Peers.{
  send, register_peer, get_handshake_msg, perform_handshake, is_sync_needed,
}

module _ (H : Digests) (D : Database (Key H.Byte64) (Value H.Byte64))
    (W : WorldStates H.Byte64) where
  open H use {Byte64, dec}
  open W use {World}

  abbrev State : Type 0
  State = Manager H D W

  -- The configuration of a peer, as its handshake and its connection have it.
  abbrev pub config_of : State → PeerId → HandshakeMsg Byte64 → AppConfig
  config_of mgr id msg = record {
    network_id = msg.network_id;
    node_id = 4 ∷ (mgr.heap id).node_id;
    node_name = (mgr.heap id).name;
    protocol_id = msg.protocol_id;
  }

  module _ (P : Platform H W) where
    -- The status that a peer has to answer with to be let in.
    abbrev pub Welcome : State → PeerId → HandshakeMsg Byte64 → Type 0
    Welcome mgr id msg =
        (msg.network_id ≡ mgr.config.network_id)
        × (msg.genesis ≡ mgr.genesis)
        × (P.peer_validator (config_of mgr id msg) ≡ true)

    -- `validateAndAdd` registers a peer that is welcome, and no other.
    abbrev pub Admission : State → PeerId → HandshakeMsg Byte64 → State × Outcome → Type 0
    Admission mgr id msg r =
        (Welcome mgr id msg × (r ≡ (register_peer H D W P mgr id msg (config_of mgr id msg), done)))
        ⊎ ((¬ Welcome mgr id msg) × ((x : Error) × (r ≡ (mgr, failed x))))

    -- What registering a peer has done: the set of peers finds its node under its id, and under any other
    -- id what it found; its status is the one that was sent; its configuration is listed, in the place of
    -- an earlier one, and it is counted. Nothing else has changed.
    pub record Registered (mgr : State) (id : PeerId) (msg : HandshakeMsg Byte64) (mgr' : State)
        : Type 0 where
      pub found : peer_node_for_id bytes_dec mgr'.peer_db id ≡ some id
      pub found_other :
          (j : PeerId)
          → id ≢ j
          → peer_node_for_id bytes_dec mgr'.peer_db j ≡ peer_node_for_id bytes_dec mgr.peer_db j
      pub history : mgr'.peer_db.my_history ≡ mgr.peer_db.my_history
      pub status : mgr'.heap id ≡ record (mgr.heap id) { status = some msg }
      pub status_other : (j : PeerId) → id ≢ j → mgr'.heap j ≡ mgr.heap j
      pub listed : mgr'.peers ≡ (id, config_of mgr id msg) ∷ drop_node bytes_dec mgr.peers id
      pub counted : mgr'.peer_count ≡ incr mgr.peer_count
      pub kept :
          (mgr'.engine ≡ mgr.engine)
          × (mgr'.sent ≡ mgr.sent)
          × (mgr'.tx_q ≡ mgr.tx_q)
          × (mgr'.is_running ≡ mgr.is_running)
          × (mgr'.producers ≡ mgr.producers)
          × (mgr'.refs ≡ mgr.refs)
          × (mgr'.dead_txs ≡ mgr.dead_txs)

    -- The own status could be sent, and the peer has answered with a status that is welcome.
    abbrev pub Answer : State → PeerId → Option (Message Byte64) → HandshakeMsg Byte64 → Type 0
    Answer mgr id reply msg =
        (P.sends id ≡ true) × (reply ≡ some (handshake msg)) × Welcome mgr id msg

    abbrev pub Greeting : State → HandshakeMsg Byte64 → PeerId → Option (Message Byte64) → Type 0
    Greeting mgr status id reply =
        let sent = (send H D W P mgr id (handshake status)).0 in
        let r = perform_handshake H D W P mgr status id reply in
        ((msg : HandshakeMsg Byte64) × Answer mgr id reply msg
          × (r.1 ≡ done)
          × Registered sent id msg r.0)
        ⊎ ((¬ ((msg : HandshakeMsg Byte64) × Answer mgr id reply msg))
            × ((x : Error) × (r ≡ (sent, failed x))))

  sync_needed-Beats :
      (P : Platform H W) (theirs : State) (best their_best : Block Byte64 World)
      → (is_sync_needed H D W best (get_handshake_msg H D W P theirs their_best) ≡ true)
        ↔ Beats H D W their_best best
  unfolding is_sync_needed get_handshake_msg
  sync_needed-Beats P theirs best their_best = ground arith

  -- Where a sync with a peer begins: at the request to the peer if the peer's block beats the own one,
  -- and at its end, without a request, if not.
  abbrev pub Choice :
      (P : Platform H W)
      → State
      → PeerId
      → Block Byte64 World
      → Block Byte64 World
      → State × Stage
      → Type 0
  Choice P mgr from best their_best r =
      (r.0 ≡ set_last_hash H D W P mgr from best.hash)
      × ((Beats H D W their_best best × (r.1 ≡ requesting))
          ⊎ ((¬ Beats H D W their_best best) × (r.1 ≡ finished done)))

  needs_sync-status :
      (P : Platform H W) (mgr : State) (best : Block Byte64 World) (from : PeerId)
      (msg : HandshakeMsg Byte64)
      → (mgr.heap from).status ≡ some msg
      → needs_sync H D W P mgr best from ≡ some (is_sync_needed H D W best msg)
  unfolding needs_sync
  needs_sync-status P mgr best from msg known = rw (needs_sync, known) refl

  -- With a peer that has sent the status of its best block, a sync makes a request exactly if that block
  -- beats the own best block: it has more weight, or the same weight and the lower number. If not, the
  -- sync ends at once without an error. In both cases the hash of the own best block is noted for the
  -- peer, and nothing else is changed.
  pub begin_sync-Choice :
      (P : Platform H W) (mgr theirs : State) (best their_best : Block Byte64 World) (from : PeerId)
      → (mgr.heap from).status ≡ some (get_handshake_msg H D W P theirs their_best)
      → Choice P mgr from best their_best (begin_sync H D W P mgr best from)
  unfolding begin_sync
  begin_sync-Choice P mgr theirs best their_best from known =
      let msg = get_handshake_msg H D W P theirs their_best in
      let beats = sync_needed-Beats P theirs best their_best in
      let asked = needs_sync-status P mgr best from msg known in
      elim (Bool-cases (is_sync_needed H D W best msg)) [
        | inl e ↦ rw (begin_sync, asked ∙ ap some e) (refl, inl (beats.0 e, refl))
        | inr e ↦
            rw (begin_sync, asked ∙ ap some e) (refl, inr (λ b. ground (arith, beats.1 b, e), refl))
      ]
