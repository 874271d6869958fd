-- ===== src/Network/Platform/Invariant.antt =====
-- network/platform.go: what holds in every state that the goroutines of a platform manager get to.
use go_trust_net.Prelude.{
  ℕ, ◌≤◌, ◌==◌, true, false, ◌∷◌, length, Option, some, refl, subst, inl, inr, Option-cases,
  List-cases, Bool-cases, arith, ite-cases,
}
use go_trust_net.Core.Digest.{Digests}
use go_trust_net.Db.{Database}
use go_trust_net.Db.PeerSet.{peer_node_for_id, register_peer_node, drop_node}
use go_trust_net.Consensus.{WorldStates, Block, Key, Value, Engine}
use go_trust_net.Consensus.Blocks.{bytes_dec, has_hash}
use go_trust_net.Network.Platform.{
  incr, Outcome, AppConfig, HandshakeMsg, Message, handshake, PeerId, Platform, Manager,
  tx_queue_size,
}
use go_trust_net.Network.Platform.Lifecycle.{new_peer, tx_status}
use go_trust_net.Network.Platform.Peers.{
  read_handshake, register_peer, validate_and_add, perform_handshake, end_connection,
  unregister_peer, disconnect, send,
}
use go_trust_net.Network.Platform.Sync.{begin_sync, needs_sync}
use go_trust_net.Network.Platform.Producer.{Candidate, on_tx}
use go_trust_net.Network.Platform.Reach.{
  Running, begin, after, produce, Step, start_step, suspend_step, stop_step, status_step,
  submit_step, disconnect_step, connect_step, handshake_step, end_step, listen_step,
  begin_sync_step, sync_step_step, on_tx_step, on_timer_step, Reachable, made, step,
}
use go_trust_net.Network.Platform.Quiet.{Quiet, Quiet-refl, Quiet-trans, set_peer-Quiet, send-Quiet}
use go_trust_net.Network.Platform.Listening.{handle-Quiet}
use go_trust_net.Network.Platform.Working.{
  Filling, no_candidate-Filling, on_tx-Quiet, on_tx-Filling, on_timer-Quiet, on_timer-no_candidate,
}
use go_trust_net.Network.Platform.Healthy.{
  Healthy, Quiet-Healthy, start-Healthy, stop-Healthy, suspend-Healthy, submit-Healthy,
}
use go_trust_net.Network.Platform.Syncing.{set_last_hash-Quiet, sync_step-Healthy}

module _ (H : Digests) (D : Database (Key H.Byte64) (Value H.Byte64))
    (W : WorldStates H.Byte64) where
  open H use {Byte64}
  open W use {World}

  abbrev State : Type 0
  State = Manager H D W

  pub record Sound (s : Running H D W) : Type 0 where
    pub healthy : Healthy H D W s.manager
    pub filling : Filling s.candidate

  after-Sound :
      (s : Running H D W) (mgr : State) → Healthy H D W mgr → Sound s → Sound (after H D W s mgr)
  unfolding after
  after-Sound s mgr h x = elim (Bool-cases (mgr.producers == s.manager.producers)) [
    | inl e ↦ rw (after, e) (record { healthy = h; filling = x.filling })
    | inr e ↦ rw (after, e) (record { healthy = h; filling = no_candidate-Filling })
  ]

  Quiet-Sound :
      (s : Running H D W) (mgr : State)
      → Quiet H D W s.manager mgr
      → Sound s
      → Sound (after H D W s mgr)
  Quiet-Sound s mgr q x = after-Sound s mgr (Quiet-Healthy H D W q x.healthy) x

  begin-Sound : (config : AppConfig) (e : Engine H D W) → Sound (begin H D W config e)
  unfolding begin
  begin-Sound config e = record {
    healthy = record {
      steady = inr (refl, refl);
      queue = omega arith;
      signals = λ id. omega arith;
      fresh = λ id. tt;
    };
    filling = no_candidate-Filling;
  }

  tx_status-Quiet : (mgr : State) (id : Byte64) → Quiet H D W mgr (tx_status H D W mgr id).0
  unfolding tx_status
  tx_status-Quiet mgr id = elim (Bool-cases (has_hash H W id mgr.dead_txs)) [
    | inl e ↦
        rw (tx_status, e)
          (record {
            is_running = refl;
            producers = refl;
            waiting = refl;
            tx_q = refl;
            signals = λ i l. l;
            fresh = λ f. f;
          })
    | inr e ↦ rw (tx_status, e) (Quiet-refl H D W mgr)
  ]

  module _ (P : Platform H W) where
    disconnect-Quiet : (mgr : State) (id : PeerId) → Quiet H D W mgr (disconnect H D W P mgr id).0
    unfolding disconnect
    disconnect-Quiet mgr id = elim (Option-cases (peer_node_for_id bytes_dec mgr.peer_db id)) [
      | inl e ↦ rw (disconnect, e) (Quiet-refl H D W mgr)
      | inr (n, e) ↦
          rw (disconnect, e)
            (record {
              is_running = refl;
              producers = refl;
              waiting = refl;
              tx_q = refl;
              signals = λ i l. l;
              fresh = λ f. f;
            })
    ]

    register_peer-Quiet :
        (mgr : State) (id : PeerId) (msg : HandshakeMsg Byte64) (conf : AppConfig)
        → Quiet H D W mgr (register_peer H D W P mgr id msg conf)
    unfolding register_peer
    register_peer-Quiet mgr id msg conf =
        let mgr₁ : State = record mgr {
          peer_db = register_peer_node bytes_dec mgr.peer_db id id;
          peer_count = incr mgr.peer_count;
          peers = (id, conf) ∷ drop_node bytes_dec mgr.peers id;
        } in
        let q : Quiet H D W mgr mgr₁ = record {
          is_running = refl;
          producers = refl;
          waiting = refl;
          tx_q = refl;
          signals = λ i l. l;
          fresh = λ f. f;
        } in
        Quiet-trans H D W q (
          set_peer-Quiet H D W mgr₁ id (record (mgr.heap id) { status = some msg }) (λ l. l)
            (λ f. f))

    validate_and_add-Quiet :
        (mgr : State) (msg : HandshakeMsg Byte64) (id : PeerId)
        → Quiet H D W mgr (validate_and_add H D W P mgr msg id).0
    unfolding validate_and_add
    validate_and_add-Quiet mgr msg id =
        let conf : AppConfig = record {
          network_id = msg.network_id;
          node_id = 4 ∷ (mgr.heap id).node_id;
          node_name = (mgr.heap id).name;
          protocol_id = msg.protocol_id;
        } in
        let still = Quiet-refl H D W mgr in
        let keeps : State × Outcome → Type 0 = λ r. Quiet H D W mgr r.0 in
        ite-cases keeps (bytes_dec msg.network_id mgr.config.network_id) _ _
          (λ e.
            ite-cases keeps (H.dec msg.genesis mgr.genesis) _ _
              (λ g. elim (Bool-cases (P.peer_validator conf)) [
                | inl v ↦ rw v (register_peer-Quiet mgr id msg conf)
                | inr v ↦ rw v still
              ])
              (λ g. still))
          (λ e. still)

    perform_handshake-Quiet :
        (mgr : State) (status : HandshakeMsg Byte64) (id : PeerId) (reply : Option (Message Byte64))
        → Quiet H D W mgr (perform_handshake H D W P mgr status id reply).0
    unfolding perform_handshake
    perform_handshake-Quiet mgr status id reply =
        let r = send H D W P mgr id (handshake status) in
        let q = send-Quiet H D W P mgr id (handshake status) in
        elim (Bool-cases r.1) [
          | inr e ↦ rw (perform_handshake, e) q
          | inl e ↦ elim (Option-cases (read_handshake H D W P reply)) [
            | inl n ↦ rw (perform_handshake, e, n) q
            | inr (msg, n) ↦
                rw (perform_handshake, e, n)
                  (Quiet-trans H D W q (validate_and_add-Quiet r.0 msg id))
          ]
        ]

    end_connection-Quiet :
        (mgr : State) (id : PeerId) → Quiet H D W mgr (end_connection H D W P mgr id)
    unfolding end_connection
    end_connection-Quiet mgr id =
        let mgr₁ = unregister_peer H D W P mgr id in
        let q : Quiet H D W mgr mgr₁ = record {
          is_running = refl;
          producers = refl;
          waiting = refl;
          tx_q = refl;
          signals = λ i l. l;
          fresh = λ f. f;
        } in
        Quiet-trans H D W q (
          set_peer-Quiet H D W mgr₁ id (record (mgr.heap id) { chan_closed = true }) (λ l. l)
            (λ f. f))

    begin_sync-Quiet :
        (mgr : State) (best : Block Byte64 World) (from : PeerId)
        → Quiet H D W mgr (begin_sync H D W P mgr best from).0
    unfolding begin_sync
    begin_sync-Quiet mgr best from = elim (Option-cases (needs_sync H D W P mgr best from)) [
      | inl e ↦ rw (begin_sync, e) (set_last_hash-Quiet H D W P mgr from best.hash)
      | inr (true, e) ↦ rw (begin_sync, e) (set_last_hash-Quiet H D W P mgr from best.hash)
      | inr (false, e) ↦ rw (begin_sync, e) (set_last_hash-Quiet H D W P mgr from best.hash)
    ]

    on_tx-Healthy :
        (now : ℕ) (mgr : State) (c : Candidate Byte64 World)
        → Healthy H D W mgr
        → Healthy H D W (on_tx H D W P now mgr c).0
    unfolding on_tx
    on_tx-Healthy now mgr c h = elim (List-cases mgr.tx_q) [
      | inl q ↦ rw (on_tx, q) h
      | inr (tx, txs, q) ↦
          let l : length (tx ∷ txs) ≤ tx_queue_size =
            subst (λ t. length t ≤ tx_queue_size) q h.queue in
          let h' : Healthy H D W (record mgr { tx_q = txs }) = record {
            steady = h.steady;
            queue = omega (arith, l);
            signals = h.signals;
            fresh = h.fresh;
          } in
          Quiet-Healthy H D W (on_tx-Quiet H D W P now mgr c tx txs q) h'
    ]

    Step-Sound : {s s' : Running H D W} → Step H D W P s s' → Sound s → Sound s'
    unfolding produce new_peer
    Step-Sound (start_step s) x = after-Sound s _ (start-Healthy H D W s.manager x.healthy) x
    Step-Sound (suspend_step s) x = after-Sound s _ (suspend-Healthy H D W s.manager x.healthy) x
    Step-Sound (stop_step s) x = after-Sound s _ (stop-Healthy H D W s.manager x.healthy) x
    Step-Sound (status_step s id) x = Quiet-Sound s _ (tx_status-Quiet s.manager id) x
    Step-Sound (submit_step s tx) x =
        after-Sound s _ (submit-Healthy H D W s.manager tx x.healthy) x
    Step-Sound (disconnect_step s id) x = Quiet-Sound s _ (disconnect-Quiet s.manager id) x
    Step-Sound (connect_step s id node_id name) x =
        Quiet-Sound s _
          (set_peer-Quiet H D W s.manager id (new_peer H node_id name) (λ l. omega arith) (λ f. tt))
          x
    Step-Sound (handshake_step s status id reply) x =
        Quiet-Sound s _ (perform_handshake-Quiet s.manager status id reply) x
    Step-Sound (end_step s id) x = Quiet-Sound s _ (end_connection-Quiet s.manager id) x
    Step-Sound (listen_step s m from) x = Quiet-Sound s _ (handle-Quiet H D W P s.manager m from) x
    Step-Sound (begin_sync_step s best from) x =
        Quiet-Sound s _ (begin_sync-Quiet s.manager best from) x
    Step-Sound (sync_step_step s now from stage) x =
        after-Sound s _ (sync_step-Healthy H D W P now s.manager from stage x.healthy) x
    Step-Sound (on_tx_step s now h) x = record {
      healthy = on_tx-Healthy now s.manager s.candidate x.healthy;
      filling = on_tx-Filling H D W P now s.manager s.candidate x.filling;
    }
    Step-Sound (on_timer_step s h) x = record {
      healthy = Quiet-Healthy H D W (on_timer-Quiet H D W P s.manager s.candidate) x.healthy;
      filling = rw (on_timer-no_candidate H D W P s.manager s.candidate) no_candidate-Filling;
    }

    -- In every state that a platform gets to from one that has just been made, one producer runs if the
    -- flag says so and none otherwise, the queue has at most ten transactions, a channel at most two
    -- values, and the candidate of the producer fewer than ten transactions and none without a block; and
    -- no peer is marked with a pointer that was not made.
    pub Reachable-Sound :
        {config : AppConfig} {e : Engine H D W} {s : Running H D W}
        → Reachable H D W P config e s
        → Sound s
    Reachable-Sound made = begin-Sound _ _
    Reachable-Sound (step r t) = Step-Sound t (Reachable-Sound r)
