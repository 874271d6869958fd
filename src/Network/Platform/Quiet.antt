-- ===== src/Network/Platform/Quiet.antt =====
-- network/platform.go: what the handlers of messages leave alone. They start and stop no producer, take
-- nothing from the queue of transactions, and put no more into a channel than it holds.
use go_trust_net.Prelude.{
  All-mono, ℕ_discrete, All, ite-cases, ℕ, suc, ◌≤◌, ◌<◌, ltb, true, false, List, [], ◌∷◌, ◌++◌,
  length, length-append, ◌≡◌, refl, sym, ◌∙◌, arith, inl, inr, Option-cases, Bool-cases, subst,
}
use go_trust_net.Core.Digest.{Digests}
use go_trust_net.Db.{Database}
use go_trust_net.Consensus.{WorldStates, Block, Key, Value, Engine, Result-cases, Transaction}
use go_trust_net.Consensus.Blocks.{bytes_dec, wire_spec}
use go_trust_net.Consensus.Operations.{check_network_block_pow, accept_network_block}
use go_trust_net.Db.PeerSet.{peer_nodes_with_msg_not_seen, have_i_seen_it}
use go_trust_net.Network.PeerNode.{has_tx, add_tx}
use go_trust_net.Network.PeerNode.Known.{All-add_tx}
use go_trust_net.Network.Platform.{
  Signal, Message, PeerId, Peer, Platform, Manager, chan_size, new_block,
}
use go_trust_net.Network.Trustee.{verify_mining_reward_tx}
use go_trust_net.Network.Platform.Peers.{set_peer, signal, send, mark_seen, relay, broadcast}
use go_trust_net.Network.Platform.Process.{
  process_txs, apply_block, forward_block, submit_block, process_block,
}

module _ (H : Digests) (D : Database (Key H.Byte64) (Value H.Byte64))
    (W : WorldStates H.Byte64) where
  open H use {Byte64}
  open W use {World}

  -- The number of values that wait in the channel of a peer.
  abbrev pub waiting_signals : Manager H D W → PeerId → ℕ
  waiting_signals mgr id = length (mgr.heap id).get_block_hashes_chan

  -- Every pointer that a peer is marked with was made.
  abbrev pub Fresh : Manager H D W → Type 0
  Fresh mgr = (id : PeerId) → All (λ r. r < mgr.refs) (mgr.heap id).known.known_txs

  pub record Quiet (mgr mgr' : Manager H D W) : Type 0 where
    pub is_running : mgr'.is_running ≡ mgr.is_running
    pub producers : mgr'.producers ≡ mgr.producers
    pub waiting : mgr'.waiting ≡ mgr.waiting
    pub tx_q : mgr'.tx_q ≡ mgr.tx_q
    pub signals :
        (id : PeerId) → waiting_signals mgr id ≤ chan_size → waiting_signals mgr' id ≤ chan_size
    pub fresh : Fresh mgr → Fresh mgr'

  pub Quiet-refl : (mgr : Manager H D W) → Quiet mgr mgr
  Quiet-refl mgr = record {
    is_running = refl;
    producers = refl;
    waiting = refl;
    tx_q = refl;
    signals = λ id h. h;
    fresh = λ f. f;
  }

  pub Quiet-trans : {a b c : Manager H D W} → Quiet a b → Quiet b c → Quiet a c
  Quiet-trans x y = record {
    is_running = y.is_running ∙ x.is_running;
    producers = y.producers ∙ x.producers;
    waiting = y.waiting ∙ x.waiting;
    tx_q = y.tx_q ∙ x.tx_q;
    signals = λ id h. y.signals id (x.signals id h);
    fresh = λ f. y.fresh (x.fresh f);
  }

  -- A write to an object that puts no more into its channel and marks it with no new pointer.
  pub set_peer-Quiet :
      (mgr : Manager H D W) (id : PeerId) (p : Peer Byte64)
      → (waiting_signals mgr id ≤ chan_size → length p.get_block_hashes_chan ≤ chan_size)
      → (All (λ r. r < mgr.refs) (mgr.heap id).known.known_txs
          → All (λ r. r < mgr.refs) p.known.known_txs)
      → Quiet mgr (set_peer H D W mgr id p)
  unfolding set_peer
  set_peer-Quiet mgr id p h k = record {
    is_running = refl;
    producers = refl;
    waiting = refl;
    tx_q = refl;
    signals = λ i l.
        ite-cases (λ (q : Peer Byte64). length q.get_block_hashes_chan ≤ chan_size) (bytes_dec id i)
          _ _ (λ e. h (subst (λ j. waiting_signals mgr j ≤ chan_size) (sym e) l)) (λ e. l);
    fresh = λ f i.
        ite-cases (λ (q : Peer Byte64). All (λ r. r < mgr.refs) q.known.known_txs) (bytes_dec id i)
          _ _ (λ e. k (f id)) (λ e. f i);
  }

  pub signal-Quiet :
      (mgr : Manager H D W) (id : PeerId) (s : Signal) → Quiet mgr (signal H D W mgr id s).0
  unfolding signal
  signal-Quiet mgr id s = elim (Bool-cases (ltb (waiting_signals mgr id) chan_size)) [
    | inl e ↦
        let p = mgr.heap id in
        let p' : Peer Byte64 = record p {
          get_block_hashes_chan = p.get_block_hashes_chan ++ s ∷ [];
        } in
        rw e (
          set_peer-Quiet mgr id p'
            (λ h. ground (arith, e, length-append p.get_block_hashes_chan (s ∷ []))) (λ f. f))
    | inr e ↦ rw e (Quiet-refl mgr)
  ]

  module _ (P : Platform H W) where
    pub send-Quiet :
        (mgr : Manager H D W) (id : PeerId) (m : Message Byte64)
        → Quiet mgr (send H D W P mgr id m).0
    unfolding send
    send-Quiet mgr id m = elim (Bool-cases (P.sends id)) [
      | inl e ↦ rw e (record {
        is_running = refl;
        producers = refl;
        waiting = refl;
        tx_q = refl;
        signals = λ i h. h;
        fresh = λ f. f;
      })
      | inr e ↦ rw e (Quiet-refl mgr)
    ]

    pub mark_seen-Quiet :
        (mgr : Manager H D W) (id : PeerId) (r : ℕ)
        → r < mgr.refs
        → Quiet mgr (mark_seen H D W P mgr id r)
    unfolding mark_seen
    mark_seen-Quiet mgr id r l =
        set_peer-Quiet mgr id
          (record (mgr.heap id) { known = add_tx ℕ_discrete (mgr.heap id).known (P.picks id) r })
          (λ h. h)
          (λ f. All-add_tx ℕ_discrete (λ i. i < mgr.refs) (mgr.heap id).known (P.picks id) r f l)

    send-refs :
        (mgr : Manager H D W) (id : PeerId) (m : Message Byte64)
        → (send H D W P mgr id m).0.refs ≡ mgr.refs
    unfolding send
    send-refs mgr id m = elim (Bool-cases (P.sends id)) [
      | inl e ↦ rw (send, e) refl
      | inr e ↦ rw (send, e) refl
    ]

    relay-Quiet :
        (mgr : Manager H D W) (ids : List PeerId) (r : ℕ) (m : Message Byte64)
        → r < mgr.refs
        → Quiet mgr (relay H D W P mgr ids r m).0
    unfolding relay mark_seen set_peer
    relay-Quiet mgr [] r m l = Quiet-refl mgr
    relay-Quiet mgr (id ∷ ids) r m l =
        let mgr₁ = mark_seen H D W P mgr id r in
        let l' : r < (send H D W P mgr₁ id m).0.refs =
          subst (λ n. r < n) (sym (send-refs mgr₁ id m)) l in
        Quiet-trans (mark_seen-Quiet mgr id r l)
          (Quiet-trans (send-Quiet mgr₁ id m) (relay-Quiet (send H D W P mgr₁ id m).0 ids r m l'))

    pub broadcast-Quiet :
        (mgr : Manager H D W) (b : Block Byte64 World) (r : ℕ)
        → r < mgr.refs
        → Quiet mgr (broadcast H D W P mgr b r).0
    unfolding broadcast
    broadcast-Quiet mgr b r =
        relay-Quiet mgr
          (peer_nodes_with_msg_not_seen mgr.peer_db (λ id. has_tx ℕ_discrete (mgr.heap id).known r))
          r (new_block (wire_spec H W b))

    -- A write to the engine, or to the set of peers.
    pub engine-Quiet :
        (mgr : Manager H D W) (e : Engine H D W) → Quiet mgr (record mgr { engine = e })
    engine-Quiet mgr e = record {
      is_running = refl;
      producers = refl;
      waiting = refl;
      tx_q = refl;
      signals = λ i h. h;
      fresh = λ f. f;
    }

    -- A new pointer.
    pub refs-Quiet : (mgr : Manager H D W) → Quiet mgr (record mgr { refs = suc mgr.refs })
    refs-Quiet mgr = record {
      is_running = refl;
      producers = refl;
      waiting = refl;
      tx_q = refl;
      signals = λ i h. h;
      fresh = λ f i. All-mono (λ r l. omega (arith, l)) (mgr.heap i).known.known_txs (f i);
    }

    forward_block-Quiet :
        (mgr : Manager H D W) (b : Block Byte64 World) (h : Byte64) (from : PeerId)
        → Quiet mgr (forward_block H D W P mgr b h from).0
    unfolding forward_block
    forward_block-Quiet mgr b h from =
        let r = mgr.refs in
        let mgr₀ : Manager H D W = record mgr { refs = suc r } in
        let mgr₁ = mark_seen H D W P mgr₀ from r in
        let seen = have_i_seen_it H.dec mgr₁.peer_db h in
        let mgr₂ : Manager H D W = record mgr₁ { peer_db = seen.0 } in
        let q : Quiet mgr₁ mgr₂ = record {
          is_running = refl;
          producers = refl;
          waiting = refl;
          tx_q = refl;
          signals = λ i l. l;
          fresh = λ f. f;
        } in
        let q' =
          Quiet-trans (refs-Quiet mgr)
            (Quiet-trans (mark_seen-Quiet mgr₀ from r (omega arith)) q) in
        elim (Bool-cases seen.1) [
          | inl e ↦ rw e q'
          | inr e ↦ rw e (Quiet-trans q' (broadcast-Quiet mgr₂ b r (omega arith)))
        ]

    submit_block-Quiet :
        (mgr : Manager H D W) (b : Block Byte64 World) (from : PeerId)
        → Quiet mgr (submit_block H D W P mgr b from).0
    unfolding submit_block
    submit_block-Quiet mgr b from =
        let checked = check_network_block_pow H D W P.pow_approver P.rounds mgr.engine b in
        let mgr₁ : Manager H D W = record mgr { engine = checked.0 } in
        elim (Result-cases checked.1) [
          | inr (x, e) ↦ rw (submit_block, e) (engine-Quiet mgr checked.0)
          | inl (b₁, e) ↦
              let accepted =
                accept_network_block H D W P.fuel P.pow_approver P.rounds checked.0 b₁ in
              let mgr₂ : Manager H D W = record mgr₁ { engine = accepted.0 } in
              rw (submit_block, e)
                (elim (Result-cases accepted.2) [
                  | inr (x, e') ↦ rw e' (engine-Quiet mgr accepted.0)
                  | inl (u, e') ↦ elim (Option-cases accepted.1.hash) [
                    | inl n ↦ rw (e', n) (engine-Quiet mgr accepted.0)
                    | inr (h, n) ↦
                        rw (e', n)
                          (Quiet-trans (engine-Quiet mgr accepted.0)
                            (forward_block-Quiet mgr₂ accepted.1 h from))
                  ]
                ])
        ]

    apply_block-Quiet :
        (mgr : Manager H D W) (b : Block Byte64 World) (txs : List Transaction) (from : PeerId)
        → Quiet mgr (apply_block H D W P mgr b txs from).0
    unfolding apply_block
    apply_block-Quiet mgr b [] from = Quiet-refl mgr
    apply_block-Quiet mgr b (tx ∷ txs) from =
        let r = process_txs H D W P mgr.engine.tables b txs in
        elim (Bool-cases r.1) [
          | inl e ↦ rw e (submit_block-Quiet mgr r.0 from)
          | inr e ↦ rw e (Quiet-refl mgr)
        ]

    pub process_block-Quiet :
        (mgr : Manager H D W) (b : Block Byte64 World) (from : PeerId)
        → Quiet mgr (process_block H D W P mgr b from).0
    unfolding process_block
    process_block-Quiet mgr b from = elim (Bool-cases (ltb (length b.spec.txs) 2)) [
      | inl e ↦ rw (process_block, e) (Quiet-refl mgr)
      | inr e ↦ elim (Result-cases (verify_mining_reward_tx H W P.codec mgr.engine.tables b)) [
        | inr (x, e') ↦ rw (process_block, e, e') (Quiet-refl mgr)
        | inl ((b₁, false), e') ↦ rw (process_block, e, e') (Quiet-refl mgr)
        | inl ((b₁, true), e') ↦
            rw (process_block, e, e') (apply_block-Quiet mgr b₁ b.spec.txs from)
      ]
    ]
