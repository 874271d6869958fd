-- ===== src/Network/Platform/Syncing.antt =====
-- network/platform.go: what the steps of a sync do to the producer.
use go_trust_net.Prelude.{
  ℕ, suc, ◌≤◌, true, false, List, [], ◌∷◌, length, Option, ◌≡◌, refl, ◌∙◌, subst, inl, inr,
  Option-cases, List-cases, Bool-cases, if_true, if_false, arith,
}
use go_trust_net.Core.Digest.{Digests}
use go_trust_net.Db.{Database}
use go_trust_net.Consensus.{WorldStates, Key, Value, Result-cases}
use go_trust_net.Consensus.Blocks.{wire_spec}
use go_trust_net.Consensus.Operations.{new_candidate_block}
use go_trust_net.Consensus.Reads.{best_block, block_of}
use go_trust_net.Network.Platform.{
  Outcome, done, Outcome-cases, Signal, chan_error, chan_next, chan_abort, chan_retry, chan_done,
  new_block, get_block_hashes_request, PeerId, Platform, Manager, chan_size, max_request,
}
use go_trust_net.Network.Platform.Lifecycle.{start, suspend}
use go_trust_net.Network.Platform.Peers.{set_peer, send, mark_seen}
use go_trust_net.Network.Platform.Handlers.{set_last_hash}
use go_trust_net.Network.Platform.Sync.{
  Stage, requesting, waiting, finished, needs_sync, pause, request, announce, finish_sync,
  next_round, on_signal, receive, sync_step,
}
use go_trust_net.Network.Platform.Quiet.{
  Quiet, Quiet-refl, Quiet-trans, set_peer-Quiet, send-Quiet, refs-Quiet, mark_seen-Quiet,
  engine-Quiet,
}
use go_trust_net.Network.Platform.Healthy.{
  Healthy, Quiet-Healthy, start-Healthy, suspend-running, idle-Healthy,
}

module _ (H : Digests) (D : Database (Key H.Byte64) (Value H.Byte64))
    (W : WorldStates H.Byte64) where
  open H use {Byte64}
  open W use {World}

  abbrev State : Type 0
  State = Manager H D W

  module _ (P : Platform H W) where
    -- A pause ends the producer, if one runs.
    pub pause-idle :
        (mgr : State)
        → Healthy H D W mgr
        → ((pause H D W P mgr).1 ≡ done)
          × ((pause H D W P mgr).0.is_running ≡ false)
          × Healthy H D W (pause H D W P mgr).0
    unfolding pause
    pause-idle mgr h = elim h.steady [
      | inl (r, p) ↦
          rw
            (if_true mgr.is_running (suspend H D W mgr) (mgr, done) r
              ∙ suspend-running H D W mgr h r)
            (refl, refl, idle-Healthy H D W mgr h)
      | inr (r, p) ↦ rw (if_false mgr.is_running (suspend H D W mgr) (mgr, done) r) (refl, r, h)
    ]

    pub set_last_hash-Quiet :
        (mgr : State) (id : PeerId) (h : Option Byte64)
        → Quiet H D W mgr (set_last_hash H D W P mgr id h)
    unfolding set_last_hash
    set_last_hash-Quiet mgr id h =
        set_peer-Quiet H D W mgr id (record (mgr.heap id) { last_hash = h }) (λ l. l) (λ f. f)

    request-Healthy :
        (mgr : State) (from : PeerId)
        → Healthy H D W mgr
        → Healthy H D W (request H D W P mgr from).0
    unfolding request
    request-Healthy mgr from h =
        let p = pause H D W P mgr in
        let h₁ = (pause-idle mgr h).2 in
        elim (Option-cases (p.0.heap from).last_hash) [
          | inl e ↦ rw (request, (pause-idle mgr h).0, e) h₁
          | inr (l, e) ↦
              rw (request, (pause-idle mgr h).0, e)
                (Quiet-Healthy H D W
                  (send-Quiet H D W P p.0 from (get_block_hashes_request l max_request)) h₁)
        ]

    pub announce-Quiet :
        (mgr : State) (us : List Byte64) (from : PeerId)
        → Quiet H D W mgr (announce H D W P mgr us from).0
    unfolding announce
    announce-Quiet mgr [] from = Quiet-refl H D W mgr
    announce-Quiet mgr (u ∷ us) from =
        let found = block_of H D W mgr.engine u in
        let mgr₁ : State = record mgr { engine = found.0 } in
        let q = engine-Quiet H D W P mgr found.0 in
        elim (Result-cases found.1) [
          | inr (x, e) ↦ rw (announce, e) q
          | inl (b, e) ↦
              let mgr₀ : State = record mgr₁ { refs = suc mgr₁.refs } in
              let mgr₂ = mark_seen H D W P mgr₀ from mgr₁.refs in
              let mgr₃ = (send H D W P mgr₂ from (new_block (wire_spec H W b))).0 in
              rw (announce, e)
                (Quiet-trans H D W q (
                  Quiet-trans H D W
                    (Quiet-trans H D W (refs-Quiet H D W P mgr₁)
                      (mark_seen-Quiet H D W P mgr₀ from mgr₁.refs (omega arith)))
                    (Quiet-trans H D W (send-Quiet H D W P mgr₂ from (new_block (wire_spec H W b)))
                      (announce-Quiet mgr₃ us from))))
        ]

    finish_sync-Healthy :
        (now : ℕ) (mgr : State) (from : PeerId)
        → Healthy H D W mgr
        → Healthy H D W (finish_sync H D W P now mgr from).0
    unfolding finish_sync
    finish_sync-Healthy now mgr from h =
        let r = new_candidate_block H D W now mgr.engine in
        let mgr₁ : State = record mgr { engine = r.0 } in
        let h₁ = Quiet-Healthy H D W (engine-Quiet H D W P mgr r.0) h in
        elim (Option-cases r.1) [
          | inl e ↦ rw (finish_sync, e) h₁
          | inr (b, e) ↦
              let a = announce H D W P mgr₁ b.spec.uncles from in
              let h₂ = Quiet-Healthy H D W (announce-Quiet mgr₁ b.spec.uncles from) h₁ in
              elim (Outcome-cases a.1) [
                | inl n ↦ elim (Bool-cases a.0.is_running) [
                  | inl m ↦
                      rw
                        (
                          finish_sync,
                          e,
                          n,
                          if_true {A = State × Outcome} a.0.is_running (a.0, done)
                              ((start H D W a.0).0, done) m,
                        )
                        h₂
                  | inr m ↦
                      rw
                        (
                          finish_sync,
                          e,
                          n,
                          if_false {A = State × Outcome} a.0.is_running (a.0, done)
                              ((start H D W a.0).0, done) m,
                        )
                        (start-Healthy H D W a.0 h₂)
                ]
                | inr (inl n) ↦ rw (finish_sync, e, n) h₂
                | inr (inr (inl n)) ↦ rw (finish_sync, e, n) h₂
                | inr (inr (inr (x, n))) ↦ rw (finish_sync, e, n) h₂
              ]
        ]

    next_round-Healthy :
        (now : ℕ) (mgr : State) (from : PeerId)
        → Healthy H D W mgr
        → Healthy H D W (next_round H D W P now mgr from).0
    unfolding next_round
    next_round-Healthy now mgr from h =
        let r = best_block H D W mgr.engine in
        let mgr₁ : State = record mgr { engine = r.0 } in
        let h₁ = Quiet-Healthy H D W (engine-Quiet H D W P mgr r.0) h in
        elim (Option-cases r.1) [
          | inl e ↦ rw (next_round, e) h₁
          | inr (b, e) ↦ elim (Option-cases (needs_sync H D W P mgr₁ b from)) [
            | inl n ↦ rw (next_round, e, n) h₁
            | inr (true, n) ↦ rw (next_round, e, n) h₁
            | inr (false, n) ↦ rw (next_round, e, n) (finish_sync-Healthy now mgr₁ from h₁)
          ]
        ]

    on_signal-Healthy :
        (now : ℕ) (mgr : State) (from : PeerId) (s : Signal)
        → Healthy H D W mgr
        → Healthy H D W (on_signal H D W P now mgr from s).0
    unfolding on_signal
    on_signal-Healthy now mgr from chan_error h = h
    on_signal-Healthy now mgr from chan_abort h = h
    on_signal-Healthy now mgr from chan_done h = h
    on_signal-Healthy now mgr from chan_next h = next_round-Healthy now mgr from h
    on_signal-Healthy now mgr from chan_retry h = next_round-Healthy now mgr from h

    -- A value is taken from the channel.
    take-Quiet :
        (mgr : State) (from : PeerId) (s : Signal) (ss : List Signal)
        → (mgr.heap from).get_block_hashes_chan ≡ s ∷ ss
        → Quiet H D W mgr
            (set_peer H D W mgr from (record (mgr.heap from) { get_block_hashes_chan = ss }))
    take-Quiet mgr from s ss e =
        set_peer-Quiet H D W mgr from (record (mgr.heap from) { get_block_hashes_chan = ss })
          (λ h.
            let h' : length (s ∷ ss) ≤ chan_size = subst (λ l. length l ≤ chan_size) e h in
            omega (arith, h'))
          (λ f. f)

    receive-Healthy :
        (now : ℕ) (mgr : State) (from : PeerId)
        → Healthy H D W mgr
        → Healthy H D W (receive H D W P now mgr from).0
    unfolding receive
    receive-Healthy now mgr from h =
        let p = mgr.heap from in
        elim (List-cases p.get_block_hashes_chan) [
          | inl e ↦ elim (Bool-cases p.chan_closed) [
            | inl c ↦ rw (receive, e, c) h
            | inr c ↦ rw (receive, e, c) h
          ]
          | inr (s, ss, e) ↦
              let mgr' = set_peer H D W mgr from (record p { get_block_hashes_chan = ss }) in
              rw (receive, e)
                (on_signal-Healthy now mgr' from s
                  (Quiet-Healthy H D W (take-Quiet mgr from s ss e) h))
        ]

    pub sync_step-Healthy :
        (now : ℕ) (mgr : State) (from : PeerId) (stage : Stage)
        → Healthy H D W mgr
        → Healthy H D W (sync_step H D W P now mgr from stage).0
    unfolding sync_step
    sync_step-Healthy now mgr from requesting h = request-Healthy mgr from h
    sync_step-Healthy now mgr from waiting h = receive-Healthy now mgr from h
    sync_step-Healthy now mgr from (finished o) h = h
