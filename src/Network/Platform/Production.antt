-- ===== src/Network/Platform/Production.antt =====
-- network/platform.go: when blocks are produced, and what a sync does to that.
use go_trust_net.Prelude.{
  ℕ, suc, none, some, List, [], ◌∷◌, Bool, ◌+◌, ◌==◌, ◌||◌, ◌≢◌, subst, true, false, ◌≡◌, refl, ap,
  ◌∙◌, inl, inr, ◌⊎◌, Option-cases, Bool-cases, if◌then◌else◌, if_true, if_false, arith,
}
use go_trust_net.Core.Digest.{Digests}
use go_trust_net.Db.{Database}
use go_trust_net.Consensus.{WorldStates, Error, Result-cases, ok, err, Key, Value, Engine}
use go_trust_net.Consensus.Blocks.{wire_spec}
use go_trust_net.Network.Platform.Handlers.{is_panic, fail_with}
use go_trust_net.Network.Platform.Peers.{set_peer, mark_seen, send}
use go_trust_net.Consensus.Operations.{new_candidate_block}
use go_trust_net.Consensus.Reads.{best_block, block_of}
use go_trust_net.Network.Platform.{
  Message, new_block, Outcome, done, blocked, failed, duplicate_suspend, sync_failed, Outcome-cases,
  AppConfig, Signal, chan_error, chan_abort, chan_done, get_block_hashes_request, PeerId, Platform,
  Manager, max_request,
}
use go_trust_net.Network.Platform.Lifecycle.{start, suspend, stop}
use go_trust_net.Network.Platform.Sync.{
  Stage, requesting, finished, needs_sync, pause, request, announce, finish_sync, next_round,
  on_signal, sync_step,
}
use go_trust_net.Network.Platform.Reach.{Running, Reachable}
use go_trust_net.Network.Platform.Quiet.{send-Quiet}
use go_trust_net.Network.Platform.Healthy.{
  Healthy, shut_down-running, shut_down-idle, suspend-running, suspend-idle, start-idle,
  start-waiting, zero-cases,
}
use go_trust_net.Network.Platform.Syncing.{pause-idle, announce-Quiet}
use go_trust_net.Network.Platform.Invariant.{Reachable-Sound}

module _ (H : Digests) (D : Database (Key H.Byte64) (Value H.Byte64))
    (W : WorldStates H.Byte64) where
  open H use {Byte64}
  open W use {World}

  abbrev State : Type 0
  State = Manager H D W

  -- The manager without a producer.
  abbrev pub idle : State → State
  idle mgr = record mgr { producers = 0; is_running = false }

  module _ (P : Platform H W) where
    -- What suspending and stopping do. While a producer runs, both end it. While none runs, a suspension
    -- fails, and a stop waits; the producer of the next start takes the value that it sends, and so there
    -- is again none after that start.
    abbrev pub Halting : State → Type 0
    Halting mgr =
        ((mgr.is_running ≡ true)
          × (suspend H D W mgr ≡ (idle mgr, done))
          × (stop H D W mgr ≡ (idle mgr, done)))
        ⊎ ((mgr.is_running ≡ false)
            × (suspend H D W mgr ≡ (mgr, failed duplicate_suspend))
            × (stop H D W mgr ≡ (record mgr { waiting = mgr.waiting + 1 }, blocked))
            × (let r = start H D W (stop H D W mgr).0 in
                (r.1 ≡ done)
                × (r.0.is_running ≡ false)
                × (r.0.producers ≡ 0)
                × (r.0.waiting ≡ mgr.waiting)))

    restarted :
        (mgr : State)
        → Healthy H D W mgr
        → mgr.is_running ≡ false
        → start H D W (stop H D W mgr).0 ≡ (idle mgr, done)
    unfolding stop
    restarted mgr h k =
        let waits : State = record mgr { waiting = mgr.waiting + 1 } in
        let p : mgr.producers ≡ 0 = elim h.steady [
          | inl (r, _) ↦ ground (arith, r, k)
          | inr (_, p) ↦ p
        ] in
        ap (λ (r : State × Outcome). start H D W r.0) (shut_down-idle H D W mgr h k)
        ∙ start-waiting H D W waits mgr.waiting k (omega arith)
        ∙ ap (λ (n : ℕ). (record mgr { producers = n; is_running = false }, done)) p

    -- In any reachable state: while a producer runs, `Suspend` and `Stop` end it and return. While none
    -- runs, `Suspend` fails and changes nothing, and `Stop` waits; a `Start` that comes then returns
    -- without an error, but the producer that it starts takes the value of the `Stop` and ends, so that
    -- none runs after it.
    pub Reachable-stops :
        {config : AppConfig} {e : Engine H D W} {s : Running H D W}
        → Reachable H D W P config e s
        → Halting s.manager
    unfolding stop
    Reachable-stops {s = s} r =
        let h = (Reachable-Sound H D W P r).healthy in
        let mgr = s.manager in
        elim (Bool-cases mgr.is_running) [
          | inl k ↦ inl (k, suspend-running H D W mgr h k, shut_down-running H D W mgr h k)
          | inr k ↦
              let again = restarted mgr h k in
              inr (
                k,
                suspend-idle H D W mgr k,
                shut_down-idle H D W mgr h k,
                (
                  ap (λ (r : State × Outcome). r.1) again,
                  ap (λ (r : State × Outcome). r.0.is_running) again,
                  ap (λ (r : State × Outcome). r.0.producers) again,
                  ap (λ (r : State × Outcome). r.0.waiting) again,
                ),
              )
        ]

    -- The values of its channel that end a sync at once.
    abbrev pub Ends : Signal → Type 0
    Ends sg = (sg ≡ chan_error) ⊎ (sg ≡ chan_abort) ⊎ (sg ≡ chan_done)

    request-idle :
        (mgr : State) (from : PeerId)
        → Healthy H D W mgr
        → (request H D W P mgr from).0.is_running ≡ false
    unfolding request
    request-idle mgr from h =
        let p = pause H D W P mgr in
        let (d, r, _) = pause-idle H D W P mgr h in
        elim (Option-cases (p.0.heap from).last_hash) [
          | inl e ↦ rw (request, d, e) r
          | inr (l, e) ↦
              rw (request, d, e)
                ((send-Quiet H D W P p.0 from (get_block_hashes_request l max_request)).is_running
                  ∙ r)
        ]

    on_signal-Ends :
        (now : ℕ) (mgr : State) (from : PeerId) (sg : Signal)
        → Ends sg
        → (o : Outcome) × (on_signal H D W P now mgr from sg ≡ (mgr, finished o))
    unfolding on_signal
    on_signal-Ends now mgr from sg (inl e) =
        (failed sync_failed, ap (on_signal H D W P now mgr from) e)
    on_signal-Ends now mgr from sg (inr (inl e)) =
        (failed sync_failed, ap (on_signal H D W P now mgr from) e)
    on_signal-Ends now mgr from sg (inr (inr e)) = (done, ap (on_signal H D W P now mgr from) e)

    -- The request of a sync leaves the platform without a producer, whether it could be sent or not; and
    -- so does the end of the sync by an error, an abort, or an empty list of hashes.
    pub request-suspended :
        {config : AppConfig} {e : Engine H D W} {s : Running H D W} (now : ℕ) (from : PeerId)
        → Reachable H D W P config e s
        → (let mgr = (sync_step H D W P now s.manager from requesting).0 in
            (mgr.is_running ≡ false)
            × ((sg : Signal)
                → Ends sg
                → (o : Outcome) × (on_signal H D W P now mgr from sg ≡ (mgr, finished o))))
    unfolding sync_step
    request-suspended {s = s} now from r =
        let h = (Reachable-Sound H D W P r).healthy in
        (
          request-idle s.manager from h,
          λ sg e. on_signal-Ends now (request H D W P s.manager from).0 from sg e,
        )

    -- Whether all blocks of a list of hashes can be read, one after the other.
    unfoldable pub all_read : Engine H D W → List Byte64 → Bool
    all_read e [] = true
    all_read e (u ∷ us) =
        let found = block_of H D W e u in
        elim found.1 [ err x ↦ false | ok b ↦ all_read found.0 us ]

    fail_with-done : (x : Error) → fail_with H D W P x ≢ done
    unfolding fail_with
    fail_with-done x = elim (Bool-cases (is_panic H D W P x)) [
      | inl e ↦ rw (fail_with, e) (λ k. ground (arith, k))
      | inr e ↦ rw (fail_with, e) (λ k. ground (arith, k))
    ]

    send-engine :
        (mgr : State) (id : PeerId) (m : Message Byte64)
        → (send H D W P mgr id m).0.engine ≡ mgr.engine
    unfolding send
    send-engine mgr id m = elim (Bool-cases (P.sends id)) [
      | inl e ↦ rw (send, e) refl
      | inr e ↦ rw (send, e) refl
    ]

    -- The uncles are announced without an error exactly if all of them can be read.
    announce-all_read :
        (mgr : State) (us : List Byte64) (from : PeerId)
        → (let a = announce H D W P mgr us from in
            ((all_read mgr.engine us ≡ true) × (a.1 ≡ done))
            ⊎ ((all_read mgr.engine us ≡ false) × (a.1 ≢ done)))
    unfolding announce all_read mark_seen set_peer
    announce-all_read mgr [] from = inl (refl, refl)
    announce-all_read mgr (u ∷ us) from =
        let found = block_of H D W mgr.engine u in
        let mgr₁ : State = record mgr { engine = found.0; refs = suc mgr.refs } in
        let mgr₂ = mark_seen H D W P mgr₁ from mgr.refs in
        elim (Result-cases found.1) [
          | inr (x, e) ↦ rw (announce, all_read, e) (inr (refl, fail_with-done x))
          | inl (b, e) ↦
              let mgr₃ = (send H D W P mgr₂ from (new_block (wire_spec H W b))).0 in
              let same = send-engine mgr₂ from (new_block (wire_spec H W b)) in
              let rest = announce-all_read mgr₃ us from in
              rw (announce, all_read, e)
                (subst
                  (λ (v : Engine H D W).
                    ((all_read v us ≡ true) × ((announce H D W P mgr₃ us from).1 ≡ done))
                    ⊎ ((all_read v us ≡ false) × ((announce H D W P mgr₃ us from).1 ≢ done)))
                  same rest)
        ]

    -- Whether the round at whose end a sync stands is the last one: there is a best block, no more is to
    -- be fetched from the peer, there is a candidate block, and all of its uncles can be read.
    unfoldable pub caught_up : ℕ → State → PeerId → Bool
    unfolding all_read
    caught_up now mgr from =
        let (e, best) = best_block H D W mgr.engine in
        elim best [
          | none ↦ false
          | some b ↦ elim (needs_sync H D W P mgr b from) [
            | some false ↦
                let (e', candidate) = new_candidate_block H D W now e in
                elim candidate [ none ↦ false | some c ↦ all_read e' c.spec.uncles ]
            | _ ↦ false
          ]
        ]

    -- Production resumes, unless a call to end it waits, exactly if `last` says so; and otherwise there is
    -- an error or a wait, and the flag is as it was.
    abbrev Ended : Bool → State → State × Outcome → Type 0
    Ended last mgr r =
        ((last ≡ true) × (r.1 ≡ done) × (r.0.is_running ≡ (mgr.is_running || (mgr.waiting == 0))))
        ⊎ ((last ≡ false) × (r.1 ≢ done) × (r.0.is_running ≡ mgr.is_running))

    start-resumes :
        (mgr : State)
        → (let r : State × Outcome =
              if mgr.is_running then (mgr, done) else ((start H D W mgr).0, done) in
            (r.1 ≡ done) × (r.0.is_running ≡ (mgr.is_running || (mgr.waiting == 0))))
    start-resumes mgr = elim (Bool-cases mgr.is_running) [
      | inl k ↦
          rw
            (if_true {A = State × Outcome} mgr.is_running (mgr, done) ((start H D W mgr).0, done) k)
            (refl, ground (arith, k))
      | inr k ↦
          let is =
            if_false {A = State × Outcome} mgr.is_running (mgr, done) ((start H D W mgr).0, done)
              k in
          elim (zero-cases H D W mgr.waiting) [
            | inl w ↦ rw (is, start-idle H D W mgr k w) (refl, ground (arith, k, w))
            | inr (n, w) ↦ rw (is, start-waiting H D W mgr n k w) (refl, ground (arith, k, w))
          ]
    ]

    finish_sync-Ended :
        (now : ℕ) (mgr : State) (from : PeerId)
        → (let (e, candidate) = new_candidate_block H D W now mgr.engine in
            Ended
              (elim candidate [ none ↦ false | some c ↦ all_read e c.spec.uncles ])
              mgr
              (finish_sync H D W P now mgr from))
    unfolding finish_sync
    finish_sync-Ended now mgr from =
        let r = new_candidate_block H D W now mgr.engine in
        let mgr₁ : State = record mgr { engine = r.0 } in
        elim (Option-cases r.1) [
          | inl e ↦ rw (finish_sync, e) (inr (refl, λ k. ground (arith, k), refl))
          | inr (c, e) ↦
              let a = announce H D W P mgr₁ c.spec.uncles from in
              let q = announce-Quiet H D W P mgr₁ c.spec.uncles from in
              elim (announce-all_read mgr₁ c.spec.uncles from) [
                | inl (t, d) ↦
                    let (o, b) = start-resumes a.0 in
                    rw (finish_sync, e, d)
                      (inl (
                        t,
                        o,
                        b
                            ∙ ap (λ x. x || (a.0.waiting == 0)) q.is_running
                            ∙ ap (λ n. mgr.is_running || (n == 0)) q.waiting,
                      ))
                | inr (t, nd) ↦ elim (Outcome-cases a.1) [
                  | inl n ↦ absurd (nd n)
                  | inr (inl n) ↦
                      rw (finish_sync, e, n) (inr (t, λ k. ground (arith, k), q.is_running))
                  | inr (inr (inl n)) ↦
                      rw (finish_sync, e, n) (inr (t, λ k. ground (arith, k), q.is_running))
                  | inr (inr (inr (x, n))) ↦
                      rw (finish_sync, e, n) (inr (t, λ k. ground (arith, k), q.is_running))
                ]
              ]
        ]

    finished-injective : {a b : Outcome} → finished a ≡ finished b → a ≡ b
    finished-injective {a = a} e = ap (λ s. elim s [ finished o ↦ o | _ ↦ a ]) e

    abbrev pub Resumes : ℕ → State → PeerId → State × Stage → Type 0
    Resumes now mgr from r =
        ((caught_up now mgr from ≡ true)
          × (r.1 ≡ finished done)
          × (r.0.is_running ≡ (mgr.is_running || (mgr.waiting == 0))))
        ⊎ ((caught_up now mgr from ≡ false)
            × (r.1 ≢ finished done)
            × (r.0.is_running ≡ mgr.is_running))

    -- At the end of a round, a sync ends without an error exactly if it has caught up with the peer and
    -- the uncles of the next candidate block can all be read. Then production runs, unless a call of
    -- `Stop` was waiting for a producer to end. In every other case, be it an uncle that cannot be read,
    -- a missing block, or a further round, the sync does not start production.
    pub next_round-running :
        (now : ℕ) (mgr : State) (from : PeerId)
        → Resumes now mgr from (next_round H D W P now mgr from)
    unfolding next_round caught_up
    next_round-running now mgr from =
        let r = best_block H D W mgr.engine in
        let mgr₁ : State = record mgr { engine = r.0 } in
        elim (Option-cases r.1) [
          | inl e ↦ rw (next_round, caught_up, e) (inr (refl, λ k. ground (arith, k), refl))
          | inr (b, e) ↦ elim (Option-cases (needs_sync H D W P mgr b from)) [
            | inl n ↦ rw (next_round, caught_up, e, n) (inr (refl, λ k. ground (arith, k), refl))
            | inr (true, n) ↦
                rw (next_round, caught_up, e, n) (inr (refl, λ k. ground (arith, k), refl))
            | inr (false, n) ↦
                rw (next_round, caught_up, e, n)
                  (elim (finish_sync-Ended now mgr₁ from) [
                    | inl (t, o, k) ↦ inl (t, ap finished o, k)
                    | inr (t, o, k) ↦ inr (t, λ f. o (finished-injective f), k)
                  ])
          ]
        ]
