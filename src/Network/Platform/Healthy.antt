-- ===== src/Network/Platform/Healthy.antt =====
-- network/platform.go: the state of a platform manager that all calls keep, and how the calls that start
-- and end the producer, and `Submit`, keep it.
use go_trust_net.Prelude.{
  ℕ, zero, suc, if_false, ◌+◌, ◌≤◌, ltb, true, false, [], ◌∷◌, length, length-append, ◌≡◌, refl,
  sym, ap, ◌∙◌, subst, inl, inr, Bool-cases, if_true, arith, ◌⊎◌,
}
use go_trust_net.Core.Digest.{Digests}
use go_trust_net.Db.{Database}
use go_trust_net.Consensus.{Transaction, WorldStates, Key, Value}
use go_trust_net.Network.Platform.{
  done, blocked, failed, duplicate_suspend, duplicate_start, PeerId, Manager, tx_queue_size,
  chan_size,
}
use go_trust_net.Network.Platform.Lifecycle.{spawn, start, shut_down, suspend, stop, submit}
use go_trust_net.Network.Platform.Quiet.{Fresh, Quiet, waiting_signals}

module _ (H : Digests) (D : Database (Key H.Byte64) (Value H.Byte64))
    (W : WorldStates H.Byte64) where
  open H use {Byte64}
  open W use {World}

  abbrev State : Type 0
  State = Manager H D W

  -- One producer runs, if the flag says so, and none otherwise.
  abbrev pub IsSteady : State → Type 0
  IsSteady mgr =
      ((mgr.is_running ≡ true) × (mgr.producers ≡ 1))
      ⊎ ((mgr.is_running ≡ false) × (mgr.producers ≡ 0))

  pub record Healthy (mgr : State) : Type 0 where
    pub steady : IsSteady mgr
    pub queue : length mgr.tx_q ≤ tx_queue_size
    pub signals : (id : PeerId) → waiting_signals H D W mgr id ≤ chan_size
    pub fresh : Fresh H D W mgr

  pub Quiet-Healthy : {a b : State} → Quiet H D W a b → Healthy a → Healthy b
  Quiet-Healthy q h = record {
    steady = elim h.steady [
      | inl (r, p) ↦ inl (q.is_running ∙ r, q.producers ∙ p)
      | inr (r, p) ↦ inr (q.is_running ∙ r, q.producers ∙ p)
    ];
    queue = subst (λ l. length l ≤ tx_queue_size) (sym q.tx_q) h.queue;
    signals = λ id. q.signals id (h.signals id);
    fresh = q.fresh h.fresh;
  }

  pub zero-cases : (n : ℕ) → (n ≡ 0) ⊎ ((m : ℕ) × (n ≡ suc m))
  zero-cases zero = inl refl
  zero-cases (suc n) = inr (n, refl)

  pub start-running :
      (mgr : State) → mgr.is_running ≡ true → start H D W mgr ≡ (mgr, failed duplicate_start)
  unfolding start
  start-running mgr r = rw (start, r) refl

  pub start-idle :
      (mgr : State)
      → mgr.is_running ≡ false
      → mgr.waiting ≡ 0
      → start H D W mgr ≡ (record mgr { producers = mgr.producers + 1; is_running = true }, done)
  unfolding start spawn
  start-idle mgr r w = if_false mgr.is_running _ _ r ∙ ap (λ n. (spawn H D W n mgr, done)) w

  -- The producer that is started takes the value of a call that waits.
  pub start-waiting :
      (mgr : State) (n : ℕ)
      → mgr.is_running ≡ false
      → mgr.waiting ≡ suc n
      → start H D W mgr ≡ (record mgr { waiting = n; is_running = false }, done)
  unfolding start spawn
  start-waiting mgr n r w = if_false mgr.is_running _ _ r ∙ ap (λ m. (spawn H D W m mgr, done)) w

  pub start-Healthy : (mgr : State) → Healthy mgr → Healthy (start H D W mgr).0
  start-Healthy mgr h = elim h.steady [
    | inl (r, p) ↦ rw (start-running mgr r) h
    | inr (r, p) ↦ elim (zero-cases mgr.waiting) [
      | inl w ↦ rw (start-idle mgr r w) (record {
        steady = inl (refl, ap (λ n. n + 1) p);
        queue = h.queue;
        signals = h.signals;
        fresh = h.fresh;
      })
      | inr (n, w) ↦
          rw (start-waiting mgr n r w) (record {
            steady = inr (refl, p);
            queue = h.queue;
            signals = h.signals;
            fresh = h.fresh;
          })
    ]
  ]

  -- A running producer is ended, and without one the call waits.
  pub shut_down-running :
      (mgr : State)
      → Healthy mgr
      → mgr.is_running ≡ true
      → shut_down H D W mgr ≡ (record mgr { producers = 0; is_running = false }, done)
  unfolding shut_down
  shut_down-running mgr h r = elim h.steady [
    | inl (_, p) ↦ rw (shut_down, p) refl
    | inr (r', _) ↦ ground (arith, r, r')
  ]

  pub shut_down-idle :
      (mgr : State)
      → Healthy mgr
      → mgr.is_running ≡ false
      → shut_down H D W mgr ≡ (record mgr { waiting = mgr.waiting + 1 }, blocked)
  unfolding shut_down
  shut_down-idle mgr h r = elim h.steady [
    | inl (r', _) ↦ ground (arith, r, r')
    | inr (_, p) ↦ simp (shut_down, p)
  ]

  pub idle-Healthy :
      (mgr : State) → Healthy mgr → Healthy (record mgr { producers = 0; is_running = false })
  idle-Healthy mgr h = record {
    steady = inr (refl, refl);
    queue = h.queue;
    signals = h.signals;
    fresh = h.fresh;
  }

  pub stop-Healthy : (mgr : State) → Healthy mgr → Healthy (stop H D W mgr).0
  unfolding stop
  stop-Healthy mgr h = elim h.steady [
    | inl (r, p) ↦ rw (shut_down-running mgr h r) (idle-Healthy mgr h)
    | inr (r, p) ↦
        rw (shut_down-idle mgr h r)
          (record { steady = h.steady; queue = h.queue; signals = h.signals; fresh = h.fresh })
  ]

  pub suspend-idle :
      (mgr : State) → mgr.is_running ≡ false → suspend H D W mgr ≡ (mgr, failed duplicate_suspend)
  unfolding suspend
  suspend-idle mgr r = rw (suspend, r) refl

  pub suspend-running :
      (mgr : State)
      → Healthy mgr
      → mgr.is_running ≡ true
      → suspend H D W mgr ≡ (record mgr { producers = 0; is_running = false }, done)
  unfolding suspend
  suspend-running mgr h r = if_true mgr.is_running _ _ r ∙ shut_down-running mgr h r

  pub suspend-Healthy : (mgr : State) → Healthy mgr → Healthy (suspend H D W mgr).0
  suspend-Healthy mgr h = elim h.steady [
    | inl (r, p) ↦ rw (suspend-running mgr h r) (idle-Healthy mgr h)
    | inr (r, p) ↦ rw (suspend-idle mgr r) h
  ]

  pub submit-Healthy :
      (mgr : State) (tx : Transaction) → Healthy mgr → Healthy (submit H D W mgr tx).0
  unfolding submit
  submit-Healthy mgr tx h = elim (Bool-cases (ltb (length mgr.tx_q) tx_queue_size)) [
    | inl e ↦
        rw (submit, e)
          (record {
            steady = h.steady;
            queue = ground (arith, e, length-append mgr.tx_q (tx ∷ []));
            signals = h.signals;
            fresh = h.fresh;
          })
    | inr e ↦ rw (submit, e) h
  ]
