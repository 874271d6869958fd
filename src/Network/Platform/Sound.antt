-- ===== src/Network/Platform/Sound.antt =====
-- network/platform.go: which blocks of the network are passed on.
use go_trust_net.Prelude.{
  ℕ, suc, ◌≤◌, All, ltb, true, false, List, ◌∷◌, ◌++◌, length, Option, some, ◌≡◌, ◌≢◌, refl, sym,
  ap, subst, inl, inr, ◌⊎◌, Bool-cases, Option-cases, List-cases, ite-cases, arith,
}
use go_trust_net.Core.Digest.{Digests}
use go_trust_net.Db.{Database}
use go_trust_net.Db.PeerSet.{have_i_seen_it}
use go_trust_net.Consensus.{
  Transaction, WorldStates, Block, Key, Value, Engine, Error, Result, ok, err, Result-cases,
  duplicate_block, greedy_block, invalid_tx, block_validation, state_incorrect,
}
use go_trust_net.Consensus
use go_trust_net.Consensus.Blocks.{wire_spec, compute_hash}
use go_trust_net.Consensus.Operations.{check_network_block_pow, accept_network_block}
use go_trust_net.Consensus.Validate.{validate_block}
use go_trust_net.Consensus.Insert.{add_validated_block}
use go_trust_net.Consensus.Validate.Exact.{IsValid, validate_block-ok_iff}
use go_trust_net.Network.Trustee.{verify_mining_reward_tx}
use go_trust_net.Network.Platform.{Message, new_block, PeerId, Platform, Manager}
use go_trust_net.Network.Platform.Peers.{set_peer, mark_seen}
use go_trust_net.Network.Platform.Process.{
  process_txs, forward_block, submit_block, apply_block, process_block,
}
use go_trust_net.Network.Platform.Flood.{knows, targets, delivered, broadcast-once}

module _ (H : Digests) (D : Database (Key H.Byte64) (Value H.Byte64))
    (W : WorldStates H.Byte64) where
  open H use {Byte64, dec}
  open W use {World}

  abbrev State : Type 0
  State = Manager H D W

  abbrev Reply : Type 0
  Reply = State × Option Byte64 × Result (Unit {0})

  module _ (P : Platform H W) where
    -- A block was passed on: it went to peers of the manager, which are marked with its hash now.
    pub record Forwarded (before : List (PeerId × Message Byte64)) (mgr' : State)
        (b : Block Byte64 World) : Type 0 where
      pub pointer : ℕ
      pub peers : List PeerId
      pub sent : mgr'.sent ≡ before ++ delivered P.sends (new_block (wire_spec H W b)) peers
      pub all_know : All (λ id. knows H D W mgr' pointer id ≡ true) peers

    -- The engine has taken a block: its parent is stored and its depth, its uncles and its weight fit, its
    -- world state is the one that it names, and its insertion into the chain has ended without an error.
    pub record Entered (e : Engine H D W) (b₁ b₂ : Block Byte64 World) (h : Byte64) : Type 0 where
      pub parent : Block Byte64 World
      pub valid : IsValid H D W e.db b₁ parent
      pub hashing : Engine H D W
      pub same : hashing ≡ record e { tables = hashing.tables }
      pub inserted : (add_validated_block H D W P.fuel hashing b₂ parent).1 ≡ ok tt
      pub world : World
      pub has_world : b₂.world_state ≡ some world
      pub root : W.hash world ≡ b₂.spec.state
      pub hashed : b₂.hash ≡ some h

    -- Nothing was sent, since the block was refused.
    abbrev pub Refused : State → Reply → Type 0
    Refused mgr (mgr', h, r) = ((x : Error) × (r ≡ err x)) × (mgr'.sent ≡ mgr.sent)

    forward_block-Forwarded :
        (mgr : State) (b : Block Byte64 World) (h : Byte64) (from : PeerId)
        → (let r = forward_block H D W P mgr b h from in
            ((r.1 ≡ ok tt)
              × ((have_i_seen_it dec mgr.peer_db h).1 ≡ false)
              × Forwarded mgr.sent r.0 b)
            ⊎ (((x : Error) × (r.1 ≡ err x)) × (r.0.sent ≡ mgr.sent)))
    unfolding forward_block mark_seen set_peer
    forward_block-Forwarded mgr b h from =
        let mgr₁ = mark_seen H D W P (record mgr { refs = suc mgr.refs }) from mgr.refs in
        let seen = have_i_seen_it dec mgr₁.peer_db h in
        let mgr₂ : State = record mgr₁ { peer_db = seen.0 } in
        let (s, _, k, _) = broadcast-once H D W P mgr₂ b b mgr.refs in
        elim (Bool-cases seen.1) [
          | inl e ↦ rw (forward_block, e) (inr ((duplicate_block, refl), refl))
          | inr e ↦
              rw (forward_block, e)
                (inl (
                  refl,
                  refl,
                  record {
                    pointer = mgr.refs;
                    peers = targets H D W mgr₂ mgr.refs;
                    sent = s;
                    all_know = k;
                  },
                ))
        ]

    Entry : Engine H D W → Block Byte64 World → Block Byte64 World × Result (Unit {0}) → Type 0
    Entry e b (b', r) =
        ((r ≡ ok tt) × ((h : Byte64) → b'.hash ≡ some h → Entered e b b' h))
        ⊎ ((x : Error) × (r ≡ err x))

    accept_network_block-Entered :
        (e : Engine H D W) (b : Block Byte64 World)
        → (let r = accept_network_block H D W P.fuel P.pow_approver P.rounds e b in
            Entry e b (r.1, r.2))
    unfolding accept_network_block Entry
    accept_network_block-Entered e b = elim (Result-cases (validate_block H D W e.db b)) [
      | inr (x, n) ↦ rw (accept_network_block, n) (inr (x, refl))
      | inl ((b₁, parent), n) ↦
          let c = compute_hash H W P.pow_approver P.rounds e.tables b₁ in
          let e₁ : Engine H D W = record e { tables = c.0 } in
          elim (Option-cases c.1.0.world_state) [
            | inl m ↦ rw (accept_network_block, n, m) (inr (Consensus.panic, refl))
            | inr (w, m) ↦
                rw (accept_network_block, n, m)
                  (ite-cases
                    (λ (r : Engine H D W × Block Byte64 World × Result (Unit {0})).
                      Entry e b (r.1, r.2))
                    (dec (W.hash w) c.1.0.spec.state) _ _
                    (λ q. elim (Result-cases (add_validated_block H D W P.fuel e₁ c.1.0 parent).1) [
                      | inr (x, a) ↦ inr (x, a)
                      | inl (u, a) ↦ inl (
                        a,
                        λ h k. record {
                          parent = parent;
                          valid = (validate_block-ok_iff H D W e.db b parent).0 (b₁, n);
                          world = w;
                          has_world = m;
                          root = q;
                          hashed = k;
                          hashing = e₁;
                          same = refl;
                          inserted = a;
                        },
                      )
                    ])
                    (λ q. inr (state_incorrect, refl)))
          ]
    ]

    -- How a block comes to be passed on once the application has taken it: its proof of work holds for the
    -- approver, the engine has taken it, this node had not seen its hash, and it was sent.
    pub record Submitted (mgr : State) (b : Block Byte64 World) (r : Reply) : Type 0 where
      pub received : b.is_network_block ≡ true
      pub worked : Block Byte64 World
      pub pow : (check_network_block_pow H D W P.pow_approver P.rounds mgr.engine b).1 ≡ ok worked
      pub block : Block Byte64 World
      pub hash : Byte64
      pub engine : Engine H D W
      pub same : engine ≡ record (mgr.engine) { tables = engine.tables }
      pub entered : Entered engine worked block hash
      pub unseen : (have_i_seen_it dec mgr.peer_db hash).1 ≡ false
      pub reply : (r.1 ≡ some hash) × (r.2 ≡ ok tt)
      pub forwarded : Forwarded mgr.sent r.0 block

    err-ok : {A : Type 0} {x : Error} {a : A} → err x ≢ ok a
    err-ok h = ground (arith, h)

    check_network_block_pow-received :
        (e : Engine H D W) (b : Block Byte64 World)
        → (let r = check_network_block_pow H D W P.pow_approver P.rounds e b in
            (r.0 ≡ record e { tables = r.0.tables })
            × ((b' : Block Byte64 World) → r.1 ≡ ok b' → b.is_network_block ≡ true))
    unfolding check_network_block_pow
    check_network_block_pow-received e b = elim (Bool-cases b.is_network_block) [
      | inl n ↦ rw (check_network_block_pow, n) (refl, λ b' h. refl)
      | inr n ↦ rw (check_network_block_pow, n) (refl, λ b' h. absurd (err-ok h))
    ]

    submit_block-Submitted :
        (mgr : State) (b : Block Byte64 World) (from : PeerId)
        → (let r = submit_block H D W P mgr b from in Submitted mgr b r ⊎ Refused mgr r)
    unfolding submit_block Entry
    submit_block-Submitted mgr b from =
        let checked = check_network_block_pow H D W P.pow_approver P.rounds mgr.engine b in
        let mgr₁ : State = record mgr { engine = checked.0 } in
        let kept = check_network_block_pow-received mgr.engine b in
        elim (Result-cases checked.1) [
          | inr (x, n) ↦ rw (submit_block, n) (inr ((x, refl), refl))
          | inl (b₁, n) ↦
              let a = accept_network_block H D W P.fuel P.pow_approver P.rounds checked.0 b₁ in
              let mgr₂ : State = record mgr₁ { engine = a.0 } in
              elim (accept_network_block-Entered checked.0 b₁) [
                | inr (x, m) ↦ rw (submit_block, n, m) (inr ((x, refl), refl))
                | inl (m, enter) ↦ elim (Option-cases a.1.hash) [
                  | inl k ↦ rw (submit_block, n, m, k) (inr ((Consensus.panic, refl), refl))
                  | inr (h, k) ↦
                      let f = forward_block H D W P mgr₂ a.1 h from in
                      elim (forward_block-Forwarded mgr₂ a.1 h from) [
                        | inr (x, q) ↦ rw (submit_block, n, m, k) (inr (x, q))
                        | inl (o, seen, q) ↦
                            rw (submit_block, n, m, k)
                              (inl (record {
                                received = kept.1 b₁ n;
                                worked = b₁;
                                pow = n;
                                block = a.1;
                                hash = h;
                                engine = checked.0;
                                same = kept.0;
                                entered = enter h k;
                                unseen = seen;
                                reply = (refl, o);
                                forwarded = q;
                              }))
                      ]
                ]
              ]
        ]

    -- How a block of the network comes to be passed on: it has the reward of its miner, by its miner and
    -- with a valid signature, and at least one transaction more; the application has taken all of
    -- these, one after the other; and so has the engine the block.
    pub record Relayed (mgr : State) (b : Block Byte64 World) (r : Reply) : Type 0 where
      pub reward : Transaction
      pub txs : List Transaction
      pub first : b.spec.txs ≡ reward ∷ txs
      pub more : 1 ≤ length txs
      pub rewarded : Block Byte64 World
      pub verified : verify_mining_reward_tx H W P.codec mgr.engine.tables b ≡ ok (rewarded, true)
      pub applied : Block Byte64 World
      pub taken : process_txs H D W P mgr.engine.tables rewarded txs ≡ (applied, true)
      pub submitted : Submitted mgr applied r

    apply_block-Submitted :
        (mgr : State) (b : Block Byte64 World) (tx : Transaction) (txs : List Transaction)
        (from : PeerId)
        → (let p = process_txs H D W P mgr.engine.tables b txs in
            let r = apply_block H D W P mgr b (tx ∷ txs) from in
            ((p.1 ≡ true) × Submitted mgr p.0 r) ⊎ Refused mgr r)
    unfolding apply_block
    apply_block-Submitted mgr b tx txs from =
        let p = process_txs H D W P mgr.engine.tables b txs in
        elim (Bool-cases p.1) [
          | inr k ↦ rw (apply_block, k) (inr ((invalid_tx, refl), refl))
          | inl k ↦ elim (submit_block-Submitted mgr p.0 from) [
            | inl s ↦ rw (apply_block, k) (inl (refl, s))
            | inr s ↦ rw (apply_block, k) (inr s)
          ]
        ]

    apply_block-Relayed :
        (mgr : State) (b b₁ : Block Byte64 World) (from : PeerId)
        → ltb (length b.spec.txs) 2 ≡ false
        → verify_mining_reward_tx H W P.codec mgr.engine.tables b ≡ ok (b₁, true)
        → (let r = apply_block H D W P mgr b₁ b.spec.txs from in Relayed mgr b r ⊎ Refused mgr r)
    unfolding apply_block
    apply_block-Relayed mgr b b₁ from e v = elim (List-cases b.spec.txs) [
      | inl n ↦
          subst (λ l. let r = apply_block H D W P mgr b₁ l from in Relayed mgr b r ⊎ Refused mgr r)
            (sym n) (inr ((Consensus.panic, refl), refl))
      | inr (tx, txs, n) ↦
          let r = process_txs H D W P mgr.engine.tables b₁ txs in
          let two : ltb (length (tx ∷ txs)) 2 ≡ false = subst (λ l. ltb (length l) 2 ≡ false) n e in
          subst (λ l. let r = apply_block H D W P mgr b₁ l from in Relayed mgr b r ⊎ Refused mgr r)
            (sym n)
            (elim (apply_block-Submitted mgr b₁ tx txs from) [
              | inr s ↦ inr s
              | inl (k, s) ↦ inl (record {
                reward = tx;
                txs = txs;
                first = n;
                more = ground (arith, two);
                rewarded = b₁;
                verified = v;
                applied = r.0;
                taken = ap (λ t. (r.0, t)) k;
                submitted = s;
              })
            ])
    ]

    -- A block of the network either is refused with an error, and nothing is sent, or it is passed on, and
    -- then its reward transaction was verified, the application has taken its other transactions, of which
    -- there is one at least, its proof of work was approved, it was valid for the engine, its insertion
    -- into the chain ended without an error, and this node had not seen its hash.
    pub process_block-Relayed :
        (mgr : State) (b : Block Byte64 World) (from : PeerId)
        → (let r = process_block H D W P mgr b from in Relayed mgr b r ⊎ Refused mgr r)
    unfolding process_block
    process_block-Relayed mgr b from = elim (Bool-cases (ltb (length b.spec.txs) 2)) [
      | inl e ↦ rw (process_block, e) (inr ((greedy_block, refl), refl))
      | inr e ↦ elim (Result-cases (verify_mining_reward_tx H W P.codec mgr.engine.tables b)) [
        | inr (x, v) ↦ rw (process_block, e, v) (inr ((x, refl), refl))
        | inl ((b₁, false), v) ↦ rw (process_block, e, v) (inr ((block_validation, refl), refl))
        | inl ((b₁, true), v) ↦ rw (process_block, e, v) (apply_block-Relayed mgr b b₁ from e v)
      ]
    ]
