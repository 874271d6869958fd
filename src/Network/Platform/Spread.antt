-- ===== src/Network/Platform/Spread.antt =====
-- network/platform.go: the peers that a new block goes to. Its hash is a pointer that no peer is marked
-- with, but for the sender of the block.
use go_trust_net.Prelude.{
  ℕ, ℕ_discrete, suc, ◌<◌, All, Bool, ◌-◌, ltb, length, none, some, ◌⊎◌, Option-cases, sym, true,
  false, List, [], ◌∷◌, ◌++◌, ite, ite-cases, if_neg, ◌≡◌, refl, ap, ◌∙◌, subst, inl, inr,
  Bool-cases, if_true, if_false, arith,
}
use go_trust_net.Core.Digest.{Digests}
use go_trust_net.Db.{Database}
use go_trust_net.Db.PeerSet.{PeerSetDb, not_seen, peer_nodes_with_msg_not_seen, have_i_seen_it}
use go_trust_net.Common.Set.{has}
use go_trust_net.Consensus.{
  WorldStates, Block, Key, Value, Transaction, Engine, Error, ok, err, Result-cases,
}
use go_trust_net.Consensus.Operations.{mine_candidate_block}
use go_trust_net.Network.Platform.Handlers.{is_panic}
use go_trust_net.Network.Platform.Producer.{mine, on_timer, add_dropping, put_tx}
use go_trust_net.Consensus.Blocks.{bytes_dec, wire_spec}
use go_trust_net.Network.PeerNode.{has_tx}
use go_trust_net.Network.Platform.{
  Outcome, done, panicked, max_tx_count, AppConfig, new_block, PeerId, Peer, Platform, Manager,
}
use go_trust_net.Network.Platform.Peers.{set_peer, mark_seen, broadcast}
use go_trust_net.Network.Platform.Process.{forward_block}
use go_trust_net.Network.Platform.Quiet.{Fresh}
use go_trust_net.Network.Platform.Flood.{knows, targets, delivered, broadcast-once, mark_seen-knows}
use go_trust_net.Network.Platform.Reach.{Running, Reachable}
use go_trust_net.Network.Platform.Invariant.{Reachable-Sound}

-- The peers of a list of registered ones, and those other than one.
unfoldable pub everyone : List (PeerId × PeerId) → List PeerId
everyone [] = []
everyone ((i, n) ∷ nodes) = n ∷ everyone nodes

unfoldable pub others : PeerId → List PeerId → List PeerId
others from [] = []
others from (n ∷ ns) = ite (bytes_dec from n) (others from ns) (n ∷ others from ns)

module _ (H : Digests) (D : Database (Key H.Byte64) (Value H.Byte64))
    (W : WorldStates H.Byte64) where
  open H use {Byte64, dec}
  open W use {World}

  abbrev State : Type 0
  State = Manager H D W

  has-below : (r : ℕ) (known : List ℕ) → All (λ i. i < r) known → has ℕ_discrete known r ≡ false
  unfolding has
  has-below r [] h = refl
  has-below r (i ∷ known) h =
      if_neg (ℕ_discrete i r) (λ e. let l = h.0 in omega (arith, l, e)) true
        (has ℕ_discrete known r)
      ∙ has-below r known h.1

  -- Nobody is marked with a pointer that is only made.
  unmarked : (mgr : State) → Fresh H D W mgr → (id : PeerId) → knows H D W mgr mgr.refs id ≡ false
  unfolding has_tx
  unmarked mgr f id = has-below mgr.refs (mgr.heap id).known.known_txs (f id)

  not_seen-everyone :
      (f : PeerId → Bool) (nodes : List (PeerId × PeerId))
      → ((n : PeerId) → f n ≡ false)
      → not_seen f nodes ≡ everyone nodes
  unfolding not_seen everyone
  not_seen-everyone f [] h = refl
  not_seen-everyone f ((i, n) ∷ nodes) h =
      rw (not_seen, h n) (ap (λ l. n ∷ l) (not_seen-everyone f nodes h))

  not_seen-others :
      (from : PeerId) (f : PeerId → Bool) (nodes : List (PeerId × PeerId))
      → f from ≡ true
      → ((n : PeerId) → (¬ (from ≡ n)) → f n ≡ false)
      → not_seen f nodes ≡ others from (everyone nodes)
  unfolding not_seen others everyone
  not_seen-others from f [] h k = refl
  not_seen-others from f ((i, n) ∷ nodes) h k =
      let rest = not_seen-others from f nodes h k in
      ite-cases (λ l. not_seen f ((i, n) ∷ nodes) ≡ l) (bytes_dec from n) _ _
        (λ e.
          if_true (f n) (not_seen f nodes) (n ∷ not_seen f nodes) (subst (λ j. f j ≡ true) e h)
          ∙ rest)
        (λ e.
          if_false (f n) (not_seen f nodes) (n ∷ not_seen f nodes) (k n e) ∙ ap (λ l. n ∷ l) rest)

  have_i_seen_it-nodes :
      (ps : PeerSetDb PeerId PeerId Byte64) (a : Byte64)
      → (have_i_seen_it dec ps a).0.nodes ≡ ps.nodes
  unfolding have_i_seen_it
  have_i_seen_it-nodes ps a = elim (Bool-cases (has dec ps.my_history a)) [
    | inl e ↦ rw (have_i_seen_it, e) refl
    | inr e ↦ rw (have_i_seen_it, e) refl
  ]

  module _ (P : Platform H W) where
    -- The pointer marks its peer, and no other.
    marked_only :
        (mgr : State) (from n : PeerId) (r : ℕ)
        → ¬ (from ≡ n)
        → knows H D W mgr r n ≡ false
        → knows H D W (mark_seen H D W P mgr from r) r n ≡ false
    unfolding mark_seen set_peer
    marked_only mgr from n r ne k =
        ite-cases (λ (p : Peer Byte64). has_tx ℕ_discrete p.known r ≡ false) (bytes_dec from n) _ _
          (λ e. absurd (ne e)) (λ e. k)

    -- What became of a block that was to be mined: either it was mined, the producer goes on, and the
    -- block as it was mined was sent to every registered peer; or it was not, and nothing was sent.
    abbrev pub Mined : State → Block Byte64 World → State × Outcome → Type 0
    Mined mgr b (mgr', o) =
        let mined = (mine_candidate_block H D W P.fuel P.pow_approver P.rounds mgr.engine b).1 in
        ((b' : Block Byte64 World) × (h : Byte64) × (mined ≡ ok b')
          × (b'.hash ≡ some h)
          × (o ≡ done)
          × (mgr'.sent
              ≡ mgr.sent
                ++ delivered P.sends (new_block (wire_spec H W b')) (everyone mgr.peer_db.nodes)))
        ⊎ ((((x : Error) × (mined ≡ err x))
              ⊎ ((b' : Block Byte64 World) × (mined ≡ ok b') × (b'.hash ≡ none)))
            × (mgr'.sent ≡ mgr.sent))

    mine-Mined :
        (mgr : State) (b : Block Byte64 World) → Fresh H D W mgr → Mined mgr b (mine H D W P mgr b)
    unfolding mine wire_spec peer_nodes_with_msg_not_seen not_seen
    mine-Mined mgr b f =
        let m = mine_candidate_block H D W P.fuel P.pow_approver P.rounds mgr.engine b in
        let r = mgr.refs in
        let mgr₁ : State = record mgr { engine = m.0; refs = suc r } in
        elim (Result-cases m.1) [
          | inr (x, e) ↦ elim (Bool-cases (is_panic H D W P x)) [
            | inl k ↦ rw (mine, e, k) (inr (inl (x, refl), refl))
            | inr k ↦ rw (mine, e, k) (inr (inl (x, refl), refl))
          ]
          | inl (b', e) ↦ elim (Option-cases b'.hash) [
            | inl k ↦
                let is : mine H D W P mgr b ≡ (record mgr { engine = m.0 }, panicked) =
                  rw (mine, e, k) refl in
                subst (Mined mgr b) (sym is) (inr (inr (b', e, k), refl))
            | inr (h, k) ↦
                let is : mine H D W P mgr b ≡ ((broadcast H D W P mgr₁ b' mgr.refs).0, done) =
                  rw (mine, e, k) refl in
                let all : targets H D W mgr₁ r ≡ everyone mgr.peer_db.nodes =
                  not_seen-everyone (knows H D W mgr₁ r) mgr.peer_db.nodes (unmarked mgr f) in
                let sent =
                  (broadcast-once H D W P mgr₁ b' b' r).0
                  ∙ ap (λ ids. mgr.sent ++ delivered P.sends (new_block (wire_spec H W b')) ids)
                      all in
                subst (Mined mgr b) (sym is) (inl (b', h, e, k, refl, sent))
          ]
        ]

    on_timer-mine :
        (mgr : State) (b : Block Byte64 World) (n : ℕ)
        → ltb 1 (length b.spec.txs) ≡ true
        → (let r = on_timer H D W P mgr (record { new_block = some b; tx_count = n }) in
            (r.0, r.2) ≡ mine H D W P mgr b)
    unfolding on_timer
    on_timer-mine mgr b n e = rw (on_timer, e) refl

    put_tx-mine :
        (mgr : State) (b b₂ : Block Byte64 World) (tx : Transaction)
        → (P.tx_processor mgr.engine.tables b tx).1 ≡ true
        → add_dropping H D W P mgr (P.tx_processor mgr.engine.tables b tx).0 tx ≡ some b₂
        → (let r = put_tx H D W P mgr b (max_tx_count - 1) tx in (r.0, r.2) ≡ mine H D W P mgr b₂)
    unfolding put_tx
    put_tx-mine mgr b b₂ tx e k = rw (put_tx, e, k) refl

    -- In a reachable state, whatever block the node mines, be it from `mineCandidateBlock` itself, when
    -- the timer of the producer runs out on a block with more than the reward, or when a transaction
    -- that is taken fills the block: if the mining succeeds, the mined block is sent to every registered
    -- peer and the producer goes on, and if not, nothing is sent. And a block of the network that has
    -- passed all checks, and whose hash this node has not seen, is sent to every registered peer but
    -- its sender.
    pub Reachable-spread :
        {config : AppConfig} {e : Engine H D W} {s : Running H D W} (b : Block Byte64 World)
        (h : Byte64) (from : PeerId)
        → Reachable H D W P config e s
        → (let mgr = s.manager in
            let all = everyone mgr.peer_db.nodes in
            let m = new_block (wire_spec H W b) in
            let received = forward_block H D W P mgr b h from in
            Mined mgr b (mine H D W P mgr b)
            × ((n : ℕ)
                → ltb 1 (length b.spec.txs) ≡ true
                → (let r = on_timer H D W P mgr (record { new_block = some b; tx_count = n }) in
                    Mined mgr b (r.0, r.2)))
            × ((tx : Transaction) (b₂ : Block Byte64 World)
                → (P.tx_processor mgr.engine.tables b tx).1 ≡ true
                → add_dropping H D W P mgr (P.tx_processor mgr.engine.tables b tx).0 tx ≡ some b₂
                → (let r = put_tx H D W P mgr b (max_tx_count - 1) tx in Mined mgr b₂ (r.0, r.2)))
            × ((have_i_seen_it dec mgr.peer_db h).1 ≡ false
                → (received.1 ≡ ok tt)
                  × (received.0.sent ≡ mgr.sent ++ delivered P.sends m (others from all))))
    unfolding forward_block mark_seen set_peer peer_nodes_with_msg_not_seen
    Reachable-spread {s = s} b h from reached =
        let mgr = s.manager in
        let r = mgr.refs in
        let f = (Reachable-Sound H D W P reached).healthy.fresh in
        let mgr₀ : State = record mgr { refs = suc r } in
        let mgr₁ = mark_seen H D W P mgr₀ from r in
        let mgr₂ : State = record mgr₁ { peer_db = (have_i_seen_it dec mgr₁.peer_db h).0 } in
        let m = new_block (wire_spec H W b) in
        let rest : targets H D W mgr₂ r ≡ others from (everyone mgr.peer_db.nodes) =
          ap (not_seen (knows H D W mgr₁ r)) (have_i_seen_it-nodes mgr.peer_db h)
          ∙ not_seen-others from (knows H D W mgr₁ r) mgr.peer_db.nodes
              (mark_seen-knows H D W P mgr₀ from r)
              (λ n ne. marked_only mgr₀ from n r ne (unmarked mgr f n)) in
        (
          mine-Mined mgr b f,
          λ n e. subst (Mined mgr b) (sym (on_timer-mine mgr b n e)) (mine-Mined mgr b f),
          λ tx b₂ e k.
              subst (Mined mgr b₂) (sym (put_tx-mine mgr b b₂ tx e k)) (mine-Mined mgr b₂ f),
          λ seen.
              rw (forward_block, seen)
                (
                  refl,
                  (broadcast-once H D W P mgr₂ b b r).0
                      ∙ ap (λ ids. mgr.sent ++ delivered P.sends m ids) rest,
                ),
        )
