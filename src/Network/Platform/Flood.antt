-- ===== src/Network/Platform/Flood.antt =====
-- network/platform.go: whom a broadcast of a block goes to, by the pointer that marks its receivers.
use go_trust_net.Prelude.{
  ℕ, ℕ_discrete, Bool, true, false, List, [], ◌∷◌, ◌++◌, length, All, ◌≡◌, refl, sym, ap, ◌∙◌,
  subst, inl, inr, Bool-cases, if◌then◌else◌, ite-cases, if_true, if_false, arith,
}
use mathlib.Core.List.{append-nil, append_assoc}
use go_trust_net.Core.Digest.{Digests}
use go_trust_net.Db.{Database}
use go_trust_net.Db.PeerSet.{not_seen, peer_nodes_with_msg_not_seen}
use go_trust_net.Consensus.{WorldStates, Block, Key, Value}
use go_trust_net.Consensus.Blocks.{bytes_dec, wire_spec}
use go_trust_net.Network.PeerNode.{has_tx}
use go_trust_net.Network.PeerNode.Known.{add_tx-has}
use go_trust_net.Network.Platform.{Message, new_block, PeerId, Peer, Platform, Manager}
use go_trust_net.Network.Platform.Peers.{set_peer, send, mark_seen, relay, broadcast}

-- The messages that arrive: those whose `Send` succeeds.
unfoldable pub delivered :
    {B : Type 0} → (PeerId → Bool) → Message B → List PeerId → List (PeerId × Message B)
delivered sends m [] = []
delivered sends m (id ∷ ids) =
    let rest = delivered sends m ids in if sends id then ((id, m) ∷ rest) else rest

module _ (H : Digests) (D : Database (Key H.Byte64) (Value H.Byte64))
    (W : WorldStates H.Byte64) where
  open H use {Byte64}
  open W use {World}

  abbrev State : Type 0
  State = Manager H D W

  -- Whether the object of a peer is marked with the pointer to a hash.
  abbrev pub knows : State → ℕ → PeerId → Bool
  knows mgr r id = has_tx ℕ_discrete (mgr.heap id).known r

  -- The peers that a block is sent to: those that are registered and not marked with it.
  abbrev pub targets : State → ℕ → List PeerId
  targets mgr r = peer_nodes_with_msg_not_seen mgr.peer_db (knows mgr r)

  module _ (P : Platform H W) where
    pub mark_seen-knows :
        (mgr : State) (id : PeerId) (r : ℕ) → knows (mark_seen H D W P mgr id r) r id ≡ true
    unfolding mark_seen set_peer
    mark_seen-knows mgr id r =
        ite-cases (λ (p : Peer Byte64). has_tx ℕ_discrete p.known r ≡ true) (bytes_dec id id) _ _
          (λ e. add_tx-has ℕ_discrete (mgr.heap id).known (P.picks id) r) (λ e. absurd (e refl))

    knows-mark_seen :
        (mgr : State) (id i : PeerId) (r : ℕ)
        → knows mgr r i ≡ true
        → knows (mark_seen H D W P mgr id r) r i ≡ true
    unfolding mark_seen set_peer
    knows-mark_seen mgr id i r k =
        ite-cases (λ (p : Peer Byte64). has_tx ℕ_discrete p.known r ≡ true) (bytes_dec id i) _ _
          (λ e. add_tx-has ℕ_discrete (mgr.heap id).known (P.picks id) r) (λ e. k)

    knows-send :
        (mgr : State) (id i : PeerId) (m : Message Byte64) (r : ℕ)
        → knows mgr r i ≡ true
        → knows (send H D W P mgr id m).0 r i ≡ true
    unfolding send
    knows-send mgr id i m r k = elim (Bool-cases (P.sends id)) [
      | inl e ↦ rw (send, e) k
      | inr e ↦ rw (send, e) k
    ]

    -- A peer that knows the hash goes on to know it, and the peers that the block is sent to do then.
    pub relay-keeps :
        (mgr : State) (ids : List PeerId) (r : ℕ) (m : Message Byte64) (i : PeerId)
        → knows mgr r i ≡ true
        → knows (relay H D W P mgr ids r m).0 r i ≡ true
    unfolding relay
    relay-keeps mgr [] r m i k = k
    relay-keeps mgr (id ∷ ids) r m i k =
        let mgr₁ = mark_seen H D W P mgr id r in
        relay-keeps (send H D W P mgr₁ id m).0 ids r m i
          (knows-send mgr₁ id i m r (knows-mark_seen mgr id i r k))

    relay-knows :
        (mgr : State) (ids : List PeerId) (r : ℕ) (m : Message Byte64)
        → All (λ i. knows (relay H D W P mgr ids r m).0 r i ≡ true) ids
    unfolding relay
    relay-knows mgr [] r m = tt
    relay-knows mgr (id ∷ ids) r m =
        let mgr₁ = mark_seen H D W P mgr id r in
        let mgr₂ = (send H D W P mgr₁ id m).0 in
        (
          relay-keeps mgr₂ ids r m id (knows-send mgr₁ id id m r (mark_seen-knows mgr id r)),
          relay-knows mgr₂ ids r m,
        )

    send-peer_db :
        (mgr : State) (id : PeerId) (m : Message Byte64)
        → (send H D W P mgr id m).0.peer_db ≡ mgr.peer_db
    unfolding send
    send-peer_db mgr id m = elim (Bool-cases (P.sends id)) [
      | inl e ↦ rw (send, e) refl
      | inr e ↦ rw (send, e) refl
    ]

    relay-peer_db :
        (mgr : State) (ids : List PeerId) (r : ℕ) (m : Message Byte64)
        → (relay H D W P mgr ids r m).0.peer_db ≡ mgr.peer_db
    unfolding relay mark_seen set_peer send
    relay-peer_db mgr [] r m = refl
    relay-peer_db mgr (id ∷ ids) r m =
        let mgr₁ = mark_seen H D W P mgr id r in
        relay-peer_db (send H D W P mgr₁ id m).0 ids r m ∙ send-peer_db mgr₁ id m

    send-sent :
        (mgr : State) (id : PeerId) (m : Message Byte64)
        → P.sends id ≡ true
        → (send H D W P mgr id m).0.sent ≡ mgr.sent ++ (id, m) ∷ []
    unfolding send
    send-sent mgr id m e = rw (send, e) refl

    send-lost :
        (mgr : State) (id : PeerId) (m : Message Byte64)
        → P.sends id ≡ false
        → (send H D W P mgr id m).0.sent ≡ mgr.sent
    unfolding send
    send-lost mgr id m e = rw (send, e) refl

    relay-sent :
        (mgr : State) (ids : List PeerId) (r : ℕ) (m : Message Byte64)
        → (relay H D W P mgr ids r m).0.sent ≡ mgr.sent ++ delivered P.sends m ids
    unfolding relay mark_seen set_peer delivered
    relay-sent mgr [] r m = sym (append-nil mgr.sent)
    relay-sent mgr (id ∷ ids) r m =
        let mgr₁ = mark_seen H D W P mgr id r in
        let rest = relay-sent (send H D W P mgr₁ id m).0 ids r m in
        elim (Bool-cases (P.sends id)) [
          | inl e ↦
              rw
                (if_true (P.sends id) ((id, m) ∷ delivered P.sends m ids) (delivered P.sends m ids)
                  e)
                (rest
                  ∙ ap (λ l. l ++ delivered P.sends m ids) (send-sent mgr₁ id m e)
                  ∙ append_assoc mgr.sent ((id, m) ∷ []) (delivered P.sends m ids))
          | inr e ↦
              rw
                (if_false (P.sends id) ((id, m) ∷ delivered P.sends m ids) (delivered P.sends m ids)
                  e)
                (rest ∙ ap (λ l. l ++ delivered P.sends m ids) (send-lost mgr₁ id m e))
        ]

    relay-count :
        (mgr : State) (ids : List PeerId) (r : ℕ) (m : Message Byte64)
        → (relay H D W P mgr ids r m).1 ≡ length ids
    unfolding relay
    relay-count mgr [] r m = refl
    relay-count mgr (id ∷ ids) r m =
        let c = relay-count (send H D W P (mark_seen H D W P mgr id r) id m).0 ids r m in
        omega (arith, c)

    -- Nobody is left to send to, where those who did not know a hash do now.
    not_seen-none :
        {N : Type 0} (f g : N → Bool) (nodes : List (PeerId × N))
        → ((n : N) → f n ≡ true → g n ≡ true)
        → All (λ n. g n ≡ true) (not_seen f nodes)
        → not_seen g nodes ≡ []
    unfolding not_seen
    not_seen-none f g [] keeps h = refl
    not_seen-none f g ((i, n) ∷ nodes) keeps h = elim (Bool-cases (f n)) [
      | inl e ↦
          rw (not_seen, keeps n e)
            (not_seen-none f g nodes keeps (
              subst (All (λ x. g x ≡ true))
                (if_true (f n) (not_seen f nodes) (n ∷ not_seen f nodes) e) h))
      | inr e ↦
          let h' =
            subst (All (λ x. g x ≡ true))
              (if_false (f n) (not_seen f nodes) (n ∷ not_seen f nodes) e) h in
          rw (not_seen, h'.0) (not_seen-none f g nodes keeps h'.1)
    ]

    -- The block goes to the registered peers that are not marked with the pointer to its hash, and to no
    -- others: its `Send` is tried once for each, in their order, and their number is returned. From
    -- then on all of them are marked with it, whether the send succeeded or not, so that a block whose
    -- hash is the same pointer is sent to nobody in a second broadcast.
    pub broadcast-once :
        (mgr : State) (b b' : Block Byte64 World) (r : ℕ)
        → (let ids = targets mgr r in
            let (mgr', n) = broadcast H D W P mgr b r in
            (mgr'.sent ≡ mgr.sent ++ delivered P.sends (new_block (wire_spec H W b)) ids)
            × (n ≡ length ids)
            × All (λ id. knows mgr' r id ≡ true) ids
            × (broadcast H D W P mgr' b' r ≡ (mgr', 0)))
    unfolding broadcast relay peer_nodes_with_msg_not_seen
    broadcast-once mgr b b' r =
        let m = new_block (wire_spec H W b) in
        let ids = targets mgr r in
        let mgr' = (relay H D W P mgr ids r m).0 in
        let known = relay-knows mgr ids r m in
        let keeps : (i : PeerId) → knows mgr r i ≡ true → knows mgr' r i ≡ true =
          λ i k. relay-keeps mgr ids r m i k in
        let nobody : targets mgr' r ≡ [] =
          ap (λ db. peer_nodes_with_msg_not_seen db (knows mgr' r)) (relay-peer_db mgr ids r m)
          ∙ not_seen-none (knows mgr r) (knows mgr' r) mgr.peer_db.nodes keeps known in
        (
          relay-sent mgr ids r m,
          relay-count mgr ids r m,
          known,
          ap (λ l. relay H D W P mgr' l r (new_block (wire_spec H W b'))) nobody,
        )
