-- ===== src/Consensus/Operations/Grown.antt =====
-- consensus/blockChainConsensus.go: the store of an engine from its constructor on.
use go_trust_net.Prelude.{
  ℕ, ◌+◌, ◌<◌, true, List, Option, none, some, ◌≡◌, ◌≢◌, inl, inr, refl, sym, ◌∙◌, ap, subst, arith,
  replicate, Bool, Option-cases, Bool-cases,
}
use go_trust_net.Core.Digest.{Digests}
use go_trust_net.Db.{Database}
use go_trust_net.Consensus.{
  WorldStates, Block, Key, Value, Engine, Result, panic, ok, err, dag_tip, tip_hash, chain_node_key,
  chain_node,
}
use go_trust_net.Consensus.Blocks.{
  set_main_list, new_chain_node, new_block, compute_hash, keep_hash, persist_state, search_nonce,
}
use go_trust_net.Consensus.Store.{get_chain_node, put_chain_node, put_block, or_else}
use go_trust_net.Consensus.Insert.{add_validated_block}
use go_trust_net.Consensus.Insert.Duplicates.{TakesAll}
use go_trust_net.Consensus.Insert.Ends.{IsSound}
use go_trust_net.Consensus.Insert.Total.{
  IsNext, genesis-IsSound, add_validated_block-IsGood, put_tip-Same, put_block-Same,
}
use go_trust_net.Consensus.Operations.{genesis_block, init_store, new_block_chain_consensus}

module _ (H : Digests) (D : Database (Key H.Byte64) (Value H.Byte64))
    (W : WorldStates H.Byte64) where
  open H use {Byte64, null}
  open D use {State, get, put}
  open W use {World, Tables}

  -- A store without a chain node.
  abbrev pub IsEmpty : State → Type 0
  IsEmpty s = (k : Byte64) → get_chain_node H D W s k ≡ none

  init_store-IsSound :
      (most : ℕ) (s : State) (t : Tables) (w : World) (miner : List ℕ) (g : Block Byte64 World)
      (h : Byte64) (e : Engine H D W)
      → TakesAll H D W
      → IsEmpty s
      → g.spec.depth ≡ 0
      → init_store H D W s t w miner g h ≡ ok e
      → IsSound H D W h most e.db
  unfolding init_store set_main_list new_chain_node put_chain_node or_else
  init_store-IsSound most s t w miner g h e all empty depth is =
      let node = set_main_list (new_chain_node H W g h) true in
      elim (Option-cases (put s dag_tip (tip_hash h))) [
        | inl f ↦ absurd (all s dag_tip (tip_hash h) f)
        | inr (s₁, f) ↦ elim (Option-cases (put_block H D W s₁ g h)) [
          | inl k ↦ absurd (ground (arith, f, k, is))
          | inr (s₂, k) ↦ elim (Option-cases (put s₂ (chain_node_key h) (chain_node node))) [
            | inl m ↦ absurd (all s₂ (chain_node_key h) (chain_node node) m)
            | inr (s₃, m) ↦
                let stored : or_else H D W s₁ (put_block H D W s₁ g h) ≡ s₂ = rw k refl in
                let still : IsEmpty s₂ = λ j.
                  (ap (λ u. get_chain_node H D W u j) (sym stored) ∙ put_block-Same H D W s₁ g h j)
                  ∙ put_tip-Same H D W s s₁ h f j
                  ∙ empty j in
                let same : put_chain_node H D W s₂ node ≡ e.db = ground (arith, f, k, m, is) in
                subst (IsSound H D W h most) same
                  (genesis-IsSound H D W most s₂ node all still (depth, refl, refl))
          ]
        ]
      ]

  keep_hash-depth :
      (b : Block Byte64 World) (r : ℕ × Option Byte64)
      → (keep_hash H W b r).0.spec.depth ≡ b.spec.depth
  unfolding keep_hash
  keep_hash-depth b (nonce, none) = refl
  keep_hash-depth b (nonce, some h) = refl

  persist_state-depth :
      (t : Tables) (b : Block Byte64 World) → (persist_state H W t b).1.spec.depth ≡ b.spec.depth
  unfolding persist_state
  persist_state-depth t b = elim (Option-cases b.world_state) [
    | inl e ↦ rw (persist_state, e) refl
    | inr (w, e) ↦ elim (Bool-cases b.is_network_block) [
      | inl f ↦ ground (arith, e, f)
      | inr f ↦ ground (arith, e, f)
    ]
  ]

  compute_hash-depth :
      (pow : Byte64 → ℕ → ℕ → Bool) (fuel : ℕ) (t : Tables) (b : Block Byte64 World)
      → (compute_hash H W pow fuel t b).1.0.spec.depth ≡ b.spec.depth
  unfolding compute_hash
  compute_hash-depth pow fuel t b =
      let b' = (persist_state H W t b).1 in
      keep_hash-depth b' (search_nonce H W pow fuel b'.spec.nonce b'.spec.nonce b')
      ∙ persist_state-depth t b

  genesis_block-depth :
      (t : Tables) (w : World) (now genesis_time : ℕ)
      → (genesis_block H D W t w now genesis_time).1.0.spec.depth ≡ 0
  unfolding genesis_block new_block
  genesis_block-depth t w now genesis_time =
      compute_hash-depth (λ _ _ _. true) 1 t
        (new_block H W now null 0 0 genesis_time 0 (replicate 64 0) w)

  new_block_chain_consensus-IsSound :
      (most now genesis_time : ℕ) (miner : List ℕ) (s : State) (t : Tables) (e : Engine H D W)
      → TakesAll H D W
      → IsEmpty s
      → get s dag_tip ≡ none
      → new_block_chain_consensus H D W now genesis_time miner s t ≡ ok e
      → (g : Byte64) × IsSound H D W g most e.db
  unfolding new_block_chain_consensus
  new_block_chain_consensus-IsSound most now genesis_time miner s t e all empty tip is =
      elim (Option-cases (W.new_world t).1) [
        | inl f ↦ absurd (ground (arith, f, is))
        | inr (w, f) ↦
            let made = genesis_block H D W (W.new_world t).0 w now genesis_time in
            elim (Option-cases made.1.0.hash) [
              | inl k ↦ absurd (ground (arith, f, k, is))
              | inr (h, k) ↦ (
                h,
                init_store-IsSound most s made.0 w miner made.1.0 h e all empty
                    (genesis_block-depth (W.new_world t).0 w now genesis_time)
                    (ground (arith, f, k, tip, is)),
              )
            ]
      ]

  -- The engines that come of a new one, on a store that was empty, by accepted blocks: each has a hash,
  -- lies below its parent and no deeper than `most`, and is given fuel for that depth.
  pub data Grown (most : ℕ) : Engine H D W → Type 0 where
    founded :
        {s : State} {e : Engine H D W} (now genesis_time : ℕ) (miner : List ℕ) (t : Tables)
        → IsEmpty s
        → get s dag_tip ≡ none
        → new_block_chain_consensus H D W now genesis_time miner s t ≡ ok e
        → Grown most e
    grown :
        {e e' : Engine H D W} (fuel : ℕ) (child parent : Block Byte64 World) (h : Byte64)
        → Grown most e
        → IsNext H D W most e.db child
        → child.hash ≡ some h
        → parent.hash ≡ some child.spec.phash
        → most + 1 < fuel
        → add_validated_block H D W fuel e child parent ≡ (e', ok tt)
        → Grown most e'

  Grown-IsSound :
      (most : ℕ) (e : Engine H D W)
      → TakesAll H D W
      → Grown most e
      → (g : Byte64) × IsSound H D W g most e.db
  Grown-IsSound most e all (founded {s} now genesis_time miner t empty tip is) =
      new_block_chain_consensus-IsSound most now genesis_time miner s t e all empty tip is
  Grown-IsSound most e' all (grown {e} fuel child parent h run next has above more is) =
      let (g, sound) = Grown-IsSound most e all run in
      let good =
        add_validated_block-IsGood H D W g most fuel e child parent h all sound next has above
          more in
      let ran = add_validated_block H D W fuel e child parent in
      let fine : ran.1 ≡ ok tt = ap (λ (r : Engine H D W × Result (Unit {0})). r.1) is in
      (
        g,
        subst (λ (r : Engine H D W × Result (Unit {0})). IsSound H D W g most r.0.db) is
            (good.1 fine),
      )

  -- A new engine on an empty store that takes every write, and every engine that it becomes by accepted
  -- blocks, each with a hash, below its parent and at most `most` deep: for one more such block
  -- `addValidatedBlock` ends, with no nil dereference, if its loops over the main list are given two
  -- rounds more than `most`.
  pub Grown-ends :
      (most fuel : ℕ) (e : Engine H D W) (child parent : Block Byte64 World) (h : Byte64)
      → TakesAll H D W
      → Grown most e
      → IsNext H D W most e.db child
      → child.hash ≡ some h
      → parent.hash ≡ some child.spec.phash
      → most + 1 < fuel
      → (add_validated_block H D W fuel e child parent).1 ≢ err panic
  Grown-ends most fuel e child parent h all run next has above more =
      let (g, sound) = Grown-IsSound most e all run in
      (add_validated_block-IsGood H D W g most fuel e child parent h all sound next has above
        more).0
