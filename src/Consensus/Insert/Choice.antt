-- ===== src/Consensus/Insert/Choice.antt =====
-- consensus/blockChainConsensus.go: which block is the tip after `addValidatedBlock`.
use go_trust_net.Prelude.{
  ℕ, ◌<◌, true, false, List, [], ◌∷◌, ◌≡◌, ◌⊎◌, inl, inr, sym, ◌∙◌, ap, arith, Option-cases,
  Bool-cases, All,
}
use go_trust_net.Core.Digest.{Digests}
use go_trust_net.Db.{Database}
use go_trust_net.Consensus.{ok, WorldStates, Block, ChainNode, Key, Value, Engine}
use go_trust_net.Consensus.Blocks.{numeric, new_chain_node, add_child}
use go_trust_net.Consensus.Store.{get_chain_node, put_block, or_else, put_chain_node}
use go_trust_net.Consensus.Insert.{is_better, switch_tip, insert_block, add_validated_block}

module _ (H : Digests) (D : Database (Key H.Byte64) (Value H.Byte64))
    (W : WorldStates H.Byte64) where
  open H use {Byte64}
  open D use {State, put}
  open W use {World}

  -- The order of competing blocks: the heavier first, and of two as heavy, the one whose hash is
  -- the smaller number.
  abbrev pub Beats : Block Byte64 World → Block Byte64 World → Type 0
  Beats a b = (b.spec.wt < a.spec.wt) ⊎ ((a.spec.wt ≡ b.spec.wt) × (numeric H W a < numeric H W b))

  is_better-Beats :
      (weight : ℕ) (tip child : Block Byte64 World)
      → weight ≡ tip.spec.wt
      → ((is_better H D W weight tip child ≡ true) × Beats child tip)
        ⊎ ((is_better H D W weight tip child ≡ false) × (¬ Beats child tip))
  unfolding is_better
  is_better-Beats weight tip child h = ground arith

  switch_tip-ok :
      (fuel : ℕ) (e e' : Engine H D W) (child : Block Byte64 World) (h : Byte64)
      (p c : ChainNode Byte64)
      → switch_tip H D W fuel e child h p c ≡ (e', ok tt)
      → (e'.tip ≡ child) × (e'.weight ≡ c.weight)
  unfolding switch_tip
  switch_tip-ok fuel e e' child h p c is = ground arith

  insert_block-ok :
      (fuel : ℕ) (e e' : Engine H D W) (child : Block Byte64 World) (h ph : Byte64)
      → insert_block H D W fuel e child h ph ≡ (e', ok tt)
      → ((is_better H D W e.weight e.tip child ≡ true)
          × (e'.tip ≡ child)
          × (e'.weight ≡ child.spec.wt))
        ⊎ ((is_better H D W e.weight e.tip child ≡ false)
            × (e'.tip ≡ e.tip)
            × (e'.weight ≡ e.weight))
  unfolding insert_block
  insert_block-ok fuel e e' child h ph is =
      let s₁ = or_else H D W e.db (put_block H D W e.db child h) in
      let c = new_chain_node H W child h in
      elim (Option-cases (get_chain_node H D W s₁ ph)) [
        | inl x ↦ absurd (ground arith)
        | inr (n, x) ↦ elim (Bool-cases (is_better H D W e.weight e.tip child)) [
          | inr b ↦ inr (b, ground arith, ground arith)
          | inl b ↦
              let e₁ = record e { db = put_chain_node H D W s₁ (add_child n h) } in
              let (tip, weight) =
                switch_tip-ok fuel e₁ e' child h (add_child n h) c (ground arith) in
              inl (b, tip, weight)
        ]
      ]

  -- The engine keeps the weight of its tip.
  abbrev pub IsTracking : Engine H D W → Type 0
  IsTracking e = e.weight ≡ e.tip.spec.wt

  -- When `addValidatedBlock` succeeds on an engine whose weight is that of its tip, the tip is the
  -- better of the new block and the old tip: the heavier, and of two as heavy the one with the
  -- smaller number of its hash, where a full tie leaves the old tip. The engine's weight is still
  -- that of its tip.
  pub add_validated_block-tip :
      (fuel : ℕ) (e e' : Engine H D W) (child parent : Block Byte64 World)
      → IsTracking e
      → add_validated_block H D W fuel e child parent ≡ (e', ok tt)
      → IsTracking e'
        × (((e'.tip ≡ child) × Beats child e.tip) ⊎ ((e'.tip ≡ e.tip) × (¬ Beats child e.tip)))
  unfolding add_validated_block
  add_validated_block-tip fuel e e' child parent t is = elim (Option-cases child.hash) [
    | inl x ↦ absurd (ground arith)
    | inr (h, x) ↦ elim (Option-cases parent.hash) [
      | inl y ↦ absurd (ground arith)
      | inr (ph, y) ↦ elim (insert_block-ok fuel e e' child h ph (ground arith)) [
        | inl (b, tip, weight) ↦ elim (is_better-Beats e.weight e.tip child t) [
          | inl (_, beats) ↦
              (weight ∙ ap (λ (x : Block Byte64 World). x.spec.wt) (sym tip), inl (tip, beats))
          | inr (b', _) ↦ absurd (cc)
        ]
        | inr (b, tip, weight) ↦ elim (is_better-Beats e.weight e.tip child t) [
          | inl (b', _) ↦ absurd (cc)
          | inr (_, not) ↦
              (weight ∙ t ∙ ap (λ (x : Block Byte64 World). x.spec.wt) (sym tip), inr (tip, not))
        ]
      ]
    ]
  ]

  -- A run of the engine: the blocks that it has accepted, the latest first, down to the first tip.
  pub data Accepts (e : Engine H D W) : List (Block Byte64 World) → Engine H D W → Type 0 where
    start : Accepts e (e.tip ∷ []) e
    -- Any operation that moves neither the tip nor the weight.
    quiet :
        {blocks : List (Block Byte64 World)} {e₁ : Engine H D W} (e₂ : Engine H D W)
        → Accepts e blocks e₁
        → e₂.tip ≡ e₁.tip
        → e₂.weight ≡ e₁.weight
        → Accepts e blocks e₂
    accept :
        {blocks : List (Block Byte64 World)} {e₁ : Engine H D W} (fuel : ℕ)
        (child parent : Block Byte64 World) (e₂ : Engine H D W)
        → Accepts e blocks e₁
        → add_validated_block H D W fuel e₁ child parent ≡ (e₂, ok tt)
        → Accepts e (child ∷ blocks) e₂

  ne-Beats-trans : (a b c : Block Byte64 World) → (¬ Beats a b) → Beats c b → ¬ Beats a c
  ne-Beats-trans a b c n x y = n (ground arith)

  pub none-Beats :
      (blocks : List (Block Byte64 World)) (tip tip' : Block Byte64 World)
      → Beats tip' tip
      → All (λ b. ¬ Beats b tip) blocks
      → All (λ b. ¬ Beats b tip') blocks
  none-Beats [] tip tip' x h = tt
  none-Beats (b ∷ blocks) tip tip' x h =
      (ne-Beats-trans b tip tip' h.0 x, none-Beats blocks tip tip' x h.1)
