-- ===== src/Consensus/Insert/Runs.antt =====
-- consensus/blockChainConsensus.go: the tip after many blocks.
use mathlib.Core.HLevel.{¬_prop}
use mathlib.Core.List.{Mem, mem-cons_self, mem-cons_of_mem, eq-or-mem_of_mem-cons, not-mem-nil}
use mathlib.Core.Logic.Or
use go_trust_net.Prelude.{List, [], ◌∷◌, ◌≡◌, inl, inr, sym, ap, ◌∙◌, ◌↔◌, arith, All, subst}
use go_trust_net.Core.Digest.{Digests}
use go_trust_net.Db.{Database}
use go_trust_net.Consensus.{WorldStates, Block, Key, Value, Engine}
use go_trust_net.Consensus.Blocks.{numeric}
use go_trust_net.Consensus.Insert.Choice.{
  Beats, IsTracking, Accepts, start, quiet, accept, add_validated_block-tip, none-Beats,
}

module _ (H : Digests) (D : Database (Key H.Byte64) (Value H.Byte64))
    (W : WorldStates H.Byte64) where
  open H use {Byte64}
  open W use {World}

  not-Beats_self : (b : Block Byte64 World) → ¬ Beats H D W b b
  not-Beats_self b x = ground arith

  All-Mem :
      (tip b : Block Byte64 World) (blocks : List (Block Byte64 World))
      → All (λ c. ¬ Beats H D W c tip) blocks
      → Mem b blocks
      → ¬ Beats H D W b tip
  All-Mem tip b [] h m = absurd (not-mem-nil m)
  All-Mem tip b (c ∷ blocks) h m =
      Or.elim ¬_prop (eq-or-mem_of_mem-cons m) (λ e. subst (λ d. ¬ Beats H D W d tip) (sym e) h.0)
        (All-Mem tip b blocks h.1)

  agree :
      (a b : Block Byte64 World)
      → (¬ Beats H D W a b)
      → (¬ Beats H D W b a)
      → (a.spec.wt ≡ b.spec.wt) × (numeric H W a ≡ numeric H W b)
  agree a b x y = (ground arith, ground arith)

  -- However many blocks an engine has accepted, and in whatever order, its tip is one of them or
  -- the first tip, none of these beats it, and the engine's weight is that of its tip, if it was
  -- so at first.
  pub Accepts-best :
      {e e' : Engine H D W} {blocks : List (Block Byte64 World)}
      → Accepts H D W e blocks e'
      → IsTracking H D W e
      → IsTracking H D W e' × Mem e'.tip blocks × All (λ b. ¬ Beats H D W b e'.tip) blocks
  Accepts-best {e} start t = (t, mem-cons_self, (not-Beats_self e.tip, tt))
  Accepts-best (quiet {blocks} {e₁} e₂ run tip weight) t =
      let (t₁, mem, others) = Accepts-best run t in
      (
        weight ∙ t₁ ∙ ap (λ (b : Block Byte64 World). b.spec.wt) (sym tip),
        subst (λ b. Mem b blocks) (sym tip) mem,
        subst (λ x. All (λ b. ¬ Beats H D W b x) blocks) (sym tip) others,
      )
  Accepts-best (accept {blocks} {e₁} fuel child parent e₂ run is) t =
      let (t₁, mem, others) = Accepts-best run t in
      let (t₂, cases) = add_validated_block-tip H D W fuel e₁ e₂ child parent t₁ is in
      elim cases [
        | inl (tip, beats) ↦ (
          t₂,
          subst (λ b. Mem b (child ∷ blocks)) (sym tip) mem-cons_self,
          subst (λ x. All (λ b. ¬ Beats H D W b x) (child ∷ blocks)) (sym tip)
              (not-Beats_self child, none-Beats H D W blocks e₁.tip child beats others),
        )
        | inr (tip, not) ↦ (
          t₂,
          subst (λ b. Mem b (child ∷ blocks)) (sym tip) (mem-cons_of_mem child mem),
          subst (λ x. All (λ b. ¬ Beats H D W b x) (child ∷ blocks)) (sym tip) (not, others),
        )
      ]

  -- Two engines that have accepted the same blocks, in any two orders, and whose weights were
  -- those of their tips at first, agree on the weight and on the number of their tips. (The first
  -- tips count as accepted.)
  pub Accepts-agree :
      (e e' f f' : Engine H D W) (blocks others : List (Block Byte64 World))
      → Accepts H D W e blocks e'
      → Accepts H D W f others f'
      → IsTracking H D W e
      → IsTracking H D W f
      → ((b : Block Byte64 World) → Mem b blocks ↔ Mem b others)
      → (e'.tip.spec.wt ≡ f'.tip.spec.wt) × (numeric H W e'.tip ≡ numeric H W f'.tip)
  Accepts-agree e e' f f' blocks others run run' t t' same =
      let (_, mem, best) = Accepts-best run t in
      let (_, mem', best') = Accepts-best run' t' in
      let x = All-Mem f'.tip e'.tip others best' ((same e'.tip).0 mem) in
      let y = All-Mem e'.tip f'.tip blocks best ((same f'.tip).1 mem') in agree e'.tip f'.tip x y
