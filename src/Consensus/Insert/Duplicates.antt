-- ===== src/Consensus/Insert/Duplicates.antt =====
-- consensus/blockChainConsensus.go: a block that was added is in the store, and is not added again.
use go_trust_net.Prelude.{
  ℕ, zero, suc, true, false, Option, none, some, ite, if_pos, ◌≡◌, ◌≢◌, refl, ◌∙◌, ap, subst, arith,
  inl, inr, Option-cases, Bool-cases,
}
use go_trust_net.Core.Digest.{Digests}
use go_trust_net.Db.{Database}
use go_trust_net.Consensus.{
  duplicate_block, ok, err, WorldStates, Block, ChainNode, Key, chain_node_key, Value, chain_node,
  Engine, dag_tip, tip_hash,
}
use go_trust_net.Consensus.Blocks.{new_chain_node, add_child, set_main_list}
use go_trust_net.Consensus.Store.{
  or_else, get_chain_node, put_chain_node, put_block, find_main_list_child, register_transactions,
}
use go_trust_net.Consensus.Insert.{
  is_better, promote, demote, rebalance, switch_tip, insert_block, add_validated_block,
}

module _ (H : Digests) (D : Database (Key H.Byte64) (Value H.Byte64))
    (W : WorldStates H.Byte64) where
  open H use {Byte64, dec}
  open D use {State, put}
  open W use {World}

  -- The store has a chain node under the hash.
  abbrev Has : State → Byte64 → Type 0
  Has s h = (n : ChainNode Byte64) × (get_chain_node H D W s h ≡ some n)

  -- A store that takes every write.
  abbrev pub TakesAll : Type 0
  TakesAll = (s : State) (k : Key Byte64) (v : Value Byte64) → put s k v ≢ none

  pub put_chain_node-get :
      (s : State) (n : ChainNode Byte64) (h : Byte64)
      → TakesAll
      → get_chain_node H D W (put_chain_node H D W s n) h
        ≡ ite (dec n.hash h) (some n) (get_chain_node H D W s h)
  unfolding put_chain_node or_else get_chain_node
  put_chain_node-get s n h r = elim (Option-cases (put s (chain_node_key n.hash) (chain_node n))) [
    | inl e ↦ absurd (r s _ _ e)
    | inr (t, e) ↦ elim (dec n.hash h) [
      | yes p ↦ ground (
        arith,
        e,
        p,
        ap chain_node_key p,
        D.get-put_self s (chain_node_key n.hash) (chain_node n) e,
      )
      | no p ↦ ground (
        arith,
        e,
        D.get-put_ne s (chain_node_key n.hash) (chain_node n) (chain_node_key h) e (λ q. p (cc)),
      )
    ]
  ]

  put_chain_node-Has :
      (s : State) (n : ChainNode Byte64) (h : Byte64)
      → TakesAll
      → Has s h
      → Has (put_chain_node H D W s n) h
  put_chain_node-Has s n h r (m, e) = elim (dec n.hash h) [
    | yes p ↦ (n, ground (arith, put_chain_node-get s n h r))
    | no p ↦ (m, ground (arith, put_chain_node-get s n h r))
  ]

  demote-Has :
      (s t : State) (fuel : ℕ) (n : Option (ChainNode Byte64)) (h : Byte64)
      → TakesAll
      → Has s h
      → demote H D W s fuel n ≡ some t
      → Has t h
  unfolding demote
  demote-Has s t zero n h r x e = absurd (ground arith)
  demote-Has s t (suc fuel) none h r x e = subst (λ u. Has u h) (ground arith) x
  demote-Has s t (suc fuel) (some n) h r x e =
      demote-Has (put_chain_node H D W s (set_main_list n false)) t fuel _ h r
        (put_chain_node-Has s (set_main_list n false) h r x) e

  rebalance-Has :
      (s t : State) (fuel : ℕ) (p c : ChainNode Byte64)
      → TakesAll
      → rebalance H D W s fuel p c ≡ some t
      → Has t c.hash
  unfolding rebalance set_main_list
  rebalance-Has s t fuel p c r e =
      let child = set_main_list c true in
      elim (Option-cases (promote H D W s fuel p child)) [
        | inl f ↦ absurd (ground arith)
        | inr ((s₁, q, below), f) ↦
            demote-Has (put_chain_node H D W s₁ child) t fuel
              (find_main_list_child H D W (put_chain_node H D W s₁ child) q.children
                (some below.hash))
              c.hash r
              (child, put_chain_node-get s₁ child c.hash r ∙ if_pos (dec c.hash c.hash) refl _ _)
              (ground arith)
      ]

  switch_tip-Has :
      (fuel : ℕ) (e e' : Engine H D W) (child : Block Byte64 World) (h : Byte64)
      (p c : ChainNode Byte64)
      → TakesAll
      → switch_tip H D W fuel e child h p c ≡ (e', ok tt)
      → Has e'.db c.hash
  unfolding switch_tip
  switch_tip-Has fuel e e' child h p c r is = elim (Option-cases (put e.db dag_tip (tip_hash h))) [
    | inl f ↦ absurd (ground arith)
    | inr (s₁, f) ↦ elim (Option-cases (W.rebase e.tables e.state child.spec.state).1) [
      | inl g ↦ absurd (ground arith)
      | inr (w, g) ↦
          let s₂ = (register_transactions H D W s₁ child h).0 in
          elim (Bool-cases (register_transactions H D W s₁ child h).1) [
            | inr k ↦ absurd (ground arith)
            | inl k ↦ elim (Option-cases (rebalance H D W s₂ fuel p c)) [
              | inl m ↦ absurd (ground arith)
              | inr (s₃, m) ↦
                  let same : s₃ ≡ e'.db = ground arith in
                  subst (λ u. Has u c.hash) same (rebalance-Has s₂ s₃ fuel p c r m)
            ]
          ]
    ]
  ]

  insert_block-Has :
      (fuel : ℕ) (e e' : Engine H D W) (child : Block Byte64 World) (h ph : Byte64)
      → TakesAll
      → insert_block H D W fuel e child h ph ≡ (e', ok tt)
      → Has e'.db h
  unfolding insert_block new_chain_node
  insert_block-Has fuel e e' child h ph r is =
      let s₁ = or_else H D W e.db (put_block H D W e.db child h) in
      let c = new_chain_node H W child h in
      elim (Option-cases (get_chain_node H D W s₁ ph)) [
        | inl x ↦ absurd (ground arith)
        | inr (n, x) ↦
            let s₂ = put_chain_node H D W s₁ (add_child n h) in
            elim (Bool-cases (is_better H D W e.weight e.tip child)) [
              | inl b ↦
                  switch_tip-Has fuel (record e { db = s₂ }) e' child h (add_child n h) c r
                    (ground arith)
              | inr b ↦
                  let same : put_chain_node H D W s₂ c ≡ e'.db = ground arith in
                  subst (λ u. Has u h) same
                    (c, put_chain_node-get s₂ c h r ∙ if_pos (dec h h) refl _ _)
            ]
      ]

  -- On a store that takes every write, a block that `addValidatedBlock` has accepted is refused from
  -- then on: any block with its hash is reported as a duplicate, and changes nothing.
  pub add_validated_block-duplicate :
      (fuel again : ℕ) (e e' : Engine H D W) (child parent other parent' : Block Byte64 World)
      → TakesAll
      → add_validated_block H D W fuel e child parent ≡ (e', ok tt)
      → other.hash ≡ child.hash
      → add_validated_block H D W again e' other parent' ≡ (e', err duplicate_block)
  unfolding add_validated_block
  add_validated_block-duplicate fuel again e e' child parent other parent' r is same =
      elim (Option-cases child.hash) [
        | inl x ↦ absurd (ground arith)
        | inr (h, x) ↦ elim (Option-cases parent.hash) [
          | inl y ↦ absurd (ground arith)
          | inr (ph, y) ↦
              let (n, z) = insert_block-Has fuel e e' child h ph r (ground arith) in
              ground (arith, same, x, z)
        ]
      ]
