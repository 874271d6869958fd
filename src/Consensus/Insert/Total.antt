-- ===== src/Consensus/Insert/Total.antt =====
-- consensus/blockChainConsensus.go: `addValidatedBlock` as a whole ends, and keeps the tree.
use go_trust_net.Prelude.{
  ℕ, ◌+◌, ◌<◌, ◌≤◌, true, false, [], none, some, if_pos, if_neg, ◌≡◌, ◌≢◌, ◌⊎◌, inl, inr, refl, sym,
  ◌∙◌, ap, subst, arith, All, Option-cases, Bool-cases,
}
use mathlib.Core.Option
use mathlib.Core.Option.{some-injective}
use go_trust_net.Core.Digest.{Digests}
use go_trust_net.Db.{Database}
use go_trust_net.Consensus.{
  WorldStates, Block, ChainNode, Key, Value, Engine, Result, Result-cases, panic, ok, err, dag_tip,
  tip_hash, block_key, block_spec, chain_node_key,
}
use go_trust_net.Consensus.Blocks.{set_main_list, new_chain_node, add_child, serialize_block}
use go_trust_net.Consensus.Store.{
  get_chain_node, put_chain_node, put_block, or_else, register_transactions,
}
use go_trust_net.Consensus.Insert.{
  rebalance, switch_tip, insert_block, add_validated_block, is_better, has_duplicate,
}
use go_trust_net.Consensus.Insert.Duplicates.{TakesAll, put_chain_node-get}
use go_trust_net.Consensus.Insert.Tree.{place, View, view, IsChild, Never}
use go_trust_net.Consensus.Insert.Walks.{
  Same, Same-view, Same-IsRooted, view-put, register_all-Same,
}
use go_trust_net.Consensus.Insert.Rebalance.{rebalance-Rebalanced, IsDue-Same, parent-IsDue}
use go_trust_net.Consensus.Insert.Ends.{
  IsTree, IsBounded, IsSound, IsDue, put_child-IsSound, Rebalanced,
}

module _ (H : Digests) (D : Database (Key H.Byte64) (Value H.Byte64))
    (W : WorldStates H.Byte64) where
  open H use {Byte64, dec}
  open D use {State, put}
  open W use {World}

  -- A call does not panic, and keeps the store sound where it reports no error.
  abbrev pub IsGood : Byte64 → ℕ → Engine H D W × Result (Unit {0}) → Type 0
  IsGood g most (e, r) = (r ≢ err panic) × (r ≡ ok tt → IsSound H D W g most e.db)

  pub put_tip-Same :
      (s t : State) (h : Byte64) → put s dag_tip (tip_hash h) ≡ some t → Same H D W t s
  unfolding get_chain_node
  put_tip-Same s t h e k =
      ground (arith, D.get-put_ne s dag_tip (tip_hash h) (chain_node_key k) e (λ q. cc))

  register_transactions-Same :
      (s : State) (b : Block Byte64 World) (h : Byte64)
      → Same H D W (register_transactions H D W s b h).0 s
  unfolding register_transactions
  register_transactions-Same s b h k = elim (Option-cases b.world_state) [
    | inl e ↦ rw (register_transactions, e) refl
    | inr (w, e) ↦ rw (register_transactions, e) (register_all-Same H D W b.spec.txs s h k)
  ]

  pub put_block-Same :
      (s : State) (b : Block Byte64 World) (h : Byte64)
      → Same H D W (or_else H D W s (put_block H D W s b h)) s
  unfolding or_else put_block get_chain_node
  put_block-Same s b h k = elim (Option-cases (put_block H D W s b h)) [
    | inl e ↦ rw (or_else, e) refl
    | inr (t, e) ↦ rw (or_else, e) (written t e)
  ]
    where
      written :
          (t : State)
          → put_block H D W s b h ≡ some t
          → get_chain_node H D W t k ≡ get_chain_node H D W s k
      written t e = elim (Result-cases (serialize_block H W b)) [
        | inr (x, f) ↦ absurd (ground (arith, e, f))
        | inl (spec, f) ↦
            let w : put s (block_key h) (block_spec spec) ≡ some t = ground (arith, e, f) in
            ground
              (arith, D.get-put_ne s (block_key h) (block_spec spec) (chain_node_key k) w (λ q. cc))
      ]

  switch_tip-IsGood :
      (g : Byte64) (most : ℕ) (ph h : Byte64) (p c : ChainNode Byte64) (fuel : ℕ) (e : Engine H D W)
      (child : Block Byte64 World)
      → TakesAll H D W
      → IsDue H D W g most ph h p c e.db
      → most + 1 < fuel
      → IsGood g most (switch_tip H D W fuel e child h p c)
  unfolding switch_tip Rebalanced
  switch_tip-IsGood g most ph h p c fuel e child all d more =
      elim (Option-cases (put e.db dag_tip (tip_hash h))) [
        | inl f ↦ absurd (all e.db dag_tip (tip_hash h) f)
        | inr (s₁, f) ↦
            let s₂ = (register_transactions H D W s₁ child h).0 in
            let d₁ = IsDue-Same H D W g most ph h p c e.db s₁ (put_tip-Same e.db s₁ h f) d in
            let d₂ =
              IsDue-Same H D W g most ph h p c s₁ s₂ (register_transactions-Same s₁ child h) d₁ in
            let done = rebalance-Rebalanced H D W g most ph h p c fuel s₂ all d₂ more in
            elim (Option-cases (W.rebase e.tables e.state child.spec.state).1) [
              | inl k ↦ rw (switch_tip, f, k) (λ x. cc, λ x. absurd (cc))
              | inr (w, k) ↦ elim (Bool-cases (register_transactions H D W s₁ child h).1) [
                | inr m ↦ rw (switch_tip, f, k, m) (λ x. cc, λ x. absurd (cc))
                | inl m ↦ elim (Option-cases (rebalance H D W s₂ fuel p c)) [
                  | inl i ↦ absurd (subst (Rebalanced H D W g most) i done)
                  | inr (s₃, i) ↦
                      let sound = subst (Rebalanced H D W g most) i done in
                      rw (switch_tip, f, k, m, i) (λ x. cc, λ x. sound)
                ]
              ]
            ]
      ]

  -- A block that may be added: its parent, where it is stored, is less deep, and it is not too deep.
  pub record IsNext (most : ℕ) (s : State) (child : Block Byte64 World) : Type 0 where
    pub above :
        (n : ChainNode Byte64)
        → get_chain_node H D W s child.spec.phash ≡ some n
        → n.depth < child.spec.depth
    pub within : child.spec.depth ≤ most

  insert_block-IsGood :
      (g : Byte64) (most fuel : ℕ) (e : Engine H D W) (child : Block Byte64 World) (h : Byte64)
      → TakesAll H D W
      → IsSound H D W g most e.db
      → IsNext most e.db child
      → get_chain_node H D W e.db h ≡ none
      → most + 1 < fuel
      → IsGood g most (insert_block H D W fuel e child h child.spec.phash)
  unfolding insert_block new_chain_node set_main_list
  insert_block-IsGood g most fuel e child h all sound next fresh more =
      let ph = child.spec.phash in
      let c = new_chain_node H W child h in
      let s₁ = or_else H D W e.db (put_block H D W e.db child h) in
      let moved = put_block-Same e.db child h in
      let same = Same-view H D W s₁ e.db moved in
      let sound₁ : IsSound H D W g most s₁ = record {
        tree = subst (IsTree H D W g) (sym same) sound.tree;
        bounded = subst (IsBounded H D W most) (sym same) sound.bounded;
        rooted = Same-IsRooted H D W g e.db s₁ moved sound.rooted;
      } in
      elim (Option-cases (get_chain_node H D W s₁ ph)) [
        | inl f ↦ rw (insert_block, f) (λ x. cc, λ x. absurd (cc))
        | inr (n, f) ↦
            let s₂ = put_chain_node H D W s₁ (add_child n h) in
            let due =
              parent-IsDue H D W g most ph h n c s₁ all sound₁ f (moved h ∙ fresh)
                (next.above n (sym (moved ph) ∙ f)) next.within (refl, refl, refl) in
            elim (Bool-cases (is_better H D W e.weight e.tip child)) [
              | inl b ↦
                  rw (insert_block, f, b)
                    (switch_tip-IsGood g most ph h (add_child n h) c fuel (record e { db = s₂ })
                      child all due more)
              | inr b ↦
                  rw (insert_block, f, b)
                    (
                      λ x. cc,
                      λ x. put_child-IsSound H D W g most ph h (add_child n h) c s₂ false all due,
                    )
            ]
      ]

  -- A store whose one chain node is that of a genesis block.
  pub genesis-IsSound :
      (most : ℕ) (s : State) (n : ChainNode Byte64)
      → TakesAll H D W
      → ((k : Byte64) → get_chain_node H D W s k ≡ none)
      → (n.depth ≡ 0) × (n.children ≡ []) × (n.is_main_list ≡ true)
      → IsSound H D W n.hash most (put_chain_node H D W s n)
  genesis-IsSound most s n all empty (depth, children, main) =
      let e = view-put H D W s n all in
      let found : get_chain_node H D W (put_chain_node H D W s n) n.hash ≡ some n =
        put_chain_node-get H D W s n n.hash all
        ∙ if_pos (dec n.hash n.hash) refl (some n) (get_chain_node H D W s n.hash) in
      record {
        tree = record {
          hashed =
              λ k m f. ap (λ (x : ChainNode Byte64). x.hash) (sym (only k m f).1) ∙ (only k m f).0;
          up = λ k m f. inl (sym (only k m f).0);
          down = λ k m f.
              subst
                (All (λ c.
                  Never H D W k c ⊎ IsChild H D W (view H D W (put_chain_node H D W s n)) k m c))
                (sym children ∙ ap (λ (x : ChainNode Byte64). x.children) (only k m f).1) tt;
          root = (place H D W n, ap (Option.map (place H D W)) found, depth);
        };
        bounded =
            λ k m f. let d = ap (λ (x : ChainNode Byte64). x.depth) (only k m f).1 in omega arith;
        rooted = (n, found, main);
      }
    where
      only :
          (k : Byte64) (m : ChainNode Byte64)
          → view H D W (put_chain_node H D W s n) k ≡ some m
          → (n.hash ≡ k) × (place H D W n ≡ m)
      only k m f = elim (dec n.hash k) [
        | yes q ↦ (
          q,
          some-injective (place H D W n) m (
              sym (if_pos (dec n.hash k) q (some (place H D W n)) (view H D W s k))
              ∙ sym (ap (λ (v : View H D W). v k) (view-put H D W s n all))
              ∙ f),
        )
        | no q ↦ absurd (
            let x =
              sym (ap (Option.map (place H D W)) (empty k))
              ∙ sym (if_neg (dec n.hash k) q (some (place H D W n)) (view H D W s k))
              ∙ sym (ap (λ (v : View H D W). v k) (view-put H D W s n all))
              ∙ f in
            cc)
      ]

  -- `addValidatedBlock` ends with the fuel that the depth of the chain needs: on a store that takes every
  -- write and holds the blocks as a tree, none deeper than `most`, with the root on the main list, and
  -- for a block with a hash, below its parent and no deeper than `most`, two rounds more than `most` never
  -- run out (the call does not panic), and a call without an error leaves such a store again.
  pub add_validated_block-IsGood :
      (g : Byte64) (most fuel : ℕ) (e : Engine H D W) (child parent : Block Byte64 World)
      (h : Byte64)
      → TakesAll H D W
      → IsSound H D W g most e.db
      → IsNext most e.db child
      → child.hash ≡ some h
      → parent.hash ≡ some child.spec.phash
      → most + 1 < fuel
      → IsGood g most (add_validated_block H D W fuel e child parent)
  unfolding add_validated_block
  add_validated_block-IsGood g most fuel e child parent h all sound next is has more =
      elim (Option-cases (get_chain_node H D W e.db h)) [
        | inr (n, f) ↦ rw (add_validated_block, is, f) (λ x. cc, λ x. absurd (cc))
        | inl f ↦ elim (Bool-cases (has_duplicate H D W e.db child child.spec.txs)) [
          | inl k ↦ rw (add_validated_block, is, f, k) (λ x. cc, λ x. absurd (cc))
          | inr k ↦
              rw (add_validated_block, is, f, k, has)
                (insert_block-IsGood g most fuel e child h all sound next f more)
        ]
      ]
