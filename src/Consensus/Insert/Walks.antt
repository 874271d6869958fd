-- ===== src/Consensus/Insert/Walks.antt =====
-- consensus/blockChainConsensus.go: the loops of `addValidatedBlock` over the main list end, and move
-- nothing in the tree.
use go_trust_net.Prelude.{
  ℕ, zero, suc, ◌<◌, true, false, List, [], ◌∷◌, Option, none, some, if_pos, if_neg, Bool, ◌≡◌, ◌≢◌,
  ◌⊎◌, inl, inr, refl, sym, ◌∙◌, ap, subst, fun_ext, arith, Option-cases, Bool-cases,
}
use mathlib.Core.Option
use mathlib.Core.Option.{some-injective}
use go_trust_net.Core.Digest.{Digests}
use go_trust_net.Db.{Database}
use go_trust_net.Consensus.{
  WorldStates, Block, ChainNode, Key, Value, chain_node_key, transaction_key, block_id, Transaction,
}
use go_trust_net.Consensus.Blocks.{set_main_list, tx_id}
use go_trust_net.Consensus.Store.{get_chain_node, get_block, put_chain_node, register_all}
use go_trust_net.Consensus.Insert.{promote}
use go_trust_net.Consensus.Insert.Duplicates.{TakesAll, put_chain_node-get}
use go_trust_net.Consensus.Insert.Tree.{place, View, view, with_node, IsLinked}

module _ (H : Digests) (D : Database (Key H.Byte64) (Value H.Byte64))
    (W : WorldStates H.Byte64) where
  open H use {Byte64, dec}
  open D use {State, put}
  open W use {World}

  -- The root is on the main list.
  abbrev pub IsRooted : Byte64 → State → Type 0
  IsRooted g s =
      (n : ChainNode Byte64) × (get_chain_node H D W s g ≡ some n) × (n.is_main_list ≡ true)

  abbrev pub Same : State → State → Type 0
  Same s t = (k : Byte64) → get_chain_node H D W s k ≡ get_chain_node H D W t k

  pub Same-view : (s t : State) → Same s t → view H D W s ≡ view H D W t
  Same-view s t e = fun_ext λ k. ap (Option.map (place H D W)) (e k)

  pub register_all-Same :
      (txs : List Transaction) (s : State) (h : Byte64) → Same (register_all H D W s txs h).0 s
  unfolding register_all get_chain_node
  register_all-Same [] s h k = refl
  register_all-Same (tx ∷ txs) s h k =
      elim (Option-cases (put s (transaction_key (tx_id H W tx)) (block_id h))) [
        | inl e ↦ rw (register_all, e) refl
        | inr (t, e) ↦
            rw (register_all, e)
              (register_all-Same txs t h k
                ∙ ground (
                  arith,
                  D.get-put_ne s (transaction_key (tx_id H W tx)) (block_id h) (chain_node_key k) e
                      (λ q. cc),
                ))
      ]

  pub view-put :
      (s : State) (n : ChainNode Byte64)
      → TakesAll H D W
      → view H D W (put_chain_node H D W s n)
        ≡ with_node H D W (view H D W s) n.hash (place H D W n)
  view-put s n all = fun_ext λ k. elim (dec n.hash k) [
    | yes q ↦
        ap (Option.map (place H D W)) (
          put_chain_node-get H D W s n k all
          ∙ if_pos (dec n.hash k) q (some n) (get_chain_node H D W s k))
        ∙ sym (if_pos (dec n.hash k) q (some (place H D W n)) (view H D W s k))
    | no q ↦
        ap (Option.map (place H D W)) (
          put_chain_node-get H D W s n k all
          ∙ if_neg (dec n.hash k) q (some n) (get_chain_node H D W s k))
        ∙ sym (if_neg (dec n.hash k) q (some (place H D W n)) (view H D W s k))
  ]

  pub view-reflag :
      (s : State) (n : ChainNode Byte64) (b : Bool)
      → TakesAll H D W
      → get_chain_node H D W s n.hash ≡ some n
      → view H D W (put_chain_node H D W s (set_main_list n b)) ≡ view H D W s
  unfolding set_main_list
  view-reflag s n b all e =
      view-put s (record n { is_main_list = b }) all
      ∙ fun_ext λ k. elim (dec n.hash k) [
        | yes q ↦
            if_pos (dec n.hash k) q _ _
            ∙ ap (Option.map (place H D W)) (sym e)
            ∙ ap (view H D W s) q
        | no q ↦ if_neg (dec n.hash k) q _ _
      ]

  pub put-IsRooted :
      (g : Byte64) (s : State) (n : ChainNode Byte64)
      → TakesAll H D W
      → (n.hash ≢ g) ⊎ (n.is_main_list ≡ true)
      → IsRooted g s
      → IsRooted g (put_chain_node H D W s n)
  put-IsRooted g s n all c (r, e, main) = elim (dec n.hash g) [
    | no q ↦ (
      r,
      put_chain_node-get H D W s n g all
          ∙ if_neg (dec n.hash g) q (some n) (get_chain_node H D W s g)
          ∙ e,
      main,
    )
    | yes q ↦ elim c [
      | inl ne ↦ absurd (ne q)
      | inr is ↦ (
        n,
        put_chain_node-get H D W s n g all
            ∙ if_pos (dec n.hash g) q (some n) (get_chain_node H D W s g),
        is,
      )
    ]
  ]

  pub Same-IsRooted : (g : Byte64) (s t : State) → Same t s → IsRooted g s → IsRooted g t
  Same-IsRooted g s t e (n, f, main) = (n, e g ∙ f, main)

  -- What a view has, the store has.
  pub stored :
      (s : State) (k : Byte64) (p : ChainNode Byte64)
      → view H D W s k ≡ some p
      → (n : ChainNode Byte64) × (get_chain_node H D W s k ≡ some n) × (place H D W n ≡ p)
  stored s k p e = elim (Option-cases (get_chain_node H D W s k)) [
    | inl f ↦ absurd (let x = sym (ap (Option.map (place H D W)) f) ∙ e in cc)
    | inr (n, f) ↦
        (n, f, some-injective (place H D W n) p (sym (ap (Option.map (place H D W)) f) ∙ e))
  ]

  -- The end of the loop up: the tree is as it was, and the node at which the loop stops is stored.
  unfoldable pub Promoted :
      Byte64 → State → Option (State × ChainNode Byte64 × ChainNode Byte64) → Type 0
  Promoted g s none = ⊥
  Promoted g s (some (t, p, below)) =
      (view H D W t ≡ view H D W s) × IsRooted g t × (get_chain_node H D W t p.hash ≡ some p)

  Promoted-same :
      (g : Byte64) (s t : State) (r : Option (State × ChainNode Byte64 × ChainNode Byte64))
      → view H D W t ≡ view H D W s
      → Promoted g t r
      → Promoted g s r
  unfolding Promoted
  Promoted-same g s t none e x = x
  Promoted-same g s t (some (u, p, below)) e (f, x, y) = (f ∙ e, x, y)

  -- The store after the transactions of a block are registered.
  registered : State → Byte64 → Option (Block Byte64 World) → State
  registered s h none = s
  registered s h (some b) = (register_all H D W s b.spec.txs h).0

  registered-Same :
      (s : State) (h : Byte64) (b : Option (Block Byte64 World)) → Same (registered s h b) s
  unfolding registered
  registered-Same s h none k = refl
  registered-Same s h (some b) k = register_all-Same b.spec.txs s h k

  promote-step :
      (fuel : ℕ) (s : State) (n p below : ChainNode Byte64)
      → n.is_main_list ≡ false
      → (let s₁ = put_chain_node H D W s (set_main_list n true) in
          let s₂ = registered s₁ n.hash (get_block H D W s₁ n.hash) in
          get_chain_node H D W s₂ n.parent ≡ some p
          → promote H D W s (suc fuel) n below ≡ promote H D W s₂ fuel p (set_main_list n true))
  unfolding promote registered
  promote-step fuel s n p below main e =
      let s₁ = put_chain_node H D W s (set_main_list n true) in
      elim (Option-cases (get_block H D W s₁ n.hash)) [
        | inl f ↦ ground (arith, main, f, e)
        | inr (b, f) ↦ ground (arith, main, f, e)
      ]

  pub promote-Promoted :
      (g : Byte64) (due : Byte64 → Byte64 → Type 0) (fuel : ℕ) (s : State)
      (n below : ChainNode Byte64)
      → TakesAll H D W
      → IsLinked H D W g due (view H D W s)
      → IsRooted g s
      → get_chain_node H D W s n.hash ≡ some n
      → n.depth < fuel
      → Promoted g s (promote H D W s fuel n below)
  unfolding promote Promoted set_main_list
  promote-Promoted g due zero s n below all l r e less = absurd (omega arith)
  promote-Promoted g due (suc fuel) s n below all l r e less = elim (Bool-cases n.is_main_list) [
    | inl main ↦ rw (promote, main) (refl, r, e)
    | inr main ↦ elim (l.up n.hash (place H D W n) (ap (Option.map (place H D W)) e)) [
      | inl root ↦ absurd (
          let (m, f, is) = r in
          let same = some-injective m n (sym f ∙ ap (get_chain_node H D W s) (sym root) ∙ e) in
          ground (arith, is, same, main))
      | inr (q, f, shallow) ↦
          let n' = record n { is_main_list = true } in
          let s₁ = put_chain_node H D W s n' in
          let s₂ = registered s₁ n.hash (get_block H D W s₁ n.hash) in
          let moved = registered-Same s₁ n.hash (get_block H D W s₁ n.hash) in
          let same : view H D W s₂ ≡ view H D W s =
            Same-view s₂ s₁ moved ∙ view-reflag s n true all e in
          let (p, is, placed) =
            stored s₂ n.parent q (ap (λ (v : View H D W). v n.parent) same ∙ f) in
          let hash : p.hash ≡ n.parent =
            ap (λ (m : ChainNode Byte64). m.hash) placed ∙ l.hashed n.parent q f in
          let rest =
            promote-Promoted g due fuel s₂ p n' all (subst (IsLinked H D W g due) (sym same) l)
              (Same-IsRooted g s₁ s₂ moved (put-IsRooted g s n' all (inr refl) r))
              (ap (get_chain_node H D W s₂) hash ∙ is)
              (let d = ap (λ (m : ChainNode Byte64). m.depth) placed in omega arith) in
          subst (Promoted g s) (sym (promote-step fuel s n p below main is))
            (Promoted-same g s s₂ (promote H D W s₂ fuel p n') same rest)
    ]
  ]
