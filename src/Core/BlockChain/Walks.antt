-- ===== src/Core/BlockChain/Walks.antt =====
-- core/chain/blockChain.go: what the walks of `addBlock` leave in the store.
use go_trust_net.Prelude.{
  zero, suc, ℕ, ltb, List, [], ◌∷◌, true, false, Option, none, some, if_pos, ◌≡◌, ◌≢◌, refl, sym,
  ◌∙◌, subst, inl, inr, ◌⊎◌, Option-cases, Bool-cases, arith,
}
use go_trust_net.Core.Digest.{Digests}
use go_trust_net.Db.{Database}
use go_trust_net.Core.BlockChain.{
  Result, ok, err, panic, SimpleBlock, BlockSpec, BlockNode, Key, dag_tip, Value, tip_hash,
}
use go_trust_net.Core.BlockChain.Nodes.{
  new_block_node, add_child, get_block_node, save_block_node, save_block, find_main_list_child,
}
use go_trust_net.Core.BlockChain.Chain.{Chain, promote, demote, rebalance, move_tip, add_block}
use go_trust_net.Core.BlockChain.Kept.{
  TakesAll, IsKeyed, Holds, Held, save-get, save-Held_other, save_block-Held, reflag-Held,
  stored_again, put-node, put-Held,
}

module _ (H : Digests) (D : Database (Key H.Byte64) (Value H.Byte64)) where
  open H use {Byte64, dec}
  open D use {State, get, put}

  promote-main :
      (fuel : ℕ) (s : State) (n : BlockNode Byte64) (below : Byte64)
      → n.is_main_list ≡ true
      → (promote H D (suc fuel) s n below).0 ≡ s
  unfolding promote
  promote-main fuel s n below f = rw (promote, f) refl

  promote-Held :
      (fuel : ℕ) (s : State) (n m : BlockNode Byte64) (below q h : Byte64)
      (spec' : BlockSpec Byte64)
      → TakesAll H D
      → get_block_node H D s n.hash ≡ some n
      → Held H D s q m h spec'
      → Held H D (promote H D fuel s n below).0 q m h spec'
  unfolding promote
  promote-Held zero s n m below q h spec' r is x = x
  promote-Held (suc fuel) s n m below q h spec' r is x =
      let s' = save_block_node H D s (record n { is_main_list = true }) in
      let x' = reflag-Held H D s n m q h spec' true r is x in
      elim (Bool-cases n.is_main_list) [
        | inl f ↦ subst (λ u. Held H D u q m h spec') (sym (promote-main fuel s n below f)) x
        | inr f ↦ elim (Option-cases (get_block_node H D s' n.parent)) [
          | inl e ↦ rw (promote, f, e) x'
          | inr (p, e) ↦
              rw (promote, f, e)
                (promote-Held fuel s' p m n.hash q h spec' r
                  (stored_again H D s' n.parent p x'.keyed e) x')
        ]
      ]

  find_main_list_child-stored :
      (s : State) (cs : List Byte64) (skip : Option Byte64) (n : BlockNode Byte64)
      → IsKeyed H D s
      → find_main_list_child H D s cs skip ≡ some n
      → get_block_node H D s n.hash ≡ some n
  unfolding find_main_list_child
  find_main_list_child-stored s [] skip n keyed e = absurd (ground arith)
  find_main_list_child-stored s (c ∷ cs) skip n keyed e =
      let rest = find_main_list_child-stored s cs skip n keyed in
      elim (Option-cases (get_block_node H D s c)) [
        | inl g ↦ rest (ground arith)
        | inr (x, g) ↦ elim (Bool-cases x.is_main_list) [
          | inr f ↦ rest (ground arith)
          | inl f ↦ elim (Option-cases skip) [
            | inl k ↦ stored_again H D s c n keyed (ground arith)
            | inr (j, k) ↦ elim (dec j x.hash) [
              | yes p ↦ rest (ground arith)
              | no p ↦ stored_again H D s c n keyed (ground arith)
            ]
          ]
        ]
      ]

  demote-Held :
      (fuel : ℕ) (s : State) (o : Option (BlockNode Byte64)) (m : BlockNode Byte64) (q h : Byte64)
      (spec' : BlockSpec Byte64)
      → TakesAll H D
      → ((n : BlockNode Byte64) → o ≡ some n → get_block_node H D s n.hash ≡ some n)
      → Held H D s q m h spec'
      → Held H D (demote H D fuel s o).0 q m h spec'
  unfolding demote
  demote-Held zero s none m q h spec' r is x = x
  demote-Held (suc fuel) s none m q h spec' r is x = x
  demote-Held zero s (some n) m q h spec' r is x = x
  demote-Held (suc fuel) s (some n) m q h spec' r is x =
      let s' = save_block_node H D s (record n { is_main_list = false }) in
      let x' = reflag-Held H D s n m q h spec' false r (is n refl) x in
      demote-Held fuel s' (find_main_list_child H D s' n.children none) m q h spec' r
        (λ c e. find_main_list_child-stored s' n.children none c x'.keyed e) x'

  -- The end of an addition: the parent's node and the block's specification are in the store, and so is
  -- the block's node, unless a walk found no way.
  abbrev pub Kept :
      Byte64
      → BlockNode Byte64
      → BlockNode Byte64
      → BlockSpec Byte64
      → State × Result (Unit {0})
      → Type 0
  Kept q parent child spec' (s, r) =
      Held H D s q parent child.hash spec'
      × (((r ≡ ok tt) × Holds H D s child.hash child) ⊎ (r ≡ err panic))

  rebalance-Kept :
      (fuel : ℕ) (s : State) (child parent m : BlockNode Byte64) (q : Byte64)
      (spec' : BlockSpec Byte64)
      → TakesAll H D
      → get_block_node H D s parent.hash ≡ some parent
      → child.hash ≢ q
      → Held H D s q m child.hash spec'
      → Kept q m child spec' (rebalance H D fuel s child parent)
  unfolding rebalance
  rebalance-Kept fuel s child parent m q spec' r is ne x =
      let p = promote H D fuel s parent child.hash in
      let child' : BlockNode Byte64 = record child { is_main_list = true } in
      let x₁ = promote-Held fuel s parent m child.hash q child.hash spec' r is x in
      elim (Option-cases p.1) [
        | inl e ↦ rw (rebalance, e) (x₁, inr refl)
        | inr ((top, below), e) ↦
            let s₂ = save_block_node H D p.0 child' in
            let (x₂, y₂) = save-Held_other H D p.0 child' m q child.hash spec' r ne x₁ in
            let o = find_main_list_child H D s₂ top.children (some below) in
            let stored = λ (c : BlockNode Byte64) (e : o ≡ some c).
              find_main_list_child-stored s₂ top.children (some below) c x₂.keyed e in
            let x₃ = demote-Held fuel s₂ o m q child.hash spec' r stored x₂ in
            let y₃ = demote-Held fuel s₂ o child' child.hash child.hash spec' r stored y₂ in
            let (n, at, alike) = y₃.holds in
            elim (Bool-cases (demote H D fuel s₂ o).1) [
              | inl f ↦ rw (rebalance, e, f) (x₃, inl (refl, (n, at, alike)))
              | inr f ↦ rw (rebalance, e, f) (x₃, inr refl)
            ]
      ]

  move_tip-Kept :
      (fuel : ℕ) (c : Chain H D) (b : SimpleBlock Byte64) (child parent m : BlockNode Byte64)
      (q : Byte64) (spec' : BlockSpec Byte64)
      → TakesAll H D
      → get_block_node H D c.db parent.hash ≡ some parent
      → child.hash ≢ q
      → Held H D c.db q m child.hash spec'
      → (let r = move_tip H D fuel c b child parent in Kept q m child spec' (r.0.db, r.1))
  unfolding move_tip
  move_tip-Kept fuel c b child parent m q spec' r is ne x =
      elim (Option-cases (put c.db dag_tip (tip_hash child.hash))) [
        | inl e ↦ absurd (r _ _ _ e)
        | inr (t, e) ↦
            let x' =
              put-Held H D c.db t dag_tip (tip_hash child.hash) m q child.hash spec' e
                (λ j k. ground arith) (λ k. ground arith) x in
            rw (move_tip, e)
              (rebalance-Kept fuel t child parent m q spec' r
                (put-node H D c.db t dag_tip (tip_hash child.hash) parent.hash e (λ k. ground arith)
                  ∙ is)
                ne x')
      ]

  -- A block that is added is in the store, and its parent lists it.
  pub add_block-Kept :
      (fuel : ℕ) (c : Chain H D) (b : SimpleBlock Byte64) (h q : Byte64) (parent : BlockNode Byte64)
      → TakesAll H D
      → IsKeyed H D c.db
      → get_block_node H D c.db q ≡ some parent
      → h ≢ q
      → (let r = add_block H D fuel c b h parent in
          Kept q (add_child H parent h) (new_block_node H b h) b.spec (r.0.db, r.1))
  unfolding add_block new_block_node add_child
  add_block-Kept fuel c b h q parent r keyed e ne =
      let parent' = add_child H parent h in
      let child = new_block_node H b h in
      let s = save_block_node H D (save_block H D c.db b h) parent' in
      let c' : Chain H D = record c { db = s } in
      let x = save_block-Held H D c.db b h q parent r keyed e in
      let stored =
        save-get H D (save_block H D c.db b h) parent' parent'.hash r
        ∙ if_pos (dec parent'.hash parent'.hash) refl (some parent') _ in
      elim (Bool-cases (ltb c.weight b.spec.weight)) [
        | inl f ↦
            rw (add_block, f) (move_tip-Kept fuel c' b child parent' parent' q b.spec r stored ne x)
        | inr f ↦
            let (y, z) = save-Held_other H D s child parent' q h b.spec r ne x in
            rw (add_block, f) (y, inl (refl, z.holds))
      ]
