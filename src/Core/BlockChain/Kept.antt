-- ===== src/Core/BlockChain/Kept.antt =====
-- core/chain/blockChain.go: what the store has after a block was added.
use go_trust_net.Prelude.{
  Bool, true, false, none, some, ite, if_pos, if_neg, ◌≡◌, ◌≢◌, refl, sym, ap, ◌∙◌, subst, inl, inr,
  Option-cases, arith,
}
use go_trust_net.Core.Digest.{Digests}
use go_trust_net.Db.{Database}
use go_trust_net.Core.BlockChain.{
  SimpleBlock, BlockSpec, BlockNode, Key, block_node_key, block_spec_key, Value, block_node,
  block_spec,
}
use go_trust_net.Core.BlockChain.Nodes.{
  add_child, get_block_node, get_block_spec, save_block_node, save_block,
}
use go_trust_net.Core.BlockChain.Chain.{has}

module _ (H : Digests) (D : Database (Key H.Byte64) (Value H.Byte64)) where
  open H use {Byte64, dec}
  open D use {State, get, put}

  -- A store that takes every write.
  abbrev pub TakesAll : Type 0
  TakesAll = (s : State) (k : Key Byte64) (v : Value Byte64) → put s k v ≢ none

  -- A node is stored under its own hash.
  abbrev pub IsKeyed : State → Type 0
  IsKeyed s = (k : Byte64) (n : BlockNode Byte64) → get_block_node H D s k ≡ some n → n.hash ≡ k

  pub save-get :
      (s : State) (n : BlockNode Byte64) (k : Byte64)
      → TakesAll
      → get_block_node H D (save_block_node H D s n) k
        ≡ ite (dec n.hash k) (some n) (get_block_node H D s k)
  unfolding save_block_node get_block_node
  save-get s n k r = elim (Option-cases (put s (block_node_key n.hash) (block_node n))) [
    | inl e ↦ absurd (r s _ _ e)
    | inr (t, e) ↦ elim (dec n.hash k) [
      | yes p ↦ ground (
        arith,
        e,
        p,
        ap block_node_key p,
        D.get-put_self s (block_node_key n.hash) (block_node n) e,
      )
      | no p ↦ ground (
        arith,
        e,
        D.get-put_ne s (block_node_key n.hash) (block_node n) (block_node_key k) e (λ q. p (cc)),
      )
    ]
  ]

  save-spec :
      (s : State) (n : BlockNode Byte64) (k : Byte64)
      → get_block_spec H D (save_block_node H D s n) k ≡ get_block_spec H D s k
  unfolding save_block_node get_block_spec
  save-spec s n k = elim (Option-cases (put s (block_node_key n.hash) (block_node n))) [
    | inl e ↦ ground (arith, e)
    | inr (t, e) ↦ ground (
      arith,
      e,
      D.get-put_ne s (block_node_key n.hash) (block_node n) (block_spec_key k) e (λ q. cc),
    )
  ]

  -- The nodes are equal but for the flag of the main list.
  abbrev pub Alike : BlockNode Byte64 → BlockNode Byte64 → Type 0
  Alike n m = record n { is_main_list = true } ≡ record m { is_main_list = true }

  -- The store has a node under `k` that is `m` but for its flag.
  abbrev pub Holds : State → Byte64 → BlockNode Byte64 → Type 0
  Holds s k m = (n : BlockNode Byte64) × (get_block_node H D s k ≡ some n) × Alike n m

  -- What the walks of `addBlock` keep of a store: a node, and the specification of a block.
  pub record Held (s : State) (q : Byte64) (m : BlockNode Byte64) (h : Byte64)
      (spec' : BlockSpec Byte64) : Type 0 where
    pub keyed : IsKeyed s
    pub holds : Holds s q m
    pub spec : get_block_spec H D s h ≡ some spec'

  same_node : {n m : BlockNode Byte64} → some n ≡ some m → n ≡ m
  same_node {n = n} e = ap (λ o. elim o [ none ↦ n | some y ↦ y ]) e

  save-IsKeyed :
      (s : State) (n : BlockNode Byte64) → TakesAll → IsKeyed s → IsKeyed (save_block_node H D s n)
  save-IsKeyed s n r keyed k m e = elim (dec n.hash k) [
    | yes p ↦ ap (λ (x : BlockNode Byte64). x.hash) (sym (same p)) ∙ p
    | no p ↦ keyed k m (sym (other p) ∙ e)
  ]
    where
      same : n.hash ≡ k → n ≡ m
      same p = same_node (sym (save-get s n k r ∙ if_pos (dec n.hash k) p (some n) _) ∙ e)

      other : n.hash ≢ k → get_block_node H D (save_block_node H D s n) k ≡ get_block_node H D s k
      other p = save-get s n k r ∙ if_neg (dec n.hash k) p (some n) _

  save-Holds_same :
      (s : State) (n : BlockNode Byte64) → TakesAll → Holds (save_block_node H D s n) n.hash n
  save-Holds_same s n r =
      (n, save-get s n n.hash r ∙ if_pos (dec n.hash n.hash) refl (some n) _, refl)

  save-Holds_other :
      (s : State) (n m : BlockNode Byte64) (q : Byte64)
      → TakesAll
      → n.hash ≢ q
      → Holds s q m
      → Holds (save_block_node H D s n) q m
  save-Holds_other s n m q r ne (x, e, a) =
      (x, save-get s n q r ∙ if_neg (dec n.hash q) ne (some n) _ ∙ e, a)

  -- A node of the store is written again, with another flag.
  reflag-Holds :
      (s : State) (n m : BlockNode Byte64) (q : Byte64) (flag : Bool)
      → TakesAll
      → get_block_node H D s n.hash ≡ some n
      → Holds s q m
      → Holds (save_block_node H D s (record n { is_main_list = flag })) q m
  reflag-Holds s n m q flag r is (x, e, a) =
      let n' : BlockNode Byte64 = record n { is_main_list = flag } in
      elim (dec n.hash q) [
        | no p ↦ save-Holds_other s n' m q r p (x, e, a)
        | yes p ↦
            let same : n ≡ x = same_node (sym is ∙ ap (get_block_node H D s) p ∙ e) in
            (
              n',
              save-get s n' q r ∙ if_pos (dec n.hash q) p (some n') _,
              ap (λ (y : BlockNode Byte64). record y { is_main_list = true }) same ∙ a,
            )
      ]

  pub reflag-Held :
      (s : State) (n m : BlockNode Byte64) (q h : Byte64) (spec' : BlockSpec Byte64) (flag : Bool)
      → TakesAll
      → get_block_node H D s n.hash ≡ some n
      → Held s q m h spec'
      → Held (save_block_node H D s (record n { is_main_list = flag })) q m h spec'
  reflag-Held s n m q h spec' flag r is x = record {
    keyed = save-IsKeyed s (record n { is_main_list = flag }) r x.keyed;
    holds = reflag-Holds s n m q flag r is x.holds;
    spec = save-spec s (record n { is_main_list = flag }) h ∙ x.spec;
  }

  pub stored_again :
      (s : State) (k : Byte64) (n : BlockNode Byte64)
      → IsKeyed s
      → get_block_node H D s k ≡ some n
      → get_block_node H D s n.hash ≡ some n
  stored_again s k n keyed e = ap (get_block_node H D s) (keyed k n e) ∙ e

  -- A node that is stored under the hash of another, or is new, is written.
  pub save-Held_other :
      (s : State) (n m : BlockNode Byte64) (q h : Byte64) (spec' : BlockSpec Byte64)
      → TakesAll
      → n.hash ≢ q
      → Held s q m h spec'
      → Held (save_block_node H D s n) q m h spec' × Held (save_block_node H D s n) n.hash n h spec'
  save-Held_other s n m q h spec' r ne x =
      let keyed = save-IsKeyed s n r x.keyed in
      let spec = save-spec s n h ∙ x.spec in
      (
        record { keyed = keyed; holds = save-Holds_other s n m q r ne x.holds; spec = spec },
        record { keyed = keyed; holds = save-Holds_same s n r; spec = spec },
      )

  pub put-node :
      (s t : State) (k : Key Byte64) (v : Value Byte64) (j : Byte64)
      → put s k v ≡ some t
      → k ≢ block_node_key j
      → get_block_node H D t j ≡ get_block_node H D s j
  unfolding get_block_node
  put-node s t k v j e ne = ground (arith, D.get-put_ne s k v (block_node_key j) e ne)

  put-spec :
      (s t : State) (k : Key Byte64) (v : Value Byte64) (j : Byte64)
      → put s k v ≡ some t
      → k ≢ block_spec_key j
      → get_block_spec H D t j ≡ get_block_spec H D s j
  unfolding get_block_spec
  put-spec s t k v j e ne = ground (arith, D.get-put_ne s k v (block_spec_key j) e ne)

  -- A write that is to another table leaves the nodes.
  pub put-Held :
      (s t : State) (k : Key Byte64) (v : Value Byte64) (m : BlockNode Byte64) (q h : Byte64)
      (spec' : BlockSpec Byte64)
      → put s k v ≡ some t
      → ((j : Byte64) → k ≢ block_node_key j)
      → k ≢ block_spec_key h
      → Held s q m h spec'
      → Held t q m h spec'
  put-Held s t k v m q h spec' e other spec_other x =
      let (n, at, alike) = x.holds in
      record {
        keyed = λ j y g. x.keyed j y (sym (put-node s t k v j e (other j)) ∙ g);
        holds = (n, put-node s t k v q e (other q) ∙ at, alike);
        spec = put-spec s t k v h e spec_other ∙ x.spec;
      }

  pub save_block-Held :
      (s : State) (b : SimpleBlock Byte64) (h q : Byte64) (parent : BlockNode Byte64)
      → TakesAll
      → IsKeyed s
      → get_block_node H D s q ≡ some parent
      → Held
          (save_block_node H D (save_block H D s b h) (add_child H parent h))
          q
          (add_child H parent h)
          h
          b.spec
  unfolding save_block add_child get_block_spec
  save_block-Held s b h q parent r keyed e =
      elim (Option-cases (put s (block_spec_key h) (block_spec b.spec))) [
        | inl f ↦ absurd (r _ _ _ f)
        | inr (t, f) ↦
            let node = λ (j : Byte64).
              put-node s t (block_spec_key h) (block_spec b.spec) j f (λ k. ground arith) in
            let keyed' : IsKeyed t = λ j n g. keyed j n (sym (node j) ∙ g) in
            let spec = D.get-put_self s (block_spec_key h) (block_spec b.spec) f in
            let parent' = add_child H parent h in
            let is = keyed q parent e in
            rw (save_block, f)
              (record {
                keyed = save-IsKeyed t parent' r keyed';
                holds =
                    subst (λ j. Holds (save_block_node H D t parent') j parent') is
                      (save-Holds_same t parent' r);
                spec = save-spec t parent' h ∙ ground (arith, spec);
              })
      ]

  -- A hash without a node is not that of a node that is stored.
  pub unknown_ne :
      (s : State) (h q : Byte64) (n : BlockNode Byte64)
      → has H D s (block_node_key h) ≡ false
      → get_block_node H D s q ≡ some n
      → h ≢ q
  unfolding has get_block_node
  unknown_ne s h q n k e p = elim (Option-cases (get s (block_node_key q))) [
    | inl f ↦ ground (arith, f, e)
    | inr (v, f) ↦ ground (arith, k, ap (λ j. get s (block_node_key j)) p ∙ f)
  ]
