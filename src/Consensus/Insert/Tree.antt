-- ===== src/Consensus/Insert/Tree.antt =====
-- consensus/blockChainConsensus.go: the chain nodes of a store as a tree below the genesis block, apart
-- from the flags of the main list, and what a write does to it.
use go_trust_net.Prelude.{
  ◌<◌, false, [], ◌∷◌, Option, none, some, ite, if_pos, if_neg, ◌≡◌, ◌≢◌, ◌⊎◌, inl, inr, refl, sym,
  ◌∙◌, ap, subst, arith, All, All-mono, All-append,
}
use mathlib.Core.Option
use mathlib.Core.Option.{some-injective}
use go_trust_net.Core.Digest.{Digests}
use go_trust_net.Db.{Database}
use go_trust_net.Consensus.{WorldStates, ChainNode, Key, Value}
use go_trust_net.Consensus.Blocks.{add_child}
use go_trust_net.Consensus.Store.{get_chain_node}

module _ (H : Digests) (D : Database (Key H.Byte64) (Value H.Byte64))
    (W : WorldStates H.Byte64) where
  open H use {Byte64, dec}
  open D use {State, put}

  -- A node without its flag, and what a store has of each.
  abbrev pub place : ChainNode Byte64 → ChainNode Byte64
  place n = record n { is_main_list = false }

  abbrev pub View : Type 0
  View = Byte64 → Option (ChainNode Byte64)

  abbrev pub view : State → View
  view s k = Option.map place (get_chain_node H D W s k)

  -- The view after a write.
  abbrev pub with_node : View → Byte64 → ChainNode Byte64 → View
  with_node v h n = λ k. ite (dec h k) (some n) (v k)

  -- A child that is stored is a child by its own account too, and lies deeper.
  abbrev pub IsChild : View → Byte64 → ChainNode Byte64 → Byte64 → Type 0
  IsChild v k n c = (m : ChainNode Byte64) × (v c ≡ some m) × (m.parent ≡ k) × (n.depth < m.depth)

  -- A tree with the root `g`: each node stands under its hash, has its parent, less deep, in the store
  -- if it is not the root, and its children, apart from those that are due.
  pub record IsLinked (g : Byte64) (due : Byte64 → Byte64 → Type 0) (v : View) : Type 0 where
    pub hashed : (k : Byte64) (n : ChainNode Byte64) → v k ≡ some n → n.hash ≡ k
    pub up :
        (k : Byte64) (n : ChainNode Byte64)
        → v k ≡ some n
        → (k ≡ g) ⊎ ((p : ChainNode Byte64) × (v n.parent ≡ some p) × (p.depth < n.depth))
    pub down :
        (k : Byte64) (n : ChainNode Byte64)
        → v k ≡ some n
        → All (λ c. due k c ⊎ IsChild v k n c) n.children
    pub root : (n : ChainNode Byte64) × (v g ≡ some n) × (n.depth ≡ 0)

  abbrev pub Never : Byte64 → Byte64 → Type 0
  Never k c = ⊥

  -- The child `h` of `ph` is due.
  abbrev pub Only : Byte64 → Byte64 → Byte64 → Byte64 → Type 0
  Only ph h k c = (k ≡ ph) × (c ≡ h)

  differ :
      {A : Type 0} (v : Byte64 → Option A) (h k : Byte64) (a : A)
      → v h ≡ none
      → v k ≡ some a
      → h ≢ k
  differ v h k a e f = λ p. let x = sym e ∙ ap v p ∙ f in cc

  -- A due child that is stored.
  pub with_node-IsLinked :
      (g ph h : Byte64) (v : View) (p c : ChainNode Byte64)
      → IsLinked g (Only ph h) v
      → v h ≡ none
      → v ph ≡ some p
      → p.depth < c.depth
      → (c.parent ≡ ph) × (c.children ≡ []) × (c.hash ≡ h)
      → IsLinked g Never (with_node v h c)
  with_node-IsLinked g ph h v p c l fresh at lt (parent, children, hash) = record {
    hashed = λ k n e. elim (dec h k) [
      | yes q ↦
          let same = sym (if_pos (dec h k) q (some c) (v k)) ∙ e in
          ap (λ (m : ChainNode Byte64). m.hash) (sym (some-injective c n same)) ∙ hash ∙ q
      | no q ↦ l.hashed k n (sym (if_neg (dec h k) q (some c) (v k)) ∙ e)
    ];
    up = λ k n e. elim (dec h k) [
      | yes q ↦
          let same = some-injective c n (sym (if_pos (dec h k) q (some c) (v k)) ∙ e) in
          inr (
            p,
            kept n.parent p
                (ap v (ap (λ (m : ChainNode Byte64). m.parent) (sym same) ∙ parent) ∙ at),
            subst (λ (m : ChainNode Byte64). p.depth < m.depth) same lt,
          )
      | no q ↦ elim (l.up k n (sym (if_neg (dec h k) q (some c) (v k)) ∙ e)) [
        | inl r ↦ inl r
        | inr (u, f, less) ↦ inr (u, kept n.parent u f, less)
      ]
    ];
    down = λ k n e. elim (dec h k) [
      | yes q ↦
          let same = some-injective c n (sym (if_pos (dec h k) q (some c) (v k)) ∙ e) in
          let none' : n.children ≡ [] =
            ap (λ (m : ChainNode Byte64). m.children) (sym same) ∙ children in
          subst (All (λ j. Never k j ⊎ IsChild (with_node v h c) k n j)) (sym none') tt
      | no q ↦
          let f = sym (if_neg (dec h k) q (some c) (v k)) ∙ e in
          All-mono
            (λ j w. inr (elim w [
              | inr (m, x, y, z) ↦ (m, kept j m x, y, z)
              | inl (x, y) ↦ (
                c,
                if_pos (dec h j) (sym y) (some c) (v j),
                parent ∙ sym x,
                subst (λ (m : ChainNode Byte64). m.depth < c.depth)
                    (some-injective p n (sym at ∙ ap v (sym x) ∙ f)) lt,
              )
            ]))
            n.children (l.down k n f)
    ];
    root = (l.root.0, kept g l.root.0 l.root.1, l.root.2);
  }
    where
      kept : (k : Byte64) (m : ChainNode Byte64) → v k ≡ some m → with_node v h c k ≡ some m
      kept k m e = if_neg (dec h k) (differ v h k m fresh e) (some c) (v k) ∙ e

  -- A new due child.
  pub add_child-IsLinked :
      (g ph h : Byte64) (v : View) (p : ChainNode Byte64)
      → IsLinked g Never v
      → v ph ≡ some p
      → IsLinked g (Only ph h) (with_node v ph (add_child p h))
  unfolding add_child
  add_child-IsLinked g ph h v p l at = record {
    hashed = λ k n e. elim (dec ph k) [
      | yes q ↦ ap (λ (m : ChainNode Byte64). m.hash) (sym (new k n q e)) ∙ l.hashed ph p at ∙ q
      | no q ↦ l.hashed k n (old k n q e)
    ];
    up = λ k n e. elim (dec ph k) [
      | yes q ↦ elim (l.up ph p at) [
        | inl r ↦ inl (sym q ∙ r)
        | inr (u, f, less) ↦
            let (u', f', d) = kept p.parent u f in
            inr (
              u',
              subst (λ (m : ChainNode Byte64). with_node v ph (add_child p h) m.parent ≡ some u')
                  (new k n q e) f',
              subst (λ (m : ChainNode Byte64). u'.depth < m.depth) (new k n q e)
                  (omega (arith, d.0)),
            )
      ]
      | no q ↦ elim (l.up k n (old k n q e)) [
        | inl r ↦ inl r
        | inr (u, f, less) ↦ let (u', f', d) = kept n.parent u f in inr (u', f', omega (arith, d.0))
      ]
    ];
    down = λ k n e. elim (dec ph k) [
      | yes q ↦
          subst (λ (m : ChainNode Byte64). All (Goal k m) m.children) (new k n q e)
            (All-append (Goal k (add_child p h)) p.children (h ∷ [])
              (All-mono (λ j w. child k j p (subst (λ i. Never i j ⊎ IsChild v i p j) q w))
                p.children (l.down ph p at))
              (inl (sym q, refl), tt))
      | no q ↦ All-mono (λ j w. child k j n w) n.children (l.down k n (old k n q e))
    ];
    root = let (u', f', d) = kept g l.root.0 l.root.1 in (u', f', d.0 ∙ l.root.2);
  }
    where
      Goal : Byte64 → ChainNode Byte64 → Byte64 → Type 0
      Goal k n j = Only ph h k j ⊎ IsChild (with_node v ph (add_child p h)) k n j

      new :
          (k : Byte64) (n : ChainNode Byte64)
          → ph ≡ k
          → with_node v ph (add_child p h) k ≡ some n
          → add_child p h ≡ n
      new k n q e = some-injective _ _ (sym (if_pos (dec ph k) q (some (add_child p h)) (v k)) ∙ e)

      old :
          (k : Byte64) (n : ChainNode Byte64)
          → ph ≢ k
          → with_node v ph (add_child p h) k ≡ some n
          → v k ≡ some n
      old k n q e = sym (if_neg (dec ph k) q (some (add_child p h)) (v k)) ∙ e

      kept :
          (k : Byte64) (m : ChainNode Byte64)
          → v k ≡ some m
          → (u : ChainNode Byte64) × (with_node v ph (add_child p h) k ≡ some u)
            × ((u.depth ≡ m.depth) × (u.parent ≡ m.parent))
      kept k m e = elim (dec ph k) [
        | yes q ↦
            let same = some-injective p m (sym at ∙ ap v q ∙ e) in
            (
              add_child p h,
              if_pos (dec ph k) q (some (add_child p h)) (v k),
              (
                ap (λ (n : ChainNode Byte64). n.depth) same,
                ap (λ (n : ChainNode Byte64). n.parent) same,
              ),
            )
        | no q ↦ (m, if_neg (dec ph k) q (some (add_child p h)) (v k) ∙ e, (refl, refl))
      ]

      child : (k j : Byte64) (n : ChainNode Byte64) → Never k j ⊎ IsChild v k n j → Goal k n j
      child k j n (inl x) = absurd x
      child k j n (inr (m, x, y, z)) =
          let (u, f, d) = kept j m x in inr (u, f, d.1 ∙ y, omega (arith, d.0))
