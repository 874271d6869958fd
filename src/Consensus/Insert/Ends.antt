-- ===== src/Consensus/Insert/Ends.antt =====
-- consensus/blockChainConsensus.go: `addValidatedBlock` ends, and keeps the tree of the blocks.
use go_trust_net.Prelude.{
  ℕ, zero, suc, ◌+◌, ◌<◌, ◌≤◌, Bool, false, List, [], ◌∷◌, Option, none, some, if_pos, if_neg, ◌≡◌,
  ◌≢◌, ◌⊎◌, inl, inr, refl, sym, ◌∙◌, ap, subst, arith, All, Option-cases, Bool-cases,
}
use mathlib.Core.Option
use mathlib.Core.Option.{some-injective}
use go_trust_net.Core.Digest.{Digests}
use go_trust_net.Db.{Database}
use go_trust_net.Consensus.{WorldStates, ChainNode, Key, Value}
use go_trust_net.Consensus.Blocks.{set_main_list}
use go_trust_net.Consensus.Store.{get_chain_node, put_chain_node, find_main_list_child}
use go_trust_net.Consensus.Insert.{demote}
use go_trust_net.Consensus.Insert.Duplicates.{TakesAll}
use go_trust_net.Consensus.Insert.Tree.{
  with_node-IsLinked, place, View, view, with_node, IsChild, IsLinked, Never, Only,
}
use go_trust_net.Consensus.Insert.Walks.{IsRooted, view-put, view-reflag, put-IsRooted, stored}

module _ (H : Digests) (D : Database (Key H.Byte64) (Value H.Byte64))
    (W : WorldStates H.Byte64) where
  open H use {Byte64, dec}
  open D use {State, put}
  open W use {World}

  -- The child that is found is one of the list, and stored.
  find_main_list_child-All :
      {Q : Byte64 → Type 0} (s : State) (hs : List Byte64) (skip : Option Byte64)
      (c : ChainNode Byte64)
      → All Q hs
      → find_main_list_child H D W s hs skip ≡ some c
      → (h : Byte64) × (get_chain_node H D W s h ≡ some c) × Q h
  unfolding find_main_list_child
  find_main_list_child-All s [] skip c q e = absurd (cc)
  find_main_list_child-All s (h ∷ hs) skip c q e =
      let later = find_main_list_child-All s hs skip c q.1 in
      elim (Option-cases (get_chain_node H D W s h)) [
        | inl f ↦ later (ground (arith, f, e))
        | inr (n, f) ↦ elim (Bool-cases n.is_main_list) [
          | inr g ↦ later (ground (arith, f, g, e))
          | inl g ↦ elim (Option-cases skip) [
            | inl k ↦ (h, ground (arith, f, g, k, e), q.0)
            | inr (j, k) ↦ elim (dec j n.hash) [
              | yes x ↦ later (ground (arith, f, g, k, e, x))
              | no x ↦ (h, ground (arith, f, g, k, e, x), q.0)
            ]
          ]
        ]
      ]

  -- The tree, with no child due.
  abbrev pub IsTree : Byte64 → View H D W → Type 0
  IsTree g v = IsLinked H D W g (Never H D W) v

  -- All nodes of a view are at most so deep.
  abbrev pub IsBounded : ℕ → View H D W → Type 0
  IsBounded most v = (k : Byte64) (n : ChainNode Byte64) → v k ≡ some n → n.depth ≤ most

  -- A node that the loop down may take off: stored, and not the root; the fuel covers what is below it.
  abbrev pub Fits : Byte64 → ℕ → ℕ → State → Option (ChainNode Byte64) → Type 0
  Fits g most fuel s none = 0 < fuel
  Fits g most fuel s (some n) =
      (get_chain_node H D W s n.hash ≡ some n) × (n.hash ≢ g) × (most + 1 < n.depth + fuel)

  abbrev pub Demoted : Byte64 → State → Option State → Type 0
  Demoted g s none = ⊥
  Demoted g s (some t) = (view H D W t ≡ view H D W s) × IsRooted H D W g t

  Demoted-same :
      (g : Byte64) (s t : State) (r : Option State)
      → view H D W t ≡ view H D W s
      → Demoted g t r
      → Demoted g s r
  Demoted-same g s t none e x = x
  Demoted-same g s t (some u) e (f, x) = (f ∙ e, x)

  -- The main child of a stored node fits, with one round of fuel less.
  pub child-Fits :
      (g : Byte64) (most fuel : ℕ) (s : State) (n : ChainNode Byte64) (skip : Option Byte64)
      → IsTree g (view H D W s)
      → view H D W s n.hash ≡ some (place H D W n)
      → most < n.depth + fuel
      → 0 < fuel
      → Fits g most fuel s (find_main_list_child H D W s n.children skip)
  child-Fits g most fuel s n skip l e more pos =
      elim (Option-cases (find_main_list_child H D W s n.children skip)) [
        | inl f ↦ subst (Fits g most fuel s) (sym f) pos
        | inr (c, f) ↦
            let (h, at, q) =
              find_main_list_child-All s n.children skip c (l.down n.hash (place H D W n) e) f in
            subst (Fits g most fuel s) (sym f) (fits c h at q)
      ]
    where
      fits :
          (c : ChainNode Byte64) (h : Byte64)
          → get_chain_node H D W s h ≡ some c
          → Never H D W n.hash h ⊎ IsChild H D W (view H D W s) n.hash (place H D W n) h
          → Fits g most fuel s (some c)
      fits c h at (inl x) = absurd x
      fits c h at (inr (m, x, y, z)) =
          let same =
            some-injective (place H D W c) m (sym (ap (Option.map (place H D W)) at) ∙ x) in
          let hash = ap (λ (k : ChainNode Byte64). k.hash) same ∙ l.hashed h m x in
          let deep = ap (λ (k : ChainNode Byte64). k.depth) same in
          (
            ap (get_chain_node H D W s) hash ∙ at,
            λ k.
                let (r, is, zero') = l.root in
                let top = some-injective m r (sym x ∙ ap (view H D W s) (sym hash ∙ k) ∙ is) in
                omega (arith, ap (λ (k : ChainNode Byte64). k.depth) top),
            omega (arith, deep),
          )

  pub demote-Demoted :
      (g : Byte64) (most fuel : ℕ) (s : State) (n : Option (ChainNode Byte64))
      → TakesAll H D W
      → IsTree g (view H D W s)
      → IsBounded most (view H D W s)
      → IsRooted H D W g s
      → Fits g most fuel s n
      → Demoted g s (demote H D W s fuel n)
  unfolding demote set_main_list
  demote-Demoted g most zero s none all l b r f = absurd (omega arith)
  demote-Demoted g most zero s (some n) all l b r (e, ne, f) =
      absurd (let d = b n.hash (place H D W n) (ap (Option.map (place H D W)) e) in omega arith)
  demote-Demoted g most (suc fuel) s none all l b r f = (refl, r)
  demote-Demoted g most (suc fuel) s (some n) all l b r (e, ne, f) =
      let s₁ = put_chain_node H D W s (record n { is_main_list = false }) in
      let same : view H D W s₁ ≡ view H D W s = view-reflag H D W s n false all e in
      let l₁ = subst (IsTree g) (sym same) l in
      let b₁ = subst (IsBounded most) (sym same) b in
      let at = ap (Option.map (place H D W)) e in
      let d = b n.hash (place H D W n) at in
      Demoted-same g s s₁ _ same (
        demote-Demoted g most fuel s₁ (find_main_list_child H D W s₁ n.children none) all l₁ b₁
          (put-IsRooted H D W g s (record n { is_main_list = false }) all (inl ne) r)
          (child-Fits g most fuel s₁ n none l₁ (ap (λ (v : View H D W). v n.hash) same ∙ at)
            (omega arith) (omega arith)))

  -- What a store keeps: the tree, its depth, and the root on the main list.
  pub record IsSound (g : Byte64) (most : ℕ) (s : State) : Type 0 where
    pub tree : IsTree g (view H D W s)
    pub bounded : IsBounded most (view H D W s)
    pub rooted : IsRooted H D W g s

  -- The child `h` of `ph` is listed there, and not stored yet.
  pub record IsDue (g : Byte64) (most : ℕ) (ph h : Byte64) (p c : ChainNode Byte64) (s : State)
      : Type 0 where
    pub tree : IsLinked H D W g (Only H D W ph h) (view H D W s)
    pub bounded : IsBounded most (view H D W s)
    pub rooted : IsRooted H D W g s
    pub parent : get_chain_node H D W s ph ≡ some p
    pub fresh : view H D W s h ≡ none
    pub deeper : p.depth < c.depth
    pub least : c.depth ≤ most
    pub is : (c.parent ≡ ph) × (c.children ≡ []) × (c.hash ≡ h)

  pub put_child-IsSound :
      (g : Byte64) (most : ℕ) (ph h : Byte64) (p c : ChainNode Byte64) (s : State) (b : Bool)
      → TakesAll H D W
      → IsDue g most ph h p c s
      → IsSound g most (put_chain_node H D W s (set_main_list c b))
  unfolding set_main_list
  put_child-IsSound g most ph h p c s b all d =
      let c' = record c { is_main_list = b } in
      let e = view-put H D W s c' all in
      record {
        tree = subst (IsTree g) (sym e) (
            subst (λ k. IsTree g (with_node H D W (view H D W s) k (place H D W c))) (sym d.is.2)
              (with_node-IsLinked H D W g ph h (view H D W s) (place H D W p) (place H D W c) d.tree
                d.fresh (ap (Option.map (place H D W)) d.parent) d.deeper d.is));
        bounded = subst (IsBounded most) (sym e) (λ k n f. elim (dec c.hash k) [
          | yes q ↦
              let same =
                some-injective (place H D W c) n
                  (sym (if_pos (dec c.hash k) q (some (place H D W c)) (view H D W s k)) ∙ f) in
              subst (λ (m : ChainNode Byte64). m.depth ≤ most) same d.least
          | no q ↦
              d.bounded k n
                (sym (if_neg (dec c.hash k) q (some (place H D W c)) (view H D W s k)) ∙ f)
        ]);
        rooted =
            put-IsRooted H D W g s c' all
              (inl (λ k.
                let (r, is, zero') = d.tree.root in
                let x = sym d.fresh ∙ ap (view H D W s) (sym d.is.2 ∙ k) ∙ is in cc))
              d.rooted;
      }

  unfoldable pub Rebalanced : Byte64 → ℕ → Option State → Type 0
  Rebalanced g most none = ⊥
  Rebalanced g most (some t) = IsSound g most t

  pub Demoted-Rebalanced :
      (g : Byte64) (most : ℕ) (s : State) (r : Option State)
      → IsSound g most s
      → Demoted g s r
      → Rebalanced g most r
  unfolding Rebalanced
  Demoted-Rebalanced g most s none i x = x
  Demoted-Rebalanced g most s (some t) i (e, r) = record {
    tree = subst (IsTree g) (sym e) i.tree;
    bounded = subst (IsBounded most) (sym e) i.bounded;
    rooted = r;
  }

  pub IsDue-same :
      (g : Byte64) (most : ℕ) (ph h : Byte64) (p c : ChainNode Byte64) (s t : State)
      → view H D W t ≡ view H D W s
      → IsRooted H D W g t
      → IsDue g most ph h p c s
      → (p' : ChainNode Byte64) × IsDue g most ph h p' c t
  IsDue-same g most ph h p c s t e r d =
      let (p', f, same) =
        stored H D W t ph (place H D W p)
          (ap (λ (v : View H D W). v ph) e ∙ ap (Option.map (place H D W)) d.parent) in
      (
        p',
        record {
          tree = subst (IsLinked H D W g (Only H D W ph h)) (sym e) d.tree;
          bounded = subst (IsBounded most) (sym e) d.bounded;
          rooted = r;
          parent = f;
          fresh = ap (λ (v : View H D W). v h) e ∙ d.fresh;
          deeper =
              let k = ap (λ (m : ChainNode Byte64). m.depth) same in
              let j = d.deeper in omega arith;
          least = d.least;
          is = d.is;
        },
      )
