-- ===== src/Consensus/Insert/Rebalance.antt =====
-- consensus/blockChainConsensus.go: the two loops of `addValidatedBlock` together, for a child that is not
-- stored yet.
use go_trust_net.Prelude.{
  ℕ, ◌+◌, ◌<◌, ◌≤◌, true, [], Option, none, some, if_pos, if_neg, ◌≡◌, inl, inr, sym, ◌∙◌, ap,
  subst, arith, Option-cases,
}
use mathlib.Core.Option
use mathlib.Core.Option.{some-injective}
use go_trust_net.Core.Digest.{Digests}
use go_trust_net.Db.{Database}
use go_trust_net.Consensus.{WorldStates, ChainNode, Key, Value}
use go_trust_net.Consensus.Blocks.{set_main_list, add_child}
use go_trust_net.Consensus.Store.{get_chain_node, put_chain_node, find_main_list_child}
use go_trust_net.Consensus.Insert.{promote, demote, rebalance}
use go_trust_net.Consensus.Insert.Duplicates.{TakesAll, put_chain_node-get}
use go_trust_net.Consensus.Insert.Tree.{
  add_child-IsLinked, place, View, view, with_node, IsLinked, Only,
}
use go_trust_net.Consensus.Insert.Walks.{
  Same, Same-view, Same-IsRooted, view-put, put-IsRooted, Promoted, promote-Promoted,
}
use go_trust_net.Consensus.Insert.Ends.{
  IsBounded, child-Fits, demote-Demoted, IsSound, IsDue, put_child-IsSound, Rebalanced,
  Demoted-Rebalanced, IsDue-same,
}

module _ (H : Digests) (D : Database (Key H.Byte64) (Value H.Byte64))
    (W : WorldStates H.Byte64) where
  open H use {Byte64, dec}
  open D use {State, put}
  open W use {World}

  -- The loop down, from the node at which the loop up has stopped.
  descend :
      (g : Byte64) (most : ℕ) (ph h : Byte64) (p c n : ChainNode Byte64) (fuel : ℕ) (s : State)
      (skip : Option Byte64)
      → TakesAll H D W
      → IsDue H D W g most ph h p c s
      → get_chain_node H D W s n.hash ≡ some n
      → most + 1 < fuel
      → (let s' = put_chain_node H D W s (set_main_list c true) in
          Rebalanced H D W g most
            (demote H D W s' fuel (find_main_list_child H D W s' n.children skip)))
  unfolding set_main_list
  descend g most ph h p c n fuel s skip all d e more =
      let s' = put_chain_node H D W s (set_main_list c true) in
      let sound = put_child-IsSound H D W g most ph h p c s true all d in
      let at : get_chain_node H D W s' n.hash ≡ some n =
        put_chain_node-get H D W s (set_main_list c true) n.hash all
        ∙ if_neg (dec c.hash n.hash)
            (λ k.
              let x =
                sym d.fresh
                ∙ ap (view H D W s) (sym d.is.2 ∙ k)
                ∙ ap (Option.map (place H D W)) e in
              cc)
            (some (set_main_list c true)) (get_chain_node H D W s n.hash)
        ∙ e in
      Demoted-Rebalanced H D W g most s' _ sound (
        demote-Demoted H D W g most fuel s' (find_main_list_child H D W s' n.children skip) all
          sound.tree sound.bounded sound.rooted
          (child-Fits H D W g most fuel s' n skip sound.tree (ap (Option.map (place H D W)) at)
            (omega arith) (omega arith)))

  pub rebalance-Rebalanced :
      (g : Byte64) (most : ℕ) (ph h : Byte64) (p c : ChainNode Byte64) (fuel : ℕ) (s : State)
      → TakesAll H D W
      → IsDue H D W g most ph h p c s
      → most + 1 < fuel
      → Rebalanced H D W g most (rebalance H D W s fuel p c)
  unfolding rebalance Promoted
  rebalance-Rebalanced g most ph h p c fuel s all d more =
      let child = set_main_list c true in
      let hash = d.tree.hashed ph (place H D W p) (ap (Option.map (place H D W)) d.parent) in
      let up =
        promote-Promoted H D W g (Only H D W ph h) fuel s p child all d.tree d.rooted
          (ap (get_chain_node H D W s) hash ∙ d.parent)
          (let j = d.deeper in let k = d.least in omega arith) in
      elim (Option-cases (promote H D W s fuel p child)) [
        | inl e ↦ absurd (subst (Promoted H D W g s) e up)
        | inr ((t, n, below), e) ↦
            let (same, root, at) = subst (Promoted H D W g s) e up in
            let (p', d') = IsDue-same H D W g most ph h p c s t same root d in
            let rest = descend g most ph h p' c n fuel t (some below.hash) all d' at more in
            rw (rebalance, e) rest
      ]

  pub IsDue-Same :
      (g : Byte64) (most : ℕ) (ph h : Byte64) (p c : ChainNode Byte64) (s t : State)
      → Same H D W t s
      → IsDue H D W g most ph h p c s
      → IsDue H D W g most ph h p c t
  IsDue-Same g most ph h p c s t e d =
      let same = Same-view H D W t s e in
      record {
        tree = subst (IsLinked H D W g (Only H D W ph h)) (sym same) d.tree;
        bounded = subst (IsBounded H D W most) (sym same) d.bounded;
        rooted = Same-IsRooted H D W g s t e d.rooted;
        parent = e ph ∙ d.parent;
        fresh = ap (λ (v : View H D W). v h) same ∙ d.fresh;
        deeper = d.deeper;
        least = d.least;
        is = d.is;
      }

  -- The node of the parent with its new child, in the store.
  pub parent-IsDue :
      (g : Byte64) (most : ℕ) (ph h : Byte64) (n c : ChainNode Byte64) (s : State)
      → TakesAll H D W
      → IsSound H D W g most s
      → get_chain_node H D W s ph ≡ some n
      → get_chain_node H D W s h ≡ none
      → n.depth < c.depth
      → c.depth ≤ most
      → (c.parent ≡ ph) × (c.children ≡ []) × (c.hash ≡ h)
      → IsDue H D W g most ph h (add_child n h) c (put_chain_node H D W s (add_child n h))
  unfolding add_child
  parent-IsDue g most ph h n c s all sound at fresh deep least is =
      let n' = add_child n h in
      let in_view : view H D W s ph ≡ some (place H D W n) = ap (Option.map (place H D W)) at in
      let hash : n.hash ≡ ph = sound.tree.hashed ph (place H D W n) in_view in
      let e : view H D W (put_chain_node H D W s n')
          ≡ with_node H D W (view H D W s) ph (place H D W n') =
        view-put H D W s n' all
        ∙ ap (λ k. with_node H D W (view H D W s) k (place H D W n')) hash in
      record {
        tree =
            subst (IsLinked H D W g (Only H D W ph h)) (sym e)
              (add_child-IsLinked H D W g ph h (view H D W s) (place H D W n) sound.tree in_view);
        bounded = subst (IsBounded H D W most) (sym e) (λ k m f. elim (dec ph k) [
          | yes q ↦
              let same =
                some-injective (place H D W n') m
                  (sym (if_pos (dec ph k) q (some (place H D W n')) (view H D W s k)) ∙ f) in
              subst (λ (x : ChainNode Byte64). x.depth ≤ most) same
                (sound.bounded ph (place H D W n) in_view)
          | no q ↦
              sound.bounded k m
                (sym (if_neg (dec ph k) q (some (place H D W n')) (view H D W s k)) ∙ f)
        ]);
        rooted =
            put-IsRooted H D W g s n' all
              (elim (dec n.hash g) [
                | no q ↦ inl q
                | yes q ↦
                    let (r, f, main) = sound.rooted in
                    let same =
                      some-injective n r
                        (sym at ∙ ap (get_chain_node H D W s) (sym hash ∙ q) ∙ f) in
                    inr (ap (λ (x : ChainNode Byte64). x.is_main_list) same ∙ main)
              ])
              sound.rooted;
        parent =
            put_chain_node-get H D W s n' ph all
            ∙ if_pos (dec n'.hash ph) hash (some n') (get_chain_node H D W s ph);
        fresh = ap (Option.map (place H D W)) (
            put_chain_node-get H D W s n' h all
            ∙ if_neg (dec n'.hash h)
                (λ q. let x = sym at ∙ ap (get_chain_node H D W s) (sym hash ∙ q) ∙ fresh in cc)
                (some n') (get_chain_node H D W s h)
            ∙ fresh);
        deeper = deep;
        least = least;
        is = is;
      }
