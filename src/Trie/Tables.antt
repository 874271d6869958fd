-- ===== src/Trie/Tables.antt =====
-- core/trie/trieImpl.go: the tables of one store do not meet. A write to the table of transaction
-- roots leaves every node of the world state.
use go_trust_net.Prelude.{
  ℕ, List, [], ◌∷◌, none, some, ite, if_pos, if_neg, ◌≡◌, ◌≢◌, inl, inr, refl, sym, ◌∙◌, subst,
  arith, Option-cases, ap,
}
use go_trust_net.Core.Digest.{Digests}
use go_trust_net.Db.{Database}
use go_trust_net.Trie.{
  unmarked, marked, Node, mpt_world_state_node, Key, table_key, Value, node, MptWorldState,
}
use go_trust_net.Trie.Walk.{put_node, get_node, get_state, lookup_depth_first}
use go_trust_net.Trie.Store.{IsClosed, WellFormed}
use go_trust_net.Trie.State.{or_else, switch_root, tx_root}

module _ (H : Digests) (D : Database (Key H.Byte64) (Value H.Byte64)) where
  open H use {Byte64, dec, null}
  open D use {State, get, put}

  -- The world state table of two stores.
  pub record SameStates (s t : State) : Type 0 where
    pub at : (h : Byte64) → get_state H D t h ≡ get_state H D s h

  pub SameStates-trans : {s t u : State} → SameStates s t → SameStates t u → SameStates s u
  SameStates-trans a b = record { at = λ h. b.at h ∙ a.at h }

  pub IsClosed-SameStates :
      {s t : State} {n : Node Byte64} → SameStates s t → IsClosed H D s n → IsClosed H D t n
  IsClosed-SameStates x c = record {
    at = λ i l. elim (c.at i l) [ inl e ↦ inl e | inr (m, e) ↦ inr (m, x.at _ ∙ e) ];
  }

  pub WellFormed-SameStates : {s t : State} → SameStates s t → WellFormed H D s → WellFormed H D t
  WellFormed-SameStates x w = record {
    hashed = λ h n e. w.hashed h n (sym (x.at h) ∙ e);
    closed = λ h n e. IsClosed-SameStates x (w.closed h n (sym (x.at h) ∙ e));
  }

  pub lookup-SameStates :
      {s t : State} (n : Node Byte64) (key_hex : List ℕ)
      → SameStates s t
      → lookup_depth_first H D t n key_hex ≡ lookup_depth_first H D s n key_hex
  unfolding lookup_depth_first
  lookup-SameStates n [] x = refl
  lookup-SameStates {s} {t} n (i ∷ key_hex) x = elim (Option-cases (get_state H D s (n.idxs i))) [
    | inl e ↦ ground (arith, x.at (n.idxs i))
    | inr (c, e) ↦ ground (arith, x.at (n.idxs i), lookup-SameStates {s = s} {t = t} c key_hex x)
  ]

  -- A store that takes every write.
  abbrev pub TakesAll : Type 0
  TakesAll = (s : State) (k : Key Byte64) (v : Value Byte64) → put s k v ≢ none

  pub put_root-SameStates :
      (s : State) (h : Byte64) (n : Node Byte64) {t : State}
      → put_node H D s (tx_root H D h) n ≡ some t
      → SameStates s t
  unfolding put_node get_state
  put_root-SameStates s h n e = record {
    at = λ j.
        rw
          (
            D.get-put_ne s (tx_root H D h) (node n) (table_key mpt_world_state_node j) e (λ q. cc),
            get_node,
          )
          refl;
  }

  pub put_root-get :
      (s : State) (h : Byte64) (n : Node Byte64) (j : Byte64) {t : State}
      → put_node H D s (tx_root H D h) n ≡ some t
      → get_node H D t (tx_root H D j) ≡ ite (dec h j) (some n) (get_node H D s (tx_root H D j))
  unfolding put_node get_node
  put_root-get s h n j {t} e = elim (dec h j) [
    | yes p ↦ rw (if_pos _ p, ← p) (rw (D.get-put_self s (tx_root H D h) (node n) e, get_node) refl)
    | no p ↦
        rw
          (
            if_neg _ p,
            D.get-put_ne s (tx_root H D h) (node n) (tx_root H D j) e (λ q. p (cc)),
            get_node,
          )
          refl
  ]

  pub put_root_keeps :
      (s : State) (h : Byte64) (n : Node Byte64) (j : Byte64) (x : Node Byte64) {t : State}
      → put_node H D s (tx_root H D h) n ≡ some t
      → get_node H D s (tx_root H D j) ≡ some x
      → (y : Node Byte64) × (get_node H D t (tx_root H D j) ≡ some y)
  put_root_keeps s h n j x e g = elim (dec h j) [
    | yes p ↦ (n, put_root-get s h n j e ∙ if_pos (dec h j) p _ _)
    | no p ↦ (x, put_root-get s h n j e ∙ if_neg (dec h j) p _ _ ∙ g)
  ]

  pub put_node_total :
      (s : State) (k : Key Byte64) (n : Node Byte64)
      → TakesAll
      → (t : State) × (put_node H D s k n ≡ some t)
  unfolding put_node
  put_node_total s k n r = elim (Option-cases (put s k (node n))) [
    | inl e ↦ absurd (r s k (node n) e)
    | inr (t, e) ↦ (t, e)
  ]

  -- A root that the walk has returned becomes the root of the world state, and both it and the old
  -- root have a root of transactions in the store.
  pub record Switched (w w' : MptWorldState H D) (s : State) (n : Node Byte64) (h : Byte64)
      : Type 0 where
    pub root_hash : w'.root_hash ≡ h
    pub root_node : w'.root_node ≡ n
    pub states : SameStates s w'.db
    pub old_root : (tx : Node Byte64) × (get_node H D w'.db (tx_root H D w.root_hash) ≡ some tx)

  pub switch_root-Switched :
      (w : MptWorldState H D) (s : State) (n : Node Byte64) (h : Byte64)
      → TakesAll
      → h ≢ null
      → Switched w (switch_root H D w (s, n, h)) s n h
  unfolding switch_root or_else
  switch_root-Switched w s n h r ne =
      let old_tx = record (w.tx_node) { tombstone = marked } in
      let tx = record (w.tx_node) { tombstone = unmarked } in
      let (s₁, e₁) = put_node_total s (tx_root H D w.root_hash) old_tx r in
      let (s₂, e₂) = put_node_total s₁ (tx_root H D h) tx r in
      let is : switch_root H D w (s, n, h)
          ≡ record { root_hash = h; root_node = n; tx_node = tx; db = s₂ } =
        ground (arith, e₁, e₂) in
      let x = put_root-SameStates s w.root_hash old_tx e₁ in
      let y = put_root-SameStates s₁ h tx e₂ in
      record {
        root_hash = ap (λ (v : MptWorldState H D). v.root_hash) is;
        root_node = ap (λ (v : MptWorldState H D). v.root_node) is;
        states =
            subst (λ (v : MptWorldState H D). SameStates s v.db) (sym is) (SameStates-trans x y);
        old_root =
            subst
              (λ (v : MptWorldState H D).
                (x : Node Byte64) × (get_node H D v.db (tx_root H D w.root_hash) ≡ some x))
              (sym is)
              (put_root_keeps s₁ h tx w.root_hash old_tx e₂ (
                put_root-get s w.root_hash old_tx w.root_hash e₁
                ∙ if_pos (dec w.root_hash w.root_hash) refl _ _));
      }
