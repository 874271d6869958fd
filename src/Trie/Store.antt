-- ===== src/Trie/Store.antt =====
-- core/trie/trieImpl.go: the nodes of the world state in a store. Each stands under its hash, so a
-- node that is written again replaces one with the same indexes and value.
use go_trust_net.Prelude.{
  ℕ, ◌<◌, List, [], ◌∷◌, some, ite, if_pos, if_neg, ◌≡◌, ◌≢◌, ◌⊎◌, inl, inr, refl, sym, ◌∙◌, subst,
  arith, All,
}
use go_trust_net.Core.Digest.{Digests}
use go_trust_net.Db.{Database}
use go_trust_net.Trie.{Node, mpt_world_state_node, Key, table_key, Value, node, hash}
use go_trust_net.Trie.Walk.{get_node, put_state, get_state, lookup_depth_first}

-- Two nodes that hash alike: the tombstone is not hashed.
pub record Same {B : Type 0} (m n : Node B) : Type 0 where
  pub idxs : (i : ℕ) → i < 16 → m.idxs i ≡ n.idxs i
  pub value : m.value ≡ n.value

-- What is relied on of SHA-512: no two nodes collide, and no node hashes to 64 zero bytes.
pub record IsCollisionFree (H : Digests) : Type 0 where
  pub same : (m n : Node H.Byte64) → hash H m ≡ hash H n → Same m n
  pub hash_ne : (n : Node H.Byte64) → hash H n ≢ H.null

module _ (H : Digests) (D : Database (Key H.Byte64) (Value H.Byte64)) where
  open H use {Byte64, dec, null}
  open D use {State, get, put, delete}

  -- Every index of the node is empty or in the store.
  pub record IsClosed (s : State) (n : Node Byte64) : Type 0 where
    pub at :
        (i : ℕ)
        → i < 16
        → (n.idxs i ≡ null) ⊎ ((m : Node Byte64) × (get_state H D s (n.idxs i) ≡ some m))

  pub record WellFormed (s : State) : Type 0 where
    pub hashed : (h : Byte64) (n : Node Byte64) → get_state H D s h ≡ some n → hash H n ≡ h
    pub closed : (h : Byte64) (n : Node Byte64) → get_state H D s h ≡ some n → IsClosed s n

  -- What one store has, the other has with the same content.
  pub record Extends (s t : State) : Type 0 where
    pub at :
        (h : Byte64) (m : Node Byte64)
        → get_state H D s h ≡ some m
        → (m' : Node Byte64) × (get_state H D t h ≡ some m') × Same m m'

  pub get_state-put_state :
      (s : State) (h : Byte64) (n : Node Byte64) (j : Byte64) {t : State}
      → put_state H D s h n ≡ some t
      → get_state H D t j ≡ ite (dec h j) (some n) (get_state H D s j)
  unfolding put_state get_state
  get_state-put_state s h n j {t} e = elim (dec h j) [
    | yes p ↦
        rw (
          if_pos _ p,
          ← p,
          D.get-put_self s (table_key mpt_world_state_node h) (node n) e,
          get_node,
        )
    | no p ↦ rw (
      if_neg _ p,
      D.get-put_ne s (table_key mpt_world_state_node h) (node n) (table_key mpt_world_state_node j)
          e (λ q. p (cc)),
      get_node,
    )
  ]

  pub Same-refl : (n : Node Byte64) → Same n n
  Same-refl n = record { idxs = λ i h. refl; value = refl }

  pub Extends-refl : (s : State) → Extends s s
  Extends-refl s = record { at = λ h m e. (m, e, Same-refl m) }

  pub Extends-trans : {s t u : State} → Extends s t → Extends t u → Extends s u
  Extends-trans a b = record {
    at = λ h m e.
        let (m', e', x) = a.at h m e in
        let (m'', e'', y) = b.at h m' e' in
        (m'', e'', record { idxs = λ i l. x.idxs i l ∙ y.idxs i l; value = x.value ∙ y.value });
  }

  pub IsClosed-Extends : {s t : State} {n : Node Byte64} → Extends s t → IsClosed s n → IsClosed t n
  IsClosed-Extends x c = record {
    at = λ i l. elim (c.at i l) [
      | inl e ↦ inl e
      | inr (m, e) ↦ let (m', e', _) = x.at _ m e in inr (m', e')
    ];
  }

  module _ (laws : IsCollisionFree H) where
    pub put_state-Extends :
        (s : State) (n : Node Byte64) {t : State}
        → WellFormed s
        → put_state H D s (hash H n) n ≡ some t
        → Extends s t
    put_state-Extends s n {t} w e = record {
      at = λ h m g. elim (dec (hash H n) h) [
        | yes p ↦ (
          n,
          ground (arith, get_state-put_state s (hash H n) n h e),
          laws.same m n (w.hashed h m g ∙ sym p),
        )
        | no p ↦ (m, ground (arith, get_state-put_state s (hash H n) n h e), Same-refl m)
      ];
    }

    pub put_state-WellFormed :
        (s : State) (n : Node Byte64) {t : State}
        → WellFormed s
        → IsClosed s n
        → put_state H D s (hash H n) n ≡ some t
        → WellFormed t
    put_state-WellFormed s n {t} w c e = record {
      hashed = λ h m g. ground (arith, get_state-put_state s (hash H n) n h e, w.hashed h m);
      closed = λ h m g. elim (dec (hash H n) h) [
        | yes p ↦
            let same : n ≡ m = ground (arith, get_state-put_state s (hash H n) n h e) in
            subst (IsClosed t) same (IsClosed-Extends (put_state-Extends s n w e) c)
        | no p ↦
            IsClosed-Extends (put_state-Extends s n w e)
              (w.closed h m (ground (arith, get_state-put_state s (hash H n) n h e)))
      ];
    }

  -- A walk down reads the same in a store that extends another.
  pub lookup-Extends :
      (s t : State) (m n : Node Byte64) (key_hex : List ℕ)
      → WellFormed s
      → Extends s t
      → IsClosed s m
      → Same m n
      → All (λ i. i < 16) key_hex
      → lookup_depth_first H D t n key_hex ≡ lookup_depth_first H D s m key_hex
  unfolding lookup_depth_first
  lookup-Extends s t m n [] w x c e l = sym e.value
  lookup-Extends s t m n (i ∷ key_hex) w x c e l = elim (c.at i l.0) [
    | inl p ↦ ground (arith, e.idxs i l.0)
    | inr (m', p) ↦
        let (n', q, same) = x.at (m.idxs i) m' p in
        ground
          (arith, e.idxs i l.0, lookup-Extends s t m' n' key_hex w x (w.closed _ m' p) same l.1)
  ]

  -- The same below one index, whatever the nodes hold elsewhere.
  pub lookup_under :
      (s t : State) (m n : Node Byte64) (i : ℕ) (key_hex : List ℕ)
      → WellFormed s
      → Extends s t
      → IsClosed s m
      → m.idxs i ≡ n.idxs i
      → All (λ j. j < 16) (i ∷ key_hex)
      → lookup_depth_first H D t n (i ∷ key_hex) ≡ lookup_depth_first H D s m (i ∷ key_hex)
  unfolding lookup_depth_first
  lookup_under s t m n i key_hex w x c e l = elim (c.at i l.0) [
    | inl p ↦ ground arith
    | inr (m', p) ↦
        let (n', q, same) = x.at (m.idxs i) m' p in
        ground (arith, lookup-Extends s t m' n' key_hex w x (w.closed _ m' p) same l.1)
  ]
