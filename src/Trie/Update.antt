-- ===== src/Trie/Update.antt =====
-- core/trie/trieImpl.go: what `updateDepthFirst` and `deleteDepthFirst` do to the trie.
use go_trust_net.Prelude.{
  ℕ, ◌<◌, List, [], ◌∷◌, some, ◌≡◌, ◌≢◌, ◌⊎◌, inr, refl, sym, ◌∙◌, subst, arith, All, ℕ_discrete,
  ap, ap₂,
}
use go_trust_net.Core.Digest.{Digests}
use go_trust_net.Db.{Database}
use go_trust_net.Trie.{unmarked, Node, Key, Value, hash}
use go_trust_net.Trie.Walk.{put_state, get_state, set_idx, save, lookup_depth_first}
use go_trust_net.Trie.Store.{
  IsCollisionFree, IsClosed, WellFormed, Extends, Extends-trans, IsClosed-Extends,
  get_state-put_state, put_state-Extends, put_state-WellFormed, lookup-Extends, lookup_under,
}

abbrev pub IsHex : List ℕ → Type 0
IsHex = All (λ i. i < 16)

module _ (H : Digests) (D : Database (Key H.Byte64) (Value H.Byte64)) where
  open H use {Byte64, dec, null}
  open D use {State}

  -- The walk from `n` in the store `s` has written `value` under `key_hex`, and has come back with
  -- the store `t`, the node `m` and its hash.
  pub record Updated (s : State) (n : Node Byte64) (key_hex value : List ℕ) (t : State)
      (m : Node Byte64) : Type 0 where
    pub well_formed : WellFormed H D t
    pub extends : Extends H D s t
    pub closed : IsClosed H D t m
    pub saved : get_state H D t (hash H m) ≡ some m
    pub unmark : m.tombstone ≡ unmarked
    pub written : lookup_depth_first H D t m key_hex ≡ value
    pub others :
        (other : List ℕ)
        → IsHex other
        → other ≢ key_hex
        → lookup_depth_first H D t m other ≡ lookup_depth_first H D s n other

  module _ (laws : IsCollisionFree H) where
    pub save-cases :
        (s : State) (n : Node Byte64) {t : State} {m : Node Byte64} {h : Byte64}
        → save H D s n ≡ (t, m, h)
        → h ≢ null
        → (put_state H D s (hash H m) m ≡ some t) × (m ≡ n) × (h ≡ hash H m)
    unfolding save
    save-cases s n e ne = ground arith

    -- The end of a walk: the value of the node is replaced.
    save_literal :
        (s : State) (n : Node Byte64) (value : List ℕ) {t : State}
        → WellFormed H D s
        → IsClosed H D s n
        → (let m = record n { tombstone = unmarked; value = value } in
            put_state H D s (hash H m) m ≡ some t → Updated s n [] value t m)
    unfolding lookup_depth_first
    save_literal s n value {t} w c e =
        let m = record n { tombstone = unmarked; value = value } in
        let closed : IsClosed H D s m = record { at = c.at } in
        let x = put_state-Extends H D laws s m w e in
        record {
          well_formed = put_state-WellFormed H D laws s m w closed e;
          extends = x;
          closed = IsClosed-Extends H D x closed;
          saved = ground (arith, get_state-put_state H D s (hash H m) m (hash H m) e);
          unmark = refl;
          written = refl;
          others = elim [
            | [] ↦ λ hex ne. absurd (ne refl)
            | i ∷ rest ↦ λ hex ne. lookup_under H D s t n m i rest w x c refl hex
          ];
        }

    pub save_value :
        (s : State) (n : Node Byte64) (value : List ℕ) {t : State} {m : Node Byte64}
        → WellFormed H D s
        → IsClosed H D s n
        → m ≡ record n { tombstone = unmarked; value = value }
        → put_state H D s (hash H m) m ≡ some t
        → Updated s n [] value t m
    save_value s n value {t} w c is =
        subst (λ o. put_state H D s (hash H o) o ≡ some t → Updated s n [] value t o) (sym is)
          (save_literal s n value w c)

    -- Below the index that a walk has linked, the trie reads as its child does.
    lookup_linked :
        (s t : State) (m c : Node Byte64) (i : ℕ) (rest : List ℕ)
        → WellFormed H D s
        → Extends H D s t
        → IsClosed H D s c
        → get_state H D s (hash H c) ≡ some c
        → m.idxs i ≡ hash H c
        → IsHex rest
        → lookup_depth_first H D t m (i ∷ rest) ≡ lookup_depth_first H D s c rest
    unfolding lookup_depth_first
    lookup_linked s t m c i rest w x closed saved e hex =
        let (c', q, same) = x.at (hash H c) c saved in
        ground (arith, laws.hash_ne c, lookup-Extends H D s t c c' rest w x closed same hex)

    -- A walk that has come back from a child: the child's hash is linked, and the node is saved.
    pub link_Updated :
        (s : State) (n c : Node Byte64) (i : ℕ) (key_hex value : List ℕ) (u : State)
        (d m : Node Byte64) (t : State)
        → WellFormed H D s
        → IsClosed H D s n
        → IsHex (i ∷ key_hex)
        → ((rest : List ℕ)
            → IsHex rest
            → lookup_depth_first H D s n (i ∷ rest) ≡ lookup_depth_first H D s c rest)
        → Updated s c key_hex value u d
        → m ≡ record n { tombstone = unmarked; idxs = set_idx H D n.idxs i (hash H d) }
        → put_state H D u (hash H m) m ≡ some t
        → Updated s n (i ∷ key_hex) value t m
    unfolding set_idx
    link_Updated s n c i key_hex value u d m t w closed hex below up is e =
        let y = put_state-Extends H D laws u m up.well_formed e in
        let x = Extends-trans H D up.extends y in
        let at_i : m.idxs i ≡ hash H d = ap (λ (x : Node Byte64). x.idxs i) is ∙ ground arith in
        let elsewhere : (j : ℕ) → j ≢ i → n.idxs j ≡ m.idxs j =
          λ j ne. sym (ap (λ (x : Node Byte64). x.idxs j) is ∙ ground arith) in
        let closed_m : IsClosed H D u m = record {
          at = λ j l. elim (ℕ_discrete j i) [
            | yes p ↦
                inr (d, subst (λ k. get_state H D u (m.idxs k) ≡ some d) (sym p) (rw at_i up.saved))
            | no p ↦
                subst (λ h. (h ≡ null) ⊎ ((o : Node Byte64) × (get_state H D u h ≡ some o)))
                  (elsewhere j p) ((IsClosed-Extends H D up.extends closed).at j l)
          ];
        } in
        record {
          well_formed = put_state-WellFormed H D laws u m up.well_formed closed_m e;
          extends = x;
          closed = IsClosed-Extends H D y closed_m;
          saved = ground (arith, get_state-put_state H D u (hash H m) m (hash H m) e);
          unmark = ap (λ (x : Node Byte64). x.tombstone) is;
          written =
              lookup_linked u t m d i key_hex up.well_formed y up.closed up.saved at_i hex.1
              ∙ up.written;
          others = elim [
            | [] ↦ λ _ _. unfold lookup_depth_first in ap (λ (x : Node Byte64). x.value) is
            | j ∷ rest ↦ λ other ne. elim (ℕ_discrete j i) [
              | yes p ↦
                  subst
                    (λ k.
                      lookup_depth_first H D t m (k ∷ rest) ≡ lookup_depth_first H D s n (k ∷ rest))
                    (sym p)
                    (lookup_linked u t m d i rest up.well_formed y up.closed up.saved at_i other.1
                      ∙ up.others rest other.1 (λ same. ne (ap₂ ◌∷◌ p same))
                      ∙ sym (below rest other.1))
              | no p ↦ lookup_under H D s t n m j rest w x closed (elsewhere j p) other
            ]
          ];
        }
