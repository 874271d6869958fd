-- ===== src/Trie/Walks.antt =====
-- core/trie/trieImpl.go: `updateDepthFirst` and `deleteDepthFirst` along a whole key.
use go_trust_net.Prelude.{
  ℕ, List, [], ◌∷◌, none, some, if_pos, if_neg, ◌≡◌, ◌≢◌, inl, inr, refl, arith, Option-cases,
}
use go_trust_net.Core.Digest.{Digests}
use go_trust_net.Db.{Database}
use go_trust_net.Trie.{unmarked, Node, Key, Value, hash, new_node}
use go_trust_net.Trie.Walk.{
  put_state, get_state, set_idx, save, child_node, link_child, update_depth_first,
  delete_depth_first, lookup_depth_first,
}
use go_trust_net.Trie.Store.{IsCollisionFree, IsClosed, WellFormed}
use go_trust_net.Trie.Update.{IsHex, Updated, save-cases, save_value, link_Updated}

module _ (H : Digests) (D : Database (Key H.Byte64) (Value H.Byte64)) where
  open H use {Byte64, dec, null}
  open D use {State}

  lookup-new_node :
      (s : State) (key_hex : List ℕ) → lookup_depth_first H D s (new_node H) key_hex ≡ []
  unfolding lookup_depth_first new_node
  lookup-new_node s [] = refl
  lookup-new_node s (i ∷ key_hex) = if_pos (dec null null) refl _ _

  new_node-IsClosed : (s : State) → IsClosed H D s (new_node H)
  unfolding new_node
  new_node-IsClosed s = record { at = λ i l. inl refl }

  child_node-IsClosed :
      (s : State) (h : Byte64) → WellFormed H D s → IsClosed H D s (child_node H D s h)
  unfolding child_node
  child_node-IsClosed s h w = elim (dec h null) [
    | yes p ↦ rw (if_pos (dec h null) p) (new_node-IsClosed s)
    | no p ↦ elim (Option-cases (get_state H D s h)) [
      | inl e ↦ rw (if_neg (dec h null) p, e) (new_node-IsClosed s)
      | inr (c, e) ↦ rw (if_neg (dec h null) p, e) (w.closed h c e)
    ]
  ]

  lookup-child_node :
      (s : State) (n : Node Byte64) (i : ℕ) (rest : List ℕ)
      → lookup_depth_first H D s n (i ∷ rest)
        ≡ lookup_depth_first H D s (child_node H D s (n.idxs i)) rest
  unfolding lookup_depth_first child_node
  lookup-child_node s n i rest = ground (arith, lookup-new_node s rest)

  lookup-child :
      (s : State) (n c : Node Byte64) (i : ℕ) (rest : List ℕ)
      → n.idxs i ≢ null
      → get_state H D s (n.idxs i) ≡ some c
      → lookup_depth_first H D s n (i ∷ rest) ≡ lookup_depth_first H D s c rest
  unfolding lookup_depth_first
  lookup-child s n c i rest ne e = ground arith

  -- A store that takes every node.
  abbrev pub IsReliable : Type 0
  IsReliable = (s : State) (h : Byte64) (n : Node Byte64) → put_state H D s h n ≢ none

  module _ (laws : IsCollisionFree H) where
    link_child-Updated :
        (s : State) (n c : Node Byte64) (i : ℕ) (key_hex value : List ℕ) (u : State)
        (d : Node Byte64) (k : Byte64) (t : State) (m : Node Byte64) (h : Byte64)
        → WellFormed H D s
        → IsClosed H D s n
        → IsHex (i ∷ key_hex)
        → ((rest : List ℕ)
            → IsHex rest
            → lookup_depth_first H D s n (i ∷ rest) ≡ lookup_depth_first H D s c rest)
        → (k ≢ null → Updated H D s c key_hex value u d × (k ≡ hash H d))
        → link_child H D n i (u, d, k) ≡ (t, m, h)
        → h ≢ null
        → Updated H D s n (i ∷ key_hex) value t m × (h ≡ hash H m)
    unfolding link_child
    link_child-Updated s n c i key_hex value u d k t m h w closed hex below up e ne =
        elim (dec k null) [
          | yes p ↦ absurd (ground arith)
          | no p ↦
              let (updated, same) = up p in
              let (put, is, hashed) =
                save-cases H D laws u
                  (record n { tombstone = unmarked; idxs = set_idx H D n.idxs i (hash H d) })
                  (ground arith) ne in
              (
                link_Updated H D laws s n c i key_hex value u d m t w closed hex below updated is
                    put,
                hashed,
              )
        ]

    -- If `updateDepthFirst` returns a hash, the trie below the node holds the value under the key,
    -- and what it held under other keys.
    pub update_depth_first-Updated :
        (s : State) (n : Node Byte64) (key_hex value : List ℕ) {t : State} {m : Node Byte64}
        {h : Byte64}
        → WellFormed H D s
        → IsClosed H D s n
        → IsHex key_hex
        → update_depth_first H D s n key_hex value ≡ (t, m, h)
        → h ≢ null
        → Updated H D s n key_hex value t m × (h ≡ hash H m)
    unfolding update_depth_first
    update_depth_first-Updated s n [] value w c hex e ne =
        let (put, is, hashed) =
          save-cases H D laws s (record n { tombstone = unmarked; value = value }) e ne in
        (save_value H D laws s n value w c is put, hashed)
    update_depth_first-Updated s n (i ∷ key_hex) value {t} {m} {h} w c hex e ne =
        link_child-Updated s n (child_node H D s (n.idxs i)) i key_hex value _ _ _ t m h w c hex
          (λ rest _. lookup-child_node s n i rest)
          (λ k.
            update_depth_first-Updated s (child_node H D s (n.idxs i)) key_hex value w
              (child_node-IsClosed s (n.idxs i) w) hex.1 refl k)
          e ne

    -- The same of `deleteDepthFirst`: the key then holds nothing.
    pub delete_depth_first-Updated :
        (s : State) (n : Node Byte64) (key_hex : List ℕ) {t : State} {m : Node Byte64} {h : Byte64}
        → WellFormed H D s
        → IsClosed H D s n
        → IsHex key_hex
        → delete_depth_first H D s n key_hex ≡ (t, m, h)
        → h ≢ null
        → Updated H D s n key_hex [] t m × (h ≡ hash H m)
    unfolding delete_depth_first
    delete_depth_first-Updated s n [] w c hex e ne =
        let (put, is, hashed) =
          save-cases H D laws s (record n { tombstone = unmarked; value = [] }) e ne in
        (save_value H D laws s n [] w c is put, hashed)
    delete_depth_first-Updated s n (i ∷ key_hex) {t} {m} {h} w c hex e ne = elim (c.at i hex.0) [
      | inl p ↦ absurd (ne (ground arith))
      | inr (child, p) ↦ elim (dec (n.idxs i) null) [
        | yes q ↦ absurd (ne (ground arith))
        | no q ↦
            link_child-Updated s n child i key_hex [] _ _ _ t m h w c hex
              (λ rest _. lookup-child s n child i rest q p)
              (λ k. delete_depth_first-Updated s child key_hex w (w.closed _ child p) hex.1 refl k)
              (ground arith) ne
      ]
    ]

    save_total : (s : State) (n : Node Byte64) → IsReliable → (save H D s n).2 ≢ null
    unfolding save
    save_total s n r e = ground (arith, laws.hash_ne n, r s (hash H n) n)

    link_child_total :
        (n : Node Byte64) (i : ℕ) (r : State × Node Byte64 × Byte64)
        → IsReliable
        → r.2 ≢ null
        → (link_child H D n i r).2 ≢ null
    unfolding link_child
    link_child_total n i (u, d, k) reliable ne = ground (
      arith,
      save_total u (record n { tombstone = unmarked; idxs = set_idx H D n.idxs i k }) reliable,
    )

    -- On a store that takes every node `updateDepthFirst` returns a hash.
    pub update_depth_first_total :
        (s : State) (n : Node Byte64) (key_hex value : List ℕ)
        → IsReliable
        → (update_depth_first H D s n key_hex value).2 ≢ null
    unfolding update_depth_first
    update_depth_first_total s n [] value r = save_total s _ r
    update_depth_first_total s n (i ∷ key_hex) value r =
        link_child_total n i _ r
          (update_depth_first_total s (child_node H D s (n.idxs i)) key_hex value r)

    -- There `deleteDepthFirst` returns no hash only for a key that holds nothing, and then changes
    -- nothing.
    pub delete_depth_first_null :
        (s : State) (n : Node Byte64) (key_hex : List ℕ)
        → IsReliable
        → (delete_depth_first H D s n key_hex).2 ≡ null
        → (delete_depth_first H D s n key_hex ≡ (s, n, null))
          × (lookup_depth_first H D s n key_hex ≡ [])
    unfolding delete_depth_first lookup_depth_first link_child
    delete_depth_first_null s n [] r e = absurd (save_total s _ r e)
    delete_depth_first_null s n (i ∷ key_hex) r e = elim (dec (n.idxs i) null) [
      | yes p ↦ ground arith
      | no p ↦ elim (Option-cases (get_state H D s (n.idxs i))) [
        | inl q ↦ ground arith
        | inr (c, q) ↦ elim (dec (delete_depth_first H D s c key_hex).2 null) [
          | yes gone ↦
              let (same, empty) = delete_depth_first_null s c key_hex r gone in
              ground (arith, same, empty)
          | no kept ↦
              absurd
                (link_child_total n i (delete_depth_first H D s c key_hex) r kept (ground arith))
        ]
      ]
    ]
