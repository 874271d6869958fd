-- ===== src/Trie/WorldView.antt =====
-- core/trie/trieImpl.go: what a reader of the world state sees after each operation.
pub mod Versions
pub mod Fresh
pub mod History
use go_trust_net.Prelude.{
  ℕ, ◌<◌, ◌/◌, ◌%◌, List, [], ◌∷◌, Option, none, some, ite, if_pos, if_neg, ◌≡◌, ◌≢◌, ◌⊎◌, inl, inr,
  refl, sym, ◌∙◌, subst, arith, All, ap, Option-cases,
}
use go_trust_net.Core.Digest.{Digests}
use go_trust_net.Db.{Database}
use go_trust_net.Db.InMem.{key_dec}
use go_trust_net.Trie.{Node, Key, Value, hash, MptWorldState}
use go_trust_net.Trie.Walk.{
  make_hex, get_state, update_depth_first, delete_depth_first, lookup_depth_first, put_node,
  put_state,
}
use go_trust_net.Trie.Store.{IsCollisionFree, IsClosed, WellFormed, Extends}
use go_trust_net.Trie.State.{
  update, delete_key, lookup, found, switch_root, ok, err, not_found, Result,
}
use go_trust_net.Trie.Update.{IsHex, Updated}
use go_trust_net.Trie.Walks.{
  IsReliable, update_depth_first-Updated, update_depth_first_total, delete_depth_first-Updated,
  delete_depth_first_null,
}
use go_trust_net.Trie.Tables.{
  SameStates, TakesAll, Switched, switch_root-Switched, IsClosed-SameStates, WellFormed-SameStates,
  lookup-SameStates,
}

abbrev pub IsBytes : List ℕ → Type 0
IsBytes = All (λ b. b < 256)

pub make_hex-IsHex : (key : List ℕ) → IsBytes key → IsHex (make_hex key)
unfolding make_hex
make_hex-IsHex [] h = tt
make_hex-IsHex (b ∷ key) h = (omega arith, (omega arith, make_hex-IsHex key h.1))

pub make_hex-injective : (j k : List ℕ) → IsBytes j → IsBytes k → make_hex j ≡ make_hex k → j ≡ k
unfolding make_hex
make_hex-injective [] [] hj hk e = refl
make_hex-injective [] (b ∷ k) hj hk e = cc
make_hex-injective (a ∷ j) [] hj hk e = cc
make_hex-injective (a ∷ j) (b ∷ k) hj hk e = ground (arith, make_hex-injective j k hj.1 hk.1)

module _ (H : Digests) (D : Database (Key H.Byte64) (Value H.Byte64)) where
  open H use {Byte64, dec, null}

  -- The root in memory is the stored node of the root hash, and no index leads out of the store.
  pub record IsValid (w : MptWorldState H D) : Type 0 where
    pub well_formed : WellFormed H D w.db
    pub closed : IsClosed H D w.db w.root_node
    pub root : w.root_hash ≡ hash H w.root_node
    pub saved : (m : Node Byte64) × (get_state H D w.db w.root_hash ≡ some m)

  pub put_state-reliable : TakesAll H D → IsReliable H D
  unfolding put_state put_node
  put_state-reliable r = λ s h n. r s _ _

  -- A reader sees the value under the key, and under every other key what was there.
  pub record Reads (w w' : MptWorldState H D) (key value : List ℕ) : Type 0 where
    pub valid : IsValid w'
    pub written : lookup H D w' key ≡ found H D value
    pub others :
        (other : List ℕ) → IsBytes other → other ≢ key → lookup H D w' other ≡ lookup H D w other

  Switched-Reads :
      (w w' : MptWorldState H D) (key value : List ℕ) (s : D.State) (n : Node Byte64) (h : Byte64)
      → IsBytes key
      → Updated H D w.db w.root_node (make_hex key) value s n
      → h ≡ hash H n
      → Switched H D w w' s n h
      → Reads w w' key value
  unfolding lookup
  Switched-Reads w w' key value s n h bytes up is sw = record {
    valid = record {
      well_formed = WellFormed-SameStates H D sw.states up.well_formed;
      closed =
          subst (IsClosed H D w'.db) (sym sw.root_node)
            (IsClosed-SameStates H D sw.states up.closed);
      root = sw.root_hash ∙ is ∙ ap (hash H) (sym sw.root_node);
      saved =
          (n, ap (get_state H D w'.db) (sw.root_hash ∙ is) ∙ sw.states.at (hash H n) ∙ up.saved);
    };
    written = ap (found H D) (reads (make_hex key) ∙ up.written);
    others = λ other hex ne. ap (found H D) (
        reads (make_hex other)
        ∙ up.others (make_hex other) (make_hex-IsHex other hex)
            (λ e. ne (make_hex-injective other key hex bytes e)));
  }
    where
      reads :
          (key_hex : List ℕ)
          → lookup_depth_first H D w'.db w'.root_node key_hex ≡ lookup_depth_first H D s n key_hex
      reads key_hex =
          ap (λ (m : Node Byte64). lookup_depth_first H D w'.db m key_hex) sw.root_node
          ∙ lookup-SameStates H D {s = s} {t = w'.db} n key_hex sw.states

  Reads-lookup :
      (w w' : MptWorldState H D) (key value other : List ℕ)
      → IsBytes other
      → Reads w w' key value
      → lookup H D w' other ≡ ite (key_dec other key) (found H D value) (lookup H D w other)
  Reads-lookup w w' key value other hex x = elim (key_dec other key) [
    | yes e ↦ ap (lookup H D w') e ∙ x.written ∙ sym (if_pos (key_dec other key) e _ _)
    | no ne ↦ x.others other hex ne ∙ sym (if_neg (key_dec other key) ne _ _)
  ]

  switch_root_null : (w : MptWorldState H D) → switch_root H D w (w.db, w.root_node, null) ≡ w
  unfolding switch_root
  switch_root_null w = if_pos (dec null null) refl _ _

  module _ (laws : IsCollisionFree H) where
    -- The walk of `Update`, and the switch to its root.
    pub update_walk :
        (w : MptWorldState H D) (key value : List ℕ)
        → TakesAll H D
        → IsValid w
        → IsBytes key
        → (let (s, n, h) = update_depth_first H D w.db w.root_node (make_hex key) value in
            Updated H D w.db w.root_node (make_hex key) value s n
            × (h ≡ hash H n)
            × Switched H D w (update H D w key value) s n h)
    unfolding update
    update_walk w key value r v bytes =
        let ne =
          update_depth_first_total H D laws w.db w.root_node (make_hex key) value
            (put_state-reliable r) in
        let (up, is) =
          update_depth_first-Updated H D laws w.db w.root_node (make_hex key) value v.well_formed
            v.closed (make_hex-IsHex key bytes) refl ne in
        (up, is, switch_root-Switched H D w _ _ _ r ne)

    -- With hashes that do not collide, on a store that takes every write, and for keys of bytes:
    -- `Update` keeps a valid world state valid, and `Lookup` then returns, under the written key,
    -- the value (the error `not_found` if it is empty), and under any other key, of any length,
    -- what it returned before.
    pub lookup-update :
        (w : MptWorldState H D) (key value other : List ℕ)
        → TakesAll H D
        → IsValid w
        → IsBytes key
        → IsBytes other
        → IsValid (update H D w key value)
          × (lookup H D (update H D w key value) other
              ≡ ite (key_dec other key) (found H D value) (lookup H D w other))
    lookup-update w key value other r v bytes hex =
        let (up, is, sw) = update_walk w key value r v bytes in
        let x = Switched-Reads w (update H D w key value) key value _ _ _ bytes up is sw in
        (x.valid, Reads-lookup w (update H D w key value) key value other hex x)

    delete_key-Reads :
        (w : MptWorldState H D) (key : List ℕ)
        → TakesAll H D
        → IsValid w
        → IsBytes key
        → Reads w (delete_key H D w key) key []
    unfolding delete_key
    delete_key-Reads w key r v bytes =
        elim (dec (delete_depth_first H D w.db w.root_node (make_hex key)).2 null) [
          | yes e ↦
              let (same, empty) =
                delete_depth_first_null H D laws w.db w.root_node (make_hex key)
                  (put_state-reliable r) e in
              subst (λ w'. Reads w w' key [])
                (sym (ap (switch_root H D w) same ∙ switch_root_null w))
                (unfold lookup in
                  record { valid = v; written = ap (found H D) empty; others = λ other _ _. refl })
          | no ne ↦
              let (up, is) =
                delete_depth_first-Updated H D laws w.db w.root_node (make_hex key) v.well_formed
                  v.closed (make_hex-IsHex key bytes) refl ne in
              Switched-Reads w _ key [] _ _ _ bytes up is (switch_root-Switched H D w _ _ _ r ne)
        ]

    -- With hashes that do not collide, on a store that takes every write, and for keys of bytes:
    -- `Delete` keeps a valid world state valid, and `Lookup` then returns the error `not_found`
    -- under the deleted key, and under any other key what it returned before.
    pub lookup-delete_key :
        (w : MptWorldState H D) (key other : List ℕ)
        → TakesAll H D
        → IsValid w
        → IsBytes key
        → IsBytes other
        → IsValid (delete_key H D w key)
          × (lookup H D (delete_key H D w key) other
              ≡ ite (key_dec other key) (err not_found) (lookup H D w other))
    lookup-delete_key w key other r v bytes hex =
        let x = delete_key-Reads w key r v bytes in
        (x.valid, Reads-lookup w (delete_key H D w key) key [] other hex x ∙ (unfold found in refl))
