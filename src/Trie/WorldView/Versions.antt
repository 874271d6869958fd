-- ===== src/Trie/WorldView/Versions.antt =====
-- core/trie/trieImpl.go: old versions of the world state, and what the root hash stands for.
use go_trust_net.Prelude.{ℕ, List, [], ◌∷◌, some, ◌≡◌, inl, inr, refl, sym, ◌∙◌, arith, ap}
use go_trust_net.Core.Digest.{Digests}
use go_trust_net.Db.{Database}
use go_trust_net.Trie.{Node, Key, Value, hash, MptWorldState, unmarked, marked}
use go_trust_net.Trie.Walk.{make_hex, get_node, get_state, put_node, lookup_depth_first, put_state}
use go_trust_net.Trie.Store.{
  Same, IsCollisionFree, IsClosed, WellFormed, put_state-Extends, put_state-WellFormed,
  IsClosed-Extends,
}
use go_trust_net.Trie.State.{update, lookup, found, ok, rebase, rebase_onto, tx_root, or_else}
use go_trust_net.Trie.Update.{IsHex}
use go_trust_net.Trie.WorldView.{IsBytes, make_hex-IsHex, IsValid, update_walk}
use go_trust_net.Trie.Tables.{
  SameStates, TakesAll, SameStates-trans, put_node_total, put_root-SameStates,
  WellFormed-SameStates, IsClosed-SameStates,
}

module _ (H : Digests) (laws : IsCollisionFree H) where
  open H use {Byte64, dec, null}

  module _ (D E : Database (Key Byte64) (Value Byte64)) where
    lookup-Same :
        (s : D.State) (t : E.State) (m n : Node Byte64) (key_hex : List ℕ)
        → WellFormed H D s
        → WellFormed H E t
        → IsClosed H D s m
        → IsClosed H E t n
        → Same m n
        → IsHex key_hex
        → lookup_depth_first H D s m key_hex ≡ lookup_depth_first H E t n key_hex
    unfolding lookup_depth_first
    lookup-Same s t m n [] w x c d e hex = e.value
    lookup-Same s t m n (i ∷ key_hex) w x c d e hex = elim (c.at i hex.0) [
      | inl p ↦ ground (arith, e.idxs i hex.0)
      | inr (m', p) ↦ elim (d.at i hex.0) [
        | inl q ↦ ground (arith, e.idxs i hex.0)
        | inr (n', q) ↦
            let same = laws.same m' n' (w.hashed _ m' p ∙ e.idxs i hex.0 ∙ sym (x.hashed _ n' q)) in
            ground (
              arith,
              e.idxs i hex.0,
              lookup-Same s t m' n' key_hex w x (w.closed _ m' p) (x.closed _ n' q) same hex.1,
            )
      ]
    ]

    -- With hashes that do not collide, the root hash determines the world state: two valid world
    -- states with one root hash, over any two stores, answer `Lookup` of any key of bytes alike.
    pub lookup-root_hash :
        (v : MptWorldState H D) (w : MptWorldState H E) (key : List ℕ)
        → IsValid H D v
        → IsValid H E w
        → IsBytes key
        → v.root_hash ≡ w.root_hash
        → lookup H D v key ≡ lookup H E w key
    unfolding lookup found
    lookup-root_hash v w key vv vw bytes e = ap (found H D) (
        lookup-Same v.db w.db v.root_node w.root_node (make_hex key) vv.well_formed vw.well_formed
          vv.closed vw.closed (laws.same _ _ (sym vv.root ∙ e ∙ vw.root))
          (make_hex-IsHex key bytes))

  module _ (D : Database (Key Byte64) (Value Byte64)) where
    -- The node that `Rebase` saves: the stored root, unmarked.
    abbrev unmark : Node Byte64 → Node Byte64
    unmark n = record n { tombstone = unmarked }

    hash-unmark : (n : Node Byte64) → hash H (unmark n) ≡ hash H n
    unfolding hash
    hash-unmark n = refl

    put_state_total :
        (s : D.State) (n : Node Byte64)
        → TakesAll H D
        → (t : D.State) × (put_state H D s (hash H n) n ≡ some t)
    unfolding put_state
    put_state_total s n r = put_node_total H D s _ n r

    or_else_root :
        (s : D.State) (h : Byte64) (n : Node Byte64)
        → TakesAll H D
        → SameStates H D s (or_else H D s (put_node H D s (tx_root H D h) n))
    unfolding or_else
    or_else_root s h n r =
        let (t, e) = put_node_total H D s (tx_root H D h) n r in
        rw e (put_root-SameStates H D s h n e)

    rebase_onto_lem :
        (w : MptWorldState H D) (h : Byte64) (root tx : Node Byte64)
        → TakesAll H D
        → WellFormed H D w.db
        → get_state H D w.db h ≡ some root
        → (w' : MptWorldState H D) × (rebase_onto H D w h root tx ≡ (w', ok tt))
          × IsValid H D w'
          × (w'.root_hash ≡ h)
    unfolding rebase_onto
    rebase_onto_lem w h root tx r wf e =
        let (s₁, e₁) = put_state_total w.db (unmark root) r in
        let (s₂, e₂) = put_node_total H D s₁ (tx_root H D (hash H (unmark root))) (unmark tx) r in
        let old = record (w.tx_node) { tombstone = marked } in
        let same =
          SameStates-trans H D (put_root-SameStates H D s₁ _ (unmark tx) e₂)
            (or_else_root s₂ w.root_hash old r) in
        let closed : IsClosed H D w.db (unmark root) = record { at = (wf.closed h root e).at } in
        let x = put_state-Extends H D laws w.db (unmark root) wf e₁ in
        let (m, at_h, _) = x.at h root e in
        (
          record {
            root_hash = h;
            root_node = unmark root;
            tx_node = unmark tx;
            db = or_else H D s₂ (put_node H D s₂ (tx_root H D w.root_hash) old);
          },
          ground (arith, e₁, e₂),
          record {
            well_formed =
                WellFormed-SameStates H D same
                  (put_state-WellFormed H D laws w.db (unmark root) wf closed e₁);
            closed = IsClosed-SameStates H D same (IsClosed-Extends H D x closed);
            root = sym (wf.hashed h root e) ∙ sym (hash-unmark root);
            saved = (m, same.at h ∙ at_h);
          },
          refl,
        )

    -- On a store that takes every write, `Rebase` to a root hash that is in the store with its root
    -- of transactions succeeds, and leaves a valid world state with that root hash.
    pub rebase_lem :
        (w : MptWorldState H D) (h : Byte64) (root tx : Node Byte64)
        → TakesAll H D
        → WellFormed H D w.db
        → get_state H D w.db h ≡ some root
        → get_node H D w.db (tx_root H D h) ≡ some tx
        → (w' : MptWorldState H D) × (rebase H D w h ≡ (w', ok tt))
          × IsValid H D w'
          × (w'.root_hash ≡ h)
    unfolding rebase
    rebase_lem w h root tx r wf e f =
        let (w', is, valid, root_hash) = rebase_onto_lem w h root tx r wf e in
        (w', ground (arith, e, f, is), valid, root_hash)

    -- With hashes that do not collide, on a store that takes every write, and for keys of bytes:
    -- an `Update` of a valid world state can be undone. `Rebase` to the root hash from before
    -- succeeds, leaves a valid world state, and `Lookup` of any key then answers as before the
    -- `Update`.
    pub rebase-update :
        (w : MptWorldState H D) (key value other : List ℕ)
        → TakesAll H D
        → IsValid H D w
        → IsBytes key
        → IsBytes other
        → (w' : MptWorldState H D) × (rebase H D (update H D w key value) w.root_hash ≡ (w', ok tt))
          × IsValid H D w'
          × (lookup H D w' other ≡ lookup H D w other)
    rebase-update w key value other r v bytes hex =
        let (up, is, sw) = update_walk H D laws w key value r v bytes in
        let (m, saved) = v.saved in
        let (m', saved', _) = up.extends.at w.root_hash m saved in
        let (tx, old) = sw.old_root in
        let (w', done, valid, root) =
          rebase_lem (update H D w key value) w.root_hash m' tx r
            (WellFormed-SameStates H D sw.states up.well_formed) (sw.states.at w.root_hash ∙ saved')
            old in
        (w', done, valid, lookup-root_hash D D w' w other valid v hex root)
