-- ===== src/Tests/World.antt =====
-- core/trie/trieImpl.go at concrete inputs.
use go_trust_net.Prelude.{
  ℕ, zero, suc, ◌+◌, ◌*◌, ◌<◌, List, [], ◌∷◌, ◌++◌, length, Option, none, some, ite, ◌≡◌, ◌≢◌, refl,
  sym, ◌∙◌, ap, arith, replicate,
}
use go_trust_net.Core.Digest.{raw}
use go_trust_net.Db.{Database}
use go_trust_net.Db.InMem.{key_dec}
use go_trust_net.Trie.{Node, Key, Value, index_pieces, hash, MptWorldState}
use go_trust_net.Trie.Walk.{get_node, get_state}
use go_trust_net.Trie.Store.{IsCollisionFree, WellFormed}
use go_trust_net.Trie.State.{
  lookup, found, update, delete_key, new_mpt_world_state, rebase, ok, err, not_found,
}
use go_trust_net.Trie.Tables.{TakesAll}
use go_trust_net.Trie.WorldView.{IsValid, lookup-update, lookup-delete_key}
use go_trust_net.Trie.WorldView.Fresh.{new_mpt_world_state-IsValid}
use go_trust_net.Trie.WorldView.History.{Write, updated, deleted, run, last_write, lookup-run}
use go_trust_net.Trie.WorldView.Versions.{lookup-root_hash, rebase-update}
use go_trust_net.Tests.{encode, digests, list_dec, raw-encode, digest-encode, table}

pieces-cancel :
    (k i : ℕ) (f g : ℕ → List ℕ) (v w : List ℕ)
    → encode (index_pieces digests k i f ++ raw v ∷ [])
      ≡ encode (index_pieces digests k i g ++ raw w ∷ [])
    → ((j : ℕ) → j < k → f (i + j) ≡ g (i + j)) × (v ≡ w)
unfolding index_pieces
pieces-cancel zero i f g v w e = (λ j h. absurd (omega arith), (raw-encode v w [] [] e).0)
pieces-cancel (suc k) i f g v w e =
    let (p, q) = digest-encode (f i) (g i) _ _ e in
    let (ps, r) = pieces-cancel k (suc i) f g v w q in (at p ps, r)
  where
    plus_zero : i + 0 ≡ i
    plus_zero = omega arith

    plus_suc : (j : ℕ) → i + suc j ≡ suc i + j
    plus_suc j = omega arith

    at :
        f i ≡ g i
        → ((j : ℕ) → j < k → f (suc i + j) ≡ g (suc i + j))
        → (j : ℕ) → j < suc k
        → f (i + j) ≡ g (i + j)
    at p ps zero h = ap f (plus_zero) ∙ p ∙ ap g (sym plus_zero)
    at p ps (suc j) h = ap f (plus_suc j) ∙ ps j (omega arith) ∙ ap g (sym (plus_suc j))

hash-encode :
    (m n : Node (List ℕ))
    → hash digests m ≡ hash digests n
    → encode (index_pieces digests 16 0 m.idxs ++ raw m.value ∷ [])
      ≡ encode (index_pieces digests 16 0 n.idxs ++ raw n.value ∷ [])
unfolding hash
hash-encode m n e =
    (raw-encode (replicate (16 * 64 + length m.value) 0) (replicate (16 * 64 + length n.value) 0)
      (index_pieces digests 16 0 m.idxs ++ raw m.value ∷ [])
      (index_pieces digests 16 0 n.idxs ++ raw n.value ∷ []) (cc)).1

hash_ne_nil : (n : Node (List ℕ)) → hash digests n ≢ []
unfolding hash
hash_ne_nil n = λ e. cc

zero_plus : (i : ℕ) → i ≡ 0 + i
zero_plus i = omega arith

collision_free : IsCollisionFree digests
collision_free = record {
  same = λ m n e.
      let q = hash-encode m n e in
      let (ps, v) = pieces-cancel 16 0 m.idxs n.idxs m.value n.value q in
      record {
        idxs = λ i h. ap m.idxs (zero_plus i) ∙ ps i h ∙ ap n.idxs (sym (zero_plus i));
        value = v;
      };
  hash_ne = hash_ne_nil;
}

key_decidable : Discrete (Key (List ℕ))
key_decidable = hlevel list_dec

abbrev D : Database (Key (List ℕ)) (Value (List ℕ))
D = table key_decidable

takes_all : TakesAll digests D
takes_all s k v = λ e. cc

abbrev nothing : Key (List ℕ) → Option (Value (List ℕ))
nothing k = none

nothing-WellFormed : WellFormed digests D nothing
unfolding get_state get_node
nothing-WellFormed = record { hashed = λ h n e. absurd (cc); closed = λ h n e. absurd (cc) }

fresh-IsValid :
    (w : MptWorldState digests D) × (new_mpt_world_state digests D nothing ≡ some w)
    × IsValid digests D w
    × (lookup digests D w (18 ∷ []) ≡ err not_found)
fresh-IsValid =
    new_mpt_world_state-IsValid digests D collision_free nothing (18 ∷ []) takes_all
      nothing-WellFormed

abbrev fresh : MptWorldState digests D
fresh = fresh-IsValid.0

-- The keys 18 and 31 share their first nibble.
abbrev one : MptWorldState digests D
one = update digests D fresh (18 ∷ []) (7 ∷ [])

one-IsValid : IsValid digests D one
one-IsValid =
    (lookup-update digests D collision_free fresh (18 ∷ []) (7 ∷ []) [] takes_all fresh-IsValid.2
      (omega arith, tt) tt).0

abbrev two : MptWorldState digests D
two = update digests D one (31 ∷ []) (8 ∷ 9 ∷ [])

two-IsValid : IsValid digests D two
two-IsValid =
    (lookup-update digests D collision_free one (31 ∷ []) (8 ∷ 9 ∷ []) [] takes_all one-IsValid
      (omega arith, tt) tt).0

lookup-update_example :
    IsValid digests D two
    × (lookup digests D two (18 ∷ [])
        ≡ ite
            (key_dec (18 ∷ []) (31 ∷ []))
            (found digests D (8 ∷ 9 ∷ []))
            (lookup digests D one (18 ∷ [])))
lookup-update_example =
    lookup-update digests D collision_free one (31 ∷ []) (8 ∷ 9 ∷ []) (18 ∷ []) takes_all
      one-IsValid (omega arith, tt) (omega arith, tt)

lookup-delete_key_example :
    IsValid digests D (delete_key digests D two (18 ∷ []))
    × (lookup digests D (delete_key digests D two (18 ∷ [])) (31 ∷ [])
        ≡ ite (key_dec (31 ∷ []) (18 ∷ [])) (err not_found) (lookup digests D two (31 ∷ [])))
lookup-delete_key_example =
    lookup-delete_key digests D collision_free two (18 ∷ []) (31 ∷ []) takes_all two-IsValid
      (omega arith, tt) (omega arith, tt)

new_mpt_world_state-IsValid_example :
    (w : MptWorldState digests D) × (new_mpt_world_state digests D nothing ≡ some w)
    × IsValid digests D w
    × (lookup digests D w (18 ∷ []) ≡ err not_found)
new_mpt_world_state-IsValid_example =
    new_mpt_world_state-IsValid digests D collision_free nothing (18 ∷ []) takes_all
      nothing-WellFormed

lookup-root_hash_example : lookup digests D two (18 ∷ []) ≡ lookup digests D two (18 ∷ [])
lookup-root_hash_example =
    lookup-root_hash digests collision_free D D two two (18 ∷ []) two-IsValid two-IsValid
      (omega arith, tt) refl

rebase-update_example :
    (w' : MptWorldState digests D) × (rebase digests D two one.root_hash ≡ (w', ok tt))
    × IsValid digests D w'
    × (lookup digests D w' (18 ∷ []) ≡ lookup digests D one (18 ∷ []))
rebase-update_example =
    rebase-update digests collision_free D one (31 ∷ []) (8 ∷ 9 ∷ []) (18 ∷ []) takes_all
      one-IsValid (omega arith, tt) (omega arith, tt)

abbrev writes : List Write
writes = updated (18 ∷ []) (1 ∷ []) ∷ deleted (31 ∷ []) ∷ updated (18 ∷ 5 ∷ []) (2 ∷ []) ∷ []

lookup-run_example :
    IsValid digests D (run digests D two writes)
    × (lookup digests D (run digests D two writes) (18 ∷ [])
        ≡ last_write digests D writes (18 ∷ []) (lookup digests D two (18 ∷ [])))
lookup-run_example =
    lookup-run digests D collision_free two writes (18 ∷ []) takes_all two-IsValid
      ((omega arith, tt), ((omega arith, tt), ((omega arith, (omega arith, tt)), tt)))
      (omega arith, tt)
