-- ===== src/Consensus/Blocks/Variables.antt =====
-- consensus/block.go: what is read from a block after a write, and what its variables keep.
use go_trust_net.Prelude.{
  ℕ, List, [], ◌∷◌, Option, none, some, ite, if_pos, if_neg, ◌≡◌, sym, ◌∙◌, ap, arith, ◌⊎◌, inl,
  inr, Option-cases,
}
use go_trust_net.Core.Digest.{Digests}
use go_trust_net.Consensus.{Block, WorldStates, Result, ok, err, key_not_found}
use go_trust_net.Consensus.Blocks.{
  bytes_dec, set_variable, get_variable, update, delete, lookup_world, lookup,
}

get_variable-set_variable :
    (k j : List ℕ) (v : Option (List ℕ)) (m : List (List ℕ × Option (List ℕ)))
    → get_variable j (set_variable k v m) ≡ ite (bytes_dec k j) (some v) (get_variable j m)
unfolding set_variable get_variable
get_variable-set_variable k j v [] = ground arith
get_variable-set_variable k j v ((i, u) ∷ m) = ground (arith, get_variable-set_variable k j v m)

module _ (H : Digests) (W : WorldStates H.Byte64) where
  open H use {Byte64}
  open W use {World, Tables}

  -- What a lookup leaves in a block: nothing, or its result as a variable.
  lookup-kept :
      (t : Tables) (b : Block Byte64 World) (key : List ℕ)
      → ((lookup H W t b key).0 ≡ b)
        ⊎ ((v : List ℕ) × (get_variable key b.variables ≡ none)
            × (lookup H W t b key ≡ (update H W b key v, ok v)))
  unfolding lookup lookup_world update
  lookup-kept t b key = elim (Option-cases (get_variable key b.variables)) [
    | inr (v, e) ↦ inl (elim (Option-cases v) [ inl f ↦ ground arith | inr (u, f) ↦ ground arith ])
    | inl e ↦ elim (Option-cases b.world_state) [
      | inl f ↦ inl (ground arith)
      | inr (w, f) ↦ elim (Option-cases (W.lookup t w key)) [
        | inl g ↦ inl (ground arith)
        | inr (v, g) ↦ inr (v, e, ground arith)
      ]
    ]
  ]

  -- `Lookup` of a block after `Update` or `Delete` of any key: the written value under that key, and
  -- the error `key_not_found` after a delete, whatever the world state holds; under another key the
  -- result from before.
  pub lookup-update_delete :
      (t : Tables) (b : Block Byte64 World) (key other value : List ℕ)
      → ((lookup H W t (update H W b key value) other).1
          ≡ ite (bytes_dec key other) (ok value) (lookup H W t b other).1)
        × ((lookup H W t (delete H W b key) other).1
            ≡ ite (bytes_dec key other) (err key_not_found) (lookup H W t b other).1)
  unfolding lookup update delete lookup_world
  lookup-update_delete t b key other value = (
    ground (arith, get_variable-set_variable key other (some value) b.variables),
    ground (arith, get_variable-set_variable key other none b.variables),
  )

  -- What a lookup leaves in a block does not change the result of another.
  pub lookup-lookup :
      (t : Tables) (b : Block Byte64 World) (key other : List ℕ)
      → (lookup H W t (lookup H W t b key).0 other).1 ≡ (lookup H W t b other).1
  lookup-lookup t b key other = elim (lookup-kept t b key) [
    | inl e ↦ ap (λ c. (lookup H W t c other).1) e
    | inr (v, _, e) ↦
        ap (λ (r : Block Byte64 World × Result (List ℕ)). (lookup H W t r.0 other).1) e
        ∙ (lookup-update_delete t b key other v).0
        ∙ elim (bytes_dec key other) [
          | yes p ↦
              if_pos (bytes_dec key other) p _ _
              ∙ sym (
                  ap (λ k. (lookup H W t b k).1) (sym p)
                  ∙ ap (λ (r : Block Byte64 World × Result (List ℕ)). r.1) e)
          | no ne ↦ if_neg (bytes_dec key other) ne _ _
        ]
  ]
