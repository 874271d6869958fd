-- ===== src/Consensus/Validate/Exact.antt =====
-- consensus/blockChainConsensus.go: which blocks `validateBlock` accepts.
use go_trust_net.Prelude.{
  ℕ, ◌+◌, ◌^◌, ◌%◌, ◌<◌, List, [], ◌∷◌, ◌++◌, none, some, ◌≡◌, ◌≢◌, ◌↔◌, refl, arith, All, length,
  Option-cases, subst, inl, inr,
}
use go_trust_net.Core.Digest.{Digests}
use go_trust_net.Db.{Database}
use go_trust_net.Consensus.{ok, WorldStates, Block, Key, Value, Result-cases}
use go_trust_net.Consensus.Store.{get_block}
use go_trust_net.Consensus.Validate.{is_uncle_valid, validate_uncles, validate_block}

module _ (H : Digests) (D : Database (Key H.Byte64) (Value H.Byte64))
    (W : WorldStates H.Byte64) where
  open H use {Byte64}
  open D use {State}
  open W use {World}

  -- What a valid block is, in terms of the store: its parent is stored, its depth is one more than
  -- the parent's, every uncle is valid, and its weight is the parent's, plus one, plus the number
  -- of its uncles. (The numbers are uint64.)
  pub record IsValid (s : State) (b parent : Block Byte64 World) : Type 0 where
    pub stored : get_block H D W s b.spec.phash ≡ some parent
    pub depth : b.spec.depth ≡ (parent.spec.depth + 1) % 2 ^ 64
    pub uncles : All (λ u. is_uncle_valid H D W s b.spec.phash u ≢ none) b.spec.uncles
    pub weight : b.spec.wt ≡ (parent.spec.wt + 1 + length b.spec.uncles) % 2 ^ 64

  -- The weight that the loop over the uncles arrives at, and that it accepts valid uncles only.
  validate_uncles-ok :
      (s : State) (phash : Byte64) (miners : List (List ℕ)) (w : ℕ) (us : List Byte64)
      {r : List (List ℕ) × ℕ}
      → validate_uncles H D W s phash miners w us ≡ ok r
      → w < 2 ^ 64
      → All (λ u. is_uncle_valid H D W s phash u ≢ none) us × (r.1 ≡ (w + length us) % 2 ^ 64)
  unfolding validate_uncles
  validate_uncles-ok s phash miners w [] h l = (tt, ground arith)
  validate_uncles-ok s phash miners w (u ∷ us) {r} h l =
      elim (Option-cases (is_uncle_valid H D W s phash u)) [
        | inl p ↦ absurd (ground arith)
        | inr (m, p) ↦
            let ih =
              validate_uncles-ok s phash (miners ++ m ∷ []) ((w + 1) % 2 ^ 64) us {r = r}
                (ground arith) (omega arith) in
            ((λ e. ground arith, ih.0), ground (arith, ih.1))
      ]

  validate_uncles_total :
      (s : State) (phash : Byte64) (miners : List (List ℕ)) (w : ℕ) (us : List Byte64)
      → All (λ u. is_uncle_valid H D W s phash u ≢ none) us
      → (r : List (List ℕ) × ℕ) × (validate_uncles H D W s phash miners w us ≡ ok r)
  unfolding validate_uncles
  validate_uncles_total s phash miners w [] h = ((miners, w), refl)
  validate_uncles_total s phash miners w (u ∷ us) h =
      elim (Option-cases (is_uncle_valid H D W s phash u)) [
        | inl p ↦ absurd (h.0 p)
        | inr (m, p) ↦
            let (r, e) =
              validate_uncles_total s phash (miners ++ m ∷ []) ((w + 1) % 2 ^ 64) us h.1 in
            (r, ground (arith, e))
      ]

  validate_block-IsValid :
      (s : State) (b b' parent : Block Byte64 World)
      → validate_block H D W s b ≡ ok (b', parent)
      → IsValid s b parent
  unfolding validate_block
  validate_block-IsValid s b b' parent h = elim (Option-cases (get_block H D W s b.spec.phash)) [
    | inl p ↦ absurd (ground arith)
    | inr (q, p) ↦
        let w = (q.spec.wt + 1) % 2 ^ 64 in
        elim (Result-cases (validate_uncles H D W s b.spec.phash b.uncle_miners w b.spec.uncles)) [
          | inr (e, f) ↦ absurd (ground arith)
          | inl (r, f) ↦
              let (valid, sum) =
                validate_uncles-ok s b.spec.phash b.uncle_miners w b.spec.uncles f (omega arith) in
              let same : q ≡ parent = ground arith in
              subst (IsValid s b) same (record {
                stored = p;
                depth = ground arith;
                uncles = valid;
                weight = ground (arith, sum);
              })
        ]
  ]

  IsValid-validate_block :
      (s : State) (b parent : Block Byte64 World)
      → IsValid s b parent
      → (b' : Block Byte64 World) × (validate_block H D W s b ≡ ok (b', parent))
  unfolding validate_block
  IsValid-validate_block s b parent v =
      let w = (parent.spec.wt + 1) % 2 ^ 64 in
      let (r, f) = validate_uncles_total s b.spec.phash b.uncle_miners w b.spec.uncles v.uncles in
      let (_, sum) =
        validate_uncles-ok s b.spec.phash b.uncle_miners w b.spec.uncles f (omega arith) in
      (record b { uncle_miners = r.0 }, ground (arith, v.stored, v.depth, v.weight, f, sum))

  -- `validateBlock` succeeds with a parent exactly if the block is valid against that parent.
  pub validate_block-ok_iff :
      (s : State) (b parent : Block Byte64 World)
      → ((b' : Block Byte64 World) × (validate_block H D W s b ≡ ok (b', parent)))
        ↔ IsValid s b parent
  validate_block-ok_iff s b parent =
      (λ r. validate_block-IsValid s b r.0 parent r.1, IsValid-validate_block s b parent)
