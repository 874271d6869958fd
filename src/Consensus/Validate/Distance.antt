-- ===== src/Consensus/Validate/Distance.antt =====
-- consensus/blockChainConsensus.go: how far away an uncle is that `isUncleValid` accepts.
use Prim.Native.Nat.add
use go_trust_net.Prelude.{
  ℕ, zero, suc, ◌+◌, ◌≤◌, ltb, List, Option, none, some, ◌≡◌, ◌≢◌, refl, arith, Option-cases,
  Bool-cases, inl, inr, ◌∙◌,
}
use go_trust_net.Core.Digest.{Digests}
use go_trust_net.Db.{Database}
use go_trust_net.Consensus.{WorldStates, Block, ChainNode, Key, Value}
use go_trust_net.Consensus.Store.{get_block, get_chain_node}
use go_trust_net.Consensus.Validate.{climb, meet, uncle_distance, is_uncle_valid}

module _ (H : Digests) (D : Database (Key H.Byte64) (Value H.Byte64))
    (W : WorldStates H.Byte64) where
  open H use {Byte64, dec}
  open D use {State}

  -- The node that is k generations above another.
  pub ancestor_at : State → ℕ → ChainNode Byte64 → Option (ChainNode Byte64)
  ancestor_at s zero n = some n
  ancestor_at s (suc k) n = elim (get_chain_node H D W s n.parent) [
    | none ↦ none
    | some p ↦ ancestor_at s k p
  ]

  ancestor_at_add :
      (s : State) (j k : ℕ) (n m : ChainNode Byte64)
      → ancestor_at s j n ≡ some m
      → ancestor_at s (j + k) n ≡ ancestor_at s k m
  unfolding ancestor_at
  ancestor_at_add s zero k n m h = rw (add.zero k) (ground arith)
  ancestor_at_add s (suc j) k n m h = elim (Option-cases (get_chain_node H D W s n.parent)) [
    | inl p ↦ absurd (ground arith)
    | inr (up, p) ↦ rw (add.suc j k) (ground (arith, ancestor_at_add s j k up m))
  ]

  climb-ancestor_at :
      (s : State) (fuel target : ℕ) (n : ChainNode Byte64) (d : ℕ) {m : ChainNode Byte64} {e : ℕ}
      → climb H D W s fuel target n d ≡ some (m, e)
      → (k : ℕ) × (ancestor_at s k n ≡ some m) × (e ≡ d + k)
  unfolding climb ancestor_at
  climb-ancestor_at s zero target n d h = absurd (ground arith)
  climb-ancestor_at s (suc fuel) target n d {m} {e} h = elim (Bool-cases (ltb target n.depth)) [
    | inr p ↦ (0, ground arith, ground arith)
    | inl p ↦ elim (Option-cases (get_chain_node H D W s n.parent)) [
      | inl q ↦ absurd (ground arith)
      | inr (up, q) ↦
          let (k, at, is) =
            climb-ancestor_at s fuel target up (d + 1) {m = m} {e = e} (ground arith) in
          (suc k, ground (arith, at), omega arith)
    ]
  ]

  meet-ancestor_at :
      (s : State) (fuel : ℕ) (p u : ChainNode Byte64) (d e : ℕ)
      → meet H D W s fuel p u d ≡ some e
      → (k : ℕ) × (a : ChainNode Byte64) × (b : ChainNode Byte64) × (ancestor_at s k p ≡ some a)
        × (ancestor_at s k u ≡ some b)
        × (a.hash ≡ b.hash)
        × (e ≡ d + k)
  unfolding meet ancestor_at
  meet-ancestor_at s zero p u d e h = absurd (ground arith)
  meet-ancestor_at s (suc fuel) p u d e h = elim (dec p.hash u.hash) [
    | yes same ↦ (0, p, u, refl, refl, same, ground arith)
    | no other ↦ elim (Option-cases (get_chain_node H D W s p.parent)) [
      | inl x ↦ absurd (ground arith)
      | inr (p', x) ↦ elim (Option-cases (get_chain_node H D W s u.parent)) [
        | inl y ↦ absurd (ground arith)
        | inr (u', y) ↦
            let (k, a, b, at_p, at_u, same, is) =
              meet-ancestor_at s fuel p' u' (d + 1) e (ground arith) in
            (suc k, a, b, ground (arith, at_p), ground (arith, at_u), same, omega arith)
      ]
    ]
  ]

  -- Nodes that differ meet above.
  meets_above :
      (s : State) (p u : ChainNode Byte64) (k : ℕ) (a b : ChainNode Byte64)
      → ancestor_at s k p ≡ some a
      → ancestor_at s k u ≡ some b
      → a.hash ≡ b.hash
      → p.hash ≢ u.hash
      → 1 ≤ k
  unfolding ancestor_at
  meets_above s p u zero a b x y same other = absurd (other (ground arith))
  meets_above s p u (suc k) a b x y same other = omega arith

  -- Two nodes have a common ancestor, each at least one and at most five generations above.
  pub record AreCousins (s : State) (parent uncle : ChainNode Byte64) : Type 0 where
    pub up_parent : ℕ
    pub up_uncle : ℕ
    pub parent_above : (1 ≤ up_parent) × (up_parent ≤ 5)
    pub uncle_above : (1 ≤ up_uncle) × (up_uncle ≤ 5)
    pub over_parent : ChainNode Byte64
    pub over_uncle : ChainNode Byte64
    pub at_parent : ancestor_at s up_parent parent ≡ some over_parent
    pub at_uncle : ancestor_at s up_uncle uncle ≡ some over_uncle
    pub common : over_parent.hash ≡ over_uncle.hash

  uncle_distance-AreCousins :
      (s : State) (parent uncle : ChainNode Byte64) (d : ℕ)
      → uncle_distance H D W s parent uncle ≡ some d
      → d ≤ 5
      → AreCousins s parent uncle
  unfolding uncle_distance
  uncle_distance-AreCousins s parent uncle d h l =
      elim (Option-cases (climb H D W s (suc parent.depth) uncle.depth parent 0)) [
        | inl x ↦ absurd (ground arith)
        | inr ((p, d₁), x) ↦
            elim (Option-cases (climb H D W s (suc uncle.depth) p.depth uncle d₁)) [
              | inl y ↦ absurd (ground arith)
              | inr ((u, d₂), y) ↦ elim (dec p.hash u.hash) [
                | yes same ↦ absurd (ground arith)
                | no other ↦
                    let (i, at_p, is_i) =
                      climb-ancestor_at s (suc parent.depth) uncle.depth parent 0 {m = p} {e = d₁}
                        x in
                    let (j, at_u, is_j) =
                      climb-ancestor_at s (suc uncle.depth) p.depth uncle d₁ {m = u} {e = d₂} y in
                    let (k, a, b, at_a, at_b, same, is_k) =
                      meet-ancestor_at s (suc p.depth) p u d₂ d (ground arith) in
                    let moved = meets_above s p u k a b at_a at_b same other in
                    record {
                      up_parent = i + k;
                      up_uncle = j + k;
                      parent_above = omega arith;
                      uncle_above = omega arith;
                      over_parent = a;
                      over_uncle = b;
                      at_parent = ancestor_at_add s i k parent p at_p ∙ at_a;
                      at_uncle = ancestor_at_add s j k uncle u at_u ∙ at_b;
                      common = same;
                    }
              ]
            ]
      ]

  -- An uncle that `isUncleValid` accepts is a stored block, whose miner is returned. It and the
  -- parent of the new block have a common ancestor, which is neither of them, at most five
  -- generations above each.
  pub is_uncle_valid-AreCousins :
      (s : State) (phash u_hash : Byte64) (miner : List ℕ)
      → is_uncle_valid H D W s phash u_hash ≡ some miner
      → (parent : ChainNode Byte64) × (uncle : ChainNode Byte64) × (b : Block Byte64 W.World)
        × (get_chain_node H D W s phash ≡ some parent)
        × (get_chain_node H D W s u_hash ≡ some uncle)
        × (get_block H D W s u_hash ≡ some b)
        × (b.spec.miner ≡ miner)
        × AreCousins s parent uncle
  unfolding is_uncle_valid
  is_uncle_valid-AreCousins s phash u_hash miner h =
      elim (Option-cases (get_chain_node H D W s u_hash)) [
        | inl x ↦ absurd (ground arith)
        | inr (uncle, x) ↦ elim (Option-cases (get_chain_node H D W s phash)) [
          | inl y ↦ absurd (ground arith)
          | inr (parent, y) ↦ elim (Option-cases (uncle_distance H D W s parent uncle)) [
            | inl z ↦ absurd (ground arith)
            | inr (d, z) ↦ elim (Option-cases (get_block H D W s u_hash)) [
              | inl v ↦ absurd (ground arith)
              | inr (b, v) ↦ (
                parent,
                uncle,
                b,
                y,
                x,
                v,
                ground arith,
                uncle_distance-AreCousins s parent uncle d z (ground arith),
              )
            ]
          ]
        ]
      ]
