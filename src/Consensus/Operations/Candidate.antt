-- ===== src/Consensus/Operations/Candidate.antt =====
-- consensus/blockChainConsensus.go: the block that `NewCandidateBlock` makes.
use go_trust_net.Prelude.{
  ℕ, suc, ◌+◌, ◌-◌, ◌%◌, ◌^◌, ◌<◌, List, [], ◌∷◌, ◌++◌, map, some, ◌≡◌, refl, sym, ◌∙◌, ap, arith,
  length, Option-cases, inl, inr, subst,
}
use mathlib.Core.List.{append-nil, append_assoc}
use go_trust_net.Core.Digest.{Digests}
use go_trust_net.Db.{Database}
use go_trust_net.Consensus.{WorldStates, Block, Uncle, Key, Value, Engine, max_uncle_distance}
use go_trust_net.Consensus.Blocks.{add_uncle, new_block}
use go_trust_net.Consensus.Store.{find_uncles}
use go_trust_net.Consensus.Operations.{add_uncles, new_candidate_block}

module _ (H : Digests) (D : Database (Key H.Byte64) (Value H.Byte64))
    (W : WorldStates H.Byte64) where
  open H use {Byte64}
  open W use {World}

  abbrev pub hashes : List (Uncle Byte64) → List Byte64
  hashes us = map (λ (u : Uncle Byte64). u.hash) us

  abbrev pub miners : List (Uncle Byte64) → List (List ℕ)
  miners us = map (λ (u : Uncle Byte64). u.miner) us

  length-hashes : (us : List (Uncle Byte64)) → length (hashes us) ≡ length us
  length-hashes [] = refl
  length-hashes (u ∷ us) = ap suc (length-hashes us)

  -- What adding uncles does to a block.
  record Grown (b c : Block Byte64 World) (us : List (Uncle Byte64)) : Type 0 where
    phash : c.spec.phash ≡ b.spec.phash
    depth : c.spec.depth ≡ b.spec.depth
    delta : c.spec.delta ≡ b.spec.delta
    uncles : c.spec.uncles ≡ b.spec.uncles ++ hashes us
    uncle_miners : c.uncle_miners ≡ b.uncle_miners ++ miners us
    weight : c.spec.wt % 2 ^ 64 ≡ (b.spec.wt + length us) % 2 ^ 64
    bound : b.spec.wt < 2 ^ 64 → c.spec.wt < 2 ^ 64

  add_uncles-Grown :
      (b : Block Byte64 World) (us : List (Uncle Byte64)) → Grown b (add_uncles H D W b us) us
  unfolding add_uncles add_uncle
  add_uncles-Grown b [] = record {
    phash = refl;
    depth = refl;
    delta = refl;
    uncles = sym (append-nil b.spec.uncles);
    uncle_miners = sym (append-nil b.uncle_miners);
    weight = omega arith;
    bound = λ h. h;
  }
  add_uncles-Grown b (u ∷ us) =
      let ih = add_uncles-Grown (add_uncle H W b u) us in
      record {
        phash = ih.phash;
        depth = ih.depth;
        delta = ih.delta;
        uncles = ih.uncles ∙ append_assoc b.spec.uncles (u.hash ∷ []) (hashes us);
        uncle_miners = ih.uncle_miners ∙ append_assoc b.uncle_miners (u.miner ∷ []) (miners us);
        weight = omega arith;
        bound = λ h. ih.bound (omega arith);
      }

  -- The uncles of a child of the tip: the blocks that `findUncles` gives.
  abbrev pub uncles_of : Engine H D W → Byte64 → List (Uncle Byte64)
  uncles_of e parent =
      find_uncles H D W e.db e.tip.spec.phash parent max_uncle_distance e.tip.spec.depth

  -- A candidate block is a child of the tip, its depth is the tip's plus one, its uncles are those
  -- that `findUncles` gives, in that order, each with its hash and with its miner, and its weight is
  -- the tip's, plus one, plus the number of its uncles. Its `DELTA` is not the time since the parent:
  -- it is the parent's timestamp.
  pub record IsCandidate (e : Engine H D W) (b : Block Byte64 World) : Type 0 where
    pub child : e.tip.hash ≡ some b.spec.phash
    pub depth : b.spec.depth ≡ (e.tip.spec.depth + 1) % 2 ^ 64
    pub uncles : b.spec.uncles ≡ hashes (uncles_of e b.spec.phash)
    pub uncle_miners : b.uncle_miners ≡ miners (uncles_of e b.spec.phash)
    pub weight : b.spec.wt ≡ (e.tip.spec.wt + 1 + length b.spec.uncles) % 2 ^ 64
    pub delta : b.spec.delta ≡ e.tip.spec.ts

  -- A block that `NewCandidateBlock` returns at a time other than zero is a child of the tip. It
  -- is one deeper, its uncles are the blocks that `findUncles` gives, with the hash and the miner of
  -- each, and its weight is the tip's, plus one, plus the number of its uncles; its delta is the timestamp of the tip. (The numbers are uint64.)
  pub new_candidate_block-IsCandidate :
      (ts : ℕ) (e e' : Engine H D W) (b : Block Byte64 World)
      → 0 < ts
      → ts < 2 ^ 64
      → e.tip.spec.ts < 2 ^ 64
      → new_candidate_block H D W ts e ≡ (e', some b)
      → IsCandidate e b
  unfolding new_candidate_block new_block
  new_candidate_block-IsCandidate ts e e' b pos small old h =
      elim (Option-cases (W.new_world e.tables).1) [
        | inl x ↦ absurd (ground arith)
        | inr (w, x) ↦
            let r = W.rebase (W.new_world e.tables).0 w (W.hash e.state) in
            elim (Option-cases r.1) [
              | inl y ↦ absurd (ground arith)
              | inr (world, y) ↦ elim (Option-cases e.tip.hash) [
                | inl z ↦ absurd (ground arith)
                | inr (h', z) ↦
                    let b₀ =
                      new_block H W ts h' ((e.tip.spec.wt + 1) % 2 ^ 64)
                        ((e.tip.spec.depth + 1) % 2 ^ 64) ts
                        ((ts + 2 ^ 64 - e.tip.spec.ts) % 2 ^ 64) e.miner_id world in
                    let us =
                      find_uncles H D W e.db e.tip.spec.phash h' max_uncle_distance
                        e.tip.spec.depth in
                    let g = add_uncles-Grown b₀ us in
                    let is : add_uncles H D W b₀ us ≡ b = ground arith in
                    subst (IsCandidate e) is (record {
                      child = ground (arith, g.phash);
                      depth = g.depth;
                      uncles = g.uncles ∙ ap (λ q. hashes (uncles_of e q)) (sym g.phash);
                      uncle_miners =
                          g.uncle_miners ∙ ap (λ q. miners (uncles_of e q)) (sym g.phash);
                      weight = omega (
                        arith,
                        g.weight,
                        g.bound (omega arith),
                        ap length g.uncles,
                        length-hashes us,
                      );
                      delta = ground (arith, g.delta);
                    })
              ]
            ]
      ]
