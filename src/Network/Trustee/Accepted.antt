-- ===== src/Network/Trustee/Accepted.antt =====
-- network/trustee.go: the operations of a reward transaction that a node makes are processed by a node.
use go_trust_net.Prelude.{
  ℕ, suc, ◌+◌, ◌%◌, ◌^◌, ◌<◌, true, List, [], ◌∷◌, length, some, ◌≡◌, ◌≢◌, ◌⊎◌, inl, inr, refl, ap,
  ◌∙◌, arith, Option-cases, All,
}
use go_trust_net.Core.Digest.{Digests}
use go_trust_net.Consensus.{WorldStates, Block, ok}
use go_trust_net.Consensus.Blocks.{update, lookup, lookup_world, get_variable}
use go_trust_net.Network.Trustee.{
  Op, no_reward, param_miner, param_uncle, param_award, miner_award, uncle_award,
  bytes_to_hex_string, parse_uint, read_param, read_params, rtu_bytes, bytes_to_rtu, bytes_of,
  credit, credit_reward, process_uncles, process_ops, uncle_ops, reward_ops,
}
use go_trust_net.Network.Trustee.Rewards.{miner_award-parsed, uncle_award-parsed}

-- The parameters of a reward as `NewMiningRewardTx` writes them are read back.
read_params-written :
    (param owner award : List ℕ) (amount : ℕ)
    → param_award ≢ param
    → parse_uint award ≡ some amount
    → read_params param owner award ((param, owner) ∷ (param_award, award) ∷ []) no_reward
      ≡ record { valid_op = true; account = owner; amount = amount }
unfolding read_params read_param
read_params-written param owner award amount ne e = ground (arith, e)

read_params-swapped :
    (param owner award : List ℕ) (amount : ℕ)
    → param_award ≢ param
    → parse_uint award ≡ some amount
    → read_params param owner award ((param_award, award) ∷ (param, owner) ∷ []) no_reward
      ≡ record { valid_op = true; account = owner; amount = amount }
unfolding read_params read_param
read_params-swapped param owner award amount ne e = ground (arith, e)

-- The two parameters of a reward, in one of the orders in which a loop over Go's map can have them.
abbrev pub IsOrder : List (List ℕ × List ℕ) → List ℕ × List ℕ → List ℕ × List ℕ → Type 0
IsOrder params p q = (params ≡ p ∷ q ∷ []) ⊎ (params ≡ q ∷ p ∷ [])

read_params-IsOrder :
    (param owner award : List ℕ) (amount : ℕ) (params : List (List ℕ × List ℕ))
    → param_award ≢ param
    → parse_uint award ≡ some amount
    → IsOrder params (param, owner) (param_award, award)
    → read_params param owner award params no_reward
      ≡ record { valid_op = true; account = owner; amount = amount }
read_params-IsOrder param owner award amount params ne e (inl o) =
    ap (λ q. read_params param owner award q no_reward) o
    ∙ read_params-written param owner award amount ne e
read_params-IsOrder param owner award amount params ne e (inr o) =
    ap (λ q. read_params param owner award q no_reward) o
    ∙ read_params-swapped param owner award amount ne e

abbrev swapped : List (List ℕ × List ℕ) → List (List ℕ × List ℕ)
swapped [] = []
swapped (p ∷ []) = p ∷ []
swapped (p ∷ q ∷ ps) = q ∷ p ∷ ps

-- The same operations, each with its two parameters in one order or the other.
abbrev pub Reordered : List Op → List Op → Type 0
Reordered [] [] = Unit
Reordered [] (q ∷ qs) = ⊥
Reordered (o ∷ os) [] = ⊥
Reordered (o ∷ os) (q ∷ qs) =
    ((q.params ≡ o.params) ⊎ (q.params ≡ swapped o.params)) × Reordered os qs

pub Reordered-refl : (ops : List Op) → Reordered ops ops
Reordered-refl [] = tt
Reordered-refl (o ∷ os) = (inl refl, Reordered-refl os)

List-cases : (xs : List ℕ) → (xs ≡ []) ⊎ ((y : ℕ) × (ys : List ℕ) × (xs ≡ y ∷ ys))
List-cases [] = inl refl
List-cases (y ∷ ys) = inr (y, ys, refl)

miner_ne_award : param_award ≢ param_miner
miner_ne_award = λ e. ground arith

uncle_ne_award : param_award ≢ param_uncle
uncle_ne_award = λ e. ground arith

module _ (H : Digests) (W : WorldStates H.Byte64) where
  open H use {Byte64}
  open W use {World, Tables}

  lookup-kept_world :
      (t : Tables) (b : Block Byte64 World) (account : List ℕ) (w : World)
      → b.world_state ≡ some w
      → ((bytes : List ℕ) × (bytes_of H W (lookup H W t b account).1 ≡ some bytes))
        × ((lookup H W t b account).0.world_state ≡ some w)
  unfolding lookup lookup_world bytes_of
  lookup-kept_world t b account w e = elim (Option-cases (get_variable account b.variables)) [
    | inr (v, f) ↦ elim (Option-cases v) [
      | inl g ↦ (([], ground arith), ground arith)
      | inr (u, g) ↦ ((u, ground arith), ground arith)
    ]
    | inl f ↦ elim (Option-cases (W.lookup t w account)) [
      | inl g ↦ (([], ground arith), ground arith)
      | inr (u, g) ↦ ((u, ground arith), ground arith)
    ]
  ]

  credit_total :
      (t : Tables) (b : Block Byte64 World) (account : List ℕ) (delta : ℕ) (w : World)
      → b.world_state ≡ some w
      → (b' : Block Byte64 World) × (credit H W t b account delta ≡ ok b')
        × (b'.world_state ≡ some w)
  unfolding credit update
  credit_total t b account delta w e =
      let ((bytes, f), g) = lookup-kept_world t b account w e in
      (
        update H W (lookup H W t b account).0 account
            (rtu_bytes ((bytes_to_rtu bytes + delta) % 2 ^ 64)),
        ground (arith, f),
        g,
      )

  reward_total :
      (t : Tables) (b : Block Byte64 World) (account : List ℕ) (amount : ℕ) (w : World)
      → b.world_state ≡ some w
      → account ≢ []
      → 0 < amount
      → (b' : Block Byte64 World) × (credit_reward H W t b
            (record { valid_op = true; account = account; amount = amount })
          ≡ ok (b', true))
        × (b'.world_state ≡ some w)
  unfolding credit_reward
  reward_total t b account amount w e ne pos =
      let (b', f, g) = credit_total t b account amount w e in
      (
        b',
        elim (List-cases account) [ inl x ↦ absurd (ne x) | inr (a, rest, x) ↦ ground (arith, f) ],
        g,
      )

  hex_ne : (name : List ℕ) → name ≢ [] → bytes_to_hex_string name ≢ []
  unfolding bytes_to_hex_string
  hex_ne [] h = λ e. h refl
  hex_ne (b ∷ name) h = λ e. cc

  length-Reordered :
      (uncles : List (List ℕ)) (ops : List Op)
      → Reordered (uncle_ops uncles) ops
      → length ops ≡ length uncles
  unfolding uncle_ops
  length-Reordered [] [] h = refl
  length-Reordered [] (op ∷ ops) h = absurd h
  length-Reordered (u ∷ us) [] h = absurd h
  length-Reordered (u ∷ us) (op ∷ ops) h = ap suc (length-Reordered us ops h.1)

  process_uncles_total :
      (t : Tables) (b : Block Byte64 World) (uncles : List (List ℕ)) (ops : List Op) (w : World)
      → b.world_state ≡ some w
      → All (λ u. u ≢ []) uncles
      → Reordered (uncle_ops uncles) ops
      → (b' : Block Byte64 World) × (process_uncles H W t b uncles ops ≡ ok (b', true))
  unfolding process_uncles uncle_ops
  process_uncles_total t b [] ops w e h o = (b, refl)
  process_uncles_total t b (uncle ∷ uncles) [] w e h o = absurd o
  process_uncles_total t b (uncle ∷ uncles) (op ∷ ops) w e h o =
      let (c, f, g) =
        reward_total t b (bytes_to_hex_string uncle) 200000 w e (hex_ne uncle h.0) (omega arith) in
      let (b', p) = process_uncles_total t c uncles ops w g h.1 o.1 in
      let r =
        read_params-IsOrder param_uncle (bytes_to_hex_string uncle) uncle_award 200000 op.params
          uncle_ne_award uncle_award-parsed o.0 in
      (b', ground (arith, f, p, r))

  -- The operations that `NewMiningRewardTx` writes for a node and a list of miners of uncles are
  -- processed with success by any node, on a block with that list and with a world state, if no name
  -- of a miner is empty; and so they are whatever the order in which the loop over Go's map takes the
  -- two parameters of each operation.
  pub process_ops-reward_ops :
      (t : Tables) (b : Block Byte64 World) (address : List ℕ) (ops : List Op) (w : World)
      → b.world_state ≡ some w
      → address ≢ []
      → All (λ u. u ≢ []) b.uncle_miners
      → Reordered (reward_ops address b.uncle_miners) ops
      → (b' : Block Byte64 World) × (process_ops H W t b address ops ≡ ok (b', true))
  unfolding process_ops reward_ops
  process_ops-reward_ops t b address [] w e ne h o = absurd o
  process_ops-reward_ops t b address (op ∷ ops) w e ne h o =
      let (c, f, g) =
        reward_total t b (bytes_to_hex_string address) 1000000 w e (hex_ne address ne)
          (omega arith) in
      let (b', p) = process_uncles_total t c b.uncle_miners ops w g h o.1 in
      let r =
        read_params-IsOrder param_miner (bytes_to_hex_string address) miner_award 1000000 op.params
          miner_ne_award miner_award-parsed o.0 in
      (b', ground (arith, f, p, r, length-Reordered b.uncle_miners ops o.1))
