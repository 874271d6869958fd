-- ===== src/Network/Trustee/Rewards.antt =====
-- network/trustee.go: what a reward transaction does to the balances.
use go_trust_net.Prelude.{
  ℕ, ◌+◌, ◌-◌, ◌%◌, ◌^◌, ◌<◌, ltb, leb, if◌then◌else◌, Bool, true, false, List, [], ◌∷◌, none, some,
  ite, if_pos, if_neg, ◌≡◌, ◌⊎◌, inl, inr, refl, sym, ◌∙◌, ap, ap₂, arith, Option-cases, Bool-cases,
}
use go_trust_net.Core.Digest.{Digests}
use go_trust_net.Core.Types.{uint64_to_byte8, bytes_to_byte8, uint64}
use go_trust_net.Consensus.{WorldStates, Block, panic, Result, ok, err, Result-cases}
use go_trust_net.Consensus.Blocks.{bytes_dec, update, lookup}
use go_trust_net.Consensus.Blocks.Variables.{lookup-update_delete, lookup-lookup}
use go_trust_net.Network.Trustee.{
  Op, Reward, no_reward, param_miner, param_uncle, param_award, miner_award, uncle_award,
  bytes_to_hex_string, parse_uint, rtu_bytes, bytes_to_rtu, read_param, read_params, bytes_of,
  mining_reward_balance, credit, debit, credit_reward, process_uncles, process_ops,
}

bytes_to_rtu-rtu_bytes : (n : ℕ) → n < 2 ^ 64 → bytes_to_rtu (rtu_bytes n) ≡ n
unfolding bytes_to_rtu rtu_bytes uint64 bytes_to_byte8 uint64_to_byte8
bytes_to_rtu-rtu_bytes n h = omega arith

-- What a reward is, as far as the parameters are right: the owner's, with the amount.
abbrev IsFor : List ℕ → List ℕ → Reward → Type 0
IsFor owner award r =
    r.valid_op ≡ true
    → ((r.account ≡ []) ⊎ (r.account ≡ owner))
      × ((r.amount ≡ 0) ⊎ (parse_uint award ≡ some r.amount))

read_param-IsFor :
    (param owner award key value : List ℕ) (r : Reward)
    → IsFor owner award r
    → IsFor owner award (read_param param owner award (key, value) r)
unfolding read_param
read_param-IsFor param owner award key value r h = λ v. elim (bytes_dec key param) [
  | yes p ↦ elim (bytes_dec value owner) [ yes q ↦ ground (arith, h) | no q ↦ ground (arith, h) ]
  | no p ↦ elim (bytes_dec key param_award) [
    | no q ↦ ground (arith, h)
    | yes q ↦ elim (bytes_dec value award) [ yes u ↦ ground (arith, h) | no u ↦ ground (arith, h) ]
  ]
]

read_params-IsFor :
    (param owner award : List ℕ) (params : List (List ℕ × List ℕ)) (r : Reward)
    → IsFor owner award r
    → IsFor owner award (read_params param owner award params r)
unfolding read_params
read_params-IsFor param owner award [] r h = h
read_params-IsFor param owner award ((key, value) ∷ ps) r h =
    read_params-IsFor param owner award ps (read_param param owner award (key, value) r)
      (read_param-IsFor param owner award key value r h)

reward-IsFor :
    (param owner award : List ℕ) (params : List (List ℕ × List ℕ))
    → IsFor owner award (read_params param owner award params no_reward)
reward-IsFor param owner award params =
    read_params-IsFor param owner award params no_reward (λ v. (inl refl, inl refl))

pub miner_award-parsed : parse_uint miner_award ≡ some 1000000
unfolding parse_uint
miner_award-parsed = refl

pub uncle_award-parsed : parse_uint uncle_award ≡ some 200000
unfolding parse_uint
uncle_award-parsed = refl

-- What an account gets of the rewards of the uncles, and of all rewards.
pub uncle_rewards : List (List ℕ) → List ℕ → ℕ
uncle_rewards [] x = 0
uncle_rewards (uncle ∷ uncles) x =
    ite (bytes_dec (bytes_to_hex_string uncle) x) 200000 0 + uncle_rewards uncles x

pub rewards : List ℕ → List (List ℕ) → List ℕ → ℕ
rewards miner uncles x =
    ite (bytes_dec (bytes_to_hex_string miner) x) 1000000 0 + uncle_rewards uncles x

module _ (H : Digests) (W : WorldStates H.Byte64) where
  open H use {Byte64}
  open W use {World, Tables}

  balance_cong :
      (t : Tables) (b c : Block Byte64 World) (x : List ℕ)
      → (lookup H W t b x).1 ≡ (lookup H W t c x).1
      → mining_reward_balance H W t b x ≡ mining_reward_balance H W t c x
  unfolding mining_reward_balance
  balance_cong t b c x e =
      ap
        (λ (r : Result (List ℕ)). elim (bytes_of H W r) as (λ _. Result ℕ) [
          | none ↦ err panic
          | some bytes ↦ ok (bytes_to_rtu bytes)
        ])
        e

  -- The balance of any account after a write to one.
  balance-update :
      (t : Tables) (b : Block Byte64 World) (account x : List ℕ) (n : ℕ)
      → n < 2 ^ 64
      → mining_reward_balance H W t (update H W (lookup H W t b account).0 account (rtu_bytes n)) x
        ≡ ite (bytes_dec account x) (ok n) (mining_reward_balance H W t b x)
  unfolding mining_reward_balance bytes_of
  balance-update t b account x n l =
      let e = (lookup-update_delete H W t (lookup H W t b account).0 account x (rtu_bytes n)).0 in
      let f = lookup-lookup H W t b account x in
      let g = bytes_to_rtu-rtu_bytes n l in ground (arith, e, f, g)

  balance-bytes :
      (t : Tables) (b : Block Byte64 World) (account bytes : List ℕ)
      → bytes_of H W (lookup H W t b account).1 ≡ some bytes
      → mining_reward_balance H W t b account ≡ ok (bytes_to_rtu bytes)
  unfolding mining_reward_balance
  balance-bytes t b account bytes e = ground (arith, e)

  -- The balance after a credit.
  unfoldable pub credited : List ℕ → List ℕ → ℕ → ℕ → ℕ
  credited account x delta n = ite (bytes_dec account x) ((n + delta) % 2 ^ 64) n

  pub credit-balance :
      (t : Tables) (b b' : Block Byte64 World) (account x : List ℕ) (delta n : ℕ)
      → credit H W t b account delta ≡ ok b'
      → mining_reward_balance H W t b x ≡ ok n
      → mining_reward_balance H W t b' x ≡ ok (credited account x delta n)
  unfolding credit credited
  credit-balance t b b' account x delta n h is =
      elim (Option-cases (bytes_of H W (lookup H W t b account).1)) [
        | inl e ↦ absurd (ground arith)
        | inr (bytes, e) ↦
            let v = (bytes_to_rtu bytes + delta) % 2 ^ 64 in
            let is' : update H W (lookup H W t b account).0 account (rtu_bytes v) ≡ b' =
              ground arith in
            let bal = balance-update t b account x v (omega arith) in
            ap (λ c. mining_reward_balance H W t c x) (sym is') ∙ bal ∙ elim (bytes_dec account x) [
              | yes p ↦
                  if_pos (bytes_dec account x) p _ _
                  ∙ ground (
                    arith,
                    e,
                    p,
                    is,
                    balance-bytes t b account bytes e,
                    ap (mining_reward_balance H W t b) p,
                  )
              | no p ↦
                  if_neg (bytes_dec account x) p _ _
                  ∙ is
                  ∙ ap ok (sym (if_neg (bytes_dec account x) p _ _))
            ]
      ]

  -- A reward that is paid is the owner's, with the amount.
  credit_reward-paid :
      (t : Tables) (b b' : Block Byte64 World) (owner award x : List ℕ) (amount n : ℕ) (r : Reward)
      → IsFor owner award r
      → parse_uint award ≡ some amount
      → credit_reward H W t b r ≡ ok (b', true)
      → mining_reward_balance H W t b x ≡ ok n
      → mining_reward_balance H W t b' x ≡ ok (credited owner x amount n)
  unfolding credit_reward
  credit_reward-paid t b b' owner award x amount n r for parsed h is =
      elim (Result-cases (credit H W t b r.account r.amount)) [
        | inr (y, e) ↦ absurd (ground arith)
        | inl (c, e) ↦
            let valid : r.valid_op ≡ true = ground arith in
            let mine : r.account ≡ owner = ground (arith, for valid) in
            let much : r.amount ≡ amount = ground (arith, for valid) in
            let same : c ≡ b' = ground arith in
            ap (λ d. mining_reward_balance H W t d x) (sym same)
            ∙ credit-balance t b c r.account x r.amount n e is
            ∙ ap₂ (λ (a : List ℕ) (k : ℕ). ok (credited a x k n)) mine much
      ]

  credited_lem :
      (account x : List ℕ) (amount more n : ℕ)
      → n < 2 ^ 64
      → (credited account x amount n + more) % 2 ^ 64
        ≡ (n + (ite (bytes_dec account x) amount 0 + more)) % 2 ^ 64
  unfolding credited
  credited_lem account x amount more n l = ground arith

  credited_bound :
      (account x : List ℕ) (amount n : ℕ) → n < 2 ^ 64 → credited account x amount n < 2 ^ 64
  unfolding credited
  credited_bound account x amount n l = ground arith

  process_uncles-paid :
      (t : Tables) (b b' : Block Byte64 World) (uncles : List (List ℕ)) (ops : List Op) (x : List ℕ)
      (n : ℕ)
      → process_uncles H W t b uncles ops ≡ ok (b', true)
      → mining_reward_balance H W t b x ≡ ok n
      → n < 2 ^ 64
      → mining_reward_balance H W t b' x ≡ ok ((n + uncle_rewards uncles x) % 2 ^ 64)
  unfolding process_uncles uncle_rewards
  process_uncles-paid t b b' [] ops x n h is l = ground arith
  process_uncles-paid t b b' (uncle ∷ uncles) [] x n h is l = absurd (ground arith)
  process_uncles-paid t b b' (uncle ∷ uncles) (op ∷ ops) x n h is l =
      let owner = bytes_to_hex_string uncle in
      let r = read_params param_uncle owner uncle_award op.params no_reward in
      elim (Result-cases (credit_reward H W t b r)) [
        | inr (y, e) ↦ absurd (ground arith)
        | inl ((c, paid), e) ↦ elim (Bool-cases paid) [
          | inr f ↦ absurd (ground arith)
          | inl f ↦
              let bal =
                credit_reward-paid t b c owner uncle_award x 200000 n r
                  (reward-IsFor param_uncle owner uncle_award op.params) uncle_award-parsed
                  (e ∙ ap (λ p. ok (c, p)) f) is in
              process_uncles-paid t c b' uncles ops x (credited owner x 200000 n) (ground arith) bal
                (credited_bound owner x 200000 n l)
              ∙ ap ok (credited_lem owner x 200000 (uncle_rewards uncles x) n l)
        ]
      ]

  -- If the trustee processes a reward transaction with success, every account has gained what it is
  -- due, as a uint64: 1000000 for the submitter, and 200000 for each uncle that it has mined, by the
  -- list of miners of uncles that the block carries. All other balances are as before.
  pub process_ops-rewards :
      (t : Tables) (b b' : Block Byte64 World) (submitter : List ℕ) (ops : List Op) (x : List ℕ)
      (n : ℕ)
      → process_ops H W t b submitter ops ≡ ok (b', true)
      → mining_reward_balance H W t b x ≡ ok n
      → n < 2 ^ 64
      → mining_reward_balance H W t b' x ≡ ok ((n + rewards submitter b.uncle_miners x) % 2 ^ 64)
  unfolding process_ops rewards
  process_ops-rewards t b b' submitter [] x n h is l = absurd (ground arith)
  process_ops-rewards t b b' submitter (op ∷ ops) x n h is l =
      let owner = bytes_to_hex_string submitter in
      let r = read_params param_miner owner miner_award op.params no_reward in
      elim (Result-cases (credit_reward H W t b r)) [
        | inr (y, e) ↦ absurd (ground arith)
        | inl ((c, paid), e) ↦ elim (Bool-cases paid) [
          | inr f ↦ absurd (ground arith)
          | inl f ↦
              let bal =
                credit_reward-paid t b c owner miner_award x 1000000 n r
                  (reward-IsFor param_miner owner miner_award op.params) miner_award-parsed
                  (e ∙ ap (λ p. ok (c, p)) f) is in
              process_uncles-paid t c b' b.uncle_miners ops x (credited owner x 1000000 n)
                (ground arith) bal (credited_bound owner x 1000000 n l)
              ∙ ap ok (credited_lem owner x 1000000 (uncle_rewards b.uncle_miners x) n l)
        ]
      ]

  -- `Debit` of an account with a balance, a uint64, succeeds exactly if the balance is high
  -- enough, and then takes the amount from that account; the balance of any other account stays,
  -- and after a failure all stay.
  pub debit-balance :
      (t : Tables) (b b' : Block Byte64 World) (account x : List ℕ) (delta n m : ℕ) (paid : Bool)
      → mining_reward_balance H W t b account ≡ ok n
      → n < 2 ^ 64
      → mining_reward_balance H W t b x ≡ ok m
      → debit H W t b account delta ≡ ok (b', paid)
      → (paid ≡ leb delta n)
        × (mining_reward_balance H W t b' x
            ≡ (if paid then ite (bytes_dec account x) (ok (n - delta)) (ok m) else ok m))
  unfolding debit
  debit-balance t b b' account x delta n m paid has l is h =
      elim (Option-cases (bytes_of H W (lookup H W t b account).1)) [
        | inl e ↦ absurd (ground arith)
        | inr (bytes, e) ↦
            let k : bytes_to_rtu bytes ≡ n = ground (arith, balance-bytes t b account bytes e) in
            elim (Bool-cases (ltb (bytes_to_rtu bytes) delta)) [
              | inl low ↦
                  let c = (lookup H W t b account).0 in
                  let same : c ≡ b' = ground arith in
                  let kept = balance_cong t c b x (lookup-lookup H W t b account x) in
                  let unpaid : paid ≡ false = ground arith in
                  (
                    ground (arith, k),
                    ap (λ d. mining_reward_balance H W t d x) (sym same)
                        ∙ kept
                        ∙ is
                        ∙ (rw unpaid refl),
                  )
              | inr high ↦
                  let v = bytes_to_rtu bytes - delta in
                  let same : update H W (lookup H W t b account).0 account (rtu_bytes v) ≡ b' =
                    ground arith in
                  let bal = balance-update t b account x v (omega (arith, k)) in
                  let done : paid ≡ true = ground arith in
                  (
                    ground (arith, k),
                    ap (λ d. mining_reward_balance H W t d x) (sym same)
                        ∙ bal
                        ∙ ap₂
                            (λ (i : ℕ) (r : Result ℕ). ite (bytes_dec account x) (ok (i - delta)) r)
                            k is
                        ∙ (rw done refl),
                  )
            ]
      ]
