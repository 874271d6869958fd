-- ===== src/CountrApp/Counters.antt =====
-- countrApp/app.go: the transactions of the application against a map from names to numbers.
use go_trust_net.Prelude.{
  ℕ, ◌+◌, ◌-◌, ◌%◌, ◌^◌, ◌<◌, ltb, leb, if◌then◌else◌, Bool, true, false, List, [], ◌∷◌, Option,
  none, some, ite, if_pos, if_neg, ite-cases, ◌≡◌, inl, inr, refl, sym, ◌∙◌, ap, subst, arith,
  Option-cases, Bool-cases, if_true,
}
use go_trust_net.Core.Digest.{Digests}
use go_trust_net.Db.{Database}
use go_trust_net.Consensus.{Transaction, WorldStates, Block, Key, Value, Result, ok}
use go_trust_net.Consensus.Blocks.{bytes_dec, update, lookup}
use go_trust_net.Network.Trustee.{
  bytes_of, mining_reward_balance, credit, debit, rtu_bytes, bytes_to_rtu,
}
use go_trust_net.Network.Trustee.Rewards.{credited, credit-balance, debit-balance}
use go_trust_net.Network.Platform.{Platform}
use go_trust_net.Network.Platform.Process.{process_txs}
use go_trust_net.CountrApp.{
  TestTx, op_incr, op_decr, op_xfer, number_of, lookup_number, change, transfer, run_op,
  tx_processor,
}

-- The numbers that names stand for.
abbrev pub Numbers : Type 0
Numbers = List ℕ → ℕ

-- A name's number raised by `delta`, as a 64-bit number.
abbrev pub raise : Numbers → List ℕ → ℕ → Numbers
raise m name delta = λ x. ite (bytes_dec name x) ((m x + delta) % 2 ^ 64) (m x)

abbrev pub lower : Numbers → List ℕ → ℕ → Numbers
lower m name delta = λ x. ite (bytes_dec name x) (m x - delta) (m x)

-- What an operation does to the numbers; `none` if it is refused. A transfer needs a sufficient
-- number at its source.
abbrev pub effect : TestTx → Numbers → Option Numbers
effect tx m = ite (bytes_dec tx.op op_incr) (some (raise m tx.target tx.delta)) (
    ite (bytes_dec tx.op op_decr) (some (raise m tx.target ((2 ^ 64 - tx.delta) % 2 ^ 64))) (
      ite (bytes_dec tx.op op_xfer)
        (if ltb (m tx.source) tx.delta
          then none
          else some (raise (lower m tx.source tx.delta) tx.target tx.delta))
        none))

-- What a list of transactions does, one after the other, where `decode` reads their payloads.
abbrev pub effects : (List ℕ → Option TestTx) → List Transaction → Numbers → Option Numbers
effects decode [] m = some m
effects decode (tx ∷ txs) m = elim (decode tx.payload) [
  | none ↦ none
  | some op ↦ elim (effect op m) [ none ↦ none | some m' ↦ effects decode txs m' ]
]

-- Two values that one decision chooses.
both-cases {ℓ κ} :
    {A : Type ℓ} {B : Type κ} {P : Type 0} {x y : A} {u v : B} (keeps : A → B → Type 0) (d : Dec P)
    → (P → keeps x u)
    → (¬ P → keeps y v)
    → keeps (ite d x y) (ite d u v)
both-cases keeps (yes p) f g = f p
both-cases keeps (no p) f g = g p

module _ (H : Digests) (W : WorldStates H.Byte64) where
  open H use {Byte64}
  open W use {World, Tables}

  -- The block holds these numbers, which are uint64s.
  abbrev pub Shows : Tables → Block Byte64 World → Numbers → Type 0
  Shows t b m = (x : List ℕ) → ((lookup_number H W t b x).1 ≡ some (m x)) × (m x < 2 ^ 64)

  -- A run ends as the abstract one: with the new numbers, or refused.
  abbrev pub Ends : Tables → Result (Block Byte64 World × Bool) → Option Numbers → Type 0
  Ends t r none = (b : Block Byte64 World) × (r ≡ ok (b, false))
  Ends t r (some m) = (b : Block Byte64 World) × (r ≡ ok (b, true)) × Shows t b m

  balance-number :
      (t : Tables) (b : Block Byte64 World) (x : List ℕ) (n : ℕ)
      → mining_reward_balance H W t b x ≡ ok n
      → (lookup_number H W t b x).1 ≡ some n
  unfolding mining_reward_balance bytes_of lookup_number number_of bytes_to_rtu
  balance-number t b x n e = ground (arith, e)

  number-balance :
      (t : Tables) (b : Block Byte64 World) (x : List ℕ) (n : ℕ)
      → (lookup_number H W t b x).1 ≡ some n
      → mining_reward_balance H W t b x ≡ ok n
  unfolding mining_reward_balance bytes_of lookup_number number_of bytes_to_rtu
  number-balance t b x n e = ground (arith, e)

  credit-some :
      (t : Tables) (b : Block Byte64 World) (a : List ℕ) (delta n : ℕ)
      → mining_reward_balance H W t b a ≡ ok n
      → (b' : Block Byte64 World) × (credit H W t b a delta ≡ ok b')
  unfolding credit mining_reward_balance
  credit-some t b a delta n e = elim (Option-cases (bytes_of H W (lookup H W t b a).1)) [
    | inl f ↦ absurd (ground (arith, e))
    | inr (bytes, f) ↦ (
      update H W (lookup H W t b a).0 a (rtu_bytes ((bytes_to_rtu bytes + delta) % 2 ^ 64)),
      ground (arith, f),
    )
  ]

  debit-some :
      (t : Tables) (b : Block Byte64 World) (a : List ℕ) (delta n : ℕ)
      → mining_reward_balance H W t b a ≡ ok n
      → (b' : Block Byte64 World) × (paid : Bool) × (debit H W t b a delta ≡ ok (b', paid))
  unfolding debit mining_reward_balance
  debit-some t b a delta n e = elim (Option-cases (bytes_of H W (lookup H W t b a).1)) [
    | inl f ↦ absurd (ground (arith, e))
    | inr (bytes, f) ↦ elim (Bool-cases (ltb (bytes_to_rtu bytes) delta)) [
      | inl g ↦ ((lookup H W t b a).0, false, ground (arith, f, g))
      | inr g ↦ (
        update H W (lookup H W t b a).0 a (rtu_bytes (bytes_to_rtu bytes - delta)),
        true,
        ground (arith, f, g),
      )
    ]
  ]

  -- A counter is changed as a balance is.
  change-credit :
      (t : Tables) (b b' : Block Byte64 World) (a : List ℕ) (delta : ℕ)
      → credit H W t b a delta ≡ ok b'
      → change H W t b a delta ≡ ok (b', true)
  unfolding change credit lookup_number number_of bytes_of rtu_bytes bytes_to_rtu
  change-credit t b b' a delta e = ground (arith, e)

  -- The numbers after a credit.
  credit-Shows :
      (t : Tables) (b b' : Block Byte64 World) (m : Numbers) (a : List ℕ) (delta : ℕ)
      → credit H W t b a delta ≡ ok b'
      → Shows t b m
      → Shows t b' (raise m a delta)
  unfolding credited
  credit-Shows t b b' m a delta e h x = (
    balance-number t b' x _
        (credit-balance H W t b b' a x delta (m x) e (number-balance t b x (m x) (h x).0)),
    ite-cases (λ n. n < 2 ^ 64) (bytes_dec a x) ((m x + delta) % 2 ^ 64) (m x) (λ p. omega arith)
        (λ p. (h x).1),
  )

  pub change-Ends :
      (t : Tables) (b : Block Byte64 World) (m : Numbers) (a : List ℕ) (delta : ℕ)
      → Shows t b m
      → Ends t (change H W t b a delta) (some (raise m a delta))
  change-Ends t b m a delta h =
      let (b', e) = credit-some t b a delta (m a) (number-balance t b a (m a) (h a).0) in
      (b', change-credit t b b' a delta e, credit-Shows t b b' m a delta e h)

  -- The numbers after a debit.
  debit-Shows :
      (t : Tables) (b b' : Block Byte64 World) (m : Numbers) (a : List ℕ) (delta : ℕ) (paid : Bool)
      → debit H W t b a delta ≡ ok (b', paid)
      → Shows t b m
      → (paid ≡ leb delta (m a)) × (paid ≡ true → Shows t b' (lower m a delta))
  debit-Shows t b b' m a delta paid e h = ((after a).0, λ p x. shown x p (after x).1)
    where
      has : (x : List ℕ) → mining_reward_balance H W t b x ≡ ok (m x)
      has x = number-balance t b x (m x) (h x).0

      after :
          (x : List ℕ)
          → (paid ≡ leb delta (m a))
            × (mining_reward_balance H W t b' x
                ≡ (if paid then ite (bytes_dec a x) (ok (m a - delta)) (ok (m x)) else ok (m x)))
      after x = debit-balance H W t b b' a x delta (m a) (m x) paid (has a) (h a).1 (has x) e

      shown :
          (x : List ℕ)
          → paid ≡ true
          → mining_reward_balance H W t b' x
            ≡ (if paid then ite (bytes_dec a x) (ok (m a - delta)) (ok (m x)) else ok (m x))
          → ((lookup_number H W t b' x).1 ≡ some (lower m a delta x)) × (lower m a delta x < 2 ^ 64)
      shown x p bal = elim (bytes_dec a x) [
        | yes q ↦
            let l = (h x).1 in
            let n = bal ∙ if_true paid _ _ p ∙ if_pos (bytes_dec a x) q _ _ in
            rw (if_pos (bytes_dec a x) q)
              (balance-number t b' x (m x - delta) (n ∙ ap (λ y. ok (m y - delta)) q), omega arith)
        | no q ↦
            let n = bal ∙ if_true paid _ _ p ∙ if_neg (bytes_dec a x) q _ _ in
            rw (if_neg (bytes_dec a x) q) (balance-number t b' x (m x) n, (h x).1)
      ]

  transfer-Ends :
      (t : Tables) (b : Block Byte64 World) (m : Numbers) (tx : TestTx)
      → Shows t b m
      → Ends t (transfer H W t b tx) (
          if ltb (m tx.source) tx.delta
          then none
          else some (raise (lower m tx.source tx.delta) tx.target tx.delta))
  unfolding transfer
  transfer-Ends t b m tx h =
      let s = tx.source in
      let (b₁, paid, e) = debit-some t b s tx.delta (m s) (number-balance t b s (m s) (h s).0) in
      let (p, lowered) = debit-Shows t b b₁ m s tx.delta paid e h in
      elim (Bool-cases (ltb (m s) tx.delta)) [
        | inl low ↦ let q : paid ≡ false = ground (arith, p) in rw low (b₁, ground (arith, e, q))
        | inr high ↦
            let q : paid ≡ true = ground (arith, p) in
            let l : Shows t b₁ (lower m s tx.delta) = lowered q in
            let (b₂, f) =
              credit-some t b₁ tx.target tx.delta _
                (number-balance t b₁ tx.target _ (l tx.target).0) in
            rw high (
              b₂,
              ground (arith, e, q, f),
              credit-Shows t b₁ b₂ (lower m s tx.delta) tx.target tx.delta f l,
            )
      ]

  run_op-Ends :
      (t : Tables) (b : Block Byte64 World) (m : Numbers) (tx : TestTx)
      → Shows t b m
      → Ends t (run_op H W t b tx) (effect tx m)
  unfolding run_op
  run_op-Ends t b m tx h =
      both-cases (Ends t) (bytes_dec tx.op op_incr) (λ p. change-Ends t b m tx.target tx.delta h)
        (λ p.
          both-cases (Ends t) (bytes_dec tx.op op_decr)
            (λ q. change-Ends t b m tx.target ((2 ^ 64 - tx.delta) % 2 ^ 64) h)
            (λ q.
              both-cases (Ends t) (bytes_dec tx.op op_xfer) (λ r. transfer-Ends t b m tx h)
                (λ r. (b, refl))))

  module _ (D : Database (Key H.Byte64) (Value H.Byte64)) (P : Platform H W)
      (decode : List ℕ → Option TestTx) where
    -- The callback of the platform is the application's, which returns.
    abbrev pub Calls : Type 0
    Calls =
        (t : Tables) (b : Block Byte64 World) (tx : Transaction) (r : Block Byte64 World × Bool)
        → tx_processor H W decode t b tx ≡ ok r
        → P.tx_processor t b tx ≡ r

    -- The loop over transactions ends as the abstract run: with the new numbers, or refused.
    abbrev pub Refines : Tables → Block Byte64 World × Bool → Option Numbers → Type 0
    Refines t (b, taken) none = taken ≡ false
    Refines t (b, taken) (some m) = (taken ≡ true) × Shows t b m

    Refines-same :
        (t : Tables) (r s : Block Byte64 World × Bool) (o o' : Option Numbers)
        → r ≡ s
        → o ≡ o'
        → Refines t s o'
        → Refines t r o
    Refines-same t r s o o' e f h =
        subst (λ u. Refines t u o) (sym e) (subst (Refines t s) (sym f) h)

    -- The platform's loop over the transactions of a block, with the application's processor as its
    -- callback, refines the map of numbers: on a block that holds the numbers `m` it takes the
    -- transactions exactly if all have an effect, one after the other, and then the block holds the
    -- numbers after them. An increment or a decrement changes its target alone, modulo 2^64; a
    -- transfer moves an amount that the source has, and any other operation is refused.
    pub process_txs-Refines :
        (t : Tables) (b : Block Byte64 World) (m : Numbers) (txs : List Transaction)
        → Calls
        → Shows t b m
        → Refines t (process_txs H D W P t b txs) (effects decode txs m)
    unfolding process_txs tx_processor
    process_txs-Refines t b m [] calls h = (refl, h)
    process_txs-Refines t b m (tx ∷ txs) calls h = elim (Option-cases (decode tx.payload)) [
      | inl e ↦
          let r = calls t b tx (b, false) (ground (arith, e)) in
          Refines-same t _ (b, false) (effects decode (tx ∷ txs) m) none (ground (arith, r))
            (ground (arith, e)) refl
      | inr (op, e) ↦ elim (Option-cases (effect op m)) [
        | inl f ↦
            let (b', is) = subst (Ends t (run_op H W t b op)) f (run_op-Ends t b m op h) in
            let r = calls t b tx (b', false) (ground (arith, e, is)) in
            Refines-same t _ (b', false) (effects decode (tx ∷ txs) m) none (ground (arith, r))
              (ground (arith, e, f)) refl
        | inr (m', f) ↦
            let (b', is, h') = subst (Ends t (run_op H W t b op)) f (run_op-Ends t b m op h) in
            let r = calls t b tx (b', true) (ground (arith, e, is)) in
            Refines-same t _ (process_txs H D W P t b' txs) (effects decode (tx ∷ txs) m)
              (effects decode txs m') (ground (arith, r)) (ground (arith, e, f))
              (process_txs-Refines t b' m' txs calls h')
      ]
    ]
