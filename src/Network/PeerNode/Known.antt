-- ===== src/Network/PeerNode/Known.antt =====
-- network/node.go: the sets of a peer stay bounded, and remember what was added last.
use go_trust_net.Prelude.{
  All, ℕ, zero, suc, ◌+◌, ◌%◌, ◌≤◌, ◌<◌, leb, true, List, [], ◌∷◌, length, ◌≡◌, refl, arith,
  Bool-cases, inl, inr, if_pos, if◌then◌else◌,
}
use native.Mathlib.Nat.{mod-lt}
use go_trust_net.Common.Set.{size, has, add_one, add, take_at, pop}
use go_trust_net.Network.PeerNode.{
  PeerNode, Picks, max_known_txs, max_known_blocks, pop_three, add_tx, has_tx, add_block, has_block,
}

module _ {A : Type 0} (dec : Discrete A) where
  length-take_at :
      (xs : List A) (i : ℕ)
      → (length (take_at dec xs i).0 ≤ length xs)
        × (length xs ≤ length (take_at dec xs i).0 + 1)
        × (i < length xs → length (take_at dec xs i).0 + 1 ≡ length xs)
  unfolding take_at
  length-take_at [] i = (omega arith, omega arith, λ h. absurd (omega arith))
  length-take_at (x ∷ xs) zero = (omega arith, omega arith, λ h. omega arith)
  length-take_at (x ∷ xs) (suc i) =
      let (a, b, c) = length-take_at xs i in
      (omega arith, omega arith, λ h. omega (arith, c (omega arith)))

  length-pop : (xs : List A) (pick : ℕ) → 0 < length xs → length (pop dec xs pick).0 + 1 ≡ length xs
  unfolding pop
  length-pop xs pick h = (length-take_at xs (pick % length xs)).2 (mod-lt pick h)

  length-pop_three :
      (xs : List A) (p : Picks) → 3 ≤ length xs → length (pop_three dec xs p) + 3 ≡ length xs
  unfolding pop_three
  length-pop_three xs p h =
      let a = length-pop xs p.first (omega arith) in
      let b = length-pop (pop dec xs p.first).0 p.second (omega arith) in
      let c = length-pop (pop dec (pop dec xs p.first).0 p.second).0 p.third (omega arith) in
      omega arith

  has_first : (xs : List A) (a : A) → has dec (a ∷ xs) a ≡ true
  unfolding has
  has_first xs a = if_pos (dec a a) refl _ _

  add_one_lem :
      (xs : List A) (a : A)
      → (has dec (add_one dec xs a) a ≡ true) × (length (add_one dec xs a) ≤ length xs + 1)
  unfolding add_one
  add_one_lem xs a = elim (Bool-cases (has dec xs a)) [
    | inl e ↦ ground (arith, e)
    | inr e ↦ ground (arith, e, has_first xs a)
  ]

  length-add_one : (xs : List A) (a : A) → length (add_one dec xs a) ≤ length xs + 1
  length-add_one xs a = (add_one_lem xs a).1

  keep_three :
      (xs : List A) (p : Picks) (a : A)
      → length xs ≤ 1024
      → (let known = if leb 1024 (size dec xs) then pop_three dec xs p else xs in
          (has dec (add dec known (a ∷ [])) a ≡ true) × (length (add dec known (a ∷ [])) ≤ 1024))
  unfolding size add
  keep_three xs p a h = elim (Bool-cases (leb 1024 (length xs))) [
    | inl e ↦
        let l = length-pop_three xs p (ground arith) in
        let r = add_one_lem (pop_three dec xs p) a in ground (arith, e, r.0, r.1, l)
    | inr e ↦ let r = add_one_lem xs a in ground (arith, e, r.0, r.1)
  ]

  module _ (Q : A → Type 0) where
    All-take_at : (xs : List A) (i : ℕ) → All Q xs → All Q (take_at dec xs i).0
    unfolding take_at
    All-take_at [] i h = h
    All-take_at (x ∷ xs) zero h = h.1
    All-take_at (x ∷ xs) (suc i) h = (h.0, All-take_at xs i h.1)

    All-pop : (xs : List A) (pick : ℕ) → All Q xs → All Q (pop dec xs pick).0
    unfolding pop
    All-pop xs pick h = All-take_at xs (pick % length xs) h

    All-pop_three : (xs : List A) (p : Picks) → All Q xs → All Q (pop_three dec xs p)
    unfolding pop_three
    All-pop_three xs p h =
        All-pop (pop dec (pop dec xs p.first).0 p.second).0 p.third
          (All-pop (pop dec xs p.first).0 p.second (All-pop xs p.first h))

    All-add_one : (xs : List A) (a : A) → All Q xs → Q a → All Q (add_one dec xs a)
    unfolding add_one
    All-add_one xs a h q = elim (Bool-cases (has dec xs a)) [
      | inl e ↦ rw (add_one, e) h
      | inr e ↦ rw (add_one, e) (q, h)
    ]

    -- What holds of all known transactions and of one more holds of them with that one.
    pub All-add_tx :
        (node : PeerNode A) (p : Picks) (a : A)
        → All Q node.known_txs
        → Q a
        → All Q (add_tx dec node p a).known_txs
    unfolding add_tx add
    All-add_tx node p a h q = elim (Bool-cases (leb max_known_txs (size dec node.known_txs))) [
      | inl e ↦
          rw (add_tx, e)
            (All-add_one (pop_three dec node.known_txs p) a (All-pop_three node.known_txs p h) q)
      | inr e ↦ rw (add_tx, e) (All-add_one node.known_txs a h q)
    ]

  pub add_tx-has :
      (node : PeerNode A) (p : Picks) (a : A) → has_tx dec (add_tx dec node p a) a ≡ true
  unfolding add_tx has_tx add
  add_tx-has node p a =
      (add_one_lem
        (if leb max_known_txs (size dec node.known_txs)
          then pop_three dec node.known_txs p
          else node.known_txs)
        a).0

  -- What is added to the known transactions, or to the known blocks, is known from then on, and a
  -- node that knows at most 1024 of each still does, whichever three keys are dropped to make room.
  pub add-has_bounded :
      (node : PeerNode A) (p : Picks) (a : A)
      → length node.known_txs ≤ max_known_txs
      → length node.known_blocks ≤ max_known_blocks
      → (has_tx dec (add_tx dec node p a) a ≡ true)
        × (length (add_tx dec node p a).known_txs ≤ max_known_txs)
        × (has_block dec (add_block dec node p a) a ≡ true)
        × (length (add_block dec node p a).known_blocks ≤ max_known_blocks)
  unfolding add_tx has_tx add_block has_block
  add-has_bounded node p a h k =
      let (x, y) = keep_three node.known_txs p a h in
      let (z, w) = keep_three node.known_blocks p a k in (x, y, z, w)
