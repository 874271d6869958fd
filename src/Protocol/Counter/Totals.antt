-- ===== src/Protocol/Counter/Totals.antt =====
-- protocol/counter/manager.go: what the transactions of a block do to the counters.
use go_trust_net.Prelude.{
  ℕ, length, take, drop, if_false, ◌+◌, ◌-◌, ◌%◌, ◌^◌, ◌<◌, ltb, Bool, true, false, List, [], ◌∷◌,
  map, some, none, ite, if◌then◌else◌, ◌≡◌, ◌≢◌, refl, sym, ◌∙◌, ap, subst, arith, All,
}
use go_trust_net.Core.Digest.{Digests}
use go_trust_net.Core.Types.{uint64_to_byte8, bytes_to_byte8, uint64}
use go_trust_net.Db.{Database}
use go_trust_net.Consensus.{Transaction, WorldStates, Block, Key, Value, Result, ok}
use go_trust_net.Consensus.Blocks.{bytes_dec}
use go_trust_net.CountrApp.{change, lookup_number}
use go_trust_net.CountrApp.Counters.{Numbers, raise, Shows, Ends, change-Ends}
use go_trust_net.Protocol.Counter.{
  op_increment, op_decrement, make_transaction_payload, get_transaction_from_payload,
}
use go_trust_net.Protocol.Counter.Blocks.{countr, apply_op, process_txs}

-- The payload that is made of a name, which is not empty, and an opcode is read as these.
payload_lem :
    (c op_code : ℕ) (name : List ℕ)
    → op_code < 2 ^ 64
    → get_transaction_from_payload (make_transaction_payload (c ∷ name) op_code)
      ≡ some (c ∷ name, op_code)
unfolding get_transaction_from_payload make_transaction_payload uint64_to_byte8 bytes_to_byte8
    uint64
payload_lem c op_code name h =
    let payload = make_transaction_payload (c ∷ name) op_code in
    let long : ltb (length payload) 9 ≡ false = ground arith in
    let number : uint64 (bytes_to_byte8 (take 8 payload)) ≡ op_code = omega arith in
    if_false (ltb (length payload) 9) none
      (some (drop 8 payload, uint64 (bytes_to_byte8 (take 8 payload)))) long
    ∙ ap (λ k. some (c ∷ name, k)) number

op_code_bound : (up : Bool) → (if up then op_increment else op_decrement) < 2 ^ 64
op_code_bound true = omega arith
op_code_bound false = omega arith

sum_lem :
    {P : Type 0} (d : Dec P) (n k rest : ℕ)
    → (ite d ((n + k) % 2 ^ 64) n + rest) % 2 ^ 64 ≡ (n + (ite d k 0 + rest)) % 2 ^ 64
sum_lem d n k rest = ground arith

-- A step of a counter, up or down, and its payload.
abbrev pub Step : Type 0
Step = List ℕ × Bool

abbrev pub payload_of : Step → List ℕ
payload_of (name, up) = make_transaction_payload name (if up then op_increment else op_decrement)

-- What the steps add to a counter, modulo 2^64.
abbrev pub net : List Step → List ℕ → ℕ
net [] x = 0
net ((name, up) ∷ steps) x = ite (bytes_dec name x) (if up then 1 else 2 ^ 64 - 1) 0 + net steps x

abbrev pub HasName : Step → Type 0
HasName (name, up) = name ≢ []

module _ (H : Digests) (D : Database (Key H.Byte64) (Value H.Byte64))
    (W : WorldStates H.Byte64) where
  open H use {Byte64}
  open W use {World, Tables}

  apply_op-Ends :
      (t : Tables) (b : Block Byte64 World) (m : Numbers) (name : List ℕ) (up : Bool)
      → Shows H W t b m
      → Ends H W t
          (apply_op H D W t b name (if up then op_increment else op_decrement))
          (some (raise m name (if up then 1 else 2 ^ 64 - 1)))
  unfolding apply_op countr change lookup_number
  apply_op-Ends t b m name true h = change-Ends H W t b m name 1 h
  apply_op-Ends t b m name false h = change-Ends H W t b m name (2 ^ 64 - 1) h

  -- A block that holds the numbers `m`, plus what the steps add.
  unfoldable pub Adds :
      Tables → Numbers → List Step → Block Byte64 World × Result (Unit {0}) → Type 0
  Adds t m steps (b, r) = (r ≡ ok tt) × Shows H W t b (λ x. (m x + net steps x) % 2 ^ 64)

  -- `processBlock` takes all transactions whose payloads `makeTransactionPayload` makes of names, not empty,
  -- and the opcodes of an increment or a decrement. On a block that holds the numbers `m`, each counter
  -- ends at its number plus one for each increment and minus one for each decrement that names it, modulo
  -- 2^64.
  pub process_txs-Adds :
      (t : Tables) (b : Block Byte64 World) (m : Numbers) (steps : List Step)
      (txs : List Transaction)
      → All HasName steps
      → map (λ (tx : Transaction). tx.payload) txs ≡ map payload_of steps
      → Shows H W t b m
      → Adds t m steps (process_txs H D W t b txs)
  unfolding process_txs Adds
  process_txs-Adds t b m [] [] n e h = (refl, λ x. ((h x).0 ∙ ap some (same x), omega arith))
    where
      same : (x : List ℕ) → m x ≡ (m x + 0) % 2 ^ 64
      same x = omega (arith, (h x).1)
  process_txs-Adds t b m [] (tx ∷ txs) n e h = absurd (cc)
  process_txs-Adds t b m (step ∷ steps) [] n e h = absurd (cc)
  process_txs-Adds t b m (([], up) ∷ steps) (tx ∷ txs) n e h = absurd (n.0 refl)
  process_txs-Adds t b m ((c ∷ name, up) ∷ steps) (tx ∷ txs) n e h =
      let op_code = if up then op_increment else op_decrement in
      let d = if up then 1 else 2 ^ 64 - 1 in
      let (b', ran, h') = apply_op-Ends t b m (c ∷ name) up h in
      let payload : tx.payload ≡ make_transaction_payload (c ∷ name) op_code = cc in
      let read =
        ap get_transaction_from_payload payload ∙ payload_lem c op_code name (op_code_bound up) in
      let (taken, shown) = process_txs-Adds t b' (raise m (c ∷ name) d) steps txs n.1 (cc) h' in
      let next : process_txs H D W t b (tx ∷ txs) ≡ process_txs H D W t b' txs =
        ground (arith, read, ran) in
      subst (Adds t m ((c ∷ name, up) ∷ steps)) (sym next) (
        taken,
        λ x.
            let more = sum_lem (bytes_dec (c ∷ name) x) (m x) d (net steps x) in
            ((shown x).0 ∙ ap some more, omega arith),
      )
