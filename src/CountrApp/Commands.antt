-- ===== src/CountrApp/Commands.antt =====
-- countrApp/app.go: from the words of a command to the numbers that the transactions leave.
use go_trust_net.Prelude.{
  ℕ, ◌-◌, ◌%◌, ◌^◌, Bool, true, false, List, [], ◌∷◌, ◌++◌, map, Option, none, some, if_neg, ◌≡◌,
  ◌≢◌, refl, sym, ap, ◌∙◌, subst, arith, if◌then◌else◌, ℕ_discrete,
}
use mathlib.Core.List.{append-nil, append_assoc}
use go_trust_net.Core.Digest.{Digests}
use go_trust_net.Db.{Database}
use go_trust_net.Consensus.{Transaction, WorldStates, Block, Key, Value}
use go_trust_net.Consensus.Blocks.{bytes_dec}
use go_trust_net.Network.Platform.{Platform}
use go_trust_net.Network.Platform.Process.{process_txs}
use go_trust_net.CountrApp.{
  TestTx, CommandOp, increment_tx, decrement_tx, scan_words, scan_ops, incr_payloads, decr_payloads,
}
use go_trust_net.CountrApp.Counters.{
  Numbers, raise, effect, effects, Shows, Calls, Refines, process_txs-Refines,
}

module _ (atoi : List ℕ → Option ℕ) where
  -- The ways to write operations: a name that is no number, and perhaps a number; without one the
  -- operation has the number 1.
  pub data Spells : List CommandOp → List (List ℕ) → Type 0 where
    nothing : Spells [] []
    plain :
        {ops : List CommandOp} {words : List (List ℕ)} (name : List ℕ)
        → name ≢ []
        → atoi name ≡ none
        → Spells ops words
        → Spells (record { name = name; delta = 1 } ∷ ops) (name ∷ words)
    valued :
        {ops : List CommandOp} {words : List (List ℕ)} (name number : List ℕ) (n : ℕ)
        → name ≢ []
        → atoi name ≡ none
        → atoi number ≡ some n
        → Spells ops words
        → Spells (record { name = name; delta = n } ∷ ops) (name ∷ number ∷ words)

  abbrev held : Bool → CommandOp → List CommandOp
  held reading curr = if reading then curr ∷ [] else []

  scan_words-name :
      (word : List ℕ) (words : List (List ℕ)) (curr : CommandOp) (reading : Bool)
      (done : List CommandOp)
      → atoi word ≡ none
      → scan_words atoi (word ∷ words) curr reading done
        ≡ scan_words atoi words (record { name = word; delta = 1 }) true (done ++ held reading curr)
  unfolding scan_words
  scan_words-name word words curr true done e = ground (arith, e)
  scan_words-name word words curr false done e = ground (arith, e, append-nil done)

  scan_words-number :
      (word : List ℕ) (words : List (List ℕ)) (curr : CommandOp) (reading : Bool)
      (done : List CommandOp) (n : ℕ)
      → curr.name ≢ []
      → atoi word ≡ some n
      → scan_words atoi (word ∷ words) curr reading done
        ≡ scan_words atoi words
            (record { name = []; delta = 0 })
            false
            (done ++ record { name = curr.name; delta = n } ∷ [])
  unfolding scan_words
  scan_words-number word words curr reading done n ne e =
      rw (scan_words, e) (if_neg (bytes_dec curr.name []) ne _ _)

  scan_words-Spells :
      {ops : List CommandOp} {words : List (List ℕ)} (curr : CommandOp) (reading : Bool)
      (done : List CommandOp)
      → Spells ops words
      → scan_words atoi words curr reading done ≡ done ++ (held reading curr ++ ops)
  unfolding scan_words
  scan_words-Spells curr true done nothing = refl
  scan_words-Spells curr false done nothing = sym (append-nil done)
  scan_words-Spells curr reading done (plain {ops} {words} name ne word s) =
      scan_words-name name words curr reading done word
      ∙ scan_words-Spells (record { name = name; delta = 1 }) true (done ++ held reading curr) s
      ∙ append_assoc done (held reading curr) (record { name = name; delta = 1 } ∷ ops)
  scan_words-Spells curr reading done (valued {ops} {words} name number n ne word num s) =
      let shown = done ++ held reading curr in
      let op : CommandOp = record { name = name; delta = n } in
      scan_words-name name (number ∷ words) curr reading done word
      ∙ scan_words-number number words (record { name = name; delta = 1 }) true shown n ne num
      ∙ scan_words-Spells (record { name = []; delta = 0 }) false (shown ++ op ∷ []) s
      ∙ append_assoc shown (op ∷ []) ops
      ∙ append_assoc done (held reading curr) (op ∷ ops)

  scan_ops-Spells :
      {ops : List CommandOp} {words : List (List ℕ)} → Spells ops words → scan_ops atoi words ≡ ops
  unfolding scan_ops
  scan_ops-Spells s = scan_words-Spells (record { name = []; delta = 0 }) false [] s

-- The numbers after the operations of a command, one after the other.
abbrev pub each : (CommandOp → Numbers → Numbers) → List CommandOp → Numbers → Numbers
each change [] m = m
each change (op ∷ ops) m = each change ops (change op m)

abbrev pub raises : CommandOp → Numbers → Numbers
raises op m = raise m op.name op.delta

abbrev pub lowers : CommandOp → Numbers → Numbers
lowers op m = raise m op.name ((2 ^ 64 - op.delta) % 2 ^ 64)

-- The payloads of transactions.
abbrev pub payloads : List Transaction → List (List ℕ)
payloads txs = map (λ (tx : Transaction). tx.payload) txs

module _ (encode : TestTx → List ℕ) (decode : List ℕ → Option TestTx) (make : CommandOp → TestTx)
    (change : CommandOp → Numbers → Numbers) where
  effects-each :
      (ops : List CommandOp) (txs : List Transaction) (m : Numbers)
      → ((tx : TestTx) → decode (encode tx) ≡ some tx)
      → ((op : CommandOp) (n : Numbers) → effect (make op) n ≡ some (change op n))
      → payloads txs ≡ map (λ (op : CommandOp). encode (make op)) ops
      → effects decode txs m ≡ some (each change ops m)
  effects-each [] [] m r f e = refl
  effects-each [] (tx ∷ txs) m r f e = absurd (cc)
  effects-each (op ∷ ops) [] m r f e = absurd (cc)
  effects-each (op ∷ ops) (tx ∷ txs) m r f e =
      let same : tx.payload ≡ encode (make op) = cc in
      let read : decode tx.payload ≡ some (make op) = ap decode same ∙ r _ in
      rw (effects, read, f op m) (effects-each ops txs (change op m) r f (cc))

module _ (H : Digests) (W : WorldStates H.Byte64) (D : Database (Key H.Byte64) (Value H.Byte64))
    (P : Platform H W) (encode : TestTx → List ℕ) (decode : List ℕ → Option TestTx)
    (atoi : List ℕ → Option ℕ) where
  open H use {Byte64}
  open W use {World, Tables}

  command-Refines :
      (make : CommandOp → TestTx) (change : CommandOp → Numbers → Numbers) (t : Tables)
      (b : Block Byte64 World) (m : Numbers) (ops : List CommandOp) (words : List (List ℕ))
      (txs : List Transaction)
      → ((tx : TestTx) → decode (encode tx) ≡ some tx)
      → ((op : CommandOp) (n : Numbers) → effect (make op) n ≡ some (change op n))
      → Calls H W D P decode
      → Spells atoi ops words
      → Shows H W t b m
      → payloads txs ≡ map (λ (op : CommandOp). encode (make op)) (scan_ops atoi words)
      → Refines H W D P decode t (process_txs H D W P t b txs) (some (each change ops m))
  command-Refines make change t b m ops words txs r f calls s h e =
      let ran = process_txs-Refines H W D P decode t b m txs calls h in
      let same = e ∙ ap (map (λ (op : CommandOp). encode (make op))) (scan_ops-Spells atoi s) in
      subst (Refines H W D P decode t (process_txs H D W P t b txs))
        (effects-each encode decode make change ops txs m r f same) ran

  -- From the command line to the block: of words that spell operations, each a name that is no number
  -- and perhaps a number, the transactions of the command "incr" are all taken by the platform's loop
  -- with the application's processor, and raise each name by its number, or by 1, modulo 2^64; those
  -- of "decr" are taken and lower them so. The serialization is taken to be read back.
  pub incr_payloads-Refines :
      (t : Tables) (b : Block Byte64 World) (m : Numbers) (ops : List CommandOp)
      (words : List (List ℕ)) (incrs decrs : List Transaction)
      → ((tx : TestTx) → decode (encode tx) ≡ some tx)
      → Calls H W D P decode
      → Spells atoi ops words
      → Shows H W t b m
      → payloads incrs ≡ incr_payloads encode atoi words
      → payloads decrs ≡ decr_payloads encode atoi words
      → Refines H W D P decode t (process_txs H D W P t b incrs) (some (each raises ops m))
        × Refines H W D P decode t (process_txs H D W P t b decrs) (some (each lowers ops m))
  unfolding incr_payloads decr_payloads increment_tx decrement_tx bytes_dec ℕ_discrete
  incr_payloads-Refines t b m ops words incrs decrs r calls s h p q = (
    command-Refines (λ op. increment_tx op.name op.delta) raises t b m ops words incrs r
        (λ op n. refl) calls s h p,
    command-Refines (λ op. decrement_tx op.name op.delta) lowers t b m ops words decrs r
        (λ op n. refl) calls s h q,
  )
