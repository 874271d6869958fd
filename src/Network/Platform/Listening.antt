-- ===== src/Network/Platform/Listening.antt =====
-- network/platform.go: the listener leaves the producer, the queue of transactions and the bounds of the
-- channels alone, whatever message it handles.
use go_trust_net.Prelude.{
  ℕ, false, List, [], ◌∷◌, Option, none, some, inl, inr, Option-cases, List-cases, Bool-cases,
}
use go_trust_net.Core.Digest.{Digests}
use go_trust_net.Db.{Database}
use go_trust_net.Consensus.{
  BlockSpec, WorldStates, Block, Key, Value, Result, ok, err, Result-cases,
}
use go_trust_net.Consensus.Operations.{decode_network_block_spec}
use go_trust_net.Consensus.Reads.{ancestor, best_block, block_of, descendents}
use go_trust_net.Network.Platform.{
  Outcome-cases, Error, Outcome, done, blocked, panicked, failed, chan_error, chan_abort, chan_done,
  chan_retry, chan_next, Code, Message, PeerId, Platform, Manager, handshake_code,
  block_hashes_request_code, block_hashes_response_code, blocks_request_code, blocks_response_code,
  new_block_code, handshake, get_block_hashes_request, get_block_hashes_response,
  get_block_hashes_rewind, get_blocks_request, get_blocks_response, new_block, garbled, unknown,
  engine, sync_failed,
}
use go_trust_net.Network.Platform.Peers.{signal, send}
use go_trust_net.Network.Platform.Process.{process_block}
use go_trust_net.Network.Platform.Handlers.{
  then_fail, set_last_hash, is_accepted, is_panic, refuse, rewind_from, handle_rewind,
  handle_new_block, specs_of, handle_blocks_request, take_blocks, handle_blocks_response,
  answer_hashes, handle_block_hashes_request, handle_block_hashes_response, handle_garbled, handle,
  hashes_of,
}
use go_trust_net.Network.Platform.Quiet.{
  Quiet, Quiet-refl, Quiet-trans, set_peer-Quiet, signal-Quiet, send-Quiet, engine-Quiet,
  process_block-Quiet,
}

module _ (H : Digests) (D : Database (Key H.Byte64) (Value H.Byte64)) (W : WorldStates H.Byte64)
    (P : Platform H W) where
  open H use {Byte64, null}
  open W use {World}

  abbrev State : Type 0
  State = Manager H D W

  abbrev Still : State → State → Type 0
  Still = Quiet H D W

  still : (mgr : State) → Still mgr mgr
  still = Quiet-refl H D W

  chain : {a b c : State} → Still a b → Still b c → Still a c
  chain = Quiet-trans H D W

  then_fail-Quiet :
      (mgr : State) (r : State × Outcome) (x : Error)
      → Still mgr r.0
      → Still mgr (then_fail H D W P r x).0
  unfolding then_fail
  then_fail-Quiet mgr (m, done) x q = q
  then_fail-Quiet mgr (m, blocked) x q = q
  then_fail-Quiet mgr (m, panicked) x q = q
  then_fail-Quiet mgr (m, failed _) x q = q

  set_last_hash-Quiet :
      (mgr : State) (id : PeerId) (h : Option Byte64) → Still mgr (set_last_hash H D W P mgr id h)
  unfolding set_last_hash
  set_last_hash-Quiet mgr id h =
      set_peer-Quiet H D W mgr id (record (mgr.heap id) { last_hash = h }) (λ l. l) (λ f. f)

  refuse-Quiet :
      (mgr : State) (id : PeerId) (r : Result (Unit {0})) → Still mgr (refuse H D W P mgr id r).0
  unfolding refuse
  refuse-Quiet mgr id (ok _) = still mgr
  refuse-Quiet mgr id (err x) = elim (Bool-cases (is_panic H D W P x)) [
    | inl e ↦ rw e (still mgr)
    | inr e ↦ rw e (
        then_fail-Quiet mgr (signal H D W mgr id chan_error) (engine x)
          (signal-Quiet H D W mgr id chan_error))
  ]

  rewind_from-Quiet :
      (mgr : State) (id : PeerId) (h : Byte64) → Still mgr (rewind_from H D W P mgr id h).0
  unfolding rewind_from
  rewind_from-Quiet mgr id h = elim (Result-cases (ancestor H D W mgr.engine h 10)) [
    | inr (x, e) ↦ rw (rewind_from, e) (still mgr)
    | inl (none, e) ↦ rw (rewind_from, e) (still mgr)
    | inl (some b, e) ↦
        rw (rewind_from, e)
          (chain (set_last_hash-Quiet mgr id b.hash)
            (signal-Quiet H D W (set_last_hash H D W P mgr id b.hash) id chan_retry))
  ]

  handle_rewind-Quiet : (mgr : State) (id : PeerId) → Still mgr (handle_rewind H D W P mgr id).0
  unfolding handle_rewind
  handle_rewind-Quiet mgr id = elim (Option-cases (mgr.heap id).last_hash) [
    | inr (h, e) ↦ rw (handle_rewind, e) (rewind_from-Quiet mgr id h)
    | inl e ↦
        let best = best_block H D W mgr.engine in
        let mgr₁ : State = record mgr { engine = best.0 } in
        let q = engine-Quiet H D W P mgr best.0 in
        elim (Option-cases best.1) [
          | inl n ↦ rw (handle_rewind, e, n) q
          | inr (b, n) ↦ elim (Option-cases b.hash) [
            | inl m ↦ rw (handle_rewind, e, n, m) (chain q (set_last_hash-Quiet mgr₁ id none))
            | inr (h, m) ↦
                rw (handle_rewind, e, n, m)
                  (chain q (
                    chain (set_last_hash-Quiet mgr₁ id (some h))
                      (rewind_from-Quiet (set_last_hash H D W P mgr₁ id (some h)) id h)))
          ]
        ]
  ]

  handle_new_block-Quiet :
      (mgr : State) (spec : BlockSpec Byte64) (id : PeerId)
      → Still mgr (handle_new_block H D W P mgr spec id).0
  unfolding handle_new_block
  handle_new_block-Quiet mgr spec id =
      let decoded = decode_network_block_spec H D W mgr.engine spec in
      let mgr₁ : State = record mgr { engine = decoded.0 } in
      let q = engine-Quiet H D W P mgr decoded.0 in
      elim (Result-cases decoded.1) [
        | inr (x, e) ↦ rw (handle_new_block, e) q
        | inl (b, e) ↦
            let r = process_block H D W P mgr₁ b id in
            let q' = chain q (process_block-Quiet H D W P mgr₁ b id) in
            elim (Bool-cases (is_accepted H D W P r.2)) [
              | inl a ↦ rw (handle_new_block, e, a) q'
              | inr a ↦ rw (handle_new_block, e, a) (chain q' (refuse-Quiet r.0 id r.2))
            ]
      ]

  specs_of-Quiet : (mgr : State) (hs : List Byte64) → Still mgr (specs_of H D W P mgr hs).0
  unfolding specs_of
  specs_of-Quiet mgr [] = still mgr
  specs_of-Quiet mgr (h ∷ hs) =
      let found = block_of H D W mgr.engine h in
      let mgr₁ : State = record mgr { engine = found.0 } in
      let q = chain (engine-Quiet H D W P mgr found.0) (specs_of-Quiet mgr₁ hs) in
      elim (Result-cases found.1) [
        | inl (b, e) ↦ rw (specs_of, e) q
        | inr (x, e) ↦ rw (specs_of, e) q
      ]

  handle_blocks_request-Quiet :
      (mgr : State) (hs : List Byte64) (id : PeerId)
      → Still mgr (handle_blocks_request H D W P mgr hs id).0
  unfolding handle_blocks_request
  handle_blocks_request-Quiet mgr [] id = still mgr
  handle_blocks_request-Quiet mgr (h ∷ hs) id =
      let found = specs_of H D W P mgr (h ∷ hs) in
      let q = specs_of-Quiet mgr (h ∷ hs) in
      elim (List-cases found.1) [
        | inl e ↦ rw (handle_blocks_request, e) q
        | inr (s, ss, e) ↦
            rw (handle_blocks_request, e)
              (chain q (send-Quiet H D W P found.0 id (get_blocks_response (s ∷ ss))))
      ]

  take_blocks-Quiet :
      (mgr : State) (specs : List (BlockSpec Byte64)) (id : PeerId)
      → Still mgr (take_blocks H D W P mgr specs id).0
  unfolding take_blocks
  take_blocks-Quiet mgr [] id = still mgr
  take_blocks-Quiet mgr (spec ∷ specs) id =
      let decoded = decode_network_block_spec H D W mgr.engine spec in
      let mgr₁ : State = record mgr { engine = decoded.0 } in
      let q = engine-Quiet H D W P mgr decoded.0 in
      elim (Result-cases decoded.1) [
        | inr (x, e) ↦ rw (take_blocks, e) q
        | inl (b, e) ↦
            let r = process_block H D W P mgr₁ b id in
            let q' = chain q (process_block-Quiet H D W P mgr₁ b id) in
            elim (Bool-cases (is_accepted H D W P r.2)) [
              | inr a ↦ rw (take_blocks, e, a) (chain q' (refuse-Quiet r.0 id r.2))
              | inl a ↦
                  rw (take_blocks, e, a)
                    (chain q' (
                      chain (set_last_hash-Quiet r.0 id r.1)
                        (take_blocks-Quiet (set_last_hash H D W P r.0 id r.1) specs id)))
            ]
      ]

  handle_blocks_response-Quiet :
      (mgr : State) (specs : List (BlockSpec Byte64)) (id : PeerId)
      → Still mgr (handle_blocks_response H D W P mgr specs id).0
  unfolding handle_blocks_response
  handle_blocks_response-Quiet mgr [] id = still mgr
  handle_blocks_response-Quiet mgr (spec ∷ specs) id =
      let r = take_blocks H D W P mgr (spec ∷ specs) id in
      let q = take_blocks-Quiet mgr (spec ∷ specs) id in
      elim (Outcome-cases r.1) [
        | inl e ↦ rw (handle_blocks_response, e) (chain q (signal-Quiet H D W r.0 id chan_next))
        | inr (inl e) ↦ rw (handle_blocks_response, e) q
        | inr (inr (inl e)) ↦ rw (handle_blocks_response, e) q
        | inr (inr (inr (x, e))) ↦ rw (handle_blocks_response, e) q
      ]

  answer_hashes-Quiet :
      (mgr : State) (bs : List (Block Byte64 World)) (id : PeerId)
      → Still mgr (answer_hashes H D W P mgr bs id).0
  unfolding answer_hashes
  answer_hashes-Quiet mgr [] id = send-Quiet H D W P mgr id (get_block_hashes_rewind null)
  answer_hashes-Quiet mgr (b ∷ bs) id = elim (Option-cases (hashes_of H D W P (b ∷ bs))) [
    | inl e ↦ rw (answer_hashes, e) (still mgr)
    | inr (hs, e) ↦ rw (answer_hashes, e) (send-Quiet H D W P mgr id (get_block_hashes_response hs))
  ]

  handle_block_hashes_response-Quiet :
      (mgr : State) (hs : List Byte64) (id : PeerId)
      → Still mgr (handle_block_hashes_response H D W P mgr hs id).0
  unfolding handle_block_hashes_response
  handle_block_hashes_response-Quiet mgr [] id = signal-Quiet H D W mgr id chan_done
  handle_block_hashes_response-Quiet mgr (h ∷ hs) id =
      let r = send H D W P mgr id (get_blocks_request (h ∷ hs)) in
      let q = send-Quiet H D W P mgr id (get_blocks_request (h ∷ hs)) in
      elim (Bool-cases r.1) [
        | inl e ↦ rw (handle_block_hashes_response, e) q
        | inr e ↦
            rw (handle_block_hashes_response, e)
              (chain q (
                then_fail-Quiet r.0 (signal H D W r.0 id chan_abort) sync_failed
                  (signal-Quiet H D W r.0 id chan_abort)))
      ]

  handle_garbled-Quiet :
      (mgr : State) (code : Code) (id : PeerId) → Still mgr (handle_garbled H D W P mgr code id).0
  unfolding handle_garbled
  handle_garbled-Quiet mgr handshake_code id = still mgr
  handle_garbled-Quiet mgr block_hashes_request_code id = still mgr
  handle_garbled-Quiet mgr block_hashes_response_code id =
      then_fail-Quiet mgr (signal H D W mgr id chan_error) sync_failed
        (signal-Quiet H D W mgr id chan_error)
  handle_garbled-Quiet mgr blocks_request_code id = still mgr
  handle_garbled-Quiet mgr blocks_response_code id =
      then_fail-Quiet mgr (signal H D W mgr id chan_error) sync_failed
        (signal-Quiet H D W mgr id chan_error)
  handle_garbled-Quiet mgr new_block_code id = still mgr

  handle_block_hashes_request-Quiet :
      (mgr : State) (h : Byte64) (max' : ℕ) (id : PeerId)
      → Still mgr (handle_block_hashes_request H D W P mgr h max' id).0
  unfolding handle_block_hashes_request
  handle_block_hashes_request-Quiet mgr h max' id =
      elim (Option-cases (descendents H D W P.fuel mgr.engine h max')) [
        | inl e ↦ rw (handle_block_hashes_request, e) (still mgr)
        | inr (r, e) ↦ elim (Bool-cases (elim r.1 [ none ↦ false | some y ↦ is_panic H D W P y ])) [
          | inl a ↦ rw (handle_block_hashes_request, e, a) (still mgr)
          | inr a ↦ rw (handle_block_hashes_request, e, a) (answer_hashes-Quiet mgr r.0 id)
        ]
      ]

  pub handle-Quiet :
      (mgr : State) (m : Message Byte64) (id : PeerId) → Still mgr (handle H D W P mgr m id).0
  unfolding handle
  handle-Quiet mgr (get_block_hashes_request parent max') id =
      handle_block_hashes_request-Quiet mgr parent max' id
  handle-Quiet mgr (get_block_hashes_response hs) id = handle_block_hashes_response-Quiet mgr hs id
  handle-Quiet mgr (get_block_hashes_rewind _) id = handle_rewind-Quiet mgr id
  handle-Quiet mgr (get_blocks_request hs) id = handle_blocks_request-Quiet mgr hs id
  handle-Quiet mgr (get_blocks_response specs) id = handle_blocks_response-Quiet mgr specs id
  handle-Quiet mgr (new_block spec) id = handle_new_block-Quiet mgr spec id
  handle-Quiet mgr (garbled code) id = handle_garbled-Quiet mgr code id
  handle-Quiet mgr (handshake _) id = still mgr
  handle-Quiet mgr unknown id = still mgr
