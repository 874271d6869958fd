-- ===== src/Protocol/Counter/Handlers.antt =====
-- protocol/counter/manager.go: the handlers of the messages of a node, the loop that calls them, and the
-- start and the end of a connection.
use go_trust_net.Prelude.{
  ℕ, ltb, true, List, [], ◌∷◌, ◌++◌, length, Option, none, some, if◌then◌else◌, ℕ_discrete,
}
use go_trust_net.Core.Digest.{Digests}
use go_trust_net.Db.{Database}
use go_trust_net.Consensus.{
  BlockSpec, WorldStates, Block, Key, Value, Result, ok, err, duplicate_block,
}
use go_trust_net.Consensus
use go_trust_net.Consensus.Blocks.{wire_spec}
use go_trust_net.Consensus.Operations.{decode_network_block_spec}
use go_trust_net.Consensus.Reads.{ancestor, best_block, block_of, descendents}
use go_trust_net.Protocol
use go_trust_net.Protocol.{
  Error, sync_failed, invalid_request, not_found, bad_block, unknown_message_type, read_failed,
  send_failed, NodeId, Reply, Signal, chan_error, chan_next, chan_abort, chan_retry, chan_done,
  set_node, new_node, unregister_peer,
}
use go_trust_net.Protocol.Counter.{
  Code, block_hashes_request_code, block_hashes_response_code, blocks_request_code,
  blocks_response_code, new_block_code, Message, handshake_status, get_block_hashes_request,
  get_block_hashes_response, get_block_hashes_rewind, get_blocks_request, get_blocks_response,
  new_block, garbled, unknown, Outcome, done, blocked, panicked, failed, engine_failed,
  CountrManager, Surroundings, get_handshake_msg,
}
use go_trust_net.Protocol.Counter.Blocks.{process_block, send}

-- The room of `GetBlockHashesChan`.
abbrev pub chan_size : ℕ
chan_size = 2

-- An error of the engine: a nil dereference, or an error that is returned.
unfoldable pub outcome_of : Consensus.Error → Outcome
outcome_of Consensus.panic = panicked
outcome_of x = engine_failed x

module _ (H : Digests) (D : Database (Key H.Byte64) (Value H.Byte64)) (W : WorldStates H.Byte64)
    (S : Surroundings) where
  open H use {Byte64, dec, null}
  open W use {World}

  -- A send into the channel of a node: a call that finds it full waits.
  unfoldable pub signal : CountrManager H D W → NodeId → Signal → CountrManager H D W × Outcome
  signal mgr id s =
      let n = mgr.base.heap id in
      if ltb (length n.get_block_hashes_chan) chan_size
      then (
        record mgr {
          base =
              set_node mgr.base id
                (record n { get_block_hashes_chan = n.get_block_hashes_chan ++ s ∷ [] });
        },
        done,
      )
      else (mgr, blocked)

  -- What follows a send into a channel: a return with an error.
  unfoldable pub and_then : CountrManager H D W × Outcome → Outcome → CountrManager H D W × Outcome
  and_then (mgr, done) o = (mgr, o)
  and_then (mgr, stuck) o = (mgr, stuck)

  unfoldable pub set_last_hash : CountrManager H D W → NodeId → Option Byte64 → CountrManager H D W
  set_last_hash mgr id h = record mgr {
    base = set_node mgr.base id (record (mgr.base.heap id) { last_hash = h });
  }

  -- What the callers of `processBlock` make of its result: a duplicate is no error, and another error
  -- aborts the sync.
  unfoldable pub on_result :
      CountrManager H D W → NodeId → Result (Unit {0}) → CountrManager H D W × Outcome
  unfolding signal and_then
  on_result mgr from (ok _) = (mgr, done)
  on_result mgr from (err duplicate_block) = (mgr, done)
  on_result mgr from (err Consensus.panic) = (mgr, panicked)
  on_result mgr from (err x) = and_then (signal mgr from chan_error) (engine_failed x)

  -- The end of `handleGetBlockHashesRewindMsg`, from a last hash on.
  unfoldable pub rewind_from : CountrManager H D W → NodeId → Byte64 → CountrManager H D W × Outcome
  unfolding set_last_hash signal
  rewind_from mgr from last = elim (ancestor H D W mgr.engine last 10) [
    | err x ↦ (mgr, outcome_of x)
    | ok none ↦ (mgr, panicked)
    | ok (some b) ↦ signal (set_last_hash mgr from b.hash) from chan_retry
  ]

  unfoldable pub handle_rewind : CountrManager H D W → NodeId → CountrManager H D W × Outcome
  unfolding rewind_from
  handle_rewind mgr from = elim (mgr.base.heap from).last_hash [
    | some last ↦ rewind_from mgr from last
    | none ↦
        let (e, best) = best_block H D W mgr.engine in
        let mgr₁ = record mgr { engine = e } in
        elim best [
          | none ↦ (mgr₁, panicked)
          | some b ↦ elim b.hash [
            | none ↦ (set_last_hash mgr₁ from none, panicked)
            | some h ↦ rewind_from (set_last_hash mgr₁ from (some h)) from h
          ]
        ]
  ]

  unfoldable pub handle_new_block :
      CountrManager H D W → BlockSpec Byte64 → NodeId → CountrManager H D W × Outcome
  unfolding on_result
  handle_new_block mgr spec from =
      let (e, decoded) = decode_network_block_spec H D W mgr.engine spec in
      let mgr₁ = record mgr { engine = e } in
      elim decoded [
        | err Consensus.panic ↦ (mgr₁, panicked)
        | err _ ↦ (mgr₁, failed bad_block)
        | ok b ↦ let (mgr₂, _, r) = process_block H D W S mgr₁ b from in on_result mgr₂ from r
      ]

  -- The loop of `handleGetBlocksRequestMsg`: the blocks that are found.
  unfoldable pub specs_of :
      CountrManager H D W → List Byte64 → CountrManager H D W × List (BlockSpec Byte64)
  specs_of mgr [] = (mgr, [])
  specs_of mgr (h ∷ hs) =
      let (e, found) = block_of H D W mgr.engine h in
      let (mgr', rest) = specs_of (record mgr { engine = e }) hs in
      elim found [ err _ ↦ (mgr', rest) | ok b ↦ (mgr', wire_spec H W b ∷ rest) ]

  -- A message to a node, whose error is returned.
  unfoldable pub reply :
      CountrManager H D W → NodeId → Message Byte64 → CountrManager H D W × Outcome
  reply mgr to m =
      let (mgr', delivered) = send H D W S mgr to m in
      (mgr', if delivered then done else failed send_failed)

  unfoldable pub handle_blocks_request :
      CountrManager H D W → List Byte64 → NodeId → CountrManager H D W × Outcome
  unfolding specs_of reply
  handle_blocks_request mgr [] to = (mgr, failed invalid_request)
  handle_blocks_request mgr (h ∷ hs) to =
      let (mgr', specs) = specs_of mgr (h ∷ hs) in
      elim specs [
        | [] ↦ (mgr', failed not_found)
        | s ∷ ss ↦ reply mgr' to (get_blocks_response (s ∷ ss))
      ]

  -- The loop of `handleGetBlocksResponseMsg`.
  unfoldable pub take_blocks :
      CountrManager H D W → List (BlockSpec Byte64) → NodeId → CountrManager H D W × Outcome
  unfolding set_last_hash on_result
  take_blocks mgr [] from = (mgr, done)
  take_blocks mgr (spec ∷ specs) from =
      let (e, decoded) = decode_network_block_spec H D W mgr.engine spec in
      let mgr₁ = record mgr { engine = e } in
      elim decoded [
        | err x ↦ (mgr₁, outcome_of x)
        | ok b ↦
            let (mgr₂, h, r) = process_block H D W S mgr₁ b from in
            let (mgr₃, o) = on_result mgr₂ from r in
            elim o [ done ↦ take_blocks (set_last_hash mgr₃ from h) specs from | x ↦ (mgr₃, x) ]
      ]

  unfoldable pub handle_blocks_response :
      CountrManager H D W → List (BlockSpec Byte64) → NodeId → CountrManager H D W × Outcome
  unfolding signal
  handle_blocks_response mgr [] from = (mgr, failed invalid_request)
  handle_blocks_response mgr (spec ∷ specs) from =
      let (mgr', o) = take_blocks mgr (spec ∷ specs) from in
      elim o [ done ↦ signal mgr' from chan_next | x ↦ (mgr', x) ]

  -- The hashes of blocks; a block without one is a nil dereference.
  unfoldable pub hashes_of : List (Block Byte64 World) → Option (List Byte64)
  hashes_of [] = some []
  hashes_of (b ∷ bs) = elim b.hash [
    | none ↦ none
    | some h ↦ elim (hashes_of bs) [ none ↦ none | some hs ↦ some (h ∷ hs) ]
  ]

  -- The end of `handleGetBlockHashesRequestMsg`: the answer, or the message to rewind.
  unfoldable pub answer_hashes :
      CountrManager H D W → List (Block Byte64 World) → NodeId → CountrManager H D W × Outcome
  unfolding hashes_of reply
  answer_hashes mgr [] from = reply mgr from (get_block_hashes_rewind null)
  answer_hashes mgr (b ∷ bs) from = elim (hashes_of (b ∷ bs)) [
    | none ↦ (mgr, panicked)
    | some hs ↦ reply mgr from (get_block_hashes_response hs)
  ]

  -- `handleGetBlockHashesRequestMsg`: an error of `Descendents` is dropped. (Without the fuel that
  -- `Descendents` needs the call is `blocked`.)
  unfoldable pub handle_block_hashes_request :
      CountrManager H D W → Byte64 → ℕ → NodeId → CountrManager H D W × Outcome
  unfolding answer_hashes
  handle_block_hashes_request mgr parent max' from =
      elim (descendents H D W S.fuel mgr.engine parent max') [
        | none ↦ (mgr, blocked)
        | some (bs, some Consensus.panic) ↦ (mgr, panicked)
        | some (bs, _) ↦ answer_hashes mgr bs from
      ]

  unfoldable pub handle_block_hashes_response :
      CountrManager H D W → List Byte64 → NodeId → CountrManager H D W × Outcome
  unfolding signal and_then
  handle_block_hashes_response mgr [] from = signal mgr from chan_done
  handle_block_hashes_response mgr (h ∷ hs) from =
      let (mgr', delivered) = send H D W S mgr from (get_blocks_request (h ∷ hs)) in
      if delivered
      then (mgr', done)
      else and_then (signal mgr' from chan_abort) (failed sync_failed)

  -- A message whose payload cannot be decoded.
  unfoldable pub handle_garbled :
      CountrManager H D W → Code → NodeId → CountrManager H D W × Outcome
  unfolding signal and_then
  handle_garbled mgr block_hashes_request_code from = (mgr, failed sync_failed)
  handle_garbled mgr block_hashes_response_code from =
      and_then (signal mgr from chan_error) (failed sync_failed)
  handle_garbled mgr blocks_request_code from = (mgr, failed sync_failed)
  handle_garbled mgr blocks_response_code from =
      and_then (signal mgr from chan_error) (failed sync_failed)
  handle_garbled mgr new_block_code from = (mgr, failed bad_block)

  -- One round of the loop of `listen`, for the message that was read.
  unfoldable pub handle :
      CountrManager H D W → Message Byte64 → NodeId → CountrManager H D W × Outcome
  handle mgr (get_block_hashes_request parent max') from =
      handle_block_hashes_request mgr parent max' from
  handle mgr (get_block_hashes_response hs) from = handle_block_hashes_response mgr hs from
  handle mgr (get_block_hashes_rewind _) from = handle_rewind mgr from
  handle mgr (get_blocks_request hs) from = handle_blocks_request mgr hs from
  handle mgr (get_blocks_response specs) from = handle_blocks_response mgr specs from
  handle mgr (new_block spec) from = handle_new_block mgr spec from
  handle mgr (garbled code) from = handle_garbled mgr code from
  handle mgr (handshake_status _) from = (mgr, failed unknown_message_type)
  handle mgr unknown from = (mgr, failed unknown_message_type)

  -- `listen`, of the messages that the node sends before the connection ends.
  unfoldable pub listen :
      CountrManager H D W → List (Message Byte64) → NodeId → CountrManager H D W × Outcome
  unfolding handle
  listen mgr [] from = (mgr, failed read_failed)
  listen mgr (m ∷ ms) from =
      let (mgr', o) = handle mgr m from in elim o [ done ↦ listen mgr' ms from | x ↦ (mgr', x) ]

  -- The start of `Run`: the new node, the best block, and the handshake. The result has the best block.
  unfoldable pub connect :
      CountrManager H D W
      → NodeId
      → Reply Byte64
      → CountrManager H D W × Option (Block Byte64 World × Option Error)
  connect mgr id answer =
      let (e, best) = best_block H D W mgr.engine in
      let mgr₁ = record mgr { engine = e; base = set_node mgr.base id (new_node ℕ_discrete) } in
      elim best [
        | none ↦ (mgr₁, none)
        | some b ↦
            let mgr₂ = get_handshake_msg H D W mgr₁ b in
            let (base, failure) =
              Protocol.handshake S.sends dec handshake_status mgr₂.base mgr₂.handshake_msg id
                answer in
            (record mgr₂ { base = base }, some (b, failure))
      ]

  -- The end of `Run`, once the handshake had succeeded.
  unfoldable pub leave : CountrManager H D W → NodeId → CountrManager H D W
  leave mgr id =
      let base = unregister_peer mgr.base id in
      record mgr { base = set_node base id (record (base.heap id) { chan_closed = true }) }
