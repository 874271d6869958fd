-- ===== src/Network/Platform/Handlers.antt =====
-- network/platform.go: the handlers of the messages of a peer, and the listener that calls them.
use go_trust_net.Prelude.{ℕ, Bool, true, false, List, [], ◌∷◌, Option, none, some, if◌then◌else◌}
use go_trust_net.Core.Digest.{Digests}
use go_trust_net.Db.{Database}
use go_trust_net.Consensus.{
  BlockSpec, WorldStates, Block, Key, Value, Result, ok, err, duplicate_block,
}
use go_trust_net.Consensus
use go_trust_net.Consensus.Blocks.{wire_spec}
use go_trust_net.Consensus.Operations.{decode_network_block_spec}
use go_trust_net.Consensus.Reads.{ancestor, best_block, block_of, descendents}
use go_trust_net.Network.Platform.{
  Error, engine, sync_failed, invalid_request, not_found, bad_block, unknown_message_type,
  send_failed, read_failed, Outcome, done, blocked, panicked, failed, chan_error, chan_next,
  chan_abort, chan_retry, chan_done, Code, handshake_code, block_hashes_request_code,
  block_hashes_response_code, blocks_request_code, blocks_response_code, new_block_code, Message,
  handshake, get_block_hashes_request, get_block_hashes_response, get_block_hashes_rewind,
  get_blocks_request, get_blocks_response, new_block, garbled, unknown, PeerId, Platform, Manager,
}
use go_trust_net.Network.Platform.Peers.{set_peer, signal, send}
use go_trust_net.Network.Platform.Process.{process_block}

module _ (H : Digests) (D : Database (Key H.Byte64) (Value H.Byte64)) (W : WorldStates H.Byte64)
    (P : Platform H W) where
  open H use {Byte64, null}
  open W use {World}

  -- What follows a send into a channel: a return with the error.
  unfoldable pub then_fail : Manager H D W × Outcome → Error → Manager H D W × Outcome
  then_fail (mgr, done) x = (mgr, failed x)
  then_fail (mgr, o) x = (mgr, o)

  unfoldable pub set_last_hash : Manager H D W → PeerId → Option Byte64 → Manager H D W
  unfolding set_peer
  set_last_hash mgr id h = set_peer H D W mgr id (record (mgr.heap id) { last_hash = h })

  -- An error of the engine: a nil dereference, or an error that is returned.
  unfoldable pub is_panic : Consensus.Error → Bool
  is_panic Consensus.panic = true
  is_panic _ = false

  unfoldable pub fail_with : Consensus.Error → Outcome
  unfolding is_panic
  fail_with x = if is_panic x then panicked else failed (engine x)

  -- What `processBlock` may return without an effect on the caller: no error, or a duplicate.
  unfoldable pub is_accepted : Result (Unit {0}) → Bool
  is_accepted (ok _) = true
  is_accepted (err duplicate_block) = true
  is_accepted (err _) = false

  -- The end of a handler for a block that was refused: the sync is aborted.
  unfoldable pub refuse : Manager H D W → PeerId → Result (Unit {0}) → Manager H D W × Outcome
  unfolding signal is_panic
  refuse mgr from (ok _) = (mgr, done)
  refuse mgr from (err x) =
      if is_panic x
      then (mgr, panicked)
      else then_fail (signal H D W mgr from chan_error) (engine x)

  -- The end of `handleGetBlockHashesRewindMsg`, from a last hash on.
  unfoldable pub rewind_from : Manager H D W → PeerId → Byte64 → Manager H D W × Outcome
  unfolding set_last_hash signal
  rewind_from mgr from last = elim (ancestor H D W mgr.engine last 10) [
    | err x ↦ (mgr, fail_with x)
    | ok none ↦ (mgr, panicked)
    | ok (some b) ↦ signal H D W (set_last_hash mgr from b.hash) from chan_retry
  ]

  -- `handleGetBlockHashesRewindMsg`.
  unfoldable pub handle_rewind : Manager H D W → PeerId → Manager H D W × Outcome
  unfolding rewind_from
  handle_rewind mgr from = elim (mgr.heap from).last_hash [
    | some last ↦ rewind_from mgr from last
    | none ↦
        let (e, best) = best_block H D W mgr.engine in
        let mgr₁ = record mgr { engine = e } in
        elim best [
          | none ↦ (mgr₁, panicked)
          | some b ↦ elim b.hash [
            | none ↦ (set_last_hash mgr₁ from none, panicked)
            | some h ↦ rewind_from (set_last_hash mgr₁ from (some h)) from h
          ]
        ]
  ]

  -- `handleNewBlockMsg`.
  unfoldable pub handle_new_block :
      Manager H D W → BlockSpec Byte64 → PeerId → Manager H D W × Outcome
  unfolding refuse
  handle_new_block mgr spec from =
      let (e, decoded) = decode_network_block_spec H D W mgr.engine spec in
      let mgr₁ = record mgr { engine = e } in
      elim decoded [
        | err x ↦ (mgr₁, failed bad_block)
        | ok b ↦
            let (mgr₂, _, r) = process_block H D W P mgr₁ b from in
            if is_accepted r then (mgr₂, done) else refuse mgr₂ from r
      ]

  -- The loop of `handleGetBlocksRequestMsg`: the blocks that are found.
  unfoldable pub specs_of : Manager H D W → List Byte64 → Manager H D W × List (BlockSpec Byte64)
  specs_of mgr [] = (mgr, [])
  specs_of mgr (h ∷ hs) =
      let (e, found) = block_of H D W mgr.engine h in
      let (mgr', rest) = specs_of (record mgr { engine = e }) hs in
      elim found [ err _ ↦ (mgr', rest) | ok b ↦ (mgr', wire_spec H W b ∷ rest) ]

  unfoldable pub handle_blocks_request :
      Manager H D W → List Byte64 → PeerId → Manager H D W × Outcome
  unfolding specs_of send
  handle_blocks_request mgr [] to = (mgr, failed invalid_request)
  handle_blocks_request mgr (h ∷ hs) to =
      let (mgr₁, specs) = specs_of mgr (h ∷ hs) in
      elim specs [
        | [] ↦ (mgr₁, failed not_found)
        | s ∷ ss ↦
            let (mgr₂, delivered) = send H D W P mgr₁ to (get_blocks_response (s ∷ ss)) in
            (mgr₂, if delivered then done else failed send_failed)
      ]

  -- The loop of `handleGetBlocksResponseMsg`.
  unfoldable pub take_blocks :
      Manager H D W → List (BlockSpec Byte64) → PeerId → Manager H D W × Outcome
  unfolding set_last_hash refuse
  take_blocks mgr [] from = (mgr, done)
  take_blocks mgr (spec ∷ specs) from =
      let (e, decoded) = decode_network_block_spec H D W mgr.engine spec in
      let mgr₁ = record mgr { engine = e } in
      elim decoded [
        | err x ↦ (mgr₁, fail_with x)
        | ok b ↦
            let (mgr₂, h, r) = process_block H D W P mgr₁ b from in
            elim (is_accepted r) [
              | false ↦ refuse mgr₂ from r
              | true ↦ take_blocks (set_last_hash mgr₂ from h) specs from
            ]
      ]

  unfoldable pub handle_blocks_response :
      Manager H D W → List (BlockSpec Byte64) → PeerId → Manager H D W × Outcome
  unfolding signal
  handle_blocks_response mgr [] from = (mgr, failed invalid_request)
  handle_blocks_response mgr (spec ∷ specs) from =
      let (mgr', o) = take_blocks mgr (spec ∷ specs) from in
      elim o [ done ↦ signal H D W mgr' from chan_next | x ↦ (mgr', x) ]

  -- The hashes of blocks; a block without one is a nil dereference.
  unfoldable pub hashes_of : List (Block Byte64 World) → Option (List Byte64)
  hashes_of [] = some []
  hashes_of (b ∷ bs) = elim b.hash [
    | none ↦ none
    | some h ↦ elim (hashes_of bs) [ none ↦ none | some hs ↦ some (h ∷ hs) ]
  ]

  -- The end of `handleGetBlockHashesRequestMsg`: the answer, or the message to rewind.
  unfoldable pub answer_hashes :
      Manager H D W → List (Block Byte64 World) → PeerId → Manager H D W × Outcome
  unfolding hashes_of send
  answer_hashes mgr [] from =
      let (mgr', delivered) = send H D W P mgr from (get_block_hashes_rewind null) in
      (mgr', if delivered then done else failed send_failed)
  answer_hashes mgr (b ∷ bs) from = elim (hashes_of (b ∷ bs)) [
    | none ↦ (mgr, panicked)
    | some hs ↦
        let (mgr', delivered) = send H D W P mgr from (get_block_hashes_response hs) in
        (mgr', if delivered then done else failed send_failed)
  ]

  -- `handleGetBlockHashesRequestMsg`; an error of `Descendents` other than a panic is dropped. (Without
  -- the fuel that `Descendents` needs the call is `blocked`.)
  unfoldable pub handle_block_hashes_request :
      Manager H D W → Byte64 → ℕ → PeerId → Manager H D W × Outcome
  unfolding answer_hashes
  handle_block_hashes_request mgr parent max' from =
      elim (descendents H D W P.fuel mgr.engine parent max') [
        | none ↦ (mgr, blocked)
        | some (bs, x) ↦
            if elim x [ none ↦ false | some y ↦ is_panic y ]
            then (mgr, panicked)
            else answer_hashes mgr bs from
      ]

  -- `handleGetBlockHashesResponseMsg`.
  unfoldable pub handle_block_hashes_response :
      Manager H D W → List Byte64 → PeerId → Manager H D W × Outcome
  unfolding signal send then_fail
  handle_block_hashes_response mgr [] from = signal H D W mgr from chan_done
  handle_block_hashes_response mgr (h ∷ hs) from =
      let (mgr', delivered) = send H D W P mgr from (get_blocks_request (h ∷ hs)) in
      if delivered then (mgr', done) else then_fail (signal H D W mgr' from chan_abort) sync_failed

  -- A message whose payload cannot be decoded.
  unfoldable pub handle_garbled : Manager H D W → Code → PeerId → Manager H D W × Outcome
  unfolding signal then_fail
  handle_garbled mgr handshake_code from = (mgr, failed unknown_message_type)
  handle_garbled mgr block_hashes_request_code from = (mgr, failed sync_failed)
  handle_garbled mgr block_hashes_response_code from =
      then_fail (signal H D W mgr from chan_error) sync_failed
  handle_garbled mgr blocks_request_code from = (mgr, failed sync_failed)
  handle_garbled mgr blocks_response_code from =
      then_fail (signal H D W mgr from chan_error) sync_failed
  handle_garbled mgr new_block_code from = (mgr, failed bad_block)

  -- One round of the loop of `listen`, for the message that was read.
  unfoldable pub handle : Manager H D W → Message Byte64 → PeerId → Manager H D W × Outcome
  handle mgr (get_block_hashes_request parent max') from =
      handle_block_hashes_request mgr parent max' from
  handle mgr (get_block_hashes_response hs) from = handle_block_hashes_response mgr hs from
  handle mgr (get_block_hashes_rewind _) from = handle_rewind mgr from
  handle mgr (get_blocks_request hs) from = handle_blocks_request mgr hs from
  handle mgr (get_blocks_response specs) from = handle_blocks_response mgr specs from
  handle mgr (new_block spec) from = handle_new_block mgr spec from
  handle mgr (garbled code) from = handle_garbled mgr code from
  handle mgr (handshake _) from = (mgr, failed unknown_message_type)
  handle mgr unknown from = (mgr, failed unknown_message_type)

  -- `listen`, of the messages that the peer sends before the connection ends.
  unfoldable pub listen : Manager H D W → List (Message Byte64) → PeerId → Manager H D W × Outcome
  unfolding handle
  listen mgr [] from = (mgr, failed read_failed)
  listen mgr (m ∷ ms) from =
      let (mgr', o) = handle mgr m from in elim o [ done ↦ listen mgr' ms from | x ↦ (mgr', x) ]
