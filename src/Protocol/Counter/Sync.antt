-- ===== src/Protocol/Counter/Sync.antt =====
-- protocol/counter/manager.go: `syncNode`, the goroutine that fetches the blocks of a better node, step by
-- step: between two steps the listener of the same connection runs, which feeds the channel it reads.
use go_trust_net.Prelude.{Bool, true, false, [], ◌∷◌, Option, none, some, if◌then◌else◌}
use go_trust_net.Core.Digest.{Digests}
use go_trust_net.Db.{Database}
use go_trust_net.Consensus.{WorldStates, Block, Key, Value}
use go_trust_net.Consensus.Reads.{best_block}
use go_trust_net.Protocol.{
  sync_failed, NodeId, Signal, chan_error, chan_next, chan_abort, chan_retry, chan_done, set_node,
}
use go_trust_net.Protocol.Counter.{
  get_block_hashes_request, Outcome, done, panicked, failed, CountrManager, Surroundings,
  max_blocks, is_sync_needed,
}
use go_trust_net.Protocol.Counter.Blocks.{send}
use go_trust_net.Protocol.Counter.Handlers.{set_last_hash}

-- Where the goroutine stands: at a request, at the read of the channel, or at its end.
pub data Stage : Type 0 where
  requesting waiting : Stage
  finished : Outcome → Stage

module _ (H : Digests) (D : Database (Key H.Byte64) (Value H.Byte64)) (W : WorldStates H.Byte64)
    (S : Surroundings) where
  open H use {Byte64}
  open W use {World}

  -- `isSyncNeeded` of a node; without a status it is a nil dereference.
  unfoldable pub needs_sync : CountrManager H D W → Block Byte64 World → NodeId → Option Bool
  needs_sync mgr best id = elim (mgr.base.heap id).status [
    | none ↦ none
    | some status ↦ some (is_sync_needed H D W best status)
  ]

  -- The test of the loop.
  unfoldable pub loop_head : CountrManager H D W → Block Byte64 World → NodeId → Stage
  unfolding needs_sync
  loop_head mgr best id =
      if mgr.is_in_shutdown then finished done else elim (needs_sync mgr best id) [
        | none ↦ finished panicked
        | some true ↦ requesting
        | some false ↦ finished done
      ]

  -- The start of `syncNode`, with the best block from before the handshake.
  unfoldable pub begin_sync :
      CountrManager H D W → Block Byte64 World → NodeId → CountrManager H D W × Stage
  unfolding needs_sync set_last_hash loop_head
  begin_sync mgr best id = elim (needs_sync mgr best id) [
    | none ↦ (mgr, finished panicked)
    | some false ↦ (mgr, finished done)
    | some true ↦
        let mgr' = set_last_hash H D W S mgr id best.hash in (mgr', loop_head mgr' best id)
  ]

  -- The request to the node.
  unfoldable pub request : CountrManager H D W → NodeId → CountrManager H D W × Stage
  request mgr id = elim (mgr.base.heap id).last_hash [
    | none ↦ (mgr, finished panicked)
    | some h ↦
        let (mgr', delivered) = send H D W S mgr id (get_block_hashes_request h max_blocks) in
        (mgr', if delivered then waiting else finished (failed sync_failed))
  ]

  -- The end of a round.
  unfoldable pub next_round : CountrManager H D W → NodeId → CountrManager H D W × Stage
  unfolding loop_head
  next_round mgr id =
      let (e, best) = best_block H D W mgr.engine in
      let mgr' = record mgr { engine = e } in
      if mgr.is_in_shutdown
      then (mgr, finished done)
      else elim best [ none ↦ (mgr', finished panicked) | some b ↦ (mgr', loop_head mgr' b id) ]

  -- The switch on the value that was read.
  unfoldable pub on_signal : CountrManager H D W → NodeId → Signal → CountrManager H D W × Stage
  unfolding next_round
  on_signal mgr id chan_error = (mgr, finished (failed sync_failed))
  on_signal mgr id chan_abort = (mgr, finished (failed sync_failed))
  on_signal mgr id chan_done = (mgr, finished done)
  on_signal mgr id chan_next = next_round mgr id
  on_signal mgr id chan_retry = next_round mgr id

  -- The read of the channel: it waits for a value, and a closed channel without one gives the value 0,
  -- which is `CHAN_ERROR`.
  unfoldable pub receive : CountrManager H D W → NodeId → CountrManager H D W × Stage
  unfolding on_signal
  receive mgr id =
      let n = mgr.base.heap id in
      elim n.get_block_hashes_chan [
        | [] ↦ if n.chan_closed then on_signal mgr id chan_error else (mgr, waiting)
        | s ∷ ss ↦
            on_signal
              (record mgr { base = set_node mgr.base id (record n { get_block_hashes_chan = ss }) })
              id s
      ]

  -- One step of the goroutine.
  unfoldable pub sync_step : CountrManager H D W → NodeId → Stage → CountrManager H D W × Stage
  unfolding request receive
  sync_step mgr id requesting = request mgr id
  sync_step mgr id waiting = receive mgr id
  sync_step mgr id (finished o) = (mgr, finished o)
