-- ===== src/Network/Platform/Sync.antt =====
-- network/platform.go: `syncNode`, the goroutine that fetches the blocks of a better peer. Between its
-- steps the listener of the same connection runs, which feeds the channel that it reads; so each step
-- stands by itself.
use go_trust_net.Prelude.{
  suc, ℕ, Bool, true, false, List, [], ◌∷◌, Option, none, some, if◌then◌else◌,
}
use go_trust_net.Core.Digest.{Digests}
use go_trust_net.Db.{Database}
use go_trust_net.Consensus.{WorldStates, Block, Key, Value, ok, err}
use go_trust_net.Consensus.Blocks.{wire_spec}
use go_trust_net.Consensus.Operations.{new_candidate_block}
use go_trust_net.Consensus.Reads.{best_block, block_of}
use go_trust_net.Network.Platform.{
  sync_failed, Outcome, done, blocked, panicked, failed, Signal, chan_error, chan_next, chan_abort,
  chan_retry, chan_done, get_block_hashes_request, new_block, PeerId, Platform, Manager,
  max_request,
}
use go_trust_net.Network.Platform.Lifecycle.{start, suspend}
use go_trust_net.Network.Platform.Peers.{set_peer, send, mark_seen, is_sync_needed}
use go_trust_net.Network.Platform.Handlers.{set_last_hash, fail_with}

-- Where the goroutine stands: at the head of its loop, at the read of the channel, or at its end.
pub data Stage : Type 0 where
  requesting waiting : Stage
  finished : Outcome → Stage

module _ (H : Digests) (D : Database (Key H.Byte64) (Value H.Byte64)) (W : WorldStates H.Byte64)
    (P : Platform H W) where
  open H use {Byte64}
  open W use {World}

  -- `isSyncNeeded` of a peer; without a status it is a nil dereference.
  unfoldable pub needs_sync : Manager H D W → Block Byte64 World → PeerId → Option Bool
  needs_sync mgr best from = elim (mgr.heap from).status [
    | none ↦ none
    | some status ↦ some (is_sync_needed H D W best status)
  ]

  -- The start of `syncNode`, with the best block from before the handshake.
  unfoldable pub begin_sync : Manager H D W → Block Byte64 World → PeerId → Manager H D W × Stage
  unfolding needs_sync set_last_hash
  begin_sync mgr best from =
      let mgr' = set_last_hash H D W P mgr from best.hash in
      elim (needs_sync mgr best from) [
        | none ↦ (mgr', finished panicked)
        | some true ↦ (mgr', requesting)
        | some false ↦ (mgr', finished done)
      ]

  -- `suspend`, if the producer runs; its error is dropped, and a call that waits is `blocked`.
  unfoldable pub pause : Manager H D W → Manager H D W × Outcome
  unfolding suspend
  pause mgr = if mgr.is_running then suspend H D W mgr else (mgr, done)

  -- The head of the loop: the request to the peer.
  unfoldable pub request : Manager H D W → PeerId → Manager H D W × Stage
  unfolding pause
  request mgr from =
      let (mgr₁, o) = pause mgr in
      elim o [
        | blocked ↦ (mgr₁, finished blocked)
        | _ ↦ elim (mgr₁.heap from).last_hash [
          | none ↦ (mgr₁, finished panicked)
          | some h ↦
              let (mgr₂, delivered) =
                send H D W P mgr₁ from (get_block_hashes_request h max_request) in
              (mgr₂, if delivered then waiting else finished (failed sync_failed))
        ]
      ]

  -- The loop that announces the uncles of the next candidate block.
  unfoldable pub announce : Manager H D W → List Byte64 → PeerId → Manager H D W × Outcome
  announce mgr [] from = (mgr, done)
  announce mgr (u ∷ us) from =
      let (e, found) = block_of H D W mgr.engine u in
      let mgr₁ = record mgr { engine = e } in
      elim found [
        | err x ↦ (mgr₁, fail_with H D W P x)
        | ok b ↦
            announce
              (send H D W P
                (mark_seen H D W P (record mgr₁ { refs = suc mgr₁.refs }) from mgr₁.refs) from
                (new_block (wire_spec H W b))).0
              us from
      ]

  -- The end of `syncNode`, at the time `now`: production resumes.
  unfoldable pub finish_sync : ℕ → Manager H D W → PeerId → Manager H D W × Outcome
  unfolding announce start
  finish_sync now mgr from =
      let (e, candidate) = new_candidate_block H D W now mgr.engine in
      let mgr₁ = record mgr { engine = e } in
      elim candidate [
        | none ↦ (mgr₁, panicked)
        | some b ↦
            let (mgr₂, o) = announce mgr₁ b.spec.uncles from in
            elim o [
              | done ↦ if mgr₂.is_running then (mgr₂, done) else ((start H D W mgr₂).0, done)
              | x ↦ (mgr₂, x)
            ]
      ]

  -- The end of a round: the loop goes on, or is left.
  unfoldable pub next_round : ℕ → Manager H D W → PeerId → Manager H D W × Stage
  unfolding needs_sync finish_sync
  next_round now mgr from =
      let (e, best) = best_block H D W mgr.engine in
      let mgr₁ = record mgr { engine = e } in
      elim best [
        | none ↦ (mgr₁, finished panicked)
        | some b ↦ elim (needs_sync mgr₁ b from) [
          | none ↦ (mgr₁, finished panicked)
          | some true ↦ (mgr₁, requesting)
          | some false ↦ let (mgr₂, o) = finish_sync now mgr₁ from in (mgr₂, finished o)
        ]
      ]

  -- The switch on the value that was read.
  unfoldable pub on_signal : ℕ → Manager H D W → PeerId → Signal → Manager H D W × Stage
  unfolding next_round
  on_signal now mgr from chan_error = (mgr, finished (failed sync_failed))
  on_signal now mgr from chan_abort = (mgr, finished (failed sync_failed))
  on_signal now mgr from chan_done = (mgr, finished done)
  on_signal now mgr from chan_next = next_round now mgr from
  on_signal now mgr from chan_retry = next_round now mgr from

  -- The read of the channel: it waits for a value, and a closed channel without one gives the value 0,
  -- which is `CHAN_ERROR`.
  unfoldable pub receive : ℕ → Manager H D W → PeerId → Manager H D W × Stage
  unfolding on_signal set_peer
  receive now mgr from =
      let p = mgr.heap from in
      elim p.get_block_hashes_chan [
        | [] ↦ if p.chan_closed then on_signal now mgr from chan_error else (mgr, waiting)
        | s ∷ ss ↦
            on_signal now (set_peer H D W mgr from (record p { get_block_hashes_chan = ss })) from s
      ]

  -- One step of the goroutine.
  unfoldable pub sync_step : ℕ → Manager H D W → PeerId → Stage → Manager H D W × Stage
  unfolding request receive
  sync_step now mgr from requesting = request mgr from
  sync_step now mgr from waiting = receive now mgr from
  sync_step now mgr from (finished o) = (mgr, finished o)
