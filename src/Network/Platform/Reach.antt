-- ===== src/Network/Platform/Reach.antt =====
-- network/platform.go: the steps of the goroutines of a platform manager. The callers of its interface,
-- the producer, and the listener and the sync of each connection take them in any order. A step is a
-- call, or one round of a loop, and is taken as a whole.
use go_trust_net.Prelude.{ℕ, ◌<◌, ◌==◌, List, Option, if◌then◌else◌}
use go_trust_net.Core.Digest.{Digests}
use go_trust_net.Db.{Database}
use go_trust_net.Consensus.{Transaction, WorldStates, Block, Key, Value, Engine}
use go_trust_net.Network.Platform.{
  Outcome, AppConfig, HandshakeMsg, Message, PeerId, Platform, Manager,
}
use go_trust_net.Network.Platform.Lifecycle.{
  new_peer, new_manager, start, suspend, stop, tx_status, submit,
}
use go_trust_net.Network.Platform.Peers.{set_peer, perform_handshake, end_connection, disconnect}
use go_trust_net.Network.Platform.Handlers.{handle}
use go_trust_net.Network.Platform.Sync.{Stage, begin_sync, sync_step}
use go_trust_net.Network.Platform.Producer.{Candidate, no_candidate, on_tx, on_timer}

module _ (H : Digests) (D : Database (Key H.Byte64) (Value H.Byte64))
    (W : WorldStates H.Byte64) where
  open H use {Byte64}
  open W use {World}

  -- A manager, with the variables of its producer.
  pub record Running : Type 0 where
    pub manager : Manager H D W
    pub candidate : Candidate Byte64 World

  unfoldable pub begin : AppConfig → Engine H D W → Running
  unfolding new_manager no_candidate
  begin config e = record { manager = new_manager H D W config e; candidate = no_candidate }

  -- The manager after a step. Where a producer has ended or started, its variables are the first ones.
  unfoldable pub after : Running → Manager H D W → Running
  unfolding no_candidate
  after s mgr =
      if mgr.producers == s.manager.producers
      then record s { manager = mgr }
      else record { manager = mgr; candidate = no_candidate }

  module _ (P : Platform H W) where
    unfoldable pub produce : Running → Manager H D W × Candidate Byte64 World × Outcome → Running
    produce s (mgr, c, o) = record { manager = mgr; candidate = c }

    pub data Step : Running → Running → Type 0 where
      start_step : (s : Running) → Step s (after s (start H D W s.manager).0)
      suspend_step : (s : Running) → Step s (after s (suspend H D W s.manager).0)
      stop_step : (s : Running) → Step s (after s (stop H D W s.manager).0)
      status_step : (s : Running) (id : Byte64) → Step s (after s (tx_status H D W s.manager id).0)
      submit_step :
          (s : Running) (tx : Transaction) → Step s (after s (submit H D W s.manager tx).0)
      disconnect_step :
          (s : Running) (id : PeerId) → Step s (after s (disconnect H D W P s.manager id).0)
      connect_step :
          (s : Running) (id : PeerId) (node_id name : List ℕ)
          → Step s (after s (set_peer H D W s.manager id (new_peer H node_id name)))
      handshake_step :
          (s : Running) (status : HandshakeMsg Byte64) (id : PeerId)
          (reply : Option (Message Byte64))
          → Step s (after s (perform_handshake H D W P s.manager status id reply).0)
      end_step :
          (s : Running) (id : PeerId) → Step s (after s (end_connection H D W P s.manager id))
      listen_step :
          (s : Running) (m : Message Byte64) (from : PeerId)
          → Step s (after s (handle H D W P s.manager m from).0)
      begin_sync_step :
          (s : Running) (best : Block Byte64 World) (from : PeerId)
          → Step s (after s (begin_sync H D W P s.manager best from).0)
      sync_step_step :
          (s : Running) (now : ℕ) (from : PeerId) (stage : Stage)
          → Step s (after s (sync_step H D W P now s.manager from stage).0)
      on_tx_step :
          (s : Running) (now : ℕ)
          → 0 < s.manager.producers
          → Step s (produce s (on_tx H D W P now s.manager s.candidate))
      on_timer_step :
          (s : Running)
          → 0 < s.manager.producers
          → Step s (produce s (on_timer H D W P s.manager s.candidate))

    -- The states that a platform gets to from one that has just been made.
    pub data Reachable (config : AppConfig) (e : Engine H D W) : Running → Type 0 where
      made : Reachable config e (begin config e)
      step : {s s' : Running} → Reachable config e s → Step s s' → Reachable config e s'
