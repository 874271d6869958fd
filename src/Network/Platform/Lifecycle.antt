-- ===== src/Network/Platform/Lifecycle.antt =====
-- network/platform.go: starting and stopping the block producer, and the status of transactions.
use go_trust_net.Prelude.{
  ℕ_discrete, ℕ, zero, suc, ◌+◌, ltb, true, false, List, [], ◌∷◌, ◌++◌, length, Option, none, some,
  if◌then◌else◌,
}
use go_trust_net.Core.Digest.{Digests}
use go_trust_net.Db.{Database}
use go_trust_net.Consensus.{
  Transaction, WorldStates, Block, Key, Value, Engine, Result, err, tx_not_applied,
}
use go_trust_net.Consensus.Blocks.{tx_id, has_hash}
use go_trust_net.Consensus.Reads.{status}
use go_trust_net.Common.Set.{remove_one}
use go_trust_net.Db.PeerSet.{new_peer_set_db}
use go_trust_net.Network.PeerNode.{new_peer_node}
use go_trust_net.Network.Platform.{
  duplicate_start, duplicate_suspend, Outcome, done, blocked, failed, AppConfig, Peer, pos, Manager,
  tx_queue_size,
}

-- `NewPeerNode`, of a peer with this id and this name.
module _ (H : Digests) where
  unfoldable pub new_peer : List ℕ → List ℕ → Peer H.Byte64
  unfolding new_peer_node
  new_peer node_id name = record {
    known = new_peer_node ℕ_discrete;
    status = none;
    get_block_hashes_chan = [];
    chan_closed = false;
    last_hash = none;
    node_id = node_id;
    name = name;
  }

module _ (H : Digests) (D : Database (Key H.Byte64) (Value H.Byte64))
    (W : WorldStates H.Byte64) where
  open H use {Byte64, dec}
  open W use {World}

  -- `NewPlatformManager`, once the engine is there.
  unfoldable pub new_manager : AppConfig → Engine H D W → Manager H D W
  unfolding new_peer
  new_manager config e = record {
    config = config;
    genesis = e.genesis_node.hash;
    engine = e;
    tx_q = [];
    peer_db = new_peer_set_db;
    dead_txs = [];
    peers = [];
    peer_count = pos 0;
    is_running = false;
    producers = 0;
    waiting = 0;
    heap = λ id. new_peer H [] [];
    sent = [];
    refs = 0;
  }

  -- The new producer, while `n` calls wait in their sends into `shutdownBlockProducer`. If one does, the
  -- producer takes its value and returns, and that call goes on, at whose end `isRunning` is false.
  unfoldable pub spawn : ℕ → Manager H D W → Manager H D W
  spawn zero mgr = record mgr { producers = mgr.producers + 1; is_running = true }
  spawn (suc n) mgr = record mgr { waiting = n; is_running = false }

  unfoldable pub start : Manager H D W → Manager H D W × Outcome
  unfolding spawn
  start mgr =
      if mgr.is_running then (mgr, failed duplicate_start) else (spawn mgr.waiting mgr, done)

  -- `shutdownBlockProducer <- true`, and what the caller writes after it: a producer takes the value and
  -- returns; without one the call waits, until a producer is started.
  unfoldable pub shut_down : Manager H D W → Manager H D W × Outcome
  shut_down mgr = elim mgr.producers [
    | zero ↦ (record mgr { waiting = mgr.waiting + 1 }, blocked)
    | suc n ↦ (record mgr { producers = n; is_running = false }, done)
  ]

  unfoldable pub suspend : Manager H D W → Manager H D W × Outcome
  unfolding shut_down
  suspend mgr = if mgr.is_running then shut_down mgr else (mgr, failed duplicate_suspend)

  -- `Stop`, but for the closing of the server, which comes before the write of `isRunning`, and of the
  -- store.
  unfoldable pub stop : Manager H D W → Manager H D W × Outcome
  unfolding shut_down
  stop mgr = shut_down mgr

  -- `Status`: a dead transaction is reported once.
  unfoldable pub tx_status : Manager H D W → Byte64 → Manager H D W × Result (Block Byte64 World)
  tx_status mgr id =
      if has_hash H W id mgr.dead_txs
      then (record mgr { dead_txs = remove_one dec mgr.dead_txs id }, err tx_not_applied)
      else (mgr, status H D W mgr.engine id)

  -- `Submit` of a transaction that has been made: the queue has room for ten, and a call that finds it
  -- full waits. The id is returned.
  unfoldable pub submit : Manager H D W → Transaction → Manager H D W × Option Byte64
  submit mgr tx =
      if ltb (length mgr.tx_q) tx_queue_size
      then (record mgr { tx_q = mgr.tx_q ++ tx ∷ [] }, some (tx_id H W tx))
      else (mgr, none)
