-- ===== src/Tests/Platform.antt =====
-- network/platform.go and db/peerSetDbInMem.go at concrete inputs: a platform with two peers, of which one
-- cannot be reached.
use go_trust_net.Prelude.{
  ℕ, ◌==◌, ◌-◌, ltb, true, false, List, [], ◌∷◌, ◌++◌, length, All, none, some, ite, ◌≡◌, ◌≢◌, ◌⊎◌,
  refl, ℕ_discrete,
}
use go_trust_net.Consensus.{Transaction, Block, ok}
use go_trust_net.Consensus.Blocks.{
  clone, wire_spec, numeric, sum_bytes, de_serialize_block, new_block, add_uncle, bytes_dec,
}
use go_trust_net.Consensus.Operations.{add_uncles, new_candidate_block}
use go_trust_net.Db.PeerSet.{
  PeerSetDb, peer_node_for_id, register_peer_node, un_register_peer_node_for_id, have_i_seen_it,
}
use go_trust_net.Db.PeerSet.Lookup.{register-lookup, seen-twice}
use go_trust_net.Network.Platform
use go_trust_net.Network.Platform.{
  max_tx_count, AppConfig, HandshakeMsg, handshake, Outcome, done, blocked, failed,
  duplicate_suspend, Signal, PeerId, Platform, Manager,
}
use go_trust_net.Network.Platform.Lifecycle.{new_peer, new_manager, start}
use go_trust_net.Network.Platform.Peers.{
  perform_handshake, set_peer, mark_seen, send, broadcast, get_handshake_msg, is_sync_needed,
  register_peer,
}
use go_trust_net.Network.Platform.Process.{forward_block, process_block}
use go_trust_net.Network.Platform.Sync.{
  begin_sync, needs_sync, requesting, finished, next_round, on_signal, sync_step,
}
use go_trust_net.Network.Platform.Producer.{mine, on_timer, put_tx, add_dropping}
use go_trust_net.Network.Platform.Reach.{
  Running, begin, after, Reachable, made, step, start_step, handshake_step,
}
use go_trust_net.Network.Platform.Invariant.{Sound, Reachable-Sound}
use go_trust_net.Network.Platform.Production.{
  Halting, Ends, Reachable-stops, caught_up, all_read, Resumes, request-suspended,
  next_round-running,
}
use go_trust_net.Network.Platform.Flood.{knows, targets, delivered, broadcast-once}
use go_trust_net.Network.Platform.Join.{Choice, begin_sync-Choice}
use go_trust_net.Network.Platform.Sound.{Relayed, Refused, process_block-Relayed}
use go_trust_net.Network.Platform.Spread.{everyone, others, Mined, Reachable-spread}
use go_trust_net.Tests.{digests, list_dec}
use go_trust_net.Consensus.Store.{
  get_chain_node, get_block, or_else, find_uncles, find_non_direct_ancestors, uncles_among, without,
}
use go_trust_net.Consensus.Validate.{climb, meet, uncle_distance, is_uncle_valid}
use go_trust_net.Consensus.Reads.{best_block, block_of}
use go_trust_net.Tests.Chain.{find, key_decidable, worlds, D, engine, second, fourth}
use go_trust_net.Tests.Rewards.{codec, received, reward}

abbrev pub platform : Platform digests worlds
platform = record {
  tx_processor = λ t b tx. (b, true);
  pow_approver = λ h ts parent_ts. true;
  peer_validator = λ config. true;
  codec = codec;
  address = 20 ∷ [];
  sends = λ id. length id == 1;
  picks = λ id. record { first = 0; second = 0; third = 0 };
  fuel = 10;
  rounds = 3;
}

abbrev config : AppConfig
config = record { network_id = 7 ∷ []; node_id = 1 ∷ []; node_name = []; protocol_id = [] }

-- The status of a peer at block 4.
abbrev theirs : HandshakeMsg (List ℕ)
theirs = record {
  network_id = 7 ∷ [];
  genesis = 1 ∷ [];
  protocol_id = [];
  total_weight = 3;
  tip_numeric = 4;
}

abbrev fresh : Manager digests D worlds
fresh = new_manager digests D worlds config engine

abbrev near : PeerId
near = 5 ∷ []

abbrev far : PeerId
far = 6 ∷ 6 ∷ []

abbrev joined : Manager digests D worlds
joined =
    register_peer digests D worlds platform
      (register_peer digests D worlds platform fresh near theirs config) far theirs config

-- A platform that has let in a peer whose best block is block 4.
abbrev behind : Manager digests D worlds
behind =
    register_peer digests D worlds platform fresh near
      (get_handshake_msg digests D worlds platform fresh fourth) config

known : (behind.heap near).status ≡ some (get_handshake_msg digests D worlds platform fresh fourth)
unfolding register_peer set_peer bytes_dec ℕ_discrete
known = refl

begin_sync-Choice_example :
    Choice digests D worlds platform behind near second fourth
      (begin_sync digests D worlds platform behind second near)
begin_sync-Choice_example =
    begin_sync-Choice digests D worlds platform behind fresh second fourth near known

broadcast-once_example :
    (let ids = targets digests D worlds joined 0 in
      let (mgr', n) = broadcast digests D worlds platform joined fourth 0 in
      (mgr'.sent
        ≡ joined.sent
          ++ delivered platform.sends
              (go_trust_net.Network.Platform.new_block (wire_spec digests worlds fourth))
              ids)
      × (n ≡ length ids)
      × All (λ id. knows digests D worlds mgr' 0 id ≡ true) ids
      × (broadcast digests D worlds platform mgr' second 0 ≡ (mgr', 0)))
broadcast-once_example = broadcast-once digests D worlds platform joined fourth second 0

-- A block with a reward and one transaction.
abbrev offered : Block (List ℕ) (List ℕ)
offered = record received { spec = record (received.spec) { txs = reward ∷ reward ∷ [] } }

process_block-Relayed_example :
    (let r = process_block digests D worlds platform joined offered near in
      Relayed digests D worlds platform joined offered r
      ⊎ Refused digests D worlds platform joined r)
process_block-Relayed_example = process_block-Relayed digests D worlds platform joined offered near

-- A platform that has been made and started, and has let a peer in.
abbrev one : Running digests D worlds
one = after digests D worlds (begin digests D worlds config engine) (start digests D worlds fresh).0

begun : Reachable digests D worlds platform config engine one
unfolding begin
begun = step made (start_step (begin digests D worlds config engine))

Reachable-Sound_example : Sound digests D worlds one
Reachable-Sound_example = Reachable-Sound digests D worlds platform begun

Reachable-stops_example : Halting digests D worlds platform one.manager
Reachable-stops_example = Reachable-stops digests D worlds platform begun

request-suspended_example :
    (let mgr = (sync_step digests D worlds platform 2000 one.manager near requesting).0 in
      (mgr.is_running ≡ false)
      × ((sg : Signal)
          → Ends digests D worlds platform sg
          → (o : Outcome) × (on_signal digests D worlds platform 2000 mgr near sg
              ≡ (mgr, finished o))))
request-suspended_example = request-suspended digests D worlds platform 2000 near begun

abbrev two : Running digests D worlds
two =
    after digests D worlds one
      (perform_handshake digests D worlds platform one.manager theirs near
        (some (handshake theirs))).0

Reachable-spread_example :
    (let mgr = two.manager in
      let all = everyone mgr.peer_db.nodes in
      let m = go_trust_net.Network.Platform.new_block (wire_spec digests worlds fourth) in
      let forwarded = forward_block digests D worlds platform mgr fourth (4 ∷ []) near in
      Mined digests D worlds platform mgr fourth (mine digests D worlds platform mgr fourth)
      × ((n : ℕ)
          → ltb 1 (length fourth.spec.txs) ≡ true
          → (let r =
                on_timer digests D worlds platform mgr
                  (record { new_block = some fourth; tx_count = n }) in
              Mined digests D worlds platform mgr fourth (r.0, r.2)))
      × ((tx : Transaction) (b₂ : Block (List ℕ) (List ℕ))
          → (platform.tx_processor mgr.engine.tables fourth tx).1 ≡ true
          → add_dropping digests D worlds platform mgr
              (platform.tx_processor mgr.engine.tables fourth tx).0
              tx
            ≡ some b₂
          → (let r = put_tx digests D worlds platform mgr fourth (max_tx_count - 1) tx in
              Mined digests D worlds platform mgr b₂ (r.0, r.2)))
      × ((have_i_seen_it list_dec mgr.peer_db (4 ∷ [])).1 ≡ false
          → (forwarded.1 ≡ ok tt)
            × (forwarded.0.sent ≡ mgr.sent ++ delivered platform.sends m (others near all))))
Reachable-spread_example =
    Reachable-spread digests D worlds platform fourth (4 ∷ []) near
      (step begun (handshake_step one theirs near (some (handshake theirs))))

-- The peer has the own best block.
abbrev level : Manager digests D worlds
level =
    register_peer digests D worlds platform fresh near
      (record theirs { total_weight = 1; tip_numeric = 2 }) config

last_round : caught_up digests D worlds platform 2000 level near ≡ true
unfolding find ℕ_discrete list_dec key_decidable get_chain_node get_block climb meet uncle_distance
    is_uncle_valid numeric sum_bytes or_else de_serialize_block new_block add_uncle find_uncles
    find_non_direct_ancestors uncles_among without add_uncles new_candidate_block caught_up
    best_block needs_sync is_sync_needed all_read new_manager register_peer set_peer mark_seen send
    new_peer bytes_dec clone block_of
last_round = refl

next_round-running_example :
    Resumes digests D worlds platform 2000 level near
      (next_round digests D worlds platform 2000 level near)
next_round-running_example = next_round-running digests D worlds platform 2000 level near

abbrev peers : PeerSetDb (List ℕ) ℕ ℕ
peers = record { nodes = (near, 1) ∷ (far, 2) ∷ []; my_history = 3 ∷ [] }

register-lookup_example :
    (peer_node_for_id list_dec (register_peer_node list_dec peers near 4) far
      ≡ ite (list_dec near far) (some 4) (peer_node_for_id list_dec peers far))
    × (peer_node_for_id list_dec (un_register_peer_node_for_id list_dec peers near) far
        ≡ ite (list_dec near far) none (peer_node_for_id list_dec peers far))
register-lookup_example = register-lookup list_dec peers near far 4

abbrev five : ℕ
five = 5

seen-twice_example :
    ((have_i_seen_it ℕ_discrete (have_i_seen_it ℕ_discrete peers five).0 five).1 ≡ true)
    × (five ≢ 6
        → (have_i_seen_it ℕ_discrete (have_i_seen_it ℕ_discrete peers five).0 6).1
          ≡ (have_i_seen_it ℕ_discrete peers 6).1)
seen-twice_example = seen-twice ℕ_discrete peers five 6
