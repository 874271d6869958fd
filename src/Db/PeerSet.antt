-- ===== src/Db/PeerSet.antt =====
-- db/peerSetDb.go and db/peerSetDbInMem.go: the nodes of the peers by their ids, and the messages
-- that this node has seen. Nodes are pointers: `N` is a type of references.
pub mod Lookup
use go_trust_net.Prelude.{
  Bool, true, false, not, List, [], ◌∷◌, Option, none, some, ite, if◌then◌else◌,
}
use go_trust_net.Common.Set.{has}

pub record PeerSetDb (I N A : Type 0) : Type 0 where
  pub nodes : List (I × N)
  pub my_history : List A

unfoldable pub new_peer_set_db : {I N A : Type 0} → PeerSetDb I N A
new_peer_set_db = record { nodes = []; my_history = [] }

module _ {I N : Type 0} (id_dec : Discrete I) where
  unfoldable pub find_node : List (I × N) → I → Option N
  find_node [] id = none
  find_node ((i, n) ∷ nodes) id = ite (id_dec i id) (some n) (find_node nodes id)

  unfoldable pub drop_node : List (I × N) → I → List (I × N)
  drop_node [] id = []
  drop_node ((i, n) ∷ nodes) id =
      ite (id_dec i id) (drop_node nodes id) ((i, n) ∷ drop_node nodes id)

  unfoldable pub peer_node_for_id : {A : Type 0} → PeerSetDb I N A → I → Option N
  unfolding find_node
  peer_node_for_id ps id = find_node ps.nodes id

  unfoldable pub register_peer_node : {A : Type 0} → PeerSetDb I N A → I → N → PeerSetDb I N A
  unfolding drop_node
  register_peer_node ps id n = record ps { nodes = (id, n) ∷ drop_node ps.nodes id }

  unfoldable pub un_register_peer_node_for_id : {A : Type 0} → PeerSetDb I N A → I → PeerSetDb I N A
  unfolding drop_node
  un_register_peer_node_for_id ps id = record ps { nodes = drop_node ps.nodes id }

module _ {I N : Type 0} where
  -- `has_tx` asks the node that is referred to.
  unfoldable pub not_seen : (N → Bool) → List (I × N) → List N
  not_seen has_tx [] = []
  not_seen has_tx ((i, n) ∷ nodes) =
      let rest = not_seen has_tx nodes in if has_tx n then rest else (n ∷ rest)

  unfoldable pub peer_nodes_with_msg_not_seen : {A : Type 0} → PeerSetDb I N A → (N → Bool) → List N
  unfolding not_seen
  peer_nodes_with_msg_not_seen ps has_tx = not_seen has_tx ps.nodes

  -- `HaveISeenIt` also notes that it has been asked.
  unfoldable pub have_i_seen_it :
      {A : Type 0} → Discrete A → PeerSetDb I N A → A → PeerSetDb I N A × Bool
  unfolding has
  have_i_seen_it dec ps item =
      if has dec ps.my_history item
      then (ps, true)
      else (record ps { my_history = item ∷ ps.my_history }, false)
