-- ===== src/Network/PeerNode.antt =====
-- network/node.go, and protocol/node.go, which has the same code: what a peer is known to know. The
-- connection of the node (go-ethereum's p2p) and its channels are left out.
pub mod Known
use go_trust_net.Prelude.{ℕ, ◌+◌, Bool, leb, if◌then◌else◌, List, [], ◌∷◌}
use go_trust_net.Common.Set.{new_set, size, has, add, pop}

abbrev pub max_known_txs : ℕ
max_known_txs = 1024

abbrev pub max_known_blocks : ℕ
max_known_blocks = 1024

pub record PeerNode (A : Type 0) : Type 0 where
  pub known_txs : List A
  pub known_blocks : List A

-- The keys that three calls of `Pop` pick.
pub record Picks : Type 0 where
  pub first : ℕ
  pub second : ℕ
  pub third : ℕ

module _ {A : Type 0} (dec : Discrete A) where
  unfoldable pub new_peer_node : PeerNode A
  unfolding new_set
  new_peer_node = record { known_txs = new_set dec; known_blocks = new_set dec }

  unfoldable pub pop_three : List A → Picks → List A
  unfolding pop
  pop_three known p = (pop dec (pop dec (pop dec known p.first).0 p.second).0 p.third).0

  unfoldable pub add_tx : PeerNode A → Picks → A → PeerNode A
  add_tx node p tx =
      let known =
        if leb max_known_txs (size dec node.known_txs)
        then pop_three node.known_txs p
        else node.known_txs in
      record node { known_txs = add dec known (tx ∷ []) }

  unfoldable pub has_tx : PeerNode A → A → Bool
  has_tx node tx = has dec node.known_txs tx

  unfoldable pub add_block : PeerNode A → Picks → A → PeerNode A
  add_block node p block =
      let known =
        if leb max_known_blocks (size dec node.known_blocks)
        then pop_three node.known_blocks p
        else node.known_blocks in
      record node { known_blocks = add dec known (block ∷ []) }

  unfoldable pub has_block : PeerNode A → A → Bool
  has_block node block = has dec node.known_blocks block
