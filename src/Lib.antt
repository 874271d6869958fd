-- ===== src/Lib.antt =====
-- go-trust-net: a block chain whose blocks form a tree (a DAG with the references to uncles), the
-- trie that holds the state of the world for each block, and the network protocol that spreads
-- blocks. This library models the core in Go and states what makes it correct.
--
-- The parts and how they interact. The consensus engine (consensus/blockChainConsensus.go) keeps
-- blocks and chain nodes in a key-value store (db/), takes blocks from a miner or from the network,
-- validates them, and moves its tip to the best block. Each block has a view of the world state
-- (core/trie/), which is a trie in the same store, named by its root hash. The network platform
-- (network/) passes blocks and transactions between peers and asks the engine for ranges of blocks.
--
-- Which file models what.
--   Prelude, Prelude/*: the names and lemmas that the other files share.
--   Core/Types: core/types.go, `BytesToByte64`, `Uint64ToByte8` and their like.
--   Core/BlockChain: core/block.go and core/chain/, the earlier chain over blocks in a store: Nodes has
--     the blocks, their nodes and the reads, Chain the operations, Kept and Walks what these
--     leave in the store, Choice what they promise.
--   Core/Digest: what is taken of SHA-512 (crypto/sha512): a type of hashes as a parameter. The
--     theorems on the trie suppose that nodes do not collide and that none hashes to zeros.
--   Db: db/database.go, the interface with its laws. Db/InMem: db/databaseInMem.go, an instance.
--   Trie: core/trie/trieImpl.go. Trie/Walk has the depth first walks, Trie/State the operations of
--     `MptWorldState` (`update` is Update, `delete_key` is Delete). `save`, `child_node`, `link_child`
--     are parts of `updateDepthFirst` and `deleteDepthFirst`. Trie/Store, Trie/Update, Trie/Walks and
--     Trie/Tables prove what a walk does to a store, Trie/WorldView and its children what a reader sees.
--   Consensus: the types of consensus/, the engine as a record, and the interface `WorldStates` that
--     the engine has to the trie. Consensus/Blocks: block.go, transaction.go and chainNode.go.
--     Consensus/Store, Validate, Insert, Operations and Reads: blockChainConsensus.go, by what a
--     method does; `uncles_among`, `climb`, `meet`, `promote`, `demote` are its loops. Consensus/Insert/Tree
--     has the tree of the chain nodes, Walks, Ends, Rebalance and Total the loops over it, and
--     Consensus/Operations/Grown the store from the constructor on.
--   Db/PeerSet: db/peerSetDb.go and db/peerSetDbInMem.go.
--   Common/Set: common/set.go. Network/PeerNode: network/node.go. Network/Trustee: network/trustee.go
--     and trusteeTransactions.go, the balances that a block's world state keeps.
--   Network/Platform: network/platform.go, with the messages of protocol.go, as a record `Manager`. Its
--     children: Lifecycle (Start, Suspend, Stop, Status, Submit), Peers (the handshake, the set of peers,
--     `broadcast`), Process (`processBlock`), Handlers (the handlers of messages and `listen`), Sync
--     (`syncNode`, step by step), Producer (`blockProducer`, an event at a time), and Reach, where all of
--     these are steps that come in any order. Quiet, Listening, Working, Healthy, Syncing and Invariant prove
--     what no step breaks; Production, Flood, Spread, Join and Sound say what that means for the program.
--   CountrApp: countrApp/app.go, the counter application: its callbacks and the parser of its commands.
--     Counters proves what its transactions do, Commands what a command does.
--   Protocol: protocol/manager.go and protocol/node.go, `ManagerBase` and `Node`. Protocol/Pager:
--     protocol/pager/, with Pager/Once on its runs. Protocol/Counter: protocol/counter/; its Blocks has the
--     counters and the blocks, Handlers the handlers, Sync `syncNode`, Totals what a block adds up to.
--   Tests: the parameters made concrete, and runs at concrete inputs.
--
-- How the code is represented. A method that changes its object takes the state and returns the new
-- one with its result. An error is a value, and where the code only logs it, the state stays as the
-- code leaves it. A store is a parameter whose writes may fail. A uint64 is a number below 2 ^ 64,
-- with the wrap-around written out. A stored block, node or chain node is the value itself: the
-- encoding (common/util.go, encoding/gob) is taken to be the inverse of the decoding. A nil
-- dereference or a negative capacity is the error `panic`. The order in which a map is ranged over
-- is an argument, or the order of the list that stands for it. protocol/counter/ does not compile against
-- the package consensus of this commit: its call of `NewTransaction` is a parameter.
--
-- The goroutines of the platform. A call, a handled message, an event of the producer and a step of a
-- sync is one step each, and these come in any order; two that run at once inside one step are not
-- modelled. A wait for a channel that nobody serves is the outcome `blocked`; the sends into
-- `shutdownBlockProducer` that wait are counted, and a producer that is started takes one of them and
-- ends. A call goes on to its end in the step in which its wait ends: `Stop` writes `isRunning` only
-- after the server has stopped, which is no step of its own. A peer is an object under
-- its id in a heap, shared by the set of peers and its connection. The marks of the messages that a
-- peer knows are pointers to hashes, numbers that are given out in order.
--
-- Fuel. `search_nonce` runs on fuel where the code stops after ten seconds. `climb` and `meet` are
-- given the depth of the node that they start from, plus one: each round moves up. `promote` and
-- `demote` run on the fuel of `add_validated_block`, or of the operations of the earlier chain, and give
-- `panic` at its end; for the engine Consensus/Insert/Total says how much is enough.
-- `descendents` is given 103 rounds or more: a round adds a block, or only passes the first, up to 100
-- blocks.
--
-- Not modelled: the trie of transactions (not called), locks, logs, go-ethereum's p2p and its setup
-- (`configureP2P`), the store on disk (db/), config/, log/, the command line program app/, the printing
-- of countrApp/, and the simulation modeling/ghost.py.
pub mod Prelude
pub mod Core
pub mod Db
pub mod Trie
pub mod Consensus
pub mod Common
pub mod CountrApp
pub mod Network
pub mod Protocol
mod Tests
