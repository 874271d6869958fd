-- ===== src/Trie/Walk.antt =====
-- core/trie/trieImpl.go: the walks down the trie, each over the nibbles of the key.
use go_trust_net.Prelude.{ℕ, ◌/◌, ◌%◌, ◌==◌, if◌then◌else◌, List, [], ◌∷◌, Option, none, some, ite}
use go_trust_net.Core.Digest.{Digests}
use go_trust_net.Db.{Database}
use go_trust_net.Trie.{
  unmarked, Node, mpt_world_state_node, Key, table_key, Value, node, hash, new_node,
  transaction_node,
}

-- `makeHex`: the two nibbles of each byte.
unfoldable pub make_hex : List ℕ → List ℕ
make_hex [] = []
make_hex (b ∷ data') = (b / 16) ∷ (b % 16) ∷ make_hex data'

module _ (H : Digests) (D : Database (Key H.Byte64) (Value H.Byte64)) where
  open H use {Byte64, dec, null}
  open D use {State, get, put, delete}

  unfoldable pub put_node : State → Key Byte64 → Node Byte64 → Option State
  put_node s key n = put s key (node n)

  unfoldable pub get_node : State → Key Byte64 → Option (Node Byte64)
  get_node s key = elim (get s key) [ some (node n) ↦ some n | _ ↦ none ]

  unfoldable pub put_state : State → Byte64 → Node Byte64 → Option State
  unfolding put_node
  put_state s h n = put_node s (table_key mpt_world_state_node h) n

  unfoldable pub get_state : State → Byte64 → Option (Node Byte64)
  unfolding get_node
  get_state s h = get_node s (table_key mpt_world_state_node h)

  unfoldable pub delete_state : State → Byte64 → Option State
  delete_state s h = delete s (table_key mpt_world_state_node h)

  unfoldable pub get_tx : State → Byte64 → Option (Node Byte64)
  unfolding get_node
  get_tx s h = get_node s (table_key transaction_node h)

  unfoldable pub delete_tx : State → Byte64 → Option State
  delete_tx s h = delete s (table_key transaction_node h)

  -- `currNode.Idxs[i] = h`.
  unfoldable pub set_idx : (ℕ → Byte64) → ℕ → Byte64 → ℕ → Byte64
  set_idx idxs i h j = if j == i then h else idxs j

  -- `tombStone` unmarks the node.
  unfoldable pub tomb_stone : Node Byte64 → Node Byte64
  tomb_stone n = record n { tombstone = unmarked }

  -- A node is saved under its hash: the store, the node in memory, and the hash returned, which
  -- is `null` if the store reports an error.
  unfoldable pub save : State → Node Byte64 → State × Node Byte64 × Byte64
  save s n = elim (put_state s (hash H n) n) [ none ↦ (s, n, null) | some s' ↦ (s', n, hash H n) ]

  -- The child at an index, or a new node if the index is empty or not in the store.
  unfoldable pub child_node : State → Byte64 → Node Byte64
  unfolding new_node
  child_node s h =
      ite (dec h null) (new_node H)
        (elim (get_state s h) [ none ↦ new_node H | some child ↦ child ])

  -- The end of `updateDepthFirst` and of `deleteDepthFirst`, once the child has been saved.
  unfoldable pub link_child :
      Node Byte64 → ℕ → State × Node Byte64 × Byte64 → State × Node Byte64 × Byte64
  unfolding tomb_stone
  link_child n i (s, child, h) =
      ite (dec h null) (s, n, null) (save s (record (tomb_stone n) { idxs = set_idx n.idxs i h }))

  unfoldable pub update_depth_first :
      State → Node Byte64 → List ℕ → List ℕ → State × Node Byte64 × Byte64
  unfolding tomb_stone
  update_depth_first s n [] value = save s (record (tomb_stone n) { value = value })
  update_depth_first s n (i ∷ key_hex) value =
      link_child n i (update_depth_first s (child_node s (n.idxs i)) key_hex value)

  unfoldable pub delete_depth_first : State → Node Byte64 → List ℕ → State × Node Byte64 × Byte64
  unfolding tomb_stone
  delete_depth_first s n [] = save s (record (tomb_stone n) { value = [] })
  delete_depth_first s n (i ∷ key_hex) =
      ite (dec (n.idxs i) null) (s, n, null)
        (elim (get_state s (n.idxs i)) [
          | none ↦ (s, n, null)
          | some child ↦ link_child n i (delete_depth_first s child key_hex)
        ])

  unfoldable pub lookup_depth_first : State → Node Byte64 → List ℕ → List ℕ
  lookup_depth_first s n [] = n.value
  lookup_depth_first s n (i ∷ key_hex) =
      ite (dec (n.idxs i) null) [] (elim (get_state s (n.idxs i)) [
        | none ↦ []
        | some child ↦ lookup_depth_first s child key_hex
      ])
