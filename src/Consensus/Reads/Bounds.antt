-- ===== src/Consensus/Reads/Bounds.antt =====
-- consensus/blockChainConsensus.go: how much `Descendents` answers.
use go_trust_net.Prelude.{
  ℕ, zero, suc, ◌+◌, ◌^◌, ◌<◌, ◌≤◌, ltb, leb, List, [], ◌∷◌, ◌++◌, length, length-append, Option,
  none, some, ◌≡◌, ◌≢◌, ◌⊎◌, arith, min, Option-cases, Bool-cases, inl, inr, sym, ap, ◌∙◌, subst,
}
use go_trust_net.Core.Digest.{Digests}
use go_trust_net.Db.{Database}
use go_trust_net.Consensus.{
  Error, panic, Result-cases, ok, WorldStates, Block, ChainNode, Key, Value, Engine, max_blocks,
}
use go_trust_net.Consensus.Store.{get_block, get_chain_node, find_main_list_child}
use go_trust_net.Consensus.Reads.{get_blocks, descendents_round, descendents_from, descendents}

module _ (H : Digests) (D : Database (Key H.Byte64) (Value H.Byte64))
    (W : WorldStates H.Byte64) where
  open H use {Byte64, dec}
  open D use {State}
  open W use {World}

  length-get_blocks :
      (s : State) (hs : List Byte64) (bs : List (Block Byte64 World))
      → get_blocks H D W s hs ≡ some bs
      → length bs ≡ length hs
  unfolding get_blocks
  length-get_blocks s [] bs h = ground arith
  length-get_blocks s (h ∷ hs) bs e = elim (Option-cases (get_block H D W s h)) [
    | inl x ↦ absurd (ground arith)
    | inr (b, x) ↦ elim (Option-cases (get_blocks H D W s hs)) [
      | inl y ↦ absurd (ground arith)
      | inr (rest, y) ↦ ground (arith, length-get_blocks s hs rest y)
    ]
  ]

  descendents_round-le :
      (s : State) (parent : Byte64) (max' count : ℕ) (h : Byte64) (bs : List (Block Byte64 World))
      → descendents_round H D W s parent max' count h ≡ ok (some bs)
      → count + length bs ≤ max'
  unfolding descendents_round
  descendents_round-le s parent max' count h bs e = elim (Option-cases (get_block H D W s h)) [
    | inl x ↦ absurd (ground arith)
    | inr (b, x) ↦ elim (Option-cases (get_blocks H D W s b.spec.uncles)) [
      | inl y ↦ absurd (ground arith)
      | inr (us, y) ↦ ground (
        arith,
        length-get_blocks s b.spec.uncles us y,
        length-append us (b ∷ []),
        length-append us [],
      )
    ]
  ]

  descendents_from-le :
      (s : State) (parent : Byte64) (max' fuel : ℕ) (n : Option (ChainNode Byte64))
      (out bs : List (Block Byte64 World)) (x : Option Error)
      → length out ≤ max'
      → descendents_from H D W s parent max' fuel n out ≡ some (bs, x)
      → length bs ≤ max'
  unfolding descendents_from
  descendents_from-le s parent max' zero n out bs x l e = absurd (ground arith)
  descendents_from-le s parent max' (suc fuel) none out bs x l e = ground arith
  descendents_from-le s parent max' (suc fuel) (some n) out bs x l e =
      elim (Bool-cases (ltb (length out) max')) [
        | inr y ↦ ground arith
        | inl y ↦ elim (Result-cases (descendents_round H D W s parent max' (length out) n.hash)) [
          | inr (err', z) ↦ ground arith
          | inl (none, z) ↦ ground arith
          | inl (some more, z) ↦
              descendents_from-le s parent max' fuel (find_main_list_child H D W s n.children none)
                (out ++ more) bs x
                (omega (
                  arith,
                  length-append out more,
                  descendents_round-le s parent max' (length out) n.hash more z,
                ))
                (ground arith)
        ]
      ]

  -- The store of a DAG: a chain node stands under its hash, and is less deep than its main child.
  pub record IsLayered (s : State) : Type 0 where
    pub hashed :
        (h : Byte64) (n : ChainNode Byte64) → get_chain_node H D W s h ≡ some n → n.hash ≡ h
    pub deeper :
        (h : Byte64) (n c : ChainNode Byte64)
        → get_chain_node H D W s h ≡ some n
        → find_main_list_child H D W s n.children none ≡ some c
        → n.depth < c.depth

  find_main_list_child-stored :
      (s : State) (hs : List Byte64) (c : ChainNode Byte64)
      → find_main_list_child H D W s hs none ≡ some c
      → (h : Byte64) × (get_chain_node H D W s h ≡ some c)
  unfolding find_main_list_child
  find_main_list_child-stored s [] c e = absurd (ground arith)
  find_main_list_child-stored s (h ∷ hs) c e = elim (Option-cases (get_chain_node H D W s h)) [
    | inl x ↦ find_main_list_child-stored s hs c (ground arith)
    | inr (n, x) ↦ elim (Bool-cases n.is_main_list) [
      | inl y ↦ (h, ground arith)
      | inr y ↦ find_main_list_child-stored s hs c (ground arith)
    ]
  ]

  -- A round adds a block, but for the round of the parent.
  descendents_round-lt :
      (s : State) (parent : Byte64) (max' count : ℕ) (h : Byte64) (bs : List (Block Byte64 World))
      → descendents_round H D W s parent max' count h ≡ ok (some bs)
      → h ≢ parent
      → 1 ≤ length bs
  unfolding descendents_round
  descendents_round-lt s parent max' count h bs e ne = elim (Option-cases (get_block H D W s h)) [
    | inl x ↦ absurd (ground arith)
    | inr (b, x) ↦ elim (Option-cases (get_blocks H D W s b.spec.uncles)) [
      | inl y ↦ absurd (ground arith)
      | inr (us, y) ↦ ground (arith, length-append us (b ∷ []))
    ]
  ]

  differs :
      (s : State) (start n : ChainNode Byte64) (h parent : Byte64)
      → IsLayered s
      → get_chain_node H D W s parent ≡ some start
      → get_chain_node H D W s h ≡ some n
      → start.depth < n.depth
      → n.hash ≢ parent
  differs s start n h parent lay p g lt e =
      let same : h ≡ parent = sym (lay.hashed h n g) ∙ e in
      let is : n ≡ start =
        ground (arith, p, subst (λ k. get_chain_node H D W s k ≡ some n) same g) in
      omega (arith, ap (λ (m : ChainNode Byte64). m.depth) is)

  descendents_from_end :
      (s : State) (parent : Byte64) (max' fuel : ℕ) (out : List (Block Byte64 World))
      → 1 ≤ fuel
      → descendents_from H D W s parent max' fuel none out ≢ none
  unfolding descendents_from
  descendents_from_end s parent max' zero out l e = absurd (omega arith)
  descendents_from_end s parent max' (suc fuel) out l e = ground arith

  descendents_from_total :
      (s : State) (start : ChainNode Byte64) (parent : Byte64) (max' fuel : ℕ)
      (n : ChainNode Byte64) (h : Byte64) (out : List (Block Byte64 World))
      → IsLayered s
      → get_chain_node H D W s parent ≡ some start
      → get_chain_node H D W s h ≡ some n
      → start.depth < n.depth
      → max' + 1 < fuel + length out
      → length out ≤ max'
      → descendents_from H D W s parent max' fuel (some n) out ≢ none
  unfolding descendents_from
  descendents_from_total s start parent max' zero n h out lay p g lt f l = absurd (omega arith)
  descendents_from_total s start parent max' (suc fuel) n h out lay p g lt f l =
      elim (Bool-cases (ltb (length out) max')) [
        | inr y ↦ λ e. ground arith
        | inl y ↦ elim (Result-cases (descendents_round H D W s parent max' (length out) n.hash)) [
          | inr (err', z) ↦ λ e. ground arith
          | inl (none, z) ↦ λ e. ground arith
          | inl (some more, z) ↦
              let apart = differs s start n h parent lay p g lt in
              let grown = descendents_round-lt s parent max' (length out) n.hash more z apart in
              let within = descendents_round-le s parent max' (length out) n.hash more z in
              let sum = length-append out more in
              elim (Option-cases (find_main_list_child H D W s n.children none)) [
                | inl none_left ↦ λ e.
                    descendents_from_end s parent max' fuel (out ++ more) (ground arith)
                      (ground arith)
                | inr (c, next) ↦
                    let (h', stored) = find_main_list_child-stored s n.children c next in
                    λ e.
                      descendents_from_total s start parent max' fuel c h' (out ++ more) lay p
                        stored (omega (arith, lay.deeper h n c g next)) (omega arith) (omega arith)
                        (ground arith)
              ]
        ]
      ]

  -- The first round is that of the parent, which is not listed.
  descendents_from_start :
      (s : State) (start : ChainNode Byte64) (parent : Byte64) (max' fuel : ℕ)
      → IsLayered s
      → get_chain_node H D W s parent ≡ some start
      → max' + 1 < fuel
      → descendents_from H D W s parent max' (suc fuel) (some start) [] ≢ none
  unfolding descendents_from
  descendents_from_start s start parent max' fuel lay p f = elim (Bool-cases (ltb 0 max')) [
    | inr y ↦ λ e. ground arith
    | inl y ↦ elim (Result-cases (descendents_round H D W s parent max' 0 start.hash)) [
      | inr (err', z) ↦ λ e. ground arith
      | inl (none, z) ↦ λ e. ground arith
      | inl (some more, z) ↦
          let within = descendents_round-le s parent max' 0 start.hash more z in
          elim (Option-cases (find_main_list_child H D W s start.children none)) [
            | inl none_left ↦
                λ e. descendents_from_end s parent max' fuel more (omega arith) (ground arith)
            | inr (c, next) ↦
                let (h', stored) = find_main_list_child-stored s start.children c next in
                λ e.
                  descendents_from_total s start parent max' fuel c h' more lay p stored
                    (lay.deeper parent start c p next) (omega arith) (omega arith) (ground arith)
          ]
    ]
  ]

  descendents-le :
      (fuel : ℕ) (e : Engine H D W) (parent : Byte64) (max' : ℕ) (bs : List (Block Byte64 World))
      (x : Option Error)
      → descendents H D W fuel e parent max' ≡ some (bs, x)
      → (length bs ≤ max') × (length bs ≤ max_blocks)
  unfolding descendents
  descendents-le fuel e parent max' bs x h =
      elim (Option-cases (get_chain_node H D W e.db parent)) [
        | inl y ↦ ground arith
        | inr (n, y) ↦
            ground
              (arith, descendents_from-le e.db parent (min max' max_blocks) fuel (some n) [] bs x)
      ]

  descendents_total :
      (fuel : ℕ) (e : Engine H D W) (parent : Byte64) (max' : ℕ)
      → 103 ≤ fuel
      → IsLayered e.db
      → descendents H D W fuel e parent max' ≢ none
  unfolding descendents
  descendents_total zero e parent max' f lay h = absurd (omega arith)
  descendents_total (suc fuel) e parent max' f lay h =
      elim (Option-cases (get_chain_node H D W e.db parent)) [
        | inl y ↦ ground arith
        | inr (n, y) ↦ ground (
          arith,
          descendents_from_start e.db n parent (min max' max_blocks) fuel lay y (omega arith),
        )
      ]

  descendents_negative :
      (fuel : ℕ) (e : Engine H D W) (parent : Byte64) (max' : ℕ) {bs : List (Block Byte64 World)}
      {x : Option Error}
      → descendents H D W fuel e parent max' ≡ some (bs, x)
      → (max' < 2 ^ 63) ⊎ (x ≡ some panic)
  unfolding descendents
  descendents_negative fuel e parent max' h = elim (Bool-cases (leb (2 ^ 63) max')) [
    | inl big ↦ inr (ground arith)
    | inr small ↦ inl (ground arith)
  ]

  -- In a store whose chain nodes are layered by depth, `Descendents` ends within 103 rounds. It
  -- answers with no more blocks than it is asked for, and with at most 100; and asked for a
  -- negative number, one of 2 ^ 63 or more by its bits, it panics.
  pub descendents_bounded :
      (fuel : ℕ) (e : Engine H D W) (parent : Byte64) (max' : ℕ)
      → 103 ≤ fuel
      → IsLayered e.db
      → (bs : List (Block Byte64 World)) × (x : Option Error) × (descendents H D W fuel e parent
            max'
          ≡ some (bs, x))
        × (length bs ≤ max')
        × (length bs ≤ max_blocks)
        × ((max' < 2 ^ 63) ⊎ (x ≡ some panic))
  descendents_bounded fuel e parent max' f lay =
      elim (Option-cases (descendents H D W fuel e parent max')) [
        | inl h ↦ absurd (descendents_total fuel e parent max' f lay h)
        | inr ((bs, x), h) ↦
            let (l, l') = descendents-le fuel e parent max' bs x h in
            (bs, x, h, l, l', descendents_negative fuel e parent max' h)
      ]
