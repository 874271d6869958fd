-- ===== src/Db/PeerSet/Lookup.antt =====
-- db/peerSetDbInMem.go: which node the store finds after a change, and what it remembers to have seen.
use go_trust_net.Prelude.{
  true, List, [], ◌∷◌, none, some, ite, if_pos, if_neg, ite-cases, ◌≡◌, ◌≢◌, refl, sym, ap, subst,
  ◌∙◌, inl, inr, Bool-cases,
}
use go_trust_net.Common.Set.{has}
use go_trust_net.Db.PeerSet.{
  PeerSetDb, find_node, drop_node, peer_node_for_id, register_peer_node,
  un_register_peer_node_for_id, have_i_seen_it,
}

module _ {I N : Type 0} (dec : Discrete I) where
  find_node-drop_node_same :
      (nodes : List (I × N)) (i : I) → find_node dec (drop_node dec nodes i) i ≡ none
  unfolding find_node drop_node
  find_node-drop_node_same [] i = refl
  find_node-drop_node_same ((k, n) ∷ nodes) i =
      let rest = find_node-drop_node_same nodes i in
      ite-cases (λ (l : List (I × N)). find_node dec l i ≡ none) (dec k i) _ _ (λ p. rest)
        (λ p. if_neg (dec k i) p (some n) (find_node dec (drop_node dec nodes i) i) ∙ rest)

  find_node-drop_node_other :
      (nodes : List (I × N)) (i j : I)
      → i ≢ j
      → find_node dec (drop_node dec nodes i) j ≡ find_node dec nodes j
  unfolding find_node drop_node
  find_node-drop_node_other [] i j h = refl
  find_node-drop_node_other ((k, n) ∷ nodes) i j h =
      let rest = find_node-drop_node_other nodes i j h in
      ite-cases (λ (l : List (I × N)). find_node dec l j ≡ find_node dec ((k, n) ∷ nodes) j)
        (dec k i) _ _
        (λ p. rest ∙ sym (if_neg (dec k j) (λ q. h (sym p ∙ q)) (some n) (find_node dec nodes j)))
        (λ p. ap (ite (dec k j) (some n)) rest)

  -- A store of peers finds, after the registration of a node under an id, that node under that id; after
  -- the removal of an id it finds none there; and under any other id it finds in both cases what it did.
  pub register-lookup :
      {A : Type 0} (ps : PeerSetDb I N A) (i j : I) (n : N)
      → (peer_node_for_id dec (register_peer_node dec ps i n) j
          ≡ ite (dec i j) (some n) (peer_node_for_id dec ps j))
        × (peer_node_for_id dec (un_register_peer_node_for_id dec ps i) j
            ≡ ite (dec i j) none (peer_node_for_id dec ps j))
  unfolding peer_node_for_id register_peer_node un_register_peer_node_for_id find_node
  register-lookup ps i j n = elim (dec i j) [
    | yes e ↦ (
      if_pos (dec i j) e (some n) (find_node dec (drop_node dec ps.nodes i) j)
          ∙ sym (if_pos (dec i j) e (some n) (find_node dec ps.nodes j)),
      subst (λ k. find_node dec (drop_node dec ps.nodes i) k ≡ none) e
            (find_node-drop_node_same ps.nodes i)
          ∙ sym (if_pos (dec i j) e none (find_node dec ps.nodes j)),
    )
    | no e ↦
        let other = find_node-drop_node_other ps.nodes i j e in
        (
          ap (ite (dec i j) (some n)) other,
          other ∙ sym (if_neg (dec i j) e none (find_node dec ps.nodes j)),
        )
  ]

module _ {I N A : Type 0} (dec : Discrete A) where
  answer : (ps : PeerSetDb I N A) (a : A) → (have_i_seen_it dec ps a).1 ≡ has dec ps.my_history a
  unfolding have_i_seen_it
  answer ps a = elim (Bool-cases (has dec ps.my_history a)) [
    | inl e ↦ rw (have_i_seen_it, e) refl
    | inr e ↦ rw (have_i_seen_it, e) refl
  ]

  remembers :
      (ps : PeerSetDb I N A) (a : A)
      → (let asked = (have_i_seen_it dec ps a).0 in
          (has dec asked.my_history a ≡ true)
          × ((b : A) → a ≢ b → has dec asked.my_history b ≡ has dec ps.my_history b))
  unfolding have_i_seen_it has
  remembers ps a = elim (Bool-cases (has dec ps.my_history a)) [
    | inl e ↦ rw (have_i_seen_it, e) (e, λ b h. refl)
    | inr e ↦
        rw (have_i_seen_it, e)
          (
            if_pos (dec a a) refl true (has dec ps.my_history a),
            λ b h. if_neg (dec a b) h true (has dec ps.my_history b),
          )
  ]

  -- An item that the store was asked about once is one that it has seen from then on, and the answer for
  -- any other item stays as it is.
  pub seen-twice :
      (ps : PeerSetDb I N A) (a b : A)
      → (let asked = (have_i_seen_it dec ps a).0 in
          ((have_i_seen_it dec asked a).1 ≡ true)
          × (a ≢ b → (have_i_seen_it dec asked b).1 ≡ (have_i_seen_it dec ps b).1))
  seen-twice ps a b =
      let asked = (have_i_seen_it dec ps a).0 in
      let (yes_a, other) = remembers ps a in
      (answer asked a ∙ yes_a, λ h. answer asked b ∙ other b h ∙ sym (answer ps b))
