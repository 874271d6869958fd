-- ===== src/Db.antt =====
-- db/database.go: the interface `Database` of a key-value store. A write that reports an error
-- leaves the store as it was: the result is then `none`.
pub mod InMem
pub mod PeerSet
use go_trust_net.Prelude.{Option, some, none, ◌≡◌, ◌≢◌}

pub record Database (K V : Type 0) : Type 1 where
  pub State : Type 0
  pub get : State → K → Option V
  pub put : State → K → V → Option State
  pub delete : State → K → Option State
  pub get-put_self : (s : State) (k : K) (v : V) {t : State} → put s k v ≡ some t → get t k ≡ some v
  pub get-put_ne :
      (s : State) (k : K) (v : V) (j : K) {t : State}
      → put s k v ≡ some t
      → k ≢ j
      → get t j ≡ get s j
  pub get-delete_self : (s : State) (k : K) {t : State} → delete s k ≡ some t → get t k ≡ none
  pub get-delete_ne :
      (s : State) (k j : K) {t : State} → delete s k ≡ some t → k ≢ j → get t j ≡ get s j
