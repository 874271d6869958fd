-- ===== src/Tests.antt =====
-- Concrete parameters for the tests: hashes as the encoded data, and a store that is a function.
mod World
mod Chain
mod Parts
mod Rewards
mod Platform
mod BlockChain
mod CountrApp
mod Pager
mod Total
mod Counter
use mathlib.Core.Option.{some-injective}
use go_trust_net.Prelude.{
  ℕ, zero, suc, ◌+◌, List, [], ◌∷◌, ◌++◌, length, Option, none, some, ite, if_pos, if_neg, ◌≡◌, ◌≢◌,
  refl, ap, ap₂, arith, ◌∙◌, sym, ℕ_discrete,
}
use go_trust_net.Core.Digest.{Digests, Piece, raw, digest}
use go_trust_net.Db.{Database}

-- A piece is its kind, its length and its bytes.
unfoldable pub encode : List (Piece (List ℕ)) → List ℕ
encode [] = []
encode (raw bs ∷ ps) = 0 ∷ length bs ∷ (bs ++ encode ps)
encode (digest bs ∷ ps) = 1 ∷ length bs ∷ (bs ++ encode ps)

unfoldable pub list_dec : Discrete (List ℕ)
list_dec = hlevel ℕ_discrete

abbrev pub digests : Digests
digests = record {
  Byte64 = List ℕ;
  dec = list_dec;
  null = [];
  bytes = λ b. b;
  sha512 = λ ps. 2 ∷ encode ps;
}

append-cancel :
    (a b : List ℕ) {x y : List ℕ} → length a ≡ length b → a ++ x ≡ b ++ y → (a ≡ b) × (x ≡ y)
append-cancel [] [] l e = (refl, e)
append-cancel [] (j ∷ b) l e = absurd (omega arith)
append-cancel (i ∷ a) [] l e = absurd (omega arith)
append-cancel (i ∷ a) (j ∷ b) l e =
    let (p, q) = append-cancel a b (omega arith) (cc) in
    (ap₂ (λ (x : ℕ) (xs : List ℕ). x ∷ xs) (cc) p, q)

pub raw-encode :
    (a b : List ℕ) (ps qs : List (Piece (List ℕ)))
    → encode (raw a ∷ ps) ≡ encode (raw b ∷ qs)
    → (a ≡ b) × (encode ps ≡ encode qs)
unfolding encode
raw-encode a b ps qs e = append-cancel a b (cc) (cc)

pub digest-encode :
    (a b : List ℕ) (ps qs : List (Piece (List ℕ)))
    → encode (digest a ∷ ps) ≡ encode (digest b ∷ qs)
    → (a ≡ b) × (encode ps ≡ encode qs)
unfolding encode
digest-encode a b ps qs e = append-cancel a b (cc) (cc)

-- A store that is the function from keys to values.
module _ {K V : Type 0} (dec : Discrete K) where
  pub at_self :
      (s : K → Option V) {t : K → Option V} (v : Option V) (k : K)
      → some (λ j. ite (dec k j) v (s j)) ≡ some t
      → t k ≡ v
  at_self s v k e =
      ap (λ (f : K → Option V). f k) (sym (some-injective _ _ e)) ∙ if_pos (dec k k) refl _ _

  pub at_ne :
      (s : K → Option V) {t : K → Option V} (v : Option V) (k j : K)
      → some (λ i. ite (dec k i) v (s i)) ≡ some t
      → k ≢ j
      → t j ≡ s j
  at_ne s v k j e ne =
      ap (λ (f : K → Option V). f j) (sym (some-injective _ _ e)) ∙ if_neg (dec k j) ne _ _

  abbrev pub table : Database K V
  table = record {
    State = K → Option V;
    get = λ s k. s k;
    put = λ s k v. some (λ j. ite (dec k j) (some v) (s j));
    delete = λ s k. some (λ j. ite (dec k j) none (s j));
    get-put_self = λ s k v e. at_self s _ k e;
    get-put_ne = λ s k v j e ne. at_ne s _ k j e ne;
    get-delete_self = λ s k e. at_self s _ k e;
    get-delete_ne = λ s k j e ne. at_ne s _ k j e ne;
  }
