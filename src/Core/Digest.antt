-- ===== src/Core/Digest.antt =====
-- core.Byte64 where it stands for a hash: an array of 64 bytes whose content no code but
-- `sha512.Sum512` (crypto/sha512, not in this repository) chooses. The hashes are a parameter: a
-- type with a decidable equality, the zero value `BytesToByte64(nil)`, the bytes of a hash, and
-- the hash of a sequence of pieces, which the source concatenates before the call.
use go_trust_net.Prelude.{ℕ, List}

-- A piece of hashed data: bytes, or a hash that is part of the data.
pub data Piece (B : Type 0) : Type 0 where
  raw : List ℕ → Piece B
  digest : B → Piece B

pub record Digests : Type 1 where
  pub Byte64 : Type 0
  pub dec : Discrete Byte64
  pub null : Byte64
  pub bytes : Byte64 → List ℕ
  pub sha512 : List (Piece Byte64) → Byte64
