-- ===== src/Core/Types/RoundTrip.antt =====
-- core/types.go: what is read back from the byte arrays.
use go_trust_net.Prelude.{
  ℕ, zero, suc, ◌-◌, ◌^◌, ◌<◌, ◌≡◌, arith, List, [], ◌∷◌, ◌++◌, length, take, replicate, All,
}
use go_trust_net.Core.Types.{copy_bytes, bytes_to_byte64, uint64_to_byte8, uint64, enode_length}

abbrev pub IsByte : ℕ → Type 0
IsByte b = b < 256

copy_bytes-replicate :
    (source : List ℕ) (size : ℕ)
    → copy_bytes source (replicate size 0) size
      ≡ take size source ++ replicate (size - length source) 0
unfolding copy_bytes
copy_bytes-replicate source zero = ground arith
copy_bytes-replicate [] (suc size) = ground arith
copy_bytes-replicate (b ∷ source) (suc size) = ground (arith, copy_bytes-replicate source size)

-- `BytesToByte64` keeps the first 64 bytes of its source and pads with zeros.
pub bytes_to_byte64_lem :
    (source : List ℕ)
    → bytes_to_byte64 source
      ≡ take enode_length source ++ replicate (enode_length - length source) 0
unfolding bytes_to_byte64
bytes_to_byte64_lem source = copy_bytes-replicate source 64

uint64-uint64_to_byte8 : (n : ℕ) → n < 2 ^ 64 → uint64 (uint64_to_byte8 n) ≡ n
unfolding uint64_to_byte8 uint64
uint64-uint64_to_byte8 n h = omega arith

uint64_to_byte8-uint64 :
    (bytes : List ℕ) → length bytes ≡ 8 → All IsByte bytes → uint64_to_byte8 (uint64 bytes) ≡ bytes
unfolding uint64_to_byte8 uint64
uint64_to_byte8-uint64 (a ∷ b ∷ c ∷ d ∷ e ∷ f ∷ g ∷ h ∷ []) len bytes = ground arith
uint64_to_byte8-uint64 bytes len h = absurd (omega arith)

-- A uint64 written by `Uint64ToByte8` is read back by `Uint64`, and eight bytes that are read by `Uint64`
-- are written again by `Uint64ToByte8`.
pub uint64_lem :
    (n : ℕ) (bytes : List ℕ)
    → n < 2 ^ 64
    → length bytes ≡ 8
    → All IsByte bytes
    → (uint64 (uint64_to_byte8 n) ≡ n) × (uint64_to_byte8 (uint64 bytes) ≡ bytes)
uint64_lem n bytes h len all = (uint64-uint64_to_byte8 n h, uint64_to_byte8-uint64 bytes len all)
