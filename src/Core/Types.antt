-- ===== src/Core/Types.antt =====
-- core/types.go: the fixed-size byte arrays. An array is the list of its bytes, zero where
-- nothing was copied; `copyBytes` copies what fits and leaves the rest as it is.
pub mod RoundTrip
use go_trust_net.Prelude.{ℕ, zero, suc, ◌+◌, ◌*◌, ◌/◌, ◌%◌, ◌^◌, List, [], ◌∷◌, replicate}

-- The constants of the array sizes.
abbrev pub hash_length : ℕ
hash_length = 32

abbrev pub uuid_length : ℕ
uuid_length = 16

abbrev pub enode_length : ℕ
enode_length = 64

-- `copyBytes(source, dest, size)`: the destination, with its first min(len(source), size) bytes
-- replaced.
unfoldable pub copy_bytes : List ℕ → List ℕ → ℕ → List ℕ
copy_bytes source dest zero = dest
copy_bytes [] dest (suc size) = dest
copy_bytes (b ∷ source) [] (suc size) = []
copy_bytes (b ∷ source) (_ ∷ dest) (suc size) = b ∷ copy_bytes source dest size

unfoldable pub bytes_to_byte8 : List ℕ → List ℕ
unfolding copy_bytes
bytes_to_byte8 source = copy_bytes source (replicate 8 0) 8

unfoldable pub bytes_to_byte16 : List ℕ → List ℕ
unfolding copy_bytes
bytes_to_byte16 source = copy_bytes source (replicate uuid_length 0) uuid_length

unfoldable pub bytes_to_byte32 : List ℕ → List ℕ
unfolding copy_bytes
bytes_to_byte32 source = copy_bytes source (replicate hash_length 0) hash_length

unfoldable pub bytes_to_byte64 : List ℕ → List ℕ
unfolding copy_bytes
bytes_to_byte64 source = copy_bytes source (replicate enode_length 0) enode_length

-- `binary.BigEndian.PutUint64`: the k lowest bytes of a number, the highest first.
unfoldable pub big_endian : ℕ → ℕ → List ℕ
big_endian zero n = []
big_endian (suc k) n = (n / 256 ^ k % 256) ∷ big_endian k n

unfoldable pub uint64_to_byte8 : ℕ → List ℕ
unfolding big_endian
uint64_to_byte8 source = big_endian 8 source

-- `binary.BigEndian.Uint64`.
unfoldable pub read_big_endian : ℕ → List ℕ → ℕ
read_big_endian acc [] = acc
read_big_endian acc (b ∷ bytes) = read_big_endian (acc * 256 + b) bytes

-- `(*Byte8).Uint64`.
unfoldable pub uint64 : List ℕ → ℕ
unfolding read_big_endian
uint64 bytes = read_big_endian 0 bytes
