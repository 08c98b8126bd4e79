-- ===== src/Keyhash.antt =====
-- src/keyhash.c: the FNV-1a hash that every lookup table of the server goes by. A `uint32_t` is a
-- number below 2 ^ 32, and each shift and the sum drop what passes bit 31.
pub mod Laws
use aprsc.Prelude.{
  ℕ, ◌+◌, ◌-◌, ◌*◌, ◌%◌, ◌^◌, bit_xor, List, [], ◌∷◌, ◌&&◌, leb, ◌==◌, if◌then◌else◌, Bytes,
}

abbrev pub u32 : ℕ → ℕ
u32 n = n % 2 ^ 32

-- `FVN_32_OFFSET`
abbrev offset_basis : ℕ
offset_basis = 2166136261

-- `hash += (hash<<1) + (hash<<4) + (hash<<7) + (hash<<8) + (hash<<24)`
unfoldable pub fnv_mix : ℕ → ℕ
fnv_mix h =
    u32 (
      h
      + (u32 (h * 2 ^ 1) + u32 (h * 2 ^ 4) + u32 (h * 2 ^ 7) + u32 (h * 2 ^ 8) + u32 (h * 2 ^ 24)))

-- A hash of 0 asks for a fresh start.
abbrev pub seed : ℕ → ℕ
seed hash = if hash == 0 then offset_basis else hash

hash_bytes : Bytes → ℕ → ℕ
hash_bytes [] h = h
hash_bytes (u ∷ p) h = hash_bytes p (bit_xor (fnv_mix h) u)

unfoldable pub keyhash : Bytes → ℕ → ℕ
unfolding hash_bytes fnv_mix
keyhash p hash = hash_bytes p (seed hash)

abbrev pub ascii_upper : ℕ → ℕ
ascii_upper c = if leb b'a' c && leb c b'z' then c - (b'a' - b'A') else c

hash_bytes_uc : Bytes → ℕ → ℕ
hash_bytes_uc [] h = h
hash_bytes_uc (u ∷ p) h = hash_bytes_uc p (bit_xor (fnv_mix h) (ascii_upper u))

unfoldable pub keyhashuc : Bytes → ℕ → ℕ
unfolding hash_bytes_uc fnv_mix
keyhashuc p hash = hash_bytes_uc p (seed hash)
