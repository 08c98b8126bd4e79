-- ===== src/Keyhash/Laws.antt =====
-- About the hashes of src/keyhash.c.
use aprsc.Prelude.{
  ℕ, ◌*◌, ◌^◌, ◌<◌, ◌≡◌, ◌≢◌, ◌∙◌, refl, ap, arith, [], ◌∷◌, ◌++◌, map, All, Bytes, bit_xor,
  to_upper,
}
use aprsc.Prelude.Bits.{bit_xor-lt}
use aprsc.Keyhash.{u32, fnv_mix, seed, hash_bytes, keyhash, hash_bytes_uc, keyhashuc}

-- The shifts and sums are the product by the 32-bit FNV prime, modulo 2 ^ 32.
pub fnv_mix-mul : (h : ℕ) → fnv_mix h ≡ u32 (h * 16777619)
unfolding fnv_mix
fnv_mix-mul h = omega arith

hash_bytes-append : (a b : Bytes) (h : ℕ) → hash_bytes (a ++ b) h ≡ hash_bytes b (hash_bytes a h)
unfolding hash_bytes
hash_bytes-append [] b h = refl
hash_bytes-append (u ∷ a) b h = hash_bytes-append a b (bit_xor (fnv_mix h) u)

-- Hashing a text in two pieces, the second from the first one's hash, is hashing it whole,
-- unless the first piece hashes to 0.
pub keyhash-append :
    (a b : Bytes) (h : ℕ) → keyhash a h ≢ 0 → keyhash (a ++ b) h ≡ keyhash b (keyhash a h)
unfolding keyhash
keyhash-append a b h ne = hash_bytes-append a b (seed h) ∙ ap (hash_bytes b) (ground (arith, ne))

fnv_mix-lt : (h : ℕ) → fnv_mix h < 2 ^ 32
unfolding fnv_mix
fnv_mix-lt h = omega arith

hash_bytes-lt : (p : Bytes) (h : ℕ) → All (λ u. u < 256) p → h < 2 ^ 32 → hash_bytes p h < 2 ^ 32
unfolding hash_bytes
hash_bytes-lt [] h bs lt = lt
hash_bytes-lt (u ∷ p) h bs lt =
    hash_bytes-lt p (bit_xor (fnv_mix h) u) bs.1
      (bit_xor-lt 32 (fnv_mix h) u (fnv_mix-lt h) (omega arith))

-- Over bytes, a 32-bit hash goes to a 32-bit hash.
pub keyhash-lt : (p : Bytes) (h : ℕ) → All (λ u. u < 256) p → h < 2 ^ 32 → keyhash p h < 2 ^ 32
unfolding keyhash
keyhash-lt p h bs lt = hash_bytes-lt p (seed h) bs (ground arith)

hash_bytes_uc-upper : (p : Bytes) (h : ℕ) → hash_bytes_uc p h ≡ hash_bytes (map to_upper p) h
unfolding hash_bytes hash_bytes_uc to_upper
hash_bytes_uc-upper [] h = refl
hash_bytes_uc-upper (u ∷ p) h = hash_bytes_uc-upper p _

-- The case-blind hash is the plain hash of the upper-case text.
pub keyhashuc-upper : (p : Bytes) (h : ℕ) → keyhashuc p h ≡ keyhash (map to_upper p) h
unfolding keyhash keyhashuc
keyhashuc-upper p h = hash_bytes_uc-upper p (seed h)
