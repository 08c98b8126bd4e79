-- ===== src/Passcode.antt =====
-- src/passcode.c: the APRS-IS login passcode of a callsign. Words of type `short` are their 16-bit
-- patterns; `char` is signed, as on the platforms that the server is packaged for.
pub mod Laws
use aprsc.Prelude.{
  ℕ, zero, suc, ◌+◌, ◌*◌, ◌%◌, bit_xor, List, [], ◌∷◌, ◌||◌, ltb, ◌==◌, if◌then◌else◌, Bytes,
  to_upper,
}

-- `kKey`
abbrev key : ℕ
key = 0x73e2

-- A signed `char` promoted to `int`, in its low 16 bits.
abbrev promoted : ℕ → ℕ
promoted c = if ltb c 128 then c else c + 0xff00

-- `rootCall`: what the first loop copies, with `room` bytes left before the terminator.
root_call : ℕ → Bytes → Bytes
root_call zero call = []
root_call (suc room) [] = []
root_call (suc room) (c ∷ call) =
    if c == b'-' || c == 0 then [] else to_upper c ∷ root_call room call

-- The second loop, two bytes at a time; past an odd end it reads the terminator.
hash_pairs : ℕ → Bytes → ℕ
hash_pairs hash [] = hash
hash_pairs hash (high ∷ []) = bit_xor (bit_xor hash (high * 256)) 0
hash_pairs hash (high ∷ low ∷ rest) =
    hash_pairs (bit_xor (bit_xor hash (high * 256)) (promoted low)) rest

unfoldable pub aprs_passcode : Bytes → ℕ
unfolding root_call hash_pairs to_upper
aprs_passcode call = hash_pairs key (root_call 9 call) % 0x8000
