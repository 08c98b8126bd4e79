-- ===== src/Dupecheck/Mangle.antt =====
-- src/dupecheck.c, `dupecheck_mangle_store`: the damaged copies of a packet that gateways are known
-- to make. Each test of the source on a signed `char` is the same on the byte.
use aprsc.Prelude.{
  ℕ, zero, suc, ◌%◌, Bool, false, not, ◌&&◌, ◌||◌, List, [], ◌∷◌, ◌++◌, map, ltb, ◌==◌,
  if◌then◌else◌, Bytes, length, get_or, take, keep,
}

-- `while (tlen1 > 0 && ib[tlen1-1] == ' ') --tlen1;`
unfoldable pub trimmed_len : Bytes → ℕ → ℕ
trimmed_len ib zero = 0
trimmed_len ib (suc tlen) = if get_or ib tlen 0 == b' ' then trimmed_len ib tlen else suc tlen

abbrev pub is_7bit : ℕ → Bool
is_7bit c = ltb c 128

abbrev pub is_low : ℕ → Bool
is_low c = ltb c 0x20 && ltb 0 c

abbrev pub is_del : ℕ → Bool
is_del c = c == 0x7f

-- `have_low_values`, `have_del`
abbrev pub have : (ℕ → Bool) → Bytes → Bool
have p [] = false
have p (c ∷ ib) = p c || have p ib

abbrev pub without : (ℕ → Bool) → Bytes → Bytes
without p ib = keep (λ c. not (p c)) ib

abbrev pub spaced : (ℕ → Bool) → Bytes → Bytes
spaced p ib = map (λ c. if p c then b' ' else c) ib

abbrev pub is_8bit : ℕ → Bool
is_8bit c = not (is_7bit c)

abbrev pub cleared : Bytes → Bytes
cleared ib = map (λ c. c % 128) ib

-- `DTYPE_SPACE_TRIM` and so on: how a stored form was made, 0 for the packet itself.
abbrev pub Form : Type 0
Form = ℕ × Bytes

unfoldable pub trim_forms : Bytes → List Form
unfolding trimmed_len
trim_forms ib =
    let tlen = trimmed_len ib (length ib) in
    if tlen == length ib then [] else (1, take tlen ib) ∷ []

unfoldable pub high_forms : Bytes → List Form
high_forms ib =
    if length (without is_8bit ib) == length ib
    then []
    else (2, without is_8bit ib) ∷ (3, cleared ib) ∷ (4, spaced is_8bit ib) ∷ []

unfoldable pub low_forms : Bytes → List Form
low_forms ib =
    if have is_low ib && not (length (without is_low ib) == length ib)
    then (5, without is_low ib) ∷ (6, spaced is_low ib) ∷ []
    else []

unfoldable pub del_forms : Bytes → List Form
del_forms ib =
    if have is_del ib && not (length (without is_del ib) == length ib)
    then (7, without is_del ib) ∷ (8, spaced is_del ib) ∷ []
    else []

-- `PACKETLEN_MAX`
abbrev pub packetlen_max : ℕ
packetlen_max = 512

-- What is stored of a packet `ib` beside itself, in the order of the source.
unfoldable pub variants : Bytes → List Form
variants ib =
    if ltb packetlen_max (length ib)
    then []
    else trim_forms ib ++ (high_forms ib ++ (low_forms ib ++ del_forms ib))
