-- ===== src/Prelude/Search.antt =====
-- `memchr`, `memmem` and `strncasecmp` of C over byte lists; a position is counted from the front.
use Prim.Native.Nat.{ℕ, suc, ◌+◌, ◌≤◌}
use mathlib.Core.Path.{◌≡◌, subst}
use mathlib.Core.Logic.{inl, inr}
use mathlib.Core.Bool.{Bool, true, false, ◌&&◌}
use mathlib.Core.List.{[], ◌∷◌, map}
use mathlib.Core.Option.{Option, none, some}
use native.Mathlib.Omega.{arith}
use aprsc.Prelude.Logic.{◌==◌, if◌then◌else◌, Bool-cases, Option-cases}
use aprsc.Prelude.Lists.{length, drop, get_or}
use aprsc.Prelude.CString.{Bytes, to_upper, same_bytes}

-- The haystack begins with the needle.
unfoldable pub starts_with : Bytes → Bytes → Bool
starts_with [] hay = true
starts_with (n ∷ needle) [] = false
starts_with (n ∷ needle) (c ∷ hay) = n == c && starts_with needle hay

abbrev pub next : Option ℕ → Option ℕ
next none = none
next (some i) = some (i + 1)

unfoldable pub memchr : ℕ → Bytes → Option ℕ
memchr c [] = none
memchr c (x ∷ hay) = if x == c then some 0 else next (memchr c hay)

unfoldable pub memmem : Bytes → Bytes → Option ℕ
unfolding starts_with
memmem needle [] = if starts_with needle [] then some 0 else none
memmem needle (c ∷ hay) = if starts_with needle (c ∷ hay) then some 0 else next (memmem needle hay)

-- Equal up to letter case: `strncasecmp` of texts of one length is 0.
unfoldable pub same_nocase : Bytes → Bytes → Bool
unfolding same_bytes to_upper
same_nocase a b = same_bytes (map to_upper a) (map to_upper b)

-- A position found lies in the haystack, with room for the needle behind it.
pub starts_with-le :
    (needle hay : Bytes) → starts_with needle hay ≡ true → length needle ≤ length hay
unfolding starts_with
starts_with-le [] hay h = omega arith
starts_with-le (n ∷ needle) [] h = cc
starts_with-le (n ∷ needle) (c ∷ hay) h = omega (arith, starts_with-le needle hay (ground arith))

pub memmem-le :
    (needle hay : Bytes) {i : ℕ} → memmem needle hay ≡ some i → i + length needle ≤ length hay
unfolding memmem
memmem-le needle [] {i} h = elim (Bool-cases (starts_with needle [])) [
  | inl e ↦ let z : 0 ≡ i = ground arith in omega (arith, starts_with-le needle [] e)
  | inr e ↦ absurd (ground arith)
]
memmem-le needle (c ∷ hay) {i} h = elim (Bool-cases (starts_with needle (c ∷ hay))) [
  | inl e ↦ let z : 0 ≡ i = ground arith in omega (arith, starts_with-le needle (c ∷ hay) e)
  | inr e ↦ elim (Option-cases (memmem needle hay)) [
    | inl f ↦ absurd (ground arith)
    | inr (j, f) ↦ let z : j + 1 ≡ i = ground arith in omega (arith, memmem-le needle hay {i = j} f)
  ]
]

-- The needle stands where it was found.
pub memmem-at :
    (needle hay : Bytes) {i : ℕ}
    → memmem needle hay ≡ some i
    → starts_with needle (drop i hay) ≡ true
unfolding memmem
memmem-at needle [] {i} e = elim (Bool-cases (starts_with needle [])) [
  | inl f ↦ let z : 0 ≡ i = ground arith in subst (λ k. starts_with needle (drop k []) ≡ true) z f
  | inr f ↦ absurd (ground arith)
]
memmem-at needle (c ∷ hay) {i} e = elim (Bool-cases (starts_with needle (c ∷ hay))) [
  | inl f ↦
      let z : 0 ≡ i = ground arith in subst (λ k. starts_with needle (drop k (c ∷ hay)) ≡ true) z f
  | inr f ↦ elim (Option-cases (memmem needle hay)) [
    | inl g ↦ absurd (ground arith)
    | inr (j, g) ↦
        let z : suc j ≡ i = ground arith in
        subst (λ k. starts_with needle (drop k (c ∷ hay)) ≡ true) z (memmem-at needle hay {i = j} g)
  ]
]

pub memchr-at : (c : ℕ) (s : Bytes) {i : ℕ} → memchr c s ≡ some i → get_or s i 0 ≡ c
unfolding memchr
memchr-at c [] e = cc
memchr-at c (x ∷ s) {i} e = elim (Bool-cases (x == c)) [
  | inl f ↦
      let z : 0 ≡ i = ground arith in
      let x_is : x ≡ c = ground arith in subst (λ k. get_or (x ∷ s) k 0 ≡ c) z x_is
  | inr f ↦ elim (Option-cases (memchr c s)) [
    | inl g ↦ absurd (ground arith)
    | inr (j, g) ↦
        let z : suc j ≡ i = ground arith in
        subst (λ k. get_or (x ∷ s) k 0 ≡ c) z (memchr-at c s {i = j} g)
  ]
]
