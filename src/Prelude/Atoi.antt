-- ===== src/Prelude/Atoi.antt =====
-- `isspace`, `isdigit` and `atoi` of C.
use Prim.Native.Nat.{ℕ, ◌+◌, ◌-◌, ◌*◌, ◌%◌, ◌^◌}
use mathlib.Core.Bool.{Bool, ◌&&◌, ◌||◌}
use mathlib.Core.List.{[], ◌∷◌}
use mathlib.Core.Option.{Option, none, some}
use aprsc.Prelude.Logic.{ltb, leb, ◌==◌, if◌then◌else◌}
use aprsc.Prelude.CString.{Bytes}

abbrev pub is_space : ℕ → Bool
is_space c = c == 32 || leb 9 c && leb c 13

abbrev pub is_digit : ℕ → Bool
is_digit c = leb b'0' c && leb c b'9'

abbrev pub read_digits : ℕ → Bytes → ℕ
read_digits n [] = n
read_digits n (c ∷ s) =
    let rest = read_digits (n * 10 + (c - b'0')) s in if is_digit c then rest else n

-- `(int)` of a `long`, given as its bit pattern; none below zero.
abbrev pub int_of : ℕ → Option ℕ
int_of n = if ltb (n % 2 ^ 32) (2 ^ 31) then some (n % 2 ^ 32) else none

abbrev pub at_most : ℕ → ℕ → ℕ
at_most limit n = if ltb limit n then limit else n

-- `atoi`, with none below zero: where an `int` has 32 bits and a `long` 64, as in glibc, it is
-- `strtol`, which stops at the ends of a `long`, cut to an `int`.
unfoldable pub atoi : Bytes → Option ℕ
atoi [] = some 0
atoi (c ∷ s) =
    let rest = atoi s in
    if is_space c
    then rest
    else if c == b'-'
    then int_of (2 ^ 64 - at_most (2 ^ 63) (read_digits 0 s))
    else if c == b'+'
    then int_of (at_most (2 ^ 63 - 1) (read_digits 0 s))
    else int_of (at_most (2 ^ 63 - 1) (read_digits 0 (c ∷ s)))
