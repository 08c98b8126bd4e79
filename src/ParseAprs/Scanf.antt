-- ===== src/ParseAprs/Scanf.antt =====
-- `sscanf` of the C library, as src/parse_aprs.c uses it: numbers of a bounded width, floats, single
-- characters and literal ones. The result is none unless all of the conversions are made.
use aprsc.Prelude.Atoi.{is_space, is_digit}
use aprsc.Prelude.{
  ℕ, zero, suc, ◌+◌, ◌-◌, ◌*◌, ◌%◌, ◌^◌, Bool, true, false, Option, none, some, List, [], ◌∷◌, ◌==◌,
  if◌then◌else◌, Bytes,
}

-- A directive of the format, with its width for a number.
pub data Directive : Type 0 where
  number : ℕ → Directive
  float char : Directive
  literal : ℕ → Directive

-- A number is a sign and a magnitude.
pub data Value : Type 0 where
  integer : Bool → ℕ → Value
  real : ℕ → Value
  character : ℕ → Value

unfoldable pub skip_space : Bytes → Bytes
skip_space [] = []
skip_space (c ∷ s) = let rest = skip_space s in if is_space c then rest else c ∷ s

-- Up to so many digits: their number, their value behind `n`, and the rest.
unfoldable pub scan_digits : ℕ → ℕ → Bytes → ℕ × (ℕ × Bytes)
scan_digits zero n s = (0, (n, s))
scan_digits (suc w) n [] = (0, (n, []))
scan_digits (suc w) n (c ∷ s) =
    let rest = scan_digits w (n * 10 + (c - b'0')) s in
    if is_digit c then (rest.0 + 1, rest.1) else (0, (n, c ∷ s))

unfoldable pub read_number : Bool → ℕ → Bytes → Option (Value × Bytes)
unfolding scan_digits
read_number negative w s =
    let digits = scan_digits w 0 s in
    if digits.0 == 0 then none else some (integer negative digits.1.0, digits.1.1)

unfoldable pub read_signed : ℕ → Bytes → Option (Value × Bytes)
unfolding read_number
read_signed w [] = none
read_signed w (c ∷ s) =
    if c == b'-'
    then read_number true (w - 1) s
    else if c == b'+'
    then read_number false (w - 1) s
    else read_number false w (c ∷ s)

unfoldable pub directive :
    (Bytes → Option (ℕ × Bytes)) → Directive → Bytes → Option (List Value × Bytes)
unfolding skip_space read_signed
directive strtof (number w) s = elim (read_signed w (skip_space s)) [
  | none ↦ none
  | some (v, rest) ↦ some (v ∷ [], rest)
]
directive strtof float s = elim (strtof (skip_space s)) [
  | none ↦ none
  | some (x, rest) ↦ some (real x ∷ [], rest)
]
directive strtof char [] = none
directive strtof char (c ∷ s) = some (character c ∷ [], s)
directive strtof (literal c) [] = none
directive strtof (literal c) (d ∷ s) = if d == c then some ([], s) else none

abbrev pub joined : List Value → Option (List Value) → Option (List Value)
joined vs none = none
joined [] (some ws) = some ws
joined (v ∷ vs) (some ws) = joined vs (some (v ∷ ws))

unfoldable pub sscanf : (Bytes → Option (ℕ × Bytes)) → List Directive → Bytes → Option (List Value)
unfolding directive
sscanf strtof [] s = some []
sscanf strtof (d ∷ format) s = elim (directive strtof d s) [
  | none ↦ none
  | some (vs, rest) ↦ joined vs (sscanf strtof format rest)
]

-- The value as an `unsigned int`.
abbrev pub unsigned : Bool → ℕ → ℕ
unsigned true n = (2 ^ 32 - n) % 2 ^ 32
unsigned false n = n

-- The text up to the NUL.
unfoldable pub until_nul : Bytes → Bytes
until_nul [] = []
until_nul (c ∷ s) = let rest = until_nul s in if c == 0 then [] else c ∷ rest
