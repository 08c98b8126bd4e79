-- ===== src/Incoming/Clean.antt =====
-- What the copy that `incoming_parse` of src/incoming.c makes in quirks mode does to a path.
use aprsc.Prelude.{
  ℕ, ◌≡◌, arith, refl, ◌∙◌, ap, inl, inr, Bool, true, false, ◌&&◌, ◌||◌, [], ◌∷◌, ◌==◌,
  if◌then◌else◌, Bool-cases, Bytes,
}
use aprsc.Incoming.Error.{Checked, passed, dropped, inv_path_call}
use aprsc.Incoming.Quirks.{
  At, head, element, spaces, Class, colon, comma, space, other, class_of, put, quirk_path,
}

-- One byte of the path, by its class.
abbrev step : At → ℕ → Bytes → Class → Checked Bytes
step at c s colon = passed (c ∷ s)
step at c s comma = put c (quirk_path head s)
step at c s space = quirk_path spaces s
step spaces c s other = dropped inv_path_call
step head c s other = put c (quirk_path element s)
step element c s other = put c (quirk_path element s)

quirk_path-step : (at : At) (c : ℕ) (s : Bytes) → quirk_path at (c ∷ s) ≡ step at c s (class_of c)
unfolding quirk_path
quirk_path-step head c s = ground arith
quirk_path-step element c s = ground arith
quirk_path-step spaces c s = ground arith

-- The text without the spaces before its first ':'.
abbrev pub despaced : Bytes → Bytes
despaced [] = []
despaced (c ∷ s) = if c == b':' then c ∷ s else if c == b' ' then despaced s else c ∷ despaced s

-- The first byte that is no space is a ',' or ':'.
abbrev pub gap_ends : Bytes → Bool
gap_ends [] = false
gap_ends (c ∷ s) = if c == b' ' then gap_ends s else c == b',' || c == b':'

-- So it is behind each space before the first ':'.
abbrev pub gaps_end : Bytes → Bool
gaps_end [] = true
gaps_end (c ∷ s) =
    if c == b':' then true else if c == b' ' then gap_ends s && gaps_end s else gaps_end s

-- There is a ':', or a ',' is the last byte; `here` is for the end.
abbrev pub is_ended : Bool → Bytes → Bool
is_ended here [] = here
is_ended here (c ∷ s) = if c == b':' then true else is_ended (c == b',') s

abbrev pub answer : Bool → Bytes → Checked Bytes
answer ok s = if ok then passed s else dropped inv_path_call

abbrev is_first : At → Bytes → Bool
is_first spaces s = gap_ends s
is_first _ s = true

abbrev is_head : At → Bool
is_head head = true
is_head _ = false

put-answer : (c : ℕ) (ok : Bool) (s : Bytes) → put c (answer ok s) ≡ answer ok (c ∷ s)
put-answer c true s = refl
put-answer c false s = refl

-- A byte by its class.
data Byte (c : ℕ) : Type 0 where
  is_colon : (c == b':') ≡ true → (c == b' ') ≡ false → (c == b',') ≡ false → Byte c
  is_comma : (c == b':') ≡ false → (c == b' ') ≡ false → (c == b',') ≡ true → Byte c
  is_space : (c == b':') ≡ false → (c == b' ') ≡ true → (c == b',') ≡ false → Byte c
  is_other : (c == b':') ≡ false → (c == b' ') ≡ false → (c == b',') ≡ false → Byte c

Byte-cases : (c : ℕ) → Byte c
Byte-cases c = elim (Bool-cases (c == b':')) [
  | inl e ↦ is_colon e (ground arith) (ground arith)
  | inr e ↦ elim (Bool-cases (c == b',')) [
    | inl f ↦ is_comma e (ground arith) f
    | inr f ↦ elim (Bool-cases (c == b' ')) [ inl g ↦ is_space e g f | inr g ↦ is_other e g f ]
  ]
]

abbrev Clean : At → Bytes → Type 0
Clean at s =
    quirk_path at s ≡ answer (is_first at s && (gaps_end s && is_ended (is_head at) s)) (despaced s)

twice : (a b c : Bool) → (a && (b && c)) ≡ (a && ((a && b) && c))
twice true b c = refl
twice false b c = refl

once : (a b c : Bool) → (a && (b && c)) ≡ ((a && b) && c)
once true b c = refl
once false b c = refl

byte-Clean : (at : At) (c : ℕ) (s : Bytes) → Byte c → ((at' : At) → Clean at' s) → Clean at (c ∷ s)
byte-Clean head c s (is_colon a b d) ih = quirk_path-step head c s ∙ rw a refl
byte-Clean element c s (is_colon a b d) ih = quirk_path-step element c s ∙ rw a refl
byte-Clean spaces c s (is_colon a b d) ih = quirk_path-step spaces c s ∙ rw (a, b, d) refl
byte-Clean head c s (is_comma a b d) ih =
    quirk_path-step head c s ∙ rw (a, d, b) (ap (put c) (ih head) ∙ put-answer c _ _)
byte-Clean element c s (is_comma a b d) ih =
    quirk_path-step element c s ∙ rw (a, d, b) (ap (put c) (ih head) ∙ put-answer c _ _)
byte-Clean spaces c s (is_comma a b d) ih =
    quirk_path-step spaces c s ∙ rw (a, d, b) (ap (put c) (ih head) ∙ put-answer c _ _)
byte-Clean head c s (is_space a b d) ih =
    quirk_path-step head c s
    ∙ rw (a, d, b)
        (ih spaces ∙ ap (λ ok. answer ok (despaced s)) (once (gap_ends s) (gaps_end s) _))
byte-Clean element c s (is_space a b d) ih =
    quirk_path-step element c s
    ∙ rw (a, d, b)
        (ih spaces ∙ ap (λ ok. answer ok (despaced s)) (once (gap_ends s) (gaps_end s) _))
byte-Clean spaces c s (is_space a b d) ih =
    quirk_path-step spaces c s
    ∙ rw (a, d, b)
        (ih spaces ∙ ap (λ ok. answer ok (despaced s)) (twice (gap_ends s) (gaps_end s) _))
byte-Clean head c s (is_other a b d) ih =
    quirk_path-step head c s ∙ rw (a, d, b) (ap (put c) (ih element) ∙ put-answer c _ _)
byte-Clean element c s (is_other a b d) ih =
    quirk_path-step element c s ∙ rw (a, d, b) (ap (put c) (ih element) ∙ put-answer c _ _)
byte-Clean spaces c s (is_other a b d) ih = quirk_path-step spaces c s ∙ rw (a, d, b) refl

path-Clean : (s : Bytes) (at : At) → Clean at s
unfolding quirk_path
path-Clean [] head = refl
path-Clean [] element = refl
path-Clean [] spaces = refl
path-Clean (c ∷ s) at = byte-Clean at c s (Byte-cases c) (path-Clean s)

-- The copy of a path in quirks mode is the path without the spaces before its first ':'. It is refused
-- with `inv_path_call` exactly if some of these spaces are not followed by a ',' or ':', or if there is
-- no ':' and the path does not end with a ','.
pub quirk_path-cleans :
    (path : Bytes)
    → quirk_path head path ≡ answer (gaps_end path && is_ended true path) (despaced path)
quirk_path-cleans path = path-Clean path head
