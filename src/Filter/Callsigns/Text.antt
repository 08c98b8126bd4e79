-- ===== src/Filter/Callsigns/Text.antt =====
-- About the text of a set of callsigns in src/filter.c: what it is read as, and the room it takes.
use aprsc.Prelude.{
  ℕ, suc, ◌+◌, ◌≤◌, ◌<◌, ◌≡◌, ◌≢◌, refl, sym, ◌∙◌, ap, ap₂, arith, inl, inr, Bool, true, false,
  some, List, [], ◌∷◌, ◌++◌, ◌==◌, ltb, if◌then◌else◌, Bool-cases, Bytes, length, length-append,
  All,
}
use mathlib.Core.List.{append-nil, append_assoc}
use aprsc.Filter.Callsigns.{
  RefCall, match_wild, call_len_max, after_slash, Reading, no_name, read_char, ref_of, read_names,
  names_of, count_rest, count_names, filter_parse_one_callsignset, f0_negation,
}

suc_one : (n : ℕ) → suc n ≡ n + 1
suc_one n = omega arith

-- A name that is read is one more than the slashes that are counted.
length-read_names :
    (negated : Bool) (k : Reading) (s : Bytes) → length (read_names negated k s) ≡ count_rest s + 1
unfolding read_names count_rest
length-read_names negated k [] = refl
length-read_names negated k (c ∷ []) = elim (Bool-cases (c == b'/')) [
  | inl e ↦ rw e refl
  | inr e ↦ rw e refl
]
length-read_names negated k (c ∷ d ∷ s) =
    let k' = if c == b'/' then no_name else read_char k c in
    ends (c == b'/') (ref_of negated k) (read_names negated k' (d ∷ s)) (count_rest (d ∷ s))
      (length-read_names negated k' (d ∷ s))
  where
    ends :
        (b : Bool) (r : RefCall) (refs : List RefCall) (n : ℕ)
        → length refs ≡ n + 1
        → length (if b then r ∷ refs else refs) ≡ (if b then n + 1 else n) + 1
    ends true r refs n h = ap suc h ∙ suc_one (n + 1)
    ends false r refs n h = h

-- The loop that stores the names of a filter stores as many as the loop before it has counted, and
-- so stays in the buffer that was taken by the count, behind the names of the filter that it extends.
pub length-names_of : (negated : Bool) (s : Bytes) → length (names_of negated s) ≡ count_names s
unfolding names_of count_names
length-names_of negated [] = refl
length-names_of negated (c ∷ s) = length-read_names negated no_name (c ∷ s)

-- A name as a user writes it.
abbrev pub print_ref : RefCall → Bytes
print_ref r = r.callsign ++ (if r.wildcard then b'*' ∷ [] else [])

abbrev pub print_refs : List RefCall → Bytes
print_refs [] = []
print_refs (r ∷ []) = print_ref r
print_refs (r ∷ s ∷ refs) = print_ref r ++ b'/' ∷ print_refs (s ∷ refs)

abbrev pub IsPlain : ℕ → Type 0
IsPlain c = (c ≢ b'/') × (c ≢ b'*')

-- A callsign of one to nine characters, none of them a '/' or '*'.
pub record IsName (negated : Bool) (r : RefCall) : Type 0 where
  pub plain : All IsPlain r.callsign
  pub some_char : 0 < length r.callsign
  pub short : length r.callsign ≤ call_len_max
  pub same_sign : r.negation ≡ negated

abbrev reading : Bytes → Reading
reading p = record { copied_name = p; read_len = length p; starred = false }

read_char-plain :
    (p : Bytes) (c : ℕ)
    → (c == b'*') ≡ false
    → length p < call_len_max
    → read_char (reading p) c ≡ reading (p ++ c ∷ [])
unfolding read_char
read_char-plain p c no_star short =
    let room : ltb (length p) 9 ≡ true = ground arith in
    rw (no_star, room, length-append p (c ∷ [])) refl

module _ (negated : Bool) where
  read_plain :
      (p name rest : Bytes)
      → All IsPlain name
      → length p + length name ≤ call_len_max
      → read_names negated (reading p) (name ++ rest)
        ≡ read_names negated (reading (p ++ name)) rest
  unfolding read_names read_char
  read_plain p [] rest plain fits =
      ap (λ q. read_names negated (reading q) rest) (sym (append-nil p))
  read_plain p (c ∷ name) rest plain fits =
      let no_slash : (c == b'/') ≡ false = let x = plain.0.0 in ground arith in
      let no_star : (c == b'*') ≡ false = let x = plain.0.1 in ground arith in
      let ih =
        read_plain (p ++ c ∷ []) name rest plain.1 (omega (arith, length-append p (c ∷ []))) in
      rw (no_slash, read_char-plain p c no_star (omega arith))
        (ih ∙ ap (λ q. read_names negated (reading q) rest) (append_assoc p (c ∷ []) name))

  -- The end of a name, and its '*' if it has one.
  read_end :
      (name tail : Bytes) (starred : Bool)
      → All IsPlain name
      → length name ≤ call_len_max
      → read_names negated no_name ((name ++ (if starred then b'*' ∷ [] else [])) ++ tail)
        ≡ read_names negated (record (reading name) { starred = starred }) tail
  unfolding read_names read_char
  read_end name tail true plain short =
      ap (read_names negated no_name) (append_assoc name (b'*' ∷ []) tail)
      ∙ read_plain [] name (b'*' ∷ tail) plain (omega arith)
  read_end name tail false plain short =
      ap (λ n. read_names negated no_name (n ++ tail)) (append-nil name)
      ∙ read_plain [] name tail plain (omega arith)

  ref_of_name :
      (r : RefCall)
      → IsName negated r
      → ref_of negated (record (reading r.callsign) { starred = r.wildcard }) ≡ r
  ref_of_name r h = rw⁻¹ h.same_sign refl

  length-print_refs :
      (r : RefCall) (refs : List RefCall) → IsName negated r → 0 < length (print_refs (r ∷ refs))
  length-print_refs r [] h =
      omega (arith, h.some_char, length-append r.callsign (if r.wildcard then b'*' ∷ [] else []))
  length-print_refs r (q ∷ refs) h = omega (
    arith,
    h.some_char,
    length-append r.callsign (if r.wildcard then b'*' ∷ [] else []),
    length-append (print_ref r) (b'/' ∷ print_refs (q ∷ refs)),
  )

  goes_on : (t : Bytes) (refs : List RefCall) → 0 < length t → elim t [ [] ↦ [] | _ ↦ refs ] ≡ refs
  goes_on [] refs h = absurd (omega arith)
  goes_on (c ∷ t) refs h = refl

  names_of_print :
      (r : RefCall) (refs : List RefCall)
      → IsName negated r
      → All (IsName negated) refs
      → read_names negated no_name (print_refs (r ∷ refs)) ≡ r ∷ refs
  unfolding read_names
  names_of_print r [] h hs =
      ap (read_names negated no_name) (sym (append-nil (print_ref r)))
      ∙ read_end r.callsign [] r.wildcard h.plain h.short
      ∙ ap (λ q. q ∷ []) (ref_of_name r h)
  names_of_print r (q ∷ refs) h hs =
      let more = print_refs (q ∷ refs) in
      read_end r.callsign (b'/' ∷ more) r.wildcard h.plain h.short
      ∙ ap₂ (λ q refs. q ∷ refs) (ref_of_name r h)
          (goes_on more (read_names negated no_name more) (length-print_refs q refs hs.0)
            ∙ names_of_print q refs hs.0 hs.1)

-- Text without a '/' in front of one.
after_slash-append :
    (letters rest : Bytes)
    → All (λ c. c ≢ b'/') letters
    → after_slash (letters ++ b'/' ∷ rest) ≡ rest
unfolding after_slash
after_slash-append [] rest h = refl
after_slash-append (c ∷ letters) rest h =
    let other : (c == b'/') ≡ false = let x = h.0 in ground arith in
    rw other (after_slash-append letters rest h.1)

names_of_text :
    (negated : Bool) (t : Bytes) → 0 < length t → names_of negated t ≡ read_names negated no_name t
unfolding names_of
names_of_text negated [] h = absurd (omega arith)
names_of_text negated (c ∷ t) h = refl

-- Names written one after the other with '/' between them, each of one to nine characters other
-- than '/' and '*' and with a '*' behind it if it is a prefix, are read back as they are: the filter
-- gets these names, in order, behind those that it extends.
pub callsignset_round_trip :
    (previous : List RefCall) (letters : Bytes) (r : RefCall) (refs : List RefCall)
    → All (λ c. c ≢ b'/') letters
    → All (IsName f0_negation) (r ∷ refs)
    → filter_parse_one_callsignset match_wild previous (letters ++ b'/' ∷ print_refs (r ∷ refs))
      ≡ some (previous ++ r ∷ refs)
unfolding filter_parse_one_callsignset
callsignset_round_trip previous letters r refs plain h =
    let text = print_refs (r ∷ refs) in
    let names : names_of f0_negation text ≡ r ∷ refs =
      names_of_text f0_negation text (length-print_refs f0_negation r refs h.0)
      ∙ names_of_print f0_negation r refs h.0 h.1 in
    let counted = length-names_of f0_negation text in
    let many : length (names_of f0_negation text) ≡ length (r ∷ refs) = ap length names in
    let some_name : (count_names text == 0) ≡ false = ground arith in
    rw (after_slash-append letters text plain, some_name, names) refl
