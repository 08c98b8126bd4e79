-- ===== src/Filter/Callsigns/Matching.antt =====
-- About which callsigns a set of src/filter.c matches.
use aprsc.Prelude.{
  ℕ, zero, suc, length-append, take-append, take-append-drop, ◌+◌, ◌≤◌, ◌<◌, ◌≡◌, ◌↔◌, ◌⊎◌, inl,
  inr, refl, sym, ◌∙◌, ap, arith, Bool, true, false, not, none, some, ◌&&◌, List, [], ◌∷◌, ◌++◌,
  if◌then◌else◌, ◌==◌, Bool-cases, Bytes, length, take, drop, map, to_upper, same_nocase,
  same_bytes_iff, Any, All, All-append,
}
use mathlib.Core.List.{append-nil}
use mathlib.Core.Path.{subst}
use aprsc.Filter.Callsigns.{
  RefCall, Match, match_exact, match_prefix, match_wild, is_match_wild, begins, is_matched, Reading,
  no_name, read_char, ref_of, read_names, names_of, after_slash, count_names, has_star, f0_negation,
  filter_match_on_callsignset, filter_parse_one_callsignset,
}

-- The same in any letter case.
abbrev pub IsSame : Bytes → Bytes → Type 0
IsSame a b = map to_upper a ≡ map to_upper b

-- Some name, with a rest behind it.
abbrev pub Begins : Bytes → Bytes → Bytes → Type 0
Begins name rest key = (0 < length name) × IsSame key (name ++ rest)

-- What it is for a callsign to be of a name: to be the name for an exact match, to begin with it for a
-- prefix, and to begin with it, and have no more than it unless the name has a '*', for the rest.
abbrev pub IsOf : Match → Bytes → RefCall → Type 0
IsOf match_exact key r = IsSame key r.callsign
IsOf match_prefix key r = (rest : Bytes) × Begins r.callsign rest key
IsOf match_wild key r =
    (rest : Bytes) × (Begins r.callsign rest key × ((r.wildcard ≡ true) ⊎ (rest ≡ [])))

length-upper : (a : Bytes) → length (map to_upper a) ≡ length a
length-upper [] = refl
length-upper (c ∷ a) = ap suc (length-upper a)

upper-append : (a b : Bytes) → map to_upper (a ++ b) ≡ map to_upper a ++ map to_upper b
upper-append [] b = refl
upper-append (c ∷ a) b = ap (λ s. to_upper c ∷ s) (upper-append a b)

upper-take : (n : ℕ) (a : Bytes) → map to_upper (take n a) ≡ take n (map to_upper a)
upper-take zero a = refl
upper-take (suc n) [] = refl
upper-take (suc n) (c ∷ a) = ap (λ s. to_upper c ∷ s) (upper-take n a)

length-IsSame : (a b : Bytes) → IsSame a b → length a ≡ length b
length-IsSame a b h = sym (length-upper a) ∙ ap length h ∙ length-upper b

-- The comparison over the length of the name.
begins_iff :
    (key name : Bytes)
    → (same_nocase (take (length name) key) name ≡ true)
      ↔ (map to_upper (take (length name) key) ≡ map to_upper name)
unfolding same_nocase
begins_iff key name = same_bytes_iff (map to_upper (take (length name) key)) (map to_upper name)

begins-IsSame :
    (key name : Bytes)
    → same_nocase (take (length name) key) name ≡ true
    → IsSame key (name ++ drop (length name) key)
begins-IsSame key name h =
    ap (map to_upper) (sym (take-append-drop (length name) key))
    ∙ upper-append (take (length name) key) (drop (length name) key)
    ∙ ap (λ s. s ++ map to_upper (drop (length name) key)) ((begins_iff key name).0 h)
    ∙ sym (upper-append name (drop (length name) key))

IsSame-begins :
    (key name rest : Bytes)
    → IsSame key (name ++ rest)
    → same_nocase (take (length name) key) name ≡ true
IsSame-begins key name rest h = (begins_iff key name).1 (
    upper-take (length name) key
    ∙ ap (take (length name)) (h ∙ upper-append name rest)
    ∙ ap (λ n. take n (map to_upper name ++ map to_upper rest)) (sym (length-upper name))
    ∙ take-append (map to_upper name) (map to_upper rest))

IsSame-le :
    (key name rest : Bytes) → IsSame key (name ++ rest) → length key ≡ length name + length rest
IsSame-le key name rest h = length-IsSame key (name ++ rest) h ∙ length-append name rest

drop_none : (n : ℕ) (s : Bytes) → length s ≡ n → drop n s ≡ []
drop_none zero [] h = refl
drop_none zero (c ∷ s) h = absurd (omega arith)
drop_none (suc n) [] h = refl
drop_none (suc n) (c ∷ s) h = drop_none n s (omega arith)

no_rest : (s : Bytes) → length s ≡ 0 → s ≡ []
no_rest [] h = refl
no_rest (c ∷ s) h = absurd (omega arith)

is_matched-IsOf :
    (wildok : Match) (key : Bytes) (r : RefCall)
    → (is_matched wildok key r ≡ true) ↔ IsOf wildok key r
unfolding is_matched
is_matched-IsOf match_exact key r = (
  λ e.
      let b : begins key r ≡ true = ground arith in
      let l : length r.callsign ≡ length key = ground arith in
      begins-IsSame key r.callsign b
      ∙ ap (λ s. map to_upper (r.callsign ++ s)) (drop_none (length r.callsign) key (sym l))
      ∙ ap (map to_upper) (append-nil r.callsign),
  λ h.
      let g : IsSame key (r.callsign ++ []) = h ∙ ap (map to_upper) (sym (append-nil r.callsign)) in
      let b = IsSame-begins key r.callsign [] g in
      let l = IsSame-le key r.callsign [] g in ground (arith, b, l),
)
is_matched-IsOf match_prefix key r = (
  λ e.
      let b : begins key r ≡ true = ground arith in
      let l : 0 < length r.callsign = ground arith in
      (drop (length r.callsign) key, (l, begins-IsSame key r.callsign b)),
  λ (rest, (some_name, h)).
      let b = IsSame-begins key r.callsign rest h in
      let l = IsSame-le key r.callsign rest h in ground (arith, b, l, some_name),
)
is_matched-IsOf match_wild key r = (
  λ e.
      let b : begins key r ≡ true = ground arith in
      let l : 0 < length r.callsign = ground arith in
      let le : length r.callsign ≤ length key = ground arith in
      (
        drop (length r.callsign) key,
        (
          (l, begins-IsSame key r.callsign b),
          elim (Bool-cases r.wildcard) [
            | inl w ↦ inl w
            | inr w ↦ inr (drop_none (length r.callsign) key (ground arith))
          ],
        ),
      ),
  λ (rest, ((some_name, h), ends)).
      let b = IsSame-begins key r.callsign rest h in
      let l = IsSame-le key r.callsign rest h in
      elim ends [
        | inl w ↦ ground (arith, b, l, some_name)
        | inr n ↦ let z : length rest ≡ 0 = ap length n in ground (arith, b, l, z, some_name)
      ],
)

-- No `NegationFlag`.
abbrev pub IsUnflagged : RefCall → Type 0
IsUnflagged r = r.negation ≡ false

unflagged-match :
    (wildok : Match) (key : Bytes) (refs : List RefCall)
    → All IsUnflagged refs
    → (filter_match_on_callsignset wildok key refs ≡ 1) ↔ Any (IsOf wildok key) refs
unfolding filter_match_on_callsignset
unflagged-match wildok key [] h = ((λ e. absurd (omega arith)), (λ a. absurd a))
unflagged-match wildok key (r ∷ refs) h =
    let ih = unflagged-match wildok key refs h.1 in
    let of = is_matched-IsOf wildok key r in
    elim (Bool-cases (is_matched wildok key r)) [
      | inl e ↦ rw e ((λ a. inl (of.0 e)), (λ a. ap (λ b. if◌then◌else◌ {A = ℕ} b 2 1) h.0))
      | inr e ↦ rw e (
        (λ a. inr (ih.0 a)),
        (λ a. elim a [ inl x ↦ absurd (let y = of.1 x in ground arith) | inr x ↦ ih.1 x ]),
      )
    ]

read_names-IsUnflagged : (k : Reading) (s : Bytes) → All IsUnflagged (read_names f0_negation k s)
unfolding read_names
read_names-IsUnflagged k [] = (refl, tt)
read_names-IsUnflagged k (c ∷ s) =
    by_slash (c == b'/') s _
      (read_names-IsUnflagged (if c == b'/' then no_name else read_char k c) s)
  where
    by_slash :
        (b : Bool) (s : Bytes) (refs : List RefCall)
        → All IsUnflagged refs
        → All IsUnflagged
            (if b then ref_of f0_negation k ∷ (elim s [ [] ↦ [] | _ ↦ refs ]) else refs)
    by_slash true [] refs h = (refl, tt)
    by_slash true (d ∷ s) refs h = (refl, h)
    by_slash false s refs h = h

names_of-IsUnflagged : (s : Bytes) → All IsUnflagged (names_of f0_negation s)
unfolding names_of
names_of-IsUnflagged [] = tt
names_of-IsUnflagged (c ∷ s) = read_names-IsUnflagged no_name (c ∷ s)

parsed-IsUnflagged :
    (wildok : Match) (previous : List RefCall) (text : Bytes) {refs : List RefCall}
    → All IsUnflagged previous
    → filter_parse_one_callsignset wildok previous text ≡ some refs
    → All IsUnflagged refs
unfolding filter_parse_one_callsignset
parsed-IsUnflagged wildok previous text {refs} h e =
    let p = after_slash text in
    by_tests (count_names p == 0) (not (is_match_wild wildok) && has_star p) _ e
      (All-append IsUnflagged previous (names_of f0_negation p) h (names_of-IsUnflagged p))
  where
    by_tests :
        (a b : Bool) (set : List RefCall)
        → (if a then none else if b then none else some set) ≡ some refs
        → All IsUnflagged set
        → All IsUnflagged refs
    by_tests true b set f g = cc
    by_tests false true set f g = cc
    by_tests false false set f g = let same : set ≡ refs = cc in subst (All IsUnflagged) same g

-- On a set of callsigns that was parsed, behind names that were too, `filter_match_on_callsignset`
-- answers 1 exactly when the callsign is of one of the names, in any letter case: it is the name for an
-- exact match, begins with it for a match by prefix, and for a match with '*' begins with it and has no
-- more than it unless the name has a '*'.
pub callsign_match_exact :
    (wildok : Match) (key : Bytes) (previous : List RefCall) (text : Bytes) {refs : List RefCall}
    → All IsUnflagged previous
    → filter_parse_one_callsignset wildok previous text ≡ some refs
    → (filter_match_on_callsignset wildok key refs ≡ 1) ↔ Any (IsOf wildok key) refs
callsign_match_exact wildok key previous text {refs} h e =
    unflagged-match wildok key refs (parsed-IsUnflagged wildok previous text h e)
