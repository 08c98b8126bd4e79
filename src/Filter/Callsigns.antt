-- ===== src/Filter/Callsigns.antt =====
-- src/filter.c: the sets of callsigns of the filters b, d, e, o, p and u. `reflen` is split into the
-- length of the name and its two flags.
pub mod Matching
pub mod Text
use aprsc.Prelude.{
  ℕ, ◌+◌, Bool, true, false, not, ◌&&◌, ◌||◌, Option, none, some, List, [], ◌∷◌, ◌++◌, ltb, ◌==◌,
  if◌then◌else◌, Bytes, length, take, same_nocase,
}

-- `filter_refcallsign_t`
pub record RefCall : Type 0 where
  pub callsign : Bytes
  pub wildcard : Bool
  pub negation : Bool

-- `MatchEnum`
pub data Match : Type 0 where
  match_exact match_prefix match_wild : Match

abbrev pub is_match_wild : Match → Bool
is_match_wild match_wild = true
is_match_wild _ = false

-- `CALLSIGNLEN_MAX`
abbrev pub call_len_max : ℕ
call_len_max = 9

-- What the text holds behind its first '/': an optional '-' and the filter's letters come before it.
unfoldable pub after_slash : Bytes → Bytes
after_slash [] = []
after_slash (c ∷ s) = if c == b'/' then s else after_slash s

-- A name that is being read: what was copied, how long it is, and whether it has a '*'.
pub record Reading : Type 0 where
  pub copied_name : Bytes
  pub read_len : ℕ
  pub starred : Bool

abbrev pub no_name : Reading
no_name = record { copied_name = []; read_len = 0; starred = false }

-- One more character of a name; only the first nine are copied.
unfoldable pub read_char : Reading → ℕ → Reading
read_char k c =
    if c == b'*'
    then record k { starred = true }
    else if ltb k.read_len call_len_max
    then record k { copied_name = k.copied_name ++ c ∷ []; read_len = k.read_len + 1 }
    else record k { read_len = k.read_len + 1 }

abbrev pub ref_of : Bool → Reading → RefCall
ref_of negated k = record { callsign = k.copied_name; wildcard = k.starred; negation = negated }

-- The names from here on, with the one that is being read; a text that ends behind a '/' has no name
-- there.
unfoldable pub read_names : Bool → Reading → Bytes → List RefCall
unfolding read_char
read_names negated k [] = ref_of negated k ∷ []
read_names negated k (c ∷ s) =
    let ended = c == b'/' in
    let rest = read_names negated (if ended then no_name else read_char k c) s in
    if ended then ref_of negated k ∷ (elim s [ [] ↦ [] | _ ↦ rest ]) else rest

unfoldable pub names_of : Bool → Bytes → List RefCall
unfolding read_names
names_of negated [] = []
names_of negated (c ∷ s) = read_names negated no_name (c ∷ s)

-- `refmax`, the loop that counts the names before a buffer for them is taken.
unfoldable pub count_rest : Bytes → ℕ
count_rest [] = 0
count_rest (c ∷ s) =
    let rest = count_rest s in if c == b'/' then (elim s [ [] ↦ 0 | _ ↦ rest + 1 ]) else rest

unfoldable pub count_names : Bytes → ℕ
unfolding count_rest
count_names [] = 0
count_names (c ∷ s) = count_rest (c ∷ s) + 1

unfoldable pub has_star : Bytes → Bool
has_star [] = false
has_star (c ∷ s) = c == b'*' || has_star s

-- `f0->h.negation`: `filter_parse` clears it with the rest of `f0`, and nothing sets it. A filter with a
-- '-' is one of another list of the client.
abbrev pub f0_negation : Bool
f0_negation = false

-- The set of a filter; without a name, or with a '*' where none is allowed, it is refused. The
-- names of a filter of the same type right before it are `previous`.
unfoldable pub filter_parse_one_callsignset : Match → List RefCall → Bytes → Option (List RefCall)
unfolding after_slash names_of count_names has_star
filter_parse_one_callsignset wildok previous text =
    let p = after_slash text in
    if count_names p == 0
    then none
    else if not (is_match_wild wildok) && has_star p
    then none
    else some (previous ++ names_of f0_negation p)

-- `strncasecmp` over the length of the name is 0.
abbrev pub begins : Bytes → RefCall → Bool
begins key r = same_nocase (take (length r.callsign) key) r.callsign

unfoldable pub is_matched : Match → Bytes → RefCall → Bool
is_matched match_exact key r = length r.callsign == length key && begins key r
is_matched match_prefix key r =
    not (ltb (length key) (length r.callsign) || length r.callsign == 0) && begins key r
is_matched match_wild key r =
    not (ltb (length key) (length r.callsign) || length r.callsign == 0)
    && (begins key r && (r.wildcard || length r.callsign == length key))

-- 0 for no match, 1 for a match, 2 for a match of a name that has `NegationFlag`.
unfoldable pub filter_match_on_callsignset : Match → Bytes → List RefCall → ℕ
unfolding is_matched
filter_match_on_callsignset wildok key [] = 0
filter_match_on_callsignset wildok key (r ∷ refs) =
    if is_matched wildok key r
    then (if r.negation then 2 else 1)
    else filter_match_on_callsignset wildok key refs
