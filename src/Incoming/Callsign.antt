-- ===== src/Incoming/Callsign.antt =====
-- src/incoming.c: the checks of callsigns and of the path, and the search for a command. A check
-- that returns -1 in the source is `true` here; `fnmatch` is the C library's, with FNM_CASEFOLD.
use aprsc.Prelude.{
  ℕ, ◌+◌, ◌-◌, Bool, true, false, not, ◌&&◌, ◌||◌, Option, none, some, List, [], ◌∷◌, ltb, leb,
  ◌==◌, if◌then◌else◌, Bytes, codes, length, take, get_or, is_alnum, to_upper, same_bytes,
  starts_with, memmem,
}
use aprsc.Qconstruct.Parse.{slice}

-- `CALLSIGNLEN_MAX`
abbrev pub call_max : ℕ
call_max = 9

unfoldable pub all_alnum : Bytes → Bool
all_alnum [] = true
all_alnum (c ∷ call) = is_alnum c && all_alnum call

-- The callsign's body, and behind a dash an SSID that is not empty.
unfoldable pub src_dst_chars : Bytes → Bool
unfolding all_alnum
src_dst_chars [] = true
src_dst_chars (c ∷ call) =
    let rest = src_dst_chars call in
    if c == b'-' then ltb 0 (length call) && all_alnum call else is_alnum c && rest

unfoldable pub check_invalid_src_dst : Bytes → Bool
unfolding src_dst_chars
check_invalid_src_dst call =
    ltb (length call) 1 || (ltb call_max (length call) || not (src_dst_chars call))

-- The SSID of a path element has one or two characters and no leading zero.
unfoldable pub path_chars : Bytes → Bool
unfolding all_alnum
path_chars [] = true
path_chars (c ∷ call) =
    let rest = path_chars call in
    if c == b'-'
    then leb (length call) 2
      && (ltb 0 (length call) && (not (get_or call 0 0 == b'0') && all_alnum call))
    else is_alnum c && rest

-- Without the '*' of a digipeater that was used.
abbrev pub unstarred : Bytes → Bytes
unstarred call =
    if ltb 1 (length call) && get_or call (length call - 1) 0 == b'*'
    then take (length call - 1) call
    else call

unfoldable pub check_invalid_path_callsign : Bytes → Bool → Bool
unfolding path_chars
check_invalid_path_callsign call after_q =
    let bare = unstarred call in
    ltb (length bare) 1
    || (ltb call_max (length bare) && not (length bare == 32 && after_q) || not (path_chars bare))

-- The elements that the loops over a path meet: none behind a comma that ends it.
unfoldable pub fields : Bytes → List Bytes
fields [] = []
fields (c ∷ path) =
    let rest = fields path in
    if c == b','
    then [] ∷ rest
    else elim rest [ [] ↦ (c ∷ []) ∷ [] | call ∷ calls ↦ (c ∷ call) ∷ calls ]

abbrev pub is_q_field : Bytes → Bool
is_q_field call = get_or call 0 0 == b'q' && length call == 3

-- The number of elements, or none if one of them is not valid.
unfoldable pub path_calls : Bool → List Bytes → Option ℕ
path_calls after_q [] = some 0
path_calls after_q (call ∷ calls) =
    let rest = path_calls (after_q || is_q_field call) calls in
    if not (is_q_field call) && check_invalid_path_callsign call after_q
    then none
    else elim rest [ none ↦ none | some n ↦ some (n + 1) ]

unfoldable pub check_path_calls : Bytes → ℕ → ℕ → Option ℕ
check_path_calls pdata via_start path_end =
    path_calls false (fields (slice pdata (via_start + 1) path_end))

unfoldable pub check_call_match : List Bytes → Bytes → Bool
check_call_match [] call = false
check_call_match (s ∷ set) call = same_bytes s call || check_call_match set call

unfoldable pub check_call_prefix_match : List Bytes → Bytes → Bool
check_call_prefix_match [] call = false
check_call_prefix_match (s ∷ set) call = starts_with s call || check_call_prefix_match set call

-- `MAX_TEST_CALL_LEN`
abbrev pub max_test_call_len : ℕ
max_test_call_len = 32

pub any_glob : (Bytes → Bytes → Bool) → List Bytes → Bytes → Bool
any_glob fnmatch [] call = false
any_glob fnmatch (glob ∷ set) call = fnmatch glob call || any_glob fnmatch set call

unfoldable pub check_call_glob_match : (Bytes → Bytes → Bool) → List Bytes → Bytes → Bool
unfolding any_glob
check_call_glob_match fnmatch set call =
    if ltb max_test_call_len (length call) then false else any_glob fnmatch set call

pub any_field : (Bytes → Bytes → Bool) → List Bytes → List Bytes → Bool
any_field fnmatch set [] = false
any_field fnmatch set (call ∷ calls) =
    check_call_glob_match fnmatch set call || any_field fnmatch set calls

unfoldable pub check_igate_calls : (Bytes → Bytes → Bool) → List Bytes → Bytes → ℕ → ℕ → Bool
unfolding any_field
check_igate_calls fnmatch set pdata q_start path_end =
    any_field fnmatch set (fields (slice pdata q_start path_end))

unfoldable pub digi_path_drop : Bytes → Bool
digi_path_drop via = found (codes ",NOGATE") || found (codes ",RFONLY")
  where
    found : Bytes → Bool
    found s = elim (memmem s via) [ none ↦ false | some _ ↦ true ]

-- One round for each byte of the haystack, from offset `hp` on: `np` is the rest of the needle,
-- which is not empty.
pub memcasestr_loop : Bytes → ℕ → Bytes → Bytes → Option ℕ → Option ℕ
memcasestr_loop needle hp [] np start = none
memcasestr_loop needle hp (h ∷ hay) [] start = none
memcasestr_loop needle hp (h ∷ hay) (n ∷ np) start = elim (to_upper h == to_upper n) [
  | true ↦
      let begun : ℕ = elim start [ none ↦ hp | some i ↦ i ] in
      elim np [
        | [] ↦ some begun
        | n' ∷ np' ↦ memcasestr_loop needle (hp + 1) hay (n' ∷ np') (some begun)
      ]
  | false ↦ memcasestr_loop needle (hp + 1) hay needle none
]

unfoldable pub memcasestr : Bytes → Bytes → Option ℕ
unfolding memcasestr_loop
memcasestr needle hay = memcasestr_loop needle 0 hay needle none
