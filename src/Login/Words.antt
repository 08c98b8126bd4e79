-- ===== src/Login/Words.antt =====
-- src/config.c: a line as words between white space.
use aprsc.Prelude.{
  Bool, true, false, none, some, List, [], ◌∷◌, ◌++◌, ◌==◌, if◌then◌else◌, Bytes, take, map,
  to_upper, codes, memmem, same_nocase,
}
use aprsc.Prelude.Atoi.{is_space}

-- The word so far, unless it is empty, and the words behind it.
abbrev pub with_word : Bytes → List Bytes → List Bytes
with_word [] words = words
with_word (c ∷ word) words = (c ∷ word) ∷ words

unfoldable pub words_from : Bytes → Bytes → List Bytes
words_from word [] = with_word word []
words_from word (c ∷ s) =
    let rest = words_from (if is_space c then [] else word ++ c ∷ []) s in
    if c == 0 then with_word word [] else if is_space c then with_word word rest else rest

-- At most 255 words.
unfoldable pub parse_args_noshell : Bytes → List Bytes
unfolding words_from
parse_args_noshell s = take 255 (words_from [] s)

-- The words that begin an option of a login; any that has 'filter' in it begins the filters.
pub data Keyword : Type 0 where
  k_pass k_vers k_udp k_filter k_other : Keyword

-- `strcasestr`
abbrev pub has_filter : Bytes → Bool
has_filter word = elim (memmem (codes "FILTER") (map to_upper word)) [
  | none ↦ false
  | some i ↦ true
]

unfoldable pub keyword : Bytes → Keyword
unfolding same_nocase memmem
keyword word =
    if same_nocase word (codes "pass")
    then k_pass
    else if same_nocase word (codes "vers")
    then k_vers
    else if same_nocase word (codes "udp")
    then k_udp
    else if has_filter word
    then k_filter
    else k_other
