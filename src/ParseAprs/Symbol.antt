-- ===== src/ParseAprs/Symbol.antt =====
-- src/parse_aprs.c: the symbol that the destination callsign stands for.
use aprsc.Prelude.{
  ℕ, ◌+◌, ◌-◌, ◌*◌, Bool, not, ◌&&◌, ◌||◌, Option, none, some, ltb, ◌==◌, if◌then◌else◌, codes,
  is_alnum,
}
use aprsc.Packet.{Pbuf}
use aprsc.Prelude.Atoi.{is_digit}
use aprsc.ParseAprs.{is_between, reads_as}

-- The symbol of a character that lies in a range, counted from a first code.
abbrev pub ranged : ℕ → ℕ → ℕ → ℕ → ℕ → Option (ℕ × ℕ)
ranged table lo hi first c = if is_between lo hi c then some (table, c - lo + first) else none

abbrev pub alnum_upper : ℕ → ℕ → Option (ℕ × ℕ)
alnum_upper table c =
    if is_between b'0' b'9' c
    then some (table, c)
    else if is_between b'A' b'Z' c
    then some (table, c)
    else none

-- The table and the code of the symbol.
unfoldable pub get_symbol_from_dstcall_twochar : ℕ → ℕ → Option (ℕ × ℕ)
get_symbol_from_dstcall_twochar c1 c2 =
    if c1 == b'B'
    then ranged b'/' b'B' b'P' b'!' c2
    else if c1 == b'P'
    then alnum_upper b'/' c2
    else if c1 == b'M'
    then ranged b'/' b'R' b'X' b':' c2
    else if c1 == b'H'
    then ranged b'/' b'S' b'X' b'[' c2
    else if c1 == b'L'
    then ranged b'/' b'A' b'Z' b'a' c2
    else if c1 == b'J'
    then ranged b'/' b'1' b'4' b'{' c2
    else if c1 == b'O'
    then ranged b'\\' b'B' b'P' b'!' c2
    else if c1 == b'A'
    then alnum_upper b'\\' c2
    else if c1 == b'N'
    then ranged b'\\' b'R' b'X' b':' c2
    else if c1 == b'D'
    then ranged b'\\' b'S' b'X' b'[' c2
    else if c1 == b'S'
    then ranged b'\\' b'A' b'Z' b'a' c2
    else if c1 == b'Q'
    then ranged b'\\' b'1' b'4' b'{' c2
    else none

abbrev pub is_overlay_table : ℕ → Bool
is_overlay_table c =
    c == b'O' || (c == b'A' || (c == b'N' || (c == b'D' || (c == b'S' || c == b'Q'))))

abbrev pub three_or_less : ℕ → ℕ
three_or_less n = if ltb 3 n then 3 else n

-- On the characters from the fourth one on, of which there are `sublength`.
unfoldable pub symbol_of : ℕ → ℕ → ℕ → ℕ → Option (ℕ × ℕ)
unfolding get_symbol_from_dstcall_twochar is_alnum
symbol_of sublength c3 c4 c5 =
    if not (is_alnum c3) || not (is_alnum c4)
    then none
    else if sublength == 3 && not (is_alnum c5)
    then none
    else if not (sublength == 3)
    then get_symbol_from_dstcall_twochar c3 c4
    else if c3 == b'C' || c3 == b'E'
    then if not (is_digit c4) || not (is_digit c5)
      then none
      else some (if c3 == b'C' then b'/' else b'\\', (c4 - 48) * 10 + (c5 - 48) + 32)
    else if is_overlay_table c3 && is_alnum c5
    then get_symbol_from_dstcall_twochar c3 c4
    else none

unfoldable pub get_symbol_from_dstcall : (ℕ → ℕ) → Pbuf → Option (ℕ × ℕ)
unfolding symbol_of reads_as
get_symbol_from_dstcall at pb =
    let d_start = pb.srccall_end + 1 in
    let len = pb.dstcall_end_or_ssid - d_start in
    if ltb len 5
    then none
    else if not (reads_as at d_start (codes "GPS"))
        && (not (reads_as at d_start (codes "SPC")) && not (reads_as at d_start (codes "SYM")))
    then none
    else symbol_of (three_or_less (len - 3)) (at (d_start + 3)) (at (d_start + 4))
        (at (d_start + 5))
