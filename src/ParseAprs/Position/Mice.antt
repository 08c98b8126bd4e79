-- ===== src/ParseAprs/Position/Mice.antt =====
-- src/parse_aprs.c: Mic-E positions, with the latitude in the destination callsign.
use aprsc.Prelude.{ℕ, ◌+◌, ◌-◌, ◌*◌, ◌%◌, Bool, not, ◌&&◌, ◌||◌, ltb, leb, ◌==◌, if◌then◌else◌}
use aprsc.Packet.{Pbuf}
use aprsc.Prelude.Atoi.{is_digit}
use aprsc.ParseAprs.{
  Floats, Parsing, ParseAnswer, nothing, is_between, valid_sym_table_uncompressed, pbuf_fill_pos,
  body_end,
}
use aprsc.ParseAprs.Position.{degrees_of, signed}

-- The characters of the callsign in its first and in its last three places.
unfoldable pub is_mice_first : ℕ → Bool
is_mice_first c = is_digit c || (is_between b'A' b'L' c || is_between b'P' b'Z' c)

unfoldable pub is_mice_last : ℕ → Bool
is_mice_last c = is_digit c || (c == b'L' || is_between b'P' b'Z' c)

unfoldable pub valid_mice_call : (ℕ → ℕ) → ℕ → Bool
unfolding is_mice_first is_mice_last
valid_mice_call at d =
    is_mice_first (at d)
    && (is_mice_first (at (d + 1))
        && (is_mice_first (at (d + 2))
            && (is_mice_last (at (d + 3))
                && (is_mice_last (at (d + 4)) && is_mice_last (at (d + 5))))))

unfoldable pub valid_mice_info : (ℕ → ℕ) → ℕ → Bool
unfolding valid_sym_table_uncompressed
valid_mice_info at b =
    is_between 0x26 0x7f (at b)
    && (is_between 0x26 0x61 (at (b + 1))
        && (is_between 0x1c 0x7f (at (b + 2))
            && (is_between 0x1c 0x7f (at (b + 3))
                && (is_between 0x1c 0x7d (at (b + 4))
                    && (is_between 0x1c 0x7f (at (b + 5))
                        && ((is_between 0x21 0x7b (at (b + 6)) || at (b + 6) == 0x7d)
                            && valid_sym_table_uncompressed (at (b + 7))))))))

-- A character of the callsign as a digit of the latitude, or an underscore where it is left out.
unfoldable pub mice_digit : ℕ → ℕ
mice_digit c =
    if is_between b'A' b'J' c
    then c - 17
    else if is_between b'P' b'Y' c
    then c - 32
    else if c == b'K' || (c == b'L' || c == b'Z')
    then b'_'
    else c

-- How many digits are left out, by the digits from the third one on.
abbrev pub ambiguity : ℕ → ℕ → ℕ → ℕ → ℕ
ambiguity d2 d3 d4 d5 =
    if d2 == b'_'
    then 4
    else if d3 == b'_'
    then 3
    else if d4 == b'_'
    then 2
    else if d5 == b'_'
    then 1
    else 0

-- Two digits as a number, the second one by default; "%2u" on digits.
abbrev pub digit_or : ℕ → ℕ → ℕ
digit_or d c = if c == b'_' then d else c

abbrev pub two_digits : ℕ → ℕ → ℕ
two_digits c d = (c - b'0') * 10 + (d - b'0')

-- The degrees of the longitude, with or without the offset of 100.
unfoldable pub mice_degrees : Bool → ℕ → ℕ
mice_degrees offset c =
    let deg = if offset then c - 28 + 100 else c - 28 in
    if is_between 180 189 deg then deg - 80 else if is_between 190 199 deg then deg - 190 else deg

unfoldable pub mice_minutes : ℕ → ℕ
mice_minutes c = if leb 60 (c - 28) then c - 28 - 60 else c - 28

module _ (fl : Floats) where
  open fl use {of_nat, decimal, add, div, single}

  -- The longitude from its degrees, minutes and hundredths, by what is left out.
  unfoldable pub mice_longitude : ℕ → ℕ → ℕ → ℕ → ℕ
  unfolding degrees_of
  mice_longitude ambiguous deg min frag =
      if ambiguous == 0
      then degrees_of fl deg min frag
      else if ambiguous == 1
      then degrees_of fl deg min (frag - frag % 10 + 5)
      else if ambiguous == 2
      then single
          (add (single (of_nat deg)) (div (add (single (of_nat min)) (decimal 5 1)) (decimal 60 0)))
      else if ambiguous == 3
      then single
          (add (single (of_nat deg)) (div (single (of_nat (min - min % 10 + 5))) (decimal 60 0)))
      else single (add (single (of_nat deg)) (decimal 5 1))

module _ (fl : Floats) (at : ℕ → ℕ) (pb : Pbuf) where
  -- Once the callsign and the information field are valid.
  unfoldable pub mice_position : Parsing → ℕ → ℕ → ParseAnswer × Parsing
  unfolding mice_digit mice_degrees mice_minutes mice_longitude degrees_of pbuf_fill_pos
  mice_position st d body =
      let d0 = mice_digit (at d) in
      let d1 = mice_digit (at (d + 1)) in
      let d2 = mice_digit (at (d + 2)) in
      let d3 = mice_digit (at (d + 3)) in
      let d4 = mice_digit (at (d + 4)) in
      let d5 = mice_digit (at (d + 5)) in
      if d1 == b'_' || d0 == b'_'
      then (nothing, st)
      else pbuf_fill_pos fl st
          (signed fl (leb (at (d + 3)) 0x4c) (
            degrees_of fl (two_digits d0 d1) (two_digits (digit_or b'3' d2) (digit_or b'5' d3))
              (two_digits (digit_or b'5' d4) (digit_or b'5' d5))))
          (signed fl (leb 0x50 (at (d + 5))) (
            mice_longitude fl (ambiguity d2 d3 d4 d5)
              (mice_degrees (leb 0x50 (at (d + 4))) (at body)) (mice_minutes (at (body + 1)))
              (at (body + 2) - 28)))
          (at (body + 7)) (at (body + 6))

  unfoldable pub parse_aprs_mice : Parsing → ℕ → ParseAnswer × Parsing
  unfolding valid_mice_call valid_mice_info mice_position
  parse_aprs_mice st body =
      let d_start = pb.srccall_end + 1 in
      if ltb (body_end pb) (body + 8)
      then (nothing, st)
      else if not (pb.dstcall_end_or_ssid == d_start + 6)
      then (nothing, st)
      else if not (valid_mice_call at d_start)
      then (nothing, st)
      else if not (valid_mice_info at body)
      then (nothing, st)
      else mice_position st d_start body
