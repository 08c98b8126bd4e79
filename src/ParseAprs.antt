-- ===== src/ParseAprs.antt =====
-- src/parse_aprs.c: what the APRS parser reads and writes, and the filling of a position. A packet
-- stands in a buffer that holds other bytes behind it, which `memory` has too.
pub mod Scanf
pub mod Symbol
pub mod Position
pub mod Nmea
pub mod Payload
pub mod Body
use aprsc.Prelude.{
  ℕ, ◌+◌, ◌-◌, Bool, true, false, ◌&&◌, ◌||◌, Option, none, some, List, [], ◌∷◌, ◌++◌, leb, ◌==◌,
  if◌then◌else◌, Bytes, get_or,
}
use aprsc.Packet.{Pbuf}
use aprsc.Incoming.Error.{InError}

-- The floating-point unit: doubles and floats by their bit patterns. `decimal n k` is the constant
-- n / 10 ^ k, `single` rounds a double to a float, and `strtof` reads the front of a text.
pub record Floats : Type 0 where
  pub of_nat : ℕ → ℕ
  pub decimal : ℕ → ℕ → ℕ
  pub add : ℕ → ℕ → ℕ
  pub sub : ℕ → ℕ → ℕ
  pub mul : ℕ → ℕ → ℕ
  pub div : ℕ → ℕ → ℕ
  pub neg : ℕ → ℕ
  pub is_less : ℕ → ℕ → Bool
  pub is_at_most : ℕ → ℕ → Bool
  pub single : ℕ → ℕ
  pub cosf : ℕ → ℕ
  pub pi : ℕ
  pub strtof : Bytes → Option (ℕ × Bytes)

-- The fields of the packet buffer that the parser writes: the bits of `packettype`, the symbol, the
-- position, and the names for the filters.
pub record Parsing : Type 0 where
  pub position : Bool
  pub object : Bool
  pub item : Bool
  pub message : Bool
  pub nws : Bool
  pub wx : Bool
  pub telemetry : Bool
  pub query : Bool
  pub status : Bool
  pub userdef : Bool
  pub cwop : Bool
  pub statcapa : Bool
  pub third_party : Bool
  pub symbol : Option (ℕ × ℕ)
  pub has_pos : Bool
  pub lat : ℕ
  pub lng : ℕ
  pub cos_lat : ℕ
  pub srcname : ℕ
  pub srcname_len : ℕ
  pub dstname : ℕ
  pub dstname_len : ℕ

-- 0, 1 and a negative result.
pub data ParseAnswer : Type 0 where
  nothing located : ParseAnswer
  refused : InError → ParseAnswer

abbrev pub is_between : ℕ → ℕ → ℕ → Bool
is_between lo hi c = leb lo c && leb c hi

unfoldable pub valid_sym_table_compressed : ℕ → Bool
valid_sym_table_compressed c =
    c == b'/' || (c == b'\\' || (is_between 0x41 0x5a c || is_between 0x61 0x6a c))

unfoldable pub valid_sym_table_uncompressed : ℕ → Bool
valid_sym_table_uncompressed c =
    c == b'/' || (c == b'\\' || (is_between 0x41 0x5a c || is_between 0x30 0x39 c))

-- Whether the letter is one of two, in either case, the first one for minus; none for another.
abbrev pub hemisphere : ℕ → ℕ → ℕ → Option Bool
hemisphere negative positive c =
    if c == negative || c == negative + 32
    then some true
    else if c == positive || c == positive + 32
    then some false
    else none

-- `memcmp` of what stands at an offset with a text.
unfoldable pub reads_as : (ℕ → ℕ) → ℕ → Bytes → Bool
reads_as at i [] = true
reads_as at i (c ∷ s) = at i == c && reads_as at (i + 1) s

-- The bytes of the buffer: the packet, and what an earlier one left behind it.
abbrev pub memory : Pbuf → Bytes → Bytes
memory pb beyond = pb.bytes ++ beyond

abbrev pub byte_of : Pbuf → Bytes → ℕ → ℕ
byte_of pb beyond i = get_or (memory pb beyond) i 0

-- The end of the information field, before the line end.
abbrev pub body_end : Pbuf → ℕ
body_end pb = pb.packet_len - 2

module _ (fl : Floats) where
  open fl use {decimal, sub, mul, div, is_less, is_at_most, single, cosf, pi}

  abbrev pub minus : ℕ → ℕ
  minus x = sub (decimal 0 0) x

  abbrev pub near : ℕ → ℕ → ℕ → Bool
  near lo hi x = is_at_most lo x && is_at_most x hi

  abbrev pub near_zero : ℕ → Bool
  near_zero x = near (minus (decimal 1 4)) (decimal 1 4) x

  -- A position at a pole or where a coordinate is missing, or out of the range of coordinates.
  unfoldable pub out_of_range : ℕ → ℕ → Bool
  out_of_range lat lng =
      is_less lat (minus (decimal 899 1)) && near_zero lng
      || (is_less (decimal 899 1) lat && near_zero lng
          || (near_zero lat
                && (near_zero lng
                    || (near (minus (decimal 9001 2)) (minus (decimal 8999 2)) lng
                        || near (decimal 8999 2) (decimal 9001 2) lng))
              || (is_less lat (minus (decimal 90 0))
                  || (is_less (decimal 90 0) lat
                      || (is_less lng (minus (decimal 180 0)) || is_less (decimal 180 0) lng)))))

  -- `filter_lat2rad` and `filter_lon2rad` of src/filter.c
  unfoldable pub to_radians : ℕ → ℕ
  to_radians x = single (mul x (div pi (decimal 180 0)))

  abbrev pub is_weather : ℕ → ℕ → Bool
  is_weather sym_table sym_code =
      (sym_code == b'_' || sym_code == b'@') && valid_sym_table_uncompressed sym_table

  unfoldable pub pbuf_fill_pos : Parsing → ℕ → ℕ → ℕ → ℕ → ParseAnswer × Parsing
  unfolding out_of_range to_radians
  pbuf_fill_pos st lat lng sym_table sym_code =
      let st' = record st {
        symbol = some (sym_table, sym_code);
        wx = st.wx || is_weather sym_table sym_code;
      } in
      if out_of_range lat lng then (nothing, st') else (
        located,
        record st' {
          lat = to_radians lat;
          cos_lat = cosf (to_radians lat);
          lng = to_radians lng;
          has_pos = true;
        },
      )
