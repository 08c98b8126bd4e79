-- ===== src/Tests/Parser.antt =====
-- Packets for the parser of src/parse_aprs.c. The floating-point unit of these tests counts in
-- integers; the text of a float is read up to its first character that is none of a number's.
use Prim.Native.Nat.{ℕ, ◌+◌, ◌-◌, ◌*◌, ◌/◌}
use aprsc.Prelude.{
  ◌≡◌, refl, arith, Bool, true, false, ◌||◌, Option, none, some, [], ◌∷◌, ◌++◌, ◌==◌, if◌then◌else◌,
  Bytes, codes, length, memchr, is_alnum,
}
use aprsc.Prelude.Int.{pos, negsuc}
use aprsc.Packet.{Pbuf}
use aprsc.Incoming.Error.{dis_dx, inv_3rd_party}
use aprsc.Incoming.Callsign.{
  check_invalid_src_dst, src_dst_chars, all_alnum, check_path_calls, path_calls, fields,
}
use aprsc.ParseAprs.Scanf.{
  sscanf, directive, read_signed, read_number, scan_digits, skip_space, until_nul,
}
use aprsc.Prelude.Atoi.{is_digit}
use aprsc.ParseAprs.{
  Floats, Parsing, ParseAnswer, nothing, located, refused, pbuf_fill_pos, out_of_range, to_radians,
  reads_as, valid_sym_table_compressed, valid_sym_table_uncompressed,
}
use aprsc.ParseAprs.Symbol.{get_symbol_from_dstcall}
use aprsc.ParseAprs.Position.{degrees_of, from_values, scanned, posbuf, parse_aprs_uncompressed}
use aprsc.ParseAprs.Nmea.{
  parse_aprs_nmea, read_coordinates, from_coordinates, nmea_degrees, sentence_at, scan_comma,
  longitude_from,
}
use aprsc.ParseAprs.Payload.{parse_position}
use aprsc.ParseAprs.Body.{
  parse_aprs, parse_aprs_body, parse_type, parse_other, parse_plain, parse_anywhere, is_cwop,
  digits_end, parse_aprs_3rdparty, inner_header, inner_dst_len,
}
use aprsc.ParseAprs.Body.Message.{message_read, parse_aprs_message, brace_from, with_ack}
use aprsc.ParseAprs.Body.Ends.{parse_aprs_ends}
use aprsc.ParseAprs.Body.Anywhere.{parse_anywhere_finds_nothing}
use aprsc.ParseAprs.Body.Within.{parse_aprs_reads_the_packet}
use aprsc.Tests.Purge.{packet}

abbrev digits_value : ℕ → Bytes → ℕ × Bytes
digits_value n [] = (n, [])
digits_value n (c ∷ s) =
    let rest = digits_value (if c == b'.' then n else n * 10 + (c - b'0')) s in
    if is_digit c || c == b'.' then rest else (n, c ∷ s)

abbrev pub integers : Floats
integers = record {
  of_nat = λ n. n;
  decimal = λ n k. n;
  add = λ a b. a + b;
  sub = λ a b. a - b;
  mul = λ a b. a * b;
  div = λ a b. a / b;
  neg = λ a. a;
  is_less = λ a b. false;
  is_at_most = λ a b. false;
  single = λ a. a;
  cosf = λ a. a;
  pi = 180;
  strtof = λ s. elim s [
    | [] ↦ none
    | c ∷ rest ↦ if is_digit c then some (digits_value 0 (c ∷ rest)) else none
  ];
}

-- A packet by its header, of a source and a destination, and its information field.
abbrev framed : Bytes → Bytes → Bytes → Pbuf
framed src dst info = record (packet 0 0) {
  bytes = src ++ codes ">" ++ dst ++ codes ":" ++ info ++ codes "\r\n";
  packet_len = length src + length dst + length info + 4;
  srccall_end = length src;
  dstcall_end_or_ssid = length src + length dst + 1;
  info_start = length src + length dst + 2;
  srcname_len = length src;
}

abbrev status : Pbuf
status = framed (codes "N0C") (codes "APRS") (codes ">up!")

parse_aprs_ends_example : (r : ParseAnswer × Parsing) × (parse_aprs integers [] status ≡ some r)
parse_aprs_ends_example = parse_aprs_ends integers [] status

parse_aprs_reads_the_packet_example :
    parse_aprs integers [] status ≡ parse_aprs integers (codes "0!") status
parse_aprs_reads_the_packet_example =
    parse_aprs_reads_the_packet integers [] (codes "0!") status refl (omega arith) refl
      (omega arith) (omega arith) (omega arith) (omega arith)

-- A position behind a '!', which the search for it does not find.
abbrev tnc : Pbuf
tnc = framed (codes "N0C") (codes "BEACON") (codes "X1J4 !6028.51N/02505.68E#")

abbrev before : Parsing
before = record {
  position = false;
  object = false;
  item = false;
  message = false;
  nws = false;
  wx = false;
  telemetry = false;
  query = false;
  status = false;
  userdef = false;
  cwop = false;
  statcapa = false;
  third_party = false;
  symbol = none;
  has_pos = false;
  lat = 0;
  lng = 0;
  cos_lat = 0;
  srcname = 0;
  srcname_len = 3;
  dstname = 0;
  dstname_len = 0;
}

parse_anywhere_finds_nothing_example : parse_anywhere integers [] tnc before 12 ≡ (nothing, before)
parse_anywhere_finds_nothing_example = parse_anywhere_finds_nothing integers [] tnc before 12

-- The result of a packet, with the position that it has.
abbrev shown : Option (ParseAnswer × Parsing) → Option (ParseAnswer × (Bool × (ℕ × ℕ)))
shown none = none
shown (some (a, st)) = some (a, (st.has_pos, (st.lat, st.lng)))

-- The latitude is in the packet, the longitude is what another packet left behind it.
abbrev half : Pbuf
half = framed (codes "N0C") (codes "APRS") (codes "$GPGLL,4916.45,N")

abbrev left_behind : Bytes
left_behind = codes "12311.12,W,"

half_test : shown (parse_aprs integers [] half) ≡ some (nothing, (false, (0, 0)))
unfolding parse_aprs parse_aprs_body parse_type parse_aprs_nmea sentence_at reads_as scan_comma
    longitude_from read_coordinates sscanf directive read_signed read_number scan_digits skip_space
    until_nul is_cwop digits_end
half_test = refl

abbrev located_by : Option (ParseAnswer × Parsing) → Bool
located_by none = false
located_by (some (a, st)) = st.has_pos

stale_longitude_test : located_by (parse_aprs integers left_behind half) ≡ true
unfolding parse_aprs parse_aprs_body parse_type parse_aprs_nmea sentence_at reads_as scan_comma
    longitude_from read_coordinates sscanf directive read_signed read_number scan_digits skip_space
    until_nul is_cwop digits_end from_coordinates get_symbol_from_dstcall nmea_degrees pbuf_fill_pos
    out_of_range to_radians
stale_longitude_test = refl

-- A message to the server.
abbrev message : Pbuf
message = framed (codes "N0C") (codes "APRS") (codes ":SERVER   :help")

-- Without an identifier, one that is left behind the packet is found, and its length is negative.
left_behind_id_test :
    parse_aprs_message (codes "abc{1") message (record before { message = true })
    ≡ message_read
        (record { body = 20; body_len = 9; msgid = some 30; msgid_len = negsuc 5; is_ack = false })
unfolding parse_aprs_message brace_from with_ack reads_as
left_behind_id_test = refl

no_id_test :
    parse_aprs_message [] message (record before { message = true })
    ≡ message_read
        (record { body = 20; body_len = 15; msgid = none; msgid_len = pos 0; is_ack = false })
unfolding parse_aprs_message brace_from with_ack reads_as
no_id_test = refl

-- An uncompressed position, with the integers of these tests.
abbrev plain : Pbuf
plain = framed (codes "N0C") (codes "APRS") (codes "!6028.51N/02505.68E#")

plain_test : shown (parse_aprs integers [] plain) ≡ some (located, (true, (60, 25)))
unfolding parse_aprs parse_aprs_body parse_type parse_plain parse_position parse_aprs_uncompressed
    posbuf scanned sscanf directive read_signed read_number scan_digits skip_space until_nul
    from_values degrees_of pbuf_fill_pos out_of_range to_radians is_cwop digits_end
    valid_sym_table_compressed valid_sym_table_uncompressed reads_as
plain_test = refl

-- DX cluster packets, and a third-party packet without a path.
abbrev cluster : Pbuf
cluster = framed (codes "N0C") (codes "APRS") (codes "DX de N0C")

cluster_test : shown (parse_aprs integers [] cluster) ≡ some (refused dis_dx, (false, (0, 0)))
unfolding parse_aprs parse_aprs_body parse_type parse_other reads_as is_cwop digits_end
cluster_test = refl

abbrev third : Pbuf
third = framed (codes "N0C") (codes "APRS") (codes "}N1C>APRS:>up")

third_test : shown (parse_aprs integers [] third) ≡ some (refused inv_3rd_party, (false, (0, 0)))
unfolding parse_aprs parse_aprs_body parse_aprs_3rdparty inner_header inner_dst_len memchr
    check_invalid_src_dst src_dst_chars all_alnum is_alnum check_path_calls path_calls fields
    is_cwop digits_end
third_test = refl
