-- ===== src/ParseAprs/Body.antt =====
-- src/parse_aprs.c: third-party packets, and the dispatch on the type.
pub mod Message
pub mod Ends
pub mod Anywhere
pub mod Reads
pub mod Texts
pub mod Within
use aprsc.Prelude.{
  ℕ, zero, suc, ◌+◌, ◌-◌, Bool, true, false, not, ◌&&◌, ◌||◌, Option, none, some, List, [], ◌∷◌,
  ltb, leb, ◌==◌, if◌then◌else◌, Bytes, codes, drop, memchr,
}
use aprsc.Packet.{Pbuf}
use aprsc.Qconstruct.Parse.{slice}
use aprsc.Incoming.Error.{inv_3rd_party, inv_srccall, inv_dstcall, dis_dx, dis_msg_dst}
use aprsc.Incoming.Callsign.{call_max, check_invalid_src_dst, check_path_calls, check_call_match}
use aprsc.Prelude.Atoi.{is_digit}
use aprsc.ParseAprs.Position.{parse_aprs_compressed, parse_aprs_uncompressed}
use aprsc.ParseAprs.Position.Mice.{parse_aprs_mice}
use aprsc.ParseAprs.Nmea.{parse_aprs_nmea}
use aprsc.ParseAprs.{
  Floats, Parsing, ParseAnswer, nothing, refused, is_between, valid_sym_table_compressed, reads_as,
  body_end, memory, byte_of,
}
use aprsc.ParseAprs.Payload.{
  parse_position, parse_aprs_object, parse_aprs_item, preparse_aprs_message,
}

-- The inner packet of a third-party packet: its source callsign and its body.
pub data Inner : Type 0 where
  stops : ParseAnswer → Inner
  goes_on : ℕ → ℕ → ℕ → Inner

-- The end of the destination callsign, which is before the end of the path.
unfoldable pub inner_dst_len : Bytes → ℕ
inner_dst_len [] = 0
inner_dst_len (c ∷ s) = let rest = inner_dst_len s in if c == b',' || c == b':' then 0 else suc rest

abbrev pub smaller : ℕ → ℕ → ℕ
smaller a b = if ltb a b then a else b

module _ (fl : Floats) (beyond : Bytes) (pb : Pbuf) where
  -- Once the end of the header and of the source callsign are known.
  unfoldable pub inner_header : ℕ → ℕ → ℕ → Inner
  unfolding inner_dst_len check_invalid_src_dst check_path_calls
  inner_header s src_end body =
      let mem = memory pb beyond in
      let path_start = src_end + 1 in
      let dstcall_end = path_start + inner_dst_len (slice mem path_start body) in
      if leb body path_start
      then stops (refused inv_3rd_party)
      else if check_invalid_src_dst (slice mem s src_end)
      then stops (refused inv_srccall)
      else if check_invalid_src_dst (slice mem path_start dstcall_end)
      then stops (refused inv_dstcall)
      else elim (check_path_calls mem dstcall_end body) [
        | none ↦ stops (refused inv_3rd_party)
        | some calls ↦
            if ltb calls 2
            then stops (refused inv_3rd_party)
            else goes_on s (src_end - s) (body + 1)
      ]

  unfoldable pub parse_aprs_3rdparty : ℕ → Inner
  unfolding memchr inner_header
  parse_aprs_3rdparty info_start =
      let mem = memory pb beyond in
      let s = info_start + 1 in
      elim (memchr b':' (slice mem s (body_end pb))) [
        | none ↦ stops nothing
        | some pathlen ↦ elim (memchr b'>' (slice mem s (s + smaller pathlen (call_max + 1)))) [
          | none ↦ stops nothing
          | some src_len ↦ inner_header s (s + src_len) (s + pathlen)
        ]
      ]

  -- The types `!`, `=`, `/` and `@`, the last two with a timestamp.
  unfoldable pub parse_plain : Parsing → ℕ → ℕ → ParseAnswer × Parsing
  unfolding parse_position
  parse_plain st c body =
      let st' = record st { position = true } in
      if ltb (body_end pb) (body + 10)
      then (nothing, st)
      else parse_position fl beyond pb st' (if c == b'/' || c == b'@' then body + 7 else body)

  -- The bytes where `memchr` looks for a '!'. Its count is negative, so without a limit, where the
  -- body of an inner packet is empty.
  abbrev pub last_resort : ℕ → Bytes
  last_resort body =
      if ltb (body_end pb) body
      then drop body (memory pb beyond)
      else slice (memory pb beyond) body (body_end pb)

  -- The search for a position behind a '!', which stands at the '!' itself.
  unfoldable pub parse_anywhere : Parsing → ℕ → ParseAnswer × Parsing
  unfolding memchr parse_position
  parse_anywhere st body = elim (memchr b'!' (last_resort body)) [
    | none ↦ (nothing, st)
    | some p ↦ if leb p 39 then parse_position fl beyond pb st (body + p) else (nothing, st)
  ]

  -- The types from the message on.
  unfoldable pub parse_other : Parsing → ℕ → ℕ → ℕ → ParseAnswer × Parsing
  unfolding reads_as parse_aprs_object parse_aprs_item preparse_aprs_message parse_anywhere
  parse_other st paclen c body =
      let at = byte_of pb beyond in
      let end = body_end pb in
      if c == b':'
      then if leb 11 paclen
        then preparse_aprs_message fl beyond pb (record st { message = true }) body (paclen - 1)
        else (nothing, st)
      else if c == b';'
      then if ltb (body + 29) end then parse_aprs_object fl beyond pb st body else (nothing, st)
      else if c == b'>'
      then (nothing, record st { status = true })
      else if c == b'<'
      then (nothing, record st { statcapa = true })
      else if c == b'?'
      then (nothing, record st { query = true })
      else if c == b')'
      then if ltb (body + 18) end then parse_aprs_item fl beyond pb st body else (nothing, st)
      else if c == b'D' && reads_as at body (codes "X de ")
      then (refused dis_dx, st)
      else if c == b'T'
      then if ltb (body + 18) end then (nothing, record st { telemetry = true }) else (nothing, st)
      else if c == b'#' || (c == b'*' || c == b'_')
      then (nothing, record st { wx = true })
      else if c == b'{'
      then (nothing, record st { userdef = true })
      else parse_anywhere st body

  -- Every type but third-party packets.
  unfoldable pub parse_type : Parsing → ℕ → ℕ → ℕ → ParseAnswer × Parsing
  unfolding reads_as parse_aprs_mice parse_plain parse_aprs_nmea parse_other
  parse_type st paclen c body =
      let at = byte_of pb beyond in
      let end = body_end pb in
      if c == 0x27 || c == 0x60
      then if leb 9 paclen
        then parse_aprs_mice fl at pb (record st { position = true }) body
        else (nothing, st)
      else if c == b'!' && at body == b'!'
      then (nothing, record st { wx = true })
      else if c == b'!' || (c == b'=' || (c == b'/' || c == b'@'))
      then parse_plain st c body
      else if c == b'$'
      then if ltb (body + 10) end then parse_aprs_nmea fl beyond pb st body else (nothing, st)
      else parse_other st paclen c body

  -- `info_start` moves into the inner packets of third-party ones; the length that is tested is that
  -- of the outermost one. The fuel bounds how deep they are, and none is that it ran out.
  unfoldable pub parse_aprs_body : ℕ → Parsing → ℕ → Option (ParseAnswer × Parsing)
  unfolding parse_type parse_aprs_3rdparty
  parse_aprs_body zero st info_start = none
  parse_aprs_body (suc fuel) st info_start =
      let paclen = pb.packet_len - pb.info_start - 2 in
      let c = byte_of pb beyond info_start in
      if ltb paclen 1
      then some (nothing, st)
      else if not (c == b'}')
      then some (parse_type st paclen c (info_start + 1))
      else elim (parse_aprs_3rdparty info_start) [
        | stops a ↦ some (a, record st { third_party = true })
        | goes_on name len inner ↦
            parse_aprs_body fuel
              (record st { third_party = true; srcname = name; srcname_len = len }) inner
      ]

  -- The digits from an offset on, at most so many.
  unfoldable pub digits_end : ℕ → ℕ → ℕ
  digits_end i zero = i
  digits_end i (suc n) =
      let rest = digits_end (i + 1) n in if is_digit (byte_of pb beyond i) then rest else i

  -- CW, DW or EW, digits, and the end of the source callsign.
  unfoldable pub is_cwop : Bool
  unfolding digits_end
  is_cwop =
      let at = byte_of pb beyond in
      at 1 == b'W' && (is_between b'C' b'E' (at 0) && at (digits_end 2 (pb.packet_len - 2)) == b'>')

  -- What the packet buffer has when the parser begins.
  abbrev pub before_parsing : Bool → Parsing
  before_parsing cwop = record {
    position = false;
    object = false;
    item = false;
    message = false;
    nws = false;
    wx = false;
    telemetry = false;
    query = false;
    status = false;
    userdef = false;
    cwop = cwop;
    statcapa = false;
    third_party = false;
    symbol = none;
    has_pos = pb.has_pos;
    lat = pb.lat;
    lng = pb.lng;
    cos_lat = pb.cos_lat;
    srcname = pb.srcname;
    srcname_len = pb.srcname_len;
    dstname = 0;
    dstname_len = 0;
  }

  unfoldable pub parse_aprs : Option (ParseAnswer × Parsing)
  unfolding is_cwop parse_aprs_body
  parse_aprs = parse_aprs_body (suc pb.packet_len) (before_parsing is_cwop) pb.info_start
