-- ===== src/ParseAprs/Payload.antt =====
-- src/parse_aprs.c: objects, items and messages.
use aprsc.Prelude.{
  ℕ, zero, suc, ◌+◌, Bool, true, not, ◌&&◌, ◌||◌, Option, none, some, List, [], ◌∷◌, ltb, leb, ◌==◌,
  if◌then◌else◌, Bytes, codes,
}
use aprsc.Packet.{Pbuf}
use aprsc.Qconstruct.Parse.{slice}
use aprsc.Incoming.Error.{dis_msg_dst}
use aprsc.Incoming.Callsign.{call_max, check_call_match}
use aprsc.Prelude.Atoi.{is_digit}
use aprsc.ParseAprs.Position.{parse_aprs_compressed, parse_aprs_uncompressed}
use aprsc.ParseAprs.{
  Floats, Parsing, ParseAnswer, nothing, refused, is_between, valid_sym_table_compressed, reads_as,
  memory, byte_of,
}

-- `disallow_msg_recipients`
abbrev pub disallow_msg_recipients : List Bytes
disallow_msg_recipients =
    codes "javaMSG" ∷ codes "JAVATITLE" ∷ codes "JAVATITL2" ∷ codes "USERLIST" ∷ codes "KIPSS" ∷ []

-- Printable characters, so many from an offset on.
unfoldable pub all_printable : (ℕ → ℕ) → ℕ → ℕ → Bool
all_printable at i zero = true
all_printable at i (suc n) = is_between 0x20 0x7e (at i) && all_printable at (i + 1) n

-- The length of a name of so many characters without its trailing spaces.
unfoldable pub name_len : (ℕ → ℕ) → ℕ → ℕ → ℕ
name_len at body zero = 0
name_len at body (suc n) = if at (body + n) == b' ' then name_len at body n else suc n

-- How many characters of an item's name come before its end, at most so many; none where one of
-- them is not printable.
unfoldable pub item_len : (ℕ → ℕ) → ℕ → ℕ → Option ℕ
item_len at i zero = some 0
item_len at i (suc n) =
    let rest = item_len at (i + 1) n in
    if at i == b'!' || at i == b'_'
    then some 0
    else if is_between 0x20 0x7e (at i)
    then elim rest [ none ↦ none | some k ↦ some (suc k) ]
    else none

-- The length of a recipient that is padded with spaces, at most so many characters.
unfoldable pub recipient_len : (ℕ → ℕ) → ℕ → ℕ → ℕ
recipient_len at i zero = 0
recipient_len at i (suc n) =
    let rest = recipient_len at (i + 1) n in
    if at i == b' ' || (at i == b':' || at i == 0) then 0 else suc rest

-- What is written for a message, and whether its recipient is allowed.
unfoldable pub message_parsed : Parsing → Bool → Bool → ℕ → ℕ → Bytes → ParseAnswer × Parsing
unfolding check_call_match
message_parsed st nws telemetric dstname dstname_len recipient =
    let st' = record st {
      nws = st.nws || nws;
      message = st.message && not telemetric;
      telemetry = st.telemetry || telemetric;
      dstname = dstname;
      dstname_len = dstname_len;
    } in
    if check_call_match disallow_msg_recipients recipient
    then (refused dis_msg_dst, st')
    else (nothing, st')

module _ (fl : Floats) (beyond : Bytes) (pb : Pbuf) where
  -- A position at an offset where a character says which format it has.
  unfoldable pub parse_position : Parsing → ℕ → ParseAnswer × Parsing
  unfolding valid_sym_table_compressed parse_aprs_compressed parse_aprs_uncompressed
  parse_position st p =
      let c = byte_of pb beyond p in
      if valid_sym_table_compressed c
      then parse_aprs_compressed fl (byte_of pb beyond) pb st p
      else if is_digit c
      then parse_aprs_uncompressed fl (byte_of pb beyond) pb st p
      else (nothing, st)

  abbrev pub is_object_end : ℕ → Bool
  is_object_end c = c == b'*' || c == b'_'

  abbrev pub is_time_end : ℕ → Bool
  is_time_end c = c == b'z' || (c == b'h' || c == b'/')

  unfoldable pub parse_aprs_object : Parsing → ℕ → ParseAnswer × Parsing
  unfolding all_printable name_len parse_position
  parse_aprs_object st body =
      let at = byte_of pb beyond in
      let st' = record st { object = true } in
      if not (is_object_end (at (body + 9)))
      then (nothing, st')
      else if not (is_time_end (at (body + 16)))
      then (nothing, st')
      else if not (all_printable at body 9)
      then (nothing, st')
      else if name_len at body 9 == 0
      then (nothing, st')
      else parse_position (record st' { srcname = body; srcname_len = name_len at body 9 })
          (body + 17)

  unfoldable pub parse_aprs_item : Parsing → ℕ → ParseAnswer × Parsing
  unfolding item_len parse_position
  parse_aprs_item st body =
      let at = byte_of pb beyond in
      let st' = record st { item = true } in
      elim (item_len at body 9) [
        | none ↦ (nothing, st')
        | some i ↦
            if not (at (body + i) == b'!' || at (body + i) == b'_')
            then (nothing, st')
            else if ltb i 3 || ltb 9 i
            then (nothing, st')
            else parse_position (record st' { srcname = body; srcname_len = i }) (body + i + 1)
      ]

  abbrev pub is_telemetry : ℕ → ℕ → Bool
  is_telemetry body body_len =
      let at = byte_of pb beyond in
      at (body + 9) == b':'
      && (leb 16 body_len
          && (reads_as at (body + 10) (codes "PARM.")
              || (reads_as at (body + 10) (codes "UNIT.")
                  || (reads_as at (body + 10) (codes "EQNS.")
                      || reads_as at (body + 10) (codes "BITS.")))))

  abbrev pub is_nws : ℕ → Bool
  is_nws body =
      let at = byte_of pb beyond in
      reads_as at body (codes "NWS-")
      || (reads_as at body (codes "NWS_") || reads_as at body (codes "SKY"))

  unfoldable pub preparse_aprs_message : Parsing → ℕ → ℕ → ParseAnswer × Parsing
  unfolding reads_as recipient_len
  preparse_aprs_message st body body_len =
      let i = recipient_len (byte_of pb beyond) body call_max in
      message_parsed st (is_nws body) (is_telemetry body body_len) body i
        (slice (memory pb beyond) body (body + i))
