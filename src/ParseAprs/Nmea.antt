-- ===== src/ParseAprs/Nmea.antt =====
-- src/parse_aprs.c: NMEA sentences. The pointers to the coordinates are offsets, which may run over
-- the end of the packet.
use aprsc.Prelude.{
  ℕ, zero, suc, ◌+◌, ◌-◌, Bool, true, not, ◌&&◌, ◌||◌, Option, none, some, List, [], ◌∷◌, ltb, leb,
  ◌==◌, if◌then◌else◌, Bytes, codes, drop,
}
use aprsc.Packet.{Pbuf}
use aprsc.ParseAprs.Scanf.{
  Directive, number, float, char, literal, Value, integer, real, character, sscanf, until_nul,
}
use aprsc.ParseAprs.{
  Floats, Parsing, ParseAnswer, nothing, located, hemisphere, reads_as, pbuf_fill_pos, body_end,
  memory, byte_of,
}
use aprsc.ParseAprs.Symbol.{get_symbol_from_dstcall}

-- Where the coordinates are; or the sentence is recognised and ignored, is refused, or is unknown.
pub data Sentence : Type 0 where
  coordinates : ℕ → ℕ → Sentence
  ignored invalid unknown : Sentence

-- "%2d%f,%c," and "%3d%f,%c,"; what the last comma matches is not counted.
abbrev pub coordinate_format : ℕ → List Directive
coordinate_format w = number w ∷ float ∷ literal b',' ∷ char ∷ []

module _ (at : ℕ → ℕ) (body_end : ℕ) where
  -- Up to a comma or the end, in at most so many steps: there are no more before the end.
  unfoldable pub scan_comma : ℕ → ℕ → ℕ
  scan_comma zero p = p
  scan_comma (suc steps) p =
      let further = scan_comma steps (p + 1) in
      if ltb p body_end && not (at p == b',') then further else p

  -- As the loops of $PNTS, which go on at the end itself.
  unfoldable pub scan_comma_past : ℕ → ℕ → ℕ
  scan_comma_past zero p = p
  scan_comma_past (suc steps) p =
      let further = scan_comma_past steps (p + 1) in
      if not (at p == b',') && leb p body_end then further else p

  abbrev pub to_comma : ℕ → ℕ
  to_comma p = scan_comma (body_end - p) p

  abbrev pub over : ℕ → ℕ
  over p = if at p == b',' then p + 1 else p

  abbrev pub over_other : ℕ → ℕ
  over_other p = if at p == b',' then p else p + 1

  -- From the latitude to the longitude: over the number, a comma, the letter and a comma.
  unfoldable pub longitude_from : ℕ → ℕ
  unfolding scan_comma
  longitude_from latp = over (over_other (over (to_comma latp)))

  abbrev pub past_field : ℕ → ℕ
  past_field p = over (scan_comma_past (body_end + 1 - p) p)

  abbrev pub with_latitude : ℕ → Sentence
  with_latitude latp = coordinates latp (longitude_from latp)

  -- $GPRMC from its status on.
  abbrev pub after_status : ℕ → Sentence
  after_status p =
      if not (at p == b'A') && not (at p == b'V') then invalid else with_latitude (over (p + 1))

  -- The keyword, and the offsets behind it. $GPWPL gets no longitude, and so is unknown.
  unfoldable pub sentence_at : ℕ → Sentence
  unfolding reads_as scan_comma scan_comma_past longitude_from
  sentence_at body =
      if reads_as at body (codes "GPGGA,")
      then with_latitude (over (to_comma (body + 6)))
      else if reads_as at body (codes "GPGLL,")
      then with_latitude (body + 6)
      else if reads_as at body (codes "GPRMC,")
      then after_status (over (to_comma (body + 6)))
      else if reads_as at body (codes "GPWPL,")
      then unknown
      else if reads_as at body (codes "PNTS,1,")
      then if ltb body_end (body + 55) || (at (body + 7) == b',' || not (at (body + 8) == b','))
        then invalid
        else with_latitude (past_field (past_field (past_field (past_field (body + 9)))))
      else if reads_as at body (codes "GPGSA,")
          || (reads_as at body (codes "GPVTG,") || reads_as at body (codes "GPGSV,"))
      then ignored
      else unknown

-- The symbol of the callsign, or two spaces.
abbrev pub symbol_or_space : Option (ℕ × ℕ) → ℕ × ℕ
symbol_or_space none = (32, 32)
symbol_or_space (some symbol) = symbol

module _ (fl : Floats) (beyond : Bytes) (pb : Pbuf) where
  open fl use {of_nat, decimal, add, div, neg, single, strtof}

  -- Degrees, which may be negative, and minutes.
  unfoldable pub nmea_degrees : Bool → Bool → ℕ → ℕ → ℕ
  nmea_degrees south negative deg min =
      let whole = single (of_nat deg) in
      let x = single (add (if negative then neg whole else whole) (div min (decimal 60 0))) in
      if south then neg x else x

  unfoldable pub from_coordinates : Parsing → List Value → List Value → ParseAnswer × Parsing
  unfolding nmea_degrees get_symbol_from_dstcall pbuf_fill_pos
  from_coordinates st (integer s0 la ∷ real lat ∷ character lac ∷ [])
        (integer s1 lo ∷ real lng ∷ character loc ∷ []) =
      elim (hemisphere b'S' b'N' lac) [
        | none ↦ (nothing, st)
        | some south ↦ elim (hemisphere b'W' b'E' loc) [
          | none ↦ (nothing, st)
          | some west ↦
              let symbol = symbol_or_space (get_symbol_from_dstcall (byte_of pb beyond) pb) in
              pbuf_fill_pos fl (record st { position = true }) (nmea_degrees south s0 la lat)
                (nmea_degrees west s1 lo lng) symbol.0 symbol.1
        ]
      ]
  from_coordinates st _ _ = (nothing, st)

  unfoldable pub read_coordinates : Parsing → ℕ → ℕ → ParseAnswer × Parsing
  unfolding until_nul sscanf from_coordinates
  read_coordinates st latp lngp =
      elim (sscanf strtof (coordinate_format 2) (until_nul (drop latp (memory pb beyond)))) [
        | none ↦ (nothing, st)
        | some lats ↦
            elim (sscanf strtof (coordinate_format 3) (until_nul (drop lngp (memory pb beyond)))) [
              | none ↦ (nothing, st)
              | some lngs ↦ from_coordinates st lats lngs
            ]
      ]

  unfoldable pub parse_aprs_nmea : Parsing → ℕ → ParseAnswer × Parsing
  unfolding reads_as sentence_at read_coordinates
  parse_aprs_nmea st body =
      if reads_as (byte_of pb beyond) body (codes "ULT")
      then (located, record st { wx = true })
      else elim (sentence_at (byte_of pb beyond) (body_end pb) body) [
        | coordinates latp lngp ↦ read_coordinates st latp lngp
        | ignored ↦ (located, st)
        | invalid ↦ (nothing, st)
        | unknown ↦ (nothing, st)
      ]
