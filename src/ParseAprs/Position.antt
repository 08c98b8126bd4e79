-- ===== src/ParseAprs/Position.antt =====
-- src/parse_aprs.c: the position formats, Mic-E, compressed and uncompressed.
pub mod Mice
pub mod Reads
use aprsc.Prelude.{
  ℕ, ◌+◌, ◌-◌, ◌*◌, Bool, true, false, not, ◌&&◌, ◌||◌, Option, none, some, List, [], ◌∷◌, ltb, leb,
  ◌==◌, if◌then◌else◌, Bytes,
}
use aprsc.Packet.{Pbuf}
use aprsc.ParseAprs.Scanf.{
  Directive, number, char, literal, Value, integer, character, sscanf, unsigned, until_nul,
}
use aprsc.ParseAprs.{
  Floats, Parsing, ParseAnswer, nothing, hemisphere, is_between, valid_sym_table_uncompressed,
  pbuf_fill_pos, minus, body_end,
}

-- Four characters in base 91.
unfoldable pub base91 : (ℕ → ℕ) → ℕ → ℕ
base91 at i =
    (((at i - 33) * 91 + (at (i + 1) - 33)) * 91 + (at (i + 2) - 33)) * 91 + (at (i + 3) - 33)

abbrev pub is_base91 : ℕ → Bool
is_base91 c = is_between 0x21 0x7b c

-- So many characters from an offset on.
unfoldable pub all_base91 : (ℕ → ℕ) → ℕ → ℕ → Bool
all_base91 at i ℕ.zero = true
all_base91 at i (ℕ.suc n) = is_base91 (at i) && all_base91 at (i + 1) n

-- A space of an ambiguous position is replaced.
abbrev pub or_digit : ℕ → ℕ → ℕ
or_digit d c = if c == b' ' then d else c

-- The local copy of 19 characters, from an offset on, with the ambiguity filled in.
unfoldable pub posbuf : (ℕ → ℕ) → ℕ → Bytes
posbuf at i =
    at i
    ∷ at (i + 1)
    ∷ or_digit b'3' (at (i + 2))
    ∷ or_digit b'5' (at (i + 3))
    ∷ at (i + 4)
    ∷ or_digit b'5' (at (i + 5))
    ∷ or_digit b'5' (at (i + 6))
    ∷ at (i + 7)
    ∷ at (i + 8)
    ∷ at (i + 9)
    ∷ at (i + 10)
    ∷ at (i + 11)
    ∷ or_digit b'3' (at (i + 12))
    ∷ or_digit b'5' (at (i + 13))
    ∷ at (i + 14)
    ∷ or_digit b'5' (at (i + 15))
    ∷ or_digit b'5' (at (i + 16))
    ∷ at (i + 17)
    ∷ at (i + 18)
    ∷ []

-- "%2u%2u.%2u%c%c%3u%2u.%2u%c%c"
abbrev pub position_format : List Directive
position_format =
    number 2
    ∷ number 2
    ∷ literal b'.'
    ∷ number 2
    ∷ char
    ∷ char
    ∷ number 3
    ∷ number 2
    ∷ literal b'.'
    ∷ number 2
    ∷ char
    ∷ char
    ∷ []

module _ (fl : Floats) where
  open fl use {of_nat, decimal, add, div, single, strtof}

  -- Degrees, minutes and hundredths of minutes.
  unfoldable pub degrees_of : ℕ → ℕ → ℕ → ℕ
  degrees_of deg min min_frag = single (
      add (add (single (of_nat deg)) (div (single (of_nat min)) (decimal 60 0)))
        (div (single (of_nat min_frag)) (decimal 6000 0)))

  abbrev pub signed : Bool → ℕ → ℕ
  signed negative x = if negative then minus fl x else x

  -- The coordinates that were read, once the letters are known.
  abbrev pub fill_degrees :
      Parsing → Bool → ℕ → ℕ → ℕ → Bool → ℕ → ℕ → ℕ → ℕ → ℕ → ParseAnswer × Parsing
  fill_degrees st south lat_deg lat_min lat_min_frag west lng_deg lng_min lng_min_frag sym_table
        sym_code =
      if ltb 89 lat_deg || ltb 179 lng_deg
      then (nothing, st)
      else pbuf_fill_pos fl st (signed south (degrees_of lat_deg lat_min lat_min_frag))
          (signed west (degrees_of lng_deg lng_min lng_min_frag))
          (if valid_sym_table_uncompressed sym_table then sym_table else 0) sym_code

  unfoldable pub from_values : Parsing → List Value → ParseAnswer × Parsing
  unfolding degrees_of pbuf_fill_pos
  from_values st
        (integer s0 lat_deg
          ∷ integer s1 lat_min
          ∷ integer s2 lat_min_frag
          ∷ character lat_hemi
          ∷ character sym_table
          ∷ integer s3 lng_deg
          ∷ integer s4 lng_min
          ∷ integer s5 lng_min_frag
          ∷ character lng_hemi
          ∷ character sym_code
          ∷ []) =
      elim (hemisphere b'S' b'N' lat_hemi) [
        | none ↦ (nothing, st)
        | some south ↦ elim (hemisphere b'W' b'E' lng_hemi) [
          | none ↦ (nothing, st)
          | some west ↦
              fill_degrees st south (unsigned s0 lat_deg) (unsigned s1 lat_min)
                (unsigned s2 lat_min_frag) west (unsigned s3 lng_deg) (unsigned s4 lng_min)
                (unsigned s5 lng_min_frag) sym_table sym_code
        ]
      ]
  from_values st _ = (nothing, st)

  -- The local copy, scanned.
  unfoldable pub scanned : Parsing → Bytes → ParseAnswer × Parsing
  unfolding sscanf from_values
  scanned st s = elim (sscanf strtof position_format s) [
    | none ↦ (nothing, st)
    | some values ↦ from_values st values
  ]

module _ (fl : Floats) (at : ℕ → ℕ) (pb : Pbuf) where
  open fl use {of_nat, decimal, add, sub, div, single}

  unfoldable pub parse_aprs_compressed : Parsing → ℕ → ParseAnswer × Parsing
  unfolding base91 all_base91 pbuf_fill_pos
  parse_aprs_compressed st body =
      if ltb (body_end pb) (body + 13)
      then (nothing, st)
      else if not (all_base91 at (body + 1) 8)
      then (nothing, st)
      else pbuf_fill_pos fl st
          (single (
            sub (decimal 90 0)
              (single (div (single (of_nat (base91 at (body + 1)))) (decimal 380926 0)))))
          (single (
            add (minus fl (decimal 180 0))
              (single (div (single (of_nat (base91 at (body + 5)))) (decimal 190463 0)))))
          (at body) (at (body + 9))

  unfoldable pub parse_aprs_uncompressed : Parsing → ℕ → ParseAnswer × Parsing
  unfolding posbuf until_nul scanned
  parse_aprs_uncompressed st body =
      if ltb (body_end pb) (body + 19)
      then (nothing, st)
      else scanned fl st (until_nul (posbuf at body))
