-- ===== src/Tests/Ranges.antt =====
-- The filters of src/filter.c by distance and by symbol.
use aprsc.Prelude.{◌≡◌, refl, sym, ◌∙◌, true, false, none, some, [], ◌∷◌, codes, ltb, Any}
use aprsc.Packet.{Pbuf}
use aprsc.Historydb.{Cell}
use aprsc.ParseAprs.{Floats}
use aprsc.Filter.Range.{
  Trig, RangeFilter, maidenhead_km_distance, within, refreshed, filter_process_one_f,
}
use aprsc.Filter.Range.Recent.{RangeEvent, friend_run, IsRecent, friend_match_has_place}
use aprsc.Filter.Kinds.{SymbolFilter, filter_parse_one_s, filter_process_one_s}
use aprsc.Filter.Kinds.Symbols.{symbols_text, symbols_round_trip}
use aprsc.Prelude.{memchr}
use aprsc.Tests.Parser.{integers}
use aprsc.Tests.Purge.{packet}

abbrev whole : Floats
whole = record integers { is_less = λ a b. ltb a b }

abbrev flat : Trig
flat = record { sinf = λ x. x; sqrtf = λ x. x; atan2f = λ x y. x }

abbrev friend_filter : RangeFilter
friend_filter = record {
  negation = false;
  callsign = codes "OH7LZB";
  lat_n = 0;
  lat_s = 0;
  lon_e = 0;
  lon_w = 0;
  center = record { lat = 0; lng = 0; cos_lat = 0 };
  dist = 50;
  hist_age = 0;
  known = false;
}

abbrev heard : Cell
heard = record {
  key = codes "OH7LZB";
  hash1 = 0;
  report = record {
    arrivaltime = 100;
    lat = 60;
    coslat = 1;
    lon = 25;
    position = true;
    object = false;
    item = false;
    dupe = false;
    has_pos = true;
    from_upstr = false;
    from_downstr = false;
  };
}

abbrev nearby : Pbuf
nearby = record (packet 1 100) { has_pos = true; lat = 60; lng = 25; cos_lat = 1 }

abbrev looked_up : RangeEvent
looked_up = record { tick = 105; look = λ call. some heard; packet = nearby }

abbrev from_memory : RangeEvent
from_memory = record { tick = 110; look = λ call. none; packet = nearby }

friend_is_near :
    (filter_process_one_f whole flat 110
      (λ call. none)
      nearby
      (friend_run whole flat friend_filter (looked_up ∷ []))).0
    ≡ 1
unfolding filter_process_one_f friend_run refreshed within maidenhead_km_distance
friend_is_near = refl

friend_match_has_place_example :
    Any
      (IsRecent whole flat friend_filter from_memory (
        (filter_process_one_f whole flat 110
          (λ call. none)
          nearby
          (friend_run whole flat friend_filter (looked_up ∷ []))).0))
      (from_memory ∷ looked_up ∷ [])
friend_match_has_place_example =
    friend_match_has_place whole flat friend_filter (looked_up ∷ []) from_memory refl
      (λ e. let no : 1 ≡ 0 = sym friend_is_near ∙ e in cc)

abbrev digis : SymbolFilter
digis = record {
  negation = false;
  primary = codes "->";
  alternate = codes "#";
  overlays = codes "T";
}

symbols_round_trip_example : filter_parse_one_s false (symbols_text digis) ≡ some digis
symbols_round_trip_example =
    symbols_round_trip digis
      (record { primary = (refl, (refl, tt)); alternate = (refl, tt); overlaid = λ e. cc })

-- A digipeater with the overlay T passes, one with the overlay S does not.
digi_with_overlay : filter_process_one_s b'T' b'#' digis ≡ 1
unfolding filter_process_one_s memchr
digi_with_overlay = refl

digi_with_other_overlay : filter_process_one_s b'S' b'#' digis ≡ 0
unfolding filter_process_one_s memchr
digi_with_other_overlay = refl
