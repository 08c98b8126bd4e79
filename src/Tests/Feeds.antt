-- ===== src/Tests/Feeds.antt =====
-- Filters of src/filter.c on a few packets and callsigns.
use aprsc.Prelude.{
  ℕ, ◌≡◌, ◌<◌, ◌↔◌, refl, arith, true, false, some, List, [], ◌∷◌, ◌++◌, codes, length, Any,
}
use aprsc.Prelude.Int.{ℤ, pos}
use aprsc.Filter.Callsigns.{
  RefCall, match_wild, filter_parse_one_callsignset, filter_match_on_callsignset,
}
use aprsc.Filter.Callsigns.Text.{IsPlain, callsignset_round_trip}
use aprsc.Filter.Callsigns.Matching.{IsOf, callsign_match_exact}
use aprsc.Filter.Stations.{entrycall_shape, lookup_station}
use aprsc.Filter.Stations.Lifetime.{
  StationEvent, note, ask, clean, station_run, stations_are_never_found,
}
use aprsc.Filter.Process.{Filter, Filters, is_positive, filter_process}
use aprsc.Filter.Process.Verdicts.{IsPassed, filter_process_exact}

abbrev finland : RefCall
finland = record { callsign = codes "OH"; wildcard = true; negation = false }

abbrev one_call : RefCall
one_call = record { callsign = codes "W1AW"; wildcard = false; negation = false }

letter : (c : ℕ) → 47 < c → IsPlain c
letter c h = ((λ e. absurd (omega arith)), (λ e. absurd (omega arith)))

callsignset_round_trip_example :
    filter_parse_one_callsignset match_wild [] (codes "b" ++ codes "/OH*/W1AW")
    ≡ some (finland ∷ one_call ∷ [])
callsignset_round_trip_example =
    callsignset_round_trip [] (codes "b") finland (one_call ∷ []) ((λ e. absurd (omega arith)), tt)
      (
        record {
          plain = (letter 79 (omega arith), (letter 72 (omega arith), tt));
          some_char = omega arith;
          short = omega arith;
          same_sign = refl;
        },
        (
          record {
            plain = (
              letter 87 (omega arith),
              (letter 49 (omega arith), (letter 65 (omega arith), (letter 87 (omega arith), tt))),
            );
            some_char = omega arith;
            short = omega arith;
            same_sign = refl;
          },
          tt,
        ),
      )

finland_parsed :
    filter_parse_one_callsignset match_wild [] (codes "b/OH*/W1AW") ≡ some (finland ∷ one_call ∷ [])
finland_parsed = callsignset_round_trip_example

callsign_match_exact_example :
    (filter_match_on_callsignset match_wild (codes "oh7lzb") (finland ∷ one_call ∷ []) ≡ 1)
    ↔ Any (IsOf match_wild (codes "oh7lzb")) (finland ∷ one_call ∷ [])
callsign_match_exact_example =
    callsign_match_exact match_wild (codes "oh7lzb") [] (codes "b/OH*/W1AW") tt finland_parsed

abbrev day : List StationEvent
day =
    note 100 (codes "OH7LZB")
    ∷ ask 110 (codes "OH7LZB")
    ∷ clean 160
    ∷ note 170 (codes "OH2RDP")
    ∷ []

stations_are_never_found_example :
    lookup_station entrycall_shape 200 (codes "OH7LZB") (station_run entrycall_shape (λ i. []) day)
    ≡ false
stations_are_never_found_example =
    stations_are_never_found entrycall_shape 100 200 (codes "OH7LZB") day (omega arith)
      (omega arith) (omega arith, (omega arith, omega arith))

abbrev buddies : Filter
buddies = record { kind = b'b'; names = finland ∷ []; bitflags = 0 }

abbrev others : Filter
others = record { kind = b'p'; names = one_call ∷ []; bitflags = 0 }

abbrev answers : Filter → ℤ
answers f = pos (length f.names)

abbrev feed : Filters
feed = record {
  igate_passes = false;
  negdefault = [];
  posdefault = [];
  neguser = buddies ∷ [];
  posuser = others ∷ [];
}

filter_process_exact_example :
    (is_positive (filter_process answers (λ f. pos 0) feed) ≡ true) ↔ IsPassed answers feed
filter_process_exact_example = filter_process_exact answers (λ f. pos 0) feed (refl, tt) (refl, tt)
