-- ===== src/Tests/History.antt =====
-- The table of src/historydb.c and the thread of src/dupecheck.c on a few packets.
use aprsc.Prelude.{◌≤◌, ◌≡◌, refl, arith, true, false, List, [], ◌∷◌, codes, none, some, memchr}
use aprsc.Packet.{Pbuf}
use aprsc.Historydb.{
  Historydb, historydb_insert, historydb_lookup, historydb_cleanup, key_of, named_until, cut_at,
  c_string, hash_modulo,
}
use aprsc.Historydb.Chain.{found}
use aprsc.Historydb.Refines.{
  HistoryEvent, insert, lookup, cleanup, history_run, latest_run, history_refines_map, empty,
  valid_report,
}
use aprsc.Historydb.Gauge.{start, inserted, cleaned, total, gauge_counts_cells}
use aprsc.Dupecheck.Drain.{Setup, Thread, Turn, thread_run}
use aprsc.Dupecheck.Drain.Same.{AreDistinct}
use aprsc.Dupecheck.Drain.Unique.{no_duplicate_is_sent}
use aprsc.Tests.Dupes
use aprsc.Tests.Purge.{packet}

-- A position, and an object that is killed.
abbrev beacon : Pbuf
beacon = record (packet 0 100) {
  bytes = codes "OH7LZB>APRS:!6028.51N/02505.68E#";
  packet_len = 34;
  dstcall_end_or_ssid = 11;
  info_start = 12;
  srcname_len = 6;
  has_pos = true;
  position = true;
  lat = 7;
}

abbrev killed : Pbuf
killed = record (packet 0 200) {
  bytes = codes "OH7LZB>APRS:;LEADER   _092345z4903.50N/07201.75W>";
  packet_len = 51;
  dstcall_end_or_ssid = 11;
  info_start = 12;
  has_pos = true;
  object = true;
}

beacon_key : key_of beacon ≡ some (codes "OH7LZB", false)
unfolding key_of named_until cut_at c_string memchr
beacon_key = refl

-- The name of an object keeps the spaces that it is padded with.
killed_key : key_of killed ≡ some (codes "LEADER   ", true)
unfolding key_of named_until cut_at c_string memchr
killed_key = refl

abbrev history : List HistoryEvent
history = insert 100 beacon ∷ lookup 110 (codes "OH7LZB") ∷ insert 200 killed ∷ cleanup 260 ∷ []

history_refines_map_example :
    found (historydb_lookup 300 86400 (codes "OH7LZB") (history_run 86400 empty history)).0
    ≡ valid_report 300 86400 (latest_run (λ k. none) history (codes "OH7LZB"))
history_refines_map_example =
    history_refines_map 86400 100 300 history (codes "OH7LZB")
      (omega arith, (omega arith, (omega arith, (omega arith, omega arith))))

abbrev one_beacon : Historydb
one_beacon = historydb_cleanup 150 86400 (historydb_insert true 100 86400 beacon empty).1

gauge_counts_cells_example : one_beacon.cellgauge ≡ total hash_modulo one_beacon.hash
gauge_counts_cells_example =
    gauge_counts_cells {storetime = 86400} {db = one_beacon}
      (cleaned 150 (inserted 100 beacon start))

abbrev setup : Setup
setup = record {
  dupe_storetime = 30;
  position_storetime = 86400;
  have_filtered_listeners = true;
  room = true;
}

abbrev thread : Thread
thread = record {
  tables = record {
    db = Dupes.empty;
    history = empty;
    seqnum = 5;
    dupe_seqnum = 2;
    out = [];
    out_dupe = [];
  };
  pbuf_global = [];
  pbuf_global_dupe = [];
  pbuf_global_count = 0;
  pbuf_global_dupe_count = 0;
  outcount = 0;
  dupecount = 0;
}

-- The beacon comes in by two workers, and once more behind the cleanup.
abbrev turns : List Turn
turns =
    record {
      workers = ((100, beacon) ∷ []) ∷ ((101, beacon) ∷ (101, killed) ∷ []) ∷ [];
      cleaned = some 105;
    }
    ∷ record { workers = ((120, beacon) ∷ []) ∷ []; cleaned = none }
    ∷ []

in_window : (100 ≤ 101) × (101 ≤ 130)
in_window = (omega arith, omega arith)

no_duplicate_is_sent_example : AreDistinct (thread_run setup turns thread).pbuf_global
no_duplicate_is_sent_example = no_duplicate_is_sent setup 100 130 turns thread (omega arith) refl (
    (
      (
        (((omega arith, omega arith), tt), ((in_window, (in_window, tt)), tt)),
        (omega arith, omega arith),
      ),
      (((((omega arith, omega arith), tt), tt), tt), tt),
    ))
