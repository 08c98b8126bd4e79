-- ===== src/Filter.antt =====
-- src/filter.c: which packets a client's filters let through, and what the module adds to a packet.
pub mod Callsigns
pub mod Igate
pub mod Kinds
pub mod Process
pub mod Range
pub mod Stations
use aprsc.Prelude.{ℕ, true, not, Option, none, some, if◌then◌else◌, take, drop}
use aprsc.Packet.{Pbuf}
use aprsc.Historydb.{Historydb, Cell, historydb_lookup}

-- The position of the cell that the look-up found.
unfoldable pub located : Option Cell → Pbuf → Pbuf
located none pb = pb
located (some cp) pb = record pb {
  lat = cp.report.lat;
  lng = cp.report.lon;
  cos_lat = cp.report.coslat;
  has_pos = true;
}

-- A packet without a position gets the one that its sender was last heard with.
unfoldable pub filter_postprocess_dupefilter : ℕ → ℕ → Pbuf → Historydb → Pbuf × Historydb
unfolding located
filter_postprocess_dupefilter tick storetime pb history =
    let key = take pb.srcname_len (drop pb.srcname pb.bytes) in
    let (hist, history') = historydb_lookup tick storetime key history in
    if not pb.has_pos then (located hist pb, history') else (pb, history)
