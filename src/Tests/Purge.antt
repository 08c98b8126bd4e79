-- ===== src/Tests/Purge.antt =====
-- The purge of src/dupecheck.c on a queue of two packets.
use aprsc.Prelude.{arith, ℕ, ◌≡◌, refl, false, none, List, [], ◌∷◌, codes, All}
use aprsc.Prelude.Int.{pos, negsuc}
use aprsc.Packet.{Pbuf}
use aprsc.Dupecheck.Lag.{
  higher, pbuf_seqnum_lag, worker_lag, Limits, global_pbuf_purger, purge_loop,
}
use aprsc.Dupecheck.Lag.Purge.{Purges, joined}
use aprsc.Dupecheck.Lag.Ahead.{IsLeft, purge_leaves_unsent}

-- A packet `SRC>APRS:>up` with its CRLF.
abbrev pub packet : ℕ → ℕ → Pbuf
packet seqnum t = record {
  origin = none;
  bytes = codes "SRC>APRS:>up\r\n";
  packet_len = 14;
  buf_len = 180;
  srcname = 0;
  srcname_len = 3;
  srccall_end = 3;
  dstcall_end_or_ssid = 8;
  dstcall_end = 8;
  dstcall_len = 4;
  qconst_start = 8;
  info_start = 9;
  entrycall_len = 0;
  seqnum = seqnum;
  t = t;
  lat = 0;
  lng = 0;
  cos_lat = 0;
  dupe = false;
  has_pos = false;
  from_upstr = false;
  from_downstr = false;
  position = false;
  object = false;
  item = false;
}

abbrev limits : Limits
limits = record {
  all = false;
  tick = 1000;
  expiration = 60;
  count_limit = 0;
  seqnum = 100;
  lag = pos 3;
}

-- Of the packets 96 to 100 the slowest worker has taken that of number 97.
abbrev workers : List ℕ
workers = 98 ∷ 97 ∷ []

abbrev queue : List Pbuf
queue = packet 96 900 ∷ packet 97 900 ∷ packet 98 910 ∷ packet 99 910 ∷ packet 100 910 ∷ []

highest : limits.lag ≡ worker_lag limits.seqnum (negsuc 0) workers
unfolding worker_lag pbuf_seqnum_lag higher
highest = refl

purge_leaves_unsent_example :
    Purges limits [] queue 5 (global_pbuf_purger limits queue 5)
    × All (IsLeft limits.seqnum (joined (global_pbuf_purger limits queue 5).batches) queue) workers
purge_leaves_unsent_example =
    purge_leaves_unsent limits workers queue 5 95 highest (omega arith)
      (refl, (refl, (refl, (refl, (refl, refl)))))
      ((λ e. cc), ((λ e. cc), ((λ e. cc), ((λ e. cc), ((λ e. cc), tt))))) (omega arith)
      (omega arith, (omega arith, tt))

-- The packet of number 96 is freed.
one_is_freed : (global_pbuf_purger limits queue 5).count ≡ 4
unfolding global_pbuf_purger purge_loop pbuf_seqnum_lag
one_is_freed = refl
