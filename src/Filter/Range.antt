-- ===== src/Filter/Range.antt =====
-- src/filter.c: the filters by distance, a, f, m and r, with the position that f, m and T keep from the
-- history database. A position is in radians.
pub mod Recent
use aprsc.Prelude.{
  ℕ, ◌+◌, Bool, true, false, not, ◌&&◌, ◌||◌, Option, none, some, List, [], ◌∷◌, ltb, ◌==◌,
  if◌then◌else◌, Bytes,
}
use aprsc.Packet.{Pbuf}
use aprsc.Historydb.{Cell}
use aprsc.ParseAprs.{Floats}

-- The functions of the mathematical library on floats.
pub record Trig : Type 0 where
  pub sinf : ℕ → ℕ
  pub sqrtf : ℕ → ℕ
  pub atan2f : ℕ → ℕ → ℕ

pub record Place : Type 0 where
  pub lat : ℕ
  pub lng : ℕ
  pub cos_lat : ℕ

-- `filter_t` of these filters: the box of a, the centre and the distance of the others, and until when
-- the centre is kept_place and whether there is one (`numnames`).
pub record RangeFilter : Type 0 where
  pub negation : Bool
  pub callsign : Bytes
  pub lat_n : ℕ
  pub lat_s : ℕ
  pub lon_e : ℕ
  pub lon_w : ℕ
  pub center : Place
  pub dist : ℕ
  pub hist_age : ℕ
  pub known : Bool

abbrev pub place_of_packet : Pbuf → Place
place_of_packet pb = record { lat = pb.lat; lng = pb.lng; cos_lat = pb.cos_lat }

abbrev pub place_of_cell : Cell → Place
place_of_cell cp = record { lat = cp.report.lat; lng = cp.report.lon; cos_lat = cp.report.coslat }

-- The answer of a filter that matches.
abbrev pub match_of : RangeFilter → ℕ
match_of f = if f.negation then 2 else 1

-- `HIST_LOOKUP_INTERVAL`
abbrev pub hist_lookup_interval : ℕ
hist_lookup_interval = 10

abbrev pub needs_lookup : ℕ → RangeFilter → Bool
needs_lookup tick f = ltb f.hist_age tick || ltb (tick + hist_lookup_interval) f.hist_age

-- What the look-up found is kept_place; that it found nothing is kept_place until `miss`.
abbrev pub kept_place : ℕ → ℕ → Option Cell → RangeFilter → RangeFilter
kept_place tick miss none f = record f { known = false; hist_age = miss }
kept_place tick miss (some cp) f = record f {
  known = true;
  hist_age = tick + hist_lookup_interval;
  center = place_of_cell cp;
}

unfoldable pub refreshed : ℕ → ℕ → Option Cell → RangeFilter → RangeFilter
refreshed tick miss found f = if needs_lookup tick f then kept_place tick miss found f else f

module _ (fl : Floats) (trig : Trig) where
  open fl use {of_nat, decimal, add, sub, mul, div, is_less, is_at_most, single, pi}
  open trig use {sinf, sqrtf, atan2f}

  abbrev half_sine : ℕ → ℕ → ℕ
  half_sine x y = sinf (single (mul (single (sub x y)) (decimal 5 1)))

  -- By the haversine formula.
  unfoldable pub maidenhead_km_distance : Place → Place → ℕ
  maidenhead_km_distance p q =
      let sindlat = half_sine p.lat q.lat in
      let sindlon = half_sine p.lng q.lng in
      let a = single (
        add (single (mul sindlat sindlat))
          (single (mul (single (mul (single (mul p.cos_lat q.cos_lat)) sindlon)) sindlon))) in
      let rest = single (sub (of_nat 1) a) in
      let c = single (mul (of_nat 2) (atan2f (sqrtf a) (sqrtf rest))) in
      single (mul (div (mul (decimal 1112 1) (of_nat 180)) pi) c)

  unfoldable pub within : RangeFilter → Place → Pbuf → ℕ
  unfolding maidenhead_km_distance
  within f center pb =
      if is_less (maidenhead_km_distance center (place_of_packet pb)) f.dist then match_of f else 0

  unfoldable pub filter_process_one_a : Pbuf → RangeFilter → ℕ
  filter_process_one_a pb f =
      if not pb.has_pos
      then 0
      else if is_at_most pb.lat f.lat_n
          && (is_at_most f.lat_s pb.lat && (is_at_most pb.lng f.lon_e && is_at_most f.lon_w pb.lng))
      then match_of f
      else 0

  unfoldable pub filter_process_one_r : Pbuf → RangeFilter → ℕ
  unfolding within
  filter_process_one_r pb f = if not pb.has_pos then 0 else within f f.center pb

  abbrev pub by_center : Pbuf → RangeFilter → ℕ
  by_center pb f = if f.known then within f f.center pb else 0

  -- The clock and the look-up in the history database; the filter as it is afterwards.
  unfoldable pub filter_process_one_f :
      ℕ → (Bytes → Option Cell) → Pbuf → RangeFilter → ℕ × RangeFilter
  unfolding refreshed within
  filter_process_one_f tick look pb f =
      let f' = refreshed tick (tick + hist_lookup_interval) (look f.callsign) f in
      if not pb.has_pos then (0, f) else (by_center pb f', f')

  -- With the place and the name of the client.
  unfoldable pub filter_process_one_m :
      Option Place → Bytes → ℕ → (Bytes → Option Cell) → Pbuf → RangeFilter → ℕ × RangeFilter
  unfolding refreshed within
  filter_process_one_m (some place) username tick look pb f =
      if not pb.has_pos then (0, f) else (within f place pb, f)
  filter_process_one_m none [] tick look pb f = (0, f)
  filter_process_one_m none (c ∷ name) tick look pb f =
      let f' = refreshed tick (tick + 5) (look (c ∷ name)) f in
      if not pb.has_pos then (0, f) else (by_center pb f', f')

  -- The rest of a type filter with a range, once the type matched; a failed look-up is not kept_place.
  unfoldable pub within_type_range :
      ℕ → (Bytes → Option Cell) → Pbuf → RangeFilter → ℕ × RangeFilter
  unfolding refreshed within
  within_type_range tick look pb f =
      let f' = refreshed tick f.hist_age (look f.callsign) f in
      if not pb.has_pos then (0, f) else (by_center pb f', f')
