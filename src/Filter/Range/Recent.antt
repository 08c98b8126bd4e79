-- ===== src/Filter/Range/Recent.antt =====
-- How old a position is that the filters f, m and T of src/filter.c reckon with.
use aprsc.Prelude.{
  ℕ, ◌+◌, ◌≤◌, ◌≡◌, ◌≢◌, refl, sym, ap, arith, Bool, true, false, not, Option, none, some, List, [],
  ◌∷◌, if◌then◌else◌, Bytes, ap₂, Any, Any-mono, inl, inr,
}
use aprsc.Packet.{Pbuf}
use aprsc.Historydb.{Cell}
use aprsc.ParseAprs.{Floats}
use aprsc.Filter.Range.{
  Trig, Place, RangeFilter, place_of_cell, hist_lookup_interval, needs_lookup, kept_place,
  refreshed, by_center, within, maidenhead_km_distance, place_of_packet, filter_process_one_f,
}

-- A packet that comes to the filter: the clock and the history database then, and the packet.
pub record RangeEvent : Type 0 where
  pub tick : ℕ
  pub look : Bytes → Option Cell
  pub packet : Pbuf

-- The same filter but for what it keeps.
abbrev SameFilter : RangeFilter → RangeFilter → Type 0
SameFilter f0 f = (f.callsign ≡ f0.callsign) × (f.dist ≡ f0.dist) × (f.negation ≡ f0.negation)

abbrev pub place_at : RangeEvent → Bytes → Option Place
place_at e call = elim (e.look call) [ none ↦ none | some cp ↦ some (place_of_cell cp) ]

-- The position came with this packet, and is kept for ten seconds.
abbrev IsKept : Bytes → RangeFilter → RangeEvent → Type 0
IsKept call f e = (place_at e call ≡ some f.center) × (f.hist_age ≡ e.tick + hist_lookup_interval)

abbrev AreKept : Bytes → RangeFilter → List RangeEvent → Type 0
AreKept call f es = f.known ≡ true → Any (IsKept call f) es

abbrev refresh : RangeEvent → RangeFilter → RangeFilter
refresh e f = refreshed e.tick (e.tick + hist_lookup_interval) (e.look f.callsign) f

refreshed-SameFilter :
    (f0 f : RangeFilter) (tick miss : ℕ) (found : Option Cell)
    → SameFilter f0 f
    → SameFilter f0 (refreshed tick miss found f)
unfolding refreshed
refreshed-SameFilter f0 f tick miss found h = by_age (needs_lookup tick f) found
  where
    by_age :
        (b : Bool) (found : Option Cell)
        → SameFilter f0 (if b then kept_place tick miss found f else f)
    by_age true none = h
    by_age true (some cp) = h
    by_age false found = h

refresh-AreKept :
    (call : Bytes) (f : RangeFilter) (e : RangeEvent) (es : List RangeEvent)
    → f.callsign ≡ call
    → AreKept call f es
    → AreKept call (refresh e f) (e ∷ es)
unfolding refreshed
refresh-AreKept call f e es named h =
    by_age (needs_lookup e.tick f) (e.look f.callsign) (ap e.look (sym named))
  where
    by_age :
        (b : Bool) (found : Option Cell)
        → e.look call ≡ found
        → AreKept call
            (if b then kept_place e.tick (e.tick + hist_lookup_interval) found f else f)
            (e ∷ es)
    by_age true none look k = cc
    by_age true (some cp) look k =
        inl (ap (λ o. elim o [ none ↦ none | some c ↦ some (place_of_cell c) ]) look, refl)
    by_age false found look k = inr (h k)

refresh-fresh :
    (f : RangeFilter) (e : RangeEvent)
    → (refresh e f).known ≡ true
    → (e.tick ≤ (refresh e f).hist_age) × ((refresh e f).hist_age ≤ e.tick + hist_lookup_interval)
unfolding refreshed
refresh-fresh f e = by_age (needs_lookup e.tick f) (e.look f.callsign) refl
  where
    by_age :
        (b : Bool) (found : Option Cell)
        → needs_lookup e.tick f ≡ b
        → (if b then kept_place e.tick (e.tick + hist_lookup_interval) found f else f).known ≡ true
        → (e.tick
            ≤ (if b then kept_place e.tick (e.tick + hist_lookup_interval) found f else f).hist_age)
          × ((if b then kept_place e.tick (e.tick + hist_lookup_interval) found f else f).hist_age
              ≤ e.tick + hist_lookup_interval)
    by_age true none s k = cc
    by_age true (some cp) s k = (omega arith, omega arith)
    by_age false found s k = (ground arith, ground arith)

-- Whether there is no position in the packet, or the answer and the filter afterwards.
abbrev answered : Bool → ℕ → RangeFilter → RangeFilter → ℕ × RangeFilter
answered b x f f' = if b then (0, f) else (x, f')

age-ticks :
    (t t0 age : ℕ)
    → (t ≤ age) × (age ≤ t + hist_lookup_interval)
    → age ≡ t0 + hist_lookup_interval
    → (t0 ≤ t) × (t ≤ t0 + hist_lookup_interval)
age-ticks t t0 age (lo, hi) e = (omega arith, omega arith)

module _ (fl : Floats) (trig : Trig) where
  -- The filter after the packets, the last one first.
  unfoldable pub friend_run : RangeFilter → List RangeEvent → RangeFilter
  unfolding filter_process_one_f
  friend_run f [] = f
  friend_run f (e ∷ es) = (filter_process_one_f fl trig e.tick e.look e.packet (friend_run f es)).1

  within-SameFilter :
      (f0 f : RangeFilter) (place : Place) (pb : Pbuf)
      → SameFilter f0 f
      → within fl trig f place pb ≡ within fl trig f0 place pb
  unfolding within
  within-SameFilter f0 f place pb (call, dist, sign) =
      ap₂
        (λ d n.
          if fl.is_less (maidenhead_km_distance fl trig place (place_of_packet pb)) d
          then (if n then 2 else 1)
          else 0)
        dist sign

  -- After a run from a filter that knows no place.
  abbrev Ran : RangeFilter → RangeFilter → List RangeEvent → Type 0
  Ran f0 f es = SameFilter f0 f × AreKept f0.callsign f es

  refresh-Ran :
      (f0 f : RangeFilter) (e : RangeEvent) (es : List RangeEvent)
      → Ran f0 f es
      → Ran f0 (refresh e f) (e ∷ es)
  refresh-Ran f0 f e es (same, kept_es) = (
    refreshed-SameFilter f0 f e.tick (e.tick + hist_lookup_interval) (e.look f.callsign) same,
    refresh-AreKept f0.callsign f e es (same.0) kept_es,
  )

  friend_run-Ran :
      (f0 : RangeFilter) (es : List RangeEvent) → f0.known ≡ false → Ran f0 (friend_run f0 es) es
  unfolding friend_run filter_process_one_f
  friend_run-Ran f0 [] h = ((refl, refl, refl), λ k. cc)
  friend_run-Ran f0 (e ∷ es) h =
      by_position (not e.packet.has_pos) (by_center fl trig e.packet (refresh e (friend_run f0 es)))
        (friend_run f0 es) (friend_run-Ran f0 es h)
    where
      by_position :
          (b : Bool) (x : ℕ) (f : RangeFilter)
          → Ran f0 f es
          → Ran f0 ((answered b x f (refresh e f)).1) (e ∷ es)
      by_position true x f (same, kept_es) = (same, λ k. inr (kept_es k))
      by_position false x f r = refresh-Ran f0 f e es r

  -- The verdict is that on a position which the history database gave at most ten seconds before.
  abbrev pub IsRecent : RangeFilter → RangeEvent → ℕ → RangeEvent → Type 0
  IsRecent f0 e verdict e0 =
      (place : Place) × ((place_at e0 f0.callsign ≡ some place)
        × (e0.tick ≤ e.tick)
        × (e.tick ≤ e0.tick + hist_lookup_interval)
        × (verdict ≡ within fl trig f0 place e.packet))

  by_center-IsRecent :
      (f0 f : RangeFilter) (e : RangeEvent) (es : List RangeEvent)
      → SameFilter f0 f
      → AreKept f0.callsign f es
      → (f.known ≡ true → (e.tick ≤ f.hist_age) × (f.hist_age ≤ e.tick + hist_lookup_interval))
      → by_center fl trig e.packet f ≢ 0
      → Any (IsRecent f0 e (by_center fl trig e.packet f)) es
  by_center-IsRecent f0 f e es same kept_es fresh h = by_known f.known refl h
    where
      by_known :
          (b : Bool)
          → f.known ≡ b
          → (if b then within fl trig f f.center e.packet else 0) ≢ 0
          → Any (IsRecent f0 e (if b then within fl trig f f.center e.packet else 0)) es
      by_known true k h =
          Any-mono (IsKept f0.callsign f) _ es
            (λ e0 (at, age).
              let ticks = age-ticks e.tick e0.tick f.hist_age (fresh k) age in
              (f.center, (at, ticks.0, ticks.1, within-SameFilter f0 f f.center e.packet same)))
            (kept_es k)
      by_known false k h = absurd (h refl)

  -- If a filter f that starts without a position matches a packet, then this packet or an earlier one
  -- came at most ten seconds before, the history database had a position of the friend then, and the
  -- answer is that for the distance of the packet from it.
  pub friend_match_has_place :
      (f0 : RangeFilter) (es : List RangeEvent) (e : RangeEvent)
      → f0.known ≡ false
      → (filter_process_one_f fl trig e.tick e.look e.packet (friend_run f0 es)).0 ≢ 0
      → Any
          (IsRecent f0 e
            ((filter_process_one_f fl trig e.tick e.look e.packet (friend_run f0 es)).0))
          (e ∷ es)
  unfolding filter_process_one_f
  friend_match_has_place f0 es e h matched = by_position (not e.packet.has_pos) matched
    where
      f : RangeFilter
      f = friend_run f0 es

      ran : Ran f0 (refresh e f) (e ∷ es)
      ran = refresh-Ran f0 f e es (friend_run-Ran f0 es h)

      x : ℕ
      x = by_center fl trig e.packet (refresh e f)

      by_position :
          (b : Bool)
          → (answered b x f (refresh e f)).0 ≢ 0
          → Any (IsRecent f0 e ((answered b x f (refresh e f)).0)) (e ∷ es)
      by_position true m = absurd (m refl)
      by_position false m =
          by_center-IsRecent f0 (refresh e f) e (e ∷ es) (ran.0) (ran.1) (refresh-fresh f e) m
