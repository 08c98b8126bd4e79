-- ===== src/Filter/Stations/Lifetime.antt =====
-- About when the tables of src/filter.c find a station that they have noted.
use aprsc.Prelude.{
  ℕ, zero, suc, ◌+◌, ◌≤◌, ◌<◌, ◌≡◌, refl, arith, inl, inr, Bool, true, false, ◌&&◌, List, [], ◌∷◌,
  leb, ◌==◌, if◌then◌else◌, Bool-cases, Option-cases, Bytes, All, find?, find?-sound, All-Any,
  Any-elim, same_bytes, bit_xor, ◌/◌, ◌^◌,
}
use native.Mathlib.Nat.{mod-lt}
use aprsc.Keyhash.{keyhash, keyhashuc}
use aprsc.Filter.Stations.{
  Station, Shape, Stations, fold_to, renew, new_station, noted, note_station, is_station,
  lookup_station, live_stations, clean_stations,
}

-- Every entry of the buckets in use goes on after `base`.
abbrev pub LivesPast : Shape → ℕ → Stations → Type 0
LivesPast sh base table = (i : ℕ) → i < sh.size → All (λ f. base < f.expirytime) (table i)

live_stations-All :
    (tick : ℕ) (chain : List Station) → All (λ f. tick < f.expirytime) (live_stations tick chain)
unfolding live_stations
live_stations-All tick [] = tt
live_stations-All tick (f ∷ chain) = elim (Bool-cases (leb f.expirytime tick)) [
  | inl e ↦ rw e (live_stations-All tick chain)
  | inr e ↦ rw e (ground arith, live_stations-All tick chain)
]

clean_stations-All :
    (tick n : ℕ) (table : Stations) (i : ℕ)
    → i < n
    → All (λ f. tick < f.expirytime) (clean_stations tick n table i)
unfolding clean_stations
clean_stations-All tick zero table i lt = absurd (omega arith)
clean_stations-All tick (suc n) table i lt = elim (Bool-cases (n == i)) [
  | inl e ↦ rw e (live_stations-All tick (clean_stations tick n table n))
  | inr e ↦ rw e (clean_stations-All tick n table i (ground arith))
]

renew-All :
    (base expiry : ℕ) (uckey : Bytes) (chain : List Station)
    → base < expiry
    → All (λ f. base < f.expirytime) chain
    → All (λ f. base < f.expirytime) (renew expiry uckey chain).1
unfolding renew
renew-All base expiry uckey [] later h = tt
renew-All base expiry uckey (f ∷ chain) later h =
    let ih = renew-All base expiry uckey chain later h.1 in
    elim (Bool-cases (f.hash == keyhash uckey 0 && same_bytes f.callsign uckey)) [
      | inl e ↦ rw e (later, h.1)
      | inr e ↦ rw e (h.0, ih)
    ]

noted-All :
    (base expiry : ℕ) (uckey : Bytes) (chain : List Station)
    → base < expiry
    → All (λ f. base < f.expirytime) chain
    → All (λ f. base < f.expirytime) (noted expiry uckey chain)
unfolding noted
noted-All base expiry uckey chain later h =
    either (renew expiry uckey chain).0 (renew expiry uckey chain).1
      (renew-All base expiry uckey chain later h)
  where
    either :
        (found : Bool) (renewed : List Station)
        → All (λ f. base < f.expirytime) renewed
        → All
            (λ f. base < f.expirytime)
            (if found then renewed else new_station expiry uckey ∷ chain)
    either true renewed r = r
    either false renewed r = (later, h)

fold_to-lt : (sh : Shape) (hash : ℕ) → 0 < sh.size → fold_to sh hash < sh.size
unfolding fold_to
fold_to-lt sh hash h =
    mod-lt (bit_xor (bit_xor hash (hash / 2 ^ sh.shift)) (hash / 2 ^ sh.shift_more)) h

-- No entry that goes on after `base` is found up to a minute after it.
lookup-LivesPast :
    (sh : Shape) (base now : ℕ) (key : Bytes) (table : Stations)
    → 0 < sh.size
    → now ≤ base + 60
    → LivesPast sh base table
    → lookup_station sh now key table ≡ false
unfolding lookup_station
lookup-LivesPast sh base now key table some_bucket soon h =
    let i = fold_to sh (keyhashuc key 0) in
    let late : Station → Type 0 = λ f. f.expirytime + 60 < now in
    elim (Option-cases (find? (is_station now key) (table i))) [
      | inl e ↦ rw (e, lookup_station) refl
      | inr (f, e) ↦
          let found = find?-sound late (is_station now key) (table i) (λ f e. ground arith) e in
          absurd (
            Any-elim (λ f. ⊥) ⊥ (table i) (λ f x. x)
              (All-Any (λ f. base < f.expirytime) late (λ f. ⊥) (table i)
                (λ f lives gone. absurd (omega arith))
                (h i (fold_to-lt sh (keyhashuc key 0) some_bucket)) found.1))
    ]

-- What is done to a table, and when.
pub data StationEvent : Type 0 where
  note : (tick : ℕ) → Bytes → StationEvent
  ask : (tick : ℕ) → Bytes → StationEvent
  clean : (tick : ℕ) → StationEvent

unfoldable pub station_step : Shape → Stations → StationEvent → Stations
station_step sh table (note tick uckey) = note_station sh tick uckey table
station_step sh table (ask tick key) = table
station_step sh table (clean tick) = clean_stations tick sh.size table

unfoldable pub station_run : Shape → Stations → List StationEvent → Stations
unfolding station_step
station_run sh table [] = table
station_run sh table (e ∷ es) = station_run sh (station_step sh table e) es

-- From the cleanup at `base` on, no note is older than the last cleanup, and the question at `now`
-- is asked within a minute of the last one.
abbrev pub Minutely : ℕ → List StationEvent → ℕ → Type 0
Minutely base [] now = now ≤ base + 60
Minutely base (note tick _ ∷ es) now = (base ≤ tick) × Minutely base es now
Minutely base (ask tick _ ∷ es) now = Minutely base es now
Minutely base (clean tick ∷ es) now = Minutely tick es now

module _ (sh : Shape) (some_age : 0 < sh.maxage) (some_bucket : 0 < sh.size) where
  note-LivesPast :
      (base tick : ℕ) (uckey : Bytes) (table : Stations)
      → base ≤ tick
      → LivesPast sh base table
      → LivesPast sh base (note_station sh tick uckey table)
  unfolding note_station
  note-LivesPast base tick uckey table le h i lt =
      let j = fold_to sh (keyhash uckey 0) in
      elim (Bool-cases (j == i)) [
        | inl e ↦ rw e (
            noted-All base (tick + sh.maxage) uckey (table j) (omega arith)
              (h j (fold_to-lt sh (keyhash uckey 0) some_bucket)))
        | inr e ↦ rw e (h i lt)
      ]

  run-silent :
      (base now : ℕ) (key : Bytes) (table : Stations) (es : List StationEvent)
      → LivesPast sh base table
      → Minutely base es now
      → lookup_station sh now key (station_run sh table es) ≡ false
  unfolding station_run station_step
  run-silent base now key table [] h m = lookup-LivesPast sh base now key table some_bucket m h
  run-silent base now key table (note tick uckey ∷ es) h m =
      run-silent base now key (note_station sh tick uckey table) es
        (note-LivesPast base tick uckey table m.0 h) m.1
  run-silent base now key table (ask tick _ ∷ es) h m = run-silent base now key table es h m
  run-silent base now key table (clean tick ∷ es) h m =
      run-silent tick now key (clean_stations tick sh.size table) es
        (λ i lt. clean_stations-All tick sh.size table i lt) m

-- The test of the look-up takes only entries that expired more than a minute ago, and the cleanup
-- removes what has expired. So a table that is cleaned every minute finds none of its stations: if
-- the last cleanup, or the start with an empty table, is at most a minute past, the look-up answers
-- no for every callsign, whatever was noted before and since.
pub stations_are_never_found :
    (sh : Shape) (base now : ℕ) (key : Bytes) (es : List StationEvent)
    → 0 < sh.maxage
    → 0 < sh.size
    → Minutely base es now
    → lookup_station sh now key (station_run sh (λ i. []) es) ≡ false
stations_are_never_found sh base now key es some_age some_bucket m =
    run-silent sh some_age some_bucket base now key (λ i. []) es (λ i lt. tt) m
