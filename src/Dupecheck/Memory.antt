-- ===== src/Dupecheck/Memory.antt =====
-- About runs of the thread of src/dupecheck.c after a packet that passed.
use aprsc.Prelude.{
  ℕ, ◌+◌, ◌≤◌, ◌<◌, ◌≡◌, ◌≢◌, refl, arith, false, inl, inr, List, [], ◌∷◌, ◌++◌, Bool-cases, Bytes,
  All, Any, Any-mono, find?-Any,
}
use aprsc.Keyhash.{keyhash}
use aprsc.Keyhash.Laws.{keyhash-append}
use aprsc.Dupecheck.Mangle.{variants}
use aprsc.Dupecheck.Records.{Stamped, Recorded, is_recent_complete}
use aprsc.Dupecheck.Keep.{parts_keeps}
use mathlib.Core.Path.{subst}
use aprsc.Dupecheck.Stored.{cells, unseen_is_Recorded, forms_are-Recorded}
use aprsc.Dupecheck.Sweep.{cleanup-live, live}
use aprsc.Dupecheck.{
  DupeRecord, Db, db_size, bucket, is_stale, unseen, duplicate, dupecheck_parts, packet_hash,
  is_recent, Event, check, clean, clock, apply, run,
}

bucket-lt : (hash : ℕ) → bucket hash < db_size
unfolding bucket
bucket-lt hash = omega arith

-- A record that is looked for while its time runs is found.
pub Recorded-is_duplicate :
    (storetime tick : ℕ) (addr payload : Bytes) (lo hi : ℕ) (db : Db)
    → tick ≤ lo + storetime
    → Recorded (packet_hash addr payload) (addr ++ payload) lo hi db
    → (dupecheck_parts storetime tick addr payload db).0 ≡ duplicate
unfolding dupecheck_parts
Recorded-is_duplicate storetime tick addr payload lo hi db within m =
    let hash = packet_hash addr payload in
    let (r, e) =
      find?-Any (Stamped hash (addr ++ payload) lo hi) (is_recent storetime tick hash addr payload)
        (db.buckets (bucket hash))
        (λ x s. is_recent_complete storetime tick hash addr payload lo hi x within s) m in
    rw (e, dupecheck_parts) refl

module _ (storetime hash : ℕ) (packet : Bytes) (lo hi : ℕ) (window : hi ≤ lo + storetime) where
  abbrev S : DupeRecord → Type 0
  S = Stamped hash packet lo hi

  not_stale :
      (tick : ℕ) (r : DupeRecord) → lo ≤ tick → tick ≤ hi → S r → is_stale storetime tick r ≡ false
  not_stale tick r a b s = ground (arith, window, s.after, s.before)

  live_keeps :
      (tick : ℕ) (chain : List DupeRecord)
      → lo ≤ tick
      → tick ≤ hi
      → Any S chain
      → Any S (live storetime tick chain)
  live_keeps tick [] a b m = m
  live_keeps tick (r ∷ chain) a b (inl s) = rw (not_stale tick r a b s) (inl s)
  live_keeps tick (r ∷ chain) a b (inr m) =
      let ih = live_keeps tick chain a b m in
      elim (Bool-cases (is_stale storetime tick r)) [ inl e ↦ rw e ih | inr e ↦ rw e (inr ih) ]

  pub apply_keeps :
      (e : Event) (db : Db)
      → lo ≤ clock e
      → clock e ≤ hi
      → Recorded hash packet lo hi db
      → Recorded hash packet lo hi (apply storetime e db)
  unfolding apply
  apply_keeps (check tick addr payload) db a b m =
      parts_keeps hash packet lo hi storetime tick addr payload db (bucket hash) a b m
  apply_keeps (clean tick) db a b m =
      rw (cleanup-live storetime tick db (bucket hash) (bucket-lt hash)) (live_keeps tick _ a b m)

  run_keeps :
      (events : List Event) (db : Db)
      → All (λ e. (lo ≤ clock e) × (clock e ≤ hi)) events
      → Recorded hash packet lo hi db
      → Recorded hash packet lo hi (run storetime events db)
  unfolding run
  run_keeps [] db w m = m
  run_keeps (e ∷ events) db w m =
      run_keeps events (apply storetime e db) w.1 (apply_keeps e db w.0.0 w.0.1 m)

-- A packet that passed as unseen is a duplicate from then on, until `dupefilter_storetime` seconds
-- later: whatever packets are checked and whenever the table is cleaned in between, checking the
-- same addresses and payload answers F_DUPE.
pub check_remembers :
    (storetime tick tick' : ℕ) (addr payload : Bytes) (db : Db) (events : List Event)
    → (dupecheck_parts storetime tick addr payload db).0 ≡ unseen
    → tick ≤ tick'
    → tick' ≤ tick + storetime
    → All (λ e. (tick ≤ clock e) × (clock e ≤ tick')) events
    → (dupecheck_parts storetime tick' addr payload
        (run storetime events (apply storetime (check tick addr payload) db))).0
      ≡ duplicate
unfolding apply
check_remembers storetime tick tick' addr payload db events new later within w =
    let hash = packet_hash addr payload in
    Recorded-is_duplicate storetime tick' addr payload tick tick' _ within (
      run_keeps storetime hash (addr ++ payload) tick tick' within events _ w (
        Any-mono (Stamped hash (addr ++ payload) tick tick)
          (Stamped hash (addr ++ payload) tick tick') _
          (λ r s. record {
            hash_is = s.hash_is;
            packet_is = s.packet_is;
            after = s.after;
            before = omega (arith, s.before);
          })
          (unseen_is_Recorded storetime tick addr payload db new)))

-- The copies that gateways damage are caught too: while the time runs, a packet whose bytes are
-- one of the stored forms of an unseen packet is a duplicate, if the table had nine cells to
-- spare and the hash of the second packet's addresses is not 0.
pub forms_are_remembered :
    (storetime tick tick' : ℕ) (addr payload addr' payload' : Bytes) (db : Db) (events : List Event)
    → (dupecheck_parts storetime tick addr payload db).0 ≡ unseen
    → 8 < cells db
    → Any (λ f. f.1 ≡ addr' ++ payload') (variants (addr ++ payload))
    → keyhash addr' 0 ≢ 0
    → tick ≤ tick'
    → tick' ≤ tick + storetime
    → All (λ e. (tick ≤ clock e) × (clock e ≤ tick')) events
    → (dupecheck_parts storetime tick' addr' payload'
        (run storetime events (apply storetime (check tick addr payload) db))).0
      ≡ duplicate
unfolding apply
forms_are_remembered storetime tick tick' addr payload addr' payload' db events new room form ne
      later within w =
    let hash = packet_hash addr' payload' in
    Recorded-is_duplicate storetime tick' addr' payload' tick tick' _ within (
      run_keeps storetime hash (addr' ++ payload') tick tick' within events _ w (
        Any-mono (Stamped hash (addr' ++ payload') tick tick)
          (Stamped hash (addr' ++ payload') tick tick') _
          (λ r s. record {
            hash_is = s.hash_is;
            packet_is = s.packet_is;
            after = s.after;
            before = omega (arith, s.before);
          })
          (subst
            (λ h.
              Recorded h (addr' ++ payload') tick tick
                (dupecheck_parts storetime tick addr payload db).1)
            (keyhash-append addr' payload' 0 ne)
            (forms_are-Recorded storetime tick addr payload (addr' ++ payload') db new room form))))
