-- ===== src/Historydb/Refines.antt =====
-- About src/historydb.c as a whole: the table against a map from keys to the last report.
use aprsc.Prelude.{
  ℕ, zero, suc, ◌+◌, ◌≤◌, Bool, true, false, Option, none, some, List, [], ◌∷◌, ◌≡◌, ◌≢◌, refl, inl,
  inr, arith, Bool-cases, ◌==◌, if◌then◌else◌, Bytes, same_bytes, same_bytes_iff, find?, not, ap,
  ◌∙◌,
}
use aprsc.Prelude.Int.{negsuc}
use aprsc.Packet.{Pbuf}
use aprsc.Historydb.{
  Report, Cell, Historydb, slot_of, is_answer, historydb_put, historydb_insert, insert_as, key_of,
  report_of, lookup_cell, clean_buckets, historydb_cleanup, hash_modulo, historydb_lookup,
}
use aprsc.Historydb.Chain.{found, while_valid, find-clean_chain, find-put_ne, find-put_self}

-- What a look-up at the time `now` hands out.
abbrev pub answer : ℕ → ℕ → Bytes → Historydb → Option Report
answer now storetime q db = found (lookup_cell now storetime q db)

module _ (tick now storetime : ℕ) (le : tick ≤ now) where
  answer-put_ne :
      (key q : Bytes) (isdead : Bool) (new : Report) (db : Historydb)
      → q ≢ key
      → answer now storetime q (historydb_put true tick storetime key isdead new db)
        ≡ answer now storetime q db
  unfolding lookup_cell historydb_put
  answer-put_ne key q isdead new db ne = elim (Bool-cases (slot_of key == slot_of q)) [
    | inl e ↦
        let same : slot_of key ≡ slot_of q = ground arith in
        rw (e, same) (find-put_ne tick now storetime le key q isdead new (db.hash (slot_of q)) ne)
    | inr e ↦ rw e refl
  ]

  answer-put_self :
      (key : Bytes) (isdead : Bool) (new : Report) (db : Historydb)
      → answer now storetime key (historydb_put true tick storetime key isdead new db)
        ≡ (if isdead then none else while_valid now storetime new)
  unfolding lookup_cell historydb_put
  answer-put_self key isdead new db =
      let e : (slot_of key == slot_of key) ≡ true = ground arith in
      rw e (find-put_self tick now storetime le key isdead new (db.hash (slot_of key)))

  find-clean_buckets :
      (n : ℕ) (q : Bytes) (i : ℕ) (hash : ℕ → List Cell)
      → find? (is_answer now storetime q) ((clean_buckets tick storetime n hash).0 i)
        ≡ find? (is_answer now storetime q) (hash i)
  unfolding clean_buckets
  find-clean_buckets zero q i hash = refl
  find-clean_buckets (suc n) q i hash =
      let ih = find-clean_buckets n q i hash in
      let r = (clean_buckets tick storetime n hash).0 in
      elim (Bool-cases (n == i)) [
        | inl e ↦
            let same : n ≡ i = ground arith in
            let one = find-clean_chain tick now storetime le q (r n) in
            rw e (one ∙ ap (λ k. find? (is_answer now storetime q) (r k)) same ∙ ih)
        | inr e ↦ rw e ih
      ]

  answer-cleanup :
      (q : Bytes) (db : Historydb)
      → answer now storetime q (historydb_cleanup tick storetime db) ≡ answer now storetime q db
  unfolding lookup_cell historydb_cleanup
  answer-cleanup q db = rw (find-clean_buckets hash_modulo q (slot_of q) db.hash) refl

-- The operations on the table, with the time of each; `cellmalloc` has a cell whenever asked.
pub data HistoryEvent : Type 0 where
  insert : (tick : ℕ) → Pbuf → HistoryEvent
  lookup : (tick : ℕ) → Bytes → HistoryEvent
  cleanup : (tick : ℕ) → HistoryEvent

abbrev pub time_of : HistoryEvent → ℕ
time_of (insert tick pb) = tick
time_of (lookup tick key) = tick
time_of (cleanup tick) = tick

unfoldable pub history_step : ℕ → Historydb → HistoryEvent → Historydb
unfolding historydb_insert historydb_lookup historydb_cleanup
history_step storetime db (insert tick pb) = (historydb_insert true tick storetime pb db).1
history_step storetime db (lookup tick key) = (historydb_lookup tick storetime key db).1
history_step storetime db (cleanup tick) = historydb_cleanup tick storetime db

unfoldable pub history_run : ℕ → Historydb → List HistoryEvent → Historydb
unfolding history_step
history_run storetime db [] = db
history_run storetime db (e ∷ es) = history_run storetime (history_step storetime db e) es

-- The abstract view: the last report of each key, however old.
abbrev pub Latest : Type 0
Latest = Bytes → Option Report

unfoldable pub latest_put : Latest → Report → Option (Bytes × Bool) → Latest
latest_put m new none key = m key
latest_put m new (some (name, isdead)) key =
    if same_bytes key name then (if isdead then none else some new) else m key

unfoldable pub latest_step : Latest → HistoryEvent → Latest
unfolding latest_put
latest_step m (insert tick pb) key =
    if not pb.has_pos then m key else latest_put m (report_of pb) (key_of pb) key
latest_step m (lookup tick _) key = m key
latest_step m (cleanup tick) key = m key

unfoldable pub latest_run : Latest → List HistoryEvent → Latest
unfolding latest_step
latest_run m [] = m
latest_run m (e ∷ es) = latest_run (latest_step m e) es

-- The times do not fall, from the first one on up to the last.
abbrev pub InOrder : ℕ → List HistoryEvent → ℕ → Type 0
InOrder first [] last = first ≤ last
InOrder first (e ∷ es) last = (first ≤ time_of e) × InOrder (time_of e) es last

abbrev pub valid_report : ℕ → ℕ → Option Report → Option Report
valid_report now storetime none = none
valid_report now storetime (some r) = while_valid now storetime r

-- From `since` on the table answers as the map does.
abbrev pub Agrees : ℕ → ℕ → Historydb → Latest → Type 0
Agrees storetime since db m =
    (now : ℕ) (key : Bytes)
    → since ≤ now
    → answer now storetime key db ≡ valid_report now storetime (m key)

Agrees-put :
    (tick storetime since now : ℕ) (db : Historydb) (m : Latest) (new : Report)
    (named : Option (Bytes × Bool)) (key : Bytes)
    → since ≤ tick
    → tick ≤ now
    → Agrees storetime since db m
    → answer now storetime key (insert_as true tick storetime new db named).1
      ≡ valid_report now storetime (latest_put m new named key)
unfolding insert_as latest_put
Agrees-put tick storetime since now db m new none key le le2 h = h now key (omega arith)
Agrees-put tick storetime since now db m new (some (name, isdead)) key le le2 h =
    elim (Bool-cases (same_bytes key name)) [
      | inl e ↦
          let same = (same_bytes_iff key name).0 e in
          rw (e, same) (answer-put_self tick now storetime le2 name isdead new db ∙ kept isdead)
      | inr e ↦
          let ne : key ≢ name = λ s. absurd (ground (arith, (same_bytes_iff key name).1 s)) in
          rw e (
            answer-put_ne tick now storetime le2 name key isdead new db ne
            ∙ h now key (omega arith))
    ]
  where
    kept :
        (dead : Bool)
        → (if dead then none else while_valid now storetime new)
          ≡ valid_report now storetime (if dead then none else some new)
    kept true = refl
    kept false = refl

Agrees-step :
    (storetime since : ℕ) (db : Historydb) (m : Latest) (e : HistoryEvent)
    → since ≤ time_of e
    → Agrees storetime since db m
    → Agrees storetime (time_of e) (history_step storetime db e) (latest_step m e)
unfolding history_step latest_step historydb_insert historydb_lookup
Agrees-step storetime since db m (insert tick pb) le h now key le2 = by_position pb.has_pos
  where
    new : Report
    new = report_of pb

    by_position :
        (has_pos : Bool)
        → answer now storetime key
            (if not has_pos
              then (negsuc 0, record db { noposcount = db.noposcount + 1 })
              else insert_as true tick storetime new db (key_of pb)).1
          ≡ valid_report now storetime
              (if not has_pos then m key else latest_put m new (key_of pb) key)
    by_position true = Agrees-put tick storetime since now db m new (key_of pb) key le le2 h
    by_position false = h now key (omega arith)
Agrees-step storetime since db m (lookup tick _) le h now key le2 = h now key (omega arith)
Agrees-step storetime since db m (cleanup tick) le h now key le2 =
    answer-cleanup tick now storetime le2 key db ∙ h now key (omega arith)

Agrees-run :
    (storetime first last : ℕ) (db : Historydb) (m : Latest) (es : List HistoryEvent)
    → InOrder first es last
    → Agrees storetime first db m
    → Agrees storetime last (history_run storetime db es) (latest_run m es)
unfolding history_run latest_run
Agrees-run storetime first last db m [] le h = λ now key le2. h now key (omega arith)
Agrees-run storetime first last db m (e ∷ es) o h =
    Agrees-run storetime (time_of e) last (history_step storetime db e) (latest_step m e) es o.1
      (Agrees-step storetime first db m e o.0 h)

abbrev pub empty : Historydb
empty = record {
  hash = λ i. [];
  inserts = 0;
  lookups = 0;
  hashmatches = 0;
  keymatches = 0;
  cellgauge = 0;
  noposcount = 0;
  cleanup_cleaned = 0;
}

-- After any insertions, look-ups and cleanups of an empty table, at times that do not fall and with
-- a cell for each insertion that asks for one, a look-up at the time `now` finds for each key the
-- last report that was inserted under it, unless that key was killed after it or the report is
-- older than `lastposition_storetime` less five minutes; cells that were swept, updated or appended
-- in between make no difference.
pub history_refines_map :
    (storetime first now : ℕ) (es : List HistoryEvent) (key : Bytes)
    → InOrder first es now
    → found (historydb_lookup now storetime key (history_run storetime empty es)).0
      ≡ valid_report now storetime (latest_run (λ k. none) es key)
unfolding historydb_lookup lookup_cell
history_refines_map storetime first now es key o =
    Agrees-run storetime first now empty (λ k. none) es o nothing now key (omega arith)
  where
    nothing : Agrees storetime first empty (λ k. none)
    nothing t k le = refl
