-- ===== src/Dupecheck/Drain/Unique.antt =====
-- About the packets that the thread of src/dupecheck.c sends on: that no two of them are the same.
use mathlib.Core.Path.{subst}
use mathlib.Core.List.{append-nil, append_assoc}
use aprsc.Prelude.{
  ℕ, ◌+◌, ◌≤◌, ◌≡◌, refl, sym, ◌∙◌, ap, arith, List, [], ◌∷◌, ◌++◌, Bytes, Option, none, some, All,
  All-append, All-mono, Any-mono,
}
use aprsc.Packet.{Pbuf}
use aprsc.Filter.{filter_postprocess_dupefilter}
use aprsc.Dupecheck.{
  Db, Verdict, unseen, duplicate, no_cell, dupecheck, judged, dupecheck_parts, address_of,
  payload_of, packet_hash, bucket, check, clean, apply, dupecheck_cleanup,
}
use aprsc.Dupecheck.Records.{Stamped, Recorded}
use aprsc.Dupecheck.Stored.{unseen_is_Recorded}
use aprsc.Dupecheck.Memory.{Recorded-is_duplicate, apply_keeps}
use aprsc.Dupecheck.Drain.{
  Setup, Drain, numbered, next_seqnum, remember, put_out, put_dupe, settle, drain_one,
  dupecheck_drain_worker, drain_workers, Thread, dupecheck_pass, Turn, swept, thread_turn,
  thread_run,
}
use aprsc.Dupecheck.Drain.Same.{
  IsSamePacket, AreDistinct, AreDistinct-append, remember-IsSamePacket,
}

module _ (lo hi : ℕ) where
  abbrev IsInWindow : ℕ → Type 0
  IsInWindow tick = (lo ≤ tick) × (tick ≤ hi)

  abbrev SweptInWindow : Option ℕ → Type 0
  SweptInWindow none = Unit
  SweptInWindow (some tick) = IsInWindow tick

  -- All times of a turn lie in the window.
  abbrev pub TurnInWindow : Turn → Type 0
  TurnInWindow turn = All (All (λ e. IsInWindow e.0)) turn.workers × SweptInWindow turn.cleaned

module _ (s : Setup) (lo hi : ℕ) (window : hi ≤ lo + s.dupe_storetime) where
  -- The table has a record of the packet, from the time of the window.
  abbrev IsKnown : Db → Pbuf → Type 0
  IsKnown db p =
      Recorded (packet_hash (address_of p) (payload_of p)) (address_of p ++ payload_of p) lo hi db

  -- What was sent on is distinct and known to the table.
  record AreKnown (sent : List Pbuf) (db : Db) : Type 0 where
    distinct : AreDistinct sent
    known : All (IsKnown db) sent

  -- A check at a time of the window keeps what is known.
  check-IsKnown :
      (tick : ℕ) (addr payload : Bytes) (db : Db)
      → lo ≤ tick
      → tick ≤ hi
      → (p : Pbuf) → IsKnown db p
      → IsKnown (dupecheck_parts s.dupe_storetime tick addr payload db).1 p
  unfolding apply
  check-IsKnown tick addr payload db a b p k =
      apply_keeps s.dupe_storetime (packet_hash (address_of p) (payload_of p))
        (address_of p ++ payload_of p) lo hi window (check tick addr payload) db a b k

  -- What is known is not unseen.
  unseen_is_new :
      (tick : ℕ) (q : Pbuf) (db : Db)
      → tick ≤ hi
      → (dupecheck_parts s.dupe_storetime tick (address_of q) (payload_of q) db).0 ≡ unseen
      → (p : Pbuf) → IsKnown db p
      → ¬ (IsSamePacket p q)
  unseen_is_new tick q db b new p k same =
      let k1 =
        subst (λ a. Recorded (packet_hash a (payload_of p)) (a ++ payload_of p) lo hi db) same.0
          k in
      let k2 =
        subst (λ l. Recorded (packet_hash (address_of q) l) (address_of q ++ l) lo hi db) same.1
          k1 in
      let old =
        Recorded-is_duplicate s.dupe_storetime tick (address_of q) (payload_of q) lo hi db
          (omega arith) k2 in
      absurd (cc (sym new ∙ old))

  -- An unseen packet joins what was sent on, under any number and with any position.
  unseen-AreKnown :
      (tick : ℕ) (pb kept : Pbuf) (sent : List Pbuf) (db : Db)
      → lo ≤ tick
      → tick ≤ hi
      → IsSamePacket kept pb
      → (dupecheck_parts s.dupe_storetime tick (address_of pb) (payload_of pb) db).0 ≡ unseen
      → AreKnown sent db
      → AreKnown
          (sent ++ kept ∷ [])
          (dupecheck_parts s.dupe_storetime tick (address_of pb) (payload_of pb) db).1
  unseen-AreKnown tick pb kept sent db a b same new h = record {
    distinct = AreDistinct-append sent kept h.distinct (
        All-mono (IsKnown db) (λ p. ¬ (IsSamePacket p kept)) sent
          (λ p k e. unseen_is_new tick pb db b new p k (e.0 ∙ same.0, e.1 ∙ same.1)) h.known);
    known =
        All-append (IsKnown db') sent (kept ∷ [])
          (All-mono (IsKnown db) (IsKnown db') sent
            (λ p k. check-IsKnown tick (address_of pb) (payload_of pb) db a b p k) h.known)
          (own, tt);
  }
    where
      db' : Db
      db' = (dupecheck_parts s.dupe_storetime tick (address_of pb) (payload_of pb) db).1

      hash : ℕ
      hash = packet_hash (address_of pb) (payload_of pb)

      packet : Bytes
      packet = address_of pb ++ payload_of pb

      own : IsKnown db' kept
      own =
          subst (λ l. Recorded (packet_hash (address_of kept) l) (address_of kept ++ l) lo hi db')
            (sym same.1)
            (subst (λ c. Recorded (packet_hash c (payload_of pb)) (c ++ payload_of pb) lo hi db')
              (sym same.0)
              (Any-mono (Stamped hash packet tick tick) (Stamped hash packet lo hi)
                (db'.buckets (bucket hash))
                (λ r k. record {
                  hash_is = k.hash_is;
                  packet_is = k.packet_is;
                  after = omega (arith, k.after);
                  before = omega (arith, k.before);
                })
                (unseen_is_Recorded s.dupe_storetime tick (address_of pb) (payload_of pb) db new)))

  -- A check that sends nothing on.
  checked-AreKnown :
      (tick : ℕ) (pb : Pbuf) (past : List Pbuf) (d : Drain) (db' : Db)
      → lo ≤ tick
      → tick ≤ hi
      → (dupecheck_parts s.dupe_storetime tick (address_of pb) (payload_of pb) d.db).1 ≡ db'
      → AreKnown (past ++ d.out) d.db
      → AreKnown (past ++ d.out) db'
  checked-AreKnown tick pb past d db' a b e h = record {
    distinct = h.distinct;
    known =
        subst (λ t. All (IsKnown t) (past ++ d.out)) e
          (All-mono (IsKnown d.db)
            (IsKnown (dupecheck_parts s.dupe_storetime tick (address_of pb) (payload_of pb) d.db).1)
            (past ++ d.out) (λ p k. check-IsKnown tick (address_of pb) (payload_of pb) d.db a b p k)
            h.known);
  }

  -- Neither the numbers nor the positions matter to what is known.
  settle-AreKnown :
      (tick : ℕ) (pb : Pbuf) (past : List Pbuf) (d : Drain) (v : Verdict × Db)
      → lo ≤ tick
      → tick ≤ hi
      → dupecheck_parts s.dupe_storetime tick (address_of pb) (payload_of pb) d.db ≡ v
      → AreKnown (past ++ d.out) d.db
      → (let d' = settle s tick pb d (
            judged
              (λ p. (filter_postprocess_dupefilter tick s.position_storetime p d.history).0)
              pb
              v) in
          AreKnown (past ++ d'.out) d'.db)
  unfolding settle judged put_out put_dupe
  settle-AreKnown tick pb past d (unseen, db') a b e h =
      let m = remember s tick pb d.history in
      let kept = numbered (next_seqnum d.seqnum) m.0 in
      let more =
        unseen-AreKnown tick pb kept (past ++ d.out) d.db a b
          (remember-IsSamePacket s tick pb d.history) (ap (λ v. v.0) e) h in
      subst (λ q. AreKnown q db') (append_assoc past d.out (kept ∷ []))
        (subst (λ v. AreKnown ((past ++ d.out) ++ kept ∷ []) v) (ap (λ v. v.1) e) more)
  settle-AreKnown tick pb past d (duplicate, db') a b e h =
      checked-AreKnown tick pb past d db' a b (ap (λ v. v.1) e) h
  settle-AreKnown tick pb past d (no_cell, db') a b e h =
      checked-AreKnown tick pb past d db' a b (ap (λ v. v.1) e) h

  worker-AreKnown :
      (past : List Pbuf) (queue : List (ℕ × Pbuf)) (d : Drain)
      → All (λ e. IsInWindow lo hi e.0) queue
      → AreKnown (past ++ d.out) d.db
      → (let d' = (dupecheck_drain_worker s queue d).1 in AreKnown (past ++ d'.out) d'.db)
  unfolding dupecheck_drain_worker drain_one dupecheck
  worker-AreKnown past [] d w h = h
  worker-AreKnown past ((tick, pb) ∷ queue) d w h =
      worker-AreKnown past queue (drain_one s tick pb d) w.1 (
        settle-AreKnown tick pb past d
          (dupecheck_parts s.dupe_storetime tick (address_of pb) (payload_of pb) d.db) w.0.0 w.0.1
          refl h)

  workers-AreKnown :
      (past : List Pbuf) (workers : List (List (ℕ × Pbuf))) (d : Drain)
      → All (All (λ e. IsInWindow lo hi e.0)) workers
      → AreKnown (past ++ d.out) d.db
      → (let d' = drain_workers s workers d in AreKnown (past ++ d'.out) d'.db)
  unfolding drain_workers
  workers-AreKnown past [] d w h = h
  workers-AreKnown past (q ∷ workers) d w h =
      workers-AreKnown past workers (dupecheck_drain_worker s q d).1 w.1
        (worker-AreKnown past q d w.0 h)

  pass-AreKnown :
      (workers : List (List (ℕ × Pbuf))) (t : Thread)
      → All (All (λ e. IsInWindow lo hi e.0)) workers
      → AreKnown t.pbuf_global t.tables.db
      → (let t' = dupecheck_pass s workers t in AreKnown t'.pbuf_global t'.tables.db)
  unfolding dupecheck_pass
  pass-AreKnown workers t w h =
      workers-AreKnown t.pbuf_global workers (record t.tables { out = []; out_dupe = [] }) w
        (subst (λ q. AreKnown q t.tables.db) (sym (append-nil t.pbuf_global)) h)

  swept-AreKnown :
      (cleaned : Option ℕ) (t : Thread)
      → SweptInWindow lo hi cleaned
      → AreKnown t.pbuf_global t.tables.db
      → (let t' = swept s cleaned t in AreKnown t'.pbuf_global t'.tables.db)
  unfolding swept apply
  swept-AreKnown none t w h = h
  swept-AreKnown (some tick) t w h = record {
    distinct = h.distinct;
    known =
        All-mono (IsKnown t.tables.db)
          (IsKnown (dupecheck_cleanup s.dupe_storetime tick t.tables.db)) t.pbuf_global
          (λ p k.
            apply_keeps s.dupe_storetime (packet_hash (address_of p) (payload_of p))
              (address_of p ++ payload_of p) lo hi window (clean tick) t.tables.db w.0 w.1 k)
          h.known;
  }

  run-AreKnown :
      (turns : List Turn) (t : Thread)
      → All (TurnInWindow lo hi) turns
      → AreKnown t.pbuf_global t.tables.db
      → (let t' = thread_run s turns t in AreKnown t'.pbuf_global t'.tables.db)
  unfolding thread_run thread_turn
  run-AreKnown [] t w h = h
  run-AreKnown (turn ∷ turns) t w h = run-AreKnown turns (thread_turn s turn t) w.1 (
      swept-AreKnown turn.cleaned (dupecheck_pass s turn.workers t) w.0.1
        (pass-AreKnown turn.workers t w.0.0 h))

-- Over any number of turns of the thread within `dupefilter_storetime` seconds, whatever the workers
-- hand over and whenever the table is cleaned, no two of the packets that were put in the global
-- queue, which was empty, have the same addresses and payload.
pub no_duplicate_is_sent :
    (s : Setup) (lo hi : ℕ) (turns : List Turn) (t : Thread)
    → hi ≤ lo + s.dupe_storetime
    → t.pbuf_global ≡ []
    → All (TurnInWindow lo hi) turns
    → AreDistinct (thread_run s turns t).pbuf_global
no_duplicate_is_sent s lo hi turns t window none_yet w =
    (run-AreKnown s lo hi window turns t w
      (rw none_yet (record { distinct = tt; known = tt }))).distinct
