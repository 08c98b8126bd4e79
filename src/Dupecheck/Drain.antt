-- ===== src/Dupecheck/Drain.antt =====
-- src/dupecheck.c: how the thread takes the packets of the workers through the duplicate check, the
-- history database and the numbering into the global queues. A queue is the list of its chain. The
-- clock may move from packet to packet, so each stands beside the `tick` at which it is checked.
pub mod Order
pub mod Same
pub mod Unique
use aprsc.Prelude.{
  ℕ, ◌+◌, ◌%◌, ◌^◌, Bool, Option, none, some, List, [], ◌∷◌, ◌++◌, if◌then◌else◌, length,
}
use aprsc.Packet.{Pbuf}
use aprsc.Historydb.{Historydb, historydb_insert}
use aprsc.Filter.{filter_postprocess_dupefilter}
use aprsc.Dupecheck.{Db, Verdict, unseen, duplicate, no_cell, dupecheck, dupecheck_cleanup}

-- `dupefilter_storetime`, `lastposition_storetime`, `have_filtered_listeners`, and whether the
-- history database finds a cell when it asks for one.
pub record Setup : Type 0 where
  pub dupe_storetime : ℕ
  pub position_storetime : ℕ
  pub have_filtered_listeners : Bool
  pub room : Bool

-- The two tables, the sequence numbers, and the two queues that a pass builds.
pub record Drain : Type 0 where
  pub db : Db
  pub history : Historydb
  pub seqnum : ℕ
  pub dupe_seqnum : ℕ
  pub out : List Pbuf
  pub out_dupe : List Pbuf

-- A `uint32_t` that is counted up.
abbrev pub next_seqnum : ℕ → ℕ
next_seqnum n = (n + 1) % 2 ^ 32

abbrev pub numbered : ℕ → Pbuf → Pbuf
numbered n pb = record pb { seqnum = n }

-- What the history database and the filter module do with a packet that is no duplicate.
unfoldable pub remember : Setup → ℕ → Pbuf → Historydb → Pbuf × Historydb
remember s tick pb history =
    if s.have_filtered_listeners
    then filter_postprocess_dupefilter tick s.position_storetime pb
        (historydb_insert s.room tick s.position_storetime pb history).1
    else (pb, history)

pub put_out : Pbuf → Drain → Drain
put_out pb d =
    let n = next_seqnum d.seqnum in record d { seqnum = n; out = d.out ++ numbered n pb ∷ [] }

pub put_dupe : Pbuf → Drain → Drain
put_dupe pb d =
    let n = next_seqnum d.dupe_seqnum in
    record d { dupe_seqnum = n; out_dupe = d.out_dupe ++ numbered n pb ∷ [] }

-- Where a packet goes with the answer of the check.
pub settle : Setup → ℕ → Pbuf → Drain → Verdict × Pbuf × Db → Drain
unfolding put_out put_dupe
settle s tick pb d (unseen, pb', db') =
    let (kept, history') = remember s tick pb' d.history in
    put_out kept (record d { db = db'; history = history' })
settle s tick pb d (duplicate, pb', db') =
    let looked_up = filter_postprocess_dupefilter tick s.position_storetime pb d.history in
    put_dupe pb' (record d { db = db'; history = looked_up.1 })
settle s tick pb d (no_cell, pb', db') = put_dupe pb' (record d { db = db' })

-- The body of the loop of `dupecheck_drain_worker`.
pub drain_one : Setup → ℕ → Pbuf → Drain → Drain
unfolding settle
drain_one s tick pb d = settle s tick pb d (
    dupecheck (λ p. (filter_postprocess_dupefilter tick s.position_storetime p d.history).0)
      s.dupe_storetime tick pb d.db)

-- The packets of one worker, each with its time; the number of them is returned.
pub dupecheck_drain_worker : Setup → List (ℕ × Pbuf) → Drain → ℕ × Drain
unfolding drain_one
dupecheck_drain_worker s [] d = (0, d)
dupecheck_drain_worker s ((tick, pb) ∷ queue) d =
    let (n, d') = dupecheck_drain_worker s queue (drain_one s tick pb d) in (n + 1, d')

-- The workers one after the other, that of HTTP and that of UDP behind the others.
pub drain_workers : Setup → List (List (ℕ × Pbuf)) → Drain → Drain
unfolding dupecheck_drain_worker
drain_workers s [] d = d
drain_workers s (w ∷ workers) d = drain_workers s workers (dupecheck_drain_worker s w d).1

-- The state that the thread keeps from pass to pass.
pub record Thread : Type 0 where
  pub tables : Drain
  pub pbuf_global : List Pbuf
  pub pbuf_global_dupe : List Pbuf
  pub pbuf_global_count : ℕ
  pub pbuf_global_dupe_count : ℕ
  pub outcount : ℕ
  pub dupecount : ℕ

-- One turn of the loop of `dupecheck_thread`, up to the statistics: the queues that were built are
-- appended to the global ones.
pub dupecheck_pass : Setup → List (List (ℕ × Pbuf)) → Thread → Thread
unfolding drain_workers
dupecheck_pass s workers t =
    let d = drain_workers s workers (record t.tables { out = []; out_dupe = [] }) in
    record {
      tables = d;
      pbuf_global = t.pbuf_global ++ d.out;
      pbuf_global_dupe = t.pbuf_global_dupe ++ d.out_dupe;
      pbuf_global_count = t.pbuf_global_count + length d.out;
      pbuf_global_dupe_count = t.pbuf_global_dupe_count + length d.out_dupe;
      outcount = t.outcount + length d.out;
      dupecount = t.dupecount + length d.out_dupe;
    }

-- One turn of the loop: what the workers have, and the time of the cleanup if the turn ends with one.
pub record Turn : Type 0 where
  pub workers : List (List (ℕ × Pbuf))
  pub cleaned : Option ℕ

-- The cleanup that a turn may end with. The purge of the global queues, before it, stands in Lag.
pub swept : Setup → Option ℕ → Thread → Thread
swept s none t = t
swept s (some tick) t = record t {
  tables = record t.tables { db = dupecheck_cleanup s.dupe_storetime tick t.tables.db };
}

pub thread_turn : Setup → Turn → Thread → Thread
unfolding dupecheck_pass swept
thread_turn s turn t = swept s turn.cleaned (dupecheck_pass s turn.workers t)

pub thread_run : Setup → List Turn → Thread → Thread
unfolding thread_turn
thread_run s [] t = t
thread_run s (turn ∷ turns) t = thread_run s turns (thread_turn s turn t)
