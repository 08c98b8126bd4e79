-- ===== src/Rwlock.antt =====
-- src/rwlock.c: the reader-writer lock. The mutex makes each part between its lock and its unlock, or
-- a wait on a condition variable, one step. The mutex itself does not fail; a wait may end at any
-- time, and may fail or be cancelled.
pub mod Exclusion
use aprsc.Prelude.{
  ℕ, ◌+◌, ◌-◌, Bool, true, false, not, ◌&&◌, ◌||◌, List, [], ◌∷◌, ltb, ◌==◌, if◌then◌else◌,
}

-- `rwlock_t` less its mutex and condition variables; `valid` is the test for RWLOCK_VALID.
pub record Rwlock : Type 0 where
  pub valid : Bool
  pub r_active : ℕ
  pub w_active : ℕ
  pub r_wait : ℕ
  pub w_wait : ℕ

pub data Status : Type 0 where
  -- 0, EINVAL, EBUSY, the error of a wait, and no return yet
  done einval ebusy wait_error waits : Status

-- `pthread_cond_signal` of the writers, `pthread_cond_broadcast` to the readers.
pub data Wake : Type 0 where
  no_one one_writer all_readers : Wake

pub record Reply : Type 0 where
  pub status : Status
  pub wake : Wake
  pub lock : Rwlock

abbrev pub reply : Status → Rwlock → Reply
reply status lock = record { status = status; wake = no_one; lock = lock }

abbrev pub is_on : ℕ → Bool
is_on n = not (n == 0)

unfoldable pub rwl_init : Rwlock
rwl_init = record { valid = true; r_active = 0; w_active = 0; r_wait = 0; w_wait = 0 }

unfoldable pub rwl_destroy : Rwlock → Reply
rwl_destroy l =
    if not l.valid
    then reply einval l
    else if ltb 0 l.r_active || is_on l.w_active
    then reply ebusy l
    else if is_on l.r_wait || is_on l.w_wait
    then reply ebusy l
    else reply done (record l { valid = false })

-- Up to the wait, if there is one.
unfoldable pub rwl_rdlock : Rwlock → Reply
rwl_rdlock l =
    if not l.valid
    then reply einval l
    else if is_on l.w_active
    then reply waits (record l { r_wait = l.r_wait + 1 })
    else reply done (record l { r_active = l.r_active + 1 })

-- From the end of a wait on, to the next one or the end.
unfoldable pub rdlock_woken : Rwlock → Reply
rdlock_woken l =
    if is_on l.w_active
    then reply waits l
    else reply done (record l { r_wait = l.r_wait - 1; r_active = l.r_active + 1 })

-- The wait failed, or the thread was cancelled in it: `rwl_readcleanup` does the same.
unfoldable pub rdlock_failed : Rwlock → Reply
rdlock_failed l = reply wait_error (record l { r_wait = l.r_wait - 1 })

unfoldable pub rwl_tryrdlock : Rwlock → Reply
rwl_tryrdlock l =
    if not l.valid
    then reply einval l
    else if is_on l.w_active
    then reply ebusy l
    else reply done (record l { r_active = l.r_active + 1 })

unfoldable pub rwl_rdunlock : Rwlock → Reply
rwl_rdunlock l =
    let left = l.r_active - 1 in
    if not l.valid then reply einval l else record {
      status = done;
      wake = if left == 0 && ltb 0 l.w_wait then one_writer else no_one;
      lock = record l { r_active = left };
    }

abbrev pub is_taken : Rwlock → Bool
is_taken l = is_on l.w_active || ltb 0 l.r_active

unfoldable pub rwl_wrlock : Rwlock → Reply
rwl_wrlock l =
    if not l.valid
    then reply einval l
    else if is_taken l
    then reply waits (record l { w_wait = l.w_wait + 1 })
    else reply done (record l { w_active = 1 })

unfoldable pub wrlock_woken : Rwlock → Reply
wrlock_woken l =
    if is_taken l
    then reply waits l
    else reply done (record l { w_wait = l.w_wait - 1; w_active = 1 })

-- As for a reader, with `rwl_writecleanup`.
unfoldable pub wrlock_failed : Rwlock → Reply
wrlock_failed l = reply wait_error (record l { w_wait = l.w_wait - 1 })

unfoldable pub rwl_trywrlock : Rwlock → Reply
rwl_trywrlock l =
    if not l.valid
    then reply einval l
    else if is_taken l
    then reply ebusy l
    else reply done (record l { w_active = 1 })

unfoldable pub rwl_wrunlock : Rwlock → Reply
rwl_wrunlock l = if not l.valid then reply einval l else record {
  status = done;
  wake = if ltb 0 l.r_wait then all_readers else if ltb 0 l.w_wait then one_writer else no_one;
  lock = record l { w_active = 0 };
}

-- Where a thread stands: outside, in one of the waits, or with the lock.
pub data Pc : Type 0 where
  outside read_wait write_wait reading writing : Pc

pub data Call : Type 0 where
  destroy rdlock tryrdlock wrlock trywrlock leave wake_up fail : Call

-- What a thread goes on with when its call takes the lock, or waits for it, or neither.
abbrev pub next_pc : Pc → Pc → Pc → Status → Pc
next_pc had blocked got done = got
next_pc had blocked got waits = blocked
next_pc had blocked got _ = had

-- One step of a thread: a call that its place allows, and else nothing.
unfoldable pub act : Call → Pc → Rwlock → Reply × Pc
unfolding rwl_destroy rwl_rdlock rdlock_woken rdlock_failed rwl_tryrdlock rwl_rdunlock rwl_wrlock
    wrlock_woken wrlock_failed rwl_trywrlock rwl_wrunlock
act destroy outside l = (rwl_destroy l, outside)
act rdlock outside l = let r = rwl_rdlock l in (r, next_pc outside read_wait reading r.status)
act tryrdlock outside l = let r = rwl_tryrdlock l in (r, next_pc outside outside reading r.status)
act wrlock outside l = let r = rwl_wrlock l in (r, next_pc outside write_wait writing r.status)
act trywrlock outside l = let r = rwl_trywrlock l in (r, next_pc outside outside writing r.status)
act leave reading l = let r = rwl_rdunlock l in (r, next_pc reading reading outside r.status)
act leave writing l = let r = rwl_wrunlock l in (r, next_pc writing writing outside r.status)
act wake_up read_wait l =
    let r = rdlock_woken l in (r, next_pc read_wait read_wait reading r.status)
act wake_up write_wait l =
    let r = wrlock_woken l in (r, next_pc write_wait write_wait writing r.status)
act fail read_wait l = (rdlock_failed l, outside)
act fail write_wait l = (wrlock_failed l, outside)
act _ p l = (reply done l, p)

-- A lock and the threads that use it.
pub record System : Type 0 where
  pub lock : Rwlock
  pub threads : List Pc
