-- ===== src/Rwlock/Exclusion.antt =====
-- About every run of threads over the lock of src/rwlock.c, in any interleaving.
use aprsc.Prelude.{ℕ, zero, suc, ◌+◌, ◌≤◌, ◌≡◌, refl, arith, sym, ◌⊎◌, inl, List, [], ◌∷◌, ◌++◌}
use mathlib.Core.Path.{subst}
use aprsc.Rwlock.{
  Rwlock, rwl_init, rwl_destroy, rwl_rdlock, rdlock_woken, rdlock_failed, rwl_tryrdlock,
  rwl_rdunlock, rwl_wrlock, wrlock_woken, wrlock_failed, rwl_trywrlock, rwl_wrunlock, Pc, outside,
  read_wait, write_wait, reading, writing, Call, destroy, rdlock, tryrdlock, wrlock, trywrlock,
  leave, wake_up, fail, act, done, System,
}

abbrev pub reads : Pc → ℕ
reads reading = 1
reads _ = 0

abbrev pub writes : Pc → ℕ
writes writing = 1
writes _ = 0

abbrev pub waits_to_read : Pc → ℕ
waits_to_read read_wait = 1
waits_to_read _ = 0

abbrev pub waits_to_write : Pc → ℕ
waits_to_write write_wait = 1
waits_to_write _ = 0

-- The lock's numbers are those of its threads, and a writer is alone.
pub record IsCounted (l : Rwlock) (r w rn wn : ℕ) : Type 0 where
  pub readers : l.r_active ≡ r
  pub writers : l.w_active ≡ w
  pub read_waits : l.r_wait ≡ rn
  pub write_waits : l.w_wait ≡ wn
  pub one_writer_at_most : w ≤ 1
  pub alone : (r ≡ 0) ⊎ (w ≡ 0)

-- What a step of one thread does to the numbers, beside those of the other threads.
act-IsCounted :
    (c : Call) (p : Pc) (l : Rwlock) (r w rn wn : ℕ)
    → IsCounted l (reads p + r) (writes p + w) (waits_to_read p + rn) (waits_to_write p + wn)
    → (let (a, q) = act c p l in
        IsCounted a.lock
          (reads q + r)
          (writes q + w)
          (waits_to_read q + rn)
          (waits_to_write q + wn))
unfolding act rwl_destroy rwl_rdlock rdlock_woken rdlock_failed rwl_tryrdlock rwl_rdunlock
    rwl_wrlock wrlock_woken wrlock_failed rwl_trywrlock rwl_wrunlock
act-IsCounted destroy outside l r w rn wn h = ground arith
act-IsCounted rdlock outside l r w rn wn h = ground arith
act-IsCounted tryrdlock outside l r w rn wn h = ground arith
act-IsCounted wrlock outside l r w rn wn h = ground arith
act-IsCounted trywrlock outside l r w rn wn h = ground arith
act-IsCounted leave reading l r w rn wn h = ground arith
act-IsCounted leave writing l r w rn wn h = ground arith
act-IsCounted wake_up read_wait l r w rn wn h = ground arith
act-IsCounted wake_up write_wait l r w rn wn h = ground arith
act-IsCounted fail read_wait l r w rn wn h = ground arith
act-IsCounted fail write_wait l r w rn wn h = ground arith
act-IsCounted _ p l r w rn wn h = ground arith

-- How many threads a place counts for.
pub total : (Pc → ℕ) → List Pc → ℕ
total f [] = 0
total f (p ∷ threads) = f p + total f threads

total-append : (f : Pc → ℕ) (xs ys : List Pc) → total f (xs ++ ys) ≡ total f xs + total f ys
unfolding total
total-append f [] ys = omega arith
total-append f (p ∷ xs) ys = omega (arith, total-append f xs ys)

-- One thread beside the others.
total-between :
    (f : Pc → ℕ) (front : List Pc) (p : Pc) (back : List Pc)
    → total f (front ++ p ∷ back) ≡ f p + (total f front + total f back)
unfolding total
total-between f front p back = omega (arith, total-append f front (p ∷ back))

abbrev pub AreCounted : System → Type 0
AreCounted s =
    IsCounted s.lock (total reads s.threads) (total writes s.threads)
      (total waits_to_read s.threads) (total waits_to_write s.threads)

-- A step of any thread.
pub data Step (s : System) : System → Type 0 where
  moves :
      (c : Call) (p : Pc) (front back : List Pc)
      → s.threads ≡ front ++ p ∷ back
      → Step s
          (record { lock = (act c p s.lock).0.lock; threads = front ++ (act c p s.lock).1 ∷ back })

abbrev pub all_outside : ℕ → List Pc
all_outside zero = []
all_outside (suc n) = outside ∷ all_outside n

-- From a lock just made and `n` threads outside, any threads in any order.
pub data Reach (n : ℕ) : System → Type 0 where
  start : Reach n (record { lock = rwl_init; threads = all_outside n })
  later : {s t : System} → Reach n s → Step s t → Reach n t

-- What one thread counts for, and what the others do.
apart :
    (l : Rwlock) (front : List Pc) (p : Pc) (back : List Pc)
    → AreCounted (record { lock = l; threads = front ++ p ∷ back })
      ≡ IsCounted l
          (reads p + (total reads front + total reads back))
          (writes p + (total writes front + total writes back))
          (waits_to_read p + (total waits_to_read front + total waits_to_read back))
          (waits_to_write p + (total waits_to_write front + total waits_to_write back))
apart l front p back =
    rw
      (
        total-between reads front p back,
        total-between writes front p back,
        total-between waits_to_read front p back,
        total-between waits_to_write front p back,
      )
      refl

Step-AreCounted : {s t : System} → Step s t → AreCounted s → AreCounted t
Step-AreCounted {s} (moves c p front back e) h =
    let now : AreCounted (record { lock = s.lock; threads = front ++ p ∷ back }) =
      subst (λ threads. AreCounted (record { lock = s.lock; threads = threads })) e h in
    subst (λ X. X) (sym (apart (act c p s.lock).0.lock front (act c p s.lock).1 back))
      (act-IsCounted c p s.lock (total reads front + total reads back)
        (total writes front + total writes back)
        (total waits_to_read front + total waits_to_read back)
        (total waits_to_write front + total waits_to_write back)
        (subst (λ X. X) (apart s.lock front p back) now))

total-outside : (f : Pc → ℕ) (n : ℕ) → f outside ≡ 0 → total f (all_outside n) ≡ 0
unfolding total
total-outside f zero e = refl
total-outside f (suc n) e = omega (arith, e, total-outside f n e)

-- In every state that any number of threads reach over a lock, in any interleaving, with waits that
-- end early, fail or are cancelled and with attempts to destroy the lock in between: at most one
-- thread has the lock for writing, and none has it for reading while one has; `r_active` and
-- `w_active` are the numbers of readers and writers, `r_wait` and `w_wait` those of the waiting.
pub lock_excludes :
    {n : ℕ} {s : System}
    → Reach n s
    → IsCounted s.lock
        (total reads s.threads)
        (total writes s.threads)
        (total waits_to_read s.threads)
        (total waits_to_write s.threads)
unfolding rwl_init
lock_excludes {n} start =
    rw
      (
        total-outside reads n refl,
        total-outside writes n refl,
        total-outside waits_to_read n refl,
        total-outside waits_to_write n refl,
      )
      (record {
        readers = refl;
        writers = refl;
        read_waits = refl;
        write_waits = refl;
        one_writer_at_most = omega arith;
        alone = inl refl;
      })
lock_excludes (later r st) = Step-AreCounted st (lock_excludes r)

-- A lock that is destroyed has no thread inside: whoever destroys it, no thread holds it or waits.
pub destroyed_is_unused :
    {n : ℕ} {s : System}
    → Reach n s
    → (rwl_destroy s.lock).status ≡ done
    → (total reads s.threads + total writes s.threads)
        + (total waits_to_read s.threads + total waits_to_write s.threads)
      ≡ 0
unfolding rwl_destroy
destroyed_is_unused {s} r e = let h = lock_excludes r in ground arith
