-- ===== src/Tests/Locks.antt =====
-- Two threads over the lock of src/rwlock.c: a reader, and a writer that waits for it.
use aprsc.Prelude.{◌+◌, ◌≡◌, refl, [], ◌∷◌}
use aprsc.Rwlock.{
  Rwlock, rwl_init, rwl_destroy, rwl_rdlock, rwl_wrlock, rwl_rdunlock, wrlock_failed, outside,
  reading, write_wait, rdlock, wrlock, leave, fail, act, System,
}
use aprsc.Rwlock.Exclusion.{
  IsCounted, reads, writes, waits_to_read, waits_to_write, total, Reach, start, later, moves,
  lock_excludes, destroyed_is_unused,
}

abbrev read_held : Rwlock
read_held = (act rdlock outside rwl_init).0.lock

abbrev write_awaited : Rwlock
write_awaited = (act wrlock outside read_held).0.lock

abbrev contended : System
contended = record {
  lock = write_awaited;
  threads = (act rdlock outside rwl_init).1 ∷ (act wrlock outside read_held).1 ∷ [];
}

contended-Reach : Reach 2 contended
contended-Reach =
    later (later start (moves rdlock outside [] (outside ∷ []) refl))
      (moves wrlock outside ((act rdlock outside rwl_init).1 ∷ []) [] refl)

contended_is : contended.threads ≡ reading ∷ write_wait ∷ []
unfolding act rwl_init rwl_rdlock rwl_wrlock
contended_is = refl

lock_excludes_example :
    IsCounted write_awaited
      (total reads contended.threads)
      (total writes contended.threads)
      (total waits_to_read contended.threads)
      (total waits_to_write contended.threads)
lock_excludes_example = lock_excludes contended-Reach

-- The reader leaves, and the wait of the writer is cancelled.
abbrev left : System
left = record {
  lock = (act fail write_wait (act leave reading write_awaited).0.lock).0.lock;
  threads =
      (act leave reading write_awaited).1
      ∷ (act fail write_wait (act leave reading write_awaited).0.lock).1
      ∷ [];
}

left-Reach : Reach 2 left
left-Reach =
    later (later contended-Reach (moves leave reading [] (write_wait ∷ []) contended_is))
      (moves fail write_wait ((act leave reading write_awaited).1 ∷ []) [] refl)

destroyed_is_unused_example :
    (total reads left.threads + total writes left.threads)
      + (total waits_to_read left.threads + total waits_to_write left.threads)
    ≡ 0
unfolding act rwl_init rwl_rdlock rwl_wrlock rwl_rdunlock wrlock_failed rwl_destroy
destroyed_is_unused_example = destroyed_is_unused left-Reach refl
