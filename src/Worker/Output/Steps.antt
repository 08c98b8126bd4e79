-- ===== src/Worker/Output/Steps.antt =====
-- What one event at the output buffer of src/worker.c sends and keeps.
use mathlib.Core.List.{append-nil}
use aprsc.Prelude.{
  ℕ, ◌+◌, ◌≤◌, ◌≡◌, refl, sym, ◌∙◌, ap, arith, Bool, true, false, ◌&&◌, ◌||◌, Option, none, some,
  [], ◌++◌, ltb, ◌==◌, if◌then◌else◌, Bytes, length, length-drop, drop, drop-drop, drop-all, take,
  take-append-drop,
}
use aprsc.Worker.Output.{
  output_buffer_full, Output, obuf_end, pending, Answer, took, would_block, broken_pipe, failed,
  closed, kept, WriteResult, client_buffer_outgoing_data, all_done, after_write, goes_by_udp,
  tcp_client_write, handle_client_writable, client_event_out, OutputEvent, write, ready,
  output_event, still_open, emptied, reset_if_sent,
}
use mathlib.Core.Path.{subst}
use aprsc.Worker.Output.Room.{Fits, AtMost, Holds, Buffered, data-Buffered, all_done-Holds}

-- What a step took, and what is then left.
unfoldable pub Moves : Output → Bytes → WriteResult × Bytes → Type 0
Moves c text (result, sent) =
    (rest : Bytes) × (sent ++ rest ≡ pending c ++ text) × Holds c.udp rest (still_open result)

Fits-forward :
    (c : Output) (n : ℕ)
    → Fits c
    → n ≤ length (pending c)
    → Fits (record c { obuf_start = c.obuf_start + n })
unfolding Fits
Fits-forward c n f h = (omega (arith, h, f.0, length-drop c.obuf_start c.obuf), f.1)

take-forward :
    (c : Output) (n : ℕ) → take n (pending c) ++ drop (c.obuf_start + n) c.obuf ≡ pending c
take-forward c n =
    ap (λ s. take n (pending c) ++ s) (drop-drop c.obuf_start n c.obuf)
    ∙ take-append-drop n (pending c)

after_write-Moves :
    (c : Output) (is_flush : Bool) (a : Answer)
    → Fits c
    → AtMost (pending c) a
    → Moves c [] (after_write c is_flush a)
unfolding Fits AtMost Holds Moves after_write
after_write-Moves c is_flush (took n) f h = (
  drop (c.obuf_start + n) c.obuf,
  take-forward c n ∙ sym (append-nil (pending c)),
  all_done-Holds (record c { obuf_start = c.obuf_start + n }) (Fits-forward c n f h),
)
after_write-Moves c is_flush would_block f h =
    (pending c, sym (append-nil (pending c)), (f, refl, refl))
after_write-Moves c is_flush broken_pipe f h = (pending c, sym (append-nil (pending c)), tt)
after_write-Moves c true failed f h = (pending c, sym (append-nil (pending c)), all_done-Holds c f)
after_write-Moves c false failed f h = (pending c, sym (append-nil (pending c)), tt)

-- The bytes of an event that go through the buffer.
abbrev pub buffered_text : Bool → OutputEvent → Bytes
buffered_text udp (write p) = if goes_by_udp udp p then [] else p
buffered_text udp ready = []

-- A step from a buffer that has the pending bytes and some text behind them.
with_text :
    (c c' : Output) (p : Bytes) (step : WriteResult × Bytes)
    → pending c' ≡ pending c ++ p
    → c'.udp ≡ c.udp
    → Moves c' [] step
    → Moves c p step
unfolding Moves
with_text c c' p (result, sent) e u (rest, taken, left) = (
  rest,
  taken ∙ append-nil (pending c') ∙ e,
  subst (λ udp. Holds udp rest (still_open result)) u left,
)

tcp_client_write-Moves :
    (socket : Bytes → Answer) (c : Output) (p : Bytes)
    → Fits c
    → ((s : Bytes) → AtMost s (socket s))
    → Moves c (buffered_text c.udp (write p)) (tcp_client_write socket c p)
unfolding Fits Buffered Holds Moves tcp_client_write
tcp_client_write-Moves socket c p f h =
    by_udp (goes_by_udp c.udp p)
      (client_buffer_outgoing_data (record c { obuf_writes = c.obuf_writes + 1 }) p)
      (data-Buffered (record c { obuf_writes = c.obuf_writes + 1 }) p f)
  where
    flushed : Output → Bool → WriteResult × Bytes
    flushed c' over =
        if over then after_write c' (length p == 0) (socket (pending c')) else (all_done c', [])

    flushed-Moves : (c' : Output) (over : Bool) → Fits c' → Moves c' [] (flushed c' over)
    flushed-Moves c' true g =
        after_write-Moves c' (length p == 0) (socket (pending c')) g (h (pending c'))
    flushed-Moves c' false g = (pending c', sym (append-nil (pending c')), all_done-Holds c' g)

    by_udp :
        (udp : Bool) (o : Option Output)
        → Buffered c p o
        → Moves c (if udp then [] else p) (
            if udp then (kept c, []) else elim o [
              | none ↦ (closed output_buffer_full, [])
              | some c' ↦ flushed c' (
                  ltb c'.obuf_flushsize (obuf_end c')
                  || (length p == 0 && ltb c'.obuf_start (obuf_end c')))
            ])
    by_udp true o b = (pending c, sym (append-nil (pending c)), (f, refl, refl))
    by_udp false none b = (pending c ++ p, refl, tt)
    by_udp false (some c') b =
        with_text c c' p
          (flushed c' (
            ltb c'.obuf_flushsize (obuf_end c')
            || (length p == 0 && ltb c'.obuf_start (obuf_end c'))))
          b.2 b.1
          (flushed-Moves c'
            (ltb c'.obuf_flushsize (obuf_end c')
              || (length p == 0 && ltb c'.obuf_start (obuf_end c')))
            b.0)

reset-Holds : (c : Output) → Fits c → Holds c.udp (pending c) (some (reset_if_sent c))
unfolding Fits Holds
reset-Holds c f =
    by_test (c.obuf_start == obuf_end c) (λ e. sym (drop-all c.obuf_start c.obuf (ground arith)))
  where
    by_test :
        (sent : Bool)
        → (sent ≡ true → [] ≡ pending c)
        → Holds c.udp (pending c) (some (if sent then emptied c else c))
    by_test true e = ((omega arith, omega arith), refl, e refl)
    by_test false e = (f, refl, refl)

handle_client_writable-Moves :
    (c : Output) (a : Answer)
    → Fits c
    → AtMost (pending c) a
    → Moves c [] (handle_client_writable c a)
unfolding Fits AtMost Holds Moves handle_client_writable
handle_client_writable-Moves c (took n) f h = (
  drop (c.obuf_start + n) c.obuf,
  take-forward c n ∙ sym (append-nil (pending c)),
  reset-Holds (record c { obuf_start = c.obuf_start + n }) (Fits-forward c n f h),
)
handle_client_writable-Moves c would_block f h =
    (pending c, sym (append-nil (pending c)), (f, refl, refl))
handle_client_writable-Moves c broken_pipe f h = (pending c, sym (append-nil (pending c)), tt)
handle_client_writable-Moves c failed f h = (pending c, sym (append-nil (pending c)), tt)

client_event_out-Moves :
    (socket : Bytes → Answer) (c : Output)
    → Fits c
    → ((s : Bytes) → AtMost s (socket s))
    → Moves c [] (client_event_out socket c)
unfolding Moves client_event_out
client_event_out-Moves socket c f h = by_test (c.obuf_start == obuf_end c) refl
  where
    by_test :
        (sent : Bool)
        → (c.obuf_start == obuf_end c) ≡ sent
        → Moves c []
            (if sent then (kept (emptied c), []) else handle_client_writable c (socket (pending c)))
    by_test true e = (
      pending c,
      sym (append-nil (pending c)),
      subst (λ b. Holds c.udp (pending c) (some (if b then emptied c else c))) e (reset-Holds c f),
    )
    by_test false e = handle_client_writable-Moves c (socket (pending c)) f (h (pending c))

pub output_event-Moves :
    (socket : Bytes → Answer) (c : Output) (e : OutputEvent)
    → Fits c
    → ((s : Bytes) → AtMost s (socket s))
    → Moves c (buffered_text c.udp e) (output_event socket c e)
unfolding output_event
output_event-Moves socket c (write p) f h = tcp_client_write-Moves socket c p f h
output_event-Moves socket c ready f h = client_event_out-Moves socket c f h
