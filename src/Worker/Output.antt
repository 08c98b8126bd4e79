-- ===== src/Worker/Output.antt =====
-- src/worker.c: the output buffer of a client, and its bytes on the way to the socket.

pub mod Room
pub mod Steps
pub mod Order
use aprsc.Prelude.{
  ℕ, ◌+◌, ◌-◌, Bool, true, false, not, ◌&&◌, ◌||◌, Option, none, some, List, [], ◌∷◌, ◌++◌, ltb,
  leb, ◌==◌, if◌then◌else◌, Bytes, length, take, drop, get_or,
}

-- The output buffer of a client: `obuf` holds the bytes up to `obuf_end`. `udp` is the test for a
-- downstream socket.
pub record Output : Type 0 where
  pub obuf : Bytes
  pub obuf_size : ℕ
  pub obuf_start : ℕ
  pub obuf_flushsize : ℕ
  pub obuf_writes : ℕ
  pub udp : Bool

abbrev pub obuf_end : Output → ℕ
obuf_end c = length c.obuf

-- What is between `obuf_start` and `obuf_end`.
abbrev pub pending : Output → Bytes
pending c = drop c.obuf_start c.obuf

-- What `write` answers, once it is not interrupted.
pub data Answer : Type 0 where
  took : ℕ → Answer
  would_block broken_pipe failed : Answer

pub data CloseReason : Type 0 where
  output_buffer_full pipe_broken write_failed : CloseReason

-- -12, -9 and -11 close the client, -1 asks for another try, else the write is accepted.
pub data WriteResult : Type 0 where
  closed : CloseReason → WriteResult
  again kept : Output → WriteResult

abbrev pub moved_to_start : Output → Output
moved_to_start c = record c { obuf = drop c.obuf_start c.obuf; obuf_start = 0 }

abbrev pub emptied : Output → Output
emptied c = record c { obuf = []; obuf_start = 0 }

-- The buffer with room for so many bytes at its end.
unfoldable pub client_buffer_outgoing_allocate : Output → ℕ → Option Output
client_buffer_outgoing_allocate c len =
    if ltb c.obuf_size (obuf_end c + len)
    then if ltb (c.obuf_size - (obuf_end c - c.obuf_start)) len
      then none
      else some (moved_to_start c)
    else some c

abbrev pub with_data : Output → Bytes → Output
with_data c p = record c { obuf = c.obuf ++ p }

unfoldable pub client_buffer_outgoing_data : Output → Bytes → Option Output
unfolding client_buffer_outgoing_allocate
client_buffer_outgoing_data c p = elim (client_buffer_outgoing_allocate c (length p)) [
  | none ↦ none
  | some c' ↦ some (with_data c' p)
]

-- The end of `tcp_client_write`.
unfoldable pub all_done : Output → WriteResult
all_done c = if leb (obuf_end c) c.obuf_start then kept (emptied c) else kept c

-- What became of a try to write, and the bytes that the socket took. `is_flush` is a write of nothing.
unfoldable pub after_write : Output → Bool → Answer → WriteResult × Bytes
unfolding all_done
after_write c is_flush (took n) =
    (all_done (record c { obuf_start = c.obuf_start + n }), take n (pending c))
after_write c is_flush would_block = (again c, [])
after_write c is_flush broken_pipe = (closed pipe_broken, [])
after_write c true failed = (all_done c, [])
after_write c false failed = (closed write_failed, [])

abbrev pub goes_by_udp : Bool → Bytes → Bool
goes_by_udp udp p = udp && (ltb 0 (length p) && not (get_or p 0 0 == b'#'))

-- `socket` is the answer of `write` on the bytes that it is given.
unfoldable pub tcp_client_write : (Bytes → Answer) → Output → Bytes → WriteResult × Bytes
unfolding client_buffer_outgoing_data all_done after_write
tcp_client_write socket c p =
    let is_flush = length p == 0 in
    if goes_by_udp c.udp p
    then (kept c, [])
    else elim (client_buffer_outgoing_data (record c { obuf_writes = c.obuf_writes + 1 }) p) [
      | none ↦ (closed output_buffer_full, [])
      | some c' ↦
          if ltb c'.obuf_flushsize (obuf_end c') || (is_flush && ltb c'.obuf_start (obuf_end c'))
          then after_write c' is_flush (socket (pending c'))
          else (all_done c', [])
    ]

abbrev pub reset_if_sent : Output → Output
reset_if_sent c = if c.obuf_start == obuf_end c then emptied c else c

unfoldable pub handle_client_writable : Output → Answer → WriteResult × Bytes
handle_client_writable c (took n) =
    (kept (reset_if_sent (record c { obuf_start = c.obuf_start + n })), take n (pending c))
handle_client_writable c would_block = (again c, [])
handle_client_writable c broken_pipe = (closed write_failed, [])
handle_client_writable c failed = (closed write_failed, [])

-- `handle_client_event` where the socket is ready for output.
unfoldable pub client_event_out : (Bytes → Answer) → Output → WriteResult × Bytes
unfolding handle_client_writable
client_event_out socket c =
    if c.obuf_start == obuf_end c
    then (kept (emptied c), [])
    else handle_client_writable c (socket (pending c))

-- A write by the program, or a socket that is ready.
pub data OutputEvent : Type 0 where
  write : Bytes → OutputEvent
  ready : OutputEvent

unfoldable pub output_event : (Bytes → Answer) → Output → OutputEvent → WriteResult × Bytes
unfolding tcp_client_write client_event_out
output_event socket c (write p) = tcp_client_write socket c p
output_event socket c ready = client_event_out socket c

-- The client is gone once it is closed.
abbrev pub still_open : WriteResult → Option Output
still_open (closed reason) = none
still_open (again c) = some c
still_open (kept c) = some c

-- OutputEvent after event, each with the socket as it is then.
unfoldable pub output_run : Output → List ((Bytes → Answer) × OutputEvent) → Option Output × Bytes
unfolding output_event
output_run c [] = (some c, [])
output_run c ((socket, e) ∷ events) =
    let step = output_event socket c e in
    elim (still_open (step.0)) [
      | none ↦ (none, step.1)
      | some c' ↦ let rest = output_run c' events in (rest.0, step.1 ++ rest.1)
    ]
