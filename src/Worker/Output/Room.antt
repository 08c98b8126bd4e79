-- ===== src/Worker/Output/Room.antt =====
-- The room in the output buffer of src/worker.c.
use aprsc.Prelude.{
  ℕ, ◌+◌, ◌-◌, ◌≤◌, ◌<◌, ◌≡◌, refl, sym, ◌∙◌, ap, arith, Bool, true, false, Option, none, some, [],
  ◌++◌, ltb, leb, if◌then◌else◌, Bytes, length, length-append, length-drop, drop-all,
  drop-append-le,
}
use aprsc.Worker.Output.{
  Output, obuf_end, pending, Answer, took, would_block, broken_pipe, failed, kept,
  client_buffer_outgoing_allocate, client_buffer_outgoing_data, all_done, still_open, emptied,
  moved_to_start, with_data,
}

-- The buffer is in its bounds.
unfoldable pub Fits : Output → Type 0
Fits c = (c.obuf_start ≤ obuf_end c) × (obuf_end c ≤ c.obuf_size)

-- A socket takes no more than it is given.
unfoldable pub AtMost : Bytes → Answer → Type 0
AtMost s (took n) = n ≤ length s
AtMost s would_block = Unit
AtMost s broken_pipe = Unit
AtMost s failed = Unit

-- A client that is still there has the bytes pending, in a buffer that is in its bounds.
unfoldable pub Holds : Bool → Bytes → Option Output → Type 0
Holds udp rest none = Unit
Holds udp rest (some c) = Fits c × (c.udp ≡ udp) × (pending c ≡ rest)

-- Room for so many bytes behind what is pending.
Room : Output → ℕ → Option Output → Type 0
Room c len none = c.obuf_size < length (pending c) + len
Room c len (some c') =
    (c'.obuf_start ≤ obuf_end c')
    × (obuf_end c' + len ≤ c'.obuf_size)
    × (c'.obuf_size ≡ c.obuf_size)
    × (c'.udp ≡ c.udp)
    × (pending c' ≡ pending c)

allocate-Room : (c : Output) (len : ℕ) → Fits c → Room c len (client_buffer_outgoing_allocate c len)
unfolding Fits Room client_buffer_outgoing_allocate
allocate-Room c len f =
    by_tests (ltb c.obuf_size (obuf_end c + len))
      (ltb (c.obuf_size - (obuf_end c - c.obuf_start)) len) (λ e. ground arith)
      (λ e. ground (arith, length-drop c.obuf_start c.obuf, f))
      (λ e. ground (arith, length-drop c.obuf_start c.obuf, f))
  where
    by_tests :
        (past over : Bool)
        → (past ≡ false → obuf_end c + len ≤ c.obuf_size)
        → (over ≡ true → c.obuf_size < length (pending c) + len)
        → (over ≡ false → length (pending c) + len ≤ c.obuf_size)
        → Room c len (if past then if over then none else some (moved_to_start c) else some c)
    by_tests true true e g h = g refl
    by_tests true false e g h = (omega arith, h refl, refl, refl, refl)
    by_tests false over e g h = (f.0, e refl, refl, refl, refl)

unfoldable pub Buffered : Output → Bytes → Option Output → Type 0
Buffered c p none = c.obuf_size < length (pending c) + length p
Buffered c p (some c') =
    Fits c'
    × (c'.udp ≡ c.udp)
    × (pending c' ≡ pending c ++ p)
    × (length (pending c) + length p ≤ c.obuf_size)

pub data-Buffered :
    (c : Output) (p : Bytes) → Fits c → Buffered c p (client_buffer_outgoing_data c p)
unfolding Fits Room Buffered client_buffer_outgoing_data
data-Buffered c p f =
    with_room (client_buffer_outgoing_allocate c (length p)) (allocate-Room c (length p) f)
  where
    with_room :
        (o : Option Output)
        → Room c (length p) o
        → Buffered c p (elim o [ none ↦ none | some c' ↦ some (with_data c' p) ])
    with_room none r = r
    with_room (some c') r = (
      (omega (arith, length-append c'.obuf p, r.0), omega (arith, length-append c'.obuf p, r.1)),
      r.3,
      drop-append-le c'.obuf_start c'.obuf p r.0 ∙ ap (λ s. s ++ p) r.4,
      omega (arith, length-drop c'.obuf_start c'.obuf, ap length r.4, r.0, r.1, r.2),
    )

pub all_done-Holds : (c : Output) → Fits c → Holds c.udp (pending c) (still_open (all_done c))
unfolding Fits Holds all_done
all_done-Holds c f =
    by_test (leb (obuf_end c) c.obuf_start) (λ e. sym (drop-all c.obuf_start c.obuf (ground arith)))
  where
    by_test :
        (sent : Bool)
        → (sent ≡ true → [] ≡ pending c)
        → Holds c.udp (pending c) (still_open (if sent then kept (emptied c) else kept c))
    by_test true e = ((omega arith, omega arith), refl, e refl)
    by_test false e = (f, refl, refl)
