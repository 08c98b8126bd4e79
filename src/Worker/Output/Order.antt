-- ===== src/Worker/Output/Order.antt =====
-- What the output buffer of src/worker.c keeps of what is written, and in which order.
use mathlib.Core.List.{append-nil, append_assoc}
use aprsc.Prelude.{
  ◌+◌, ◌<◌, ◌≡◌, refl, sym, ◌∙◌, ap, ap₂, arith, Bool, Option, none, some, List, [], ◌∷◌, ◌++◌,
  Bytes, length, All, ◌↔◌,
}
use aprsc.Worker.Output.{
  Output, pending, Answer, closed, again, kept, WriteResult, client_buffer_outgoing_data,
  OutputEvent, output_event, still_open, output_run,
}
use mathlib.Core.Path.{subst}
use aprsc.Worker.Output.Room.{Fits, AtMost, Holds, Buffered, data-Buffered}
use aprsc.Worker.Output.Steps.{Moves, buffered_text, output_event-Moves}

-- All that goes through the buffer in a run.
abbrev pub buffered_texts : Bool → List ((Bytes → Answer) × OutputEvent) → Bytes
buffered_texts udp [] = []
buffered_texts udp ((socket, e) ∷ events) = buffered_text udp e ++ buffered_texts udp events

unfoldable pub TakesAtMost : (Bytes → Answer) × OutputEvent → Type 0
TakesAtMost (socket, e) = (s : Bytes) → AtMost s (socket s)

Ordered : Output → Bytes → Option Output × Bytes → Type 0
Ordered c text (o, sent) = (rest : Bytes) × (sent ++ rest ≡ pending c ++ text) × Holds c.udp rest o

append-step :
    (sent rest more left before text texts : Bytes)
    → sent ++ rest ≡ before ++ text
    → more ++ left ≡ rest ++ texts
    → (sent ++ more) ++ left ≡ before ++ (text ++ texts)
append-step sent rest more left before text texts e f =
    append_assoc sent more left
    ∙ ap (λ s. sent ++ s) f
    ∙ sym (append_assoc sent rest texts)
    ∙ ap (λ s. s ++ texts) e
    ∙ append_assoc before text texts

-- From a buffer in its bounds, with sockets that never take more than they are given: what the
-- sockets take in a run, followed by some rest, is what was pending followed by what was written
-- through the buffer, byte for byte in order. If the client is still there at the end, the rest is
-- what is pending, and the buffer is in its bounds.
pub output_in_order :
    (c : Output) (events : List ((Bytes → Answer) × OutputEvent))
    → Fits c
    → All TakesAtMost events
    → (rest : Bytes) × ((output_run c events).1 ++ rest ≡ pending c ++ buffered_texts c.udp events)
      × Holds c.udp rest (output_run c events).0
unfolding Moves Holds Ordered TakesAtMost output_run
output_in_order c [] f h = (pending c, sym (append-nil (pending c)), (f, refl, refl))
output_in_order c ((socket, e) ∷ events) f h =
    stepped (output_event socket c e) (output_event-Moves socket c e f h.0)
      (λ c' g. output_in_order c' events g h.1)
  where
    text : Bytes
    text = buffered_text c.udp e

    texts : Bytes
    texts = buffered_texts c.udp events

    -- The client is still there, as `c'`.
    goes_on :
        (c' : Output) (sent rest : Bytes)
        → sent ++ rest ≡ pending c ++ text
        → Holds c.udp rest (some c')
        → Ordered c' (buffered_texts c'.udp events) (output_run c' events)
        → Ordered c (text ++ texts) ((output_run c' events).0, sent ++ (output_run c' events).1)
    goes_on c' sent rest taken (fits, same, left) (rest', taken', left') = (
      rest',
      append-step sent rest (output_run c' events).1 rest' (pending c) text texts taken
          (taken' ∙ ap₂ (λ s u. s ++ buffered_texts u events) left same),
      subst (λ u. Holds u rest' (output_run c' events).0) same left',
    )

    stepped :
        (step : WriteResult × Bytes)
        → Moves c (buffered_text c.udp e) step
        → ((c' : Output)
            → Fits c'
            → Ordered c' (buffered_texts c'.udp events) (output_run c' events))
        → Ordered c
            (buffered_text c.udp e ++ buffered_texts c.udp events)
            (elim (still_open (step.0)) [
              | none ↦ (none, step.1)
              | some c' ↦ ((output_run c' events).0, step.1 ++ (output_run c' events).1)
            ])
    stepped (closed reason, sent) (rest, taken, left) ih = (
      rest ++ texts,
      sym (append_assoc sent rest texts)
          ∙ ap (λ s. s ++ texts) taken
          ∙ append_assoc (pending c) text texts,
      tt,
    )
    stepped (again c', sent) (rest, taken, left) ih = goes_on c' sent rest taken left (ih c' left.0)
    stepped (kept c', sent) (rest, taken, left) ih = goes_on c' sent rest taken left (ih c' left.0)

-- On a buffer in its bounds, a write of text is refused exactly when what is pending leaves too
-- little room for it in the whole buffer, wherever the pending bytes are.
pub buffer_full_exact :
    (c : Output) (p : Bytes)
    → Fits c
    → (client_buffer_outgoing_data c p ≡ none) ↔ (c.obuf_size < length (pending c) + length p)
unfolding Buffered
buffer_full_exact c p f = by_room (client_buffer_outgoing_data c p) (data-Buffered c p f)
  where
    by_room :
        (o : Option Output)
        → Buffered c p o
        → (o ≡ none) ↔ (c.obuf_size < length (pending c) + length p)
    by_room none b = (λ e. b, λ h. refl)
    by_room (some c') b = (λ e. absurd (cc (e)), λ h. absurd (omega (arith, h, b.3)))
