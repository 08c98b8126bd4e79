-- ===== src/Tests/Wire.antt =====
-- A client of src/worker.c: its lines in three reads, and its output through a small buffer.
use aprsc.Prelude.{
  ◌+◌, ◌<◌, ◌≡◌, ◌↔◌, refl, arith, false, Option, none, some, List, [], ◌∷◌, ◌++◌, Bytes, length,
  All, keep,
}
use aprsc.Worker.Input.{
  deframe_loop, deframe_aprsis_input_lines, keep_rest, client_postread, read_all, is_eol,
}
use aprsc.Worker.Input.Scan.{is_some_text}
use aprsc.Worker.Input.Pieces.{rows_behind, joined_reads, feed, read_in_pieces}
use aprsc.Worker.Output.{
  Output, pending, Answer, took, would_block, OutputEvent, write, ready, output_run, output_event,
  tcp_client_write, client_event_out, handle_client_writable, client_buffer_outgoing_data,
  client_buffer_outgoing_allocate, all_done, after_write,
}
use aprsc.Worker.Output.Room.{Fits, AtMost, Holds}
use aprsc.Worker.Output.Order.{buffered_texts, TakesAtMost, output_in_order, buffer_full_exact}

abbrev noted_line : List Bytes → Bytes → Option (List Bytes)
noted_line lines line = some (line ∷ lines)

abbrev three_reads : List Bytes
three_reads =
    (b'a' ∷ b'b' ∷ b'\r' ∷ []) ∷ (b'\n' ∷ b'c' ∷ []) ∷ (b'd' ∷ b'\n' ∷ b'\n' ∷ b'e' ∷ []) ∷ []

three_reads_test :
    read_all noted_line [] [] three_reads
    ≡ some ((b'c' ∷ b'd' ∷ []) ∷ (b'a' ∷ b'b' ∷ []) ∷ [], (b'e' ∷ []))
unfolding read_all client_postread deframe_aprsis_input_lines deframe_loop keep_rest is_eol
three_reads_test = refl

read_in_pieces_example :
    read_all noted_line [] [] three_reads
    ≡ feed noted_line []
        (keep is_some_text (rows_behind [] (joined_reads three_reads)).0)
        (rows_behind [] (joined_reads three_reads)).1
read_in_pieces_example = read_in_pieces noted_line [] three_reads

abbrev long_text : Bytes
long_text = b'd' ∷ b'e' ∷ b'f' ∷ b'g' ∷ b'h' ∷ []

abbrev small_output : Output
small_output = record {
  obuf = (b'a' ∷ b'b' ∷ b'c' ∷ []);
  obuf_size = 6;
  obuf_start = 1;
  obuf_flushsize = 4;
  obuf_writes = 0;
  udp = false;
}

abbrev takes_one : Bytes → Answer
takes_one [] = took 0
takes_one (c ∷ s) = took 1

abbrev takes_none : Bytes → Answer
takes_none s = would_block

abbrev few_events : List ((Bytes → Answer) × OutputEvent)
few_events =
    (takes_one, write (b'd' ∷ b'e' ∷ []))
    ∷ (takes_none, ready)
    ∷ (takes_one, write (b'f' ∷ b'g' ∷ []))
    ∷ []

small_output-Fits : Fits small_output
unfolding Fits
small_output-Fits = (omega arith, omega arith)

takes_one-AtMost : (s : Bytes) → AtMost s (takes_one s)
unfolding AtMost
takes_one-AtMost [] = omega arith
takes_one-AtMost (c ∷ s) = omega arith

few_events-TakesAtMost : All TakesAtMost few_events
unfolding TakesAtMost AtMost
few_events-TakesAtMost = (takes_one-AtMost, (λ s. tt, (takes_one-AtMost, tt)))

few_events_test : (output_run small_output few_events).1 ≡ (b'b' ∷ b'c' ∷ [])
unfolding output_run output_event tcp_client_write client_event_out handle_client_writable
    client_buffer_outgoing_data client_buffer_outgoing_allocate all_done after_write
few_events_test = refl

output_in_order_example :
    (rest : Bytes) × ((output_run small_output few_events).1 ++ rest
      ≡ pending small_output ++ buffered_texts small_output.udp few_events)
    × Holds small_output.udp rest (output_run small_output few_events).0
output_in_order_example =
    output_in_order small_output few_events small_output-Fits few_events-TakesAtMost

buffer_full_exact_example :
    (client_buffer_outgoing_data small_output long_text ≡ none)
    ↔ (small_output.obuf_size < length (pending small_output) + length long_text)
buffer_full_exact_example = buffer_full_exact small_output long_text small_output-Fits
