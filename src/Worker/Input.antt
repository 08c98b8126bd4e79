-- ===== src/Worker/Input.antt =====
-- src/worker.c: the lines in what is read from a client. `handle` is `handler_line_in` on a state of
-- its own; none is the answer that the client is gone. The children prove.
pub mod Scan
pub mod Loop
pub mod Pieces
use aprsc.Prelude.{
  ℕ, ◌+◌, Bool, true, false, not, ◌&&◌, ◌||◌, Option, none, some, List, [], ◌∷◌, ◌++◌, ltb, leb,
  ◌==◌, if◌then◌else◌, Bytes, length, drop,
}

unfoldable pub is_eol : ℕ → Bool
is_eol c = c == b'\r' || c == b'\n'

-- What is kept of the buffer.
unfoldable pub keep_rest : ℕ → Bytes → Bytes
keep_rest consumed ibuf =
    if leb (length ibuf) consumed then [] else if ltb 0 consumed then drop consumed ibuf else ibuf

module _ {σ : Type 0} (handle : σ → Bytes → Option σ) where
  -- The loop over the buffer. `row` is what was read since `row_start`, and `skipping` holds while
  -- the rest of a line end is skipped.
  unfoldable pub deframe_loop : σ → ℕ → Bytes → Bool → Bytes → Option (σ × ℕ)
  deframe_loop st row_start row skipping [] = some (st, row_start)
  deframe_loop st row_start row skipping (c ∷ ibuf) =
      let ended = is_eol c in
      let fed = if ended && (not skipping && ltb 0 (length row)) then handle st row else some st in
      elim fed [
        | none ↦ none
        | some st' ↦
            deframe_loop st' (if ended then row_start + length row + 1 else row_start)
              (if ended then [] else row ++ c ∷ []) ended ibuf
      ]

  -- The state of the handler, and how much of the buffer was consumed.
  unfoldable pub deframe_aprsis_input_lines : σ → Bytes → Option (σ × ℕ)
  unfolding deframe_loop
  deframe_aprsis_input_lines st ibuf = deframe_loop st 0 [] false ibuf

  unfoldable pub client_postread : σ → Bytes → Bytes → Option (σ × Bytes)
  unfolding deframe_aprsis_input_lines keep_rest
  client_postread st ibuf read = elim (deframe_aprsis_input_lines st (ibuf ++ read)) [
    | none ↦ none
    | some (st', consumed) ↦ some (st', keep_rest consumed (ibuf ++ read))
  ]

  -- One read after the other, from an empty buffer.
  unfoldable pub read_all : σ → Bytes → List Bytes → Option (σ × Bytes)
  unfolding client_postread
  read_all st ibuf [] = some (st, ibuf)
  read_all st ibuf (read ∷ reads) = elim (client_postread st ibuf read) [
    | none ↦ none
    | some (st', ibuf') ↦ read_all st' ibuf' reads
  ]
