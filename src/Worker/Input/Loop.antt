-- ===== src/Worker/Input/Loop.antt =====
-- That the loop over the buffer in src/worker.c reads it byte by byte and keeps the last row.
use mathlib.Core.List.{append-nil, append_assoc}
use aprsc.Prelude.{
  ℕ, ◌+◌, ◌≡◌, refl, sym, ◌∙◌, ap, arith, inl, inr, Bool, true, false, not, ◌&&◌, Option, none,
  some, [], ◌∷◌, ◌++◌, ltb, leb, if◌then◌else◌, Bool-cases, Bytes, length, drop, drop-append,
  drop-drop, drop-all,
}
use aprsc.Worker.Input.{
  is_eol, deframe_loop, deframe_aprsis_input_lines, keep_rest, client_postread,
}
use aprsc.Worker.Input.Scan.{is_some_text, scan_bytes}

keep_rest-drop : (consumed : ℕ) (ibuf : Bytes) → keep_rest consumed ibuf ≡ drop consumed ibuf
unfolding keep_rest
keep_rest-drop consumed ibuf =
    by_tests (leb (length ibuf) consumed) (ltb 0 consumed)
      (λ e. drop-all consumed ibuf (ground arith))
      (λ e. ap (λ n. drop n ibuf) {x = consumed} {y = 0} (ground arith))
  where
    by_tests :
        (past some_row : Bool)
        → (past ≡ true → drop consumed ibuf ≡ [])
        → (some_row ≡ false → drop consumed ibuf ≡ ibuf)
        → (if past then [] else if some_row then drop consumed ibuf else ibuf) ≡ drop consumed ibuf
    by_tests true some_row e f = sym (e refl)
    by_tests false true e f = refl
    by_tests false false e f = sym (f refl)

module _ {σ : Type 0} (handle : σ → Bytes → Option σ) where
  -- A line end that follows a line end feeds nothing, as an empty row feeds nothing.
  skipping_as_row :
      (st : σ) (row_start : ℕ) (ibuf : Bytes)
      → deframe_loop handle st row_start [] true ibuf
        ≡ deframe_loop handle st row_start [] false ibuf
  unfolding deframe_loop
  skipping_as_row st row_start [] = refl
  skipping_as_row st row_start (c ∷ ibuf) = elim (Bool-cases (is_eol c)) [
    | inl e ↦ rw (e, deframe_loop) refl
    | inr e ↦ rw (e, deframe_loop) refl
  ]

  -- What is left of the buffer after the loop.
  rest_of : Bytes → Option (σ × ℕ) → Option (σ × Bytes)
  rest_of ibuf none = none
  rest_of ibuf (some (st, consumed)) = some (st, drop consumed ibuf)

  drop-row :
      (row_start : ℕ) (row : Bytes) (c : ℕ) (whole s : Bytes)
      → drop row_start whole ≡ row ++ c ∷ s
      → drop (row_start + length row + 1) whole ≡ s
  drop-row row_start row c whole s e =
      drop-drop (row_start + length row) 1 whole
      ∙ ap (drop 1) (
          drop-drop row_start (length row) whole
          ∙ ap (drop (length row)) e
          ∙ drop-append row (c ∷ s))

  deframe_loop-scan :
      (st : σ) (row_start : ℕ) (row whole ibuf : Bytes)
      → drop row_start whole ≡ row ++ ibuf
      → rest_of whole (deframe_loop handle st row_start row false ibuf)
        ≡ scan_bytes handle st row ibuf
  unfolding deframe_loop scan_bytes rest_of
  deframe_loop-scan st row_start row whole [] e = ap (λ r. some (st, r)) (e ∙ append-nil row)
  deframe_loop-scan st row_start row whole (c ∷ ibuf) e =
      at_byte (is_eol c)
        (λ st'.
          ap (rest_of whole) (skipping_as_row st' (row_start + length row + 1) ibuf)
          ∙ deframe_loop-scan st' (row_start + length row + 1) [] whole ibuf
              (drop-row row_start row c whole ibuf e))
        (deframe_loop-scan st row_start (row ++ c ∷ []) whole ibuf
          (e ∙ sym (append_assoc row (c ∷ []) ibuf)))
    where
      at_end :
          (fed : Option σ)
          → ((st' : σ)
              → rest_of whole (deframe_loop handle st' (row_start + length row + 1) [] true ibuf)
                ≡ scan_bytes handle st' [] ibuf)
          → rest_of whole (elim fed [
            | none ↦ none
            | some st' ↦ deframe_loop handle st' (row_start + length row + 1) [] true ibuf
          ])
            ≡ (elim fed [ none ↦ none | some st' ↦ scan_bytes handle st' [] ibuf ])
      at_end none ih = refl
      at_end (some st') ih = ih st'

      at_byte :
          (ended : Bool)
          → ((st' : σ)
              → rest_of whole (deframe_loop handle st' (row_start + length row + 1) [] true ibuf)
                ≡ scan_bytes handle st' [] ibuf)
          → rest_of whole (deframe_loop handle st row_start (row ++ c ∷ []) false ibuf)
            ≡ scan_bytes handle st (row ++ c ∷ []) ibuf
          → rest_of whole
              (elim (if ended && (not false && ltb 0 (length row))
                then handle st row
                else some st) [
                  | none ↦ none
                  | some st' ↦
                      deframe_loop handle st'
                        (if ended then row_start + length row + 1 else row_start)
                        (if ended then [] else row ++ c ∷ [])
                        ended
                        ibuf
                ])
            ≡ (elim (if ended && is_some_text row then handle st row else some st) [
              | none ↦ none
              | some st' ↦ scan_bytes handle st' (if ended then [] else row ++ c ∷ []) ibuf
            ])
      at_byte true ends inside = at_end (if is_some_text row then handle st row else some st) ends
      at_byte false ends inside = inside

  pub client_postread-scan :
      (st : σ) (ibuf read : Bytes)
      → client_postread handle st ibuf read ≡ scan_bytes handle st [] (ibuf ++ read)
  unfolding client_postread deframe_aprsis_input_lines rest_of
  client_postread-scan st ibuf read =
      kept (deframe_loop handle st 0 [] false (ibuf ++ read))
      ∙ deframe_loop-scan st 0 [] (ibuf ++ read) (ibuf ++ read) refl
    where
      kept :
          (done : Option (σ × ℕ))
          → (elim done [
            | none ↦ none
            | some (st', consumed) ↦ some (st', keep_rest consumed (ibuf ++ read))
          ])
            ≡ rest_of (ibuf ++ read) done
      kept none = refl
      kept (some (st', consumed)) = ap (λ r. some (st', r)) (keep_rest-drop consumed (ibuf ++ read))
