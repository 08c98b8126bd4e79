-- ===== src/Worker/Input/Pieces.antt =====
-- About reading a client's lines in pieces, as src/worker.c does.
use aprsc.Prelude.{
  ◌≡◌, refl, sym, ◌∙◌, Bool, true, false, ◌&&◌, Option, none, some, List, [], ◌∷◌, ◌++◌,
  if◌then◌else◌, Bytes, keep,
}
use aprsc.Worker.Input.{is_eol, client_postread, read_all}
use aprsc.Worker.Input.Scan.{
  is_some_text, Unended, scan_bytes, and_scan, scan_bytes-append, scan_bytes-Unended,
  Unended-leftover, scan_bytes-leftover,
}
use aprsc.Worker.Input.Loop.{client_postread-scan}

-- The rows between the line ends of a text, and what is behind the last line end.
abbrev pub rows_behind : Bytes → Bytes → List Bytes × Bytes
rows_behind row [] = ([], row)
rows_behind row (c ∷ s) =
    let rest = rows_behind (if is_eol c then [] else row ++ c ∷ []) s in
    if is_eol c then (row ∷ rest.0, rest.1) else rest

abbrev pub joined_reads : List Bytes → Bytes
joined_reads [] = []
joined_reads (read ∷ reads) = read ++ joined_reads reads

module _ {σ : Type 0} (handle : σ → Bytes → Option σ) where
  -- The handler on line after line, until it says that the client is gone.
  abbrev pub feed : σ → List Bytes → Bytes → Option (σ × Bytes)
  feed st [] rest = some (st, rest)
  feed st (line ∷ lines) rest = elim (handle st line) [
    | none ↦ none
    | some st' ↦ feed st' lines rest
  ]

  read_all-scan :
      (st : σ) (ibuf : Bytes) (reads : List Bytes)
      → Unended ibuf
      → read_all handle st ibuf reads ≡ scan_bytes handle st ibuf (joined_reads reads)
  unfolding read_all scan_bytes and_scan Unended-leftover
  read_all-scan st ibuf [] u = refl
  read_all-scan st ibuf (read ∷ reads) u =
      at_read (client_postread handle st ibuf read) (scan_bytes handle st ibuf read)
        (client_postread-scan handle st ibuf read ∙ scan_bytes-Unended handle st [] ibuf read u)
        (scan_bytes-leftover handle st ibuf read u) (λ st' ibuf'. read_all-scan st' ibuf' reads)
      ∙ sym (scan_bytes-append handle st ibuf read (joined_reads reads))
    where
      at_read :
          (o done : Option (σ × Bytes))
          → o ≡ done
          → Unended-leftover handle done
          → ((st' : σ) (ibuf' : Bytes)
              → Unended ibuf'
              → read_all handle st' ibuf' reads ≡ scan_bytes handle st' ibuf' (joined_reads reads))
          → (elim o [ none ↦ none | some (st', ibuf') ↦ read_all handle st' ibuf' reads ])
            ≡ and_scan handle done (joined_reads reads)
      at_read o none e u ih = rw e refl
      at_read o (some (st', ibuf')) e u ih = rw e (ih st' ibuf' u)

  scan_bytes-feed :
      (st : σ) (row s : Bytes)
      → scan_bytes handle st row s
        ≡ feed st (keep is_some_text (rows_behind row s).0) (rows_behind row s).1
  unfolding scan_bytes
  scan_bytes-feed st row [] = refl
  scan_bytes-feed st row (c ∷ s) =
      at_byte (is_eol c) (λ st'. scan_bytes-feed st' [] s) (scan_bytes-feed st (row ++ c ∷ []) s)
    where
      Fed : Bool → Type 0
      Fed ended =
          let rest = rows_behind (if ended then [] else row ++ c ∷ []) s in
          let rows = if ended then (row ∷ rest.0, rest.1) else rest in
          (elim (if ended && is_some_text row then handle st row else some st) [
            | none ↦ none
            | some st' ↦ scan_bytes handle st' (if ended then [] else row ++ c ∷ []) s
          ])
          ≡ feed st (keep is_some_text rows.0) rows.1

      at_end :
          (some_row : Bool)
          → is_some_text row ≡ some_row
          → ((st' : σ)
              → scan_bytes handle st' [] s
                ≡ feed st' (keep is_some_text (rows_behind [] s).0) (rows_behind [] s).1)
          → (elim (if some_row then handle st row else some st) [
            | none ↦ none
            | some st' ↦ scan_bytes handle st' [] s
          ])
            ≡ feed st
                (if some_row
                  then row ∷ keep is_some_text (rows_behind [] s).0
                  else keep is_some_text (rows_behind [] s).0)
                (rows_behind [] s).1
      at_end true e ih = fed (handle st row) ih
        where
          fed :
              (o : Option σ)
              → ((st' : σ)
                  → scan_bytes handle st' [] s
                    ≡ feed st' (keep is_some_text (rows_behind [] s).0) (rows_behind [] s).1)
              → (elim o [ none ↦ none | some st' ↦ scan_bytes handle st' [] s ]) ≡ (elim o [
                | none ↦ none
                | some st' ↦ feed st' (keep is_some_text (rows_behind [] s).0) (rows_behind [] s).1
              ])
          fed none h = refl
          fed (some st') h = h st'
      at_end false e ih = ih st

      at_byte :
          (ended : Bool)
          → ((st' : σ)
              → scan_bytes handle st' [] s
                ≡ feed st' (keep is_some_text (rows_behind [] s).0) (rows_behind [] s).1)
          → scan_bytes handle st (row ++ c ∷ []) s
            ≡ feed st
                (keep is_some_text (rows_behind (row ++ c ∷ []) s).0)
                (rows_behind (row ++ c ∷ []) s).1
          → Fed ended
      at_byte true ends inside = at_end (is_some_text row) refl ends
      at_byte false ends inside = inside

-- However the bytes of a client are cut into reads, the handler is called on the non-empty rows
-- between the line ends of all of them, in order, until it answers that the client is gone, and
-- the buffer then holds what is behind the last line end.
pub read_in_pieces :
    {σ : Type 0} (handle : σ → Bytes → Option σ) (st : σ) (reads : List Bytes)
    → read_all handle st [] reads
      ≡ feed handle st
          (keep is_some_text (rows_behind [] (joined_reads reads)).0)
          (rows_behind [] (joined_reads reads)).1
unfolding Unended
read_in_pieces handle st reads =
    read_all-scan handle st [] reads tt ∙ scan_bytes-feed handle st [] (joined_reads reads)
