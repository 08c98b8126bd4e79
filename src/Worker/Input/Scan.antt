-- ===== src/Worker/Input/Scan.antt =====
-- The bytes read from a client by src/worker.c, one by one with the row so far.
use mathlib.Core.List.{append-nil, append_assoc}
use aprsc.Prelude.{
  ◌≡◌, refl, sym, ◌∙◌, ap, Bool, true, false, ◌&&◌, Option, none, some, [], ◌∷◌, ◌++◌, ltb,
  if◌then◌else◌, Bytes, length, All, All-append,
}
use aprsc.Worker.Input.{is_eol}

abbrev pub is_some_text : Bytes → Bool
is_some_text row = ltb 0 (length row)

-- What is left of a row holds no line end, so that reading it again only gives the row.
unfoldable pub Unended : Bytes → Type 0
Unended row = All (λ c. is_eol c ≡ false) row

module _ {σ : Type 0} (handle : σ → Bytes → Option σ) where
  -- The bytes one by one, with the row so far.
  unfoldable pub scan_bytes : σ → Bytes → Bytes → Option (σ × Bytes)
  scan_bytes st row [] = some (st, row)
  scan_bytes st row (c ∷ s) =
      elim (if is_eol c && is_some_text row then handle st row else some st) [
        | none ↦ none
        | some st' ↦ scan_bytes st' (if is_eol c then [] else row ++ c ∷ []) s
      ]

  unfoldable pub and_scan : Option (σ × Bytes) → Bytes → Option (σ × Bytes)
  and_scan none s = none
  and_scan (some (st, row)) s = scan_bytes st row s

  pub scan_bytes-append :
      (st : σ) (row a b : Bytes) → scan_bytes st row (a ++ b) ≡ and_scan (scan_bytes st row a) b
  unfolding scan_bytes and_scan
  scan_bytes-append st row [] b = refl
  scan_bytes-append st row (c ∷ a) b =
      by_line (if is_eol c && is_some_text row then handle st row else some st)
        (λ st'. scan_bytes-append st' (if is_eol c then [] else row ++ c ∷ []) a b)
    where
      row' : Bytes
      row' = if is_eol c then [] else row ++ c ∷ []

      by_line :
          (fed : Option σ)
          → ((st' : σ) → scan_bytes st' row' (a ++ b) ≡ and_scan (scan_bytes st' row' a) b)
          → (elim fed [ none ↦ none | some st' ↦ scan_bytes st' row' (a ++ b) ])
            ≡ and_scan (elim fed [ none ↦ none | some st' ↦ scan_bytes st' row' a ]) b
      by_line none ih = refl
      by_line (some st') ih = ih st'

  pub scan_bytes-Unended :
      (st : σ) (row' row s : Bytes)
      → Unended row
      → scan_bytes st row' (row ++ s) ≡ scan_bytes st (row' ++ row) s
  unfolding Unended scan_bytes
  scan_bytes-Unended st row' [] s u = ap (λ r. scan_bytes st r s) (sym (append-nil row'))
  scan_bytes-Unended st row' (c ∷ row) s u =
      at_byte (is_eol c) u.0
      ∙ scan_bytes-Unended st (row' ++ c ∷ []) row s u.1
      ∙ ap (λ r. scan_bytes st r s) (append_assoc row' (c ∷ []) row)
    where
      at_byte :
          (ended : Bool)
          → ended ≡ false
          → (elim (if ended && is_some_text row' then handle st row' else some st) [
            | none ↦ none
            | some st' ↦ scan_bytes st' (if ended then [] else row' ++ c ∷ []) (row ++ s)
          ])
            ≡ scan_bytes st (row' ++ c ∷ []) (row ++ s)
      at_byte true e = absurd (cc (e))
      at_byte false e = refl

  unfoldable pub Unended-leftover : Option (σ × Bytes) → Type 0
  Unended-leftover none = Unit
  Unended-leftover (some (st, row)) = Unended row

  pub scan_bytes-leftover :
      (st : σ) (row s : Bytes) → Unended row → Unended-leftover (scan_bytes st row s)
  unfolding Unended Unended-leftover scan_bytes
  scan_bytes-leftover st row [] u = u
  scan_bytes-leftover st row (c ∷ s) u =
      at_byte (is_eol c) refl (λ st'. scan_bytes-leftover st' [] s tt)
        (λ e.
          scan_bytes-leftover st (row ++ c ∷ []) s
            (All-append (λ b. is_eol b ≡ false) row (c ∷ []) u (e, tt)))
    where
      at_end :
          (fed : Option σ)
          → ((st' : σ) → Unended-leftover (scan_bytes st' [] s))
          → Unended-leftover (elim fed [ none ↦ none | some st' ↦ scan_bytes st' [] s ])
      at_end none ends = tt
      at_end (some st') ends = ends st'

      at_byte :
          (ended : Bool)
          → is_eol c ≡ ended
          → ((st' : σ) → Unended-leftover (scan_bytes st' [] s))
          → (is_eol c ≡ false → Unended-leftover (scan_bytes st (row ++ c ∷ []) s))
          → Unended-leftover (elim (if ended && is_some_text row then handle st row else some st) [
            | none ↦ none
            | some st' ↦ scan_bytes st' (if ended then [] else row ++ c ∷ []) s
          ])
      at_byte true e ends inside = at_end (if is_some_text row then handle st row else some st) ends
      at_byte false e ends inside = inside e
