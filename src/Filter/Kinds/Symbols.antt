-- ===== src/Filter/Kinds/Symbols.antt =====
-- The text of a symbol filter of src/filter.c.
use aprsc.Prelude.{
  not_taken, ◌≡◌, refl, ◌∙◌, ap, Bool, true, false, Option, none, some, [], ◌∷◌, ◌++◌, ◌==◌, Bytes,
  codes, All,
}
use aprsc.Filter.Kinds.{
  SymbolFilter, to_slash, three_of, two_tables, three_tables, filter_parse_one_s, has_no_text,
}

-- No '/' in it.
abbrev pub IsSymbols : Bytes → Type 0
IsSymbols s = All (λ c. (c == b'/') ≡ false) s

to_slash-append : (s rest : Bytes) → IsSymbols s → to_slash (s ++ b'/' ∷ rest) ≡ (s, some rest)
unfolding to_slash
to_slash-append [] rest h = refl
to_slash-append (c ∷ s) rest (h, hs) =
    not_taken (c == b'/') _ _ h ∙ ap (λ r. (c ∷ r.0, r.1)) (to_slash-append s rest hs)

-- `s/primary/alternate/overlays`
unfoldable pub symbols_text : SymbolFilter → Bytes
symbols_text f = codes "s/" ++ (f.primary ++ b'/' ∷ (f.alternate ++ b'/' ∷ f.overlays))

-- The tables without a '/', and with an alternate table where there is an overlay.
pub record IsPrintable (f : SymbolFilter) : Type 0 where
  pub primary : IsSymbols f.primary
  pub alternate : IsSymbols f.alternate
  pub overlaid : has_no_text f.alternate ≡ true → has_no_text f.overlays ≡ true

three_of-fields :
    (negation : Bool) (primary alternate overlays : Bytes)
    → (has_no_text alternate ≡ true → has_no_text overlays ≡ true)
    → three_of negation primary alternate overlays
      ≡ some (record {
        negation = negation;
        primary = primary;
        alternate = alternate;
        overlays = overlays;
      })
three_of-fields negation primary alternate [] h = refl
three_of-fields negation primary [] (o ∷ overlays) h = let e : false ≡ true = h refl in cc
three_of-fields negation primary (a ∷ alternate) (o ∷ overlays) h = refl

-- The rest of the text behind the primary table.
abbrev of_rest : Bool → Bytes → Bytes × Option Bytes → Option SymbolFilter
of_rest negation primary (alternate, more) = elim more [
  | none ↦ three_of negation primary alternate []
  | some overlays ↦ three_of negation primary alternate overlays
]

-- The text of a symbol filter whose tables have no '/', and whose alternate table is not empty where it
-- has overlays, is parsed back as that filter.
pub symbols_round_trip :
    (f : SymbolFilter) → IsPrintable f → filter_parse_one_s f.negation (symbols_text f) ≡ some f
unfolding filter_parse_one_s symbols_text three_tables
symbols_round_trip f h =
    ap (λ r. two_tables f.negation r.0 r.1)
      (to_slash-append f.primary (f.alternate ++ b'/' ∷ f.overlays) h.primary)
    ∙ ap (of_rest f.negation f.primary) (to_slash-append f.alternate f.overlays h.alternate)
    ∙ three_of-fields f.negation f.primary f.alternate f.overlays h.overlaid
