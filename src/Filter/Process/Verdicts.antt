-- ===== src/Filter/Process/Verdicts.antt =====
-- About what the lists of filters of src/filter.c decide together.
use aprsc.Prelude.{
  ◌≡◌, refl, sym, ◌∙◌, ◌↔◌, ◌⊎◌, inl, inr, Bool, true, false, Option, none, some, List, [], ◌∷◌,
  if◌then◌else◌, All, Any,
}
use aprsc.Prelude.Int.{ℤ, pos}
use aprsc.Filter.Process.{
  Filter, Filters, is_positive, is_negative, default_filters, user_filters, no_output, or_next,
  filter_process,
}

module _ (one : Filter → ℤ) where
  abbrev pub HasMatch : List Filter → Type 0
  HasMatch = Any (λ f. is_positive (one f) ≡ true)

  -- Nothing matches and the next list is asked, or the answer of a match is returned.
  abbrev Decided : (ℤ → ℤ) → List Filter → Option ℤ → Type 0
  Decided hit fs r =
      ((r ≡ none) × ¬ (HasMatch fs))
      ⊎ ((rc : ℤ) × (r ≡ some (hit rc)) × (is_positive rc ≡ true) × HasMatch fs)

  goes_behind :
      (hit : ℤ → ℤ) (f : Filter) (fs : List Filter) (r : Option ℤ)
      → is_positive (one f) ≡ false
      → Decided hit fs r
      → Decided hit (f ∷ fs) r
  goes_behind hit f fs r e (inl (n, unmatched)) =
      inl (n, (λ a. elim a [ inl x ↦ absurd (cc (sym e ∙ x)) | inr x ↦ unmatched x ]))
  goes_behind hit f fs r e (inr (rc, s, p, m)) = inr (rc, s, p, inr m)

  default_filters-Decided :
      (hit : ℤ → ℤ) (fs : List Filter) → Decided hit fs (default_filters one hit fs)
  unfolding default_filters
  default_filters-Decided hit [] = inl (refl, (λ a. a))
  default_filters-Decided hit (f ∷ fs) =
      by_match (default_filters one hit fs) (default_filters-Decided hit fs) (is_positive (one f))
        refl
    where
      by_match :
          (rest : Option ℤ)
          → Decided hit fs rest
          → (b : Bool) → is_positive (one f) ≡ b
          → Decided hit (f ∷ fs) (if b then some (hit (one f)) else rest)
      by_match rest ih true e = inr (one f, refl, e, inl e)
      by_match rest ih false e = goes_behind hit f fs rest e ih

  -- Without a bad filter the lists of a client are gone through as those of the server.
  user_filters-default_filters :
      (notify : Filter → ℤ) (hit : ℤ → ℤ) (fs : List Filter)
      → All (λ f. is_negative (one f) ≡ false) fs
      → user_filters one notify hit fs ≡ default_filters one hit fs
  unfolding user_filters default_filters
  user_filters-default_filters notify hit [] good = refl
  user_filters-default_filters notify hit (f ∷ fs) good =
      rw (good.0, good.0, user_filters-default_filters notify hit fs good.1) refl

  -- The packet goes to the client by the igate support, or no excluding filter of the server matches
  -- and one of its passing filters does, or none of its filters matches, nor an excluding one of the
  -- client, and a passing one of the client does.
  abbrev pub IsPassed : Filters → Type 0
  IsPassed c =
      (c.igate_passes ≡ true)
      ⊎ (¬ (HasMatch c.negdefault)
          × (HasMatch c.posdefault ⊎ (¬ (HasMatch c.neguser) × HasMatch c.posuser)))

  combined :
      (g : Bool) (nd pd nu pu : List Filter) (a b c d : Option ℤ)
      → Decided no_output nd a
      → Decided (λ rc. rc) pd b
      → Decided no_output nu c
      → Decided (λ rc. rc) pu d
      → (is_positive (if g then pos 1 else or_next a (or_next b (or_next c (or_next d (pos 0)))))
          ≡ true)
        ↔ IsPassed (record {
          igate_passes = g;
          negdefault = nd;
          posdefault = pd;
          neguser = nu;
          posuser = pu;
        })
  combined true nd pd nu pu a b c d ha hb hc hd = ((λ e. inl refl), (λ e. refl))
  combined false nd pd nu pu a b c d (inr (rc, s, p, m)) hb hc hd =
      rw s ((λ e. absurd (cc e)), (λ h. elim h [ inl x ↦ absurd (cc x) | inr x ↦ absurd (x.0 m) ]))
  combined false nd pd nu pu a b c d (inl na) (inr (rc, s, p, m)) hc hd =
      rw (na.0, s) ((λ e. inr (na.1, inl m)), (λ h. p))
  combined false nd pd nu pu a b c d (inl na) (inl nb) (inr (rc, s, p, m)) hd =
      rw (na.0, nb.0, s)
        (
          (λ e. absurd (cc e)),
          (λ h. elim h [
            | inl x ↦ absurd (cc x)
            | inr x ↦ elim x.1 [ inl y ↦ absurd (nb.1 y) | inr y ↦ absurd (y.0 m) ]
          ]),
        )
  combined false nd pd nu pu a b c d (inl na) (inl nb) (inl nc) (inr (rc, s, p, m)) =
      rw (na.0, nb.0, nc.0, s) ((λ e. inr (na.1, inr (nc.1, m))), (λ h. p))
  combined false nd pd nu pu a b c d (inl na) (inl nb) (inl nc) (inl nd') =
      rw (na.0, nb.0, nc.0, nd'.0)
        (
          (λ e. absurd (cc e)),
          (λ h. elim h [
            | inl x ↦ absurd (cc x)
            | inr x ↦ elim x.1 [ inl y ↦ absurd (nb.1 y) | inr y ↦ absurd (nd'.1 y.1) ]
          ]),
        )

  -- If none of the client's own filters is bad, `filter_process` answers with a positive number
  -- exactly when the igate support passes the packet, or no excluding filter of the server matches
  -- and a passing one does, or, with no match among the server's, no excluding filter of the
  -- client's matches and a passing one does. So a filter of the server that passes the packet beats
  -- the exclusions of the client.
  pub filter_process_exact :
      (notify : Filter → ℤ) (c : Filters)
      → All (λ f. is_negative (one f) ≡ false) c.neguser
      → All (λ f. is_negative (one f) ≡ false) c.posuser
      → (is_positive (filter_process one notify c) ≡ true) ↔ IsPassed c
  unfolding filter_process
  filter_process_exact notify c good_neg good_pos =
      rw
        (
          user_filters-default_filters notify no_output c.neguser good_neg,
          user_filters-default_filters notify (λ rc. rc) c.posuser good_pos,
        )
        (combined c.igate_passes c.negdefault c.posdefault c.neguser c.posuser
          (default_filters one no_output c.negdefault) (default_filters one (λ rc. rc) c.posdefault)
          (default_filters one no_output c.neguser) (default_filters one (λ rc. rc) c.posuser)
          (default_filters-Decided no_output c.negdefault)
          (default_filters-Decided (λ rc. rc) c.posdefault)
          (default_filters-Decided no_output c.neguser)
          (default_filters-Decided (λ rc. rc) c.posuser))
