-- ===== src/ParseAprs/Body/Anywhere.antt =====
-- The search of src/parse_aprs.c for a position behind a '!', which other packets end with.
use aprsc.Prelude.{
  ℕ, suc, ◌+◌, ◌-◌, ◌<◌, ◌≡◌, refl, sym, ◌∙◌, ap, arith, Bool, true, false, ltb, leb, Option, none,
  some, [], ◌∷◌, ◌==◌, if◌then◌else◌, Bytes, get_or, get_or-drop, get_or-take, length,
  length-take-le, memchr, next, drop,
}
use aprsc.Packet.{Pbuf}
use aprsc.Qconstruct.Parse.{slice}
use aprsc.Incoming.Headers.{memchr-lt}
use aprsc.ParseAprs.Payload.{parse_position}
use aprsc.ParseAprs.Body.{parse_anywhere, last_resort}
use aprsc.ParseAprs.{
  Floats, Parsing, ParseAnswer, nothing, body_end, memory, byte_of, valid_sym_table_compressed,
}

memchr-get_or : (c : ℕ) (s : Bytes) (i : ℕ) → memchr c s ≡ some i → get_or s i 0 ≡ c
unfolding memchr
memchr-get_or c [] i e = absurd (cc (e))
memchr-get_or c (x ∷ s) i e =
    by_test (x == c) (λ h. ground arith) (memchr c s) (λ j. memchr-get_or c s j) e
  where
    by_test :
        (found : Bool)
        → (found ≡ true → x ≡ c)
        → (o : Option ℕ) → ((j : ℕ) → o ≡ some j → get_or s j 0 ≡ c)
        → (if found then some 0 else next o) ≡ some i
        → get_or (x ∷ s) i 0 ≡ c
    by_test true h o ih e = let z : i ≡ 0 = ground arith in ap (λ k. get_or (x ∷ s) k 0) z ∙ h refl
    by_test false h none ih e = absurd (cc (e))
    by_test false h (some j) ih e =
        let z : i ≡ suc j = ground arith in ap (λ k. get_or (x ∷ s) k 0) z ∙ ih j refl

module _ (fl : Floats) (beyond : Bytes) (pb : Pbuf) where
  last_resort-get_or :
      (body i : ℕ)
      → i < length (last_resort fl beyond pb body)
      → get_or (last_resort fl beyond pb body) i 0 ≡ byte_of pb beyond (body + i)
  last_resort-get_or body i = by_test (ltb (body_end pb) body)
    where
      by_test :
          (past : Bool)
          → i
            < length (
                if past
                then drop body (memory pb beyond)
                else slice (memory pb beyond) body (body_end pb))
          → get_or
              (if past
                then drop body (memory pb beyond)
                else slice (memory pb beyond) body (body_end pb))
              i
              0
            ≡ byte_of pb beyond (body + i)
      by_test true h = get_or-drop body i (memory pb beyond) 0
      by_test false h =
          get_or-take (body_end pb - body) i (drop body (memory pb beyond)) 0
            (omega (arith, h, length-take-le (body_end pb - body) (drop body (memory pb beyond))))
          ∙ get_or-drop body i (memory pb beyond) 0

  at_mark :
      (st : Parsing) (p : ℕ)
      → byte_of pb beyond p ≡ b'!'
      → parse_position fl beyond pb st p ≡ (nothing, st)
  unfolding parse_position valid_sym_table_compressed
  at_mark st p e = rw e refl

  -- The search for a position behind a '!' finds none, whatever the packet holds: it takes the
  -- '!' itself for the first character of the position, and that begins none.
  pub parse_anywhere_finds_nothing :
      (st : Parsing) (body : ℕ) → parse_anywhere fl beyond pb st body ≡ (nothing, st)
  unfolding parse_anywhere
  parse_anywhere_finds_nothing st body = by_mark (memchr b'!' (last_resort fl beyond pb body)) refl
    where
      by_mark :
          (o : Option ℕ)
          → memchr b'!' (last_resort fl beyond pb body) ≡ o
          → ◌≡◌ {A = ParseAnswer × Parsing}
              (elim o [
                | none ↦ (nothing, st)
                | some p ↦
                    if leb p 39 then parse_position fl beyond pb st (body + p) else (nothing, st)
              ])
              (nothing, st)
      by_mark none e = refl
      by_mark (some p) e =
          let s = last_resort fl beyond pb body in
          let mark =
            sym (last_resort-get_or body p (memchr-lt b'!' s e)) ∙ memchr-get_or b'!' s p e in
          by_near (leb p 39) (at_mark st (body + p) mark)
        where
          by_near :
              (near : Bool)
              → parse_position fl beyond pb st (body + p) ≡ (nothing, st)
              → (if near then parse_position fl beyond pb st (body + p) else (nothing, st))
                ≡ (nothing, st)
          by_near true h = h
          by_near false h = refl
