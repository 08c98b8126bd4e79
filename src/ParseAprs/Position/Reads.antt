-- ===== src/ParseAprs/Position/Reads.antt =====
-- Which bytes the position formats of src/parse_aprs.c are read from: two buffers that agree on the
-- packet give the same position.
use aprsc.Prelude.{
  ℕ, zero, suc, ◌+◌, ◌-◌, ◌≤◌, ◌<◌, ◌≡◌, refl, ap, ap₂, arith, Bool, true, false, not, ◌&&◌, ltb,
  ◌==◌, if◌then◌else◌, Bytes, length, [], ◌∷◌,
}
use aprsc.Packet.{Pbuf}
use aprsc.ParseAprs.Scanf.{until_nul}
use aprsc.ParseAprs.Position.{
  base91, all_base91, is_base91, posbuf, parse_aprs_compressed, parse_aprs_uncompressed, scanned,
}
use aprsc.ParseAprs.Position.Mice.{valid_mice_call, valid_mice_info, mice_position, parse_aprs_mice}
use aprsc.ParseAprs.{
  Floats, Parsing, ParseAnswer, nothing, pbuf_fill_pos, minus, body_end, reads_as,
}

-- Two views of a buffer agree on so many bytes.
unfoldable pub Same : ℕ → (ℕ → ℕ) → (ℕ → ℕ) → Type 0
Same n at at' = (i : ℕ) → i < n → at i ≡ at' i

-- A test that does not hold gives way to the rest, which is the same then.
pub by_guard :
    {A : Type 0} (b : Bool) (x : A) {y z : A}
    → (b ≡ false → y ≡ z)
    → (if b then x else y) ≡ (if b then x else z)
by_guard true x h = refl
by_guard false x h = h refl

pub either_way :
    {A : Type 0} (b : Bool) {x x' y y' : A}
    → (b ≡ true → x ≡ x')
    → (b ≡ false → y ≡ y')
    → (if b then x else y) ≡ (if b then x' else y')
either_way true h k = h refl
either_way false h k = k refl

module _ (n : ℕ) (at at' : ℕ → ℕ) (same : Same n at at') where
  pub same_at : (i : ℕ) → i < n → at i ≡ at' i
  unfolding Same
  same_at i h = same i h

  base91-same : (i : ℕ) → i + 4 ≤ n → base91 at i ≡ base91 at' i
  unfolding base91
  base91-same i h =
      rw
        (
          same_at i (omega arith),
          same_at (i + 1) (omega arith),
          same_at (i + 2) (omega arith),
          same_at (i + 3) (omega arith),
        )
        refl

  all_base91-same : (i k : ℕ) → i + k ≤ n → all_base91 at i k ≡ all_base91 at' i k
  unfolding all_base91
  all_base91-same i zero h = refl
  all_base91-same i (suc k) h =
      ap₂ (λ c rest. is_base91 c && rest) (same_at i (omega arith))
        (all_base91-same (i + 1) k (omega arith))

  pub reads_as-same :
      (i k : ℕ) (s : Bytes) → length s ≡ k → i + k ≤ n → reads_as at i s ≡ reads_as at' i s
  unfolding reads_as
  reads_as-same i k [] e h = refl
  reads_as-same i k (c ∷ s) e h =
      ap₂ (λ d rest. d == c && rest) (same_at i (omega arith))
        (reads_as-same (i + 1) (k - 1) s (omega arith) (omega arith))

-- A compressed position from its numbers, its table and its code.
abbrev filled_with : Floats → Parsing → ℕ → ℕ → ℕ → ℕ → ParseAnswer × Parsing
filled_with fl st lat lng =
    pbuf_fill_pos fl st
      (fl.single (
        fl.sub (fl.decimal 90 0)
          (fl.single (fl.div (fl.single (fl.of_nat lat)) (fl.decimal 380926 0)))))
      (fl.single (
        fl.add (minus fl (fl.decimal 180 0))
          (fl.single (fl.div (fl.single (fl.of_nat lng)) (fl.decimal 190463 0)))))

module _ (fl : Floats) (pb : Pbuf) (at at' : ℕ → ℕ) (same : Same pb.packet_len at at') where
  pub compressed-same :
      (st : Parsing) (p : ℕ)
      → parse_aprs_compressed fl at pb st p ≡ parse_aprs_compressed fl at' pb st p
  unfolding parse_aprs_compressed
  compressed-same st p =
      by_guard (ltb (body_end pb) (p + 13)) (nothing, st) (λ e. inside (ground arith))
    where
      inside :
          p + 13 ≤ pb.packet_len
          → ◌≡◌ {A = ParseAnswer × Parsing}
              (if not (all_base91 at (p + 1) 8)
                then (nothing, st)
                else filled_with fl st (base91 at (p + 1)) (base91 at (p + 5)) (at p) (at (p + 9)))
              (if not (all_base91 at' (p + 1) 8)
                then (nothing, st)
                else filled_with fl st
                    (base91 at' (p + 1))
                    (base91 at' (p + 5))
                    (at' p)
                    (at' (p + 9)))
      inside h =
          rw
            (
              all_base91-same pb.packet_len at at' same (p + 1) 8 (omega arith),
              base91-same pb.packet_len at at' same (p + 1) (omega arith),
              base91-same pb.packet_len at at' same (p + 5) (omega arith),
              same_at pb.packet_len at at' same p (omega arith),
              same_at pb.packet_len at at' same (p + 9) (omega arith),
            )
            refl

  posbuf-same : (p : ℕ) → p + 19 ≤ pb.packet_len → posbuf at p ≡ posbuf at' p
  unfolding posbuf
  posbuf-same p h =
      let same_at' = same_at pb.packet_len at at' same in
      rw
        (
          same_at' p (omega arith),
          same_at' (p + 1) (omega arith),
          same_at' (p + 2) (omega arith),
          same_at' (p + 3) (omega arith),
          same_at' (p + 4) (omega arith),
          same_at' (p + 5) (omega arith),
          same_at' (p + 6) (omega arith),
          same_at' (p + 7) (omega arith),
          same_at' (p + 8) (omega arith),
          same_at' (p + 9) (omega arith),
          same_at' (p + 10) (omega arith),
          same_at' (p + 11) (omega arith),
          same_at' (p + 12) (omega arith),
          same_at' (p + 13) (omega arith),
          same_at' (p + 14) (omega arith),
          same_at' (p + 15) (omega arith),
          same_at' (p + 16) (omega arith),
          same_at' (p + 17) (omega arith),
          same_at' (p + 18) (omega arith),
        )
        refl

  pub uncompressed-same :
      (st : Parsing) (p : ℕ)
      → parse_aprs_uncompressed fl at pb st p ≡ parse_aprs_uncompressed fl at' pb st p
  unfolding parse_aprs_uncompressed
  uncompressed-same st p =
      by_guard (ltb (body_end pb) (p + 19)) (nothing, st)
        (λ e. ap (λ s. scanned fl st (until_nul s)) (posbuf-same p (ground arith)))

  mice_call-same : (d : ℕ) → d + 6 ≤ pb.packet_len → valid_mice_call at d ≡ valid_mice_call at' d
  unfolding valid_mice_call
  mice_call-same d h =
      let same_at' = same_at pb.packet_len at at' same in
      rw
        (
          same_at' d (omega arith),
          same_at' (d + 1) (omega arith),
          same_at' (d + 2) (omega arith),
          same_at' (d + 3) (omega arith),
          same_at' (d + 4) (omega arith),
          same_at' (d + 5) (omega arith),
        )
        refl

  mice_info-same : (b : ℕ) → b + 8 ≤ pb.packet_len → valid_mice_info at b ≡ valid_mice_info at' b
  unfolding valid_mice_info
  mice_info-same b h =
      let same_at' = same_at pb.packet_len at at' same in
      rw
        (
          same_at' b (omega arith),
          same_at' (b + 1) (omega arith),
          same_at' (b + 2) (omega arith),
          same_at' (b + 3) (omega arith),
          same_at' (b + 4) (omega arith),
          same_at' (b + 5) (omega arith),
          same_at' (b + 6) (omega arith),
          same_at' (b + 7) (omega arith),
        )
        refl

  mice_position-same :
      (st : Parsing) (d b : ℕ)
      → d + 6 ≤ pb.packet_len
      → b + 8 ≤ pb.packet_len
      → mice_position fl at pb st d b ≡ mice_position fl at' pb st d b
  unfolding mice_position
  mice_position-same st d b h k =
      let same_at' = same_at pb.packet_len at at' same in
      rw
        (
          same_at' d (omega arith),
          same_at' (d + 1) (omega arith),
          same_at' (d + 2) (omega arith),
          same_at' (d + 3) (omega arith),
          same_at' (d + 4) (omega arith),
          same_at' (d + 5) (omega arith),
          same_at' b (omega arith),
          same_at' (b + 1) (omega arith),
          same_at' (b + 2) (omega arith),
          same_at' (b + 6) (omega arith),
          same_at' (b + 7) (omega arith),
        )
        refl

  pub mice-same :
      (st : Parsing) (b : ℕ)
      → pb.dstcall_end_or_ssid ≤ pb.packet_len
      → parse_aprs_mice fl at pb st b ≡ parse_aprs_mice fl at' pb st b
  unfolding parse_aprs_mice
  mice-same st b h =
      let d = pb.srccall_end + 1 in
      by_guard (ltb (body_end pb) (b + 8)) (nothing, st)
        (λ e.
          by_guard (not (pb.dstcall_end_or_ssid == d + 6)) (nothing, st)
            (λ f.
              rw
                (
                  mice_call-same d (ground arith),
                  mice_info-same b (ground arith),
                  mice_position-same st d b (ground arith) (ground arith),
                )
                refl))
