-- ===== src/ParseAprs/Body/Reads.antt =====
-- Which bytes the APRS parser of src/parse_aprs.c reads, type by type: none behind the packet, but for
-- NMEA sentences and third-party packets.
use aprsc.Prelude.{
  ℕ, zero, suc, ◌+◌, ◌-◌, ◌≤◌, ◌<◌, ◌≡◌, ◌≢◌, refl, sym, ◌∙◌, ap, ap₂, arith, Bool, true, false,
  not, ◌&&◌, ◌||◌, Option, none, some, ltb, leb, ◌==◌, if◌then◌else◌, Bytes, length, [], ◌∷◌, ◌++◌,
  get_or-append, take, drop, drop-append-le, take-append-le, length-drop, inl, inr, Bool-cases,
  codes, All,
}
use aprsc.Packet.{Pbuf}
use aprsc.Qconstruct.Parse.{slice}
use aprsc.Prelude.Atoi.{is_digit}
use aprsc.ParseAprs.Position.{parse_aprs_compressed, parse_aprs_uncompressed}
use aprsc.ParseAprs.Position.Reads.{
  Same, by_guard, same_at, reads_as-same, compressed-same, uncompressed-same,
}
use aprsc.ParseAprs.Payload.{
  all_printable, name_len, item_len, recipient_len, parse_position, parse_aprs_object,
  parse_aprs_item, is_telemetry, is_nws,
}
use aprsc.ParseAprs.Body.{parse_plain}
use aprsc.ParseAprs.{
  Floats, Parsing, ParseAnswer, nothing, is_between, valid_sym_table_compressed, reads_as, body_end,
  byte_of,
}

no_cr : (d c : ℕ) (rest : Bool) → d ≡ b'\r' → b'\r' ≢ c → (d == c && rest) ≡ false
no_cr d c rest e h = ground arith

module _ (n : ℕ) (at at' : ℕ → ℕ) (same : Same n at at') where
  all_printable-same : (i k : ℕ) → i + k ≤ n → all_printable at i k ≡ all_printable at' i k
  unfolding all_printable
  all_printable-same i zero h = refl
  all_printable-same i (suc k) h =
      ap₂ (λ c rest. is_between 0x20 0x7e c && rest) (same_at n at at' same i (omega arith))
        (all_printable-same (i + 1) k (omega arith))

  name_len-same : (i k : ℕ) → i + k ≤ n → name_len at i k ≡ name_len at' i k
  unfolding name_len
  name_len-same i zero h = refl
  name_len-same i (suc k) h =
      ap₂ (λ c rest. if c == b' ' then rest else suc k)
        (same_at n at at' same (i + k) (omega arith)) (name_len-same i k (omega arith))

  pub recipient_len-same : (i k : ℕ) → i + k ≤ n → recipient_len at i k ≡ recipient_len at' i k
  unfolding recipient_len
  recipient_len-same i zero h = refl
  recipient_len-same i (suc k) h =
      ap₂ (λ c rest. if c == b' ' || (c == b':' || c == 0) then 0 else suc rest)
        (same_at n at at' same i (omega arith)) (recipient_len-same (i + 1) k (omega arith))

  item_len-same : (i k : ℕ) → i + k ≤ n → item_len at i k ≡ item_len at' i k
  unfolding item_len
  item_len-same i zero h = refl
  item_len-same i (suc k) h =
      rw (same_at n at at' same i (omega arith), item_len-same (i + 1) k (omega arith)) refl

  -- A text without a CR, where a CR comes in the packet.
  pub reads_as-cr :
      (i j : ℕ) (s : Bytes)
      → i ≤ j
      → j < n
      → at j ≡ b'\r'
      → All (λ c. b'\r' ≢ c) s
      → reads_as at i s ≡ reads_as at' i s
  unfolding reads_as
  reads_as-cr i j [] h k e a = refl
  reads_as-cr i j (c ∷ s) h k e a = elim (Bool-cases (i == j)) [
    | inl f ↦
        let here : at i ≡ b'\r' = ap at {x = i} {y = j} (ground arith) ∙ e in
        let here' : at' i ≡ b'\r' = sym (same_at n at at' same i (ground arith)) ∙ here in
        no_cr (at i) c _ here a.0 ∙ sym (no_cr (at' i) c _ here' a.0)
    | inr f ↦
        ap₂ (λ d rest. d == c && rest) (same_at n at at' same i (omega arith))
          (reads_as-cr (i + 1) j s (ground arith) k e a.1)
  ]

item_len-le : (at : ℕ → ℕ) (i k m : ℕ) → item_len at i k ≡ some m → m ≤ k
unfolding item_len
item_len-le at i zero m e = ground arith
item_len-le at i (suc k) m e =
    by_tests (at i == b'!' || at i == b'_') (is_between 0x20 0x7e (at i)) (item_len at (i + 1) k)
      (item_len-le at (i + 1) k) e
  where
    by_tests :
        (ended printable : Bool) (o : Option ℕ)
        → ((j : ℕ) → o ≡ some j → j ≤ k)
        → (if ended
            then some 0
            else if printable
            then elim o [ none ↦ none | some j ↦ some (suc j) ]
            else none)
          ≡ some m
        → m ≤ suc k
    by_tests true printable o ih e = ground arith
    by_tests false true none ih e = absurd (cc (e))
    by_tests false true (some j) ih e =
        let z : suc j ≡ m = ground arith in omega (arith, z, ih j refl)
    by_tests false false o ih e = absurd (cc (e))

pub recipient_len-le : (at : ℕ → ℕ) (i k : ℕ) → recipient_len at i k ≤ k
unfolding recipient_len
recipient_len-le at i zero = omega arith
recipient_len-le at i (suc k) =
    let h = recipient_len-le at (i + 1) k in by_test (at i == b' ' || (at i == b':' || at i == 0)) h
  where
    by_test :
        (b : Bool)
        → recipient_len at (i + 1) k ≤ k
        → (if b then 0 else suc (recipient_len at (i + 1) k)) ≤ suc k
    by_test true h = omega arith
    by_test false h = omega arith

pub slice-memory :
    (xs ys : Bytes) (i j : ℕ) → i ≤ j → j ≤ length xs → slice (xs ++ ys) i j ≡ slice xs i j
slice-memory xs ys i j h k =
    ap (take (j - i)) (drop-append-le i xs ys (omega arith))
    ∙ take-append-le (j - i) (drop i xs) ys (omega (arith, length-drop i xs))

module _ (fl : Floats) (beyond beyond' : Bytes) (pb : Pbuf)
    (fits : length pb.bytes ≡ pb.packet_len) where
  pub same : Same pb.packet_len (byte_of pb beyond) (byte_of pb beyond')
  unfolding Same
  same i h =
      get_or-append i pb.bytes beyond 0 (omega arith)
      ∙ sym (get_or-append i pb.bytes beyond' 0 (omega arith))

  pub same_byte : (i : ℕ) → i < pb.packet_len → byte_of pb beyond i ≡ byte_of pb beyond' i
  same_byte = same_at pb.packet_len (byte_of pb beyond) (byte_of pb beyond') same

  pub position-same :
      (st : Parsing) (p : ℕ)
      → p < pb.packet_len
      → parse_position fl beyond pb st p ≡ parse_position fl beyond' pb st p
  unfolding parse_position
  position-same st p h =
      ap
        (λ c.
          by_format c (parse_aprs_compressed fl (byte_of pb beyond) pb st p)
            (parse_aprs_uncompressed fl (byte_of pb beyond) pb st p))
        (same_byte p h)
      ∙ ap₂ (by_format (byte_of pb beyond' p))
          (compressed-same fl pb (byte_of pb beyond) (byte_of pb beyond') same st p)
          (uncompressed-same fl pb (byte_of pb beyond) (byte_of pb beyond') same st p)
    where
      by_format : ℕ → ParseAnswer × Parsing → ParseAnswer × Parsing → ParseAnswer × Parsing
      by_format c compressed uncompressed =
          if valid_sym_table_compressed c
          then compressed
          else if is_digit c
          then uncompressed
          else (nothing, st)

  pub plain-same :
      (st : Parsing) (c body : ℕ)
      → parse_plain fl beyond pb st c body ≡ parse_plain fl beyond' pb st c body
  unfolding parse_plain
  plain-same st c body =
      by_guard (ltb (body_end pb) (body + 10)) (nothing, st)
        (λ e. position-same _ (if c == b'/' || c == b'@' then body + 7 else body) (ground arith))

  pub object-same :
      (st : Parsing) (body : ℕ)
      → body + 29 < body_end pb
      → parse_aprs_object fl beyond pb st body ≡ parse_aprs_object fl beyond' pb st body
  unfolding parse_aprs_object
  object-same st body h =
      rw
        (
          same_byte (body + 9) (omega arith),
          same_byte (body + 16) (omega arith),
          all_printable-same pb.packet_len (byte_of pb beyond) (byte_of pb beyond') same body 9
              (omega arith),
          name_len-same pb.packet_len (byte_of pb beyond) (byte_of pb beyond') same body 9
              (omega arith),
          position-same
              (record st {
                object = true;
                srcname = body;
                srcname_len = name_len (byte_of pb beyond') body 9;
              })
              (body + 17) (omega arith),
        )
        refl

  pub item-same :
      (st : Parsing) (body : ℕ)
      → body + 18 < body_end pb
      → parse_aprs_item fl beyond pb st body ≡ parse_aprs_item fl beyond' pb st body
  unfolding parse_aprs_item
  item-same st body h =
      ap (with_len beyond) (
        item_len-same pb.packet_len (byte_of pb beyond) (byte_of pb beyond') same body 9
          (omega arith))
      ∙ by_len (item_len (byte_of pb beyond') body 9)
          (λ m. item_len-le (byte_of pb beyond') body 9 m)
    where
      st' : Parsing
      st' = record st { item = true }

      with_len : Bytes → Option ℕ → ParseAnswer × Parsing
      with_len more none = (nothing, st')
      with_len more (some i) =
          if not (byte_of pb more (body + i) == b'!' || byte_of pb more (body + i) == b'_')
          then (nothing, st')
          else if ltb i 3 || ltb 9 i
          then (nothing, st')
          else parse_position fl more pb (record st' { srcname = body; srcname_len = i })
              (body + i + 1)

      by_len :
          (o : Option ℕ) → ((m : ℕ) → o ≡ some m → m ≤ 9) → with_len beyond o ≡ with_len beyond' o
      by_len none le = refl
      by_len (some i) le =
          ap
            (λ c.
              if not (c == b'!' || c == b'_')
              then no_item
              else if ltb i 3 || ltb 9 i
              then no_item
              else parse_position fl beyond pb (record st' { srcname = body; srcname_len = i })
                  (body + i + 1))
            (same_byte (body + i) (omega (arith, le i refl)))
          ∙ by_guard
              (not (byte_of pb beyond' (body + i) == b'!' || byte_of pb beyond' (body + i) == b'_'))
              no_item
              (λ e. by_guard (ltb i 3 || ltb 9 i) no_item (λ f.
                position-same (record st' { srcname = body; srcname_len = i }) (body + i + 1)
                  (omega (arith, le i refl))))
        where
          no_item : ParseAnswer × Parsing
          no_item = (nothing, st')

  pub reads-same :
      (i k : ℕ) (s : Bytes)
      → length s ≡ k
      → i + k ≤ pb.packet_len
      → reads_as (byte_of pb beyond) i s ≡ reads_as (byte_of pb beyond') i s
  reads-same = reads_as-same pb.packet_len (byte_of pb beyond) (byte_of pb beyond') same

  pub nws-same :
      (body : ℕ) → body + 4 ≤ pb.packet_len → is_nws fl beyond pb body ≡ is_nws fl beyond' pb body
  nws-same body h = ap₂ ◌||◌ (reads-same body 4 (codes "NWS-") refl h) (
      ap₂ ◌||◌ (reads-same body 4 (codes "NWS_") refl h)
        (reads-same body 3 (codes "SKY") refl (omega arith)))

  pub telemetry-same :
      (body body_len : ℕ)
      → body + body_len < pb.packet_len
      → 10 ≤ body_len
      → is_telemetry fl beyond pb body body_len ≡ is_telemetry fl beyond' pb body body_len
  telemetry-same body body_len h k =
      ap₂ (λ c rest. c == b':' && rest) (same_byte (body + 9) (omega arith))
        (when_long (leb 16 body_len) (λ e. ground arith))
    where
      kinds : Bytes → Bool
      kinds more =
          reads_as (byte_of pb more) (body + 10) (codes "PARM.")
          || (reads_as (byte_of pb more) (body + 10) (codes "UNIT.")
              || (reads_as (byte_of pb more) (body + 10) (codes "EQNS.")
                  || reads_as (byte_of pb more) (body + 10) (codes "BITS.")))

      when_long :
          (long : Bool)
          → (long ≡ true → body + 15 ≤ pb.packet_len)
          → (long && kinds beyond) ≡ (long && kinds beyond')
      when_long false le = refl
      when_long true le =
          ap₂ ◌||◌ (reads-same (body + 10) 5 (codes "PARM.") refl (omega (arith, le refl))) (
            ap₂ ◌||◌ (reads-same (body + 10) 5 (codes "UNIT.") refl (omega (arith, le refl))) (
              ap₂ ◌||◌ (reads-same (body + 10) 5 (codes "EQNS.") refl (omega (arith, le refl)))
                (reads-same (body + 10) 5 (codes "BITS.") refl (omega (arith, le refl)))))
