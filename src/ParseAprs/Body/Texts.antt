-- ===== src/ParseAprs/Body/Texts.antt =====
-- Which bytes src/parse_aprs.c reads for messages, source callsigns and DX cluster packets.
use aprsc.Prelude.{
  ℕ, zero, suc, ◌+◌, ◌-◌, ◌≤◌, ◌<◌, ◌≡◌, refl, sym, ◌∙◌, ap, ap₂, arith, Bool, true, false, ◌&&◌,
  ◌==◌, if◌then◌else◌, Bytes, length, inl, inr, Bool-cases, codes,
}
use aprsc.Packet.{Pbuf}
use aprsc.Qconstruct.Parse.{slice}
use aprsc.Incoming.Callsign.{call_max}
use aprsc.Prelude.Atoi.{is_digit}
use aprsc.ParseAprs.Payload.{
  recipient_len, is_telemetry, is_nws, message_parsed, preparse_aprs_message,
}
use aprsc.ParseAprs.Body.{digits_end, is_cwop}
use aprsc.ParseAprs.{Floats, Parsing, is_between, reads_as, memory, byte_of}
use aprsc.ParseAprs.Body.Reads.{
  reads_as-cr, recipient_len-same, recipient_len-le, slice-memory, same, same_byte, nws-same,
  telemetry-same,
}

module _ (fl : Floats) (beyond beyond' : Bytes) (pb : Pbuf)
    (fits : length pb.bytes ≡ pb.packet_len) where
  recipient-same :
      (body : ℕ)
      → body + 9 ≤ pb.packet_len
      → recipient_len (byte_of pb beyond) body call_max
        ≡ recipient_len (byte_of pb beyond') body call_max
  recipient-same body h =
      recipient_len-same pb.packet_len (byte_of pb beyond) (byte_of pb beyond')
        (same fl beyond beyond' pb fits) body call_max h

  name-same :
      (body i : ℕ)
      → body + i ≤ pb.packet_len
      → slice (memory pb beyond) body (body + i) ≡ slice (memory pb beyond') body (body + i)
  name-same body i h =
      slice-memory pb.bytes beyond body (body + i) (omega arith) (omega arith)
      ∙ sym (slice-memory pb.bytes beyond' body (body + i) (omega arith) (omega arith))

  pub message-same :
      (st : Parsing) (body body_len : ℕ)
      → body + body_len < pb.packet_len
      → 10 ≤ body_len
      → preparse_aprs_message fl beyond pb st body body_len
        ≡ preparse_aprs_message fl beyond' pb st body body_len
  unfolding preparse_aprs_message
  message-same st body body_len h k =
      ap₂
        (λ nws telemetric.
          message_parsed st nws telemetric body (len beyond) (name beyond (len beyond)))
        (nws-same fl beyond beyond' pb fits body (omega arith))
        (telemetry-same fl beyond beyond' pb fits body body_len h k)
      ∙ ap
          (λ i.
            message_parsed st (is_nws fl beyond' pb body) (is_telemetry fl beyond' pb body body_len)
              body i (name beyond i))
          (recipient-same body (omega arith))
      ∙ ap
          (message_parsed st (is_nws fl beyond' pb body) (is_telemetry fl beyond' pb body body_len)
            body (len beyond'))
          (name-same body (len beyond')
            (omega (arith, recipient_len-le (byte_of pb beyond') body call_max)))
    where
      len : Bytes → ℕ
      len more = recipient_len (byte_of pb more) body call_max

      name : Bytes → ℕ → Bytes
      name more i = slice (memory pb more) body (body + i)

  -- The digits of a callsign end before the line end.
  digits_end-le :
      (i n j : ℕ)
      → i ≤ j
      → j < i + n
      → is_digit (byte_of pb beyond j) ≡ false
      → digits_end fl beyond pb i n ≤ j
  unfolding digits_end
  digits_end-le i zero j h k e = omega arith
  digits_end-le i (suc n) j h k e =
      by_digit (is_digit (byte_of pb beyond i)) refl
        (λ lt. digits_end-le (i + 1) n j lt (omega arith) e)
    where
      further : is_digit (byte_of pb beyond i) ≡ true → i + 1 ≤ j
      further d = elim (Bool-cases (i == j)) [
        | inl f ↦ absurd (
            cc
              (sym d ∙ ap (λ p. is_digit (byte_of pb beyond p)) {x = i} {y = j} (ground arith) ∙ e))
        | inr f ↦ ground arith
      ]

      by_digit :
          (digit : Bool)
          → is_digit (byte_of pb beyond i) ≡ digit
          → (i + 1 ≤ j → digits_end fl beyond pb (i + 1) n ≤ j)
          → (if digit then digits_end fl beyond pb (i + 1) n else i) ≤ j
      by_digit true d ih = ih (further d)
      by_digit false d ih = h

  pub digits_end-same :
      (i n : ℕ) → i + n ≤ pb.packet_len → digits_end fl beyond pb i n ≡ digits_end fl beyond' pb i n
  unfolding digits_end
  digits_end-same i zero h = refl
  digits_end-same i (suc n) h =
      ap₂ (λ c rest. if is_digit c then rest else i)
        (same_byte fl beyond beyond' pb fits i (omega arith))
        (digits_end-same (i + 1) n (omega arith))

  pub cwop-same :
      4 ≤ pb.packet_len
      → byte_of pb beyond (pb.packet_len - 2) ≡ b'\r'
      → is_cwop fl beyond pb ≡ is_cwop fl beyond' pb
  unfolding is_cwop
  cwop-same h e =
      ap₂ (λ c rest. c == b'W' && rest) (same_byte fl beyond beyond' pb fits 1 (omega arith))
        (ap₂ (λ c rest. is_between b'C' b'E' c && rest)
          (same_byte fl beyond beyond' pb fits 0 (omega arith))
          (ap (λ i. byte_of pb beyond i == b'>')
              (digits_end-same 2 (pb.packet_len - 2) (omega arith))
            ∙ ap (λ c. c == b'>')
                (same_byte fl beyond beyond' pb fits
                  (digits_end fl beyond' pb 2 (pb.packet_len - 2))
                  (omega (
                    arith,
                    h,
                    digits_end-same 2 (pb.packet_len - 2) (omega arith),
                    digits_end-le 2 (pb.packet_len - 2) (pb.packet_len - 2) (omega arith)
                        (omega arith) (ap is_digit e),
                  )))))

  pub dx-same :
      (body : ℕ)
      → body ≤ pb.packet_len - 2
      → 2 ≤ pb.packet_len
      → byte_of pb beyond (pb.packet_len - 2) ≡ b'\r'
      → reads_as (byte_of pb beyond) body (codes "X de ")
        ≡ reads_as (byte_of pb beyond') body (codes "X de ")
  dx-same body h k e =
      reads_as-cr pb.packet_len (byte_of pb beyond) (byte_of pb beyond')
        (same fl beyond beyond' pb fits) body (pb.packet_len - 2) (codes "X de ") h (omega arith) e
        (omega arith, (omega arith, (omega arith, (omega arith, (omega arith, tt)))))
