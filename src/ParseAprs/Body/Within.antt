-- ===== src/ParseAprs/Body/Within.antt =====
-- That the APRS parser of src/parse_aprs.c looks at no byte behind the packet, but for NMEA sentences and
-- third-party packets.
use aprsc.Prelude.{
  ℕ, suc, ◌+◌, ◌-◌, ◌≤◌, ◌<◌, ◌≡◌, ◌≢◌, refl, sym, ◌∙◌, ap, arith, Bool, true, false, not, ◌&&◌,
  ◌||◌, some, ltb, leb, ◌==◌, if◌then◌else◌, Bytes, length, get_or, get_or-append, codes,
}
use aprsc.Packet.{Pbuf}
use aprsc.ParseAprs.Position.Reads.{Same, by_guard, either_way, mice-same}
use aprsc.ParseAprs.Body.Anywhere.{parse_anywhere_finds_nothing}
use aprsc.ParseAprs.Body.{
  parse_type, parse_other, parse_aprs_body, is_cwop, before_parsing, parse_aprs,
}
use aprsc.ParseAprs.{Floats, Parsing, nothing, reads_as, body_end, byte_of}
use aprsc.ParseAprs.Body.Reads.{same, same_byte, plain-same, object-same, item-same}
use aprsc.ParseAprs.Body.Texts.{message-same, cwop-same, dx-same}

-- Tests that are the same, with branches that are the same where they are taken.
branch :
    {A : Type 0} (b b' : Bool) {x x' y y' : A}
    → b ≡ b'
    → (b ≡ true → x ≡ x')
    → (b ≡ false → y ≡ y')
    → (if b then x else y) ≡ (if b' then x' else y')
branch b b' {x' = x'} {y' = y'} e h k = either_way b h k ∙ ap (λ t. if t then x' else y') e

module _ (fl : Floats) (beyond beyond' : Bytes) (pb : Pbuf)
    (fits : length pb.bytes ≡ pb.packet_len) where
  parse_other-same :
      (st : Parsing) (paclen c body : ℕ)
      → body + paclen + 1 ≡ pb.packet_len
      → 1 ≤ paclen
      → byte_of pb beyond (pb.packet_len - 2) ≡ b'\r'
      → parse_other fl beyond pb st paclen c body ≡ parse_other fl beyond' pb st paclen c body
  unfolding parse_other
  parse_other-same st paclen c body h k e =
      either_way (c == b':')
        (λ _.
          either_way (leb 11 paclen)
            (λ (long : leb 11 paclen ≡ true).
              message-same fl beyond beyond' pb fits (record st { message = true }) body
                (paclen - 1) (omega arith) (ground arith))
            (λ _. refl))
        (λ _.
          either_way (c == b';')
            (λ _.
              either_way (ltb (body + 29) (body_end pb))
                (λ (long : ltb (body + 29) (body_end pb) ≡ true).
                  object-same fl beyond beyond' pb fits st body (ground arith))
                (λ _. refl))
            (λ _.
              either_way (c == b'>') (λ _. refl)
                (λ _.
                  either_way (c == b'<') (λ _. refl)
                    (λ _.
                      either_way (c == b'?') (λ _. refl)
                        (λ _.
                          either_way (c == b')')
                            (λ _.
                              either_way (ltb (body + 18) (body_end pb))
                                (λ (long : ltb (body + 18) (body_end pb) ≡ true).
                                  item-same fl beyond beyond' pb fits st body (ground arith))
                                (λ _. refl))
                            (λ _.
                              branch
                                (c == b'D' && reads_as (byte_of pb beyond) body (codes "X de "))
                                (c == b'D' && reads_as (byte_of pb beyond') body (codes "X de "))
                                (ap (λ t. c == b'D' && t)
                                  (dx-same fl beyond beyond' pb fits body (omega arith)
                                    (omega arith) e))
                                (λ _. refl)
                                (λ _.
                                  either_way (c == b'T') (λ _. refl)
                                    (λ _.
                                      either_way (c == b'#' || (c == b'*' || c == b'_')) (λ _. refl)
                                        (λ _.
                                          either_way (c == b'{') (λ _. refl)
                                            (λ _.
                                              parse_anywhere_finds_nothing fl beyond pb st body
                                              ∙ sym (
                                                  parse_anywhere_finds_nothing fl beyond' pb st
                                                    body)))))))))))

  parse_type-same :
      (st : Parsing) (paclen c body : ℕ)
      → body + paclen + 1 ≡ pb.packet_len
      → 1 ≤ paclen
      → byte_of pb beyond (pb.packet_len - 2) ≡ b'\r'
      → pb.dstcall_end_or_ssid ≤ pb.packet_len
      → (c == b'$') ≡ false
      → parse_type fl beyond pb st paclen c body ≡ parse_type fl beyond' pb st paclen c body
  unfolding parse_type
  parse_type-same st paclen c body h k e d no_nmea =
      either_way (c == 0x27 || c == 0x60)
        (λ _.
          either_way (leb 9 paclen)
            (λ _.
              mice-same fl pb (byte_of pb beyond) (byte_of pb beyond') same_bytes
                (record st { position = true }) body d)
            (λ _. refl))
        (λ _.
          branch (c == b'!' && byte_of pb beyond body == b'!')
            (c == b'!' && byte_of pb beyond' body == b'!')
            (ap (λ t. c == b'!' && t == b'!')
              (same_byte fl beyond beyond' pb fits body (omega arith)))
            (λ _. refl)
            (λ _.
              either_way (c == b'!' || (c == b'=' || (c == b'/' || c == b'@')))
                (λ _. plain-same fl beyond beyond' pb fits st c body)
                (λ _.
                  either_way (c == b'$') (λ t. absurd (cc (sym t ∙ no_nmea)))
                    (λ _. parse_other-same st paclen c body h k e))))
    where
      same_bytes : Same pb.packet_len (byte_of pb beyond) (byte_of pb beyond')
      same_bytes = same fl beyond beyond' pb fits

  body-same :
      (fuel : ℕ) (st : Parsing)
      → byte_of pb beyond (pb.packet_len - 2) ≡ b'\r'
      → pb.dstcall_end_or_ssid ≤ pb.packet_len
      → (byte_of pb beyond pb.info_start == b'$') ≡ false
      → (byte_of pb beyond pb.info_start == b'}') ≡ false
      → parse_aprs_body fl beyond pb (suc fuel) st pb.info_start
        ≡ parse_aprs_body fl beyond' pb (suc fuel) st pb.info_start
  unfolding parse_aprs_body
  body-same fuel st e d no_nmea no_third =
      by_guard (ltb paclen 1) (some (nothing, st)) (λ (k : ltb paclen 1 ≡ false).
        branch (not (byte_of pb beyond pb.info_start == b'}'))
          (not (byte_of pb beyond' pb.info_start == b'}'))
          (ap (λ c. not (c == b'}')) (same_type (ground arith)))
          (λ _. ap some (
            parse_type-same st paclen (byte_of pb beyond pb.info_start) (pb.info_start + 1)
              (ground arith) (ground arith) e d no_nmea
            ∙ ap (λ c. parse_type fl beyond' pb st paclen c (pb.info_start + 1))
                (same_type (ground arith))))
          (λ (t : not (byte_of pb beyond pb.info_start == b'}') ≡ false).
            absurd (cc (sym t ∙ ap not no_third))))
    where
      paclen : ℕ
      paclen = pb.packet_len - pb.info_start - 2

      same_type :
          pb.info_start < pb.packet_len
          → byte_of pb beyond pb.info_start ≡ byte_of pb beyond' pb.info_start
      same_type = same_byte fl beyond beyond' pb fits pb.info_start

-- Let the packet fill its bytes, end with a line end and lie behind its header. Then unless its type is
-- NMEA or third-party, what earlier packets left behind it in the buffer makes no difference to the
-- result of the parser, nor to any of the fields that it writes.
pub parse_aprs_reads_the_packet :
    (fl : Floats) (beyond beyond' : Bytes) (pb : Pbuf)
    → length pb.bytes ≡ pb.packet_len
    → 4 ≤ pb.packet_len
    → get_or pb.bytes (pb.packet_len - 2) 0 ≡ b'\r'
    → pb.dstcall_end_or_ssid ≤ pb.packet_len
    → pb.info_start < pb.packet_len
    → get_or pb.bytes pb.info_start 0 ≢ b'$'
    → get_or pb.bytes pb.info_start 0 ≢ b'}'
    → parse_aprs fl beyond pb ≡ parse_aprs fl beyond' pb
unfolding parse_aprs
parse_aprs_reads_the_packet fl beyond beyond' pb fits long cr d inside no_nmea no_third =
    body-same fl beyond beyond' pb fits pb.packet_len
      (before_parsing fl beyond pb (is_cwop fl beyond pb))
      (read (pb.packet_len - 2) (omega arith) ∙ cr) d
      (differs _ _ b'$' (read pb.info_start inside) no_nmea)
      (differs _ _ b'}' (read pb.info_start inside) no_third)
    ∙ ap
        (λ cwop.
          parse_aprs_body fl beyond' pb (suc pb.packet_len) (before_parsing fl beyond pb cwop)
            pb.info_start)
        (cwop-same fl beyond beyond' pb fits long (read (pb.packet_len - 2) (omega arith) ∙ cr))
  where
    read : (i : ℕ) → i < pb.packet_len → byte_of pb beyond i ≡ get_or pb.bytes i 0
    read i h = get_or-append i pb.bytes beyond 0 (omega arith)

    differs : (x y c : ℕ) → x ≡ y → y ≢ c → (x == c) ≡ false
    differs x y c e n = ground arith
