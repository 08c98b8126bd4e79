-- ===== src/ParseAprs/Body/Message.antt =====
-- src/parse_aprs.c: the text of a message, its identifier, and whether it is an acknowledgement.
use aprsc.Prelude.{
  ℕ, zero, suc, ◌+◌, ◌-◌, Bool, true, false, not, ◌&&◌, Option, none, some, ltb, leb, ◌==◌,
  if◌then◌else◌, Bytes, codes,
}
use aprsc.Prelude.Int.{ℤ, pos, negsuc}
use aprsc.Packet.{Pbuf}
use aprsc.ParseAprs.{Parsing, reads_as, byte_of}

-- `aprs_message_t`: the texts are offsets and lengths. The length of the identifier may be negative.
pub record Message : Type 0 where
  pub body : ℕ
  pub body_len : ℕ
  pub msgid : Option ℕ
  pub msgid_len : ℤ
  pub is_ack : Bool

-- -1, -2 and 0
pub data MessageResult : Type 0 where
  no_message no_colon : MessageResult
  message_read : Message → MessageResult

-- The difference of two lengths as an `int`.
abbrev pub minus_int : ℕ → ℕ → ℤ
minus_int a b = if leb b a then pos (a - b) else negsuc (b - a - 1)

abbrev pub is_zero : ℤ → Bool
is_zero (pos n) = n == 0
is_zero (negsuc n) = false

-- Backwards to the last '{', or to the first byte, from so many bytes behind it.
unfoldable pub brace_from : (ℕ → ℕ) → ℕ → ℕ → ℕ
brace_from at body zero = body
brace_from at body (suc n) =
    let before = brace_from at body n in if at (body + suc n) == b'{' then body + suc n else before

-- With the identifier behind a '{', if there is one.
abbrev pub split_at : (ℕ → ℕ) → ℕ → ℕ → ℕ → ℕ → Message
split_at at end body body_len p =
    if at p == b'{'
    then record {
      body = body;
      body_len = p - body;
      msgid = some (p + 1);
      msgid_len = minus_int end (p + 1);
      is_ack = false;
    }
    else record {
      body = body;
      body_len = body_len;
      msgid = none;
      msgid_len = pos 0;
      is_ack = false;
    }

unfoldable pub with_ack : (ℕ → ℕ) → Message → Message
unfolding reads_as
with_ack at am =
    if is_zero am.msgid_len && (ltb 3 am.body_len && reads_as at am.body (codes "ack"))
    then record {
      body = am.body;
      body_len = 0;
      msgid = some (am.body + 3);
      msgid_len = pos (am.body_len - 3);
      is_ack = true;
    }
    else am

-- `body_len` is at first counted from the start of the information field.
unfoldable pub parse_aprs_message : Bytes → Pbuf → Parsing → MessageResult
unfolding brace_from with_ack
parse_aprs_message beyond pb st =
    let at = byte_of pb beyond in
    let end = pb.packet_len - 2 in
    let body = pb.info_start + 11 in
    let body_len = end - pb.info_start in
    if not st.message
    then no_message
    else if not (at (pb.info_start + 10) == b':')
    then no_colon
    else message_read
        (with_ack at (split_at at end body body_len (brace_from at body (body_len - 1))))
