-- ===== src/Packet.antt =====
-- src/worker.h: the packet buffer `pbuf_t`. `data` is the field `bytes`, pointers into it are offsets, a `float` is its bit
-- pattern, which is only copied, and each flag bit that the code tests is a Boolean.
use aprsc.Prelude.{ℕ, Bool, Option, Bytes}

pub record Pbuf : Type 0 where
  -- which client it came from, to compare with and never to follow
  pub origin : Option ℕ
  pub bytes : Bytes
  pub packet_len : ℕ
  pub buf_len : ℕ
  pub srcname : ℕ
  pub srcname_len : ℕ
  pub srccall_end : ℕ
  pub dstcall_end_or_ssid : ℕ
  pub dstcall_end : ℕ
  pub dstcall_len : ℕ
  pub qconst_start : ℕ
  pub info_start : ℕ
  pub entrycall_len : ℕ
  pub seqnum : ℕ
  pub t : ℕ
  pub lat : ℕ
  pub lng : ℕ
  pub cos_lat : ℕ
  -- F_DUPE, F_HASPOS, F_FROM_UPSTR, F_FROM_DOWNSTR
  pub dupe : Bool
  pub has_pos : Bool
  pub from_upstr : Bool
  pub from_downstr : Bool
  -- T_POSITION, T_OBJECT, T_ITEM
  pub position : Bool
  pub object : Bool
  pub item : Bool
