-- ===== src/Incoming/Error.antt =====
-- src/worker.h: the INERR_… reasons to drop a packet, and the result of a check.
use mathlib.Core.Path.{◌≡◌}
use aprsc.Qconstruct.Parse.{QError, Result, ok, err}

pub data InError : Type 0 where
  no_colon no_dst no_path inv_srccall no_body inv_dstcall disallow_unverified : InError
  disallow_unverified_path nogate third_party_ip inv_3rd_party general_query out_of_pbufs : InError
  class_fail q_bug short_packet long_packet inv_path_call empty dis_srccall dis_igatecall : InError
  -- the reasons of the Q construct algorithm, and those of the APRS parser
  by_q : QError → InError
  dis_dx dis_msg_dst : InError

pub data Checked (A : Type 0) : Type 0 where
  passed : A → Checked A
  dropped : InError → Checked A

-- The first reason to drop a packet is the result.
infixl 5 ◌>>=◌
abbrev pub ◌>>=◌ : {A B : Type 0} → Checked A → (A → Checked B) → Checked B
dropped reason >>= go_on = dropped reason
passed value >>= go_on = go_on value

infixl 5 ◌>>◌
abbrev pub ◌>>◌ : {B : Type 0} → Checked (Unit {0}) → Checked B → Checked B
dropped reason >> go_on = dropped reason
passed _ >> go_on = go_on

abbrev pub of_q : {A : Type 0} → Result A → Checked A
of_q (ok value) = passed value
of_q (err reason) = dropped (by_q reason)

pub passed-injective : {A : Type 0} {a b : A} → passed a ≡ passed b → a ≡ b
passed-injective e = cc
