-- ===== src/Tests/Q.antt =====
-- The Q construct of packets from the server's own test suite (tests/t/20qconstr-*.t).
use aprsc.Prelude.{
  refl, ◌<◌, arith, ℕ, Bool, true, false, ◌≡◌, refl, ◌++◌, Bytes, codes, length, some, memmem,
  same_nocase, starts_with,
}
use aprsc.Client.{Client, ClientState, Server}
use aprsc.Qconstruct.Parse.{Request, ok, find_q, Outcome}
use aprsc.Qconstruct.Within.{Within, q_process-Within}
use aprsc.Qconstruct.Fits.{IsSized, q_process-fits}
use aprsc.Qconstruct.Drop.{check_call, check_calls, check_type, check_mycall, trace_if, q_dropcheck}
use aprsc.Qconstruct.Drop.Guards.{Passes, q_dropcheck_exact}
use aprsc.Qconstruct.{
  append_q, keep_q, finish, back_to_comma, q_process, q_dispatch, q_inport, convert_viacall,
}

abbrev pub server : Server
server = record {
  serverid = codes "TESTING";
  q_protocol_id = b'A';
  disallow_unverified = false;
  disallow_other_protocol_id = true;
}

abbrev pub igate : Client
igate = record {
  state = ClientState.connected;
  validated = true;
  username = codes "N5CAL-1";
  addr_hex = codes "7F000001";
  quirks_mode = false;
  no_tx = false;
  inport = true;
  uplinkport = false;
  udpsubmit = false;
  fullfeed = false;
  dupefeed = false;
  clientonly = false;
  igate = false;
}

abbrev request : Client → Bool → Bytes → Bytes → Request
request client own head path = record {
  server = server;
  client = client;
  is_local = λ call. false;
  pdata = head ++ (path ++ codes ":>body");
  new_q_size = 600;
  via_start = length head;
  pathlen = length (head ++ path);
  originated_by_client = own;
}

abbrev gated : Request
gated = request igate false (codes "SRC>DST") (codes ",WIDE1-1,N5CAL-1,I")

abbrev gated_end : ℕ
gated_end = 25

abbrev gated_out : Outcome
gated_out = append_q gated 15 (codes ",qAR,N5CAL-1")

passes : q_process gated gated_end ≡ ok gated_out
unfolding q_process q_dispatch q_inport convert_viacall finish q_dropcheck check_type check_mycall
    check_calls check_call trace_if back_to_comma find_q memmem starts_with same_nocase
passes = refl

sized : IsSized gated gated_end
sized = record {
  serverid = omega arith;
  username = omega arith;
  addr_hex = omega arith;
  path = omega arith;
  via = omega arith;
}

q_process-Within_example : Within gated gated_end gated_out
q_process-Within_example = q_process-Within gated gated_end (omega arith) (omega arith) passes

q_process-fits_example : length gated_out.new_q < gated.new_q_size
q_process-fits_example = q_process-fits gated gated_end sized passes

abbrev traced_path : Request
traced_path = request igate false (codes "SRC>DST") (codes ",DIGI1*,qAI,FOOBA,BLAA")

abbrev kept : Outcome
kept = keep_q traced_path traced_path.pdata 29 (some 14)

q_dropcheck_exact_example :
    (Passes traced_path b'A' b'I' (some 14) 29
      → (login : Bool) × (q_dropcheck traced_path b'A' b'I' (some 14) kept
          ≡ trace_if traced_path login b'I' (some 14) kept))
    × ((out : Outcome)
        → q_dropcheck traced_path b'A' b'I' (some 14) kept ≡ ok out
        → Passes traced_path b'A' b'I' (some 14) 29)
q_dropcheck_exact_example = q_dropcheck_exact traced_path b'A' b'I' (some 14) kept
