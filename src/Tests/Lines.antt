-- ===== src/Tests/Lines.antt =====
-- Lines from a client through src/incoming.c.
use aprsc.Prelude.{
  true, ◌&&◌, Option, ap, ◌≡◌, refl, false, none, some, [], Bytes, codes, memchr, memmem,
  starts_with, is_alnum, same_bytes, same_nocase,
}
use aprsc.Qconstruct.Parse.{find_q, valid_q_callsign}
use aprsc.Qconstruct.Drop.{
  check_call, check_calls, check_type, check_mycall, trace_if, q_dropcheck, q_calls, among,
  is_login, is_source, mycall_in_path, trace,
}
use aprsc.Qconstruct.{finish, q_process, q_dispatch, q_inport}
use aprsc.Incoming.Error.{Checked, passed}
use aprsc.Incoming.Callsign.{
  all_alnum, src_dst_chars, path_chars, check_invalid_src_dst, check_invalid_path_callsign, fields,
  path_calls, check_path_calls, check_call_prefix_match, check_call_glob_match, digi_path_drop,
}
use aprsc.Incoming.Quirks.{head, quirk_path}
use aprsc.Incoming.Clean.{answer, gaps_end, is_ended, despaced, quirk_path-cleans}
use aprsc.Incoming.{
  Env, Assembled, assemble, dst_len, is_third_party_ip, parse_path, parse_header, boxed, fill,
}
use aprsc.Incoming.Entry.{queued, admit, admitted, incoming_parse}
use aprsc.Incoming.Layout.{IsLaidOut, assemble-IsLaidOut}
use aprsc.Incoming.Queued.{IsAdmitted, queued-IsAdmitted}
use aprsc.Tests.Purge.{packet}
use aprsc.Tests.Q.{server, igate}

abbrev env : Env
env = record {
  server = server;
  disallow_srccall_glob = [];
  disallow_igate_glob = [];
  fnmatch = same_nocase;
  is_local = λ call. false;
  tick = 100;
  origin = 7;
  parse_aprs = λ pb. record { refused = none; pb = pb; server_message = false; query = false };
  filter_preprocess = λ pb. pb;
}

abbrev line : Bytes
line = codes "SRC>APRS,WIDE1-1:>up"

-- The packet that an assembled or queued result holds.
abbrev made : Checked (Option Assembled) → Assembled
made (passed (some a)) = a
made _ = record { pb = packet 0 0; via = []; own = false }

is_made : assemble env igate line ≡ passed (some (made (assemble env igate line)))
unfolding assemble parse_header parse_path dst_len boxed fill memchr check_invalid_src_dst is_alnum
    check_call_prefix_match starts_with check_call_glob_match digi_path_drop memmem check_path_calls
    path_calls fields check_invalid_path_callsign is_third_party_ip q_process q_dispatch find_q
    same_bytes q_inport all_alnum path_chars src_dst_chars same_nocase among check_call check_calls
    check_mycall check_type is_login is_source mycall_in_path q_calls q_dropcheck trace trace_if
    valid_q_callsign finish
is_made = refl

assemble-IsLaidOut_example : IsLaidOut line (made (assemble env igate line)).pb
assemble-IsLaidOut_example = assemble-IsLaidOut env igate line is_made

cleaned : quirk_path head (codes ">APRS ,WIDE1-1 :>up") ≡ passed (codes ">APRS,WIDE1-1:>up")
unfolding quirk_path
cleaned = refl

quirk_path-cleans_example :
    quirk_path head (codes ">APRS ,WIDE1-1 :>up")
    ≡ answer
        (gaps_end (codes ">APRS ,WIDE1-1 :>up") && is_ended true (codes ">APRS ,WIDE1-1 :>up"))
        (despaced (codes ">APRS ,WIDE1-1 :>up"))
quirk_path-cleans_example = quirk_path-cleans (codes ">APRS ,WIDE1-1 :>up")

is_queued :
    (incoming_parse env igate line).result
    ≡ passed (queued (made (assemble env igate line)).pb false)
unfolding incoming_parse admit
is_queued = ap (λ m. (admitted env igate m).result) is_made

queued-IsAdmitted_example : IsAdmitted env igate line (made (assemble env igate line)).pb false
queued-IsAdmitted_example = queued-IsAdmitted env igate line is_queued
