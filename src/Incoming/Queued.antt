-- ===== src/Incoming/Queued.antt =====
-- About the packets that `incoming_parse` of src/incoming.c puts in the worker's queue.
use aprsc.Prelude.{◌≡◌, refl, arith, Bool, true, false, Option, none, some, Bytes, codes, memmem}
use aprsc.Packet.{Pbuf}
use aprsc.Client.{Client}
use aprsc.Incoming.Error.{Checked, passed, dropped}
use aprsc.Incoming.{Env, Assembled, assemble}
use aprsc.Incoming.Layout.{IsLaidOut, assemble-IsLaidOut}
use aprsc.Incoming.Passed.{HasPassedChecks, assemble-HasPassedChecks}
use aprsc.Incoming.Entry.{queued, admit, admitted, as_sent, parsed, incoming_parse}

-- A queued packet comes from a buffer filled from the line as it was sent, or without its quirks,
-- which passed the checks of its header, `q_process` and those behind it; the APRS parser accepted
-- it, as neither a message to the server nor a query; and a server that disallows unverified
-- clients has verified this one, and finds no TCPXX in the path.
pub record IsAdmitted (env : Env) (c : Client) (line : Bytes) (pb : Pbuf) (heard : Bool)
    : Type 0 where
  pub s : Bytes
  pub a : Assembled
  pub sent : as_sent c line ≡ passed s
  pub checked : HasPassedChecks env c s a
  pub laid_out : IsLaidOut s a.pb
  pub accepted : (env.parse_aprs a.pb).refused ≡ none
  pub no_message : (env.parse_aprs a.pb).server_message ≡ false
  pub no_query : (env.parse_aprs a.pb).query ≡ false
  pub processed : pb ≡ env.filter_preprocess (env.parse_aprs a.pb).pb
  pub is_heard : heard ≡ c.igate
  pub verified : env.server.disallow_unverified ≡ true → c.validated ≡ true
  pub no_tcpxx : env.server.disallow_unverified ≡ true → memmem (codes ",TCPXX") a.via ≡ none

module _ (env : Env) (c : Client) (line : Bytes) {pb : Pbuf} {heard : Bool} where
  admit-IsAdmitted :
      (s : Bytes) (a : Assembled)
      → as_sent c line ≡ passed s
      → HasPassedChecks env c s a
      → IsLaidOut s a.pb
      → (admit env c a).result ≡ passed (queued pb heard)
      → IsAdmitted env c line pb heard
  unfolding admit
  admit-IsAdmitted s a sent checked laid e = record {
    s = s;
    a = a;
    sent = sent;
    checked = checked;
    laid_out = laid;
    accepted = ground arith;
    no_message = ground arith;
    no_query = ground arith;
    processed = ground arith;
    is_heard = ground arith;
    verified = ground arith;
    no_tcpxx = ground arith;
  }

  assembled-IsAdmitted :
      (s : Bytes) (m : Checked (Option Assembled))
      → as_sent c line ≡ passed s
      → assemble env c s ≡ m
      → (admitted env c m).result ≡ passed (queued pb heard)
      → IsAdmitted env c line pb heard
  assembled-IsAdmitted s (dropped reason) sent m e = absurd cc
  assembled-IsAdmitted s (passed none) sent m e = absurd cc
  assembled-IsAdmitted s (passed (some a)) sent m e =
      admit-IsAdmitted s a sent (assemble-HasPassedChecks env c s m) (assemble-IsLaidOut env c s m)
        e

  sent-IsAdmitted :
      (m : Checked Bytes)
      → as_sent c line ≡ m
      → (parsed env c m).result ≡ passed (queued pb heard)
      → IsAdmitted env c line pb heard
  sent-IsAdmitted (dropped reason) m e = absurd cc
  sent-IsAdmitted (passed s) m e = assembled-IsAdmitted s (assemble env c s) m refl e

-- A packet that `incoming_parse` queues meets all of `IsAdmitted`. The line, with or without its
-- quirks, is long enough, and has a body behind its first colon; its source and destination are
-- valid names, and the source is none of the disallowed ones; its path has no callsign like NOGATE
-- and no bad one; it is no third-party packet from the Internet. `q_process` let it pass, and a
-- construct of its own that stays meets all of `Passes`; no callsign behind it is a disallowed one.
-- Its buffer was filled with the line's information field behind its new header, and is large
-- enough; the APRS parser accepted it, as neither a message to the server nor a query; and if
-- unverified clients are disallowed, this one is verified and sent no path with TCPXX.
pub queued-IsAdmitted :
    (env : Env) (c : Client) (line : Bytes) {pb : Pbuf} {heard : Bool}
    → (incoming_parse env c line).result ≡ passed (queued pb heard)
    → IsAdmitted env c line pb heard
unfolding incoming_parse
queued-IsAdmitted env c line e = sent-IsAdmitted env c line (as_sent c line) refl e
