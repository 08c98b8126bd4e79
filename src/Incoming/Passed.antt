-- ===== src/Incoming/Passed.antt =====
-- About the checks that a packet passed before `incoming_parse` of src/incoming.c fills its buffer.
use aprsc.Prelude.{ℕ, ◌≡◌, sym, false, some, Bytes}
use aprsc.Client.{Client}
use aprsc.Qconstruct.Parse.{ok, Outcome, find_q}
use aprsc.Qconstruct.{q_process}
use aprsc.Qconstruct.Kept.{HasPassed, q_process-HasPassed}
use aprsc.Incoming.Error.{dis_igatecall, long_packet, q_bug, passed, passed-injective, of_q, ◌>>=◌}
use aprsc.Incoming.{
  Env, Header, guard, found_or, buf_len_for, parse_header, request_of, new_len, qconst_start_of,
  has_disallowed_call, classify, Origin, boxed, dupefeed, upstream, downstream, fill, Assembled,
  assembled, assemble,
}
use aprsc.Incoming.Headers.{bind-passed, some-injective, then-passed, found_or-passed, of_q-passed}
use aprsc.Incoming.Accepted.{IsAccepted, guard-passed, parse_header-IsAccepted}

-- The header is accepted; `q_process` let the packet pass, by `q_dropcheck` where its own construct
-- stays; no callsign behind the construct is a disallowed one; and the buffer is the one that is
-- filled with the packet of this origin.
pub record HasPassedChecks (env : Env) (c : Client) (s : Bytes) (a : Assembled) : Type 0 where
  pub h : Header
  pub out : Outcome
  pub accepted : IsAccepted env s h
  pub processed : q_process (request_of env c s h) h.pathlen ≡ ok out
  pub own_construct :
      (i : ℕ)
      → out.new_q_start ≡ some i
      → HasPassed (request_of env c s h) (find_q s h.via_start h.pathlen) out
  pub no_disallowed : has_disallowed_call env out ≡ false
  pub buf_len : ℕ
  pub has_size : buf_len_for (new_len s out) ≡ some buf_len
  pub origin : Origin
  pub has_origin : classify c ≡ passed origin
  pub qconst : ℕ
  pub has_construct : qconst_start_of out ≡ some qconst
  pub is_filled : a ≡ assembled env c s h out (fill env c s h out origin buf_len qconst)

module _ (env : Env) (c : Client) (s : Bytes) (h : Header) (out : Outcome) (buf_len : ℕ) where
  -- What fills the buffer of a packet of this origin.
  Filled : Origin → Assembled → Type 0
  Filled origin a =
      (qconst : ℕ) × ((qconst_start_of out ≡ some qconst)
        × (a ≡ assembled env c s h out (fill env c s h out origin buf_len qconst)))

  qconst-Filled :
      (origin : Origin) {a : Assembled}
      → (found_or (qconst_start_of out) q_bug >>= λ qconst.
          passed (some (assembled env c s h out (fill env c s h out origin buf_len qconst))))
        ≡ passed (some a)
      → Filled origin a
  unfolding Filled
  qconst-Filled origin e =
      let (qconst, at, f) = bind-passed (found_or (qconst_start_of out) q_bug) _ e in
      (
        qconst,
        (found_or-passed (qconst_start_of out) q_bug at, sym (some-injective (passed-injective f))),
      )

  boxed-Filled :
      (origin : Origin) {a : Assembled}
      → boxed env c s h out buf_len origin ≡ passed (some a)
      → Filled origin a
  unfolding boxed
  boxed-Filled dupefeed e = absurd cc
  boxed-Filled upstream e = qconst-Filled upstream e
  boxed-Filled downstream e = qconst-Filled downstream e

pub assemble-HasPassedChecks :
    (env : Env) (c : Client) (s : Bytes) {a : Assembled}
    → assemble env c s ≡ passed (some a)
    → HasPassedChecks env c s a
unfolding assemble Filled
assemble-HasPassedChecks env c s {a} e =
    let (h, eh, e1) = bind-passed (parse_header env s) _ e in
    let r = request_of env c s h in
    let (out, eq, e2) = bind-passed (of_q (q_process r h.pathlen)) _ e1 in
    let bad = has_disallowed_call env out in
    let e3 = then-passed (guard bad dis_igatecall) _ e2 in
    let (buf_len, eb, e4) = bind-passed (found_or (buf_len_for (new_len s out)) long_packet) _ e3 in
    let (origin, eo, e5) = bind-passed (classify c) _ e4 in
    let is_ok = of_q-passed (q_process r h.pathlen) eq in
    let (qconst, (has, is)) = boxed-Filled env c s h out buf_len origin e5 in
    record {
      h = h;
      out = out;
      accepted = parse_header-IsAccepted env s eh;
      processed = is_ok;
      own_construct = λ i at. q_process-HasPassed r h.pathlen is_ok at;
      no_disallowed = guard-passed bad dis_igatecall _ e2;
      buf_len = buf_len;
      has_size = found_or-passed (buf_len_for (new_len s out)) long_packet eb;
      origin = origin;
      has_origin = eo;
      qconst = qconst;
      has_construct = has;
      is_filled = is;
    }
