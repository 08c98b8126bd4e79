-- ===== src/Qconstruct/Drop/Trace.antt =====
-- About what `q_dropcheck` of src/parse_qc.c returns.
use aprsc.Prelude.{
  ℕ, ◌+◌, ◌≤◌, ◌≡◌, ◌⊎◌, inl, inr, refl, arith, Bool, false, not, ◌&&◌, Option, none, some, ◌∷◌,
  ◌++◌, ◌==◌, if◌then◌else◌, Bool-cases, Bytes, length,
}
use aprsc.Qconstruct.Parse.{ok, Request, Outcome, slice}
use aprsc.Qconstruct.Drop.{
  is_corepeer, check_calls, check_type, check_mycall, calls_of, trace, trace_if, q_dropcheck,
}
use aprsc.Qconstruct.Drop.Guards.{>>=-eq-ok}

-- The trace before the server's own name.
abbrev pub with_login : Request → Bool → ℕ → Outcome → Bytes
with_login r login start out =
    let old = slice out.patched (start + 1) out.path_end in
    if r.client.validated && (not login && not (is_corepeer r.client.state))
    then old ++ (b',' ∷ r.client.username)
    else old

abbrev pub traced : Request → Bool → ℕ → Outcome → Outcome
traced r login start out = record out {
  q_replace = some (start + 1);
  new_q = with_login r login start out ++ (b',' ∷ r.server.serverid);
}

-- The trace was made, and there was room for it.
pub record IsTrace (r : Request) (type start : ℕ) (out out' : Outcome) (login : Bool) : Type 0 where
  pub type_i : type ≡ b'I'
  pub result : out' ≡ traced r login start out
  pub room : length (with_login r login start out) + 20 ≤ r.new_q_size

trace-ok :
    (r : Request) (login : Bool) (start : ℕ) (out : Outcome) {out' : Outcome}
    → trace r login start out ≡ ok out'
    → (out' ≡ traced r login start out)
      × (length (with_login r login start out) + 20 ≤ r.new_q_size)
unfolding trace
trace-ok r login start out e = (ground arith, ground arith)

trace_if-ok :
    (r : Request) (login : Bool) (type : ℕ) (s : Option ℕ) (out : Outcome) {out' : Outcome}
    → trace_if r login type s out ≡ ok out'
    → (out' ≡ out)
      ⊎ ((login : Bool) × (start : ℕ) × (s ≡ some start) × IsTrace r type start out out' login)
unfolding trace_if
trace_if-ok r login type none out f = inl cc
trace_if-ok r login type (some start) out {out'} f = elim (Bool-cases (type == b'I')) [
  | inr e ↦ inl (ground arith)
  | inl e ↦
      let made : trace r login start out ≡ ok out' = ground arith in
      let (same, room) = trace-ok r login start out made in
      inr (login, start, refl, record { type_i = ground arith; result = same; room = room })
]

pub q_dropcheck-out :
    (r : Request) (proto type : ℕ) (q_start : Option ℕ) (out : Outcome) {out' : Outcome}
    → q_dropcheck r proto type q_start out ≡ ok out'
    → (out' ≡ out)
      ⊎ ((login : Bool) × (start : ℕ) × (q_start ≡ some start)
          × IsTrace r type start out out' login)
unfolding q_dropcheck
q_dropcheck-out r proto type q_start out {out'} e =
    let (_, a, e1) = >>=-eq-ok (check_type r.server proto type) _ e in
    let (_, b, e2) = >>=-eq-ok (check_mycall r q_start out.path_end) _ e1 in
    let (login, c, e3) =
      >>=-eq-ok (check_calls r type (calls_of r q_start out.path_end) false) _ e2 in
    trace_if-ok r login type q_start out e3
