-- ===== src/Qconstruct/Drop/Guards.antt =====
-- About the conditions under which `q_dropcheck` of src/parse_qc.c lets a packet pass.
use aprsc.Prelude.{
  ℕ, ◌≡◌, ◌≢◌, ◌↔◌, ◌⊎◌, inl, inr, refl, arith, Bool, true, false, ◌||◌, Option, none, some, List,
  [], ◌∷◌, Bool-cases, Bytes, same_bytes, same_bytes_iff, All,
}
use aprsc.Client.{Server}
use aprsc.Qconstruct.Parse.{Result, ok, err, Request, Outcome, valid_q_callsign}
use aprsc.Qconstruct.Drop.{
  ◌>>=◌, is_connected, is_login, is_source, among, check_call, check_calls, check_type,
  check_mycall, calls_of, mycall_in_path, trace_if, q_dropcheck,
}

among_iff :
    (call : Bytes) (calls : List Bytes)
    → (among call calls ≡ false) ↔ All (λ other. call ≢ other) calls
unfolding among
among_iff call [] = (λ _. tt, λ _. refl)
among_iff call (other ∷ calls) =
    let rest = among_iff call calls in
    let same = same_bytes_iff call other in
    (
      λ h. (λ e. ground (arith, same.1 e), rest.0 (ground arith)),
      λ h. elim (Bool-cases (same_bytes call other)) [
        | inl e ↦ absurd (h.0 (same.0 e))
        | inr e ↦ rw e (rest.1 h.1)
      ],
    )

-- A callsign behind the construct that gives no reason to drop, with the callsigns `later` on.
pub record GoodCall (r : Request) (type : ℕ) (call : Bytes) (later : List Bytes) : Type 0 where
  pub distinct : All (λ other. call ≢ other) later
  pub known :
      (is_login r call ≡ true) ⊎ ((r.is_local call ≡ false) × (valid_q_callsign call ≡ true))
  pub login_last :
      is_login r call ≡ true
      → is_connected r.client.state ≡ true
      → r.client.inport ≡ true
      → later ≡ []
  pub not_source : type ≡ b'U' → is_source r call ≡ false

abbrev pub GoodCalls : Request → ℕ → List Bytes → Type 0
GoodCalls r type [] = Unit
GoodCalls r type (call ∷ later) = GoodCall r type call later × GoodCalls r type later

check_call_sound :
    (r : Request) (type : ℕ) (call : Bytes) (later : List Bytes) (login : Bool) {b : Bool}
    → check_call r type call later login ≡ ok b
    → GoodCall r type call later
unfolding check_call
check_call_sound r type call later login e = record {
  distinct = (among_iff call later).0 (ground arith);
  known = ground arith;
  login_last = ground arith;
  not_source = ground arith;
}

check_call_complete :
    (r : Request) (type : ℕ) (call : Bytes) (later : List Bytes) (login : Bool)
    → GoodCall r type call later
    → check_call r type call later login ≡ ok (is_login r call || login)
unfolding check_call
check_call_complete r type call later login g =
    ground (arith, (among_iff call later).1 g.distinct, g.known, g.login_last, g.not_source)

-- What passed both steps passed the first.
pub >>=-eq-ok :
    {A B : Type 0} (step : Result A) (next : A → Result B) {out : B}
    → (step >>= next) ≡ ok out
    → (value : A) × (step ≡ ok value) × (next value ≡ ok out)
>>=-eq-ok (err reason) next e = cc
>>=-eq-ok (ok value) next e = (value, refl, e)

check_calls_sound :
    (r : Request) (type : ℕ) (calls : List Bytes) (login : Bool) {b : Bool}
    → check_calls r type calls login ≡ ok b
    → GoodCalls r type calls
unfolding check_calls
check_calls_sound r type [] login e = tt
check_calls_sound r type (call ∷ later) login e =
    let (login', f, g) =
      >>=-eq-ok (check_call r type call later login) (λ b. check_calls r type later b) e in
    (check_call_sound r type call later login f, check_calls_sound r type later login' g)

check_calls_complete :
    (r : Request) (type : ℕ) (calls : List Bytes) (login : Bool)
    → GoodCalls r type calls
    → (b : Bool) × (check_calls r type calls login ≡ ok b)
unfolding check_calls
check_calls_complete r type [] login g = (login, refl)
check_calls_complete r type (call ∷ later) login g =
    let (b, e) = check_calls_complete r type later (is_login r call || login) g.1 in
    (b, rw (check_call_complete r type call later login g.0) e)

-- What a packet must meet to get through.
pub record Passes (r : Request) (proto type : ℕ) (q_start : Option ℕ) (path_end : ℕ) : Type 0 where
  pub protocol : proto ≢ r.server.q_protocol_id → r.server.disallow_other_protocol_id ≡ false
  pub verified : type ≡ b'X' → r.server.disallow_unverified ≡ false
  pub not_internal : type ≢ b'Z'
  pub no_loop :
      (start : ℕ)
      → q_start ≡ some start
      → mycall_in_path r.server.serverid r.pdata start path_end ≡ false
  pub calls : GoodCalls r type (calls_of r q_start path_end)

check_type_sound :
    (s : Server) (proto type : ℕ)
    → check_type s proto type ≡ ok tt
    → (proto ≢ s.q_protocol_id → s.disallow_other_protocol_id ≡ false)
      × (type ≡ b'X' → s.disallow_unverified ≡ false)
      × (type ≢ b'Z')
unfolding check_type
check_type_sound s proto type e = ground arith

check_type_complete :
    (s : Server) (proto type : ℕ)
    → (proto ≢ s.q_protocol_id → s.disallow_other_protocol_id ≡ false)
    → (type ≡ b'X' → s.disallow_unverified ≡ false)
    → type ≢ b'Z'
    → check_type s proto type ≡ ok tt
unfolding check_type
check_type_complete s proto type a b c = ground (arith, a, b, c)

check_mycall_sound :
    (r : Request) (q_start : Option ℕ) (path_end : ℕ)
    → check_mycall r q_start path_end ≡ ok tt
    → (start : ℕ) → q_start ≡ some start
    → mycall_in_path r.server.serverid r.pdata start path_end ≡ false
unfolding check_mycall
check_mycall_sound r none path_end e start f = cc
check_mycall_sound r (some s) path_end e start f = ground arith

check_mycall_complete :
    (r : Request) (q_start : Option ℕ) (path_end : ℕ)
    → ((start : ℕ)
        → q_start ≡ some start
        → mycall_in_path r.server.serverid r.pdata start path_end ≡ false)
    → check_mycall r q_start path_end ≡ ok tt
unfolding check_mycall
check_mycall_complete r none path_end h = refl
check_mycall_complete r (some s) path_end h = rw (h s refl)

pub q_dropcheck_sound :
    (r : Request) (proto type : ℕ) (q_start : Option ℕ) (out : Outcome) {out' : Outcome}
    → q_dropcheck r proto type q_start out ≡ ok out'
    → Passes r proto type q_start out.path_end
unfolding q_dropcheck
q_dropcheck_sound r proto type q_start out e =
    let (_, a, e1) = >>=-eq-ok (check_type r.server proto type) _ e in
    let (_, b, e2) = >>=-eq-ok (check_mycall r q_start out.path_end) _ e1 in
    let (login, c, _) =
      >>=-eq-ok (check_calls r type (calls_of r q_start out.path_end) false) _ e2 in
    let t = check_type_sound r.server proto type a in
    record {
      protocol = t.0;
      verified = t.1;
      not_internal = t.2;
      no_loop = check_mycall_sound r q_start out.path_end b;
      calls = check_calls_sound r type (calls_of r q_start out.path_end) false c;
    }

-- `q_dropcheck` lets a packet through to the trace of type I exactly when it meets all of
-- `Passes`: its protocol letter and its type are allowed, the loop test does not find the
-- server's name, and each callsign behind the construct is distinct from the later ones, is the
-- client's login or else valid and not logged in locally, is the last one if it is the login on
-- an inbound port, and is not the source of a qAU packet.
pub q_dropcheck_exact :
    (r : Request) (proto type : ℕ) (q_start : Option ℕ) (out : Outcome)
    → (Passes r proto type q_start out.path_end
        → (login : Bool) × (q_dropcheck r proto type q_start out
            ≡ trace_if r login type q_start out))
      × ((out' : Outcome)
          → q_dropcheck r proto type q_start out ≡ ok out'
          → Passes r proto type q_start out.path_end)
unfolding q_dropcheck
q_dropcheck_exact r proto type q_start out = (
  λ p.
      let (login, c) =
        check_calls_complete r type (calls_of r q_start out.path_end) false p.calls in
      (
        login,
        rw (
          check_type_complete r.server proto type p.protocol p.verified p.not_internal,
          check_mycall_complete r q_start out.path_end p.no_loop,
          c,
        ),
      ),
  λ out' e. q_dropcheck_sound r proto type q_start out e,
)
