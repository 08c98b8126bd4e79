-- ===== src/Qconstruct/Drop.antt =====
-- src/parse_qc.c, `q_dropcheck`: the tests that every packet with a Q construct goes through.
pub mod Guards
pub mod Trace
use aprsc.Prelude.{
  ℕ, zero, suc, ◌+◌, ◌-◌, Bool, true, false, not, ◌&&◌, ◌||◌, Option, none, some, List, [], ◌∷◌,
  ◌++◌, map, ltb, leb, ◌==◌, if◌then◌else◌, Bytes, length, take, drop, same_bytes, same_nocase,
  memmem, starts_with,
}
use aprsc.Client.{Client, ClientState, Server}
use aprsc.Qconstruct.Parse.{
  QError, disallow_protocol, qax, qaz, qpath_mycall, qpath_call_twice, path_login_not_last,
  path_call_is_local_client, path_call_is_invalid, qau_path_call_is_srccall, newq_buffer_small,
  Result, ok, err, valid_q_callsign, Request, slice, byte, Outcome,
}

abbrev pub is_connected : ClientState → Bool
is_connected ClientState.connected = true
is_connected _ = false

abbrev pub is_corepeer : ClientState → Bool
is_corepeer ClientState.corepeer = true
is_corepeer _ = false

-- A test that fails ends the function with its error.
infixl 5 ◌>>=◌
abbrev pub ◌>>=◌ {ℓ} : {A B : Type ℓ} → Result A → (A → Result B) → Result B
err reason >>= next = err reason
ok value >>= next = next value

infixl 5 ◌>>◌
abbrev pub ◌>>◌ : {B : Type 0} → Result (Unit {0}) → Result B → Result B
test >> next = test >>= λ passed. next

-- `MAX_Q_CALLS`
abbrev max_q_calls : ℕ
max_q_calls = 64

commas : Bytes → ℕ
commas [] = 0
commas (c ∷ rest) = if c == b',' then suc (commas rest) else 0

non_commas : Bytes → ℕ
non_commas [] = 0
non_commas (c ∷ rest) = if c == b',' then 0 else suc (non_commas rest)

-- `qcallv` from offset `p` on, where `rest` is the path left there, and the last value of `p`.
pub call_starts : ℕ → ℕ → Bytes → List ℕ × ℕ
unfolding commas non_commas
call_starts zero p rest = ([], p)
call_starts (suc room) p [] = ([], p)
call_starts (suc room) p (c ∷ rest) =
    let gap = commas (c ∷ rest) in
    let behind = drop gap (c ∷ rest) in
    let len = non_commas behind in
    let (starts, last) = call_starts room (p + gap + len) (drop len behind) in
    if length behind == 0 then ([], p + gap) else ((p + gap) ∷ starts, last)

-- Each callsign runs up to one byte before the next; `end` is the entry behind the last.
pub calls_between : Bytes → List ℕ → ℕ → List Bytes
calls_between pdata [] end = []
calls_between pdata (start ∷ []) end = take (end - start - 1) (drop start pdata) ∷ []
calls_between pdata (start ∷ start' ∷ starts) end =
    take (start' - start - 1) (drop start pdata) ∷ calls_between pdata (start' ∷ starts) end

-- The callsigns behind the Q construct.
unfoldable pub q_calls : Bytes → ℕ → ℕ → List Bytes
unfolding call_starts calls_between
q_calls pdata q_start path_end =
    let (starts, last) =
      call_starts max_q_calls (q_start + 4) (slice pdata (q_start + 4) path_end) in
    calls_between pdata starts (last + 1)

-- The first occurrence of the server's name behind the construct, if it is a whole element. The
-- byte before and the byte behind are those of the packet.
unfoldable pub mycall_in_path : Bytes → Bytes → ℕ → ℕ → Bool
mycall_in_path serverid pdata q_start path_end =
    elim (memmem serverid (slice pdata (q_start + 4) path_end)) [
      | none ↦ false
      | some i ↦
          let p = q_start + 4 + i in
          let behind = p + length serverid in
          byte pdata (p - 1) == b','
          && (byte pdata behind == b',' || (behind == path_end || byte pdata behind == b':'))
    ]

-- `memcmp(qcallv[i], qcallv[j], l) == 0` for a later `j`
unfoldable pub among : Bytes → List Bytes → Bool
among call [] = false
among call (other ∷ calls) = same_bytes call other || among call calls

abbrev pub is_empty : List Bytes → Bool
is_empty [] = true
is_empty (_ ∷ _) = false

-- `l == username_len && strncasecmp(qcallv[i], c->username, username_len) == 0`
unfoldable pub is_login : Request → Bytes → Bool
is_login r call = length call == length r.client.username && same_nocase call r.client.username

-- `memcmp(qcallv[i], pdata, l) == 0 && pdata[l] == '>'`
unfoldable pub is_source : Request → Bytes → Bool
is_source r call = starts_with call r.pdata && byte r.pdata (length call) == b'>'

-- One round of the loop over the callsigns: the login flag, or the reason to drop.
unfoldable pub check_call : Request → ℕ → Bytes → List Bytes → Bool → Result Bool
check_call r q_type call later login =
    if among call later
    then err qpath_call_twice
    else if is_login r call
        && (is_connected r.client.state && (r.client.inport && not (is_empty later)))
    then err path_login_not_last
    else if not (is_login r call) && r.is_local call
    then err path_call_is_local_client
    else if not (is_login r call) && not (valid_q_callsign call)
    then err path_call_is_invalid
    else if q_type == b'U' && is_source r call
    then err qau_path_call_is_srccall
    else ok (is_login r call || login)

-- The loop; its result is `login_in_path`.
unfoldable pub check_calls : Request → ℕ → List Bytes → Bool → Result Bool
check_calls r q_type [] login = ok login
check_calls r q_type (call ∷ later) login = do
  login' ← check_call r q_type call later login
  check_calls r q_type later login'

-- The tests on the type of the construct.
unfoldable pub check_type : Server → ℕ → ℕ → Result (Unit {0})
check_type s proto type =
    if not (proto == s.q_protocol_id) && s.disallow_other_protocol_id
    then err disallow_protocol
    else if type == b'X' && s.disallow_unverified
    then err qax
    else if type == b'Z'
    then err qaz
    else ok tt

unfoldable pub check_mycall : Request → Option ℕ → ℕ → Result (Unit {0})
check_mycall r none path_end = ok tt
check_mycall r (some q_start) path_end =
    if mycall_in_path r.server.serverid r.pdata q_start path_end then err qpath_mycall else ok tt

abbrev pub calls_of : Request → Option ℕ → ℕ → List Bytes
calls_of r none path_end = []
calls_of r (some q_start) path_end = q_calls r.pdata q_start path_end

-- The trace of a qAI packet: the old construct, the login where it is missing, and the server.
unfoldable pub trace : Request → Bool → ℕ → Outcome → Result Outcome
trace r login q_start out =
    let c = r.client in
    let old = slice out.patched (q_start + 1) out.path_end in
    let with_login =
      if c.validated && (not login && not (is_corepeer c.state))
      then old ++ (b',' ∷ c.username)
      else old in
    if ltb r.new_q_size (length old)
    then err newq_buffer_small
    else if ltb r.new_q_size (length with_login + 20)
    then err newq_buffer_small
    else ok (record out {
      q_replace = some (q_start + 1);
      new_q = with_login ++ (b',' ∷ r.server.serverid);
    })

-- A packet of type I has a construct, so the case of none does not come up there.
unfoldable pub trace_if : Request → Bool → ℕ → Option ℕ → Outcome → Result Outcome
trace_if r login type none out = ok out
trace_if r login type (some q_start) out =
    if type == b'I' then trace r login q_start out else ok out

-- `r` holds the bytes as they are now.
unfoldable pub q_dropcheck : Request → ℕ → ℕ → Option ℕ → Outcome → Result Outcome
q_dropcheck r proto type q_start out = do
  check_type r.server proto type
  check_mycall r q_start out.path_end
  login ← check_calls r type (calls_of r q_start out.path_end) false
  trace_if r login type q_start out
