-- ===== src/Qconstruct/Parse.antt =====
-- src/parse_qc.c: what the rest of the code reads off a packet, and the result types.
pub mod Bounds
use aprsc.Prelude.{
  ℕ, zero, suc, ◌+◌, ◌-◌, Bool, true, false, not, ◌&&◌, ◌||◌, Option, none, some, List, [], ◌∷◌,
  ◌++◌, ltb, leb, ◌==◌, if◌then◌else◌, Bytes, codes, length, take, drop, get_or, is_alnum, memchr,
  memmem,
}
use aprsc.Client.{Client, Server}

-- The reasons for which a packet is dropped, INERR_Q_… of src/worker.h.
pub data QError : Type 0 where
  disallow_protocol qax qaz qpath_mycall qpath_call_twice path_login_not_last : QError
  path_call_is_local_client path_call_is_invalid qau_path_call_is_srccall : QError
  newq_buffer_small nonval_multi_q_calls i_no_viacall : QError

pub data Result {ℓ} (A : Type ℓ) : Type ℓ where
  ok : A → Result A
  err : QError → Result A

-- `check_invalid_q_callsign`: 0 is `true`.
abbrev callsignlen_max : ℕ
callsignlen_max = 9

abbrev pub q_char : ℕ → Bool
q_char c = is_alnum c || c == b'-'

unfoldable pub q_chars : Bytes → Bool
q_chars [] = true
q_chars (c ∷ call) = q_char c && q_chars call

unfoldable pub valid_q_callsign : Bytes → Bool
unfolding q_chars
valid_q_callsign call =
    let len = length call in (leb len callsignlen_max && leb 1 len || len == 32) && q_chars call

-- What `q_process` is called with. `is_local` is `clientlist_check_if_validated_client` != -1.
pub record Request : Type 0 where
  pub server : Server
  pub client : Client
  pub is_local : Bytes → Bool
  pub pdata : Bytes
  pub new_q_size : ℕ
  pub via_start : ℕ
  pub pathlen : ℕ
  pub originated_by_client : Bool

-- Bytes `from` up to `to`, and the byte at an offset.
abbrev pub slice : Bytes → ℕ → ℕ → Bytes
slice pdata from to = take (to - from) (drop from pdata)

abbrev pub byte : Bytes → ℕ → ℕ
byte pdata p = get_or pdata p 0

-- An existing Q construct: `proto` and `type` are 0 if there is none with a callsign.
pub record Existing : Type 0 where
  pub q_start : Option ℕ
  pub proto : ℕ
  pub type : ℕ
  pub nextcall_end : ℕ
  pub path_end : ℕ

-- `while (q_nextcall_end < *path_end && *q_nextcall_end != ',' && *q_nextcall_end != ':')`
pub call_len : Bytes → ℕ
call_len [] = 0
call_len (c ∷ rest) = if c == b',' || c == b':' then 0 else suc (call_len rest)

abbrev pub eliminated : ℕ → Existing
eliminated start = record {
  q_start = some start;
  proto = 0;
  type = 0;
  nextcall_end = start;
  path_end = start;
}

-- The text behind ",qPT,".
unfoldable pub existing_call : Bytes → ℕ → ℕ → Existing
unfolding call_len
existing_call pdata start path_end =
    let nextcall = start + 5 in
    let len = call_len (slice pdata nextcall path_end) in
    if len == 0 then eliminated start else record {
      q_start = some start;
      proto = byte pdata (start + 2);
      type = byte pdata (start + 3);
      nextcall_end = nextcall + len;
      path_end = path_end;
    }

unfoldable pub existing_at : Bytes → ℕ → ℕ → Existing
unfolding existing_call
existing_at pdata start path_end = elim (memchr b',' (slice pdata (start + 1) path_end)) [
  | none ↦ eliminated start
  | some i ↦ if i == 3 then existing_call pdata start path_end else eliminated start
]

unfoldable pub find_q : Bytes → ℕ → ℕ → Existing
unfolding existing_at
find_q pdata via_start path_end = elim (memmem (codes ",q") (slice pdata via_start path_end)) [
  | none ↦ record { q_start = none; proto = 0; type = 0; nextcall_end = 0; path_end = path_end }
  | some i ↦ existing_at pdata (via_start + i) path_end
]

-- The packet as it goes on: its (patched) bytes, where the path ends now, where an existing
-- construct is, where the path is replaced from, and the generated text.
pub record Outcome : Type 0 where
  pub patched : Bytes
  pub path_end : ℕ
  pub new_q_start : Option ℕ
  pub q_replace : Option ℕ
  pub new_q : Bytes

-- Where the unmodified part of the header ends, which is copied.
abbrev pub copied : Outcome → ℕ
copied out = elim out.q_replace [ none ↦ out.path_end | some p ↦ p ]
