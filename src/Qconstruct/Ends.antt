-- ===== src/Qconstruct/Ends.antt =====
-- About what `q_process` of src/parse_qc.c may end with.
use aprsc.Prelude.{ℕ, ◌+◌, ◌≡◌, ◌≢◌, ◌⊎◌, Bool, true, ◌&&◌, some, ◌++◌, Bytes, length, ◌≤◌}
use aprsc.Client.{Client}
use aprsc.Qconstruct.Parse.{Request, Existing, Outcome, slice}
use aprsc.Qconstruct.Drop.{is_connected}
use aprsc.Qconstruct.Drop.Guards.{Passes}
use aprsc.Qconstruct.Drop.Trace.{traced, with_login}
use aprsc.Qconstruct.{
  patch, client_only_type, append_q, replace_path, keep_q, q_text, viacall_comma,
}

-- The texts that are generated, for a packet whose path ends at `path_end`.
pub data Generated (r : Request) (path_end : ℕ) : Bytes → Type 0 where
  by_server :
      (marker : Bytes) (proto type : ℕ)
      → length marker ≤ 7
      → Generated r path_end (marker ++ q_text proto type r.server.serverid)
  by_login : (proto type : ℕ) → Generated r path_end (q_text proto type r.client.username)
  by_address : (proto type : ℕ) → Generated r path_end (q_text proto type r.client.addr_hex)
  by_viacall :
      (proto type from to : ℕ)
      → to ≤ path_end
      → Generated r path_end (q_text proto type (slice r.pdata from to))

-- A client on whose packets a construct is always left or put.
abbrev pub IsFeeding : Client → Type 0
IsFeeding c = ((is_connected c.state && c.inport) ≡ true) ⊎ (c.uplinkport ≡ true)

-- Where the path of a packet may end: nowhere behind its end before.
pub data Spot (r : Request) (q : Existing) : ℕ → Type 0 where
  at_end : Spot r q q.path_end
  at_via : Spot r q r.via_start
  at_q : (start : ℕ) → q.q_start ≡ some start → Spot r q start
  at_comma : (p : ℕ) → viacall_comma r q.path_end ≡ some p → Spot r q p

-- The packet itself, or with another type in the construct that it has.
pub data Patched (r : Request) (q : Existing) : Bytes → Type 0 where
  untouched : Patched r q r.pdata
  retyped :
      (start type : ℕ)
      → q.q_start ≡ some start
      → q.proto ≢ 0
      → Patched r q (patch r r.pdata (start + 3) type)

-- What `q_process` may end with, on a packet `r` with the existing construct `q`.
pub data Ends (r : Request) (q : Existing) : Outcome → Type 0 where
  replaced :
      {text : Bytes} → Generated r q.path_end text → Ends r q (replace_path r q.path_end text)
  appended :
      (path_end : ℕ) {text : Bytes}
      → Spot r q path_end
      → Generated r q.path_end text
      → Ends r q (append_q r path_end text)
  kept :
      (bytes : Bytes)
      → Patched r q bytes
      → (IsFeeding r.client → q.proto ≢ 0)
      → (type : ℕ) → (type ≡ q.type) ⊎ (type ≡ client_only_type r q.type)
      → Passes (record r { pdata = bytes }) q.proto type q.q_start q.path_end
      → Ends r q (keep_q r bytes q.path_end q.q_start)
  traced_over :
      {out : Outcome} (login : Bool) (start : ℕ)
      → Ends r q out
      → q.q_start ≡ some start
      → out.new_q_start ≡ some (start + 1)
      → length (with_login r login start out) + 20 ≤ r.new_q_size
      → Ends r q (traced r login start out)
