-- ===== src/Qconstruct/Fits.antt =====
-- About the length of the text that `q_process` of src/parse_qc.c generates.
use aprsc.Prelude.{ℕ, ◌+◌, ◌≤◌, ◌<◌, ◌≡◌, arith, Bytes, length, length-append, ◌∷◌}
use aprsc.Qconstruct.Parse.{Request, ok, Existing, find_q, Outcome}
use aprsc.Qconstruct.Parse.Bounds.{length-slice, find_q-path_end}
use aprsc.Qconstruct.Drop.Trace.{with_login}
use aprsc.Qconstruct.Branches.{q_process-Ends}
use aprsc.Qconstruct.Ends.{
  Ends, replaced, appended, kept, traced_over, Generated, by_server, by_login, by_address,
  by_viacall,
}
use aprsc.Qconstruct.{q_process}

-- The sizes of the fields that the texts are made of, as src/worker.h and src/config.h declare
-- them, and a path that leaves 64 bytes of the buffer.
pub record IsSized (r : Request) (path_end : ℕ) : Type 0 where
  pub serverid : length r.server.serverid ≤ 9
  pub username : length r.client.username ≤ 15
  pub addr_hex : length r.client.addr_hex ≤ 35
  pub path : path_end + 64 ≤ r.new_q_size
  pub via : r.via_start ≤ path_end

Generated-le :
    (r : Request) (path_end : ℕ) {text : Bytes} (limit : ℕ)
    → IsSized r limit
    → path_end ≤ limit
    → Generated r path_end text
    → length text < r.new_q_size
Generated-le r path_end limit z le (by_server marker proto type m) =
    omega (arith, length-append {0} marker, z.serverid, z.path)
Generated-le r path_end limit z le (by_login proto type) = omega (arith, z.username, z.path)
Generated-le r path_end limit z le (by_address proto type) = omega (arith, z.addr_hex, z.path)
Generated-le r path_end limit z le (by_viacall proto type from to short) =
    omega (arith, length-slice r.pdata from to, z.path)

Ends-fits :
    (r : Request) (q : Existing) (path_end : ℕ) {out : Outcome}
    → IsSized r path_end
    → q.path_end ≤ path_end
    → Ends r q out
    → length out.new_q < r.new_q_size
Ends-fits r q path_end z le (replaced g) = Generated-le r q.path_end path_end z le g
Ends-fits r q path_end z le (appended p spot g) = Generated-le r q.path_end path_end z le g
Ends-fits r q path_end z le (kept bytes patched has type known passes) = omega (arith, z.path)
Ends-fits r q path_end z le (traced_over {out} login start e at kept_start room) = omega (
  arith,
  length-append {0} (with_login r login start out) (b',' ∷ r.server.serverid),
  z.serverid,
  room,
)

-- For field sizes as declared, a path that ends 64 bytes before the buffer's size and starts
-- before it ends, the text that `q_process` generates, its terminator included, fits the buffer.
pub q_process-fits :
    (r : Request) (path_end : ℕ) {out : Outcome}
    → IsSized r path_end
    → q_process r path_end ≡ ok out
    → length out.new_q < r.new_q_size
q_process-fits r path_end z e =
    Ends-fits r (find_q r.pdata r.via_start path_end) path_end z
      (find_q-path_end r.pdata r.via_start path_end z.via) (q_process-Ends r path_end e)
