-- ===== src/Qconstruct/Within.antt =====
-- About the end of the path after `q_process` of src/parse_qc.c.
use aprsc.Prelude.{
  ℕ, zero, suc, ◌+◌, ◌-◌, ◌≤◌, ◌<◌, ◌≡◌, ◌≢◌, refl, arith, some, Bytes, length, drop, length-put,
  drop-put,
}
use aprsc.Qconstruct.Parse.{Request, ok, Existing, find_q, Outcome, copied}
use aprsc.Qconstruct.Parse.Bounds.{find_q-path_end, find_q-start, find_q-call}
use aprsc.Qconstruct.Branches.{q_process-Ends}
use aprsc.Qconstruct.Ends.{
  Ends, replaced, appended, kept, traced_over, Spot, at_end, at_via, at_q, at_comma, Patched,
  untouched, retyped,
}
use aprsc.Qconstruct.{back_to_comma, q_process}

pub record Within (r : Request) (limit : ℕ) (out : Outcome) : Type 0 where
  pub ends : out.path_end ≤ limit
  pub cuts : copied out ≤ limit
  pub size : length out.patched ≡ length r.pdata
  pub tail : drop limit out.patched ≡ drop limit r.pdata

back_to_comma-le : (r : Request) (p : ℕ) → back_to_comma r p ≤ p
unfolding back_to_comma
back_to_comma-le r zero = omega arith
back_to_comma-le r (suc p) = ground (arith, back_to_comma-le r p)

-- What is known of the construct that was found.
record IsBounded (r : Request) (q : Existing) (limit : ℕ) : Type 0 where
  path : q.path_end ≤ limit
  via : r.via_start ≤ limit
  start : {s : ℕ} → q.q_start ≡ some s → s + 2 ≤ limit
  call : {s : ℕ} → q.q_start ≡ some s → q.proto ≢ 0 → s + 5 < limit
  inside : limit ≤ length r.pdata

module _ (r : Request) (q : Existing) (limit : ℕ) (b : IsBounded r q limit) where
  Spot-le : (p : ℕ) → Spot r q p → p ≤ limit
  Spot-le p at_end = b.path
  Spot-le p at_via = b.via
  Spot-le p (at_q start e) = omega (arith, b.start e)
  Spot-le p (at_comma _ e) =
      let same : back_to_comma r (q.path_end - 3) ≡ p = ground arith in
      omega (arith, same, back_to_comma-le r (q.path_end - 3), b.path)

  Patched-size : (bytes : Bytes) → Patched r q bytes → length bytes ≡ length r.pdata
  Patched-size bytes untouched = refl
  Patched-size bytes (retyped start type e has) =
      length-put (start + 3) type r.pdata (omega (arith, b.call e has, b.inside))

  Patched-tail : (bytes : Bytes) → Patched r q bytes → drop limit bytes ≡ drop limit r.pdata
  Patched-tail bytes untouched = refl
  Patched-tail bytes (retyped start type e has) =
      drop-put limit (start + 3) type r.pdata (omega (arith, b.call e has))
        (omega (arith, b.call e has, b.inside))

  Ends-Within : (out : Outcome) → Ends r q out → Within r limit out
  Ends-Within out (replaced g) = record { ends = b.path; cuts = b.via; size = refl; tail = refl }
  Ends-Within out (appended p spot g) = record {
    ends = Spot-le p spot;
    cuts = Spot-le p spot;
    size = refl;
    tail = refl;
  }
  Ends-Within out (kept bytes patched has type known passes) = record {
    ends = b.path;
    cuts = b.path;
    size = Patched-size bytes patched;
    tail = Patched-tail bytes patched;
  }
  Ends-Within out (traced_over {out = old} login start e at kept_start room) =
      let ih = Ends-Within old e in
      record { ends = ih.ends; cuts = omega (arith, b.start at); size = ih.size; tail = ih.tail }

-- A path that starts before it ends, inside the packet, still ends there or before, is cut there
-- or before, and neither the packet's length nor what is behind the path changes.
pub q_process-Within :
    (r : Request) (path_end : ℕ) {out : Outcome}
    → r.via_start ≤ path_end
    → path_end ≤ length r.pdata
    → q_process r path_end ≡ ok out
    → Within r path_end out
q_process-Within r path_end {out} via inside e =
    Ends-Within r (find_q r.pdata r.via_start path_end) path_end
      (record {
        path = find_q-path_end r.pdata r.via_start path_end via;
        via = via;
        start = find_q-start r.pdata r.via_start path_end;
        call = find_q-call r.pdata r.via_start path_end;
        inside = inside;
      })
      out (q_process-Ends r path_end e)
