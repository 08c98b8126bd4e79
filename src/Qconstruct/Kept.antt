-- ===== src/Qconstruct/Kept.antt =====
-- About the checks that a packet with a Q construct of its own passed in `q_process` of
-- src/parse_qc.c.
use aprsc.Prelude.{ℕ, ◌≡◌, ◌⊎◌, some}
use aprsc.Qconstruct.Parse.{Request, ok, Existing, Outcome, find_q}
use aprsc.Qconstruct.Drop.Guards.{Passes}
use aprsc.Qconstruct.Ends.{Ends, replaced, appended, kept, traced_over}
use aprsc.Qconstruct.Branches.{q_process-Ends}
use aprsc.Qconstruct.{q_process, client_only_type}

-- A packet `r` with the construct `q`, whose bytes are now those of `out`, has met the conditions of
-- `q_dropcheck` with the type `q` has, or with the one a client-only port gives it.
abbrev pub HasPassed : Request → Existing → Outcome → Type 0
HasPassed r q out =
    (type : ℕ) × (((type ≡ q.type) ⊎ (type ≡ client_only_type r q.type))
      × Passes (record r { pdata = out.patched }) q.proto type q.q_start q.path_end)

Ends-HasPassed :
    (r : Request) (q : Existing) {out : Outcome} {i : ℕ}
    → Ends r q out
    → out.new_q_start ≡ some i
    → HasPassed r q out
Ends-HasPassed r q (replaced g) e = absurd cc
Ends-HasPassed r q (appended path_end spot g) e = absurd cc
Ends-HasPassed r q (kept bytes patched has type known passes) e = (type, (known, passes))
Ends-HasPassed r q (traced_over {out} login start h at kept_start room) e =
    Ends-HasPassed r q {out = out} h kept_start

-- A packet whose own construct stays has passed `q_dropcheck`.
pub q_process-HasPassed :
    (r : Request) (path_end : ℕ) {out : Outcome} {i : ℕ}
    → q_process r path_end ≡ ok out
    → out.new_q_start ≡ some i
    → HasPassed r (find_q r.pdata r.via_start path_end) out
q_process-HasPassed r path_end e at =
    Ends-HasPassed r (find_q r.pdata r.via_start path_end) (q_process-Ends r path_end e) at
