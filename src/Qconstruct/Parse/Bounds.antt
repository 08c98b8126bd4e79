-- ===== src/Qconstruct/Parse/Bounds.antt =====
-- About where `q_process` of src/parse_qc.c finds a construct.
use aprsc.Prelude.{
  ℕ, ◌+◌, ◌-◌, ◌≤◌, ◌<◌, ◌≡◌, ◌≢◌, ◌∙◌, sym, inl, inr, arith, some, Option-cases, [], ◌∷◌, Bytes,
  codes, length, length-take-le, drop, memmem, memmem-le,
}
use aprsc.Qconstruct.Parse.{find_q, existing_at, existing_call, call_len, slice}

some-injective : {a b : ℕ} → some a ≡ some b → a ≡ b
some-injective e = cc

pub length-slice : (pdata : Bytes) (from to : ℕ) → length (slice pdata from to) ≤ to - from
length-slice pdata from to = length-take-le (to - from) (drop from pdata)

existing_at-path_end :
    (pdata : Bytes) (start path_end : ℕ)
    → start ≤ path_end
    → (existing_at pdata start path_end).path_end ≤ path_end
unfolding existing_at
existing_at-path_end pdata start path_end h = ground arith

pub find_q-path_end :
    (pdata : Bytes) (via_start path_end : ℕ)
    → via_start ≤ path_end
    → (find_q pdata via_start path_end).path_end ≤ path_end
unfolding find_q
find_q-path_end pdata via_start path_end h =
    elim (Option-cases (memmem (codes ",q") (slice pdata via_start path_end))) [
      | inl e ↦ rw (e, find_q) (omega arith)
      | inr (i, e) ↦
          rw (e, find_q)
            (existing_at-path_end pdata (via_start + i) path_end (
              omega (
                arith,
                memmem-le (codes ",q") (slice pdata via_start path_end) e,
                length-slice pdata via_start path_end,
              )))
    ]

existing_at-start :
    (pdata : Bytes) (start path_end : ℕ) → (existing_at pdata start path_end).q_start ≡ some start
unfolding existing_at existing_call
existing_at-start pdata start path_end = ground arith

call_len-le : (rest : Bytes) → call_len rest ≤ length rest
unfolding call_len
call_len-le [] = omega arith
call_len-le (c ∷ rest) = ground (arith, call_len-le rest)

existing_at-call :
    (pdata : Bytes) (start path_end : ℕ)
    → (existing_at pdata start path_end).proto ≢ 0
    → start + 5 < path_end
unfolding existing_at existing_call
existing_at-call pdata start path_end h =
    ground (
      arith,
      call_len-le (slice pdata (start + 5) path_end),
      length-slice pdata (start + 5) path_end,
    )

-- A construct lies before the path's end, and one with a callsign ends before the callsign.
pub find_q-start :
    (pdata : Bytes) (via_start path_end : ℕ) {start : ℕ}
    → (find_q pdata via_start path_end).q_start ≡ some start
    → start + 2 ≤ path_end
unfolding find_q
find_q-start pdata via_start path_end {start} h =
    elim (Option-cases (memmem (codes ",q") (slice pdata via_start path_end))) [
      | inl e ↦ absurd (cc (rw (e, find_q) at h))
      | inr (i, e) ↦
          let at : via_start + i ≡ start =
            some-injective
              (sym (existing_at-start pdata (via_start + i) path_end) ∙ (rw (e, find_q) at h)) in
          omega (
            arith,
            at,
            memmem-le (codes ",q") (slice pdata via_start path_end) e,
            length-slice pdata via_start path_end,
          )
    ]

pub find_q-call :
    (pdata : Bytes) (via_start path_end : ℕ) {start : ℕ}
    → (find_q pdata via_start path_end).q_start ≡ some start
    → (find_q pdata via_start path_end).proto ≢ 0
    → start + 5 < path_end
unfolding find_q
find_q-call pdata via_start path_end {start} h k =
    elim (Option-cases (memmem (codes ",q") (slice pdata via_start path_end))) [
      | inl e ↦ absurd (cc (rw (e, find_q) at h))
      | inr (i, e) ↦
          let at : via_start + i ≡ start =
            some-injective
              (sym (existing_at-start pdata (via_start + i) path_end) ∙ (rw (e, find_q) at h)) in
          omega (arith, at, existing_at-call pdata (via_start + i) path_end (rw (e, find_q) at k))
    ]
