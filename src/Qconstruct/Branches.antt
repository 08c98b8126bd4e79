-- ===== src/Qconstruct/Branches.antt =====
-- About the branches of `q_process` in src/parse_qc.c, one lemma for each.
use aprsc.Prelude.{
  ap, ◌+◌, ℕ, ◌∙◌, Option-cases, ◌≡◌, ◌≢◌, ◌⊎◌, inl, inr, refl, arith, Bool, true, false, not, ◌&&◌,
  Option, none, some, ltb, ◌==◌, if◌then◌else◌, Bool-cases, Bytes, length, codes, [], sym,
  same_nocase,
}
use mathlib.Core.Path.{subst}
use aprsc.Qconstruct.Parse.{Result, ok, err, Request, Existing, Outcome, find_q, i_no_viacall}
use aprsc.Qconstruct.Drop.{is_connected}
use aprsc.Qconstruct.Drop.Guards.{Passes, q_dropcheck_sound}
use aprsc.Qconstruct.Drop.Trace.{q_dropcheck-out}
use aprsc.Qconstruct.{
  finish, append_q, replace_path, keep_q, q_text, tcpip_q, tcpxx_q, udp_submit, udp_path_end,
  client_only_bytes, q_protocol, unverified_own, client_only_own, client_only_append,
  client_only_other, client_only_type, convert_viacall, viacall, viacall_comma, q_inport,
  q_outbound, q_dispatch, q_process, has_tcpip, ends_with_i,
}
use aprsc.Qconstruct.Ends.{
  Generated, by_server, by_login, by_address, by_viacall, IsFeeding, Spot, at_end, at_via, at_q,
  at_comma, Patched, untouched, retyped, Ends, replaced, appended, kept, traced_over,
}

abbrev pub Ensures : (Outcome → Type 0) → Result Outcome → Type 0
Ensures P (ok out) = P out
Ensures P (err _) = Unit

Ensures-ok :
    (P : Outcome → Type 0) (m : Result Outcome)
    → ((out : Outcome) → m ≡ ok out → P out)
    → Ensures P m
Ensures-ok P (ok out) h = h out refl
Ensures-ok P (err e) h = tt

Ensures-if :
    (P : Outcome → Type 0) (b : Bool) (m n : Result Outcome)
    → (b ≡ true → Ensures P m)
    → (b ≡ false → Ensures P n)
    → Ensures P (if b then m else n)
Ensures-if P true m n h k = h refl
Ensures-if P false m n h k = k refl

pub Ensures-at :
    (P : Outcome → Type 0) (m : Result Outcome) {out : Outcome} → Ensures P m → m ≡ ok out → P out
Ensures-at P m p e = rw e at p

module _ (r : Request) (q : Existing) where
  finish-Ends :
      (proto type : ℕ) (out : Outcome)
      → (type ≡ b'I' → (start : ℕ) → q.q_start ≡ some start → out.new_q_start ≡ some (start + 1))
      → (Passes (record r { pdata = out.patched }) proto type q.q_start out.path_end → Ends r q out)
      → Ensures (Ends r q) (finish r q proto type out)
  unfolding finish
  finish-Ends proto type out is_kept if_passed = Ensures-ok (Ends r q) _ (λ out' e.
      let changed = record r { pdata = out.patched } in
      let h = if_passed (q_dropcheck_sound changed proto type q.q_start out e) in
      elim (q_dropcheck-out (record r { pdata = out.patched }) proto type q.q_start out e) [
        | inl same ↦ subst (Ends r q) (sym same) h
        | inr (login, start, at, t) ↦
            subst (Ends r q) (sym t.result)
              (traced_over login start h at (is_kept t.type_i start at) t.room)
      ])

  append_finish :
      (proto type path_end : ℕ) {t : Bytes}
      → (type == b'I') ≡ false
      → Spot r q path_end
      → Generated r q.path_end t
      → Ensures (Ends r q) (finish r q proto type (append_q r path_end t))
  append_finish proto type path_end ne spot g =
      finish-Ends proto type _ (λ (e : type ≡ b'I'). absurd (ground arith))
        (λ _. appended path_end spot g)

  -- The construct that the packet has, perhaps with another type.
  finish_kept-Ends :
      (type : ℕ) (bytes : Bytes)
      → (type ≡ q.type) ⊎ (type ≡ client_only_type r q.type)
      → Patched r q bytes
      → (IsFeeding r.client → q.proto ≢ 0)
      → Ensures (Ends r q) (finish r q q.proto type (keep_q r bytes q.path_end q.q_start))
  finish_kept-Ends type bytes known patched has =
      finish-Ends q.proto type _
        (λ _ at f. ap (λ s. elim s [ none ↦ none | some at ↦ some (at + 1) ]) f)
        (kept bytes patched has type known)

  Generated-if :
      (b : Bool) {x y : Bytes}
      → Generated r q.path_end x
      → Generated r q.path_end y
      → Generated r q.path_end (if b then x else y)
  Generated-if true g h = g
  Generated-if false g h = h

  server_c : (proto type : ℕ) → Generated r q.path_end (q_text proto type r.server.serverid)
  server_c proto type = by_server [] proto type (omega arith)

  server_tcp : (proto type : ℕ) → Generated r q.path_end (tcpip_q proto type r.server.serverid)
  server_tcp proto type = by_server (codes ",TCPIP*") proto type (omega arith)

  server_txx : (proto type : ℕ) → Generated r q.path_end (tcpxx_q proto type r.server.serverid)
  server_txx proto type = by_server (codes ",TCPXX*") proto type (omega arith)

  q_protocol-Generated :
      (path_end type : ℕ) → Generated r q.path_end (q_protocol r path_end type r.server.serverid)
  q_protocol-Generated path_end type =
      Generated-if (has_tcpip r path_end) (server_c r.server.q_protocol_id type)
        (server_tcp r.server.q_protocol_id type)

  start-Spot :
      (none_spot : ℕ) (s : Option ℕ)
      → Spot r q none_spot
      → q.q_start ≡ s
      → Spot r q (elim s [ none ↦ none_spot | some start ↦ start ])
  start-Spot none_spot none spot e = spot
  start-Spot none_spot (some start) spot e = at_q start e

  udp-Spot : Spot r q (udp_path_end r q)
  unfolding udp_path_end
  udp-Spot = elim (Bool-cases (q.proto == 0)) [
    | inl e ↦ rw e at_end
    | inr e ↦ rw e (start-Spot q.path_end q.q_start at_end refl)
  ]

  udp_submit-Ends : Ends r q (udp_submit r q)
  unfolding udp_submit
  udp_submit-Ends =
      appended (udp_path_end r q) udp-Spot (q_protocol-Generated (udp_path_end r q) b'U')

  unverified_own-Ends : Ensures (Ends r q) (unverified_own r q)
  unfolding unverified_own
  unverified_own-Ends =
      Ensures-if (Ends r q) (not (q.proto == 0) && ltb q.nextcall_end q.path_end) _ _ (λ _. tt)
        (λ _. appended r.via_start at_via (server_txx _ _))

  client_only_own-Ends : Ends r q (client_only_own r q)
  unfolding client_only_own
  client_only_own-Ends = appended _ (start-Spot r.via_start q.q_start at_via refl) (server_c _ _)

  client_only_append-Ends : Ensures (Ends r q) (client_only_append r q)
  unfolding client_only_append
  client_only_append-Ends = append_finish _ _ _ refl at_end (by_login _ _)

  -- The callsign before ",I".
  viacall-finish :
      (proto type p : ℕ)
      → (type == b'I') ≡ false
      → viacall_comma r q.path_end ≡ some p
      → Ensures
          (Ends r q)
          (finish r q proto type (append_q r p (q_text proto type (viacall r p q.path_end))))
  viacall-finish proto type p ne e =
      append_finish _ _ _ ne (at_comma p e) (by_viacall _ _ _ _ (omega arith))

  only_bytes-Patched :
      (start : ℕ)
      → q.q_start ≡ some start
      → q.proto ≢ 0
      → Patched r q (client_only_bytes r q.type start)
  unfolding client_only_bytes
  only_bytes-Patched start e h = elim (Bool-cases (client_only_type r q.type == q.type)) [
    | inl f ↦ rw f untouched
    | inr f ↦ rw f (retyped start (client_only_type r q.type) e h)
  ]

  client_only_other-Ends : Ensures (Ends r q) (client_only_other r q)
  unfolding client_only_other
  client_only_other-Ends =
      Ensures-if (Ends r q) (not (q.proto == 0)) _ _
        (λ has. with_start q.q_start refl (ground arith))
        (λ _.
          Ensures-if (Ends r q) (ends_with_i r q.path_end) _ _
            (λ _. with_comma (viacall_comma r q.path_end) refl) (λ _. client_only_append-Ends))
    where
      with_comma :
          (c : Option ℕ)
          → viacall_comma r q.path_end ≡ c
          → Ensures (Ends r q) (elim c [
            | none ↦ client_only_append r q
            | some p ↦
                finish r q r.server.q_protocol_id b'o'
                  (append_q r p (q_text r.server.q_protocol_id b'o' (viacall r p q.path_end)))
          ])
      with_comma none e = client_only_append-Ends
      with_comma (some p) e = viacall-finish _ _ p refl e

      with_start :
          (s : Option ℕ)
          → q.q_start ≡ s
          → q.proto ≢ 0
          → Ensures (Ends r q) (elim s [
            | none ↦ client_only_append r q
            | some start ↦
                finish r q q.proto
                  (client_only_type r q.type)
                  (keep_q r (client_only_bytes r q.type start) q.path_end (some start))
          ])
      with_start none e h = client_only_append-Ends
      with_start (some start) e h =
          let type = client_only_type r q.type in
          let bytes = client_only_bytes r q.type start in
          subst (λ s. Ensures (Ends r q) (finish r q q.proto type (keep_q r bytes q.path_end s))) e
            (finish_kept-Ends type bytes (inr refl) (only_bytes-Patched start e h) (λ _. h))

  convert_viacall-Ends : Ensures (Ends r q) (convert_viacall r q)
  unfolding convert_viacall
  convert_viacall-Ends = with_comma (viacall_comma r q.path_end) refl
    where
      with_comma :
          (c : Option ℕ)
          → viacall_comma r q.path_end ≡ c
          → Ensures (Ends r q) (elim c [
            | none ↦ err i_no_viacall
            | some p ↦
                if length r.client.username == length (viacall r p q.path_end)
                  && same_nocase r.client.username (viacall r p q.path_end)
                then finish r q r.server.q_protocol_id b'R'
                    (append_q r p (q_text r.server.q_protocol_id b'R' r.client.username))
                else finish r q r.server.q_protocol_id b'r'
                    (append_q r p (q_text r.server.q_protocol_id b'r' (viacall r p q.path_end)))
          ])
      with_comma none e = tt
      with_comma (some p) e =
          Ensures-if (Ends r q)
            (length r.client.username == length (viacall r p q.path_end)
              && same_nocase r.client.username (viacall r p q.path_end))
            (finish r q r.server.q_protocol_id b'R'
              (append_q r p (q_text r.server.q_protocol_id b'R' r.client.username)))
            (finish r q r.server.q_protocol_id b'r'
              (append_q r p (q_text r.server.q_protocol_id b'r' (viacall r p q.path_end))))
            (λ _. append_finish _ _ p refl (at_comma p e) (by_login _ _))
            (λ _. viacall-finish _ _ p refl e)

  kept-Ends :
      (IsFeeding r.client → q.proto ≢ 0)
      → Ensures (Ends r q) (finish r q q.proto q.type (keep_q r r.pdata q.path_end q.q_start))
  kept-Ends h = finish_kept-Ends q.type r.pdata (inl refl) untouched h

  own_qac-Ends : Ensures (Ends r q) (
      ok (
        append_q r q.path_end (
          if has_tcpip r q.path_end
          then q_text b'A' b'C' r.server.serverid
          else tcpip_q b'A' b'C' r.server.serverid)))
  own_qac-Ends =
      appended q.path_end at_end
        (Generated-if (has_tcpip r q.path_end) (server_c b'A' b'C') (server_tcp b'A' b'C'))

  login_qas-Ends : Ensures (Ends r q) (
      finish r q r.server.q_protocol_id b'S'
        (append_q r q.path_end (q_text r.server.q_protocol_id b'S' r.client.username)))
  login_qas-Ends = append_finish _ _ _ refl at_end (by_login _ _)

  q_inport-Ends : Ensures (Ends r q) (q_inport r q)
  unfolding q_inport
  q_inport-Ends = ground (
    arith, udp_submit-Ends, unverified_own-Ends, client_only_own-Ends, client_only_other-Ends,
    convert_viacall-Ends, kept-Ends, own_qac-Ends, login_qas-Ends,
  )

  outbound_viacall-Ends :
      (c : Option ℕ)
      → viacall_comma r q.path_end ≡ c
      → Ensures (Ends r q) (elim c [
        | none ↦ err i_no_viacall
        | some p ↦
            finish r q r.server.q_protocol_id b'r'
              (append_q r p (q_text r.server.q_protocol_id b'r' (viacall r p q.path_end)))
      ])
  outbound_viacall-Ends none e = tt
  outbound_viacall-Ends (some p) e = viacall-finish _ _ p refl e

  address_qas-Ends : Ensures (Ends r q) (
      finish r q r.server.q_protocol_id b'S'
        (append_q r q.path_end (q_text r.server.q_protocol_id b'S' r.client.addr_hex)))
  address_qas-Ends = append_finish _ _ _ refl at_end (by_address _ _)

  q_outbound-Ends :
      (is_connected r.client.state && r.client.inport) ≡ false → Ensures (Ends r q) (q_outbound r q)
  unfolding q_outbound
  q_outbound-Ends h = elim (Bool-cases (q.proto == 0 && r.client.uplinkport)) [
    | inl e ↦ rw e (elim (Bool-cases (ends_with_i r q.path_end)) [
      | inl i ↦ rw i (outbound_viacall-Ends (viacall_comma r q.path_end) refl)
      | inr i ↦ rw i address_qas-Ends
    ])
    | inr e ↦
        rw e (kept-Ends (λ feeding. elim feeding [ inl in_ ↦ absurd (cc) | inr up ↦ ground arith ]))
  ]

  own_path-Ends : Ends r q (
      replace_path r q.path_end (
        if r.client.validated
        then tcpip_q r.server.q_protocol_id b'C' r.server.serverid
        else tcpxx_q r.server.q_protocol_id b'X' r.server.serverid))
  own_path-Ends = replaced (
      Generated-if r.client.validated (server_tcp r.server.q_protocol_id b'C')
        (server_txx r.server.q_protocol_id b'X'))

  own_tcp-Ends :
      Ends r q (replace_path r q.path_end (tcpip_q r.server.q_protocol_id b'C' r.server.serverid))
  own_tcp-Ends = replaced (server_tcp r.server.q_protocol_id b'C')

  q_dispatch-Ends : Ensures (Ends r q) (q_dispatch r q q.path_end)
  unfolding q_dispatch
  q_dispatch-Ends = ground (arith, own_path-Ends, own_tcp-Ends, q_inport-Ends, q_outbound-Ends)

find_q-same_end :
    (pdata : Bytes) (via_start path_end : ℕ)
    → (find_q pdata via_start path_end).q_start ≡ none
    → (find_q pdata via_start path_end).path_end ≡ path_end
unfolding find_q
find_q-same_end pdata via_start path_end e = ground arith

-- Without a construct the path's end is what it was; with one, it is not looked at.
q_dispatch-path_end :
    (r : Request) (q : Existing) (path_end : ℕ)
    → (q.q_start ≡ none → q.path_end ≡ path_end)
    → q_dispatch r q path_end ≡ q_dispatch r q q.path_end
unfolding q_dispatch
q_dispatch-path_end r q path_end h = elim (Option-cases q.q_start) [
  | inl e ↦ rw (h e) refl
  | inr (start, e) ↦ rw e refl
]

-- Whatever `q_process` lets pass is one of the outcomes of `Ends`, over the construct it found.
pub q_process-Ends :
    (r : Request) (path_end : ℕ) {out : Outcome}
    → q_process r path_end ≡ ok out
    → Ends r (find_q r.pdata r.via_start path_end) out
unfolding q_process
q_process-Ends r path_end e =
    let q = find_q r.pdata r.via_start path_end in
    Ensures-at (Ends r q) _ (q_dispatch-Ends r q)
      (sym (q_dispatch-path_end r q path_end (find_q-same_end r.pdata r.via_start path_end)) ∙ e)
