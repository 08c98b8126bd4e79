-- ===== src/Incoming/Layout.antt =====
-- About the packet buffer that `incoming_parse` of src/incoming.c fills.
use aprsc.Prelude.{
  ℕ, ◌+◌, ◌-◌, ◌≤◌, ◌<◌, ◌≡◌, ◌∙◌, refl, sym, ap, arith, Option, none, some, [], ◌∷◌, ◌++◌, Bytes,
  codes, length, take, drop, memchr, length-append, length-take, length-drop, drop-past, drop-drop,
}
use mathlib.Core.Path.{subst}
use aprsc.Packet.{Pbuf}
use aprsc.Client.{Client}
use aprsc.Qconstruct.Parse.{Request, Outcome, copied}
use aprsc.Qconstruct.{q_process}
use aprsc.Qconstruct.Within.{Within, q_process-Within}
use aprsc.Incoming.Error.{dis_igatecall, long_packet, q_bug, passed, passed-injective, of_q, ◌>>=◌}
use aprsc.Incoming.{
  Env, Header, guard, found_or, buf_len_for, parse_header, request_of, new_len, new_bytes,
  qconst_start_of, has_disallowed_call, classify, Origin, boxed, dupefeed, upstream, downstream,
  fill, Assembled, assembled, assemble,
}
use aprsc.Incoming.Headers.{
  bind-passed, some-injective, then-passed, found_or-passed, of_q-passed, memchr-lt, IsHeader,
  parse_header-IsHeader,
}

-- The buffer holds the packet, its length and one byte to spare; and behind `info_start` stands
-- the information field of the line, with a line end.
pub record IsLaidOut (s : Bytes) (pb : Pbuf) : Type 0 where
  pub length_is : pb.packet_len ≡ length pb.bytes
  pub fits : pb.packet_len < pb.buf_len
  pub colon : ℕ
  pub colon_at : memchr b':' s ≡ some colon
  pub info : drop pb.info_start pb.bytes ≡ drop (colon + 1) s ++ codes "\r\n"

drop_one-append : (xs ys : Bytes) → 0 < length xs → drop 1 (xs ++ ys) ≡ drop 1 xs ++ ys
drop_one-append [] ys h = absurd (omega arith)
drop_one-append (x ∷ xs) ys h = refl

module _ (s : Bytes) (h : Header) (out : Outcome) (r : Request) (same : r.pdata ≡ s) where
  copied-length : Within r h.pathlen out → h.pathlen < length s → copied out ≤ length out.patched
  copied-length w inside =
      let z : length r.pdata ≡ length s = ap length same in omega (arith, z, w.cuts, w.size)

  new_bytes-length :
      Within r h.pathlen out
      → h.pathlen < length s
      → length (new_bytes h out) ≡ copied out + (length out.new_q + (length s - h.pathlen)) + 2
  new_bytes-length w inside =
      let z : length r.pdata ≡ length s = ap length same in
      omega (
        arith,
        z,
        w.size,
        length-append {0} (take (copied out) out.patched)
            (out.new_q ++ (drop h.pathlen out.patched ++ codes "\r\n")),
        length-append {0} out.new_q (drop h.pathlen out.patched ++ codes "\r\n"),
        length-append {0} (drop h.pathlen out.patched) (codes "\r\n"),
        length-take (copied out) out.patched (copied-length w inside),
        length-drop h.pathlen out.patched,
      )

  new_len-room :
      (buf_len : ℕ)
      → Within r h.pathlen out
      → h.pathlen < length s
      → buf_len_for (new_len s out) ≡ some buf_len
      → copied out + (length out.new_q + (length s - h.pathlen)) + 2 < buf_len
  new_len-room buf_len w inside e =
      let le : new_len s out ≤ buf_len = ground arith in
      let long : copied out + (length out.new_q + (length s - h.pathlen)) + 2 < new_len s out =
        spare out.q_replace w.cuts in
      omega (arith, le, long)
    where
      spare :
          (p : Option ℕ)
          → elim p [ none ↦ out.path_end | some p ↦ p ] ≤ h.pathlen
          → elim p [ none ↦ out.path_end | some p ↦ p ]
              + (length out.new_q + (length s - h.pathlen))
              + 2
            < elim p [
              | none ↦ length s + length out.new_q + 3
              | some p ↦ length s + length out.new_q + 3 - (out.path_end - p)
            ]
      spare none c = omega (arith, inside, w.ends)
      spare (some p) c = omega (arith, inside, w.ends)

  new_bytes-info :
      Within r h.pathlen out
      → h.pathlen < length s
      → drop (copied out + length out.new_q + 1) (new_bytes h out)
        ≡ drop (h.pathlen + 1) s ++ codes "\r\n"
  new_bytes-info w inside =
      ap (λ k. drop k (new_bytes h out)) (plus_assoc (copied out) (length out.new_q) 1)
      ∙ drop-past (copied out) (length out.new_q + 1) (take (copied out) out.patched) _
          (length-take (copied out) out.patched (copied-length w inside))
      ∙ drop-past (length out.new_q) 1 out.new_q _ refl
      ∙ ap (λ rest. drop 1 (rest ++ codes "\r\n")) (w.tail ∙ ap (drop h.pathlen) same)
      ∙ drop_one-append (drop h.pathlen s) (codes "\r\n") (omega (arith, length-drop h.pathlen s))
      ∙ ap (λ rest. rest ++ codes "\r\n") (sym (drop-drop h.pathlen 1 s))
    where
      plus_assoc : (a b c : ℕ) → a + b + c ≡ a + (b + c)
      plus_assoc a b c = omega arith

module _ (env : Env) (c : Client) (s : Bytes) (h : Header) (out : Outcome) (buf_len : ℕ) where
  fill-IsLaidOut :
      (origin : Origin) (qconst : ℕ)
      → IsHeader s h
      → Within (request_of env c s h) h.pathlen out
      → buf_len_for (new_len s out) ≡ some buf_len
      → IsLaidOut s (fill env c s h out origin buf_len qconst)
  unfolding fill
  fill-IsLaidOut origin qconst head w room =
      let inside = memchr-lt b':' s head.colon in
      let r = request_of env c s h in
      record {
        length_is = sym (new_bytes-length s h out r refl w inside);
        fits = new_len-room s h out r refl buf_len w inside room;
        colon = h.pathlen;
        colon_at = head.colon;
        info = new_bytes-info s h out r refl w inside;
      }

  filled :
      (origin : Origin) (a : Assembled)
      → IsHeader s h
      → Within (request_of env c s h) h.pathlen out
      → buf_len_for (new_len s out) ≡ some buf_len
      → (found_or (qconst_start_of out) q_bug >>= λ qconst.
          passed (some (assembled env c s h out (fill env c s h out origin buf_len qconst))))
        ≡ passed (some a)
      → IsLaidOut s a.pb
  filled origin a head w room e =
      let (qconst, _, f) = bind-passed (found_or (qconst_start_of out) q_bug) _ e in
      subst (IsLaidOut s) (ap Assembled.pb (some-injective (passed-injective f)))
        (fill-IsLaidOut origin qconst head w room)

  boxed-IsLaidOut :
      (origin : Origin) {a : Assembled}
      → IsHeader s h
      → Within (request_of env c s h) h.pathlen out
      → buf_len_for (new_len s out) ≡ some buf_len
      → boxed env c s h out buf_len origin ≡ passed (some a)
      → IsLaidOut s a.pb
  unfolding boxed
  boxed-IsLaidOut dupefeed head w room e = absurd cc
  boxed-IsLaidOut upstream {a} head w room e = filled upstream a head w room e
  boxed-IsLaidOut downstream {a} head w room e = filled downstream a head w room e

-- Every packet that is put in a buffer fits it with a byte to spare for the terminator, its
-- `packet_len` is the number of its bytes, and behind its `info_start` stands what stood behind
-- the line's first colon, with CR and LF.
pub assemble-IsLaidOut :
    (env : Env) (c : Client) (s : Bytes) {a : Assembled}
    → assemble env c s ≡ passed (some a)
    → IsLaidOut s a.pb
unfolding assemble
assemble-IsLaidOut env c s {a} e =
    let (h, eh, e1) = bind-passed (parse_header env s) _ e in
    let r = request_of env c s h in
    let (out, eq, e2) = bind-passed (of_q (q_process r h.pathlen)) _ e1 in
    let e3 = then-passed (guard (has_disallowed_call env out) dis_igatecall) _ e2 in
    let (buf_len, eb, e4) = bind-passed (found_or (buf_len_for (new_len s out)) long_packet) _ e3 in
    let (origin, eo, e5) = bind-passed (classify c) _ e4 in
    let head = parse_header-IsHeader env s eh in
    let inside = memchr-lt b':' s head.colon in
    let w =
      q_process-Within r h.pathlen head.via (omega (arith, inside))
        (of_q-passed (q_process r h.pathlen) eq) in
    let room = found_or-passed (buf_len_for (new_len s out)) long_packet eb in
    boxed-IsLaidOut env c s h out buf_len origin head w room e5
