-- ===== src/Incoming/Headers.antt =====
-- About the headers that `incoming_parse` of src/incoming.c accepts, and rules to read a chain of
-- checks that passed.
use aprsc.Prelude.{
  ℕ, ◌+◌, ◌≤◌, ◌<◌, ◌≡◌, ◌∙◌, refl, ap, arith, Bool, true, false, Option, none, some, Option-cases,
  [], ◌∷◌, ltb, leb, ◌==◌, if◌then◌else◌, Bool-cases, inl, inr, Bytes, length, take, memchr,
  length-take-le,
}
use aprsc.Qconstruct.Parse.{Result, ok, err, slice}
use aprsc.Qconstruct.Parse.Bounds.{length-slice}
use aprsc.Incoming.Callsign.{
  check_invalid_src_dst, check_path_calls, check_call_prefix_match, check_call_glob_match,
  digi_path_drop,
}
use aprsc.Incoming.Error.{
  inv_dstcall, nogate, inv_path_call, third_party_ip, short_packet, no_colon, no_dst, no_path,
  inv_srccall, dis_srccall, no_body, InError, Checked, passed, passed-injective, dropped, of_q,
  ◌>>=◌, ◌>>◌,
}
use aprsc.Incoming.{
  Env, Header, packetlen_min, disallow_srccalls, is_third_party_ip, guard, found_or, dst_len,
  parse_path, parse_header,
}

pub bind-passed :
    {A B : Type 0} (check : Checked A) (go_on : A → Checked B) {out : B}
    → (check >>= go_on) ≡ passed out
    → (value : A) × (check ≡ passed value) × (go_on value ≡ passed out)
bind-passed (dropped reason) go_on e = cc
bind-passed (passed value) go_on e = (value, refl, e)

pub some-injective : {A : Type 0} {a b : A} → some a ≡ some b → a ≡ b
some-injective e = cc

pub then-passed :
    {B : Type 0} (check : Checked (Unit {0})) (go_on : Checked B) {out : B}
    → (check >> go_on) ≡ passed out
    → go_on ≡ passed out
then-passed (dropped reason) go_on e = cc
then-passed (passed u) go_on e = e

pub found_or-passed :
    (o : Option ℕ) (reason : InError) {i : ℕ} → found_or o reason ≡ passed i → o ≡ some i
found_or-passed none reason e = cc
found_or-passed (some i) reason e = cc

pub of_q-passed : {A : Type 0} (m : Result A) {a : A} → of_q m ≡ passed a → m ≡ ok a
of_q-passed (ok a) e = cc
of_q-passed (err reason) e = cc

pub memchr-lt : (c : ℕ) (s : Bytes) {i : ℕ} → memchr c s ≡ some i → i < length s
unfolding memchr
memchr-lt c [] e = cc
memchr-lt c (x ∷ s) {i} e = elim (Bool-cases (x == c)) [
  | inl f ↦ let z : 0 ≡ i = ground arith in omega (arith, z)
  | inr f ↦ elim (Option-cases (memchr c s)) [
    | inl g ↦ absurd (ground arith)
    | inr (j, g) ↦ let z : j + 1 ≡ i = ground arith in omega (arith, z, memchr-lt c s {i = j} g)
  ]
]

dst_len-le : (ssid : Bool) (path : Bytes) → dst_len ssid path ≤ length path
unfolding dst_len
dst_len-le ssid [] = omega arith
dst_len-le ssid (c ∷ path) = ground (arith, dst_len-le ssid path)

-- The path of a header begins behind its source and ends before the first colon.
pub record IsHeader (s : Bytes) (h : Header) : Type 0 where
  pub colon : memchr b':' s ≡ some h.pathlen
  pub via : h.via_start ≤ h.pathlen

parse_path-IsHeader :
    (s : Bytes) (src_len pathlen : ℕ) {h : Header}
    → memchr b':' s ≡ some pathlen
    → src_len + 1 ≤ pathlen
    → parse_path s src_len pathlen ≡ passed h
    → IsHeader s h
unfolding parse_path
parse_path-IsHeader s src_len pathlen {h} colon inside e =
    let path_start = src_len + 1 in
    let ssid = path_start + dst_len true (slice s path_start pathlen) in
    let via_start = ssid + dst_len false (slice s ssid pathlen) in
    let e1 =
      then-passed (guard (check_invalid_src_dst (slice s path_start via_start)) inv_dstcall) _ e in
    let e2 = then-passed (guard (digi_path_drop (slice s via_start pathlen)) nogate) _ e1 in
    let (_, _, e3) =
      bind-passed (found_or (check_path_calls s via_start pathlen) inv_path_call) _ e2 in
    let e4 = then-passed (guard (is_third_party_ip s pathlen) third_party_ip) _ e3 in
    let is_via : via_start ≡ h.via_start = ap Header.via_start (passed-injective e4) in
    let is_path : pathlen ≡ h.pathlen = ap Header.pathlen (passed-injective e4) in
    record {
      colon = colon ∙ ap some is_path;
      via = omega (
        arith,
        is_via,
        is_path,
        dst_len-le true (slice s path_start pathlen),
        length-slice s path_start pathlen,
        dst_len-le false (slice s ssid pathlen),
        length-slice s ssid pathlen,
      );
    }

pub parse_header-IsHeader :
    (env : Env) (s : Bytes) {h : Header} → parse_header env s ≡ passed h → IsHeader s h
unfolding parse_header
parse_header-IsHeader env s {h} e =
    let e1 = then-passed (guard (ltb (length s) packetlen_min) short_packet) _ e in
    let (pathlen, colon, e2) = bind-passed (found_or (memchr b':' s) no_colon) _ e1 in
    let window = if ltb pathlen 10 then pathlen else 10 in
    let (src_len, arrow, e3) = bind-passed (found_or (memchr b'>' (take window s)) no_dst) _ e2 in
    let e4 = then-passed (guard (leb (length s) (src_len + 1)) no_path) _ e3 in
    let src = take src_len s in
    let e5 = then-passed (guard (check_invalid_src_dst src) inv_srccall) _ e4 in
    let e6 = then-passed (guard (check_call_prefix_match disallow_srccalls src) dis_srccall) _ e5 in
    let e7 =
      then-passed
        (guard (check_call_glob_match env.fnmatch env.disallow_srccall_glob src) dis_srccall) _
        e6 in
    let e8 = then-passed (guard (leb (length s) (pathlen + 1)) no_body) _ e7 in
    let short : window ≤ pathlen = ground arith in
    parse_path-IsHeader s src_len pathlen (found_or-passed (memchr b':' s) no_colon colon)
      (omega (
        arith,
        short,
        length-take-le window s,
        memchr-lt b'>' (take window s) (found_or-passed (memchr b'>' (take window s)) no_dst arrow),
      ))
      e8
