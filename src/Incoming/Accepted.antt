-- ===== src/Incoming/Accepted.antt =====
-- About what the checks of a header in `incoming_parse` of src/incoming.c leave of a line.
use aprsc.Prelude.{
  ℕ, ◌+◌, ◌≤◌, ◌<◌, ◌≡◌, refl, arith, Bool, true, false, some, ltb, leb, if◌then◌else◌, Bytes,
  length, take, memchr,
}
use mathlib.Core.Path.{subst}
use aprsc.Qconstruct.Parse.{slice}
use aprsc.Incoming.Callsign.{
  check_invalid_src_dst, check_path_calls, check_call_prefix_match, check_call_glob_match,
  digi_path_drop,
}
use aprsc.Incoming.Error.{
  inv_dstcall, nogate, inv_path_call, third_party_ip, short_packet, no_colon, no_dst, no_path,
  inv_srccall, dis_srccall, no_body, InError, Checked, passed, passed-injective, ◌>>◌,
}
use aprsc.Incoming.{
  Env, Header, packetlen_min, disallow_srccalls, is_third_party_ip, guard, found_or, dst_len,
  parse_path, parse_header,
}
use aprsc.Incoming.Headers.{bind-passed, then-passed, found_or-passed}

-- The line is long enough, with something behind its first colon; its source callsign ends at the
-- first '>' of the first ten bytes before the colon, is a valid name, and neither a disallowed
-- one nor like one of the disallowed patterns.
pub record IsSource (env : Env) (s : Bytes) (src_len pathlen : ℕ) : Type 0 where
  pub long_enough : packetlen_min ≤ length s
  pub source_end : memchr b'>' (take (if ltb pathlen 10 then pathlen else 10) s) ≡ some src_len
  pub source : check_invalid_src_dst (take src_len s) ≡ false
  pub allowed : check_call_prefix_match disallow_srccalls (take src_len s) ≡ false
  pub no_pattern :
      check_call_glob_match env.fnmatch env.disallow_srccall_glob (take src_len s) ≡ false
  pub body : pathlen + 1 < length s

-- And the destination is a valid name; no NOGATE or the like and no bad callsign is in the path;
-- and the packet is no third-party one that came from the Internet.
pub record IsAccepted (env : Env) (s : Bytes) (h : Header) : Type 0 where
  pub colon : memchr b':' s ≡ some h.pathlen
  pub source : IsSource env s h.src_len h.pathlen
  pub destination : check_invalid_src_dst (slice s (h.src_len + 1) h.via_start) ≡ false
  pub no_gate : digi_path_drop (slice s h.via_start h.pathlen) ≡ false
  pub path_calls : (n : ℕ) × (check_path_calls s h.via_start h.pathlen ≡ some n)
  pub no_ip : is_third_party_ip s h.pathlen ≡ false

pub guard-passed :
    {B : Type 0} (bad : Bool) (reason : InError) (go_on : Checked B) {out : B}
    → (guard bad reason >> go_on) ≡ passed out
    → bad ≡ false
guard-passed true reason go_on e = cc
guard-passed false reason go_on e = refl

parse_path-IsAccepted :
    (env : Env) (s : Bytes) (src_len pathlen : ℕ) {h : Header}
    → memchr b':' s ≡ some pathlen
    → IsSource env s src_len pathlen
    → parse_path s src_len pathlen ≡ passed h
    → IsAccepted env s h
unfolding parse_path
parse_path-IsAccepted env s src_len pathlen {h} colon source e =
    let path_start = src_len + 1 in
    let ssid = path_start + dst_len true (slice s path_start pathlen) in
    let via_start = ssid + dst_len false (slice s ssid pathlen) in
    let bad_dst = check_invalid_src_dst (slice s path_start via_start) in
    let e1 = then-passed (guard bad_dst inv_dstcall) _ e in
    let bad_path = digi_path_drop (slice s via_start pathlen) in
    let e2 = then-passed (guard bad_path nogate) _ e1 in
    let calls = check_path_calls s via_start pathlen in
    let (n, c, e3) = bind-passed (found_or calls inv_path_call) _ e2 in
    let bad_ip = is_third_party_ip s pathlen in
    let e4 = then-passed (guard bad_ip third_party_ip) _ e3 in
    subst (IsAccepted env s) (passed-injective e4) (record {
      colon = colon;
      source = source;
      destination = guard-passed bad_dst inv_dstcall _ e;
      no_gate = guard-passed bad_path nogate _ e1;
      path_calls = (n, found_or-passed calls inv_path_call c);
      no_ip = guard-passed bad_ip third_party_ip _ e3;
    })

pub parse_header-IsAccepted :
    (env : Env) (s : Bytes) {h : Header} → parse_header env s ≡ passed h → IsAccepted env s h
unfolding parse_header
parse_header-IsAccepted env s {h} e =
    let short = ltb (length s) packetlen_min in
    let e1 = then-passed (guard short short_packet) _ e in
    let (pathlen, c, e2) = bind-passed (found_or (memchr b':' s) no_colon) _ e1 in
    let arrow = memchr b'>' (take (if ltb pathlen 10 then pathlen else 10) s) in
    let (src_len, a, e3) = bind-passed (found_or arrow no_dst) _ e2 in
    let e4 = then-passed (guard (leb (length s) (src_len + 1)) no_path) _ e3 in
    let src = take src_len s in
    let bad_src = check_invalid_src_dst src in
    let e5 = then-passed (guard bad_src inv_srccall) _ e4 in
    let prefix = check_call_prefix_match disallow_srccalls src in
    let e6 = then-passed (guard prefix dis_srccall) _ e5 in
    let glob = check_call_glob_match env.fnmatch env.disallow_srccall_glob src in
    let e7 = then-passed (guard glob dis_srccall) _ e6 in
    let empty = leb (length s) (pathlen + 1) in
    let e8 = then-passed (guard empty no_body) _ e7 in
    let is_long : short ≡ false = guard-passed short short_packet _ e in
    let has_body : empty ≡ false = guard-passed empty no_body _ e7 in
    parse_path-IsAccepted env s src_len pathlen (found_or-passed (memchr b':' s) no_colon c)
      (record {
        long_enough = ground arith;
        source_end = found_or-passed arrow no_dst a;
        source = guard-passed bad_src inv_srccall _ e4;
        allowed = guard-passed prefix dis_srccall _ e5;
        no_pattern = guard-passed glob dis_srccall _ e6;
        body = ground arith;
      })
      e8
