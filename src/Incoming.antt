-- ===== src/Incoming.antt =====
-- src/incoming.c: `incoming_parse` up to the filled packet buffer, stage by stage. The line comes
-- without its end. The APRS parser and the filter module are parameters.
pub mod Error
pub mod Callsign
pub mod Quirks
pub mod Entry
pub mod ServerMessage
pub mod Headers
pub mod Accepted
pub mod Passed
pub mod Layout
pub mod Queued
pub mod Clean
use aprsc.Prelude.{
  ℕ, ◌+◌, ◌-◌, Bool, true, false, not, ◌&&◌, ◌||◌, Option, none, some, List, [], ◌∷◌, ◌++◌, ltb,
  leb, ◌==◌, if◌then◌else◌, Bytes, codes, length, take, drop, get_or, same_bytes, memchr, memmem,
}
use aprsc.Packet.{Pbuf}
use aprsc.Client.{Client, ClientState, Server}
use aprsc.Qconstruct.Parse.{Request, slice, byte, Outcome, copied}
use aprsc.Qconstruct.Drop.{is_corepeer}
use aprsc.Qconstruct.{q_process}
use Error.{
  InError, no_colon, no_dst, no_path, inv_srccall, no_body, inv_dstcall, disallow_unverified,
  disallow_unverified_path, nogate, third_party_ip, general_query, out_of_pbufs, class_fail, q_bug,
  short_packet, long_packet, inv_path_call, dis_srccall, dis_igatecall, Checked, passed, dropped,
  of_q, ◌>>=◌, ◌>>◌,
}
use Callsign.{
  check_invalid_src_dst, check_path_calls, check_call_prefix_match, check_call_glob_match,
  check_igate_calls, digi_path_drop,
}
use Quirks.{quirked}

-- What the APRS parser says of a packet: whether it drops it, the packet with the fields it
-- fills in, and the types T_MESSAGE to the address SERVER and T_QUERY.
pub record Aprs : Type 0 where
  pub refused : Option InError
  pub pb : Pbuf
  pub server_message : Bool
  pub query : Bool

pub record Env : Type 0 where
  pub server : Server
  pub disallow_srccall_glob : List Bytes
  pub disallow_igate_glob : List Bytes
  pub fnmatch : Bytes → Bytes → Bool
  pub is_local : Bytes → Bool
  pub tick : ℕ
  -- the connection that the packet came from
  pub origin : ℕ
  pub parse_aprs : Pbuf → Aprs
  pub filter_preprocess : Pbuf → Pbuf

-- `PACKETLEN_MIN` without the line end, `PATH_APPEND_LEN` and the sizes of buffers.
abbrev pub packetlen_min : ℕ
packetlen_min = 8

abbrev pub path_append_len : ℕ
path_append_len = 600

-- The size of the buffer that `pbuf_get` picks.
abbrev pub buf_len_for : ℕ → Option ℕ
buf_len_for len =
    if leb len 100
    then some 100
    else if leb len 180
    then some 180
    else if leb len 512
    then some 512
    else none

abbrev pub disallow_srccalls : List Bytes
disallow_srccalls = codes "N0CALL" ∷ codes "NOCALL" ∷ codes "SERVER" ∷ []

abbrev pub guard : Bool → InError → Checked (Unit {0})
guard bad reason = if bad then dropped reason else passed tt

abbrev pub found_or : Option ℕ → InError → Checked ℕ
found_or (some i) reason = passed i
found_or none reason = dropped reason

-- The offsets in a packet's header.
pub record Header : Type 0 where
  pub src_len : ℕ
  pub dstcall_end_or_ssid : ℕ
  pub via_start : ℕ
  pub pathlen : ℕ

-- The bytes before a '-' too if `ssid`, before a ',' or a ':'.
unfoldable pub dst_len : Bool → Bytes → ℕ
dst_len ssid [] = 0
dst_len ssid (c ∷ path) =
    let rest = dst_len ssid path in
    if (ssid && c == b'-') || (c == b',' || c == b':') then 0 else rest + 1

-- The header of a 3rd-party packet in the body has been on the Internet before.
unfoldable pub is_third_party_ip : Bytes → ℕ → Bool
is_third_party_ip s pathlen =
    byte s (pathlen + 1) == b'}' && elim (memchr b':' (drop (pathlen + 2) s)) [
      | none ↦ false
      | some n ↦
          has (memmem (codes ",TCPIP") (take n (drop (pathlen + 2) s)))
          || has (memmem (codes ",TCPXX") (take n (drop (pathlen + 2) s)))
    ]
  where
    has : Option ℕ → Bool
    has none = false
    has (some _) = true

-- The destination and the path, behind the source callsign.
unfoldable pub parse_path : Bytes → ℕ → ℕ → Checked Header
unfolding dst_len
parse_path s src_len pathlen = do
  let path_start = src_len + 1
  let ssid = path_start + dst_len true (slice s path_start pathlen)
  let via_start = ssid + dst_len false (slice s ssid pathlen)
  guard (check_invalid_src_dst (slice s path_start via_start)) inv_dstcall
  guard (digi_path_drop (slice s via_start pathlen)) nogate
  _ ← found_or (check_path_calls s via_start pathlen) inv_path_call
  guard (is_third_party_ip s pathlen) third_party_ip
  passed (record {
    src_len = src_len;
    dstcall_end_or_ssid = ssid;
    via_start = via_start;
    pathlen = pathlen;
  })

unfoldable pub parse_header : Env → Bytes → Checked Header
unfolding parse_path
parse_header env s = do
  guard (ltb (length s) packetlen_min) short_packet
  pathlen ← found_or (memchr b':' s) no_colon
  src_len ← found_or (memchr b'>' (take (if ltb pathlen 10 then pathlen else 10) s)) no_dst
  guard (leb (length s) (src_len + 1)) no_path
  let src = take src_len s
  guard (check_invalid_src_dst src) inv_srccall
  guard (check_call_prefix_match disallow_srccalls src) dis_srccall
  guard (check_call_glob_match env.fnmatch env.disallow_srccall_glob src) dis_srccall
  guard (leb (length s) (pathlen + 1)) no_body
  parse_path s src_len pathlen

-- `strlen(c->username) == src_len && memcmp(c->username, s, src_len) == 0`
abbrev pub is_own : Client → Bytes → Header → Bool
is_own c s h = same_bytes c.username (take h.src_len s)

abbrev pub request_of : Env → Client → Bytes → Header → Request
request_of env c s h = record {
  server = env.server;
  client = c;
  is_local = env.is_local;
  pdata = s;
  new_q_size = path_append_len;
  via_start = h.via_start;
  pathlen = h.pathlen;
  originated_by_client = is_own c s h;
}

-- An igate, or the construct itself, that the server is set not to let pass.
abbrev pub has_disallowed_call : Env → Outcome → Bool
has_disallowed_call env out = elim out.new_q_start [
  | none ↦ false
  | some q ↦
      ltb q out.path_end
      && check_igate_calls env.fnmatch env.disallow_igate_glob out.patched q out.path_end
]

abbrev pub new_len : Bytes → Outcome → ℕ
new_len s out = elim out.q_replace [
  | none ↦ length s + length out.new_q + 3
  | some p ↦ length s + length out.new_q + 3 - (out.path_end - p)
]

-- The packet as it goes out, with its line end.
abbrev pub new_bytes : Header → Outcome → Bytes
new_bytes h out =
    take (copied out) out.patched ++ (out.new_q ++ (drop h.pathlen out.patched ++ codes "\r\n"))

-- `pb->qconst_start`: the generated text, or a construct in the header.
abbrev pub qconst_start_of : Outcome → Option ℕ
qconst_start_of out = elim out.new_q_start [
  | none ↦ if ltb 0 (length out.new_q) then some (copied out + 1) else none
  | some q ↦ if ltb 0 q && ltb q out.path_end then some q else none
]

pub data Origin : Type 0 where
  upstream downstream dupefeed : Origin

-- Is the packet from an uplink or from a client; those of duplicate feeds are ignored.
abbrev pub classify : Client → Checked Origin
classify c =
    if is_corepeer c.state || c.uplinkport
    then passed upstream
    else if c.dupefeed
    then passed dupefeed
    else if c.inport
    then passed downstream
    else dropped class_fail

abbrev pub is_upstream : Origin → Bool
is_upstream upstream = true
is_upstream _ = false

-- The new packet buffer. It is a duplicate if its source is logged in on another socket.
unfoldable pub fill : Env → Client → Bytes → Header → Outcome → Origin → ℕ → ℕ → Pbuf
fill env c s h out origin buf_len qconst = record {
  origin = some env.origin;
  bytes = new_bytes h out;
  packet_len = copied out + (length out.new_q + (length s - h.pathlen)) + 2;
  buf_len = buf_len;
  srcname = 0;
  srcname_len = h.src_len;
  srccall_end = h.src_len;
  dstcall_end_or_ssid = h.dstcall_end_or_ssid;
  dstcall_end = h.via_start;
  dstcall_len = h.via_start - h.src_len - 1;
  qconst_start = qconst;
  info_start = copied out + length out.new_q + 1;
  entrycall_len = 0;
  seqnum = 0;
  t = env.tick;
  lat = 0;
  lng = 0;
  cos_lat = 0;
  dupe = not (is_own c s h) && env.is_local (take h.src_len s);
  has_pos = false;
  from_upstr = is_upstream origin;
  from_downstr = not (is_upstream origin);
  position = false;
  object = false;
  item = false;
}

-- The filled packet buffer, and what the rest of the parse looks at besides.
pub record Assembled : Type 0 where
  pub pb : Pbuf
  pub via : Bytes
  pub own : Bool

abbrev pub assembled : Env → Client → Bytes → Header → Outcome → Pbuf → Assembled
assembled env c s h out pb = record {
  pb = pb;
  via = slice out.patched h.via_start h.pathlen;
  own = is_own c s h;
}

-- The packet of a duplicate feed is freed again.
unfoldable pub boxed :
    Env → Client → Bytes → Header → Outcome → ℕ → Origin → Checked (Option Assembled)
unfolding fill
boxed env c s h out buf_len dupefeed = passed none
boxed env c s h out buf_len origin = do
  qconst ← found_or (qconst_start_of out) q_bug
  passed (some (assembled env c s h out (fill env c s h out origin buf_len qconst)))

-- Up to the filled packet buffer, or none for a packet of a duplicate feed.
unfoldable pub assemble : Env → Client → Bytes → Checked (Option Assembled)
unfolding parse_header boxed
assemble env c s = do
  h ← parse_header env s
  out ← of_q (q_process (request_of env c s h) h.pathlen)
  guard (has_disallowed_call env out) dis_igatecall
  buf_len ← found_or (buf_len_for (new_len s out)) long_packet
  origin ← classify c
  boxed env c s h out buf_len origin
