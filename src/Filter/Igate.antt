-- ===== src/Filter/Igate.antt =====
-- src/filter.c: the support of igates at the front of `filter_process`, on the lists of the stations that
-- the client has heard, and of those whose next position it gets.
pub mod Messages
use aprsc.Prelude.{
  ℕ, ◌+◌, arith, ◌-◌, ◌≡◌, ◌≢◌, ◌<◌, refl, ap, ◌∙◌, Bool, true, false, not, ◌&&◌, ◌||◌, Option,
  none, some, List, [], ◌∷◌, ◌++◌, ◌==◌, if◌then◌else◌, Bytes, codes, take, drop, memmem,
  same_bytes, same_nocase,
}
use aprsc.Packet.{Pbuf}
use aprsc.Qconstruct.Parse.{slice}
use aprsc.Keyhash.{keyhashuc}
use aprsc.ParseAprs.Scanf.{until_nul}
use aprsc.ParseAprs.{Parsing, memory}
use aprsc.ClientHeard.{
  HeardList, heard_list_update, client_heard_update, client_heard_check, client_courtesy_needed,
  max_heard_per_client,
}

-- `CLFLAGS_IGATE`, the name of the client, and its two lists.
pub record Igate : Type 0 where
  pub is_igate : Bool
  pub username : Bytes
  pub heard : HeardList
  pub courtesy : HeardList

unfoldable pub filter_check_tcpip : Pbuf → Bool
unfolding memmem
filter_check_tcpip pb =
    elim (memmem (codes ",TCPIP*,") (until_nul (slice pb.bytes pb.dstcall_end pb.qconst_start))) [
      | none ↦ false
      | some i ↦ true
    ]

-- `filter_keyhashes`, where there is no recipient at offset 0.
unfoldable pub srcname_hash : Pbuf → ℕ
unfolding keyhashuc
srcname_hash pb =
    keyhashuc
      (if pb.srcname == 0
        then take pb.srccall_end pb.bytes
        else take pb.srcname_len (drop pb.srcname pb.bytes))
      0

abbrev pub recipient : Bytes → Pbuf → Parsing → Bytes
recipient beyond pb st = take st.dstname_len (drop st.dstname (memory pb beyond))

unfoldable pub dstname_hash : Bytes → Pbuf → Parsing → ℕ
unfolding keyhashuc
dstname_hash beyond pb st = if st.dstname == 0 then 0 else keyhashuc (recipient beyond pb st) 0

-- A message to the client or to a station that it has heard.
unfoldable pub is_gated : Igate → Bytes → Pbuf → Parsing → Bool
unfolding client_heard_check dstname_hash
is_gated c beyond pb st =
    st.message
    && (same_bytes (recipient beyond pb st) c.username
        || client_heard_check (recipient beyond pb st) (dstname_hash beyond pb st) c.heard)

unfoldable pub tcpip_of_heard : Igate → Pbuf → Bool
unfolding filter_check_tcpip client_heard_check
tcpip_of_heard c pb =
    let call = take pb.srccall_end pb.bytes in
    filter_check_tcpip pb && client_heard_check call (keyhashuc call 0) c.heard

-- Whether the packet passes, whatever the filters, and the list of the courtesy positions.
unfoldable pub igate_support : Igate → Bytes → Pbuf → Parsing → Bool × HeardList
unfolding is_gated tcpip_of_heard client_heard_update client_courtesy_needed srcname_hash
igate_support c beyond pb st =
    let needed = client_courtesy_needed pb (srcname_hash pb) c.courtesy in
    if not c.is_igate
    then (false, c.courtesy)
    else if is_gated c beyond pb st
    then (true, client_heard_update pb c.courtesy)
    else if (st.position || (st.object || st.item)) && needed.0
    then needed
    else (tcpip_of_heard c pb, c.courtesy)
