-- ===== src/Filter/Process.antt =====
-- src/filter.c: one filter on one packet, and the lists of filters of a client. What the filters a, f,
-- g, m, r, s and t answer, which reckon with positions, symbols and packet types, is a parameter that
-- Filter/Kinds fills; what a message to the client about a bad filter returns is a parameter.
pub mod Verdicts
use Prim.Native.Nat.{bit_and}
use aprsc.Prelude.{
  ℕ, zero, suc, ◌+◌, ◌-◌, Bool, true, false, not, ◌&&◌, ◌||◌, Option, none, some, List, [], ◌∷◌,
  ltb, leb, ◌==◌, if◌then◌else◌, Bytes, take, drop, get_or, to_upper,
}
use aprsc.Prelude.Int.{ℤ, pos, ltb_ℤ}
use aprsc.Packet.{Pbuf}
use aprsc.Filter.Callsigns.{
  RefCall, Match, match_prefix, match_wild, call_len_max, filter_match_on_callsignset,
}
use aprsc.Filter.Stations.{Stations, filter_entrycall_lookup}

-- `filter_t`, the fields of the filters that are modelled.
pub record Filter : Type 0 where
  pub kind : ℕ
  pub names : List RefCall
  pub bitflags : ℕ

-- At most nine characters of a callsign at an offset.
abbrev pub call_at : Pbuf → ℕ → ℕ → Bytes
call_at pb at len = take (if ltb call_len_max len then call_len_max else len) (drop at pb.bytes)

-- The source callsign, and then that inside of a third-party packet.
unfoldable pub filter_by_source : Match → Pbuf → Filter → ℕ
filter_by_source wildok pb f =
    let r = filter_match_on_callsignset wildok (call_at pb 0 pb.srccall_end) f.names in
    let inner = filter_match_on_callsignset wildok (call_at pb pb.srcname pb.srcname_len) f.names in
    if r == 0 && (not (pb.srcname == 0) && not (pb.object || pb.item)) then inner else r

unfoldable pub filter_process_one_b : Pbuf → Filter → ℕ
unfolding filter_by_source
filter_process_one_b pb f = filter_by_source match_wild pb f

unfoldable pub filter_process_one_p : Pbuf → Filter → ℕ
unfolding filter_by_source
filter_process_one_p pb f = filter_by_source match_prefix pb f

unfoldable pub filter_process_one_e : Pbuf → Filter → ℕ
filter_process_one_e pb f =
    if ltb pb.entrycall_len 1
    then 0
    else filter_match_on_callsignset match_wild
        (take pb.entrycall_len (drop (pb.qconst_start + 4) pb.bytes)) f.names

unfoldable pub filter_process_one_o : Pbuf → Filter → ℕ
filter_process_one_o pb f =
    if not (pb.object || pb.item)
    then 0
    else if ltb pb.srcname_len 1 || ltb call_len_max pb.srcname_len
    then 0
    else filter_match_on_callsignset match_wild (take pb.srcname_len (drop pb.srcname pb.bytes))
        f.names

unfoldable pub filter_process_one_u : Pbuf → Filter → ℕ
filter_process_one_u pb f =
    filter_match_on_callsignset match_wild (call_at pb (pb.srccall_end + 1) pb.dstcall_len) f.names

abbrev pub byte_at : Pbuf → ℕ → ℕ
byte_at pb d = get_or pb.bytes d 0

-- `if (*d == ',') ++d;`
abbrev pub past_comma : Pbuf → ℕ → ℕ
past_comma pb d = if byte_at pb d == b',' then d + 1 else d

-- How long the callsign at `d` is: up to a ',', to `q`, or to ten characters.
unfoldable pub via_len : Pbuf → ℕ → ℕ → ℕ → ℕ
via_len pb q zero d = 0
via_len pb q (suc n) d =
    let rest = via_len pb q n (d + 1) in
    if leb d q && not (byte_at pb d == b',') then rest + 1 else 0

-- The digipeater that was matched: where it is, how long with and without its '*', and how many more
-- callsigns may be looked at.
pub record Digi : Type 0 where
  pub at : ℕ
  pub len : ℕ
  pub bare_len : ℕ
  pub rounds : ℕ

unfoldable pub find_digi : Pbuf → List RefCall → ℕ → ℕ → ℕ → Option Digi
unfolding via_len
find_digi pb names q zero d = none
find_digi pb names q (suc n) d =
    let d' = past_comma pb d in
    let i = via_len pb q 10 d' in
    let cl = if byte_at pb (d' + i - 1) == b'*' then i - 1 else i in
    let bare = if ltb call_len_max cl then call_len_max else cl in
    let rc = filter_match_on_callsignset match_wild (take bare (drop d' pb.bytes)) names in
    let rest = find_digi pb names q n (d' + i) in
    if not (ltb d q)
    then none
    else if rc == 1
    then some (record { at = d'; len = i; bare_len = bare; rounds = n })
    else rest

unfoldable pub later_star : Pbuf → ℕ → ℕ → ℕ → Bool
unfolding via_len
later_star pb q zero d = false
later_star pb q (suc n) d =
    let d' = past_comma pb d in
    let i = via_len pb q 10 d' in
    let rest = later_star pb q n (d' + i) in
    if not (ltb d q) then false else if byte_at pb (d' + i - 1) == b'*' then true else rest

unfoldable pub filter_process_one_d : Pbuf → Filter → ℕ
unfolding find_digi later_star
filter_process_one_d pb f =
    let q = pb.qconst_start - 1 in
    elim (find_digi pb f.names q 10 (pb.srccall_end + 1 + pb.dstcall_len + 1)) [
      | none ↦ 0
      | some g ↦
          if byte_at pb (g.at + g.bare_len) == b'*'
          then 1
          else if later_star pb q g.rounds (g.at + g.len)
          then 1
          else 0
    ]

-- The bit of a Q construct.
unfoldable pub q_mask : ℕ → ℕ
q_mask c =
    if c == b'C'
    then 0x001
    else if c == b'X'
    then 0x002
    else if c == b'U'
    then 0x004
    else if c == b'o'
    then 0x008
    else if c == b'O'
    then 0x010
    else if c == b'S'
    then 0x020
    else if c == b'r'
    then 0x040
    else if c == b'R'
    then 0x080
    else if c == b'Z'
    then 0x100
    else if c == b'I'
    then 0x200
    else 0

-- `QC_AnalyticsI`
abbrev pub analytics : ℕ
analytics = 0x800

unfoldable pub filter_process_one_q : ℕ → Stations → Pbuf → Filter → ℕ
unfolding q_mask
filter_process_one_q tick stations pb f =
    let mask = q_mask (byte_at pb (pb.qconst_start + 2)) in
    if mask == 0
    then 0
    else if not (bit_and f.bitflags mask == 0)
    then 1
    else if not (bit_and f.bitflags analytics == 0) && filter_entrycall_lookup tick pb stations
    then 1
    else 0

-- The clock, the entry stations, and the filters that are parameters; -1 for no such filter.
pub record FilterEnv : Type 0 where
  pub tick : ℕ
  pub stations : Stations
  pub other_filters : Pbuf → Filter → ℤ

unfoldable pub filter_process_one : FilterEnv → Pbuf → Filter → ℤ
unfolding filter_process_one_b filter_process_one_p filter_process_one_e filter_process_one_o
    filter_process_one_u filter_process_one_d filter_process_one_q
filter_process_one env pb f =
    let kind = to_upper f.kind in
    if kind == b'B'
    then pos (filter_process_one_b pb f)
    else if kind == b'D'
    then pos (filter_process_one_d pb f)
    else if kind == b'E'
    then pos (filter_process_one_e pb f)
    else if kind == b'O'
    then pos (filter_process_one_o pb f)
    else if kind == b'P'
    then pos (filter_process_one_p pb f)
    else if kind == b'Q'
    then pos (filter_process_one_q env.tick env.stations pb f)
    else if kind == b'U'
    then pos (filter_process_one_u pb f)
    else env.other_filters pb f

-- The filters of a client, and whether the igate support passes the packet to it.
pub record Filters : Type 0 where
  pub igate_passes : Bool
  pub negdefault : List Filter
  pub posdefault : List Filter
  pub neguser : List Filter
  pub posuser : List Filter

abbrev pub is_positive : ℤ → Bool
is_positive = ltb_ℤ (pos 0)

abbrev pub is_negative : ℤ → Bool
is_negative r = ltb_ℤ r (pos 0)

-- The first match of the server's filters; `hit` makes of it what is returned.
unfoldable pub default_filters : (Filter → ℤ) → (ℤ → ℤ) → List Filter → Option ℤ
default_filters one hit [] = none
default_filters one hit (f ∷ fs) =
    let rest = default_filters one hit fs in
    if is_positive (one f) then some (hit (one f)) else rest

-- The same for a client's filters: of a bad one the client is told, and what that returns counts.
unfoldable pub user_filters : (Filter → ℤ) → (Filter → ℤ) → (ℤ → ℤ) → List Filter → Option ℤ
user_filters one notify hit [] = none
user_filters one notify hit (f ∷ fs) =
    let rest = user_filters one notify hit fs in
    let rc = if is_negative (one f) then notify f else one f in
    if is_negative rc then some rc else if is_positive rc then some (hit rc) else rest

abbrev pub no_output : ℤ → ℤ
no_output rc = pos 0

abbrev pub or_next : Option ℤ → ℤ → ℤ
or_next (some rc) next = rc
or_next none next = next

unfoldable pub filter_process : (Filter → ℤ) → (Filter → ℤ) → Filters → ℤ
unfolding default_filters user_filters
filter_process one notify c =
    if c.igate_passes
    then pos 1
    else or_next (default_filters one no_output c.negdefault) (
        or_next (default_filters one (λ rc. rc) c.posdefault) (
          or_next (user_filters one notify no_output c.neguser)
            (or_next (user_filters one notify (λ rc. rc) c.posuser) (pos 0))))
