-- ===== src/Filter/Kinds.antt =====
-- src/filter.c: the filters by recipient, symbol and type of a packet, g, s and t, and the choice among
-- the filters that Filter/Process does not have itself.
pub mod Symbols
use Prim.Native.Nat.{bit_and}
use aprsc.Prelude.{
  ℕ, ◌+◌, ◌*◌, Bool, true, false, not, ◌&&◌, ◌||◌, Option, none, some, List, [], ◌∷◌, ltb, ◌==◌,
  if◌then◌else◌, Bytes, take, drop, memchr, to_upper,
}
use aprsc.Prelude.Int.{ℤ, pos, negsuc}
use aprsc.Packet.{Pbuf}
use aprsc.Historydb.{Cell}
use aprsc.ParseAprs.{Floats, Parsing, memory}
use aprsc.Filter.Callsigns.{match_wild, filter_match_on_callsignset}
use aprsc.Filter.Stations.{Stations, filter_wx_lookup}
use aprsc.Filter.Process.{Filter}
use aprsc.Filter.Range.{
  Trig, Place, RangeFilter, match_of, filter_process_one_a, filter_process_one_f,
  filter_process_one_m, filter_process_one_r, within_type_range,
}

-- The symbols of the primary and of the alternate table, and the overlays.
pub record SymbolFilter : Type 0 where
  pub negation : Bool
  pub primary : Bytes
  pub alternate : Bytes
  pub overlays : Bytes

-- The text up to the next '/', and what follows it.
unfoldable pub to_slash : Bytes → Bytes × Option Bytes
to_slash [] = ([], none)
to_slash (c ∷ s) = let rest = to_slash s in if c == b'/' then ([], some s) else (c ∷ rest.0, rest.1)

abbrev pub three_of : Bool → Bytes → Bytes → Bytes → Option SymbolFilter
three_of negation primary alternate [] =
    some (record { negation = negation; primary = primary; alternate = alternate; overlays = [] })
three_of negation primary [] (o ∷ overlays) = none
three_of negation primary (a ∷ alternate) (o ∷ overlays) = some (record {
  negation = negation;
  primary = primary;
  alternate = a ∷ alternate;
  overlays = o ∷ overlays;
})

-- An overlay needs symbols of the alternate table. Behind the primary table:
abbrev pub two_tables : Bool → Bytes → Option Bytes → Option SymbolFilter
two_tables negation primary none = three_of negation primary [] []
two_tables negation primary (some rest) =
    let (alternate, more) = to_slash rest in
    elim more [
      | none ↦ three_of negation primary alternate []
      | some overlays ↦ three_of negation primary alternate overlays
    ]

unfoldable pub three_tables : Bool → Bytes → Option SymbolFilter
unfolding to_slash
three_tables negation text = let (primary, rest) = to_slash text in two_tables negation primary rest

abbrev pub after_letter : Bytes → Bytes
after_letter [] = []
after_letter (c ∷ s) = if c == b's' || c == b'S' then s else c ∷ s

-- The text behind the '-', if there is one, the letter and the '/'.
unfoldable pub filter_parse_one_s : Bool → Bytes → Option SymbolFilter
unfolding three_tables
filter_parse_one_s negation [] = none
filter_parse_one_s negation (c ∷ s) = elim (after_letter (if c == b'-' then s else c ∷ s)) [
  | [] ↦ none
  | d ∷ text ↦ if d == b'/' then three_tables negation text else none
]

abbrev pub is_in : ℕ → Bytes → Bool
is_in c s = elim (memchr c s) [ none ↦ false | some i ↦ true ]

abbrev pub has_no_text : Bytes → Bool
has_no_text [] = true
has_no_text (c ∷ s) = false

-- The two characters of the symbol are 0 if the parser found none.
unfoldable pub filter_process_one_s : ℕ → ℕ → SymbolFilter → ℕ
unfolding memchr
filter_process_one_s table code f =
    let overlay = if table == b'/' || table == b'\\' then 0 else table in
    let hit = if f.negation then 2 else 1 in
    if table == b'/' && is_in code f.primary
    then hit
    else if not (has_no_text f.overlays)
    then (if is_in overlay f.overlays && is_in code f.alternate then hit else 0)
    else if not (table == b'/') && is_in code f.alternate
    then hit
    else 0

abbrev pub bit : Bool → ℕ → ℕ
bit b n = if b then n else 0

-- `packettype`
unfoldable pub packettype : Parsing → ℕ
packettype st =
    0x8000
    + bit st.position 0x1
    + bit st.object 0x2
    + bit st.item 0x4
    + bit st.message 0x8
    + bit st.nws 0x10
    + bit st.wx 0x20
    + bit st.telemetry 0x40
    + bit st.query 0x80
    + bit st.status 0x100
    + bit st.userdef 0x200
    + bit st.cwop 0x400
    + bit st.statcapa 0x800
    + bit st.third_party 0x1000

unfoldable pub filter_process_one_g : Bytes → Pbuf → Parsing → Filter → ℕ
filter_process_one_g beyond pb st f =
    if not st.message
    then 0
    else if st.dstname_len == 0
    then 0
    else filter_match_on_callsignset match_wild
        (take st.dstname_len (drop st.dstname (memory pb beyond))) f.names

abbrev pub has_type : ℕ → Stations → Pbuf → Parsing → Filter → Bool
has_type tick wx pb st f =
    not (bit_and (packettype st) f.bitflags == 0)
    || (not (bit_and f.bitflags 0x20 == 0) && (pb.has_pos && filter_wx_lookup tick pb wx))

-- What the filters look at besides the packet: the client's place and name, the clock, the history
-- database and the weather stations.
pub record Surroundings : Type 0 where
  pub floats : Floats
  pub trig : Trig
  pub place : Option Place
  pub username : Bytes
  pub tick : ℕ
  pub look : Bytes → Option Cell
  pub wx : Stations

unfoldable pub filter_process_one_t :
    Surroundings → Pbuf → Parsing → Filter → RangeFilter → ℕ × RangeFilter
unfolding packettype filter_wx_lookup within_type_range
filter_process_one_t w pb st f range =
    if not (has_type w.tick w.wx pb st f)
    then (0, range)
    else if f.kind == b'T'
    then within_type_range w.floats w.trig w.tick w.look pb range
    else (match_of range, range)

abbrev pub symbol_pair : Parsing → ℕ × ℕ
symbol_pair st = elim st.symbol [ none ↦ (0, 0) | some (table, code) ↦ (table, code) ]

-- What `filter_process_one` answers for the types that are left, where the fields of a filter that
-- only some types have are functions of it.
unfoldable pub process_other :
    Surroundings
    → Bytes
    → Parsing
    → (Filter → RangeFilter)
    → (Filter → SymbolFilter)
    → Pbuf
    → Filter
    → ℤ
unfolding filter_process_one_a filter_process_one_f filter_process_one_g filter_process_one_m
    filter_process_one_r filter_process_one_s filter_process_one_t
process_other w beyond st range symbols pb f =
    let kind = to_upper f.kind in
    if kind == b'A'
    then pos (filter_process_one_a w.floats w.trig pb (range f))
    else if kind == b'F'
    then pos ((filter_process_one_f w.floats w.trig w.tick w.look pb (range f)).0)
    else if kind == b'G'
    then pos (filter_process_one_g beyond pb st f)
    else if kind == b'M'
    then pos
        ((filter_process_one_m w.floats w.trig w.place w.username w.tick w.look pb (range f)).0)
    else if kind == b'R'
    then pos (filter_process_one_r w.floats w.trig pb (range f))
    else if kind == b'S'
    then pos (filter_process_one_s (symbol_pair st).0 (symbol_pair st).1 (symbols f))
    else if kind == b'T'
    then pos ((filter_process_one_t w pb st f (range f)).0)
    else negsuc 0
