-- ===== src/Filter/Stations.antt =====
-- src/filter.c: the tables of entry stations and of weather stations, for the filters q//I and t. Both
-- are the same but for their size, their fold of the hash and what is put in. A bucket is the list of
-- its chain, newest first; the lock makes each operation one step, and `cellmalloc` has a cell.
pub mod Lifetime
use aprsc.Prelude.{
  ℕ, zero, suc, ◌+◌, ◌/◌, ◌%◌, ◌^◌, bit_xor, Bool, true, false, not, ◌&&◌, ◌||◌, Option, none, some,
  List, [], ◌∷◌, ltb, leb, ◌==◌, if◌then◌else◌, Bytes, length, take, drop, get_or, map, same_bytes,
  same_nocase, update, find?,
}
use aprsc.Keyhash.{keyhash, keyhashuc, ascii_upper}
use aprsc.Packet.{Pbuf}

-- `filter_entrycall_t`, `filter_wx_t`; `len` is the length of the callsign.
pub record Station : Type 0 where
  pub expirytime : ℕ
  pub hash : ℕ
  pub callsign : Bytes

-- How a table folds a hash to the number of a bucket, how many there are, and how long an entry lives.
pub record Shape : Type 0 where
  pub shift : ℕ
  pub shift_more : ℕ
  pub size : ℕ
  pub maxage : ℕ

abbrev pub entrycall_shape : Shape
entrycall_shape = record { shift = 11; shift_more = 22; size = 2048; maxage = 3600 }

abbrev pub wx_shape : Shape
wx_shape = record { shift = 10; shift_more = 20; size = 1024; maxage = 3600 }

abbrev pub Stations : Type 0
Stations = ℕ → List Station

unfoldable pub fold_to : Shape → ℕ → ℕ
fold_to sh hash = bit_xor (bit_xor hash (hash / 2 ^ sh.shift)) (hash / 2 ^ sh.shift_more) % sh.size

-- Whether the chain has an entry of this upper-case callsign, and the chain with it renewed.
unfoldable pub renew : ℕ → Bytes → List Station → Bool × List Station
renew expiry uckey [] = (false, [])
renew expiry uckey (f ∷ chain) =
    let (found, rest) = renew expiry uckey chain in
    if f.hash == keyhash uckey 0 && same_bytes f.callsign uckey
    then (true, record f { expirytime = expiry } ∷ chain)
    else (found, f ∷ rest)

abbrev pub new_station : ℕ → Bytes → Station
new_station expiry uckey = record { expirytime = expiry; hash = keyhash uckey 0; callsign = uckey }

-- The chain with the entry renewed, or with a new one in front.
unfoldable pub noted : ℕ → Bytes → List Station → List Station
unfolding renew
noted expiry uckey chain =
    let (found, renewed) = renew expiry uckey chain in
    if found then renewed else new_station expiry uckey ∷ chain

unfoldable pub note_station : Shape → ℕ → Bytes → Stations → Stations
unfolding noted fold_to
note_station sh tick uckey table =
    let i = fold_to sh (keyhash uckey 0) in
    update table i (noted (tick + sh.maxage) uckey (table i))

-- The test of the look-up, with its comparison of the times as it is.
abbrev pub is_station : ℕ → Bytes → Station → Bool
is_station tick key f =
    f.hash == keyhashuc key 0
    && (length f.callsign == length key
        && (same_nocase f.callsign key && ltb (f.expirytime + 60) tick))

unfoldable pub lookup_station : Shape → ℕ → Bytes → Stations → Bool
unfolding fold_to
lookup_station sh tick key table =
    elim (find? (is_station tick key) (table (fold_to sh (keyhashuc key 0)))) [
      | none ↦ false
      | some f ↦ true
    ]

unfoldable pub live_stations : ℕ → List Station → List Station
live_stations tick [] = []
live_stations tick (f ∷ chain) =
    let rest = live_stations tick chain in if leb f.expirytime tick then rest else f ∷ rest

unfoldable pub clean_stations : ℕ → ℕ → Stations → Stations
unfolding live_stations
clean_stations tick zero table = table
clean_stations tick (suc n) table =
    let before = clean_stations tick n table in update before n (live_stations tick (before n))

-- The station behind the Q construct: three to nine characters up to a ',' or ':'.
unfoldable pub entry_len : ℕ → Bytes → ℕ
entry_len zero key = 0
entry_len (suc n) [] = 0
entry_len (suc n) (c ∷ key) =
    let rest = entry_len n key in if c == b',' || c == b':' then 0 else rest + 1

abbrev pub ends_entry : ℕ → Bool
ends_entry c = c == b',' || c == b':'

unfoldable pub filter_entrycall_insert : ℕ → Pbuf → Stations → Pbuf × Stations
unfolding entry_len note_station
filter_entrycall_insert tick pb table =
    let qcons = get_or pb.bytes (pb.qconst_start + 2) 0 in
    let key = drop (pb.qconst_start + 4) pb.bytes in
    let keylen = entry_len 9 key in
    let uckey = map ascii_upper (take keylen key) in
    if not (ends_entry (get_or key keylen 0)) || ltb keylen 3 then (pb, table) else (
      record pb { entrycall_len = keylen },
      (if qcons == b'r' || qcons == b'R'
          then note_station entrycall_shape tick uckey table
          else table),
    )

unfoldable pub filter_entrycall_lookup : ℕ → Pbuf → Stations → Bool
unfolding lookup_station
filter_entrycall_lookup tick pb table =
    lookup_station entrycall_shape tick
      (take pb.entrycall_len (drop (pb.qconst_start + 4) pb.bytes)) table

unfoldable pub filter_entrycall_cleanup : ℕ → Stations → Stations
unfolding clean_stations
filter_entrycall_cleanup tick table = clean_stations tick entrycall_shape.size table

-- `is_wx` is the bit T_WX. The key stops at a '>', and callsigns have at most nine characters.
unfoldable pub filter_wx_insert : Bool → ℕ → Pbuf → Stations → Stations
unfolding note_station
filter_wx_insert is_wx tick pb table =
    if not (is_wx && not pb.has_pos)
    then table
    else note_station wx_shape tick (map ascii_upper (take pb.srccall_end pb.bytes)) table

unfoldable pub filter_wx_lookup : ℕ → Pbuf → Stations → Bool
unfolding lookup_station
filter_wx_lookup tick pb table = lookup_station wx_shape tick (take pb.srccall_end pb.bytes) table

unfoldable pub filter_wx_cleanup : ℕ → Stations → Stations
unfolding clean_stations
filter_wx_cleanup tick table = clean_stations tick wx_shape.size table
