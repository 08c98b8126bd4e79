-- ===== src/Dupecheck.antt =====
-- src/dupecheck.c: the table of packets seen lately. A bucket is the list of its chain. A record's
-- `len` is the length of `packet`; times are seconds from 0.
pub mod Mangle
pub mod Drain
pub mod Lag
mod Records
mod Keep
pub mod Sweep
mod Stored
pub mod Memory
mod Origin
pub mod Soundness
use aprsc.Prelude.{
  ℕ, zero, suc, ◌+◌, ◌-◌, ◌/◌, ◌%◌, ◌^◌, bit_xor, Bool, true, false, ◌&&◌, ◌||◌, Option, none, some,
  List, [], ◌∷◌, ◌++◌, leb, ltb, ◌==◌, if◌then◌else◌, Bytes, same_bytes, length, take, drop, update,
  find?,
}
use aprsc.Keyhash.{keyhash}
use Mangle.{Form, variants}
use aprsc.Packet.{Pbuf}

pub record DupeRecord : Type 0 where
  pub hash : ℕ
  pub t : ℕ
  pub dtype : ℕ
  pub packet : Bytes

-- `free` counts the cells on the free chain, `fresh` those that the arena can still give.
pub record Db : Type 0 where
  pub buckets : ℕ → List DupeRecord
  pub free : ℕ
  pub fresh : ℕ
  pub cellgauge : ℕ
  pub dupetypes : ℕ → ℕ

-- `DUPECHECK_DB_SIZE`
abbrev pub db_size : ℕ
db_size = 8192

-- `DTYPE_MAX`
abbrev pub dtype_max : ℕ
dtype_max = 8

-- The hash bits folded to a bucket.
unfoldable pub bucket : ℕ → ℕ
bucket hash = let idx = bit_xor hash (hash / 2 ^ 13) in bit_xor idx (idx / 2 ^ 26) % db_size

-- A cell from the free chain, or else from the arena.
abbrev pub dupecheck_db_alloc : Db → Option Db
dupecheck_db_alloc db =
    if ltb 0 db.free
    then some (record db { free = db.free - 1; cellgauge = db.cellgauge + 1 })
    else if ltb 0 db.fresh
    then some (record db { fresh = db.fresh - 1; cellgauge = db.cellgauge + 1 })
    else none

abbrev pub dupecheck_db_free : Db → Db
dupecheck_db_free db = record db { free = db.free + 1; cellgauge = db.cellgauge - 1 }

abbrev pub new_record : ℕ → ℕ → ℕ → Bytes → DupeRecord
new_record tick hash dtype packet = record { hash = hash; t = tick; dtype = dtype; packet = packet }

-- A record at the tail of chain `i`, if there is a cell; `none` is the -1 of the source.
unfoldable pub dupecheck_append : ℕ → DupeRecord → Db → Option Db
dupecheck_append i r db = elim (dupecheck_db_alloc db) [
  | none ↦ none
  | some db' ↦ some (record db' { buckets = update db'.buckets i (db'.buckets i ++ r ∷ []) })
]

-- `dp->hash == hash`, the length and the bytes
abbrev pub is_packet : ℕ → Bytes → DupeRecord → Bool
is_packet hash s r = r.hash == hash && (length r.packet == length s && same_bytes s r.packet)

-- The chain with the first record of `s` stamped `tick`, if it has one.
pub touch : ℕ → ℕ → Bytes → List DupeRecord → Option (List DupeRecord)
touch tick hash s [] = none
touch tick hash s (r ∷ chain) =
    let rest = touch tick hash s chain in
    if is_packet hash s r
    then some (record r { t = tick } ∷ chain)
    else elim rest [ none ↦ none | some chain' ↦ some (r ∷ chain') ]

-- Its callers do not look at the -1 of a failed allocation, which leaves the table alone.
pub dupecheck_add_buf : ℕ → ℕ → Bytes → Db → Db
unfolding dupecheck_append bucket
dupecheck_add_buf tick dtype s db =
    let hash = keyhash s 0 in
    let i = bucket hash in
    elim (touch tick hash s (db.buckets i)) [
      | some chain ↦ record db { buckets = update db.buckets i chain }
      | none ↦ elim (dupecheck_append i (new_record tick hash dtype s) db) [
        | none ↦ db
        | some db' ↦ db'
      ]
    ]

pub add_forms : ℕ → List Form → Db → Db
add_forms tick [] db = db
add_forms tick ((dtype, s) ∷ forms) db = add_forms tick forms (dupecheck_add_buf tick dtype s db)

pub dupecheck_mangle_store : ℕ → Bytes → Bytes → Db → Db
unfolding add_forms variants
dupecheck_mangle_store tick addr payload db = add_forms tick (variants (addr ++ payload)) db

pub data Verdict : Type 0 where
  -- 0, F_DUPE and -1 of the source
  unseen duplicate no_cell : Verdict

-- A record of this packet that is not too old. `memcmp` reads the two parts apart.
abbrev pub is_recent : ℕ → ℕ → ℕ → Bytes → Bytes → DupeRecord → Bool
is_recent storetime tick hash addr payload r =
    r.hash == hash
    && (leb tick (r.t + storetime)
        && (length r.packet == length addr + length payload
            && (same_bytes addr (take (length addr) r.packet)
                && same_bytes payload (drop (length addr) r.packet))))

abbrev pub packet_hash : Bytes → Bytes → ℕ
packet_hash addr payload = keyhash payload (keyhash addr 0)

-- `dupecheck_dupetypes[dp->dtype]++` behind its bounds test
abbrev pub count_dtype : ℕ → Db → Db
count_dtype dtype db =
    if ltb dtype dtype_max
    then record db { dupetypes = update db.dupetypes dtype (db.dupetypes dtype + 1) }
    else db

-- `dupecheck` from the two parts of the packet on.
unfoldable pub dupecheck_parts : ℕ → ℕ → Bytes → Bytes → Db → Verdict × Db
unfolding dupecheck_append dupecheck_mangle_store
dupecheck_parts storetime tick addr payload db =
    let hash = packet_hash addr payload in
    let i = bucket hash in
    elim (find? (is_recent storetime tick hash addr payload) (db.buckets i)) [
      | some r ↦ (duplicate, count_dtype r.dtype db)
      | none ↦ elim (dupecheck_append i (new_record tick hash 0 (addr ++ payload)) db) [
        | none ↦ (no_cell, db)
        | some db' ↦ (unseen, dupecheck_mangle_store tick addr payload db')
      ]
    ]

-- The part up to the destination's SSID, and the information field without its CRLF.
abbrev pub address_of : Pbuf → Bytes
address_of pb = take pb.dstcall_end_or_ssid pb.bytes

abbrev pub payload_of : Pbuf → Bytes
payload_of pb = take (pb.packet_len - pb.info_start - 2) (drop pb.info_start pb.bytes)

-- A duplicate gets its flag and, from the filter module's `postprocess`, a position.
unfoldable pub judged : (Pbuf → Pbuf) → Pbuf → Verdict × Db → Verdict × Pbuf × Db
judged postprocess pb (unseen, db) = (unseen, pb, db)
judged postprocess pb (no_cell, db) = (no_cell, pb, db)
judged postprocess pb (duplicate, db) = (duplicate, postprocess (record pb { dupe = true }), db)

unfoldable pub dupecheck : (Pbuf → Pbuf) → ℕ → ℕ → Pbuf → Db → Verdict × Pbuf × Db
unfolding judged
dupecheck postprocess storetime tick pb db =
    judged postprocess pb (dupecheck_parts storetime tick (address_of pb) (payload_of pb) db)

-- Too old, or too far in the future.
abbrev pub is_stale : ℕ → ℕ → DupeRecord → Bool
is_stale storetime tick r = ltb (r.t + storetime) tick || ltb (tick + storetime) r.t

pub sweep_chain : ℕ → ℕ → List DupeRecord → Db → List DupeRecord × Db
sweep_chain storetime tick [] db = ([], db)
sweep_chain storetime tick (r ∷ chain) db =
    let stale = is_stale storetime tick r in
    let (kept, db') =
      sweep_chain storetime tick chain (if stale then dupecheck_db_free db else db) in
    (if stale then kept else r ∷ kept, db')

pub sweep_bucket : ℕ → ℕ → ℕ → Db → Db
sweep_bucket storetime tick i db =
    let (kept, db') = sweep_chain storetime tick (db.buckets i) db in
    record db' { buckets = update db'.buckets i kept }

-- `left` buckets from number `i` on.
pub sweep_buckets : ℕ → ℕ → ℕ → ℕ → Db → Db
sweep_buckets storetime tick zero i db = db
sweep_buckets storetime tick (suc left) i db =
    sweep_buckets storetime tick left (suc i) (sweep_bucket storetime tick i db)

pub dupecheck_cleanup : ℕ → ℕ → Db → Db
dupecheck_cleanup storetime tick db = sweep_buckets storetime tick db_size 0 db

-- What the dupecheck thread does to the table, each at its clock.
pub data Event : Type 0 where
  check : ℕ → Bytes → Bytes → Event
  clean : ℕ → Event

abbrev pub clock : Event → ℕ
clock (check tick addr payload) = tick
clock (clean tick) = tick

pub apply : ℕ → Event → Db → Db
apply storetime (check tick addr payload) db = (dupecheck_parts storetime tick addr payload db).1
apply storetime (clean tick) db = dupecheck_cleanup storetime tick db

unfoldable pub run : ℕ → List Event → Db → Db
run storetime [] db = db
run storetime (e ∷ events) db = run storetime events (apply storetime e db)
