-- ===== src/Historydb.antt =====
-- src/historydb.c: the last position of each station, object and item. A bucket is the list of its
-- chain; the lock makes each operation one step. `tick` is the time of the clock and `storetime` is
-- `lastposition_storetime`; a comparison with `tick - storetime` is written as one of sums, since a
-- `time_t` is signed. What `memcpy` reads is cut off at the end of the packet's bytes.
pub mod Chain
pub mod Gauge
pub mod Refines
use aprsc.Prelude.{
  ℕ, zero, suc, ◌+◌, ◌-◌, ◌/◌, ◌%◌, ◌^◌, bit_xor, Bool, true, false, not, ◌&&◌, Option, none, some,
  List, [], ◌∷◌, ◌++◌, ltb, ◌==◌, if◌then◌else◌, Bytes, take, drop, same_bytes, memchr, update,
  find?,
}
use aprsc.Prelude.Int.{ℤ, pos, negsuc}
use aprsc.Packet.{Pbuf}
use aprsc.Keyhash.{keyhash}

-- What a cell says of its station: the fields that are copied from a packet.
pub record Report : Type 0 where
  pub arrivaltime : ℕ
  pub lat : ℕ
  pub coslat : ℕ
  pub lon : ℕ
  -- the bits of `packettype` and `flags`
  pub position : Bool
  pub object : Bool
  pub item : Bool
  pub dupe : Bool
  pub has_pos : Bool
  pub from_upstr : Bool
  pub from_downstr : Bool

-- `history_cell_t`; `keylen` is the length of `key`.
pub record Cell : Type 0 where
  pub key : Bytes
  pub hash1 : ℕ
  pub report : Report

-- The table `historydb_hash` and the counters of the file.
pub record Historydb : Type 0 where
  pub hash : ℕ → List Cell
  pub inserts : ℕ
  pub lookups : ℕ
  pub hashmatches : ℕ
  pub keymatches : ℕ
  pub cellgauge : ℕ
  pub noposcount : ℕ
  pub cleanup_cleaned : ℕ

-- `HISTORYDB_HASH_MODULO`
abbrev pub hash_modulo : ℕ
hash_modulo = 8192

-- `CALLSIGNLEN_MAX`
abbrev callsignlen_max : ℕ
callsignlen_max = 9

unfoldable pub fold_hash : ℕ → ℕ
fold_hash h1 = bit_xor (bit_xor h1 (h1 / 2 ^ 13)) (h1 / 2 ^ 26) % hash_modulo

unfoldable pub slot_of : Bytes → ℕ
slot_of key = fold_hash (keyhash key 0)

-- `cp->arrivaltime < expirytime`
abbrev pub is_outdated : ℕ → ℕ → Cell → Bool
is_outdated tick storetime cp = ltb (cp.report.arrivaltime + storetime) tick

abbrev pub report_of : Pbuf → Report
report_of pb = record {
  arrivaltime = pb.t;
  lat = pb.lat;
  coslat = pb.cos_lat;
  lon = pb.lng;
  position = pb.position;
  object = pb.object;
  item = pb.item;
  dupe = pb.dupe;
  has_pos = pb.has_pos;
  from_upstr = pb.from_upstr;
  from_downstr = pb.from_downstr;
}

-- The text in front of the first `c`: `strchr`, and a NUL written where it points.
unfoldable pub cut_at : ℕ → Bytes → Option Bytes
cut_at c s = elim (memchr c s) [ none ↦ none | some i ↦ some (take i s) ]

-- The C string that a buffer begins with.
unfoldable pub c_string : Bytes → Bytes
unfolding cut_at
c_string buf = elim (cut_at 0 buf) [ none ↦ buf | some s ↦ s ]

-- The name of an object or item that lives up to `live`, or is killed at '_'. The loop that follows
-- for an object begins at the terminating NUL, which is no space, and stops there.
unfoldable pub named_until : ℕ → Bytes → Bytes × Bool
unfolding cut_at
named_until live s = elim (cut_at live s) [
  | some name ↦ (name, false)
  | none ↦ elim (cut_at b'_' s) [ some name ↦ (name, true) | none ↦ (s, false) ]
]

-- The key of a packet, and whether it kills what goes by that key.
unfoldable pub key_of : Pbuf → Option (Bytes × Bool)
unfolding named_until c_string cut_at
key_of pb =
    let name = c_string (take (callsignlen_max + 1) (drop (pb.info_start + 1) pb.bytes)) in
    let call = c_string (take callsignlen_max pb.bytes) in
    if pb.object
    then some (named_until b'*' name)
    else if pb.item
    then some (named_until b'!' name)
    else if pb.position
    then some (elim (cut_at b'>' call) [ some s ↦ (s, false) | none ↦ (call, false) ])
    else none

-- What the scan of one chain leaves, and what it counted.
pub record Scan : Type 0 where
  pub chain : List Cell
  pub updated : Bool
  pub freed : ℕ
  pub hashes : ℕ
  pub keys : ℕ

-- `cp->hash1 == h1`, and then the comparison of the keys
abbrev pub is_hash : ℕ → Cell → Bool
is_hash h1 cp = cp.hash1 == h1

abbrev pub is_key : Bytes → Cell → Bool
is_key key cp = is_hash (keyhash key 0) cp && same_bytes cp.key key

-- The loop over the chain: it drops what is too old, and removes or updates what has the key.
unfoldable pub scan : ℕ → ℕ → Bytes → Bool → Report → List Cell → Scan
scan tick storetime key isdead new [] = record {
  chain = [];
  updated = false;
  freed = 0;
  hashes = 0;
  keys = 0;
}
scan tick storetime key isdead new (cp ∷ rest) =
    let r = scan tick storetime key isdead new rest in
    let hashed : Scan = record r { hashes = r.hashes + 1 } in
    let matched : Scan = record hashed { keys = r.keys + 1 } in
    if is_outdated tick storetime cp
    then record r { freed = r.freed + 1 }
    else if is_key key cp
    then if isdead
      then record matched { freed = r.freed + 1 }
      else record matched { chain = record cp { report = new } ∷ r.chain; updated = true }
    else if is_hash (keyhash key 0) cp
    then record hashed { chain = cp ∷ r.chain }
    else record r { chain = cp ∷ r.chain }

abbrev pub new_cell : Bytes → Report → Cell
new_cell key new = record { key = key; hash1 = keyhash key 0; report = new }

-- The cell that is appended, when `cellmalloc` has `room` for one.
unfoldable pub append_new : Bool → Bool → Bytes → Bool → Report → List Cell
append_new room updated key isdead new =
    if not updated && not isdead && room then new_cell key new ∷ [] else []

-- The chain of the key, after the scan and what is appended.
unfoldable pub put_chain : Bool → ℕ → ℕ → Bytes → Bool → Report → List Cell → List Cell
unfolding scan append_new
put_chain room tick storetime key isdead new chain =
    let r = scan tick storetime key isdead new chain in
    r.chain ++ append_new room r.updated key isdead new

unfoldable pub historydb_put : Bool → ℕ → ℕ → Bytes → Bool → Report → Historydb → Historydb
unfolding put_chain
historydb_put room tick storetime key isdead new db =
    let i = slot_of key in
    let r = scan tick storetime key isdead new (db.hash i) in
    record db {
      hash = update db.hash i (put_chain room tick storetime key isdead new (db.hash i));
      inserts = db.inserts + 1;
      hashmatches = db.hashmatches + r.hashes;
      keymatches = db.keymatches + r.keys;
      cellgauge = db.cellgauge + (if not r.updated && not isdead then 1 else 0) - r.freed;
    }

unfoldable pub insert_as : Bool → ℕ → ℕ → Report → Historydb → Option (Bytes × Bool) → ℤ × Historydb
insert_as room tick storetime new db none = (negsuc 0, db)
insert_as room tick storetime new db (some (key, isdead)) =
    (pos 1, historydb_put room tick storetime key isdead new db)

-- `room` says whether `cellmalloc` returns a cell.
unfoldable pub historydb_insert : Bool → ℕ → ℕ → Pbuf → Historydb → ℤ × Historydb
unfolding insert_as
historydb_insert room tick storetime pb db =
    if not pb.has_pos
    then (negsuc 0, record db { noposcount = db.noposcount + 1 })
    else insert_as room tick storetime (report_of pb) db (key_of pb)

-- Five minutes shorter than the expiry: `cp->arrivaltime > tick - storetime + 5*60`.
abbrev pub is_valid : ℕ → ℕ → Cell → Bool
is_valid tick storetime cp = ltb (tick + 300) (cp.report.arrivaltime + storetime)

abbrev pub is_answer : ℕ → ℕ → Bytes → Cell → Bool
is_answer tick storetime key cp = is_key key cp && is_valid tick storetime cp

-- What the look-up points its result at.
unfoldable pub lookup_cell : ℕ → ℕ → Bytes → Historydb → Option Cell
lookup_cell tick storetime key db = find? (is_answer tick storetime key) (db.hash (slot_of key))

unfoldable pub historydb_lookup : ℕ → ℕ → Bytes → Historydb → Option Cell × Historydb
unfolding lookup_cell
historydb_lookup tick storetime key db =
    (lookup_cell tick storetime key db, record db { lookups = db.lookups + 1 })

-- The loop over one chain in `historydb_cleanup`: what stays, and how many cells were freed.
unfoldable pub clean_chain : ℕ → ℕ → List Cell → List Cell × ℕ
clean_chain tick storetime [] = ([], 0)
clean_chain tick storetime (cp ∷ rest) =
    let r = clean_chain tick storetime rest in
    if is_outdated tick storetime cp then (r.0, r.1 + 1) else (cp ∷ r.0, r.1)

-- The first `n` buckets cleaned, and how many cells that freed.
unfoldable pub clean_buckets : ℕ → ℕ → ℕ → (ℕ → List Cell) → (ℕ → List Cell) × ℕ
unfolding clean_chain
clean_buckets tick storetime zero hash = (hash, 0)
clean_buckets tick storetime (suc n) hash =
    let r = clean_buckets tick storetime n hash in
    let c = clean_chain tick storetime (r.0 n) in (update r.0 n c.0, r.1 + c.1)

unfoldable pub historydb_cleanup : ℕ → ℕ → Historydb → Historydb
unfolding clean_buckets
historydb_cleanup tick storetime db =
    let r = clean_buckets tick storetime hash_modulo db.hash in
    record db { hash = r.0; cellgauge = db.cellgauge - r.1; cleanup_cleaned = r.1 }

-- An entry of the file that is loaded at startup, as cJSON reads it; the cosine is that of `cosf`.
pub record Loaded : Type 0 where
  pub name : Bytes
  pub saved : Report

-- No entry stands for text that is not JSON (-1) or lacks a field or has one of the wrong type (0).
pub data Parsed : Type 0 where
  not_json incomplete : Parsed
  entry : Loaded → Parsed

unfoldable pub historydb_load_entry : Bool → ℕ → ℕ → Parsed → Historydb → ℤ × Historydb
historydb_load_entry room tick storetime not_json db = (negsuc 0, db)
historydb_load_entry room tick storetime incomplete db = (pos 0, db)
historydb_load_entry room tick storetime (entry e) db =
    let cp = new_cell e.name e.saved in
    let i = slot_of e.name in
    let gauged : Historydb = record db { cellgauge = db.cellgauge + 1 } in
    if is_outdated tick storetime cp
    then (pos 0, db)
    else if room
    then (pos 1, record gauged { hash = update db.hash i (cp ∷ db.hash i) })
    else (pos 0, gauged)
