-- ===== src/Dupecheck/Records.antt =====
-- About the tests of src/dupecheck.c on a record.
use aprsc.Prelude.{
  ℕ, ◌+◌, ◌≤◌, ◌≡◌, ◌∙◌, refl, sym, ap₂, arith, true, ◌&&◌, ◌++◌, Bytes, same_bytes, same_bytes_iff,
  length, length-append, take, drop, take-append, take-append-drop, drop-append, Any,
}
use aprsc.Dupecheck.{DupeRecord, Db, bucket, is_packet, is_recent}

-- The record holds these bytes under this hash, stamped between two times.
pub record Stamped (hash : ℕ) (packet : Bytes) (lo hi : ℕ) (r : DupeRecord) : Type 0 where
  pub hash_is : r.hash ≡ hash
  pub packet_is : r.packet ≡ packet
  pub after : lo ≤ r.t
  pub before : r.t ≤ hi

-- Some record in the bucket of the hash does.
abbrev pub Recorded : ℕ → Bytes → ℕ → ℕ → Db → Type 0
Recorded hash packet lo hi db = Any (Stamped hash packet lo hi) (db.buckets (bucket hash))

same_parts :
    (addr payload packet : Bytes)
    → (same_bytes addr (take (length addr) packet)
        && same_bytes payload (drop (length addr) packet))
      ≡ true
    → packet ≡ addr ++ payload
same_parts addr payload packet h =
    sym (take-append-drop (length addr) packet)
    ∙ ap₂ ◌++◌ (sym ((same_bytes_iff addr (take (length addr) packet)).0 (ground arith)))
        (sym ((same_bytes_iff payload (drop (length addr) packet)).0 (ground arith)))

pub is_recent_sound :
    (storetime tick hash : ℕ) (addr payload : Bytes) (r : DupeRecord)
    → is_recent storetime tick hash addr payload r ≡ true
    → (r.hash ≡ hash) × (tick ≤ r.t + storetime) × (r.packet ≡ addr ++ payload)
is_recent_sound storetime tick hash addr payload r h =
    (ground arith, ground arith, same_parts addr payload r.packet (ground arith))

pub is_recent_complete :
    (storetime tick hash : ℕ) (addr payload : Bytes) (lo hi : ℕ) (r : DupeRecord)
    → tick ≤ lo + storetime
    → Stamped hash (addr ++ payload) lo hi r
    → is_recent storetime tick hash addr payload r ≡ true
is_recent_complete storetime tick hash addr payload lo hi r within s =
    rw
      (
        s.hash_is,
        s.packet_is,
        length-append,
        take-append,
        drop-append,
        (same_bytes_iff addr addr).1 refl,
        (same_bytes_iff payload payload).1 refl,
      )
      (ground (arith, s.after))

pub is_packet_sound :
    (hash : ℕ) (s : Bytes) (r : DupeRecord)
    → is_packet hash s r ≡ true
    → (r.hash ≡ hash) × (r.packet ≡ s)
is_packet_sound hash s r h = (ground arith, sym ((same_bytes_iff s r.packet).0 (ground arith)))
