-- ===== src/ClientHeard.antt =====
-- src/client_heard.c: the stations that a client has heard, or is to be sent a courtesy position
-- of. A bucket is the list of its chain; `cells` counts what the arena can still give.
pub mod Found
use aprsc.Prelude.{
  ℕ, zero, suc, ◌+◌, ◌-◌, ◌/◌, ◌%◌, ◌^◌, bit_xor, Bool, true, false, not, ◌&&◌, ◌||◌, Option, none,
  some, List, [], ◌∷◌, ltb, leb, ◌==◌, if◌then◌else◌, Bytes, length, take, drop, same_nocase,
  update, keep,
}
use aprsc.Keyhash.{keyhashuc}
use aprsc.Packet.{Pbuf}

-- `client_heard_t`; its `call_len` is the length of `callsign`.
pub record Heard : Type 0 where
  pub hash : ℕ
  pub last_heard : ℕ
  pub callsign : Bytes

pub record HeardList : Type 0 where
  pub buckets : ℕ → List Heard
  pub entrycount : ℕ
  pub cells : ℕ

-- `MAX_HEARD_PER_CLIENT`, `CLIENT_HEARD_BUCKETS`
abbrev pub max_heard_per_client : ℕ
max_heard_per_client = 2000

abbrev pub client_heard_buckets : ℕ
client_heard_buckets = 32

unfoldable pub heard_bucket : ℕ → ℕ
heard_bucket hash = bit_xor hash (hash / 2 ^ 16) % client_heard_buckets

abbrev pub is_call : ℕ → Bytes → Heard → Bool
is_call hash call h =
    h.hash == hash && (length call == length h.callsign && same_nocase call h.callsign)

-- The first entry of the call, and the chain without it.
unfoldable pub take_out : ℕ → Bytes → List Heard → Option (Heard × List Heard)
take_out hash call [] = none
take_out hash call (h ∷ chain) =
    let rest = take_out hash call chain in
    if is_call hash call h
    then some (h, chain)
    else elim rest [ none ↦ none | some found ↦ some (found.0, h ∷ found.1) ]

-- A known entry is stamped and moved to the front; a new one is put there, if there is room.
unfoldable pub heard_list_update : Bytes → ℕ → HeardList → HeardList
heard_list_update call t l =
    let hash = keyhashuc call 0 in
    let i = heard_bucket hash in
    elim (take_out hash call (l.buckets i)) [
      | some found ↦ record l {
        buckets = update l.buckets i (record (found.0) { last_heard = t } ∷ found.1);
      }
      | none ↦
          if leb max_heard_per_client l.entrycount then l else if l.cells == 0 then l else record {
            buckets =
                update l.buckets i
                  (record { hash = hash; last_heard = t; callsign = call } ∷ l.buckets i);
            entrycount = l.entrycount + 1;
            cells = l.cells - 1;
          }
    ]

-- The source callsign of a packet, with the time that it came in.
unfoldable pub client_heard_update : Pbuf → HeardList → HeardList
client_heard_update pb l = heard_list_update (take pb.srccall_end pb.bytes) pb.t l

-- Is the call on the list; it is taken off if it is asked to.
unfoldable pub heard_find : Bytes → ℕ → Bool → HeardList → Bool × HeardList
heard_find call hash drop_if_found l = elim (take_out hash call (l.buckets (heard_bucket hash))) [
  | none ↦ (false, l)
  | some found ↦ (
    true,
    if drop_if_found
        then record {
          buckets = update l.buckets (heard_bucket hash) found.1;
          entrycount = l.entrycount - 1;
          cells = l.cells + 1;
        }
        else l,
  )
]

unfoldable pub client_heard_check : Bytes → ℕ → HeardList → Bool
client_heard_check call hash l = (heard_find call hash false l).0

-- `srcname` with its hash, which the parser has put in the packet.
unfoldable pub client_courtesy_needed : Pbuf → ℕ → HeardList → Bool × HeardList
client_courtesy_needed pb srcname_hash l =
    heard_find (take pb.srcname_len (drop pb.srcname pb.bytes)) srcname_hash true l

-- Not heard for the storage time, or in the future.
abbrev pub is_expired : ℕ → ℕ → Heard → Bool
is_expired storetime tick h = ltb (h.last_heard + storetime) tick || ltb tick h.last_heard

unfoldable pub expire_bucket : ℕ → ℕ → ℕ → HeardList → HeardList
expire_bucket storetime tick i l =
    let kept = keep (λ h. not (is_expired storetime tick h)) (l.buckets i) in
    let gone = length (l.buckets i) - length kept in
    record {
      buckets = update l.buckets i kept;
      entrycount = l.entrycount - gone;
      cells = l.cells + gone;
    }

-- `left` buckets from number `i` on.
unfoldable pub heard_expire_single : ℕ → ℕ → ℕ → ℕ → HeardList → HeardList
heard_expire_single storetime tick zero i l = l
heard_expire_single storetime tick (suc left) i l =
    heard_expire_single storetime tick left (suc i) (expire_bucket storetime tick i l)

unfoldable pub client_heard_expire : ℕ → ℕ → HeardList → HeardList
client_heard_expire storetime tick l = heard_expire_single storetime tick client_heard_buckets 0 l
