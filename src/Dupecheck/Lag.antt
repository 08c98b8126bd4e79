-- ===== src/Dupecheck/Lag.antt =====
-- src/dupecheck.c: sequence numbers, how far the workers lag behind, and the purge of the global
-- packet queues. A queue is the list of its chain, beside the counter that the source keeps.
pub mod Purge
pub mod Ahead
use aprsc.Prelude.{
  ℕ, ◌+◌, ◌-◌, ◌%◌, ◌^◌, Bool, List, [], ◌∷◌, ◌++◌, ltb, leb, ◌==◌, if◌then◌else◌, length,
}
use aprsc.Prelude.Int.{ℤ, pos, negsuc, leb_ℤ, ltb_ℤ, signed32}
use aprsc.Packet.{Pbuf}

-- What stands for a worker with no data.
abbrev no_data : ℤ
no_data = pos 2000000000

unfoldable pub pbuf_seqnum_lag : ℕ → ℕ → ℤ
pbuf_seqnum_lag seqnum pbuf_seq =
    if pbuf_seq == 0 then no_data else signed32 ((seqnum + 2 ^ 32 - pbuf_seq) % 2 ^ 32)

-- `if (c > worker_pbuf_lag) worker_pbuf_lag = c;`
unfoldable pub higher : ℤ → ℤ → ℤ
higher highest c = if ltb_ℤ highest c then c else highest

-- The highest lag of the workers, from their last sequence numbers; -1 if there is none.
unfoldable pub worker_lag : ℕ → ℤ → List ℕ → ℤ
worker_lag seqnum highest [] = highest
worker_lag seqnum highest (last ∷ workers) =
    worker_lag seqnum (higher highest (pbuf_seqnum_lag seqnum last)) workers

-- What one queue is purged by: `pbuf_global_expiration`, `pbuf_global_count_limit` and so on.
pub record Limits : Type 0 where
  pub all : Bool
  pub tick : ℕ
  pub expiration : ℕ
  pub count_limit : ℕ
  pub seqnum : ℕ
  pub lag : ℤ

-- With `all` the limit is 0 and everything up to ten seconds from now goes.
abbrev pub limit : Limits → ℕ
limit l = if l.all then 0 else l.count_limit

abbrev pub is_newer : Limits → Pbuf → Bool
is_newer l pb = if l.all then leb (l.tick + 10) pb.t else leb l.tick (pb.t + l.expiration)

-- Some worker still has this packet before it.
abbrev pub is_awaited : Limits → Pbuf → Bool
is_awaited l pb = leb_ℤ (pbuf_seqnum_lag l.seqnum pb.seqnum) l.lag

-- The batches handed to `pbuf_free_many`, and what stays.
pub record Purged : Type 0 where
  pub batches : List (List Pbuf)
  pub queue : List Pbuf
  pub count : ℕ

abbrev pub batch_size : ℕ
batch_size = 2000

unfoldable flush : List Pbuf → List (List Pbuf)
flush [] = []
flush (pb ∷ freeset) = (pb ∷ freeset) ∷ []

unfoldable pub purge_loop : Limits → List Pbuf → List Pbuf → ℕ → Purged
unfolding flush
purge_loop l freeset [] count = record { batches = flush freeset; queue = []; count = count }
purge_loop l freeset (pb ∷ queue) count =
    let stop : Purged = record { batches = flush freeset; queue = pb ∷ queue; count = count } in
    let freed = freeset ++ pb ∷ [] in
    let full = leb batch_size (length freed) in
    let rest = purge_loop l (if full then [] else freed) queue (count - 1) in
    if ltb (limit l) count
    then (if is_newer l pb
        then stop
        else if is_awaited l pb
        then stop
        else record rest { batches = if full then freed ∷ rest.batches else rest.batches })
    else stop

-- One half of `global_pbuf_purger`; the other is the same over the queue of duplicates.
unfoldable pub global_pbuf_purger : Limits → List Pbuf → ℕ → Purged
unfolding purge_loop
global_pbuf_purger l queue count = purge_loop l [] queue count
