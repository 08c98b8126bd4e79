-- ===== src/Tests/Peers.antt =====
-- A worker of src/outgoing.c with a dupe feed, an uplink and a client with a filter.
use aprsc.Prelude.{◌≡◌, ◌↔◌, ◌⊎◌, refl, arith, Bool, true, false, List, [], ◌∷◌, some}
use aprsc.Prelude.Int.{pos}
use aprsc.Packet.{Pbuf}
use aprsc.Dupecheck.Lag.{pbuf_seqnum_lag}
use aprsc.Outgoing.{
  Peer, Effect, Worker, Queued, aborted, ran, packet_of, process_outgoing_single, process_outgoing,
}
use aprsc.Outgoing.Sends.{Sends}
use aprsc.Outgoing.Receivers.{IsReceiver, outgoing_receivers_exact}
use aprsc.Outgoing.Progress.{HasFreed, outgoing_aborts_exact, outgoing_catches_up}
use aprsc.Tests.Purge.{packet}
use aprsc.Tests.Q.{igate}

abbrev dupe_client : Peer
dupe_client = record { id = 1; client = igate }

abbrev uplink : Peer
uplink = record { id = 2; client = igate }

abbrev filtered : Peer
filtered = record { id = 3; client = igate }

abbrev worker : Worker
worker = record {
  clients = dupe_client ∷ uplink ∷ filtered ∷ [];
  clients_dupe = dupe_client ∷ [];
  clients_ups = uplink ∷ [];
  clients_other = filtered ∷ [];
  last_pbuf_seqnum = 6;
  last_pbuf_dupe_seqnum = 3;
  internal_packet_drops = 0;
}

abbrev filter_all : Peer → Pbuf → Bool
filter_all c pb = true

abbrev from_uplink : Pbuf
from_uplink = record (packet 7 100) { origin = some 2; from_upstr = true }

outgoing_receivers_exact_example :
    Sends 3 (packet_of from_uplink) (process_outgoing_single filter_all worker from_uplink)
    ↔ IsReceiver filter_all worker from_uplink 3 (packet_of from_uplink)
outgoing_receivers_exact_example =
    outgoing_receivers_exact filter_all worker from_uplink 3 (packet_of from_uplink)

abbrev queue : List Queued
queue = record { packet = from_uplink; is_free = false } ∷ []

abbrev dupes : List Queued
dupes = record { packet = record (packet 4 100) { dupe = true }; is_free = true } ∷ []

outgoing_aborts_exact_example :
    (process_outgoing filter_all 101 queue dupes worker ≡ aborted)
    ↔ (HasFreed queue ⊎ HasFreed dupes)
outgoing_aborts_exact_example = outgoing_aborts_exact filter_all 101 queue dupes worker

outgoing_catches_up_example :
    (w' : Worker) × (es : List Effect) × (process_outgoing filter_all 101 queue [] worker
      ≡ ran w' es)
    × (pbuf_seqnum_lag 7 w'.last_pbuf_seqnum ≡ pos 0)
    × (pbuf_seqnum_lag 3 w'.last_pbuf_dupe_seqnum ≡ pos 0)
outgoing_catches_up_example =
    outgoing_catches_up filter_all 101 queue [] worker 7 3 (refl, tt) tt (refl, refl) refl
      (λ e. absurd (omega arith)) (λ e. absurd (omega arith))
