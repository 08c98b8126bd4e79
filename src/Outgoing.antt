-- ===== src/Outgoing.antt =====
-- src/outgoing.c: what a worker sends of the global queues. A client stands in the worker's lists with
-- the number that a packet's `origin` is compared with; what a worker does is the list of its
-- effects, and a write that destroys a client leaves the lists of the loops as they are.
pub mod Progress
pub mod Receivers
pub mod Sends
use aprsc.Prelude.{
  ℕ, ◌+◌, Bool, true, false, not, ◌&&◌, Option, none, some, List, [], ◌∷◌, ◌++◌, ltb, ◌==◌,
  if◌then◌else◌, Bytes, codes, take,
}
use aprsc.Packet.{Pbuf}
use aprsc.Client.{Client}

pub record Peer : Type 0 where
  pub id : ℕ
  pub client : Client

pub data Effect : Type 0 where
  -- `send_single`, the duplicate counted for its sender, `status_error`
  send : ℕ → Bytes → Effect
  count_dupe : ℕ → Effect
  status_error : Effect

-- `worker_t`: its clients by class, and how far it has come.
pub record Worker : Type 0 where
  pub clients : List Peer
  pub clients_dupe : List Peer
  pub clients_ups : List Peer
  pub clients_other : List Peer
  pub last_pbuf_seqnum : ℕ
  pub last_pbuf_dupe_seqnum : ℕ
  pub internal_packet_drops : ℕ

abbrev pub is_origin : Option ℕ → Peer → Bool
is_origin none c = false
is_origin (some i) c = c.id == i

abbrev pub packet_of : Pbuf → Bytes
packet_of pb = take pb.packet_len pb.bytes

unfoldable pub send_all : Bytes → List Peer → List Effect
send_all content [] = []
send_all content (c ∷ cs) = send c.id content ∷ send_all content cs

-- The first client that sent the duplicate, if it is here.
unfoldable pub count_sender : Option ℕ → List Peer → List Effect
count_sender origin [] = []
count_sender origin (c ∷ cs) =
    if is_origin origin c then count_dupe c.id ∷ [] else count_sender origin cs

unfoldable pub send_ups : Option ℕ → Bytes → List Peer → List Effect
send_ups origin content [] = []
send_ups origin content (c ∷ cs) =
    let rest = send_ups origin content cs in
    if not (is_origin origin c) then send c.id content ∷ rest else rest

-- `filter` tells whether `filter_process` returns 1 or more.
unfoldable pub send_others : (Peer → Pbuf → Bool) → Pbuf → List Peer → List Effect
send_others filter pb [] = []
send_others filter pb (c ∷ cs) =
    let rest = send_others filter pb cs in
    if not c.client.fullfeed && not (filter c pb)
    then rest
    else if is_origin pb.origin c
    then rest
    else if c.client.no_tx
    then rest
    else send c.id (packet_of pb) ∷ rest

unfoldable pub process_outgoing_single : (Peer → Pbuf → Bool) → Worker → Pbuf → List Effect
unfolding send_all count_sender send_ups send_others
process_outgoing_single filter w pb =
    if pb.dupe
    then send_all (codes "dup\t" ++ packet_of pb) w.clients_dupe ++ count_sender pb.origin w.clients
    else ((if pb.from_downstr then send_ups pb.origin (packet_of pb) w.clients_ups else [])
        ++ send_others filter pb w.clients_other)

-- A packet of a global queue, and its `is_free`.
pub record Queued : Type 0 where
  pub packet : Pbuf
  pub is_free : Bool

-- The state and the effects, unless the server aborts.
pub data LoopResult : Type 0 where
  aborted : LoopResult
  ran : Worker → List Effect → LoopResult

pub data Age : Type 0 where
  from_future too_old timely : Age

-- `pb->t > tick + 2`, `tick - pb->t > 5`
unfoldable pub age_of : ℕ → Pbuf → Age
age_of tick pb =
    if ltb (tick + 2) pb.t then from_future else if ltb (pb.t + 5) tick then too_old else timely

-- A packet of the main queue that is dropped is counted.
unfoldable pub count_drop : Worker → Worker × List Effect
count_drop w =
    let drops = w.internal_packet_drops + 1 in
    (record w { internal_packet_drops = drops }, if ltb 10 drops then status_error ∷ [] else [])

unfoldable pub take_packet : (Peer → Pbuf → Bool) → Pbuf → Worker → Age → Worker × List Effect
unfolding process_outgoing_single count_drop
take_packet filter pb w from_future = count_drop w
take_packet filter pb w too_old = count_drop w
take_packet filter pb w timely = (w, process_outgoing_single filter w pb)

unfoldable pub take_dupe : (Peer → Pbuf → Bool) → Pbuf → Worker → Age → Worker × List Effect
unfolding process_outgoing_single
take_dupe filter pb w from_future = (w, [])
take_dupe filter pb w too_old = (w, [])
take_dupe filter pb w timely = (w, process_outgoing_single filter w pb)

abbrev pub with_effects : List Effect → LoopResult → LoopResult
with_effects es aborted = aborted
with_effects es (ran w more) = ran w (es ++ more)

-- The loop over what the worker has not seen of the main queue.
unfoldable pub main_loop : (Peer → Pbuf → Bool) → ℕ → List Queued → Worker → LoopResult
unfolding take_packet age_of
main_loop filter tick [] w = ran w []
main_loop filter tick (q ∷ queue) w =
    let (w', es) = take_packet filter q.packet w (age_of tick q.packet) in
    let rest = main_loop filter tick queue (record w' { last_pbuf_seqnum = q.packet.seqnum }) in
    if q.is_free then aborted else with_effects es rest

-- The loop over the queue of duplicates.
unfoldable pub dupe_loop : (Peer → Pbuf → Bool) → ℕ → List Queued → Worker → LoopResult
unfolding take_dupe age_of
dupe_loop filter tick [] w = ran w []
dupe_loop filter tick (q ∷ queue) w =
    let (w', es) = take_dupe filter q.packet w (age_of tick q.packet) in
    let rest =
      dupe_loop filter tick queue (record w' { last_pbuf_dupe_seqnum = q.packet.seqnum }) in
    if q.is_free then aborted else with_effects es rest

abbrev pub and_then : LoopResult → (Worker → LoopResult) → LoopResult
and_then aborted f = aborted
and_then (ran w es) f = with_effects es (f w)

unfoldable pub process_outgoing :
    (Peer → Pbuf → Bool) → ℕ → List Queued → List Queued → Worker → LoopResult
unfolding main_loop dupe_loop
process_outgoing filter tick queue dupes w =
    and_then (main_loop filter tick queue w) (dupe_loop filter tick dupes)
