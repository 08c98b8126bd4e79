-- ===== src/Outgoing/Progress.antt =====
-- About how far a worker of src/outgoing.c gets in the global queues, and when it aborts.
use aprsc.Prelude.{
  ℕ, ◌≡◌, ◌≢◌, ◌+◌, ◌-◌, ◌%◌, ◌^◌, ◌↔◌, ◌⊎◌, inl, inr, refl, ◌∙◌, ap, arith, ◌==◌, Bool, true,
  false, List, [], ◌∷◌, ◌++◌, if◌then◌else◌, All, Any,
}
use aprsc.Prelude.Int.{pos}
use aprsc.Packet.{Pbuf}
use aprsc.Dupecheck.Lag.{pbuf_seqnum_lag}
use aprsc.Dupecheck.Drain.Order.{IsNumbered}
use aprsc.Outgoing.{
  Peer, Effect, Worker, Queued, LoopResult, aborted, ran, Age, age_of, from_future, too_old, timely,
  count_drop, take_packet, take_dupe, with_effects, and_then, main_loop, dupe_loop,
  process_outgoing,
}

abbrev pub HasFreed : List Queued → Type 0
HasFreed = Any (λ q. q.is_free ≡ true)

abbrev pub packets : List Queued → List Pbuf
packets [] = []
packets (q ∷ queue) = q.packet ∷ packets queue

with_effects-aborted :
    (es : List Effect) (o : LoopResult) → (with_effects es o ≡ aborted) ↔ (o ≡ aborted)
with_effects-aborted es aborted = ((λ e. e), (λ e. e))
with_effects-aborted es (ran w more) = ((λ e. absurd (cc e)), (λ e. absurd (cc e)))

-- One turn of a loop: it aborts on a freed packet, and when the rest of the loop does.
turn-aborted :
    (b : Bool) (es : List Effect) (o : LoopResult) (P : Type 0)
    → (o ≡ aborted) ↔ P
    → ((if b then aborted else with_effects es o) ≡ aborted) ↔ ((b ≡ true) ⊎ P)
turn-aborted true es o P h = ((λ a. inl refl), (λ a. refl))
turn-aborted false es o P h =
    let out = with_effects-aborted es o in
    ((λ a. inr (h.0 (out.0 a))), (λ a. elim a [ inl f ↦ absurd (cc f) | inr m ↦ out.1 (h.1 m) ]))

-- What a loop that runs leaves: the numbers of the last packets.
abbrev pub Reaches : ℕ → ℕ → LoopResult → Type 0
Reaches last dupe_last o =
    (w : Worker) × (es : List Effect) × (o ≡ ran w es)
    × (w.last_pbuf_seqnum ≡ last)
    × (w.last_pbuf_dupe_seqnum ≡ dupe_last)

turn-Reaches :
    (last dupe_last : ℕ) (b : Bool) (es : List Effect) (o : LoopResult)
    → b ≡ false
    → Reaches last dupe_last o
    → Reaches last dupe_last (if b then aborted else with_effects es o)
turn-Reaches last dupe_last true es o e h = absurd (cc e)
turn-Reaches last dupe_last false es o e (w, more, ran_to, at, dupe_at) =
    (w, es ++ more, ap (with_effects es) ran_to, at, dupe_at)

joined-aborted :
    (o : LoopResult) (f : Worker → LoopResult) (A B : Type 0)
    → (o ≡ aborted) ↔ A
    → ((w : Worker) → (f w ≡ aborted) ↔ B)
    → (and_then o f ≡ aborted) ↔ (A ⊎ B)
joined-aborted aborted f A B h k = ((λ e. inl (h.0 refl)), (λ a. refl))
joined-aborted (ran w es) f A B h k =
    let out = with_effects-aborted es (f w) in
    (
      (λ e. inr ((k w).0 (out.0 e))),
      (λ a. elim a [ inl x ↦ absurd (cc (h.1 x)) | inr y ↦ out.1 ((k w).1 y) ]),
    )

-- No lag behind one's own number.
lag_none : (seqnum : ℕ) → seqnum ≢ 0 → pbuf_seqnum_lag seqnum seqnum ≡ pos 0
unfolding pbuf_seqnum_lag
lag_none seqnum ne =
    let none : (seqnum + 2 ^ 32 - seqnum) % 2 ^ 32 ≡ 0 = omega arith in
    let e : (seqnum == 0) ≡ false = ground arith in rw (none, e) refl

module _ (filter : Peer → Pbuf → Bool) (tick : ℕ) where
  main_loop-aborted :
      (queue : List Queued) (w : Worker)
      → (main_loop filter tick queue w ≡ aborted) ↔ HasFreed queue
  unfolding main_loop
  main_loop-aborted [] w = ((λ e. absurd (cc e)), (λ a. absurd a))
  main_loop-aborted (q ∷ queue) w =
      let r = take_packet filter q.packet w (age_of tick q.packet) in
      let w' : Worker = record r.0 { last_pbuf_seqnum = q.packet.seqnum } in
      turn-aborted q.is_free r.1 (main_loop filter tick queue w') (HasFreed queue)
        (main_loop-aborted queue w')

  dupe_loop-aborted :
      (queue : List Queued) (w : Worker)
      → (dupe_loop filter tick queue w ≡ aborted) ↔ HasFreed queue
  unfolding dupe_loop
  dupe_loop-aborted [] w = ((λ e. absurd (cc e)), (λ a. absurd a))
  dupe_loop-aborted (q ∷ queue) w =
      let r = take_dupe filter q.packet w (age_of tick q.packet) in
      let w' : Worker = record r.0 { last_pbuf_dupe_seqnum = q.packet.seqnum } in
      turn-aborted q.is_free r.1 (dupe_loop filter tick queue w') (HasFreed queue)
        (dupe_loop-aborted queue w')

  take_packet-last :
      (pb : Pbuf) (w : Worker) (age : Age)
      → (take_packet filter pb w age).0.last_pbuf_dupe_seqnum ≡ w.last_pbuf_dupe_seqnum
  unfolding take_packet count_drop
  take_packet-last pb w from_future = refl
  take_packet-last pb w too_old = refl
  take_packet-last pb w timely = refl

  take_dupe-last :
      (pb : Pbuf) (w : Worker) (age : Age)
      → (take_dupe filter pb w age).0.last_pbuf_seqnum ≡ w.last_pbuf_seqnum
  unfolding take_dupe
  take_dupe-last pb w from_future = refl
  take_dupe-last pb w too_old = refl
  take_dupe-last pb w timely = refl

  main_loop-Reaches :
      (last dupe_last : ℕ) (queue : List Queued) (w : Worker)
      → All (λ q. q.is_free ≡ false) queue
      → IsNumbered w.last_pbuf_seqnum (packets queue) last
      → w.last_pbuf_dupe_seqnum ≡ dupe_last
      → Reaches last dupe_last (main_loop filter tick queue w)
  unfolding main_loop
  main_loop-Reaches last dupe_last [] w kept n d = (w, [], refl, n, d)
  main_loop-Reaches last dupe_last (q ∷ queue) w kept n d =
      let r = take_packet filter q.packet w (age_of tick q.packet) in
      let w' : Worker = record r.0 { last_pbuf_seqnum = q.packet.seqnum } in
      turn-Reaches last dupe_last q.is_free r.1 (main_loop filter tick queue w') kept.0 (
        main_loop-Reaches last dupe_last queue w' kept.1 (rw n.0 n.1)
          (take_packet-last q.packet w (age_of tick q.packet) ∙ d))

  dupe_loop-Reaches :
      (last dupe_last : ℕ) (queue : List Queued) (w : Worker)
      → All (λ q. q.is_free ≡ false) queue
      → IsNumbered w.last_pbuf_dupe_seqnum (packets queue) dupe_last
      → w.last_pbuf_seqnum ≡ last
      → Reaches last dupe_last (dupe_loop filter tick queue w)
  unfolding dupe_loop
  dupe_loop-Reaches last dupe_last [] w kept n d = (w, [], refl, d, n)
  dupe_loop-Reaches last dupe_last (q ∷ queue) w kept n d =
      let r = take_dupe filter q.packet w (age_of tick q.packet) in
      let w' : Worker = record r.0 { last_pbuf_dupe_seqnum = q.packet.seqnum } in
      turn-Reaches last dupe_last q.is_free r.1 (dupe_loop filter tick queue w') kept.0 (
        dupe_loop-Reaches last dupe_last queue w' kept.1 (rw n.0 n.1)
          (take_dupe-last q.packet w (age_of tick q.packet) ∙ d))

  with_effects-Reaches :
      (last dupe_last : ℕ) (es : List Effect) (o : LoopResult)
      → Reaches last dupe_last o
      → Reaches last dupe_last (with_effects es o)
  with_effects-Reaches last dupe_last es o h = turn-Reaches last dupe_last false es o refl h

  -- The server aborts in `process_outgoing` exactly when one of the packets that the worker has yet
  -- to take from the two queues is marked free.
  pub outgoing_aborts_exact :
      (queue dupes : List Queued) (w : Worker)
      → (process_outgoing filter tick queue dupes w ≡ aborted) ↔ (HasFreed queue ⊎ HasFreed dupes)
  unfolding process_outgoing
  outgoing_aborts_exact queue dupes w =
      joined-aborted (main_loop filter tick queue w) (dupe_loop filter tick dupes) (HasFreed queue)
        (HasFreed dupes) (main_loop-aborted queue w) (dupe_loop-aborted dupes)

  -- A worker whose queues are numbered on from the last packets that it took, up to the thread's
  -- numbers, and hold no packet that is marked free, takes all of them: the server does not abort,
  -- the worker's numbers are then the thread's, and it lags behind by nothing in either queue.
  pub outgoing_catches_up :
      (queue dupes : List Queued) (w : Worker) (seqnum dupe_seqnum : ℕ)
      → All (λ q. q.is_free ≡ false) queue
      → All (λ q. q.is_free ≡ false) dupes
      → IsNumbered w.last_pbuf_seqnum (packets queue) seqnum
      → IsNumbered w.last_pbuf_dupe_seqnum (packets dupes) dupe_seqnum
      → seqnum ≢ 0
      → dupe_seqnum ≢ 0
      → (w' : Worker) × (es : List Effect) × (process_outgoing filter tick queue dupes w
          ≡ ran w' es)
        × (pbuf_seqnum_lag seqnum w'.last_pbuf_seqnum ≡ pos 0)
        × (pbuf_seqnum_lag dupe_seqnum w'.last_pbuf_dupe_seqnum ≡ pos 0)
  unfolding process_outgoing
  outgoing_catches_up queue dupes w seqnum dupe_seqnum kept dupe_kept n d some_number some_dupe =
      let (w', es, e, at, dupe_at) =
        main_loop-Reaches seqnum w.last_pbuf_dupe_seqnum queue w kept n refl in
      let numbered : IsNumbered w'.last_pbuf_dupe_seqnum (packets dupes) dupe_seqnum =
        rw dupe_at d in
      let (v, more, f, v_at, v_dupe) =
        with_effects-Reaches seqnum dupe_seqnum es (dupe_loop filter tick dupes w')
          (dupe_loop-Reaches seqnum dupe_seqnum dupes w' dupe_kept numbered at) in
      (
        v,
        more,
        rw e f,
        rw v_at (lag_none seqnum some_number),
        rw v_dupe (lag_none dupe_seqnum some_dupe),
      )
