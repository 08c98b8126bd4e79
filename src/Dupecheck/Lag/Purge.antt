-- ===== src/Dupecheck/Lag/Purge.antt =====
-- About the purge of the global queues in src/dupecheck.c.
use mathlib.Core.List.{append-nil, append_assoc}
use aprsc.Prelude.{
  ℕ, ◌+◌, ◌-◌, ◌≤◌, ◌<◌, ◌≡◌, refl, ap, ◌∙◌, arith, false, inl, inr, List, [], ◌∷◌, ◌++◌, ltb, leb,
  Bool-cases, length, length-append, All, All-append, All-mono,
}
use aprsc.Prelude.Int.{ℤ, ◌≤ℤ◌, ◌<ℤ◌, leb_ℤ, negsuc}
use aprsc.Packet.{Pbuf}
use aprsc.Dupecheck.Lag.{
  pbuf_seqnum_lag, higher, worker_lag, Limits, limit, is_newer, is_awaited, Purged, flush,
  purge_loop, global_pbuf_purger, batch_size,
}

-- The freed packets, batch after batch.
abbrev pub joined : List (List Pbuf) → List Pbuf
joined [] = []
joined (b ∷ batches) = b ++ joined batches

-- Old enough, and behind every worker.
abbrev pub IsPurgeable : Limits → Pbuf → Type 0
IsPurgeable l pb = (is_newer l pb ≡ false) × (is_awaited l pb ≡ false)

-- How one purge turns a batch in hand, a queue and its counter into what it leaves.
pub record Purges (l : Limits) (freeset queue : List Pbuf) (count : ℕ) (p : Purged) : Type 0 where
  pub splits : joined p.batches ++ p.queue ≡ freeset ++ queue
  pub counted : p.count + length queue ≡ count + length p.queue
  pub kept : limit l ≤ count → limit l ≤ p.count
  pub small : All (λ b. length b ≤ batch_size) p.batches
  pub purgeable : All (IsPurgeable l) (joined p.batches)

joined-flush : (freeset : List Pbuf) → joined (flush freeset) ≡ freeset
unfolding flush
joined-flush [] = refl
joined-flush (pb ∷ freeset) = append-nil (pb ∷ freeset)

small-flush :
    (freeset : List Pbuf)
    → length freeset < batch_size
    → All (λ b. length b ≤ batch_size) (flush freeset)
unfolding flush
small-flush [] h = tt
small-flush (pb ∷ freeset) h = (omega arith, tt)

module _ (l : Limits) where
  stops :
      (freeset queue : List Pbuf) (count : ℕ)
      → length freeset < batch_size
      → All (IsPurgeable l) freeset
      → Purges l freeset queue count
          (record { batches = flush freeset; queue = queue; count = count })
  stops freeset queue count short good = record {
    splits = ap (λ b. b ++ queue) (joined-flush freeset);
    counted = refl;
    kept = λ h. h;
    small = small-flush freeset short;
    purgeable = rw (joined-flush freeset) good;
  }

  -- One more packet, which goes on with the batch or closes it.
  goes_on :
      (freeset queue : List Pbuf) (pb : Pbuf) (count : ℕ) (p : Purged)
      → limit l < count
      → Purges l (freeset ++ pb ∷ []) queue (count - 1) p
      → Purges l freeset (pb ∷ queue) count p
  goes_on freeset queue pb count p more h = record {
    splits = h.splits ∙ append_assoc freeset (pb ∷ []) queue;
    counted = omega (arith, h.counted);
    kept = λ _. h.kept (omega arith);
    small = h.small;
    purgeable = h.purgeable;
  }

  closes :
      (batch queue : List Pbuf) (count : ℕ) (p : Purged)
      → length batch ≤ batch_size
      → All (IsPurgeable l) batch
      → Purges l [] queue count p
      → Purges l batch queue count (record p { batches = batch ∷ p.batches })
  closes batch queue count p fits good h = record {
    splits = append_assoc batch (joined p.batches) p.queue ∙ ap (λ b. batch ++ b) h.splits;
    counted = h.counted;
    kept = h.kept;
    small = (fits, h.small);
    purgeable = All-append (IsPurgeable l) batch (joined p.batches) good h.purgeable;
  }

  grown :
      (freeset : List Pbuf) (pb : Pbuf)
      → All (IsPurgeable l) freeset
      → IsPurgeable l pb
      → All (IsPurgeable l) (freeset ++ pb ∷ [])
  grown freeset pb good h = All-append (IsPurgeable l) freeset (pb ∷ []) good (h, tt)

  loop-Purges :
      (queue freeset : List Pbuf) (count : ℕ)
      → length freeset < batch_size
      → All (IsPurgeable l) freeset
      → Purges l freeset queue count (purge_loop l freeset queue count)
  unfolding purge_loop
  loop-Purges [] freeset count short good = stops freeset [] count short good
  loop-Purges (pb ∷ queue) freeset count short good = elim (Bool-cases (ltb (limit l) count)) [
    | inr e ↦ rw e (stops freeset (pb ∷ queue) count short good)
    | inl more ↦ elim (Bool-cases (is_newer l pb)) [
      | inl e ↦ rw (more, e) (stops freeset (pb ∷ queue) count short good)
      | inr old ↦ elim (Bool-cases (is_awaited l pb)) [
        | inl e ↦ rw (more, old, e) (stops freeset (pb ∷ queue) count short good)
        | inr past ↦ elim (Bool-cases (leb batch_size (length (freeset ++ pb ∷ [])))) [
          | inl full ↦
              rw (more, old, past, full)
                (goes_on freeset queue pb count _ (ground arith) (
                  closes (freeset ++ pb ∷ []) queue (count - 1) _
                    (omega (arith, length-append freeset (pb ∷ [])))
                    (grown freeset pb good (old, past))
                    (loop-Purges queue [] (count - 1) (omega arith) tt)))
          | inr room ↦
              rw (more, old, past, room)
                (goes_on freeset queue pb count _ (ground arith) (
                  loop-Purges queue (freeset ++ pb ∷ []) (count - 1) (ground arith)
                    (grown freeset pb good (old, past))))
        ]
      ]
    ]
  ]

higher-ge : (a b : ℤ) → (a ≤ℤ higher a b) × (b ≤ℤ higher a b)
unfolding higher
higher-ge a b = ground arith

worker_lag-ge :
    (seqnum : ℕ) (highest : ℤ) (workers : List ℕ) → highest ≤ℤ worker_lag seqnum highest workers
unfolding worker_lag
worker_lag-ge seqnum highest [] = omega arith
worker_lag-ge seqnum highest (last ∷ workers) = omega (
  arith,
  worker_lag-ge seqnum (higher highest (pbuf_seqnum_lag seqnum last)) workers,
  (higher-ge highest (pbuf_seqnum_lag seqnum last)).0,
)

worker_lag-ge-All :
    (seqnum : ℕ) (highest : ℤ) (workers : List ℕ)
    → All (λ last. pbuf_seqnum_lag seqnum last ≤ℤ worker_lag seqnum highest workers) workers
unfolding worker_lag
worker_lag-ge-All seqnum highest [] = tt
worker_lag-ge-All seqnum highest (last ∷ workers) = (
  omega (
    arith,
    worker_lag-ge seqnum (higher highest (pbuf_seqnum_lag seqnum last)) workers,
    (higher-ge highest (pbuf_seqnum_lag seqnum last)).1,
  ),
  worker_lag-ge-All seqnum (higher highest (pbuf_seqnum_lag seqnum last)) workers,
)

-- A purge frees a prefix of the queue and keeps the rest in order, in batches that fit the
-- buffer; the counter goes down by the number of freed packets and not below the limit; and every
-- freed packet is past its age and has a lag that is higher than that of each worker.
pub purge_frees_what_is_sent :
    (l : Limits) (workers : List ℕ) (queue : List Pbuf) (count : ℕ)
    → l.lag ≡ worker_lag l.seqnum (negsuc 0) workers
    → Purges l [] queue count (global_pbuf_purger l queue count)
      × All
          (λ pb.
            All
              (λ last. pbuf_seqnum_lag l.seqnum last <ℤ pbuf_seqnum_lag l.seqnum pb.seqnum)
              workers)
          (joined (global_pbuf_purger l queue count).batches)
unfolding global_pbuf_purger
purge_frees_what_is_sent l workers queue count e =
    let p = loop-Purges l queue [] count (omega arith) tt in
    (
      p,
      All-mono (IsPurgeable l)
          (λ pb.
            All (λ last. pbuf_seqnum_lag l.seqnum last <ℤ pbuf_seqnum_lag l.seqnum pb.seqnum)
              workers)
          _
          (λ pb g.
            All-mono
              (λ last. pbuf_seqnum_lag l.seqnum last ≤ℤ worker_lag l.seqnum (negsuc 0) workers)
              (λ last. pbuf_seqnum_lag l.seqnum last <ℤ pbuf_seqnum_lag l.seqnum pb.seqnum) workers
              (λ last h.
                past (pbuf_seqnum_lag l.seqnum last) (pbuf_seqnum_lag l.seqnum pb.seqnum) _ h
                  (rw e at g.1))
              (worker_lag-ge-All l.seqnum (negsuc 0) workers))
          p.purgeable,
    )
  where
    past : (a b m : ℤ) → a ≤ℤ m → leb_ℤ b m ≡ false → a <ℤ b
    past a b m h k = ground arith
