-- ===== src/Dupecheck/Lag/Ahead.antt =====
-- About what the purge of src/dupecheck.c leaves for the workers, on a queue that is numbered as its
-- thread numbers it.
use aprsc.Prelude.{
  ℕ, ◌+◌, ◌-◌, ◌%◌, ◌^◌, ◌≤◌, ◌<◌, ◌≡◌, ◌≢◌, ◌⊎◌, refl, sym, ap, ◌∙◌, arith, inl, inr, false,
  Bool-cases, List, [], ◌∷◌, ◌++◌, ◌==◌, length, All, All-mono,
}
use aprsc.Prelude.Int.{pos, negsuc, ◌<ℤ◌, signed32}
use mathlib.Core.Path.{subst}
use aprsc.Packet.{Pbuf}
use aprsc.Dupecheck.Drain.{next_seqnum}
use aprsc.Dupecheck.Drain.Order.{IsNumbered}
use aprsc.Dupecheck.Lag.{pbuf_seqnum_lag, worker_lag, Limits, global_pbuf_purger}
use aprsc.Dupecheck.Lag.Purge.{joined, Purges, purge_frees_what_is_sent}

-- How many packets a worker has ahead, by the number of the last one that it took.
abbrev pub ahead : ℕ → ℕ → ℕ
ahead seqnum last = (seqnum + 2 ^ 32 - last) % 2 ^ 32

-- Nothing is freed, or the worker has taken a packet, and what is freed ends before that packet.
abbrev pub IsLeft : ℕ → List Pbuf → List Pbuf → ℕ → Type 0
IsLeft seqnum freed queue last =
    (freed ≡ []) ⊎ ((last ≢ 0) × (length freed + ahead seqnum last < length queue))

last_number :
    (first : ℕ) (queue : List Pbuf) (last : ℕ)
    → first < 2 ^ 32
    → IsNumbered first queue last
    → last ≡ (first + length queue) % 2 ^ 32
last_number first [] last h n = omega (arith, n)
last_number first (pb ∷ queue) last h (s, n) =
    omega (arith, last_number (next_seqnum first) queue last (omega arith) n)

ahead_of_numbered :
    (seqnum number n : ℕ)
    → number < 2 ^ 32
    → n ≤ 2000000000
    → seqnum ≡ (number + n) % 2 ^ 32
    → ahead seqnum number ≡ n
ahead_of_numbered seqnum number n a b e = omega arith

signed32-pos : (n : ℕ) → n < 2 ^ 31 → signed32 n ≡ pos n
signed32-pos n h = ground arith

lag_of_numbered :
    (seqnum number : ℕ)
    → number ≢ 0
    → ahead seqnum number < 2 ^ 31
    → pbuf_seqnum_lag seqnum number ≡ pos (ahead seqnum number)
unfolding pbuf_seqnum_lag
lag_of_numbered seqnum number ne h =
    let e : (number == 0) ≡ false = ground arith in rw e (signed32-pos (ahead seqnum number) h)

lag_of_none : (seqnum : ℕ) → pbuf_seqnum_lag seqnum 0 ≡ pos 2000000000
unfolding pbuf_seqnum_lag
lag_of_none seqnum = refl

All-swap :
    {A B : Type 0} (R : A → B → Type 0) (xs : List A) (ys : List B)
    → All (λ x. All (λ y. R x y) ys) xs
    → All (λ y. All (λ x. R x y) xs) ys
All-swap R xs [] h = tt
All-swap R xs (y ∷ ys) h = (
  All-mono (λ x. All (λ y. R x y) (y ∷ ys)) (λ x. R x y) xs (λ x a. a.0) h,
  All-swap R xs ys
      (All-mono (λ x. All (λ y. R x y) (y ∷ ys)) (λ x. All (λ y. R x y) ys) xs (λ x a. a.1) h),
)

All-zip_with :
    {A : Type 0} (P Q R : A → Type 0) (xs : List A)
    → ((x : A) → P x → Q x → R x)
    → All P xs
    → All Q xs
    → All R xs
All-zip_with P Q R [] f ps qs = tt
All-zip_with P Q R (x ∷ xs) f ps qs = (f x ps.0 qs.0, All-zip_with P Q R xs f ps.1 qs.1)

-- The packet at the front of what is left lags by the length of the queue behind it.
front-lag :
    (seqnum first : ℕ) (pb : Pbuf) (queue : List Pbuf)
    → first < 2 ^ 32
    → length queue ≤ 2000000000
    → pb.seqnum ≢ 0
    → IsNumbered first (pb ∷ queue) seqnum
    → pbuf_seqnum_lag seqnum pb.seqnum ≡ pos (length queue)
front-lag seqnum first pb queue h short ne (s, n) =
    let number : pb.seqnum < 2 ^ 32 = omega (arith, s) in
    let end = last_number (next_seqnum first) queue seqnum (omega arith) n in
    let behind : ahead seqnum pb.seqnum ≡ length queue =
      ahead_of_numbered seqnum pb.seqnum (length queue) number short
        (end ∙ ap (λ k. (k + length queue) % 2 ^ 32) (sym s)) in
    lag_of_numbered seqnum pb.seqnum ne (omega (arith, behind)) ∙ ap pos behind

module _ (seqnum last : ℕ) (not_ahead : ahead seqnum last < 2 ^ 31) where
  -- A worker that lags by less than the packet in front of a queue.
  behind-front :
      (n : ℕ)
      → n ≤ 2000000000
      → pbuf_seqnum_lag seqnum last <ℤ pos n
      → (last ≢ 0) × (ahead seqnum last < n)
  behind-front n short h = elim (Bool-cases (last == 0)) [
    | inl e ↦
        let zero_last : last ≡ 0 = ground arith in
        let lag = ap (pbuf_seqnum_lag seqnum) zero_last ∙ lag_of_none seqnum in
        let less : pos 2000000000 <ℤ pos n = subst (λ z. z <ℤ pos n) lag h in absurd (omega arith)
    | inr e ↦
        let ne : last ≢ 0 = λ z. ground arith in
        let lag = lag_of_numbered seqnum last ne not_ahead in
        let less : pos (ahead seqnum last) <ℤ pos n = subst (λ z. z <ℤ pos n) lag h in
        (ne, omega arith)
  ]

  prefix-IsLeft :
      (freed rest : List Pbuf) (first : ℕ)
      → first < 2 ^ 32
      → IsNumbered first (freed ++ rest) seqnum
      → All (λ pb. pb.seqnum ≢ 0) (freed ++ rest)
      → length (freed ++ rest) ≤ 2000000000
      → All (λ pb. pbuf_seqnum_lag seqnum last <ℤ pbuf_seqnum_lag seqnum pb.seqnum) freed
      → IsLeft seqnum freed (freed ++ rest) last
  prefix-IsLeft [] rest first h n nz short lags = inl refl
  prefix-IsLeft (pb ∷ freed) rest first h n nz short lags =
      let lag = front-lag seqnum first pb (freed ++ rest) h (omega arith) nz.0 n in
      let (ne, less) =
        behind-front (length (freed ++ rest)) (omega arith)
          (subst (λ z. pbuf_seqnum_lag seqnum last <ℤ z) lag lags.0) in
      elim (prefix-IsLeft freed rest (next_seqnum first) (omega arith) n.1 nz.1 (omega arith)
        lags.1) [
          | inl e ↦ inr (ne, (let z : length freed ≡ 0 = ap length e in omega (arith, z, less)))
          | inr (_, m) ↦ inr (ne, omega (arith, m))
        ]

-- On a queue that is numbered up to the newest number, without the number 0, and not longer than what
-- stands for no data, a purge frees a prefix of packets that are past their age, in batches that fit the
-- buffer, and counts them; and it frees nothing at all, or every worker has taken a packet and what is
-- freed ends before that packet: all that the worker has ahead is left. No worker is to be ahead of the
-- thread, and the lag that the purge goes by is that of these workers.
pub purge_leaves_unsent :
    (l : Limits) (workers : List ℕ) (queue : List Pbuf) (count first : ℕ)
    → l.lag ≡ worker_lag l.seqnum (negsuc 0) workers
    → first < 2 ^ 32
    → IsNumbered first queue l.seqnum
    → All (λ pb. pb.seqnum ≢ 0) queue
    → length queue ≤ 2000000000
    → All (λ last. ahead l.seqnum last < 2 ^ 31) workers
    → Purges l [] queue count (global_pbuf_purger l queue count)
      × All (IsLeft l.seqnum (joined (global_pbuf_purger l queue count).batches) queue) workers
purge_leaves_unsent l workers queue count first e h n nz short on =
    let p = global_pbuf_purger l queue count in
    let (purges, lags) = purge_frees_what_is_sent l workers queue count e in
    let same = sym purges.splits in
    (
      purges,
      subst (λ q. All (IsLeft l.seqnum (joined p.batches) q) workers) purges.splits
          (All-zip_with (λ last. ahead l.seqnum last < 2 ^ 31) _ _ workers
            (λ last not_ahead behind.
              prefix-IsLeft l.seqnum last not_ahead (joined p.batches) p.queue first h
                (subst (λ q. IsNumbered first q l.seqnum) same n)
                (subst (All (λ pb. pb.seqnum ≢ 0)) same nz)
                (subst (λ q. length q ≤ 2000000000) same short) behind)
            on
            (All-swap
              (λ pb last. pbuf_seqnum_lag l.seqnum last <ℤ pbuf_seqnum_lag l.seqnum pb.seqnum)
              (joined p.batches) workers lags)),
    )
