-- ===== src/Dupecheck/Sweep.antt =====
-- About `dupecheck_cleanup` of src/dupecheck.c, loop by loop.
use aprsc.Prelude.{
  ℕ, zero, suc, ◌+◌, ◌<◌, ◌≡◌, ◌∙◌, refl, ap, arith, true, not, ◌&&◌, inl, inr, List, [], ◌∷◌, ◌==◌,
  leb, ltb, if◌then◌else◌, Bool-cases, keep,
}
use aprsc.Dupecheck.{
  DupeRecord, Db, db_size, is_stale, sweep_chain, sweep_bucket, sweep_buckets, dupecheck_cleanup,
  dupecheck_db_free,
}

module _ (storetime tick : ℕ) where
  abbrev pub live : List DupeRecord → List DupeRecord
  live chain = keep (λ r. not (is_stale storetime tick r)) chain

  chain-live :
      (chain : List DupeRecord) (db : Db) → (sweep_chain storetime tick chain db).0 ≡ live chain
  unfolding sweep_chain
  chain-live [] db = refl
  chain-live (r ∷ chain) db =
      ground (arith, chain-live chain (dupecheck_db_free db), chain-live chain db)

  chain_buckets :
      (chain : List DupeRecord) (db : Db)
      → (sweep_chain storetime tick chain db).1.buckets ≡ db.buckets
  unfolding sweep_chain
  chain_buckets [] db = refl
  chain_buckets (r ∷ chain) db =
      ground (arith, chain_buckets chain (dupecheck_db_free db), chain_buckets chain db)

  sweep_bucket_lem :
      (i : ℕ) (db : Db) (j : ℕ)
      → (sweep_bucket storetime tick i db).buckets j
        ≡ (if i == j then live (db.buckets j) else db.buckets j)
  unfolding sweep_bucket
  sweep_bucket_lem i db j = elim (Bool-cases (i == j)) [
    | inl same ↦
        let ij : i ≡ j = ground arith in
        rw same (chain-live (db.buckets i) db ∙ ap (λ k. live (db.buckets k)) ij)
    | inr ne ↦ rw ne (ap (λ (b : ℕ → List DupeRecord). b j) (chain_buckets (db.buckets i) db))
  ]

  pub sweep_buckets_lem :
      (left i : ℕ) (db : Db) (j : ℕ)
      → (sweep_buckets storetime tick left i db).buckets j
        ≡ (if leb i j && ltb j (i + left) then live (db.buckets j) else db.buckets j)
  unfolding sweep_buckets
  sweep_buckets_lem zero i db j = ground arith
  sweep_buckets_lem (suc left) i db j = ground (
    arith,
    sweep_buckets_lem left (suc i) (sweep_bucket storetime tick i db) j,
    sweep_bucket_lem i db j,
  )

  in_range : (j : ℕ) → j < db_size → (leb 0 j && ltb j (0 + db_size)) ≡ true
  in_range j h = ground arith

  -- After a cleanup each bucket holds what is not stale, in order.
  pub cleanup-live :
      (db : Db) (j : ℕ)
      → j < db_size
      → (dupecheck_cleanup storetime tick db).buckets j ≡ live (db.buckets j)
  unfolding dupecheck_cleanup
  cleanup-live db j h =
      sweep_buckets_lem db_size 0 db j
      ∙ ap (λ b. if b then live (db.buckets j) else db.buckets j) (in_range j h)
