-- ===== src/Dupecheck/Origin.antt =====
-- About where the records in the table of src/dupecheck.c come from.
use aprsc.Prelude.{
  ℕ, ◌+◌, ◌≡◌, ap, inl, inr, some, List, [], ◌∷◌, ◌++◌, ◌==◌, if◌then◌else◌, ◌&&◌, leb, ltb,
  Bool-cases, Bytes, All, All-append, All-keep, not,
}
use aprsc.Keyhash.{keyhash}
use aprsc.Dupecheck.Mangle.{Form, variants}
use aprsc.Dupecheck.Keep.{
  parts_cases, add_buf_cases, dupecheck_append_lem, touch-cons, buckets-count_dtype,
}
use aprsc.Dupecheck.Sweep.{sweep_buckets_lem}
use aprsc.Dupecheck.{
  DupeRecord, Db, db_size, bucket, unseen, dupecheck_parts, is_stale, dupecheck_append, touch,
  add_forms, dupecheck_add_buf, dupecheck_mangle_store, dupecheck_cleanup,
}

-- Every stored packet has the property.
abbrev pub AllPackets : (Bytes → Type 0) → Db → Type 0
AllPackets Q db = (j : ℕ) → All (λ r. Q r.packet) (db.buckets j)

module _ (Q : Bytes → Type 0) where
  abbrev R : DupeRecord → Type 0
  R r = Q r.packet

  touch-All :
      (tick h : ℕ) (s : Bytes) (chain chain' : List DupeRecord)
      → touch tick h s chain ≡ some chain'
      → All R chain
      → All R chain'
  touch-All tick h s [] chain' e all = unfold touch in cc
  touch-All tick h s (r ∷ chain) chain' e all = elim (touch-cons tick h s r chain e) [
    | inl (_, f) ↦ rw f all
    | inr (rest, f, g) ↦ rw g (all.0, touch-All tick h s chain rest f all.1)
  ]

  update-All :
      (buckets : ℕ → List DupeRecord) (i : ℕ) (chain : List DupeRecord) (j : ℕ)
      → All R chain
      → All R (buckets j)
      → All R (if i == j then chain else buckets j)
  update-All buckets i chain j new old = elim (Bool-cases (i == j)) [
    | inl e ↦ rw e new
    | inr e ↦ rw e old
  ]

  append-AllPackets :
      (i : ℕ) (r : DupeRecord) (db : Db) {db' : Db}
      → dupecheck_append i r db ≡ some db'
      → Q r.packet
      → AllPackets Q db
      → AllPackets Q db'
  append-AllPackets i r db e q all j = rw (dupecheck_append_lem i r db e j) (
      update-All db.buckets i (db.buckets i ++ r ∷ []) j
        (All-append R (db.buckets i) (r ∷ []) (all i) (q, tt)) (all j))

  add_buf-AllPackets :
      (tick dtype : ℕ) (s : Bytes) (db : Db)
      → Q s
      → AllPackets Q db
      → AllPackets Q (dupecheck_add_buf tick dtype s db)
  add_buf-AllPackets tick dtype s db q all = elim (add_buf_cases tick dtype s db) [
    | inl (chain, e, f) ↦ rw f (λ j.
        update-All db.buckets (bucket (keyhash s 0)) chain j
          (touch-All tick (keyhash s 0) s _ chain e (all (bucket (keyhash s 0)))) (all j))
    | inr (inl (db', e, f)) ↦ rw f (append-AllPackets _ _ db e q all)
    | inr (inr (_, f)) ↦ rw f all
  ]

  add_forms-AllPackets :
      (tick : ℕ) (forms : List Form) (db : Db)
      → All (λ f. Q f.1) forms
      → AllPackets Q db
      → AllPackets Q (add_forms tick forms db)
  unfolding add_forms
  add_forms-AllPackets tick [] db qs all = all
  add_forms-AllPackets tick ((dtype, s) ∷ forms) db qs all =
      add_forms-AllPackets tick forms _ qs.1 (add_buf-AllPackets tick dtype s db qs.0 all)

  pub parts-AllPackets :
      (storetime tick : ℕ) (addr payload : Bytes) (db : Db)
      → ((dupecheck_parts storetime tick addr payload db).0 ≡ unseen
          → Q (addr ++ payload) × All (λ f. Q f.1) (variants (addr ++ payload)))
      → AllPackets Q db
      → AllPackets Q (dupecheck_parts storetime tick addr payload db).1
  unfolding dupecheck_mangle_store
  parts-AllPackets storetime tick addr payload db q all =
      elim (parts_cases storetime tick addr payload db) [
        | inl (r, _, f) ↦ rw f (rw (buckets-count_dtype r.dtype db) all)
        | inr (inl (db', e, f)) ↦
            let (own, forms) = q (ap (λ p. p.0) f) in
            rw f (
              add_forms-AllPackets tick (variants (addr ++ payload)) db' forms
                (append-AllPackets _ _ db e own all))
        | inr (inr f) ↦ rw f all
      ]

  pub cleanup-AllPackets :
      (storetime tick : ℕ) (db : Db)
      → AllPackets Q db
      → AllPackets Q (dupecheck_cleanup storetime tick db)
  unfolding dupecheck_cleanup
  cleanup-AllPackets storetime tick db all j =
      rw (sweep_buckets_lem storetime tick db_size 0 db j)
        (elim (Bool-cases (leb 0 j && ltb j (0 + db_size))) [
          | inl e ↦ rw e (All-keep R (λ r. not (is_stale storetime tick r)) (db.buckets j) (all j))
          | inr e ↦ rw e (all j)
        ])
