-- ===== src/Dupecheck/Stored.antt =====
-- About what one check of src/dupecheck.c stores.
use aprsc.Prelude.{
  ℕ, ◌+◌, ◌≤◌, ◌<◌, ◌≡◌, refl, ap, arith, ltb, true, inl, inr, List, [], ◌∷◌, ◌++◌, ◌==◌,
  Bool-cases, some, none, Bytes, Any, Any-append_right, length, length-append, update_self,
}
use aprsc.Keyhash.{keyhash}
use aprsc.Dupecheck.Mangle.{
  Form, variants, trim_forms, high_forms, low_forms, del_forms, packetlen_max,
}
use aprsc.Dupecheck.Records.{Stamped, Recorded, is_packet_sound}
use aprsc.Dupecheck.Keep.{
  parts_cases, add_buf_cases, add_forms_keeps, dupecheck_append_lem, touch-cons,
}
use aprsc.Dupecheck.{
  DupeRecord, Db, bucket, unseen, dupecheck_parts, packet_hash, dupecheck_append, touch, add_forms,
  dupecheck_add_buf, dupecheck_mangle_store, new_record,
}

-- The cells that can still be had.
abbrev pub cells : Db → ℕ
cells db = db.free + db.fresh

new-Stamped :
    (tick hash dtype : ℕ) (packet : Bytes)
    → Stamped hash packet tick tick (new_record tick hash dtype packet)
new-Stamped tick hash dtype packet = record {
  hash_is = refl;
  packet_is = refl;
  after = omega arith;
  before = omega arith;
}

append_records :
    (tick hash dtype : ℕ) (packet : Bytes) (db : Db) {db' : Db}
    → dupecheck_append (bucket hash) (new_record tick hash dtype packet) db ≡ some db'
    → Recorded hash packet tick tick db'
append_records tick hash dtype packet db e =
    rw
      (
        dupecheck_append_lem (bucket hash) (new_record tick hash dtype packet) db e (bucket hash),
        same (bucket hash),
      )
      (Any-append_right (Stamped hash packet tick tick) (db.buckets (bucket hash)) _
        (inl (new-Stamped tick hash dtype packet)))
  where
    same : (i : ℕ) → (i == i) ≡ true
    same i = ground arith

touch_records :
    (tick hash : ℕ) (packet : Bytes) (chain chain' : List DupeRecord)
    → touch tick hash packet chain ≡ some chain'
    → Any (Stamped hash packet tick tick) chain'
touch_records tick hash packet [] chain' e = unfold touch in cc
touch_records tick hash packet (r ∷ chain) chain' e = elim (touch-cons tick hash packet r chain e) [
  | inl (found, f) ↦
      let (h, p) = is_packet_sound hash packet r found in
      rw f (inl (record { hash_is = h; packet_is = p; after = omega arith; before = omega arith }))
  | inr (rest, f, g) ↦ rw g (inr (touch_records tick hash packet chain rest f))
]

append_cells :
    (i : ℕ) (r : DupeRecord) (db : Db) {db' : Db}
    → dupecheck_append i r db ≡ some db'
    → cells db' + 1 ≡ cells db
unfolding dupecheck_append
append_cells i r db e = ground arith

append-none : (i : ℕ) (r : DupeRecord) (db : Db) → dupecheck_append i r db ≡ none → cells db ≡ 0
unfolding dupecheck_append
append-none i r db e = ground arith

add_buf_cells :
    (tick dtype : ℕ) (s : Bytes) (db : Db)
    → cells db ≤ cells (dupecheck_add_buf tick dtype s db) + 1
add_buf_cells tick dtype s db = elim (add_buf_cases tick dtype s db) [
  | inl (chain, e, f) ↦ rw f (omega arith)
  | inr (inl (db', e, f)) ↦ rw f (omega (arith, append_cells _ _ db e))
  | inr (inr (_, f)) ↦ rw f (omega arith)
]

add_buf_records :
    (tick dtype : ℕ) (s : Bytes) (db : Db)
    → 0 < cells db
    → Recorded (keyhash s 0) s tick tick (dupecheck_add_buf tick dtype s db)
add_buf_records tick dtype s db room = elim (add_buf_cases tick dtype s db) [
  | inl (chain, e, f) ↦
      rw (f, update_self db.buckets (bucket (keyhash s 0)) chain)
        (touch_records tick (keyhash s 0) s _ chain e)
  | inr (inl (db', e, f)) ↦ rw f (append_records tick (keyhash s 0) dtype s db e)
  | inr (inr (e, f)) ↦ absurd (omega (arith, append-none _ _ db e))
]

forms_record :
    (tick : ℕ) (forms : List Form) (s : Bytes) (db : Db)
    → length forms ≤ cells db
    → Any (λ f. f.1 ≡ s) forms
    → Recorded (keyhash s 0) s tick tick (add_forms tick forms db)
unfolding add_forms
forms_record tick [] s db room a = absurd a
forms_record tick ((dtype, p) ∷ forms) s db room (inl e) =
    add_forms_keeps (keyhash s 0) s tick tick tick forms _ _ (omega arith) (omega arith)
      (rw (← e) (add_buf_records tick dtype p db (omega arith)))
forms_record tick ((dtype, p) ∷ forms) s db room (inr a) =
    forms_record tick forms s _ (omega (arith, add_buf_cells tick dtype p db)) a

trim-le : (ib : Bytes) → length (trim_forms ib) ≤ 1
unfolding trim_forms
trim-le ib = ground arith

high-le : (ib : Bytes) → length (high_forms ib) ≤ 3
unfolding high_forms
high-le ib = ground arith

low-le : (ib : Bytes) → length (low_forms ib) ≤ 2
unfolding low_forms
low-le ib = ground arith

del-le : (ib : Bytes) → length (del_forms ib) ≤ 2
unfolding del_forms
del-le ib = ground arith

length-variants-le : (ib : Bytes) → length (variants ib) ≤ 8
unfolding variants
length-variants-le ib = elim (Bool-cases (ltb packetlen_max (length ib))) [
  | inl long ↦ rw long (omega arith)
  | inr short ↦
      rw (short, length-append, length-append, length-append)
        (omega (arith, trim-le ib, high-le ib, low-le ib, del-le ib))
]

-- The record of an unseen packet is there when the check is over.
pub unseen_is_Recorded :
    (storetime tick : ℕ) (addr payload : Bytes) (db : Db)
    → (dupecheck_parts storetime tick addr payload db).0 ≡ unseen
    → Recorded
        (packet_hash addr payload)
        (addr ++ payload)
        tick
        tick
        (dupecheck_parts storetime tick addr payload db).1
unfolding dupecheck_mangle_store
unseen_is_Recorded storetime tick addr payload db h =
    elim (parts_cases storetime tick addr payload db) [
      | inl (r, _, f) ↦ absurd (cc (ap (λ p. p.0) f))
      | inr (inl (db', e, f)) ↦ rw f (
          add_forms_keeps (packet_hash addr payload) (addr ++ payload) tick tick tick
            (variants (addr ++ payload)) db' _ (omega arith) (omega arith)
            (append_records tick (packet_hash addr payload) 0 (addr ++ payload) db e))
      | inr (inr f) ↦ absurd (cc (ap (λ p. p.0) f))
    ]

-- And so is one for each damaged form, if there are cells enough.
pub forms_are-Recorded :
    (storetime tick : ℕ) (addr payload s : Bytes) (db : Db)
    → (dupecheck_parts storetime tick addr payload db).0 ≡ unseen
    → 8 < cells db
    → Any (λ f. f.1 ≡ s) (variants (addr ++ payload))
    → Recorded (keyhash s 0) s tick tick (dupecheck_parts storetime tick addr payload db).1
unfolding dupecheck_mangle_store
forms_are-Recorded storetime tick addr payload s db h room a =
    elim (parts_cases storetime tick addr payload db) [
      | inl (r, _, f) ↦ absurd (cc (ap (λ p. p.0) f))
      | inr (inl (db', e, f)) ↦ rw f (
          forms_record tick (variants (addr ++ payload)) s db'
            (omega (arith, append_cells _ _ db e, length-variants-le (addr ++ payload))) a)
      | inr (inr f) ↦ absurd (cc (ap (λ p. p.0) f))
    ]
