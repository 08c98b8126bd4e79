-- ===== src/Dupecheck/Keep.antt =====
-- About a record of the table of src/dupecheck.c while the operations go on.
use aprsc.Prelude.{
  ℕ, ◌≤◌, ◌≡◌, arith, true, ◌⊎◌, inl, inr, Option, none, some, List, [], ◌∷◌, ◌++◌, ◌==◌,
  if◌then◌else◌, Bool-cases, Option-cases, Bytes, update, Any, Any-append_left, find?,
}
use aprsc.Keyhash.{keyhash}
use aprsc.Dupecheck.Mangle.{Form, variants}
use aprsc.Dupecheck.Records.{Stamped}
use aprsc.Dupecheck.{
  DupeRecord, Db, bucket, dupecheck_append, is_packet, touch, dupecheck_add_buf, add_forms,
  dupecheck_mangle_store, unseen, dupecheck_parts, is_recent, packet_hash, new_record, count_dtype,
  duplicate, no_cell,
}

pub touch-cons :
    (tick h : ℕ) (s : Bytes) (r : DupeRecord) (chain : List DupeRecord) {chain' : List DupeRecord}
    → touch tick h s (r ∷ chain) ≡ some chain'
    → ((is_packet h s r ≡ true) × (chain' ≡ (record r { t = tick }) ∷ chain))
      ⊎ ((rest : List DupeRecord) × (touch tick h s chain ≡ some rest) × (chain' ≡ r ∷ rest))
unfolding touch
touch-cons tick h s r chain e = elim (Bool-cases (is_packet h s r)) [
  | inl yes_ ↦ inl (yes_, ground arith)
  | inr no_ ↦ elim (Option-cases (touch tick h s chain)) [
    | inl none_ ↦ cc
    | inr (rest, f) ↦ inr (rest, f, ground arith)
  ]
]

-- `dupecheck_append` puts its record at the end of one chain.
pub dupecheck_append_lem :
    (i : ℕ) (r : DupeRecord) (db : Db) {db' : Db}
    → dupecheck_append i r db ≡ some db'
    → (j : ℕ) → db'.buckets j ≡ (if i == j then db.buckets i ++ r ∷ [] else db.buckets j)
unfolding dupecheck_append
dupecheck_append_lem i r db e j = ground arith

-- The three ends of `dupecheck_add_buf`: stamped anew, stored, or no cell.
pub add_buf_cases :
    (tick dtype : ℕ) (s : Bytes) (db : Db)
    → ((chain : List DupeRecord) × (touch tick (keyhash s 0) s (db.buckets (bucket (keyhash s 0)))
          ≡ some chain)
        × (dupecheck_add_buf tick dtype s db
            ≡ record db { buckets = update db.buckets (bucket (keyhash s 0)) chain }))
      ⊎ (((db' : Db) × (dupecheck_append
                (bucket (keyhash s 0))
                (new_record tick (keyhash s 0) dtype s)
                db
              ≡ some db')
            × (dupecheck_add_buf tick dtype s db ≡ db'))
          ⊎ ((dupecheck_append (bucket (keyhash s 0)) (new_record tick (keyhash s 0) dtype s) db
                ≡ none)
              × (dupecheck_add_buf tick dtype s db ≡ db)))
unfolding dupecheck_add_buf
add_buf_cases tick dtype s db =
    let hash = keyhash s 0 in
    let i = bucket hash in
    elim (Option-cases (touch tick hash s (db.buckets i))) [
      | inr (chain, e) ↦ inl (chain, e, ground arith)
      | inl e ↦ elim (Option-cases (dupecheck_append i (new_record tick hash dtype s) db)) [
        | inr (db', f) ↦ inr (inl (db', f, ground arith))
        | inl f ↦ inr (inr (f, ground arith))
      ]
    ]

-- The record that a fresh packet leaves behind.
abbrev pub own_record : ℕ → Bytes → Bytes → DupeRecord
own_record tick addr payload = new_record tick (packet_hash addr payload) 0 (addr ++ payload)

abbrev pub found_in : ℕ → ℕ → Bytes → Bytes → Db → Option DupeRecord
found_in storetime tick addr payload db =
    let hash = packet_hash addr payload in
    find? (is_recent storetime tick hash addr payload) (db.buckets (bucket hash))

-- The three ends of the check: a duplicate, no cell, or stored with its damaged forms.
pub parts_cases :
    (storetime tick : ℕ) (addr payload : Bytes) (db : Db)
    → ((r : DupeRecord) × (found_in storetime tick addr payload db ≡ some r)
        × (dupecheck_parts storetime tick addr payload db ≡ (duplicate, count_dtype r.dtype db)))
      ⊎ (((db' : Db) × (dupecheck_append
                (bucket (packet_hash addr payload))
                (own_record tick addr payload)
                db
              ≡ some db')
            × (dupecheck_parts storetime tick addr payload db
                ≡ (unseen, dupecheck_mangle_store tick addr payload db')))
          ⊎ (dupecheck_parts storetime tick addr payload db ≡ (no_cell, db)))
unfolding dupecheck_parts
parts_cases storetime tick addr payload db =
    elim (Option-cases (found_in storetime tick addr payload db)) [
      | inr (r, e) ↦ inl (r, e, ground arith)
      | inl e ↦
          elim (Option-cases (
            dupecheck_append (bucket (packet_hash addr payload)) (own_record tick addr payload)
              db)) [
                | inr (db', f) ↦ inr (inl (db', f, ground arith))
                | inl f ↦ inr (inr (ground arith))
              ]
    ]

pub buckets-count_dtype : (dtype : ℕ) (db : Db) → (count_dtype dtype db).buckets ≡ db.buckets
buckets-count_dtype dtype db = ground arith

module _ (hash : ℕ) (packet : Bytes) (lo hi : ℕ) where
  abbrev pub S : DupeRecord → Type 0
  S = Stamped hash packet lo hi

  stamp : (tick : ℕ) (r : DupeRecord) → lo ≤ tick → tick ≤ hi → S r → S (record r { t = tick })
  stamp tick r a b s = record {
    hash_is = s.hash_is;
    packet_is = s.packet_is;
    after = a;
    before = b;
  }

  touch_keeps :
      (tick h : ℕ) (s : Bytes) (chain chain' : List DupeRecord)
      → lo ≤ tick
      → tick ≤ hi
      → touch tick h s chain ≡ some chain'
      → Any S chain
      → Any S chain'
  touch_keeps tick h s [] chain' a b e m = absurd m
  touch_keeps tick h s (r ∷ chain) chain' a b e m = elim (touch-cons tick h s r chain e) [
    | inl (_, f) ↦ rw f (elim m [ inl x ↦ inl (stamp tick r a b x) | inr y ↦ inr y ])
    | inr (rest, f, g) ↦
        let ih = touch_keeps tick h s chain rest a b f in
        rw g (elim m [ inl x ↦ inl x | inr y ↦ inr (ih y) ])
  ]

  update_keeps :
      (i j : ℕ) (chain : List DupeRecord) (buckets : ℕ → List DupeRecord)
      → (Any S (buckets i) → Any S chain)
      → Any S (buckets j)
      → Any S (update buckets i chain j)
  update_keeps i j chain buckets f m = elim (Bool-cases (i == j)) [
    | inl same ↦ let ij : i ≡ j = ground arith in rw same (f (rw ij m))
    | inr ne ↦ rw ne m
  ]

  pub append_keeps :
      (i j : ℕ) (r : DupeRecord) (db : Db) {db' : Db}
      → dupecheck_append i r db ≡ some db'
      → Any S (db.buckets j)
      → Any S (db'.buckets j)
  append_keeps i j r db e m = elim (Bool-cases (i == j)) [
    | inl same ↦
        let ij : i ≡ j = ground arith in
        rw (dupecheck_append_lem i r db e j, same, ij) (Any-append_left S (db.buckets j) _ m)
    | inr ne ↦ rw (dupecheck_append_lem i r db e j, ne) m
  ]

  add_buf_keeps :
      (tick dtype : ℕ) (s : Bytes) (db : Db) (j : ℕ)
      → lo ≤ tick
      → tick ≤ hi
      → Any S (db.buckets j)
      → Any S ((dupecheck_add_buf tick dtype s db).buckets j)
  add_buf_keeps tick dtype s db j a b m = elim (add_buf_cases tick dtype s db) [
    | inl (chain, e, f) ↦ rw f (
        update_keeps (bucket (keyhash s 0)) j chain db.buckets
          (touch_keeps tick (keyhash s 0) s _ chain a b e) m)
    | inr (inl (db', e, f)) ↦ rw f (append_keeps _ j _ db e m)
    | inr (inr (_, f)) ↦ rw f m
  ]

  pub add_forms_keeps :
      (tick : ℕ) (forms : List Form) (db : Db) (j : ℕ)
      → lo ≤ tick
      → tick ≤ hi
      → Any S (db.buckets j)
      → Any S ((add_forms tick forms db).buckets j)
  unfolding add_forms
  add_forms_keeps tick [] db j a b m = m
  add_forms_keeps tick ((dtype, s) ∷ forms) db j a b m =
      add_forms_keeps tick forms _ j a b (add_buf_keeps tick dtype s db j a b m)

  -- Checking any packet keeps what is recorded.
  pub parts_keeps :
      (storetime tick : ℕ) (addr payload : Bytes) (db : Db) (j : ℕ)
      → lo ≤ tick
      → tick ≤ hi
      → Any S (db.buckets j)
      → Any S ((dupecheck_parts storetime tick addr payload db).1.buckets j)
  unfolding dupecheck_mangle_store
  parts_keeps storetime tick addr payload db j a b m =
      elim (parts_cases storetime tick addr payload db) [
        | inl (r, e, f) ↦ rw f (rw (buckets-count_dtype r.dtype db) m)
        | inr (inl (db', e, f)) ↦ rw f (
            add_forms_keeps tick (variants (addr ++ payload)) db' j a b (append_keeps _ j _ db e m))
        | inr (inr f) ↦ rw f m
      ]
