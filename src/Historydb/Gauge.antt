-- ===== src/Historydb/Gauge.antt =====
-- About the number of cells in the table of src/historydb.c, which `historydb_cellgauge` counts.
use aprsc.Prelude.{
  ℕ, zero, suc, ◌+◌, ◌-◌, ◌≤◌, ◌<◌, Bool, true, false, ◌&&◌, Option, none, some, List, [], ◌∷◌, ◌≡◌,
  refl, inl, inr, arith, Bool-cases, ◌==◌, if◌then◌else◌, Bytes, length, length-append, update, not,
  sym,
}
use aprsc.Prelude.Int.{negsuc}
use aprsc.Packet.{Pbuf}
use aprsc.Historydb.{
  Report, Cell, Historydb, slot_of, fold_hash, scan, append_new, put_chain, historydb_put,
  insert_as, historydb_insert, key_of, report_of, clean_chain, clean_buckets, historydb_cleanup,
  hash_modulo, historydb_lookup, historydb_load_entry, Parsed, not_json, incomplete, entry,
  is_outdated, new_cell,
}
use aprsc.Historydb.Refines.{empty}

-- The cells of the first `n` buckets.
pub total : ℕ → (ℕ → List Cell) → ℕ
total zero hash = 0
total (suc n) hash = total n hash + length (hash n)

-- The table under the operations; each insertion and each entry loaded gets its cell.
pub data Reach (storetime : ℕ) : Historydb → Type 0 where
  start : Reach storetime empty
  inserted :
      (tick : ℕ) (pb : Pbuf) {db : Historydb}
      → Reach storetime db
      → Reach storetime (historydb_insert true tick storetime pb db).1
  looked_up :
      (tick : ℕ) (key : Bytes) {db : Historydb}
      → Reach storetime db
      → Reach storetime (historydb_lookup tick storetime key db).1
  cleaned :
      (tick : ℕ) {db : Historydb}
      → Reach storetime db
      → Reach storetime (historydb_cleanup tick storetime db)
  loaded :
      (tick : ℕ) (e : Parsed) {db : Historydb}
      → Reach storetime db
      → Reach storetime (historydb_load_entry true tick storetime e db).1

total-update_of_le :
    (n : ℕ) (hash : ℕ → List Cell) (i : ℕ) (c : List Cell)
    → n ≤ i
    → total n (update hash i c) ≡ total n hash
unfolding total
total-update_of_le zero hash i c le = refl
total-update_of_le (suc n) hash i c le =
    let ih = total-update_of_le n hash i c (omega arith) in ground arith

total-update :
    (n : ℕ) (hash : ℕ → List Cell) (i : ℕ) (c : List Cell)
    → i < n
    → total n (update hash i c) + length (hash i) ≡ total n hash + length c
unfolding total
total-update zero hash i c lt = absurd (omega arith)
total-update (suc n) hash i c lt = elim (Bool-cases (i == n)) [
  | inl e ↦ let ih = total-update_of_le n hash i c (ground arith) in ground arith
  | inr e ↦ let ih = total-update n hash i c (ground arith) in ground arith
]

total-empty : (n : ℕ) → total n (λ i. []) ≡ 0
unfolding total
total-empty zero = refl
total-empty (suc n) = omega (arith, total-empty n)

slot_of-lt : (key : Bytes) → slot_of key < hash_modulo
unfolding slot_of fold_hash
slot_of-lt key = omega arith

length-append_new :
    (updated isdead : Bool) (key : Bytes) (new : Report)
    → length (append_new true updated key isdead new) ≡ (if not updated && not isdead then 1 else 0)
unfolding append_new
length-append_new true isdead key new = refl
length-append_new false true key new = refl
length-append_new false false key new = refl

module _ (tick storetime : ℕ) where
  length-scan :
      (key : Bytes) (isdead : Bool) (new : Report) (chain : List Cell)
      → length (scan tick storetime key isdead new chain).chain
          + (scan tick storetime key isdead new chain).freed
        ≡ length chain
  unfolding scan
  length-scan key isdead new [] = refl
  length-scan key isdead new (cp ∷ rest) = let ih = length-scan key isdead new rest in ground arith

  length-clean_chain :
      (chain : List Cell)
      → length (clean_chain tick storetime chain).0 + (clean_chain tick storetime chain).1
        ≡ length chain
  unfolding clean_chain
  length-clean_chain [] = refl
  length-clean_chain (cp ∷ rest) = let ih = length-clean_chain rest in ground arith

  total-clean_buckets :
      (m n : ℕ) (hash : ℕ → List Cell)
      → n ≤ m
      → total m (clean_buckets tick storetime n hash).0 + (clean_buckets tick storetime n hash).1
        ≡ total m hash
  unfolding clean_buckets
  total-clean_buckets m zero hash le = omega arith
  total-clean_buckets m (suc n) hash le =
      let r = clean_buckets tick storetime n hash in
      let ih = total-clean_buckets m n hash (omega arith) in
      let one = length-clean_chain (r.0 n) in
      let put = total-update m r.0 n (clean_chain tick storetime (r.0 n)).0 (omega arith) in
      omega arith

  gauge-clean_buckets :
      (n gauge : ℕ) (hash : ℕ → List Cell)
      → gauge ≡ total n hash
      → gauge - (clean_buckets tick storetime n hash).1
        ≡ total n (clean_buckets tick storetime n hash).0
  gauge-clean_buckets n gauge hash g =
      let same = total-clean_buckets n n hash (omega arith) in omega arith

  length-put_chain :
      (key : Bytes) (isdead : Bool) (new : Report) (chain : List Cell)
      → length (put_chain true tick storetime key isdead new chain)
          + (scan tick storetime key isdead new chain).freed
        ≡ length chain
          + (if not (scan tick storetime key isdead new chain).updated && not isdead then 1 else 0)
  unfolding put_chain
  length-put_chain key isdead new chain =
      let r = scan tick storetime key isdead new chain in
      let app = length-append r.chain (append_new true r.updated key isdead new) in
      let one = length-append_new r.updated isdead key new in
      omega (arith, app, one, length-scan key isdead new chain)

-- A cell in front of a chain.
one_more :
    (n gauge : ℕ) (hash : ℕ → List Cell) (i : ℕ) (cp : Cell)
    → total n (update hash i (cp ∷ hash i)) + length (hash i)
      ≡ total n hash + length {A = Cell} (cp ∷ hash i)
    → gauge ≡ total n hash
    → gauge + 1 ≡ total n (update hash i (cp ∷ hash i))
one_more n gauge hash i cp put g = omega arith

-- The gauge counts the cells.
abbrev pub IsGauged : Historydb → Type 0
IsGauged db = db.cellgauge ≡ total hash_modulo db.hash

module _ (tick storetime : ℕ) where
  put-IsGauged :
      (key : Bytes) (isdead : Bool) (new : Report) (db : Historydb)
      → IsGauged db
      → IsGauged (historydb_put true tick storetime key isdead new db)
  unfolding historydb_put
  put-IsGauged key isdead new db g =
      let i = slot_of key in
      let chain = put_chain true tick storetime key isdead new (db.hash i) in
      omega (
        arith,
        total-update hash_modulo db.hash i chain (slot_of-lt key),
        length-put_chain tick storetime key isdead new (db.hash i),
      )

  cleanup-IsGauged : (db : Historydb) → IsGauged db → IsGauged (historydb_cleanup tick storetime db)
  unfolding historydb_cleanup
  cleanup-IsGauged db g = gauge-clean_buckets tick storetime hash_modulo db.cellgauge db.hash g

  load-IsGauged :
      (e : Parsed) (db : Historydb)
      → IsGauged db
      → IsGauged (historydb_load_entry true tick storetime e db).1
  unfolding historydb_load_entry
  load-IsGauged not_json db g = g
  load-IsGauged incomplete db g = g
  load-IsGauged (entry e) db g =
      let i = slot_of e.name in
      let cp = new_cell e.name e.saved in
      let put = total-update hash_modulo db.hash i (cp ∷ db.hash i) (slot_of-lt e.name) in
      elim (Bool-cases (is_outdated tick storetime cp)) [
        | inl x ↦ rw x g
        | inr x ↦ rw x (one_more hash_modulo db.cellgauge db.hash i cp put g)
      ]

  insert-IsGauged :
      (pb : Pbuf) (db : Historydb)
      → IsGauged db
      → IsGauged (historydb_insert true tick storetime pb db).1
  unfolding historydb_insert insert_as
  insert-IsGauged pb db g = by_position pb.has_pos
    where
      new : Report
      new = report_of pb

      by_name :
          (named : Option (Bytes × Bool)) → IsGauged (insert_as true tick storetime new db named).1
      by_name none = g
      by_name (some (key, isdead)) = put-IsGauged key isdead new db g

      by_position :
          (has_pos : Bool)
          → IsGauged
              (if not has_pos
                then (negsuc 0, record db { noposcount = db.noposcount + 1 })
                else insert_as true tick storetime new db (key_of pb)).1
      by_position true = by_name (key_of pb)
      by_position false = g

-- In every reachable state of the table, with a cell for each insertion and loaded entry that asks
-- for one, `historydb_cellgauge` is the number of cells in the 8192 buckets.
pub gauge_counts_cells :
    {storetime : ℕ} {db : Historydb} → Reach storetime db → db.cellgauge ≡ total hash_modulo db.hash
unfolding historydb_lookup
gauge_counts_cells start = sym (total-empty hash_modulo)
gauge_counts_cells {storetime} (inserted tick pb {db} r) =
    insert-IsGauged tick storetime pb db (gauge_counts_cells r)
gauge_counts_cells (looked_up tick key r) = gauge_counts_cells r
gauge_counts_cells {storetime} (cleaned tick {db} r) =
    cleanup-IsGauged tick storetime db (gauge_counts_cells r)
gauge_counts_cells {storetime} (loaded tick e {db} r) =
    load-IsGauged tick storetime e db (gauge_counts_cells r)
