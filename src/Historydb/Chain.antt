-- ===== src/Historydb/Chain.antt =====
-- About one chain of src/historydb.c: what a look-up finds in it after a scan or a cleanup.
use aprsc.Prelude.{
  ℕ, ◌≤◌, Bool, true, false, ◌||◌, or_else, Option, none, some, List, [], ◌∷◌, ◌≡◌, ◌≢◌, refl, inl,
  inr, arith, Bool-cases, ltb, ◌+◌, if◌then◌else◌, Bytes, same_bytes, same_bytes_iff,
  same_bytes_refl, find?, find?-append,
}
use aprsc.Historydb.{
  Report, Cell, is_outdated, is_key, scan, append_new, new_cell, is_valid, is_answer, put_chain,
  clean_chain,
}

-- The report that a look-up hands out.
abbrev pub found : Option Cell → Option Report
found none = none
found (some cp) = some cp.report

-- A report, while it is not too old to hand out.
abbrev pub while_valid : ℕ → ℕ → Report → Option Report
while_valid now storetime r = if ltb (now + 300) (r.arrivaltime + storetime) then some r else none

-- What is too old to keep is too old to hand out, then and later.
expired_not_valid :
    (tick now storetime : ℕ) (cp : Cell)
    → tick ≤ now
    → is_outdated tick storetime cp ≡ true
    → is_valid now storetime cp ≡ false
expired_not_valid tick now storetime cp le e = ground arith

is_key_self : (key : Bytes) (r : Report) → is_key key (new_cell key r) ≡ true
is_key_self key r = rw (same_bytes_refl key) (ground arith)

is_key-key : (key : Bytes) (cp : Cell) → is_key key cp ≡ true → same_bytes cp.key key ≡ true
is_key-key key cp e = ground arith

-- A cell goes by one key only.
is_key_ne : (key q : Bytes) (cp : Cell) → q ≢ key → is_key key cp ≡ true → is_key q cp ≡ false
is_key_ne key q cp ne e = elim (Bool-cases (is_key q cp)) [
  | inl f ↦
      let a = (same_bytes_iff cp.key key).0 (is_key-key key cp e) in
      let b = (same_bytes_iff cp.key q).0 (is_key-key q cp f) in absurd (ne cc)
  | inr f ↦ f
]

or_else-none : (o : Option Report) → or_else o none ≡ o
unfolding or_else
or_else-none none = refl
or_else-none (some r) = refl

found-or_else : (a b : Option Cell) → found (or_else a b) ≡ or_else (found a) (found b)
unfolding or_else
found-or_else none b = refl
found-or_else (some x) b = refl

either_way :
    (isdead updated : Bool) (o : Option Report)
    → (isdead ≡ true → updated ≡ false)
    → or_else (if updated then o else none) (if updated || isdead then none else o)
      ≡ (if isdead then none else o)
unfolding or_else
either_way true true o dead = absurd (let x = dead refl in ground arith)
either_way false true o dead = or_else-none o
either_way true false o dead = refl
either_way false false o dead = refl

module _ (tick now storetime : ℕ) (le : tick ≤ now) where
  -- An entry that a look-up passes over may be left out.
  find_expired :
      (q : Bytes) (cp : Cell) (rest : List Cell)
      → is_outdated tick storetime cp ≡ true
      → find? (is_answer now storetime q) (cp ∷ rest) ≡ find? (is_answer now storetime q) rest
  find_expired q cp rest e = let v = expired_not_valid tick now storetime cp le e in ground arith

  pub find-clean_chain :
      (q : Bytes) (chain : List Cell)
      → find? (is_answer now storetime q) (clean_chain tick storetime chain).0
        ≡ find? (is_answer now storetime q) chain
  unfolding clean_chain
  find-clean_chain q [] = refl
  find-clean_chain q (cp ∷ rest) = elim (Bool-cases (is_outdated tick storetime cp)) [
    | inl e ↦ rw (e, find_expired q cp rest e) (find-clean_chain q rest)
    | inr e ↦ rw (e, find-clean_chain q rest) refl
  ]

  -- A scan for one key leaves what a look-up of another finds.
  find-scan_ne :
      (key q : Bytes) (isdead : Bool) (new : Report) (chain : List Cell)
      → q ≢ key
      → find? (is_answer now storetime q) (scan tick storetime key isdead new chain).chain
        ≡ find? (is_answer now storetime q) chain
  unfolding scan
  find-scan_ne key q isdead new [] ne = refl
  find-scan_ne key q isdead new (cp ∷ rest) ne =
      let ih = find-scan_ne key q isdead new rest ne in
      elim (Bool-cases (is_outdated tick storetime cp)) [
        | inl e ↦ rw (e, find_expired q cp rest e) ih
        | inr e ↦ elim (Bool-cases (is_key key cp)) [
          | inl k ↦ let other = is_key_ne key q cp ne k in ground (arith, ih)
          | inr k ↦ ground (arith, ih)
        ]
      ]

  -- What a scan for a key leaves of that key: nothing, or the new report.
  find-scan_self :
      (key : Bytes) (isdead : Bool) (new : Report) (chain : List Cell)
      → found (find? (is_answer now storetime key) (scan tick storetime key isdead new chain).chain)
        ≡ (if (scan tick storetime key isdead new chain).updated
            then while_valid now storetime new
            else none)
  unfolding scan
  find-scan_self key isdead new [] = refl
  find-scan_self key isdead new (cp ∷ rest) =
      let ih = find-scan_self key isdead new rest in
      elim (Bool-cases (is_outdated tick storetime cp)) [
        | inl e ↦ rw e ih
        | inr e ↦ elim (Bool-cases (is_key key cp)) [
          | inl k ↦ ground (arith, ih)
          | inr k ↦ ground (arith, ih)
        ]
      ]

  -- A scan that kills updates nothing.
  scan-updated :
      (key : Bytes) (isdead : Bool) (new : Report) (chain : List Cell)
      → isdead ≡ true
      → (scan tick storetime key isdead new chain).updated ≡ false
  unfolding scan
  scan-updated key isdead new [] d = refl
  scan-updated key isdead new (cp ∷ rest) d = ground (arith, scan-updated key isdead new rest d)

  find-appended_ne :
      (key q : Bytes) (room updated isdead : Bool) (new : Report)
      → q ≢ key
      → find? (is_answer now storetime q) (append_new room updated key isdead new) ≡ none
  unfolding append_new
  find-appended_ne key q room updated isdead new ne =
      let other = is_key_ne key q (new_cell key new) ne (is_key_self key new) in ground arith

  find-appended_self :
      (key : Bytes) (updated isdead : Bool) (new : Report)
      → found (find? (is_answer now storetime key) (append_new true updated key isdead new))
        ≡ (if updated || isdead then none else while_valid now storetime new)
  unfolding append_new
  find-appended_self key updated isdead new = let same = is_key_self key new in ground arith

  -- The chain after a scan and what is appended, asked for another key than that of the scan.
  pub find-put_ne :
      (key q : Bytes) (isdead : Bool) (new : Report) (chain : List Cell)
      → q ≢ key
      → found
          (find? (is_answer now storetime q) (put_chain true tick storetime key isdead new chain))
        ≡ found (find? (is_answer now storetime q) chain)
  unfolding put_chain or_else
  find-put_ne key q isdead new chain ne =
      let r = scan tick storetime key isdead new chain in
      rw
        (
          find?-append (is_answer now storetime q) r.chain
              (append_new true r.updated key isdead new),
          found-or_else (find? (is_answer now storetime q) r.chain)
              (find? (is_answer now storetime q) (append_new true r.updated key isdead new)),
          find-appended_ne key q true r.updated isdead new ne,
          find-scan_ne key q isdead new chain ne,
        )
        (or_else-none (found (find? (is_answer now storetime q) chain)))

  -- The same, asked for the key of the scan.
  pub find-put_self :
      (key : Bytes) (isdead : Bool) (new : Report) (chain : List Cell)
      → found
          (find? (is_answer now storetime key) (put_chain true tick storetime key isdead new chain))
        ≡ (if isdead then none else while_valid now storetime new)
  unfolding put_chain or_else
  find-put_self key isdead new chain =
      let r = scan tick storetime key isdead new chain in
      rw
        (
          find?-append (is_answer now storetime key) r.chain
              (append_new true r.updated key isdead new),
          found-or_else (find? (is_answer now storetime key) r.chain)
              (find? (is_answer now storetime key) (append_new true r.updated key isdead new)),
          find-scan_self key isdead new chain,
          find-appended_self key r.updated isdead new,
        )
        (either_way isdead r.updated (while_valid now storetime new)
          (scan-updated key isdead new chain))
