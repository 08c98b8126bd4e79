-- ===== src/Tests/Dupes.antt =====
-- The table of src/dupecheck.c on a few packets.
use aprsc.Prelude.{◌≡◌, ◌≢◌, refl, arith, inl, List, [], ◌∷◌, ◌++◌, Bytes, codes, Any}
use aprsc.Keyhash.{keyhash}
use aprsc.Dupecheck.{
  Db, Event, check, clean, unseen, duplicate, dupecheck_parts, apply, run, dupecheck_append,
}
use aprsc.Dupecheck.Mangle.{variants, trim_forms}
use aprsc.Dupecheck.Memory.{check_remembers, forms_are_remembered}
use aprsc.Dupecheck.Soundness.{IsFormOf, passed, duplicate_has_origin}

abbrev pub empty : Db
empty = record { buckets = λ _. []; free = 0; fresh = 20; cellgauge = 0; dupetypes = λ _. 0 }

abbrev addr : Bytes
addr = codes "SRC>APRS"

abbrev payload : Bytes
payload = codes ":>on air "

abbrev trimmed : Bytes
trimmed = codes ":>on air"

abbrev other : Event
other = check 105 (codes "N0X>APRS") (codes ":>hi")

new : (dupecheck_parts 30 100 addr payload empty).0 ≡ unseen
unfolding dupecheck_parts dupecheck_append
new = refl

check_remembers_example :
    (dupecheck_parts 30 120 addr payload
      (run 30 (other ∷ clean 110 ∷ []) (apply 30 (check 100 addr payload) empty))).0
    ≡ duplicate
check_remembers_example =
    check_remembers 30 100 120 addr payload empty (other ∷ clean 110 ∷ []) new (omega arith)
      (omega arith) ((omega arith, omega arith), ((omega arith, omega arith), tt))

trims : Any (λ f. f.1 ≡ addr ++ trimmed) (variants (addr ++ payload))
unfolding variants trim_forms
trims = inl refl

hash-pos : keyhash addr 0 ≢ 0
unfolding keyhash
hash-pos e = cc

forms_are_remembered_example :
    (dupecheck_parts 30 120 addr trimmed
      (run 30 (other ∷ clean 110 ∷ []) (apply 30 (check 100 addr payload) empty))).0
    ≡ duplicate
forms_are_remembered_example =
    forms_are_remembered 30 100 120 addr payload addr trimmed empty (other ∷ clean 110 ∷ []) new
      (omega arith) trims hash-pos (omega arith) (omega arith)
      ((omega arith, omega arith), ((omega arith, omega arith), tt))

abbrev first : List Event
first = check 100 addr payload ∷ []

again : (dupecheck_parts 30 120 addr payload (run 30 first empty)).0 ≡ duplicate
unfolding run
again = check_remembers 30 100 120 addr payload empty [] new (omega arith) (omega arith) tt

duplicate_has_origin_example : Any (IsFormOf (addr ++ payload)) (passed 30 first empty)
duplicate_has_origin_example =
    duplicate_has_origin 30 120 addr payload first empty (λ j. refl) again
