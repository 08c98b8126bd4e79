-- ===== src/Dupecheck/Soundness.antt =====
-- About the packets that src/dupecheck.c calls duplicates.
use aprsc.Prelude.{
  ℕ, ◌≡◌, sym, ap, Bool, true, false, ◌⊎◌, inl, inr, List, [], ◌∷◌, ◌++◌, if◌then◌else◌, Bytes,
  find?-sound, Any, Any-elim, Any-mono, All, All-Any, All-mono, All-self, All-split,
}
use mathlib.Core.Path.{subst}
use aprsc.Dupecheck.Mangle.{variants}
use aprsc.Dupecheck.Records.{is_recent_sound}
use aprsc.Dupecheck.Keep.{parts_cases}
use aprsc.Dupecheck.Origin.{AllPackets, parts-AllPackets, cleanup-AllPackets}
use aprsc.Dupecheck.{
  Db, bucket, Verdict, unseen, duplicate, no_cell, dupecheck_parts, packet_hash, is_recent, Event,
  check, clean, apply, run,
}

-- `s` is the packet `p`, or one of the damaged forms stored with it.
abbrev pub IsFormOf : Bytes → Bytes → Type 0
IsFormOf s p = (s ≡ p) ⊎ Any (λ f. f.1 ≡ s) (variants p)

abbrev is_unseen : Verdict → Bool
is_unseen unseen = true
is_unseen duplicate = false
is_unseen no_cell = false

-- The packets that passed as unseen, in a run from `db`.
abbrev pub passed : ℕ → List Event → Db → List Bytes
passed storetime [] db = []
passed storetime (check tick addr payload ∷ events) db =
    (if is_unseen (dupecheck_parts storetime tick addr payload db).0
      then (addr ++ payload) ∷ []
      else [])
    ++ passed storetime events (apply storetime (check tick addr payload) db)
passed storetime (clean tick ∷ events) db =
    passed storetime events (apply storetime (clean tick) db)

module _ (all : List Bytes) where
  abbrev Known : Bytes → Type 0
  Known s = Any (IsFormOf s) all

  own-Known : (p : Bytes) → Any (λ y. y ≡ p) all → Known p
  own-Known p m = Any-mono (λ y. y ≡ p) (IsFormOf p) all (λ y e. inl (sym e)) m

  forms-Known : (p : Bytes) → Any (λ y. y ≡ p) all → All (λ f. Known f.1) (variants p)
  forms-Known p m =
      All-mono (λ f. Any (λ g. g ≡ f) (variants p)) (λ f. Known f.1) (variants p)
        (λ f among.
          Any-mono (λ y. y ≡ p) (IsFormOf f.1) all
            (λ y e. inr (
              subst (λ q. Any (λ g. g.1 ≡ f.1) (variants q)) (sym e)
                (Any-mono (λ g. g ≡ f) (λ g. g.1 ≡ f.1) (variants p) (λ g h. ap (λ x. x.1) h)
                  among)))
            m)
        (All-self (variants p))

  run-Known :
      (storetime : ℕ) (events : List Event) (db : Db)
      → All (λ p. Any (λ y. y ≡ p) all) (passed storetime events db)
      → AllPackets Known db
      → AllPackets Known (run storetime events db)
  unfolding run apply
  run-Known storetime [] db ps known = known
  run-Known storetime (check tick addr payload ∷ events) db ps known =
      let split =
        All-split (λ p. Any (λ y. y ≡ p) all)
          (if is_unseen (dupecheck_parts storetime tick addr payload db).0
            then (addr ++ payload) ∷ []
            else [])
          (passed storetime events (apply storetime (check tick addr payload) db)) ps in
      run-Known storetime events _ split.1 (
        parts-AllPackets Known storetime tick addr payload db
          (λ e.
            let own = new_one (dupecheck_parts storetime tick addr payload db).0 e split.0 in
            (own-Known (addr ++ payload) own, forms-Known (addr ++ payload) own))
          known)
    where
      new_one :
          (v : Verdict)
          → v ≡ unseen
          → All (λ p. Any (λ y. y ≡ p) all) (if is_unseen v then (addr ++ payload) ∷ [] else [])
          → Any (λ y. y ≡ addr ++ payload) all
      new_one v e h = (rw e at h).0
  run-Known storetime (clean tick ∷ events) db ps known =
      run-Known storetime events _ ps (cleanup-AllPackets Known storetime tick db known)

-- From an empty table, a packet is called a duplicate only if its bytes are those of a packet that
-- passed earlier in the run, or of one of the damaged forms stored with such a packet.
pub duplicate_has_origin :
    (storetime tick : ℕ) (addr payload : Bytes) (events : List Event) (db : Db)
    → ((j : ℕ) → db.buckets j ≡ [])
    → (dupecheck_parts storetime tick addr payload (run storetime events db)).0 ≡ duplicate
    → Any (IsFormOf (addr ++ payload)) (passed storetime events db)
duplicate_has_origin storetime tick addr payload events db empty h =
    let all = passed storetime events db in
    let db' = run storetime events db in
    let known = run-Known all storetime events db (All-self all) (λ j. rw (empty j) tt) in
    elim (parts_cases storetime tick addr payload db') [
      | inl (r, e, _) ↦
          let found =
            find?-sound (λ x. x.packet ≡ addr ++ payload)
              (is_recent storetime tick (packet_hash addr payload) addr payload)
              (db'.buckets (bucket (packet_hash addr payload)))
              (λ x t.
                (is_recent_sound storetime tick (packet_hash addr payload) addr payload x t).2)
              e in
          Any-elim (λ x. Any (IsFormOf (addr ++ payload)) all)
            (Any (IsFormOf (addr ++ payload)) all) _ (λ x m. m)
            (All-Any (λ x. Any (IsFormOf x.packet) all) (λ x. x.packet ≡ addr ++ payload)
              (λ x. Any (IsFormOf (addr ++ payload)) all) _
              (λ x k q. subst (λ p. Any (IsFormOf p) all) q k)
              (known (bucket (packet_hash addr payload))) found.1)
      | inr (inl (db2, e, f)) ↦ absurd (cc (ap (λ p. p.0) f))
      | inr (inr f) ↦ absurd (cc (ap (λ p. p.0) f))
    ]
