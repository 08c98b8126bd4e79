-- ===== src/Clientlist/Sound.antt =====
-- About who is found on the list of src/clientlist.c, traced back to the adds.
use aprsc.Prelude.{
  ℕ, zero, suc, ◌≡◌, ◌∙◌, refl, sym, ap, arith, Bool, true, inl, inr, some, Option-cases,
  Bool-cases, List, [], ◌∷◌, ◌==◌, Bytes, length, take, starts_with, find?, Any, All, Any-mono,
  All-mono, All-self,
}
use mathlib.Core.Path.{subst}
use aprsc.Clientlist.{
  Login, Buckets, bucket_of, is_login_of, check_if_validated_client, new_login, clientlist_add,
  without_id, clientlist_remove, LoginEvent, add, remove, login_step, login_run,
}

-- The event is the login of a validated client with this name and socket.
abbrev pub Grants : Bytes → ℕ → LoginEvent → Type 0
Grants name fd (add c) = (c.name ≡ name) × (c.is_validated ≡ true) × (c.socket ≡ fd)
Grants name fd (remove c) = ⊥

some-injective : {A : Type 0} {a b : A} → some a ≡ some b → a ≡ b
some-injective e = cc

find?-All :
    (Q : Login → Type 0) (p : Login → Bool) (chain : List Login) {l : Login}
    → All Q chain
    → find? p chain ≡ some l
    → Q l × (p l ≡ true)
find?-All Q p [] q e = absurd cc
find?-All Q p (x ∷ chain) q e = elim (Bool-cases (p x)) [
  | inl t ↦
      let same = some-injective (rw t at e) in (subst Q same q.0, subst (λ l. p l ≡ true) same t)
  | inr f ↦ find?-All Q p chain q.1 (rw f at e)
]

starts_with-same :
    (n : ℕ) (a b : Bytes) → starts_with a (take n b) ≡ true → length b ≡ length a → b ≡ a
unfolding starts_with
starts_with-same n [] [] h e = refl
starts_with-same n [] (y ∷ b) h e = absurd (omega (arith, e))
starts_with-same zero (x ∷ a) b h e = absurd cc
starts_with-same (suc n) (x ∷ a) [] h e = absurd cc
starts_with-same (suc n) (x ∷ a) (y ∷ b) h e =
    let xy : y ≡ x = ground arith in
    let rest = starts_with-same n a b (ground arith) (omega (arith, e)) in rw (xy, rest) refl

module _ (Q : Login → Type 0) where
  -- What an event may put on the list.
  abbrev Allowed : LoginEvent → Type 0
  Allowed (add c) = Q (new_login c)
  Allowed (remove c) = Unit

  without_id-All : (id : ℕ) (chain : List Login) → All Q chain → All Q (without_id id chain)
  unfolding without_id
  without_id-All id [] q = q
  without_id-All id (l ∷ chain) q =
      let rest = without_id-All id chain q.1 in
      elim (Bool-cases (l.client_id == id)) [ inl e ↦ rw e q.1 | inr e ↦ rw e (q.0, rest) ]

  step-All :
      (list : Buckets) (e : LoginEvent)
      → Allowed e
      → ((i : ℕ) → All Q (list i))
      → (i : ℕ) → All Q (login_step list e i)
  unfolding login_step clientlist_add clientlist_remove
  step-All list (add c) q all i = elim (Bool-cases (bucket_of c.name == i)) [
    | inl e ↦ rw e (q, all (bucket_of c.name))
    | inr e ↦ rw e (all i)
  ]
  step-All list (remove c) q all i = elim (Bool-cases (bucket_of c.name == i)) [
    | inl e ↦ rw e (without_id-All c.id (list (bucket_of c.name)) (all (bucket_of c.name)))
    | inr e ↦ rw e (all i)
  ]

  run-All :
      (list : Buckets) (events : List LoginEvent)
      → All Allowed events
      → ((i : ℕ) → All Q (list i))
      → (i : ℕ) → All Q (login_run list events i)
  unfolding login_run
  run-All list [] q all = all
  run-All list (e ∷ events) q all = run-All (login_step list e) events q.1 (step-All list e q.0 all)

abbrev Adds : Login → LoginEvent → Type 0
Adds l (add c) = l ≡ new_login c
Adds l (remove c) = ⊥

every-Allowed : (events : List LoginEvent) → All (Allowed (λ l. Any (Adds l) events)) events
every-Allowed events =
    All-mono (λ x. Any (λ y. y ≡ x) events) (Allowed (λ l. Any (Adds l) events)) events allowed
      (All-self events)
  where
    allowed : (x : LoginEvent) → Any (λ y. y ≡ x) events → Allowed (λ l. Any (Adds l) events) x
    allowed (add c) m =
        Any-mono (λ y. y ≡ add c) (Adds (new_login c)) events
          (λ y e. subst (Adds (new_login c)) (sym e) refl) m
    allowed (remove c) m = tt

Adds-Grants :
    (name : Bytes) (fd : ℕ) (l : Login)
    → is_login_of name l ≡ true
    → l.fd ≡ fd
    → (e : LoginEvent) → Adds l e
    → Grants name fd e
Adds-Grants name fd l t f (remove c) a = a
Adds-Grants name fd l t f (add c) a =
    let t' : is_login_of name (new_login c) ≡ true = subst (λ x. is_login_of name x ≡ true) a t in
    (
      starts_with-same 15 name c.name (ground arith) (ground arith),
      ground arith,
      sym (ap Login.fd a) ∙ f,
    )

-- From an empty list, a socket that is found for a name is that of a validated client that was
-- added with exactly this name.
pub found_has_logged_in :
    (events : List LoginEvent) (name : Bytes) (fd : ℕ)
    → check_if_validated_client (login_run (λ _. []) events) name ≡ some fd
    → Any (Grants name fd) events
unfolding check_if_validated_client
found_has_logged_in events name fd h =
    let final = login_run (λ _. []) events in
    elim (Option-cases (find? (is_login_of name) (final (bucket_of name)))) [
      | inl e ↦ absurd (cc (rw (e, check_if_validated_client) at h))
      | inr (l, e) ↦
          let (q, t) =
            find?-All (λ l. Any (Adds l) events) (is_login_of name) (final (bucket_of name))
              (run-All (λ l. Any (Adds l) events) (λ _. []) events (every-Allowed events) (λ i. tt)
                (bucket_of name))
              e in
          Any-mono (Adds l) (Grants name fd) events
            (Adds-Grants name fd l t (some-injective (rw (e, check_if_validated_client) at h))) q
    ]
