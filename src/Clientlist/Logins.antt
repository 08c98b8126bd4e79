-- ===== src/Clientlist/Logins.antt =====
-- About who is found on the list of src/clientlist.c, from an add on.
use aprsc.Prelude.{
  update_self, ℕ, zero, suc, ◌≤◌, ◌≡◌, ◌≢◌, ◌∙◌, refl, sym, ap, arith, true, ◌⊎◌, inl, inr, none,
  Bool-cases, List, [], ◌∷◌, ◌==◌, Bytes, length, take, starts_with, Any, All, find?-Any,
}
use mathlib.Core.Path.{subst}
use aprsc.Clientlist.{
  Login, Buckets, Session, bucket_of, is_login_of, check_if_validated_client, new_login,
  clientlist_add, without_id, clientlist_remove, LoginEvent, add, remove, login_step, login_run,
}

-- An event that leaves the client `id` listed.
abbrev pub Spares : ℕ → LoginEvent → Type 0
Spares id (add c) = Unit
Spares id (remove c) = c.id ≢ id

take_all : (n : ℕ) (xs : Bytes) → length xs ≤ n → take n xs ≡ xs
take_all zero [] h = refl
take_all (suc n) [] h = refl
take_all zero (x ∷ xs) h = absurd (omega arith)
take_all (suc n) (x ∷ xs) h = ap (λ rest. x ∷ rest) (take_all n xs (omega arith))

starts_with_self : (xs : Bytes) → starts_with xs xs ≡ true
unfolding starts_with
starts_with_self [] = refl
starts_with_self (x ∷ xs) = ground (arith, starts_with_self xs)

module _ (c : Session) where
  -- The client's login stands in its bucket.
  abbrev Listed : Buckets → Type 0
  Listed list = Any (λ l. l ≡ new_login c) (list (bucket_of c.name))

  without_id-keeps :
      (id : ℕ) (chain : List Login)
      → id ≢ c.id
      → Any (λ l. l ≡ new_login c) chain
      → Any (λ l. l ≡ new_login c) (without_id id chain)
  unfolding without_id
  without_id-keeps id [] ne m = m
  without_id-keeps id (l ∷ chain) ne m = elim (Bool-cases (l.client_id == id)) [
    | inl e ↦ rw e (kept m (ground arith))
    | inr e ↦ rw e (kept_in m (without_id-keeps id chain ne))
  ]
    where
      kept :
          (l ≡ new_login c) ⊎ Any (λ x. x ≡ new_login c) chain
          → l.client_id ≡ id
          → Any (λ x. x ≡ new_login c) chain
      kept (inl own) f = absurd (ne (sym f ∙ ap Login.client_id own))
      kept (inr rest) f = rest

      kept_in :
          (l ≡ new_login c) ⊎ Any (λ x. x ≡ new_login c) chain
          → (Any (λ x. x ≡ new_login c) chain → Any (λ x. x ≡ new_login c) (without_id id chain))
          → (l ≡ new_login c) ⊎ Any (λ x. x ≡ new_login c) (without_id id chain)
      kept_in (inl own) ih = inl own
      kept_in (inr rest) ih = inr (ih rest)

  step-Listed :
      (list : Buckets) (e : LoginEvent) → Spares c.id e → Listed list → Listed (login_step list e)
  unfolding login_step clientlist_add clientlist_remove
  step-Listed list (add d) s m = elim (Bool-cases (bucket_of d.name == bucket_of c.name)) [
    | inr e ↦ rw e m
    | inl e ↦
        let same : bucket_of d.name ≡ bucket_of c.name = ground arith in
        rw e (inr (subst (λ i. Any (λ l. l ≡ new_login c) (list i)) (sym same) m))
  ]
  step-Listed list (remove d) s m = elim (Bool-cases (bucket_of d.name == bucket_of c.name)) [
    | inr e ↦ rw e m
    | inl e ↦
        let same : bucket_of d.name ≡ bucket_of c.name = ground arith in
        rw e (
          without_id-keeps d.id (list (bucket_of d.name)) s
            (subst (λ i. Any (λ l. l ≡ new_login c) (list i)) (sym same) m))
  ]

  run-Listed :
      (list : Buckets) (events : List LoginEvent)
      → All (Spares c.id) events
      → Listed list
      → Listed (login_run list events)
  unfolding login_run
  run-Listed list [] s m = m
  run-Listed list (e ∷ events) s m =
      run-Listed (login_step list e) events s.1 (step-Listed list e s.0 m)

  added-Listed : (list : Buckets) → Listed (login_step list (add c))
  unfolding login_step clientlist_add
  added-Listed list =
      subst (λ chain. Any (λ l. l ≡ new_login c) chain)
        (sym (update_self list (bucket_of c.name) (new_login c ∷ list (bucket_of c.name))))
        (inl refl)

  own-is_login_of :
      c.is_validated ≡ true → length c.name ≤ 15 → is_login_of c.name (new_login c) ≡ true
  own-is_login_of v short = ground (
    arith,
    v,
    subst (λ s. starts_with c.name s ≡ true) (sym (take_all 15 c.name short))
        (starts_with_self c.name),
  )

-- A validated login whose name fits its field is found from the time it is added on, whatever
-- logins are added and removed afterwards, as long as its own client is not.
pub login_is_found :
    (list : Buckets) (c : Session) (events : List LoginEvent)
    → c.is_validated ≡ true
    → length c.name ≤ 15
    → All (Spares c.id) events
    → check_if_validated_client (login_run (login_step list (add c)) events) c.name ≢ none
unfolding check_if_validated_client
login_is_found list c events v short spared =
    let final = login_run (login_step list (add c)) events in
    let m = run-Listed c (login_step list (add c)) events spared (added-Listed c list) in
    let (l, e) =
      find?-Any (λ l. l ≡ new_login c) (is_login_of c.name) (final (bucket_of c.name))
        (λ l own. subst (λ x. is_login_of c.name x ≡ true) (sym own) (own-is_login_of c v short))
        m in
    λ none_found. absurd (cc (rw (e, check_if_validated_client) at none_found))
