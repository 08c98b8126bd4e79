-- ===== src/Prelude/Table.antt =====
-- Arrays as functions of the index, chains of a hash table, and predicates over a chain.
use Prim.Native.Nat.{ℕ}
use mathlib.Core.Path.{◌≡◌, subst, refl}
use mathlib.Core.Logic.{◌≢◌, ◌⊎◌, inl, inr}
use mathlib.Core.Bool.{Bool, true}
use mathlib.Core.List.{List, [], ◌∷◌, ◌++◌}
use mathlib.Core.Option.{Option, none, some, or_else}
use native.Mathlib.Omega.{arith}
use aprsc.Prelude.Lists.{All, keep}
use aprsc.Prelude.Logic.{Bool-cases, ◌==◌, if◌then◌else◌}

module _ {ℓ} {A : Type ℓ} where
  -- `a[i] = v`
  abbrev pub update : (ℕ → A) → ℕ → A → ℕ → A
  update a i v j = if i == j then v else a j

  -- The first element that passes the test.
  abbrev pub find? : (A → Bool) → List A → Option A
  find? p [] = none
  find? p (x ∷ xs) = if p x then some x else find? p xs

  -- Some element has the property.
  abbrev pub Any : (A → Type 0) → List A → Type 0
  Any P [] = ⊥
  Any P (x ∷ xs) = P x ⊎ Any P xs

  pub update_self : (a : ℕ → A) (i : ℕ) (v : A) → update a i v i ≡ v
  update_self a i v = ground arith

  pub update_ne : (a : ℕ → A) (i j : ℕ) (v : A) → i ≢ j → update a i v j ≡ a j
  update_ne a i j v h = ground arith

  pub Any-append_left : (P : A → Type 0) (xs ys : List A) → Any P xs → Any P (xs ++ ys)
  Any-append_left P [] ys a = absurd a
  Any-append_left P (x ∷ xs) ys (inl p) = inl p
  Any-append_left P (x ∷ xs) ys (inr a) = inr (Any-append_left P xs ys a)

  pub Any-append_right : (P : A → Type 0) (xs ys : List A) → Any P ys → Any P (xs ++ ys)
  Any-append_right P [] ys a = a
  Any-append_right P (x ∷ xs) ys a = inr (Any-append_right P xs ys a)

  pub Any-mono : (P Q : A → Type 0) (xs : List A) → ((x : A) → P x → Q x) → Any P xs → Any Q xs
  Any-mono P Q [] f a = a
  Any-mono P Q (x ∷ xs) f (inl p) = inl (f x p)
  Any-mono P Q (x ∷ xs) f (inr a) = inr (Any-mono P Q xs f a)

  -- A test that some element passes finds one.
  pub find?-Any :
      (P : A → Type 0) (p : A → Bool) (xs : List A)
      → ((x : A) → P x → p x ≡ true)
      → Any P xs
      → (x : A) × (find? p xs ≡ some x)
  find?-Any P p [] good a = absurd a
  find?-Any P p (x ∷ xs) good (inl h) = (x, rw (good x h))
  find?-Any P p (x ∷ xs) good (inr a) =
      let (y, e) = find?-Any P p xs good a in
      elim (Bool-cases (p x)) [ inl h ↦ (x, rw h) | inr h ↦ (y, rw h e) ]

  -- What a test finds is in the list and passes.
  pub find?-sound :
      (P : A → Type 0) (p : A → Bool) (xs : List A) {y : A}
      → ((x : A) → p x ≡ true → P x)
      → find? p xs ≡ some y
      → P y × Any P xs
  find?-sound P p [] good e = cc
  find?-sound P p (x ∷ xs) {y} good e = elim (Bool-cases (p x)) [
    | inl h ↦ let same : x ≡ y = ground arith in (subst P same (good x h), inl (good x h))
    | inr h ↦ let r = find?-sound P p xs good (ground arith) in (r.0, inr r.1)
  ]

  pub find?-append :
      (p : A → Bool) (xs ys : List A) → find? p (xs ++ ys) ≡ or_else (find? p xs) (find? p ys)
  unfolding or_else
  find?-append p [] ys = refl
  find?-append p (x ∷ xs) ys = elim (Bool-cases (p x)) [
    | inl e ↦ rw e refl
    | inr e ↦ rw e (find?-append p xs ys)
  ]

  pub find?-none :
      (P : A → Type 0) (p : A → Bool) (xs : List A)
      → ((x : A) → P x → p x ≡ true)
      → find? p xs ≡ none
      → ¬ (Any P xs)
  find?-none P p xs good e a = let (x, f) = find?-Any P p xs good a in cc

  -- What all elements have, the one that some element is has.
  pub All-Any :
      (P Q R : A → Type 0) (xs : List A)
      → ((x : A) → P x → Q x → R x)
      → All P xs
      → Any Q xs
      → Any R xs
  All-Any P Q R [] f all any = any
  All-Any P Q R (x ∷ xs) f all (inl q) = inl (f x all.0 q)
  All-Any P Q R (x ∷ xs) f all (inr a) = inr (All-Any P Q R xs f all.1 a)

  pub Any-elim : (P : A → Type 0) (B : Type 0) (xs : List A) → ((x : A) → P x → B) → Any P xs → B
  Any-elim P B [] f a = absurd a
  Any-elim P B (x ∷ xs) f (inl p) = f x p
  Any-elim P B (x ∷ xs) f (inr a) = Any-elim P B xs f a

  pub All-append : (P : A → Type 0) (xs ys : List A) → All P xs → All P ys → All P (xs ++ ys)
  All-append P [] ys h k = k
  All-append P (x ∷ xs) ys h k = (h.0, All-append P xs ys h.1 k)

  pub All-split : (P : A → Type 0) (xs ys : List A) → All P (xs ++ ys) → All P xs × All P ys
  All-split P [] ys h = (tt, h)
  All-split P (x ∷ xs) ys h = let r = All-split P xs ys h.1 in ((h.0, r.0), r.1)

  pub All-mono : (P Q : A → Type 0) (xs : List A) → ((x : A) → P x → Q x) → All P xs → All Q xs
  All-mono P Q [] f h = h
  All-mono P Q (x ∷ xs) f h = (f x h.0, All-mono P Q xs f h.1)

  pub All-keep : (P : A → Type 0) (p : A → Bool) (xs : List A) → All P xs → All P (keep p xs)
  All-keep P p [] h = h
  All-keep P p (x ∷ xs) h = elim (Bool-cases (p x)) [
    | inl e ↦ rw e (h.0, All-keep P p xs h.1)
    | inr e ↦ rw e (All-keep P p xs h.1)
  ]

-- Each element is among the elements.
pub All-self : {A : Type 0} (xs : List A) → All (λ x. Any (λ y. y ≡ x) xs) xs
All-self [] = tt
All-self (x ∷ xs) = (
  inl refl,
  All-mono (λ z. Any (λ y. y ≡ z) xs) (λ z. Any (λ y. y ≡ z) (x ∷ xs)) xs (λ z a. inr a)
      (All-self xs),
)
