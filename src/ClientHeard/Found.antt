-- ===== src/ClientHeard/Found.antt =====
-- About update and look-up in src/client_heard.c.
use aprsc.Prelude.{
  ℕ, ◌<◌, ◌≡◌, ◌∙◌, refl, sym, ap, arith, true, false, inl, inr, some, Option-cases, Bool-cases,
  List, [], ◌∷◌, map, leb, ◌==◌, Bytes, length, to_upper, same_bytes_iff, same_nocase, update_self,
}
use mathlib.Core.Path.{subst}
use aprsc.Keyhash.{keyhash, keyhashuc}
use aprsc.Keyhash.Laws.{keyhashuc-upper}
use aprsc.ClientHeard.{
  Heard, HeardList, heard_bucket, is_call, take_out, heard_list_update, heard_find,
  client_heard_check, max_heard_per_client,
}

nocase-map : (a b : Bytes) → same_nocase a b ≡ true → map to_upper a ≡ map to_upper b
unfolding same_nocase
nocase-map a b h = (same_bytes_iff (map to_upper a) (map to_upper b)).0 h

map-nocase : (a b : Bytes) → map to_upper a ≡ map to_upper b → same_nocase a b ≡ true
unfolding same_nocase
map-nocase a b h = (same_bytes_iff (map to_upper a) (map to_upper b)).1 h

length-upper : (a : Bytes) → length (map to_upper a) ≡ length a
length-upper [] = refl
length-upper (c ∷ a) = omega (arith, length-upper a)

-- The hash and the length are the same in any letter case.
nocase-keyhashuc : (a b : Bytes) → map to_upper a ≡ map to_upper b → keyhashuc a 0 ≡ keyhashuc b 0
nocase-keyhashuc a b h = keyhashuc-upper a 0 ∙ ap (λ s. keyhash s 0) h ∙ sym (keyhashuc-upper b 0)

nocase-length : (a b : Bytes) → map to_upper a ≡ map to_upper b → length a ≡ length b
nocase-length a b h = sym (length-upper a) ∙ ap length h ∙ length-upper b

take_out-is_call :
    (hash : ℕ) (call : Bytes) (chain : List Heard) {found : Heard × List Heard}
    → take_out hash call chain ≡ some found
    → is_call hash call found.0 ≡ true
unfolding take_out
take_out-is_call hash call [] e = cc
take_out-is_call hash call (h ∷ chain) {found} e = elim (Bool-cases (is_call hash call h)) [
  | inl f ↦ subst (λ x. is_call hash call x ≡ true) (first (rw f at e)) f
  | inr f ↦ elim (Option-cases (take_out hash call chain)) [
    | inl g ↦ absurd (cc (rw (f, g) at e))
    | inr (found', g) ↦
        subst (λ x. is_call hash call x ≡ true) (first (rw (f, g) at e))
          (take_out-is_call hash call chain g)
  ]
]
  where
    first : {x : Heard} {rest : List Heard} → some (x, rest) ≡ some found → x ≡ found.0
    first p = cc

-- Two spellings of a call match the same entries.
is_call-nocase :
    (a b : Bytes) (h : Heard)
    → map to_upper a ≡ map to_upper b
    → is_call (keyhashuc a 0) a h ≡ true
    → is_call (keyhashuc b 0) b h ≡ true
is_call-nocase a b h e t =
    let upper = sym e ∙ nocase-map a h.callsign (ground arith) in
    ground (arith, map-nocase b h.callsign upper, nocase-keyhashuc a b e, nocase-length a b e)

-- What stands in front is taken out.
front-take_out :
    (hash : ℕ) (call : Bytes) (h : Heard) (rest : List Heard)
    → is_call hash call h ≡ true
    → take_out hash call (h ∷ rest) ≡ some (h, rest)
unfolding take_out
front-take_out hash call h rest t = rw t refl

-- An entry of the call stands in front of its chain.
abbrev IsFront : Bytes → HeardList → Type 0
IsFront call l =
    (h : Heard) × (rest : List Heard) × (l.buckets (heard_bucket (keyhashuc call 0)) ≡ h ∷ rest)
    × (is_call (keyhashuc call 0) call h ≡ true)

update-IsFront :
    (call : Bytes) (t : ℕ) (l : HeardList)
    → l.entrycount < max_heard_per_client
    → 0 < l.cells
    → IsFront call (heard_list_update call t l)
unfolding heard_list_update
update-IsFront call t l few room =
    let hash = keyhashuc call 0 in
    let i = heard_bucket hash in
    elim (Option-cases (take_out hash call (l.buckets i))) [
      | inr (found, e) ↦
          rw (e, heard_list_update)
            (
              record (found.0) { last_heard = t },
              found.1,
              update_self l.buckets i _,
              take_out-is_call hash call (l.buckets i) e,
            )
      | inl e ↦
          let full : leb max_heard_per_client l.entrycount ≡ false = ground arith in
          let spent : (l.cells == 0) ≡ false = ground arith in
          rw (e, full, spent, heard_list_update)
            (
              record { hash = hash; last_heard = t; callsign = call },
              l.buckets i,
              update_self l.buckets i _,
              ground (arith, map-nocase call call refl),
            )
    ]

IsFront-check :
    (call call' : Bytes) (l : HeardList)
    → map to_upper call ≡ map to_upper call'
    → IsFront call l
    → client_heard_check call' (keyhashuc call' 0) l ≡ true
unfolding client_heard_check heard_find
IsFront-check call call' l e (h, rest, at, t) =
    let same : heard_bucket (keyhashuc call 0) ≡ heard_bucket (keyhashuc call' 0) =
      ap heard_bucket (nocase-keyhashuc call call' e) in
    let found =
      ap (λ i. take_out (keyhashuc call' 0) call' (l.buckets i)) (sym same)
      ∙ ap (take_out (keyhashuc call' 0) call') at
      ∙ front-take_out (keyhashuc call' 0) call' h rest (is_call-nocase call call' h e t) in
    rw (found, client_heard_check, heard_find) refl

-- After a station is recorded, on a list that is not full and with a cell to spare, the look-up of
-- the same callsign in whatever letter case, by that spelling's hash, finds it.
pub heard_is_found :
    (call call' : Bytes) (t : ℕ) (l : HeardList)
    → same_nocase call call' ≡ true
    → l.entrycount < max_heard_per_client
    → 0 < l.cells
    → client_heard_check call' (keyhashuc call' 0) (heard_list_update call t l) ≡ true
heard_is_found call call' t l same few room =
    IsFront-check call call' (heard_list_update call t l) (nocase-map call call' same)
      (update-IsFront call t l few room)
