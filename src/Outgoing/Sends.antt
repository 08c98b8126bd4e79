-- ===== src/Outgoing/Sends.antt =====
-- About the loops of src/outgoing.c over the clients of a worker.
use aprsc.Prelude.{
  ℕ, ◌≡◌, ◌↔◌, ◌⊎◌, inl, inr, refl, sym, arith, Bool, true, false, not, ◌&&◌, ◌||◌, keep, Option,
  List, [], ◌∷◌, ◌++◌, if◌then◌else◌, Bool-cases, Bytes, Any, Any-mono,
}
use mathlib.Core.Path.{subst}
use aprsc.Packet.{Pbuf}
use aprsc.Outgoing.{
  Peer, Effect, send, count_dupe, is_origin, packet_of, send_all, count_sender, send_ups,
  send_others,
}

-- The client of this number is sent these bytes.
abbrev pub Sends : ℕ → Bytes → List Effect → Type 0
Sends i content = Any (λ e. e ≡ send i content)

-- A client of this number is in the list, and has the property.
abbrev pub HasPeer : (Peer → Type 0) → ℕ → List Peer → Type 0
HasPeer P i = Any (λ c. (c.id ≡ i) × P c)

-- A regular client gets the packet by its feed or its filter, unless it sent it or gets nothing.
abbrev pub Wants : (Peer → Pbuf → Bool) → Pbuf → Peer → Type 0
Wants filter pb c =
    ((c.client.fullfeed ≡ true) ⊎ (filter c pb ≡ true))
    × (is_origin pb.origin c ≡ false)
    × (c.client.no_tx ≡ false)

pub Any-append_cases :
    (i : ℕ) (content : Bytes) (xs ys : List Effect)
    → Sends i content (xs ++ ys)
    → Sends i content xs ⊎ Sends i content ys
Any-append_cases i content [] ys a = inr a
Any-append_cases i content (x ∷ xs) ys (inl p) = inl (inl p)
Any-append_cases i content (x ∷ xs) ys (inr a) = elim (Any-append_cases i content xs ys a) [
  | inl l ↦ inl (inr l)
  | inr r ↦ inr r
]

-- A client that passes a test gets what is sent to those that pass it, and no other does.
kept_receive :
    (i : ℕ) (content bytes : Bytes) (p : Peer → Bool) (cs : List Peer)
    → Sends i content (send_all bytes (keep p cs))
      ↔ ((content ≡ bytes) × HasPeer (λ c. p c ≡ true) i cs)
unfolding send_all
kept_receive i content bytes p [] = ((λ a. absurd a), (λ a. absurd a.1))
kept_receive i content bytes p (c ∷ cs) =
    let ih = kept_receive i content bytes p cs in
    elim (Bool-cases (p c)) [
      | inl e ↦ rw e (
        (λ a. elim a [ inl f ↦ (cc, inl (cc, refl)) | inr r ↦ let q = ih.0 r in (q.0, inr q.1) ]),
        (λ b. elim b.1 [ inl h ↦ inl (cc (b.0, h.0)) | inr r ↦ inr (ih.1 (b.0, r)) ]),
      )
      | inr e ↦ rw e (
        (λ a. let q = ih.0 a in (q.0, inr q.1)),
        (λ b. elim b.1 [ inl h ↦ absurd (cc h.1) | inr r ↦ ih.1 (b.0, r) ]),
      )
    ]

send_all-keep :
    (bytes : Bytes) (cs : List Peer) → send_all bytes cs ≡ send_all bytes (keep (λ c. true) cs)
unfolding send_all
send_all-keep bytes [] = refl
send_all-keep bytes (c ∷ cs) = rw (send_all-keep bytes cs) refl

pub send_ups-keep :
    (origin : Option ℕ) (bytes : Bytes) (cs : List Peer)
    → send_ups origin bytes cs ≡ send_all bytes (keep (λ c. not (is_origin origin c)) cs)
unfolding send_ups send_all
send_ups-keep origin bytes [] = refl
send_ups-keep origin bytes (c ∷ cs) =
    let ih = send_ups-keep origin bytes cs in
    elim (Bool-cases (is_origin origin c)) [ inl e ↦ rw e ih | inr e ↦ rw (e, ih) refl ]

pub count_sender_is_silent :
    (i : ℕ) (content : Bytes) (origin : Option ℕ) (cs : List Peer)
    → ¬ (Sends i content (count_sender origin cs))
unfolding count_sender
count_sender_is_silent i content origin [] a = a
count_sender_is_silent i content origin (c ∷ cs) a =
    by_origin (is_origin origin c) (count_sender_is_silent i content origin cs) a
  where
    by_origin :
        (b : Bool)
        → ¬ (Sends i content (count_sender origin cs))
        → ¬ (Sends i content (if b then count_dupe c.id ∷ [] else count_sender origin cs))
    by_origin true none_there (inl f) = absurd (cc f)
    by_origin true none_there (inr f) = f
    by_origin false none_there f = none_there f

abbrev pub wants : (Peer → Pbuf → Bool) → Pbuf → Peer → Bool
wants filter pb c =
    (c.client.fullfeed || filter c pb) && (not (is_origin pb.origin c) && not c.client.no_tx)

pub send_others-keep :
    (filter : Peer → Pbuf → Bool) (pb : Pbuf) (cs : List Peer)
    → send_others filter pb cs ≡ send_all (packet_of pb) (keep (wants filter pb) cs)
unfolding send_others send_all
send_others-keep filter pb [] = refl
send_others-keep filter pb (c ∷ cs) = let ih = send_others-keep filter pb cs in ground (arith, ih)

pub wants-Wants :
    (filter : Peer → Pbuf → Bool) (pb : Pbuf) (c : Peer)
    → wants filter pb c ≡ true
    → Wants filter pb c
wants-Wants filter pb c e = (
  elim (Bool-cases c.client.fullfeed) [ inl f ↦ inl f | inr f ↦ inr (ground arith) ],
  ground arith,
  ground arith,
)

pub Wants-wants :
    (filter : Peer → Pbuf → Bool) (pb : Pbuf) (c : Peer)
    → Wants filter pb c
    → wants filter pb c ≡ true
Wants-wants filter pb c h = elim h.0 [
  | inl f ↦ ground (arith, h.1, h.2)
  | inr f ↦ ground (arith, h.1, h.2)
]

-- The same, with what the test means.
pub named_receive :
    (i : ℕ) (content bytes : Bytes) (p : Peer → Bool) (P : Peer → Type 0) (cs : List Peer)
    → ((c : Peer) → (p c ≡ true) ↔ P c)
    → Sends i content (send_all bytes (keep p cs)) ↔ ((content ≡ bytes) × HasPeer P i cs)
named_receive i content bytes p P cs means =
    let kept = kept_receive i content bytes p cs in
    let passes : Peer → Type 0 = λ c. (c.id ≡ i) × (p c ≡ true) in
    let has : Peer → Type 0 = λ c. (c.id ≡ i) × P c in
    (
      (λ a. let q = kept.0 a in (q.0, Any-mono passes has cs (λ c h. (h.0, (means c).0 h.1)) q.1)),
      (λ b. kept.1 (b.0, Any-mono has passes cs (λ c h. (h.0, (means c).1 h.1)) b.1)),
    )

pub all_receive :
    (i : ℕ) (content bytes : Bytes) (cs : List Peer)
    → Sends i content (send_all bytes cs) ↔ ((content ≡ bytes) × Any (λ c. c.id ≡ i) cs)
all_receive i content bytes cs =
    let kept = kept_receive i content bytes (λ c. true) cs in
    let all = send_all-keep bytes cs in
    (
      (λ a.
          let q = kept.0 (subst (Sends i content) all a) in
          (q.0, Any-mono (λ c. (c.id ≡ i) × (true ≡ true)) (λ c. c.id ≡ i) cs (λ c h. h.0) q.1)),
      (λ b. subst (Sends i content) (sym all) (
          kept.1 (
            b.0,
            Any-mono (λ c. c.id ≡ i) (λ c. (c.id ≡ i) × (true ≡ true)) cs (λ c h. (h, refl)) b.1,
          ))),
    )
