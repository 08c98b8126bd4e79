-- ===== src/Dupecheck/Drain/Same.antt =====
-- About what the duplicate check of src/dupecheck.c compares, and what leaves it alone.
use aprsc.Prelude.{
  ℕ, ◌≡◌, refl, List, [], ◌∷◌, ◌++◌, if◌then◌else◌, Bool, true, false, not, take, drop, Option,
  none, some, All, All-append,
}
use aprsc.Packet.{Pbuf}
use aprsc.Historydb.{Historydb, Cell, historydb_lookup, historydb_insert}
use aprsc.Filter.{located, filter_postprocess_dupefilter}
use aprsc.Dupecheck.{address_of, payload_of}
use aprsc.Dupecheck.Drain.{Setup, remember}

-- The same addresses and the same payload.
abbrev pub IsSamePacket : Pbuf → Pbuf → Type 0
IsSamePacket p q = (address_of p ≡ address_of q) × (payload_of p ≡ payload_of q)

-- No packet of the list is the same as one behind it.
abbrev pub AreDistinct : List Pbuf → Type 0
AreDistinct [] = Unit
AreDistinct (p ∷ ps) = All (λ q. ¬ (IsSamePacket p q)) ps × AreDistinct ps

pub AreDistinct-append :
    (ps : List Pbuf) (q : Pbuf)
    → AreDistinct ps
    → All (λ p. ¬ (IsSamePacket p q)) ps
    → AreDistinct (ps ++ q ∷ [])
AreDistinct-append [] q h n = (tt, tt)
AreDistinct-append (p ∷ ps) q h n = (
  All-append (λ r. ¬ (IsSamePacket p r)) ps (q ∷ []) h.0 (n.0, tt),
  AreDistinct-append ps q h.1 n.1,
)

-- The filter module leaves what the duplicate check compares.
located-IsSamePacket : (hist : Option Cell) (pb : Pbuf) → IsSamePacket (located hist pb) pb
unfolding located
located-IsSamePacket none pb = (refl, refl)
located-IsSamePacket (some cp) pb = (refl, refl)

postprocess-IsSamePacket :
    (tick storetime : ℕ) (pb : Pbuf) (history : Historydb)
    → IsSamePacket (filter_postprocess_dupefilter tick storetime pb history).0 pb
unfolding filter_postprocess_dupefilter
postprocess-IsSamePacket tick storetime pb history = by_position pb.has_pos
  where
    l : Option Cell × Historydb
    l = historydb_lookup tick storetime (take pb.srcname_len (drop pb.srcname pb.bytes)) history

    by_position :
        (has_pos : Bool)
        → IsSamePacket
            (if◌then◌else◌ {A = Pbuf × Historydb}
              (not has_pos)
              (located l.0 pb, l.1)
              (pb, history)).0
            pb
    by_position true = (refl, refl)
    by_position false = located-IsSamePacket l.0 pb

pub remember-IsSamePacket :
    (s : Setup) (tick : ℕ) (pb : Pbuf) (history : Historydb)
    → IsSamePacket (remember s tick pb history).0 pb
unfolding remember
remember-IsSamePacket s tick pb history = by_listeners s.have_filtered_listeners
  where
    h : Historydb
    h = (historydb_insert s.room tick s.position_storetime pb history).1

    by_listeners :
        (b : Bool)
        → IsSamePacket
            (if◌then◌else◌ {A = Pbuf × Historydb} b
              (filter_postprocess_dupefilter tick s.position_storetime pb h)
              (pb, history)).0
            pb
    by_listeners true = postprocess-IsSamePacket tick s.position_storetime pb h
    by_listeners false = (refl, refl)
