-- ===== src/ParseAprs/Body/Ends.antt =====
-- That the APRS parser of src/parse_aprs.c ends, however deep third-party packets are.
use aprsc.Prelude.{
  ℕ, zero, suc, ◌+◌, ◌-◌, ◌≤◌, ◌<◌, ◌≡◌, refl, arith, Bool, true, false, not, Option, none, some,
  ltb, ◌==◌, if◌then◌else◌, Bytes, length, length-take-le, memchr,
}
use aprsc.Packet.{Pbuf}
use aprsc.Qconstruct.Parse.{slice}
use aprsc.Incoming.Callsign.{call_max}
use aprsc.Incoming.Headers.{memchr-lt}
use aprsc.ParseAprs.Body.{
  Inner, stops, goes_on, inner_header, parse_aprs_3rdparty, parse_type, parse_aprs_body, parse_aprs,
  smaller, before_parsing, is_cwop,
}
use aprsc.ParseAprs.{Floats, Parsing, ParseAnswer, nothing, body_end, memory, byte_of}

-- The inner packet begins behind the header of the outer one, and not behind its end.
unfoldable pub IsInside : ℕ → ℕ → Inner → Type 0
IsInside info end (stops a) = Unit
IsInside info end (goes_on name len inner) = (info < inner) × (inner ≤ end)

length-slice : (s : Bytes) (i j : ℕ) → length (slice s i j) ≤ j - i
length-slice s i j = length-take-le (j - i) _

module _ (fl : Floats) (beyond : Bytes) (pb : Pbuf) where
  inner_header-IsInside :
      (info end s src_end body : ℕ)
      → info ≤ body
      → body < end
      → IsInside info end (inner_header fl beyond pb s src_end body)
  unfolding IsInside inner_header
  inner_header-IsInside info end s src_end body h k = ground arith

  third_party-IsInside :
      (info : ℕ) → IsInside info (body_end pb) (parse_aprs_3rdparty fl beyond pb info)
  unfolding IsInside parse_aprs_3rdparty
  third_party-IsInside info =
      by_colon (memchr b':' (slice (memory pb beyond) (info + 1) (body_end pb))) refl
    where
      s : ℕ
      s = info + 1

      by_colon :
          (o : Option ℕ)
          → memchr b':' (slice (memory pb beyond) s (body_end pb)) ≡ o
          → IsInside info (body_end pb) (elim o [
            | none ↦ stops nothing
            | some pathlen ↦
                elim (memchr b'>'
                  (slice (memory pb beyond) s (s + smaller pathlen (call_max + 1)))) [
                    | none ↦ stops nothing
                    | some src_len ↦ inner_header fl beyond pb s (s + src_len) (s + pathlen)
                  ]
          ])
      by_colon none e = tt
      by_colon (some pathlen) e =
          let h = memchr-lt b':' (slice (memory pb beyond) s (body_end pb)) e in
          let l = length-slice (memory pb beyond) s (body_end pb) in
          by_source (memchr b'>' (slice (memory pb beyond) s (s + smaller pathlen (call_max + 1))))
            (omega (arith, h, l))
        where
          by_source :
              (o : Option ℕ)
              → s + pathlen < body_end pb
              → IsInside info (body_end pb) (elim o [
                | none ↦ stops nothing
                | some src_len ↦ inner_header fl beyond pb s (s + src_len) (s + pathlen)
              ])
          by_source none h = tt
          by_source (some src_len) h =
              inner_header-IsInside info (body_end pb) s (s + src_len) (s + pathlen) (omega arith) h

  Ended : Option (ParseAnswer × Parsing) → Type 0
  Ended none = ⊥
  Ended (some r) = Unit

  parse_aprs_body-Ended :
      (fuel : ℕ) (st : Parsing) (info : ℕ)
      → 0 < fuel
      → body_end pb < info + fuel
      → Ended (parse_aprs_body fl beyond pb fuel st info)
  unfolding Ended IsInside parse_aprs_body
  parse_aprs_body-Ended zero st info h k = absurd (omega arith)
  parse_aprs_body-Ended (suc fuel) st info h k =
      by_tests (ltb (pb.packet_len - pb.info_start - 2) 1) (byte_of pb beyond info == b'}') (
        by_inner (parse_aprs_3rdparty fl beyond pb info) (third_party-IsInside info)
          (λ st' inner lt le. parse_aprs_body-Ended fuel st' inner (omega arith) (omega arith)))
    where
      on_inner : Inner → Option (ParseAnswer × Parsing)
      on_inner (stops a) = some (a, record st { third_party = true })
      on_inner (goes_on name len inner) =
          parse_aprs_body fl beyond pb fuel
            (record st { third_party = true; srcname = name; srcname_len = len }) inner

      by_inner :
          (i : Inner)
          → IsInside info (body_end pb) i
          → ((st' : Parsing) (inner : ℕ)
              → info < inner
              → inner ≤ body_end pb
              → Ended (parse_aprs_body fl beyond pb fuel st' inner))
          → Ended (on_inner i)
      by_inner (stops a) g ih = tt
      by_inner (goes_on name len inner) g ih = ih _ inner g.0 g.1

      by_tests :
          (empty third : Bool)
          → Ended (on_inner (parse_aprs_3rdparty fl beyond pb info))
          → Ended (
              if empty
              then some (nothing, st)
              else if not third
              then some (
                  parse_type fl beyond pb st
                    (pb.packet_len - pb.info_start - 2)
                    (byte_of pb beyond info)
                    (info + 1))
              else on_inner (parse_aprs_3rdparty fl beyond pb info))
      by_tests true third e = tt
      by_tests false false e = tt
      by_tests false true e = e

-- On every packet the parser comes to a result: each third-party header moves it further into the
-- packet, so that the length of the packet is fuel enough.
pub parse_aprs_ends :
    (fl : Floats) (beyond : Bytes) (pb : Pbuf)
    → (r : ParseAnswer × Parsing) × (parse_aprs fl beyond pb ≡ some r)
unfolding parse_aprs Ended
parse_aprs_ends fl beyond pb =
    found (parse_aprs fl beyond pb)
      (parse_aprs_body-Ended fl beyond pb (suc pb.packet_len)
        (before_parsing fl beyond pb (is_cwop fl beyond pb)) pb.info_start (omega arith)
        (omega arith))
      refl
  where
    found :
        (o : Option (ParseAnswer × Parsing))
        → Ended fl beyond pb o
        → parse_aprs fl beyond pb ≡ o
        → (r : ParseAnswer × Parsing) × (parse_aprs fl beyond pb ≡ some r)
    found none h e = absurd h
    found (some r) h e = (r, e)
