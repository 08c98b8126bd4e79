-- ===== src/Outgoing/Receivers.antt =====
-- About the clients that src/outgoing.c sends a packet to.
use aprsc.Prelude.{
  ℕ, ◌≡◌, ◌↔◌, ◌⊎◌, inl, inr, refl, arith, Bool, true, false, not, [], ◌++◌, if◌then◌else◌, Bytes,
  codes, Any, Any-append_left, Any-append_right,
}
use aprsc.Packet.{Pbuf}
use aprsc.Outgoing.{
  Peer, send, Worker, is_origin, packet_of, send_all, count_sender, send_ups, send_others,
  process_outgoing_single,
}
use aprsc.Outgoing.Sends.{
  Sends, HasPeer, Wants, Any-append_cases, count_sender_is_silent, send_ups-keep, wants,
  send_others-keep, wants-Wants, Wants-wants, named_receive, all_receive,
}

-- What is sent to whom, said of one packet: duplicates, marked by their prefix, to the clients that
-- asked for them, and other packets to the uplinks if they come from below, and to who wants them.
abbrev pub IsReceiver : (Peer → Pbuf → Bool) → Worker → Pbuf → ℕ → Bytes → Type 0
IsReceiver filter w pb i content =
    ((pb.dupe ≡ true)
      × (content ≡ codes "dup\t" ++ packet_of pb)
      × Any (λ c. c.id ≡ i) w.clients_dupe)
    ⊎ ((pb.dupe ≡ false)
        × (content ≡ packet_of pb)
        × (((pb.from_downstr ≡ true) × HasPeer (λ c. is_origin pb.origin c ≡ false) i w.clients_ups)
            ⊎ HasPeer (Wants filter pb) i w.clients_other))

module _ (filter : Peer → Pbuf → Bool) (w : Worker) (pb : Pbuf) (i : ℕ) (content : Bytes) where
  dupes_sent :
      Sends i content (
        send_all (codes "dup\t" ++ packet_of pb) w.clients_dupe ++ count_sender pb.origin w.clients)
      ↔ ((content ≡ codes "dup\t" ++ packet_of pb) × Any (λ c. c.id ≡ i) w.clients_dupe)
  dupes_sent = (
    (λ a.
        elim (Any-append_cases i content (send_all (codes "dup\t" ++ packet_of pb) w.clients_dupe)
          (count_sender pb.origin w.clients) a) [
            | inl l ↦ (all_receive i content (codes "dup\t" ++ packet_of pb) w.clients_dupe).0 l
            | inr r ↦ absurd (count_sender_is_silent i content pb.origin w.clients r)
          ]),
    (λ b.
        Any-append_left (λ e. e ≡ send i content)
          (send_all (codes "dup\t" ++ packet_of pb) w.clients_dupe) _
          ((all_receive i content (codes "dup\t" ++ packet_of pb) w.clients_dupe).1 b)),
  )

  ups_sent :
      Sends i content (send_ups pb.origin (packet_of pb) w.clients_ups)
      ↔ ((content ≡ packet_of pb) × HasPeer (λ c. is_origin pb.origin c ≡ false) i w.clients_ups)
  ups_sent = rw (send_ups-keep pb.origin (packet_of pb) w.clients_ups) (
      named_receive i content (packet_of pb) (λ c. not (is_origin pb.origin c))
        (λ c. is_origin pb.origin c ≡ false) w.clients_ups
        (λ c. ((λ e. ground arith), (λ e. ground arith))))

  others_sent :
      Sends i content (send_others filter pb w.clients_other)
      ↔ ((content ≡ packet_of pb) × HasPeer (Wants filter pb) i w.clients_other)
  others_sent = rw (send_others-keep filter pb w.clients_other) (
      named_receive i content (packet_of pb) (wants filter pb) (Wants filter pb) w.clients_other
        (λ c. (wants-Wants filter pb c, Wants-wants filter pb c)))

  -- What goes out for a packet that is no duplicate.
  regular_sent :
      (down : Bool)
      → Sends i content (
          (if down then send_ups pb.origin (packet_of pb) w.clients_ups else [])
          ++ send_others filter pb w.clients_other)
        ↔ ((content ≡ packet_of pb)
            × (((down ≡ true) × HasPeer (λ c. is_origin pb.origin c ≡ false) i w.clients_ups)
                ⊎ HasPeer (Wants filter pb) i w.clients_other))
  regular_sent true = (
    (λ a.
        elim (Any-append_cases i content (send_ups pb.origin (packet_of pb) w.clients_ups)
          (send_others filter pb w.clients_other) a) [
            | inl l ↦ let q = ups_sent.0 l in (q.0, inl (refl, q.1))
            | inr r ↦ let q = others_sent.0 r in (q.0, inr q.1)
          ]),
    (λ b. elim b.1 [
      | inl u ↦ Any-append_left (λ e. e ≡ send i content) _ _ (ups_sent.1 (b.0, u.1))
      | inr o ↦
          Any-append_right (λ e. e ≡ send i content)
            (send_ups pb.origin (packet_of pb) w.clients_ups) _ (others_sent.1 (b.0, o))
    ]),
  )
  regular_sent false = (
    (λ a. let q = others_sent.0 a in (q.0, inr q.1)),
    (λ b. elim b.1 [ inl u ↦ absurd (cc u.0) | inr o ↦ others_sent.1 (b.0, o) ]),
  )

  by_dupe :
      (dupe : Bool)
      → Sends i content (
          if dupe
          then send_all (codes "dup\t" ++ packet_of pb) w.clients_dupe
            ++ count_sender pb.origin w.clients
          else ((if pb.from_downstr then send_ups pb.origin (packet_of pb) w.clients_ups else [])
              ++ send_others filter pb w.clients_other))
        ↔ (((dupe ≡ true)
              × (content ≡ codes "dup\t" ++ packet_of pb)
              × Any (λ c. c.id ≡ i) w.clients_dupe)
            ⊎ ((dupe ≡ false)
                × (content ≡ packet_of pb)
                × (((pb.from_downstr ≡ true)
                      × HasPeer (λ c. is_origin pb.origin c ≡ false) i w.clients_ups)
                    ⊎ HasPeer (Wants filter pb) i w.clients_other)))
  by_dupe true = (
    (λ a. let q = dupes_sent.0 a in inl (refl, q.0, q.1)),
    (λ b. elim b [ inl d ↦ dupes_sent.1 (d.1, d.2) | inr n ↦ absurd (cc n.0) ]),
  )
  by_dupe false = (
    (λ a. let q = (regular_sent pb.from_downstr).0 a in inr (refl, q.0, q.1)),
    (λ b. elim b [ inl d ↦ absurd (cc d.0) | inr n ↦ (regular_sent pb.from_downstr).1 (n.1, n.2) ]),
  )

  -- `process_outgoing_single` sends some bytes to some client exactly when: the packet is a
  -- duplicate, the client is on the list of those who want duplicates, and the bytes are the packet
  -- behind "dup\t"; or it is no duplicate, the bytes are the packet, and the client is an uplink or
  -- peer other than the packet's origin and the packet came from downstream, or one of the other
  -- clients that has a full feed or a filter that lets the packet through, is not the packet's
  -- origin, and is not marked as broken.
  pub outgoing_receivers_exact :
      Sends i content (process_outgoing_single filter w pb) ↔ IsReceiver filter w pb i content
  unfolding process_outgoing_single
  outgoing_receivers_exact = by_dupe pb.dupe
