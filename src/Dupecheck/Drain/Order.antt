-- ===== src/Dupecheck/Drain/Order.antt =====
-- About the two queues that the thread of src/dupecheck.c builds: numbers, order and completeness.
use aprsc.Prelude.{ℕ, ◌+◌, ◌≡◌, List, [], ◌∷◌, length}
use aprsc.Packet.{Pbuf}
use aprsc.Historydb.{Historydb}
use aprsc.Dupecheck.Drain.{Drain, next_seqnum}

-- The packets carry the sequence numbers behind `first`, one after the other, up to `last`.
abbrev pub IsNumbered : ℕ → List Pbuf → ℕ → Type 0
IsNumbered first [] last = first ≡ last
IsNumbered first (pb ∷ queue) last =
    (pb.seqnum ≡ next_seqnum first) × IsNumbered (next_seqnum first) queue last

-- Both queues are numbered, and there are `n` packets in all.
pub record AreNumbered (first dupe_first n : ℕ) (d : Drain) : Type 0 where
  pub out : IsNumbered first d.out d.seqnum
  pub out_dupe : IsNumbered dupe_first d.out_dupe d.dupe_seqnum
  pub all : length d.out + length d.out_dupe ≡ n

-- How many packets the workers have handed over.
abbrev pub count : List (List (ℕ × Pbuf)) → ℕ
count [] = 0
count (w ∷ workers) = length w + count workers
