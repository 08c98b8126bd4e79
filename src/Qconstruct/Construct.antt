-- ===== src/Qconstruct/Construct.antt =====
-- About the Q construct of a packet after `q_process` of src/parse_qc.c.
use aprsc.Prelude.{ℕ, ◌≤◌, ◌≡◌, ◌<◌, ◌⊎◌, some, Bytes, length, ◌+◌, ◌++◌}
use aprsc.Qconstruct.Parse.{Request, Existing, find_q, Outcome, byte}
use aprsc.Qconstruct.Ends.{Ends, IsFeeding}
use aprsc.Qconstruct.{q_text}

-- ",q", two more characters and a ','.
pub record IsAt (bytes : Bytes) (start : ℕ) : Type 0 where
  pub comma : byte bytes start ≡ b','
  pub letter : byte bytes (start + 1) ≡ b'q'
  pub second_comma : byte bytes (start + 4) ≡ b','

-- A construct in the header that stays, with a callsign behind it before the end of the path.
abbrev pub KeepsConstruct : Outcome → Type 0
KeepsConstruct out =
    (start : ℕ) × ((out.new_q_start ≡ some (start + 1))
      × IsAt out.patched start
      × (start + 5 < out.path_end))

-- ",q", the protocol, the type, ',' and a name, behind at most ",TCPIP*" or as long a text.
abbrev pub IsConstruct : Bytes → Type 0
IsConstruct text =
    (marker : Bytes) × (proto : ℕ) × (type : ℕ) × (who : Bytes) × ((text
        ≡ marker ++ q_text proto type who)
      × (length marker ≤ 7))

abbrev pub HasConstruct : Outcome → Type 0
HasConstruct out = KeepsConstruct out ⊎ IsConstruct out.new_q

module _ (r : Request) (path_end : ℕ) (feeding : IsFeeding r.client) where
  abbrev q : Existing
  q = find_q r.pdata r.via_start path_end
