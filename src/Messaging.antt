-- ===== src/Messaging.antt =====
-- src/messaging.c: identifiers of messages, and the messages that the server sends.
use aprsc.Prelude.{
  ℕ, zero, suc, ◌+◌, ◌-◌, ◌%◌, List, [], ◌∷◌, ◌++◌, ltb, if◌then◌else◌, Bytes, codes, length,
}

-- The character of a number below 62.
unfoldable pub msgid_char : ℕ → ℕ
msgid_char c = if ltb c 10 then c + 48 else if ltb c 36 then c - 10 + 97 else c - 36 + 65

-- One character for each number of `random`.
unfoldable pub messaging_generate_msgid : List ℕ → Bytes
unfolding msgid_char
messaging_generate_msgid [] = []
messaging_generate_msgid (r ∷ random) = msgid_char (r % 62) ∷ messaging_generate_msgid random

abbrev pub spaces : ℕ → Bytes
spaces zero = []
spaces (suc n) = b' ' ∷ spaces n

-- "%-9s"
abbrev pub padded : Bytes → Bytes
padded s = s ++ spaces (9 - length s)

abbrev pub line_end : Bytes
line_end = b'\r' ∷ b'\n' ∷ []

-- Up to the address; `APRSC_TOCALL` is APSC20.
abbrev pub from_server : Bytes → Bytes → Bytes
from_server serverid to =
    codes "SERVER>APSC20,TCPIP*,qAZ," ++ serverid ++ codes "::" ++ padded to ++ codes ":"

unfoldable pub messaging_ack : Bytes → Bytes → Bytes → Bytes
messaging_ack serverid srcname msgid =
    from_server serverid srcname ++ codes "ack" ++ msgid ++ line_end

-- `text` is what the format gives, less what `PACKETLEN_MAX` cuts off.
unfoldable pub messaging_message_client : Bytes → Bytes → Bytes → List ℕ → Bytes
unfolding messaging_generate_msgid
messaging_message_client serverid username text random =
    from_server serverid username
    ++ text
    ++ codes "{"
    ++ messaging_generate_msgid random
    ++ line_end
