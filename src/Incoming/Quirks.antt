-- ===== src/Incoming/Quirks.antt =====
-- src/incoming.c, `incoming_parse`: the copy of a packet that is made for clients in quirks mode,
-- without spaces in its header. The byte behind the packet, which the source may read, is taken
-- to be none that it asks for.
use aprsc.Prelude.{
  ℕ, suc, ◌||◌, [], ◌∷◌, ◌++◌, ◌==◌, if◌then◌else◌, Bytes, length, take, drop, get_or,
}
use aprsc.Incoming.Error.{Checked, passed, dropped, empty, no_dst, inv_path_call}

-- Spaces and NULs at the beginning.
unfoldable pub trimmed : Bytes → Bytes
trimmed [] = []
trimmed (c ∷ s) = let rest = trimmed s in if c == b' ' || c == 0 then rest else c ∷ s

-- `while (p < packet_end && *p != '>' && *p != ' ')`
unfoldable pub srccall_len : Bytes → ℕ
srccall_len [] = 0
srccall_len (c ∷ s) = let rest = srccall_len s in if c == b'>' || c == b' ' then 0 else suc rest

unfoldable pub skip_spaces : Bytes → Bytes
skip_spaces [] = []
skip_spaces (c ∷ s) = let rest = skip_spaces s in if c == b' ' then rest else c ∷ s

-- Where the copy of the path is: at the head of the loop, in an element, or in the spaces behind it.
pub data At : Type 0 where
  head element spaces : At

pub data Class : Type 0 where
  colon comma space other : Class

abbrev pub class_of : ℕ → Class
class_of c =
    if c == b':' then colon else if c == b',' then comma else if c == b' ' then space else other

abbrev pub put : ℕ → Checked Bytes → Checked Bytes
put c (passed s) = passed (c ∷ s)
put c (dropped reason) = dropped reason

unfoldable pub quirk_path : At → Bytes → Checked Bytes
quirk_path head [] = passed []
quirk_path element [] = dropped inv_path_call
quirk_path spaces [] = dropped inv_path_call
quirk_path at (c ∷ s) = elim (class_of c) [
  | colon ↦ passed (c ∷ s)
  | comma ↦ put c (quirk_path head s)
  | space ↦ quirk_path spaces s
  | other ↦ elim at [ spaces ↦ dropped inv_path_call | _ ↦ put c (quirk_path element s) ]
]

abbrev pub put_all : Bytes → Checked Bytes → Checked Bytes
put_all call (passed s) = passed (call ++ s)
put_all call (dropped reason) = dropped reason

unfoldable pub quirked : Bytes → Checked Bytes
quirked s =
    let t = trimmed s in
    let n = srccall_len t in
    let rest = skip_spaces (drop n t) in
    if length t == 0
    then dropped empty
    else if get_or rest 0 0 == b'>'
    then put_all (take n t) (quirk_path head rest)
    else dropped no_dst
