-- ===== src/Acl.antt =====
-- src/acl.c: access lists. The words of an IPv6 address are in the host's order, as `htonl` makes the
-- masks of the source agree with addresses in the network's.
pub mod Order
use Prim.Native.Nat.{bit_and, bit_or}
use aprsc.Prelude.Atoi.{atoi}
use aprsc.Prelude.{
  ℕ, zero, suc, ◌+◌, ◌-◌, ◌*◌, ◌/◌, ◌%◌, ◌^◌, Bool, true, false, ◌&&◌, ◌||◌, Option, none, some,
  List, [], ◌∷◌, ltb, ◌==◌, if◌then◌else◌, Bytes, same_nocase,
}

-- An IPv6 address in four words of 32 bits.
pub record Words : Type 0 where
  pub word0 : ℕ
  pub word1 : ℕ
  pub word2 : ℕ
  pub word3 : ℕ

-- A `struct sockaddr` by its family, less its port.
pub data Sockaddr : Type 0 where
  inet : ℕ → Sockaddr
  inet6 : Words → Sockaddr
  other_family : Sockaddr

-- `acl_e4_t` and `acl_e6_t`, and the two lists.
pub record Entry4 : Type 0 where
  pub addr : ℕ
  pub mask : ℕ
  pub allow : Bool

pub record Entry6 : Type 0 where
  pub addr : Words
  pub mask : Words
  pub allow : Bool

pub record Acl : Type 0 where
  pub entries4 : List Entry4
  pub entries6 : List Entry6

unfoldable pub acl_new : Acl
acl_new = record { entries4 = []; entries6 = [] }

-- The loop of `acl_dup` over one list.
unfoldable pub dup_onto : {A : Type 0} → List A → List A → List A
dup_onto [] copied = copied
dup_onto (e ∷ entries) copied = dup_onto entries (e ∷ copied)

unfoldable pub acl_dup : Acl → Acl
unfolding dup_onto
acl_dup acl = record { entries4 = dup_onto acl.entries4 []; entries6 = dup_onto acl.entries6 [] }

-- The mask with so many bits from the top.
unfoldable pub mask_4 : ℕ → ℕ
mask_4 zero = 0
mask_4 (suc i) = bit_or (mask_4 i / 2) (2 ^ 31)

abbrev pub up_to_32 : ℕ → ℕ
up_to_32 shift = if ltb 32 shift then 32 else shift

unfoldable pub entry4 : ℕ → ℕ → Bool → Entry4
unfolding mask_4
entry4 addr prefixlen allow =
    let mask = mask_4 (up_to_32 prefixlen) in
    record { addr = bit_and addr mask; mask = mask; allow = allow }

-- The mask of a word with s bits, and what is left of the prefix behind it; 64-bit arithmetic.
abbrev pub mask_word : ℕ → ℕ
mask_word shift = (2 ^ 64 - 2 ^ (32 - up_to_32 shift)) % 2 ^ 32

abbrev pub all_ones : ℕ
all_ones = 2 ^ 32 - 1

unfoldable pub mask_6 : ℕ → Words
mask_6 prefixlen =
    if prefixlen == 128
    then record { word0 = all_ones; word1 = all_ones; word2 = all_ones; word3 = all_ones }
    else record {
      word0 = mask_word prefixlen;
      word1 = mask_word (prefixlen - 32);
      word2 = mask_word (prefixlen - 64);
      word3 = mask_word (prefixlen - 96);
    }

abbrev pub masked : Words → Words → Words
masked a m = record {
  word0 = bit_and a.word0 m.word0;
  word1 = bit_and a.word1 m.word1;
  word2 = bit_and a.word2 m.word2;
  word3 = bit_and a.word3 m.word3;
}

unfoldable pub entry6 : Words → ℕ → Bool → Entry6
unfolding mask_6
entry6 addr prefixlen allow =
    let mask = mask_6 prefixlen in
    record {
      addr = if prefixlen == 128 then addr else masked addr mask;
      mask = mask;
      allow = allow;
    }

-- What becomes of the answer of `getaddrinfo`: a new first entry.
unfoldable pub with_entry : Acl → Sockaddr → ℕ → Bool → Acl
unfolding entry4 entry6
with_entry acl (inet addr) prefixlen allow = record acl {
  entries4 = entry4 addr prefixlen allow ∷ acl.entries4;
}
with_entry acl (inet6 addr) prefixlen allow = record acl {
  entries6 = entry6 addr prefixlen allow ∷ acl.entries6;
}
with_entry acl other_family prefixlen allow = acl

-- The text up to the first slash, and what is behind it if there is one.
unfoldable pub cut_at_slash : Bytes → Bytes × Option Bytes
cut_at_slash [] = ([], none)
cut_at_slash (c ∷ s) =
    let rest = cut_at_slash s in if c == b'/' then ([], some s) else (c ∷ rest.0, rest.1)

-- `getaddrinfo` on a name that has one address, and IN6_IS_ADDR_V4MAPPED or V4COMPAT.
pub record Library : Type 0 where
  pub getaddrinfo : Bytes → Option Sockaddr
  pub is_v4_in_6 : Words → Bool

-- 128 where there is no slash; none is an invalid length.
unfoldable pub read_prefixlen : Option Bytes → Option ℕ
unfolding atoi
read_prefixlen none = some 128
read_prefixlen (some prefixls) = elim (atoi prefixls) [
  | none ↦ none
  | some n ↦ if ltb 128 n then none else some n
]

unfoldable pub acl_add : Library → Acl → Bytes → Bool → Option Acl
unfolding cut_at_slash read_prefixlen with_entry
acl_add lib acl netspec allow = elim (lib.getaddrinfo (cut_at_slash netspec).0) [
  | none ↦ none
  | some sa ↦ elim (read_prefixlen (cut_at_slash netspec).1) [
    | none ↦ none
    | some prefixlen ↦ some (with_entry acl sa prefixlen allow)
  ]
]

abbrev pub allow_word : Bytes
allow_word = b'a' ∷ b'l' ∷ b'l' ∷ b'o' ∷ b'w' ∷ []

abbrev pub deny_word : Bytes
deny_word = b'd' ∷ b'e' ∷ b'n' ∷ b'y' ∷ []

-- The command of a line.
unfoldable pub read_command : Bytes → Option Bool
unfolding same_nocase
read_command command =
    if same_nocase command allow_word
    then some true
    else if same_nocase command deny_word
    then some false
    else none

-- The list after one line, given by its words; none where the loading has failed.
unfoldable pub load_line : Library → Acl → List Bytes → Option Acl
unfolding acl_add read_command
load_line lib acl (command ∷ netspec ∷ []) = elim (read_command command) [
  | none ↦ none
  | some allow ↦ acl_add lib acl netspec allow
]
load_line lib acl [] = none
load_line lib acl (command ∷ []) = none
load_line lib acl (command ∷ netspec ∷ more ∷ rest) = none

unfoldable pub load_lines : Library → Acl → List (List Bytes) → Option Acl
unfolding load_line
load_lines lib acl [] = some acl
load_lines lib acl (args ∷ lines) = elim (load_line lib acl args) [
  | none ↦ none
  | some acl' ↦ load_lines lib acl' lines
]

-- On the lines that are not empty, of a file that can be read.
unfoldable pub acl_load : Library → List (List Bytes) → Option Acl
unfolding load_lines acl_new
acl_load lib lines = load_lines lib acl_new lines

unfoldable pub acl_check_4 : List Entry4 → ℕ → Bool
acl_check_4 [] addr = false
acl_check_4 (a ∷ entries) addr =
    if bit_and addr a.mask == a.addr then a.allow else acl_check_4 entries addr

abbrev pub same_words : Words → Words → Bool
same_words a b =
    a.word0 == b.word0 && (a.word1 == b.word1 && (a.word2 == b.word2 && a.word3 == b.word3))

unfoldable pub acl_check_6 : List Entry6 → Words → Bool
acl_check_6 [] addr = false
acl_check_6 (a ∷ entries) addr =
    if same_words (masked addr a.mask) a.addr then a.allow else acl_check_6 entries addr

-- An IPv4 address in an IPv6 one is taken out of it.
unfoldable pub unmapped : Library → Sockaddr → Sockaddr
unmapped lib (inet addr) = inet addr
unmapped lib (inet6 addr) = if lib.is_v4_in_6 addr then inet (addr.word3) else inet6 addr
unmapped lib other_family = other_family

unfoldable pub check_family : Acl → Sockaddr → Bool
unfolding acl_check_4 acl_check_6
check_family acl (inet addr) = acl_check_4 acl.entries4 addr
check_family acl (inet6 addr) = acl_check_6 acl.entries6 addr
check_family acl other_family = false

unfoldable pub acl_check : Library → Acl → Sockaddr → Bool
unfolding unmapped check_family
acl_check lib acl sa = check_family acl (unmapped lib sa)
