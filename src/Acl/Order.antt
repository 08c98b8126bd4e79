-- ===== src/Acl/Order.antt =====
-- Which rule of an access list of src/acl.c decides.
use Prim.Native.Nat.{bit_and}
use aprsc.Prelude.{
  ℕ, ◌≡◌, refl, ◌∙◌, ap, Bool, false, Option, none, some, List, [], ◌∷◌, ◌==◌, if◌then◌else◌, Bytes,
}
use aprsc.Acl.{
  Sockaddr, inet, inet6, other_family, Acl, acl_new, dup_onto, acl_dup, mask_4, entry4, up_to_32,
  mask_6, masked, entry6, with_entry, cut_at_slash, Library, read_prefixlen, acl_add, read_command,
  load_line, load_lines, acl_load, acl_check_4, same_words, acl_check_6, unmapped, check_family,
  acl_check,
}

-- A line of the file, read: the network and what is decided for it.
pub record Rule : Type 0 where
  pub net : Sockaddr
  pub prefixlen : ℕ
  pub allow : Bool

rule_for : Bool → Option Sockaddr → Option ℕ → Option Rule
rule_for allow none prefixlen = none
rule_for allow (some sa) none = none
rule_for allow (some sa) (some n) = some (record { net = sa; prefixlen = n; allow = allow })

-- The rule of a line with these words for its command and its network.
read_rule : Library → Option Bool → Bytes → Option Rule
read_rule lib none netspec = none
read_rule lib (some allow) netspec =
    rule_for allow (lib.getaddrinfo (cut_at_slash netspec).0)
      (read_prefixlen (cut_at_slash netspec).1)

unfoldable pub rule_of : Library → List Bytes → Option Rule
unfolding read_rule rule_for
rule_of lib (command ∷ netspec ∷ []) = read_rule lib (read_command command) netspec
rule_of lib [] = none
rule_of lib (command ∷ []) = none
rule_of lib (command ∷ netspec ∷ more ∷ rest) = none

-- Whether the address has the bits of the rule's network under the rule's mask.
unfoldable pub covers : Sockaddr → ℕ → Sockaddr → Bool
covers (inet net) prefixlen (inet addr) =
    bit_and addr (mask_4 (up_to_32 prefixlen)) == bit_and net (mask_4 (up_to_32 prefixlen))
covers (inet6 net) prefixlen (inet6 addr) =
    same_words (masked addr (mask_6 prefixlen))
      (if prefixlen == 128 then net else masked net (mask_6 prefixlen))
covers (inet net) prefixlen (inet6 addr) = false
covers (inet net) prefixlen other_family = false
covers (inet6 net) prefixlen (inet addr) = false
covers (inet6 net) prefixlen other_family = false
covers other_family prefixlen addr = false

-- The decision of the first line that covers the address; no without one.
unfoldable pub first_match : Library → List (List Bytes) → Sockaddr → Bool
unfolding rule_of covers
first_match lib [] sa = false
first_match lib (args ∷ lines) sa = elim (rule_of lib args) [
  | none ↦ first_match lib lines sa
  | some r ↦ if covers r.net r.prefixlen sa then r.allow else first_match lib lines sa
]

added : Acl → Option Rule → Option Acl
added acl none = none
added acl (some r) = some (with_entry acl r.net r.prefixlen r.allow)

acl_add-rule_for :
    (lib : Library) (acl : Acl) (netspec : Bytes) (allow : Bool)
    → acl_add lib acl netspec allow ≡ added acl (read_rule lib (some allow) netspec)
unfolding acl_add added read_rule rule_for
acl_add-rule_for lib acl netspec allow =
    by_answers (lib.getaddrinfo (cut_at_slash netspec).0) (read_prefixlen (cut_at_slash netspec).1)
  where
    by_answers :
        (sa : Option Sockaddr) (n : Option ℕ)
        → (elim sa [
          | none ↦ none
          | some a ↦ elim n [ none ↦ none | some p ↦ some (with_entry acl a p allow) ]
        ])
          ≡ added acl (rule_for allow sa n)
    by_answers none n = refl
    by_answers (some a) none = refl
    by_answers (some a) (some p) = refl

load_line-rule_of :
    (lib : Library) (acl : Acl) (args : List Bytes)
    → load_line lib acl args ≡ added acl (rule_of lib args)
unfolding load_line added rule_of read_rule
load_line-rule_of lib acl [] = refl
load_line-rule_of lib acl (command ∷ []) = refl
load_line-rule_of lib acl (command ∷ netspec ∷ []) = by_command (read_command command)
  where
    by_command :
        (o : Option Bool)
        → (elim o [ none ↦ none | some allow ↦ acl_add lib acl netspec allow ])
          ≡ added acl (read_rule lib o netspec)
    by_command none = refl
    by_command (some allow) = acl_add-rule_for lib acl netspec allow
load_line-rule_of lib acl (command ∷ netspec ∷ more ∷ rest) = refl

-- The copy of a list with the rest of the copied entries behind it.
copy_of : Acl → Acl → Acl
copy_of acl rest = record {
  entries4 = dup_onto acl.entries4 rest.entries4;
  entries6 = dup_onto acl.entries6 rest.entries6;
}

-- The entries of the lines, in the order of the file.
in_order : Library → List (List Bytes) → Acl
in_order lib [] = acl_new
in_order lib (args ∷ lines) = elim (rule_of lib args) [
  | none ↦ in_order lib lines
  | some r ↦ with_entry (in_order lib lines) r.net r.prefixlen r.allow
]

copy_of-with_entry :
    (acl rest : Acl) (sa : Sockaddr) (n : ℕ) (allow : Bool)
    → copy_of (with_entry acl sa n allow) rest ≡ copy_of acl (with_entry rest sa n allow)
unfolding copy_of with_entry dup_onto
copy_of-with_entry acl rest (inet addr) n allow = refl
copy_of-with_entry acl rest (inet6 addr) n allow = refl
copy_of-with_entry acl rest other_family n allow = refl

load_lines-copied :
    (lib : Library) (acl acl' : Acl) (lines : List (List Bytes))
    → load_lines lib acl lines ≡ some acl'
    → copy_of acl' acl_new ≡ copy_of acl (in_order lib lines)
unfolding load_lines in_order added
load_lines-copied lib acl acl' [] e = ap (λ a. copy_of a acl_new) (cc (e))
load_lines-copied lib acl acl' (args ∷ lines) e =
    by_rule (load_line lib acl args) (rule_of lib args) (load_line-rule_of lib acl args)
      (λ acl1. load_lines-copied lib acl1 acl' lines) e
  where
    by_rule :
        (o : Option Acl) (r : Option Rule)
        → o ≡ added acl r
        → ((acl1 : Acl)
            → load_lines lib acl1 lines ≡ some acl'
            → copy_of acl' acl_new ≡ copy_of acl1 (in_order lib lines))
        → (elim o [ none ↦ none | some acl1 ↦ load_lines lib acl1 lines ]) ≡ some acl'
        → copy_of acl' acl_new
          ≡ copy_of acl (elim r [
            | none ↦ in_order lib lines
            | some rule ↦ with_entry (in_order lib lines) rule.net rule.prefixlen rule.allow
          ])
    by_rule none r f ih e = absurd (cc (e))
    by_rule (some acl1) none f ih e = absurd (cc (f))
    by_rule (some acl1) (some rule) f ih e =
        ih acl1 e
        ∙ ap (λ a. copy_of a (in_order lib lines)) (cc (f))
        ∙ copy_of-with_entry acl (in_order lib lines) rule.net rule.prefixlen rule.allow

check_family-with_entry :
    (acl : Acl) (net : Sockaddr) (n : ℕ) (allow : Bool) (sa : Sockaddr)
    → check_family (with_entry acl net n allow) sa
      ≡ (if covers net n sa then allow else check_family acl sa)
unfolding check_family with_entry covers acl_check_4 acl_check_6 entry4 entry6
check_family-with_entry acl (inet net) n allow (inet addr) = refl
check_family-with_entry acl (inet net) n allow (inet6 addr) = refl
check_family-with_entry acl (inet net) n allow other_family = refl
check_family-with_entry acl (inet6 net) n allow (inet addr) = refl
check_family-with_entry acl (inet6 net) n allow (inet6 addr) = refl
check_family-with_entry acl (inet6 net) n allow other_family = refl
check_family-with_entry acl other_family n allow sa = refl

check_family-in_order :
    (lib : Library) (lines : List (List Bytes)) (sa : Sockaddr)
    → check_family (in_order lib lines) sa ≡ first_match lib lines sa
unfolding check_family in_order first_match acl_new acl_check_4 acl_check_6
check_family-in_order lib [] (inet addr) = refl
check_family-in_order lib [] (inet6 addr) = refl
check_family-in_order lib [] other_family = refl
check_family-in_order lib (args ∷ lines) sa =
    by_rule (rule_of lib args) (check_family-in_order lib lines sa)
  where
    by_rule :
        (o : Option Rule)
        → check_family (in_order lib lines) sa ≡ first_match lib lines sa
        → check_family
            (elim o [
              | none ↦ in_order lib lines
              | some r ↦ with_entry (in_order lib lines) r.net r.prefixlen r.allow
            ])
            sa
          ≡ (elim o [
            | none ↦ first_match lib lines sa
            | some r ↦ if covers r.net r.prefixlen sa then r.allow else first_match lib lines sa
          ])
    by_rule none ih = ih
    by_rule (some r) ih =
        check_family-with_entry (in_order lib lines) r.net r.prefixlen r.allow sa
        ∙ ap (λ b. if covers r.net r.prefixlen sa then r.allow else b) ih

-- A listener checks a copy of the list that was loaded: where the file loads, the copy decides by
-- the first line of the file that covers the address, once an IPv4 address in an IPv6 one is taken
-- out, and says no where no line does.
pub listener_first_match :
    (lib : Library) (lines : List (List Bytes)) (acl : Acl) (sa : Sockaddr)
    → acl_load lib lines ≡ some acl
    → acl_check lib (acl_dup acl) sa ≡ first_match lib lines (unmapped lib sa)
unfolding acl_load acl_dup acl_check acl_new copy_of dup_onto
listener_first_match lib lines acl sa e =
    ap (λ a. check_family a (unmapped lib sa)) (load_lines-copied lib acl_new acl lines e)
    ∙ check_family-in_order lib lines (unmapped lib sa)
