-- ===== src/Tests/Listener.antt =====
-- An access list of src/acl.c with a rule for a network and one for a network around it.
use aprsc.Prelude.{
  ◌+◌, ◌≡◌, refl, true, false, Option, none, some, List, [], ◌∷◌, Bytes, ◌==◌, same_nocase,
}
use aprsc.Prelude.Atoi.{atoi}
use aprsc.Acl.{
  Sockaddr, inet, inet6, Acl, Library, acl_new, acl_load, load_lines, load_line, acl_add,
  cut_at_slash, read_prefixlen, read_command, with_entry, entry4, mask_4, acl_check, acl_dup,
  unmapped, dup_onto, allow_word, deny_word, acl_check_4, check_family,
}
use aprsc.Acl.Order.{first_match, listener_first_match}

-- Names of one character, the last byte of an address in 192.168.1.0/24.
abbrev last_byte : Bytes → Option Sockaddr
last_byte [] = none
last_byte (c ∷ s) = some (inet (3232235776 + c))

abbrev one_network : Library
one_network = record { getaddrinfo = last_byte; is_v4_in_6 = λ w. w.word2 == 65535 }

-- deny 1/24, allow 1/16
abbrev two_lines : List (List Bytes)
two_lines =
    (deny_word ∷ (b'1' ∷ b'/' ∷ b'2' ∷ b'4' ∷ []) ∷ [])
    ∷ (allow_word ∷ (b'1' ∷ b'/' ∷ b'1' ∷ b'6' ∷ []) ∷ [])
    ∷ []

abbrev two_rules : Acl
two_rules = record {
  entries4 =
      record { addr = 3232235520; mask = 4294901760; allow = true }
      ∷ record { addr = 3232235776; mask = 4294967040; allow = false }
      ∷ [];
  entries6 = [];
}

-- 192.168.1.7 and 192.168.2.0, the latter in an IPv6 address.
abbrev inside : Sockaddr
inside = inet 3232235783

abbrev around : Sockaddr
around = inet6 (record { word0 = 0; word1 = 0; word2 = 65535; word3 = 3232236032 })

two_lines-load : acl_load one_network two_lines ≡ some two_rules
unfolding acl_load load_lines load_line acl_add cut_at_slash read_prefixlen atoi read_command
    same_nocase with_entry entry4 mask_4 acl_new
two_lines-load = refl

inside_test : acl_check one_network (acl_dup two_rules) inside ≡ false
unfolding acl_check acl_dup dup_onto unmapped check_family acl_check_4
inside_test = refl

around_test : acl_check one_network (acl_dup two_rules) around ≡ true
unfolding acl_check acl_dup dup_onto unmapped check_family acl_check_4
around_test = refl

-- The list that was loaded, before it is copied, is in the reverse order.
uncopied_test : acl_check one_network two_rules inside ≡ true
unfolding acl_check unmapped check_family acl_check_4
uncopied_test = refl

listener_first_match_example :
    acl_check one_network (acl_dup two_rules) around
    ≡ first_match one_network two_lines (unmapped one_network around)
listener_first_match_example =
    listener_first_match one_network two_lines two_rules around two_lines-load
