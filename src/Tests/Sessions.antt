-- ===== src/Tests/Sessions.antt =====
-- Two clients of one name on the list of src/clientlist.c.
use aprsc.Prelude.{
  ◌≡◌, some, Any, starts_with, ◌≢◌, refl, arith, true, false, none, List, [], ◌∷◌, codes,
}
use aprsc.Clientlist.{
  clientlist_add, login_bucket, Session, LoginEvent, add, remove, check_if_validated_client,
  login_step, login_run,
}
use aprsc.Clientlist.Logins.{login_is_found}
use aprsc.Clientlist.Sound.{Grants, found_has_logged_in}
use aprsc.Keyhash.{keyhash}

abbrev first : Session
first = record { name = codes "OH7LZB"; is_validated = true; socket = 5; id = 1 }

abbrev second : Session
second = record { name = codes "OH7LZB"; is_validated = false; socket = 6; id = 2 }

abbrev both : List LoginEvent
both = add first ∷ add second ∷ []

is_found : check_if_validated_client (login_run (λ _. []) both) (codes "OH7LZB") ≡ some 5
unfolding check_if_validated_client login_run login_step clientlist_add login_bucket keyhash
    starts_with
is_found = refl

found_has_logged_in_example : Any (Grants (codes "OH7LZB") 5) both
found_has_logged_in_example = found_has_logged_in both (codes "OH7LZB") 5 is_found

abbrev later : List LoginEvent
later = add second ∷ remove second ∷ []

login_is_found_example :
    check_if_validated_client (login_run (login_step (λ _. []) (add first)) later) (codes "OH7LZB")
    ≢ none
login_is_found_example =
    login_is_found (λ _. []) first later refl (omega arith) (tt, ((λ e. absurd (omega arith)), tt))
