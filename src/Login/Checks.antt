-- ===== src/Login/Checks.antt =====
-- The checks of the name, the certificate and the passcode of src/login.c.
use mathlib.Core.Path.{subst}
use aprsc.Prelude.{
  ◌≡◌, refl, sym, ◌∙◌, ap, arith, ◌⊎◌, Bool, true, false, not, Option, none, some, List, ◌∷◌, ltb,
  if◌then◌else◌, Bytes, length, Any, Any-mono, same_nocase, inl, inr,
}
use aprsc.Qconstruct.Parse.{valid_q_callsign}
use aprsc.Incoming.Callsign.{call_max}
use aprsc.Login.Kept.{After, After-if, After-reject, From}
use aprsc.Login.Handler.{
  is_disallowed, check_username, check_certificate, is_passcode, check_passcode,
}
use aprsc.Login.{Validation, unvalidated, weak, strong, LoginEnv, LoginState, failed, goes}

-- A valid name that no setting refuses.
abbrev pub IsUser : LoginEnv → Bytes → Type 0
IsUser env name =
    (valid_q_callsign name ≡ true)
    × (is_disallowed env name ≡ false)
    × (same_nocase name env.serverid ≡ false)

-- By passcode, where no certificate is checked, or by certificate.
abbrev pub IsVerifiedBy : LoginEnv → List Bytes → Bytes → Validation → Type 0
IsVerifiedBy env words name unvalidated = Unit
IsVerifiedBy env words name weak =
    (env.certificate ≡ none) × Any (λ word. is_passcode name word ≡ true) words
IsVerifiedBy env words name strong = env.certificate ≡ some none

abbrev pub IsLoggedIn : LoginEnv → List Bytes → LoginState → Type 0
IsLoggedIn env words st = IsUser env st.username × IsVerifiedBy env words st.username st.validation

-- Behind the checks of the name.
abbrev pub Named : LoginEnv → LoginState → LoginState → Type 0
Named env st st' = IsUser env st'.username × (st'.validation ≡ st.validation)

pub check_username-Named :
    (env : LoginEnv) (st : LoginState) (name : Bytes)
    → After (Named env st) (check_username env st name)
unfolding check_username
check_username-Named env st name =
    After-if (Named env st) (ltb call_max (length name)) _ _
      (λ _. After-reject (Named env st) env _ _)
      (λ _.
        After-if (Named env st) (is_disallowed env name) _ _
          (λ _. After-reject (Named env st) env _ _)
          (λ allowed.
            After-if (Named env st) (not (valid_q_callsign name)) _ _
              (λ _. After-reject (Named env st) env _ _)
              (λ (valid : not (valid_q_callsign name) ≡ false).
                After-if (Named env st) (same_nocase name env.serverid) _ _
                  (λ _. After-reject (Named env st) env _ _)
                  (λ other. ((ground arith, allowed, other), refl)))))

-- What is known of the client once its certificate was checked.
abbrev pub Certified : LoginEnv → LoginState → Type 0
Certified env st =
    ((env.certificate ≡ none) × (st.validation ≡ unvalidated))
    ⊎ ((env.certificate ≡ some none) × (st.validation ≡ strong))

pub check_certificate-Certified :
    (env : LoginEnv) (st : LoginState)
    → IsUser env st.username
    → st.validation ≡ unvalidated
    → After (λ st'. IsUser env st'.username × Certified env st') (check_certificate env st)
unfolding check_certificate
check_certificate-Certified env st user fresh = by_certificate env.certificate refl
  where
    by_certificate :
        (checked : Option (Option Bytes))
        → env.certificate ≡ checked
        → After
            (λ st'. IsUser env st'.username × Certified env st')
            (elim checked [
              | none ↦ goes st
              | some none ↦ goes (record st { validation = strong })
              | some (some text) ↦ failed (record st { failed_cmds = 10; said = text ∷ st.said })
            ])
    by_certificate none e = (user, inl (e, fresh))
    by_certificate (some none) e = (user, inr (e, refl))
    by_certificate (some (some text)) e = tt

unchanged-IsLoggedIn :
    (env : LoginEnv) (st : LoginState) (words : List Bytes)
    → IsUser env st.username
    → Certified env st
    → IsLoggedIn env words st
unchanged-IsLoggedIn env st words user (inl (e, v)) =
    (user, subst (IsVerifiedBy env words st.username) (sym v) tt)
unchanged-IsLoggedIn env st words user (inr (e, v)) =
    (user, subst (IsVerifiedBy env words st.username) (sym v) e)

pub check_passcode-IsLoggedIn :
    (env : LoginEnv) (st : LoginState) (words : List Bytes) (pass : Option Bytes)
    → IsUser env st.username
    → Certified env st
    → From words pass
    → IsLoggedIn env words (check_passcode env (st, pass))
unfolding check_passcode
check_passcode-IsLoggedIn env st words none user c f = unchanged-IsLoggedIn env st words user c
check_passcode-IsLoggedIn env st words (some pass) user c f = by_certificate env.certificate refl
  where
    by_test :
        (right : Bool)
        → is_passcode st.username pass ≡ right
        → env.certificate ≡ none
        → IsLoggedIn env words (if right then record st { validation = weak } else st)
    by_test true r e = (
      user,
      (
        e,
        Any-mono (λ word. word ≡ pass) (λ word. is_passcode st.username word ≡ true) words
            (λ word h. ap (is_passcode st.username) h ∙ r) f,
      ),
    )
    by_test false r e = unchanged-IsLoggedIn env st words user c

    by_certificate :
        (checked : Option (Option Bytes))
        → env.certificate ≡ checked
        → IsLoggedIn env words (elim checked [
          | some _ ↦ st
          | none ↦ if is_passcode st.username pass then record st { validation = weak } else st
        ])
    by_certificate none e = by_test (is_passcode st.username pass) refl e
    by_certificate (some answer) e = unchanged-IsLoggedIn env st words user c
