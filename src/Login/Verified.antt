-- ===== src/Login/Verified.antt =====
-- Who is logged in and verified by src/login.c.
use mathlib.Core.Path.{subst}
use aprsc.Prelude.{
  ◌+◌, ◌≡◌, refl, sym, ◌∙◌, Bool, true, false, none, List, [], ◌∷◌, leb, if◌then◌else◌, Bytes,
  codes, same_nocase, inl, inr,
}
use aprsc.Login.Words.{parse_args_noshell}
use aprsc.Login.Options.{Logged, options}
use aprsc.Login.Kept.{
  After, After-bind, After-mono, After-printf, After-if, After-reject, Given, options-Given, From,
}
use aprsc.Login.Checks.{
  IsUser, IsVerifiedBy, IsLoggedIn, Named, Certified, check_username-Named,
  check_certificate-Certified, check_passcode-IsLoggedIn,
}
use aprsc.Login.Handler.{
  ignored, closed_by_us, retry, logged_in, check_passcode, log_in, logresp, login_user, login_words,
  failed_login, result_of, is_comment, login_handler,
}
use aprsc.Login.{
  Validation, unvalidated, weak, strong, LoginEnv, LoginState, LoginStep, gone, failed, goes,
  sanitized,
}

-- Before the passcode is checked.
abbrev Ready : LoginEnv → List Bytes → Logged → Type 0
Ready env words (st, pass) = (IsUser env st.username × Certified env st) × From words pass

options-Ready :
    (env : LoginEnv) (st : LoginState) (words : List Bytes)
    → IsUser env st.username
    → Certified env st
    → After (Ready env words) (options env st none words)
options-Ready env st words user c =
    After-mono (Given st words) (Ready env words) _
      (options-Given env st st words none words (refl, refl) tt (λ w m. m))
      (λ (st', pass) ((name, validation), f).
        ((subst (IsUser env) (sym name) user, kept st' validation c), f))
  where
    kept :
        (st' : LoginState) → st'.validation ≡ st.validation → Certified env st → Certified env st'
    kept st' h (inl (e, v)) = inl (e, h ∙ v)
    kept st' h (inr (e, v)) = inr (e, h ∙ v)

log_in-After :
    (env : LoginEnv) (st : LoginState) (words : List Bytes)
    → IsLoggedIn env words st
    → After (IsLoggedIn env words) (log_in env st)
unfolding log_in
log_in-After env st words h =
    After-printf (IsLoggedIn env words) env (record st { filter_s = sanitized st.filter_s })
      (logresp env st) h h

login_user-IsLoggedIn :
    (env : LoginEnv) (st : LoginState) (name : Bytes) (words : List Bytes)
    → st.validation ≡ unvalidated
    → After (IsLoggedIn env words) (login_user env st name words)
unfolding login_user
login_user-IsLoggedIn env st name words fresh =
    After-bind (Ready env words) (IsLoggedIn env words) _ _
      (After-bind BehindCheck (Ready env words) _ _
        (After-bind (Named env st) BehindCheck _ _ (check_username-Named env st name)
          (λ st1 (user, same). check_certificate-Certified env st1 user (same ∙ fresh)))
        (λ st2 (user, c). options-Ready env st2 words user c))
      (λ (st3, pass) ((user, c), f).
        log_in-After env (check_passcode env (st3, pass)) words
          (check_passcode-IsLoggedIn env st3 words pass user c f))
  where
    BehindCheck : LoginState → Type 0
    BehindCheck st' = IsUser env st'.username × Certified env st'

more_words :
    (env : LoginEnv) (name a b : Bytes) (words : List Bytes) (v : Validation)
    → IsVerifiedBy env words name v
    → IsVerifiedBy env (a ∷ b ∷ words) name v
more_words env name a b words unvalidated h = h
more_words env name a b words weak (e, m) = (e, inr (inr m))
more_words env name a b words strong h = h

login_words-IsLoggedIn :
    (env : LoginEnv) (st : LoginState) (words : List Bytes)
    → st.validation ≡ unvalidated
    → After (IsLoggedIn env words) (login_words env st words)
unfolding login_words
login_words-IsLoggedIn env st [] fresh = tt
login_words-IsLoggedIn env st (command ∷ []) fresh = After-reject _ env _ _
login_words-IsLoggedIn env st (command ∷ name ∷ words) fresh =
    After-if (IsLoggedIn env (command ∷ name ∷ words)) (same_nocase command (codes "user")) _ _
      (λ _.
        After-mono (IsLoggedIn env words) (IsLoggedIn env (command ∷ name ∷ words)) _
          (login_user-IsLoggedIn env st name words fresh)
          (λ st' (user, v).
            (user, more_words env st'.username command name words st'.validation v)))
      (λ _. After-reject (IsLoggedIn env (command ∷ name ∷ words)) env _ _)

failed_login-not-logged_in : (st st' : LoginState) → ¬ (failed_login st ≡ logged_in st')
unfolding failed_login
failed_login-not-logged_in st st' = by_test (leb 3 (st.failed_cmds + 1))
  where
    counts : LoginState
    counts = record st { failed_cmds = st.failed_cmds + 1 }

    by_test : (b : Bool) → ¬ ((if b then closed_by_us counts else retry counts) ≡ logged_in st')
    by_test true e = cc
    by_test false e = cc

result_of-After :
    (P : LoginState → Type 0) (x : LoginStep LoginState) (st' : LoginState)
    → result_of x ≡ logged_in st'
    → After P x
    → P st'
result_of-After P gone st' e p = cc
result_of-After P (failed st) st' e p = absurd (failed_login-not-logged_in st st' e)
result_of-After P (goes st) st' e p = let same : st ≡ st' = cc in subst P same p

-- A client that a login line logs in, and that was not validated before, has a valid name that is
-- neither disallowed nor that of the server. If it is validated strongly, a certificate was checked and
-- accepted; if weakly, no certificate was checked and `atoi` reads a word of the line as the passcode of
-- the name.
pub logged_in_is_verified :
    (env : LoginEnv) (st : LoginState) (s : Bytes) (st' : LoginState)
    → st.validation ≡ unvalidated
    → login_handler env st s ≡ logged_in st'
    → IsLoggedIn env (parse_args_noshell s) st'
unfolding login_handler
logged_in_is_verified env st s st' fresh e = by_comment (is_comment (parse_args_noshell s)) e
  where
    by_comment :
        (b : Bool)
        → (if b then ignored else result_of (login_words env st (parse_args_noshell s)))
          ≡ logged_in st'
        → IsLoggedIn env (parse_args_noshell s) st'
    by_comment true h = cc
    by_comment false h =
        result_of-After (IsLoggedIn env (parse_args_noshell s)) _ st' h
          (login_words-IsLoggedIn env st (parse_args_noshell s) fresh)
