-- ===== src/Login/Handler.antt =====
-- src/login.c: `login_handler`, and the logins of packets that come by HTTP and UDP.
use aprsc.Prelude.{
  ◌+◌, Bool, true, false, not, ◌||◌, Option, none, some, List, [], ◌∷◌, ◌++◌, ltb, leb, ◌==◌,
  if◌then◌else◌, Bytes, codes, length, get_or, same_nocase,
}
use aprsc.Prelude.Atoi.{atoi}
use aprsc.Passcode.{aprs_passcode}
use aprsc.Qconstruct.Parse.{valid_q_callsign}
use aprsc.Incoming.Callsign.{call_max, check_call_glob_match}
use aprsc.Login.Words.{k_pass, k_vers, keyword, parse_args_noshell}
use aprsc.Login.Options.{Logged, options}
use aprsc.Login.{
  Validation, unvalidated, weak, strong, LoginEnv, LoginState, LoginStep, gone, failed, goes, ◌>>=◌,
  client_printf, reject, sanitized,
}

-- The line is no login, the client is gone or closed, may try again, or is logged in.
pub data LoginResult : Type 0 where
  ignored client_gone : LoginResult
  closed_by_us retry logged_in : LoginState → LoginResult

-- `disallow_login_usernames` and the configured names.
unfoldable pub is_disallowed : LoginEnv → Bytes → Bool
unfolding same_nocase check_call_glob_match
is_disallowed env name =
    same_nocase name (codes "pass")
    || check_call_glob_match env.fnmatch env.disallow_login_glob name

-- The checks of the name, in their order.
unfoldable pub check_username : LoginEnv → LoginState → Bytes → LoginStep LoginState
unfolding reject is_disallowed valid_q_callsign same_nocase
check_username env st name =
    if ltb call_max (length name)
    then reject env st (codes "# Invalid username format\r\n")
    else (let st' : LoginState = record st { username = name } in
        if is_disallowed env name
        then reject env st' (codes "# Login by user not allowed\r\n")
        else if not (valid_q_callsign name)
        then reject env st' (codes "# Invalid username format, not allowed\r\n")
        else if same_nocase name env.serverid
        then reject env st' (codes "# Login by user not allowed (our serverid)\r\n")
        else goes st')

-- `login_client_validate_cert`, where the client's certificate is to be checked. A failure is failed_login
-- even if the client is gone by then.
unfoldable pub check_certificate : LoginEnv → LoginState → LoginStep LoginState
check_certificate env st = elim env.certificate [
  | none ↦ goes st
  | some none ↦ goes (record st { validation = strong })
  | some (some text) ↦ failed (record st { failed_cmds = 10; said = text ∷ st.said })
]

abbrev pub is_passcode : Bytes → Bytes → Bool
is_passcode name pass = elim (atoi pass) [ none ↦ false | some given ↦ given == aprs_passcode name ]

-- The passcode counts only if no certificate was checked.
unfoldable pub check_passcode : LoginEnv → Logged → LoginState
unfolding atoi aprs_passcode
check_passcode env (st, none) = st
check_passcode env (st, some pass) = elim env.certificate [
  | some _ ↦ st
  | none ↦ if is_passcode st.username pass then record st { validation = weak } else st
]

abbrev pub verified_word : Validation → Bytes
verified_word unvalidated = codes "unverified"
verified_word weak = codes "verified"
verified_word strong = codes "verified"

-- The line that tells a client of its login.
abbrev pub logresp : LoginEnv → LoginState → Bytes
logresp env st =
    codes "# logresp "
    ++ st.username
    ++ b' ' ∷ verified_word st.validation
    ++ codes ", server "
    ++ env.serverid
    ++ codes "\r\n"

unfoldable pub log_in : LoginEnv → LoginState → LoginStep LoginState
unfolding client_printf
log_in env st = client_printf env (record st { filter_s = sanitized st.filter_s }) (logresp env st)

-- The login of a user with a name and options.
unfoldable pub login_user : LoginEnv → LoginState → Bytes → List Bytes → LoginStep LoginState
unfolding check_username check_certificate options check_passcode log_in
login_user env st name words =
    check_username env st name
    >>= (λ st1. check_certificate env st1)
    >>= (λ st2. options env st2 none words)
    >>= λ logged. log_in env (check_passcode env logged)

unfoldable pub login_words : LoginEnv → LoginState → List Bytes → LoginStep LoginState
unfolding same_nocase reject login_user
login_words env st [] = failed st
login_words env st (command ∷ []) =
    reject env st (codes "# Invalid login string, too few arguments\r\n")
login_words env st (command ∷ name ∷ words) =
    if same_nocase command (codes "user")
    then login_user env st name words
    else reject env
        (record st {
          failed_cmds = (if same_nocase command (codes "GET") then 10 else st.failed_cmds) + 1;
        })
        (codes "# Invalid login command\r\n")

-- A failed login counts, and the third one closes the client.
unfoldable pub failed_login : LoginState → LoginResult
failed_login st =
    if leb 3 (st.failed_cmds + 1)
    then closed_by_us (record st { failed_cmds = st.failed_cmds + 1 })
    else retry (record st { failed_cmds = st.failed_cmds + 1 })

abbrev pub result_of : LoginStep LoginState → LoginResult
result_of gone = client_gone
result_of (failed st) = failed_login st
result_of (goes st) = logged_in st

abbrev pub is_comment : List Bytes → Bool
is_comment [] = true
is_comment (word ∷ words) = get_or word 0 0 == b'#'

unfoldable pub login_handler : LoginEnv → LoginState → Bytes → LoginResult
unfolding parse_args_noshell login_words failed_login
login_handler env st s =
    let words = parse_args_noshell s in
    if is_comment words then ignored else result_of (login_words env st words)

-- The options of a login by HTTP or UDP: whether the last passcode before the end is right counts,
-- as does an earlier one.
unfoldable pub upload_options : Bytes → Bool → List Bytes → Bool
unfolding keyword atoi aprs_passcode
upload_options name validated [] = validated
upload_options name validated (a ∷ []) = validated
upload_options name validated (a ∷ b ∷ []) = elim (keyword a) [
  | k_pass ↦ validated || is_passcode name b
  | k_vers ↦ validated
  | _ ↦ upload_options name validated (b ∷ [])
]
upload_options name validated (a ∷ b ∷ v ∷ rest) = elim (keyword a) [
  | k_pass ↦ upload_options name (validated || is_passcode name b) (v ∷ rest)
  | k_vers ↦ upload_options name validated rest
  | _ ↦ upload_options name validated (b ∷ v ∷ rest)
]

-- None for -1, else whether the user is validated.
unfoldable pub http_udp_upload_login : LoginEnv → Bytes → Option (Bytes × Bool)
unfolding parse_args_noshell same_nocase is_disallowed valid_q_callsign upload_options
http_udp_upload_login env s = elim (parse_args_noshell s) [
  | [] ↦ none
  | command ∷ [] ↦ none
  | command ∷ name ∷ words ↦
      if not (same_nocase command (codes "user"))
      then none
      else if ltb call_max (length name)
      then none
      else if is_disallowed env name
      then none
      else if not (valid_q_callsign name)
      then none
      else some (name, upload_options name false words)
]
