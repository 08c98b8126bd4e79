-- ===== src/Tests/LoginLines.antt =====
-- Login lines of src/login.c.
use aprsc.Prelude.{
  some, ◌≡◌, refl, true, false, none, [], ◌∷◌, Bytes, codes, same_nocase, starts_with, memmem,
  is_alnum,
}
use aprsc.Prelude.Atoi.{atoi}
use aprsc.Passcode.{aprs_passcode}
use aprsc.Incoming.Callsign.{check_call_glob_match}
use aprsc.Qconstruct.Parse.{valid_q_callsign, q_chars}
use aprsc.Login.Words.{parse_args_noshell, words_from, keyword}
use aprsc.Login.Options.{options, filter_words, filter_option, version_option}
use aprsc.Login.Handler.{
  logged_in, is_disallowed, check_username, check_certificate, check_passcode, log_in, login_user,
  login_words, login_handler, http_udp_upload_login,
}
use aprsc.Login.Checks.{IsLoggedIn}
use aprsc.Login.Verified.{logged_in_is_verified}
use aprsc.Login.{
  LoginEnv, LoginState, unvalidated, weak, client_printf, begins_with_any, login_set_app_name,
}

abbrev env : LoginEnv
env = record {
  serverid = codes "T2TEST";
  disallow_login_glob = codes "N0CALL" ∷ [];
  fnmatch = λ pattern name. same_nocase pattern name;
  quirks_mode = false;
  user_filters_ok = true;
  udp_service = false;
  filter_parse = λ word. true;
  certificate = none;
  stays = λ text. true;
}

abbrev fresh_client : LoginState
fresh_client = record {
  username = [];
  validation = unvalidated;
  failed_cmds = 1;
  app_name = [];
  app_version = [];
  no_tx = false;
  quirks = false;
  udp_port = none;
  filter_s = [];
  filters = [];
  said = [];
}

abbrev line : Bytes
line = codes "user W1AW pass 25988 vers GW1000 1.2 filter m/50 b/OH*"

abbrev logged_in_client : LoginState
logged_in_client = record {
  username = codes "W1AW";
  validation = weak;
  failed_cmds = 1;
  app_name = codes "GW1000";
  app_version = codes "1.2";
  no_tx = true;
  quirks = false;
  udp_port = none;
  filter_s = codes "m/50 b/OH*";
  filters = codes "b/OH*" ∷ codes "m/50" ∷ [];
  said = codes "# logresp W1AW verified, server T2TEST\r\n" ∷ [];
}

line_logs_in : login_handler env fresh_client line ≡ logged_in logged_in_client
unfolding login_handler parse_args_noshell words_from login_words login_user check_username
    is_disallowed check_call_glob_match same_nocase valid_q_callsign q_chars check_certificate
    options keyword memmem version_option filter_option filter_words login_set_app_name
    begins_with_any check_passcode atoi aprs_passcode log_in client_printf starts_with is_alnum
line_logs_in = refl

logged_in_is_verified_example : IsLoggedIn env (parse_args_noshell line) logged_in_client
logged_in_is_verified_example =
    logged_in_is_verified env fresh_client line logged_in_client refl line_logs_in

upload_needs_user : http_udp_upload_login env (codes "W1AW pass 25988") ≡ none
unfolding http_udp_upload_login parse_args_noshell words_from same_nocase
upload_needs_user = refl

-- A passcode wraps like an `int`, and a number that is too long for a `long` is -1.
wrapped_passcode : atoi (codes "4294993284") ≡ some 25988
unfolding atoi
wrapped_passcode = refl

saturated_passcode : atoi (codes "99999999999999999999") ≡ none
unfolding atoi
saturated_passcode = refl

minus_wrapped : atoi (codes " -4294967295") ≡ some 1
unfolding atoi
minus_wrapped = refl
