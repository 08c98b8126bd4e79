-- ===== src/Login/Options.antt =====
-- src/login.c: the options of a login behind the user name.
use aprsc.Prelude.{
  ℕ, ◌+◌, Bool, true, false, not, ◌||◌, Option, none, some, List, [], ◌∷◌, ◌++◌, ltb, if◌then◌else◌,
  Bytes, codes, length, same_nocase,
}
use aprsc.Prelude.Atoi.{atoi}
use aprsc.Login.Words.{k_pass, k_vers, k_udp, k_filter, k_other, keyword}
use aprsc.Login.{
  LoginEnv, LoginState, LoginStep, goes, ◌>>=◌, client_printf, reject, login_set_app_name,
  login_setup_udp_feed,
}

-- `FILTER_S_SIZE`
abbrev pub filter_s_size : ℕ
filter_s_size = 256

-- The text of the filters so far with one more, behind a space, if it fits.
abbrev pub with_filter : Bytes → Bytes → Option Bytes
with_filter so_far word =
    if ltb (length so_far + length word + 2) filter_s_size
    then some (elim so_far [ [] ↦ word | c ∷ text ↦ (c ∷ text) ++ b' ' ∷ word ])
    else none

abbrev pub longer_text : Bytes → Option Bytes → Bytes
longer_text so_far none = so_far
longer_text so_far (some text) = text

abbrev pub bad_filter : Bytes → Bytes
bad_filter word = codes "# Parse errors on filter spec: '" ++ word ++ codes "'\r\n"

-- Once the filter was accepted or refused.
abbrev pub filter_noted : LoginEnv → LoginState → Bytes → Bool → LoginStep LoginState
filter_noted env st word true = goes (record st { filters = word ∷ st.filters })
filter_noted env st word false = client_printf env st (bad_filter word)

-- All of the words that are left are filters. The text is stored when it grows.
unfoldable pub filter_words : LoginEnv → Bytes → LoginState → List Bytes → LoginStep LoginState
unfolding client_printf
filter_words env so_far st [] = goes st
filter_words env so_far st (word ∷ words) =
    let text = with_filter so_far word in
    filter_noted env (record st { filter_s = longer_text st.filter_s text }) word
      (env.filter_parse word)
    >>= λ st'. filter_words env (longer_text so_far text) st' words

unfoldable pub filter_option : LoginEnv → LoginState → List Bytes → LoginStep LoginState
unfolding client_printf filter_words
filter_option env st words =
    if env.user_filters_ok
    then filter_words env [] st words
    else client_printf env st (codes "# No user-specified filters on this port\r\n")

-- With the name and the version of the software; the version is missing if it is none or a filter.
unfoldable pub version_option : LoginEnv → LoginState → Bytes → Option Bytes → LoginStep LoginState
unfolding login_set_app_name reject same_nocase
version_option env st app_name none =
    let st' = login_set_app_name env st app_name [] in
    if st'.quirks
    then goes st'
    else reject env st'
        (codes "# Invalid login: software name and version are not separated by a space\r\n")
version_option env st app_name (some app_ver) =
    let st' = login_set_app_name env st app_name app_ver in
    if st'.quirks || not (same_nocase app_ver (codes "filter"))
    then goes st'
    else reject env st'
        (codes "# Invalid login: software name and version are not separated by a space\r\n")

-- The port number, if it is in range.
abbrev pub udp_port_of : Bytes → Option ℕ
udp_port_of word = elim (atoi word) [
  | none ↦ none
  | some port ↦ if ltb port 1024 || ltb 65535 port then none else some port
]

unfoldable pub udp_option : LoginEnv → LoginState → ℕ → LoginStep LoginState
unfolding login_setup_udp_feed client_printf
udp_option env st port = elim (login_setup_udp_feed env st port) [
  | some st' ↦ goes st'
  | none ↦ client_printf env st (codes "# No UDP service available on this port\r\n")
]

-- The state, and the passcode that was given last.
abbrev pub Logged : Type 0
Logged = LoginState × Option Bytes

abbrev pub with_pass : Option Bytes → LoginStep LoginState → LoginStep Logged
with_pass pass s = s >>= λ st. goes (st, pass)

-- The loop over the words; an option without its argument, a port out of range, and filters end it.
unfoldable pub options : LoginEnv → LoginState → Option Bytes → List Bytes → LoginStep Logged
unfolding keyword filter_option version_option udp_option atoi
options env st pass [] = goes (st, pass)
options env st pass (a ∷ []) = elim (keyword a) [
  | k_filter ↦ with_pass pass (filter_option env st [])
  | _ ↦ goes (st, pass)
]
options env st pass (a ∷ b ∷ []) = elim (keyword a) [
  | k_pass ↦ goes (st, some b)
  | k_vers ↦ with_pass pass (version_option env st b none)
  | k_udp ↦ elim (udp_port_of b) [
    | none ↦ goes (st, pass)
    | some port ↦ with_pass pass (udp_option env st port)
  ]
  | k_filter ↦ with_pass pass (filter_option env st (b ∷ []))
  | k_other ↦ options env st pass (b ∷ [])
]
options env st pass (a ∷ b ∷ v ∷ rest) = elim (keyword a) [
  | k_pass ↦ options env st (some b) (v ∷ rest)
  | k_vers ↦ version_option env st b (some v) >>= λ st'. options env st' pass rest
  | k_udp ↦ elim (udp_port_of b) [
    | none ↦ goes (st, pass)
    | some port ↦ udp_option env st port >>= λ st'. options env st' pass (v ∷ rest)
  ]
  | k_filter ↦ with_pass pass (filter_option env st (b ∷ v ∷ rest))
  | k_other ↦ options env st pass (b ∷ v ∷ rest)
]
