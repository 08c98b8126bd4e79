-- ===== src/Login.antt =====
-- src/login.c: the login line of a client. A word is a list of bytes, and a line that ends with its
-- NUL or at a NUL in it.
pub mod Words
pub mod Options
pub mod Handler
pub mod Kept
pub mod Checks
pub mod Verified
use aprsc.Prelude.{
  ℕ, ◌+◌, Bool, true, false, ◌&&◌, ◌||◌, Option, none, some, List, [], ◌∷◌, ◌++◌, ltb, leb, ◌==◌,
  if◌then◌else◌, Bytes, codes, length, take, starts_with,
}

-- `VALIDATED_WEAK` is by passcode, `VALIDATED_STRONG` by certificate.
pub data Validation : Type 0 where
  unvalidated weak strong : Validation

-- The part of the client that a login writes, the filters that were accepted, and the lines that
-- were sent to it, last first.
pub record LoginState : Type 0 where
  pub username : Bytes
  pub validation : Validation
  pub failed_cmds : ℕ
  pub app_name : Bytes
  pub app_version : Bytes
  pub no_tx : Bool
  pub quirks : Bool
  pub udp_port : Option ℕ
  pub filter_s : Bytes
  pub filters : List Bytes
  pub said : List Bytes

-- The settings, and what other modules say: whether the client has a downstream socket and may set
-- filters, the answers of `filter_parse`, the check of a certificate where there is one (nothing, or
-- the line that refuses it), and whether the client is still there after a line was written to it.
pub record LoginEnv : Type 0 where
  pub serverid : Bytes
  pub disallow_login_glob : List Bytes
  pub fnmatch : Bytes → Bytes → Bool
  pub quirks_mode : Bool
  pub user_filters_ok : Bool
  pub udp_service : Bool
  pub filter_parse : Bytes → Bool
  pub certificate : Option (Option Bytes)
  pub stays : Bytes → Bool

-- The client is gone, the login has failed, or it goes on.
pub data LoginStep (A : Type 0) : Type 0 where
  gone : LoginStep A
  failed : LoginState → LoginStep A
  goes : A → LoginStep A

infixl 5 ◌>>=◌
abbrev pub ◌>>=◌ : {A B : Type 0} → LoginStep A → (A → LoginStep B) → LoginStep B
gone >>= f = gone
failed st >>= f = failed st
goes a >>= f = f a

-- `PACKETLEN_MAX`, the buffer of `client_printf`
abbrev pub printf_size : ℕ
printf_size = 512

-- A line that is too long for the buffer is not sent.
unfoldable pub client_printf : LoginEnv → LoginState → Bytes → LoginStep LoginState
client_printf env st text =
    if leb printf_size (length text)
    then goes st
    else if env.stays text
    then goes (record st { said = text ∷ st.said })
    else gone

-- A line of fixed length to the client, and the end of this login.
unfoldable pub reject : {A : Type 0} → LoginEnv → LoginState → Bytes → LoginStep A
reject env st text = if env.stays text then failed (record st { said = text ∷ st.said }) else gone

-- `sanitize_ascii_string` of src/config.c
abbrev pub sanitized : Bytes → Bytes
sanitized [] = []
sanitized (c ∷ s) = (if ltb c 32 || leb 127 c then b'_' else c) ∷ sanitized s

-- What fits a field of 32 bytes with its NUL.
abbrev pub app_field : Bytes → Bytes
app_field s = sanitized (take 31 s)

abbrev pub igate_tx_blacklist : List Bytes
igate_tx_blacklist = codes "GW1000" ∷ []

abbrev pub quirks_mode_blacklist : List Bytes
quirks_mode_blacklist =
    codes "HR-IXPWIND" ∷ codes "HR-IXP-WIND" ∷ codes "IXP-WIND" ∷ codes "Oww/" ∷ []

-- `prefixmatch` with any of a list.
unfoldable pub begins_with_any : List Bytes → Bytes → Bool
unfolding starts_with
begins_with_any [] name = false
begins_with_any (needle ∷ needles) name = starts_with needle name || begins_with_any needles name

unfoldable pub login_set_app_name : LoginEnv → LoginState → Bytes → Bytes → LoginState
unfolding begins_with_any
login_set_app_name env st app_name app_ver =
    let name = app_field app_name in
    record st {
      app_name = name;
      app_version = app_field app_ver;
      no_tx = st.no_tx || begins_with_any igate_tx_blacklist name;
      quirks = env.quirks_mode || begins_with_any quirks_mode_blacklist name;
    }

unfoldable pub login_setup_udp_feed : LoginEnv → LoginState → ℕ → Option LoginState
login_setup_udp_feed env st port =
    if env.udp_service then some (record st { udp_port = some port }) else none
