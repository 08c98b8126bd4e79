-- ===== src/Login/Kept.antt =====
-- What the options of a login of src/login.c leave alone, and where the passcode comes from.
use aprsc.Prelude.{
  ℕ, ◌≡◌, refl, Bool, true, false, not, ◌||◌, Option, none, some, List, [], ◌∷◌, if◌then◌else◌,
  Bytes, codes, length, leb, Any, same_nocase, inl, inr,
}
use aprsc.Login.Words.{Keyword, k_pass, k_vers, k_udp, k_filter, k_other, keyword}
use aprsc.Login.Options.{
  Logged, options, filter_words, filter_noted, filter_option, version_option, udp_option,
  udp_port_of, with_pass, with_filter, longer_text, bad_filter,
}
use aprsc.Login.{
  LoginEnv, LoginState, LoginStep, gone, failed, goes, ◌>>=◌, client_printf, printf_size, reject,
  login_set_app_name, login_setup_udp_feed,
}

-- What holds if the login goes on.
abbrev pub After : {A : Type 0} → (A → Type 0) → LoginStep A → Type 0
After P gone = Unit
After P (failed st) = Unit
After P (goes a) = P a

pub After-bind :
    {A B : Type 0} (P : A → Type 0) (Q : B → Type 0) (s : LoginStep A) (f : A → LoginStep B)
    → After P s
    → ((a : A) → P a → After Q (f a))
    → After Q (s >>= f)
After-bind P Q gone f p q = tt
After-bind P Q (failed st) f p q = tt
After-bind P Q (goes a) f p q = q a p

pub After-mono :
    {A : Type 0} (P Q : A → Type 0) (s : LoginStep A)
    → After P s
    → ((a : A) → P a → Q a)
    → After Q s
After-mono P Q gone p q = tt
After-mono P Q (failed st) p q = tt
After-mono P Q (goes a) p q = q a p

pub After-if :
    {A : Type 0} (P : A → Type 0) (b : Bool) (x y : LoginStep A)
    → (b ≡ true → After P x)
    → (b ≡ false → After P y)
    → After P (if b then x else y)
After-if P true x y p q = p refl
After-if P false x y p q = q refl

pub After-reject :
    {A : Type 0} (P : A → Type 0) (env : LoginEnv) (st : LoginState) (text : Bytes)
    → After P (reject env st text)
unfolding reject
After-reject P env st text = After-if P (env.stays text) _ _ (λ _. tt) (λ _. tt)

pub After-printf :
    (P : LoginState → Type 0) (env : LoginEnv) (st : LoginState) (text : Bytes)
    → P st
    → P (record st { said = text ∷ st.said })
    → After P (client_printf env st text)
unfolding client_printf
After-printf P env st text q p =
    After-if P (leb printf_size (length text)) _ _ (λ _. q)
      (λ _. After-if P (env.stays text) _ _ (λ _. p) (λ _. tt))

-- The name and the validation of the client.
abbrev pub Keeps : LoginState → LoginState → Type 0
Keeps st st' = (st'.username ≡ st.username) × (st'.validation ≡ st.validation)

filter_noted-Keeps :
    (env : LoginEnv) (st0 st : LoginState) (word : Bytes) (ok : Bool)
    → Keeps st0 st
    → After (Keeps st0) (filter_noted env st word ok)
filter_noted-Keeps env st0 st word true k = k
filter_noted-Keeps env st0 st word false k = After-printf (Keeps st0) env st (bad_filter word) k k

filter_words-Keeps :
    (env : LoginEnv) (st0 : LoginState) (so_far : Bytes) (st : LoginState) (words : List Bytes)
    → Keeps st0 st
    → After (Keeps st0) (filter_words env so_far st words)
unfolding filter_words
filter_words-Keeps env st0 so_far st [] k = k
filter_words-Keeps env st0 so_far st (word ∷ words) k =
    After-bind (Keeps st0) (Keeps st0) _ _
      (filter_noted-Keeps env st0
        (record st { filter_s = longer_text st.filter_s (with_filter so_far word) }) word
        (env.filter_parse word) k)
      (λ st' k'.
        filter_words-Keeps env st0 (longer_text so_far (with_filter so_far word)) st' words k')

filter_option-Keeps :
    (env : LoginEnv) (st0 st : LoginState) (words : List Bytes)
    → Keeps st0 st
    → After (Keeps st0) (filter_option env st words)
unfolding filter_option
filter_option-Keeps env st0 st words k =
    After-if (Keeps st0) env.user_filters_ok _ _ (λ _. filter_words-Keeps env st0 [] st words k)
      (λ _.
        After-printf (Keeps st0) env st (codes "# No user-specified filters on this port\r\n") k k)

version_option-Keeps :
    (env : LoginEnv) (st0 st : LoginState) (app_name : Bytes) (app_ver : Option Bytes)
    → Keeps st0 st
    → After (Keeps st0) (version_option env st app_name app_ver)
unfolding version_option login_set_app_name
version_option-Keeps env st0 st app_name none k =
    After-if (Keeps st0) (login_set_app_name env st app_name []).quirks _ _ (λ _. k)
      (λ _. After-reject (Keeps st0) env _ _)
version_option-Keeps env st0 st app_name (some app_ver) k =
    After-if (Keeps st0)
      ((login_set_app_name env st app_name app_ver).quirks
        || not (same_nocase app_ver (codes "filter")))
      _ _ (λ _. k) (λ _. After-reject (Keeps st0) env _ _)

udp_option-Keeps :
    (env : LoginEnv) (st0 st : LoginState) (port : ℕ)
    → Keeps st0 st
    → After (Keeps st0) (udp_option env st port)
unfolding udp_option login_setup_udp_feed
udp_option-Keeps env st0 st port k = after_setup env.udp_service
  where
    after_setup :
        (b : Bool)
        → After (Keeps st0) (elim (if b then some (record st { udp_port = some port }) else none) [
          | some st' ↦ goes st'
          | none ↦ client_printf env st (codes "# No UDP service available on this port\r\n")
        ])
    after_setup true = k
    after_setup false =
        After-printf (Keeps st0) env st (codes "# No UDP service available on this port\r\n") k k

-- That a passcode, if one was given, is one of the words.
abbrev pub From : List Bytes → Option Bytes → Type 0
From words none = Unit
From words (some pass) = Any (λ word. word ≡ pass) words

abbrev pub Given : LoginState → List Bytes → Logged → Type 0
Given st0 all (st, pass) = Keeps st0 st × From all pass

with_pass-Given :
    (st0 : LoginState) (all : List Bytes) (pass : Option Bytes) (s : LoginStep LoginState)
    → From all pass
    → After (Keeps st0) s
    → After (Given st0 all) (with_pass pass s)
with_pass-Given st0 all pass s f k = After-bind (Keeps st0) (Given st0 all) s _ k (λ st k'. (k', f))

by_keyword :
    {A : Type 0} (P : A → Type 0) (k : Keyword) (pass vers udp filter other : LoginStep A)
    → After P pass
    → After P vers
    → After P udp
    → After P filter
    → After P other
    → After P (elim k [
      | k_pass ↦ pass
      | k_vers ↦ vers
      | k_udp ↦ udp
      | k_filter ↦ filter
      | k_other ↦ other
    ])
by_keyword P k_pass _ _ _ _ _ p v u f o = p
by_keyword P k_vers _ _ _ _ _ p v u f o = v
by_keyword P k_udp _ _ _ _ _ p v u f o = u
by_keyword P k_filter _ _ _ _ _ p v u f o = f
by_keyword P k_other _ _ _ _ _ p v u f o = o

by_port :
    {A : Type 0} (P : A → Type 0) (port : Option ℕ) (x : LoginStep A) (y : ℕ → LoginStep A)
    → After P x
    → ((n : ℕ) → After P (y n))
    → After P (elim port [ none ↦ x | some n ↦ y n ])
by_port P none _ _ p q = p
by_port P (some n) _ _ p q = q n

pub options-Given :
    (env : LoginEnv) (st0 st : LoginState) (all : List Bytes) (pass : Option Bytes)
    (words : List Bytes)
    → Keeps st0 st
    → From all pass
    → ((w : Bytes) → Any (λ word. word ≡ w) words → Any (λ word. word ≡ w) all)
    → After (Given st0 all) (options env st pass words)
unfolding options
options-Given env st0 st all pass [] k f sub = (k, f)
options-Given env st0 st all pass (a ∷ []) k f sub =
    by_keyword (Given st0 all) (keyword a) _ _ _ _ _ (k, f) (k, f) (k, f)
      (with_pass-Given st0 all pass _ f (filter_option-Keeps env st0 st [] k)) (k, f)
options-Given env st0 st all pass (a ∷ b ∷ []) k f sub =
    by_keyword (Given st0 all) (keyword a) _ _ _ _ _ (k, sub b (inr (inl refl)))
      (with_pass-Given st0 all pass _ f (version_option-Keeps env st0 st b none k))
      (by_port (Given st0 all) (udp_port_of b) _ _ (k, f)
        (λ port. with_pass-Given st0 all pass _ f (udp_option-Keeps env st0 st port k)))
      (with_pass-Given st0 all pass _ f (filter_option-Keeps env st0 st (b ∷ []) k))
      (options-Given env st0 st all pass (b ∷ []) k f (λ w m. sub w (inr m)))
options-Given env st0 st all pass (a ∷ b ∷ v ∷ rest) k f sub =
    by_keyword (Given st0 all) (keyword a) _ _ _ _ _
      (options-Given env st0 st all (some b) (v ∷ rest) k (sub b (inr (inl refl)))
        (λ w m. sub w (inr (inr m))))
      (After-bind (Keeps st0) (Given st0 all) _ _ (version_option-Keeps env st0 st b (some v) k)
        (λ st' k'. options-Given env st0 st' all pass rest k' f (λ w m. sub w (inr (inr (inr m))))))
      (by_port (Given st0 all) (udp_port_of b) _ _ (k, f)
        (λ port.
          After-bind (Keeps st0) (Given st0 all) _ _ (udp_option-Keeps env st0 st port k) (λ st' k'.
            options-Given env st0 st' all pass (v ∷ rest) k' f (λ w m. sub w (inr (inr m))))))
      (with_pass-Given st0 all pass _ f (filter_option-Keeps env st0 st (b ∷ v ∷ rest) k))
      (options-Given env st0 st all pass (b ∷ v ∷ rest) k f (λ w m. sub w (inr m)))
