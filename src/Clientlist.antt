-- ===== src/Clientlist.antt =====
-- src/clientlist.c: who is logged in. A bucket is the list of its chain, newest first; the locks
-- make each operation one step. A stored name is at most 15 bytes, as `username[16]` holds them.
pub mod Logins
pub mod Sound
use aprsc.Prelude.{
  ℕ, ◌+◌, ◌/◌, ◌%◌, ◌^◌, bit_xor, Bool, ◌&&◌, Option, none, some, List, [], ◌∷◌, ◌==◌,
  if◌then◌else◌, Bytes, length, take, starts_with, update, find?,
}
use aprsc.Keyhash.{keyhash}

-- `clientlist_t`; `client_id` stands for the address of the client.
pub record Login : Type 0 where
  pub hash : ℕ
  pub username : Bytes
  pub username_len : ℕ
  pub validated : Bool
  pub fd : ℕ
  pub client_id : ℕ

abbrev pub Buckets : Type 0
Buckets = ℕ → List Login

-- What a client is listed by.
pub record Session : Type 0 where
  pub name : Bytes
  pub is_validated : Bool
  pub socket : ℕ
  pub id : ℕ

-- `CLIENTLIST_BUCKETS`
abbrev pub clientlist_buckets : ℕ
clientlist_buckets = 512

unfoldable pub login_bucket : ℕ → ℕ
login_bucket hash =
    let idx = bit_xor hash (hash / 2 ^ 16) in bit_xor idx (idx / 2 ^ 8) % clientlist_buckets

abbrev pub bucket_of : Bytes → ℕ
bucket_of name = login_bucket (keyhash name 0)

-- `memcmp` over the length of the name that is looked for.
abbrev pub is_login_of : Bytes → Login → Bool
is_login_of name l =
    l.hash == keyhash name 0
    && (starts_with name l.username && (l.username_len == length name && l.validated))

-- The socket of a validated login; none is the -1 of the source.
unfoldable pub check_if_validated_client : Buckets → Bytes → Option ℕ
check_if_validated_client list name = elim (find? (is_login_of name) (list (bucket_of name))) [
  | none ↦ none
  | some l ↦ some l.fd
]

abbrev pub new_login : Session → Login
new_login c = record {
  hash = keyhash c.name 0;
  username = take 15 c.name;
  username_len = length c.name;
  validated = c.is_validated;
  fd = c.socket;
  client_id = c.id;
}

-- The socket of an earlier login of this name, and the list with this one in front.
unfoldable pub clientlist_add : Buckets → Session → Option ℕ × Buckets
clientlist_add list c =
    let i = bucket_of c.name in
    (check_if_validated_client list c.name, update list i (new_login c ∷ list i))

-- `clientlist_find_id` and the removal of what it found.
pub without_id : ℕ → List Login → List Login
without_id id [] = []
without_id id (l ∷ chain) =
    let rest = without_id id chain in if l.client_id == id then chain else l ∷ rest

pub clientlist_remove : Buckets → Session → Buckets
unfolding without_id
clientlist_remove list c = let i = bucket_of c.name in update list i (without_id c.id (list i))

pub data LoginEvent : Type 0 where
  add remove : Session → LoginEvent

unfoldable pub login_step : Buckets → LoginEvent → Buckets
unfolding clientlist_add clientlist_remove
login_step list (add c) = (clientlist_add list c).1
login_step list (remove c) = clientlist_remove list c

unfoldable pub login_run : Buckets → List LoginEvent → Buckets
unfolding login_step
login_run list [] = list
login_run list (e ∷ events) = login_run (login_step list e) events
