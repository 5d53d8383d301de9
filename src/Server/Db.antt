-- ===== src/Server/Db.antt =====
-- server/src/db/models: the rows, the tables as the lists of their rows, and the statements.
-- Identifiers are only compared by the program, and are numbers here. A time is in seconds since the
-- Unix epoch. The database itself (diesel over SQLite) is outside of the repository: a query returns
-- the rows that its filters let through, and a tape of faults says which of the next writing
-- statements fail; when it has run out, they succeed.
use umewarden.Prelude.{ℕ, ◌≡◌, refl, Bool, true, false, Option, none, some, List, [], ◌∷◌}
use umewarden.Prelude.Int.{ℤ}
use umewarden.Prelude.Text.{Text}

pub data Error : Type 0 where
  -- a statement failed
  database : Error
  -- authenticator.rs
  not_a_number invalid_totp_secret invalid_totp_code invalid_key_length : Error
  -- protected_actions.rs and api/mod.rs
  mail_disabled mail_failed otp_not_found bad_json token_expired token_invalid : Error
  please_wait : ℕ → Error
  invalid_password no_validation : Error
  -- folders.rs
  invalid_folder : Error
  -- accounts.rs, auth requests
  auth_request_missing device_mismatch already_answered wrong_client : Error
  -- ciphers.rs
  cipher_missing not_accessible stale_client no_organizations note_too_long : Error
  invalid_type data_missing no_previous_folder : Error
  not_all_moved : ℕ → ℕ → Error
  missing_ids nothing_selected attachment_missing other_cipher storage_failed : Error
  attachments_disabled size_overflow limit_reached limit_exceeded size_mismatch : Error
  -- user.rs, identity.rs, auth.rs and email.rs
  email_not_valid : Error
  bad_scope no_scope blank_field bad_grant_type no_sso : Error
  login_limited wrong_login user_disabled login_request_missing wrong_access_code : Error
  email_unverified device_mail_failed bad_client_id wrong_secret refresh_refused : Error
  no_usable_factor factor_missing wrong_recovery_code bad_factor : Error
  factor_required : List ℕ → Error
  mail_factor_disabled mail_token_missing mail_token_invalid mail_token_expired : Error
  not_decodable : Error
  -- accounts.rs, the account
  kdf_low kdf_memory_bad kdf_memory_missing kdf_parallelism_bad kdf_parallelism_missing : Error
  hints_disabled register_malformed register_unproven name_long not_allowed_or_exists : Error
  already_initialized color_bad no_public_key user_missing kdf_unequal salt_bad : Error
  email_change_forbidden email_in_use domain_forbidden email_mismatch no_email_change : Error
  code_mismatch claim_bad ask_administrator mail_refused : Error
  jwt_invalid jwt_issuer jwt_expired jwt_undecodable : Error
  unauthorized : Text → Error
  no_filename no_key negative_size not_owned invalid_import : Error
  -- the request's thread panicked
  panicked : Error

pub data Result {ℓ} (A : Type ℓ) : Type ℓ where
  ok : A → Result A
  err : Error → Result A

pub record TwoFactor : Type 0 where
  pub uuid : ℕ
  pub user_uuid : ℕ
  pub atype : ℕ
  pub enabled : Bool
  pub data_ : Text
  pub last_used : ℤ

pub record Favorite : Type 0 where
  pub user_uuid : ℕ
  pub cipher_uuid : ℕ

pub record Archive : Type 0 where
  pub user_uuid : ℕ
  pub cipher_uuid : ℕ
  pub archived_at : ℕ

pub record Folder : Type 0 where
  pub uuid : ℕ
  pub created_at : ℕ
  pub updated_at : ℕ
  pub user_uuid : ℕ
  pub name : Text

pub record FolderCipher : Type 0 where
  pub cipher_uuid : ℕ
  pub folder_uuid : ℕ

pub record TwoFactorIncomplete : Type 0 where
  pub user_uuid : ℕ
  pub device_uuid : ℕ
  pub device_name : Text
  pub device_type : ℤ
  pub login_time : ℕ
  pub ip_address : Text

pub record AuthRequest : Type 0 where
  pub uuid : ℕ
  pub user_uuid : ℕ
  pub request_device_identifier : ℕ
  pub device_type : ℕ
  pub request_ip : Text
  pub response_device_id : Option ℕ
  pub access_code : Text
  pub public_key : Text
  pub enc_key : Option Text
  pub master_password_hash : Option Text
  pub approved : Option Bool
  pub creation_date : ℕ
  pub response_date : Option ℕ
  pub authentication_date : Option ℕ

pub record Attachment : Type 0 where
  pub id : ℕ
  pub cipher_uuid : ℕ
  pub file_name : Text
  pub file_size : ℤ
  pub akey : Option Text

pub record Cipher : Type 0 where
  pub uuid : ℕ
  pub created_at : ℕ
  pub updated_at : ℕ
  pub user_uuid : Option ℕ
  pub key : Option Text
  pub atype : ℕ
  pub name : Text
  pub notes : Option Text
  pub fields : Option Text
  pub data_ : Text
  pub password_history : Option Text
  pub deleted_at : Option ℕ
  pub reprompt : Option ℤ

-- The column of the TOTP secret, which no code reads, is left out.
pub record User : Type 0 where
  pub uuid : ℕ
  pub enabled : Bool
  pub created_at : ℕ
  pub updated_at : ℕ
  pub verified_at : Option ℕ
  pub last_verifying_at : Option ℕ
  pub login_verify_count : ℤ
  pub email : Text
  pub email_new : Option Text
  pub email_new_token : Option Text
  pub name : Text
  pub password_hash : List ℕ
  pub salt : List ℕ
  pub password_iterations : ℤ
  pub password_hint : Option Text
  pub akey : Text
  pub private_key : Option Text
  pub public_key : Option Text
  pub totp_recover : Option Text
  pub security_stamp : Text
  pub stamp_exception : Option Text
  pub equivalent_domains : Text
  pub excluded_globals : Text
  pub client_kdf_type : ℤ
  pub client_kdf_iter : ℤ
  pub client_kdf_memory : Option ℤ
  pub client_kdf_parallelism : Option ℤ
  pub api_key : Option Text
  pub avatar_color : Option Text
  pub external_id : Option Text

pub record Invitation : Type 0 where
  pub email : Text

pub record Device : Type 0 where
  pub uuid : ℕ
  pub created_at : ℕ
  pub updated_at : ℕ
  pub user_uuid : ℕ
  pub name : Text
  pub atype : ℤ
  pub push_uuid : Option ℕ
  pub push_token : Option Text
  pub refresh_token : Text
  pub twofactor_remember : Option Text

pub record Db : Type 0 where
  pub users : List User
  pub invitations : List Invitation
  pub devices : List Device
  pub twofactor : List TwoFactor
  pub favorites : List Favorite
  pub archives : List Archive
  pub folders : List Folder
  pub folders_ciphers : List FolderCipher
  pub twofactor_incomplete : List TwoFactorIncomplete
  pub auth_requests : List AuthRequest
  pub ciphers : List Cipher
  pub attachments : List Attachment
  pub faults : List Bool

-- the database with no row and no fault to come
abbrev pub empty : Db
empty = record {
  users = [];
  invitations = [];
  devices = [];
  twofactor = [];
  favorites = [];
  archives = [];
  folders = [];
  folders_ciphers = [];
  twofactor_incomplete = [];
  auth_requests = [];
  ciphers = [];
  attachments = [];
  faults = [];
}

-- A computation over the database; what was written before an error stays written.
abbrev pub M : Type 0 → Type 0
M A = Db → Result A × Db

abbrev pub continue : {A B : Type 0} → Result A → (A → M B) → M B
continue (ok a) f db = f a db
continue (err e) f db = (err e, db)

infixl 5 ◌>>=◌ ◌>>◌
abbrev pub ◌>>=◌ : {A B : Type 0} → M A → (A → M B) → M B
◌>>=◌ m f db = let (r, db') = m db in continue r f db'

abbrev pub ◌>>◌ : {B : Type 0} → M (Unit {0}) → M B → M B
m >> n = m >>= λ _. n

abbrev pub pure : {A : Type 0} → A → M A
pure a db = (ok a, db)

-- `err!`
abbrev pub raise : {A : Type 0} → Error → M A
raise e db = (err e, db)

-- a query
abbrev pub query : {A : Type 0} → (Db → A) → M A
query f db = (ok (f db), db)

-- `let … else` and `ok_or`
abbrev pub require : {A : Type 0} → Error → Option A → M A
require e none = raise e
require e (some a) = pure a

-- `if … { err!(…) }`
abbrev pub guard : Bool → Error → M (Unit {0})
guard true e = pure tt
guard false e = raise e

-- a call whose error is dropped
abbrev pub modify : (Db → Db) → M (Unit {0})
modify f db = (ok tt, f db)

-- one writing statement, by the tape of faults
abbrev attempt : List Bool → (Db → Db) → M (Unit {0})
attempt [] f db = (ok tt, f db)
attempt (false ∷ later) f db = (ok tt, record (f db) { faults = later })
attempt (true ∷ later) f db = (err database, record db { faults = later })

unfoldable pub execute : (Db → Db) → M (Unit {0})
execute f db = attempt db.faults f db

-- What holds of the tables before a statement and after its effect holds after its execution.
pub execute-keeps :
    (P : Db → Type 0)
    → ((db : Db) (later : List Bool) → P db → P (record db { faults = later }))
    → (f : Db → Db) (db : Db) → P db
    → P (f db)
    → P (execute f db).1
unfolding execute
execute-keeps P ignores f db before after = go db.faults
  where
    go : (tape : List Bool) → P (attempt tape f db).1
    go [] = after
    go (false ∷ later) = ignores (f db) later after
    go (true ∷ later) = ignores db later before

-- what holds when a computation has returned a value
abbrev pub Returned : {A : Type 0} → (A → Db → Type 0) → Result A → Db → Type 0
Returned Q (ok a) db = Q a db
Returned Q (err _) db = Unit

-- A statement that returns has had its effect.
pub execute-returns :
    (Q : Db → Type 0)
    → ((db : Db) (later : List Bool) → Q db → Q (record db { faults = later }))
    → (f : Db → Db) (db : Db) → Q (f db)
    → Returned (λ _. Q) (execute f db).0 (execute f db).1
unfolding execute
execute-returns Q ignores f db after = go db.faults
  where
    go : (tape : List Bool) → Returned (λ _. Q) (attempt tape f db).0 (attempt tape f db).1
    go [] = after
    go (false ∷ later) = ignores (f db) later after
    go (true ∷ later) = tt

-- An answer put behind a statement changes no table.
pub effect_of : {A : Type 0} (m : M (Unit {0})) (a : A) (db : Db) → ((m >> pure a) db).1 ≡ (m db).1
effect_of m a db = go (m db)
  where
    go : (x : Result (Unit {0}) × Db) → (continue x.0 (λ _ later. (ok a, later)) x.1).1 ≡ x.1
    go (ok u, later) = refl
    go (err e, later) = refl
