-- ===== src/Server/Models/User.antt =====
-- server/src/db/models/user.rs: the rows of the tables users and invitations, and the revision of a
-- user's data with the retries of server/src/util.rs. What the code draws at random (identifiers, salt,
-- tokens) and the clock are arguments; the crates that read addresses and change case are `Reader`.
pub mod Password
pub mod Account
pub mod Samples
pub mod Laws
pub mod Renew
use umewarden.Prelude.{
  ℕ, zero, suc, ◌-◌, Bool, true, false, not, ◌&&◌, ◌||◌, Option, none, some, List, [], ◌∷◌, map,
  filter, find, ltb, ◌==◌, ◌++◌, if◌then◌else◌,
}
use umewarden.Prelude.Int.{ℤ, pos}
use umewarden.Prelude.Text.{Text, text_eq, codes}
use umewarden.Server.Db.{
  User, Invitation, TwoFactorIncomplete, email_not_valid, Db, Result, ok, err, M, execute, query,
  pure, raise, ◌>>=◌, ◌>>◌,
}

-- the parts of a parsed address of the web (`url::Url`)
pub record Url : Type 0 where
  pub path : Text
  pub domain : Option Text
  pub query_string : Option Text

pub record Reader : Type 0 where
  -- `str::to_lowercase`
  pub to_lowercase : Text → Text
  -- `EmailAddress::from_str` and `domain`
  pub email_domain : Text → Option Text
  -- `Url::parse`
  pub parse_url : Text → Option Url

abbrev is_none : Option Text → Bool
is_none none = true
is_none (some _) = false

abbrev is_root : Option Url → Bool
is_root none = false
is_root (some u) =
    not (not (text_eq u.path (codes "/")) || (is_none u.domain || not (is_none u.query_string)))

abbrev domain_is_valid : Reader → Option Text → Bool
domain_is_valid reader none = false
domain_is_valid reader (some domain) = is_root (reader.parse_url (codes "https://" ++ domain))

-- server/src/util.rs
unfoldable pub is_valid_email : Reader → Text → Bool
is_valid_email reader email = domain_is_valid reader (reader.email_domain email)

abbrev unwrap_or : Text → Option Text → Text
unwrap_or text none = text
unwrap_or text (some t) = t

-- `User::new` at the time `now`: the uuid, the salt and the stamp that were drawn, the configured
-- iterations, the address and the name
abbrev pub new : Reader → ℕ → ℕ → List ℕ → Text → ℤ → Text → Option Text → User
new reader now uuid salt stamp iterations email name = record {
  uuid = uuid;
  enabled = true;
  created_at = now;
  updated_at = now;
  verified_at = none;
  last_verifying_at = none;
  login_verify_count = pos 0;
  email = reader.to_lowercase email;
  email_new = none;
  email_new_token = none;
  name = unwrap_or (reader.to_lowercase email) name;
  password_hash = [];
  salt = salt;
  password_iterations = iterations;
  password_hint = none;
  akey = [];
  private_key = none;
  public_key = none;
  totp_recover = none;
  security_stamp = stamp;
  stamp_exception = none;
  equivalent_domains = codes "[]";
  excluded_globals = codes "[]";
  client_kdf_type = pos 0;
  client_kdf_iter = pos 600_000;
  client_kdf_memory = none;
  client_kdf_parallelism = none;
  api_key = none;
  avatar_color = none;
  external_id = none;
}

-- behind the first try: the tries that are left; the pause between two tries is not modelled
unfoldable pub again : ℕ → M (Unit {0}) → M (Unit {0})
again zero func db = func db
again (suc left) func db = elim (func db).0 [ ok _ ↦ func db | err _ ↦ again left func (func db).1 ]

unfoldable pub retry : M (Unit {0}) → ℕ → M (Unit {0})
unfolding again
retry func max_tries = again (max_tries - 1) func

unfoldable pub update_revision_impl : ℕ → ℕ → M (Unit {0})
unfolding retry execute
update_revision_impl uuid date =
    retry
      (execute (λ db. record db {
        users =
            map (λ (u : User). if u.uuid == uuid then record u { updated_at = date } else u)
              db.users;
      }))
      10

-- an error is only logged
unfoldable pub update_uuid_revision : ℕ → ℕ → Db → Db
unfolding update_revision_impl
update_uuid_revision uuid now db = (update_revision_impl uuid now db).1

unfoldable pub update_all_revisions : ℕ → M (Unit {0})
unfolding retry execute
update_all_revisions updated_at =
    retry
      (execute (λ db. record db {
        users = map (λ (u : User). record u { updated_at = updated_at }) db.users;
      }))
      10

abbrev pub is_uuid : ℕ → User → Bool
is_uuid uuid x = x.uuid == uuid

-- `on_conflict(uuid).do_update()`: the row with the uuid is replaced where it stands
abbrev pub put : User → List User → List User
put u [] = u ∷ []
put u (x ∷ xs) = let rest = put u xs in if is_uuid u.uuid x then u ∷ xs else x ∷ rest

-- the row as it was saved
unfoldable pub save : Reader → ℕ → User → M User
unfolding execute
save reader now user = if not (is_valid_email reader user.email) then raise email_not_valid else (do
  execute (λ db. record db { users = put (record user { updated_at = now }) db.users })
  pure (record user { updated_at = now }))

unfoldable pub find_by_mail : Reader → Text → Db → Option User
find_by_mail reader mail db = find (λ x. text_eq x.email (reader.to_lowercase mail)) db.users

unfoldable pub find_by_uuid : ℕ → Db → Option User
find_by_uuid uuid db = find (is_uuid uuid) db.users

-- `order_by(login_time.desc())` and `first`: the latest; of equally late ones, an earlier row
latest : Option TwoFactorIncomplete → List TwoFactorIncomplete → Option TwoFactorIncomplete
latest best [] = best
latest none (x ∷ xs) = latest (some x) xs
latest (some b) (x ∷ xs) = latest (some (if ltb b.login_time x.login_time then x else b)) xs

abbrev user_of : Db → Option TwoFactorIncomplete → Option User
user_of db none = none
user_of db (some login) = find_by_uuid login.user_uuid db

unfoldable pub find_by_device_for_email2fa : ℕ → Db → Option User
unfolding latest
find_by_device_for_email2fa device db =
    user_of db (latest none (filter (λ x. x.device_uuid == device) db.twofactor_incomplete))

-- `Invitation::save`, whose `replace_into` deletes the row with the same address
unfoldable pub save_invitation : Reader → Invitation → M (Unit {0})
unfolding execute
save_invitation reader i =
    if not (is_valid_email reader i.email)
    then raise email_not_valid
    else execute (λ db. record db {
      invitations = i ∷ filter (λ x. not (text_eq x.email i.email)) db.invitations;
    })

unfoldable pub delete_invitation : Invitation → M (Unit {0})
unfolding execute
delete_invitation i =
    execute
      (λ db. record db { invitations = filter (λ x. not (text_eq x.email i.email)) db.invitations })

unfoldable pub find_invitation_by_mail : Reader → Text → Db → Option Invitation
find_invitation_by_mail reader mail db =
    find (λ x. text_eq x.email (reader.to_lowercase mail)) db.invitations

abbrev is_ok : Result (Unit {0}) → Bool
is_ok (ok _) = true
is_ok (err _) = false

abbrev take_found : Option Invitation → M Bool
take_found none db = (ok false, db)
take_found (some i) db = let (r, db') = delete_invitation i db in (ok (is_ok r), db')

-- `Invitation::take`: an error of the deletion is an answer
unfoldable pub take_invitation : Reader → Text → M Bool
take_invitation reader mail = do
  found ← query (find_invitation_by_mail reader mail)
  take_found found
