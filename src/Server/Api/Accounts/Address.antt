-- ===== src/Server/Api/Accounts/Address.antt =====
-- What a change of the address leaves of the logins of the user.
use mathlib.Core.Option
use umewarden.Prelude.{
  ℕ, suc, ◌≡◌, refl, ◌∙◌, ◌≢◌, Bool, true, false, not, ◌&&◌, Option, some, none, List, [], ◌∷◌, All,
  All-find, find-eq-some, Bool-cases, inl, inr, arith,
}
use umewarden.Prelude.Text.{Text, text_eq, utf8}
use umewarden.Server.Db.{
  User, Device, Db, email_in_use, email_change_forbidden, email_mismatch, email_not_valid,
  no_email_change, code_mismatch, panicked, invalid_password, pure, ◌>>=◌,
}
use umewarden.Server.Keeps.{
  Keeps, Keeps-bind, Keeps-pure, Keeps-raise, Keeps-guard, Keeps-require, Keeps-query,
  Keeps-execute, Keeps-retry,
}
use umewarden.Server.Ensures.{
  Ensures, Ensures-bind, Ensures-require, Ensures-execute, Ensures-if, Ensures-raise, Ensures-known,
  Ensures-weaken, Ensures-pure, Ensures-Keeps,
}
use umewarden.Server.Models.Device
use umewarden.Server.Models.Device.{rotate_each, rotate_refresh_tokens_by_user, find_by_user}
use umewarden.Server.Models.User
use umewarden.Server.Models.User.{Reader, is_uuid, is_valid_email, put}
use umewarden.Server.Models.User.Password.{
  Pbkdf2, StampCodec, Draws, set_password, reset_security_stamp, hash_password, cast_unsigned,
  check_valid_password,
}
use umewarden.Server.Api.Accounts.{Settings}
use umewarden.Server.Api.Accounts.Change.{
  ChangeEmailData, check_password, check_code, verified, is_found, post_email,
}
use umewarden.Server.Api.Accounts.Sessions.{find-put}

-- no two users have one identifier, which is the key of the table
abbrev pub IsKeyed : List User → Type 0
IsKeyed [] = Unit {0}
IsKeyed (x ∷ xs) = All (λ y. is_uuid x.uuid y ≡ false) xs × IsKeyed xs

abbrev HasKeys : Db → Type 0
HasKeys db = IsKeyed db.users

-- a user of the identifier has another address
abbrev is_other : ℕ → Text → User → Bool
is_other id mail x = not (is_uuid id x && text_eq x.email mail)

others :
    (id key : ℕ) (mail : Text) (xs : List User)
    → key ≡ id
    → All (λ y. is_uuid key y ≡ false) xs
    → All (λ y. is_other id mail y ≡ true) xs
others id key mail [] same h = tt
others id key mail (x ∷ xs) same (p, h) = (ground (arith, p, same), others id key mail xs same h)

others-put :
    (u : User) (mail : Text) (xs : List User)
    → text_eq u.email mail ≡ false
    → IsKeyed xs
    → All (λ y. is_other u.uuid mail y ≡ true) (put u xs)
others-put u mail [] other h = (ground (arith, other), tt)
others-put u mail (x ∷ xs) other (p, h) = elim (Bool-cases (is_uuid u.uuid x)) [
  | inl same ↦
      rw same (ground (arith, other), others u.uuid x.uuid mail xs (ground (arith, same)) p)
  | inr not_same ↦ rw not_same (ground (arith, not_same), others-put u mail xs other h)
]

-- whose account a search by address finds
abbrev pub found_uuid : Reader → Text → Db → Option ℕ
found_uuid reader name db = Option.map (λ (x : User). x.uuid) (User.find_by_mail reader name db)

unfound :
    (reader : Reader) (name : Text) (id : ℕ) (db : Db) (found : Option User)
    → User.find_by_mail reader name db ≡ found
    → All (λ y. is_other id (reader.to_lowercase name) y ≡ true) db.users
    → Option.map (λ (x : User). x.uuid) found ≢ some id
unfolding User.find_by_mail
unfound reader name id db none e h same = absurd (ground (arith, same))
unfound reader name id db (some x) e h same =
    let mail = reader.to_lowercase name in
    let other =
      All-find (λ (y : User). is_other id mail y ≡ true) (λ y. text_eq y.email mail) db.users h e in
    let right = find-eq-some (λ (y : User). text_eq y.email mail) db.users e in
    absurd (ground (arith, other, right, same))

-- new refresh tokens leave the users as they are
rotate_each-Keeps :
    (fresh : ℕ → Text) (now i : ℕ) (ds : List Device) → Keeps HasKeys (rotate_each fresh i now ds)
unfolding rotate_each Device.save
rotate_each-Keeps fresh now i [] = Keeps-pure _
rotate_each-Keeps fresh now i (d ∷ ds) =
    Keeps-bind
      (Keeps-bind (Keeps-retry 10 (Keeps-execute (λ db later h. h) _ (λ db h. h)))
        (λ _. Keeps-pure _))
      (λ _. rotate_each-Keeps fresh now (suc i) ds)

rotate-Keeps :
    (fresh : ℕ → Text) (now user : ℕ) → Keeps HasKeys (rotate_refresh_tokens_by_user fresh now user)
unfolding rotate_refresh_tokens_by_user
rotate-Keeps fresh now user =
    Keeps-bind (Keeps-query (find_by_user user)) (λ ds. rotate_each-Keeps fresh now 0 ds)

module _ (settings : Settings) (reader : Reader) (kdf : Pbkdf2) (stamps : StampCodec)
    (draws : Draws) (now : ℕ) where
  -- the address and the identifier are those from before
  abbrev IsSame : User → User → Type 0
  IsSame u w = (w.uuid ≡ u.uuid) × (w.email ≡ u.email)

  set_password-IsSame :
      (new key : Text) (u : User)
      → Ensures HasKeys
          (set_password stamps kdf draws now new (some key) true none u)
          (λ w db. HasKeys db × IsSame u w)
  unfolding set_password reset_security_stamp
  set_password-IsSame new key u =
      Ensures-bind
        (Ensures-require panicked
          (hash_password kdf (utf8 new) u.salt (cast_unsigned u.password_iterations)))
        (λ hash.
          Ensures-weaken (λ db (h, _). h)
            (Ensures-bind (Ensures-Keeps (rotate-Keeps draws.refresh_token now u.uuid)) (λ _.
              Ensures-pure
                (record u { password_hash = hash; akey = key; security_stamp = draws.stamp })
                (λ db h. (h, (refl, refl))))))

  -- what the database says of the user behind the change: the row has the address as it was typed, and
  -- a search by the name finds another account or none
  pub record IsMoved (u : User) (address name : Text) (db : Db) : Type 0 where
    pub row : User
    pub stored : User.find_by_uuid u.uuid db ≡ some row
    pub typed : row.email ≡ address
    pub unfound : found_uuid reader name db ≢ some u.uuid

  save-IsMoved :
      (u w : User) (address name : Text)
      → w.uuid ≡ u.uuid
      → w.email ≡ address
      → text_eq address (reader.to_lowercase name) ≡ false
      → Ensures HasKeys (User.save reader now w) (λ _ db. IsMoved u address name db)
  unfolding User.save User.find_by_uuid User.find_by_mail
  save-IsMoved u w address name same typed other =
      Ensures-if (not (is_valid_email reader w.email)) (λ bad. Ensures-raise email_not_valid)
        (λ good.
          Ensures-bind
            (Ensures-execute {Q = λ db. IsMoved u address name db} _
              (λ db later h. record {
                row = h.row;
                stored = h.stored;
                typed = h.typed;
                unfound = h.unfound;
              })
              (λ db h.
                let w' = record w { updated_at = now } in
                let mail = reader.to_lowercase name in
                let db' = record db { users = put w' db.users } in
                rw (← same) (record {
                  row = w';
                  stored = find-put w' db.users;
                  typed = typed;
                  unfound =
                      unfound reader name w.uuid db' (User.find_by_mail reader name db') refl
                        (others-put w' mail db.users (rw typed other) h);
                })))
            (λ _. Ensures-pure _ (λ db h. h)))

  verified-IsSame :
      (token : Text) (u : User)
      → Ensures HasKeys
          (verified settings reader kdf stamps draws now token u)
          (λ v db. HasKeys db × (v.uuid ≡ u.uuid))
  verified-IsSame token u =
      Ensures-if settings.mail_enabled
        (λ on.
          Ensures-bind
            (Ensures-Keeps
              {m = check_code settings reader kdf stamps draws now token u.email_new_token}
              (checked u.email_new_token))
            (λ _. Ensures-pure _ (λ db h. (h, refl))))
        (λ off. Ensures-pure _ (λ db h. (h, refl)))
    where
      checked :
          (o : Option Text)
          → Keeps HasKeys (check_code settings reader kdf stamps draws now token o)
      checked none = Keeps-raise no_email_change
      checked (some val) = Keeps-guard (text_eq val token) code_mismatch

  check_password-Keeps :
      (u : User) (given : Text)
      → Keeps HasKeys (check_password settings reader kdf stamps draws now u given)
  check_password-Keeps u given =
      Keeps-bind (Keeps-require panicked (check_valid_password kdf u given))
        (λ valid. Keeps-guard valid invalid_password)

  abbrev moved : ChangeEmailData → User → User
  moved asked u = record u { email = asked.new_email; email_new = none; email_new_token = none }

  -- behind the check of the token
  moved-IsMoved :
      (asked : ChangeEmailData) (u proven : User) (name : Text)
      → proven.uuid ≡ u.uuid
      → text_eq asked.new_email (reader.to_lowercase name) ≡ false
      → Ensures HasKeys
          (set_password stamps kdf draws now asked.new_master_password_hash
              (some asked.key)
              true
              none
              (moved asked proven)
            >>= λ w. User.save reader now w >>= λ _. pure tt)
          (λ _ db. IsMoved u asked.new_email name db)
  moved-IsMoved asked u proven name same other =
      Ensures-bind
        (set_password-IsSame asked.new_master_password_hash asked.key (moved asked proven))
        (λ w. Ensures-known (λ kept.
          Ensures-bind (save-IsMoved u w asked.new_email name (kept.0 ∙ same) kept.1 other)
            (λ _. Ensures-pure tt (λ db h. h))))

  -- On users with different identifiers, a change of the address that returns has stored the new one
  -- as it was typed, in the row of the user. A login looks for an address in lower case: under a name
  -- whose lower case is not that address it finds another account or none.
  pub post_email-unfound :
      (asked : ChangeEmailData) (u : User) (name : Text)
      → text_eq asked.new_email (reader.to_lowercase name) ≡ false
      → Ensures
          (λ db. IsKeyed db.users)
          (post_email settings reader kdf stamps draws now asked u)
          (λ _ db. IsMoved u asked.new_email name db)
  unfolding post_email
  post_email-unfound asked u name other =
      Ensures-bind
        (Ensures-Keeps (Keeps-guard settings.email_change_allowed email_change_forbidden))
        (λ _. Ensures-bind (Ensures-Keeps (check_password-Keeps u asked.master_password_hash)) (λ _.
          Ensures-bind (Ensures-Keeps (Keeps-query (User.find_by_mail reader asked.new_email)))
            (λ existing.
              Ensures-bind (Ensures-Keeps (Keeps-guard (not (is_found existing)) email_in_use))
                (λ _.
                  Ensures-bind (Ensures-Keeps (Keeps-require no_email_change u.email_new))
                    (λ pending.
                      Ensures-bind
                        (Ensures-Keeps
                          (Keeps-guard (text_eq pending asked.new_email) email_mismatch))
                        (λ _. Ensures-bind (verified-IsSame asked.token u) (λ proven.
                          Ensures-known
                            (λ same. moved-IsMoved asked u proven name same other))))))))
