-- ===== src/Server/Api/Accounts/Sessions.antt =====
-- What a change of the password leaves of the sessions of the user.
use umewarden.Prelude.{
  ℕ, ◌+◌, ◌≤◌, ◌≡◌, refl, sym, ap, ◌∙◌, ◌≢◌, inl, inr, Bool, true, false, not, Option, some, List,
  [], ◌∷◌, All-find, find, find-eq-some, Bool-cases, arith,
}
use umewarden.Prelude.Text.{Text, text_eq}
use umewarden.Server.Db.{User, Device, Db, email_not_valid}
use umewarden.Server.Ensures.{
  Ensures, Ensures-bind, Ensures-pure, Ensures-raise, Ensures-if, Ensures-execute, Ensures-conclude,
  Ensures-any,
}
use umewarden.Server.Models.Device
use umewarden.Server.Models.Device.Rotate.{is_revoked}
use umewarden.Server.Models.User
use umewarden.Server.Models.User.{Reader, put, is_uuid, is_valid_email, find_by_uuid}
use umewarden.Server.Models.User.Password.{
  Pbkdf2, StampCodec, UserStampException, Draws, set_stamp_exception, check_valid_password,
  or_empty,
}
use umewarden.Server.Models.User.Renew.{IsPbkdf2, IsRevoked, IsRenewed, set_password-IsRenewed}
use umewarden.Server.Auth.Guard.{IsAdmitted, contains}
use umewarden.Server.Api.Accounts.{Settings, clean_password_hint, enforce_password_hint_setting}
use umewarden.Server.Api.Accounts.Change.{
  ChangePassData, check_password, next_routes, post_password,
}

-- What the program relies on of the JSON codec of exceptions: it reads back what it wrote.
pub record IsStampCodec (stamps : StampCodec) : Type 0 where
  pub from_json-to_json :
      (e : UserStampException) → stamps.from_json (or_empty (stamps.to_json e)) ≡ some e

pub find-put : (u : User) (users : List User) → find (is_uuid u.uuid) (put u users) ≡ some u
find-put u [] = ground arith
find-put u (x ∷ xs) = elim (Bool-cases (is_uuid u.uuid x)) [
  | inl same ↦ rw same (ground arith)
  | inr other ↦ rw other (rw other (find-put u xs))
]

revoked_lem :
    (old : Text) (user : ℕ) (db : Db) (d : Device)
    → IsRevoked old user db
    → Device.find_by_refresh_token old db ≡ some d
    → d.user_uuid ≢ user
unfolding Device.find_by_refresh_token
revoked_lem old user db d h e same =
    let gone = All-find (λ (x : Device). is_revoked old user x ≡ true) _ db.devices h e in
    let token = find-eq-some (λ (x : Device). text_eq x.refresh_token old) db.devices e in
    absurd (ground (arith, gone, token, same))

module _ (settings : Settings) (reader : Reader) (kdf : Pbkdf2) (stamps : StampCodec)
    (draws : Draws) (now : ℕ) where
  -- the sessions of the user from before have ended: their refresh token finds no device of the user,
  -- and their stamp is only admitted for a few routes, for two minutes
  pub record HasEnded (old new : Text) (u v : User) (db : Db) : Type 0 where
    pub stored : User.find_by_uuid u.uuid db ≡ some v
    pub accepted : check_valid_password kdf v new ≡ some true
    pub not_refreshed :
        (d : Device) → Device.find_by_refresh_token old db ≡ some d → d.user_uuid ≢ u.uuid
    pub not_admitted :
        (later : ℕ) (route sstamp : Text)
        → text_eq draws.stamp sstamp ≡ false
        → IsAdmitted stamps reader later (some route) sstamp v
        → (later ≤ now + 120)
          × (contains route (next_routes settings reader kdf stamps draws now) ≡ true)
          × (text_eq u.security_stamp sstamp ≡ true)

  save-stores :
      (w : User) (P : User → Db → Type 0)
      → ((db : Db) (later : List Bool) → P w db → P w (record db { faults = later }))
      → ((db : Db) (users : List User) → P w db → P w (record db { users = users }))
      → Ensures (P w) (User.save reader now w) (λ v db.
        P w db
        × (v ≡ record w { updated_at = now })
        × (User.find_by_uuid w.uuid db ≡ some (record w { updated_at = now })))
  unfolding User.save User.find_by_uuid
  save-stores w P ignores moves =
      Ensures-if (not (is_valid_email reader w.email)) (λ bad. Ensures-raise email_not_valid)
        (λ good.
          Ensures-bind
            (Ensures-execute
              {Q = λ db.
                P w db × (find (is_uuid w.uuid) db.users ≡ some (record w { updated_at = now }))}
              _ (λ db later (h, e). (ignores db later h, e))
              (λ db h. (moves db _ h, find-put (record w { updated_at = now }) db.users)))
            (λ _. Ensures-pure (record w { updated_at = now }) (λ db (h, e). (h, refl, e))))

  abbrev allowed : Option (List Text)
  allowed = some (next_routes settings reader kdf stamps draws now)

  -- an exception is admitted for its routes and its time
  exception_lem :
      IsStampCodec stamps
      → (u v : User)
      → v.stamp_exception
        ≡ (set_stamp_exception stamps now
            (next_routes settings reader kdf stamps draws now)
            u).stamp_exception
      → (later : ℕ) (route sstamp : Text) → text_eq v.security_stamp sstamp ≡ false
      → IsAdmitted stamps reader later (some route) sstamp v
      → (later ≤ now + 120)
        × (contains route (next_routes settings reader kdf stamps draws now) ≡ true)
        × (text_eq u.security_stamp sstamp ≡ true)
  unfolding set_stamp_exception
  exception_lem codec u v same later route sstamp other (inl e) = absurd (ground (arith, e, other))
  exception_lem codec u v same later route sstamp other
        (inr (e, current, read, named, in_time, listed, stamp)) =
      let x : UserStampException = record {
        routes = next_routes settings reader kdf stamps draws now;
        security_stamp = u.security_stamp;
        expire = now + 120;
      } in
      let e' : e ≡ x = ground (arith, sym (rw same at read) ∙ codec.from_json-to_json x) in
      let r : current ≡ route = ground (arith, named) in
      (rw e' at in_time, rw (e', r) at listed, rw e' at stamp)

  module _ (k : IsPbkdf2 kdf) (codec : IsStampCodec stamps) (old : Text)
      (unlike : (i : ℕ) → text_eq (draws.refresh_token i) old ≡ false) where
    ended :
        (u v w : User) (new : Text) (hint : Option Text) (db : Db)
        → IsRenewed stamps kdf draws now old new (record u { password_hint = hint }) allowed w db
        → v ≡ record w { updated_at = now }
        → User.find_by_uuid w.uuid db ≡ some (record w { updated_at = now })
        → HasEnded old new u v db
    unfolding check_valid_password set_stamp_exception
    ended u v w new hint db r same stored = rw same (record {
      stored = ap (λ id. User.find_by_uuid id db) (sym r.same_uuid) ∙ stored;
      accepted = r.accepted;
      not_refreshed = λ d e. revoked_lem old u.uuid db d r.revoked e;
      not_admitted = λ later route sstamp other admitted.
          exception_lem codec u (record w { updated_at = now }) r.same_exception later route sstamp
            (rw r.new_stamp other) admitted;
    })

    -- Let the derivation of keys verify what it derives, and the codec of exceptions read what it
    -- writes. After a change of the password that returns, the new password is accepted, an old refresh
    -- token that is none of those drawn finds no device of the user, and a token with another stamp
    -- than the new one is only admitted within two minutes, for the routes of the exception, if it has
    -- the stamp from before.
    pub post_password-HasEnded :
        (asked : ChangePassData) (u : User)
        → Ensures
            (λ db. Unit {0})
            (post_password settings reader kdf stamps draws now asked u)
            (λ v db. HasEnded old asked.new_master_password_hash u v db)
    unfolding post_password
    post_password-HasEnded asked u =
        let hint = clean_password_hint asked.master_password_hint in
        Ensures-bind
          (Ensures-any
            {m = check_password settings reader kdf stamps draws now u asked.master_password_hash})
          (λ _. Ensures-bind (Ensures-any {m = enforce_password_hint_setting settings hint}) (λ _.
            Ensures-bind
              (set_password-IsRenewed stamps kdf draws now k old unlike
                (record u { password_hint = hint }) asked.new_master_password_hash (some asked.key)
                allowed)
              (λ w.
                Ensures-conclude
                  (λ v db (r, same, stored).
                    ended u v w asked.new_master_password_hash hint db r same stored)
                  (save-stores w
                    (λ w db.
                      IsRenewed stamps kdf draws now old asked.new_master_password_hash
                        (record u { password_hint = hint }) allowed w db)
                    (λ db later r. record {
                      same_uuid = r.same_uuid;
                      new_stamp = r.new_stamp;
                      accepted = r.accepted;
                      revoked = r.revoked;
                      same_exception = r.same_exception;
                    })
                    (λ db users r. record {
                      same_uuid = r.same_uuid;
                      new_stamp = r.new_stamp;
                      accepted = r.accepted;
                      revoked = r.revoked;
                      same_exception = r.same_exception;
                    })))))
