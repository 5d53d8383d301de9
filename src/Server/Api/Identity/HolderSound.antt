-- ===== src/Server/Api/Identity/HolderSound.antt =====
-- The account and the device of a login by password, before the second step.
use umewarden.Prelude.{
  ℕ, ◌≡◌, refl, sym, ap, ◌∙◌, ◌⊎◌, inl, inr, Bool, false, not, Option, none, some, List, find,
  find-eq-some, arith,
}
use umewarden.Prelude.Int.{ℤ, ltb_ℤ}
use umewarden.Prelude.Text.{Text, utf8}
use umewarden.Server.Db.{User, Device, TwoFactor, Db, Result, ok, err, Returned, panicked}
use umewarden.Server.Keeps.{
  Keeps, Keeps-bind, Keeps-if, Keeps-raise, Keeps-execute, Keeps-pure, Keeps-retry,
}
use umewarden.Server.Ensures.{
  Ensures, Ensures-bind, Ensures-pure, Ensures-query, Ensures-require, Ensures-if, Ensures-conclude,
  Ensures-known, Ensures-Keeps, Ensures-weaken,
}
use umewarden.Server.Models.Device
use umewarden.Server.Models.User
use umewarden.Server.Models.User.{Reader, is_valid_email}
use umewarden.Server.Models.User.Password.{
  Pbkdf2, StampCodec, Draws, set_password, hash_password, cast_unsigned,
}
use umewarden.Server.Models.User.Laws.{save-returns}
use umewarden.Server.Api.Accounts.{kdf_upgrade, save_or_log, or_unsaved}
use umewarden.Server.Api.Identity.{
  ConnectData, Fresh, found_or_new, or_unknown, bind_text, get_device,
}

-- the second factors and the devices are as they were
pub record IsUnmoved (db0 db : Db) : Type 0 where
  pub same_factors : db.twofactor ≡ db0.twofactor
  pub same_devices : db.devices ≡ db0.devices

-- the same account, whose password may be hashed anew
pub record IsHolder (u v : User) : Type 0 where
  pub same_uuid : v.uuid ≡ u.uuid
  pub same_code : v.totp_recover ≡ u.totp_recover

module _ (db0 : Db) (reader : Reader) (now : ℕ) where
  save-IsUnmoved : (u : User) → Keeps (IsUnmoved db0) (User.save reader now u)
  unfolding User.save
  save-IsUnmoved u = Keeps-if (not (is_valid_email reader u.email)) (Keeps-raise _) (
      Keeps-bind
        (Keeps-execute
          (λ db later h. record { same_factors = h.same_factors; same_devices = h.same_devices }) _
          (λ db h. record { same_factors = h.same_factors; same_devices = h.same_devices }))
        (λ _. Keeps-pure _))

  save_or_log-IsHolder :
      (u v : User)
      → IsHolder u v
      → Ensures (IsUnmoved db0) (save_or_log reader now v) (λ w db. IsUnmoved db0 db × IsHolder u w)
  unfolding save_or_log
  save_or_log-IsHolder u v holder = record {
    at = λ db h.
        go (User.save reader now v db).0 (User.save reader now v db).1
          ((save-returns reader now v {P = IsUnmoved db0}).at db h) ((save-IsUnmoved v).at db h);
  }
    where
      go :
          (r : Result User) (db : Db)
          → Returned (λ w _. w ≡ record v { updated_at = now }) r db
          → IsUnmoved db0 db
          → Returned
              (λ w later. IsUnmoved db0 later × IsHolder u w)
              (or_unsaved v (r, db)).0
              (or_unsaved v (r, db)).1
      go (ok w) db e h =
          (h, rw e (record { same_uuid = holder.same_uuid; same_code = holder.same_code }))
      go (err x) db e h = (h, holder)

  module _ (kdf : Pbkdf2) (stamps : StampCodec) (draws : Draws) where
    -- a password set without a new stamp
    set_password-IsHolder :
        (u v : User) (given : Text)
        → IsHolder u v
        → Ensures
            (IsUnmoved db0)
            (set_password stamps kdf draws now given none false none v)
            (λ w db. IsUnmoved db0 db × IsHolder u w)
    unfolding set_password
    set_password-IsHolder u v given holder =
        Ensures-bind
          (Ensures-require panicked
            (hash_password kdf (utf8 given) v.salt (cast_unsigned v.password_iterations)))
          (λ hash. Ensures-pure _ (λ db (h, e).
            (h, record { same_uuid = holder.same_uuid; same_code = holder.same_code })))

    pub kdf_upgrade-IsHolder :
        (iterations : ℤ) (u : User) (given : Text)
        → Ensures
            (IsUnmoved db0)
            (kdf_upgrade reader kdf stamps iterations draws now u given)
            (λ w db. IsUnmoved db0 db × IsHolder u w)
    unfolding kdf_upgrade
    kdf_upgrade-IsHolder iterations u given =
        Ensures-if (ltb_ℤ u.password_iterations iterations)
          (λ low.
            Ensures-bind
              (set_password-IsHolder u (record u { password_iterations = iterations }) given
                (record { same_uuid = refl; same_code = refl }))
              (λ w. Ensures-known (λ holder. save_or_log-IsHolder u w holder)))
          (λ enough. Ensures-pure u (λ db h. (h, record { same_uuid = refl; same_code = refl })))

module _ (db0 : Db) (now : ℕ) (fresh : Fresh) (asked : ConnectData) where
  -- a device of the user, as it was stored or without a remember token
  abbrev pub IsDevice : User → Device → Type 0
  IsDevice u d =
      (asked.device_identifier ≡ some d.uuid)
      × ((Device.find_by_uuid_and_user d.uuid u.uuid db0 ≡ some d) ⊎ (d.twofactor_remember ≡ none))

  save-keeps :
      (rows : List TwoFactor) (update_time : Bool) (d : Device)
      → Ensures
          (λ db. db.twofactor ≡ rows)
          (Device.save now update_time d)
          (λ e db. (db.twofactor ≡ rows) × (e ≡ Device.saved now update_time d))
  unfolding Device.save
  save-keeps rows update_time d =
      Ensures-bind (Ensures-Keeps (Keeps-retry 10 (Keeps-execute (λ db later h. h) _ (λ db h. h))))
        (λ _. Ensures-pure _ (λ db h. (h, refl)))

  renamed :
      (i id user : ℕ) (devices : List Device) {o : Option Device}
      → i ≡ id
      → find (Device.is_key id user) devices ≡ o
      → find (Device.is_key i user) devices ≡ o
  renamed i id user devices e h = rw e h

  found-IsDevice :
      (u : User) (id : ℕ) (name : Text) (atype : ℤ) (found : Option Device)
      → asked.device_identifier ≡ some id
      → Ensures
          (λ db. IsUnmoved db0 db × (Device.find_by_uuid_and_user id u.uuid db ≡ found))
          (found_or_new now fresh id name atype u.uuid found)
          (λ d db. (db.twofactor ≡ db0.twofactor) × IsDevice u d)
  unfolding Device.find_by_uuid_and_user
  found-IsDevice u id name atype none given =
      Ensures-weaken (λ db (h, e). h.same_factors)
        (Ensures-conclude (λ d db (h, e). (h, (rw e (given, inr refl))))
          (save-keeps db0.twofactor false
            (Device.new now fresh.push_id fresh.refresh_token id u.uuid name atype)))
  found-IsDevice u id name atype (some d) given = Ensures-pure d (λ db (h, e).
      let t = find-eq-some (Device.is_key id u.uuid) db.devices e in
      let same : d.uuid ≡ id = ground (arith, t) in
      (
        h.same_factors,
        (
          given ∙ ap some (sym same),
          inl (renamed d.uuid id u.uuid db0.devices same (rw h.same_devices at e)),
        ),
      ))

  pub get_device-IsDevice :
      (u : User)
      → Ensures
          (IsUnmoved db0)
          (get_device now fresh asked u)
          (λ d db. (db.twofactor ≡ db0.twofactor) × IsDevice u d)
  unfolding get_device
  get_device-IsDevice u = Ensures-bind (Ensures-require panicked asked.device_identifier) (λ id.
      Ensures-known (λ given. Ensures-bind (Ensures-require panicked asked.device_name) (λ name.
        Ensures-known (λ named.
          Ensures-bind (Ensures-query (Device.find_by_uuid_and_user id u.uuid)) (λ found.
            found-IsDevice u id name (or_unknown (bind_text asked.device_type)) found given)))))
