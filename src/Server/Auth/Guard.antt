-- ===== src/Server/Auth/Guard.antt =====
-- server/src/auth.rs, `Headers`: which requests have a session. The name of the route and the header
-- `Authorization` are arguments.
use umewarden.Prelude.{
  ℕ, ◌≤◌, ◌≡◌, refl, ◌∙◌, ◌⊎◌, inl, inr, Bool, true, false, not, ◌||◌, Option, none, some, List, [],
  ◌∷◌, ltb, arith, if◌then◌else◌,
}
use umewarden.Prelude.Text.{Text, codes, strip_prefix, text_eq}
use umewarden.Server.Db.{
  User, Device, Db, unauthorized, Result, ok, err, M, pure, raise, query, require, modify, ◌>>=◌,
  ◌>>◌,
}
use umewarden.Server.Ensures.{
  Ensures, Ensures-bind, Ensures-require, Ensures-query, Ensures-pure, Ensures-raise, Ensures-if,
}
use umewarden.Server.Models.Device
use umewarden.Server.Models.User
use umewarden.Server.Models.User.{Reader}
use umewarden.Server.Models.User.Password.{StampCodec, UserStampException, reset_stamp_exception}
use umewarden.Server.Auth.{Config, Jwt, LoginJwtClaims, decode_jwt, login_issuer}

pub record Headers : Type 0 where
  pub device : Device
  pub user : User

-- what follows the rightmost occurrence
unfoldable pub after_last : Text → Text → Option Text
after_last pattern [] = none
after_last pattern (c ∷ s) = elim (after_last pattern s) [
  | some t ↦ some t
  | none ↦ strip_prefix pattern (c ∷ s)
]

abbrev or_whole : Text → Option Text → Text
or_whole whole none = whole
or_whole whole (some t) = t

-- `rsplit("Bearer ").next()`
abbrev pub access_token : Text → Text
access_token header = or_whole header (after_last (codes "Bearer ") header)

-- `Vec::contains`
abbrev pub contains : Text → List Text → Bool
contains t [] = false
contains t (x ∷ xs) = text_eq x t || contains t xs

abbrev decoded : Result LoginJwtClaims → M LoginJwtClaims
decoded (ok claims) = pure claims
decoded (err e) = raise (unauthorized (codes "Invalid claim"))

module _ (codec : StampCodec) where
  abbrev read_json : Option Text → Option UserStampException
  read_json none = none
  read_json (some t) = codec.from_json t

  abbrev pub exception_of : User → Option UserStampException
  exception_of u = read_json u.stamp_exception

  module _ (reader : Reader) (now : ℕ) (route : Option Text) where
    -- the order matters: expiry, then route, then stamp
    unfoldable pub check_exception : Text → User → Option UserStampException → M (Unit {0})
    check_exception sstamp u none = raise (unauthorized (codes "Invalid security stamp"))
    check_exception sstamp u (some e) = do
      current_route ←
          require (unauthorized (codes "Error getting current route for stamp exception")) route
      if ltb e.expire now
          then (do
            modify (λ db. (User.save reader now (reset_stamp_exception u) db).1)
            raise (unauthorized (codes "Stamp exception is expired")))
          else if not (contains current_route e.routes)
          then raise (
              unauthorized
                (codes "Invalid security stamp: Current route and exception route do not match"))
          else if not (text_eq e.security_stamp sstamp)
          then raise (unauthorized (codes "Invalid security stamp for matched stamp exception"))
          else pure tt

    unfoldable pub check_stamp : Text → User → M (Unit {0})
    check_stamp sstamp u =
        if not (text_eq u.security_stamp sstamp)
        then check_exception sstamp u (exception_of u)
        else pure tt

    module _ (config : Config) (jwt : Jwt LoginJwtClaims) where
      -- `Headers::from_request`
      unfoldable pub headers : Option Text → M Headers
      headers authorization = do
        header ← require (unauthorized (codes "No access token provided")) authorization
        claims ← decoded (decode_jwt jwt now (access_token header) (login_issuer config))
        found ← query (Device.find_by_uuid_and_user claims.device claims.sub)
        d ← require (unauthorized (codes "Invalid device id")) found
        owner ← query (User.find_by_uuid claims.sub)
        u ← require (unauthorized (codes "Device has no user associated")) owner
        check_stamp claims.sstamp u
        pure (record { device = d; user = u })

    -- the stamp is the user's, or an exception for the route that has not expired names it
    abbrev pub IsAdmitted : Text → User → Type 0
    IsAdmitted sstamp u =
        (text_eq u.security_stamp sstamp ≡ true)
        ⊎ ((e : UserStampException) × (current : Text) × (exception_of u ≡ some e)
            × (route ≡ some current)
            × (now ≤ e.expire)
            × (contains current e.routes ≡ true)
            × (text_eq e.security_stamp sstamp ≡ true))

    module _ {P : Db → Type 0} where
      check_exception-IsAdmitted :
          (sstamp : Text) (u : User) (o : Option UserStampException)
          → exception_of u ≡ o
          → Ensures P (check_exception sstamp u o) (λ _ db. P db × IsAdmitted sstamp u)
      unfolding check_exception
      check_exception-IsAdmitted sstamp u none e = Ensures-raise _
      check_exception-IsAdmitted sstamp u (some x) e =
          Ensures-bind (Ensures-require _ route) (λ current.
            Ensures-if (ltb x.expire now) (λ late. record { at = λ db h. tt })
              (λ in_time.
                Ensures-if (not (contains current x.routes)) (λ absent. Ensures-raise _)
                  (λ listed.
                    Ensures-if (not (text_eq x.security_stamp sstamp)) (λ other. Ensures-raise _)
                      (λ same. Ensures-pure tt (λ db (h, r). (
                        h,
                        inr (
                          x,
                          current,
                          e,
                          r,
                          ground (arith, in_time),
                          ground (arith, listed),
                          ground (arith, same),
                        ),
                      ))))))

      check_stamp-IsAdmitted :
          (sstamp : Text) (u : User)
          → Ensures P (check_stamp sstamp u) (λ _ db. P db × IsAdmitted sstamp u)
      unfolding check_stamp
      check_stamp-IsAdmitted sstamp u =
          Ensures-if (not (text_eq u.security_stamp sstamp))
            (λ other. check_exception-IsAdmitted sstamp u (exception_of u) refl)
            (λ same. Ensures-pure tt (λ db h. (h, inl (ground (arith, same)))))

    module _ (config : Config) (jwt : Jwt LoginJwtClaims) where
      -- what a session rests on: signed claims of the present time, the stored device and user that
      -- they name, and a stamp that is admitted
      pub record IsSession (header : Text) (s : Headers) (db : Db) : Type 0 where
        pub claims : LoginJwtClaims
        pub signed : decode_jwt jwt now (access_token header) (login_issuer config) ≡ ok claims
        pub same_device : Device.find_by_uuid_and_user claims.device claims.sub db ≡ some s.device
        pub same_user : User.find_by_uuid claims.sub db ≡ some s.user
        pub admitted : IsAdmitted claims.sstamp s.user

      decoded_lem :
          {P : Db → Type 0} (r : Result LoginJwtClaims)
          → Ensures P (decoded r) (λ c db. P db × (r ≡ ok c))
      decoded_lem (ok c) = Ensures-pure c (λ db h. (h, refl))
      decoded_lem (err e) = Ensures-raise _

      -- A request that is let in leaves the database unchanged, and has a session there: its token
      -- decodes to claims that name a stored device of a stored user, and the stamp of the claims is the
      -- user's, or that of an exception for the route of the request that has not expired.
      pub headers-IsSession :
          (header : Text) (db0 : Db)
          → Ensures
              (λ db. db ≡ db0)
              (headers config jwt (some header))
              (λ s db. (db ≡ db0) × IsSession header s db0)
      unfolding headers
      headers-IsSession header db0 =
          Ensures-bind
            (decoded_lem (decode_jwt jwt now (access_token header) (login_issuer config)))
            (λ c.
              Ensures-bind (Ensures-query (Device.find_by_uuid_and_user c.device c.sub)) (λ found.
                Ensures-bind (Ensures-require (unauthorized (codes "Invalid device id")) found)
                  (λ d. Ensures-bind (Ensures-query (User.find_by_uuid c.sub)) (λ owner.
                    Ensures-bind
                      (Ensures-require (unauthorized (codes "Device has no user associated")) owner)
                      (λ u. Ensures-bind (check_stamp-IsAdmitted c.sstamp u) (λ _.
                        Ensures-pure (record { device = d; user = u })
                          (λ db ((((((h, valid), f), device_found), o), user_found), admitted). (
                            h,
                            record {
                              claims = c;
                              signed = valid;
                              same_device = rw h at f ∙ device_found;
                              same_user = rw h at o ∙ user_found;
                              admitted = admitted;
                            },
                          ))))))))
