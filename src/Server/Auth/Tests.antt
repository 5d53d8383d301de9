-- ===== src/Server/Auth/Tests.antt =====
-- Runs of the guard of the requests, and its theorem at a concrete input.
use umewarden.Prelude.{◌≡◌, refl, Option, some, none, [], ◌∷◌}
use umewarden.Prelude.Text.{codes}
use umewarden.Server.Db.{Db, Result, Error, ok, err, unauthorized}
use umewarden.Server.Ensures.{Ensures}
use umewarden.Server.Models.Device
use umewarden.Server.Models.User
use umewarden.Server.Models.User.Samples.{lenient}
use umewarden.Server.Models.User.Password.{StampCodec}
use umewarden.Server.Auth.{Jwt, valid, LoginJwtClaims, login_claims, decode_jwt, user_api_key}
use umewarden.Server.Auth.Guard.{
  after_last, check_exception, check_stamp, headers, IsSession, headers-IsSession,
}
use umewarden.Server.Api.Identity.Samples.{silent, owner, phone, stored}

-- every token names the device and the user
abbrev jwt : Jwt LoginJwtClaims
jwt = record {
  encode = λ c. codes "signed";
  decode = λ leeway now issuer t. valid (login_claims silent 900 phone owner user_api_key none);
}

-- every exception is one for a route until 1000
abbrev stamps : StampCodec
stamps = record {
  to_json = λ e. some e.security_stamp;
  from_json =
      λ t. some (record { routes = codes "get_contacts" ∷ []; security_stamp = t; expire = 1000 });
}

-- the stamp has changed, with an exception for the one before
abbrev renewed : Db
renewed = record stored {
  users =
      record owner { security_stamp = codes "other"; stamp_exception = some owner.security_stamp }
      ∷ [];
}

abbrev error_of : {A : Type 0} → Result A × Db → Option Error
error_of (ok a, db) = none
error_of (err e, db) = some e

admitted :
    error_of (
      headers stamps lenient 1000
        (some (codes "get_contacts"))
        silent
        jwt
        (some (codes "Bearer t"))
        renewed)
    ≡ none
unfolding headers decode_jwt after_last Device.find_by_uuid_and_user login_claims User.find_by_uuid
    check_stamp check_exception
admitted = refl

another_route :
    error_of (
      headers stamps lenient 1000
        (some (codes "sync"))
        silent
        jwt
        (some (codes "Bearer t"))
        renewed)
    ≡ some (
        unauthorized
          (codes "Invalid security stamp: Current route and exception route do not match"))
unfolding headers decode_jwt after_last Device.find_by_uuid_and_user login_claims User.find_by_uuid
    check_stamp check_exception
another_route = refl

headers-IsSession_example :
    Ensures
      (λ db. db ≡ renewed)
      (headers stamps lenient 1000
        (some (codes "get_contacts"))
        silent
        jwt
        (some (codes "Bearer t")))
      (λ s db.
        (db ≡ renewed)
        × IsSession stamps lenient 1000
            (some (codes "get_contacts"))
            silent
            jwt
            (codes "Bearer t")
            s
            renewed)
headers-IsSession_example =
    headers-IsSession stamps lenient 1000 (some (codes "get_contacts")) silent jwt
      (codes "Bearer t") renewed
