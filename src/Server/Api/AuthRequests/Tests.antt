-- ===== src/Server/Api/AuthRequests/Tests.antt =====
-- Runs of the login with a device, and the theorems at concrete inputs.
use umewarden.Prelude.{◌-◌, ◌≡◌, refl, Bool, true, false, not, none, some, [], ◌∷◌, filter, ltb}
use umewarden.Prelude.Text.{codes, text_eq}
use umewarden.Server.Db.{
  empty, Db, AuthRequest, ok, err, auth_request_missing, already_answered, execute,
}
use umewarden.Server.Models.AuthRequest
use umewarden.Server.Models.AuthRequest.Laws.{purge_lem}
use umewarden.Server.Api.AuthRequests.{
  Directory, Client, AuthRequestRequest, AuthResponseRequest, post_auth_request, approve,
  answer_request, put_auth_request, get_auth_request_response,
}
use umewarden.Server.Api.AuthRequests.Flow.{approved_flow, answered_once, denied_gone}
use umewarden.Server.Api.AuthRequests.Sound.{
  IsSound, Reach, start, step, posted, answered, Reach-IsSound, released_key,
}

abbrev dir : Directory
dir = record { user_by_mail = λ mail. some 1; device_type = λ device user. some 9 }

abbrev browser : Client
browser = record { device_type = 9; ip = codes "10.0.0.1" }

abbrev asked : AuthRequestRequest
asked = record {
  access_code = codes "Ab3";
  device_identifier = 20;
  email = codes "a@b.c";
  public_key = codes "PK";
}

abbrev answer : Bool → AuthResponseRequest
answer yes_ = record {
  device_identifier = 30;
  key = codes "4.key";
  master_password_hash = none;
  request_approved = yes_;
}

abbrev waiting : AuthRequest
waiting = AuthRequest.new 7 1000 1 20 9 (codes "10.0.0.1") (codes "Ab3") (codes "PK")

abbrev pending : Db
pending = record empty { auth_requests = waiting ∷ [] }

post_pending : post_auth_request dir 1000 7 asked browser empty ≡ (ok waiting, pending)
unfolding post_auth_request AuthRequest.save execute
post_pending = refl

abbrev after_answer : Bool → Db
after_answer yes_ = (put_auth_request 1030 7 (answer yes_) 1 30 pending).1

accepted :
    (r : AuthRequest) × (put_auth_request 1030 7 (answer true) 1 30 pending
      ≡ (ok r, after_answer true))
unfolding put_auth_request answer_request AuthRequest.save AuthRequest.find_by_uuid_and_user execute
accepted = (approve 1030 (answer true) waiting, refl)

denied :
    (r : AuthRequest) × (put_auth_request 1030 7 (answer false) 1 30 pending
      ≡ (ok r, after_answer false))
unfolding put_auth_request answer_request AuthRequest.delete AuthRequest.find_by_uuid_and_user
    execute
denied = (waiting, refl)

approved_flow_example :
    let posted_db = (post_auth_request dir 1000 7 asked browser empty).1 in
    let answered_db = (put_auth_request 1030 7 (answer true) 1 30 posted_db).1 in
    (r : AuthRequest) × (get_auth_request_response 7 (codes "Ab3") browser answered_db
      ≡ (ok r, answered_db))
    × (r.enc_key ≡ some (codes "4.key"))
    × (r.master_password_hash ≡ none)
    × (r.user_uuid ≡ 1)
approved_flow_example =
    approved_flow dir 1000 1030 7 1 30 asked browser (answer true) empty refl refl refl refl refl

answered_once_example :
    put_auth_request 1040 7 (answer false) 1 30 (after_answer true)
    ≡ (err already_answered, after_answer true)
answered_once_example =
    answered_once 1030 7 1 30 (answer true) pending (after_answer true) 1040 30 (answer false) refl
      refl accepted.1

denied_gone_example :
    get_auth_request_response 7 (codes "Ab3") browser (after_answer false)
    ≡ (err auth_request_missing, after_answer false)
denied_gone_example =
    denied_gone 1030 7 1 30 (answer false) pending (after_answer false) (codes "Ab3") browser refl
      denied.1

reached : Reach dir (after_answer true)
unfolding post_auth_request AuthRequest.save execute
reached =
    step (step (start empty refl) (posted 1000 7 asked browser))
      (answered 1030 7 (answer true) 1 30)

Reach-IsSound_example : IsSound (after_answer true)
Reach-IsSound_example = Reach-IsSound reached

released_key_example :
    let r = accepted.0 in
    (r.approved ≡ some true)
    × (AuthRequest.find_by_uuid 7 (after_answer true) ≡ some r)
    × (text_eq r.access_code (codes "Ab3") ≡ true)
    × (r.device_type ≡ 9)
    × (text_eq r.request_ip (codes "10.0.0.1") ≡ true)
    × (after_answer true ≡ after_answer true)
unfolding accepted get_auth_request_response put_auth_request answer_request AuthRequest.save
    AuthRequest.find_by_uuid_and_user AuthRequest.find_by_uuid execute
released_key_example = released_key {key = codes "4.key"} 7 (codes "Ab3") browser reached refl refl

abbrev several : Db
several = record empty {
  auth_requests =
      waiting
      ∷ record waiting { uuid = 8; creation_date = 1500 }
      ∷ record waiting { uuid = 9; creation_date = 600 }
      ∷ [];
}

purge_lem_example :
    (AuthRequest.purge_expired_auth_requests 1950 several).auth_requests
    ≡ filter (λ x. not (ltb x.creation_date (1950 - 900))) several.auth_requests
purge_lem_example = purge_lem 1950 several refl ((refl, (refl, tt)), ((refl, tt), (tt, tt)))
