-- ===== src/Server/Api/AuthRequests.antt =====
-- server/src/api/core/accounts.rs, the login with a device: a client without a session posts a
-- request, a device with a session approves or denies it, and the client fetches the answer by its
-- access code. The lookups of users and devices, which these handlers only read, are functions; the
-- messages to the clients are not modelled.
pub mod Flow
pub mod Sound
mod Tests
use umewarden.Prelude.{
  ℕ, Bool, true, false, not, ◌&&◌, ◌||◌, Option, none, some, List, filter, ◌==◌, if◌then◌else◌,
}
use umewarden.Prelude.Text.{Text, text_eq}
use umewarden.Server.Db.{
  AuthRequest, Db, auth_request_missing, device_mismatch, already_answered, wrong_client, M, pure,
  raise, query, require, ◌>>=◌, ◌>>◌,
}
use umewarden.Server.Models.AuthRequest
use umewarden.Server.Models.AuthRequest.{is_none, check_access_code}

pub record Directory : Type 0 where
  -- `User::find_by_mail`
  pub user_by_mail : Text → Option ℕ
  -- the type of the device that `Device::find_by_uuid_and_user` finds
  pub device_type : ℕ → ℕ → Option ℕ

-- `ClientHeaders`
pub record Client : Type 0 where
  pub device_type : ℕ
  pub ip : Text

-- `AuthRequestRequest`
pub record AuthRequestRequest : Type 0 where
  pub access_code : Text
  pub device_identifier : ℕ
  pub email : Text
  pub public_key : Text

-- `AuthResponseRequest`
pub record AuthResponseRequest : Type 0 where
  pub device_identifier : ℕ
  pub key : Text
  pub master_password_hash : Option Text
  pub request_approved : Bool

-- `Some(device) if device.atype == client_headers.device_type`
abbrev is_type : ℕ → Option ℕ → Bool
is_type wanted none = false
is_type wanted (some atype) = atype == wanted

-- The answer is the stored request; its JSON shows no key and no approval.
unfoldable pub post_auth_request : Directory → ℕ → ℕ → AuthRequestRequest → Client → M AuthRequest
post_auth_request dir now fresh_id asked client = do
  user ← require auth_request_missing (dir.user_by_mail asked.email)
  (if is_type client.device_type (dir.device_type asked.device_identifier user)
      then pure tt
      else raise device_mismatch)
  let r =
      AuthRequest.new fresh_id now user asked.device_identifier client.device_type client.ip
        asked.access_code asked.public_key
  AuthRequest.save r
  pure r

-- the request of the signed-in user
unfoldable pub get_auth_request : ℕ → ℕ → M AuthRequest
get_auth_request id user = do
  found ← query (AuthRequest.find_by_uuid_and_user id user)
  require auth_request_missing found

abbrev pub approve : ℕ → AuthResponseRequest → AuthRequest → AuthRequest
approve now answer r = record r {
  approved = some answer.request_approved;
  enc_key = some answer.key;
  master_password_hash = answer.master_password_hash;
  response_device_id = some answer.device_identifier;
  response_date = some now;
}

-- behind the query: `user_device` is the device of the session
unfoldable pub answer_request : ℕ → AuthResponseRequest → ℕ → AuthRequest → M AuthRequest
answer_request now answer user_device r =
    if not (user_device == answer.device_identifier)
    then raise device_mismatch
    else if not (is_none r.approved)
    then raise already_answered
    else if answer.request_approved
    then (do AuthRequest.save (approve now answer r); pure (approve now answer r))
    else (do AuthRequest.delete r; pure r)

unfoldable pub put_auth_request : ℕ → ℕ → AuthResponseRequest → ℕ → ℕ → M AuthRequest
put_auth_request now id answer user user_device = do
  found ← query (AuthRequest.find_by_uuid_and_user id user)
  r ← require auth_request_missing found
  answer_request now answer user_device r

-- the client without a session asks for the answer
unfoldable pub get_auth_request_response : ℕ → Text → Client → M AuthRequest
get_auth_request_response id code client = do
  found ← query (AuthRequest.find_by_uuid id)
  r ← require auth_request_missing found
  if not (r.device_type == client.device_type)
        || (not (text_eq r.request_ip client.ip) || not (check_access_code r code))
      then raise wrong_client
      else pure r

unfoldable pub get_auth_requests_pending : ℕ → Db → List AuthRequest
get_auth_requests_pending user db =
    filter (λ r. is_none r.approved) (AuthRequest.find_by_user user db)
