-- ===== src/Server/Models/AuthRequest.antt =====
-- server/src/db/models/auth_request.rs: the rows of the table auth_requests, whose key is the uuid.
pub mod Laws
use umewarden.Prelude.{
  ℕ, ◌+◌, ◌-◌, Bool, true, false, not, ◌&&◌, Option, none, some, List, [], ◌∷◌, filter, find, ltb,
  leb, ◌==◌, if◌then◌else◌,
}
use umewarden.Prelude.Text.{Text, text_eq}
use umewarden.Server.Db.{AuthRequest, Db, Result, ok, err, M, execute, query, pure, ◌>>=◌, ◌>>◌}

-- `AuthRequest::new`, with the uuid that `get_uuid` returned and the time of the call
abbrev pub new : ℕ → ℕ → ℕ → ℕ → ℕ → Text → Text → Text → AuthRequest
new uuid now user device device_type request_ip access_code public_key = record {
  uuid = uuid;
  user_uuid = user;
  request_device_identifier = device;
  device_type = device_type;
  request_ip = request_ip;
  response_device_id = none;
  access_code = access_code;
  public_key = public_key;
  enc_key = none;
  master_password_hash = none;
  approved = none;
  creation_date = now;
  response_date = none;
  authentication_date = none;
}

-- No table refers to auth_requests, so `replace_into` meets no violation of a foreign key.
unfoldable pub save : AuthRequest → M (Unit {0})
unfolding execute
save r =
    execute (λ db. record db {
      auth_requests = r ∷ filter (λ x. not (x.uuid == r.uuid)) db.auth_requests;
    })

unfoldable pub find_by_uuid : ℕ → Db → Option AuthRequest
find_by_uuid uuid db = find (λ x. x.uuid == uuid) db.auth_requests

unfoldable pub find_by_uuid_and_user : ℕ → ℕ → Db → Option AuthRequest
find_by_uuid_and_user uuid user db =
    find (λ x. x.uuid == uuid && x.user_uuid == user) db.auth_requests

unfoldable pub find_by_user : ℕ → Db → List AuthRequest
find_by_user user db = filter (λ x. x.user_uuid == user) db.auth_requests

-- `approved.is_null()`
abbrev pub is_none : Option Bool → Bool
is_none none = true
is_none (some _) = false

-- `order_by(creation_date.desc())` and `first`: the latest; of equally late ones, an earlier row
latest : Option AuthRequest → List AuthRequest → Option AuthRequest
latest best [] = best
latest none (x ∷ xs) = latest (some x) xs
latest (some b) (x ∷ xs) = latest (some (if ltb b.creation_date x.creation_date then x else b)) xs

unfoldable pub find_by_user_and_requested_device : ℕ → ℕ → Db → Option AuthRequest
unfolding latest
find_by_user_and_requested_device user device db = latest none (
    filter
      (λ x. x.user_uuid == user && (x.request_device_identifier == device && is_none x.approved))
      db.auth_requests)

unfoldable pub find_created_before : ℕ → Db → List AuthRequest
find_created_before dt db = filter (λ x. ltb x.creation_date dt) db.auth_requests

unfoldable pub delete : AuthRequest → M (Unit {0})
unfolding execute
delete r =
    execute
      (λ db. record db { auth_requests = filter (λ x. not (x.uuid == r.uuid)) db.auth_requests })

abbrev pub check_access_code : AuthRequest → Text → Bool
check_access_code r code = text_eq r.access_code code

-- the loop of the purge; the result of each deletion is dropped
unfoldable pub delete_each : List AuthRequest → Db → Db
delete_each [] db = db
delete_each (r ∷ rs) db = delete_each rs (delete r db).1

-- `now - 15 minutes`, for a clock behind the first quarter of an hour of 1970
unfoldable pub purge_expired_auth_requests : ℕ → Db → Db
unfolding delete_each find_created_before
purge_expired_auth_requests now db = delete_each (find_created_before (now - 900) db) db
