-- ===== src/Server/Api/AuthRequests/Flow.antt =====
-- From the request to the answer.
use umewarden.Prelude.{
  ℕ, ◌≡◌, refl, true, false, not, ◌&&◌, none, some, Option-cases, inl, inr, List, [], ◌∷◌, find,
  find-eq-some, filter, arith, ◌==◌,
}
use umewarden.Prelude.Text.{Text, text_eq_refl}
use umewarden.Server.Db.{AuthRequest, Db, ok, err, auth_request_missing, already_answered}
use umewarden.Server.Models.AuthRequest
use umewarden.Server.Api.AuthRequests.{
  Directory, Client, AuthRequestRequest, AuthResponseRequest, post_auth_request, approve,
  answer_request, put_auth_request, get_auth_request_response,
}

-- With no faults: a request of a known user from a known device of the client's type, approved by a
-- device of the same user, hands its key to a client with the same type and address and the access
-- code of the request.
pub approved_flow :
    (dir : Directory) (now later id user device : ℕ) (asked : AuthRequestRequest) (client : Client)
    (answer : AuthResponseRequest) (db : Db)
    → db.faults ≡ []
    → dir.user_by_mail asked.email ≡ some user
    → dir.device_type asked.device_identifier user ≡ some client.device_type
    → answer.device_identifier ≡ device
    → answer.request_approved ≡ true
    → let posted = (post_auth_request dir now id asked client db).1 in
      let answered = (put_auth_request later id answer user device posted).1 in
      (r : AuthRequest) × (get_auth_request_response id asked.access_code client answered
        ≡ (ok r, answered))
      × (r.enc_key ≡ some answer.key)
      × (r.master_password_hash ≡ answer.master_password_hash)
      × (r.user_uuid ≡ user)
unfolding post_auth_request put_auth_request answer_request get_auth_request_response
    AuthRequest.save AuthRequest.find_by_uuid_and_user AuthRequest.find_by_uuid
approved_flow dir now later id user device asked client answer db sound mail known same yes_ =
    let r =
      AuthRequest.new id now user asked.device_identifier client.device_type client.ip
        asked.access_code asked.public_key in
    (
      approve later answer r,
      ground (arith, text_eq_refl client.ip, text_eq_refl asked.access_code),
      refl,
      refl,
      refl,
    )

gone :
    (id : ℕ) (xs : List AuthRequest)
    → find (λ x. x.uuid == id) (filter (λ x. not (x.uuid == id)) xs) ≡ none
gone id [] = refl
gone id (x ∷ xs) = ground (arith, gone id xs)

module _ (now id user device : ℕ) (answer : AuthResponseRequest) (db db' : Db) where
  -- Once an answer has approved a request, every further answer by the user's devices is refused, and
  -- writes nothing: the key that was handed over stays.
  pub answered_once :
      {r : AuthRequest} (later device' : ℕ) (answer' : AuthResponseRequest)
      → answer.request_approved ≡ true
      → answer'.device_identifier ≡ device'
      → put_auth_request now id answer user device db ≡ (ok r, db')
      → put_auth_request later id answer' user device' db' ≡ (err already_answered, db')
  unfolding put_auth_request answer_request AuthRequest.save AuthRequest.find_by_uuid_and_user
  answered_once {r} later device' answer' approved same h =
      elim (Option-cases (find (λ x. x.uuid == id && x.user_uuid == user) db.auth_requests)) [
        | inl e ↦ absurd (ground arith)
        | inr (x, e) ↦ ground (arith, e, find-eq-some _ db.auth_requests e)
      ]

  -- A request that a device denied is gone: no client gets an answer to it any more.
  pub denied_gone :
      {r : AuthRequest} (code : Text) (client : Client)
      → answer.request_approved ≡ false
      → put_auth_request now id answer user device db ≡ (ok r, db')
      → get_auth_request_response id code client db' ≡ (err auth_request_missing, db')
  unfolding put_auth_request answer_request get_auth_request_response AuthRequest.delete
      AuthRequest.find_by_uuid_and_user AuthRequest.find_by_uuid
  denied_gone {r} code client denied h =
      elim (Option-cases (find (λ x. x.uuid == id && x.user_uuid == user) db.auth_requests)) [
        | inl e ↦ absurd (ground arith)
        | inr (x, e) ↦
            ground (arith, e, find-eq-some _ db.auth_requests e, gone id db.auth_requests)
      ]
