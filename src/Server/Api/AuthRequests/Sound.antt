-- ===== src/Server/Api/AuthRequests/Sound.antt =====
-- The rows that any sequence of requests, answers and purges leaves.
use umewarden.Prelude.{
  ℕ, ap, ◌∙◌, ◌-◌, ◌≡◌, refl, true, none, some, Option-cases, Bool-cases, inl, inr, ◌⊎◌, List, [],
  ◌∷◌, find, All, All-filter, All-find, arith, ◌==◌,
}
use umewarden.Prelude.Text.{Text, text_eq}
use umewarden.Server.Db.{AuthRequest, Db, ok, execute-keeps, effect_of, pure, ◌>>◌}
use umewarden.Server.Models.AuthRequest
use umewarden.Server.Models.AuthRequest.{check_access_code}
use umewarden.Server.Api.AuthRequests.{
  Directory, Client, AuthRequestRequest, AuthResponseRequest, is_type, post_auth_request, approve,
  answer_request, put_auth_request, get_auth_request_response,
}

-- Either no device has answered, and the row holds no answer, or one has approved the request, and
-- the row holds its key and names the device.
abbrev pub IsConsistent : AuthRequest → Type 0
IsConsistent r =
    ((r.approved ≡ none)
      × (r.enc_key ≡ none)
      × (r.master_password_hash ≡ none)
      × (r.response_device_id ≡ none)
      × (r.response_date ≡ none))
    ⊎ ((key : Text) × (device now : ℕ) × (r.approved ≡ some true)
        × (r.enc_key ≡ some key)
        × (r.response_device_id ≡ some device)
        × (r.response_date ≡ some now))

abbrev pub IsSound : Db → Type 0
IsSound db = All IsConsistent db.auth_requests

save-IsSound :
    (r : AuthRequest) (db : Db) → IsConsistent r → IsSound db → IsSound (AuthRequest.save r db).1
unfolding AuthRequest.save
save-IsSound r db c s =
    execute-keeps IsSound (λ db later h. h) _ db s (c, All-filter IsConsistent _ db.auth_requests s)

delete-IsSound : (r : AuthRequest) (db : Db) → IsSound db → IsSound (AuthRequest.delete r db).1
unfolding AuthRequest.delete
delete-IsSound r db s =
    execute-keeps IsSound (λ db later h. h) _ db s (All-filter IsConsistent _ db.auth_requests s)

delete_each-IsSound :
    (rs : List AuthRequest) (db : Db) → IsSound db → IsSound (AuthRequest.delete_each rs db)
unfolding AuthRequest.delete_each
delete_each-IsSound [] db s = s
delete_each-IsSound (r ∷ rs) db s = delete_each-IsSound rs _ (delete-IsSound r db s)

post-IsSound :
    (dir : Directory) (now id : ℕ) (asked : AuthRequestRequest) (client : Client) (db : Db)
    → IsSound db
    → IsSound (post_auth_request dir now id asked client db).1
unfolding post_auth_request
post-IsSound dir now id asked client db s = elim (Option-cases (dir.user_by_mail asked.email)) [
  | inl e ↦ rw e s
  | inr (user, e) ↦
      rw e
        (elim (Bool-cases
          (is_type client.device_type (dir.device_type asked.device_identifier user))) [
            | inl t ↦
                let r =
                  AuthRequest.new id now user asked.device_identifier client.device_type client.ip
                    asked.access_code asked.public_key in
                let kept = save-IsSound r db (inl (refl, refl, refl, refl, refl)) s in
                rw (t, effect_of (AuthRequest.save r) r db) kept
            | inr t ↦ rw t s
          ])
]

answer-IsSound :
    (now : ℕ) (answer : AuthResponseRequest) (device : ℕ) (r : AuthRequest) (db : Db)
    → IsSound db
    → IsSound (answer_request now answer device r db).1
unfolding answer_request
answer-IsSound now answer device r db s = elim (Bool-cases (device == answer.device_identifier)) [
  | inr e ↦ rw e s
  | inl e ↦ elim (Option-cases r.approved) [
    | inr (b, a) ↦ rw (e, a) s
    | inl a ↦ elim (Bool-cases answer.request_approved) [
      | inl t ↦
          let c : IsConsistent (approve now answer r) =
            inr (answer.key, answer.device_identifier, now, ap some t, refl, refl, refl) in
          let kept = save-IsSound (approve now answer r) db c s in
          let kept' : IsSound
              ((AuthRequest.save (approve now answer r) >> pure (approve now answer r)) db).1 =
            rw (effect_of (AuthRequest.save (approve now answer r)) (approve now answer r) db)
              kept in
          rw (e, a, t) (rw t at kept')
      | inr t ↦
          let kept : IsSound ((AuthRequest.delete r >> pure r) db).1 =
            rw (effect_of (AuthRequest.delete r) r db) (delete-IsSound r db s) in
          rw (e, a, t) (rw a at kept)
    ]
  ]
]

put-IsSound :
    (now id : ℕ) (answer : AuthResponseRequest) (user device : ℕ) (db : Db)
    → IsSound db
    → IsSound (put_auth_request now id answer user device db).1
unfolding put_auth_request
put-IsSound now id answer user device db s =
    elim (Option-cases (AuthRequest.find_by_uuid_and_user id user db)) [
      | inl e ↦ rw e s
      | inr (r, e) ↦ rw e (answer-IsSound now answer device r db s)
    ]

-- one call of a handler, or of the scheduled purge, that may write auth_requests
pub data Step (dir : Directory) (db : Db) : Db → Type 0 where
  posted :
      (now id : ℕ) (asked : AuthRequestRequest) (client : Client)
      → Step dir db (post_auth_request dir now id asked client db).1
  answered :
      (now id : ℕ) (answer : AuthResponseRequest) (user device : ℕ)
      → Step dir db (put_auth_request now id answer user device db).1
  purged : (now : ℕ) → Step dir db (AuthRequest.purge_expired_auth_requests now db)

-- the databases that such calls reach from an empty table, with any faults
pub data Reach (dir : Directory) : Db → Type 0 where
  start : (db : Db) → db.auth_requests ≡ [] → Reach dir db
  step : {db db' : Db} → Reach dir db → Step dir db db' → Reach dir db'

Step-IsSound : {dir : Directory} {db db' : Db} → Step dir db db' → IsSound db → IsSound db'
unfolding AuthRequest.purge_expired_auth_requests
Step-IsSound {dir} {db} (posted now id asked client) s = post-IsSound dir now id asked client db s
Step-IsSound {dir} {db} (answered now id answer user device) s =
    put-IsSound now id answer user device db s
Step-IsSound {dir} {db} (purged now) s =
    delete_each-IsSound (AuthRequest.find_created_before (now - 900) db) db s

-- In every database that any calls of the handlers and of the purge reach from an empty table,
-- failed statements included, each row is either without an answer, or approved with a key, the
-- device that approved it and the time.
pub Reach-IsSound : {dir : Directory} {db : Db} → Reach dir db → IsSound db
Reach-IsSound (start db e) = rw e tt
Reach-IsSound (step r s) = Step-IsSound s (Reach-IsSound r)

-- In every database that any calls of the handlers and of the purge reach from an empty table, a
-- client to which the answer hands a key has sent the access code of
-- the request, with the device type and the address that posted it, and a device has approved that
-- request.
pub released_key :
    {dir : Directory} {db db' : Db} {r : AuthRequest} {key : Text} (id : ℕ) (code : Text)
    (client : Client)
    → Reach dir db
    → get_auth_request_response id code client db ≡ (ok r, db')
    → r.enc_key ≡ some key
    → (r.approved ≡ some true)
      × (AuthRequest.find_by_uuid id db ≡ some r)
      × (text_eq r.access_code code ≡ true)
      × (r.device_type ≡ client.device_type)
      × (text_eq r.request_ip client.ip ≡ true)
      × (db' ≡ db)
unfolding get_auth_request_response AuthRequest.find_by_uuid
released_key {dir} {db} {db'} {r} {key} id code client reached h k =
    elim (Option-cases (find (λ x. x.uuid == id) db.auth_requests)) [
      | inl e ↦ absurd (ground arith)
      | inr (x, e) ↦
          let same : x ≡ r = ground arith in
          let c = All-find IsConsistent _ db.auth_requests (Reach-IsSound reached) e in
          let c' : IsConsistent r = rw same at c in
          let a : r.approved ≡ some true = elim c' [
            | inl (_, n, _, _, _) ↦ absurd (ground arith)
            | inr (_, _, _, a, _, _, _) ↦ a
          ] in
          (a, e ∙ ap some same, ground arith, ground arith, ground arith, ground arith)
    ]
