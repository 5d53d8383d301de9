-- ===== src/Server/Api/Accounts/Removal.antt =====
-- server/src/api/core/accounts.rs: the routes that verify an address and that delete an account.
use umewarden.Prelude.{ℕ, true, Option, none, some, ◌==◌}
use umewarden.Prelude.Int.{pos}
use umewarden.Prelude.Text.{Text, codes}
use umewarden.Server.Db.{
  User, Result, ok, err, user_missing, claim_bad, M, pure, raise, query, require, guard, modify,
  ◌>>=◌, ◌>>◌,
}
use umewarden.Server.Models.Cipher.{Storage}
use umewarden.Server.Models.User
use umewarden.Server.Models.User.{Reader}
use umewarden.Server.Models.User.Account
use umewarden.Server.Auth
use umewarden.Server.Auth.{Jwt, decode_jwt}
use umewarden.Server.Auth.Claims.{BasicJwtClaims, issuer}
use umewarden.Server.Api.ProtectedActions
use umewarden.Server.Api.ProtectedActions.{validate_password_or_otp}

module _ (reader : Reader) (config : Auth.Config) (jwt : Jwt (BasicJwtClaims ℕ)) (now : ℕ) where
  abbrev returned : Result (BasicJwtClaims ℕ) → M (BasicJwtClaims ℕ)
  returned (ok c) = pure c
  returned (err e) = raise claim_bad

  -- an error of the save is logged
  unfoldable pub post_verify_email_token : ℕ → Text → M (Unit {0})
  post_verify_email_token user token = do
    found ← query (User.find_by_uuid user)
    u ← require user_missing found
    claims ← returned (decode_jwt jwt now token (issuer config (codes "|verifyemail")))
    guard (claims.sub == u.uuid) claim_bad
    modify (λ db.
        (User.save reader now
          (record u {
            verified_at = some now;
            last_verifying_at = none;
            login_verify_count = pos 0;
          })
          db).1)

  unfoldable pub post_delete_recover_token : Storage → ℕ → Text → M (Unit {0})
  post_delete_recover_token storage user token = do
    claims ← returned (decode_jwt jwt now token (issuer config (codes "|delete")))
    found ← query (User.find_by_uuid user)
    u ← require user_missing found
    guard (claims.sub == u.uuid) claim_bad
    Account.delete reader storage now u

  -- also `post_delete_account`
  unfoldable pub delete_account :
      ProtectedActions.Env → Storage → Option Text → Option Text → User → M (Unit {0})
  delete_account otp_env storage hash otp u = do
    validate_password_or_otp otp_env now hash otp u.uuid true
    Account.delete reader storage now u
