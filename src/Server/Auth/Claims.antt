-- ===== src/Server/Auth/Claims.antt =====
-- server/src/auth.rs: the claims of the tokens that are no session. Each is signed for its own issuer.
use umewarden.Prelude.{ℕ, ◌+◌, ◌*◌, Bool, Option, ◌++◌}
use umewarden.Prelude.Text.{Text, codes}
use umewarden.Server.Auth.{Config}

pub record InviteJwtClaims : Type 0 where
  pub nbf : ℕ
  pub exp : ℕ
  pub iss : Text
  pub sub : ℕ
  pub email : Text
  pub org_id : Text
  pub member_id : Text
  pub invited_by_email : Option Text

pub record FileDownloadClaims : Type 0 where
  pub nbf : ℕ
  pub exp : ℕ
  pub iss : Text
  pub sub : ℕ
  pub file_id : ℕ

pub record RegisterVerifyClaims : Type 0 where
  pub nbf : ℕ
  pub exp : ℕ
  pub iss : Text
  pub sub : Text
  pub name : Option Text
  pub verified : Bool

pub record TwoFactorRememberClaims : Type 0 where
  pub nbf : ℕ
  pub exp : ℕ
  pub iss : Text
  pub sub : ℕ
  pub user_uuid : ℕ

-- of a user by their identifier, or of the administrator
pub record BasicJwtClaims (Subject : Type 0) : Type 0 where
  pub nbf : ℕ
  pub exp : ℕ
  pub iss : Text
  pub sub : Subject

abbrev pub issuer : Config → Text → Text
issuer config purpose = config.origin ++ purpose

module _ (config : Config) (now : ℕ) where
  unfoldable pub generate_invite_claims : ℕ → Text → Text → Text → Option Text → InviteJwtClaims
  generate_invite_claims user email org_id member_id invited_by_email = record {
    nbf = now;
    exp = now + 3600 * config.invitation_hours;
    iss = issuer config (codes "|invite");
    sub = user;
    email = email;
    org_id = org_id;
    member_id = member_id;
    invited_by_email = invited_by_email;
  }

  unfoldable pub generate_file_download_claims : ℕ → ℕ → FileDownloadClaims
  generate_file_download_claims cipher file_id = record {
    nbf = now;
    exp = now + 300;
    iss = issuer config (codes "|file_download");
    sub = cipher;
    file_id = file_id;
  }

  unfoldable pub generate_register_verify_claims : Text → Option Text → Bool → RegisterVerifyClaims
  generate_register_verify_claims email name verified = record {
    nbf = now;
    exp = now + 1800;
    iss = issuer config (codes "|register_verify");
    sub = email;
    name = name;
    verified = verified;
  }

  unfoldable pub generate_2fa_remember_claims : ℕ → ℕ → TwoFactorRememberClaims
  generate_2fa_remember_claims device user = record {
    nbf = now;
    exp = now + 30 * 86400;
    iss = issuer config (codes "|2faremember");
    sub = device;
    user_uuid = user;
  }

  unfoldable pub generate_delete_claims : ℕ → BasicJwtClaims ℕ
  generate_delete_claims user = record {
    nbf = now;
    exp = now + 3600 * config.invitation_hours;
    iss = issuer config (codes "|delete");
    sub = user;
  }

  unfoldable pub generate_verify_email_claims : ℕ → BasicJwtClaims ℕ
  generate_verify_email_claims user = record {
    nbf = now;
    exp = now + 3600 * config.invitation_hours;
    iss = issuer config (codes "|verifyemail");
    sub = user;
  }

  unfoldable pub generate_admin_claims : BasicJwtClaims Text
  generate_admin_claims = record {
    nbf = now;
    exp = now + 60 * config.admin_minutes;
    iss = issuer config (codes "|admin");
    sub = codes "admin_panel";
  }
