-- ===== src/Server/Models/User/Laws.antt =====
-- What the statements on users return, and what they leave as it is.
use umewarden.Prelude.{ℕ, ◌≡◌, refl, not, List}
use umewarden.Server.Db.{User, TwoFactor, Db, email_not_valid}
use umewarden.Server.Keeps.{Keeps, Keeps-bind, Keeps-if, Keeps-raise, Keeps-execute, Keeps-pure}
use umewarden.Server.Ensures.{
  Ensures, Ensures-bind, Ensures-pure, Ensures-raise, Ensures-if, Ensures-any,
}
use umewarden.Server.Models.User
use umewarden.Server.Models.User.{Reader, is_valid_email, put}

module _ (reader : Reader) (now : ℕ) (u : User) where
  pub save-returns :
      {P : Db → Type 0}
      → Ensures P (User.save reader now u) (λ v _. v ≡ record u { updated_at = now })
  unfolding User.save
  save-returns =
      Ensures-if (not (is_valid_email reader u.email)) (λ bad. Ensures-raise email_not_valid)
        (λ good.
          Ensures-bind Ensures-any
            (λ _. Ensures-pure (record u { updated_at = now }) (λ db h. refl)))

  -- the second factors are in another table
  pub save-twofactor :
      (rows : List TwoFactor) → Keeps (λ db. db.twofactor ≡ rows) (User.save reader now u)
  unfolding User.save
  save-twofactor rows =
      Keeps-if (not (is_valid_email reader u.email)) (Keeps-raise email_not_valid)
        (Keeps-bind (Keeps-execute (λ db later h. h) _ (λ db h. h)) (λ _. Keeps-pure _))
