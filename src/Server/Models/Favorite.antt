-- ===== src/Server/Models/Favorite.antt =====
-- server/src/db/models/favorite.rs.
pub mod Set
use umewarden.Prelude.{
  ℕ, Bool, true, false, not, ◌&&◌, List, [], ◌∷◌, filter, map, if◌then◌else◌, ◌==◌,
}
use umewarden.Server.Db.{Favorite, Db, Result, ok, M, execute, pure}
use umewarden.Server.Models.User.{update_uuid_revision}

abbrev pub is_pair : ℕ → ℕ → Favorite → Bool
is_pair user cipher x = x.user_uuid == user && x.cipher_uuid == cipher

-- the count of rows is not zero
abbrev pub has_row : (Favorite → Bool) → List Favorite → Bool
has_row p [] = false
has_row p (x ∷ xs) = if p x then true else has_row p xs

unfoldable pub is_favorite : ℕ → ℕ → Db → Bool
is_favorite cipher user db = has_row (is_pair user cipher) db.favorites

-- the match on the old and the new state
unfoldable pub change_favorite : Bool → Bool → ℕ → ℕ → ℕ → M (Unit {0})
unfolding update_uuid_revision execute
change_favorite false true now cipher user db =
    execute
      (λ db. record db {
        favorites = record { user_uuid = user; cipher_uuid = cipher } ∷ db.favorites;
      })
      (update_uuid_revision user now db)
change_favorite true false now cipher user db =
    execute (λ db. record db { favorites = filter (λ x. not (is_pair user cipher x)) db.favorites })
      (update_uuid_revision user now db)
change_favorite true true now cipher user db = pure tt db
change_favorite false false now cipher user db = pure tt db

unfoldable pub set_favorite : Bool → ℕ → ℕ → ℕ → M (Unit {0})
unfolding change_favorite is_favorite
set_favorite favorite now cipher user db =
    change_favorite (is_favorite cipher user db) favorite now cipher user db

unfoldable pub delete_all_by_cipher : ℕ → M (Unit {0})
unfolding execute
delete_all_by_cipher cipher =
    execute
      (λ db. record db { favorites = filter (λ x. not (x.cipher_uuid == cipher)) db.favorites })

unfoldable pub delete_all_by_user : ℕ → M (Unit {0})
unfolding execute
delete_all_by_user user =
    execute (λ db. record db { favorites = filter (λ x. not (x.user_uuid == user)) db.favorites })

unfoldable pub get_all_cipher_uuid_by_user : ℕ → Db → List ℕ
get_all_cipher_uuid_by_user user db =
    map (λ (x : Favorite). x.cipher_uuid) (filter (λ x. x.user_uuid == user) db.favorites)
