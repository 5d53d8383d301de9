-- ===== src/Server/Models/Archive.antt =====
-- server/src/db/models/archive.rs.
use mathlib.Core.Option
use umewarden.Prelude.{ℕ, Bool, not, ◌&&◌, Option, List, ◌∷◌, filter, find, map, ◌==◌}
use umewarden.Server.Db.{Archive, Db, M, execute}
use umewarden.Server.Models.User.{update_uuid_revision}

abbrev pub is_pair : ℕ → ℕ → Archive → Bool
is_pair user cipher x = x.user_uuid == user && x.cipher_uuid == cipher

unfoldable pub get_archived_at : ℕ → ℕ → Db → Option ℕ
get_archived_at cipher user db =
    Option.map (λ (x : Archive). x.archived_at) (find (is_pair user cipher) db.archives)

unfoldable pub save : ℕ → ℕ → ℕ → ℕ → M (Unit {0})
unfolding update_uuid_revision execute
save now user cipher archived_at db =
    execute
      (λ db. record db {
        archives =
            record { user_uuid = user; cipher_uuid = cipher; archived_at = archived_at }
            ∷ filter (λ x. not (is_pair user cipher x)) db.archives;
      })
      (update_uuid_revision user now db)

unfoldable pub delete_by_cipher : ℕ → ℕ → ℕ → M (Unit {0})
unfolding update_uuid_revision execute
delete_by_cipher now user cipher db =
    execute (λ db. record db { archives = filter (λ x. not (is_pair user cipher x)) db.archives })
      (update_uuid_revision user now db)

unfoldable pub find_by_user : ℕ → Db → List (ℕ × ℕ)
find_by_user user db =
    map (λ (x : Archive). (x.cipher_uuid, x.archived_at))
      (filter (λ x. x.user_uuid == user) db.archives)
