-- ===== src/Client/Daemon/Reads.antt =====
-- What is read from an unlocked vault: the candidates for filling in a window (daemon/mod.rs of
-- client/src-tauri/src), and list_items, get_item and get_totp_code of commands/vault.rs there.
use umewarden.Prelude.{
  ℕ, Bool, true, false, not, ◌&&◌, ◌||◌, Option, none, some, List, [], ◌∷◌, ◌==◌, if◌then◌else◌,
}
use umewarden.Prelude.Text.{Text, codes, strip_prefix}
use umewarden.Client.{vault_locked, not_found, internal}
use umewarden.Client.Model.{VaultItem, LoginUri, ItemKind, login, card, identity, secure_note}
use umewarden.Client.Daemon.{VaultResult, ok, err, VaultState, get}
use umewarden.Client.Daemon

abbrev starts_with : Text → Text → Bool
starts_with part s = elim (strip_prefix part s) [ none ↦ false | some _ ↦ true ]

-- `str::contains`
unfoldable pub contains : Text → Text → Bool
unfolding strip_prefix
contains part [] = starts_with part []
contains part (c ∷ s) = starts_with part (c ∷ s) || contains part s

-- what stands behind the first occurrence
unfoldable pub behind : Text → Text → Option Text
unfolding strip_prefix
behind part [] = strip_prefix part []
behind part (c ∷ s) =
    let later = behind part s in
    elim (strip_prefix part (c ∷ s)) [ none ↦ later | some rest ↦ some rest ]

abbrev is_end : ℕ → Bool
is_end c = c == 47 || (c == 63 || c == 35)

-- up to the first of `/`, `?` and `#`
unfoldable pub until_end : Text → Text
until_end [] = []
until_end (c ∷ s) = let rest = until_end s in if is_end c then [] else c ∷ rest

unfoldable pub extract_domain : Text → Text
unfolding behind until_end
extract_domain uri = elim (behind (codes "://") uri) [
  | none ↦ until_end uri
  | some rest ↦ until_end rest
]

abbrev is_empty : Text → Bool
is_empty [] = true
is_empty (_ ∷ _) = false

-- `to_lowercase` is an argument
module _ (to_lowercase : Text → Text) where
  abbrev any_matches : Text → List LoginUri → Bool
  any_matches title [] = false
  any_matches title (u ∷ rest) =
      not (is_empty (extract_domain u.uri)) && contains (to_lowercase (extract_domain u.uri)) title
      || any_matches title rest

  abbrev is_candidate : Text → ItemKind → Bool
  is_candidate title (login data_) = any_matches title data_.uris
  is_candidate title card = false
  is_candidate title identity = false
  is_candidate title secure_note = false

  -- id and name of each
  unfoldable pub candidates : Text → List (ℕ × VaultItem) → List (ℕ × Text)
  unfolding extract_domain contains
  candidates title [] = []
  candidates title ((_, item) ∷ rest) =
      let others = candidates title rest in
      if is_candidate title item.kind then (item.id, item.name) ∷ others else others

  -- what is emitted: nothing while the vault is locked
  unfoldable pub handle_autofill_triggered : Text → VaultState → List (ℕ × Text)
  unfolding candidates
  handle_autofill_triggered window_title s =
      if s.locked then [] else candidates (to_lowercase window_title) s.items

unfoldable pub list_items : Option ℕ → VaultState → VaultResult (List VaultItem)
unfolding Daemon.list_items
list_items folder_id s =
    if s.locked then err vault_locked else ok (Daemon.list_items folder_id s.items)

abbrev found : Option VaultItem → VaultResult VaultItem
found none = err (not_found (codes "id"))
found (some item) = ok item

-- the message of `not_found` is not modelled
unfoldable pub get_item : ℕ → VaultState → VaultResult VaultItem
get_item id s = if s.locked then err vault_locked else found (get id s.items)

abbrev secret_of : ItemKind → VaultResult Text
secret_of (login data_) = elim data_.totp [
  | none ↦ err (internal (codes "item has no TOTP configured"))
  | some secret ↦ ok secret
]
secret_of card = err (internal (codes "item is not a Login"))
secret_of identity = err (internal (codes "item is not a Login"))
secret_of secure_note = err (internal (codes "item is not a Login"))

-- the secret from which `get_totp_code` generates the code
unfoldable pub totp_secret : ℕ → VaultState → VaultResult Text
unfolding get_item
totp_secret id s = elim (get_item id s) [ err e ↦ err e | ok item ↦ secret_of item.kind ]
