-- ===== src/Client/Daemon.antt =====
-- client/src-tauri/src/daemon/state.rs: what the daemon keeps in memory. A map from uuids is the list
-- of its pairs, and a spawned task is a number.
pub mod Timer
pub mod Handlers
pub mod Safe
pub mod Reads
mod Tests
use umewarden.Prelude.{
  ℕ, Bool, true, false, not, Option, none, some, List, [], ◌∷◌, filter, ◌==◌, if◌then◌else◌,
}
use umewarden.Prelude.Int.{ℤ}
use umewarden.Prelude.Text.{Text}
use umewarden.Client.{VaultError}
use umewarden.Client.Keys.Chain.{DecryptContext}
use umewarden.Client.Model.{VaultItem, Folder, BackendKind}

-- error.rs
pub data VaultResult (A : Type 0) : Type 0 where
  ok : A → VaultResult A
  err : VaultError → VaultResult A

-- bitwarden/mod.rs, less the HTTP client
pub record AuthSession : Type 0 where
  pub access_token : Text
  pub refresh_token : Text
  pub token_type : Text
  pub expires_in : ℕ

pub record BitwardenClient : Type 0 where
  pub base_url : Text
  pub session : Option AuthSession

pub record VaultState : Type 0 where
  pub locked : Bool
  -- the key of `MasterKey`
  pub master_key : Option (List ℕ)
  pub backend : Option BackendKind
  pub items : List (ℕ × VaultItem)
  pub folders : List Folder
  pub bw_client : Option BitwardenClient
  pub decrypt_ctx : Option DecryptContext
  pub push_listener : Option ℕ
  pub last_sync_unix : Option ℤ

abbrev pub new : VaultState
new = record {
  locked = true;
  master_key = none;
  backend = none;
  items = [];
  folders = [];
  bw_client = none;
  decrypt_ctx = none;
  push_listener = none;
  last_sync_unix = none;
}

-- the new state; the task of the old `push_listener` is aborted
unfoldable pub lock : VaultState → VaultState
lock s = record s {
  master_key = none;
  decrypt_ctx = none;
  bw_client = none;
  items = [];
  folders = [];
  backend = none;
  push_listener = none;
  locked = true;
}

abbrev pub is_locked : VaultState → Bool
is_locked s = s.locked

-- `HashMap::get`, `insert` and `remove`
abbrev pub get : ℕ → List (ℕ × VaultItem) → Option VaultItem
get id [] = none
get id ((k, item) ∷ rest) = if k == id then some item else get id rest

abbrev pub insert : ℕ → VaultItem → List (ℕ × VaultItem) → List (ℕ × VaultItem)
insert id item items = (id, item) ∷ filter (λ x. not (x.0 == id)) items

abbrev pub remove : ℕ → List (ℕ × VaultItem) → List (ℕ × VaultItem)
remove id items = filter (λ x. not (x.0 == id)) items

abbrev is_in : Option ℕ → Option ℕ → Bool
is_in none folder = true
is_in (some id) none = false
is_in (some id) (some folder) = folder == id

unfoldable pub list_items : Option ℕ → List (ℕ × VaultItem) → List VaultItem
list_items folder_id [] = []
list_items folder_id ((_, item) ∷ rest) =
    let others = list_items folder_id rest in
    if is_in folder_id item.folder_id then item ∷ others else others
