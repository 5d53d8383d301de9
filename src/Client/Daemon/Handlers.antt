-- ===== src/Client/Daemon/Handlers.antt =====
-- client/src-tauri/src/daemon/mod.rs: the messages to the daemon and their handlers, and the full sync
-- of bitwarden/sync.rs. What the configuration, the network, the login and the file of a KeePass
-- vault answer comes with the message.
use umewarden.Prelude.{
  ℕ, ◌+◌, Bool, true, false, not, Option, none, some, List, [], ◌∷◌, filter, ◌==◌,
}
use umewarden.Prelude.Int.{ℤ}
use umewarden.Prelude.Text.{Text, codes}
use umewarden.Client.{VaultError, vault_locked, two_factor_required, internal}
use umewarden.Client.Keys.Chain.{DecryptContext}
use umewarden.Client.Model.{VaultItem, Folder, vaultwarden, kdbx}
use umewarden.Client.Daemon.{
  VaultResult, ok, err, AuthSession, BitwardenClient, VaultState, lock, insert, remove, new,
}

-- the file backend, over the keepass crate: the values that its operations leave and return
pub record Files (Kdbx : Type 0) : Type 0 where
  pub list_items : Kdbx → VaultResult (List VaultItem)
  pub list_folders : Kdbx → VaultResult (List Folder)
  pub create_item : VaultItem → Kdbx → Kdbx × VaultResult VaultItem
  pub update_item : VaultItem → Kdbx → Kdbx × VaultResult (Unit {0})

-- kdbx/mod.rs: not there yet
abbrev delete_item : {Kdbx : Type 0} → ℕ → Kdbx → VaultResult (Unit {0})
delete_item id vault = err (internal (codes "KDBX delete not implemented"))

-- commands/config.rs
pub data BackendConfig : Type 0 where
  vaultwarden_at : Text → Text → BackendConfig
  kdbx_file : Text → BackendConfig
  no_backend : BackendConfig

-- what the server answers to a sync: each cipher and folder, decrypted
pub record SyncAnswer : Type 0 where
  pub ciphers : List (VaultResult VaultItem)
  pub folders : List (VaultResult Folder)

pub record LoginOutcome : Type 0 where
  pub session : AuthSession
  pub decrypt_ctx : DecryptContext

-- for one unlock
pub record Answers (Kdbx : Type 0) : Type 0 where
  pub config : VaultResult BackendConfig
  pub device_id : VaultResult Text
  pub client : VaultResult BitwardenClient
  -- the client has its session after a login
  pub login : VaultResult (BitwardenClient × LoginOutcome)
  pub sync : VaultResult SyncAnswer
  pub opened : VaultResult Kdbx

pub data Emitted : Type 0 where
  unlocked locked unlock_failed synced sync_failed : Emitted
  two_factor_needed : List Text → Emitted

pub record Daemon (Kdbx : Type 0) : Type 0 where
  pub state : VaultState
  pub kdbx_vault : Option Kdbx
  -- the push listeners that run, and the number of the next one
  pub running : List ℕ
  pub next : ℕ
  pub emitted : List Emitted

-- Two messages are left out, since they do not change the state: `AutofillTriggered` reads it (see Reads),
-- and `Shutdown` ends the loop.
pub data DaemonMsg (Kdbx : Type 0) : Type 0 where
  unlock : Answers Kdbx → DaemonMsg Kdbx
  lock_now : DaemonMsg Kdbx
  sync_now : VaultResult SyncAnswer → ℤ → DaemonMsg Kdbx
  kdbx_create_item : VaultItem → DaemonMsg Kdbx
  kdbx_update_item : VaultItem → DaemonMsg Kdbx
  kdbx_delete_item : ℕ → DaemonMsg Kdbx

-- the decrypted ones; an error of one is passed over
abbrev pub decrypted : {A : Type 0} → List (VaultResult A) → List A
decrypted [] = []
decrypted (ok a ∷ rest) = a ∷ decrypted rest
decrypted (err _ ∷ rest) = decrypted rest

-- the map with the items under their ids, the later ones last
abbrev pub collected : List VaultItem → List (ℕ × VaultItem) → List (ℕ × VaultItem)
collected [] acc = acc
collected (item ∷ rest) acc = collected rest (insert item.id item acc)

abbrev pub received : Option AuthSession → VaultResult SyncAnswer → VaultState → VaultState × Bool
received none answer s = (s, false)
received (some session) (err _) s = (s, false)
received (some session) (ok a) s =
    (record s { items = collected (decrypted a.ciphers) []; folders = decrypted a.folders }, true)

-- `full_sync`: the state, and whether it succeeded
unfoldable pub full_sync : BitwardenClient → VaultResult SyncAnswer → VaultState → VaultState × Bool
full_sync client answer s = received client.session answer s

-- `unwrap_or_else` with no items
abbrev listed : {A : Type 0} → VaultResult (List A) → List A
listed (ok list) = list
listed (err _) = []

-- the tasks that run after the handle was aborted
abbrev pub aborted : Option ℕ → List ℕ → List ℕ
aborted none running = running
aborted (some task) running = filter (λ t. not (t == task)) running

module _ {Kdbx : Type 0} where
  abbrev pub emit : Emitted → Daemon Kdbx → Daemon Kdbx
  emit e d = record d { emitted = e ∷ d.emitted }

  abbrev pub started : Daemon Kdbx
  started = record { state = new; kdbx_vault = none; running = []; next = 0; emitted = [] }

  -- after the login
  abbrev pub logged_in :
      BitwardenClient → LoginOutcome → VaultResult SyncAnswer → Daemon Kdbx → Daemon Kdbx
  logged_in client outcome sync d = emit unlocked (record d {
    state = record ((full_sync client sync d.state).0) {
      bw_client = some client;
      decrypt_ctx = some outcome.decrypt_ctx;
      backend = some vaultwarden;
      push_listener = some d.next;
      locked = false;
    };
    running = d.next ∷ d.running;
    next = d.next + 1;
  })

  abbrev pub login_failed : VaultError → Daemon Kdbx → Daemon Kdbx
  login_failed (two_factor_required providers) d = emit (two_factor_needed providers) d
  login_failed _ d = emit unlock_failed d

  -- By the device's id, the client and the login. The state is that at the end of the turn: the source
  -- writes the items of the sync first, and then, in a second write, that the vault is not locked.
  abbrev pub unlock_vaultwarden :
      VaultResult Text
      → VaultResult BitwardenClient
      → VaultResult (BitwardenClient × LoginOutcome)
      → VaultResult SyncAnswer
      → Daemon Kdbx
      → Daemon Kdbx
  unlock_vaultwarden (err _) client login sync d = emit unlock_failed d
  unlock_vaultwarden (ok id) (err _) login sync d = emit unlock_failed d
  unlock_vaultwarden (ok id) (ok _) (err e) sync d = login_failed e d
  unlock_vaultwarden (ok id) (ok _) (ok (client, outcome)) sync d = logged_in client outcome sync d

  abbrev pub unlock_kdbx : Files Kdbx → VaultResult Kdbx → Daemon Kdbx → Daemon Kdbx
  unlock_kdbx files (err _) d = emit unlock_failed d
  unlock_kdbx files (ok vault) d = emit unlocked (record d {
    state = record d.state {
      items = collected (listed (files.list_items vault)) [];
      folders = listed (files.list_folders vault);
      backend = some kdbx;
      locked = false;
    };
    kdbx_vault = some vault;
  })

  abbrev pub unlock_backend :
      Files Kdbx → Answers Kdbx → VaultResult BackendConfig → Daemon Kdbx → Daemon Kdbx
  unlock_backend files answers (err _) d = emit unlock_failed d
  unlock_backend files answers (ok (vaultwarden_at url email)) d =
      unlock_vaultwarden answers.device_id answers.client answers.login answers.sync d
  unlock_backend files answers (ok (kdbx_file path)) d = unlock_kdbx files answers.opened d
  unlock_backend files answers (ok no_backend) d = emit unlock_failed d

  unfoldable pub handle_unlock : Files Kdbx → Answers Kdbx → Daemon Kdbx → Daemon Kdbx
  unfolding full_sync
  handle_unlock files answers d = unlock_backend files answers answers.config d

  unfoldable pub handle_lock : Daemon Kdbx → Daemon Kdbx
  unfolding lock
  handle_lock d = emit locked (record d {
    state = lock d.state;
    kdbx_vault = none;
    running = aborted d.state.push_listener d.running;
  })

  abbrev pub synced_at : ℤ → VaultState × Bool → Daemon Kdbx → Daemon Kdbx
  synced_at now (s, true) d =
      emit synced (record d { state = record s { last_sync_unix = some now } })
  synced_at now (s, false) d = emit sync_failed d

  abbrev pub sync_with :
      Option BitwardenClient
      → Option DecryptContext
      → VaultResult SyncAnswer
      → ℤ
      → Daemon Kdbx
      → Daemon Kdbx
  sync_with none ctx answer now d = d
  sync_with (some client) none answer now d = d
  sync_with (some client) (some ctx) answer now d =
      synced_at now (full_sync client answer d.state) d

  unfoldable pub handle_sync_now : VaultResult SyncAnswer → ℤ → Daemon Kdbx → Daemon Kdbx
  unfolding full_sync
  handle_sync_now answer now d = sync_with d.state.bw_client d.state.decrypt_ctx answer now d

  abbrev pub store_item : VaultItem → Daemon Kdbx → Daemon Kdbx
  store_item item d = record d {
    state = record d.state { items = insert item.id item d.state.items };
  }

  abbrev pub remove_item : ℕ → Daemon Kdbx → Daemon Kdbx
  remove_item id d = record d { state = record d.state { items = remove id d.state.items } }

  -- the reply when no vault is open
  abbrev pub with_vault :
      {A : Type 0}
      → Option Kdbx
      → (Kdbx → VaultResult A × Daemon Kdbx)
      → Daemon Kdbx
      → VaultResult A × Daemon Kdbx
  with_vault none f d = (err vault_locked, d)
  with_vault (some vault) f d = f vault

  -- the reply, and the daemon after it
  abbrev pub created :
      Kdbx × VaultResult VaultItem → Daemon Kdbx → VaultResult VaultItem × Daemon Kdbx
  created (vault, ok item) d = (ok item, store_item item (record d { kdbx_vault = some vault }))
  created (vault, err e) d = (err e, record d { kdbx_vault = some vault })

  unfoldable pub handle_kdbx_create_item :
      Files Kdbx → VaultItem → Daemon Kdbx → VaultResult VaultItem × Daemon Kdbx
  handle_kdbx_create_item files item d =
      with_vault d.kdbx_vault (λ vault. created (files.create_item item vault) d) d

  abbrev pub updated :
      VaultItem → Kdbx × VaultResult (Unit {0}) → Daemon Kdbx → VaultResult (Unit {0}) × Daemon Kdbx
  updated item (vault, ok _) d = (ok tt, store_item item (record d { kdbx_vault = some vault }))
  updated item (vault, err e) d = (err e, record d { kdbx_vault = some vault })

  unfoldable pub handle_kdbx_update_item :
      Files Kdbx → VaultItem → Daemon Kdbx → VaultResult (Unit {0}) × Daemon Kdbx
  handle_kdbx_update_item files item d =
      with_vault d.kdbx_vault (λ vault. updated item (files.update_item item vault) d) d

  unfoldable pub handle_kdbx_delete_item : ℕ → Daemon Kdbx → VaultResult (Unit {0}) × Daemon Kdbx
  handle_kdbx_delete_item id d = with_vault d.kdbx_vault (λ vault. (delete_item id vault, d)) d

  -- one turn of the loop of `run`
  unfoldable pub handle : Files Kdbx → DaemonMsg Kdbx → Daemon Kdbx → Daemon Kdbx
  unfolding handle_unlock handle_lock handle_sync_now handle_kdbx_create_item
      handle_kdbx_update_item handle_kdbx_delete_item
  handle files (unlock answers) d = handle_unlock files answers d
  handle files lock_now d = handle_lock d
  handle files (sync_now answer now) d = handle_sync_now answer now d
  handle files (kdbx_create_item item) d = (handle_kdbx_create_item files item d).1
  handle files (kdbx_update_item item) d = (handle_kdbx_update_item files item d).1
  handle files (kdbx_delete_item id) d = (handle_kdbx_delete_item id d).1
