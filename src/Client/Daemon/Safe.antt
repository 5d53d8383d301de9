-- ===== src/Client/Daemon/Safe.antt =====
-- What the daemon keeps while the vault is locked.
use umewarden.Prelude.{
  ℕ, ◌≡◌, refl, sym, ap, ◌∙◌, Bool, Bool-cases, true, false, Option, none, some, inl, inr, [],
  arith,
}
use umewarden.Client.Model.{VaultItem}
use umewarden.Prelude.Int.{ℤ}
use umewarden.Prelude.Text.{Text}
use umewarden.Client.{
  VaultError, vault_locked, wrong_password, two_factor_required, not_found, crypto, api, network,
  io, internal,
}
use umewarden.Client.Keys.Chain.{DecryptContext}
use umewarden.Client.Daemon.{VaultResult, ok, err, AuthSession, BitwardenClient, remove, VaultState}
use umewarden.Client.Daemon.Handlers.{
  LoginOutcome, BackendConfig, unlock_backend, received, sync_with, with_vault, Files, Answers,
  Daemon, DaemonMsg, SyncAnswer, unlock, lock_now, sync_now, kdbx_create_item, kdbx_update_item,
  kdbx_delete_item, handle, full_sync, unlock_vaultwarden, unlock_kdbx, login_failed, synced_at,
  created, updated, started, store_item, remove_item, vaultwarden_at, kdbx_file, no_backend,
}

-- The commands of the window run beside the daemon: when a request of theirs has succeeded, they write
-- the item into the state, or remove it.
pub data Reach {Kdbx : Type 0} (files : Files Kdbx) : Daemon Kdbx → Type 0 where
  start : Reach files started
  handled : (m : DaemonMsg Kdbx) {d : Daemon Kdbx} → Reach files d → Reach files (handle files m d)
  stored :
      (item : VaultItem) {d : Daemon Kdbx}
      → Reach files d
      → d.state.locked ≡ false
      → Reach files (store_item item d)
  removed : (id : ℕ) {d : Daemon Kdbx} → Reach files d → Reach files (remove_item id d)

pub record IsEmpty {Kdbx : Type 0} (state : VaultState) (vault : Option Kdbx) : Type 0 where
  pub items : state.items ≡ []
  pub folders : state.folders ≡ []
  pub master_key : state.master_key ≡ none
  pub decrypt_ctx : state.decrypt_ctx ≡ none
  pub bw_client : state.bw_client ≡ none
  pub backend : state.backend ≡ none
  pub push_listener : state.push_listener ≡ none
  pub kdbx_vault : vault ≡ none

abbrev IsSafeWhen : {Kdbx : Type 0} → Bool → VaultState → Option Kdbx → Type 0
IsSafeWhen true state vault = IsEmpty state vault
IsSafeWhen false state vault = Unit

emptied :
    {Kdbx : Type 0} (b : Bool) (state : VaultState) (vault : Option Kdbx)
    → b ≡ true
    → IsSafeWhen b state vault
    → IsEmpty state vault
emptied true state vault e h = h
emptied false state vault e h = absurd (ground (arith, e))

module _ {Kdbx : Type 0} (files : Files Kdbx) where
  abbrev IsSafe : Daemon Kdbx → Type 0
  IsSafe d = IsSafeWhen d.state.locked d.state d.kdbx_vault

  unlocked-IsSafe : (d : Daemon Kdbx) → d.state.locked ≡ false → IsSafe d
  unlocked-IsSafe d e = rw e tt

  received-locked :
      (o : Option AuthSession) (answer : VaultResult SyncAnswer) (s : VaultState)
      → (received o answer s).0.locked ≡ s.locked
  received-locked none answer s = refl
  received-locked (some session) (err _) s = refl
  received-locked (some session) (ok a) s = refl

  -- what is there is there while the vault is unlocked
  kdbx-unlocked :
      (d : Daemon Kdbx) {v : Kdbx} → IsSafe d → d.kdbx_vault ≡ some v → d.state.locked ≡ false
  kdbx-unlocked d h e = elim (Bool-cases d.state.locked) [
    | inr f ↦ f
    | inl t ↦ let h' = rw t at h in absurd (ground (arith, sym h'.kdbx_vault ∙ e))
  ]

  client-unlocked :
      (d : Daemon Kdbx) {c : BitwardenClient}
      → IsSafe d
      → d.state.bw_client ≡ some c
      → d.state.locked ≡ false
  client-unlocked d h e = elim (Bool-cases d.state.locked) [
    | inr f ↦ f
    | inl t ↦ let h' = rw t at h in absurd (ground (arith, sym h'.bw_client ∙ e))
  ]

  login_failed-IsSafe : (e : VaultError) (d : Daemon Kdbx) → IsSafe d → IsSafe (login_failed e d)
  login_failed-IsSafe vault_locked d h = h
  login_failed-IsSafe wrong_password d h = h
  login_failed-IsSafe (two_factor_required p) d h = h
  login_failed-IsSafe (not_found t) d h = h
  login_failed-IsSafe (crypto t) d h = h
  login_failed-IsSafe (VaultError.kdbx t) d h = h
  login_failed-IsSafe (api t) d h = h
  login_failed-IsSafe (network t) d h = h
  login_failed-IsSafe (io t) d h = h
  login_failed-IsSafe (internal t) d h = h

  vaultwarden-IsSafe :
      (id : VaultResult Text) (c : VaultResult BitwardenClient)
      (login : VaultResult (BitwardenClient × LoginOutcome)) (sync : VaultResult SyncAnswer)
      (d : Daemon Kdbx)
      → IsSafe d
      → IsSafe (unlock_vaultwarden id c login sync d)
  vaultwarden-IsSafe (err _) c login sync d h = h
  vaultwarden-IsSafe (ok id) (err _) login sync d h = h
  vaultwarden-IsSafe (ok id) (ok _) (err e) sync d h = login_failed-IsSafe e d h
  vaultwarden-IsSafe (ok id) (ok _) (ok (client, outcome)) sync d h = tt

  kdbx-IsSafe : (o : VaultResult Kdbx) (d : Daemon Kdbx) → IsSafe d → IsSafe (unlock_kdbx files o d)
  kdbx-IsSafe (err _) d h = h
  kdbx-IsSafe (ok vault) d h = tt

  unlock-IsSafe :
      (a : Answers Kdbx) (config : VaultResult BackendConfig) (d : Daemon Kdbx)
      → IsSafe d
      → IsSafe (unlock_backend files a config d)
  unlock-IsSafe a (err _) d h = h
  unlock-IsSafe a (ok (vaultwarden_at url email)) d h =
      vaultwarden-IsSafe a.device_id a.client a.login a.sync d h
  unlock-IsSafe a (ok (kdbx_file path)) d h = kdbx-IsSafe a.opened d h
  unlock-IsSafe a (ok no_backend) d h = h

  synced-IsSafe :
      (now : ℤ) (r : VaultState × Bool) (d : Daemon Kdbx)
      → r.0.locked ≡ false
      → IsSafe d
      → IsSafe (synced_at now r d)
  synced-IsSafe now (s, true) d e h = unlocked-IsSafe (synced_at now (s, true) d) e
  synced-IsSafe now (s, false) d e h = h

  sync-IsSafe :
      (c : Option BitwardenClient) (ctx : Option DecryptContext) (answer : VaultResult SyncAnswer)
      (now : ℤ) (d : Daemon Kdbx)
      → d.state.bw_client ≡ c
      → IsSafe d
      → IsSafe (sync_with c ctx answer now d)
  unfolding full_sync
  sync-IsSafe none ctx answer now d e h = h
  sync-IsSafe (some client) none answer now d e h = h
  sync-IsSafe (some client) (some ctx) answer now d e h =
      synced-IsSafe now (full_sync client answer d.state) d
        (received-locked client.session answer d.state ∙ client-unlocked d h e) h

  created-IsSafe :
      (r : Kdbx × VaultResult VaultItem) (d : Daemon Kdbx)
      → d.state.locked ≡ false
      → IsSafe (created r d).1
  created-IsSafe (v, ok item) d e = unlocked-IsSafe (created (v, ok item) d).1 e
  created-IsSafe (v, err x) d e = unlocked-IsSafe (created (v, err x) d).1 e

  updated-IsSafe :
      (item : VaultItem) (r : Kdbx × VaultResult (Unit {0})) (d : Daemon Kdbx)
      → d.state.locked ≡ false
      → IsSafe (updated item r d).1
  updated-IsSafe item (v, ok _) d e = unlocked-IsSafe (updated item (v, ok tt) d).1 e
  updated-IsSafe item (v, err x) d e = unlocked-IsSafe (updated item (v, err x) d).1 e

  with_vault-IsSafe :
      {A : Type 0} (o : Option Kdbx) (f : Kdbx → VaultResult A × Daemon Kdbx) (d : Daemon Kdbx)
      → d.kdbx_vault ≡ o
      → IsSafe d
      → ((v : Kdbx) → d.state.locked ≡ false → IsSafe (f v).1)
      → IsSafe (with_vault o f d).1
  with_vault-IsSafe none f d e h k = h
  with_vault-IsSafe (some v) f d e h k = k v (kdbx-unlocked d h e)

  handle-IsSafe : (m : DaemonMsg Kdbx) (d : Daemon Kdbx) → IsSafe d → IsSafe (handle files m d)
  unfolding handle
  handle-IsSafe (unlock a) d h = unlock-IsSafe a a.config d h
  handle-IsSafe lock_now d h = record {
    items = refl;
    folders = refl;
    master_key = refl;
    decrypt_ctx = refl;
    bw_client = refl;
    backend = refl;
    push_listener = refl;
    kdbx_vault = refl;
  }
  handle-IsSafe (sync_now answer now) d h =
      sync-IsSafe d.state.bw_client d.state.decrypt_ctx answer now d refl h
  handle-IsSafe (kdbx_create_item item) d h =
      with_vault-IsSafe d.kdbx_vault _ d refl h
        (λ v e. created-IsSafe (files.create_item item v) d e)
  handle-IsSafe (kdbx_update_item item) d h =
      with_vault-IsSafe d.kdbx_vault _ d refl h
        (λ v e. updated-IsSafe item (files.update_item item v) d e)
  handle-IsSafe (kdbx_delete_item id) d h =
      with_vault-IsSafe d.kdbx_vault _ d refl h (λ v e. unlocked-IsSafe d e)

  removed-IsSafe :
      (b : Bool) (id : ℕ) (d : Daemon Kdbx)
      → IsSafeWhen b d.state d.kdbx_vault
      → IsSafeWhen b (remove_item id d).state d.kdbx_vault
  removed-IsSafe false id d h = tt
  removed-IsSafe true id d h = record {
    items = ap (remove id) h.items;
    folders = h.folders;
    master_key = h.master_key;
    decrypt_ctx = h.decrypt_ctx;
    bw_client = h.bw_client;
    backend = h.backend;
    push_listener = h.push_listener;
    kdbx_vault = h.kdbx_vault;
  }

  Reach-IsSafe : {d : Daemon Kdbx} → Reach files d → IsSafe d
  Reach-IsSafe start = record {
    items = refl;
    folders = refl;
    master_key = refl;
    decrypt_ctx = refl;
    bw_client = refl;
    backend = refl;
    push_listener = refl;
    kdbx_vault = refl;
  }
  Reach-IsSafe (handled m {d} r) = handle-IsSafe m d (Reach-IsSafe r)
  Reach-IsSafe (stored item {d} r e) = unlocked-IsSafe (store_item item d) e
  Reach-IsSafe (removed id {d} r) = removed-IsSafe d.state.locked id d (Reach-IsSafe r)

-- Whatever messages the daemon handles, with whatever answers of the server and of the files, in any
-- order, and whenever commands remove an item, or store one while the vault is unlocked: when the vault
-- is locked, the daemon keeps no item, no folder, no key, no client with its tokens, no backend, no
-- handle of a listener and no open file.
pub Reach-IsEmpty :
    {Kdbx : Type 0} (files : Files Kdbx) (d : Daemon Kdbx)
    → Reach files d
    → d.state.locked ≡ true
    → IsEmpty d.state d.kdbx_vault
Reach-IsEmpty files d r e = emptied d.state.locked d.state d.kdbx_vault e (Reach-IsSafe files r)
