-- ===== src/Client/Daemon/Tests.antt =====
-- Runs of the daemon with a file of one item, and the theorems at concrete inputs.
use umewarden.Prelude.{◌+◌, ◌≡◌, refl, true, false, none, some, List, [], ◌∷◌, ◌++◌, replicate}
use umewarden.Prelude.Int.{pos}
use umewarden.Prelude.Text.{codes}
use umewarden.Client.Model.{VaultItem, secure_note}
use umewarden.Client.Daemon.{ok, BitwardenClient, get}
use umewarden.Client.Daemon.Handlers.{
  Files, Answers, Daemon, unlock, lock_now, handle, started, store_item, kdbx_file, vaultwarden_at,
}
use umewarden.Client.Daemon.Reads.{extract_domain}
use umewarden.Client.Daemon.Timer.{second, reset, locks, locks_lem}
use umewarden.Client.Daemon.Timer
use umewarden.Client.Daemon.Safe.{Reach, handled, IsEmpty, Reach-IsEmpty}

abbrev note : VaultItem
note = record {
  id = 7;
  name = codes "note";
  kind = secure_note;
  favorite = false;
  folder_id = none;
  created_at = pos 0;
  updated_at = pos 0;
  fields = [];
  notes = none;
}

-- a file is the list of its items
abbrev files : Files (List VaultItem)
files = record {
  list_items = λ f. ok f;
  list_folders = λ f. ok [];
  create_item = λ item f. (item ∷ f, ok item);
  update_item = λ item f. (f, ok tt);
}

abbrev client : BitwardenClient
client = record {
  base_url = codes "https://v";
  session = some (record {
    access_token = codes "a";
    refresh_token = codes "r";
    token_type = codes "Bearer";
    expires_in = 3600;
  });
}

abbrev answers : Answers (List VaultItem)
answers = record {
  config = ok (kdbx_file (codes "f"));
  device_id = ok (codes "d");
  client = ok client;
  login = ok (
    client,
    record {
      session = record {
        access_token = codes "a";
        refresh_token = codes "r";
        token_type = codes "Bearer";
        expires_in = 3600;
      };
      decrypt_ctx = record { enc_key = []; mac_key = [] };
    },
  );
  sync = ok (record { ciphers = ok note ∷ []; folders = [] });
  opened = ok (note ∷ []);
}

abbrev online : Answers (List VaultItem)
online = record answers { config = ok (vaultwarden_at (codes "https://v") (codes "me")) }

abbrev locked_again : Daemon (List VaultItem)
locked_again = handle files lock_now (handle files (unlock online) started)

unlocked_items : get 7 (handle files (unlock online) started).state.items ≡ some note
unfolding handle
unlocked_items = refl

-- A command that began before the lock and ends after it leaves its item in the locked vault.
stored_late :
    ((store_item note locked_again).state.locked ≡ true)
    × (get 7 (store_item note locked_again).state.items ≡ some note)
unfolding handle
stored_late = (refl, refl)

-- Of two listeners, a lock aborts the second only.
listener_left :
    (handle files lock_now
      (handle files (unlock online) (handle files (unlock online) started))).running
    ≡ 0 ∷ []
unfolding handle
listener_left = refl

Reach-IsEmpty_example : IsEmpty locked_again.state locked_again.kdbx_vault
unfolding handle
Reach-IsEmpty_example =
    Reach-IsEmpty files locked_again (handled lock_now (handled (unlock online) Reach.start)) refl

locks_lem_example :
    (locks 300 (Timer.start 300) (replicate 900 second) ≡ 1)
    × (locks 300 (Timer.start 300) ((second ∷ reset ∷ []) ++ reset ∷ replicate 900 second)
        ≡ locks 300 (Timer.start 300) (second ∷ reset ∷ []) + 1)
locks_lem_example = locks_lem 299 900 (second ∷ reset ∷ [])

uri_domain : extract_domain (codes "https://mail.example/inbox?x") ≡ codes "mail.example"
unfolding extract_domain
uri_domain = refl
