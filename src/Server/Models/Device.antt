-- ===== src/Server/Models/Device.antt =====
-- server/src/db/models/device.rs: the rows of the table devices, whose key is the pair of device and
-- user. The random tokens are arguments, and a push identifier is a number.
pub mod Rotate
pub mod Tries
mod Tests
use umewarden.Prelude.{
  ℕ, suc, Bool, true, false, not, ◌&&◌, ◌||◌, Option, none, some, List, [], ◌∷◌, map, filter, find,
  length, get_elem?, ltb, ◌==◌, if◌then◌else◌,
}
use umewarden.Prelude.Int.{ℤ, pos, negsuc}
use umewarden.Prelude.Text.{Text, text_eq, codes}
use umewarden.Server.Db.{
  AuthRequest, Device, Db, Result, ok, err, M, execute, query, pure, ◌>>=◌, ◌>>◌,
}
use umewarden.Server.Models.AuthRequest.{find_by_user_and_requested_device}
use umewarden.Server.Models.User.{retry}

-- `enum DeviceType`
pub data DeviceType : Type 0 where
  android ios chrome_extension firefox_extension opera_extension edge_extension : DeviceType
  windows_desktop mac_os_desktop linux_desktop chrome_browser firefox_browser : DeviceType
  opera_browser edge_browser ie_browser unknown_browser android_amazon uwp : DeviceType
  safari_browser vivaldi_browser vivaldi_extension safari_extension sdk server : DeviceType
  windows_cli mac_os_cli linux_cli duck_duck_go_browser : DeviceType

-- the device types in the order of their numbers
abbrev types : List DeviceType
types =
    android ∷ ios ∷ chrome_extension ∷ firefox_extension ∷ opera_extension ∷ edge_extension
    ∷ windows_desktop ∷ mac_os_desktop ∷ linux_desktop ∷ chrome_browser ∷ firefox_browser
    ∷ opera_browser ∷ edge_browser ∷ ie_browser ∷ unknown_browser ∷ android_amazon ∷ uwp
    ∷ safari_browser ∷ vivaldi_browser ∷ vivaldi_extension ∷ safari_extension ∷ sdk ∷ server
    ∷ windows_cli ∷ mac_os_cli ∷ linux_cli ∷ duck_duck_go_browser ∷ []

abbrev or_unknown : Option DeviceType → DeviceType
or_unknown none = unknown_browser
or_unknown (some t) = t

abbrev pub from_i32 : ℤ → DeviceType
from_i32 (pos n) = or_unknown (get_elem? types n)
from_i32 (negsuc n) = unknown_browser

abbrev is_mobile_type : DeviceType → Bool
is_mobile_type android = true
is_mobile_type ios = true
is_mobile_type _ = false

abbrev is_cli_type : DeviceType → Bool
is_cli_type windows_cli = true
is_cli_type mac_os_cli = true
is_cli_type linux_cli = true
is_cli_type _ = false

abbrev pub is_mobile : Device → Bool
is_mobile d = is_mobile_type (from_i32 d.atype)

abbrev pub is_push_device : Device → Bool
is_push_device d = is_mobile_type (from_i32 d.atype)

abbrev pub is_cli : Device → Bool
is_cli d = is_cli_type (from_i32 d.atype)

-- `Device::new`, at the time `now`, with the push identifier and the refresh token that were drawn
abbrev pub new : ℕ → ℕ → Text → ℕ → ℕ → Text → ℤ → Device
new now push_id refresh_token uuid user name atype = record {
  uuid = uuid;
  created_at = now;
  updated_at = now;
  user_uuid = user;
  name = name;
  atype = atype;
  push_uuid = some push_id;
  push_token = none;
  refresh_token = refresh_token;
  twofactor_remember = none;
}

abbrev pub is_new : Device → Bool
is_new d = d.created_at == d.updated_at

abbrev pub delete_twofactor_remember : Device → Device
delete_twofactor_remember d = record d { twofactor_remember = none }

abbrev pub is_key : ℕ → ℕ → Device → Bool
is_key uuid user x = x.uuid == uuid && x.user_uuid == user

-- `replace_into` deletes the row with the same key
abbrev pub put : Device → List Device → List Device
put d devices = d ∷ filter (λ x. not (is_key d.uuid d.user_uuid x)) devices

-- what `save` makes of the device
abbrev pub saved : ℕ → Bool → Device → Device
saved now update_time d = if update_time then record d { updated_at = now } else d

abbrev pub store : Device → M (Unit {0})
store d = retry (execute (λ db. record db { devices = put d db.devices })) 10

unfoldable pub save : ℕ → Bool → Device → M Device
unfolding execute retry
save now update_time d = do store (saved now update_time d); pure (saved now update_time d)

unfoldable pub delete_all_by_user : ℕ → M (Unit {0})
unfolding execute
delete_all_by_user user =
    execute (λ db. record db { devices = filter (λ x. not (x.user_uuid == user)) db.devices })

unfoldable pub find_by_uuid_and_user : ℕ → ℕ → Db → Option Device
find_by_uuid_and_user uuid user db = find (is_key uuid user) db.devices

unfoldable pub find_by_user : ℕ → Db → List Device
find_by_user user db = filter (λ x. x.user_uuid == user) db.devices

-- `DeviceWithAuthRequest`
pub record DeviceWithAuthRequest : Type 0 where
  pub device : Device
  pub pending_auth_request : Option AuthRequest

unfoldable pub find_with_auth_request_by_user : ℕ → Db → List DeviceWithAuthRequest
find_with_auth_request_by_user user db =
    map
      (λ (d : Device). record {
        device = d;
        pending_auth_request = find_by_user_and_requested_device user d.uuid db;
      })
      (find_by_user user db)

unfoldable pub find_by_uuid : ℕ → Db → Option Device
find_by_uuid uuid db = find (λ x. x.uuid == uuid) db.devices

unfoldable pub clear_push_token_by_uuid : ℕ → M (Unit {0})
unfolding execute
clear_push_token_by_uuid uuid = execute (λ db. record db {
  devices =
      map (λ (x : Device). if x.uuid == uuid then record x { push_token = none } else x) db.devices;
})

unfoldable pub find_by_refresh_token : Text → Db → Option Device
find_by_refresh_token token db = find (λ x. text_eq x.refresh_token token) db.devices

-- `order(updated_at.desc())` and `first`: the latest; of equally late ones, an earlier row
latest : Option Device → List Device → Option Device
latest best [] = best
latest none (x ∷ xs) = latest (some x) xs
latest (some b) (x ∷ xs) = latest (some (if ltb b.updated_at x.updated_at then x else b)) xs

unfoldable pub find_latest_active_by_user : ℕ → Db → Option Device
unfolding latest
find_latest_active_by_user user db = latest none (find_by_user user db)

abbrev is_some : Option Text → Bool
is_some none = false
is_some (some _) = true

unfoldable pub find_push_devices_by_user : ℕ → Db → List Device
find_push_devices_by_user user db =
    filter (λ x. x.user_uuid == user && is_some x.push_token) db.devices

unfoldable pub check_user_has_push_device : ℕ → Db → Bool
check_user_has_push_device user db = not (length (find_push_devices_by_user user db) == 0)

-- the loop of the rotation: `fresh i` is the i-th token that is drawn
unfoldable pub rotate_each : (ℕ → Text) → ℕ → ℕ → List Device → M (Unit {0})
rotate_each fresh i now [] = pure tt
rotate_each fresh i now (d ∷ ds) = do
  _ ← save now false (record d { refresh_token = fresh i })
  rotate_each fresh (suc i) now ds

unfoldable pub rotate_refresh_tokens_by_user : (ℕ → Text) → ℕ → ℕ → M (Unit {0})
rotate_refresh_tokens_by_user fresh now user = do
  devices ← query (find_by_user user)
  rotate_each fresh 0 now devices

-- `Display for DeviceType`
unfoldable pub to_string : DeviceType → Text
to_string android = codes "Android"
to_string ios = codes "iOS"
to_string chrome_extension = codes "Chrome Extension"
to_string firefox_extension = codes "Firefox Extension"
to_string opera_extension = codes "Opera Extension"
to_string edge_extension = codes "Edge Extension"
to_string windows_desktop = codes "Windows"
to_string mac_os_desktop = codes "macOS"
to_string linux_desktop = codes "Linux"
to_string chrome_browser = codes "Chrome"
to_string firefox_browser = codes "Firefox"
to_string opera_browser = codes "Opera"
to_string edge_browser = codes "Edge"
to_string ie_browser = codes "Internet Explorer"
to_string unknown_browser = codes "Unknown Browser"
to_string android_amazon = codes "Android"
to_string uwp = codes "UWP"
to_string safari_browser = codes "Safari"
to_string vivaldi_browser = codes "Vivaldi"
to_string vivaldi_extension = codes "Vivaldi Extension"
to_string safari_extension = codes "Safari Extension"
to_string sdk = codes "SDK"
to_string server = codes "Server"
to_string windows_cli = codes "Windows CLI"
to_string mac_os_cli = codes "macOS CLI"
to_string linux_cli = codes "Linux CLI"
to_string duck_duck_go_browser = codes "DuckDuckGo"
