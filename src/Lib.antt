-- ===== src/Lib.antt =====
-- umewarden: a password server in Rust (server/) and a desktop client (client/src-tauri/).
--
-- The server keeps its users, their second factors and their vaults in tables, and answers requests:
-- a handler of server/src/api checks its input, reads and writes rows through the models of
-- server/src/db/models, and returns. The client derives keys from the password, reads the encrypted
-- strings that the server stores with them, and generates passwords and time-based codes.
--
-- Server.Db: the rows of server/src/db/models and the database they stand in. A handler is a function
--   from the database to a result and the database that it leaves (`M`); `query` reads, and `execute`
--   is one writing statement. SQLite is not part of the repository: a query returns the rows that its
--   filters let through, and the tape `faults` says which of the next statements fail. A statement
--   that fails changes no row, and what was written before it stays.
-- Server.Models.TwoFactor, AuthRequest and TwoFactorIncomplete: the statements of
--   server/src/db/models/two_factor.rs, auth_request.rs and two_factor_incomplete.rs under their names
--   there. TwoFactor's `Keys` and `Map` are about the table as a map from a user and a type to a row.
-- Server.Models.User: user.rs of the same directory, with `retry` of server/src/util.rs: rows,
--   revisions, invitations. `Password` has passwords, stamps and API keys, `Account` the deletion of an
--   account; `Laws` and `Renew` are about what is saved and about a new password, and `Samples` has a
--   user for tests. Server.Models.Device: device.rs; `Rotate` is about new refresh tokens,
--   and `Tries` about how often a device is tried to be saved.
-- Server.Models.Favorite, Archive and Folder: favorite.rs, archive.rs and folder.rs.
-- Server.Api.Folders: server/src/api/core/folders.rs.
-- Server.Keeps: which parts of a handler keep a property of the database.
-- Server.Json: JSON values, and the renaming of their keys in server/src/util.rs.
-- Server.Models.Attachment and Cipher: attachment.rs and cipher.rs of server/src/db/models. `Shown` is
--   what `to_json` makes of the JSON texts of a row, `Json` the answer and the maps of a full sync;
--   `Fields`, `Uris` and `Readable` are about `Shown`, `Sync` about `Json`, `Stored` about statements.
-- Server.Api.Ciphers: server/src/api/core/ciphers.rs. `Edit` has the routes that read, create, change
--   and share, `Remove` those that delete, restore, archive and move, `Import` the one that imports, and
--   `Requests` is one of them at a time. `Stored`, `Found`, `EditKeeps`, `RemoveKeeps`, `ImportKeeps`
--   and `Isolation` are about the ciphers of others, `Moves` and `Placed` about the moves of a
--   selection.
-- Server.Auth: server/src/auth.rs: the tokens of a session. `Claims` has the other tokens, and `Guard`
--   the check that every request with a session passes.
-- Server.Api.Identity: server/src/api/identity.rs. `Second` is the second step of a login, `Login` the
--   logins by password and API key, `Token` the refresh and the route for all of them; `FactorSound`,
--   `SecondSound`, `HolderSound`, `PrimarySound` and `Sound` are about what a login by password has
--   checked, and `Samples` has a server and a user for tests. A login calls Server.Auth,
--   the second factors below, and `kdf_upgrade` of Server.Api.Accounts.
-- Server.Api.Accounts: server/src/api/core/accounts.rs, less the login with a device. `Register` has
--   the registration, `Change` new passwords, key derivations and addresses, `Removal` the deletion;
--   `Sessions` and `Address` are about what a change leaves of sessions and logins.
-- Server.Api.TwoFactor: server/src/api/core/two_factor/mod.rs.
-- Server.Api.Email: server/src/api/core/two_factor/email.rs. `Guesses` and `Machine` are about
--   sequences of codes, `Obscure` has the address as it is shown.
-- Server.Api.Authenticator: validate_totp_code of server/src/api/core/two_factor/authenticator.rs.
--   `try_steps` is its loop over the window of time steps.
-- Server.Api.ProtectedActions: server/src/api/core/two_factor/protected_actions.rs, and the choice of
--   server/src/api/mod.rs between a password and a one-time password. `Guesses` is about wrong
--   guesses, `Reuse` about accepted passwords and new ones.
-- Server.Api.AuthRequests: the login with a device in server/src/api/core/accounts.rs. `Flow` is about
--   one request and its answer, `Sound` about all databases that sequences of calls reach.
-- Server.Api.Attachments: the uploads of the same file. `Limit` is about the limit alone, `Total` about
--   all that a user stores; Server.Ensures has the rules by which what a handler returns is followed.
-- Client: the errors of client/src-tauri/src/error.rs, and outcomes that may be a panic.
-- Client.Totp: client/src-tauri/src/crypto/totp.rs.
-- Client.Keys: client/src-tauri/src/crypto/keys.rs: encrypted strings, and in `Chain` the keys.
-- Client.Generator: generate_password of client/src-tauri/src/commands/generator.rs.
-- Client.Model: client/src-tauri/src/model.rs.
-- Client.Daemon: client/src-tauri/src/daemon/state.rs, with mod.rs and the full sync of
--   client/src-tauri/src/bitwarden/sync.rs in `Handlers` and timer.rs in `Timer`. A message carries
--   what the network and the files answer to it; what commands/vault.rs writes into the shared state
--   are steps of their own. `Reads` is what commands and autofill read, and `Safe` is about a locked
--   vault.
-- Prelude: lists, integers and text over native numbers.
--
-- Numbers and bounds. Identifiers are only compared by the code, and are numbers. Times are whole
-- seconds since the Unix epoch, and one request reads the clock once (`now`). Machine integers wrap
-- around as in a release build where the code computes with them (u32 powers and products, usize
-- sums), and `saturating_add` saturates. Loops are structural recursion on the list or the count that
-- they run over. The only fuel is that of `decimal_fuel`, ten digits for numbers of 32 bits and less,
-- which have ten digits at most.
--
-- Parameters. Crates and services are arguments: HMAC, AES, base64, HKDF, PBKDF2, Argon2, the TOTP
-- and JSON crates, random numbers, Unicode's case tables, the configuration and the mailer. What the
-- code relies on of them are named hypotheses (`IsBase64`, `IsCipher`, `IsCodec`, `IsPbkdf2`,
-- `IsStampCodec`, and those of the modules), each with a concrete instance in the tests. The library
-- that signs and reads tokens is a parameter of which nothing is relied on, and so are the second
-- factors of other services, the pushed messages about devices, and the limiter of logins.
--
-- Not modelled: the web framework, the guards of the administrator and of organizations, the rotation
-- of a user's keys, single sign-on, the second factors that outside services check, the messages pushed to other clients, logging, mail
-- texts, the JSON that the answers are printed as, and the parts of the program that are not listed
-- above.
pub mod Client
pub mod Prelude
pub mod Server
