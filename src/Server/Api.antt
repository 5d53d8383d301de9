-- ===== src/Server/Api.antt =====
-- server/src/api: the handlers.
pub mod Authenticator
pub mod ProtectedActions
pub mod AuthRequests
pub mod Folders
pub mod Ciphers
pub mod Attachments
pub mod Email
pub mod TwoFactor
pub mod Accounts
pub mod Identity
