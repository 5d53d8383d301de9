-- ===== src/Server/Models.antt =====
-- server/src/db/models: the statements of each table.
pub mod TwoFactor
pub mod AuthRequest
pub mod TwoFactorIncomplete
pub mod User
pub mod Device
pub mod Favorite
pub mod Archive
pub mod Folder
pub mod Attachment
pub mod Cipher
