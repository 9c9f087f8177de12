-- ===== src/Interop.antt =====
-- The package interop: the admission of bridge channels, and the signed artifacts of a chat.
pub mod Channel
pub mod Chat
