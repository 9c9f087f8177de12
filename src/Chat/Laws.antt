-- ===== src/Chat/Laws.antt =====
-- What a chat guarantees: of acceptances, of revocation, of its messages, and over its life.
pub mod Accept
pub mod Admit
pub mod Log
pub mod Outside
pub mod Revoke
pub mod Frame
pub mod Sound
pub mod Ledger
pub mod Life
pub mod Proof
