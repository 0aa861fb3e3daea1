-- ===== src/Oom.antt =====
-- libs/oom_priority and its users: which process is shed first when memory runs out.
pub mod Bands
pub mod Chats
pub mod Ledger
pub mod Retag
mod Examples
