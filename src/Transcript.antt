-- ===== src/Transcript.antt =====
-- The chat transcript of apps/system_interface/imbue/system_interface: how the lines of a session
-- file are cut, parsed into events, indexed and paged.
pub mod Lines
pub mod Index
pub mod Paging
pub mod Event
pub mod Texts
pub mod Parser
pub mod UserMessages
pub mod Records
pub mod Watcher
pub mod Refresh
pub mod Requests
pub mod Serving
pub mod Stalls
mod Examples
