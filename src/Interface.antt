-- ===== src/Interface.antt =====
-- apps/system_interface/imbue/system_interface: the server behind the workspace UI.
pub mod Broadcaster
pub mod EventQueues
pub mod Layouts
pub mod Mutex
pub mod Terminals
pub mod Activity
pub mod ClientActivity
mod Examples
