-- ===== src/Browser.antt =====
-- libs/browser: the shared fleet of browsers that agents and a human take turns to drive.
pub mod Control
pub mod Ownership
pub mod Operations
pub mod Trace
pub mod Fleet
