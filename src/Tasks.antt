-- ===== src/Tasks.antt =====
-- The commands of the task tracker `tk`, as the chat and its hooks read them.
pub mod Commands
mod Examples
