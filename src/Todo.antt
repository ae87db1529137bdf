-- ===== src/Todo.antt =====
-- The to-do list of a session (internal/domain/todo.go and internal/todo).
pub mod Types
pub mod Ids
pub mod Done
pub mod Gate
pub mod Change
pub mod Normalize
pub mod Store
pub mod Stamp
pub mod Valid
pub mod Update
pub mod Mirror
pub mod Render
mod Tests
