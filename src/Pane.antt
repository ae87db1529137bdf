-- ===== src/Pane.antt =====
-- The capture of a terminal's screen, sent to a client as a difference
-- (internal/pane/delta.go, with its callers on the server and on the client).
pub mod Hash
pub mod Delta
pub mod Poll
mod Tests
