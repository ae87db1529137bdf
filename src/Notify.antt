-- ===== src/Notify.antt =====
-- Notifications (internal/domain/notification.go and internal/notify).
pub mod Kinds
pub mod Text
pub mod Recorder
pub mod Dispatch
mod Tests
