-- ===== src/Notify/Kinds.antt =====
-- The kinds of notification of internal/domain/notification.go, and the states of an agent of
-- internal/domain/intelligence.go.
use aiman.Base.{ℕ, Bool, true, false, String}
use aiman.Base.Text.{Bytes}

pub data NotifyKind : Type 0 where
  waiting_input ended error ci_escalation review_done agent_update : NotifyKind

abbrev pub kind_eq : NotifyKind → NotifyKind → Bool
kind_eq waiting_input waiting_input = true
kind_eq ended ended = true
kind_eq error error = true
kind_eq ci_escalation ci_escalation = true
kind_eq review_done review_done = true
kind_eq agent_update agent_update = true
kind_eq _ _ = false

unfoldable pub event_label : NotifyKind → String
event_label waiting_input = "waiting for input"
event_label ended = "ended"
event_label error = "error"
event_label ci_escalation = "CI needs you"
event_label review_done = "review done"
event_label agent_update = "agent update"

pub data AgentState : Type 0 where
  idle working waiting_for_input waiting_background errored exited : AgentState

pub record Notification : Type 0 where
  pub seq : ℕ
  pub session_id : String
  pub kind : NotifyKind
  pub label : Bytes
  pub host : Bytes
  pub text : Bytes
  pub at : ℕ
