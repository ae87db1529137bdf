-- ===== src/Notify/Recorder.antt =====
-- `Recorder` of internal/notify/recorder.go: one observation of a session, and a forced event.
pub mod Transitions
use aiman.Base.{
  ℕ, Bool, true, false, not, ◌&&◌, List, [], ◌∷◌, Option, none, some, String, str_eq, if◌then◌else◌,
}
use aiman.Base.Text.{Bytes, codes}
use aiman.Notify.Kinds.{
  NotifyKind, waiting_input, ended, error, kind_eq, AgentState, idle, waiting_for_input, errored,
  exited, Notification,
}
use aiman.Notify.Text.{format, is_empty}

pub record Observation : Type 0 where
  pub session_id : String
  pub label : Bytes
  pub state : AgentState
  pub confident : Bool
  pub is_ended : Bool
  pub asking : Bool
  pub reason : Bytes
  pub question : Bytes

-- A settings file without `Events` has none on.
pub record Settings : Type 0 where
  pub events : NotifyKind → Bool
  pub min_interval : ℕ
  pub host : Bytes

abbrev pub reason_asked_question : Bytes
reason_asked_question = codes "asked a question"

-- The kind `""` is `none`.
unfoldable pub derive : Observation → Option NotifyKind × Bytes
unfolding is_empty
derive o =
    if o.is_ended then (some ended, []) else if not o.confident then (none, []) else elim o.state [
      | exited ↦ (some ended, [])
      | errored ↦ (some error, [])
      | waiting_for_input ↦
          (some waiting_input, if is_empty o.question then o.reason else o.question)
      | idle ↦ if o.asking then (some waiting_input, reason_asked_question) else (none, [])
      | _ ↦ (none, [])
    ]

-- What the notification store answered: an error, not due yet, or the stored row.
pub data Appended : Type 0 where
  append_failed not_due : Appended
  appended : Notification → Appended

-- The map `last`; the outer `none` is a session that was not seen.
abbrev pub Last : Type 0
Last = String → Option (Option NotifyKind)

abbrev pub remember : String → Option NotifyKind → Last → Last
remember id kind last k = if str_eq k id then some kind else last k

-- The calls out of the recorder, in their order; a recorder without a publisher drops the second.
pub data Call : Type 0 where
  append_if_due : Notification → ℕ → Call
  publish : String → NotifyKind → Call

pub record Outcome : Type 0 where
  pub last : Last
  pub calls : List Call
  pub is_error : Bool

abbrev pub opt_kind_eq : Option NotifyKind → Option NotifyKind → Bool
opt_kind_eq none none = true
opt_kind_eq (some a) (some b) = kind_eq a b
opt_kind_eq _ _ = false

-- The store gives the row its number.
abbrev pub row : Settings → String → Bytes → NotifyKind → Bytes → ℕ → Notification
row s id label kind detail now = record {
  seq = 0;
  session_id = id;
  kind = kind;
  label = label;
  host = s.host;
  text = format label s.host kind detail;
  at = now;
}

-- The end of `Observe` and of `Emit`: `kept` is the map after a row that is due.
unfoldable pub append : Appended → Notification → ℕ → String → Last → Last → Outcome
append append_failed n interval id last kept = record {
  last = last;
  calls = append_if_due n interval ∷ [];
  is_error = true;
}
append not_due n interval id last kept = record {
  last = last;
  calls = append_if_due n interval ∷ [];
  is_error = false;
}
append (appended m) n interval id last kept = record {
  last = kept;
  calls = append_if_due n interval ∷ publish id m.kind ∷ [];
  is_error = false;
}

abbrev quiet : Last → Outcome
quiet last = record { last = last; calls = []; is_error = false }

unfoldable pub changed :
    Settings → Observation → ℕ → Appended → Last → Option NotifyKind × Bytes → Outcome
unfolding append
changed s o now answer last (none, detail) = quiet (remember o.session_id none last)
changed s o now answer last (some kind, detail) =
    let kept = remember o.session_id (some kind) last in
    if not (s.events kind)
    then quiet kept
    else append answer (row s o.session_id o.label kind detail now) s.min_interval o.session_id last
        kept

-- The code gives up its lock around the call of the store; one loop calls it, so it is one step here.
unfoldable pub observe : Settings → Observation → ℕ → Appended → Last → Outcome
unfolding changed
observe s o now answer last = elim (last o.session_id) [
  | none ↦ quiet (remember o.session_id (derive o).0 last)
  | some prev ↦
      if opt_kind_eq (derive o).0 prev then quiet last else changed s o now answer last (derive o)
]

unfoldable pub emit : Settings → String → Bytes → NotifyKind → Bytes → ℕ → Appended → Last → Outcome
unfolding append
emit s id label kind detail now answer last =
    if not (s.events kind)
    then quiet last
    else append answer (row s id label kind detail now) (if str_eq id "" then 0 else s.min_interval)
        id last last

unfoldable pub forget : String → Last → Last
forget id last k = if str_eq k id then none else last k
