-- ===== src/Todo/Types.antt =====
-- internal/domain/todo.go. A `TodoState` or `TodoAuthor` is a Go string: `other` and
-- `other_author` are the strings that are none of the constants. A time is its nanoseconds, the zero time 0.
use aiman.Base.{
  ℕ, ◌≡◌, ◌↔◌, Bool, true, false, List, Option, none, String, str_eq, str_eq_iff, if◌then◌else◌,
  arith,
}

pub data TodoState : Type 0 where
  pending active done dropped : TodoState
  other : String → TodoState

-- `TodoState.Valid`.
abbrev pub is_valid : TodoState → Bool
is_valid (other s) = false
is_valid _ = true

abbrev pub state_eq : TodoState → TodoState → Bool
state_eq pending pending = true
state_eq active active = true
state_eq done done = true
state_eq dropped dropped = true
state_eq (other s) (other t) = str_eq s t
state_eq _ _ = false

pub state_eq_iff : (a b : TodoState) → (state_eq a b ≡ true) ↔ (a ≡ b)
state_eq_iff (other s) (other t) = ground (arith, str_eq_iff s t)
state_eq_iff pending _ = ground arith
state_eq_iff _ _ = ground arith

-- `it.State == TodoPending || it.State == TodoActive`.
abbrev pub is_open : TodoState → Bool
is_open pending = true
is_open active = true
is_open _ = false

abbrev pub is_active : TodoState → Bool
is_active active = true
is_active _ = false

abbrev pub is_done : TodoState → Bool
is_done done = true
is_done _ = false

abbrev pub is_dropped : TodoState → Bool
is_dropped dropped = true
is_dropped _ = false

pub data TodoAuthor : Type 0 where
  author_user author_agent author_aiman author_verifier : TodoAuthor
  other_author : String → TodoAuthor

abbrev pub is_agent : TodoAuthor → Bool
is_agent author_agent = true
is_agent _ = false

pub record SnapshotView : Type 0 where
  pub text : String
  pub state : TodoState

pub record TodoItem : Type 0 where
  pub id : String
  pub text : String
  pub state : TodoState
  pub updated_by : TodoAuthor
  pub updated_at : ℕ
  pub ref : String
  pub seen : Option SnapshotView

pub record TodoList : Type 0 where
  pub session_id : String
  pub items : List TodoItem
  pub rev : ℕ
  pub updated_at : ℕ
  pub not_in_agent : List String

pub record TodoSnapshotItem : Type 0 where
  pub text : String
  pub status : TodoState

-- An item as a literal of the source gives it: with a text, a state and a link.
abbrev pub new_item : String → TodoState → String → TodoItem
new_item text state ref = record {
  id = "";
  text = text;
  state = state;
  updated_by = other_author "";
  updated_at = 0;
  ref = ref;
  seen = none;
}

-- The item is named `id`.
abbrev pub has_id : String → TodoItem → Bool
has_id id it = str_eq it.id id

-- `NormalizeVendorTodoStatus`; the argument is the status as the agent reports it.
unfoldable pub normalize_vendor_todo_status : TodoState → TodoState
normalize_vendor_todo_status (other s) =
    if str_eq s "in_progress"
    then active
    else if str_eq s "completed"
    then done
    else if str_eq s "cancelled"
    then dropped
    else pending
normalize_vendor_todo_status st = st
