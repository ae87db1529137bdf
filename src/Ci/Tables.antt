-- ===== src/Ci/Tables.antt =====
-- internal/infra/sqlite/ci_state.go: the tables of the watch, each a list of its rows, and what the
-- statements do to them. `INSERT OR IGNORE` adds no second row under a primary key.
use aiman.Base.{
  ℕ, ◌+◌, Bool, true, false, ◌&&◌, ◌||◌, List, [], ◌∷◌, Option, none, String, str_eq, ◌==◌,
  if◌then◌else◌,
}
use aiman.Todo.Store.{StoreError}

-- A failing call, by the part that it belongs to; the error of a to-do write carries its own.
pub data Failure : Type 0 where
  store_failed github_failed notify_failed todos_unavailable no_directory : Failure
  todos_failed : StoreError → Failure

-- `PRWatchState`, without the view `Escalated` of the escalation rows; `none` is the empty error.
pub record PrWatchState : Type 0 where
  pub session : String
  pub pr_number : ℕ
  pub pr_state : String
  pub head_sha : String
  pub watch_since : ℕ
  pub last_polled_at : ℕ
  pub last_error : Option Failure

pub record FailureRow : Type 0 where
  pub session : String
  pub check : String
  pub sha : String

pub record EscalationRow : Type 0 where
  pub session : String
  pub check : String

pub record SeenRow : Type 0 where
  pub session : String
  pub comment : ℕ

pub record Tables : Type 0 where
  pub watches : List PrWatchState
  pub failures : List FailureRow
  pub escalations : List EscalationRow
  pub seen : List SeenRow

abbrev pub names_check : String → String → FailureRow → Bool
names_check session check r = str_eq r.session session && str_eq r.check check

unfoldable pub has_failure : String → String → String → List FailureRow → Bool
has_failure session check sha [] = false
has_failure session check sha (r ∷ rows) =
    names_check session check r && str_eq r.sha sha || has_failure session check sha rows

unfoldable pub insert_failure : String → String → String → List FailureRow → List FailureRow
unfolding has_failure
insert_failure session check sha rows =
    if has_failure session check sha rows
    then rows
    else record { session = session; check = check; sha = sha } ∷ rows

unfoldable pub count_failures : String → String → List FailureRow → ℕ
count_failures session check [] = 0
count_failures session check (r ∷ rows) =
    (if names_check session check r then 1 else 0) + count_failures session check rows

unfoldable pub delete_failures : String → String → List FailureRow → List FailureRow
delete_failures session check [] = []
delete_failures session check (r ∷ rows) =
    let rest = delete_failures session check rows in
    if names_check session check r then rest else r ∷ rest

unfoldable pub is_escalated : String → String → List EscalationRow → Bool
is_escalated session check [] = false
is_escalated session check (r ∷ rows) =
    str_eq r.session session && str_eq r.check check || is_escalated session check rows

-- `MarkCheckEscalated`: the rows, and whether the escalation is new.
unfoldable pub mark_check_escalated :
    String → String → List EscalationRow → List EscalationRow × Bool
unfolding is_escalated
mark_check_escalated session check rows =
    if is_escalated session check rows
    then (rows, false)
    else (record { session = session; check = check } ∷ rows, true)

unfoldable pub delete_escalations : String → String → List EscalationRow → List EscalationRow
delete_escalations session check [] = []
delete_escalations session check (r ∷ rows) =
    let rest = delete_escalations session check rows in
    if str_eq r.session session && str_eq r.check check then rest else r ∷ rest

unfoldable pub is_seen : String → ℕ → List SeenRow → Bool
is_seen session comment [] = false
is_seen session comment (r ∷ rows) =
    str_eq r.session session && r.comment == comment || is_seen session comment rows

unfoldable pub mark_seen : String → List ℕ → List SeenRow → List SeenRow
unfolding is_seen
mark_seen session [] rows = rows
mark_seen session (c ∷ ids) rows =
    mark_seen session ids
      (if is_seen session c rows then rows else record { session = session; comment = c } ∷ rows)

-- `LoadPRWatch`: the zero state where there is no row.
unfoldable pub load_watch : String → List PrWatchState → PrWatchState
load_watch session [] = record {
  session = session;
  pr_number = 0;
  pr_state = "";
  head_sha = "";
  watch_since = 0;
  last_polled_at = 0;
  last_error = none;
}
load_watch session (w ∷ rows) = if str_eq w.session session then w else load_watch session rows

-- `SavePRWatch`
unfoldable pub save_watch : PrWatchState → List PrWatchState → List PrWatchState
save_watch st [] = st ∷ []
save_watch st (w ∷ rows) = if str_eq w.session st.session then st ∷ rows else w ∷ save_watch st rows

-- `ClearCheck`
unfoldable pub clear_check : String → String → Tables → Tables
unfolding delete_failures delete_escalations
clear_check session check t = record t {
  failures = delete_failures session check t.failures;
  escalations = delete_escalations session check t.escalations;
}
