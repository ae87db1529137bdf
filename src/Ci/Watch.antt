-- ===== src/Ci/Watch.antt =====
-- internal/ciwatch: watcher.go, checks.go and comments.go, for the polls of one session. A call of the
-- store, the to-dos or the notifier may fail: `fails n` says so of the n-th call, and `now n` is its time.
use aiman.Base.{
  ℕ, ◌+◌, Bool, true, false, not, ◌&&◌, ◌||◌, List, [], ◌∷◌, ◌++◌, Option, none, some, String,
  str_eq, ltb, if◌then◌else◌,
}
use aiman.Base.Text.{Bytes}
use aiman.Base.Itoa.{itoa}
use aiman.Todo.Types.{TodoItem, pending, done, is_open, author_aiman, new_item}
use aiman.Todo.Normalize.{Unicode}
use aiman.Todo.Store.{items_of, FileData, Disk, Result, ok, err, load}
use aiman.Todo.Update.{mutate}
use aiman.Ci.{conclusion_success, conclusion_failure, Check, PrView, ReviewComment}
use aiman.Ci.Tables.{
  Failure, store_failed, notify_failed, todos_unavailable, todos_failed, Tables, insert_failure,
  count_failures, mark_check_escalated, clear_check,
}
use aiman.Ci.Text.{Encoding, say, ◌<>◌, check_ref, check_note}

abbrev pub max_fix_attempts : ℕ
max_fix_attempts = 3

-- The fields of `Session` that the watch reads.
pub record Session : Type 0 where
  pub id : String
  pub watch_pr : String
  pub mode : String
  pub status : String
  pub agent_ended : Bool
  pub worktree_path : String
  pub working_directory : String
  pub created_at : ℕ

-- `WatchesPR`
unfoldable pub watches_pr : Session → Bool
watches_pr s =
    if str_eq s.watch_pr "on"
    then true
    else if str_eq s.watch_pr "off"
    then false
    else str_eq s.mode "AUTONOMOUS"

unfoldable pub session_dir : Session → String
session_dir s = if str_eq s.worktree_path "" then s.working_directory else s.worktree_path

unfoldable pub watched : Session → Bool
unfolding watches_pr session_dir
watched s =
    watches_pr s && str_eq s.status "ACTIVE" && not s.agent_ended && not (str_eq (session_dir s) "")

-- An `Emit` for a check.
pub record Escalation : Type 0 where
  pub check : String
  pub detail : Bytes

-- What the polls read and change; `notes` are the texts steered to the agent, the newest first.
pub record World : Type 0 where
  pub tables : Tables
  pub disk : Disk
  pub notes : List Bytes
  pub emitted : List Escalation
  pub viewer : String
  pub calls : ℕ

pub record Outside : Type 0 where
  pub unicode : Unicode
  pub encoding : Encoding
  pub fails : ℕ → Bool
  pub now : ℕ → ℕ
  pub has_notifier : Bool

-- What GitHub answers in one poll.
pub data ViewAnswer : Type 0 where
  no_pr view_failed : ViewAnswer
  view : PrView → ViewAnswer

pub record Answers : Type 0 where
  pub pr_view : ViewAnswer
  pub job_log : ℕ → Option Bytes
  pub login : Option String
  pub comments : Option (List ReviewComment)

pub data Outcome (A : Type 0) : Type 0 where
  returns : A → Outcome A
  fails_with : Failure → Outcome A

abbrev pub Step : Type 0 → Type 0
Step A = World → Outcome A × World

abbrev pub continue : {A B : Type 0} → Outcome A × World → (A → Step B) → Outcome B × World
continue (returns a, w) next = next a w
continue (fails_with e, w) next = (fails_with e, w)

infixl 5 ◌>>=◌
abbrev pub ◌>>=◌ : {A B : Type 0} → Step A → (A → Step B) → Step B
(step >>= next) w = continue (step w) next

infixl 5 ◌>>◌
abbrev pub ◌>>◌ : {A B : Type 0} → Step A → Step B → Step B
(step >> next) w = continue (step w) (λ _. next)

abbrev pub give : {A : Type 0} → A → Step A
give a w = (returns a, w)

abbrev pub edit : (World → World) → Step (Unit {0})
edit f w = (returns tt, f w)

abbrev pub ask : {A : Type 0} → (World → A) → Step A
ask f w = (returns (f w), w)

-- `openTodoByRef`: the id of the first open item with the link.
unfoldable pub open_todo_by_ref : String → List TodoItem → Option String
open_todo_by_ref ref [] = none
open_todo_by_ref ref (it ∷ items) =
    if str_eq it.ref ref && is_open it.state then some it.id else open_todo_by_ref ref items

abbrev pub is_some : Option String → Bool
is_some none = false
is_some (some _) = true

unfoldable pub close_open : String → List TodoItem → List TodoItem
close_open ref [] = []
close_open ref (it ∷ items) =
    (if str_eq it.ref ref && is_open it.state then record it { state = done } else it)
    ∷ close_open ref items

-- The closure that adds an item unless one is open.
unfoldable pub append_unless_open : String → String → List TodoItem → List TodoItem
unfolding open_todo_by_ref
append_unless_open ref text items =
    if is_some (open_todo_by_ref ref items) then items else items ++ new_item text pending ref ∷ []

-- The items of the file as a call reads them.
abbrev pub items_on : String → Disk → List TodoItem
items_on id disk = items_of (load id disk)

abbrev pub list_in : Result FileData → Outcome (List TodoItem)
list_in (ok d) = returns d.list.items
list_in (err e) = fails_with (todos_failed e)

abbrev pub id_of : Option String → String
id_of none = ""
id_of (some id) = id

module _ (o : Outside) (s : Session) where
  -- One call from outside: it fails, or it goes on.
  unfoldable pub call : Failure → Step (Unit {0})
  call f w =
      let next = record w { calls = w.calls + 1 } in
      if o.fails w.calls then (fails_with f, next) else (returns tt, next)

  -- `Todos.Get`
  unfoldable pub get_todos : Step (List TodoItem)
  unfolding call
  get_todos = call todos_unavailable >> (λ w. (list_in (load s.id w.disk), w))

  -- `Todos.Mutate` as aiman.
  unfoldable pub mutate_todos : (List TodoItem → List TodoItem) → Step (Unit {0})
  unfolding call
  mutate_todos fn = call todos_unavailable >> (λ w.
      let (reply, disk) =
        mutate o.unicode s.id author_aiman (λ l. ok (record l { items = fn l.items }))
          (o.now w.calls) (not (o.fails w.calls)) w.disk in
      let next = record w { disk = disk; calls = w.calls + 1 } in
      elim reply [ ok r ↦ (returns tt, next) | err e ↦ (fails_with (todos_failed e), next) ])

  -- Whether the closure would add its item, and the call that runs it.
  unfoldable pub add_todo : String → String → Step Bool
  unfolding mutate_todos append_unless_open open_todo_by_ref
  add_todo ref text =
      ask (λ w. not (is_some (open_todo_by_ref ref (items_on s.id w.disk))))
      >>= (λ added. mutate_todos (append_unless_open ref text) >> give added)

  -- The note on an item that was just added.
  unfoldable pub steer_for : String → (String → Bytes) → Step (Unit {0})
  unfolding get_todos
  steer_for ref note = get_todos >>= (λ items.
      edit (λ w. record w { notes = note (id_of (open_todo_by_ref ref items)) ∷ w.notes }))

  unfoldable pub close_todo : String → Step (Unit {0})
  unfolding get_todos mutate_todos close_open
  close_todo ref = get_todos >>= (λ items.
      if is_some (open_todo_by_ref ref items) then mutate_todos (close_open ref) else give tt)

  abbrev pub on_tables : (Tables → Tables) → Step (Unit {0})
  on_tables f = edit (λ w. record w { tables = f w.tables })

  unfoldable pub check_passed : Check → Step (Unit {0})
  unfolding call close_todo
  check_passed c =
      call store_failed >> on_tables (clear_check s.id c.name) >> close_todo (check_ref c.name)

  -- `RecordCheckFailure`: two statements.
  unfoldable pub record_check_failure : String → String → Step ℕ
  unfolding call
  record_check_failure check sha =
      call store_failed
      >> on_tables (λ t. record t { failures = insert_failure s.id check sha t.failures })
      >> call store_failed
      >> ask (λ w. count_failures s.id check w.tables.failures)

  -- The insertion, and the count of its rows.
  unfoldable pub mark_escalated : String → Step Bool
  unfolding call mark_check_escalated
  mark_escalated check =
      call store_failed
      >> (λ w.
          let (rows, fresh) = mark_check_escalated s.id check w.tables.escalations in
          (returns fresh, record w { tables = record (w.tables) { escalations = rows } }))
      >>= (λ fresh. call store_failed >> give fresh)

  abbrev pub escalation : PrView → Check → Escalation
  escalation pr c = record {
    check = c.name;
    detail = say o.encoding (
        "CI check "
        <> c.name
        <> " still failing after "
        <> itoa max_fix_attempts
        <> " fix attempts on PR #"
        <> itoa pr.number);
  }

  unfoldable pub escalate : PrView → Check → Step (Unit {0})
  unfolding call mark_escalated
  escalate pr c = mark_escalated c.name >>= (λ fresh.
      if not fresh || not o.has_notifier
      then give tt
      else edit (λ w. record w { emitted = escalation pr c ∷ w.emitted }) >> call notify_failed)

  -- The part of `checkFailed` for a check that may be tried again.
  unfoldable pub ask_to_fix : Answers → PrView → Check → Step (Unit {0})
  unfolding get_todos add_todo steer_for
  ask_to_fix a pr c = get_todos >>= (λ items.
      if is_some (open_todo_by_ref (check_ref c.name) items)
      then give tt
      else add_todo (check_ref c.name) ("Fix CI: " <> c.name) >>= (λ added.
        if added
        then steer_for (check_ref c.name) (check_note o.encoding a.job_log pr c)
        else give tt))

  unfoldable pub check_failed : Answers → PrView → Check → Step (Unit {0})
  unfolding record_check_failure escalate ask_to_fix
  check_failed a pr c =
      record_check_failure c.name pr.head_sha
      >>= (λ n. if ltb max_fix_attempts n then escalate pr c else ask_to_fix a pr c)

  unfoldable pub react_to_check : Answers → PrView → Check → Step (Unit {0})
  unfolding check_passed check_failed
  react_to_check a pr c = elim c.conclusion [
    | conclusion_success ↦ check_passed c
    | conclusion_failure ↦ check_failed a pr c
    | _ ↦ give tt
  ]

  unfoldable pub react_to_checks : Answers → PrView → List Check → Step (Unit {0})
  unfolding react_to_check
  react_to_checks a pr [] = give tt
  react_to_checks a pr (c ∷ checks) = react_to_check a pr c >> react_to_checks a pr checks
