-- ===== src/Todo/Update.antt =====
-- `Files.update` of internal/todo/store.go, on which `Mutate` and `Mirror` stand.
pub mod Checks
pub mod Active
pub mod Stamped
pub mod Invariant
pub mod Replies
pub mod Fresh
pub mod Counts
use aiman.Base.{
  ℕ, ◌+◌, Bool, true, false, ◌&&◌, List, [], ◌∷◌, Option, none, some, String, str_eq, if◌then◌else◌,
  list_eq,
}
use aiman.Todo.Types.{TodoItem, TodoAuthor, TodoList, is_agent}
use aiman.Todo.Ids.{ids}
use aiman.Todo.Done.{pin_done_last}
use aiman.Todo.Normalize.{Unicode}
use aiman.Todo.Change.{Op, Change, diff}
use aiman.Todo.Store.{
  FileData, StoreError, done_is_evidence_backed, write_failed, Result, ok, err, Disk, stored, load,
  carry_seen, done_ticked, validate, assign_ids, check_unique_ids, demote_extra_active,
}
use aiman.Todo.Stamp.{present_ids, seen_equal, stamp, add_tombstones, add_retexts}

pub data WriteSource : Type 0 where
  source_cli source_mirror : WriteSource

-- What a call returns beside its error: the list, and what changed.
pub record Reply : Type 0 where
  pub list : TodoList
  pub change : Change

abbrev pub Edit : Type 0
Edit = TodoList → FileData → ℕ → Result TodoList

-- An early return: what follows an error is not run.
infixl 5 ◌>>=◌
abbrev pub ◌>>=◌ : {A B : Type 0} → Result A → (A → Result B) → Result B
err failure >>= follow = err failure
ok value >>= follow = follow value

-- An error that a check found.
abbrev pub check : Option StoreError → Result (Unit {0})
check none = ok tt
check (some e) = err e

infixl 5 ◌>>◌
abbrev pub ◌>>◌ : {B : Type 0} → Result (Unit {0}) → Result B → Result B
err failure >> follow = err failure
ok tt >> follow = follow

abbrev pub is_cli : WriteSource → Bool
is_cli source_cli = true
is_cli source_mirror = false

-- The next list, complete but for its stamps, and the next free number.
pub record Draft : Type 0 where
  pub next : TodoList
  pub next_id : ℕ

-- `pinDoneLast`, after `carrySeen` where the write is no mirror's.
unfoldable pub pinned : WriteSource → List TodoItem → List TodoItem → List TodoItem
pinned source prev items = pin_done_last (if is_cli source then carry_seen prev items else items)

-- The checks on the edited list `l`, whose items in their order are `items`.
unfoldable pub checked :
    WriteSource → TodoAuthor → String → FileData → TodoList → List TodoItem → Result Draft
checked source author id d l items = do
  check (
      if is_cli source && is_agent author && done_ticked items
      then some done_is_evidence_backed
      else none)
  check (validate items)
  let numbered = assign_ids d.next_id items
  check (check_unique_ids [] numbered.0)
  let kept = demote_extra_active d.list.items numbered.0
  ok (record {
    next = record l {
      session_id = id;
      items = kept;
      not_in_agent = present_ids (ids kept) l.not_in_agent;
    };
    next_id = numbered.1;
  })

-- From the caller's edit to the checked list, in the order of `update`.
unfoldable pub draft : WriteSource → TodoAuthor → String → FileData → Edit → ℕ → Result Draft
draft source author id d fn now = do
  edited ← fn d.list d now
  checked source author id d edited (pinned source d.list.items edited.items)

-- Nothing to write: no operation, and the same mirror bookkeeping.
unfoldable pub is_unchanged : TodoList → TodoList → List Op → Bool
is_unchanged prev next [] =
    list_eq str_eq prev.not_in_agent next.not_in_agent && seen_equal prev.items next.items
is_unchanged prev next (op ∷ ops) = false

-- The file that a changed list is written as.
unfoldable pub written :
    Unicode → WriteSource → TodoAuthor → FileData → Draft → List Op → ℕ → FileData
written u source author d t ops now =
    let prev = d.list.items in
    let items = stamp prev ops author now t.next.items in
    record d {
      list = record (t.next) { items = items; rev = d.list.rev + 1; updated_at = now };
      next_id = t.next_id;
      tombstones = add_tombstones d.tombstones prev items now;
      retexts = if is_cli source then add_retexts u d.retexts prev items now else d.retexts;
    }

-- The end of `update`; the last argument is whether the file system takes the write.
unfoldable pub commit :
    Unicode → WriteSource → TodoAuthor → FileData → Draft → ℕ → Disk → Bool → Result Reply × Disk
commit u source author d t now disk write_ok =
    let prev = d.list in
    let ops = diff prev.items t.next.items in
    if is_unchanged prev t.next ops
    then (
      ok (record { list = prev; change = record { author = author; ops = []; rev = prev.rev } }),
      disk,
    )
    else if write_ok
    then (let d' = written u source author d t ops now in
        (
          ok (record {
            list = d'.list;
            change = record { author = author; ops = ops; rev = d'.list.rev };
          }),
          stored d',
        ))
    else (err write_failed, disk)

abbrev committed :
    Unicode
    → WriteSource
    → TodoAuthor
    → FileData
    → ℕ
    → Disk
    → Bool
    → Result Draft
    → Result Reply × Disk
committed u source author d now disk write_ok (ok t) = commit u source author d t now disk write_ok
committed u source author d now disk write_ok (err e) = (err e, disk)

-- `Files.update`: the reply and the file after the call.
unfoldable pub update :
    Unicode → String → TodoAuthor → WriteSource → Edit → ℕ → Bool → Disk → Result Reply × Disk
update u id author source fn now write_ok disk = elim (load id disk) [
  | ok d ↦ committed u source author d now disk write_ok (draft source author id d fn now)
  | err e ↦ (err e, disk)
]

-- `Files.Mutate`
unfoldable pub mutate :
    Unicode
    → String
    → TodoAuthor
    → (TodoList → Result TodoList)
    → ℕ
    → Bool
    → Disk
    → Result Reply × Disk
unfolding update
mutate u id author fn now write_ok disk =
    update u id author source_cli (λ l _ _. fn l) now write_ok disk
