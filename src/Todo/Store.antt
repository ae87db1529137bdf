-- ===== src/Todo/Store.antt =====
-- internal/todo/store.go: the write path of one session's list. The file of a session whose id is
-- safe is a `Disk`; JSON and the file system stand outside. Locks serialise the calls on one
-- session, so a call is one step from disk to disk.
use aiman.Base.{
  ℕ, ◌+◌, Bool, true, false, not, ◌&&◌, ◌||◌, List, [], ◌∷◌, Option, none, some, String, str_eq,
  ltb, ◌==◌, if◌then◌else◌, str_eq,
}
use aiman.Base.Space.{is_blank}
use aiman.Base.Itoa.{itoa}
use aiman.Base.Text.{Bytes}
use aiman.Todo.Types.{TodoItem, TodoList, pending, is_valid, is_active, is_done}
use aiman.Todo.Ids.{holds}
use aiman.Todo.Done.{done_ref}
use aiman.Todo.Gate.{GateError}
use aiman.Todo.Change.{last_at}

pub record Tombstone : Type 0 where
  pub id : String
  pub text : String
  pub removed_at : ℕ

-- mirror.go: the text that a write replaced, normalised.
pub record Retext : Type 0 where
  pub id : String
  pub old_text : Bytes
  pub at : ℕ

abbrev pub max_tombstones : ℕ
max_tombstones = 50

abbrev pub mirror_version_current : ℕ
mirror_version_current = 1

-- A negative `next_id` or `mirror_version` is read as 0: `load` treats both alike.
pub record FileData : Type 0 where
  pub list : TodoList
  pub next_id : ℕ
  pub tombstones : List Tombstone
  pub retexts : List Retext
  pub mirror_version : ℕ

-- What the store returns as an error. `refused` is an error of the caller's own.
pub data StoreError : Type 0 where
  empty_text bad_state duplicate_id : String → StoreError
  done_is_evidence_backed read_failed write_failed : StoreError
  gate_locked : GateError → StoreError
  refused : String → StoreError

pub data Result (A : Type 0) : Type 0 where
  ok : A → Result A
  err : StoreError → Result A

-- The file of a session: none yet, one that cannot be read or decoded, or its contents.
pub data Disk : Type 0 where
  absent unreadable : Disk
  stored : FileData → Disk

abbrev empty_list : String → TodoList
empty_list id = record { session_id = id; items = []; rev = 0; updated_at = 0; not_in_agent = [] }

unfoldable pub seed : TodoItem → TodoItem
seed it = elim it.seen [
  | some _ ↦ it
  | none ↦ record it { seen = some (record { text = it.text; state = it.state }) }
]

abbrev pub seed_all : List TodoItem → List TodoItem
seed_all [] = []
seed_all (it ∷ items) = seed it ∷ seed_all items

unfoldable pub migrate_mirror_base : FileData → FileData
unfolding seed
migrate_mirror_base d = record d {
  list = record (d.list) { items = seed_all d.list.items };
  mirror_version = mirror_version_current;
}

-- What `load` does to the decoded file.
unfoldable pub loaded : String → FileData → FileData
unfolding migrate_mirror_base
loaded id d =
    let e = record d {
      list = record (d.list) { session_id = id };
      next_id = if ltb d.next_id 1 then 1 else d.next_id;
    } in
    if ltb e.mirror_version mirror_version_current then migrate_mirror_base e else e

unfoldable pub load : String → Disk → Result FileData
load id absent = ok (record {
  list = empty_list id;
  next_id = 1;
  tombstones = [];
  retexts = [];
  mirror_version = 0;
})
load id unreadable = err read_failed
load id (stored d) = ok (loaded id d)

-- The items that a load finds.
abbrev pub items_of : Result FileData → List TodoItem
items_of (ok d) = d.list.items
items_of (err e) = []

-- `carrySeen`
carry_seen_item : List TodoItem → TodoItem → TodoItem
carry_seen_item prev it = elim (last_at 0 it.id prev) [
  | none ↦ it
  | some (_, old) ↦ record it { seen = old.seen }
]

unfoldable pub carry_seen : List TodoItem → List TodoItem → List TodoItem
unfolding carry_seen_item
carry_seen prev [] = []
carry_seen prev (it ∷ items) = carry_seen_item prev it ∷ carry_seen prev items

-- Some Done-when item is ticked.
unfoldable pub done_ticked : List TodoItem → Bool
done_ticked [] = false
done_ticked (it ∷ items) = str_eq it.ref done_ref && is_done it.state || done_ticked items

unfoldable pub validate : List TodoItem → Option StoreError
validate [] = none
validate (it ∷ items) =
    if is_blank it.text
    then some (empty_text it.id)
    else if not (is_valid it.state)
    then some (bad_state it.id)
    else validate items

-- "t1", "t2", ... for the items that have no id.
unfoldable pub assign_ids : ℕ → List TodoItem → List TodoItem × ℕ
unfolding itoa
assign_ids next [] = ([], next)
assign_ids next (it ∷ items) =
    let fresh = str_eq it.id "" in
    let (rest, last) = assign_ids (if fresh then next + 1 else next) items in
    ((if fresh then record it { id = String.◌∷◌ "t" (itoa next) } else it) ∷ rest, last)

-- `checkUniqueIDs`; `seen` are the ids so far.
unfoldable pub check_unique_ids : List String → List TodoItem → Option StoreError
check_unique_ids seen [] = none
check_unique_ids seen (it ∷ items) =
    if holds it.id seen then some (duplicate_id it.id) else check_unique_ids (it.id ∷ seen) items

-- `before[it.ID] != TodoActive`
abbrev pub became_active : List TodoItem → TodoItem → Bool
became_active prev it = elim (last_at 0 it.id prev) [
  | none ↦ true
  | some (_, old) ↦ not (is_active old.state)
]

-- The body of the first loop of `demoteExtraActive`, at index `i`: the index to keep, and whether
-- that item changed.
unfoldable pub keep_step : List TodoItem → ℕ → TodoItem → Option (ℕ × Bool) → Option (ℕ × Bool)
keep_step prev i it keep = if not (is_active it.state) then keep else elim keep [
  | none ↦ some (i, became_active prev it)
  | some (k, keep_changed) ↦
      if became_active prev it || not keep_changed
      then some (i, became_active prev it)
      else some (k, keep_changed)
]

unfoldable pub keep_active :
    List TodoItem → ℕ → List TodoItem → Option (ℕ × Bool) → Option (ℕ × Bool)
unfolding keep_step
keep_active prev i [] keep = keep
keep_active prev i (it ∷ items) keep = keep_active prev (i + 1) items (keep_step prev i it keep)

abbrev pub is_kept : ℕ → Option (ℕ × Bool) → Bool
is_kept i none = false
is_kept i (some (k, _)) = i == k

unfoldable pub demote_others : ℕ → Option (ℕ × Bool) → List TodoItem → List TodoItem
demote_others i keep [] = []
demote_others i keep (it ∷ items) =
    (if not (is_kept i keep) && is_active it.state then record it { state = pending } else it)
    ∷ demote_others (i + 1) keep items

unfoldable pub demote_extra_active : List TodoItem → List TodoItem → List TodoItem
unfolding keep_active demote_others
demote_extra_active prev next = demote_others 0 (keep_active prev 0 next none) next
