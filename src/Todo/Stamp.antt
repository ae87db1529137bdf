-- ===== src/Todo/Stamp.antt =====
-- The bookkeeping of a write in internal/todo/store.go: the merge bases compared, attribution,
-- tombstones and recorded texts.
use aiman.Base.{
  ℕ, ◌-◌, Bool, true, false, not, ◌&&◌, ◌||◌, List, [], ◌∷◌, ◌++◌, Option, none, some, String,
  str_eq, ltb, if◌then◌else◌, length, drop,
}
use aiman.Todo.Types.{TodoAuthor, SnapshotView, TodoItem, is_agent, state_eq, has_id}
use aiman.Todo.Ids.{ids, holds}
use aiman.Todo.Normalize.{Unicode, normalize}
use aiman.Todo.Change.{Op, op_move, last_at}
use aiman.Todo.Store.{Tombstone, Retext, max_tombstones}

unfoldable pub present_ids : List String → List String → List String
present_ids have [] = []
present_ids have (id ∷ listed) =
    let rest = present_ids have listed in if holds id have then id ∷ rest else rest

-- `seenEqual`: `byID` holds the last merge base under an id.
unfoldable pub last_seen : String → List TodoItem → Option SnapshotView
last_seen id [] = none
last_seen id (it ∷ items) = elim (last_seen id items) [
  | some v ↦ some v
  | none ↦ if has_id id it then it.seen else none
]

view_eq : Option SnapshotView → Option SnapshotView → Bool
view_eq none none = true
view_eq (some v) (some w) = str_eq v.text w.text && state_eq v.state w.state
view_eq _ _ = false

unfoldable pub seen_equal : List TodoItem → List TodoItem → Bool
unfolding last_seen view_eq
seen_equal prev [] = true
seen_equal prev (it ∷ items) = view_eq it.seen (last_seen it.id prev) && seen_equal prev items

unfoldable pub is_moved : String → List Op → Bool
is_moved id [] = false
is_moved id (op_move moved to ∷ ops) = str_eq moved id || is_moved id ops
is_moved id (_ ∷ ops) = is_moved id ops

-- The item as `author` at `now` leaves it, before its attribution is decided.
abbrev pub attributed : TodoAuthor → ℕ → TodoItem → TodoItem
attributed author now it = record it { updated_by = author; updated_at = now }

-- The body of the loop of `stamp`.
unfoldable pub stamp_item : List TodoItem → List Op → TodoAuthor → ℕ → TodoItem → TodoItem
unfolding is_moved
stamp_item prev ops author now it = elim (last_at 0 it.id prev) [
  | none ↦ attributed author now it
  | some (_, p) ↦
      if not (str_eq p.text it.text)
      then attributed author now it
      else if not (state_eq p.state it.state) || not (str_eq p.ref it.ref) || is_moved it.id ops
      then (if is_agent author && not (is_agent p.updated_by)
          then attributed p.updated_by p.updated_at it
          else attributed author now it)
      else attributed p.updated_by p.updated_at it
]

unfoldable pub stamp : List TodoItem → List Op → TodoAuthor → ℕ → List TodoItem → List TodoItem
unfolding stamp_item
stamp prev ops author now [] = []
stamp prev ops author now (it ∷ items) =
    stamp_item prev ops author now it ∷ stamp prev ops author now items

-- The last `max_tombstones` of a list.
unfoldable pub keep_last {ℓ} : {A : Type ℓ} → List A → List A
keep_last xs = if ltb max_tombstones (length xs) then drop (length xs - max_tombstones) xs else xs

unfoldable pub dead : List TodoItem → List String → ℕ → List Tombstone
dead [] kept now = []
dead (it ∷ prev) kept now =
    let rest = dead prev kept now in
    if not (holds it.id kept)
    then record { id = it.id; text = it.text; removed_at = now } ∷ rest
    else rest

unfoldable pub add_tombstones : List Tombstone → List TodoItem → List TodoItem → ℕ → List Tombstone
unfolding keep_last dead
add_tombstones ts prev next now = keep_last (ts ++ dead prev (ids next) now)

unfoldable pub retexts_of : Unicode → List TodoItem → List TodoItem → ℕ → List Retext
retexts_of u prev [] now = []
retexts_of u prev (it ∷ next) now =
    let rest = retexts_of u prev next now in
    elim (last_at 0 it.id prev) [
      | none ↦ rest
      | some (_, old) ↦
          if not (str_eq old.text it.text)
          then record { id = it.id; old_text = normalize u old.text; at = now } ∷ rest
          else rest
    ]

unfoldable pub add_retexts : Unicode → List Retext → List TodoItem → List TodoItem → ℕ → List Retext
unfolding keep_last retexts_of
add_retexts u rs prev next now = keep_last (rs ++ retexts_of u prev next now)
