-- ===== src/Todo/Valid.antt =====
-- What `update` promises of every list that it writes.
use aiman.Base.{ℕ, String, ◌+◌, ◌≤◌, ◌≡◌, true, false, List, [], ◌∷◌, if◌then◌else◌, All, length}
use aiman.Base.Space.{is_blank}
use aiman.Todo.Types.{TodoItem, TodoList, is_valid, is_active}
use aiman.Todo.Ids.{ids, holds, Distinct}
use aiman.Todo.Store.{FileData, Disk, stored}

-- The item has a text with some word in it and one of the four states.
abbrev pub IsValidItem : TodoItem → Type 0
IsValidItem it = (is_blank it.text ≡ false) × (is_valid it.state ≡ true)

-- How many items are active.
abbrev pub actives : List TodoItem → ℕ
actives [] = 0
actives (it ∷ items) = (if is_active it.state then 1 else 0) + actives items

-- Every id of the first list is in the second.
abbrev pub Within : List String → List String → Type 0
Within listed have = All (λ id. holds id have ≡ true) listed

pub record IsValidList (l : TodoList) : Type 0 where
  pub items_valid : All IsValidItem l.items
  pub ids_distinct : Distinct (ids l.items)
  pub one_active : actives l.items ≤ 1
  pub listed_present : Within l.not_in_agent (ids l.items)

-- The list is valid and the two histories are bounded.
pub record IsValidFile (d : FileData) : Type 0 where
  pub list_valid : IsValidList d.list
  pub tombstones_bounded : length d.tombstones ≤ 50
  pub retexts_bounded : length d.retexts ≤ 50

-- A file that was written is valid.
abbrev pub IsValidDisk : Disk → Type 0
IsValidDisk (stored d) = IsValidFile d
IsValidDisk _ = Unit
