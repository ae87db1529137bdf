-- ===== src/Todo/Done.antt =====
-- internal/todo/done.go: the evidence-backed Done-when item.
use aiman.Base.{Bool, true, false, ◌||◌, List, [], ◌∷◌, ◌++◌, String, str_eq, if◌then◌else◌}
use aiman.Todo.Types.{TodoItem, pending, new_item}

abbrev pub done_ref : String
done_ref = "done"

abbrev pub done_item_text : String
done_item_text = "Done-when met"

-- Some item carries the link `ref`.
unfoldable pub has_ref : String → List TodoItem → Bool
has_ref ref [] = false
has_ref ref (it ∷ items) = str_eq it.ref ref || has_ref ref items

-- The list, and whether the item was added.
unfoldable pub ensure_done_item : List TodoItem → List TodoItem × Bool
unfolding has_ref
ensure_done_item items =
    if has_ref done_ref items
    then (items, false)
    else (items ++ new_item done_item_text pending done_ref ∷ [], true)

-- The first item with the link moves to the end.
unfoldable pub pin_done_last : List TodoItem → List TodoItem
pin_done_last [] = []
pin_done_last (it ∷ items) =
    if str_eq it.ref done_ref then items ++ it ∷ [] else it ∷ pin_done_last items
