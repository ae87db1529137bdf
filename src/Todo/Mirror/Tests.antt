-- ===== src/Todo/Mirror/Tests.antt =====
-- Merges at work, and each theorem at a concrete list.
use aiman.Base.{List, [], ◌∷◌, String, str_eq, ◌≡◌, refl, length, ◌==◌, ◌&&◌}
use aiman.Base.Fields.{fields, fields_joined}
use aiman.Base.Space.{trim_space}
use aiman.Todo.Types.{
  has_id, TodoItem, TodoList, TodoState, TodoSnapshotItem, TodoAuthor, pending, active, done,
  author_user, author_agent, new_item,
}
use aiman.Todo.Done.{done_ref, pin_done_last}
use aiman.Todo.Gate.{is_gate}
use aiman.Todo.Normalize.{Unicode, normalize}
use aiman.Todo.Mirror.{merge, merge_with_retexts, is_removed}
use aiman.Todo.Ids.{ids}
use aiman.Todo.Mirror.Layout.{layout}
use aiman.Todo.Mirror.Matching.{
  entries_of, match_retexts, match_snapshot, sort_pairs, all_pairs, norms_of,
}
use aiman.Todo.Mirror.Matching.Injective.{IsMatching, match_all-IsMatching}
use aiman.Todo.Mirror.Count.{count}
use aiman.Todo.Mirror.Complete.{is_firm, merge_keeps_ids, merge_keeps_firm}

abbrev ascii : Unicode
ascii = record { is_punct = λ c. c == b'.'; to_lower = λ c. c }

abbrev by : TodoAuthor → String → String → TodoState → String → TodoItem
by author id text state ref = record (new_item text state ref) { id = id; updated_by = author }

abbrev said : String → TodoState → TodoSnapshotItem
said text status = record { text = text; status = status }

abbrev todos : TodoList
todos = record {
  session_id = "s";
  items =
      by author_agent "t1" "write" active ""
      ∷ by author_user "t2" "test" pending ""
      ∷ by author_user "t3" "ship" pending done_ref
      ∷ [];
  rev = 1;
  updated_at = 0;
  not_in_agent = [];
}

abbrev seen : List TodoSnapshotItem
seen = said "more" pending ∷ said "write" done ∷ said "ship" done ∷ []

abbrev merged : TodoList
merged = merge ascii todos [] seen 5 7

-- The agent finished one item and added another; what it says of the Done-when item is nothing.
merged_todos : (ids merged.items ≡ "" ∷ "t1" ∷ "t2" ∷ "t3" ∷ []) × (merged.not_in_agent ≡ "t2" ∷ [])
unfolding merge entries_of match_snapshot match_retexts normalize trim_space layout pin_done_last
    fields_joined sort_pairs all_pairs norms_of fields is_gate is_removed
merged_todos = (refl, refl)

merge_keeps_ids_example :
    count (has_id "t2") (merge_with_retexts ascii todos [] [] seen 5 7).items
    ≡ count (has_id "t2") todos.items
merge_keeps_ids_example = merge_keeps_ids ascii todos [] [] seen 5 7 "t2" (λ e. cc)

merge_keeps_firm_example :
    count
      (λ it. is_firm it && str_eq it.text "ship")
      (merge_with_retexts ascii todos [] [] seen 5 7).items
    ≡ count (λ it. is_firm it && str_eq it.text "ship") todos.items
merge_keeps_firm_example = merge_keeps_firm ascii todos [] [] seen 5 7 (λ it. str_eq it.text "ship")

match_all-IsMatching_example : IsMatching (length (entries_of ascii seen)) (
    match_retexts todos.items [] 0
      (entries_of ascii seen)
      (match_snapshot ascii todos.items (entries_of ascii seen)))
match_all-IsMatching_example = match_all-IsMatching ascii todos.items [] (entries_of ascii seen)
