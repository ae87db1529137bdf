-- ===== src/Todo/Render.antt =====
-- internal/todo/render.go: the texts of a list and of a change to it.
use aiman.Base.{◌+◌, List, [], ◌∷◌, Option, none, some, String, str_eq, if◌then◌else◌}
use aiman.Base.Itoa.{itoa}
use aiman.Base.Join.{◌<>◌, join_with}
use aiman.Todo.Types.{
  TodoState, active, done, dropped, TodoAuthor, author_user, author_agent, author_aiman,
  author_verifier, other_author, TodoItem, is_dropped,
}
use aiman.Todo.Change.{Op, op_add, op_edit, op_state, op_remove, op_move, op_ref}

-- `TodoState.Glyph`
unfoldable pub glyph : TodoState → String
glyph done = "✓"
glyph active = "▸"
glyph dropped = "–"
glyph _ = "○"

unfoldable pub format_line : TodoItem → String
unfolding glyph
format_line it = it.id <> " " <> glyph it.state <> " " <> it.text

abbrev pub shown_lines : List TodoItem → List String
shown_lines [] = []
shown_lines (it ∷ items) =
    let rest = shown_lines items in if is_dropped it.state then rest else format_line it ∷ rest

unfoldable pub format_list : List TodoItem → String
unfolding format_line
format_list items = join_with "\n" (shown_lines items)

-- The string that a `TodoAuthor` is.
unfoldable pub author_name : TodoAuthor → String
author_name author_user = "user"
author_name author_agent = "agent"
author_name author_aiman = "aiman"
author_name author_verifier = "verifier"
author_name (other_author name) = name

-- All but the last, with commas, and the last after "and".
unfoldable pub listed : String → List String → String
listed name [] = name
listed name (next ∷ []) = name <> " and " <> next
listed name (next ∷ names) = name <> ", " <> listed next names

abbrev names_of : List TodoAuthor → List String
names_of [] = []
names_of (a ∷ authors) = author_name a ∷ names_of authors

abbrev joined_names : List String → String
joined_names [] = "user"
joined_names (name ∷ names) = listed name names

unfoldable pub join_authors : List TodoAuthor → String
unfolding author_name listed
join_authors authors = joined_names (names_of authors)

unfoldable pub op_line : Op → Option String
op_line (op_add id text state ref) = some ("+ " <> id <> " " <> text)
op_line (op_edit id text) = some ("~ " <> id <> " now: " <> text)
op_line (op_state id done) = some ("✓ " <> id <> " done")
op_line (op_state id active) = some ("▸ " <> id <> " active")
op_line (op_state id dropped) = some ("- " <> id <> " dropped")
op_line (op_state id _) = some ("○ " <> id <> " pending")
op_line (op_remove id) = some ("- " <> id <> " removed")
op_line (op_move id to) = some ("↕ " <> id <> " moved to " <> itoa (to + 1))
op_line (op_ref id ref) = none

unfoldable pub op_lines : List Op → String
unfolding op_line
op_lines [] = ""
op_lines (op ∷ ops) = elim (op_line op) [
  | none ↦ op_lines ops
  | some line ↦ line <> "\n" <> op_lines ops
]

unfoldable pub format_steer_note : List TodoAuthor → List Op → List TodoItem → String
unfolding join_authors op_lines format_list
format_steer_note authors ops items =
    let cur = format_list items in
    "[aiman] Your to-do list was changed by "
    <> join_authors authors
    <> ":\n"
    <> op_lines ops
    <> "Current list:\n"
    <> (if str_eq cur "" then "" else cur <> "\n")
    <> "Adjust your work to match. Update the list with `aiman todo` using these ids."

unfoldable pub item_line : TodoItem → String
unfolding format_line
item_line it = elim it.state [
  | done ↦ "- [x] " <> it.id <> " " <> it.text <> "\n"
  | active ↦ "- [ ] " <> format_line it <> " (active)\n"
  | dropped ↦ "- [~] " <> it.id <> " " <> it.text <> " (dropped)\n"
  | _ ↦ "- [ ] " <> it.id <> " " <> it.text <> "\n"
]

abbrev item_lines : List TodoItem → String
item_lines [] = ""
item_lines (it ∷ items) = item_line it <> item_lines items

-- `Render`, after the header that every generated file opens with.
unfoldable pub render : List TodoItem → String
unfolding item_line
render items =
    "# To-do list\n\n" <> item_lines items <> "\nUpdate it with `aiman todo`; ids are stable.\n"
