-- ===== src/Todo/Gate/Clamp.antt =====
-- `ClampGate` puts every open gate back as it was.
use aiman.Base.{◌≡◌, false, ◌&&◌, List, some, String, str_eq, All}
use aiman.Todo.Types.{TodoItem}
use aiman.Todo.Gate.{gate_is_open, find_id}

-- `out` holds the item that `next` has under the id of `was`, with the state, text and link of `was`
-- and everything else its own.
abbrev pub Restored : TodoItem → List TodoItem → List TodoItem → Type 0
Restored was next out =
    (now : TodoItem) × (find_id was.id next ≡ some now)
    × (find_id was.id out ≡ some (record now { state = was.state; text = was.text; ref = was.ref }))

-- No open gate of the list is named `id`.
abbrev pub NotGate : String → List TodoItem → Type 0
NotGate id = All (λ was. (gate_is_open was && str_eq id was.id) ≡ false)
