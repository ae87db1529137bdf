-- ===== src/Todo/Gate.antt =====
-- internal/todo/gate.go: approval gates, which only the operator closes.
pub mod Guard
pub mod Clamp
pub mod Add
use aiman.Base.{
  Bool, true, false, not, ◌&&◌, ◌||◌, List, [], ◌∷◌, Option, none, some, String, str_eq,
  if◌then◌else◌,
}
use aiman.Todo.Types.{TodoState, TodoItem, pending, dropped, is_open, is_dropped, new_item, has_id}
use aiman.Todo.Done.{done_ref, has_ref}

abbrev pub design_gate_ref : String
design_gate_ref = "gate:design"

abbrev pub review_gate_ref : String
review_gate_ref = "gate:review"

abbrev pub approve_gate_ref : String
approve_gate_ref = "gate:approve"

-- The map `gateTexts`: `GateText` returns its text for a gate's link.
unfoldable pub gate_text : String → Option String
gate_text ref =
    if str_eq ref design_gate_ref
    then some "Design approved"
    else if str_eq ref review_gate_ref
    then some "Review approved"
    else if str_eq ref approve_gate_ref
    then some "Approval signed off"
    else none

abbrev pub serve_only_gate : String → Bool
serve_only_gate ref = str_eq ref approve_gate_ref

abbrev is_some {ℓ} : {A : Type ℓ} → Option A → Bool
is_some none = false
is_some (some _) = true

unfoldable pub is_gate : TodoItem → Bool
unfolding gate_text
is_gate it = is_some (gate_text it.ref)

-- In front of the first Done-when item, or at the end.
unfoldable pub insert_before_done : TodoItem → List TodoItem → List TodoItem
insert_before_done gate [] = gate ∷ []
insert_before_done gate (it ∷ items) =
    if str_eq it.ref done_ref then gate ∷ it ∷ items else it ∷ insert_before_done gate items

unfoldable pub add_gate : List TodoItem → String → List TodoItem × Bool
add_gate items ref = elim (gate_text ref) [
  | none ↦ (items, false)
  | some text ↦
      if has_ref ref items
      then (items, false)
      else (insert_before_done (new_item text pending ref) items, true)
]

unfoldable pub gate_is_open : TodoItem → Bool
unfolding is_gate
gate_is_open it = is_gate it && is_open it.state

unfoldable pub gate_open : List TodoItem → String → Bool
gate_open [] ref = false
gate_open (it ∷ items) ref = str_eq it.ref ref && gate_is_open it || gate_open items ref

-- `slices.IndexFunc` by id, and the item there.
unfoldable pub find_id : String → List TodoItem → Option TodoItem
find_id id [] = none
find_id id (it ∷ items) = if has_id id it then some it else find_id id items

-- What wraps `ErrGateLocked`.
pub data GateError : Type 0 where
  gate_removed gate_changed : String → GateError

-- The body of the loop of `GuardGate` on one item of `prev`.
unfoldable pub guard_item : TodoItem → List TodoItem → Option GateError
guard_item was next =
    let was_dropped = is_gate was && is_dropped was.state in
    if not (gate_is_open was) && not was_dropped then none else elim (find_id was.id next) [
      | none ↦ some (gate_removed was.id)
      | some now ↦
          let state_kept = if was_dropped then is_dropped now.state else gate_is_open now in
          if not state_kept || not (str_eq now.text was.text) || not (str_eq now.ref was.ref)
          then some (gate_changed was.id)
          else none
    ]

unfoldable pub guard_gate : List TodoItem → List TodoItem → Option GateError
guard_gate [] next = none
guard_gate (was ∷ prev) next = elim (guard_item was next) [
  | some e ↦ some e
  | none ↦ guard_gate prev next
]

-- The first item named as `was` takes its state, text and link.
unfoldable pub restore : TodoItem → List TodoItem → List TodoItem
restore was [] = []
restore was (it ∷ items) =
    if has_id was.id it
    then record it { state = was.state; text = was.text; ref = was.ref } ∷ items
    else it ∷ restore was items

-- The list that `ClampGate` leaves, or its error.
pub data Clamped : Type 0 where
  clamped : List TodoItem → Clamped
  locked : GateError → Clamped

unfoldable pub clamp_gate : List TodoItem → List TodoItem → Clamped
clamp_gate [] next = clamped next
clamp_gate (was ∷ prev) next = elim (gate_is_open was) [
  | false ↦ clamp_gate prev next
  | true ↦ elim (find_id was.id next) [
    | none ↦ locked (gate_removed was.id)
    | some _ ↦ clamp_gate prev (restore was next)
  ]
]
