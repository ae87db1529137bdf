-- ===== src/Todo/Change.antt =====
-- internal/todo/change.go: the operations that turn one list into another. The two maps by id are
-- read through the last item with an id, since a later entry replaces an earlier one.
use aiman.Base.{
  ℕ, zero, suc, ◌+◌, Bool, true, false, not, ◌&&◌, List, [], ◌∷◌, ◌++◌, Option, none, some, String,
  str_eq, ltb, if◌then◌else◌, get_elem?, length, ◌==◌, ◌||◌,
}
use aiman.Todo.Types.{TodoState, TodoAuthor, TodoItem, state_eq, is_agent, has_id}
use aiman.Todo.Ids.{ids, holds}

-- One operation, with the fields that its kind sets.
pub data Op : Type 0 where
  op_add : String → String → TodoState → String → Op
  op_edit : String → String → Op
  op_state : String → TodoState → Op
  op_remove : String → Op
  op_move : String → ℕ → Op
  op_ref : String → String → Op

pub record Change : Type 0 where
  pub author : TodoAuthor
  pub ops : List Op
  pub rev : ℕ

abbrev is_op_ref : Op → Bool
is_op_ref (op_ref id ref) = true
is_op_ref _ = false

abbrev some_other_than_ref : List Op → Bool
some_other_than_ref [] = false
some_other_than_ref (op ∷ ops) = if not (is_op_ref op) then true else some_other_than_ref ops

unfoldable pub steers_agent : Change → Bool
steers_agent c = if is_agent c.author then false else some_other_than_ref c.ops

-- `prev[id]`: the last position, from `i` on, and the item there.
unfoldable pub last_at : ℕ → String → List TodoItem → Option (ℕ × TodoItem)
last_at i id [] = none
last_at i id (it ∷ items) = elim (last_at (i + 1) id items) [
  | some found ↦ some found
  | none ↦ if has_id id it then some (i, it) else none
]

unfoldable pub removed_ops : List TodoItem → List String → List Op
removed_ops [] cur = []
removed_ops (it ∷ items) cur =
    let rest = removed_ops items cur in
    if not (holds it.id cur) then op_remove it.id ∷ rest else rest

unfoldable pub added_ops : List TodoItem → List TodoItem → List Op
added_ops before [] = []
added_ops before (it ∷ items) =
    let rest = added_ops before items in
    elim (last_at 0 it.id before) [
      | none ↦ op_add it.id it.text it.state it.ref ∷ rest
      | some _ ↦ rest
    ]

-- The edit, state and link operations of one surviving item.
abbrev pub field_ops : TodoItem → TodoItem → List Op
field_ops old it =
    (if not (str_eq old.text it.text) then op_edit it.id it.text ∷ [] else [])
    ++ ((if not (state_eq old.state it.state) then op_state it.id it.state ∷ [] else [])
        ++ (if not (str_eq old.ref it.ref) then op_ref it.id it.ref ∷ [] else []))

unfoldable pub changed_ops : List TodoItem → List TodoItem → List Op
changed_ops before [] = []
changed_ops before (it ∷ items) =
    let rest = changed_ops before items in
    elim (last_at 0 it.id before) [ none ↦ rest | some (_, old) ↦ field_ops old it ++ rest ]

-- A surviving item: its id, its index in the new list and its position in the old one.
pub record Survivor : Type 0 where
  pub id : String
  pub idx : ℕ
  pub pos : ℕ

unfoldable pub survivors : ℕ → List TodoItem → List TodoItem → List Survivor
survivors i before [] = []
survivors i before (it ∷ items) =
    let rest = survivors (i + 1) before items in
    elim (last_at 0 it.id before) [
      | none ↦ rest
      | some (p, _) ↦ record { id = it.id; idx = i; pos = p } ∷ rest
    ]

-- One entry of the tables of `lisMembers`: `seq[i]`, `length[i]` and `from[i]` (`none` for -1).
pub record Cell : Type 0 where
  pub seq : ℕ
  pub len : ℕ
  pub from : Option ℕ

-- The inner loop over `j`: the best chain so far that `value` extends.
unfoldable pub extend : ℕ → ℕ → List Cell → ℕ × Option ℕ → ℕ × Option ℕ
extend value j [] best = best
extend value j (c ∷ cells) best =
    extend value (j + 1) cells
      (if ltb c.seq value && ltb best.0 (c.len + 1) then (c.len + 1, some j) else best)

-- The outer loop: the cells so far, in order, and `best` (`none` for -1) with its length.
unfoldable pub fill : List ℕ → ℕ → List Cell → Option (ℕ × ℕ) → List Cell × Option (ℕ × ℕ)
unfolding extend
fill [] i cells best = (cells, best)
fill (value ∷ seq) i cells best =
    let (len, from) = extend value 0 cells (1, none) in
    fill seq (i + 1) (cells ++ record { seq = value; len = len; from = from } ∷ []) (elim best [
      | none ↦ some (i, len)
      | some (b, longest) ↦ if ltb longest len then some (i, len) else some (b, longest)
    ])

-- The last loop, over `from`; every step goes to a smaller index, so `fuel` above the index is
-- enough.
unfoldable pub trace : ℕ → List Cell → Option ℕ → List ℕ
trace zero cells at = []
trace (suc fuel) cells none = []
trace (suc fuel) cells (some k) =
    k ∷ elim (get_elem? cells k) [ none ↦ [] | some c ↦ trace fuel cells c.from ]

abbrev best_index : Option (ℕ × ℕ) → Option ℕ
best_index none = none
best_index (some (b, _)) = some b

-- The indices of one longest strictly increasing subsequence, the last first.
unfoldable pub lis_members : List ℕ → List ℕ
unfolding fill trace
lis_members seq =
    let (cells, best) = fill seq 0 [] none in trace (suc (length cells)) cells (best_index best)

abbrev mem_index : ℕ → List ℕ → Bool
mem_index k [] = false
mem_index k (x ∷ xs) = x == k || mem_index k xs

unfoldable pub moves_outside : ℕ → List ℕ → List Survivor → List Op
moves_outside k stay [] = []
moves_outside k stay (s ∷ survivors) =
    let rest = moves_outside (k + 1) stay survivors in
    if not (mem_index k stay) then op_move s.id s.idx ∷ rest else rest

abbrev positions : List Survivor → List ℕ
positions [] = []
positions (s ∷ survivors) = s.pos ∷ positions survivors

unfoldable pub move_ops : List TodoItem → List TodoItem → List Op
unfolding moves_outside lis_members survivors
move_ops before after =
    let kept = survivors 0 before after in moves_outside 0 (lis_members (positions kept)) kept

unfoldable pub diff : List TodoItem → List TodoItem → List Op
unfolding removed_ops added_ops changed_ops move_ops
diff before after =
    removed_ops before (ids after)
    ++ (added_ops before after ++ (changed_ops before after ++ move_ops before after))
