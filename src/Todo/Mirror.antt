-- ===== src/Todo/Mirror.antt =====
-- internal/todo/mirror.go: an agent's task list, merged into the session's list.
pub mod Matching
pub mod Layout
pub mod Order
pub mod Count
pub mod Kept
pub mod Complete
mod Tests
use aiman.Base.{
  ℕ, ◌+◌, Bool, true, false, not, ◌&&◌, ◌||◌, List, [], ◌∷◌, ◌++◌, Option, none, some, String,
  str_eq, ltb, ◌==◌, if◌then◌else◌, length, get_elem?, set,
}
use aiman.Base.Text.{Bytes, bytes_eq}
use aiman.Todo.Types.{
  TodoState, TodoItem, TodoList, TodoSnapshotItem, SnapshotView, pending, dropped, is_active,
  is_agent, state_eq, author_agent, normalize_vendor_todo_status,
}
use aiman.Todo.Done.{done_ref, pin_done_last}
use aiman.Todo.Gate.{is_gate}
use aiman.Todo.Normalize.{Unicode, normalize}
use aiman.Todo.Store.{Tombstone, Retext}
use aiman.Todo.Mirror.Matching.{SnapEntry, Match, entries_of, match_snapshot, match_retexts, taken}
use aiman.Todo.Mirror.Layout.{layout}

-- `protectedFromSnapshot`
unfoldable pub protected_from_snapshot : TodoItem → Bool
protected_from_snapshot it = str_eq it.ref done_ref || is_gate it

-- `it.Text == it.Seen.Text && it.State == it.Seen.State`
abbrev pub is_view : TodoItem → SnapshotView → Bool
is_view it v = str_eq it.text v.text && state_eq it.state v.state

unfoldable pub agent_removed_untouched : TodoItem → Bool
agent_removed_untouched it =
    is_agent it.updated_by && elim it.seen [ none ↦ false | some v ↦ is_view it v ]

-- `undelivered`: the agent cannot have seen the item's last change yet.
abbrev pub undelivered : ℕ → TodoItem → Bool
undelivered delivered_at it = not (is_agent it.updated_by) && ltb delivered_at it.updated_at

-- `indexOfEntry`, and the entry there.
unfoldable pub entry_of : ℕ → List SnapEntry → List (Option ℕ) → Option SnapEntry
entry_of i (e ∷ entries) (some j ∷ match) = if j == i then some e else entry_of i entries match
entry_of i (e ∷ entries) (none ∷ match) = entry_of i entries match
entry_of i _ _ = none

-- The merge base of the item is what the entry says: the agent did nothing since.
unfoldable pub is_stale : Unicode → TodoItem → SnapEntry → Bool
is_stale u it e = elim it.seen [
  | none ↦ false
  | some v ↦ bytes_eq (normalize u v.text) e.norm && state_eq v.state e.state
]

-- Whether the snapshot rewrites the existing item at `i`.
unfoldable pub applies : Unicode → ℕ → List SnapEntry → List (Option ℕ) → ℕ → TodoItem → Bool
unfolding protected_from_snapshot is_stale entry_of
applies u delivered_at entries match i it = elim (entry_of i entries match) [
  | none ↦ false
  | some e ↦ not (protected_from_snapshot it || is_stale u it e || undelivered delivered_at it)
]

-- `apply`, for the items from `i` on.
unfoldable pub apply_flags :
    Unicode → ℕ → List SnapEntry → List (Option ℕ) → ℕ → List TodoItem → List Bool
unfolding applies
apply_flags u delivered_at entries match i [] = []
apply_flags u delivered_at entries match i (it ∷ items) =
    applies u delivered_at entries match i it
    ∷ apply_flags u delivered_at entries match (i + 1) items

unfoldable pub kept_active : List Bool → List TodoItem → Bool
kept_active (flag ∷ flags) (it ∷ items) = not flag && is_active it.state || kept_active flags items
kept_active _ _ = false

unfoldable pub snap_state : Bool → TodoState → TodoState
snap_state kept st = if kept && is_active st then pending else st

-- The item at `i` where the snapshot does not name it; the flag is `matched[i]`.
unfoldable pub unmatched_item : Bool → TodoItem → TodoItem
unfolding agent_removed_untouched
unmatched_item matched it =
    if matched
    then it
    else if str_eq it.ref done_ref
    then it
    else if agent_removed_untouched it
    then record it { state = dropped }
    else it

-- The id that goes to `notInAgent`.
unfoldable pub missing_id : ℕ → Bool → TodoItem → List String
unfolding agent_removed_untouched
missing_id delivered_at matched it =
    if matched
      || str_eq it.ref done_ref
      || agent_removed_untouched it
      || undelivered delivered_at it
    then []
    else it.id ∷ []

-- The loop over the items that the snapshot does not name: the items, and `notInAgent`.
unfoldable pub unmatched_pass : ℕ → Match → ℕ → List TodoItem → List TodoItem × List String
unfolding unmatched_item missing_id
unmatched_pass delivered_at m i [] = ([], [])
unmatched_pass delivered_at m i (it ∷ items) =
    let (rest, missing) = unmatched_pass delivered_at m (i + 1) items in
    (unmatched_item (taken i m) it ∷ rest, missing_id delivered_at (taken i m) it ++ missing)

-- Normalised texts that a removal after the delivery buried.
unfoldable pub is_removed : Unicode → ℕ → List Tombstone → Bytes → Bool
is_removed u delivered_at [] norm = false
is_removed u delivered_at (tb ∷ tombs) norm =
    ltb delivered_at tb.removed_at && bytes_eq (normalize u tb.text) norm
    || is_removed u delivered_at tombs norm

-- An existing item that the entry rewrites.
unfoldable pub rewritten : Bool → SnapEntry → TodoItem → TodoItem
unfolding snap_state
rewritten kept e it = record it {
  text = if is_agent it.updated_by then e.text else it.text;
  state = snap_state kept e.state;
  seen = some (record { text = e.text; state = e.state });
}

-- An item that the entry adds.
unfoldable pub added_item : Bool → ℕ → SnapEntry → TodoItem
unfolding snap_state
added_item kept now e = record {
  id = "";
  text = e.text;
  state = snap_state kept e.state;
  updated_by = author_agent;
  updated_at = now;
  ref = "";
  seen = some (record { text = e.text; state = e.state });
}

abbrev pub flag_at : ℕ → List Bool → Bool
flag_at i flags = elim (get_elem? flags i) [ none ↦ false | some b ↦ b ]

-- What the loop over the entries builds: the items, those added, and the order.
pub record Rewrite : Type 0 where
  pub items : List TodoItem
  pub added : List TodoItem
  pub ordered : List ℕ

-- Its body on one entry; `n` is the number of existing items.
unfoldable pub rewrite_entry :
    Bool → ℕ → List Bool → (Bytes → Bool) → ℕ → SnapEntry → Option ℕ → Rewrite → Rewrite
unfolding rewritten added_item
rewrite_entry kept now flags removed n e none r = if removed e.norm then r else record r {
  added = r.added ++ added_item kept now e ∷ [];
  ordered = r.ordered ++ (n + length r.added) ∷ [];
}
rewrite_entry kept now flags removed n e (some i) r =
    if not (flag_at i flags) then r else elim (get_elem? r.items i) [
      | none ↦ r
      | some it ↦ record r {
        items = set r.items i (rewritten kept e it);
        ordered = r.ordered ++ i ∷ [];
      }
    ]

unfoldable pub rewrite_pass :
    Bool → ℕ → List Bool → (Bytes → Bool) → ℕ → List SnapEntry → List (Option ℕ) → Rewrite → Rewrite
unfolding rewrite_entry
rewrite_pass kept now flags removed n (e ∷ entries) (i ∷ match) r =
    rewrite_pass kept now flags removed n entries match
      (rewrite_entry kept now flags removed n e i r)
rewrite_pass kept now flags removed n _ _ r = r

-- The items at the indices of a layout: existing ones, then those added.
unfoldable pub pick_items : List TodoItem → List ℕ → List TodoItem
pick_items items [] = []
pick_items items (k ∷ ks) = elim (get_elem? items k) [
  | none ↦ pick_items items ks
  | some it ↦ it ∷ pick_items items ks
]

-- The decisions of a merge, before the items are laid out.
pub record Decisions : Type 0 where
  pub flags : List Bool
  pub rewrite : Rewrite
  pub not_in_agent : List String

unfoldable pub decide :
    Unicode → List TodoItem → List Tombstone → List SnapEntry → Match → ℕ → ℕ → Decisions
unfolding apply_flags unmatched_pass rewrite_pass
decide u items tombs entries m delivered_at now =
    let flags = apply_flags u delivered_at entries m.match 0 items in
    let (kept_items, missing) = unmatched_pass delivered_at m 0 items in
    record {
      flags = flags;
      rewrite =
          rewrite_pass (kept_active flags items) now flags (is_removed u delivered_at tombs)
            (length items) entries m.match
            (record { items = kept_items; added = []; ordered = [] });
      not_in_agent = missing;
    }

-- `MergeWithRetexts`
unfoldable pub merge_with_retexts :
    Unicode → TodoList → List Tombstone → List Retext → List TodoSnapshotItem → ℕ → ℕ → TodoList
unfolding decide pick_items
merge_with_retexts u list tombs retexts snap delivered_at now =
    let entries = entries_of u snap in
    let m = match_retexts list.items retexts 0 entries (match_snapshot u list.items entries) in
    let d = decide u list.items tombs entries m delivered_at now in
    record list {
      items = pin_done_last (
          pick_items (d.rewrite.items ++ d.rewrite.added)
            (layout (length list.items) d.flags d.rewrite.ordered));
      not_in_agent = d.not_in_agent;
    }

-- `Merge`
unfoldable pub merge :
    Unicode → TodoList → List Tombstone → List TodoSnapshotItem → ℕ → ℕ → TodoList
unfolding merge_with_retexts
merge u list tombs snap delivered_at now = merge_with_retexts u list tombs [] snap delivered_at now
