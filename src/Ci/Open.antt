-- ===== src/Ci/Open.antt =====
-- The watch keeps one open item for each check and each comment: a poll with the list's store under it.
use aiman.Base.{
  ℕ, ◌+◌, ◌≤◌, ◌≡◌, refl, Bool, true, false, not, ◌&&◌, List, [], ◌∷◌, String, str_eq, str_eq_iff,
  Bool-cases, inl, inr, arith, All, ◌⊎◌,
}
use aiman.Todo.Types.{TodoItem, TodoList, pending, is_open, new_item, author_aiman}
use aiman.Todo.Store.{ok}
use aiman.Todo.Update.{mutate}
use aiman.Todo.Update.Counts.{IsKind, count-mutate}
use aiman.Todo.Mirror.Count.{count, count-append}
use aiman.Ci.{conclusion_success, Check, PrView}
use aiman.Ci.Watch.{
  Session, World, Outside, Answers, call, mutate_todos, mark_escalated, escalate, open_todo_by_ref,
  is_some, append_unless_open, close_open, items_on,
}
use aiman.Ci.Poll.{polls}
use aiman.Ci.Laws.{IsKept, seen_checks, polls-Keeps}

-- `openTodoByRef` would find the item.
abbrev pub is_open_for : String → TodoItem → Bool
is_open_for ref it = str_eq it.ref ref && is_open it.state

module _ (ref : String) where
  is_open_for-IsKind : IsKind (is_open_for ref)
  is_open_for-IsKind = record {
    reporting = λ it v. refl;
    naming = λ it id. refl;
    signing = λ it author now. refl;
    demoting = λ it h. ground arith;
  }

  count-none :
      (items : List TodoItem)
      → is_some (open_todo_by_ref ref items) ≡ false
      → count (is_open_for ref) items ≡ 0
  unfolding open_todo_by_ref
  count-none [] h = refl
  count-none (it ∷ items) h = ground (arith, count-none items)

  count-append_unless_open :
      (other text : String) (items : List TodoItem)
      → count (is_open_for ref) items ≤ 1
      → count (is_open_for ref) (append_unless_open other text items) ≤ 1
  unfolding append_unless_open
  count-append_unless_open other text items le = elim (Bool-cases (str_eq other ref)) [
    | inl h ↦
        let eq : other ≡ ref = (str_eq_iff other ref).0 h in
        rw eq (
          ground (
            arith,
            count-append (is_open_for ref) items (new_item text pending ref ∷ []),
            count-none items,
          ))
    | inr h ↦
        ground (arith, count-append (is_open_for ref) items (new_item text pending other ∷ []))
  ]

  count-close_open :
      (other : String) (items : List TodoItem)
      → count (is_open_for ref) (close_open other items) ≤ count (is_open_for ref) items
  unfolding close_open
  count-close_open other [] = omega arith
  count-close_open other (it ∷ items) = ground (arith, count-close_open other items)

module _ (o : Outside) (s : Session) (ref : String) where
  abbrev pub opens : World → ℕ
  opens w = count (is_open_for ref) (items_on s.id w.disk)

  abbrev edit_items : (List TodoItem → List TodoItem) → TodoList → TodoList
  edit_items fn l = record l { items = fn l.items }

  -- The file after the call, where the call reaches the store.
  mutate_todos-disk :
      (fn : List TodoItem → List TodoItem) (w : World)
      → o.fails w.calls ≡ false
      → (mutate_todos o s fn w).1.disk
        ≡ (mutate o.unicode s.id author_aiman
            (λ l. ok (edit_items fn l))
            (o.now (w.calls + 1))
            (not (o.fails (w.calls + 1)))
            w.disk).1
  unfolding mutate_todos call
  mutate_todos-disk fn w h = ground arith

  mutate_todos-idle :
      (fn : List TodoItem → List TodoItem) (w : World)
      → o.fails w.calls ≡ true
      → (mutate_todos o s fn w).1.disk ≡ w.disk
  unfolding mutate_todos call
  mutate_todos-idle fn w h = ground arith

  mutate_todos-opens :
      (fn : List TodoItem → List TodoItem) (w : World)
      → (opens (mutate_todos o s fn w).1 ≡ opens w)
        ⊎ (opens (mutate_todos o s fn w).1 ≡ count (is_open_for ref) (fn (items_on s.id w.disk)))
  mutate_todos-opens fn w = elim (Bool-cases (o.fails w.calls)) [
    | inl h ↦ inl (rw (mutate_todos-idle fn w h) refl)
    | inr h ↦
        elim (count-mutate (is_open_for ref) (is_open_for-IsKind ref) o.unicode s.id author_aiman
          (edit_items fn) (o.now (w.calls + 1)) (not (o.fails (w.calls + 1))) w.disk) [
            | inl e ↦ inl (rw (mutate_todos-disk fn w h, e) refl)
            | inr (d, l, e) ↦ inr (rw (mutate_todos-disk fn w h, l) e)
          ]
  ]

  abbrev OneOpen : World → World → Type 0
  OneOpen a b = opens a ≤ 1 → opens b ≤ 1

  add-OneOpen :
      (w : World) (other text : String)
      → OneOpen w (mutate_todos o s (append_unless_open other text) w).1
  add-OneOpen w other text le = ground (
    arith,
    mutate_todos-opens (append_unless_open other text) w,
    count-append_unless_open ref other text (items_on s.id w.disk) le,
  )

  close-OneOpen : (w : World) (other : String) → OneOpen w (mutate_todos o s (close_open other) w).1
  close-OneOpen w other le = ground (
    arith,
    mutate_todos-opens (close_open other) w,
    count-close_open ref other (items_on s.id w.disk),
  )

  escalate-disk : (w : World) (pr : PrView) (c : Check) → (escalate o s pr c w).1.disk ≡ w.disk
  unfolding escalate call mark_escalated
  escalate-disk w pr c = ground arith

  OneOpen-IsKept : IsKept o s (λ _. Unit {0}) OneOpen
  OneOpen-IsKept = record {
    same = λ w le. le;
    chain = λ a b c p q le. q (p le);
    calling = λ w n le. le;
    adding = add-OneOpen;
    closing = close-OneOpen;
    noting = λ w notes le. le;
    viewing = λ w viewer le. le;
    watching = λ w watches le. le;
    seeing = λ w seen le. le;
    clearing = λ w other _ le. le;
    recording = λ w other sha le. le;
    escalating = λ w pr c _ le. rw (escalate-disk w pr c) le;
  }

pub any_check :
    (checks : List Check) → All (λ c. c.conclusion ≡ conclusion_success → Unit {0}) checks
any_check [] = tt
any_check (c ∷ checks) = (λ _. tt, any_check checks)

pub any_answers :
    (answers : List Answers)
    → All
        (λ a. All (λ c. c.conclusion ≡ conclusion_success → Unit {0}) (seen_checks a.pr_view))
        answers
any_answers [] = tt
any_answers (a ∷ answers) = (any_check (seen_checks a.pr_view), any_answers answers)

-- However often a pull request is polled, whatever GitHub answers and whichever calls fail, the list of
-- the session has at most one open item for a check or a comment, if it had at most one before.
pub one_open_item :
    (o : Outside) (s : Session) (ref : String) (answers : List Answers) (w : World)
    → opens o s ref w ≤ 1
    → opens o s ref (polls o s answers w) ≤ 1
one_open_item o s ref answers w le =
    polls-Keeps o s (λ _. Unit {0}) (OneOpen o s ref) (OneOpen-IsKept o s ref) answers w
      (any_answers answers) le
