-- ===== src/Ci/Escalation.antt =====
-- When a check is escalated: once until it passes, and only after enough failed fixes.
use aiman.Base.{
  ℕ, ◌+◌, ◌≤◌, ◌<◌, ◌≡◌, refl, sym, true, false, List, [], ◌∷◌, String, str_eq, str_eq_iff,
  str_eq_refl, if◌then◌else◌, Bool-cases, inl, inr, arith, All, ◌⊎◌, if-elim,
}
use aiman.Todo.Types.{TodoItem}
use aiman.Ci.{conclusion_success, Check, PrView}
use aiman.Ci.Tables.{
  FailureRow, EscalationRow, names_check, has_failure, insert_failure, count_failures,
  delete_failures, is_escalated, mark_check_escalated, delete_escalations, clear_check,
}
use aiman.Ci.Watch.{
  max_fix_attempts, Session, World, Outside, Answers, Escalation, call, mutate_todos,
  mark_escalated, escalation, escalate, append_unless_open, close_open,
}
use aiman.Ci.Poll.{polls}
use aiman.Ci.Laws.{IsKept, seen_checks, polls-Keeps}

-- The `Emit` calls for a check.
abbrev pub count_emitted : String → List Escalation → ℕ
count_emitted check [] = 0
count_emitted check (e ∷ es) = (if str_eq e.check check then 1 else 0) + count_emitted check es

-- Not this check.
abbrev pub IsOther : String → String → Type 0
IsOther check other = str_eq other check ≡ false

module _ (session check : String) where
  same_name :
      (other r : String)
      → str_eq other check ≡ false
      → str_eq r other ≡ true
      → str_eq r check ≡ false
  same_name other r ne e = let eq : r ≡ other = (str_eq_iff r other).0 e in rw eq ne

  escalated-delete :
      (other : String) (rows : List EscalationRow)
      → IsOther check other
      → is_escalated session check (delete_escalations session other rows)
        ≡ is_escalated session check rows
  unfolding is_escalated delete_escalations
  escalated-delete other [] ne = refl
  escalated-delete other (r ∷ rows) ne =
      let ih = escalated-delete other rows ne in
      elim (Bool-cases (str_eq r.check other)) [
        | inl h ↦ ground (arith, same_name other r.check ne h)
        | inr h ↦ ground arith
      ]

  count-delete :
      (other : String) (rows : List FailureRow)
      → IsOther check other
      → count_failures session check (delete_failures session other rows)
        ≡ count_failures session check rows
  unfolding count_failures delete_failures
  count-delete other [] ne = refl
  count-delete other (r ∷ rows) ne =
      let ih = count-delete other rows ne in
      elim (Bool-cases (str_eq r.check other)) [
        | inl h ↦ ground (arith, same_name other r.check ne h)
        | inr h ↦ ground arith
      ]

  count-insert :
      (other sha : String) (rows : List FailureRow)
      → count_failures session check rows
        ≤ count_failures session check (insert_failure session other sha rows)
  unfolding count_failures insert_failure
  count-insert other sha rows = ground arith

module _ (o : Outside) (s : Session) where
  -- A write of the list changes no table and emits nothing.
  mutate_todos-Apart :
      (fn : List TodoItem → List TodoItem) (w : World)
      → ((mutate_todos o s fn w).1.tables ≡ w.tables)
        × ((mutate_todos o s fn w).1.emitted ≡ w.emitted)
  unfolding mutate_todos call
  mutate_todos-Apart fn w = ground arith

  -- What an escalation does: nothing, or it is new, and emitted at most once.
  escalate-cases :
      (pr : PrView) (c : Check) (w : World)
      → (let v = (escalate o s pr c w).1 in
          (v.tables ≡ w.tables) × (v.emitted ≡ w.emitted)
          ⊎ (is_escalated s.id c.name w.tables.escalations ≡ false)
            × (v.tables.failures ≡ w.tables.failures)
            × (v.tables.escalations
                ≡ record { session = s.id; check = c.name } ∷ w.tables.escalations)
            × ((v.emitted ≡ w.emitted) ⊎ (v.emitted ≡ escalation o s pr c ∷ w.emitted)))
  unfolding escalate call mark_escalated mark_check_escalated
  escalate-cases pr c w = ground arith

module _ (o : Outside) (s : Session) (check : String) where
  -- How much a check may still be escalated, and how much it was.
  abbrev spent : World → ℕ
  spent w =
      count_emitted check w.emitted
      + (if is_escalated s.id check w.tables.escalations then 0 else 1)

  abbrev Spends : World → World → Type 0
  Spends a b = spent b ≤ spent a

  escalate-Spends : (w : World) (pr : PrView) (c : Check) → Spends w (escalate o s pr c w).1
  unfolding is_escalated
  escalate-Spends w pr c = elim (Bool-cases (str_eq c.name check)) [
    | inl h ↦
        let eq : c.name ≡ check = (str_eq_iff c.name check).0 h in
        ground (arith, escalate-cases o s pr c w, str_eq_refl s.id)
    | inr h ↦ ground (arith, escalate-cases o s pr c w)
  ]

  Spends-IsKept : IsKept o s (IsOther check) Spends
  unfolding clear_check
  Spends-IsKept = record {
    same = λ w. omega arith;
    chain = λ a b c p q. omega (arith, p, q);
    calling = λ w n. omega arith;
    adding = λ w ref text. ground (arith, mutate_todos-Apart o s (append_unless_open ref text) w);
    closing = λ w ref. ground (arith, mutate_todos-Apart o s (close_open ref) w);
    noting = λ w notes. omega arith;
    viewing = λ w viewer. omega arith;
    watching = λ w watches. omega arith;
    seeing = λ w seen. omega arith;
    clearing =
        λ w other ne. ground (arith, escalated-delete s.id check other w.tables.escalations ne);
    recording = λ w other sha. omega arith;
    escalating = λ w pr c more. escalate-Spends w pr c;
  }

  -- No Emit for the check without the failures that call for one, and none of those is forgotten.
  abbrev Waits : World → World → Type 0
  Waits a b =
      (count_failures s.id check a.tables.failures ≤ count_failures s.id check b.tables.failures)
      × ((count_emitted check b.emitted ≤ count_emitted check a.emitted)
          ⊎ (3 < count_failures s.id check b.tables.failures))

  escalate-Waits :
      (w : World) (pr : PrView) (c : Check)
      → 3 < count_failures s.id c.name w.tables.failures
      → Waits w (escalate o s pr c w).1
  escalate-Waits w pr c more = elim (Bool-cases (str_eq c.name check)) [
    | inl h ↦
        let eq : c.name ≡ check = (str_eq_iff c.name check).0 h in
        let more' : 3 < count_failures s.id check w.tables.failures = rw (sym eq) more in
        ground (arith, escalate-cases o s pr c w)
    | inr h ↦ ground (arith, escalate-cases o s pr c w)
  ]

  Waits-IsKept : IsKept o s (IsOther check) Waits
  unfolding clear_check
  Waits-IsKept = record {
    same = λ w. ground arith;
    chain = λ a b c p q. ground (arith, p, q);
    calling = λ w n. ground arith;
    adding = λ w ref text. ground (arith, mutate_todos-Apart o s (append_unless_open ref text) w);
    closing = λ w ref. ground (arith, mutate_todos-Apart o s (close_open ref) w);
    noting = λ w notes. ground arith;
    viewing = λ w viewer. ground arith;
    watching = λ w watches. ground arith;
    seeing = λ w seen. ground arith;
    clearing = λ w other ne. ground (arith, count-delete s.id check other w.tables.failures ne);
    recording = λ w other sha. ground (arith, count-insert s.id check other sha w.tables.failures);
    escalating = λ w pr c more. escalate-Waits w pr c more;
  }

-- No two rows for one commit.
abbrev pub NoRepeat : List FailureRow → Type 0
NoRepeat [] = Unit {0}
NoRepeat (r ∷ rows) = (has_failure r.session r.check r.sha rows ≡ false) × NoRepeat rows

has_failure-delete :
    (session check sha s c : String) (rows : List FailureRow)
    → has_failure session check sha rows ≡ false
    → has_failure session check sha (delete_failures s c rows) ≡ false
unfolding has_failure delete_failures
has_failure-delete session check sha s c [] h = refl
has_failure-delete session check sha s c (r ∷ rows) h =
    ground (arith, has_failure-delete session check sha s c rows)

NoRepeat-delete :
    (s c : String) (rows : List FailureRow) → NoRepeat rows → NoRepeat (delete_failures s c rows)
unfolding delete_failures
NoRepeat-delete s c [] h = tt
NoRepeat-delete s c (r ∷ rows) (h, hs) =
    if-elim NoRepeat (names_check s c r) (λ _. NoRepeat-delete s c rows hs)
      (λ _. (has_failure-delete r.session r.check r.sha s c rows h, NoRepeat-delete s c rows hs))

NoRepeat-insert :
    (s c sha : String) (rows : List FailureRow)
    → NoRepeat rows
    → NoRepeat (insert_failure s c sha rows)
unfolding insert_failure
NoRepeat-insert s c sha rows h = if-elim NoRepeat (has_failure s c sha rows) (λ _. h) (λ e. (e, h))

module _ (o : Outside) (s : Session) where
  abbrev StaysDistinct : World → World → Type 0
  StaysDistinct a b = NoRepeat a.tables.failures → NoRepeat b.tables.failures

  StaysDistinct-same : (a b : World) → b.tables.failures ≡ a.tables.failures → StaysDistinct a b
  StaysDistinct-same a b e h = rw e h

  StaysDistinct-IsKept : (check : String) → IsKept o s (IsOther check) StaysDistinct
  unfolding clear_check
  StaysDistinct-IsKept check = record {
    same = λ w h. h;
    chain = λ a b c p q h. q (p h);
    calling = λ w n h. h;
    adding = λ w ref text.
        StaysDistinct-same w (mutate_todos o s (append_unless_open ref text) w).1
          (ground (arith, mutate_todos-Apart o s (append_unless_open ref text) w));
    closing = λ w ref.
        StaysDistinct-same w (mutate_todos o s (close_open ref) w).1
          (ground (arith, mutate_todos-Apart o s (close_open ref) w));
    noting = λ w notes h. h;
    viewing = λ w viewer h. h;
    watching = λ w watches h. h;
    seeing = λ w seen h. h;
    clearing = λ w other ne h. NoRepeat-delete s.id other w.tables.failures h;
    recording = λ w other sha h. NoRepeat-insert s.id other sha w.tables.failures h;
    escalating = λ w pr c more.
        StaysDistinct-same w (escalate o s pr c w).1 (ground (arith, escalate-cases o s pr c w));
  }

-- No poll sees the check pass.
abbrev pub NeverPasses : String → List Answers → Type 0
NeverPasses check = All (λ a.
    All (λ c. c.conclusion ≡ conclusion_success → str_eq c.name check ≡ false)
      (seen_checks a.pr_view))

-- While no poll sees a check pass, it is escalated at most once: not at all if it was escalated before.
-- The polls may fail at any call of the store, the to-dos or the notifier.
pub escalates_once :
    (o : Outside) (s : Session) (check : String) (answers : List Answers) (w : World)
    → NeverPasses check answers
    → count_emitted check (polls o s answers w).emitted
      ≤ count_emitted check w.emitted
        + (if is_escalated s.id check w.tables.escalations then 0 else 1)
escalates_once o s check answers w never =
    let kept =
      polls-Keeps o s (IsOther check) (Spends o s check) (Spends-IsKept o s check) answers w
        never in
    omega (arith, kept)

-- While no poll sees a check pass, an escalation of it means that the check has by then failed at more
-- than `max_fix_attempts`, which is 3, different commits: so many rows are its own, and no two rows, of
-- which none stood twice before, are for one commit of one check.
pub escalates_late :
    (o : Outside) (s : Session) (check : String) (answers : List Answers) (w : World)
    → NeverPasses check answers
    → NoRepeat w.tables.failures
    → count_emitted check w.emitted < count_emitted check (polls o s answers w).emitted
    → (max_fix_attempts < count_failures s.id check (polls o s answers w).tables.failures)
      × NoRepeat (polls o s answers w).tables.failures
escalates_late o s check answers w never distinct more =
    let kept =
      polls-Keeps o s (IsOther check) (Waits o s check) (Waits-IsKept o s check) answers w never in
    let still =
      polls-Keeps o s (IsOther check) (StaysDistinct o s) (StaysDistinct-IsKept o s check) answers w
        never in
    (ground (arith, kept), still distinct)
