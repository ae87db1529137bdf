-- ===== src/Todo/Update/Counts.antt =====
-- How many items of a kind a write stores: as many as the list that the caller's edit made.
use aiman.Base.{
  ℕ, ◌+◌, ◌≡◌, ◌∙◌, refl, Bool, true, List, [], ◌∷◌, Option, some, String, str_eq, Bool-cases,
  Option-cases, inl, inr, arith, ◌⊎◌,
}
use aiman.Todo.Types.{TodoItem, TodoList, TodoAuthor, SnapshotView, pending, is_active}
use aiman.Todo.Normalize.{Unicode}
use aiman.Todo.Change.{Op, diff, last_at}
use aiman.Todo.Store.{
  FileData, Disk, stored, ok, load, loaded, items_of, migrate_mirror_base, seed, seed_all,
  carry_seen, assign_ids, demote_others, demote_extra_active,
}
use aiman.Todo.Stamp.{stamp_item, stamp}
use aiman.Todo.Update.{
  WriteSource, source_cli, Draft, pinned, checked, draft, commit, is_unchanged, written, update,
  mutate,
}
use aiman.Todo.Update.Invariant.{checked-eq-ok, Result-cases}
use aiman.Todo.Mirror.Count.{count, count-pin_done_last}

-- Whether an item is of the kind depends on its text, its state and its link, and an active item is as
-- good as a pending one.
pub record IsKind (p : TodoItem → Bool) : Type 0 where
  pub reporting : (it : TodoItem) (v : Option SnapshotView) → p (record it { seen = v }) ≡ p it
  pub naming : (it : TodoItem) (id : String) → p (record it { id = id }) ≡ p it
  pub signing :
      (it : TodoItem) (author : TodoAuthor) (now : ℕ)
      → p (record it { updated_by = author; updated_at = now }) ≡ p it
  pub demoting :
      (it : TodoItem) → is_active it.state ≡ true → p (record it { state = pending }) ≡ p it

module _ (p : TodoItem → Bool) (kind : IsKind p) where
  count-carry_seen : (prev items : List TodoItem) → count p (carry_seen prev items) ≡ count p items
  unfolding carry_seen
  count-carry_seen prev [] = refl
  count-carry_seen prev (it ∷ items) = elim (Option-cases (last_at 0 it.id prev)) [
    | inl e ↦ ground (arith, count-carry_seen prev items)
    | inr ((i, old), e) ↦ ground (arith, kind.reporting it old.seen, count-carry_seen prev items)
  ]

  count-seed_all : (items : List TodoItem) → count p (seed_all items) ≡ count p items
  unfolding seed
  count-seed_all [] = refl
  count-seed_all (it ∷ items) = elim (Option-cases it.seen) [
    | inl e ↦ ground (
      arith,
      kind.reporting it (some (record { text = it.text; state = it.state })),
      count-seed_all items,
    )
    | inr (v, e) ↦ ground (arith, count-seed_all items)
  ]

  count-assign_ids :
      (next : ℕ) (items : List TodoItem) → count p (assign_ids next items).0 ≡ count p items
  unfolding assign_ids
  count-assign_ids next [] = refl
  count-assign_ids next (it ∷ items) = elim (Bool-cases (str_eq it.id "")) [
    | inl e ↦ rw (e, count-assign_ids (next + 1) items, kind.naming it) refl
    | inr e ↦ rw (e, count-assign_ids next items) refl
  ]

  count-demote_others :
      (i : ℕ) (keep : Option (ℕ × Bool)) (items : List TodoItem)
      → count p (demote_others i keep items) ≡ count p items
  unfolding demote_others
  count-demote_others i keep [] = refl
  count-demote_others i keep (it ∷ items) =
      ground (arith, kind.demoting it, count-demote_others (i + 1) keep items)

  count-stamp :
      (prev : List TodoItem) (ops : List Op) (author : TodoAuthor) (now : ℕ) (items : List TodoItem)
      → count p (stamp prev ops author now items) ≡ count p items
  unfolding stamp stamp_item
  count-stamp prev ops author now [] = refl
  count-stamp prev ops author now (it ∷ items) = elim (Option-cases (last_at 0 it.id prev)) [
    | inl e ↦ ground (arith, kind.signing it author now, count-stamp prev ops author now items)
    | inr ((i, old), e) ↦ ground (
      arith,
      kind.signing it author now,
      kind.signing it old.updated_by old.updated_at,
      count-stamp prev ops author now items,
    )
  ]

  count-loaded :
      (id : String) (d : FileData) → count p (loaded id d).list.items ≡ count p d.list.items
  unfolding loaded migrate_mirror_base
  count-loaded id d = ground (arith, count-seed_all d.list.items)

  count-pinned :
      (source : WriteSource) (prev items : List TodoItem)
      → count p (pinned source prev items) ≡ count p items
  unfolding pinned
  count-pinned source prev items = ground (
    arith,
    count-carry_seen prev items,
    count-pin_done_last p items,
    count-pin_done_last p (carry_seen prev items),
  )

  module _ (source : WriteSource) (author : TodoAuthor) (id : String) (d : FileData) where
    count-checked :
        (l : TodoList) (items : List TodoItem) {t : Draft}
        → checked source author id d l items ≡ ok t
        → count p t.next.items ≡ count p items
    unfolding demote_extra_active
    count-checked l items {t} e =
        let (_, _, _, kept, _) = checked-eq-ok source author id d l items {t = t} e in
        rw kept (
          count-demote_others 0 _ (assign_ids d.next_id items).0 ∙ count-assign_ids d.next_id items)

    count-written :
        (u : Unicode) (t : Draft) (ops : List Op) (now : ℕ)
        → count p (items_of (load id (stored (written u source author d t ops now))))
          ≡ count p t.next.items
    unfolding load written
    count-written u t ops now =
        count-loaded id (written u source author d t ops now)
        ∙ count-stamp d.list.items ops author now t.next.items

    -- After a commit the file holds what it held, or as many of the kind as the draft.
    count-commit :
        (u : Unicode) (t : Draft) (now : ℕ) (disk : Disk) (write_ok : Bool)
        → ((commit u source author d t now disk write_ok).1 ≡ disk)
          ⊎ (count p (items_of (load id (commit u source author d t now disk write_ok).1))
              ≡ count p t.next.items)
    unfolding commit
    count-commit u t now disk write_ok =
        let ops = diff d.list.items t.next.items in
        let file = written u source author d t ops now in
        let same : count p (items_of (load id (stored file))) ≡ count p t.next.items =
          count-written u t ops now in
        elim (Bool-cases (is_unchanged d.list t.next ops)) [
          | inl e ↦ inl (ground arith)
          | inr e ↦ elim (Bool-cases write_ok) [
            | inl w ↦ inr (rw (e, w, commit) same)
            | inr w ↦ inl (ground arith)
          ]
        ]

  count-draft :
      (id : String) (author : TodoAuthor) (fn : TodoList → TodoList) (now : ℕ) (d : FileData)
      {t : Draft}
      → draft source_cli author id d (λ l _ _. ok (fn l)) now ≡ ok t
      → count p t.next.items ≡ count p (fn d.list).items
  unfolding draft
  count-draft id author fn now d {t} g =
      count-checked source_cli author id d (fn d.list)
        (pinned source_cli d.list.items (fn d.list).items) {t = t} g
      ∙ count-pinned source_cli d.list.items (fn d.list).items

  -- After a mutation the file holds what it held, or as many of the kind as the edit made of it.
  pub count-mutate :
      (u : Unicode) (id : String) (author : TodoAuthor) (fn : TodoList → TodoList) (now : ℕ)
      (write_ok : Bool) (disk : Disk)
      → (let after = (mutate u id author (λ l. ok (fn l)) now write_ok disk).1 in
          (after ≡ disk)
          ⊎ ((d : FileData) × (load id disk ≡ ok d)
              × (count p (items_of (load id after)) ≡ count p (fn d.list).items)))
  unfolding mutate update
  count-mutate u id author fn now write_ok disk = elim (Result-cases (load id disk)) [
    | inr (e, h) ↦ inl (rw (h, update) refl)
    | inl (d, h) ↦ elim (Result-cases (draft source_cli author id d (λ l _ _. ok (fn l)) now)) [
      | inr (e, g) ↦ inl (rw (h, g, update) refl)
      | inl (t, g) ↦ elim (count-commit source_cli author id d u t now disk write_ok) [
        | inl same ↦ inl (rw (h, g, update) same)
        | inr same ↦ inr (d, h, rw (h, g, update) (same ∙ count-draft id author fn now d {t = t} g))
      ]
    ]
  ]
