-- ===== src/Todo/Update/Invariant.antt =====
-- Every file that `update` writes is valid.
use aiman.Base.{
  ℕ, ◌≤◌, ◌≡◌, refl, Bool, true, false, ◌&&◌, List, [], ◌++◌, none, String, if◌then◌else◌, length,
  arith, Bool-cases, inl, inr, ◌∙◌, ◌==◌, ◌⊎◌, ◌≢◌,
}
use aiman.Todo.Types.{TodoItem, TodoList, TodoAuthor, author_agent, is_agent}
use aiman.Todo.Ids.{ids}
use aiman.Todo.Change.{Op, diff}
use aiman.Todo.Store.{
  FileData, Tombstone, Disk, stored, absent, unreadable, Result, ok, err, StoreError, validate,
  assign_ids, check_unique_ids, demote_extra_active, done_ticked, load, loaded,
}
use aiman.Todo.Stamp.{present_ids, stamp, add_tombstones, add_retexts, retexts_of, dead}
use aiman.Todo.Normalize.{Unicode}
use aiman.Todo.Valid.{IsValidList, IsValidFile, IsValidDisk, actives}
use aiman.Todo.Update.{
  WriteSource, source_cli, Edit, Draft, is_cli, ◌>>=◌, is_unchanged, checked, draft, pinned,
  written, commit, update,
}
use aiman.Todo.Update.Checks.{
  validate-All, All-assign_ids, check_unique_ids-Distinct, present_ids-Within,
  done_ticked-assign_ids,
}
use aiman.Todo.Update.Active.{
  All-demote_others, demote_extra_active-actives, done_ticked-demote_others,
}
use aiman.Todo.Update.Stamped.{
  ids-stamp, All-stamp, actives-stamp, done_ticked-stamp, length-keep_last,
}

pub Result-cases :
    {A : Type 0} (m : Result A) → ((a : A) × (m ≡ ok a)) ⊎ ((e : StoreError) × (m ≡ err e))
Result-cases (ok a) = inl (a, refl)
Result-cases (err e) = inr (e, refl)

-- What ran before a result: the first action succeeded, and the second one gave the result.
>>=-eq-ok :
    {A B : Type 0} (first : Result A) (follow : A → Result B) {result : B}
    → (first >>= follow) ≡ ok result
    → (value : A) × (first ≡ ok value) × (follow value ≡ ok result)
>>=-eq-ok (err failure) follow e = cc
>>=-eq-ok (ok value) follow e = (value, refl, e)

module _ (source : WriteSource) (author : TodoAuthor) (id : String) (d : FileData) where
  abbrev numbered : List TodoItem → List TodoItem
  numbered items = (assign_ids d.next_id items).0

  -- What a draft that passed the checks is.
  pub checked-eq-ok :
      (l : TodoList) (items : List TodoItem) {t : Draft}
      → checked source author id d l items ≡ ok t
      → ((is_cli source && is_agent author && done_ticked items) ≡ false)
        × (validate items ≡ none)
        × (check_unique_ids [] (numbered items) ≡ none)
        × (t.next.items ≡ demote_extra_active d.list.items (numbered items))
        × (t.next.not_in_agent ≡ present_ids (ids t.next.items) l.not_in_agent)
  unfolding checked
  checked-eq-ok l items e = ground arith

  actives_le : (n : ℕ) → (if n == 0 then 0 else 1) ≤ 1
  actives_le n = ground arith

  checked-IsValidList :
      (l : TodoList) (items : List TodoItem) {t : Draft}
      → checked source author id d l items ≡ ok t
      → IsValidList t.next
  checked-IsValidList l items {t} e =
      let (_, texts, unique, kept, listed) = checked-eq-ok l items {t = t} e in
      let (one, same_ids, _) = demote_extra_active-actives d.list.items (numbered items) in
      record {
        items_valid = rw kept (
            unfold demote_extra_active in
            All-demote_others 0 _ (numbered items)
              (All-assign_ids d.next_id items (validate-All items texts)));
        ids_distinct = rw (kept, same_ids) (check_unique_ids-Distinct (numbered items) unique);
        one_active = rw (kept, one) (actives_le (actives (numbered items)));
        listed_present = rw listed (present_ids-Within (ids t.next.items) l.not_in_agent);
      }

  -- An agent's own write never leaves the Done-when item ticked.
  checked_done :
      (l : TodoList) (items : List TodoItem) {t : Draft}
      → checked source author id d l items ≡ ok t
      → (is_cli source && is_agent author) ≡ true
      → done_ticked t.next.items ≡ false
  checked_done l items {t} e own =
      let (unticked, _, _, kept, _) = checked-eq-ok l items {t = t} e in
      rw kept (
        unfold demote_extra_active in
        rw (done_ticked-demote_others, done_ticked-assign_ids) (ground arith))

  -- A draft is the checks' outcome on some edited list.
  draft-eq-ok :
      (fn : Edit) (now : ℕ) {t : Draft}
      → draft source author id d fn now ≡ ok t
      → (l : TodoList) × (items : List TodoItem) × (checked source author id d l items ≡ ok t)
  unfolding draft
  draft-eq-ok fn now {t} e =
      let (l, _, c) =
        >>=-eq-ok (fn d.list d now)
          (λ l. checked source author id d l (pinned source d.list.items l.items)) {result = t} e in
      (l, pinned source d.list.items l.items, c)

tombstones_le :
    (ts : List Tombstone) (prev next : List TodoItem) (now : ℕ)
    → length (add_tombstones ts prev next now) ≤ 50
unfolding add_tombstones
tombstones_le ts prev next now = length-keep_last (ts ++ dead prev (ids next) now)

module _ (u : Unicode) (source : WriteSource) (author : TodoAuthor) (d : FileData) (t : Draft) where
  retexts_le :
      (prev next : List TodoItem) (now : ℕ)
      → length d.retexts ≤ 50
      → length (if is_cli source then add_retexts u d.retexts prev next now else d.retexts) ≤ 50
  unfolding add_retexts
  retexts_le prev next now r =
      ground (arith, length-keep_last (d.retexts ++ retexts_of u prev next now))

  written-IsValidFile :
      (ops : List Op) (now : ℕ)
      → IsValidList t.next
      → length d.retexts ≤ 50
      → IsValidFile (written u source author d t ops now)
  unfolding written
  written-IsValidFile ops now v r =
      let prev = d.list.items in
      let same_ids = ids-stamp prev ops author now t.next.items in
      record {
        list_valid = record {
          items_valid = All-stamp prev ops author now t.next.items v.items_valid;
          ids_distinct = rw same_ids v.ids_distinct;
          one_active = rw (actives-stamp prev ops author now t.next.items) v.one_active;
          listed_present = rw same_ids v.listed_present;
        };
        tombstones_bounded =
            tombstones_le d.tombstones prev (stamp prev ops author now t.next.items) now;
        retexts_bounded = retexts_le prev (stamp prev ops author now t.next.items) now r;
      }

-- The file after `commit` is the old one or the written one.
commit_disk :
    (P : Disk → Type 0) (u : Unicode) (source : WriteSource) (author : TodoAuthor) (d : FileData)
    (t : Draft) (now : ℕ) (disk : Disk) (write_ok : Bool)
    → P disk
    → ((ops : List Op) → P (stored (written u source author d t ops now)))
    → P (commit u source author d t now disk write_ok).1
unfolding commit
commit_disk P u source author d t now disk write_ok old new =
    elim (Bool-cases (is_unchanged d.list t.next (diff d.list.items t.next.items))) [
      | inl e ↦ rw e old
      | inr e ↦ rw e (elim (Bool-cases write_ok) [
        | inl w ↦ rw w (new (diff d.list.items t.next.items))
        | inr w ↦ rw w old
      ])
    ]

-- The file after `update` is the old one, or the written one of a draft that passed the checks.
pub update_disk :
    (P : Disk → Type 0) (u : Unicode) (id : String) (author : TodoAuthor) (source : WriteSource)
    (fn : Edit) (now : ℕ) (write_ok : Bool) (disk : Disk)
    → P disk
    → ((d : FileData) (t : Draft)
        → load id disk ≡ ok d
        → draft source author id d fn now ≡ ok t
        → (ops : List Op) → P (stored (written u source author d t ops now)))
    → P (update u id author source fn now write_ok disk).1
unfolding update
update_disk P u id author source fn now write_ok disk old new = elim (Result-cases (load id disk)) [
  | inr (e, f) ↦ rw (f, update) old
  | inl (d, f) ↦
      rw (f, update)
        (elim (Result-cases (draft source author id d fn now)) [
          | inr (e, g) ↦ rw g old
          | inl (t, g) ↦
              rw g (commit_disk P u source author d t now disk write_ok old (new d t f g))
        ])
]

load_retexts :
    (id : String) (disk : Disk) {d : FileData}
    → load id disk ≡ ok d
    → IsValidDisk disk
    → length d.retexts ≤ 50
unfolding load loaded
load_retexts id absent e v = ground arith
load_retexts id unreadable e v = cc
load_retexts id (stored d) e v = ground arith

-- Whatever the caller's edit does, whoever the author is, and whether the file system takes the
-- write or not: the file after `update` is valid if the file before it was. So in every list that
-- is written each item has a text that is not blank and a known state, the ids are distinct, at most
-- one item is active, NotInAgent names items of the list, and both histories have at most 50
-- entries.
pub update-IsValidDisk :
    (u : Unicode) (id : String) (author : TodoAuthor) (source : WriteSource) (fn : Edit) (now : ℕ)
    (write_ok : Bool) (disk : Disk)
    → IsValidDisk disk
    → IsValidDisk (update u id author source fn now write_ok disk).1
update-IsValidDisk u id author source fn now write_ok disk v =
    update_disk IsValidDisk u id author source fn now write_ok disk v λ d t f g ops.
      let (l, items, c) = draft-eq-ok source author id d fn now {t = t} g in
      written-IsValidFile u source author d t ops now
        (checked-IsValidList source author id d l items c) (load_retexts id disk f v)

-- The Done-when item of the list on disk is not ticked.
abbrev pub Unticked : Disk → Type 0
Unticked (stored d) = done_ticked d.list.items ≡ false
Unticked _ = Unit

-- An agent's own write, one that is no mirror of its task list, cannot tick the Done-when item: the
-- file after it is the old one, or one whose Done-when item is not ticked. So a list on disk that
-- is not ticked stays so, whatever the edit.
pub update-Unticked :
    (u : Unicode) (id : String) (fn : Edit) (now : ℕ) (write_ok : Bool) (disk : Disk)
    → (update u id author_agent source_cli fn now write_ok disk).1 ≢ disk
    → Unticked (update u id author_agent source_cli fn now write_ok disk).1
update-Unticked u id fn now write_ok disk =
    update_disk (λ after. after ≢ disk → Unticked after) u id author_agent source_cli fn now
      write_ok disk (λ ne. absurd (ne refl))
      λ d t f g ops ne.
        let (l, items, c) = draft-eq-ok source_cli author_agent id d fn now {t = t} g in
        unfold written in
        done_ticked-stamp d.list.items ops author_agent now t.next.items
        ∙ checked_done source_cli author_agent id d l items c refl
