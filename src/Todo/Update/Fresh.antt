-- ===== src/Todo/Update/Fresh.antt =====
-- The merge base of a list that was never written in an older format.
use aiman.Base.{ℕ, ◌≡◌, ◌≢◌, Bool, List, [], ◌∷◌, none, String, All, arith}
use aiman.Todo.Types.{TodoItem, TodoAuthor}
use aiman.Todo.Change.{Op}
use aiman.Todo.Store.{
  FileData, absent, stored, ok, load, loaded, seed, seed_all, migrate_mirror_base,
}
use aiman.Todo.Normalize.{Unicode}
use aiman.Todo.Update.{WriteSource, Edit, Draft, update, written}
use aiman.Todo.Update.Invariant.{update_disk}

abbrev pub HasSeen : TodoItem → Type 0
HasSeen it = it.seen ≢ none

HasSeen-seed : (it : TodoItem) → HasSeen (seed it)
unfolding seed
HasSeen-seed it = ground arith

All-seed_all : (items : List TodoItem) → All HasSeen (seed_all items)
All-seed_all [] = tt
All-seed_all (it ∷ items) = (HasSeen-seed it, All-seed_all items)

loaded-HasSeen :
    (id : String) (d : FileData) → d.mirror_version ≡ 0 → All HasSeen (loaded id d).list.items
unfolding loaded migrate_mirror_base
loaded-HasSeen id d e = rw e (All-seed_all d.list.items)

load_absent_version : (id : String) {d : FileData} → load id absent ≡ ok d → d.mirror_version ≡ 0
unfolding load
load_absent_version id e = ground arith

-- The first write of a new list leaves the old format's version in the file: whatever that write
-- was, the next load gives every item that it stored a merge base, as if an agent's task list had
-- reported it.
pub update-HasSeen :
    (u : Unicode) (id : String) (author : TodoAuthor) (source : WriteSource) (fn : Edit) (now : ℕ)
    (write_ok : Bool) (d : FileData)
    → (update u id author source fn now write_ok absent).1 ≡ stored d
    → All HasSeen (loaded id d).list.items
unfolding written
update-HasSeen u id author source fn now write_ok d =
    update_disk (λ after. after ≡ stored d → All HasSeen (loaded id d).list.items) u id author
      source fn now write_ok absent (λ e. cc)
      λ d' t f g ops e. loaded-HasSeen id d (version d' t f ops e)
  where
    version :
        (d' : FileData) (t : Draft)
        → load id absent ≡ ok d'
        → (ops : List Op) → stored (written u source author d' t ops now) ≡ stored d
        → d.mirror_version ≡ 0
    version d' t f ops e = ground (arith, load_absent_version id f)
