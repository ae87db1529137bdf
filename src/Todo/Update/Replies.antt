-- ===== src/Todo/Update/Replies.antt =====
-- What `update` answers on each of its ends, and that the answer and the file agree.
use aiman.Base.{ℕ, ◌+◌, ◌≡◌, refl, Bool, true, ◌||◌, List, [], ◌∷◌, ◌++◌, String, arith, ◌⊎◌}
use aiman.Todo.Types.{TodoItem, TodoList, author_agent}
use aiman.Todo.Done.{pin_done_last}
use aiman.Todo.Store.{
  FileData, Disk, stored, Result, ok, err, done_is_evidence_backed, done_ticked, load, carry_seen,
}
use aiman.Todo.Normalize.{Unicode}
use aiman.Todo.Update.{checked, draft, pinned, mutate, Reply}

-- The reply and the file that belong together, for a list `prev` on a file `disk`: an error leaves
-- the file; an answer with no operation leaves it too, and has the list that the file holds; any
-- other answer is the list that the file now holds, one revision on.
abbrev pub Agrees : Disk → TodoList → Result Reply × Disk → Type 0
Agrees disk prev (err e, after) = after ≡ disk
Agrees disk prev (ok r, after) =
    ((after ≡ disk) × (r.list ≡ prev) × (r.change.ops ≡ []) × (r.change.rev ≡ prev.rev))
    ⊎ ((d : FileData) × (after ≡ stored d)
        × (r.list ≡ d.list)
        × (r.change.rev ≡ d.list.rev)
        × (d.list.rev ≡ prev.rev + 1))

done_ticked-carry_seen :
    (prev items : List TodoItem) → done_ticked (carry_seen prev items) ≡ done_ticked items
unfolding carry_seen done_ticked
done_ticked-carry_seen prev [] = refl
done_ticked-carry_seen prev (it ∷ items) = ground (arith, done_ticked-carry_seen prev items)

done_ticked-append :
    (xs : List TodoItem) (it : TodoItem)
    → done_ticked (xs ++ it ∷ []) ≡ (done_ticked (it ∷ []) || done_ticked xs)
unfolding done_ticked
done_ticked-append [] it = ground arith
done_ticked-append (x ∷ xs) it = ground (arith, done_ticked-append xs it)

done_ticked-pin_done_last :
    (items : List TodoItem) → done_ticked (pin_done_last items) ≡ done_ticked items
unfolding pin_done_last done_ticked
done_ticked-pin_done_last [] = refl
done_ticked-pin_done_last (it ∷ items) =
    ground (arith, done_ticked-pin_done_last items, done_ticked-append items it)

-- Once the Done-when item is ticked, every edit of an agent that leaves it ticked is refused as one
-- that ticks it, and nothing is written, whatever else the edit changes.
pub mutate_ticked :
    (u : Unicode) (id : String) (fn : TodoList → Result TodoList) (now : ℕ) (write_ok : Bool)
    (disk : Disk) {d : FileData} {l : TodoList}
    → load id disk ≡ ok d
    → fn d.list ≡ ok l
    → done_ticked l.items ≡ true
    → mutate u id author_agent fn now write_ok disk ≡ (err done_is_evidence_backed, disk)
unfolding mutate draft checked pinned
mutate_ticked u id fn now write_ok disk {d} {l} e f ticked =
    let carried = carry_seen d.list.items l.items in
    ground (arith, done_ticked-pin_done_last carried, done_ticked-carry_seen d.list.items l.items)
