-- ===== src/Todo/Tests.antt =====
-- Lists at work, and each theorem at a concrete list.
use aiman.Base.{List, [], ◌∷◌, ◌++◌, String, true, none, ◌≡◌, ◌≢◌, ◌↔◌, refl, arith, All, ◌==◌}
use aiman.Base.Itoa.{itoa}
use aiman.Base.Space.{is_blank}
use aiman.Todo.Types.{
  TodoItem, TodoState, pending, active, done, author_user, author_agent, new_item, is_active,
}
use aiman.Todo.Ids.{ids}
use aiman.Todo.Done.{pin_done_last}
use aiman.Todo.Change.{op_add, op_move, op_remove, diff, last_at}
use aiman.Todo.Gate.{gate_is_open, find_id, guard_item, guard_gate}
use aiman.Todo.Gate.Guard.{GateKept, guard_gate_iff}
use aiman.Todo.Normalize.{Unicode, normalize}
use aiman.Todo.Store.{
  FileData, absent, stored, ok, err, done_is_evidence_backed, load, loaded, demote_others,
  demote_extra_active, done_ticked, carry_seen, validate, keep_active, assign_ids, check_unique_ids,
}
use aiman.Todo.Valid.{IsValidDisk, actives}
use aiman.Todo.Update.{
  written, source_cli, Edit, mutate, update, draft, checked, pinned, commit, is_unchanged,
}
use aiman.Todo.Update.Active.{demote_extra_active-actives, choose, last_where, is_new_active}
use aiman.Todo.Update.Invariant.{Unticked, update-IsValidDisk, update-Unticked}
use aiman.Todo.Stamp.{present_ids, stamp, add_tombstones, add_retexts}
use aiman.Todo.Update.Fresh.{HasSeen, update-HasSeen}
use aiman.Todo.Update.Replies.{mutate_ticked}

abbrev item : String → TodoState → TodoItem
item id state = record (new_item "do it" state "") { id = id }

abbrev one : TodoItem
one = item "t1" pending

abbrev two : TodoItem
two = item "t2" active

abbrev three : TodoItem
three = item "t3" pending

abbrev rotated : List TodoItem
rotated = three ∷ one ∷ two ∷ []

one_move : diff (one ∷ two ∷ three ∷ []) rotated ≡ op_move "t3" 0 ∷ []
unfolding diff last_at
one_move = refl

add_and_remove :
    diff (one ∷ two ∷ []) (two ∷ three ∷ []) ≡ op_remove "t1" ∷ op_add "t3" "do it" pending "" ∷ []
unfolding diff last_at
add_and_remove = refl

names : itoa 1207 ≡ "1207"
unfolding itoa
names = refl

abbrev gate : TodoItem
gate = record (new_item "Design approved" pending "gate:design") { id = "t4" }

abbrev ticked_gate : TodoItem
ticked_gate = record gate { state = done }

gate_ticked_refused : guard_gate (one ∷ gate ∷ []) (one ∷ ticked_gate ∷ []) ≢ none
unfolding guard_gate guard_item find_id gate_is_open
gate_ticked_refused = ground arith

guard_gate_iff_example :
    (guard_gate (one ∷ gate ∷ []) (gate ∷ two ∷ []) ≡ none)
    ↔ All (GateKept (gate ∷ two ∷ [])) (one ∷ gate ∷ [])
guard_gate_iff_example = guard_gate_iff (one ∷ gate ∷ []) (gate ∷ two ∷ [])

demote_extra_active-actives_example :
    (actives (demote_extra_active (one ∷ two ∷ []) (item "t1" active ∷ two ∷ [])) ≡ 1)
    × (ids (demote_extra_active (one ∷ two ∷ []) (item "t1" active ∷ two ∷ [])) ≡ "t1" ∷ "t2" ∷ [])
    × (demote_extra_active (one ∷ two ∷ []) (item "t1" active ∷ two ∷ [])
        ≡ demote_others 0
            (choose
              (last_where (is_new_active (one ∷ two ∷ [])) 0 (item "t1" active ∷ two ∷ []) none)
              (last_where (λ it. is_active it.state) 0 (item "t1" active ∷ two ∷ []) none))
            (item "t1" active ∷ two ∷ []))
demote_extra_active-actives_example =
    demote_extra_active-actives (one ∷ two ∷ []) (item "t1" active ∷ two ∷ [])

-- ASCII only.
abbrev ascii : Unicode
ascii = record { is_punct = λ c. c == b'.'; to_lower = λ c. c }

abbrev add_item : Edit
add_item l d now = ok (record l { items = l.items ++ new_item "more" active "" ∷ [] })

update-IsValidDisk_example :
    IsValidDisk (update ascii "s1" author_user source_cli add_item 7 true absent).1
update-IsValidDisk_example =
    update-IsValidDisk ascii "s1" author_user source_cli add_item 7 true absent tt

abbrev met : TodoItem
met = record (new_item "Done-when met" done "done") { id = "t9" }

abbrev met_file : FileData
met_file = record {
  list = record { session_id = "s1"; items = met ∷ []; rev = 3; updated_at = 5; not_in_agent = [] };
  next_id = 10;
  tombstones = [];
  retexts = [];
  mirror_version = 1;
}

mutate_ticked_example :
    mutate ascii "s1" author_agent
      (λ l. ok (record l { items = new_item "more" pending "" ∷ l.items }))
      8
      true
      (stored met_file)
    ≡ (err done_is_evidence_backed, stored met_file)
unfolding load loaded done_ticked
mutate_ticked_example =
    mutate_ticked ascii "s1" (λ l. ok (record l { items = new_item "more" pending "" ∷ l.items })) 8
      true (stored met_file) {d = met_file}
      {l = record (met_file.list) { items = new_item "more" pending "" ∷ met ∷ [] }} refl refl refl

add_item_writes : (update ascii "s1" author_agent source_cli add_item 7 true absent).1 ≢ absent
unfolding update load draft checked pinned commit is_unchanged diff last_at pin_done_last carry_seen
    done_ticked validate is_blank assign_ids check_unique_ids demote_extra_active
add_item_writes e = cc

update-Unticked_example :
    Unticked (update ascii "s1" author_agent source_cli add_item 7 true absent).1
update-Unticked_example = update-Unticked ascii "s1" add_item 7 true absent add_item_writes

abbrev first_file : FileData
first_file = record {
  list = record {
    session_id = "s1";
    items =
        record (new_item "more" active "") { id = "t1"; updated_at = 7; updated_by = author_user }
        ∷ [];
    rev = 1;
    updated_at = 7;
    not_in_agent = [];
  };
  next_id = 2;
  tombstones = [];
  retexts = [];
  mirror_version = 0;
}

first_write :
    (update ascii "s1" author_user source_cli add_item 7 true absent).1 ≡ stored first_file
unfolding update load draft checked pinned commit is_unchanged diff last_at pin_done_last carry_seen
    done_ticked validate is_blank assign_ids check_unique_ids demote_extra_active keep_active
    demote_others written stamp add_tombstones add_retexts itoa normalize present_ids
first_write = refl

update-HasSeen_example : All HasSeen (loaded "s1" first_file).list.items
update-HasSeen_example =
    update-HasSeen ascii "s1" author_user source_cli add_item 7 true first_file first_write
