-- ===== src/Todo/Update/Stamped.antt =====
-- Stamping changes the attribution of items and nothing else.
use aiman.Base.{ℕ, ◌≤◌, ◌≡◌, refl, List, [], ◌∷◌, All, length, arith, length-drop, ◌-◌}
use aiman.Todo.Types.{TodoItem, TodoAuthor}
use aiman.Todo.Ids.{ids}
use aiman.Todo.Change.{Op}
use aiman.Todo.Store.{done_ticked}
use aiman.Todo.Stamp.{stamp_item, stamp, keep_last}
use aiman.Todo.Valid.{IsValidItem, actives}

-- What two items share if they differ in attribution only.
record SameContent (a b : TodoItem) : Type 0 where
  id_same : a.id ≡ b.id
  text_same : a.text ≡ b.text
  state_same : a.state ≡ b.state
  ref_same : a.ref ≡ b.ref
  seen_same : a.seen ≡ b.seen

module _ (prev : List TodoItem) (ops : List Op) (author : TodoAuthor) (now : ℕ) where
  stamp_item-SameContent : (it : TodoItem) → SameContent (stamp_item prev ops author now it) it
  unfolding stamp_item
  stamp_item-SameContent it = ground arith

  pub ids-stamp : (items : List TodoItem) → ids (stamp prev ops author now items) ≡ ids items
  unfolding stamp
  ids-stamp [] = refl
  ids-stamp (it ∷ items) = ground (arith, stamp_item-SameContent it, ids-stamp items)

  pub All-stamp :
      (items : List TodoItem)
      → All IsValidItem items
      → All IsValidItem (stamp prev ops author now items)
  unfolding stamp
  All-stamp [] h = tt
  All-stamp (it ∷ items) h =
      let same = stamp_item-SameContent it in
      ((rw same.text_same h.0.0, rw same.state_same h.0.1), All-stamp items h.1)

  pub actives-stamp :
      (items : List TodoItem) → actives (stamp prev ops author now items) ≡ actives items
  unfolding stamp
  actives-stamp [] = refl
  actives-stamp (it ∷ items) = ground (arith, stamp_item-SameContent it, actives-stamp items)

  pub done_ticked-stamp :
      (items : List TodoItem) → done_ticked (stamp prev ops author now items) ≡ done_ticked items
  unfolding stamp done_ticked
  done_ticked-stamp [] = refl
  done_ticked-stamp (it ∷ items) =
      ground (arith, stamp_item-SameContent it, done_ticked-stamp items)

-- The history keeps at most `max_tombstones` entries.
pub length-keep_last {ℓ} : {A : Type ℓ} (xs : List A) → length (keep_last xs) ≤ 50
unfolding keep_last
length-keep_last xs = ground (arith, length-drop (length xs - 50) xs)
