-- ===== src/Todo/Update/Checks.antt =====
-- What the checks of `update` establish, and that numbering and presence keep it.
use aiman.Base.{
  ℕ, ◌+◌, ◌≡◌, refl, false, List, [], ◌∷◌, none, String, str_eq, str_eq_iff, All, arith, Bool-cases,
  inl, inr,
}
use aiman.Todo.Types.{TodoItem}
use aiman.Todo.Ids.{ids, holds, Distinct}
use aiman.Todo.Store.{validate, assign_ids, check_unique_ids, done_ticked}
use aiman.Todo.Stamp.{present_ids}
use aiman.Todo.Valid.{IsValidItem, Within}

pub validate-All : (items : List TodoItem) → validate items ≡ none → All IsValidItem items
unfolding validate
validate-All [] e = tt
validate-All (it ∷ items) e = ground (arith, validate-All items)

pub All-assign_ids :
    (next : ℕ) (items : List TodoItem)
    → All IsValidItem items
    → All IsValidItem (assign_ids next items).0
unfolding assign_ids
All-assign_ids next [] h = tt
All-assign_ids next (it ∷ items) h = elim (Bool-cases (str_eq it.id "")) [
  | inl e ↦ rw e (h.0, All-assign_ids (next + 1) items h.1)
  | inr e ↦ rw e (h.0, All-assign_ids next items h.1)
]

pub done_ticked-assign_ids :
    (next : ℕ) (items : List TodoItem) → done_ticked (assign_ids next items).0 ≡ done_ticked items
unfolding assign_ids done_ticked
done_ticked-assign_ids next [] = refl
done_ticked-assign_ids next (it ∷ items) = elim (Bool-cases (str_eq it.id "")) [
  | inl e ↦ rw (e, done_ticked-assign_ids (next + 1) items) refl
  | inr e ↦ rw (e, done_ticked-assign_ids next items) refl
]

-- No id of the list is among `seen`.
abbrev Apart : List String → List String → Type 0
Apart seen = All (λ id. holds id seen ≡ false)

Apart-cons :
    (x : String) (seen xs : List String)
    → Apart (x ∷ seen) xs
    → (holds x xs ≡ false) × Apart seen xs
Apart-cons x seen [] h = (refl, tt)
Apart-cons x seen (y ∷ xs) h =
    let (apart, rest) = Apart-cons x seen xs h.1 in
    (ground (arith, str_eq_iff x y, str_eq_iff y x), (ground arith, rest))

check_unique_ids-Apart :
    (seen : List String) (items : List TodoItem)
    → check_unique_ids seen items ≡ none
    → Apart seen (ids items) × Distinct (ids items)
unfolding check_unique_ids
check_unique_ids-Apart seen [] e = (tt, tt)
check_unique_ids-Apart seen (it ∷ items) e = elim (Bool-cases (holds it.id seen)) [
  | inl h ↦ absurd (ground arith)
  | inr h ↦
      let (apart, distinct) = check_unique_ids-Apart (it.id ∷ seen) items (ground arith) in
      let (fresh, old) = Apart-cons it.id seen (ids items) apart in ((h, old), (fresh, distinct))
]

pub check_unique_ids-Distinct :
    (items : List TodoItem) → check_unique_ids [] items ≡ none → Distinct (ids items)
check_unique_ids-Distinct items e = (check_unique_ids-Apart [] items e).1

pub present_ids-Within : (have listed : List String) → Within (present_ids have listed) have
unfolding present_ids
present_ids-Within have [] = tt
present_ids-Within have (id ∷ listed) = elim (Bool-cases (holds id have)) [
  | inl e ↦ rw e (e, present_ids-Within have listed)
  | inr e ↦ rw e (present_ids-Within have listed)
]
