-- ===== src/Todo/Mirror/Count.antt =====
-- Items counted by a property, through a layout that names each index once.
use aiman.Base.{
  ℕ, zero, suc, ◌+◌, ◌≡◌, refl, Bool, List, [], ◌∷◌, ◌++◌, ltb, if◌then◌else◌, length, get_elem?,
  arith, Option-cases, inl, inr,
}
use aiman.Todo.Types.{TodoItem}
use aiman.Todo.Done.{pin_done_last}
use aiman.Todo.Mirror.{pick_items}
use aiman.Todo.Mirror.Layout.Once.{times}

module _ (p : TodoItem → Bool) where
  abbrev pub count : List TodoItem → ℕ
  count [] = 0
  count (it ∷ items) = (if p it then 1 else 0) + count items

  pub count-append : (xs ys : List TodoItem) → count (xs ++ ys) ≡ count xs + count ys
  count-append [] ys = omega arith
  count-append (x ∷ xs) ys = omega (arith, count-append xs ys)

  pub count-pin_done_last : (items : List TodoItem) → count (pin_done_last items) ≡ count items
  unfolding pin_done_last
  count-pin_done_last [] = refl
  count-pin_done_last (it ∷ items) =
      ground (arith, count-pin_done_last items, count-append items (it ∷ []))

  -- The indices from 1 on, each one less.
  lower : List ℕ → List ℕ
  lower [] = []
  lower (zero ∷ ks) = lower ks
  lower (suc k ∷ ks) = k ∷ lower ks

  times-lower : (j : ℕ) (ks : List ℕ) → times j (lower ks) ≡ times (suc j) ks
  unfolding lower
  times-lower j [] = refl
  times-lower j (zero ∷ ks) = ground (arith, times-lower j ks)
  times-lower j (suc k ∷ ks) = ground (arith, times-lower j ks)

  count-pick_items-nil : (ks : List ℕ) → count (pick_items [] ks) ≡ 0
  unfolding pick_items
  count-pick_items-nil [] = refl
  count-pick_items-nil (k ∷ ks) = count-pick_items-nil ks

  count-pick_items-cons :
      (x : TodoItem) (xs : List TodoItem) (ks : List ℕ)
      → count (pick_items (x ∷ xs) ks)
        ≡ (if p x then times 0 ks else 0) + count (pick_items xs (lower ks))
  unfolding pick_items lower
  count-pick_items-cons x xs [] = ground arith
  count-pick_items-cons x xs (zero ∷ ks) = ground (arith, count-pick_items-cons x xs ks)
  count-pick_items-cons x xs (suc k ∷ ks) = elim (Option-cases (get_elem? xs k)) [
    | inl e ↦ ground (arith, count-pick_items-cons x xs ks)
    | inr (it, e) ↦ ground (arith, count-pick_items-cons x xs ks)
  ]

  -- A layout with each index once changes no count.
  pub count-pick_items :
      (xs : List TodoItem) (ks : List ℕ)
      → ((j : ℕ) → times j ks ≡ (if ltb j (length xs) then 1 else 0))
      → count (pick_items xs ks) ≡ count xs
  count-pick_items [] ks once = count-pick_items-nil ks
  count-pick_items (x ∷ xs) ks once =
      let rest =
        count-pick_items xs (lower ks) (λ j. ground (arith, times-lower j ks, once (suc j))) in
      ground (arith, count-pick_items-cons x xs ks, once 0)
