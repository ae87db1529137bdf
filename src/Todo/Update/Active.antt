-- ===== src/Todo/Update/Active.antt =====
-- `demoteExtraActive` leaves one active item where there was one or more.
use aiman.Base.{
  ℕ, ◌+◌, ◌≤◌, ◌<◌, ◌≡◌, refl, Bool, true, false, List, [], ◌∷◌, Option, none, some, if◌then◌else◌,
  All, arith, Bool-cases, inl, inr, ◌==◌, ◌⊎◌, ◌∙◌, sym, ap, ◌≢◌, ◌&&◌,
}
use aiman.Todo.Types.{TodoItem, is_active}
use aiman.Todo.Ids.{ids}
use aiman.Todo.Store.{
  became_active, keep_step, keep_active, demote_others, demote_extra_active, done_ticked,
}
use aiman.Todo.Valid.{IsValidItem, actives}

pub ids-demote_others :
    (i : ℕ) (keep : Option (ℕ × Bool)) (items : List TodoItem)
    → ids (demote_others i keep items) ≡ ids items
unfolding demote_others
ids-demote_others i keep [] = refl
ids-demote_others i keep (it ∷ items) = ground (arith, ids-demote_others (i + 1) keep items)

pub All-demote_others :
    (i : ℕ) (keep : Option (ℕ × Bool)) (items : List TodoItem)
    → All IsValidItem items
    → All IsValidItem (demote_others i keep items)
unfolding demote_others
All-demote_others i keep [] h = tt
All-demote_others i keep (it ∷ items) h = (ground arith, All-demote_others (i + 1) keep items h.1)

pub done_ticked-demote_others :
    (i : ℕ) (keep : Option (ℕ × Bool)) (items : List TodoItem)
    → done_ticked (demote_others i keep items) ≡ done_ticked items
unfolding demote_others done_ticked
done_ticked-demote_others i keep [] = refl
done_ticked-demote_others i keep (it ∷ items) =
    ground (arith, done_ticked-demote_others (i + 1) keep items)

-- Beyond the kept index nothing active is left.
actives-demote_others_beyond :
    (i k : ℕ) (changed : Bool) (items : List TodoItem)
    → k < i
    → actives (demote_others i (some (k, changed)) items) ≡ 0
unfolding demote_others
actives-demote_others_beyond i k changed [] h = refl
actives-demote_others_beyond i k changed (it ∷ items) h =
    ground (arith, actives-demote_others_beyond (i + 1) k changed items)

actives-demote_others-none :
    (i : ℕ) (items : List TodoItem) → actives (demote_others i none items) ≡ 0
unfolding demote_others
actives-demote_others-none i [] = refl
actives-demote_others-none i (it ∷ items) = ground (arith, actives-demote_others-none (i + 1) items)

-- The item at position `k`, counted from `i`, is active.
abbrev ActiveAt : ℕ → ℕ → List TodoItem → Type 0
ActiveAt i k [] = ⊥
ActiveAt i k (it ∷ items) = ((i ≡ k) × (is_active it.state ≡ true)) ⊎ ActiveAt (i + 1) k items

ActiveAt-le : (i k : ℕ) (items : List TodoItem) → ActiveAt i k items → i ≤ k
ActiveAt-le i k [] h = absurd h
ActiveAt-le i k (it ∷ items) (inl h) = omega arith
ActiveAt-le i k (it ∷ items) (inr h) = omega (arith, ActiveAt-le (i + 1) k items h)

actives-demote_others_at :
    (i k : ℕ) (changed : Bool) (items : List TodoItem)
    → ActiveAt i k items
    → actives (demote_others i (some (k, changed)) items) ≡ 1
unfolding demote_others
actives-demote_others_at i k changed [] h = absurd h
actives-demote_others_at i k changed (it ∷ items) (inl h) =
    ground (arith, actives-demote_others_beyond (i + 1) k changed items)
actives-demote_others_at i k changed (it ∷ items) (inr h) =
    ground
      (arith, actives-demote_others_at (i + 1) k changed items h, ActiveAt-le (i + 1) k items h)

-- The last item that passes `p`, from index `i` on.
abbrev pub last_where : (TodoItem → Bool) → ℕ → List TodoItem → Option ℕ → Option ℕ
last_where p i [] found = found
last_where p i (it ∷ items) found = last_where p (i + 1) items (if p it then some i else found)

-- The last changed active item, or else the last active one.
abbrev pub choose : Option ℕ → Option ℕ → Option (ℕ × Bool)
choose (some k) _ = some (k, true)
choose none (some k) = some (k, false)
choose none none = none

module _ (prev : List TodoItem) where
  keep_step-ActiveAt :
      (i : ℕ) (it : TodoItem) (keep : Option (ℕ × Bool))
      → (keep_step prev i it keep ≡ keep)
        ⊎ ((changed : Bool) × (keep_step prev i it keep ≡ some (i, changed))
            × (is_active it.state ≡ true))
  unfolding keep_step
  keep_step-ActiveAt i it keep = ground arith

  keep_active-ActiveAt :
      (i : ℕ) (items : List TodoItem) (keep : Option (ℕ × Bool))
      → (keep_active prev i items keep ≡ keep)
        ⊎ ((k : ℕ) × (changed : Bool) × (keep_active prev i items keep ≡ some (k, changed))
            × ActiveAt i k items)
  unfolding keep_active
  keep_active-ActiveAt i [] keep = inl refl
  keep_active-ActiveAt i (it ∷ items) keep =
      elim (keep_active-ActiveAt (i + 1) items (keep_step prev i it keep)) [
        | inl same ↦ elim (keep_step-ActiveAt i it keep) [
          | inl old ↦ inl (same ∙ old)
          | inr (changed, e, a) ↦ inr (i, changed, same ∙ e, inl (refl, a))
        ]
        | inr (k, changed, e, a) ↦ inr (k, changed, e, inr a)
      ]

  abbrev pub is_new_active : TodoItem → Bool
  is_new_active it = is_active it.state && became_active prev it

  keep_step-choose :
      (i : ℕ) (it : TodoItem) (newest latest : Option ℕ)
      → keep_step prev i it (choose newest latest)
        ≡ choose
            (if is_new_active it then some i else newest)
            (if is_active it.state then some i else latest)
  unfolding keep_step
  keep_step-choose i it newest latest = ground arith

  keep_active-choose :
      (i : ℕ) (items : List TodoItem) (newest latest : Option ℕ)
      → keep_active prev i items (choose newest latest)
        ≡ choose
            (last_where is_new_active i items newest)
            (last_where (λ it. is_active it.state) i items latest)
  unfolding keep_active
  keep_active-choose i [] newest latest = refl
  keep_active-choose i (it ∷ items) newest latest = rw (keep_step-choose i it newest latest) (
      keep_active-choose (i + 1) items (if is_new_active it then some i else newest)
        (if is_active it.state then some i else latest))

last_where-some :
    (p : TodoItem → Bool) (i k : ℕ) (items : List TodoItem) → last_where p i items (some k) ≢ none
last_where-some p i k [] = ground arith
last_where-some p i k (it ∷ items) = elim (Bool-cases (p it)) [
  | inl e ↦ rw e (last_where-some p (i + 1) i items)
  | inr e ↦ rw e (last_where-some p (i + 1) k items)
]

last_where-none :
    (i : ℕ) (items : List TodoItem)
    → last_where (λ it. is_active it.state) i items none ≡ none
    → actives items ≡ 0
last_where-none i [] e = refl
last_where-none i (it ∷ items) e = ground (
  arith,
  last_where-none (i + 1) items,
  last_where-some (λ it. is_active it.state) (i + 1) i items,
)

actives_of_ActiveAt : (i k : ℕ) (items : List TodoItem) → ActiveAt i k items → 0 < actives items
actives_of_ActiveAt i k [] h = absurd h
actives_of_ActiveAt i k (it ∷ items) (inl h) = ground arith
actives_of_ActiveAt i k (it ∷ items) (inr h) = omega (arith, actives_of_ActiveAt (i + 1) k items h)

choose-none : (newest latest : Option ℕ) → choose newest latest ≡ none → latest ≡ none
choose-none newest latest e = ground arith

-- After `demoteExtraActive` exactly one item is active where any was, no id has changed, and the
-- item that stays active is the last one that became active in this call, or the last active one
-- if none did.
pub demote_extra_active-actives :
    (prev next : List TodoItem)
    → (actives (demote_extra_active prev next) ≡ (if actives next == 0 then 0 else 1))
      × (ids (demote_extra_active prev next) ≡ ids next)
      × (demote_extra_active prev next
          ≡ demote_others 0
              (choose
                (last_where (is_new_active prev) 0 next none)
                (last_where (λ it. is_active it.state) 0 next none))
              next)
unfolding demote_extra_active
demote_extra_active-actives prev next =
    let chosen = keep_active-choose prev 0 next none none in
    (
      elim (keep_active-ActiveAt prev 0 next none) [
        | inl e ↦
            let idle = last_where-none 0 next (choose-none _ _ (sym chosen ∙ e)) in
            rw (e, idle) (actives-demote_others-none 0 next)
        | inr (k, changed, e, a) ↦ rw e (
            ground
              (arith, actives-demote_others_at 0 k changed next a, actives_of_ActiveAt 0 k next a))
      ],
      ids-demote_others 0 (keep_active prev 0 next none) next,
      ap (λ keep. demote_others 0 keep next) chosen,
    )
