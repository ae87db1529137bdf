-- ===== src/Todo/Gate/Guard.antt =====
-- `GuardGate` decides that every open gate stays open and every dropped gate stays dropped.
use aiman.Base.{
  ◌≡◌, ◌↔◌, refl, Bool, true, false, ◌&&◌, List, [], ◌∷◌, none, some, arith, str_eq, str_eq_iff,
  All, Option-cases, Bool-cases, inl, inr,
}
use aiman.Todo.Types.{TodoItem, is_dropped}
use aiman.Todo.Gate.{is_gate, gate_is_open, find_id, guard_item, guard_gate}

-- The first item of `next` with the id of `was` has its text and link, and `P` holds of it.
abbrev pub KeptAs : (TodoItem → Bool) → TodoItem → List TodoItem → Type 0
KeptAs p was next =
    (now : TodoItem) × (find_id was.id next ≡ some now)
    × (p now ≡ true)
    × (now.text ≡ was.text)
    × (now.ref ≡ was.ref)

-- An open gate is still open, and a dropped one still dropped.
abbrev pub GateKept : List TodoItem → TodoItem → Type 0
GateKept next was =
    (gate_is_open was ≡ true → KeptAs gate_is_open was next)
    × ((is_gate was && is_dropped was.state) ≡ true → KeptAs (λ now. is_dropped now.state) was next)

open-not_dropped :
    (was : TodoItem) → gate_is_open was ≡ true → (is_gate was && is_dropped was.state) ≡ false
unfolding gate_is_open
open-not_dropped was h = ground arith

module _ (was : TodoItem) (next : List TodoItem) where
  guard_item-open :
      guard_item was next ≡ none → gate_is_open was ≡ true → KeptAs gate_is_open was next
  unfolding guard_item
  guard_item-open h o = elim (Option-cases (find_id was.id next)) [
    | inl e ↦ absurd (ground (arith, open-not_dropped was o))
    | inr (now, e) ↦
        let eqs = open-not_dropped was o in
        (
          now,
          e,
          ground arith,
          ground (arith, str_eq_iff now.text was.text),
          ground (arith, str_eq_iff now.ref was.ref),
        )
  ]

  guard_item-dropped :
      guard_item was next ≡ none
      → (is_gate was && is_dropped was.state) ≡ true
      → KeptAs (λ now. is_dropped now.state) was next
  unfolding guard_item
  guard_item-dropped h o = elim (Option-cases (find_id was.id next)) [
    | inl e ↦ absurd (ground arith)
    | inr (now, e) ↦ (
      now,
      e,
      ground arith,
      ground (arith, str_eq_iff now.text was.text),
      ground (arith, str_eq_iff now.ref was.ref),
    )
  ]

  -- The two tests of a kept item pass.
  text_ref_kept :
      {p : TodoItem → Bool} (k : KeptAs p was next)
      → (str_eq k.0.text was.text ≡ true) × (str_eq k.0.ref was.ref ≡ true)
  text_ref_kept k = ((str_eq_iff k.0.text was.text).1 k.3, (str_eq_iff k.0.ref was.ref).1 k.4)

  GateKept-guard_item : GateKept next was → guard_item was next ≡ none
  unfolding guard_item
  GateKept-guard_item k = elim (Bool-cases (gate_is_open was)) [
    | inl o ↦
        let kept = k.0 o in
        ground
          (arith, open-not_dropped was o, text_ref_kept {p = gate_is_open} kept, kept.1, kept.2)
    | inr o ↦ elim (Bool-cases (is_gate was && is_dropped was.state)) [
      | inl d ↦
          let kept = k.1 d in
          ground (arith, text_ref_kept {p = λ now. is_dropped now.state} kept, kept.1, kept.2)
      | inr d ↦ rw (o, d) refl
    ]
  ]

guard_gate-cons :
    (was : TodoItem) (prev next : List TodoItem)
    → (guard_gate (was ∷ prev) next ≡ none)
      ↔ ((guard_item was next ≡ none) × (guard_gate prev next ≡ none))
unfolding guard_gate
guard_gate-cons was prev next = ground arith

-- `GuardGate` accepts a change exactly when every open gate of the old list is still there, open,
-- with its text and link, and every dropped gate is still there, dropped, with its text and link.
pub guard_gate_iff :
    (prev next : List TodoItem) → (guard_gate prev next ≡ none) ↔ All (GateKept next) prev
guard_gate_iff [] next = ((λ _. tt), (λ _. unfold guard_gate in refl))
guard_gate_iff (was ∷ prev) next =
    let (split, merge) = guard_gate-cons was prev next in
    let (sound, complete) = guard_gate_iff prev next in
    (
      (λ h. (
        (guard_item-open was next (split h).0, guard_item-dropped was next (split h).0),
        sound (split h).1,
      )),
      (λ k. merge (GateKept-guard_item was next k.0, complete k.1)),
    )
