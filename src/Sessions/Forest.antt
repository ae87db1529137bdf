-- ===== src/Sessions/Forest.antt =====
-- What `ValidateParent` accepts.
use aiman.Base.{
  ◌≡◌, ◌≢◌, ◌↔◌, ◌⊎◌, refl, Bool, true, not, ◌&&◌, List, [], ◌∷◌, Option, none, some, String,
  str_eq, str_eq_iff, if◌then◌else◌, if-elim, arith, inl, inr,
}
use aiman.Base.Space.{trim_space, trim_left, trim_right}
use aiman.Sessions.{
  SessionLink, ParentVerdict, legal, refused, by_id, has_seen, climb, rounds, validate_known,
  validate_parent, Resolved, with_parent, failed, err_parent_unknown, resolve_create_parent,
  resolve_explicit, resolve_caller, then_resolved,
}
use aiman.Sessions.Climb.{
  unseen-le, climb-ends, climb-Ends, climb-legal, Ends, Passed, at_root, at_unknown, climbs,
}

abbrev first_seen : String → List String
first_seen child = if str_eq child "" then [] else child ∷ []

validate_known-ne_none :
    (sessions : List SessionLink) (child parent : String)
    → validate_known sessions child parent ≢ none
unfolding validate_known
validate_known-ne_none sessions child parent =
    elim (by_id sessions parent)
      as (λ o.
        elim o [
          | none ↦ some (refused err_parent_unknown)
          | some p ↦ climb sessions (rounds sessions) (first_seen child) parent
        ]
        ≢ none) [
          | none ↦ ground arith
          | some p ↦
              climb-ends sessions (rounds sessions) (first_seen child) parent
                (omega (arith, unseen-le (first_seen child) sessions))
        ]

-- The walk up the parents always ends within one round for each session and one more, whatever cycles
-- the stored parents form: there is a verdict.
pub validate_parent-ne_none :
    (id parent_id : String) (sessions : List SessionLink)
    → validate_parent id parent_id sessions ≢ none
unfolding validate_parent
validate_parent-ne_none id parent_id sessions =
    ground (arith, validate_known-ne_none sessions (trim_space id) (trim_space parent_id))

first_seen-lem : (child : String) → child ≢ "" → has_seen (first_seen child) child ≡ true
unfolding has_seen
first_seen-lem child b = ground (arith, str_eq_iff child "", str_eq_iff child child)

first_seen-Passed :
    (sessions : List SessionLink) (child cur : String) (e : Ends sessions child cur)
    → Passed sessions child e (first_seen child)
first_seen-Passed sessions child cur e =
    if-elim (Passed sessions child e) (str_eq child "") (λ _. tt) (λ _. (inl refl, tt))

validate_known-legal_iff :
    (sessions : List SessionLink) (child up : String)
    → (validate_known sessions child up ≡ some legal)
      ↔ ((by_id sessions up ≢ none) × Ends sessions child up)
unfolding validate_known
validate_known-legal_iff sessions child up =
    let walk = climb sessions (rounds sessions) (first_seen child) up in
    let ends =
      climb-Ends sessions child (rounds sessions) (first_seen child) up (first_seen-lem child) in
    let back = λ (e : Ends sessions child up).
      climb-legal sessions child up e (rounds sessions) (first_seen child)
        (omega (arith, unseen-le (first_seen child) sessions))
        (first_seen-Passed sessions child up e) in
    elim (by_id sessions up)
      as (λ o.
        (elim o [ none ↦ some (refused err_parent_unknown) | some p ↦ walk ] ≡ some legal)
        ↔ ((o ≢ none) × Ends sessions child up)) [
          | none ↦ ((λ e. cc), (λ h. ground (arith, h.0 refl)))
          | some p ↦ ((λ e. (ground arith, ends e)), (λ h. back h.1))
        ]

Ends-ne :
    (sessions : List SessionLink) (child up : String)
    → Ends sessions child up
    → up ≢ ""
    → up ≢ child
Ends-ne sessions child up (at_root e) b = ground (arith, b e)
Ends-ne sessions child up (at_unknown r c e) b = c
Ends-ne sessions child up (climbs r c e rest) b = c

-- A parent is accepted just when it is blank, or it is a known session from which the parents lead, in
-- finitely many steps and past no session with the child's id, to a root or an unknown session: the new
-- link closes no cycle.
pub validate_parent-legal_iff :
    (id parent_id : String) (sessions : List SessionLink)
    → (validate_parent id parent_id sessions ≡ some legal) ↔ (
        (trim_space parent_id ≡ "")
        ⊎ ((by_id sessions (trim_space parent_id) ≢ none)
            × Ends sessions (trim_space id) (trim_space parent_id)))
unfolding validate_parent
validate_parent-legal_iff id parent_id sessions =
    let up = trim_space parent_id in
    let child = trim_space id in
    let B = (by_id sessions up ≢ none) × Ends sessions child up in
    let G = λ (v : Option ParentVerdict). (v ≡ some legal) ↔ ((up ≡ "") ⊎ B) in
    let k = validate_known-legal_iff sessions child up in
    if-elim G (str_eq up "") (λ e. ((λ _. inl (ground (arith, str_eq_iff up ""))), (λ _. refl)))
      (λ b.
        let blank : up ≢ "" = ground (arith, str_eq_iff up "") in
        if-elim G (not (str_eq child "") && str_eq up child)
          (λ same.
            let q : up ≡ child = ground (arith, str_eq_iff up child) in
            (
              (λ e. cc),
              (λ h. elim h [
                | inl e ↦ ground (arith, blank e)
                | inr x ↦ ground (arith, Ends-ne sessions child up x.1 blank q)
              ]),
            ))
          (λ _. (
            (λ e. inr (k.0 e)),
            (λ h. elim h [ inl e ↦ ground (arith, blank e) | inr x ↦ k.1 x ]),
          )))

-- The parent of the new session is blank, or it closes no cycle.
abbrev pub IsOpen : String → List SessionLink → String → Type 0
IsOpen id sessions parent_id =
    (trim_space parent_id ≡ "")
    ⊎ ((by_id sessions (trim_space parent_id) ≢ none)
        × Ends sessions (trim_space id) (trim_space parent_id))

-- An answer that is a parent, or an error for which the explicit parent is the reason.
abbrev pub IsSound : String → String → List SessionLink → Option Resolved → Type 0
IsSound id explicit sessions none = ⊥
IsSound id explicit sessions (some (failed e)) = ¬ IsOpen id sessions (trim_space explicit)
IsSound id explicit sessions (some (with_parent up)) = IsOpen id sessions up

module _ (id explicit : String) (sessions : List SessionLink) where
  blank-IsOpen : IsOpen id sessions ""
  unfolding trim_space trim_left trim_right
  blank-IsOpen = inl refl

  explicit-IsSound : IsSound id explicit sessions (
      then_resolved
        (resolve_explicit (trim_space explicit))
        (validate_parent id (trim_space explicit) sessions))
  explicit-IsSound =
      let k = validate_parent-legal_iff id (trim_space explicit) sessions in
      let t = validate_parent-ne_none id (trim_space explicit) sessions in
      elim (validate_parent id (trim_space explicit) sessions)
          as (λ v.
            (v ≢ none)
            → ((v ≡ some legal) ↔ IsOpen id sessions (trim_space explicit))
            → IsSound id explicit sessions
                (then_resolved (resolve_explicit (trim_space explicit)) v)) [
                  | none ↦ λ t k. t refl
                  | some legal ↦ λ t k. k.0 refl
                  | some (refused e) ↦ λ t k allowed. ground (arith, k.1 allowed)
                ]
        t k

  caller-IsSound :
      (calling : String)
      → IsSound id explicit sessions
          (then_resolved (resolve_caller calling) (validate_parent id calling sessions))
  caller-IsSound calling =
      let k = validate_parent-legal_iff id calling sessions in
      let t = validate_parent-ne_none id calling sessions in
      elim (validate_parent id calling sessions)
          as (λ v.
            (v ≢ none)
            → ((v ≡ some legal) ↔ IsOpen id sessions calling)
            → IsSound id explicit sessions (then_resolved (resolve_caller calling) v)) [
              | none ↦ λ t k. t refl
              | some legal ↦ λ t k. k.0 refl
              | some (refused e) ↦ λ t k. blank-IsOpen
            ]
        t k

  -- `ResolveCreateParent` always comes to an end. It gives an error only where the explicit parent would
  -- be refused, and any parent that it gives, from the flag, the explicit parent or the caller, is blank
  -- or closes no cycle.
  pub resolve_create_parent-IsSound :
      (orphan : Bool) (caller : String)
      → IsSound id explicit sessions (resolve_create_parent orphan explicit caller id sessions)
  unfolding resolve_create_parent
  resolve_create_parent-IsSound orphan caller =
      let S = IsSound id explicit sessions in
      if-elim S orphan (λ _. blank-IsOpen)
        (λ _.
          if-elim S (not (str_eq (trim_space explicit) "")) (λ _. explicit-IsSound)
            (λ _.
              if-elim S (str_eq (trim_space caller) "") (λ _. blank-IsOpen)
                (λ _. caller-IsSound (trim_space caller))))
