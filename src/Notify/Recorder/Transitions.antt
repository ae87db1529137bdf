-- ===== src/Notify/Recorder/Transitions.antt =====
-- What `Observe` tells, and what it remembers.
use aiman.Base.{
  ℕ, ◌≡◌, ◌≢◌, ◌⊎◌, inl, inr, refl, true, false, [], Option, none, some, String, str_eq,
  str_eq_refl, arith, Option-cases, Bool-cases,
}
use aiman.Notify.Kinds.{NotifyKind, kind_eq, Notification}
use aiman.Base.Text.{Bytes}
use aiman.Notify.Recorder.{
  row, Observation, Settings, derive, Appended, append_failed, not_due, appended, Last, remember,
  opt_kind_eq, append, changed, observe,
}

kind_eq_refl : (k : NotifyKind) → kind_eq k k ≡ true
kind_eq_refl k = ground arith

opt_kind_eq_refl : (k : Option NotifyKind) → opt_kind_eq k k ≡ true
opt_kind_eq_refl none = refl
opt_kind_eq_refl (some k) = kind_eq_refl k

opt_kind_eq-true : (a b : Option NotifyKind) → opt_kind_eq a b ≡ true → a ≡ b
opt_kind_eq-true none none e = refl
opt_kind_eq-true none (some b) e = cc
opt_kind_eq-true (some a) none e = cc
opt_kind_eq-true (some a) (some b) e = ground arith

abbrev pub NotTold : Appended → Type 0
NotTold answer = (m : Notification) → answer ≢ appended m

append-last :
    (answer : Appended) (n : Notification) (interval : ℕ) (id : String) (last kept : Last)
    → ((append answer n interval id last kept).last ≡ kept)
      ⊎ (((append answer n interval id last kept).last ≡ last) × NotTold answer)
unfolding append
append-last append_failed n interval id last kept = inr (refl, λ m e. cc)
append-last not_due n interval id last kept = inr (refl, λ m e. cc)
append-last (appended m) n interval id last kept = inl refl

module _ (s : Settings) (o : Observation) (now : ℕ) where
  -- The store is asked, and with it the publisher, only on a change to a kind that is on.
  pub observe-calls :
      (answer : Appended) (last : Last)
      → (observe s o now answer last).calls ≢ []
      → (kind : NotifyKind) × (prev : Option NotifyKind) × ((derive o).0 ≡ some kind)
        × (s.events kind ≡ true)
        × (last o.session_id ≡ some prev)
        × (opt_kind_eq (some kind) prev ≡ false)
  unfolding observe
  observe-calls answer last ne = elim (Option-cases (last o.session_id)) [
    | inl e ↦ absurd (ne (rw (e, observe) refl))
    | inr (prev, e) ↦ elim (Option-cases (derive o).0) [
      | inl f ↦ absurd (ne (unfold changed in ground arith))
      | inr (kind, f) ↦ (kind, prev, f, unfold changed in ground arith, e, ground arith)
    ]
  ]

  others :
      (answer : Appended) (last : Last) (id : String)
      → str_eq id o.session_id ≡ false
      → (observe s o now answer last).last id ≡ last id
  unfolding observe changed append
  others answer last id e = ground arith

  changed-last :
      (answer : Appended) (last : Last) (kind : Option NotifyKind) (detail : Bytes)
      → ((changed s o now answer last (kind, detail)).last ≡ remember o.session_id kind last)
        ⊎ (((changed s o now answer last (kind, detail)).last ≡ last) × NotTold answer)
  unfolding changed
  changed-last answer last none detail = inl refl
  changed-last answer last (some kind) detail = elim (Bool-cases (s.events kind)) [
    | inr e ↦ inl (rw (e, changed) refl)
    | inl e ↦
        rw (e, changed)
          (append-last answer (row s o.session_id o.label kind detail now) s.min_interval
            o.session_id last (remember o.session_id (some kind) last))
  ]

  settled :
      (answer : Appended) (last : Last)
      → ((observe s o now answer last).last o.session_id ≡ some (derive o).0)
        ⊎ (((observe s o now answer last).last ≡ last) × NotTold answer)
  unfolding observe
  settled answer last = elim (Option-cases (last o.session_id)) [
    | inl e ↦ inl (ground (arith, str_eq_refl o.session_id))
    | inr (prev, e) ↦ elim (Bool-cases (opt_kind_eq (derive o).0 prev)) [
      | inl f ↦ inl (ground (arith, opt_kind_eq-true (derive o).0 prev f))
      | inr f ↦ elim (changed-last answer last (derive o).0 (derive o).1) [
        | inl g ↦ inl (ground (arith, str_eq_refl o.session_id, g))
        | inr (g, h) ↦ inr (ground (arith, g), h)
      ]
    ]
  ]

settled-calls :
    (s : Settings) (o : Observation) (later : ℕ) (next : Appended) (l : Last)
    → l o.session_id ≡ some (derive o).0
    → (observe s o later next l).calls ≡ []
unfolding observe
settled-calls s o later next l e = ground (arith, opt_kind_eq_refl (derive o).0)

-- After an observation, the next one of the same state tells nothing. There is one exception: the
-- store did not take the row, because none was due or with an error; then the map is as it was. Each
-- other session keeps its kind.
pub observe-last :
    (s : Settings) (o : Observation) (now later : ℕ) (answer next : Appended) (last : Last)
    → (((observe s o later next (observe s o now answer last).last).calls ≡ [])
        ⊎ (((observe s o now answer last).last ≡ last) × NotTold answer))
      × ((id : String)
          → str_eq id o.session_id ≡ false
          → (observe s o now answer last).last id ≡ last id)
observe-last s o now later answer next last = (
  elim (settled s o now answer last) [
    | inl e ↦ inl (settled-calls s o later next (observe s o now answer last).last e)
    | inr e ↦ inr e
  ],
  others s o now answer last,
)
