-- ===== src/Notify/Dispatch/Progress.antt =====
-- A tick that leaves the cursor has used up one of the attempts of the first entry.
use aiman.Base.{
  ℕ, ◌+◌, ◌≤◌, ◌<◌, ◌≡◌, ◌∙◌, ◌⊎◌, inl, inr, refl, true, false, List, [], ◌∷◌, Option, some, String,
  All, arith, leb, if-elim, length,
}
use aiman.Notify.Kinds.{Notification}
use aiman.Notify.Dispatch.{
  Dispatcher, Failure, Answers, pass, mark_sent, mark_failed, deliver, Step, next, break, fail,
  store_cursor, give_up, entry, follow, run, tick, dispatch_batch,
}
use aiman.Notify.Dispatch.Order.{tick-eq-run}

-- The tick reaches the source and the cursor's store, and the source has entries behind the cursor,
-- of which `n` is the first.
pub record IsReachable (seq : ℕ) (n : Notification) (a : Answers) : Type 0 where
  pub loads : a.load_ok ≡ true
  pub stores : (m : ℕ) → a.store_ok m ≡ true
  pub rest : List Notification
  pub reads : a.since seq dispatch_batch ≡ some (n ∷ rest)
  pub behind : All (λ m. seq < m.seq) (n ∷ rest)

-- The cursor stands behind `seq`.
abbrev IsBehind : ℕ → Dispatcher → Type 0
IsBehind seq d = (m : ℕ) × (d.cursor ≡ some m) × (seq < m)

-- A notification that was not passed has been refused once more.
abbrev IsRefused : Notification → Dispatcher → Dispatcher → Type 0
IsRefused n d d' =
    (d'.cursor ≡ d.cursor) × (d.attempts n.seq < 3) × (d'.attempts n.seq ≡ d.attempts n.seq + 1)

deliver_refused :
    (a : Answers) (n : Notification) (sinks : List String) (d : Dispatcher)
    → (deliver a n sinks d).0 ≡ false
    → ((deliver a n sinks d).1.cursor ≡ d.cursor)
      × ((deliver a n sinks d).1.attempts n.seq ≡ d.attempts n.seq + 1)
unfolding deliver mark_sent mark_failed
deliver_refused a n [] d e = cc
deliver_refused a n (s ∷ sinks) d e =
    ground (arith, deliver_refused a n sinks d, deliver_refused a n sinks (mark_sent n.seq s d))

abbrev Progresses : Notification → Dispatcher → Step → Type 0
Progresses n d (next d') = d'.cursor ≡ some n.seq
Progresses n d (break d') = IsRefused n d d'
Progresses n d (fail f d') = ⊥

entry-Progresses :
    (a : Answers) (sinks : List String) (n : Notification) (d : Dispatcher)
    → ((m : ℕ) → a.store_ok m ≡ true)
    → Progresses n d (entry a sinks n d)
unfolding entry store_cursor pass give_up
entry-Progresses a sinks n d stores =
    if-elim (Progresses n d) (leb 3 (d.attempts n.seq))
      (λ _.
        if-elim (Progresses n d) (a.store_ok n.seq) (λ _. refl) (λ e. ground (arith, stores n.seq)))
      λ few.
        if-elim (Progresses n d) (deliver a n sinks d).0
          (λ _.
            if-elim (Progresses n d) (a.store_ok n.seq) (λ _. refl)
              (λ e. ground (arith, stores n.seq)))
          (λ e. let (same, once) = deliver_refused a n sinks d e in (same, ground arith, once))

module _ (a : Answers) (sinks : List String) (seq : ℕ)
    (stores : (m : ℕ) → a.store_ok m ≡ true) where
  follow-IsBehind :
      (n : Notification) (d : Dispatcher) (rest : Dispatcher → Option Failure × Dispatcher)
      → ((d' : Dispatcher) → IsBehind seq d' → IsBehind seq (rest d').1)
      → seq < n.seq
      → IsBehind seq d
      → (step : Step) → Progresses n d step
      → IsBehind seq (follow rest step).1
  follow-IsBehind n d rest ih later b (next d') p = ih d' (n.seq, p, later)
  follow-IsBehind n d rest ih later (m, e, l) (break d') p = (m, p.0 ∙ e, l)
  follow-IsBehind n d rest ih later b (fail f d') p = absurd p

  -- Once the cursor is behind `seq`, the loop over later entries leaves it there.
  run-IsBehind :
      (entries : List Notification) (d : Dispatcher)
      → All (λ m. seq < m.seq) entries
      → IsBehind seq d
      → IsBehind seq (run a sinks entries d).1
  unfolding run
  run-IsBehind [] d later b = b
  run-IsBehind (n ∷ entries) d later b =
      follow-IsBehind n d (λ d'. run a sinks entries d')
        (λ d' b'. run-IsBehind entries d' later.1 b') later.0 b (entry a sinks n d)
        (entry-Progresses a sinks n d stores)

  follow_first :
      (n : Notification) (entries : List Notification) (d : Dispatcher)
      → All (λ m. seq < m.seq) (n ∷ entries)
      → (step : Step) → Progresses n d step
      → IsBehind seq (follow (λ d'. run a sinks entries d') step).1
        ⊎ IsRefused n d (follow (λ d'. run a sinks entries d') step).1
  follow_first n entries d later (next d') p =
      inl (run-IsBehind entries d' later.1 (n.seq, p, later.0))
  follow_first n entries d later (break d') p = inr p
  follow_first n entries d later (fail f d') p = absurd p

tick_first :
    (a : Answers) (sinks : List String) (n : Notification) (d : Dispatcher) {seq : ℕ}
    → d.cursor ≡ some seq
    → IsReachable seq n a
    → IsBehind seq (tick a sinks d).1 ⊎ IsRefused n d (tick a sinks d).1
tick_first a sinks n d {seq} at r = rw (tick-eq-run a sinks d r.loads at r.reads) (
    unfold run in
    follow_first a sinks seq r.stores n r.rest d r.behind (entry a sinks n d)
      (entry-Progresses a sinks n d r.stores))

-- Every one of these ticks leaves the cursor at `seq`.
abbrev pub IsStuck : List String → ℕ → List Answers → Dispatcher → Type 0
IsStuck sinks seq [] d = Unit
IsStuck sinks seq (a ∷ answers) d =
    ((tick a sinks d).1.cursor ≡ some seq) × IsStuck sinks seq answers (tick a sinks d).1

-- However often the sinks refuse the first notification behind the cursor: while the source and the
-- cursor's store can be reached, at most three ticks in a row leave the cursor where it is, fewer
-- by the attempts that were used up before.
pub ticks_stuck_le :
    (sinks : List String) (n : Notification) (seq : ℕ) (answers : List Answers) (d : Dispatcher)
    → d.cursor ≡ some seq
    → d.attempts n.seq ≤ 3
    → All (IsReachable seq n) answers
    → IsStuck sinks seq answers d
    → length answers + d.attempts n.seq ≤ 3
ticks_stuck_le sinks n seq [] d at few r s = omega arith
ticks_stuck_le sinks n seq (a ∷ answers) d at few r s = elim (tick_first a sinks n d at r.0) [
  | inl (m, e, l) ↦ ground arith
  | inr (same, more, once) ↦ omega (
    arith,
    once,
    ticks_stuck_le sinks n seq answers (tick a sinks d).1 s.0 (omega (arith, once)) r.1 s.1,
  )
]
