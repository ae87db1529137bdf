-- ===== src/Notify/Dispatch/Order.antt =====
-- The cursor passes only what was delivered or given up, in the order of the source.
use aiman.Base.{
  ℕ, ◌≡◌, ap, ◌∙◌, inl, inr, refl, Bool, true, List, [], ◌∷◌, ◌++◌, Option, some, String, All,
  arith, Bool-cases, leb, str_eq_refl, if-elim,
}
use aiman.Notify.Kinds.{Notification}
use aiman.Notify.Dispatch.{
  Event, sent, failed, gave_up, Dispatcher, Failure, Answers, pass, mark_sent, mark_failed, deliver,
  Step, next, break, fail, store_cursor, give_up, entry, follow, run, tick, dispatch_batch,
}
use aiman.Notify.Dispatch.Log.{
  was_sent, IsRecorded, Settled, Grows, Grows-refl, Grows-trans, Grows-cons, Settled-Grows,
  mark_sent-IsRecorded, mark_failed-IsRecorded, give_up-IsRecorded, pass-IsRecorded,
}

-- What the loop over the sinks leaves.
record IsDelivered (n : Notification) (sinks : List String) (d : Dispatcher) (r : Bool × Dispatcher)
    : Type 0 where
  recorded : IsRecorded r.1
  grown : Grows d.log r.1.log
  same_cursor : r.1.cursor ≡ d.cursor
  all_sent : r.0 ≡ true → All (λ s. was_sent n.seq s r.1.log ≡ true) sinks

str_eq_self : (n : ℕ) (s : String) (log : List Event) → was_sent n s (sent n s ∷ log) ≡ true
str_eq_self n s log = ground (arith, str_eq_refl s)

module _ (a : Answers) (n : Notification) where
  deliver-IsDelivered :
      (sinks : List String) (d : Dispatcher)
      → IsRecorded d
      → IsDelivered n sinks d (deliver a n sinks d)
  unfolding deliver
  deliver-IsDelivered [] d r = record {
    recorded = r;
    grown = Grows-refl d.log;
    same_cursor = refl;
    all_sent = λ _. tt;
  }
  deliver-IsDelivered (s ∷ sinks) d r = elim (Bool-cases (d.done n.seq s)) [
    | inl h ↦
        let i = deliver-IsDelivered sinks d r in
        rw (h, deliver)
          (record {
            recorded = i.recorded;
            grown = i.grown;
            same_cursor = i.same_cursor;
            all_sent = λ e. (i.grown.keeps_sent n.seq s (r.delivered n.seq s h), i.all_sent e);
          })
    | inr h ↦
        rw (h, deliver)
          (elim (Bool-cases (a.send_ok n s)) [
            | inl o ↦
                let i =
                  deliver-IsDelivered sinks (mark_sent n.seq s d)
                    (mark_sent-IsRecorded n.seq s d r) in
                rw o (
                  unfold mark_sent in
                  record {
                    recorded = i.recorded;
                    grown = Grows-trans (Grows-cons (sent n.seq s) d.log) i.grown;
                    same_cursor = i.same_cursor;
                    all_sent =
                        λ e. (i.grown.keeps_sent n.seq s (str_eq_self n.seq s d.log), i.all_sent e);
                  })
            | inr o ↦ rw o (
                unfold mark_failed in
                record {
                  recorded = mark_failed-IsRecorded n.seq s d r;
                  grown = Grows-cons (failed n.seq s) d.log;
                  same_cursor = refl;
                  all_sent = λ e. cc;
                })
          ])
  ]

-- How an entry may end.
abbrev IsStep : List String → Notification → Dispatcher → Step → Type 0
IsStep sinks n d (next d') =
    IsRecorded d' × Grows d.log d'.log × (d'.cursor ≡ some n.seq) × Settled sinks d'.log n
IsStep sinks n d (break d') = IsRecorded d' × Grows d.log d'.log × (d'.cursor ≡ d.cursor)
IsStep sinks n d (fail f d') = IsRecorded d' × Grows d.log d'.log × (d'.cursor ≡ d.cursor)

module _ (a : Answers) (sinks : List String) where
  store_cursor-IsStep :
      (n : Notification) (d d' : Dispatcher)
      → IsRecorded d'
      → Grows d.log d'.log
      → d'.cursor ≡ d.cursor
      → Settled sinks d'.log n
      → IsStep sinks n d (store_cursor a n.seq d')
  unfolding store_cursor pass
  store_cursor-IsStep n d d' r g same s =
      if-elim (IsStep sinks n d) (a.store_ok n.seq) (λ _. (pass-IsRecorded n.seq d' r, g, refl, s))
        (λ _. (r, g, same))

  entry-IsStep :
      (n : Notification) (d : Dispatcher) → IsRecorded d → IsStep sinks n d (entry a sinks n d)
  unfolding entry
  entry-IsStep n d r =
      let i = deliver-IsDelivered a n sinks d r in
      if-elim (IsStep sinks n d) (leb 3 (d.attempts n.seq))
        (λ h.
          store_cursor-IsStep n d (give_up n.seq d) (give_up-IsRecorded n.seq d (ground arith) r)
            (unfold give_up in Grows-cons (gave_up n.seq) d.log) (unfold give_up in refl)
            (inl (unfold give_up in ground arith)))
        λ _.
          if-elim (IsStep sinks n d) (deliver a n sinks d).0
            (λ e.
              store_cursor-IsStep n d (deliver a n sinks d).1 i.recorded i.grown i.same_cursor
                (inr (i.all_sent e)))
            (λ _. (i.recorded, i.grown, i.same_cursor))

-- The number of the last entry.
abbrev pub last_seq : Option ℕ → List Notification → Option ℕ
last_seq c [] = c
last_seq c (n ∷ entries) = last_seq (some n.seq) entries

-- A tick passed a first part of the entries, each of them settled, and the cursor stands on the
-- last of them.
abbrev pub Passed : List String → List Notification → Dispatcher → Dispatcher → Type 0
Passed sinks entries d d' =
    (passed : List Notification) × (kept : List Notification) × (entries ≡ passed ++ kept)
    × All (Settled sinks d'.log) passed
    × (d'.cursor ≡ last_seq d.cursor passed)

-- What the loop over the entries leaves.
abbrev IsRun : List String → List Notification → Dispatcher → Option Failure × Dispatcher → Type 0
IsRun sinks entries d r = IsRecorded r.1 × Grows d.log r.1.log × Passed sinks entries d r.1

module _ (sinks : List String) where
  follow-IsRun :
      (n : Notification) (entries : List Notification) (d : Dispatcher)
      (rest : Dispatcher → Option Failure × Dispatcher)
      → ((d' : Dispatcher) → IsRecorded d' → IsRun sinks entries d' (rest d'))
      → (step : Step) → IsStep sinks n d step
      → IsRun sinks (n ∷ entries) d (follow rest step)
  follow-IsRun n entries d rest ih (next d') (r, g, at, s) =
      let (r', g', (passed, kept, eq, all, last)) = ih d' r in
      (
        r',
        Grows-trans g g',
        (
          n ∷ passed,
          kept,
          ap (λ es. n ∷ es) eq,
          (Settled-Grows n sinks g' s, all),
          last ∙ ap (λ c. last_seq c passed) at,
        ),
      )
  follow-IsRun n entries d rest ih (break d') (r, g, at) = (r, g, ([], n ∷ entries, refl, tt, at))
  follow-IsRun n entries d rest ih (fail f d') (r, g, at) = (r, g, ([], n ∷ entries, refl, tt, at))

  run-IsRun :
      (a : Answers) (entries : List Notification) (d : Dispatcher)
      → IsRecorded d
      → IsRun sinks entries d (run a sinks entries d)
  unfolding run
  run-IsRun a [] d r = (r, Grows-refl d.log, ([], [], refl, tt, refl))
  run-IsRun a (n ∷ entries) d r =
      follow-IsRun n entries d (λ d'. run a sinks entries d') (λ d' r'. run-IsRun a entries d' r')
        (entry a sinks n d) (entry-IsStep a sinks n d r)

pub tick-eq-run :
    (a : Answers) (sinks : List String) (d : Dispatcher) {seq : ℕ} {entries : List Notification}
    → a.load_ok ≡ true
    → d.cursor ≡ some seq
    → a.since seq dispatch_batch ≡ some entries
    → tick a sinks d ≡ run a sinks entries d
unfolding tick
tick-eq-run a sinks d load at read = ground arith

-- The maps of the dispatcher say no more than its log: done where the sink took it, at most as many
-- attempts as it was refused, given up only after three refusals. Where the cursor is set and the
-- source answers, whatever the sinks and the cursor's store say: the tick passes a first part of the
-- entries, each taken by every sink or given up, and the cursor is that of the last of them, or the
-- old one where none was passed; and the maps still say no more than the log.
pub tick-Passed :
    (a : Answers) (sinks : List String) (d : Dispatcher) {seq : ℕ} {entries : List Notification}
    → IsRecorded d
    → a.load_ok ≡ true
    → d.cursor ≡ some seq
    → a.since seq dispatch_batch ≡ some entries
    → IsRecorded (tick a sinks d).1 × Passed sinks entries d (tick a sinks d).1
tick-Passed a sinks d {seq} {entries} r load at read =
    let (r', g, passed) = run-IsRun sinks a entries d r in
    rw (tick-eq-run a sinks d load at read) (r', passed)
