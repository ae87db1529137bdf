-- ===== src/Notify/Dispatch.antt =====
-- `Dispatcher.Tick` of internal/notify/dispatch.go. The source, the cursor and the sinks are an
-- `Answers`: what they say in this tick. The state carries the log of what was done to them.
pub mod Log
pub mod Progress
pub mod Order
use aiman.Base.{
  ℕ, ◌+◌, Bool, true, false, ◌&&◌, ◌||◌, List, [], ◌∷◌, Option, none, some, String, str_eq, leb,
  ◌==◌, if◌then◌else◌,
}
use aiman.Notify.Kinds.{Notification}

abbrev pub max_send_attempts : ℕ
max_send_attempts = 3

abbrev pub dispatch_batch : ℕ
dispatch_batch = 100

-- `sent` and `failed` by a sink, the sink named; a notification given up.
pub data Event : Type 0 where
  sent failed : ℕ → String → Event
  gave_up : ℕ → Event

-- `attempts` and `done` are the maps of the dispatcher, `cursor` is the stored one, and `log` has
-- the newest event first.
pub record Dispatcher : Type 0 where
  pub cursor : Option ℕ
  pub attempts : ℕ → ℕ
  pub done : ℕ → String → Bool
  pub log : List Event

pub data Failure : Type 0 where
  load_failed since_failed store_failed : Failure

-- One tick asks a sink for a notification at most once, so its answer is a function of both.
pub record Answers : Type 0 where
  pub load_ok : Bool
  pub since : ℕ → ℕ → Option (List Notification)
  pub last : Option ℕ
  pub send_ok : Notification → String → Bool
  pub store_ok : ℕ → Bool

abbrev pub put {ℓ} : {A : Type ℓ} → ℕ → A → (ℕ → A) → ℕ → A
put n v f k = if k == n then v else f k

-- `d.clear(n)` after `d.cur.Store(ctx, n)`
unfoldable pub pass : ℕ → Dispatcher → Dispatcher
pass n d = record d {
  cursor = some n;
  attempts = put n 0 d.attempts;
  done = put n (λ _. false) d.done;
}

unfoldable pub mark_sent : ℕ → String → Dispatcher → Dispatcher
mark_sent n s d = record d {
  done = put n (λ t. str_eq t s || d.done n t) d.done;
  log = sent n s ∷ d.log;
}

unfoldable pub mark_failed : ℕ → String → Dispatcher → Dispatcher
mark_failed n s d = record d {
  attempts = put n (d.attempts n + 1) d.attempts;
  log = failed n s ∷ d.log;
}

-- The loop over the sinks: `allDone`, and the state.
unfoldable pub deliver : Answers → Notification → List String → Dispatcher → Bool × Dispatcher
unfolding mark_sent mark_failed
deliver a n [] d = (true, d)
deliver a n (s ∷ sinks) d = elim (d.done n.seq s) [
  | true ↦ deliver a n sinks d
  | false ↦ elim (a.send_ok n s) [
    | true ↦ deliver a n sinks (mark_sent n.seq s d)
    | false ↦ (false, mark_failed n.seq s d)
  ]
]

-- How an entry ends: with the next one, out of the loop, or with an error.
pub data Step : Type 0 where
  next break : Dispatcher → Step
  fail : Failure → Dispatcher → Step

-- `d.cur.Store(ctx, n)`, and what follows it.
unfoldable pub store_cursor : Answers → ℕ → Dispatcher → Step
unfolding pass
store_cursor a n d = if a.store_ok n then next (pass n d) else fail store_failed d

unfoldable pub give_up : ℕ → Dispatcher → Dispatcher
give_up n d = record d { log = gave_up n ∷ d.log }

-- The body of the loop over the entries.
unfoldable pub entry : Answers → List String → Notification → Dispatcher → Step
unfolding store_cursor deliver give_up
entry a sinks n d =
    if leb max_send_attempts (d.attempts n.seq)
    then store_cursor a n.seq (give_up n.seq d)
    else (let r = deliver a n sinks d in if r.0 then store_cursor a n.seq r.1 else break r.1)

-- What the loop does with the end of an entry.
abbrev pub follow : (Dispatcher → Option Failure × Dispatcher) → Step → Option Failure × Dispatcher
follow rest (next d) = rest d
follow rest (break d) = (none, d)
follow rest (fail f d) = (some f, d)

unfoldable pub run :
    Answers → List String → List Notification → Dispatcher → Option Failure × Dispatcher
unfolding entry
run a sinks [] d = (none, d)
run a sinks (n ∷ entries) d = follow (λ d'. run a sinks entries d') (entry a sinks n d)

-- The first tick moves the cursor to the end of the source.
unfoldable pub start : Answers → Dispatcher → Option Failure × Dispatcher
start a d = elim a.last [
  | none ↦ (some since_failed, d)
  | some n ↦ if a.store_ok n then (none, record d { cursor = some n }) else (some store_failed, d)
]

unfoldable pub tick : Answers → List String → Dispatcher → Option Failure × Dispatcher
unfolding run start
tick a sinks d =
    if a.load_ok
    then elim d.cursor [
      | none ↦ start a d
      | some seq ↦ elim (a.since seq dispatch_batch) [
        | none ↦ (some since_failed, d)
        | some entries ↦ run a sinks entries d
      ]
    ]
    else (some load_failed, d)
