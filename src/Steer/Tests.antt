-- ===== src/Steer/Tests.antt =====
-- One note for a session, typed and marked; and a terminal that takes texts but no Return.
use aiman.Base.{ℕ, ◌≤◌, ◌≡◌, refl, true, false, [], ◌∷◌, ◌++◌, none, some, arith}
use aiman.Base.Text.{codes, split}
use aiman.Base.Fields.{trim, trim_left, trim_right}
use aiman.Todo.Types.{author_user}
use aiman.Base.Space.{is_blank, is_space}
use aiman.Base.Join.{join_with}
use aiman.Steer.{
  pending_of, try_to_type, SteerSession, Steerer, QueuedNote, enqueue, on_session, session_locked,
  take_window, records_of, number_notes, append_notes, start_of, deliver_start, finish_delivery,
  submitted_notes,
}
use aiman.Steer.System.{
  System, new_steerer, idle, typing, marking, enqueues, takes, appends, starts, types, marks, Reach,
  here, next,
}
use aiman.Steer.Fits.{Above}
use aiman.Steer.Order.{log-Above}
use aiman.Steer.Queue.{recs_of, waiting_of}
use aiman.Steer.Trace.{queue_of, arrivals, forgot}
use aiman.Steer.Contract.{IsView, in_hand_of, batch_of, queue_of-IsView}
use aiman.Steer.Terminal.{
  Answers, Round, typed, deliver_steer, try_until, steer_one_line, submit_typed, full_lines,
  unix_lines, join_spaced,
}
use aiman.Steer.Terminal.Once.{times_typed, try_until_once}
use aiman.Steer.Terminal.Longer.{CanType, retyped}

abbrev waiting : Steerer
waiting = enqueue author_user "go on" new_steerer.steerer

abbrev opened : SteerSession
opened = record {
  ops = [];
  op_authors = [];
  texts = "go on" ∷ [];
  text_author = author_user;
  armed = true;
  pending = [];
  last_delivered = 0;
  last_error = "";
  held = "";
  generation = 0;
}

waiting_lem : waiting.session ≡ some opened
unfolding enqueue on_session session_locked is_blank is_space
waiting_lem = refl

abbrev taken : System
taken = record {
  steerer = record waiting { session = some (take_window opened).1 };
  windows = (take_window opened).0 ∷ [];
  job = idle;
  log = [];
}

abbrev queued : System
queued = record taken {
  steerer = append_notes 0 (records_of (take_window opened).0 [] 7 1 2) "" taken.steerer;
  windows = [];
}

abbrev note : QueuedNote
note = record {
  seq = 1;
  rec = record { id = 2; author = author_user; text = "go on"; created_at = 7 };
  submitted_at = 0;
}

queued-Reach : Reach new_steerer queued
unfolding take_window
queued-Reach =
    next
      (next (next here (enqueues new_steerer author_user "go on"))
        (takes (record new_steerer { steerer = waiting }) opened waiting_lem))
      (appends taken (take_window opened).0 [] [] 7 1 2 "" refl)

queued_lem : deliver_start queued.steerer ≡ try_to_type (note ∷ [])
unfolding deliver_start start_of append_notes records_of number_notes take_window submitted_notes
    enqueue on_session session_locked is_blank is_space join_with
queued_lem = refl

abbrev marked : System
marked = record queued {
  steerer = finish_delivery (note ∷ []) 9 none queued.steerer;
  log = note ∷ [];
}

marked-Reach : Reach new_steerer marked
marked-Reach =
    next
      (next (next queued-Reach (starts queued (note ∷ []) refl queued_lem))
        (types (record queued { job = typing (note ∷ []) }) (note ∷ []) 9 refl (omega arith)))
      (marks (record queued { job = marking (note ∷ []) 9; log = note ∷ [] }) (note ∷ []) 9 none
        refl)

log-Above_example : Above 0 marked.log
log-Above_example = log-Above marked-Reach

queue_of-IsView_example :
    IsView marked (queue_of marked-Reach)
    × (forgot marked-Reach ≡ false
        → arrivals marked-Reach
          ≡ recs_of marked.log
            ++ (recs_of (in_hand_of marked.job)
                ++ waiting_of (batch_of marked.job) (pending_of marked.steerer)))
queue_of-IsView_example = queue_of-IsView marked-Reach

abbrev clear : ℕ → Round
clear n = record {
  settle_canceled = false;
  screen = some (codes "> ");
  canceled = false;
  enter_ok = true;
}

abbrev works : Answers
works = record {
  found = true;
  legacy = false;
  running = true;
  write_ok = true;
  enter_ok = true;
  now = 5;
  rounds = clear;
  settled = 6;
}

abbrev no_return : Answers
no_return = record works { enter_ok = false }

can_type : CanType no_return
can_type = record { found = refl; pty = refl; running = refl; writes = refl }

try_until_once_example :
    times_typed (
      try_until
        (λ s. s)
        6
        (codes "go on")
        (no_return ∷ works ∷ [])
        (record { flight = none; settled_at = 0 }))
    ≤ 1
try_until_once_example =
    try_until_once (λ s. s) 6 (codes "go on") (no_return ∷ works ∷ [])
      (record { flight = none; settled_at = 0 }) (omega arith)

one_line_go : steer_one_line (codes "go") ≡ codes "go"
unfolding steer_one_line unix_lines split full_lines trim trim_left trim_right is_space join_spaced
one_line_go = refl

one_line_on : steer_one_line (codes "on") ≡ codes "on"
unfolding steer_one_line unix_lines split full_lines trim trim_left trim_right is_space join_spaced
one_line_on = refl

retyped_example :
    let one =
      deliver_steer (λ s. s) 6 (codes "go") no_return (record { flight = none; settled_at = 0 }) in
    let both = steer_one_line (codes "go") ++ b' ' ∷ steer_one_line (codes "on") in
    one.keys ++ (deliver_steer (λ s. s) 6 (codes "go\n\non") no_return one.kept).keys
    ≡ typed (steer_one_line (codes "go")) ∷ typed both ∷ (submit_typed (λ s. s) 6 both no_return).0
retyped_example =
    retyped (λ s. s) 6 (codes "go") (codes "on") no_return no_return 0 (refl, (refl, tt))
      (rw one_line_go (ground arith)) (rw one_line_on (ground arith)) can_type refl can_type
