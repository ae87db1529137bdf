-- ===== src/Notify/Tests.antt =====
-- Two sinks, one of which refuses; and one session that is observed.
use aiman.Base.{
  ◌+◌, ◌≤◌, ◌≡◌, ◌≢◌, ◌⊎◌, refl, true, false, List, [], ◌∷◌, none, some, String, str_eq, length,
  arith,
}
use aiman.Base.Text.{codes}
use aiman.Notify.Kinds.{waiting_input, Notification, errored}
use aiman.Notify.Recorder.{
  Observation, Settings, derive, not_due, appended, Last, observe, changed, append,
}
use aiman.Notify.Recorder.Transitions.{NotTold, observe-last}
use aiman.Notify.Dispatch.{
  Dispatcher, Answers, sent, failed, tick, run, entry, deliver, store_cursor, pass, mark_sent,
  mark_failed,
}
use aiman.Notify.Dispatch.Log.{IsRecorded}
use aiman.Notify.Dispatch.Order.{Passed, tick-Passed}
use aiman.Notify.Dispatch.Progress.{IsReachable, IsStuck, ticks_stuck_le}

abbrev fifth : Notification
fifth = record {
  seq = 5;
  session_id = "s1";
  kind = waiting_input;
  label = codes "A-1";
  host = codes "box";
  text = codes "A-1 on box: waiting for input";
  at = 1;
}

abbrev sixth : Notification
sixth = record fifth { seq = 6 }

abbrev sinks : List String
sinks = "push" ∷ "log" ∷ []

-- The sink "log" refuses.
abbrev refusing : Answers
refusing = record {
  load_ok = true;
  since = λ after limit. some (fifth ∷ sixth ∷ []);
  last = some 6;
  send_ok = λ n s. str_eq s "push";
  store_ok = λ m. true;
}

abbrev at_four : Dispatcher
at_four = record { cursor = some 4; attempts = λ n. 0; done = λ n s. false; log = [] }

refused_once : (tick refusing sinks at_four).1.log ≡ failed 5 "log" ∷ sent 5 "push" ∷ []
unfolding tick run entry deliver mark_sent mark_failed
refused_once = refl

taken :
    (tick (record refusing { send_ok = λ n s. true }) sinks (tick refusing sinks at_four).1).1.log
    ≡ sent 6 "log" ∷ sent 6 "push" ∷ sent 5 "log" ∷ failed 5 "log" ∷ sent 5 "push" ∷ []
unfolding tick run entry deliver mark_sent mark_failed store_cursor pass
taken = refl

at_four-IsRecorded : IsRecorded at_four
at_four-IsRecorded = record {
  delivered = λ n s h. cc;
  counted = λ n. omega arith;
  after_three = λ n h. cc;
}

tick-Passed_example :
    IsRecorded (tick refusing sinks at_four).1
    × Passed sinks (fifth ∷ sixth ∷ []) at_four (tick refusing sinks at_four).1
tick-Passed_example =
    tick-Passed refusing sinks at_four {seq = 4} {entries = fifth ∷ sixth ∷ []} at_four-IsRecorded
      refl refl refl

refusing-IsReachable : IsReachable 4 fifth refusing
refusing-IsReachable = record {
  loads = refl;
  stores = λ m. refl;
  rest = sixth ∷ [];
  reads = refl;
  behind = (omega arith, (omega arith, tt));
}

refusing-IsStuck : IsStuck sinks 4 (refusing ∷ refusing ∷ []) at_four
unfolding tick run entry deliver mark_sent mark_failed
refusing-IsStuck = (refl, (refl, tt))

ticks_stuck_le_example : length (refusing ∷ refusing ∷ []) + at_four.attempts 5 ≤ 3
ticks_stuck_le_example =
    ticks_stuck_le sinks fifth 4 (refusing ∷ refusing ∷ []) at_four refl (omega arith)
      (refusing-IsReachable, (refusing-IsReachable, tt)) refusing-IsStuck

abbrev settings : Settings
settings = record { events = λ k. true; min_interval = 60; host = codes "box" }

abbrev broken : Observation
broken = record {
  session_id = "s1";
  label = codes "A-1";
  state = errored;
  confident = true;
  is_ended = false;
  asking = false;
  reason = [];
  question = [];
}

abbrev fine : Last
fine id = some none

broken_tells : (observe settings broken 9 (appended fifth) fine).calls ≢ []
unfolding observe derive changed append
broken_tells e = cc

observe-last_example :
    (((observe settings broken 10 not_due
          (observe settings broken 9 (appended fifth) fine).last).calls
        ≡ [])
      ⊎ (((observe settings broken 9 (appended fifth) fine).last ≡ fine)
          × NotTold (appended fifth)))
    × ((id : String)
        → str_eq id broken.session_id ≡ false
        → (observe settings broken 9 (appended fifth) fine).last id ≡ fine id)
observe-last_example = observe-last settings broken 9 10 (appended fifth) not_due fine
