-- ===== src/Ci/Tests.antt =====
-- Polls at work, and each theorem at a concrete run.
use aiman.Base.{
  ◌+◌, ◌≤◌, ◌<◌, List, [], ◌∷◌, String, true, false, none, ◌≡◌, refl, arith, none, some, ◌==◌,
  if◌then◌else◌,
}
use aiman.Base.Text.{codes, split, join}
use aiman.Todo.Store.{absent, load}
use aiman.Ci.{PrView, conclusion_failure, tail_lines}
use aiman.Ci.Tables.{FailureRow, is_escalated, count_failures, insert_failure, has_failure}
use aiman.Ci.Watch.{session_dir, Session, World, Outside, Answers, view, max_fix_attempts}
use aiman.Ci.Poll.{polls, poll_session}
use aiman.Ci.Escalation.{count_emitted, NeverPasses, NoRepeat, escalates_once, escalates_late}
use aiman.Ci.Comments.{Untouched}
use aiman.Ci.Once.{comments_once}
use aiman.Ci.Text.{cut_back}
use aiman.Ci.Poll.{react_to_comments, login_after}
use aiman.Ci.Tables.{PrWatchState, load_watch}
use aiman.Ci.{ReviewComment}
use aiman.Ci.Watch.{returns, no_pr}
use aiman.Ci.Open.{opens, one_open_item}

abbrev lint : String → String → PrView
lint sha state = record {
  number = 7;
  head_sha = sha;
  state = state;
  checks =
      record { name = "lint"; conclusion = conclusion_failure; details_url = ""; job_id = 0 } ∷ [];
}

abbrev session : Session
session = record {
  id = "s";
  watch_pr = "on";
  mode = "INTERACTIVE";
  status = "ACTIVE";
  agent_ended = false;
  worktree_path = "/w";
  working_directory = "";
  created_at = 1;
}

-- The 30th call fails.
abbrev outside : Outside
outside = record {
  unicode = record { is_punct = λ c. c == b'.'; to_lower = λ c. c };
  encoding = record { utf8 = λ s. s; quote = codes };
  fails = λ n. n == 30;
  now = λ n. n;
  has_notifier = true;
}

abbrev failed_at : String → FailureRow
failed_at sha = record { session = "s"; check = "lint"; sha = sha }

abbrev before : World
before = record {
  tables = record {
    watches = [];
    failures = failed_at "c" ∷ failed_at "b" ∷ failed_at "a" ∷ [];
    escalations = [];
    seen = [];
  };
  disk = absent;
  notes = [];
  emitted = [];
  viewer = "";
  calls = 0;
}

abbrev answer : String → Answers
answer sha = record {
  pr_view = view (lint sha "OPEN");
  job_log = λ n. none;
  login = none;
  comments = none;
}

abbrev twice : List Answers
twice = answer "d" ∷ answer "e" ∷ []

failing : NeverPasses "lint" twice
failing = ((λ e. cc, tt), ((λ e. cc, tt), tt))

escalates_once_example :
    count_emitted "lint" (polls outside session twice before).emitted
    ≤ count_emitted "lint" before.emitted
      + (if is_escalated "s" "lint" before.tables.escalations then 0 else 1)
escalates_once_example = escalates_once outside session "lint" twice before failing

emitted_once : count_emitted "lint" (polls outside session twice before).emitted ≡ 1
unfolding polls poll_session session_dir count_failures insert_failure
emitted_once = refl

emitted_more :
    count_emitted "lint" before.emitted
    < count_emitted "lint" (polls outside session twice before).emitted
emitted_more = omega (arith, emitted_once)

distinct_before : NoRepeat before.tables.failures
unfolding has_failure
distinct_before = (refl, (refl, (refl, tt)))

escalates_late_example :
    (max_fix_attempts
      < count_failures "s" "lint" (polls outside session twice before).tables.failures)
    × NoRepeat (polls outside session twice before).tables.failures
escalates_late_example =
    escalates_late outside session "lint" twice before failing distinct_before emitted_more

one_open_item_example :
    opens outside session "check:lint" (polls outside session (answer "a" ∷ twice) before) ≤ 1
unfolding load
one_open_item_example =
    one_open_item outside session "check:lint" (answer "a" ∷ twice) before (omega arith)

-- The tail of a log, without the last line break.
tail_of_three : tail_lines (codes "a\nb\nc\n") 2 ≡ codes "b\nc"
unfolding tail_lines split join
tail_of_three = refl

abbrev remark : ReviewComment
remark = record {
  id = 5;
  body = "please rename";
  path = "a.go";
  line = 3;
  author = "ann";
  in_reply_to = 0;
  created_at = 9;
}

abbrev with_comments : Answers
with_comments = record {
  pr_view = no_pr;
  job_log = λ n. none;
  login = some "bot";
  comments = some (remark ∷ []);
}

abbrev stored_watch : PrWatchState
stored_watch = load_watch "s" []

comments_handled :
    (react_to_comments outside session with_comments stored_watch (lint "a" "OPEN") before).0
    ≡ returns tt
unfolding react_to_comments load_watch aiman.Todo.Update.mutate load aiman.Todo.Update.draft
    aiman.Todo.Update.checked aiman.Todo.Store.validate aiman.Todo.Update.pinned
    aiman.Todo.Done.pin_done_last aiman.Todo.Store.carry_seen aiman.Todo.Change.last_at
    aiman.Ci.Text.review_ref aiman.Base.Space.is_blank aiman.Ci.Text.review_title
    aiman.Ci.Text.where_of aiman.Todo.Store.check_unique_ids aiman.Todo.Store.assign_ids
    aiman.Todo.Update.commit aiman.Todo.Change.diff aiman.Todo.Change.lis_members
    aiman.Todo.Change.move_ops aiman.Todo.Store.demote_extra_active aiman.Todo.Stamp.stamp
    aiman.Todo.Stamp.add_tombstones aiman.Todo.Stamp.add_retexts aiman.Todo.Update.written
    aiman.Todo.Update.is_unchanged aiman.Todo.Stamp.present_ids aiman.Todo.Stamp.seen_equal
    aiman.Todo.Store.loaded
comments_handled = refl

-- A second remark, which is there when the comments are read again.
abbrev remarks_now : List ReviewComment
remarks_now = remark ∷ record remark { id = 12 } ∷ []

abbrev later : World
later =
    polls outside session (answer "b" ∷ [])
      (react_to_comments outside session with_comments stored_watch (lint "a" "OPEN") before).1

abbrev reads : List ReviewComment → Answers
reads comments = record with_comments { pr_view = view (lint "b" "OPEN"); comments = some comments }

comments_once_example :
    (poll_session outside session (reads remarks_now) later
      ≡ poll_session outside session (reads (record remark { id = 12 } ∷ [])) later)
    × Untouched outside session later
        (react_to_comments outside session
          (reads (remark ∷ []))
          stored_watch
          (lint "b" "OPEN")
          later).1
unfolding login_after
comments_once_example =
    comments_once outside session with_comments (reads remarks_now) (answer "b" ∷ []) stored_watch
      stored_watch (lint "a" "OPEN") (lint "b" "OPEN") (remark ∷ []) remarks_now before refl refl
      refl comments_handled
