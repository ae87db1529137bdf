-- ===== src/Ci/Once.antt =====
-- A review comment is handed on once: polls (`PollSession`) that read comments which are handled already.
use aiman.Base.{
  ◌+◌, ◌≡◌, refl, sym, ap, ◌∙◌, Bool-cases, inl, inr, false, List, [], ◌∷◌, Option, some, str_eq,
  if◌then◌else◌, ◌==◌,
}
use mathlib.Core.Path.{subst}
use aiman.Ci.{Check, PrView, ReviewComment}
use aiman.Ci.Tables.{PrWatchState}
use aiman.Ci.Watch.{
  Session, session_dir, World, Outside, ViewAnswer, no_pr, view_failed, view, Answers, Outcome,
  returns, fails_with, Step, continue, give, call, react_to_check, react_to_checks, check_failed,
  ask_to_fix,
}
use aiman.Ci.Poll.{
  react_to_comments, read_comments, login_after, polls, save_watch_state, go_on, or_fail, read_pr,
  react_to_view, poll_session,
}
use aiman.Ci.Laws.{polls-Keeps, save_watch_state-Keeps, react_to_checks-Keeps}
use aiman.Ci.Open.{any_check, any_answers}
use aiman.Ci.Seen.{read_comments-AllSeen, StaysSeen, StaysSeen-IsKept, AllSeen}
use aiman.Ci.Comments.{
  Untouched, react_to_comments-Untouched, unhandled, AllSeen-kept, react_to_comments-unhandled,
}

module _ (o : Outside) (s : Session) (b : Answers) (read : Option (List ReviewComment)) where
  react_to_check-same :
      (pr : PrView) (c : Check)
      → react_to_check o s b pr c ≡ react_to_check o s (record b { comments = read }) pr c
  unfolding react_to_check check_failed ask_to_fix
  react_to_check-same pr c = refl

  -- The checks are read apart from the comments.
  react_to_checks-same :
      (pr : PrView) (checks : List Check)
      → react_to_checks o s b pr checks
        ≡ react_to_checks o s (record b { comments = read }) pr checks
  unfolding react_to_checks
  react_to_checks-same pr [] = refl
  react_to_checks-same pr (c ∷ checks) =
      rw (react_to_check-same pr c, react_to_checks-same pr checks) refl

module _ (o : Outside) (s : Session) (handled : List ReviewComment) where
  -- The two steps do the same where the comments are handled.
  abbrev Same : {A : Type 0} → Step A → Step A → Type 0
  Same step other = (w : World) → AllSeen o s handled w → step w ≡ other w

  continue-Same :
      {A B : Type 0} (x : Outcome A × World) (next other : A → Step B)
      → AllSeen o s handled x.1
      → ((a : A) → Same (next a) (other a))
      → continue x next ≡ continue x other
  continue-Same (returns a, w) next other h same = same a w h
  continue-Same (fails_with e, w) next other h same = refl

  go_on-Same :
      (st : PrWatchState) (x : Outcome (Unit {0}) × World) (next other : Step (Unit {0}))
      → AllSeen o s handled x.1
      → Same next other
      → go_on o s st next x ≡ go_on o s st other x
  go_on-Same st (returns a, w) next other h same = same w h
  go_on-Same st (fails_with e, w) next other h same = refl

  module _ (b : Answers) (comments : List ReviewComment) (found : b.comments ≡ some comments) where
    -- The answer without the comments that are handled.
    abbrev rest : Answers
    rest = record b { comments = some (unhandled handled comments) }

    comments-Same :
        (st : PrWatchState) (pr : PrView)
        → Same
            (or_fail o s st (react_to_comments o s b st pr) (give tt))
            (or_fail o s st (react_to_comments o s rest st pr) (give tt))
    comments-Same st pr w h =
        ap (go_on o s st (give tt))
          (react_to_comments-unhandled o s b st pr handled comments w found h)

    checks-Same :
        (st : PrWatchState) (pr : PrView)
        → Same
            (or_fail o s st
              (react_to_checks o s b pr pr.checks)
              (or_fail o s st (react_to_comments o s b st pr) (give tt)))
            (or_fail o s st
              (react_to_checks o s rest pr pr.checks)
              (or_fail o s st (react_to_comments o s rest st pr) (give tt)))
    checks-Same st pr w h =
        let kept =
          react_to_checks-Keeps o s (λ _. Unit {0}) (StaysSeen o s) (StaysSeen-IsKept o s) b pr
            pr.checks (any_check pr.checks) w in
        let seen = AllSeen-kept o s handled w (react_to_checks o s b pr pr.checks w).1 kept h in
        rw⁻¹ (react_to_checks-same o s b (some (unhandled handled comments)) pr pr.checks)
          (go_on-Same st (react_to_checks o s b pr pr.checks w) _ _ seen (comments-Same st pr))

    read_pr-Same :
        (st : PrWatchState) (pr : PrView) → Same (read_pr o s b st pr) (read_pr o s rest st pr)
    unfolding read_pr
    read_pr-Same st pr w h =
        let kept =
          save_watch_state-Keeps o s (λ _. Unit {0}) (StaysSeen o s) (StaysSeen-IsKept o s) st w in
        let seen = AllSeen-kept o s handled w (save_watch_state o s st w).1 kept h in
        continue-Same (save_watch_state o s st w) _ _ seen (λ _ v k.
          elim (Bool-cases (str_eq pr.state "OPEN")) [
            | inl e ↦ rw e (checks-Same st pr v k)
            | inr e ↦ rw e refl
          ])

    react_to_view-Same :
        (answer : ViewAnswer) (st : PrWatchState)
        → Same (react_to_view o s b answer st) (react_to_view o s rest answer st)
    unfolding react_to_view
    react_to_view-Same no_pr st w h = refl
    react_to_view-Same view_failed st w h = refl
    react_to_view-Same (view pr) st w h = read_pr-Same _ pr w h

    pub poll_session-unhandled : Same (poll_session o s b) (poll_session o s rest)
    unfolding poll_session call
    poll_session-unhandled w h = elim (Bool-cases (o.fails w.calls)) [
      | inl f ↦ rw (f, call) refl
      | inr f ↦ elim (Bool-cases (str_eq (session_dir s) "")) [
        | inl e ↦ rw (f, call, e) refl
        | inr e ↦
            rw (f, call, e) (react_to_view-Same b.pr_view _ (record w { calls = w.calls + 1 }) h)
      ]
    ]

-- A poll has handled the comments of a pull request without an error, and the viewer is known. Any polls
-- follow, and then comes a poll that reads any comments. It ends as it would, in result and in state,
-- if those that were handled were not among them; and a poll that reads the comments that were handled
-- and no others adds no to-do and no note for them.
pub comments_once :
    (o : Outside) (s : Session) (a b : Answers) (between : List Answers) (st st' : PrWatchState)
    (pr pr' : PrView) (handled comments : List ReviewComment) (w : World)
    → a.comments ≡ some handled
    → b.comments ≡ some comments
    → str_eq (login_after a.login w.viewer) "" ≡ false
    → (react_to_comments o s a st pr w).0 ≡ returns tt
    → (let v = polls o s between (react_to_comments o s a st pr w).1 in
        (poll_session o s b v
          ≡ poll_session o s (record b { comments = some (unhandled handled comments) }) v)
        × Untouched o s v
            (react_to_comments o s (record b { comments = some handled }) st' pr' v).1)
unfolding react_to_comments
comments_once o s a b between st st' pr pr' handled comments w e f known returned =
    let viewer = login_after a.login w.viewer in
    let since = if st.watch_since == 0 then s.created_at else st.watch_since in
    let u = (react_to_comments o s a st pr w).1 in
    let v = polls o s between u in
    let step : react_to_comments o s a st pr w
        ≡ read_comments o s since viewer pr (some handled) (record w { viewer = viewer }) =
      rw (known, e) refl in
    let marked =
      read_comments-AllSeen o s since viewer pr handled (record w { viewer = viewer })
        (sym (ap (λ x. x.0) step) ∙ returned) in
    let kept =
      polls-Keeps o s (λ _. Unit {0}) (StaysSeen o s) (StaysSeen-IsKept o s) between u
        (any_answers between) in
    let all =
      AllSeen-kept o s handled u v kept (subst (λ x. AllSeen o s handled x.1) (sym step) marked) in
    (
      poll_session-unhandled o s handled b comments f v all,
      react_to_comments-Untouched o s b st' pr' handled v all,
    )
