-- ===== src/Ci/Poll.antt =====
-- internal/ciwatch: the review comments (comments.go) and a whole poll (`PollSession` of watcher.go).
use aiman.Base.{
  ℕ, Bool, not, ◌&&◌, ◌||◌, List, [], ◌∷◌, Option, none, some, String, str_eq, ltb, ◌==◌,
  if◌then◌else◌,
}
use aiman.Ci.{PrView, ReviewComment}
use aiman.Ci.Tables.{
  Failure, store_failed, github_failed, no_directory, PrWatchState, SeenRow, is_seen, mark_seen,
  load_watch, save_watch,
}
use aiman.Ci.Text.{◌<>◌, review_ref, review_note, review_title, where_of}
use aiman.Ci.Watch.{
  Session, session_dir, World, Outside, ViewAnswer, no_pr, view_failed, view, Answers, Outcome,
  returns, fails_with, Step, ◌>>=◌, ◌>>◌, give, edit, ask, call, add_todo, steer_for, on_tables,
  react_to_checks,
}

-- A comment that is not handed to the agent: its own reply, or one from before the watch.
unfoldable pub is_history : String → ℕ → ReviewComment → Bool
is_history viewer since c =
    not (c.in_reply_to == 0) && str_eq c.author viewer || ltb c.created_at since

-- `viewerLogin`: the viewer is cached once known.
unfoldable pub login_after : Option String → String → String
login_after login viewer =
    if str_eq viewer "" then elim login [ none ↦ viewer | some l ↦ l ] else viewer

module _ (o : Outside) (s : Session) where
  unfoldable pub add_review_todo : PrView → ReviewComment → Step (Unit {0})
  unfolding add_todo steer_for
  add_review_todo pr c =
      add_todo o s (review_ref c.id)
        ("Address review: " <> review_title c.body <> " (" <> where_of c <> ")")
      >>= (λ added.
          if added then steer_for o s (review_ref c.id) (review_note o.encoding pr c) else give tt)

  -- The loop over the comments; it returns `processed`. `seen` is read once, before it.
  unfoldable pub process : List SeenRow → ℕ → String → PrView → List ReviewComment → Step (List ℕ)
  unfolding add_review_todo is_history is_seen
  process seen since viewer pr [] = give []
  process seen since viewer pr (c ∷ comments) =
      let rest = process seen since viewer pr comments in
      if is_seen s.id c.id seen
      then rest
      else if is_history viewer since c
      then rest >>= (λ ids. give (c.id ∷ ids))
      else add_review_todo pr c >> rest >>= (λ ids. give (c.id ∷ ids))

  unfoldable pub save_seen : List ℕ → Step (Unit {0})
  unfolding call mark_seen
  save_seen [] = give tt
  save_seen (c ∷ ids) =
      call o s store_failed
      >> on_tables o s (λ t. record t { seen = mark_seen s.id (c ∷ ids) t.seen })

  -- The rest of `reactToComments`, once the viewer is known.
  unfoldable pub read_comments : ℕ → String → PrView → Option (List ReviewComment) → Step (Unit {0})
  unfolding call process save_seen
  read_comments since viewer pr none w = (fails_with github_failed, w)
  read_comments since viewer pr (some comments) w =
      (call o s store_failed
          >> ask (λ v. v.tables.seen)
          >>= (λ seen. process seen since viewer pr comments >>= save_seen))
        w

  unfoldable pub react_to_comments : Answers → PrWatchState → PrView → Step (Unit {0})
  unfolding login_after read_comments
  react_to_comments a st pr =
      edit (λ w. record w { viewer = login_after a.login w.viewer })
      >> ask (λ w. w.viewer)
      >>= (λ viewer.
          if str_eq viewer ""
          then give tt
          else read_comments (if st.watch_since == 0 then s.created_at else st.watch_since) viewer
              pr a.comments)

  unfoldable pub save_watch_state : PrWatchState → Step (Unit {0})
  unfolding call save_watch
  save_watch_state st =
      call o s store_failed >> on_tables o s (λ t. record t { watches = save_watch st t.watches })

  -- `fail`; of two errors, the first is kept.
  unfoldable pub fail : PrWatchState → Failure → Step (Unit {0})
  unfolding save_watch_state
  fail st e =
      (λ w. (returns tt, (save_watch_state (record st { last_error = some e }) w).1))
      >> (λ w. (fails_with e, w))

  -- What follows a step that may fail.
  abbrev pub go_on :
      PrWatchState → Step (Unit {0}) → Outcome (Unit {0}) × World → Outcome (Unit {0}) × World
  go_on st next (returns _, w) = next w
  go_on st next (fails_with e, w) = fail st e w

  abbrev pub or_fail : PrWatchState → Step (Unit {0}) → Step (Unit {0}) → Step (Unit {0})
  or_fail st step next w = go_on st next (step w)

  unfoldable pub read_pr : Answers → PrWatchState → PrView → Step (Unit {0})
  unfolding save_watch_state react_to_checks react_to_comments fail
  read_pr a st pr =
      save_watch_state st
      >> (if str_eq pr.state "OPEN"
          then or_fail st (react_to_checks o s a pr pr.checks)
              (or_fail st (react_to_comments a st pr) (give tt))
          else give tt)

  -- What `gh pr view` said, and the reaction to it.
  unfoldable pub react_to_view : Answers → ViewAnswer → PrWatchState → Step (Unit {0})
  unfolding save_watch_state fail read_pr
  react_to_view a no_pr st =
      save_watch_state
        (record st { pr_number = 0; pr_state = ""; head_sha = ""; last_error = none })
  react_to_view a view_failed st = fail st github_failed
  react_to_view a (view pr) st =
      read_pr a
        (record st {
          pr_number = pr.number;
          pr_state = pr.state;
          head_sha = pr.head_sha;
          last_error = none;
        })
        pr

  -- The stored state, as polled now.
  unfoldable pub loaded_watch : World → PrWatchState
  unfolding load_watch
  loaded_watch w = record (load_watch s.id w.tables.watches) { last_polled_at = o.now w.calls }

  -- `PollSession`
  unfoldable pub poll_session : Answers → Step (Unit {0})
  unfolding call loaded_watch fail react_to_view
  poll_session a = call o s store_failed >> ask loaded_watch >>= (λ st.
      if str_eq (session_dir s) "" then fail st no_directory else react_to_view a a.pr_view st)

  -- The polls of the session in the loop of `Run`, one after the other; what a poll returns stops nothing.
  unfoldable pub polls : List Answers → World → World
  unfolding poll_session
  polls [] w = w
  polls (a ∷ answers) w = polls answers (poll_session a w).1
