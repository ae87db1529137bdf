-- ===== src/Ci/Laws.antt =====
-- What relates the world before and after each part of a poll, relates it before and after the poll.
use aiman.Base.{
  ℕ, ◌+◌, ◌<◌, ◌≡◌, refl, Bool, true, false, List, [], ◌∷◌, Option, none, some, String, str_eq, ltb,
  ◌==◌, if◌then◌else◌, Bool-cases, inl, inr, if-elim, arith, All,
}
use aiman.Base.Text.{Bytes}
use aiman.Ci.{
  Conclusion, conclusion_success, conclusion_failure, conclusion_pending, conclusion_other, Check,
  PrView, ReviewComment,
}
use aiman.Ci.Tables.{
  Failure, store_failed, todos_unavailable, github_failed, no_directory, PrWatchState, SeenRow,
  insert_failure, count_failures, clear_check, mark_seen, save_watch, is_seen,
}
use aiman.Ci.Text.{check_ref, review_ref, check_note, review_note}
use aiman.Ci.Watch.{
  Session, session_dir, World, Outside, view, no_pr, view_failed, ViewAnswer, Answers, Outcome,
  returns, fails_with, Step, continue, ◌>>=◌, ◌>>◌, give, edit, ask, call, get_todos, mutate_todos,
  append_unless_open, close_open, add_todo, steer_for, close_todo, check_passed,
  record_check_failure, escalate, ask_to_fix, check_failed, react_to_check, react_to_checks,
  max_fix_attempts, open_todo_by_ref, is_some, id_of,
}
use aiman.Ci.Poll.{
  is_history, add_review_todo, process, save_seen, react_to_comments, save_watch_state, fail, go_on,
  or_fail, read_pr, read_comments, react_to_view, loaded_watch, poll_session, polls, login_after,
}

-- The relation of a world to each one that a part of a poll makes of it. A check is cleared only where
-- `may_clear` holds of it.
pub record IsKept (o : Outside) (s : Session) (may_clear : String → Type 0)
    (R : World → World → Type 0) : Type 0 where
  pub same : (w : World) → R w w
  pub chain : (a b c : World) → R a b → R b c → R a c
  pub calling : (w : World) (n : ℕ) → R w (record w { calls = n })
  pub adding :
      (w : World) (ref text : String) → R w (mutate_todos o s (append_unless_open ref text) w).1
  pub closing : (w : World) (ref : String) → R w (mutate_todos o s (close_open ref) w).1
  pub noting : (w : World) (notes : List Bytes) → R w (record w { notes = notes })
  pub viewing : (w : World) (viewer : String) → R w (record w { viewer = viewer })
  pub watching :
      (w : World) (watches : List PrWatchState)
      → R w (record w { tables = record (w.tables) { watches = watches } })
  pub seeing :
      (w : World) (ids : List ℕ)
      → R w (record w { tables = record (w.tables) { seen = mark_seen s.id ids w.tables.seen } })
  pub clearing :
      (w : World) (check : String)
      → may_clear check
      → R w (record w { tables = clear_check s.id check w.tables })
  pub recording :
      (w : World) (check sha : String)
      → R w (record w {
        tables = record (w.tables) { failures = insert_failure s.id check sha w.tables.failures };
      })
  pub escalating :
      (w : World) (pr : PrView) (c : Check)
      → 3 < count_failures s.id c.name w.tables.failures
      → R w (escalate o s pr c w).1

-- The checks that a poll sees.
abbrev pub seen_checks : ViewAnswer → List Check
seen_checks (view pr) = pr.checks
seen_checks _ = []

module _ (o : Outside) (s : Session) (may_clear : String → Type 0) (R : World → World → Type 0)
    (k : IsKept o s may_clear R) where
  abbrev Keeps : {A : Type 0} → Step A → Type 0
  Keeps step = (w : World) → R w (step w).1

  continue-Keeps :
      {A B : Type 0} (w : World) (x : Outcome A × World) (next : A → Step B)
      → R w x.1
      → ((a : A) → Keeps (next a))
      → R w (continue x next).1
  continue-Keeps w (returns a, v) next r f = k.chain w v (next a v).1 r (f a v)
  continue-Keeps w (fails_with e, v) next r f = r

  >>=-Keeps :
      {A B : Type 0} (step : Step A) (next : A → Step B)
      → Keeps step
      → ((a : A) → Keeps (next a))
      → Keeps (step >>= next)
  >>=-Keeps step next r f w = continue-Keeps w (step w) next (r w) f

  >>-Keeps :
      {A B : Type 0} (step : Step A) (next : Step B)
      → Keeps step
      → Keeps next
      → Keeps (step >> next)
  >>-Keeps step next r f w = continue-Keeps w (step w) (λ _. next) (r w) (λ _. f)

  give-Keeps : {A : Type 0} (a : A) → Keeps (give a)
  give-Keeps a w = k.same w

  ask-Keeps : {A : Type 0} (f : World → A) → Keeps (ask f)
  ask-Keeps f w = k.same w

  call-Keeps : (f : Failure) → Keeps (call o s f)
  unfolding call
  call-Keeps f w = elim (Bool-cases (o.fails w.calls)) [
    | inl h ↦ rw (h, call) (k.calling w (w.calls + 1))
    | inr h ↦ rw (h, call) (k.calling w (w.calls + 1))
  ]

  get_todos-Keeps : Keeps (get_todos o s)
  unfolding get_todos
  get_todos-Keeps =
      >>-Keeps (call o s todos_unavailable) _ (call-Keeps todos_unavailable) (λ w. k.same w)

  if-Keeps : {A : Type 0} (b : Bool) (x y : Step A) → Keeps x → Keeps y → Keeps (if b then x else y)
  if-Keeps true x y f g = f
  if-Keeps false x y f g = g

  add_todo-Keeps : (ref text : String) → Keeps (add_todo o s ref text)
  unfolding add_todo
  add_todo-Keeps ref text w =
      >>-Keeps (mutate_todos o s (append_unless_open ref text)) _ (λ v. k.adding v ref text)
        (λ v. k.same v) w

  steer_for-Keeps : (ref : String) (note : String → Bytes) → Keeps (steer_for o s ref note)
  unfolding steer_for
  steer_for-Keeps ref note =
      >>=-Keeps (get_todos o s) _ get_todos-Keeps
        (λ items w. k.noting w (note (id_of (open_todo_by_ref ref items)) ∷ w.notes))

  close_todo-Keeps : (ref : String) → Keeps (close_todo o s ref)
  unfolding close_todo
  close_todo-Keeps ref = >>=-Keeps (get_todos o s) _ get_todos-Keeps (λ items.
      if-Keeps (is_some (open_todo_by_ref ref items)) _ _ (λ w. k.closing w ref) (give-Keeps tt))

  check_passed-Keeps : (c : Check) → may_clear c.name → Keeps (check_passed o s c)
  unfolding check_passed
  check_passed-Keeps c may =
      >>-Keeps _ _
        (>>-Keeps (call o s store_failed) _ (call-Keeps store_failed)
          (λ w. k.clearing w c.name may))
        (close_todo-Keeps (check_ref c.name))

  ask_to_fix-Keeps : (a : Answers) (pr : PrView) (c : Check) → Keeps (ask_to_fix o s a pr c)
  unfolding ask_to_fix
  ask_to_fix-Keeps a pr c = >>=-Keeps (get_todos o s) _ get_todos-Keeps (λ items.
      if-Keeps (is_some (open_todo_by_ref (check_ref c.name) items)) _ _ (give-Keeps tt) (
        >>=-Keeps (add_todo o s (check_ref c.name) _) _ (add_todo-Keeps (check_ref c.name) _)
          (λ added.
            if-Keeps added _ _
              (steer_for-Keeps (check_ref c.name) (check_note o.encoding a.job_log pr c))
              (give-Keeps tt))))

  -- What is asked last is what the world says after it.
  continue-ask :
      {A B : Type 0} (x : Outcome A × World) (f : World → B) (b : B)
      → (continue x (λ _. ask f)).0 ≡ returns b
      → b ≡ f (continue x (λ _. ask f)).1
  continue-ask (returns a, w) f b e = ground arith
  continue-ask (fails_with e', w) f b e = absurd (ground arith)

  counted :
      (check sha : String) (w : World) (n : ℕ)
      → (record_check_failure o s check sha w).0 ≡ returns n
      → n ≡ count_failures s.id check (record_check_failure o s check sha w).1.tables.failures
  unfolding record_check_failure
  counted check sha w n e =
      continue-ask
        ((call o s store_failed
            >> (λ v. (
              returns tt,
              record v {
                tables = record (v.tables) {
                  failures = insert_failure s.id check sha v.tables.failures;
                };
              },
            ))
            >> call o s store_failed)
          w)
        (λ v. count_failures s.id check v.tables.failures) n e

  record_check_failure-Keeps : (check sha : String) → Keeps (record_check_failure o s check sha)
  unfolding record_check_failure
  record_check_failure-Keeps check sha =
      let insert : Step (Unit {0}) = edit (λ w. record w {
        tables = record (w.tables) { failures = insert_failure s.id check sha w.tables.failures };
      }) in
      let first : Step (Unit {0}) = call o s store_failed >> insert in
      let second : Step (Unit {0}) = first >> call o s store_failed in
      >>-Keeps second (ask (λ w. count_failures s.id check w.tables.failures))
        (>>-Keeps first (call o s store_failed)
          (>>-Keeps (call o s store_failed) insert (call-Keeps store_failed)
            (λ w. k.recording w check sha))
          (call-Keeps store_failed))
        (λ w. k.same w)

  continue-given :
      (a : Answers) (pr : PrView) (c : Check) (w : World) (x : Outcome ℕ × World)
      → R w x.1
      → ((n : ℕ) → x.0 ≡ returns n → n ≡ count_failures s.id c.name x.1.tables.failures)
      → R w
          (continue x
            (λ n. if ltb max_fix_attempts n then escalate o s pr c else ask_to_fix o s a pr c)).1
  continue-given a pr c w (returns n, v) r count = k.chain w v _ r (
      if-elim {A = Step (Unit {0})} (λ step. R v (step v).1) (ltb max_fix_attempts n)
        (λ h. k.escalating v pr c (let e = count n refl in ground arith))
        (λ _. ask_to_fix-Keeps a pr c v))
  continue-given a pr c w (fails_with e, v) r count = r

  check_failed-Keeps : (a : Answers) (pr : PrView) (c : Check) → Keeps (check_failed o s a pr c)
  unfolding check_failed
  check_failed-Keeps a pr c w =
      continue-given a pr c w (record_check_failure o s c.name pr.head_sha w)
        (record_check_failure-Keeps c.name pr.head_sha w) (counted c.name pr.head_sha w)

  -- The checks that pass may be cleared.
  abbrev pub May : Check → Type 0
  May c = c.conclusion ≡ conclusion_success → may_clear c.name

  react_to_check-Keeps :
      (a : Answers) (pr : PrView) (c : Check) → May c → Keeps (react_to_check o s a pr c)
  unfolding react_to_check
  react_to_check-Keeps a pr c may w = go c.conclusion may
    where
      go :
          (x : Conclusion)
          → (x ≡ conclusion_success → may_clear c.name)
          → R w
              ((elim x as (λ _. Step (Unit {0})) [
                | conclusion_success ↦ check_passed o s c
                | conclusion_failure ↦ check_failed o s a pr c
                | _ ↦ give tt
              ])
                w).1
      go conclusion_success m = check_passed-Keeps c (m refl) w
      go conclusion_failure m = check_failed-Keeps a pr c w
      go conclusion_pending m = k.same w
      go conclusion_other m = k.same w

  pub react_to_checks-Keeps :
      (a : Answers) (pr : PrView) (checks : List Check)
      → All May checks
      → Keeps (react_to_checks o s a pr checks)
  unfolding react_to_checks
  react_to_checks-Keeps a pr [] may = give-Keeps tt
  react_to_checks-Keeps a pr (c ∷ checks) (m, may) =
      >>-Keeps (react_to_check o s a pr c) _ (react_to_check-Keeps a pr c m)
        (react_to_checks-Keeps a pr checks may)

  -- `process` and what stands around it.
  add_review_todo-Keeps : (pr : PrView) (c : ReviewComment) → Keeps (add_review_todo o s pr c)
  unfolding add_review_todo
  add_review_todo-Keeps pr c =
      >>=-Keeps (add_todo o s (review_ref c.id) _) _ (add_todo-Keeps (review_ref c.id) _) (λ added.
        if-Keeps added _ _ (steer_for-Keeps (review_ref c.id) (review_note o.encoding pr c))
          (give-Keeps tt))

  pub process-Keeps :
      (seen : List SeenRow) (since : ℕ) (viewer : String) (pr : PrView)
      (comments : List ReviewComment)
      → Keeps (process o s seen since viewer pr comments)
  unfolding process
  process-Keeps seen since viewer pr [] = λ w. k.same w
  process-Keeps seen since viewer pr (c ∷ comments) =
      let rest : Step (List ℕ) = process o s seen since viewer pr comments in
      let ih = process-Keeps seen since viewer pr comments in
      let last : Keeps (rest >>= (λ ids. give (c.id ∷ ids))) =
        >>=-Keeps rest (λ ids. give (c.id ∷ ids)) ih (λ ids w. k.same w) in
      let todo : Step (Unit {0}) = add_review_todo o s pr c in
      let both : Step (List ℕ) = todo >> rest in
      let skipped : Step (List ℕ) = rest >>= (λ ids. give (c.id ∷ ids)) in
      let handled : Step (List ℕ) = both >>= (λ ids. give (c.id ∷ ids)) in
      if-Keeps (is_seen s.id c.id seen) rest
        (if is_history viewer since c then skipped else handled) ih
        (if-Keeps (is_history viewer since c) skipped handled last (
          >>=-Keeps both (λ ids. give (c.id ∷ ids))
            (>>-Keeps todo rest (add_review_todo-Keeps pr c) ih) (λ ids w. k.same w)))

  save_seen-Keeps : (ids : List ℕ) → Keeps (save_seen o s ids)
  unfolding save_seen
  save_seen-Keeps [] = λ w. k.same w
  save_seen-Keeps (c ∷ ids) =
      >>-Keeps (call o s store_failed) _ (call-Keeps store_failed) (λ w. k.seeing w (c ∷ ids))

  read_comments-Keeps :
      (since : ℕ) (viewer : String) (pr : PrView) (comments : Option (List ReviewComment))
      → Keeps (read_comments o s since viewer pr comments)
  unfolding read_comments
  read_comments-Keeps since viewer pr none = λ w. k.same w
  read_comments-Keeps since viewer pr (some comments) =
      let rows : Step (List SeenRow) = call o s store_failed >> ask (λ w. w.tables.seen) in
      let handle : List SeenRow → Step (Unit {0}) =
        λ seen. process o s seen since viewer pr comments >>= save_seen o s in
      >>=-Keeps rows handle
        (>>-Keeps (call o s store_failed) (ask (λ w. w.tables.seen)) (call-Keeps store_failed)
          (λ w. k.same w))
        (λ seen.
          >>=-Keeps (process o s seen since viewer pr comments) (save_seen o s)
            (process-Keeps seen since viewer pr comments) save_seen-Keeps)

  react_to_comments-Keeps :
      (a : Answers) (st : PrWatchState) (pr : PrView) → Keeps (react_to_comments o s a st pr)
  unfolding react_to_comments
  react_to_comments-Keeps a st pr =
      let set : Step (Unit {0}) = edit (λ w. record w { viewer = login_after a.login w.viewer }) in
      let viewer : Step String = set >> ask (λ w. w.viewer) in
      let since = if st.watch_since == 0 then s.created_at else st.watch_since in
      let rest : String → Step (Unit {0}) = λ v. read_comments o s since v pr a.comments in
      >>=-Keeps viewer (λ v. if str_eq v "" then give tt else rest v)
        (>>-Keeps set (ask (λ w. w.viewer)) (λ w. k.viewing w (login_after a.login w.viewer))
          (λ w. k.same w))
        (λ v.
          if-Keeps (str_eq v "") (give tt) (rest v) (give-Keeps tt)
            (read_comments-Keeps since v pr a.comments))

  pub save_watch_state-Keeps : (st : PrWatchState) → Keeps (save_watch_state o s st)
  unfolding save_watch_state
  save_watch_state-Keeps st =
      >>-Keeps (call o s store_failed) _ (call-Keeps store_failed)
        (λ w. k.watching w (save_watch st w.tables.watches))

  fail-Keeps : (st : PrWatchState) (e : Failure) → Keeps (fail o s st e)
  unfolding fail
  fail-Keeps st e w = save_watch_state-Keeps (record st { last_error = some e }) w

  go_on-Keeps :
      (st : PrWatchState) (next : Step (Unit {0})) (w : World) (x : Outcome (Unit {0}) × World)
      → Keeps next
      → R w x.1
      → R w (go_on o s st next x).1
  go_on-Keeps st next w (returns a, v) f r = k.chain w v (next v).1 r (f v)
  go_on-Keeps st next w (fails_with e, v) f r = k.chain w v _ r (fail-Keeps st e v)

  read_pr-Keeps :
      (a : Answers) (st : PrWatchState) (pr : PrView)
      → All May pr.checks
      → Keeps (read_pr o s a st pr)
  unfolding read_pr
  read_pr-Keeps a st pr may =
      let comments : Step (Unit {0}) = or_fail o s st (react_to_comments o s a st pr) (give tt) in
      let checks : Step (Unit {0}) = or_fail o s st (react_to_checks o s a pr pr.checks) comments in
      let open_pr : Step (Unit {0}) = if str_eq pr.state "OPEN" then checks else give tt in
      >>-Keeps (save_watch_state o s st) open_pr (save_watch_state-Keeps st) (
        if-Keeps (str_eq pr.state "OPEN") checks (give tt)
          (λ w.
            go_on-Keeps st comments w (react_to_checks o s a pr pr.checks w)
              (λ v.
                go_on-Keeps st (give tt) v (react_to_comments o s a st pr v) (give-Keeps tt)
                  (react_to_comments-Keeps a st pr v))
              (react_to_checks-Keeps a pr pr.checks may w))
          (give-Keeps tt))

  react_to_view-Keeps :
      (a : Answers) (answer : ViewAnswer) (st : PrWatchState)
      → All May (seen_checks answer)
      → Keeps (react_to_view o s a answer st)
  unfolding react_to_view
  react_to_view-Keeps a no_pr st may = save_watch_state-Keeps _
  react_to_view-Keeps a view_failed st may = fail-Keeps st github_failed
  react_to_view-Keeps a (view pr) st may = read_pr-Keeps a _ pr may

  pub poll_session-Keeps :
      (a : Answers) → All May (seen_checks a.pr_view) → Keeps (poll_session o s a)
  unfolding poll_session
  poll_session-Keeps a may =
      let load : Step PrWatchState = call o s store_failed >> ask (loaded_watch o s) in
      let rest : PrWatchState → Step (Unit {0}) = λ st. react_to_view o s a a.pr_view st in
      let follow : PrWatchState → Step (Unit {0}) =
        λ st. if str_eq (session_dir s) "" then fail o s st no_directory else rest st in
      >>=-Keeps load follow
        (>>-Keeps (call o s store_failed) (ask (loaded_watch o s)) (call-Keeps store_failed)
          (λ w. k.same w))
        (λ st.
          if-Keeps (str_eq (session_dir s) "") (fail o s st no_directory) (rest st)
            (fail-Keeps st no_directory) (react_to_view-Keeps a a.pr_view st may))

  pub polls-Keeps :
      (answers : List Answers) (w : World)
      → All (λ a. All May (seen_checks a.pr_view)) answers
      → R w (polls o s answers w)
  unfolding polls
  polls-Keeps [] w may = k.same w
  polls-Keeps (a ∷ answers) w (m, may) =
      let v = (poll_session o s a w).1 in
      k.chain w v (polls o s answers v) (poll_session-Keeps a m w) (polls-Keeps answers v may)
