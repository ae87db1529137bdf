-- ===== src/Steer/Terminal/Once.antt =====
-- How often a note is typed, and how often Return is pressed.
use aiman.Base.{
  ℕ, zero, suc, ◌+◌, ◌-◌, ◌≤◌, ◌<◌, ◌≡◌, ◌≢◌, refl, true, not, ◌||◌, List, [], ◌∷◌, ◌++◌, none,
  some, arith, if-elim,
}
use aiman.Base.Text.{Bytes, bytes_eq_iff}
use aiman.Steer.Terminal.{
  Key, typed, entered, Round, Answers, confirm_loop, confirm_submit, SubmitProgress, Outcome,
  submitted, typed_not_submitted, submit_unconfirmed, failed, confirm_only, submit_typed,
  type_and_submit, Deliveries, steer_progress, finish_steer_submit, steer_one_line, Delivery,
  deliver_steer, try_until, submit_marker,
}

-- The texts among the keys, and the Returns.
unfoldable pub times_typed : List Key → ℕ
times_typed [] = 0
times_typed (typed text ∷ keys) = suc (times_typed keys)
times_typed (entered ∷ keys) = times_typed keys

unfoldable pub times_entered : List Key → ℕ
times_entered [] = 0
times_entered (typed text ∷ keys) = times_entered keys
times_entered (entered ∷ keys) = suc (times_entered keys)

times_typed-append : (xs ys : List Key) → times_typed (xs ++ ys) ≡ times_typed xs + times_typed ys
unfolding times_typed
times_typed-append [] ys = omega arith
times_typed-append (typed text ∷ xs) ys = omega (arith, times_typed-append xs ys)
times_typed-append (entered ∷ xs) ys = times_typed-append xs ys

typed_then :
    (xs ys : List Key)
    → times_typed xs ≤ 1
    → times_typed ys ≤ 1
    → (0 < times_typed xs → times_typed ys ≡ 0)
    → times_typed (xs ++ ys) ≤ 1
typed_then xs ys l r z = ground (arith, times_typed-append xs ys)

module _ (strip : Bytes → Bytes) where
  confirm_loop-keys :
      (marker : Bytes) (rounds : ℕ → Round) (attempt left : ℕ)
      → (times_typed (confirm_loop strip marker rounds attempt left).0 ≡ 0)
        × (times_entered (confirm_loop strip marker rounds attempt left).0 ≤ left)
  unfolding confirm_loop times_typed times_entered
  confirm_loop-keys marker rounds attempt zero = (refl, omega arith)
  confirm_loop-keys marker rounds attempt (suc left) =
      let ih = confirm_loop-keys marker rounds (attempt + 1) left in ground (arith, ih.0, ih.1)

  confirm_submit-keys :
      (attempts : ℕ) (prompt : Bytes) (rounds : ℕ → Round)
      → (times_typed (confirm_submit strip attempts prompt rounds).0 ≡ 0)
        × (times_entered (confirm_submit strip attempts prompt rounds).0 ≤ attempts - 1)
  unfolding confirm_submit times_typed times_entered
  confirm_submit-keys attempts prompt rounds =
      let l = confirm_loop-keys (submit_marker prompt) rounds 1 (attempts - 1) in
      ground (arith, l.0, l.1)

  submit_typed-keys :
      (attempts : ℕ) (prompt : Bytes) (a : Answers)
      → 0 < attempts
      → (times_typed (submit_typed strip attempts prompt a).0 ≡ 0)
        × (times_entered (submit_typed strip attempts prompt a).0 ≤ attempts)
  unfolding submit_typed times_typed times_entered
  submit_typed-keys attempts prompt a pos =
      let l = confirm_submit-keys attempts prompt a.rounds in ground (arith, l.0, l.1)

  type_and_submit-keys :
      (attempts : ℕ) (prompt : Bytes) (progress : SubmitProgress) (a : Answers)
      → 0 < attempts
      → (times_typed (type_and_submit strip attempts prompt progress a).0 ≤ 1)
        × (times_entered (type_and_submit strip attempts prompt progress a).0 ≤ attempts)
  unfolding type_and_submit confirm_only times_typed times_entered
  type_and_submit-keys attempts prompt progress a pos =
      let l = confirm_submit-keys attempts prompt a.rounds in
      let t = submit_typed-keys attempts prompt a pos in ground (arith, l.0, l.1, t.0, t.1)

  type_and_submit_typed :
      (attempts : ℕ) (prompt : Bytes) (progress : SubmitProgress) (a : Answers)
      → 0 < attempts
      → progress.typed_before ≡ true
      → (times_typed (type_and_submit strip attempts prompt progress a).0 ≡ 0)
        × ((type_and_submit strip attempts prompt progress a).1 ≢ failed)
  unfolding type_and_submit confirm_only submit_typed times_typed
  type_and_submit_typed attempts prompt progress a pos t =
      let l = confirm_submit-keys attempts prompt a.rounds in (ground (arith, l.0), ground arith)

  type_and_submit_failed :
      (attempts : ℕ) (prompt : Bytes) (progress : SubmitProgress) (a : Answers)
      → (type_and_submit strip attempts prompt progress a).1 ≡ failed
      → times_typed (type_and_submit strip attempts prompt progress a).0 ≡ 0
  unfolding type_and_submit confirm_only submit_typed times_typed
  type_and_submit_failed attempts prompt progress a e = ground arith

-- The flight of the line is the one that the server keeps.
abbrev InComposer : Bytes → Deliveries → Type 0
InComposer line d = (steer_progress line d).typed_before ≡ true

finish_steer_submit-InComposer :
    (line : Bytes) (now : ℕ) (o : Outcome) (d : Deliveries)
    → o ≢ failed
    → (finish_steer_submit line now o d).0 ≡ none
    → InComposer line (finish_steer_submit line now o d).1
unfolding finish_steer_submit steer_progress
finish_steer_submit-InComposer line now (submitted at) d f e = cc
finish_steer_submit-InComposer line now typed_not_submitted d f e =
    ground (arith, bytes_eq_iff line line)
finish_steer_submit-InComposer line now (submit_unconfirmed at) d f e =
    ground (arith, bytes_eq_iff line line)
finish_steer_submit-InComposer line now failed d f e = ground (arith, f refl)

module _ (strip : Bytes → Bytes) (attempts : ℕ) (text : Bytes) where
  deliver_steer_again :
      (a : Answers) (d : Deliveries)
      → 0 < attempts
      → InComposer (steer_one_line text) d
      → (times_typed (deliver_steer strip attempts text a d).keys ≡ 0)
        × ((deliver_steer strip attempts text a d).delivered ≡ none
            → InComposer (steer_one_line text) (deliver_steer strip attempts text a d).kept)
  unfolding deliver_steer finish_steer_submit times_typed
  deliver_steer_again a d pos h =
      let line = steer_one_line text in
      let p = steer_progress line d in
      let r = type_and_submit strip attempts line p a in
      let t = type_and_submit_typed strip attempts line p a pos h in
      let f = finish_steer_submit-InComposer line a.settled r.1 d in
      let G = λ (x : Delivery).
        (times_typed x.keys ≡ 0) × (x.delivered ≡ none → InComposer line x.kept) in
      if-elim G (not a.found || a.legacy) (λ _. (refl, λ _. h))
        (λ _. if-elim G (not a.running) (λ _. (refl, λ _. h)) (λ _. (t.0, f t.1)))

  deliver_steer_first :
      (a : Answers) (d : Deliveries)
      → 0 < attempts
      → (times_typed (deliver_steer strip attempts text a d).keys ≤ 1)
        × ((deliver_steer strip attempts text a d).delivered ≡ none
            → 0 < times_typed (deliver_steer strip attempts text a d).keys
            → InComposer (steer_one_line text) (deliver_steer strip attempts text a d).kept)
  unfolding deliver_steer finish_steer_submit times_typed
  deliver_steer_first a d pos =
      let line = steer_one_line text in
      let p = steer_progress line d in
      let r = type_and_submit strip attempts line p a in
      let t = type_and_submit-keys strip attempts line p a pos in
      let G = λ (x : Delivery).
        (times_typed x.keys ≤ 1)
        × (x.delivered ≡ none → 0 < times_typed x.keys → InComposer line x.kept) in
      if-elim G (not a.found || a.legacy) (λ _. (omega arith, λ _ lt. ground (arith, lt)))
        (λ _.
          if-elim G (not a.running) (λ _. (omega arith, λ _ lt. ground (arith, lt)))
            (λ _. (
              t.0,
              λ e lt.
                  finish_steer_submit-InComposer line a.settled r.1 d
                    (λ bad. omega (arith, lt, type_and_submit_failed strip attempts line p a bad))
                    e,
            )))

  try_until_again :
      (answers : List Answers) (d : Deliveries)
      → 0 < attempts
      → InComposer (steer_one_line text) d
      → times_typed (try_until strip attempts text answers d) ≡ 0
  unfolding try_until times_typed
  try_until_again [] d pos h = refl
  try_until_again (a ∷ answers) d pos h =
      let r = deliver_steer strip attempts text a d in
      let n = deliver_steer_again a d pos h in
      let rest = try_until strip attempts text answers r.kept in
      elim r.delivered
          as (λ o.
            (o ≡ none → InComposer (steer_one_line text) r.kept)
            → times_typed (elim o [ some at ↦ r.keys | none ↦ r.keys ++ rest ]) ≡ 0) [
              | some at ↦ λ _. n.0
              | none ↦ λ k. omega (
                arith,
                times_typed-append r.keys rest,
                n.0,
                try_until_again answers r.kept pos (k refl),
              )
            ]
        n.1

  -- One text, tried until a try succeeds, with any answers of the terminal and whatever the server keeps
  -- of earlier notes: it is typed at most once. An empty budget is excluded.
  pub try_until_once :
      (answers : List Answers) (d : Deliveries)
      → 0 < attempts
      → times_typed (try_until strip attempts text answers d) ≤ 1
  unfolding try_until times_typed
  try_until_once [] d pos = omega arith
  try_until_once (a ∷ answers) d pos =
      let r = deliver_steer strip attempts text a d in
      let n = deliver_steer_first a d pos in
      let rest = try_until strip attempts text answers r.kept in
      elim r.delivered
          as (λ o.
            (o ≡ none → 0 < times_typed r.keys → InComposer (steer_one_line text) r.kept)
            → times_typed (elim o [ some at ↦ r.keys | none ↦ r.keys ++ rest ]) ≤ 1) [
              | some at ↦ λ _. n.0
              | none ↦ λ k.
                  typed_then r.keys rest n.0 (try_until_once answers r.kept pos)
                    (λ lt. try_until_again answers r.kept pos (k refl lt))
            ]
        n.1

  -- A delivery presses Return at most as often as the budget says.
  pub deliver_steer_returns :
      (a : Answers) (d : Deliveries)
      → 0 < attempts
      → times_entered (deliver_steer strip attempts text a d).keys ≤ attempts
  unfolding deliver_steer times_entered
  deliver_steer_returns a d pos =
      let line = steer_one_line text in
      let p = steer_progress line d in
      let t = type_and_submit-keys strip attempts line p a pos in
      let G = λ (x : Delivery). times_entered x.keys ≤ attempts in
      if-elim G (not a.found || a.legacy) (λ _. omega arith)
        (λ _. if-elim G (not a.running) (λ _. omega arith) (λ _. t.1))
