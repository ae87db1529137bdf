-- ===== src/Steer/Order.antt =====
-- The order in which the notes of one session are typed.
use aiman.Base.{
  ℕ, ◌+◌, ◌<◌, ◌≡◌, refl, sym, List, [], ◌∷◌, ◌++◌, Option, none, some, String, ◌==◌, arith,
  if-elim, not, ◌||◌,
}
use aiman.Base.Space.{is_blank}
use mathlib.Core.Path.{subst}
use aiman.Todo.Types.{TodoAuthor, is_agent}
use aiman.Todo.Change.{Op, steers_agent}
use aiman.Steer.{
  with_text, with_ops, with_delivered, with_loaded, keep_session, SteerRecord, QueuedNote,
  SteerSession, Steerer, session_locked, on_session, enqueue, enqueue_todo, take_window, records_of,
  append_notes, forget_session, load_notes, load_delivered, if_there, holds_record, pending_of,
  deliver_start, hold_delivery, fail_delivery, finish_delivery,
}
use aiman.Steer.System.{
  Job, idle, typing, marking, System, SteerStep, enqueues, enqueues_todo, takes, appends, forgets,
  loads, retries, starts, holds, fails, types, marks, Reach, here, next, new_steerer,
}
use aiman.Steer.Fits.{
  Above, last_seq, pending_of-if_there, last_seq-append, Above-append, Fits, Fits-snoc, Fits-nil,
  Fits-number,
}
use aiman.Steer.Finish.{Fits-finish}
use aiman.Steer.Moves.{Fits-retry, Fits-start, Fits-back, Fits-typed}

-- The operations that leave the notes as they are.
pub pending_of-on_session :
    (f : SteerSession → SteerSession) (s : Steerer)
    → ((st : SteerSession) → (f st).pending ≡ st.pending)
    → pending_of (on_session f s) ≡ pending_of s
unfolding on_session session_locked
pending_of-on_session f s e =
    elim s.session
      as (λ o.
        pending_of (on_session f (record s { session = o }))
        ≡ pending_of (record s { session = o })) [ none ↦ e _ | some st ↦ e st ]

pub pending_of-enqueue :
    (author : TodoAuthor) (text : String) (s : Steerer)
    → pending_of (enqueue author text s) ≡ pending_of s
unfolding enqueue
pending_of-enqueue author text s =
    if-elim (λ x. pending_of x ≡ pending_of s) (is_agent author || is_blank text) (λ _. refl)
      (λ _. pending_of-on_session (with_text author text) s (λ st. refl))

pub pending_of-enqueue_todo :
    (author : TodoAuthor) (ops : List Op) (s : Steerer)
    → pending_of (enqueue_todo author ops s) ≡ pending_of s
unfolding enqueue_todo with_ops
pending_of-enqueue_todo author ops s =
    if-elim (λ x. pending_of x ≡ pending_of s)
      (not (steers_agent (record { author = author; ops = ops; rev = 0 }))) (λ _. refl)
      (λ _. pending_of-on_session (with_ops author ops) s (λ st. refl))

pub seq-enqueue :
    (author : TodoAuthor) (text : String) (s : Steerer) → (enqueue author text s).seq ≡ s.seq
unfolding enqueue on_session
seq-enqueue author text s = ground arith

pub seq-enqueue_todo :
    (author : TodoAuthor) (ops : List Op) (s : Steerer) → (enqueue_todo author ops s).seq ≡ s.seq
unfolding enqueue_todo on_session
seq-enqueue_todo author ops s = ground arith

-- The invariant, at a steerer.
abbrev pub Holds : Job → ℕ → Steerer → Type 0
Holds job last s = Fits job last s.seq (pending_of s)

Holds-same :
    (job : Job) (last : ℕ) (s t : Steerer)
    → t.seq ≡ s.seq
    → pending_of t ≡ pending_of s
    → Holds job last s
    → Holds job last t
Holds-same job last s t e p h =
    subst (λ n. Fits job last n (pending_of t)) (sym e) (subst (Fits job last s.seq) (sym p) h)

Holds-append :
    (job : Job) (last generation : ℕ) (recs : List SteerRecord) (failure : String) (s : Steerer)
    → Holds job last s
    → Holds job last (append_notes generation recs failure s)
unfolding append_notes
Holds-append job last generation recs failure s h =
    elim s.session
        as (λ o.
          Holds job last (record s { session = o })
          → Holds job last (append_notes generation recs failure (record s { session = o }))) [
            | none ↦ λ h. h
            | some st ↦ λ h.
                if-elim (Holds job last) (not (st.generation == generation)) (λ _. h)
                  (λ _. Fits-number job last s.seq st.pending recs h)
          ]
      h

Holds-forget :
    (job : Job) (last : ℕ) (s : Steerer) → Holds job last s → Holds job last (forget_session s)
unfolding forget_session
Holds-forget job last s h = Fits-nil job last s.seq (pending_of s) h

Holds-with_loaded :
    (job : Job) (last : ℕ) (r : SteerRecord) (s : Steerer)
    → Holds job last s
    → Holds job last (on_session (with_loaded (s.seq + 1) r) (record s { seq = s.seq + 1 }))
unfolding on_session session_locked
Holds-with_loaded job last r s h =
    elim s.session
        as (λ o.
          Holds job last (record s { session = o })
          → Holds job last (
              on_session (with_loaded (s.seq + 1) r) (record s { session = o; seq = s.seq + 1 }))) [
                | none ↦ λ h.
                    Fits-snoc job last s.seq []
                      (record { seq = s.seq + 1; rec = r; submitted_at = 0 }) refl h
                | some st ↦ λ h.
                    Fits-snoc job last s.seq st.pending
                      (record { seq = s.seq + 1; rec = r; submitted_at = 0 }) refl h
              ]
      h

Holds-load_notes :
    (job : Job) (last : ℕ) (recs : List SteerRecord) (s : Steerer)
    → Holds job last s
    → Holds job last (load_notes recs s)
unfolding load_notes on_session
Holds-load_notes job last [] s h = h
Holds-load_notes job last (r ∷ recs) s h = Holds-load_notes job last recs _ (
    if-elim (Holds job last) (holds_record r.id (session_locked s).pending)
      (λ _.
        Holds-same job last s (on_session keep_session s) refl
          (pending_of-on_session keep_session s (λ st. refl)) h)
      (λ _. Holds-with_loaded job last r s h))

Holds-load_delivered :
    (job : Job) (last at : ℕ) (s : Steerer)
    → Holds job last s
    → Holds job last (load_delivered at s)
unfolding load_delivered on_session
Holds-load_delivered job last at s h =
    Holds-same job last s (load_delivered at s) refl
      (pending_of-on_session (with_delivered at) s (λ st. refl)) h

pub pending_of-keeps :
    (f : SteerSession → SteerSession) (s : Steerer)
    → ((st : SteerSession) → (f st).pending ≡ st.pending)
    → pending_of (if_there f s) ≡ pending_of s
pending_of-keeps f s e = pending_of-if_there f (λ notes. notes) e refl s

Holds-take :
    (job : Job) (last : ℕ) (st : SteerSession) (s : Steerer)
    → s.session ≡ some st
    → Holds job last s
    → Holds job last (record s { session = some (take_window st).1 })
unfolding take_window
Holds-take job last st s e h =
    subst (λ o. Fits job last s.seq (elim o [ none ↦ [] | some st ↦ st.pending ])) e h

Holds-finish :
    (last : ℕ) (batch : List QueuedNote) (at : ℕ) (failure : Option String) (s : Steerer)
    → Holds (marking batch at) last s
    → Holds idle last (finish_delivery batch at failure s)
unfolding finish_delivery
Holds-finish last batch at none s h = Fits-finish batch at last s.seq none s h
Holds-finish last batch at (some failure) s h = Fits-finish batch at last s.seq (some failure) s h

-- The delivery loop outside the lock, and the log.
pub record Inv (y : System) : Type 0 where
  pub logged : Above 0 y.log
  pub fits : Holds y.job (last_seq 0 y.log) y.steerer

pub Holds-job :
    (y : System) (job : Job) → y.job ≡ job → Inv y → Holds job (last_seq 0 y.log) y.steerer
Holds-job y job e v = subst (λ j. Holds j (last_seq 0 y.log) y.steerer) e v.fits

Inv-call :
    (y : System) (s : Steerer)
    → (Holds y.job (last_seq 0 y.log) y.steerer → Holds y.job (last_seq 0 y.log) s)
    → Inv y
    → Inv (record y { steerer = s })
Inv-call y s keeps v = record { logged = v.logged; fits = keeps v.fits }

Inv-types :
    (y : System) (batch : List QueuedNote) (at : ℕ)
    → y.job ≡ typing batch
    → 0 < at
    → Inv y
    → Inv (record y { job = marking batch at; log = y.log ++ batch })
Inv-types y batch at j pos v =
    let h = Holds-job y (typing batch) j v in
    record {
      logged = Above-append 0 y.log batch v.logged h.job_fits.0;
      fits =
          subst (λ m. Holds (marking batch at) m y.steerer) (sym (last_seq-append 0 y.log batch))
            (Fits-typed (last_seq 0 y.log) y.steerer.seq (pending_of y.steerer) batch at pos h);
    }

pub Inv-step : {y z : System} → SteerStep y z → Inv y → Inv z
unfolding deliver_start hold_delivery fail_delivery
Inv-step (enqueues y author text) v =
    Inv-call y (enqueue author text y.steerer)
      (Holds-same y.job (last_seq 0 y.log) y.steerer (enqueue author text y.steerer)
        (seq-enqueue author text y.steerer) (pending_of-enqueue author text y.steerer))
      v
Inv-step (enqueues_todo y author ops) v =
    Inv-call y (enqueue_todo author ops y.steerer)
      (Holds-same y.job (last_seq 0 y.log) y.steerer (enqueue_todo author ops y.steerer)
        (seq-enqueue_todo author ops y.steerer) (pending_of-enqueue_todo author ops y.steerer))
      v
Inv-step (takes y st e) v = record {
  logged = v.logged;
  fits = Holds-take y.job (last_seq 0 y.log) st y.steerer e v.fits;
}
Inv-step (appends y w ws items now first_id second_id failure e) v = record {
  logged = v.logged;
  fits =
      Holds-append y.job (last_seq 0 y.log) w.generation (records_of w items now first_id second_id)
        failure y.steerer v.fits;
}
Inv-step (forgets y) v =
    Inv-call y (forget_session y.steerer) (Holds-forget y.job (last_seq 0 y.log) y.steerer) v
Inv-step (loads y recs at) v =
    Inv-call y (load_delivered at (load_notes recs y.steerer))
      (λ h.
        Holds-load_delivered y.job (last_seq 0 y.log) at (load_notes recs y.steerer)
          (Holds-load_notes y.job (last_seq 0 y.log) recs y.steerer h))
      v
Inv-step (retries y batch at j e) v = record {
  logged = v.logged;
  fits =
      Fits-retry (last_seq 0 y.log) y.steerer.seq (pending_of y.steerer) batch at e
        (Holds-job y idle j v);
}
Inv-step (starts y batch j e) v = record {
  logged = v.logged;
  fits =
      Fits-start (last_seq 0 y.log) y.steerer.seq (pending_of y.steerer) batch e
        (Holds-job y idle j v);
}
Inv-step (holds y batch why j) v = record {
  logged = v.logged;
  fits =
      Holds-same idle (last_seq 0 y.log) y.steerer (hold_delivery why y.steerer) refl
        (pending_of-keeps (λ st. record st { held = why }) y.steerer (λ st. refl))
        (Fits-back (last_seq 0 y.log) y.steerer.seq (pending_of y.steerer) batch
          (Holds-job y (typing batch) j v));
}
Inv-step (fails y batch failure j) v = record {
  logged = v.logged;
  fits =
      Holds-same idle (last_seq 0 y.log) y.steerer (fail_delivery failure y.steerer) refl
        (pending_of-keeps (λ st. record st { held = ""; last_error = failure }) y.steerer
          (λ st. refl))
        (Fits-back (last_seq 0 y.log) y.steerer.seq (pending_of y.steerer) batch
          (Holds-job y (typing batch) j v));
}
Inv-step (types y batch at j pos) v = Inv-types y batch at j pos v
Inv-step (marks y batch at failure j) v = record {
  logged = v.logged;
  fits =
      Holds-finish (last_seq 0 y.log) batch at failure y.steerer
        (Holds-job y (marking batch at) j v);
}

pub Inv-start : Inv new_steerer
Inv-start = record {
  logged = tt;
  fits = record { sorted = tt; bounded = omega arith; behind = omega arith; job_fits = tt };
}

pub Inv-Reach : {z : System} → Reach new_steerer z → Inv z
Inv-Reach here = Inv-start
Inv-Reach (next r st) = Inv-step st (Inv-Reach r)

-- However the calls, the timers, the delivery loop and the answers of the target and the store
-- interleave, from an empty start: the numbers of the notes that the target took rise, so that the queued
-- notes of a session are taken in the order of their numbers, and none of them twice.
pub log-Above : {z : System} → Reach new_steerer z → Above 0 z.log
log-Above r = (Inv-Reach r).logged
