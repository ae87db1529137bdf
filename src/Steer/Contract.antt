-- ===== src/Steer/Contract.antt =====
-- Every run of the steerer is a run of the queue.
use aiman.Base.{
  ℕ, ◌<◌, ◌≡◌, refl, sym, ap, ◌∙◌, false, List, [], ◌∷◌, ◌++◌, Option, none, some, String, arith,
  if◌then◌else◌, append-nil,
}
use mathlib.Core.Path.{subst}
use aiman.Steer.{
  SteerRecord, QueuedNote, SteerSession, Steerer, SteerWindow, enqueue, enqueue_todo, take_window,
  records_of, append_notes, forget_session, load_notes, load_delivered, submitted_notes, start_of,
  retry_mark, try_to_type, pending_of, deliver_start, hold_delivery, fail_delivery, mark_submitted,
  delete_batch, finish_delivery,
}
use aiman.Steer.System.{
  Job, idle, typing, marking, System, SteerStep, enqueues, enqueues_todo, takes, appends, forgets,
  loads, retries, starts, holds, fails, types, marks, Reach, here, next, new_steerer,
}
use aiman.Steer.Fits.{pending_of-if_there}
use aiman.Steer.Moves.{start_of-type}
use aiman.Steer.Order.{
  Inv, Inv-Reach, Holds-job, pending_of-enqueue, pending_of-enqueue_todo, seq-enqueue,
  seq-enqueue_todo, pending_of-keeps,
}
use aiman.Steer.Queue.{
  Queue, silent, accept, begin, give_back, submit, forget, queue_step, recs_of, recs_of-append,
  waiting_of,
}
use aiman.Steer.Trace.{
  label, queue_of, arrivals, forgot, arriving, unheld, ids_of, queue_of-HoldsAll,
}
use aiman.Steer.Refines.{
  JobRefines, JobRefines-forget, JobRefines-start, JobRefines-retry, JobRefines-back,
  JobRefines-typed, JobRefines-mark, JobRefines-delete,
}
use aiman.Steer.Accepts.{
  Accepts, Accepts-append, Accepts-load_notes, Accepts-load_delivered, Accepts-trans,
}

start_of-retry_batch :
    (notes batch : List QueuedNote) (at : ℕ)
    → start_of notes ≡ retry_mark batch at
    → batch ≡ submitted_notes notes
unfolding start_of
start_of-retry_batch [] batch at e = cc
start_of-retry_batch (q ∷ notes) batch at e = ground arith

-- The queue has the notes of the run so far out, waiting and in hand.
record Simulates (y : System) (q : Queue) : Type 0 where
  out : recs_of y.log ≡ q.out
  job : JobRefines y.job (pending_of y.steerer) y.steerer.seq q.waiting q.in_hand q.orphaned

module _ (y : System) (q : Queue) (m : Simulates y q) where
  JobRefines-at :
      (job : Job)
      → y.job ≡ job
      → JobRefines job (pending_of y.steerer) y.steerer.seq q.waiting q.in_hand q.orphaned
  JobRefines-at job e =
      subst (λ j. JobRefines j (pending_of y.steerer) y.steerer.seq q.waiting q.in_hand q.orphaned)
        e m.job

  by_call :
      (s : Steerer) (windows : List SteerWindow) (new : List SteerRecord)
      → Accepts y.job y.steerer s new
      → Simulates (record y { steerer = s; windows = windows }) (queue_step (accept new) q)
  unfolding queue_step
  by_call s windows new a = record { out = m.out; job = a q.waiting q.in_hand q.orphaned m.job }

  by_silent_call :
      (s : Steerer) (windows : List SteerWindow)
      → s.seq ≡ y.steerer.seq
      → pending_of s ≡ pending_of y.steerer
      → Simulates (record y { steerer = s; windows = windows }) (queue_step silent q)
  unfolding queue_step
  by_silent_call s windows e p = record {
    out = m.out;
    job =
        subst (λ n. JobRefines y.job (pending_of s) n q.waiting q.in_hand q.orphaned) (sym e)
          (subst (λ l. JobRefines y.job l y.steerer.seq q.waiting q.in_hand q.orphaned) (sym p)
            m.job);
  }

  by_forget : Simulates (record y { steerer = forget_session y.steerer }) (queue_step forget q)
  unfolding forget_session queue_step
  by_forget = record {
    out = m.out;
    job =
        JobRefines-forget (pending_of y.steerer) y.steerer.seq q.in_hand q.orphaned y.job q.waiting
          m.job;
  }

  by_retry :
      (batch : List QueuedNote) (at : ℕ)
      → Inv y
      → y.job ≡ idle
      → start_of (pending_of y.steerer) ≡ retry_mark batch at
      → Simulates (record y { job = marking batch at }) (queue_step silent q)
  unfolding queue_step
  by_retry batch at v j e =
      let r =
        JobRefines-retry (pending_of y.steerer) y.steerer.seq q.waiting q.in_hand q.orphaned at
          v.fits.sorted v.fits.bounded (JobRefines-at idle j) in
      record {
        out = m.out;
        job =
            subst
              (λ b.
                JobRefines (marking b at) (pending_of y.steerer) y.steerer.seq q.waiting q.in_hand
                  q.orphaned)
              (sym (start_of-retry_batch (pending_of y.steerer) batch at e)) r;
      }

  by_start :
      (batch : List QueuedNote)
      → Inv y
      → y.job ≡ idle
      → start_of (pending_of y.steerer) ≡ try_to_type batch
      → Simulates (record y { job = typing batch }) (queue_step begin q)
  unfolding queue_step
  by_start batch v j e =
      let t = start_of-type (pending_of y.steerer) batch e in
      let i = JobRefines-at idle j in
      let r =
        JobRefines-start (pending_of y.steerer) y.steerer.seq q.waiting q.in_hand q.orphaned
          v.fits.sorted v.fits.bounded t.1 i in
      record {
        out = m.out;
        job =
            subst
              (λ b.
                JobRefines (typing b) (pending_of y.steerer) y.steerer.seq []
                  (q.in_hand ++ q.waiting) false)
              (sym t.0)
              (subst
                (λ h.
                  JobRefines (typing (pending_of y.steerer)) (pending_of y.steerer) y.steerer.seq []
                    (h ++ q.waiting) false)
                (sym i.1) r);
      }

  by_types :
      (batch : List QueuedNote) (at : ℕ)
      → y.job ≡ typing batch
      → Simulates (record y { job = marking batch at; log = y.log ++ batch }) (queue_step submit q)
  unfolding queue_step
  by_types batch at j =
      let t = JobRefines-at (typing batch) j in
      record {
        out =
            recs_of-append y.log batch
            ∙ ap (λ (l : List SteerRecord). l ++ recs_of batch) m.out
            ∙ ap (λ (l : List SteerRecord). q.out ++ l) (sym t.1);
        job =
            JobRefines-typed (pending_of y.steerer) y.steerer.seq q.waiting q.in_hand q.orphaned
              batch at t;
      }

  by_back :
      (batch : List QueuedNote) (s : Steerer)
      → y.job ≡ typing batch
      → s.seq ≡ y.steerer.seq
      → pending_of s ≡ pending_of y.steerer
      → Simulates (record y { steerer = s; job = idle }) (queue_step give_back q)
  unfolding queue_step
  by_back batch s j e p =
      let t = JobRefines-at (typing batch) j in
      let b =
        JobRefines-back (pending_of y.steerer) y.steerer.seq q.waiting q.in_hand q.orphaned batch
          t in
      record {
        out = m.out;
        job = (
          ap (waiting_of []) p
              ∙ b.0
              ∙ ap (λ (h : List SteerRecord). (if q.orphaned then [] else h) ++ q.waiting)
                  (sym t.1),
          refl,
        );
      }

  by_marks :
      (batch : List QueuedNote) (at : ℕ) (failure : Option String)
      → Inv y
      → y.job ≡ marking batch at
      → Simulates
          (record y { steerer = finish_delivery batch at failure y.steerer; job = idle })
          (queue_step silent q)
  unfolding queue_step finish_delivery mark_submitted delete_batch
  by_marks batch at none v j =
      let t = JobRefines-at (marking batch at) j in
      let d =
        JobRefines-delete (pending_of y.steerer) y.steerer.seq q.waiting q.in_hand q.orphaned batch
          at t in
      let p =
        pending_of-if_there
          (λ st. record st {
            pending = delete_batch batch st.pending;
            last_delivered = at;
            held = "";
            last_error = "";
          })
          (delete_batch batch) (λ st. refl) refl y.steerer in
      record { out = m.out; job = (ap (waiting_of []) p ∙ d.0, d.1) }
  by_marks batch at (some failure) v j =
      let t = JobRefines-at (marking batch at) j in
      let pos : 0 < at = (Holds-job y (marking batch at) j v).job_fits.0 in
      let d =
        JobRefines-mark (pending_of y.steerer) y.steerer.seq q.waiting q.in_hand q.orphaned batch at
          pos t in
      let p =
        pending_of-if_there
          (λ st. record st {
            pending = mark_submitted batch at st.pending;
            held = "";
            last_error = failure;
          })
          (mark_submitted batch at) (λ st. refl) refl y.steerer in
      record { out = m.out; job = (ap (waiting_of []) p ∙ d.0, d.1) }

simulate :
    {y z : System} (st : SteerStep y z) (q : Queue)
    → Inv y
    → Simulates y q
    → Simulates z (queue_step (label st) q)
unfolding label deliver_start hold_delivery fail_delivery take_window
simulate (enqueues y author text) q v m =
    by_silent_call y q m (enqueue author text y.steerer) y.windows
      (seq-enqueue author text y.steerer) (pending_of-enqueue author text y.steerer)
simulate (enqueues_todo y author ops) q v m =
    by_silent_call y q m (enqueue_todo author ops y.steerer) y.windows
      (seq-enqueue_todo author ops y.steerer) (pending_of-enqueue_todo author ops y.steerer)
simulate (takes y st e) q v m =
    by_silent_call y q m (record (y.steerer) { session = some (take_window st).1 })
      (y.windows ++ (take_window st).0 ∷ []) refl
      (ap (λ (o : Option SteerSession). elim o [ none ↦ [] | some st ↦ st.pending ]) (sym e))
simulate (appends y w ws items now first_id second_id failure e) q v m =
    by_call y q m
      (append_notes w.generation (records_of w items now first_id second_id) failure y.steerer) ws
      (arriving w.generation (records_of w items now first_id second_id) y.steerer.session)
      (Accepts-append y.job w.generation (records_of w items now first_id second_id) failure
        y.steerer)
simulate (forgets y) q v m = by_forget y q m
simulate (loads y recs at) q v m =
    let new = unheld (ids_of (pending_of y.steerer)) recs in
    by_call y q m (load_delivered at (load_notes recs y.steerer)) y.windows new (
      subst (Accepts y.job y.steerer (load_delivered at (load_notes recs y.steerer)))
        (append-nil new)
        (Accepts-trans y.job y.steerer (load_notes recs y.steerer)
          (load_delivered at (load_notes recs y.steerer)) new []
          (Accepts-load_notes y.job recs y.steerer)
          (Accepts-load_delivered y.job at (load_notes recs y.steerer))))
simulate (retries y batch at j e) q v m = by_retry y q m batch at v j e
simulate (starts y batch j e) q v m = by_start y q m batch v j e
simulate (holds y batch why j) q v m =
    by_back y q m batch (hold_delivery why y.steerer) j refl
      (pending_of-keeps (λ st. record st { held = why }) y.steerer (λ st. refl))
simulate (fails y batch failure j) q v m =
    by_back y q m batch (fail_delivery failure y.steerer) j refl (
      pending_of-keeps (λ st. record st { held = ""; last_error = failure }) y.steerer (λ st. refl))
simulate (types y batch at j pos) q v m = by_types y q m batch at j
simulate (marks y batch at failure j) q v m = by_marks y q m batch at failure v j

-- The queue that a state of the steerer stands for: the notes that the target took are out, the batch
-- that is being typed is in hand, and the notes that were never typed wait.
abbrev pub in_hand_of : Job → List QueuedNote
in_hand_of (typing batch) = batch
in_hand_of _ = []

abbrev pub batch_of : Job → List QueuedNote
batch_of idle = []
batch_of (typing batch) = batch
batch_of (marking batch at) = batch

abbrev pub IsView : System → Queue → Type 0
IsView y q =
    (q.out ≡ recs_of y.log)
    × (q.in_hand ≡ recs_of (in_hand_of y.job))
    × (q.waiting ≡ waiting_of (batch_of y.job) (pending_of y.steerer))

Simulates-IsView : (y : System) (q : Queue) → Simulates y q → IsView y q
Simulates-IsView y q m =
    elim y.job
        as (λ j.
          JobRefines j (pending_of y.steerer) y.steerer.seq q.waiting q.in_hand q.orphaned
          → (q.out ≡ recs_of y.log)
            × (q.in_hand ≡ recs_of (in_hand_of j))
            × (q.waiting ≡ waiting_of (batch_of j) (pending_of y.steerer))) [
              | idle ↦ λ r. (sym m.out, r.1, sym r.0)
              | typing batch ↦ λ r. (sym m.out, r.1, sym r.0)
              | marking batch at ↦ λ r. (sym m.out, r.1, sym r.0)
            ]
      m.job

Simulates-Reach : {z : System} (r : Reach new_steerer z) → Simulates z (queue_of r)
unfolding queue_of waiting_of
Simulates-Reach here = record { out = refl; job = (refl, refl) }
Simulates-Reach (next r st) = simulate st (queue_of r) (Inv-Reach r) (Simulates-Reach r)

-- After every run, the notes that the target took, the batch that is being typed and the notes that
-- were never typed are what the queue has out, in hand and waiting when it goes through the labels of
-- the run's steps. And if the session was not forgotten in the run, the records of the flushes and those
-- that were loaded from the store are just these, one after the other: none is lost, doubled or
-- overtaken.
pub queue_of-IsView :
    {z : System} (r : Reach new_steerer z)
    → IsView z (queue_of r)
      × (forgot r ≡ false
          → arrivals r
            ≡ recs_of z.log
              ++ (recs_of (in_hand_of z.job) ++ waiting_of (batch_of z.job) (pending_of z.steerer)))
queue_of-IsView {z} r =
    let (out, hand, wait) = Simulates-IsView z (queue_of r) (Simulates-Reach r) in
    (
      (out, hand, wait),
      λ f.
          (queue_of-HoldsAll r f).1
          ∙ ap (λ (o : List SteerRecord). o ++ ((queue_of r).in_hand ++ (queue_of r).waiting)) out
          ∙ ap (λ (h : List SteerRecord). recs_of z.log ++ (h ++ (queue_of r).waiting)) hand
          ∙ ap (λ (w : List SteerRecord). recs_of z.log ++ (recs_of (in_hand_of z.job) ++ w)) wait,
    )
