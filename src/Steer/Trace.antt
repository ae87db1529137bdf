-- ===== src/Steer/Trace.antt =====
-- What each step of the steerer has to be for the queue, told from what the step is given, and the queue
-- of a run.
use aiman.Base.{
  ℕ, ◌≡◌, refl, sym, ap, ◌∙◌, Bool, true, false, ◌||◌, List, [], ◌∷◌, ◌++◌, Option, none, some,
  ◌==◌, append-nil, append_assoc, arith, if◌then◌else◌,
}
use aiman.Steer.{SteerRecord, QueuedNote, SteerSession, records_of, pending_of}
use aiman.Steer.System.{
  System, SteerStep, enqueues, enqueues_todo, takes, appends, forgets, loads, retries, starts,
  holds, fails, types, marks, Reach, here, next, new_steerer,
}
use aiman.Steer.Queue.{
  Queue, empty_queue, Label, silent, accept, begin, give_back, submit, forget, queue_step,
}

-- The records of a flush, if the session is still the one that it was taken from.
abbrev pub arriving : ℕ → List SteerRecord → Option SteerSession → List SteerRecord
arriving generation recs none = []
arriving generation recs (some st) = if st.generation == generation then recs else []

abbrev pub has_id : List ℕ → ℕ → Bool
has_id [] id = false
has_id (k ∷ ids) id = k == id || has_id ids id

abbrev pub ids_of : List QueuedNote → List ℕ
ids_of [] = []
ids_of (q ∷ notes) = q.rec.id ∷ ids_of notes

-- The records whose ids are not among `ids`, each id once.
unfoldable pub unheld : List ℕ → List SteerRecord → List SteerRecord
unheld ids [] = []
unheld ids (r ∷ recs) =
    let rest = λ (known : List ℕ). unheld known recs in
    if has_id ids r.id then rest ids else r ∷ rest (ids ++ r.id ∷ [])

unfoldable pub label : {y z : System} → SteerStep y z → Label
label (enqueues y author text) = silent
label (enqueues_todo y author ops) = silent
label (takes y st e) = silent
label (appends y w ws items now first_id second_id failure e) =
    accept (arriving w.generation (records_of w items now first_id second_id) y.steerer.session)
label (forgets y) = forget
label (loads y recs at) = accept (unheld (ids_of (pending_of y.steerer)) recs)
label (retries y batch at j e) = silent
label (starts y batch j e) = begin
label (holds y batch why j) = give_back
label (fails y batch failure j) = give_back
label (types y batch at j pos) = submit
label (marks y batch at failure j) = silent

unfoldable pub queue_of : {z : System} → Reach new_steerer z → Queue
unfolding label queue_step
queue_of here = empty_queue
queue_of (next r st) = queue_step (label st) (queue_of r)

-- The records that arrived in a run, and whether the session was forgotten in it.
abbrev pub accepted : Label → List SteerRecord
accepted (accept recs) = recs
accepted _ = []

abbrev pub is_forget : Label → Bool
is_forget forget = true
is_forget _ = false

unfoldable pub arrivals : {z : System} → Reach new_steerer z → List SteerRecord
unfolding label
arrivals here = []
arrivals (next r st) = arrivals r ++ accepted (label st)

unfoldable pub forgot : {z : System} → Reach new_steerer z → Bool
unfolding label
forgot here = false
forgot (next r st) = forgot r || is_forget (label st)

-- The queue holds all that arrived, in its order.
abbrev pub HoldsAll : List SteerRecord → Queue → Type 0
HoldsAll arrived q = (q.orphaned ≡ false) × (arrived ≡ q.out ++ (q.in_hand ++ q.waiting))

queue_step-HoldsAll :
    (l : Label) (arrived : List SteerRecord) (q : Queue)
    → is_forget l ≡ false
    → HoldsAll arrived q
    → HoldsAll (arrived ++ accepted l) (queue_step l q)
unfolding queue_step
queue_step-HoldsAll silent arrived q f h = (h.0, append-nil arrived ∙ h.1)
queue_step-HoldsAll (accept recs) arrived q f h = (
  h.0,
  ap (λ (l : List SteerRecord). l ++ recs) h.1
      ∙ append_assoc q.out (q.in_hand ++ q.waiting) recs
      ∙ ap (λ (l : List SteerRecord). q.out ++ l) (append_assoc q.in_hand q.waiting recs),
)
queue_step-HoldsAll begin arrived q f h = (
  refl,
  append-nil arrived
      ∙ h.1
      ∙ ap (λ (l : List SteerRecord). q.out ++ l) (sym (append-nil (q.in_hand ++ q.waiting))),
)
queue_step-HoldsAll give_back arrived q f h = (h.0, rw h.0 (append-nil arrived ∙ h.1))
queue_step-HoldsAll submit arrived q f h =
    (h.0, append-nil arrived ∙ h.1 ∙ sym (append_assoc q.out q.in_hand q.waiting))
queue_step-HoldsAll forget arrived q f h = cc

or_false : (a b : Bool) → a || b ≡ false → (a ≡ false) × (b ≡ false)
or_false a b e = ground arith

pub queue_of-HoldsAll :
    {z : System} (r : Reach new_steerer z) → forgot r ≡ false → HoldsAll (arrivals r) (queue_of r)
unfolding queue_of arrivals forgot
queue_of-HoldsAll here f = (refl, refl)
queue_of-HoldsAll (next r st) f =
    let (before, last) = or_false (forgot r) (is_forget (label st)) f in
    queue_step-HoldsAll (label st) (arrivals r) (queue_of r) last (queue_of-HoldsAll r before)
