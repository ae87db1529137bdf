-- ===== src/Steer/Queue.antt =====
-- What the steerer promises of the notes of one session: a queue, whose head is in the hand of the one
-- delivery loop until it is submitted or given back.
use aiman.Base.{
  ℕ, ◌<◌, ◌≡◌, refl, ap, Bool, true, false, not, ◌||◌, List, [], ◌∷◌, ◌++◌, ◌==◌, arith,
  if◌then◌else◌,
}
use aiman.Steer.{
  SteerRecord, QueuedNote, submitted_notes, is_nil, batch_has_seq, mark_submitted, delete_batch,
}
use aiman.Steer.Fits.{Above, last_seq, last_seq-le}

-- `orphaned` says that the session was forgotten while a batch was in hand.
pub record Queue : Type 0 where
  pub waiting : List SteerRecord
  pub in_hand : List SteerRecord
  pub orphaned : Bool
  pub out : List SteerRecord

abbrev pub empty_queue : Queue
empty_queue = record { waiting = []; in_hand = []; orphaned = false; out = [] }

-- What happens to the queue.
pub data Label : Type 0 where
  silent : Label
  accept : List SteerRecord → Label
  begin : Label
  give_back : Label
  submit : Label
  forget : Label

-- Records join the end; all that wait are taken in hand; what is in hand goes back to the front, unless
-- the session was forgotten meanwhile, or it is out; and a session that is forgotten has none that wait.
unfoldable pub queue_step : Label → Queue → Queue
queue_step silent q = q
queue_step (accept recs) q = record q { waiting = q.waiting ++ recs }
queue_step begin q = record q { waiting = []; in_hand = q.in_hand ++ q.waiting; orphaned = false }
queue_step give_back q = record q {
  waiting = (if q.orphaned then [] else q.in_hand) ++ q.waiting;
  in_hand = [];
}
queue_step submit q = record q { in_hand = []; out = q.out ++ q.in_hand }
queue_step forget q = record q { waiting = []; orphaned = true }

abbrev pub recs_of : List QueuedNote → List SteerRecord
recs_of [] = []
recs_of (q ∷ notes) = q.rec ∷ recs_of notes

-- The records that wait: those that were not typed and are not in the batch.
unfoldable pub waiting_of : List QueuedNote → List QueuedNote → List SteerRecord
waiting_of batch [] = []
waiting_of batch (q ∷ notes) =
    let rest = waiting_of batch notes in
    if not (q.submitted_at == 0) || batch_has_seq batch q.seq then rest else q.rec ∷ rest

pub recs_of-append : (xs ys : List QueuedNote) → recs_of (xs ++ ys) ≡ recs_of xs ++ recs_of ys
recs_of-append [] ys = refl
recs_of-append (x ∷ xs) ys = ap (λ (r : List SteerRecord). x.rec ∷ r) (recs_of-append xs ys)

pub waiting_of-append :
    (batch xs ys : List QueuedNote)
    → waiting_of batch (xs ++ ys) ≡ waiting_of batch xs ++ waiting_of batch ys
unfolding waiting_of
waiting_of-append batch [] ys = refl
waiting_of-append batch (x ∷ xs) ys = ground (arith, waiting_of-append batch xs ys)

pub waiting_of-mark :
    (batch : List QueuedNote) (at : ℕ) (notes : List QueuedNote)
    → 0 < at
    → waiting_of [] (mark_submitted batch at notes) ≡ waiting_of batch notes
unfolding waiting_of mark_submitted
waiting_of-mark batch at [] pos = refl
waiting_of-mark batch at (q ∷ notes) pos = ground (arith, waiting_of-mark batch at notes pos)

pub waiting_of-delete :
    (batch notes : List QueuedNote)
    → waiting_of [] (delete_batch batch notes) ≡ waiting_of batch notes
unfolding waiting_of delete_batch
waiting_of-delete batch [] = refl
waiting_of-delete batch (q ∷ notes) = ground (arith, waiting_of-delete batch notes)

-- Nothing typed before: all of the notes wait.
pub waiting_of-unsent :
    (notes : List QueuedNote)
    → is_nil (submitted_notes notes) ≡ true
    → waiting_of [] notes ≡ recs_of notes
unfolding waiting_of submitted_notes
waiting_of-unsent [] e = refl
waiting_of-unsent (q ∷ notes) e =
    let z : q.submitted_at == 0 ≡ true = ground arith in
    let r : is_nil (submitted_notes notes) ≡ true = ground arith in
    ground (arith, waiting_of-unsent notes r)

-- The notes of a batch, and notes above it.
pub has_seq-Above :
    (m : ℕ) (batch : List QueuedNote) (seq : ℕ)
    → Above m batch
    → last_seq m batch < seq
    → batch_has_seq batch seq ≡ false
has_seq-Above m [] seq a lt = refl
has_seq-Above m (q ∷ batch) seq a lt =
    ground (arith, last_seq-le q.seq batch a.1, has_seq-Above q.seq batch seq a.1 lt)
