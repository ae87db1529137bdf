-- ===== src/Steer/Refines.antt =====
-- The steerer implements the queue.
use aiman.Base.{
  ℕ, ◌+◌, ◌≤◌, ◌<◌, ◌≡◌, refl, sym, ap, ◌∙◌, Bool, true, false, ◌||◌, List, [], ◌∷◌, ◌++◌,
  Bool-cases, inl, inr, ◌==◌, arith, append-nil, append_assoc, if◌then◌else◌,
}
use mathlib.Core.Path.{subst}
use aiman.Steer.{
  SteerRecord, QueuedNote, submitted_notes, is_nil, batch_has_seq, mark_submitted, delete_batch,
}
use aiman.Steer.Fits.{Above, last_seq}
use aiman.Steer.System.{Job, idle, typing, marking}
use aiman.Steer.Queue.{
  recs_of, waiting_of, waiting_of-append, waiting_of-mark, waiting_of-delete, waiting_of-unsent,
  has_seq-Above,
}

-- No note of the batch has a number above `seq`.
abbrev pub Behind : List QueuedNote → ℕ → Type 0
Behind batch seq = (n : ℕ) → seq < n → batch_has_seq batch n ≡ false

-- The records of a batch that are given back: none, if the session was forgotten.
abbrev pub given_back : Bool → List QueuedNote → List SteerRecord
given_back orphaned batch = if orphaned then [] else recs_of batch

-- What the job, the notes that wait and the number of the steerer say of the queue.
abbrev pub JobRefines :
    Job → List QueuedNote → ℕ → List SteerRecord → List SteerRecord → Bool → Type 0
JobRefines idle pending seq waiting in_hand orphaned =
    (waiting_of [] pending ≡ waiting) × (in_hand ≡ [])
JobRefines (typing batch) pending seq waiting in_hand orphaned =
    (waiting_of batch pending ≡ waiting)
    × (in_hand ≡ recs_of batch)
    × Behind batch seq
    × (waiting_of [] pending ≡ given_back orphaned batch ++ waiting_of batch pending)
JobRefines (marking batch at) pending seq waiting in_hand orphaned =
    (waiting_of batch pending ≡ waiting) × (in_hand ≡ []) × Behind batch seq

Behind-suc : (batch : List QueuedNote) (seq : ℕ) → Behind batch seq → Behind batch (seq + 1)
Behind-suc batch seq b n lt = b n (omega (arith, lt))

waiting_of-new :
    (batch notes : List QueuedNote) (q : QueuedNote)
    → q.submitted_at ≡ 0
    → batch_has_seq batch q.seq ≡ false
    → waiting_of batch (notes ++ q ∷ []) ≡ waiting_of batch notes ++ q.rec ∷ []
unfolding waiting_of
waiting_of-new batch notes q z f =
    waiting_of-append batch notes (q ∷ [])
    ∙ ap (λ (w : List SteerRecord). waiting_of batch notes ++ w) (ground (arith, z, f))

module _ (pending : List QueuedNote) (seq : ℕ) (in_hand : List SteerRecord) (orphaned : Bool) where
  pub JobRefines-snoc :
      (job : Job) (waiting : List SteerRecord) (q : QueuedNote)
      → q.submitted_at ≡ 0
      → q.seq ≡ seq + 1
      → JobRefines job pending seq waiting in_hand orphaned
      → JobRefines job (pending ++ q ∷ []) (seq + 1) (waiting ++ q.rec ∷ []) in_hand orphaned
  JobRefines-snoc idle waiting q z e r =
      (waiting_of-new [] pending q z refl ∙ ap (λ (w : List SteerRecord). w ++ q.rec ∷ []) r.0, r.1)
  JobRefines-snoc (typing batch) waiting q z e r =
      let new = waiting_of-new batch pending q z (r.2 q.seq (omega (arith, e))) in
      (
        new ∙ ap (λ (w : List SteerRecord). w ++ q.rec ∷ []) r.0,
        r.1,
        Behind-suc batch seq r.2,
        waiting_of-new [] pending q z refl
            ∙ ap (λ (w : List SteerRecord). w ++ q.rec ∷ []) r.3
            ∙ append_assoc (given_back orphaned batch) (waiting_of batch pending) (q.rec ∷ [])
            ∙ ap (λ (w : List SteerRecord). given_back orphaned batch ++ w) (sym new),
      )
  JobRefines-snoc (marking batch at) waiting q z e r =
      let new = waiting_of-new batch pending q z (r.2 q.seq (omega (arith, e))) in
      (new ∙ ap (λ (w : List SteerRecord). w ++ q.rec ∷ []) r.0, r.1, Behind-suc batch seq r.2)

  pub JobRefines-forget :
      (job : Job) (waiting : List SteerRecord)
      → JobRefines job pending seq waiting in_hand orphaned
      → JobRefines job [] seq [] in_hand true
  unfolding waiting_of
  JobRefines-forget idle waiting r = (refl, r.1)
  JobRefines-forget (typing batch) waiting r = (refl, r.1, r.2, refl)
  JobRefines-forget (marking batch at) waiting r = (refl, r.1, r.2)

-- The two results of a delivery, and the retry of a mark.
Behind-submitted :
    (notes : List QueuedNote) (seq : ℕ) → Behind notes seq → Behind (submitted_notes notes) seq
unfolding submitted_notes
Behind-submitted [] seq b n lt = refl
Behind-submitted (q ∷ notes) seq b n lt =
    ground (arith, b n lt, Behind-submitted notes seq (λ k less. ground (arith, b k less)) n lt)

has_seq-append :
    (xs ys : List QueuedNote) (n : ℕ)
    → batch_has_seq (xs ++ ys) n ≡ (batch_has_seq xs n || batch_has_seq ys n)
has_seq-append [] ys n = refl
has_seq-append (x ∷ xs) ys n = ground (arith, has_seq-append xs ys n)

Above-submitted :
    (m : ℕ) (notes : List QueuedNote) (n : ℕ)
    → n ≤ m
    → Above m notes
    → batch_has_seq (submitted_notes notes) n ≡ false
unfolding submitted_notes
Above-submitted m [] n le a = refl
Above-submitted m (q ∷ notes) n le a =
    ground (arith, a.0, Above-submitted q.seq notes n (omega (arith, le, a.0)) a.1)

module _ (q : QueuedNote) (notes : List QueuedNote) where
  submitted_notes-unsent :
      q.submitted_at == 0 ≡ true → submitted_notes (q ∷ notes) ≡ submitted_notes notes
  unfolding submitted_notes
  submitted_notes-unsent z = rw z refl

  submitted_notes-sent :
      q.submitted_at == 0 ≡ false → submitted_notes (q ∷ notes) ≡ q ∷ submitted_notes notes
  unfolding submitted_notes
  submitted_notes-sent z = rw z refl

  waiting_of-waits :
      (batch : List QueuedNote)
      → q.submitted_at == 0 ≡ true
      → batch_has_seq batch q.seq ≡ false
      → waiting_of batch (q ∷ notes) ≡ q.rec ∷ waiting_of batch notes
  unfolding waiting_of
  waiting_of-waits batch z f = rw (z, f) refl

  waiting_of-sent :
      (batch : List QueuedNote)
      → q.submitted_at == 0 ≡ false
      → waiting_of batch (q ∷ notes) ≡ waiting_of batch notes
  unfolding waiting_of
  waiting_of-sent batch z = rw z refl

waiting_of-submitted :
    (m : ℕ) (xs notes : List QueuedNote)
    → Behind xs m
    → Above m notes
    → waiting_of (xs ++ submitted_notes notes) notes ≡ waiting_of [] notes
unfolding waiting_of
waiting_of-submitted m xs [] b a = refl
waiting_of-submitted m xs (q ∷ notes) b a =
    let up : Behind xs q.seq = λ n lt. b n (omega (arith, lt, a.0)) in
    let more : Behind (xs ++ q ∷ []) q.seq =
      λ n lt. ground (arith, has_seq-append xs (q ∷ []) n, up n lt) in
    let sub = submitted_notes notes in
    let free : batch_has_seq (xs ++ sub) q.seq ≡ false = ground (
      arith,
      has_seq-append xs sub q.seq,
      b q.seq a.0,
      Above-submitted q.seq notes q.seq (omega arith) a.1,
    ) in
    elim (Bool-cases (q.submitted_at == 0)) [
      | inl z ↦
          ap (λ (l : List QueuedNote). waiting_of (xs ++ l) (q ∷ notes))
            (submitted_notes-unsent q notes z)
          ∙ waiting_of-waits q notes (xs ++ sub) z free
          ∙ ap (λ (w : List SteerRecord). q.rec ∷ w) (waiting_of-submitted q.seq xs notes up a.1)
          ∙ sym (waiting_of-waits q notes [] z refl)
      | inr z ↦
          ap (λ (l : List QueuedNote). waiting_of (xs ++ l) (q ∷ notes))
            (submitted_notes-sent q notes z)
          ∙ waiting_of-sent q notes (xs ++ q ∷ sub) z
          ∙ ap (λ (l : List QueuedNote). waiting_of l notes) (sym (append_assoc xs (q ∷ []) sub))
          ∙ waiting_of-submitted q.seq (xs ++ q ∷ []) notes more a.1
          ∙ sym (waiting_of-sent q notes [] z)
    ]

-- Every note waits at the start, and none of them is left to wait once all are in the hand.
waiting_of-all : (before notes : List QueuedNote) → waiting_of (before ++ notes) notes ≡ []
unfolding waiting_of
waiting_of-all before [] = refl
waiting_of-all before (q ∷ notes) =
    let held : batch_has_seq (before ++ q ∷ notes) q.seq ≡ true =
      ground (arith, has_seq-append before (q ∷ notes) q.seq) in
    let rest : waiting_of (before ++ q ∷ notes) notes ≡ [] =
      subst (λ (l : List QueuedNote). waiting_of l notes ≡ []) (append_assoc before (q ∷ []) notes)
        (waiting_of-all (before ++ q ∷ []) notes) in
    ground (arith, held, rest)

module _ (pending : List QueuedNote) (seq : ℕ) (waiting in_hand : List SteerRecord)
    (orphaned : Bool) where
  Behind-pending : Above 0 pending → last_seq 0 pending ≤ seq → Behind pending seq
  Behind-pending a le n lt = has_seq-Above 0 pending n a (omega (arith, le, lt))

  pub JobRefines-start :
      Above 0 pending
      → last_seq 0 pending ≤ seq
      → is_nil (submitted_notes pending) ≡ true
      → JobRefines idle pending seq waiting in_hand orphaned
      → JobRefines (typing pending) pending seq [] waiting false
  JobRefines-start a le u r =
      let none_left = waiting_of-all [] pending in
      let all = waiting_of-unsent pending u in
      (
        none_left,
        sym r.0 ∙ all,
        Behind-pending a le,
        all
            ∙ sym (append-nil (recs_of pending))
            ∙ ap (λ (w : List SteerRecord). recs_of pending ++ w) (sym none_left),
      )

  pub JobRefines-retry :
      (at : ℕ)
      → Above 0 pending
      → last_seq 0 pending ≤ seq
      → JobRefines idle pending seq waiting in_hand orphaned
      → JobRefines (marking (submitted_notes pending) at) pending seq waiting in_hand orphaned
  JobRefines-retry at a le r = (
    waiting_of-submitted 0 [] pending (λ n lt. refl) a ∙ r.0,
    r.1,
    Behind-submitted pending seq (Behind-pending a le),
  )

  pub JobRefines-back :
      (batch : List QueuedNote)
      → JobRefines (typing batch) pending seq waiting in_hand orphaned
      → JobRefines idle pending seq (given_back orphaned batch ++ waiting) [] orphaned
  JobRefines-back batch r =
      (r.3 ∙ ap (λ (w : List SteerRecord). given_back orphaned batch ++ w) r.0, refl)

  pub JobRefines-typed :
      (batch : List QueuedNote) (at : ℕ)
      → JobRefines (typing batch) pending seq waiting in_hand orphaned
      → JobRefines (marking batch at) pending seq waiting [] orphaned
  JobRefines-typed batch at r = (r.0, refl, r.2)

  pub JobRefines-mark :
      (batch : List QueuedNote) (at : ℕ)
      → 0 < at
      → JobRefines (marking batch at) pending seq waiting in_hand orphaned
      → JobRefines idle (mark_submitted batch at pending) seq waiting in_hand orphaned
  JobRefines-mark batch at pos r = (waiting_of-mark batch at pending pos ∙ r.0, r.1)

  pub JobRefines-delete :
      (batch : List QueuedNote) (at : ℕ)
      → JobRefines (marking batch at) pending seq waiting in_hand orphaned
      → JobRefines idle (delete_batch batch pending) seq waiting in_hand orphaned
  JobRefines-delete batch at r = (waiting_of-delete batch pending ∙ r.0, r.1)
