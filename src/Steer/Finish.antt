-- ===== src/Steer/Finish.antt =====
-- What finishing a delivery does to the notes that wait.
use aiman.Base.{
  ℕ, ◌≤◌, ◌<◌, ◌≡◌, refl, sym, false, List, [], ◌∷◌, Option, none, some, String, arith, if-elim,
}
use mathlib.Core.Path.{subst}
use aiman.Steer.{
  QueuedNote, Steerer, batch_has_seq, pending_of, mark_submitted, delete_batch, finish_delivery,
}
use aiman.Steer.System.{idle, marking}
use aiman.Steer.Fits.{
  Above, last_seq, Outside, Above-lower, last_seq_mono, Fits, pending_of-if_there,
}

module _ (batch : List QueuedNote) (at : ℕ) where
  Outside-mark :
      (m : ℕ) (notes : List QueuedNote)
      → 0 < at
      → Outside batch m notes
      → Outside [] m (mark_submitted batch at notes)
  unfolding mark_submitted
  Outside-mark m [] pos o = tt
  Outside-mark m (q ∷ notes) pos o = (
    if-elim {A = QueuedNote} (λ x. x.submitted_at ≡ 0 → batch_has_seq [] x.seq ≡ false → m < x.seq)
        (batch_has_seq batch q.seq) (λ _ z _. omega (arith, z, pos)) (λ e z _. o.0 z e),
    Outside-mark m notes pos o.1,
  )

  Above-mark :
      (m : ℕ) (notes : List QueuedNote) → Above m notes → Above m (mark_submitted batch at notes)
  unfolding mark_submitted
  Above-mark m [] a = tt
  Above-mark m (q ∷ notes) a =
      if-elim {A = QueuedNote} (λ x. (m < x.seq) × Above x.seq (mark_submitted batch at notes))
        (batch_has_seq batch q.seq) (λ _. (a.0, Above-mark q.seq notes a.1))
        (λ _. (a.0, Above-mark q.seq notes a.1))

  last_seq-mark :
      (m : ℕ) (notes : List QueuedNote)
      → last_seq m (mark_submitted batch at notes) ≡ last_seq m notes
  unfolding mark_submitted
  last_seq-mark m [] = refl
  last_seq-mark m (q ∷ notes) =
      if-elim {A = QueuedNote}
        (λ x. last_seq x.seq (mark_submitted batch at notes) ≡ last_seq q.seq notes)
        (batch_has_seq batch q.seq) (λ _. last_seq-mark q.seq notes)
        (λ _. last_seq-mark q.seq notes)

  Outside-delete :
      (m : ℕ) (notes : List QueuedNote)
      → Outside batch m notes
      → Outside [] m (delete_batch batch notes)
  unfolding delete_batch
  Outside-delete m [] o = tt
  Outside-delete m (q ∷ notes) o =
      if-elim (Outside [] m) (batch_has_seq batch q.seq) (λ _. Outside-delete m notes o.1)
        (λ e. ((λ z _. o.0 z e), Outside-delete m notes o.1))

  Above-delete :
      (m : ℕ) (notes : List QueuedNote) → Above m notes → Above m (delete_batch batch notes)
  unfolding delete_batch
  Above-delete m [] a = tt
  Above-delete m (q ∷ notes) a =
      if-elim (Above m) (batch_has_seq batch q.seq)
        (λ _.
          Above-lower m q.seq (delete_batch batch notes) (omega (arith, a.0))
            (Above-delete q.seq notes a.1))
        (λ e. (a.0, Above-delete q.seq notes a.1))

  last_seq-delete :
      (m : ℕ) (notes : List QueuedNote)
      → Above m notes
      → last_seq m (delete_batch batch notes) ≤ last_seq m notes
  unfolding delete_batch
  last_seq-delete m [] a = omega arith
  last_seq-delete m (q ∷ notes) a =
      if-elim (λ x. last_seq m x ≤ last_seq q.seq notes) (batch_has_seq batch q.seq)
        (λ _. omega (
          arith,
          last_seq_mono m q.seq (delete_batch batch notes) (omega (arith, a.0)),
          last_seq-delete q.seq notes a.1,
        ))
        (λ _. last_seq-delete q.seq notes a.1)

  Fits-mark :
      (last seq : ℕ) (pending : List QueuedNote)
      → Fits (marking batch at) last seq pending
      → Fits idle last seq (mark_submitted batch at pending)
  Fits-mark last seq pending f = record {
    sorted = Above-mark 0 pending f.sorted;
    bounded = rw (last_seq-mark 0 pending) f.bounded;
    behind = f.behind;
    job_fits = Outside-mark last pending f.job_fits.0 f.job_fits.1;
  }

  Fits-delete :
      (last seq : ℕ) (pending : List QueuedNote)
      → Fits (marking batch at) last seq pending
      → Fits idle last seq (delete_batch batch pending)
  Fits-delete last seq pending f = record {
    sorted = Above-delete 0 pending f.sorted;
    bounded = omega (arith, f.bounded, last_seq-delete 0 pending f.sorted);
    behind = f.behind;
    job_fits = Outside-delete last pending f.job_fits.1;
  }

  pub Fits-finish :
      (last seq : ℕ) (failure : Option String) (s : Steerer)
      → Fits (marking batch at) last seq (pending_of s)
      → Fits idle last seq (pending_of (finish_delivery batch at failure s))
  unfolding finish_delivery mark_submitted delete_batch
  Fits-finish last seq none s f =
      subst (Fits idle last seq)
        (sym (
          pending_of-if_there
            (λ st. record st {
              pending = delete_batch batch st.pending;
              last_delivered = at;
              held = "";
              last_error = "";
            })
            (delete_batch batch) (λ st. refl) refl s))
        (Fits-delete last seq (pending_of s) f)
  Fits-finish last seq (some failure) s f =
      subst (Fits idle last seq)
        (sym (
          pending_of-if_there
            (λ st. record st {
              pending = mark_submitted batch at st.pending;
              held = "";
              last_error = failure;
            })
            (mark_submitted batch at) (λ st. refl) refl s))
        (Fits-mark last seq (pending_of s) f)
