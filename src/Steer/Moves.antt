-- ===== src/Steer/Moves.antt =====
-- The moves of the delivery loop outside the lock.
use aiman.Base.{ℕ, ◌≤◌, ◌<◌, ◌≡◌, refl, sym, true, false, List, [], ◌∷◌, ◌++◌, arith, append_assoc}
use mathlib.Core.Path.{subst}
use aiman.Steer.{
  QueuedNote, submitted_notes, is_nil, latest, batch_has_seq, retry_mark, try_to_type, start_of,
}
use aiman.Steer.System.{idle, typing, marking}
use aiman.Steer.Fits.{Above, last_seq, Outside, Fits}

-- What a delivery starts with.
pub Outside-submitted :
    (batch : List QueuedNote) (m : ℕ) (notes : List QueuedNote)
    → Outside [] m notes
    → Outside batch m notes
Outside-submitted batch m [] o = tt
Outside-submitted batch m (q ∷ notes) o = ((λ z _. o.0 z refl), Outside-submitted batch m notes o.1)

latest-submitted :
    (notes : List QueuedNote)
    → is_nil (submitted_notes notes) ≡ false
    → 0 < latest (submitted_notes notes)
unfolding latest submitted_notes
latest-submitted [] e = cc
latest-submitted (x ∷ notes) e = ground (arith, latest-submitted notes)

pub start_of-retry :
    (notes batch : List QueuedNote) (at : ℕ) → start_of notes ≡ retry_mark batch at → 0 < at
unfolding start_of
start_of-retry [] batch at e = cc
start_of-retry (q ∷ notes) batch at e = ground (arith, latest-submitted (q ∷ notes))

pub start_of-type :
    (notes batch : List QueuedNote)
    → start_of notes ≡ try_to_type batch
    → (batch ≡ notes) × (is_nil (submitted_notes notes) ≡ true)
unfolding start_of
start_of-type [] batch e = cc
start_of-type (q ∷ notes) batch e = ground arith

pub Above-unsent :
    (k m : ℕ) (notes : List QueuedNote)
    → is_nil (submitted_notes notes) ≡ true
    → Above k notes
    → Outside [] m notes
    → Above m notes
unfolding submitted_notes
Above-unsent k m [] e a o = tt
Above-unsent k m (q ∷ notes) e a o =
    let z : q.submitted_at ≡ 0 = ground arith in
    let r : is_nil (submitted_notes notes) ≡ true = ground arith in (o.0 z refl, a.1)

batch_has_seq-middle :
    (before : List QueuedNote) (q : QueuedNote) (after : List QueuedNote)
    → batch_has_seq (before ++ q ∷ after) q.seq ≡ true
batch_has_seq-middle [] q after = ground arith
batch_has_seq-middle (x ∷ before) q after = ground (arith, batch_has_seq-middle before q after)

Outside-rest : (m : ℕ) (before notes : List QueuedNote) → Outside (before ++ notes) m notes
Outside-rest m before [] = tt
Outside-rest m before (q ∷ notes) = (
  (λ _ e. cc (e, batch_has_seq-middle before q notes)),
  subst (λ batch. Outside batch m notes) (append_assoc before (q ∷ []) notes)
      (Outside-rest m (before ++ q ∷ []) notes),
)

last_seq-bounded :
    (m n : ℕ) (notes : List QueuedNote) → m ≤ n → last_seq 0 notes ≤ n → last_seq m notes ≤ n
last_seq-bounded m n [] le b = le
last_seq-bounded m n (q ∷ notes) le b = b

-- The moves of the delivery loop.
module _ (last seq : ℕ) (pending : List QueuedNote) where
  pub Fits-retry :
      (batch : List QueuedNote) (at : ℕ)
      → start_of pending ≡ retry_mark batch at
      → Fits idle last seq pending
      → Fits (marking batch at) last seq pending
  Fits-retry batch at e f = record {
    sorted = f.sorted;
    bounded = f.bounded;
    behind = f.behind;
    job_fits = (start_of-retry pending batch at e, Outside-submitted batch last pending f.job_fits);
  }

  Fits-pending :
      is_nil (submitted_notes pending) ≡ true
      → Fits idle last seq pending
      → Fits (typing pending) last seq pending
  Fits-pending u f = record {
    sorted = f.sorted;
    bounded = f.bounded;
    behind = f.behind;
    job_fits = (
      Above-unsent 0 last pending u f.sorted f.job_fits,
      last_seq-bounded last seq pending f.behind f.bounded,
      f.job_fits,
      Outside-rest (last_seq last pending) [] pending,
    );
  }

  pub Fits-start :
      (batch : List QueuedNote)
      → start_of pending ≡ try_to_type batch
      → Fits idle last seq pending
      → Fits (typing batch) last seq pending
  Fits-start batch e f =
      let t = start_of-type pending batch e in
      subst (λ b. Fits (typing b) last seq pending) (sym t.0) (Fits-pending t.1 f)

  pub Fits-back :
      (batch : List QueuedNote) → Fits (typing batch) last seq pending → Fits idle last seq pending
  Fits-back batch f = record {
    sorted = f.sorted;
    bounded = f.bounded;
    behind = f.behind;
    job_fits = f.job_fits.2;
  }

  pub Fits-typed :
      (batch : List QueuedNote) (at : ℕ)
      → 0 < at
      → Fits (typing batch) last seq pending
      → Fits (marking batch at) (last_seq last batch) seq pending
  Fits-typed batch at pos f = record {
    sorted = f.sorted;
    bounded = f.bounded;
    behind = f.job_fits.1;
    job_fits = (pos, f.job_fits.3);
  }
