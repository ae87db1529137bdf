-- ===== src/Steer/Fits.antt =====
-- What the notes that wait, the job of the delivery loop and the numbers of the steerer have to do with
-- each other, and that every change of the notes keeps it.
use aiman.Base.{
  ℕ, suc, ◌+◌, ◌≤◌, ◌<◌, ◌≡◌, refl, sym, false, List, [], ◌∷◌, ◌++◌, none, some, arith, append-nil,
  append_assoc,
}
use mathlib.Core.Path.{subst}
use aiman.Steer.{
  SteerRecord, QueuedNote, SteerSession, Steerer, number_notes, count_of, if_there, batch_has_seq,
  pending_of,
}
use aiman.Steer.System.{Job, idle, typing, marking}

-- The numbers of the notes rise, and all are above `m`.
abbrev pub Above : ℕ → List QueuedNote → Type 0
Above m [] = Unit
Above m (q ∷ notes) = (m < q.seq) × Above q.seq notes

abbrev pub last_seq : ℕ → List QueuedNote → ℕ
last_seq m [] = m
last_seq m (q ∷ notes) = last_seq q.seq notes

-- The notes that were not typed and are not in the batch have numbers above `m`.
abbrev pub Outside : List QueuedNote → ℕ → List QueuedNote → Type 0
Outside batch m [] = Unit
Outside batch m (q ∷ notes) =
    (q.submitted_at ≡ 0 → batch_has_seq batch q.seq ≡ false → m < q.seq) × Outside batch m notes

pub last_seq-le : (m : ℕ) (notes : List QueuedNote) → Above m notes → m ≤ last_seq m notes
last_seq-le m [] a = omega arith
last_seq-le m (q ∷ notes) a = omega (arith, a, last_seq-le q.seq notes a.1)

pub Above-lower : (k m : ℕ) (notes : List QueuedNote) → k ≤ m → Above m notes → Above k notes
Above-lower k m [] le a = tt
Above-lower k m (q ∷ notes) le a = (omega (arith, le, a.0), a.1)

pub last_seq_mono :
    (k m : ℕ) (notes : List QueuedNote) → k ≤ m → last_seq k notes ≤ last_seq m notes
last_seq_mono k m [] le = le
last_seq_mono k m (q ∷ notes) le = omega arith

pub Above-append :
    (m : ℕ) (xs ys : List QueuedNote) → Above m xs → Above (last_seq m xs) ys → Above m (xs ++ ys)
Above-append m [] ys a b = b
Above-append m (x ∷ xs) ys a b = (a.0, Above-append x.seq xs ys a.1 b)

pub last_seq-append :
    (m : ℕ) (xs ys : List QueuedNote) → last_seq m (xs ++ ys) ≡ last_seq (last_seq m xs) ys
last_seq-append m [] ys = refl
last_seq-append m (x ∷ xs) ys = last_seq-append x.seq xs ys

Outside-snoc :
    (batch : List QueuedNote) (m : ℕ) (notes : List QueuedNote) (q : QueuedNote)
    → m < q.seq
    → Outside batch m notes
    → Outside batch m (notes ++ q ∷ [])
Outside-snoc batch m [] q lt o = ((λ _ _. lt), tt)
Outside-snoc batch m (x ∷ notes) q lt o = (o.0, Outside-snoc batch m notes q lt o.1)

-- What the job allows of the notes that wait, with the last number of the log and that of the steerer.
abbrev pub JobFits : Job → ℕ → ℕ → List QueuedNote → Type 0
JobFits idle last seq pending = Outside [] last pending
JobFits (typing batch) last seq pending =
    Above last batch
    × (last_seq last batch ≤ seq)
    × Outside [] last pending
    × Outside batch (last_seq last batch) pending
JobFits (marking batch at) last seq pending = (0 < at) × Outside batch last pending

pub record Fits (job : Job) (last seq : ℕ) (pending : List QueuedNote) : Type 0 where
  pub sorted : Above 0 pending
  pub bounded : last_seq 0 pending ≤ seq
  pub behind : last ≤ seq
  pub job_fits : JobFits job last seq pending

module _ (job : Job) (last seq : ℕ) (pending : List QueuedNote) where
  JobFits-snoc :
      (q : QueuedNote)
      → q.seq ≡ seq + 1
      → last ≤ seq
      → JobFits job last seq pending
      → JobFits job last (seq + 1) (pending ++ q ∷ [])
  JobFits-snoc q e le j =
      elim job
          as (λ job.
            JobFits job last seq pending → JobFits job last (seq + 1) (pending ++ q ∷ [])) [
              | idle ↦ λ o. Outside-snoc [] last pending q (omega arith) o
              | typing batch ↦ λ o. (
                o.0,
                omega (arith, o.1),
                Outside-snoc [] last pending q (omega arith) o.2,
                Outside-snoc batch (last_seq last batch) pending q (omega (arith, o.1)) o.3,
              )
              | marking batch at ↦ λ o. (o.0, Outside-snoc batch last pending q (omega arith) o.1)
            ]
        j

  pub Fits-snoc :
      (q : QueuedNote)
      → q.seq ≡ seq + 1
      → Fits job last seq pending
      → Fits job last (seq + 1) (pending ++ q ∷ [])
  Fits-snoc q e f = record {
    sorted = Above-append 0 pending (q ∷ []) f.sorted (omega (arith, f.bounded), tt);
    bounded = rw (last_seq-append 0 pending (q ∷ [])) (omega arith);
    behind = omega (arith, f.behind);
    job_fits = JobFits-snoc q e f.behind f.job_fits;
  }

  pub Fits-nil : Fits job last seq pending → Fits job last seq []
  Fits-nil f = record {
    sorted = tt;
    bounded = omega arith;
    behind = f.behind;
    job_fits =
        elim job as (λ job. JobFits job last seq pending → JobFits job last seq []) [
          | idle ↦ λ o. tt
          | typing batch ↦ λ o. (o.0, o.1, tt, tt)
          | marking batch at ↦ λ o. (o.0, tt)
        ]
          f.job_fits;
  }

pub Fits-number :
    (job : Job) (last seq : ℕ) (pending : List QueuedNote) (recs : List SteerRecord)
    → Fits job last seq pending
    → Fits job last (seq + count_of recs) (pending ++ number_notes seq recs)
unfolding number_notes
Fits-number job last seq pending [] f =
    let e : seq ≡ seq + 0 = omega arith in
    rw (append-nil pending) (subst (λ n. Fits job last n pending) e f)
Fits-number job last seq pending (r ∷ recs) f =
    let q : QueuedNote = record { seq = seq + 1; rec = r; submitted_at = 0 } in
    let rest =
      Fits-number job last (seq + 1) (pending ++ q ∷ []) recs
        (Fits-snoc job last seq pending q (omega arith) f) in
    let e : (seq + 1) + count_of recs ≡ seq + suc (count_of recs) = omega arith in
    subst (λ n. Fits job last n (pending ++ q ∷ number_notes (seq + 1) recs)) e
      (subst (Fits job last ((seq + 1) + count_of recs))
        (append_assoc pending (q ∷ []) (number_notes (seq + 1) recs)) rest)

pub pending_of-if_there :
    (f : SteerSession → SteerSession) (g : List QueuedNote → List QueuedNote)
    → ((st : SteerSession) → (f st).pending ≡ g st.pending)
    → g [] ≡ []
    → (s : Steerer) → pending_of (if_there f s) ≡ g (pending_of s)
pending_of-if_there f g e z s =
    elim s.session
      as (λ o.
        pending_of (if_there f (record s { session = o }))
        ≡ g (pending_of (record s { session = o }))) [ none ↦ sym z | some st ↦ e st ]
