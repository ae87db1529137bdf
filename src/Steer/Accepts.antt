-- ===== src/Steer/Accepts.antt =====
-- The calls by which records join the queue.
use aiman.Base.{
  ℕ, suc, ◌+◌, ◌≡◌, refl, sym, ap, ◌∙◌, Bool, true, false, ◌||◌, Bool-cases, inl, inr, List, [],
  ◌∷◌, ◌++◌, none, some, String, ◌==◌, arith, append-nil, append_assoc, if◌then◌else◌,
}
use mathlib.Core.Path.{subst}
use aiman.Steer.{
  SteerRecord, QueuedNote, Steerer, session_locked, on_session, number_notes, count_of,
  append_notes, load_notes, load_delivered, holds_record, with_loaded, with_delivered, keep_session,
  pending_of,
}
use aiman.Steer.System.{Job}
use aiman.Steer.Trace.{arriving, has_id, ids_of, unheld}
use aiman.Steer.Order.{pending_of-on_session}
use aiman.Steer.Refines.{JobRefines, JobRefines-snoc}

-- A call by which the records join those that wait.
abbrev pub Accepts : Job → Steerer → Steerer → List SteerRecord → Type 0
Accepts job s t new =
    (waiting in_hand : List SteerRecord) (orphaned : Bool)
    → JobRefines job (pending_of s) s.seq waiting in_hand orphaned
    → JobRefines job (pending_of t) t.seq (waiting ++ new) in_hand orphaned

pub Accepts-same :
    (job : Job) (s t : Steerer) → t.seq ≡ s.seq → pending_of t ≡ pending_of s → Accepts job s t []
Accepts-same job s t e p w h o r =
    subst (λ n. JobRefines job (pending_of t) n (w ++ []) h o) (sym e)
      (subst (λ l. JobRefines job l s.seq (w ++ []) h o) (sym p)
        (subst (λ v. JobRefines job (pending_of s) s.seq v h o) (sym (append-nil w)) r))

pub Accepts-trans :
    (job : Job) (s t u : Steerer) (xs ys : List SteerRecord)
    → Accepts job s t xs
    → Accepts job t u ys
    → Accepts job s u (xs ++ ys)
Accepts-trans job s t u xs ys a b w h o r =
    subst (λ v. JobRefines job (pending_of u) u.seq v h o) (append_assoc w xs ys)
      (b (w ++ xs) h o (a w h o r))

JobRefines-number :
    (job : Job) (pending : List QueuedNote) (seq : ℕ) (recs w h : List SteerRecord) (o : Bool)
    → JobRefines job pending seq w h o
    → JobRefines job (pending ++ number_notes seq recs) (seq + count_of recs) (w ++ recs) h o
unfolding number_notes
JobRefines-number job pending seq [] w h o r =
    let e : seq ≡ seq + 0 = omega arith in
    rw (append-nil pending, append-nil w) (subst (λ n. JobRefines job pending n w h o) e r)
JobRefines-number job pending seq (x ∷ recs) w h o r =
    let q : QueuedNote = record { seq = seq + 1; rec = x; submitted_at = 0 } in
    let rest =
      JobRefines-number job (pending ++ q ∷ []) (seq + 1) recs (w ++ x ∷ []) h o
        (JobRefines-snoc pending seq h o job w q refl refl r) in
    let e : (seq + 1) + count_of recs ≡ seq + suc (count_of recs) = omega arith in
    subst (λ n. JobRefines job (pending ++ q ∷ number_notes (seq + 1) recs) n (w ++ x ∷ recs) h o) e
      (subst (λ l. JobRefines job l ((seq + 1) + count_of recs) (w ++ x ∷ recs) h o)
        (append_assoc pending (q ∷ []) (number_notes (seq + 1) recs))
        (subst
          (λ v.
            JobRefines job ((pending ++ q ∷ []) ++ number_notes (seq + 1) recs)
              ((seq + 1) + count_of recs) v h o)
          (append_assoc w (x ∷ []) recs) rest))

pub Accepts-append :
    (job : Job) (generation : ℕ) (recs : List SteerRecord) (failure : String) (s : Steerer)
    → Accepts job s (append_notes generation recs failure s) (arriving generation recs s.session)
unfolding append_notes
Accepts-append job generation recs failure s =
    elim s.session
      as (λ o.
        Accepts job (record s { session = o })
          (append_notes generation recs failure (record s { session = o }))
          (arriving generation recs o)) [
            | none ↦
                Accepts-same job (record s { session = none }) (record s { session = none }) refl
                  refl
            | some st ↦ elim (Bool-cases (st.generation == generation)) [
              | inl e ↦ rw e (λ w h o r. JobRefines-number job st.pending s.seq recs w h o r)
              | inr e ↦ rw e (
                  Accepts-same job (record s { session = some st }) (record s { session = some st })
                    refl refl)
            ]
          ]

-- The note that `Load` adds, and what is pending with it.
abbrev loaded_note : ℕ → SteerRecord → QueuedNote
loaded_note seq r = record { seq = seq + 1; rec = r; submitted_at = 0 }

abbrev loaded : SteerRecord → Steerer → Steerer
loaded r s = on_session (with_loaded (s.seq + 1) r) (record s { seq = s.seq + 1 })

pending_of-loaded :
    (r : SteerRecord) (s : Steerer)
    → (pending_of (loaded r s) ≡ pending_of s ++ loaded_note s.seq r ∷ [])
      × ((loaded r s).seq ≡ s.seq + 1)
unfolding on_session session_locked
pending_of-loaded r s =
    elim s.session
      as (λ o.
        (pending_of (loaded r (record s { session = o }))
          ≡ pending_of (record s { session = o }) ++ loaded_note s.seq r ∷ [])
        × ((loaded r (record s { session = o })).seq ≡ s.seq + 1)) [
          | none ↦ (refl, refl)
          | some st ↦ (refl, refl)
        ]

Accepts-loaded : (job : Job) (r : SteerRecord) (s : Steerer) → Accepts job s (loaded r s) (r ∷ [])
Accepts-loaded job r s w h o x =
    let (p, e) = pending_of-loaded r s in
    subst (λ n. JobRefines job (pending_of (loaded r s)) n (w ++ r ∷ []) h o) (sym e)
      (subst (λ l. JobRefines job l (s.seq + 1) (w ++ r ∷ []) h o) (sym p)
        (JobRefines-snoc (pending_of s) s.seq h o job w (loaded_note s.seq r) refl refl x))

-- The ids that are held, as the code and as the label ask for them.
holds_record-has_id :
    (id : ℕ) (notes : List QueuedNote) → holds_record id notes ≡ has_id (ids_of notes) id
holds_record-has_id id [] = refl
holds_record-has_id id (q ∷ notes) =
    ap (λ (b : Bool). q.rec.id == id || b) (holds_record-has_id id notes)

ids_of-append : (xs ys : List QueuedNote) → ids_of (xs ++ ys) ≡ ids_of xs ++ ids_of ys
ids_of-append [] ys = refl
ids_of-append (x ∷ xs) ys = ap (λ (l : List ℕ). x.rec.id ∷ l) (ids_of-append xs ys)

session_locked-pending : (s : Steerer) → (session_locked s).pending ≡ pending_of s
unfolding session_locked
session_locked-pending s =
    elim s.session
      as (λ o.
        (session_locked (record s { session = o })).pending
        ≡ pending_of (record s { session = o })) [ none ↦ refl | some st ↦ refl ]

-- One round of the loop of `Load`, and of the label.
module _ (r : SteerRecord) (recs : List SteerRecord) (s : Steerer) where
  load_notes-cons :
      (b : Bool)
      → holds_record r.id (session_locked s).pending ≡ b
      → load_notes (r ∷ recs) s
        ≡ load_notes recs (if b then on_session keep_session s else loaded r s)
  unfolding load_notes
  load_notes-cons b e =
      ap (λ (b : Bool). load_notes recs (if b then on_session keep_session s else loaded r s)) e

unheld-cons :
    (ids : List ℕ) (r : SteerRecord) (recs : List SteerRecord) (b : Bool)
    → has_id ids r.id ≡ b
    → unheld ids (r ∷ recs) ≡ (if b then unheld ids recs else r ∷ unheld (ids ++ r.id ∷ []) recs)
unfolding unheld
unheld-cons ids r recs b e =
    ap (λ (b : Bool). if b then unheld ids recs else r ∷ unheld (ids ++ r.id ∷ []) recs) e

pub Accepts-load_notes :
    (job : Job) (recs : List SteerRecord) (s : Steerer)
    → Accepts job s (load_notes recs s) (unheld (ids_of (pending_of s)) recs)
Accepts-load_notes job [] s = unfold load_notes unheld in Accepts-same job s s refl refl
Accepts-load_notes job (r ∷ recs) s =
    let known = ids_of (pending_of s) in
    let held =
      ap (holds_record r.id) (session_locked-pending s) ∙ holds_record-has_id r.id (pending_of s) in
    elim (Bool-cases (has_id known r.id)) [
      | inl e ↦
          let t = on_session keep_session s in
          let p = pending_of-on_session keep_session s (λ st. refl) in
          rw (load_notes-cons r recs s true (held ∙ e), unheld-cons known r recs true e)
            (Accepts-trans job s t (load_notes recs t) [] (unheld known recs)
              (Accepts-same job s t (unfold on_session in refl) p)
              (subst (λ l. Accepts job t (load_notes recs t) (unheld (ids_of l) recs)) p
                (Accepts-load_notes job recs t)))
      | inr e ↦
          let t = loaded r s in
          let p =
            ap ids_of (pending_of-loaded r s).0
            ∙ ids_of-append (pending_of s) (loaded_note s.seq r ∷ []) in
          rw (load_notes-cons r recs s false (held ∙ e), unheld-cons known r recs false e)
            (Accepts-trans job s t (load_notes recs t) (r ∷ []) (unheld (known ++ r.id ∷ []) recs)
              (Accepts-loaded job r s)
              (subst (λ l. Accepts job t (load_notes recs t) (unheld l recs)) p
                (Accepts-load_notes job recs t)))
    ]

pub Accepts-load_delivered :
    (job : Job) (at : ℕ) (s : Steerer) → Accepts job s (load_delivered at s) []
unfolding load_delivered on_session
Accepts-load_delivered job at s =
    Accepts-same job s (load_delivered at s) refl
      (pending_of-on_session (with_delivered at) s (λ st. refl))
