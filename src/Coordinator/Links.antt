-- ===== src/Coordinator/Links.antt =====
-- Links are read back as they are written.
use aiman.Base.{
  ◌≡◌, refl, ap, ◌∙◌, [], ◌∷◌, ◌++◌, Option, none, some, ◌==◌, Bool-cases, inl, inr, arith, ◌≢◌,
  ◌↔◌,
}
use aiman.Base.Text.{Bytes}
use aiman.Coordinator.{cut_prefix, proper, child_ref, child_id, fixer_id, child_ref_prefix}

cut_prefix-append : (prefix s : Bytes) → cut_prefix prefix (prefix ++ s) ≡ some s
unfolding cut_prefix
cut_prefix-append [] s = refl
cut_prefix-append (c ∷ prefix) s = ground (arith, cut_prefix-append prefix s)

cut_prefix-eq-some :
    (prefix s : Bytes) {rest : Bytes} → cut_prefix prefix s ≡ some rest → s ≡ prefix ++ rest
unfolding cut_prefix
cut_prefix-eq-some [] s e = ground arith
cut_prefix-eq-some (c ∷ prefix) [] e = cc
cut_prefix-eq-some (c ∷ prefix) (d ∷ s) {rest} e = elim (Bool-cases (c == d)) [
  | inl h ↦ ground (arith, cut_prefix-eq-some prefix s {rest = rest})
  | inr h ↦ absurd (ground arith)
]

proper-eq-some : (o : Option Bytes) {id : Bytes} → proper o ≡ some id → (o ≡ some id) × (id ≢ [])
proper-eq-some none e = absurd (ground arith)
proper-eq-some (some []) e = absurd (ground arith)
proper-eq-some (some (c ∷ id)) e = (e, λ h. cc)

proper-some : (id : Bytes) → id ≢ [] → proper (some id) ≡ some id
proper-some [] h = absurd (h refl)
proper-some (c ∷ id) h = refl

-- A text is read as the link to a child session just when it is the link that is written for that
-- session and the session's id is not empty; and no link to a child is one to a fixer.
pub child_id_iff :
    (ref id : Bytes)
    → ((child_id ref ≡ some id) ↔ ((ref ≡ child_ref id) × (id ≢ [])))
      × (fixer_id (child_ref id) ≡ none)
unfolding child_id child_ref fixer_id
child_id_iff ref id = (
  (
    λ e.
        let (cut, full) = proper-eq-some (cut_prefix child_ref_prefix ref) {id = id} e in
        (cut_prefix-eq-some child_ref_prefix ref {rest = id} cut, full),
    λ (e, full). rw e (ap proper (cut_prefix-append child_ref_prefix id) ∙ proper-some id full),
  ),
  refl,
)
