-- ===== src/Todo/Mirror/Kept.antt =====
-- What a merge keeps: every item of the list, with its id, and the items that answer to others.
use aiman.Base.{
  ℕ, zero, suc, ◌+◌, ◌≡◌, ap, ◌∙◌, refl, Bool, true, false, List, [], ◌∷◌, Option, none, some,
  length, get_elem?, set, arith, Bool-cases, Option-cases, ◌⊎◌, inl, inr,
}
use aiman.Base.Text.{Bytes}
use aiman.Todo.Types.{TodoItem}
use aiman.Todo.Gate.{is_gate}
use aiman.Todo.Normalize.{Unicode}
use aiman.Todo.Mirror.{
  protected_from_snapshot, applies, apply_flags, flag_at, unmatched_item, unmatched_pass, Rewrite,
  rewrite_entry, rewrite_pass, rewritten, added_item, entry_of,
}
use aiman.Todo.Mirror.Matching.{SnapEntry, Match, taken}
use aiman.Todo.Mirror.Count.{count, count-append}

-- No item with a flag answers to someone other than the agent's list.
abbrev Unprotected : List Bool → List TodoItem → Type 0
Unprotected flags items =
    (i : ℕ) (it : TodoItem)
    → get_elem? flags i ≡ some true
    → get_elem? items i ≡ some it
    → protected_from_snapshot it ≡ false

-- Neither the loops over the items nor those over the entries change whether an item counts.
pub record IsStable (p : TodoItem → Bool) : Type 0 where
  pub dropping : (matched : Bool) (it : TodoItem) → p (unmatched_item matched it) ≡ p it
  pub rewriting :
      (kept : Bool) (e : SnapEntry) (it : TodoItem)
      → protected_from_snapshot it ≡ false
      → p (rewritten kept e it) ≡ p it
  pub adding : (kept : Bool) (now : ℕ) (e : SnapEntry) → p (added_item kept now e) ≡ false

protected-unmatched_item :
    (matched : Bool) (it : TodoItem)
    → protected_from_snapshot (unmatched_item matched it) ≡ protected_from_snapshot it
unfolding protected_from_snapshot unmatched_item is_gate
protected-unmatched_item matched it = ground arith

module _ (u : Unicode) (delivered_at : ℕ) (entries : List SnapEntry) (m : Match) where
  applies-unprotected :
      (i : ℕ) (it : TodoItem)
      → applies u delivered_at entries m.match i it ≡ true
      → protected_from_snapshot it ≡ false
  unfolding applies
  applies-unprotected i it h = elim (Option-cases (entry_of i entries m.match)) [
    | inl e ↦ absurd (ground arith)
    | inr (e', e) ↦ ground arith
  ]

  pub Unprotected-passes :
      (i : ℕ) (items : List TodoItem)
      → Unprotected
          (apply_flags u delivered_at entries m.match i items)
          (unmatched_pass delivered_at m i items).0
  unfolding apply_flags unmatched_pass
  Unprotected-passes i [] j it f g = cc
  Unprotected-passes i (x ∷ items) zero it f g =
      let own = applies-unprotected i x (ground arith) in
      ground (arith, protected-unmatched_item (taken i m) x)
  Unprotected-passes i (x ∷ items) (suc j) it f g = Unprotected-passes (i + 1) items j it f g

pub length-unmatched_pass :
    (delivered_at : ℕ) (m : Match) (i : ℕ) (items : List TodoItem)
    → length (unmatched_pass delivered_at m i items).0 ≡ length items
unfolding unmatched_pass
length-unmatched_pass delivered_at m i [] = refl
length-unmatched_pass delivered_at m i (it ∷ items) =
    omega (arith, length-unmatched_pass delivered_at m (i + 1) items)

module _ (p : TodoItem → Bool) (stable : IsStable p) where
  pub count-unmatched_pass :
      (delivered_at : ℕ) (m : Match) (i : ℕ) (items : List TodoItem)
      → count p (unmatched_pass delivered_at m i items).0 ≡ count p items
  unfolding unmatched_pass
  count-unmatched_pass delivered_at m i [] = refl
  count-unmatched_pass delivered_at m i (it ∷ items) =
      ground
        (arith, stable.dropping (taken i m) it, count-unmatched_pass delivered_at m (i + 1) items)

  count-set :
      (items : List TodoItem) (i : ℕ) (v : TodoItem) {it : TodoItem}
      → get_elem? items i ≡ some it
      → p v ≡ p it
      → count p (set items i v) ≡ count p items
  count-set [] i v e same = refl
  count-set (x ∷ items) zero v {it} e same = let h : p v ≡ p x = cc in rw h refl
  count-set (x ∷ items) (suc i) v {it} e same = ground (arith, count-set items i v {it = it} e same)

get_elem?-set :
    (items : List TodoItem) (i j : ℕ) (v : TodoItem) {it : TodoItem}
    → get_elem? (set items i v) j ≡ some it
    → (v ≡ it) ⊎ (get_elem? items j ≡ some it)
get_elem?-set [] i j v e = inr e
get_elem?-set (x ∷ items) zero zero v e = inl (ground arith)
get_elem?-set (x ∷ items) zero (suc j) v e = inr e
get_elem?-set (x ∷ items) (suc i) zero v e = inr e
get_elem?-set (x ∷ items) (suc i) (suc j) v {it} e = get_elem?-set items i j v {it = it} e

module _ (p : TodoItem → Bool) (stable : IsStable p) (kept : Bool) (now n : ℕ) (flags : List Bool)
    (removed : Bytes → Bool) where
  -- What the loop over the entries keeps of the counts.
  abbrev Counted : Rewrite → Rewrite → Type 0
  Counted r out = (count p out.items ≡ count p r.items) × (count p out.added ≡ count p r.added)

  flag_at-true : (i : ℕ) → flag_at i flags ≡ true → get_elem? flags i ≡ some true
  flag_at-true i h = elim (Option-cases (get_elem? flags i)) [
    | inl f ↦ absurd (ground arith)
    | inr (b, f) ↦ ground arith
  ]

  rewritten-Unprotected :
      (e : SnapEntry) (items : List TodoItem) (i : ℕ) (it : TodoItem)
      → Unprotected flags items
      → protected_from_snapshot it ≡ false
      → Unprotected flags (set items i (rewritten kept e it))
  unfolding rewritten protected_from_snapshot is_gate
  rewritten-Unprotected e items i it free own j other f g =
      elim (get_elem?-set items i j (rewritten kept e it) {it = other} g) [
        | inl same ↦ ground (arith, ap (λ t. protected_from_snapshot t) same)
        | inr old ↦ free j other f old
      ]

  rewrite_entry-Counted :
      (e : SnapEntry) (i : Option ℕ) (r : Rewrite)
      → Unprotected flags r.items
      → Counted r (rewrite_entry kept now flags removed n e i r)
        × Unprotected flags (rewrite_entry kept now flags removed n e i r).items
  unfolding rewrite_entry
  rewrite_entry-Counted e none r free = elim (Bool-cases (removed e.norm)) [
    | inl h ↦ rw (h, rewrite_entry) ((refl, refl), free)
    | inr h ↦
        rw (h, rewrite_entry)
          (
            (
              refl,
              ground (
                arith,
                count-append p r.added (added_item kept now e ∷ []),
                stable.adding kept now e,
              ),
            ),
            free,
          )
  ]
  rewrite_entry-Counted e (some i) r free = elim (Bool-cases (flag_at i flags)) [
    | inr h ↦ rw (h, rewrite_entry) ((refl, refl), free)
    | inl h ↦ elim (Option-cases (get_elem? r.items i)) [
      | inl g ↦ rw (h, g, rewrite_entry) ((refl, refl), free)
      | inr (it, g) ↦
          let own = free i it (flag_at-true i h) g in
          rw (h, g, rewrite_entry)
            (
              (
                count-set p stable r.items i (rewritten kept e it) {it = it} g
                    (stable.rewriting kept e it own),
                refl,
              ),
              rewritten-Unprotected e r.items i it free own,
            )
    ]
  ]

  pub rewrite_pass-Counted :
      (entries : List SnapEntry) (match : List (Option ℕ)) (r : Rewrite)
      → Unprotected flags r.items
      → Counted r (rewrite_pass kept now flags removed n entries match r)
  unfolding rewrite_pass
  rewrite_pass-Counted [] match r free = (refl, refl)
  rewrite_pass-Counted (e ∷ entries) [] r free = (refl, refl)
  rewrite_pass-Counted (e ∷ entries) (i ∷ match) r free =
      let r' = rewrite_entry kept now flags removed n e i r in
      let ((a, b), free') = rewrite_entry-Counted e i r free in
      let (c, d) = rewrite_pass-Counted entries match r' free' in (c ∙ a, d ∙ b)
