-- ===== src/Todo/Mirror/Order.antt =====
-- The order that a merge builds: each rewritten item once, and then each added one.
use aiman.Base.{
  ℕ, zero, suc, ◌+◌, ◌≤◌, ◌<◌, ◌≡◌, inl, inr, refl, Bool, true, List, [], ◌∷◌, Option, none, some,
  ltb, ◌==◌, if◌then◌else◌, length, length-append, get_elem?, get_elem?-none, arith, Bool-cases,
  Option-cases,
}
use aiman.Base.Text.{Bytes}
use aiman.Todo.Types.{TodoItem}
use aiman.Todo.Normalize.{Unicode}
use aiman.Todo.Mirror.{
  entry_of, applies, apply_flags, flag_at, Rewrite, rewrite_entry, rewrite_pass, rewritten,
  added_item,
}
use aiman.Todo.Mirror.Matching.{SnapEntry}
use aiman.Todo.Mirror.Matching.Injective.{given, length-set}
use aiman.Todo.Mirror.Layout.Once.{times, times-append}

-- An entry that stands for an item was given it.
entry_of-given :
    (i : ℕ) (entries : List SnapEntry) (match : List (Option ℕ)) {out : SnapEntry}
    → entry_of i entries match ≡ some out
    → 1 ≤ given i match
unfolding entry_of
entry_of-given i [] match h = cc
entry_of-given i (e ∷ entries) [] h = cc
entry_of-given i (e ∷ entries) (none ∷ match) {out} h = entry_of-given i entries match {out = out} h
entry_of-given i (e ∷ entries) (some k ∷ match) {out} h =
    ground (arith, entry_of-given i entries match {out = out})

module _ (u : Unicode) (delivered_at : ℕ) (entries : List SnapEntry) (match : List (Option ℕ)) where
  pub length-apply_flags :
      (i : ℕ) (items : List TodoItem)
      → length (apply_flags u delivered_at entries match i items) ≡ length items
  unfolding apply_flags
  length-apply_flags i [] = refl
  length-apply_flags i (it ∷ items) = omega (arith, length-apply_flags (i + 1) items)

  applies-given :
      (i : ℕ) (it : TodoItem) → applies u delivered_at entries match i it ≡ true → 1 ≤ given i match
  unfolding applies
  applies-given i it h = elim (Option-cases (entry_of i entries match)) [
    | inl e ↦ absurd (ground arith)
    | inr (e', e) ↦ entry_of-given i entries match {out = e'} e
  ]

  pub apply_flags-given :
      (i j : ℕ) (items : List TodoItem)
      → get_elem? (apply_flags u delivered_at entries match i items) j ≡ some true
      → 1 ≤ given (j + i) match
  unfolding apply_flags
  apply_flags-given i j [] h = cc
  apply_flags-given i zero (it ∷ items) h =
      let own = applies-given i it (ground arith) in let e : zero + i ≡ i = omega arith in rw e own
  apply_flags-given i (suc j) (it ∷ items) h =
      let e : suc j + i ≡ j + (i + 1) = omega arith in rw e (apply_flags-given (i + 1) j items h)

module _ (kept : Bool) (now n : ℕ) (flags : List Bool) (removed : Bytes → Bool) where
  -- The indices from `n` on are those of the added items, each once.
  abbrev Appended : Rewrite → Type 0
  Appended r = (j : ℕ) → n ≤ j → times j r.ordered ≡ (if ltb j (n + length r.added) then 1 else 0)

  -- From `r` to `out`, with the entries that were given `match`.
  abbrev Ordered : Rewrite → List (Option ℕ) → Rewrite → Type 0
  Ordered r match out =
      (length out.items ≡ n)
      × ((j : ℕ)
          → j < n
          → times j out.ordered
            ≡ times j r.ordered + (if flag_at j flags then given j match else 0))
      × Appended out

  flag_same : (i j : ℕ) → (j == i) ≡ true → flag_at j flags ≡ flag_at i flags
  flag_same i j e = let eq : j ≡ i = ground arith in rw eq refl

  given-cons :
      (j : ℕ) (i : Option ℕ) (match : List (Option ℕ))
      → given j (i ∷ match) ≡ given j (i ∷ []) + given j match
  given-cons j none match = omega arith
  given-cons j (some k) match = omega arith

  add_step :
      (j : ℕ) (i : Option ℕ) (match : List (Option ℕ)) (a b c : ℕ)
      → b ≡ a + (if flag_at j flags then given j (i ∷ []) else 0)
      → c ≡ b + (if flag_at j flags then given j match else 0)
      → c ≡ a + (if flag_at j flags then given j (i ∷ match) else 0)
  add_step j i match a b c p q = ground (arith, given-cons j i match)

  rewrite_entry-Ordered :
      (e : SnapEntry) (i : Option ℕ) (r : Rewrite)
      → ((j : ℕ) → flag_at j flags ≡ true → j < n)
      → length r.items ≡ n
      → Appended r
      → Ordered r (i ∷ []) (rewrite_entry kept now flags removed n e i r)
  unfolding rewrite_entry
  rewrite_entry-Ordered e none r within room app = elim (Bool-cases (removed e.norm)) [
    | inl h ↦ rw (h, rewrite_entry) (room, λ j l. ground arith, app)
    | inr h ↦
        let k = n + length r.added in
        rw (h, rewrite_entry)
          (
            room,
            λ j l. ground (arith, times-append j r.ordered (k ∷ [])),
            λ j l. ground (
              arith,
              times-append j r.ordered (k ∷ []),
              app j l,
              length-append r.added (added_item kept now e ∷ []),
            ),
          )
  ]
  rewrite_entry-Ordered e (some i) r within room app = elim (Bool-cases (flag_at i flags)) [
    | inr h ↦ rw (h, rewrite_entry) (room, λ j l. ground (arith, flag_same i j), app)
    | inl h ↦ elim (Option-cases (get_elem? r.items i)) [
      | inl g ↦ absurd (omega (arith, within i h, get_elem?-none r.items i g))
      | inr (it, g) ↦
          rw (h, g, rewrite_entry)
            (
              omega (arith, length-set r.items i (rewritten kept e it)),
              λ j l. ground (arith, flag_same i j, times-append j r.ordered (i ∷ [])),
              λ j l. ground (arith, within i h, times-append j r.ordered (i ∷ []), app j l),
            )
    ]
  ]

  pub rewrite_pass-Ordered :
      (entries : List SnapEntry) (match : List (Option ℕ)) (r : Rewrite)
      → length match ≡ length entries
      → ((j : ℕ) → flag_at j flags ≡ true → j < n)
      → length r.items ≡ n
      → Appended r
      → Ordered r match (rewrite_pass kept now flags removed n entries match r)
  unfolding rewrite_pass
  rewrite_pass-Ordered [] [] r same within room app = (room, λ j l. ground arith, app)
  rewrite_pass-Ordered [] (i ∷ match) r same within room app = absurd (omega arith)
  rewrite_pass-Ordered (e ∷ entries) [] r same within room app = absurd (omega arith)
  rewrite_pass-Ordered (e ∷ entries) (i ∷ match) r same within room app =
      let r' = rewrite_entry kept now flags removed n e i r in
      let (room', step, app') = rewrite_entry-Ordered e i r within room app in
      let (last, steps, end) =
        rewrite_pass-Ordered entries match r' (omega arith) within room' app' in
      (
        last,
        λ j l.
            add_step j i match (times j r.ordered) (times j r'.ordered)
              (times j (rewrite_pass kept now flags removed n entries match r').ordered) (step j l)
              (steps j l),
        end,
      )
