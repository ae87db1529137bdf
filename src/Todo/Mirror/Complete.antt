-- ===== src/Todo/Mirror/Complete.antt =====
-- A merge loses no item: the counts through the layout of a whole merge.
use aiman.Base.{
  ℕ, ◌+◌, ◌≤◌, ◌<◌, ◌≡◌, sym, ◌∙◌, refl, Bool, true, false, not, ◌&&◌, ◌||◌, List, [], ◌++◌, Option,
  some, ltb, String, str_eq, str_eq_iff, if◌then◌else◌, length, length-append, get_elem?,
  get_elem?-none, get_elem?-some, arith, Bool-cases, Option-cases, inl, inr, ◌≢◌,
}
use aiman.Todo.Types.{TodoItem, TodoList, TodoSnapshotItem, is_agent, has_id}
use aiman.Todo.Done.{done_ref}
use aiman.Todo.Gate.{is_gate}
use aiman.Todo.Normalize.{Unicode}
use aiman.Todo.Store.{Tombstone, Retext}
use aiman.Todo.Mirror.{
  protected_from_snapshot, agent_removed_untouched, apply_flags, kept_active, flag_at,
  unmatched_item, unmatched_pass, is_removed, Rewrite, rewrite_pass, rewritten, added_item,
  pick_items, decide, merge_with_retexts,
}
use aiman.Todo.Mirror.Matching.{SnapEntry, Match, entries_of, match_snapshot, match_retexts, taken}
use aiman.Todo.Mirror.Matching.Injective.{given, IsMatching, match_all-IsMatching}
use aiman.Todo.Mirror.Layout.{layout}
use aiman.Todo.Mirror.Layout.Once.{times, IsOrder, layout_once}
use aiman.Todo.Mirror.Order.{length-apply_flags, apply_flags-given, rewrite_pass-Ordered}
use aiman.Todo.Mirror.Count.{count, count-append, count-pin_done_last, count-pick_items}
use aiman.Todo.Mirror.Kept.{
  IsStable, Unprotected-passes, length-unmatched_pass, count-unmatched_pass, rewrite_pass-Counted,
}

flag_at-room : (j : ℕ) (flags : List Bool) → flag_at j flags ≡ true → j < length flags
flag_at-room j flags h = elim (Option-cases (get_elem? flags j)) [
  | inl f ↦ absurd (ground arith)
  | inr (b, f) ↦ get_elem?-some flags j f
]

-- The order that the loops build names each rewritten item and each added one once.
built-IsOrder :
    (flags : List Bool) (n : ℕ) (match : List (Option ℕ)) (used : ℕ → Bool) (added : ℕ)
    (ordered : List ℕ)
    → length flags ≡ n
    → ((j : ℕ) → given j match ≡ (if used j then 1 else 0))
    → ((j : ℕ) → get_elem? flags j ≡ some true → 1 ≤ given j match)
    → ((j : ℕ) → j < n → times j ordered ≡ 0 + (if flag_at j flags then given j match else 0))
    → ((j : ℕ) → n ≤ j → times j ordered ≡ (if ltb j (n + added) then 1 else 0))
    → IsOrder flags (n + added) ordered
built-IsOrder flags n match used added ordered size paired flagged low high j =
    elim (Option-cases (get_elem? flags j)) [
      | inl f ↦ let l = get_elem?-none flags j f in rw f (high j (omega arith))
      | inr (true, f) ↦
          let l = get_elem?-some flags j f in
          let a = flagged j f in
          let b = paired j in let c = low j (omega arith) in rw f (ground arith)
      | inr (false, f) ↦
          let l = get_elem?-some flags j f in let c = low j (omega arith) in rw f (ground arith)
    ]

module _ (p : TodoItem → Bool) (stable : IsStable p) (u : Unicode) (tombs : List Tombstone)
    (entries : List SnapEntry) (m : Match) (delivered_at now : ℕ) where
  count-decide :
      (items : List TodoItem)
      → IsMatching (length entries) m
      → (let d = decide u items tombs entries m delivered_at now in
          count p (
            pick_items
              (d.rewrite.items ++ d.rewrite.added)
              (layout (length items) d.flags d.rewrite.ordered))
          ≡ count p items)
  unfolding decide
  count-decide items v =
      let flags = apply_flags u delivered_at entries m.match 0 items in
      let kept_items = (unmatched_pass delivered_at m 0 items).0 in
      let kept = kept_active flags items in
      let n = length items in
      let r : Rewrite = record { items = kept_items; added = []; ordered = [] } in
      let removed = is_removed u delivered_at tombs in
      let out = rewrite_pass kept now flags removed n entries m.match r in
      let size : length flags ≡ n = length-apply_flags u delivered_at entries m.match 0 items in
      let flagged : (j : ℕ) → get_elem? flags j ≡ some true → 1 ≤ given j m.match = λ j f.
        let at = apply_flags-given u delivered_at entries m.match 0 j items f in
        let e : j ≡ j + 0 = omega arith in rw e at in
      let (room, low, high) =
        rewrite_pass-Ordered kept now n flags removed entries m.match r v.sized
          (λ j f. let l = flag_at-room j flags f in omega arith)
          (length-unmatched_pass delivered_at m 0 items) (λ j l. ground arith) in
      let order =
        built-IsOrder flags n m.match (λ j. taken j m) (length out.added) out.ordered size v.paired
          flagged low high in
      let once = layout_once flags (n + length out.added) out.ordered (omega arith) order in
      let total = length-append out.items out.added in
      let picked =
        count-pick_items p (out.items ++ out.added) (layout (length items) flags out.ordered)
          (λ j. let o = once j in ground arith) in
      let (a, b) =
        rewrite_pass-Counted p stable kept now n flags removed entries m.match r
          (Unprotected-passes u delivered_at entries m 0 items) in
      let c = count-unmatched_pass p stable delivered_at m 0 items in
      let s = count-append p out.items out.added in omega arith

  count-merge :
      (retexts : List Retext) (snap : List TodoSnapshotItem) (list : TodoList)
      → entries ≡ entries_of u snap
      → m ≡ match_retexts list.items retexts 0 entries (match_snapshot u list.items entries)
      → count p (merge_with_retexts u list tombs retexts snap delivered_at now).items
        ≡ count p list.items
  unfolding merge_with_retexts
  count-merge retexts snap list e f =
      let v = match_all-IsMatching u list.items retexts entries in
      let d = decide u list.items tombs entries m delivered_at now in
      let a = count-decide list.items (rw f v) in
      let b = count-pin_done_last p (
        pick_items (d.rewrite.items ++ d.rewrite.added)
          (layout (length list.items) d.flags d.rewrite.ordered)) in
      rw (sym e, sym f) (b ∙ a)

has_id-IsStable : (k : String) → k ≢ "" → IsStable (has_id k)
unfolding unmatched_item rewritten added_item
has_id-IsStable k nonempty = record {
  dropping = λ matched it. ground arith;
  rewriting = λ kept e it free. ground arith;
  adding = λ kept now e. elim (Bool-cases (str_eq "" k)) [
    | inl h ↦ absurd (nonempty (sym ((str_eq_iff "" k).0 h)))
    | inr h ↦ h
  ];
}

-- The item answers to someone other than the agent's own list, and if it is a gate then the last change
-- is not the agent's.
abbrev pub is_firm : TodoItem → Bool
is_firm it = str_eq it.ref done_ref || is_gate it && not (is_agent it.updated_by)

firm-IsStable : (q : TodoItem → Bool) → IsStable (λ it. is_firm it && q it)
unfolding unmatched_item rewritten added_item protected_from_snapshot agent_removed_untouched
    is_gate
firm-IsStable q = record {
  dropping = λ matched it. ground arith;
  rewriting = λ kept e it free. ground arith;
  adding = λ kept now e. ground arith;
}

-- A merge of the agent's task list neither loses nor doubles an item: every id but the empty one, which
-- the added items have, stands as often in the merged list as in the list before.
pub merge_keeps_ids :
    (u : Unicode) (list : TodoList) (tombs : List Tombstone) (retexts : List Retext)
    (snap : List TodoSnapshotItem) (delivered_at now : ℕ) (k : String)
    → k ≢ ""
    → count (has_id k) (merge_with_retexts u list tombs retexts snap delivered_at now).items
      ≡ count (has_id k) list.items
merge_keeps_ids u list tombs retexts snap delivered_at now k nonempty =
    let entries = entries_of u snap in
    count-merge (has_id k) (has_id-IsStable k nonempty) u tombs entries
      (match_retexts list.items retexts 0 entries (match_snapshot u list.items entries))
      delivered_at now retexts snap list refl refl

-- A merge leaves the Done-when item, and each gate that the agent did not change last, as they were:
-- whatever is asked of such an item, as many of them answer it after the merge as before, with the text,
-- the state, the reference and the merge base that it had. No snapshot of the agent's makes one more.
pub merge_keeps_firm :
    (u : Unicode) (list : TodoList) (tombs : List Tombstone) (retexts : List Retext)
    (snap : List TodoSnapshotItem) (delivered_at now : ℕ) (q : TodoItem → Bool)
    → count
        (λ it. is_firm it && q it)
        (merge_with_retexts u list tombs retexts snap delivered_at now).items
      ≡ count (λ it. is_firm it && q it) list.items
merge_keeps_firm u list tombs retexts snap delivered_at now q =
    let entries = entries_of u snap in
    count-merge (λ it. is_firm it && q it) (firm-IsStable q) u tombs entries
      (match_retexts list.items retexts 0 entries (match_snapshot u list.items entries))
      delivered_at now retexts snap list refl refl
