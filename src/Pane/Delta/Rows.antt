-- ===== src/Pane/Delta/Rows.antt =====
-- `DiffScreen` and `ApplyScreen`: the row patches, applied to the screen they were made from.
use aiman.Base.{
  ℕ, ◌+◌, ◌≡◌, ◌≢◌, ◌⊎◌, inl, inr, refl, sym, ap, ◌∙◌, false, List, [], ◌∷◌, ◌++◌, append_assoc,
  some, arith, leb, Bool-cases, length, set, length-append,
}
use aiman.Base.Int.{pos}
use aiman.Base.Text.{Bytes, bytes_eq, bytes_eq_iff, split, join, join-split}
use aiman.Pane.Delta.{RowPatch, diff_rows, diff_screen, apply_rows, apply_screen}

set-append :
    (pre : List Bytes) (p n : Bytes) (ps : List Bytes)
    → set (pre ++ p ∷ ps) (length pre) n ≡ pre ++ n ∷ ps
set-append [] p n ps = refl
set-append (x ∷ pre) p n ps = ap (◌∷◌ x) (set-append pre p n ps)

leb-length :
    (pre : List Bytes) (p : Bytes) (ps : List Bytes)
    → leb (length (pre ++ p ∷ ps)) (length pre) ≡ false
leb-length pre p ps = ground (arith, length-append pre (p ∷ ps))

-- `P` of the patches behind `pre` and one more row.
AppliesFrom : ℕ → List Bytes → List Bytes → List Bytes → List Bytes → Type 0
AppliesFrom i ps ns old new = apply_rows (diff_rows i ps ns) old ≡ some new

regroup :
    (pre ps ns : List Bytes) (x : Bytes)
    → AppliesFrom (length (pre ++ x ∷ [])) ps ns ((pre ++ x ∷ []) ++ ps) ((pre ++ x ∷ []) ++ ns)
    → AppliesFrom (length pre + 1) ps ns (pre ++ x ∷ ps) (pre ++ x ∷ ns)
regroup pre ps ns x h =
    rw (length-append pre (x ∷ []), append_assoc pre (x ∷ []) ps, append_assoc pre (x ∷ []) ns) at h

apply_rows-cons :
    (i : ℕ) (line : Bytes) (rows : List RowPatch) (lines : List Bytes)
    → leb (length lines) i ≡ false
    → apply_rows (record { index = pos i; line = line } ∷ rows) lines
      ≡ apply_rows rows (set lines i line)
unfolding apply_rows
apply_rows-cons i line rows lines h = ground arith

-- The patches of the rows behind `pre`, applied to the whole old screen.
diff_rows-apply_rows :
    (pre ps ns : List Bytes)
    → length ps ≡ length ns
    → AppliesFrom (length pre) ps ns (pre ++ ps) (pre ++ ns)
unfolding AppliesFrom diff_rows apply_rows
diff_rows-apply_rows pre [] [] h = refl
diff_rows-apply_rows pre [] (n ∷ ns) h = absurd (omega arith)
diff_rows-apply_rows pre (p ∷ ps) [] h = absurd (omega arith)
diff_rows-apply_rows pre (p ∷ ps) (n ∷ ns) h =
    let later = regroup pre ps ns n (diff_rows-apply_rows (pre ++ n ∷ []) ps ns (omega arith)) in
    elim (Bool-cases (bytes_eq p n)) [
      | inl e ↦ rw e (rw ((bytes_eq_iff p n).0 e) later)
      | inr e ↦ rw e (
          apply_rows-cons (length pre) n _ _ (leb-length pre p ps)
          ∙ rw (set-append pre p n ps) later)
    ]

module _ (prev next : Bytes) where
  diff_rows_applied :
      length (split prev) ≡ length (split next)
      → apply_rows (diff_rows 0 (split prev) (split next)) (split prev) ≡ some (split next)
  unfolding AppliesFrom
  diff_rows_applied = diff_rows-apply_rows [] (split prev) (split next)

  -- Screens with no row that differs are one screen.
  diff_rows-ne-nil :
      length (split prev) ≡ length (split next)
      → bytes_eq prev next ≡ false
      → diff_rows 0 (split prev) (split next) ≢ []
  unfolding apply_rows
  diff_rows-ne-nil h ne e =
      let same : split prev ≡ split next = cc (rw e at (diff_rows_applied h)) in
      cc ((bytes_eq_iff prev next).1 (sym (join-split prev) ∙ ap join same ∙ join-split next))

  -- A difference is the whole new screen, or rows that give the new screen when they are applied
  -- to the old one.
  pub diff_screen-apply_screen :
      {replace : Bytes} {rows : List RowPatch}
      → diff_screen prev next ≡ (false, replace, rows)
      → ((replace ≡ next) × (rows ≡ []))
        ⊎ ((replace ≡ []) × (rows ≢ []) × (apply_screen prev [] rows ≡ some next))
  unfolding diff_screen apply_screen
  diff_screen-apply_screen e = ground (arith, diff_rows_applied, diff_rows-ne-nil, join-split next)
