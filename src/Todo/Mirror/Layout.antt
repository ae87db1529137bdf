-- ===== src/Todo/Mirror/Layout.antt =====
-- `snapshotOrder` of internal/todo/mirror.go, over the indices of the items: existing items are
-- numbered from 0, added ones after them.
pub mod Once
use aiman.Base.{
  ℕ, ◌+◌, Bool, true, false, ◌&&◌, List, [], ◌∷◌, ◌++◌, Option, none, some, ltb, ◌==◌,
  if◌then◌else◌,
}

-- `a == b`, where the start is `none`.
abbrev pub same_anchor : Option ℕ → Option ℕ → Bool
same_anchor none none = true
same_anchor (some a) (some b) = a == b
same_anchor _ _ = false

-- `after[k]`: the kept items, from `i` on, whose nearest anchor before them is `k`; `cur` is the
-- anchor so far.
unfoldable pub kept_after : Option ℕ → Option ℕ → ℕ → List Bool → List ℕ
kept_after k cur i [] = []
kept_after k cur i (true ∷ anchor) = kept_after k (some i) (i + 1) anchor
kept_after k cur i (false ∷ anchor) =
    let rest = kept_after k cur (i + 1) anchor in if same_anchor k cur then i ∷ rest else rest

-- The ordered items, each with the kept ones that follow it; `n` is the number of existing items.
unfoldable pub follow_kept : ℕ → List Bool → List ℕ → List ℕ
unfolding kept_after
follow_kept n anchor [] = []
follow_kept n anchor (k ∷ ordered) =
    k ∷ (if ltb k n then kept_after (some k) none 0 anchor else []) ++ follow_kept n anchor ordered

unfoldable pub layout : ℕ → List Bool → List ℕ → List ℕ
unfolding follow_kept kept_after
layout n anchor ordered = kept_after none none 0 anchor ++ follow_kept n anchor ordered
