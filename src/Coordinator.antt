-- ===== src/Coordinator.antt =====
-- internal/coordinator: the links of to-do items to sessions (branch.go), over code points.
pub mod Consult
pub mod Links
mod Tests
use aiman.Base.{ℕ, Bool, true, false, List, [], ◌∷◌, ◌++◌, Option, none, some, ◌==◌, if◌then◌else◌}
use aiman.Base.Text.{Bytes, codes}

-- `strings.CutPrefix`
unfoldable pub cut_prefix : Bytes → Bytes → Option Bytes
cut_prefix [] s = some s
cut_prefix (c ∷ prefix) [] = none
cut_prefix (c ∷ prefix) (d ∷ s) = let rest = cut_prefix prefix s in if c == d then rest else none

abbrev pub child_ref_prefix : Bytes
child_ref_prefix = codes "child:"

abbrev pub fixer_ref_prefix : Bytes
fixer_ref_prefix = codes "fixer:"

unfoldable pub child_branch : Bytes → Bytes → Bytes
child_branch parent_branch todo_id = parent_branch ++ codes "--" ++ todo_id

unfoldable pub child_ref : Bytes → Bytes
child_ref id = child_ref_prefix ++ id

unfoldable pub fixer_ref : Bytes → Bytes
fixer_ref id = fixer_ref_prefix ++ id

-- An id that is not empty.
abbrev pub proper : Option Bytes → Option Bytes
proper (some (c ∷ id)) = some (c ∷ id)
proper _ = none

unfoldable pub child_id : Bytes → Option Bytes
unfolding cut_prefix
child_id ref = proper (cut_prefix child_ref_prefix ref)

unfoldable pub fixer_id : Bytes → Option Bytes
unfolding cut_prefix
fixer_id ref = proper (cut_prefix fixer_ref_prefix ref)
