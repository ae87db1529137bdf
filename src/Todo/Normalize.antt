-- ===== src/Todo/Normalize.antt =====
-- `Normalize` of internal/todo/mirror.go, over code points. The two tables of the package unicode
-- are a parameter.
use aiman.Base.{ℕ, Bool, [], ◌∷◌, String, if◌then◌else◌}
use aiman.Base.Fields.{fields_joined}
use aiman.Base.Text.{Bytes, codes}

pub record Unicode : Type 0 where
  pub is_punct : ℕ → Bool
  pub to_lower : ℕ → ℕ

module _ (u : Unicode) where
  open u use {is_punct, to_lower}

  strip : Bytes → Bytes
  strip [] = []
  strip (c ∷ cs) = let rest = strip cs in if is_punct c then rest else to_lower c ∷ rest

unfoldable pub normalize : Unicode → String → Bytes
unfolding strip
normalize u text = fields_joined (strip u (codes text))
