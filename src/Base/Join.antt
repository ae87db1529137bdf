-- ===== src/Base/Join.antt =====
-- Texts joined: `+` of strings, and `strings.Join`.
use Prim.Native.String.{String, ◌++◌ as joined}
use mathlib.Core.List.{List, [], ◌∷◌}

infixr 5 ◌<>◌
abbrev pub ◌<>◌ : String → String → String
s <> t = joined s t

unfoldable pub join_with : String → List String → String
join_with sep [] = ""
join_with sep (s ∷ []) = s
join_with sep (s ∷ t ∷ texts) = s <> sep <> join_with sep (t ∷ texts)
