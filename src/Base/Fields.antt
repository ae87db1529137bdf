-- ===== src/Base/Fields.antt =====
-- `strings.Join(strings.Fields(s), " ")`, over code points.
use Prim.Native.Nat.{ℕ}
use mathlib.Core.Path.{◌≡◌, refl}
use mathlib.Core.Bool.{Bool, true, false}
use mathlib.Core.List.{List, [], ◌∷◌, ◌++◌}
use aiman.Base.Tests.{if◌then◌else◌}
use aiman.Base.Space.{is_space}
use aiman.Base.Text.{Bytes}

-- `word` says that a word is being read, and `first` that none has been written yet.
unfoldable pub join_fields : Bool → Bool → Bytes → Bytes
join_fields first word [] = []
join_fields first word (c ∷ cs) = elim (is_space c) [
  | true ↦ join_fields first false cs
  | false ↦
      (if word then [] else if first then [] else b' ' ∷ []) ++ (c ∷ join_fields false true cs)
]

unfoldable pub fields_joined : Bytes → Bytes
unfolding join_fields
fields_joined = join_fields true false

-- `strings.TrimSpace`, over code points.
unfoldable pub trim_left : Bytes → Bytes
trim_left [] = []
trim_left (c ∷ cs) = if is_space c then trim_left cs else c ∷ cs

unfoldable pub trim_right : Bytes → Bytes
trim_right [] = []
trim_right (c ∷ cs) = elim (trim_right cs) [
  | [] ↦ if is_space c then [] else c ∷ []
  | d ∷ ds ↦ c ∷ d ∷ ds
]

unfoldable pub trim : Bytes → Bytes
unfolding trim_left trim_right
trim s = trim_right (trim_left s)

trim_right-last :
    (xs : Bytes) (c : ℕ) → is_space c ≡ false → trim_right (xs ++ c ∷ []) ≡ xs ++ c ∷ []
unfolding trim_right
trim_right-last [] c e = rw e refl
trim_right-last (x ∷ []) c e = rw (trim_right-last [] c e, trim_right) refl
trim_right-last (x ∷ y ∷ xs) c e = rw (trim_right-last (y ∷ xs) c e, trim_right) refl

-- Nothing is trimmed where no white space is at either end.
pub trim_none :
    (a : ℕ) (xs : Bytes) (c : ℕ)
    → is_space a ≡ false
    → is_space c ≡ false
    → trim (a ∷ xs ++ c ∷ []) ≡ a ∷ xs ++ c ∷ []
unfolding trim trim_left
trim_none a xs c p q = rw p (trim_right-last (a ∷ xs) c q)

-- `strings.Fields`, over code points; `word` is the one that is being read.
unfoldable pub fields_from : Bytes → Bytes → List Bytes
fields_from [] [] = []
fields_from (w ∷ ws) [] = (w ∷ ws) ∷ []
fields_from [] (c ∷ cs) =
    let rest = fields_from [] cs in
    let more = fields_from (c ∷ []) cs in if is_space c then rest else more
fields_from (w ∷ ws) (c ∷ cs) =
    let rest = fields_from [] cs in
    let more = fields_from (w ∷ ws ++ c ∷ []) cs in if is_space c then (w ∷ ws) ∷ rest else more

unfoldable pub fields : Bytes → List Bytes
unfolding fields_from
fields s = fields_from [] s
