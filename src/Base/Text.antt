-- ===== src/Base/Text.antt =====
-- Text as bytes: `strings.Split` and `strings.Join` at newlines, and `==` on byte strings.
use Prim.Native.Nat.{ℕ}
use mathlib.Core.Path.{◌≡◌, refl, ap, ◌∙◌}
use mathlib.Core.Logic.{◌↔◌, ◌≢◌, inl, inr}
use mathlib.Core.Bool.{Bool, true, false}
use mathlib.Core.List.{List, [], ◌∷◌, ◌++◌}
use native.Mathlib.Omega.{arith}
use Prim.Native.Char.{code}
use Prim.Native.String.{String}
use aiman.Base.Tests.{◌==◌, ==_iff, if◌then◌else◌, Bool-cases}
use aiman.Base.Lists.{All, list_eq, list_eq_iff}

abbrev pub Bytes : Type 0
Bytes = List ℕ

-- The code points of a text: its bytes, if it is ASCII.
abbrev pub codes : String → Bytes
codes String.[] = []
codes (String.◌∷◌ c s) = code c ∷ codes s

abbrev pub bytes_eq : Bytes → Bytes → Bool
bytes_eq = list_eq ◌==◌

pub bytes_eq_iff : (a b : Bytes) → (bytes_eq a b ≡ true) ↔ (a ≡ b)
bytes_eq_iff = list_eq_iff ◌==◌ ==_iff

abbrev pub lines_eq : List Bytes → List Bytes → Bool
lines_eq = list_eq bytes_eq

pub lines_eq_iff : (a b : List Bytes) → (lines_eq a b ≡ true) ↔ (a ≡ b)
lines_eq_iff = list_eq_iff bytes_eq bytes_eq_iff

abbrev newline : ℕ
newline = b'\n'

abbrev pub push_first : ℕ → List Bytes → List Bytes
push_first c [] = (c ∷ []) ∷ []
push_first c (l ∷ ls) = (c ∷ l) ∷ ls

-- `strings.Split(s, "\n")`: at least one line.
unfoldable pub split : Bytes → List Bytes
split [] = [] ∷ []
split (c ∷ cs) = let rest = split cs in if c == newline then [] ∷ rest else push_first c rest

-- `strings.Join(lines, "\n")`.
unfoldable pub join : List Bytes → Bytes
join [] = []
join (l ∷ []) = l
join (l ∷ m ∷ ls) = l ++ newline ∷ join (m ∷ ls)

-- The line holds no newline.
abbrev pub IsLine : Bytes → Type 0
IsLine = All (λ c. (c == newline) ≡ false)

pub push_first-ne-nil : (c : ℕ) (ls : List Bytes) → push_first c ls ≢ []
push_first-ne-nil c ls = ground arith

pub split-ne-nil : (s : Bytes) → split s ≢ []
unfolding split
split-ne-nil [] = ground arith
split-ne-nil (c ∷ cs) = ground (arith, push_first-ne-nil c (split cs))

push_first-IsLine :
    (c : ℕ) (ls : List Bytes)
    → (c == newline) ≡ false
    → All IsLine ls
    → All IsLine (push_first c ls)
push_first-IsLine c [] e h = ((e, tt), tt)
push_first-IsLine c (l ∷ ls) e h = ((e, h.0), h.1)

pub split-IsLine : (s : Bytes) → All IsLine (split s)
unfolding split
split-IsLine [] = (tt, tt)
split-IsLine (c ∷ cs) = elim (Bool-cases (c == newline)) [
  | inl e ↦ rw e (tt, split-IsLine cs)
  | inr e ↦ rw e (push_first-IsLine c (split cs) e (split-IsLine cs))
]

join-cons_nil : (ls : List Bytes) → ls ≢ [] → join ([] ∷ ls) ≡ newline ∷ join ls
unfolding join
join-cons_nil [] h = absurd (h refl)
join-cons_nil (l ∷ ls) h = refl

join-push_first : (c : ℕ) (ls : List Bytes) → join (push_first c ls) ≡ c ∷ join ls
unfolding join
join-push_first c [] = refl
join-push_first c (l ∷ []) = refl
join-push_first c (l ∷ m ∷ ls) = refl

pub join-split : (s : Bytes) → join (split s) ≡ s
unfolding split
join-split [] = unfold join in refl
join-split (c ∷ cs) =
    ground (
      arith,
      join-cons_nil (split cs) (split-ne-nil cs),
      join-push_first c (split cs),
      join-split cs,
    )

-- A text that ends its first line with `rest`'s lines behind it.
split-line : (l rest : Bytes) → IsLine l → split (l ++ newline ∷ rest) ≡ l ∷ split rest
unfolding split
split-line [] rest h = refl
split-line (c ∷ l) rest h = ground (arith, split-line l rest h.1)

split-single : (l : Bytes) → IsLine l → split l ≡ l ∷ []
unfolding split
split-single [] h = refl
split-single (c ∷ l) h = ground (arith, split-single l h.1)

pub split-join : (ls : List Bytes) → ls ≢ [] → All IsLine ls → split (join ls) ≡ ls
unfolding join
split-join [] ne h = absurd (ne refl)
split-join (l ∷ []) ne h = split-single l h.0
split-join (l ∷ m ∷ ls) ne h =
    split-line l (join (m ∷ ls)) h.0 ∙ ap (◌∷◌ l) (split-join (m ∷ ls) (λ e. cc) h.1)
