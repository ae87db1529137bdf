-- ===== src/Agents/Price/Longest.antt =====
-- What a model gets from the table.
use aiman.Base.{
  ℕ, ◌≤◌, ◌≡◌, ◌≢◌, ◌⊎◌, not, ◌||◌, List, [], ◌∷◌, ◌++◌, Option, none, some, length, ltb, All,
  if◌then◌else◌,
}
use aiman.Base.Text.{Bytes}
use aiman.Agents.Price.{Price, Row, extends, best_len, lookup}

-- The model is the key of the row, a "-", and more or nothing.
abbrev pub Extends : {R : Type 0} → Bytes → Row R → Type 0
Extends model r = (rest : Bytes) × (model ≡ r.key ++ b'-' ∷ rest)

abbrev pub IsIn : {R : Type 0} → Row R → List (Row R) → Type 0
IsIn r [] = ⊥
IsIn r (k ∷ table) = (k ≡ r) ⊎ IsIn r table

-- The id has an "@"; or it has none.
abbrev pub HasAt : Bytes → Type 0
HasAt model = (before : Bytes) × (after : Bytes) × (model ≡ before ++ b'@' ∷ after)

abbrev pub NoAt : Bytes → Type 0
NoAt = All (λ c. c ≢ b'@')

module _ {R : Type 0} (model : Bytes) where
  -- A row that the model extends, with a key that is not empty; no such row has a longer key.
  abbrev pub NoLonger : ℕ → List (Row R) → Type 0
  NoLonger n = All (λ k. Extends model k → length k.key ≤ n)

  abbrev pub IsLongest : Row R → List (Row R) → Type 0
  IsLongest r table = IsIn r table × Extends model r × (r.key ≢ []) × NoLonger (length r.key) table

  -- The best row so far: there is none, or it is as long as the model can extend.
  abbrev Fits : List (Row R) → Option (Row R) → Type 0
  Fits seen none = Unit
  Fits seen (some r) = IsIn r seen × Extends model r × (1 ≤ length r.key)

  better : Row R → Option (Row R) → Option (Row R)
  better r best =
      if not (extends model r) || not (ltb (best_len best) (length r.key)) then best else some r

  -- No row has the id as its key. Either the id has an "@", or no row with a key that is not empty is
  -- one that it extends, and there is no price; or a longest row that it extends gives it.
  abbrev pub ByPrefix : List (Row R) → Type 0
  ByPrefix table =
      All (λ r. r.key ≢ model) table
      × (((HasAt model ⊎ NoLonger 0 table) × (lookup table model ≡ none))
          ⊎ (NoAt model
              × (r : Row R) × IsLongest r table
              × (lookup table model ≡ (if r.price.confirmed then some r.price else none))))
