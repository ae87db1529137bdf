-- ===== src/Agents/Price.antt =====
-- internal/usage/price.go: the price of a model, by its id or by the longest id that it extends. The
-- five rates of a row are carried along as they are. A map is a list of its entries in the order in
-- which a loop meets them.
pub mod Longest
use aiman.Base.{
  ℕ, Bool, true, false, not, ◌&&◌, ◌||◌, List, [], ◌∷◌, ◌++◌, Option, none, some, length, ltb, ◌==◌,
  if◌then◌else◌,
}
use aiman.Base.Text.{Bytes, bytes_eq}

pub record Price (R : Type 0) : Type 0 where
  pub rates : R
  pub confirmed : Bool
  pub estimated : Bool

pub record Row (R : Type 0) : Type 0 where
  pub key : Bytes
  pub price : Price R

-- `strings.HasPrefix` with the prefix first.
abbrev pub has_prefix : Bytes → Bytes → Bool
has_prefix [] s = true
has_prefix (c ∷ cs) [] = false
has_prefix (c ∷ cs) (d ∷ ds) = c == d && has_prefix cs ds

abbrev pub has_at : Bytes → Bool
has_at [] = false
has_at (c ∷ cs) = c == b'@' || has_at cs

module _ {R : Type 0} where
  unfoldable pub find_key : Bytes → List (Row R) → Option (Price R)
  find_key model [] = none
  find_key model (r ∷ table) = if bytes_eq r.key model then some r.price else find_key model table

  -- `strings.HasPrefix(model, k+"-")`
  abbrev pub extends : Bytes → Row R → Bool
  extends model r = has_prefix (r.key ++ b'-' ∷ []) model

  -- `len(bestKey)`, which is 0 before a hit.
  abbrev pub best_len : Option (Row R) → ℕ
  best_len none = 0
  best_len (some r) = length r.key

  -- The loop: the best row so far is replaced by a longer one.
  unfoldable pub longest : Bytes → List (Row R) → Option (Row R) → Option (Row R)
  longest model [] best = best
  longest model (r ∷ table) best =
      longest model table
        (if not (extends model r) || not (ltb (best_len best) (length r.key)) then best else some r)

  abbrev pub if_confirmed : Price R → Option (Price R)
  if_confirmed p = if p.confirmed then some p else none

  unfoldable pub lookup : List (Row R) → Bytes → Option (Price R)
  unfolding find_key longest
  lookup table model = elim (find_key model table) [
    | some p ↦ if_confirmed p
    | none ↦
        if has_at model
        then none
        else elim (longest model table none) [ some r ↦ if_confirmed r.price | none ↦ none ]
  ]
