-- ===== src/Todo/Mirror/Layout/Once.antt =====
-- A layout names every item once.
use aiman.Base.{
  ℕ, zero, suc, ◌+◌, ◌≤◌, ◌<◌, ◌≡◌, ap, sym, ◌∙◌, ◌⊎◌, inl, inr, refl, Bool, true, false, List, [],
  ◌∷◌, ◌++◌, Option, none, some, ltb, ◌==◌, if◌then◌else◌, length, get_elem?, get_elem?-some, arith,
  Bool-cases, if-elim,
}
use aiman.Todo.Mirror.Layout.{same_anchor, kept_after, follow_kept, layout}

-- How often an index stands in a list.
abbrev pub times : ℕ → List ℕ → ℕ
times j [] = 0
times j (k ∷ ks) = (if j == k then 1 else 0) + times j ks

pub times-append : (j : ℕ) (xs ys : List ℕ) → times j (xs ++ ys) ≡ times j xs + times j ys
times-append j [] ys = omega arith
times-append j (x ∷ xs) ys = omega (arith, times-append j xs ys)

-- The flag at `j` of a list that starts at `i`.
abbrev flag_from : ℕ → ℕ → List Bool → Option Bool
flag_from j i [] = none
flag_from j i (f ∷ flags) = if j == i then some f else flag_from j (i + 1) flags

-- The anchor after which the item `j` is kept; none for an anchor itself, and outside the list.
abbrev place : ℕ → Option ℕ → ℕ → List Bool → Option (Option ℕ)
place j cur i [] = none
place j cur i (true ∷ flags) = place j (some i) (i + 1) flags
place j cur i (false ∷ flags) = if j == i then some cur else place j cur (i + 1) flags

abbrev hits : Option ℕ → Option (Option ℕ) → ℕ
hits k none = 0
hits k (some cur) = if same_anchor k cur then 1 else 0

place_before :
    (j : ℕ) (cur : Option ℕ) (i : ℕ) (flags : List Bool) → j < i → place j cur i flags ≡ none
place_before j cur i [] l = refl
place_before j cur i (true ∷ flags) l = place_before j (some i) (i + 1) flags (omega arith)
place_before j cur i (false ∷ flags) l = ground (arith, place_before j cur (i + 1) flags)

times-kept_after :
    (j : ℕ) (k cur : Option ℕ) (i : ℕ) (flags : List Bool)
    → times j (kept_after k cur i flags) ≡ hits k (place j cur i flags)
unfolding kept_after
times-kept_after j k cur i [] = refl
times-kept_after j k cur i (true ∷ flags) = times-kept_after j k (some i) (i + 1) flags
times-kept_after j k cur i (false ∷ flags) =
    let ih = times-kept_after j k cur (i + 1) flags in
    elim (Bool-cases (j == i)) [
      | inl e ↦ ground (arith, place_before j cur (i + 1) flags)
      | inr e ↦ ground arith
    ]

-- How often the items of `ordered` are followed by one that is placed so.
abbrev follows : ℕ → Option (Option ℕ) → List ℕ → ℕ
follows n w [] = 0
follows n w (k ∷ ordered) = (if ltb k n then hits (some k) w else 0) + follows n w ordered

times-follow_kept :
    (j n : ℕ) (flags : List Bool) (ordered : List ℕ)
    → times j (follow_kept n flags ordered)
      ≡ times j ordered + follows n (place j none 0 flags) ordered
unfolding follow_kept
times-follow_kept j n flags [] = omega arith
times-follow_kept j n flags (k ∷ ordered) =
    let ih = times-follow_kept j n flags ordered in
    let own = times-kept_after j (some k) none 0 flags in
    ground (arith, times-append j (kept_after (some k) none 0 flags) (follow_kept n flags ordered))

follows-none : (n : ℕ) (ordered : List ℕ) → follows n none ordered ≡ 0
follows-none n [] = refl
follows-none n (k ∷ ordered) = ground (arith, follows-none n ordered)

follows-first : (n : ℕ) (ordered : List ℕ) → follows n (some none) ordered ≡ 0
follows-first n [] = refl
follows-first n (k ∷ ordered) = ground (arith, follows-first n ordered)

follows-some :
    (n a : ℕ) (ordered : List ℕ) → a < n → follows n (some (some a)) ordered ≡ times a ordered
follows-some n a [] l = refl
follows-some n a (k ∷ ordered) l = ground (arith, follows-some n a ordered l)

-- What a place says of the flags.
abbrev IsPlaced : ℕ → Option ℕ → ℕ → List Bool → Option (Option ℕ) → Type 0
IsPlaced j cur i flags none = (flag_from j i flags ≡ none) ⊎ (flag_from j i flags ≡ some true)
IsPlaced j cur i flags (some none) = flag_from j i flags ≡ some false
IsPlaced j cur i flags (some (some a)) =
    (flag_from j i flags ≡ some false)
    × ((cur ≡ some a) ⊎ ((i ≤ a) × (flag_from a i flags ≡ some true)))

flag_before : (j i : ℕ) (flags : List Bool) → j < i → flag_from j i flags ≡ none
flag_before j i [] l = refl
flag_before j i (f ∷ flags) l = ground (arith, flag_before j (i + 1) flags)

IsPlaced-anchor :
    (j : ℕ) (cur : Option ℕ) (i : ℕ) (flags : List Bool) (w : Option (Option ℕ))
    → IsPlaced j (some i) (i + 1) flags w
    → IsPlaced j cur i (true ∷ flags) w
IsPlaced-anchor j cur i flags none (inl h) = elim (Bool-cases (j == i)) [
  | inl e ↦ inr (ground arith)
  | inr e ↦ inl (ground arith)
]
IsPlaced-anchor j cur i flags none (inr h) = inr (ground arith)
IsPlaced-anchor j cur i flags (some none) h = ground (arith, flag_before j (i + 1) flags)
IsPlaced-anchor j cur i flags (some (some a)) (h, inl e) =
    (ground (arith, flag_before j (i + 1) flags), inr (ground arith))
IsPlaced-anchor j cur i flags (some (some a)) (h, inr (l, e)) =
    (ground (arith, flag_before j (i + 1) flags), inr (omega arith, ground arith))

IsPlaced-kept :
    (j : ℕ) (cur : Option ℕ) (i : ℕ) (flags : List Bool) (w : Option (Option ℕ))
    → (j == i) ≡ false
    → IsPlaced j cur (i + 1) flags w
    → IsPlaced j cur i (false ∷ flags) w
IsPlaced-kept j cur i flags none ne (inl h) = inl (ground arith)
IsPlaced-kept j cur i flags none ne (inr h) = inr (ground arith)
IsPlaced-kept j cur i flags (some none) ne h = ground arith
IsPlaced-kept j cur i flags (some (some a)) ne (h, inl e) = (ground arith, inl e)
IsPlaced-kept j cur i flags (some (some a)) ne (h, inr (l, e)) =
    (ground arith, inr (omega arith, ground arith))

IsPlaced-here :
    (j : ℕ) (cur : Option ℕ) (i : ℕ) (flags : List Bool)
    → (j == i) ≡ true
    → IsPlaced j cur i (false ∷ flags) (some cur)
IsPlaced-here j none i flags e = ground arith
IsPlaced-here j (some a) i flags e = (ground arith, inl refl)

place-IsPlaced :
    (j : ℕ) (cur : Option ℕ) (i : ℕ) (flags : List Bool)
    → IsPlaced j cur i flags (place j cur i flags)
place-IsPlaced j cur i [] = inl refl
place-IsPlaced j cur i (true ∷ flags) =
    IsPlaced-anchor j cur i flags (place j (some i) (i + 1) flags)
      (place-IsPlaced j (some i) (i + 1) flags)
place-IsPlaced j cur i (false ∷ flags) =
    if-elim (IsPlaced j cur i (false ∷ flags)) (j == i) (IsPlaced-here j cur i flags) (λ ne.
      IsPlaced-kept j cur i flags (place j cur (i + 1) flags) ne
        (place-IsPlaced j cur (i + 1) flags))

flag_from-get_elem? : (k i : ℕ) (flags : List Bool) → flag_from (k + i) i flags ≡ get_elem? flags k
flag_from-get_elem? k i [] = refl
flag_from-get_elem? zero i (f ∷ flags) = ground arith
flag_from-get_elem? (suc k) i (f ∷ flags) =
    let e : suc k + i ≡ k + (i + 1) = omega arith in
    let same = ap (λ t. flag_from t (i + 1) flags) e in
    let ih = flag_from-get_elem? k (i + 1) flags in ground arith

flag_from_start : (j : ℕ) (flags : List Bool) → flag_from j 0 flags ≡ get_elem? flags j
flag_from_start j flags =
    let e : j ≡ j + 0 = omega arith in
    ap (λ t. flag_from t 0 flags) e ∙ flag_from-get_elem? j 0 flags

-- Of the existing items, `ordered` has those with a flag, and then the added ones up to `total`:
-- each once.
abbrev pub IsOrder : List Bool → ℕ → List ℕ → Type 0
IsOrder flags total ordered =
    (j : ℕ)
    → times j ordered ≡ elim (get_elem? flags j) [
      | some f ↦ if f then 1 else 0
      | none ↦ if ltb j total then 1 else 0
    ]

module _ (flags : List Bool) (total : ℕ) (ordered : List ℕ) (j : ℕ) where
  times-layout :
      (w : Option (Option ℕ))
      → place j none 0 flags ≡ w
      → times j (layout (length flags) flags ordered)
        ≡ hits none w + (times j ordered + follows (length flags) w ordered)
  unfolding layout
  times-layout w e =
      let n = length flags in
      let sum : times j (kept_after none none 0 flags ++ follow_kept n flags ordered)
          ≡ hits none (place j none 0 flags)
            + (times j ordered + follows n (place j none 0 flags) ordered) =
        omega (
          arith,
          times-append j (kept_after none none 0 flags) (follow_kept n flags ordered),
          times-kept_after j none none 0 flags,
          times-follow_kept j n flags ordered,
        ) in
      rw e at sum

  times-order :
      {f : Bool}
      → IsOrder flags total ordered
      → flag_from j 0 flags ≡ some f
      → (times j ordered ≡ (if f then 1 else 0)) × (j < length flags)
  times-order order e =
      let at_j = sym (flag_from_start j flags) ∙ e in
      (ground (arith, order j), get_elem?-some flags j at_j)

  once_placed :
      (w : Option (Option ℕ))
      → length flags ≤ total
      → IsOrder flags total ordered
      → IsPlaced j none 0 flags w
      → hits none w + (times j ordered + follows (length flags) w ordered)
        ≡ (if ltb j total then 1 else 0)
  once_placed none room order (inl h) =
      let out = sym (flag_from_start j flags) ∙ h in
      ground (arith, order j, follows-none (length flags) ordered)
  once_placed none room order (inr h) =
      let (one, l) = times-order order h in ground (arith, follows-none (length flags) ordered)
  once_placed (some none) room order h =
      let (zero_times, l) = times-order order h in
      ground (arith, follows-first (length flags) ordered)
  once_placed (some (some a)) room order (h, inl e) = absurd (ground arith)
  once_placed (some (some a)) room order (h, inr (_, e)) =
      let (zero_times, l) = times-order order h in
      let at_a = sym (flag_from_start a flags) ∙ e in
      let l' = get_elem?-some flags a at_a in
      ground (arith, order a, follows-some (length flags) a ordered l')

-- Every index below `total` stands once in the layout, and no other does.
pub layout_once :
    (flags : List Bool) (total : ℕ) (ordered : List ℕ)
    → length flags ≤ total
    → IsOrder flags total ordered
    → (j : ℕ) → times j (layout (length flags) flags ordered) ≡ (if ltb j total then 1 else 0)
layout_once flags total ordered room order j =
    times-layout flags total ordered j (place j none 0 flags) refl
    ∙ once_placed flags total ordered j (place j none 0 flags) room order
        (place-IsPlaced j none 0 flags)
