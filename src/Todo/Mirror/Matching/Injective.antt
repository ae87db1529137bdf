-- ===== src/Todo/Mirror/Matching/Injective.antt =====
-- The matching gives an item to at most one entry, and marks just the items that it gives.
use aiman.Base.{
  ℕ, zero, suc, ◌+◌, ◌≤◌, ◌<◌, ◌≡◌, ◌∙◌, ◌⊎◌, inl, inr, refl, true, false, not, ◌&&◌, List, [], ◌∷◌,
  Option, none, some, ◌==◌, if◌then◌else◌, length, get_elem?, set, arith, Bool-cases, Option-cases,
  if-elim,
}
use aiman.Base.Text.{Bytes}
use aiman.Todo.Types.{TodoItem}
use aiman.Todo.Normalize.{Unicode}
use aiman.Todo.Store.{Retext}
use aiman.Todo.Change.{last_at}
use aiman.Todo.Mirror.Matching.{
  SnapEntry, Norms, Match, Pair, holds_index, taken, pair_up, find_exact, pair_found, exact_pass,
  is_free, pair_pass, unmatched, norms_of, sort_pairs, all_pairs, match_snapshot, find_retext,
  match_retexts,
}

-- How often an item is given.
abbrev pub given : ℕ → List (Option ℕ) → ℕ
given j [] = 0
given j (none ∷ match) = given j match
given j (some k ∷ match) = (if j == k then 1 else 0) + given j match

-- Of `entries` entries each has its place, and an item is given once if it is taken, and else never.
pub record IsMatching (entries : ℕ) (m : Match) : Type 0 where
  pub sized : length m.match ≡ entries
  pub paired : (j : ℕ) → given j m.match ≡ (if taken j m then 1 else 0)

given-set :
    (j si ei : ℕ) (match : List (Option ℕ))
    → get_elem? match si ≡ some none
    → given j (set match si (some ei)) ≡ (if j == ei then 1 else 0) + given j match
given-set j si ei [] e = cc
given-set j zero ei (none ∷ match) e = refl
given-set j zero ei (some k ∷ match) e = ground arith
given-set j (suc si) ei (none ∷ match) e = given-set j si ei match e
given-set j (suc si) ei (some k ∷ match) e = omega (arith, given-set j si ei match e)

pub length-set : {A : Type 0} (xs : List A) (i : ℕ) (v : A) → length (set xs i v) ≡ length xs
length-set [] i v = refl
length-set (x ∷ xs) zero v = omega arith
length-set (x ∷ xs) (suc i) v = omega (arith, length-set xs i v)

get_elem?-set_other :
    {A : Type 0} (xs : List A) (i k : ℕ) (v : A)
    → (k == i) ≡ false
    → get_elem? (set xs i v) k ≡ get_elem? xs k
get_elem?-set_other [] i k v ne = refl
get_elem?-set_other (x ∷ xs) zero zero v ne = ground arith
get_elem?-set_other (x ∷ xs) zero (suc k) v ne = refl
get_elem?-set_other (x ∷ xs) (suc i) zero v ne = refl
get_elem?-set_other (x ∷ xs) (suc i) (suc k) v ne = get_elem?-set_other xs i k v (ground arith)

pair_up-IsMatching :
    (entries si ei : ℕ) (m : Match)
    → get_elem? m.match si ≡ some none
    → taken ei m ≡ false
    → IsMatching entries m
    → IsMatching entries (pair_up si ei m)
unfolding pair_up
pair_up-IsMatching entries si ei m free untaken v = record {
  sized = omega (arith, length-set m.match si (some ei), v.sized);
  paired = λ j. paired_at j (Bool-cases (j == ei));
}
  where
    same_taken : (j : ℕ) → (j == ei) ≡ true → taken j m ≡ false
    same_taken j e = let eq : j ≡ ei = ground arith in rw eq untaken

    paired_at :
        (j : ℕ)
        → ((j == ei) ≡ true) ⊎ ((j == ei) ≡ false)
        → given j (set m.match si (some ei)) ≡ (if holds_index j (ei ∷ m.used) then 1 else 0)
    paired_at j (inl e) = ground (arith, given-set j si ei m.match free, v.paired j, same_taken j e)
    paired_at j (inr e) = ground (arith, given-set j si ei m.match free, v.paired j)

is_free-eq : (si : ℕ) (m : Match) → is_free si m ≡ true → get_elem? m.match si ≡ some none
is_free-eq si m e = ground arith

find_exact-untaken :
    (norm : Bytes) (i : ℕ) (norms : List Norms) (m : Match) {ei : ℕ}
    → find_exact norm i norms m ≡ some ei
    → taken ei m ≡ false
unfolding find_exact
find_exact-untaken norm i [] m e = cc
find_exact-untaken norm i (n ∷ norms) m {ei} e =
    ground (arith, find_exact-untaken norm (i + 1) norms m {ei = ei})

find_retext-untaken :
    (items : List TodoItem) (norm : Bytes) (retexts : List Retext) (m : Match) {ei : ℕ}
    → find_retext items norm retexts m ≡ some ei
    → taken ei m ≡ false
unfolding find_retext
find_retext-untaken items norm [] m e = cc
find_retext-untaken items norm (r ∷ retexts) m {ei} e = elim (Option-cases (last_at 0 r.id items)) [
  | inl f ↦ ground (arith, find_retext-untaken items norm retexts m {ei = ei})
  | inr ((k, it), f) ↦ ground (arith, find_retext-untaken items norm retexts m {ei = ei})
]

pair_pass-IsMatching :
    (entries : ℕ) (pairs : List Pair) (m : Match)
    → IsMatching entries m
    → IsMatching entries (pair_pass pairs m)
unfolding pair_pass
pair_pass-IsMatching entries [] m v = v
pair_pass-IsMatching entries (p ∷ pairs) m v =
    pair_pass-IsMatching entries pairs
      (if is_free p.si m && not (taken p.ei m) then pair_up p.si p.ei m else m)
      (if-elim (IsMatching entries) (is_free p.si m && not (taken p.ei m))
        (λ e.
          pair_up-IsMatching entries p.si p.ei m (is_free-eq p.si m (ground arith)) (ground arith)
            v)
        (λ _. v))

-- The places from `si` on are free.
abbrev IsFresh : ℕ → ℕ → Match → Type 0
IsFresh entries si m = (k : ℕ) → si ≤ k → k < entries → get_elem? m.match k ≡ some none

pair_found-IsMatching :
    (entries si : ℕ) (o : Option ℕ) (m : Match)
    → get_elem? m.match si ≡ some none
    → ((ei : ℕ) → o ≡ some ei → taken ei m ≡ false)
    → IsMatching entries m
    → IsMatching entries (pair_found si o m)
pair_found-IsMatching entries si none m free untaken v = v
pair_found-IsMatching entries si (some ei) m free untaken v =
    pair_up-IsMatching entries si ei m free (untaken ei refl) v

pair_found-IsFresh :
    (entries si : ℕ) (o : Option ℕ) (m : Match)
    → IsFresh entries si m
    → IsFresh entries (si + 1) (pair_found si o m)
unfolding pair_up
pair_found-IsFresh entries si none m fresh k l r = fresh k (omega arith) r
pair_found-IsFresh entries si (some ei) m fresh k l r =
    get_elem?-set_other m.match si k (some ei) (ground arith) ∙ fresh k (omega arith) r

exact_pass-IsMatching :
    (entries : ℕ) (norms : List Norms) (si : ℕ) (rest : List SnapEntry) (m : Match)
    → si + length rest ≡ entries
    → IsFresh entries si m
    → IsMatching entries m
    → IsMatching entries (exact_pass norms si rest m)
unfolding exact_pass
exact_pass-IsMatching entries norms si [] m eq fresh v = v
exact_pass-IsMatching entries norms si (e ∷ rest) m eq fresh v =
    let found = find_exact e.norm 0 norms m in
    exact_pass-IsMatching entries norms (si + 1) rest (pair_found si found m) (omega arith)
      (pair_found-IsFresh entries si found m fresh)
      (pair_found-IsMatching entries si found m (fresh si (omega arith) (omega arith))
        (λ ei h. find_exact-untaken e.norm 0 norms m {ei = ei} h) v)

length-unmatched : (entries : List SnapEntry) → length (unmatched entries) ≡ length entries
length-unmatched [] = refl
length-unmatched (e ∷ entries) = omega (arith, length-unmatched entries)

get_elem?-unmatched :
    (entries : List SnapEntry) (k : ℕ)
    → k < length entries
    → get_elem? (unmatched entries) k ≡ some none
get_elem?-unmatched [] k l = absurd (omega arith)
get_elem?-unmatched (e ∷ entries) zero l = refl
get_elem?-unmatched (e ∷ entries) (suc k) l = get_elem?-unmatched entries k (omega arith)

given-unmatched : (j : ℕ) (entries : List SnapEntry) → given j (unmatched entries) ≡ 0
given-unmatched j [] = refl
given-unmatched j (e ∷ entries) = given-unmatched j entries

match_snapshot-IsMatching :
    (u : Unicode) (items : List TodoItem) (entries : List SnapEntry)
    → IsMatching (length entries) (match_snapshot u items entries)
unfolding match_snapshot
match_snapshot-IsMatching u items entries =
    let n = length entries in
    let norms = norms_of u items in
    let m : Match = record { match = unmatched entries; used = [] } in
    let exact = exact_pass norms 0 entries m in
    pair_pass-IsMatching n (sort_pairs (all_pairs 0 entries norms exact)) exact (
      exact_pass-IsMatching n norms 0 entries m (omega arith)
        (λ k l r. get_elem?-unmatched entries k r)
        (record { sized = length-unmatched entries; paired = λ j. given-unmatched j entries }))

match_retexts-IsMatching :
    (entries : ℕ) (items : List TodoItem) (retexts : List Retext) (si : ℕ) (rest : List SnapEntry)
    (m : Match)
    → IsMatching entries m
    → IsMatching entries (match_retexts items retexts si rest m)
unfolding match_retexts
match_retexts-IsMatching entries items retexts si [] m v = v
match_retexts-IsMatching entries items retexts si (e ∷ rest) m v =
    let found = find_retext items e.norm retexts m in
    match_retexts-IsMatching entries items retexts (si + 1) rest
      (if is_free si m then pair_found si found m else m)
      (if-elim (IsMatching entries) (is_free si m)
        (λ f.
          pair_found-IsMatching entries si found m (is_free-eq si m f)
            (λ ei h. find_retext-untaken items e.norm retexts m {ei = ei} h) v)
        (λ _. v))

-- The whole matching of a merge: every entry has its place, an item is given to at most one entry, and
-- the items marked as matched are just those that are given.
pub match_all-IsMatching :
    (u : Unicode) (items : List TodoItem) (retexts : List Retext) (entries : List SnapEntry)
    → IsMatching
        (length entries)
        (match_retexts items retexts 0 entries (match_snapshot u items entries))
match_all-IsMatching u items retexts entries =
    match_retexts-IsMatching (length entries) items retexts 0 entries
      (match_snapshot u items entries) (match_snapshot-IsMatching u items entries)
