-- ===== src/Todo/Mirror/Matching.antt =====
-- The matching of internal/todo/mirror.go: which existing item a snapshot entry stands for. A
-- similarity is the fraction that the code rounds to a float; for texts of less than 2^25 words the
-- rounded fractions compare as the exact ones do.
pub mod Injective
use aiman.Base.{
  ℕ, ◌+◌, ◌-◌, ◌*◌, Bool, true, false, not, ◌&&◌, ◌||◌, List, [], ◌∷◌, ◌++◌, Option, none, some,
  String, str_eq, ltb, leb, ◌==◌, if◌then◌else◌, length, set, get_elem?,
}
use aiman.Base.Text.{Bytes, bytes_eq}
use aiman.Base.Fields.{fields}
use aiman.Base.Space.{trim_space}
use aiman.Todo.Types.{TodoState, TodoItem, TodoSnapshotItem, normalize_vendor_todo_status}
use aiman.Todo.Normalize.{Unicode, normalize}
use aiman.Todo.Store.{Retext}
use aiman.Todo.Change.{last_at}

pub record SnapEntry : Type 0 where
  pub text : String
  pub norm : Bytes
  pub state : TodoState

abbrev is_nil : Bytes → Bool
is_nil [] = true
is_nil (c ∷ cs) = false

-- Entries with no words are left out.
unfoldable pub entries_of : Unicode → List TodoSnapshotItem → List SnapEntry
entries_of u [] = []
entries_of u (s ∷ snap) =
    let norm = normalize u s.text in
    let rest = entries_of u snap in
    if is_nil norm
    then rest
    else record {
      text = trim_space s.text;
      norm = norm;
      state = normalize_vendor_todo_status s.status;
    }
      ∷ rest

abbrev has_word : Bytes → List Bytes → Bool
has_word w [] = false
has_word w (x ∷ xs) = bytes_eq x w || has_word w xs

-- A set of words: each once.
unfoldable pub word_set : List Bytes → List Bytes
word_set [] = []
word_set (w ∷ ws) = let rest = word_set ws in if has_word w rest then rest else w ∷ rest

unfoldable pub tokens : Bytes → List Bytes
unfolding word_set
tokens norm = word_set (fields norm)

unfoldable pub common : List Bytes → List Bytes → ℕ
common [] b = 0
common (w ∷ a) b = (if has_word w b then 1 else 0) + common a b

pub record Score : Type 0 where
  pub num : ℕ
  pub den : ℕ

unfoldable pub jaccard : List Bytes → List Bytes → Score
unfolding common
jaccard [] b = record { num = 0; den = 1 }
jaccard (w ∷ a) [] = record { num = 0; den = 1 }
jaccard (w ∷ a) (v ∷ b) =
    let inter = common (w ∷ a) (v ∷ b) in
    record { num = inter; den = length (w ∷ a) + length (v ∷ b) - inter }

-- `Similarity`
unfoldable similarity : Unicode → String → String → Score
unfolding tokens jaccard
similarity u a b = jaccard (tokens (normalize u a)) (tokens (normalize u b))

-- `s > t`
abbrev pub greater : Score → Score → Bool
greater s t = ltb (t.num * s.den) (s.num * t.den)

-- `score >= matchThreshold`
abbrev pub at_threshold : Score → Bool
at_threshold s = leb (4 * s.den) (5 * s.num)

-- The normalised texts of an existing item: as stored, and as last reported.
pub record Norms : Type 0 where
  pub norm : Bytes
  pub seen_norm : Bytes

unfoldable pub norms_of : Unicode → List TodoItem → List Norms
norms_of u [] = []
norms_of u (it ∷ items) =
    record {
      norm = normalize u it.text;
      seen_norm = elim it.seen [ none ↦ [] | some v ↦ normalize u v.text ];
    }
    ∷ norms_of u items

-- `match`, and the indices for which `taken` is set.
pub record Match : Type 0 where
  pub match : List (Option ℕ)
  pub used : List ℕ

abbrev pub holds_index : ℕ → List ℕ → Bool
holds_index i [] = false
holds_index i (x ∷ xs) = i == x || holds_index i xs

abbrev pub taken : ℕ → Match → Bool
taken i m = holds_index i m.used

-- `match[si], taken[ei] = ei, true`
unfoldable pub pair_up : ℕ → ℕ → Match → Match
pair_up si ei m = record { match = set m.match si (some ei); used = ei ∷ m.used }

-- The first item that is free and has the entry's text, now or as last reported.
unfoldable pub find_exact : Bytes → ℕ → List Norms → Match → Option ℕ
find_exact norm i [] m = none
find_exact norm i (n ∷ norms) m =
    if not (taken i m)
      && (bytes_eq n.norm norm || not (is_nil n.seen_norm) && bytes_eq n.seen_norm norm)
    then some i
    else find_exact norm (i + 1) norms m

abbrev pair_found : ℕ → Option ℕ → Match → Match
pair_found si none m = m
pair_found si (some ei) m = pair_up si ei m

unfoldable pub exact_pass : List Norms → ℕ → List SnapEntry → Match → Match
unfolding find_exact pair_up
exact_pass norms si [] m = m
exact_pass norms si (e ∷ entries) m =
    exact_pass norms (si + 1) entries (pair_found si (find_exact e.norm 0 norms m) m)

pub record Pair : Type 0 where
  pub si : ℕ
  pub ei : ℕ
  pub score : Score

-- The better of the similarities with the two texts of an item.
unfoldable pub score_of : List Bytes → Norms → Score
unfolding tokens jaccard
score_of st n =
    let score = jaccard st (tokens n.norm) in
    let seen = jaccard st (tokens n.seen_norm) in
    if not (is_nil n.seen_norm) && greater seen score then seen else score

unfoldable pub pairs_with : ℕ → List Bytes → ℕ → List Norms → Match → List Pair
unfolding score_of
pairs_with si st ei [] m = []
pairs_with si st ei (n ∷ norms) m =
    let rest = pairs_with si st (ei + 1) norms m in
    let score = score_of st n in
    if taken ei m || not (at_threshold score)
    then rest
    else record { si = si; ei = ei; score = score } ∷ rest

abbrev pub is_free : ℕ → Match → Bool
is_free si m = elim (get_elem? m.match si) [ some none ↦ true | _ ↦ false ]

unfoldable pub all_pairs : ℕ → List SnapEntry → List Norms → Match → List Pair
unfolding pairs_with
all_pairs si [] norms m = []
all_pairs si (e ∷ entries) norms m =
    (if is_free si m then pairs_with si (tokens e.norm) 0 norms m else [])
    ++ all_pairs (si + 1) entries norms m

-- `sort.SliceStable`: the greater score first, and equal ones in their old order.
unfoldable pub insert_pair : Pair → List Pair → List Pair
insert_pair p [] = p ∷ []
insert_pair p (q ∷ pairs) =
    let rest = insert_pair p pairs in if greater q.score p.score then q ∷ rest else p ∷ q ∷ pairs

unfoldable pub sort_pairs : List Pair → List Pair
unfolding insert_pair
sort_pairs [] = []
sort_pairs (p ∷ pairs) = insert_pair p (sort_pairs pairs)

unfoldable pub pair_pass : List Pair → Match → Match
unfolding pair_up
pair_pass [] m = m
pair_pass (p ∷ pairs) m =
    pair_pass pairs (if is_free p.si m && not (taken p.ei m) then pair_up p.si p.ei m else m)

abbrev unmatched : List SnapEntry → List (Option ℕ)
unmatched [] = []
unmatched (e ∷ entries) = none ∷ unmatched entries

unfoldable pub match_snapshot : Unicode → List TodoItem → List SnapEntry → Match
unfolding exact_pass pair_pass
match_snapshot u items entries =
    let norms = norms_of u items in
    let exact = exact_pass norms 0 entries (record { match = unmatched entries; used = [] }) in
    pair_pass (sort_pairs (all_pairs 0 entries norms exact)) exact

-- The first retext whose item is free and whose old text is the entry's.
unfoldable pub find_retext : List TodoItem → Bytes → List Retext → Match → Option ℕ
find_retext items norm [] m = none
find_retext items norm (r ∷ retexts) m =
    let rest = find_retext items norm retexts m in
    elim (last_at 0 r.id items) [
      | none ↦ rest
      | some (ei, _) ↦ if not (taken ei m) && bytes_eq r.old_text norm then some ei else rest
    ]

unfoldable pub match_retexts : List TodoItem → List Retext → ℕ → List SnapEntry → Match → Match
unfolding find_retext pair_up
match_retexts items retexts si [] m = m
match_retexts items retexts si (e ∷ entries) m =
    match_retexts items retexts (si + 1) entries
      (if is_free si m then pair_found si (find_retext items e.norm retexts m) m else m)
