-- ===== src/Pane/Delta.antt =====
-- internal/pane/delta.go: what a capture owes a client that already has a screen, and how the
-- client applies it. A Go string is its bytes; `(string, bool)` is an `Option`.
pub mod Scroll
pub mod Rows
pub mod Economy
use aiman.Base.{
  ℕ, zero, suc, ◌+◌, ◌*◌, Bool, true, false, not, ◌&&◌, ◌||◌, List, [], ◌∷◌, ◌++◌, Option, none,
  some, ltb, leb, ◌==◌, if◌then◌else◌, length, take, drop, set,
}
use aiman.Base.Int.{ℤ, pos, negsuc}
use aiman.Base.Text.{Bytes, bytes_eq, lines_eq, split, join}
use aiman.Pane.Hash.{screen_hash}

pub record RowPatch : Type 0 where
  pub index : ℤ
  pub line : Bytes

pub record CaptureReply : Type 0 where
  pub unchanged : Bool
  pub hash : Bytes
  pub text : Bytes
  pub rows : List RowPatch
  pub drop : ℤ
  pub append : Bytes

-- Go's zero value, with the hash set.
abbrev pub reply_with : Bytes → CaptureReply
reply_with h = record {
  unchanged = false;
  hash = h;
  text = [];
  rows = [];
  drop = pos 0;
  append = [];
}

abbrev pub is_nil {ℓ} : {A : Type ℓ} → List A → Bool
is_nil [] = true
is_nil (_ ∷ _) = false

-- `len(added) == 1 && added[0] == ""`
abbrev pub is_blank_line : List Bytes → Bool
is_blank_line ([] ∷ []) = true
is_blank_line _ = false

-- The rows that differ, from row `i` on. The lists have one length where it is called.
unfoldable pub diff_rows : ℕ → List Bytes → List Bytes → List RowPatch
diff_rows i (p ∷ ps) (n ∷ ns) =
    let rest = diff_rows (i + 1) ps ns in
    if not (bytes_eq p n) then record { index = pos i; line = n } ∷ rest else rest
diff_rows i _ _ = []

unfoldable pub diff_screen : Bytes → Bytes → Bool × Bytes × List RowPatch
diff_screen prev next =
    if bytes_eq prev next
    then (true, [], [])
    else if not (length (split prev) == length (split next))
    then (false, next, [])
    else let patches = diff_rows 0 (split prev) (split next) in
      if ltb (length (split next)) (length patches * 2)
      then (false, next, [])
      else (false, [], patches)

unfoldable pub apply_scroll : Bytes → ℤ → Bytes → Option Bytes
apply_scroll prev (negsuc _) append = none
apply_scroll prev (pos n) append =
    let lines = split prev in
    if ltb (length lines) n
    then none
    else let kept = drop n lines in
      some (join (if not (is_nil append) then kept ++ split append else kept))

-- `lines[row.Index] = row.Line`, with the range test before it.
abbrev put_row : ℤ → Bytes → List Bytes → Option (List Bytes)
put_row (negsuc _) line lines = none
put_row (pos i) line lines = if leb (length lines) i then none else some (set lines i line)

unfoldable pub apply_rows : List RowPatch → List Bytes → Option (List Bytes)
apply_rows [] lines = some lines
apply_rows (row ∷ rows) lines = elim (put_row row.index row.line lines) [
  | none ↦ none
  | some lines' ↦ apply_rows rows lines'
]

abbrev pub join_rows : Option (List Bytes) → Option Bytes
join_rows none = none
join_rows (some lines) = some (join lines)

unfoldable pub apply_screen : Bytes → Bytes → List RowPatch → Option Bytes
apply_screen prev replace rows =
    if not (is_nil replace) then some replace else join_rows (apply_rows rows (split prev))

-- The loop of `scrollPatch` from `k` on; `suffix` is `prevLines[k:]`.
unfoldable pub scroll_from : ℕ → List Bytes → List Bytes → Option (ℕ × Bytes)
scroll_from k [] next = none
scroll_from k (l ∷ suffix) next =
    let later = scroll_from (k + 1) suffix next in
    let overlap = length (l ∷ suffix) in
    let added = drop overlap next in
    if ltb (length next) overlap || not (lines_eq (l ∷ suffix) (take overlap next))
    then later
    else if ltb (overlap * 2) (length next)
    then none
    else if is_blank_line added
    then none
    else if k == 0 && is_nil added
    then later
    else some (k, join added)

unfoldable pub scroll_patch : Bytes → Bytes → Option (ℕ × Bytes)
scroll_patch prev next = scroll_from 0 (split prev) (split next)

abbrev pub reply_diff : Bytes → Bool × Bytes × List RowPatch → CaptureReply
reply_diff h (same, replace, rows) =
    if same
    then record (reply_with h) { unchanged = true }
    else if not (is_nil replace)
    then record (reply_with h) { text = replace }
    else record (reply_with h) { rows = rows }

unfoldable pub reply_for : Bytes → Bytes → Bytes → CaptureReply
reply_for prev_text cur_text have_hash =
    let cur_hash = screen_hash cur_text in
    if bytes_eq have_hash cur_hash
    then record (reply_with cur_hash) { unchanged = true }
    else if not (bytes_eq have_hash (screen_hash prev_text))
    then record (reply_with cur_hash) { text = cur_text }
    else elim (scroll_patch prev_text cur_text) [
      | some (n, appended) ↦ record (reply_with cur_hash) { drop = pos n; append = appended }
      | none ↦ reply_diff cur_hash (diff_screen prev_text cur_text)
    ]
