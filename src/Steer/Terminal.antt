-- ===== src/Steer/Terminal.antt =====
-- internal/server/steer_delivery.go and the submit loop of internal/usecase/session_terminal.go: a note is
-- typed into the agent's composer, and Return is pressed until the composer is clear. Texts are code
-- points. What the terminal answers is a record; the result has the keys that reached the terminal.
pub mod Once
pub mod Longer
use aiman.Base.{
  ℕ, zero, suc, ◌+◌, ◌-◌, Bool, true, false, not, ◌||◌, List, [], ◌∷◌, ◌++◌, Option, none, some,
  ◌==◌, ltb, if◌then◌else◌, length,
}
use aiman.Base.Space.{is_space}
use aiman.Base.Text.{Bytes, bytes_eq, split, join}
use aiman.Base.Fields.{trim}

-- The three code points of the rows of an input box.
abbrev bar : ℕ
bar = 0x2502

abbrev is_glyph : ℕ → Bool
is_glyph c = c == 0x203A || c == 0x276F

unfoldable pub drop_while : (ℕ → Bool) → Bytes → Bytes
drop_while p [] = []
drop_while p (c ∷ cs) = if p c then drop_while p cs else c ∷ cs

-- `strings.ReplaceAll(s, "\n", " ")`
unfoldable pub newlines_to_spaces : Bytes → Bytes
newlines_to_spaces [] = []
newlines_to_spaces (c ∷ cs) = (if c == b'\n' then b' ' else c) ∷ newlines_to_spaces cs

unfoldable pub last_runes : ℕ → Bytes → Bytes
last_runes n [] = []
last_runes n (c ∷ cs) =
    let rest = last_runes n cs in if ltb n (suc (length cs)) then rest else c ∷ cs

unfoldable pub submit_marker : Bytes → Bytes
unfolding newlines_to_spaces last_runes trim
submit_marker prompt = trim (last_runes 24 (trim (newlines_to_spaces prompt)))

unfoldable pub squash_composer_text : Bytes → Bytes
unfolding is_space
squash_composer_text [] = []
squash_composer_text (c ∷ cs) =
    let rest = squash_composer_text cs in if is_space c || c == bar then rest else c ∷ rest

unfoldable pub has_prefix : Bytes → Bytes → Bool
has_prefix [] s = true
has_prefix (p ∷ ps) [] = false
has_prefix (p ∷ ps) (c ∷ cs) = let rest = has_prefix ps cs in if p == c then rest else false

-- `strings.Contains`
unfoldable pub contains : Bytes → Bytes → Bool
unfolding has_prefix
contains [] p = has_prefix p []
contains (c ∷ cs) p = let rest = contains cs p in has_prefix p (c ∷ cs) || rest

abbrev opens_box : Bytes → Bool
unfolding drop_while
opens_box row = elim (drop_while (λ c. c == b' ' || c == b'\t' || c == bar) row) [
  | [] ↦ false
  | c ∷ cs ↦ is_glyph c
]

-- The rows from the last one with a glyph on.
unfoldable pub input_box : List Bytes → Option (List Bytes)
unfolding opens_box
input_box [] = none
input_box (row ∷ rows) = elim (input_box rows) [
  | some box ↦ some box
  | none ↦ if opens_box row then some (row ∷ rows) else none
]

unfoldable pub last_row : List Bytes → Option Bytes
unfolding trim
last_row [] = none
last_row (row ∷ rows) = elim (last_row rows) [
  | some line ↦ some line
  | none ↦ elim (trim row) [ [] ↦ none | c ∷ cs ↦ some (c ∷ cs) ]
]

-- `strings.TrimRight(s, "\n")`
unfoldable pub trim_newlines : Bytes → Bytes
trim_newlines [] = []
trim_newlines (c ∷ cs) = elim (trim_newlines cs) [
  | [] ↦ if c == b'\n' then [] else c ∷ []
  | d ∷ ds ↦ c ∷ d ∷ ds
]

abbrev pub is_empty : Bytes → Bool
is_empty [] = true
is_empty (c ∷ cs) = false

-- What of the screen is searched: the input box, or the last row that is not empty.
unfoldable pub composer_rows : Bytes → Option Bytes
unfolding input_box last_row join
composer_rows text = elim (input_box (split text)) [
  | some box ↦ some (join box)
  | none ↦ last_row (split text)
]

-- `strip` is `StripANSI`, a regular expression.
unfoldable pub composer_still_holds : (Bytes → Bytes) → Bytes → Bytes → Bool
unfolding squash_composer_text trim_newlines composer_rows contains
composer_still_holds strip raw_pane marker =
    let sought = squash_composer_text marker in
    let text = trim_newlines (strip raw_pane) in
    if is_empty sought || is_empty text then false else elim (composer_rows text) [
      | none ↦ false
      | some rows ↦ contains (squash_composer_text rows) sought
    ]

pub data Key : Type 0 where
  typed : Bytes → Key
  entered : Key

-- One check of the composer: whether the context ends in the pause, the screen if it can be read,
-- whether the context had ended when the screen or Return failed, and whether Return can be pressed.
pub record Round : Type 0 where
  pub settle_canceled : Bool
  pub screen : Option Bytes
  pub canceled : Bool
  pub enter_ok : Bool

-- `rounds n` is the check of the n-th attempt, and `settled` the time when the delivery is settled.
pub record Answers : Type 0 where
  pub found : Bool
  pub legacy : Bool
  pub running : Bool
  pub write_ok : Bool
  pub enter_ok : Bool
  pub now : ℕ
  pub rounds : ℕ → Round
  pub settled : ℕ

-- The loop of `confirmSubmit` with the attempts that are left: the Returns that it pressed, and whether
-- it ended before the context did.
unfoldable pub confirm_loop : (Bytes → Bytes) → Bytes → (ℕ → Round) → ℕ → ℕ → List Key × Bool
confirm_loop strip marker rounds attempt zero = ([], true)
confirm_loop strip marker rounds attempt (suc left) =
    let rest = confirm_loop strip marker rounds (attempt + 1) left in
    let r = rounds attempt in
    if r.settle_canceled then ([], false) else elim r.screen [
      | none ↦ ([], not r.canceled)
      | some out ↦
          if not (composer_still_holds strip out marker)
          then ([], true)
          else if not r.enter_ok
          then ([], not r.canceled)
          else (entered ∷ rest.0, rest.1)
    ]

unfoldable pub confirm_submit : (Bytes → Bytes) → ℕ → Bytes → (ℕ → Round) → List Key × Bool
unfolding confirm_loop submit_marker
confirm_submit strip attempts prompt rounds =
    let marker = submit_marker prompt in
    if is_empty marker then ([], true) else confirm_loop strip marker rounds 1 (attempts - 1)

pub record SubmitProgress : Type 0 where
  pub typed_before : Bool
  pub submit_at : ℕ

-- A time, `ErrTypedNotSubmitted`, `ErrSubmitUnconfirmed` with the time of Return, or another error.
pub data Outcome : Type 0 where
  submitted : ℕ → Outcome
  typed_not_submitted : Outcome
  submit_unconfirmed : ℕ → Outcome
  failed : Outcome

abbrev pub submitted_or_not : ℕ → List Key × Bool → List Key × Outcome
submitted_or_not at c = (c.0, if c.1 then submitted at else submit_unconfirmed at)

unfoldable pub confirm_only : (Bytes → Bytes) → ℕ → Bytes → ℕ → Answers → List Key × Outcome
unfolding confirm_submit
confirm_only strip attempts prompt submit_at a =
    submitted_or_not submit_at (confirm_submit strip attempts prompt a.rounds)

-- The pause before the first Return ends it early, but Return is pressed all the same.
unfoldable pub submit_typed : (Bytes → Bytes) → ℕ → Bytes → Answers → List Key × Outcome
unfolding confirm_submit
submit_typed strip attempts prompt a =
    if not a.enter_ok
    then ([], typed_not_submitted)
    else (let c = submitted_or_not a.now (confirm_submit strip attempts prompt a.rounds) in
        (entered ∷ c.0, c.1))

unfoldable pub type_and_submit :
    (Bytes → Bytes) → ℕ → Bytes → SubmitProgress → Answers → List Key × Outcome
unfolding confirm_only submit_typed
type_and_submit strip attempts prompt progress a =
    if not (progress.submit_at == 0)
    then confirm_only strip attempts prompt progress.submit_at a
    else if progress.typed_before
    then submit_typed strip attempts prompt a
    else if not a.write_ok
    then ([], failed)
    else (let r = submit_typed strip attempts prompt a in (typed prompt ∷ r.0, r.1))

pub record SteerFlight : Type 0 where
  pub text : Bytes
  pub typed_before : Bool
  pub submit_at : ℕ

-- What the server keeps of one session: its flight, and when its last note settled.
pub record Deliveries : Type 0 where
  pub flight : Option SteerFlight
  pub settled_at : ℕ

-- An absent flight is the zero value.
unfoldable pub steer_progress : Bytes → Deliveries → SubmitProgress
steer_progress text d = elim d.flight [
  | none ↦ record { typed_before = false; submit_at = 0 }
  | some f ↦
      if bytes_eq f.text text
      then record { typed_before = f.typed_before; submit_at = f.submit_at }
      else record { typed_before = false; submit_at = 0 }
]

unfoldable pub finish_steer_submit : Bytes → ℕ → Outcome → Deliveries → Option ℕ × Deliveries
finish_steer_submit text now (submitted at) d =
    (some at, record { flight = none; settled_at = now })
finish_steer_submit text now (submit_unconfirmed at) d =
    (none, record d { flight = some (record { text = text; typed_before = true; submit_at = at }) })
finish_steer_submit text now typed_not_submitted d =
    (none, record d { flight = some (record { text = text; typed_before = true; submit_at = 0 }) })
finish_steer_submit text now failed d = (none, d)

-- `\r\n` and `\r` become `\n`.
unfoldable pub unix_lines : Bytes → Bytes
unix_lines [] = []
unix_lines (c ∷ []) = (if c == b'\r' then b'\n' else c) ∷ []
unix_lines (c ∷ d ∷ cs) =
    let rest = unix_lines (d ∷ cs) in
    if c == b'\r' then (if d == b'\n' then rest else b'\n' ∷ rest) else c ∷ rest

unfoldable pub full_lines : List Bytes → List Bytes
unfolding trim
full_lines [] = []
full_lines (l ∷ ls) =
    let rest = full_lines ls in elim (trim l) [ [] ↦ rest | c ∷ cs ↦ (c ∷ cs) ∷ rest ]

-- `strings.Join(parts, " ")`
unfoldable pub join_spaced : List Bytes → Bytes
join_spaced [] = []
join_spaced (l ∷ []) = l
join_spaced (l ∷ m ∷ ls) = l ++ b' ' ∷ join_spaced (m ∷ ls)

unfoldable pub steer_one_line : Bytes → Bytes
unfolding unix_lines full_lines join_spaced
steer_one_line text = join_spaced (full_lines (split (unix_lines text)))

-- The keys, the time of Return if the note was delivered, and what the server keeps.
pub record Delivery : Type 0 where
  pub keys : List Key
  pub delivered : Option ℕ
  pub kept : Deliveries

abbrev delivery : List Key → Option ℕ × Deliveries → Delivery
delivery keys r = record { keys = keys; delivered = r.0; kept = r.1 }

unfoldable pub deliver_steer : (Bytes → Bytes) → ℕ → Bytes → Answers → Deliveries → Delivery
deliver_steer strip attempts text a d =
    if not a.found || a.legacy
    then delivery [] (none, d)
    else if not a.running
    then delivery [] (finish_steer_submit (steer_one_line text) a.settled failed d)
    else (let line = steer_one_line text in
        let r = type_and_submit strip attempts line (steer_progress line d) a in
        delivery r.0 (finish_steer_submit line a.settled r.1 d))

-- The tries of one note until one of them succeeds, each with its own answers: all the keys.
unfoldable pub try_until : (Bytes → Bytes) → ℕ → Bytes → List Answers → Deliveries → List Key
try_until strip attempts text [] d = []
try_until strip attempts text (a ∷ answers) d =
    let r = deliver_steer strip attempts text a d in
    let rest = try_until strip attempts text answers r.kept in
    elim r.delivered [ some at ↦ r.keys | none ↦ r.keys ++ rest ]
