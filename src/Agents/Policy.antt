-- ===== src/Agents/Policy.antt =====
-- internal/agentupdate/policy.go: when an agent may be updated by itself. Texts are code points; the
-- regular expression of a window is written out.
pub mod Windows
use aiman.Base.{
  ℕ, ◌+◌, ◌-◌, ◌*◌, ◌/◌, ◌%◌, Bool, true, false, not, ◌&&◌, ◌||◌, List, [], ◌∷◌, ◌++◌, Option, none,
  some, String, str_eq, ltb, leb, ◌==◌, if◌then◌else◌,
}
use aiman.Base.Text.{Bytes, codes, bytes_eq}
use aiman.Base.Fields.{trim}

pub data Mode : Type 0 where
  off notify auto : Mode

-- `strings.ToLower` on a code point is a parameter; the empty text is the default, auto.
unfoldable pub parse_mode : (ℕ → ℕ) → Bytes → Option Mode
parse_mode to_lower s =
    let m = lower (trim s) in
    if bytes_eq m (codes "") || bytes_eq m (codes "auto")
    then some auto
    else if bytes_eq m (codes "off")
    then some off
    else if bytes_eq m (codes "notify")
    then some notify
    else none
  where
    lower : Bytes → Bytes
    lower [] = []
    lower (c ∷ cs) = to_lower c ∷ lower cs

-- Minutes after midnight.
pub record Window : Type 0 where
  pub start : ℕ
  pub end : ℕ

pub data WindowError : Type 0 where
  bad_format bad_time start_equals_end : WindowError

pub data Parsed : Type 0 where
  ok : Window → Parsed
  err : WindowError → Parsed

-- `\d`
abbrev pub is_digit : ℕ → Bool
is_digit c = leb b'0' c && leb c b'9'

-- `strconv.Atoi` of two digits.
abbrev pub two_digits : ℕ → ℕ → ℕ
two_digits a b = 10 * (a - b'0') + (b - b'0')

unfoldable pub clock : ℕ → ℕ → Option ℕ
clock h m = if ltb 23 h || ltb 59 m then none else some (h * 60 + m)

-- The five characters of "HH:MM", if the digits and the colon are there.
unfoldable pub match_clock : ℕ → ℕ → ℕ → ℕ → ℕ → Bool
match_clock a b colon c d = is_digit a && is_digit b && colon == b':' && is_digit c && is_digit d

unfoldable pub window_of : Option ℕ → Option ℕ → Parsed
window_of (some start) (some end) =
    if start == end then err start_equals_end else ok (record { start = start; end = end })
window_of _ _ = err bad_time

-- `ParseWindow`, on the trimmed text.
unfoldable pub parse_trimmed : Bytes → Parsed
unfolding match_clock clock window_of
parse_trimmed (a ∷ b ∷ x ∷ c ∷ d ∷ dash ∷ e ∷ f ∷ y ∷ g ∷ h ∷ []) =
    if match_clock a b x c d && dash == b'-' && match_clock e f y g h
    then window_of (clock (two_digits a b) (two_digits c d))
        (clock (two_digits e f) (two_digits g h))
    else err bad_format
parse_trimmed _ = err bad_format

unfoldable pub parse_window : Bytes → Parsed
unfolding parse_trimmed
parse_window s = parse_trimmed (trim s)

-- `Contains`, at a minute of the day.
unfoldable pub contains : Window → ℕ → Bool
contains w m =
    if ltb w.start w.end then leb w.start m && ltb m w.end else leb w.start m || ltb m w.end

-- `%02d` of a number below 100.
abbrev pub pad : ℕ → Bytes
pad n = (b'0' + n / 10) ∷ (b'0' + n % 10) ∷ []

unfoldable pub to_string : Window → Bytes
to_string w =
    pad (w.start / 60)
    ++ (b':' ∷ pad (w.start % 60))
    ++ (b'-' ∷ pad (w.end / 60))
    ++ (b':' ∷ pad (w.end % 60))

pub record Policy : Type 0 where
  pub mode : Mode
  pub window : Window
  pub hold : List String

unfoldable pub held : List String → String → Bool
held [] agent = false
held (h ∷ hold) agent = str_eq h agent || held hold agent

abbrev pub is_auto : Mode → Bool
is_auto auto = true
is_auto _ = false

unfoldable pub auto_apply : Policy → String → ℕ → Bool
unfolding held contains
auto_apply p agent m = is_auto p.mode && not (held p.hold agent) && contains p.window m
