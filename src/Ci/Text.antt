-- ===== src/Ci/Text.antt =====
-- The texts of internal/ciwatch: checks.go and comments.go. A note is bytes; `utf8` encodes code points, and
-- `quote` is the `%q` of the package fmt.
pub mod Cut
pub use aiman.Base.Join.{◌<>◌}
use aiman.Base.{
  ℕ, suc, zero, Bool, true, ◌&&◌, ◌||◌, List, [], ◌∷◌, ◌++◌, Option, none, some, String, str_eq,
  leb, ltb, ◌==◌, if◌then◌else◌, length, take, get_elem?, code,
}
use Prim.Native.String.{◌++◌ as joined}
use aiman.Base.Text.{Bytes, codes}
use aiman.Base.Itoa.{itoa}
use aiman.Base.Space.{trim_space, is_space}
use aiman.Ci.{Check, PrView, ReviewComment, tail_lines}

pub record Encoding : Type 0 where
  pub utf8 : Bytes → Bytes
  pub quote : String → Bytes

abbrev pub say : Encoding → String → Bytes
say enc s = enc.utf8 (codes s)

abbrev pub log_tail_lines : ℕ
log_tail_lines = 150

abbrev pub review_title_runes : ℕ
review_title_runes = 80

abbrev pub review_body_bytes : ℕ
review_body_bytes = 4000

unfoldable pub check_ref : String → String
check_ref name = "check:" <> name

unfoldable pub review_ref : ℕ → String
unfolding itoa
review_ref id = "review:" <> itoa id

unfoldable pub short_sha : Bytes → Bytes
short_sha sha = if ltb 7 (length sha) then take 7 sha else sha

-- `strings.TrimSpace(log) == ""`
unfoldable pub is_blank_log : Bytes → Bool
unfolding is_space
is_blank_log [] = true
is_blank_log (c ∷ log) = is_space c && is_blank_log log

unfoldable pub note_head : Encoding → PrView → Check → String → Bytes
unfolding short_sha itoa
note_head enc pr c todo_id =
    say enc "[aiman] CI check "
    ++ enc.quote c.name
    ++ say enc " failed on "
    ++ short_sha (say enc pr.head_sha)
    ++ say enc " (PR #"
    ++ say enc (itoa pr.number)
    ++ say enc "), to-do "
    ++ say enc todo_id
    ++ say enc ".\n"

-- `checkNote`; `job_log` is what gh prints for a job, if it can.
unfoldable pub check_note : Encoding → (ℕ → Option Bytes) → PrView → Check → String → Bytes
unfolding note_head tail_lines is_blank_log
check_note enc job_log pr c todo_id =
    let head = note_head enc pr c todo_id in
    let unavailable = head ++ say enc "Log unavailable: " ++ say enc c.details_url in
    if c.job_id == 0 then unavailable else elim (job_log c.job_id) [
      | none ↦ unavailable
      | some out ↦
          let log = tail_lines out log_tail_lines in
          if is_blank_log log
          then unavailable
          else head
            ++ say enc "Last "
            ++ say enc (itoa log_tail_lines)
            ++ say enc " lines of `gh run view --job "
            ++ say enc (itoa c.job_id)
            ++ say enc " --log-failed`:\n"
            ++ enc.utf8 log
    ]

push_char : String → List String → List String
push_char s [] = s ∷ []
push_char s (l ∷ ls) = (s <> l) ∷ ls

-- `strings.SplitSeq(body, "\n")`
unfoldable pub body_lines : String → List String
unfolding push_char
body_lines String.[] = "" ∷ []
body_lines (String.◌∷◌ c s) =
    let rest = body_lines s in
    if code c == b'\n' then "" ∷ rest else push_char (String.◌∷◌ c String.[]) rest

abbrev runes : String → ℕ
runes String.[] = 0
runes (String.◌∷◌ c s) = suc (runes s)

abbrev take_runes : ℕ → String → String
take_runes zero s = ""
take_runes (suc n) String.[] = ""
take_runes (suc n) (String.◌∷◌ c s) = String.◌∷◌ c (take_runes n s)

unfoldable pub title_of : List String → String
unfolding trim_space
title_of [] = "<empty comment>"
title_of (l ∷ lines) =
    let line = trim_space l in
    let rest = title_of lines in
    if str_eq line ""
    then rest
    else if ltb review_title_runes (runes line)
    then take_runes review_title_runes line <> "…"
    else line

unfoldable pub review_title : String → String
unfolding body_lines title_of
review_title body = title_of (body_lines body)

-- `utf8.RuneStart`
abbrev pub rune_start : ℕ → Bool
rune_start b = ltb b 0x80 || leb 0xC0 b

abbrev pub starts_at : Bytes → ℕ → Bool
starts_at body i = elim (get_elem? body i) [ none ↦ true | some b ↦ rune_start b ]

-- `for cut > 0 && !utf8.RuneStart(body[cut])`
unfoldable pub cut_back : Bytes → ℕ → ℕ
cut_back body zero = zero
cut_back body (suc cut) =
    let less = cut_back body cut in if starts_at body (suc cut) then suc cut else less

unfoldable pub truncate_body : Encoding → Bytes → Bytes
unfolding cut_back
truncate_body enc body =
    if leb (length body) review_body_bytes
    then body
    else take (cut_back body review_body_bytes) body ++ say enc "\n[truncated]"

unfoldable pub where_of : ReviewComment → String
unfolding itoa
where_of c = if c.line == 0 then c.path else c.path <> ":" <> itoa c.line

unfoldable pub review_note : Encoding → PrView → ReviewComment → String → Bytes
unfolding where_of truncate_body
review_note enc pr c todo_id =
    say enc "[aiman] New review comment on PR #"
    ++ say enc (itoa pr.number)
    ++ say enc " at "
    ++ say enc (where_of c)
    ++ say enc " by @"
    ++ say enc c.author
    ++ say enc ", to-do "
    ++ say enc todo_id
    ++ say enc ":\n"
    ++ truncate_body enc (say enc c.body)
