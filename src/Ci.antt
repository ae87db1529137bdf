-- ===== src/Ci.antt =====
-- internal/ciwatch: the watch on the pull request of a session. Here is github.go: what GitHub says of
-- a pull request, reduced to what the watch acts on. Numbers of pull requests, jobs and comments are
-- natural.
pub mod Tables
pub mod Text
pub mod Watch
pub mod Poll
pub mod Laws
pub mod Escalation
pub mod Open
pub mod Seen
pub mod Comments
pub mod Once
mod Tests
use aiman.Base.{
  ℕ, ◌-◌, Bool, true, false, not, ◌&&◌, ◌||◌, List, [], ◌∷◌, ◌++◌, Option, none, some, String,
  str_eq, leb, ltb, ◌==◌, if◌then◌else◌, length, drop, map,
}
use aiman.Base.Text.{Bytes, codes, split, join}

pub data Conclusion : Type 0 where
  conclusion_failure conclusion_success conclusion_pending conclusion_other : Conclusion

pub record Check : Type 0 where
  pub name : String
  pub conclusion : Conclusion
  pub details_url : String
  pub job_id : ℕ

pub record PrView : Type 0 where
  pub number : ℕ
  pub head_sha : String
  pub state : String
  pub checks : List Check

pub record ReviewComment : Type 0 where
  pub id : ℕ
  pub body : String
  pub path : String
  pub line : ℕ
  pub author : String
  pub in_reply_to : ℕ
  pub created_at : ℕ

pub record RollupEntry : Type 0 where
  pub typename : String
  pub name : String
  pub status : String
  pub conclusion : String
  pub details_url : String
  pub context : String
  pub state : String
  pub target_url : String

abbrev pub one_of : String → List String → Bool
one_of s [] = false
one_of s (t ∷ ts) = str_eq s t || one_of s ts

unfoldable pub check_run_conclusion : String → String → Conclusion
check_run_conclusion status conclusion =
    if not (str_eq status "COMPLETED")
    then conclusion_pending
    else if one_of conclusion ("FAILURE" ∷ "TIMED_OUT" ∷ "STARTUP_FAILURE" ∷ [])
    then conclusion_failure
    else if one_of conclusion ("SUCCESS" ∷ "NEUTRAL" ∷ "SKIPPED" ∷ [])
    then conclusion_success
    else conclusion_other

unfoldable pub status_context_conclusion : String → Conclusion
status_context_conclusion state =
    if one_of state ("FAILURE" ∷ "ERROR" ∷ [])
    then conclusion_failure
    else if one_of state ("SUCCESS" ∷ [])
    then conclusion_success
    else if one_of state ("PENDING" ∷ "EXPECTED" ∷ [])
    then conclusion_pending
    else conclusion_other

-- `rollupEntry.check`; `job_of` is the number that the regular expression finds, 0 where it finds none.
unfoldable pub entry_check : (String → ℕ) → RollupEntry → Check
unfolding check_run_conclusion status_context_conclusion
entry_check job_of e =
    if str_eq e.typename "StatusContext"
    then record {
      name = e.context;
      conclusion = status_context_conclusion e.state;
      details_url = e.target_url;
      job_id = 0;
    }
    else record {
      name = e.name;
      conclusion = check_run_conclusion e.status e.conclusion;
      details_url = e.details_url;
      job_id = job_of e.details_url;
    }

-- The loop of `ParsePRView`, after the JSON is decoded.
unfoldable pub checks_of : (String → ℕ) → List RollupEntry → List Check
unfolding entry_check
checks_of job_of rollup = map (entry_check job_of) rollup

-- `strings.TrimSuffix(s, "\n")`
unfoldable pub trim_newline : Bytes → Bytes
trim_newline [] = []
trim_newline (c ∷ []) = if c == b'\n' then [] else c ∷ []
trim_newline (c ∷ d ∷ s) = c ∷ trim_newline (d ∷ s)

abbrev pub is_nil : Bytes → Bool
is_nil [] = true
is_nil (c ∷ cs) = false

unfoldable pub tail_lines : Bytes → ℕ → Bytes
unfolding trim_newline
tail_lines s n =
    let t = trim_newline s in
    let lines = split t in
    if n == 0 || is_nil t
    then []
    else if leb (length lines) n
    then t
    else join (drop (length lines - n) lines)
