-- ===== src/Coordinator/Consult.antt =====
-- internal/coordinator/consult.go: the report of a consult, over code points. Letter case is an argument.
pub mod Counts
use aiman.Base.{
  ℕ, ◌+◌, Bool, true, false, not, ◌&&◌, ◌||◌, List, [], ◌∷◌, ◌++◌, Option, none, some, ◌==◌,
  if◌then◌else◌,
}
use aiman.Base.Text.{Bytes, bytes_eq, codes, split}
use aiman.Base.Space.{is_space}
use aiman.Base.Fields.{fields}
use aiman.Coordinator.{cut_prefix}

-- `strings.TrimLeftFunc`, `strings.TrimRightFunc` and both.
unfoldable pub trim_left_by : (ℕ → Bool) → Bytes → Bytes
trim_left_by p [] = []
trim_left_by p (c ∷ s) = let rest = trim_left_by p s in if p c then rest else c ∷ s

abbrev all_by : (ℕ → Bool) → Bytes → Bool
all_by p [] = true
all_by p (c ∷ s) = p c && all_by p s

unfoldable pub trim_right_by : (ℕ → Bool) → Bytes → Bytes
trim_right_by p [] = []
trim_right_by p (c ∷ s) = let rest = trim_right_by p s in if all_by p (c ∷ s) then [] else c ∷ rest

unfoldable pub trim_by : (ℕ → Bool) → Bytes → Bytes
unfolding trim_left_by trim_right_by
trim_by p s = trim_right_by p (trim_left_by p s)

unfoldable pub trim : Bytes → Bytes
unfolding trim_by is_space
trim s = trim_by is_space s

abbrev is_one_of : Bytes → ℕ → Bool
is_one_of [] c = false
is_one_of (d ∷ set) c = c == d || is_one_of set c

abbrev pub has_prefix : Bytes → Bytes → Bool
has_prefix prefix s = elim (cut_prefix prefix s) [ none ↦ false | some _ ↦ true ]

abbrev pub is_nil : Bytes → Bool
is_nil [] = true
is_nil (c ∷ s) = false

pub record ConsultReport : Type 0 where
  pub high : ℕ
  pub medium : ℕ
  pub low : ℕ
  pub verdict : Bytes

pub data ConsultError : Type 0 where
  missing_verdict empty_verdict bad_verdict : ConsultError

pub data Parsed : Type 0 where
  parsed : ConsultReport → Parsed
  refused : ConsultError → Parsed

module _ (lower : Bytes → Bytes) where
  -- The text after the bullet of a list.
  unfoldable pub bullet : Bytes → Option Bytes
  unfolding cut_prefix
  bullet line = elim (cut_prefix (codes "- ") line) [
    | some body ↦ some body
    | none ↦ cut_prefix (codes "* ") line
  ]

  unfoldable pub count_tag : Bytes → ConsultReport → ConsultReport
  unfolding cut_prefix
  count_tag tag r =
      if has_prefix (codes "[high]") tag
      then record r { high = r.high + 1 }
      else if has_prefix (codes "[medium]") tag
      then record r { medium = r.medium + 1 }
      else if has_prefix (codes "[low]") tag
      then record r { low = r.low + 1 }
      else r

  unfoldable pub count_objection : Bytes → ConsultReport → ConsultReport
  unfolding bullet count_tag trim
  count_objection line r = elim (bullet line) [
    | none ↦ r
    | some body ↦ count_tag (lower (trim body)) r
  ]

  abbrev first_word : List Bytes → Bytes
  first_word [] = []
  first_word (w ∷ ws) = w

  unfoldable pub verdict_word : Bytes → Bytes
  unfolding trim_by
  verdict_word line = lower (trim_by (is_one_of (codes "*_`:.,;!-")) (first_word (fields line)))

  pub record Scan : Type 0 where
    pub section : Bytes
    pub verdict_seen : Bool
    pub report : ConsultReport

  -- A line that is no heading.
  unfoldable pub read_line : Bytes → Scan → Scan
  unfolding count_objection verdict_word
  read_line line k =
      if bytes_eq k.section (codes "objections")
      then record k { report = count_objection line k.report }
      else if bytes_eq k.section (codes "verdict") && is_nil k.report.verdict && not (is_nil line)
      then record k { report = record (k.report) { verdict = verdict_word line } }
      else k

  unfoldable pub scan_line : Bytes → Scan → Scan
  unfolding cut_prefix read_line trim
  scan_line raw k = elim (cut_prefix (codes "## ") (trim raw)) [
    | some heading ↦
        let section = lower (trim heading) in
        record k {
          section = section;
          verdict_seen = k.verdict_seen || bytes_eq section (codes "verdict");
        }
    | none ↦ read_line (trim raw) k
  ]

  unfoldable pub scan : List Bytes → Scan → Scan
  unfolding scan_line
  scan [] k = k
  scan (l ∷ lines) k = scan lines (scan_line l k)

  abbrev pub is_verdict : Bytes → Bool
  is_verdict v =
      bytes_eq v (codes "approve") || bytes_eq v (codes "revise") || bytes_eq v (codes "reject")

  -- The checks after the loop.
  unfoldable pub judged : Scan → Parsed
  judged k =
      if not k.verdict_seen
      then refused missing_verdict
      else if is_verdict k.report.verdict
      then parsed k.report
      else if is_nil k.report.verdict
      then refused empty_verdict
      else refused bad_verdict

  -- `ParseConsultReport`
  unfoldable pub parse_consult_report : Bytes → Parsed
  unfolding scan judged
  parse_consult_report md = judged (
      scan (split md) (record {
        section = [];
        verdict_seen = false;
        report = record { high = 0; medium = 0; low = 0; verdict = [] };
      }))
