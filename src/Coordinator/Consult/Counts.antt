-- ===== src/Coordinator/Consult/Counts.antt =====
-- What a report that is read may say.
use aiman.Base.{ℕ, ◌+◌, ◌≤◌, ◌≡◌, true, false, List, [], ◌∷◌, length, arith, Option-cases, inl, inr}
use aiman.Base.Text.{Bytes, codes, split}
use aiman.Coordinator.{cut_prefix}
use aiman.Coordinator.Consult.{
  ConsultReport, parsed, count_tag, bullet, count_objection, read_line, scan_line, scan, Scan,
  is_verdict, judged, parse_consult_report, trim,
}

abbrev pub objections : ConsultReport → ℕ
objections r = r.high + r.medium + r.low

module _ (lower : Bytes → Bytes) where
  count_tag-le :
      (tag : Bytes) (r : ConsultReport) → objections (count_tag lower tag r) ≤ objections r + 1
  unfolding count_tag
  count_tag-le tag r = ground arith

  count_objection-le :
      (line : Bytes) (r : ConsultReport)
      → objections (count_objection lower line r) ≤ objections r + 1
  unfolding count_objection
  count_objection-le line r = elim (Option-cases (bullet lower line)) [
    | inl e ↦ ground arith
    | inr (body, e) ↦ ground (arith, count_tag-le (lower (trim body)) r)
  ]

  read_line-le :
      (line : Bytes) (k : Scan lower)
      → objections (read_line lower line k).report ≤ objections k.report + 1
  unfolding read_line
  read_line-le line k = ground (arith, count_objection-le line k.report)

  scan_line-le :
      (raw : Bytes) (k : Scan lower)
      → objections (scan_line lower raw k).report ≤ objections k.report + 1
  unfolding scan_line
  scan_line-le raw k = elim (Option-cases (cut_prefix (codes "## ") (trim raw))) [
    | inl e ↦ ground (arith, read_line-le (trim raw) k)
    | inr (heading, e) ↦ ground arith
  ]

  scan-le :
      (lines : List Bytes) (k : Scan lower)
      → objections (scan lower lines k).report ≤ objections k.report + length lines
  unfolding scan
  scan-le [] k = omega arith
  scan-le (l ∷ lines) k = omega (arith, scan-le lines (scan_line lower l k), scan_line-le l k)

  judged-eq-parsed :
      (k : Scan lower) {r : ConsultReport}
      → judged lower k ≡ parsed r
      → (r ≡ k.report) × (is_verdict lower r.verdict ≡ true)
  unfolding judged
  judged-eq-parsed k e = ground arith

-- A report of a consult that is accepted has one of the three verdicts, and counts at most one objection
-- for each line, whatever the letter case of the language does to the text.
pub parse_consult_report-parsed :
    (lower : Bytes → Bytes) (md : Bytes) (r : ConsultReport)
    → parse_consult_report lower md ≡ parsed r
    → (is_verdict lower r.verdict ≡ true) × (objections r ≤ length (split md))
unfolding parse_consult_report
parse_consult_report-parsed lower md r e =
    let start : Scan lower = record {
      section = [];
      verdict_seen = false;
      report = record { high = 0; medium = 0; low = 0; verdict = [] };
    } in
    let (same, one) = judged-eq-parsed lower (scan lower (split md) start) {r = r} e in
    (one, rw same (omega (arith, scan-le lower (split md) start)))
