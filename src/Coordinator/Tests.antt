-- ===== src/Coordinator/Tests.antt =====
-- Links and reports at work, and each theorem at a concrete text.
use aiman.Base.{[], some, none, ◌≡◌, ◌≢◌, ◌↔◌, refl}
use aiman.Base.Text.{Bytes, codes, split}
use aiman.Base.Fields.{fields}
use aiman.Coordinator.{child_ref, child_id, fixer_id}
use aiman.Coordinator.Links.{child_id_iff}
use aiman.Coordinator.Consult.{ConsultReport, parsed, parse_consult_report}

child_id_iff_example :
    ((child_id (codes "child:s1") ≡ some (codes "s1"))
      ↔ ((codes "child:s1" ≡ child_ref (codes "s1")) × (codes "s1" ≢ [])))
    × (fixer_id (child_ref (codes "s1")) ≡ none)
child_id_iff_example = child_id_iff (codes "child:s1") (codes "s1")

abbrev report : Bytes
report = codes "## objections\n- [high] no test\n## verdict\nrevise."

abbrev revise : ConsultReport
revise = record { high = 1; medium = 0; low = 0; verdict = codes "revise" }

report_revises : parse_consult_report (λ s. s) report ≡ parsed revise
unfolding parse_consult_report split fields
report_revises = refl
