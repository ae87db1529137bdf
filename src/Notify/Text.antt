-- ===== src/Notify/Text.antt =====
-- The text of a notification: internal/notify/format.go, over code points.
pub mod OneLine
use aiman.Base.{
  ℕ, ◌+◌, Bool, true, false, not, ◌&&◌, List, [], ◌∷◌, ◌++◌, String, length, take, ltb,
  if◌then◌else◌,
}
use aiman.Base.Text.{Bytes, codes}
use aiman.Base.Fields.{fields_joined}
use aiman.Notify.Kinds.{NotifyKind, agent_update, event_label}

unfoldable pub is_empty : Bytes → Bool
is_empty [] = true
is_empty (c ∷ cs) = false

-- `utf8.RuneCountInString(d) > 200`
unfoldable pub truncate : Bytes → Bytes
truncate d = if ltb 200 (length d) then take 200 d ++ 0x2026 ∷ [] else d

-- The detail on one line. Every newline is white space, so `strings.Fields` takes it out with the
-- rest, and nothing is left for `strings.TrimSpace`.
unfoldable pub clean_detail : Bytes → Bytes
unfolding truncate
clean_detail detail = truncate (fields_joined detail)

unfoldable pub format : Bytes → Bytes → NotifyKind → Bytes → Bytes
unfolding clean_detail is_empty
format label host kind detail =
    let d = clean_detail detail in
    let base = label ++ codes " on " ++ host ++ codes ": " ++ codes (event_label kind) in
    elim kind [
      | agent_update ↦ if is_empty d then base else d
      | _ ↦ if is_empty d then base else base ++ codes " · " ++ d
    ]
