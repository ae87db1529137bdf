-- ===== src/Notify/Text/OneLine.antt =====
-- The text of a notification is one short line.
use aiman.Base.{
  ℕ, zero, suc, ◌+◌, ◌≤◌, ◌≡◌, refl, Bool, true, false, [], ◌∷◌, ◌++◌, length, length-append, take,
  All-append, arith, Bool-cases, inl, inr, ltb, ◌==◌, if◌then◌else◌, if-elim,
}
use aiman.Base.Space.{is_space}
use aiman.Base.Text.{Bytes, codes, IsLine}
use aiman.Base.Fields.{join_fields, fields_joined}
use aiman.Notify.Kinds.{
  NotifyKind, waiting_input, ended, error, ci_escalation, review_done, agent_update, event_label,
}
use aiman.Notify.Text.{is_empty, truncate, clean_detail, format}

newline-is_space : (c : ℕ) → is_space c ≡ false → (c == 10) ≡ false
unfolding is_space
newline-is_space c e = ground arith

IsLine-join_fields : (first word : Bool) (cs : Bytes) → IsLine (join_fields first word cs)
unfolding join_fields
IsLine-join_fields first word [] = tt
IsLine-join_fields first word (c ∷ cs) = elim (Bool-cases (is_space c)) [
  | inl e ↦ rw (e, join_fields) (IsLine-join_fields first false cs)
  | inr e ↦
      rw (e, join_fields)
        (All-append _ (if word then [] else if first then [] else b' ' ∷ [])
          (c ∷ join_fields false true cs)
          (if-elim IsLine word (λ _. tt) λ _. if-elim IsLine first (λ _. tt) (λ _. (refl, tt)))
          (newline-is_space c e, IsLine-join_fields false true cs))
]

IsLine-take : (n : ℕ) (cs : Bytes) → IsLine cs → IsLine (take n cs)
IsLine-take zero cs h = tt
IsLine-take (suc n) [] h = tt
IsLine-take (suc n) (c ∷ cs) h = (h.0, IsLine-take n cs h.1)

length-take_le : (n : ℕ) (cs : Bytes) → length (take n cs) ≤ n
length-take_le zero cs = omega arith
length-take_le (suc n) [] = omega arith
length-take_le (suc n) (c ∷ cs) = omega (arith, length-take_le n cs)

IsLine-clean_detail : (detail : Bytes) → IsLine (clean_detail detail)
unfolding clean_detail truncate fields_joined
IsLine-clean_detail detail =
    let line = IsLine-join_fields true false detail in
    if-elim IsLine (ltb 200 (length (fields_joined detail)))
      (λ _.
        All-append _ (take 200 (fields_joined detail)) _
          (IsLine-take 200 (fields_joined detail) line) (refl, tt))
      (λ _. line)

length-truncate_le : (d : Bytes) → length (truncate d) ≤ 201
unfolding truncate
length-truncate_le d =
    if-elim (λ t. length t ≤ 201) {x = take 200 d ++ 0x2026 ∷ []} {y = d} (ltb 200 (length d))
      (λ _. long) λ e. ground arith
  where
    long : length (take 200 d ++ 0x2026 ∷ []) ≤ 201
    long = omega (arith, length-take_le 200 d, length-append (take 200 d) (0x2026 ∷ []))

length-clean_detail_le : (detail : Bytes) → length (clean_detail detail) ≤ 201
unfolding clean_detail
length-clean_detail_le detail = length-truncate_le (fields_joined detail)

abbrev is_line : Bytes → Bool
is_line [] = true
is_line (c ∷ cs) = elim (c == 10) [ true ↦ false | false ↦ is_line cs ]

IsLine-is_line : (cs : Bytes) → is_line cs ≡ true → IsLine cs
IsLine-is_line [] e = tt
IsLine-is_line (c ∷ cs) e = elim (Bool-cases (c == 10)) [
  | inl h ↦ ground arith
  | inr h ↦ (h, IsLine-is_line cs (ground arith))
]

event_label-IsShort :
    (kind : NotifyKind)
    → (is_line (codes (event_label kind)) ≡ true) × (length (codes (event_label kind)) ≤ 17)
unfolding event_label
event_label-IsShort waiting_input = (refl, omega arith)
event_label-IsShort ended = (refl, omega arith)
event_label-IsShort error = (refl, omega arith)
event_label-IsShort ci_escalation = (refl, omega arith)
event_label-IsShort review_done = (refl, omega arith)
event_label-IsShort agent_update = (refl, omega arith)

-- A line of at most `n` code points.
abbrev pub IsShort : ℕ → Bytes → Type 0
IsShort n cs = IsLine cs × (length cs ≤ n)

IsShort-append :
    (m n : ℕ) (xs ys : Bytes) → IsShort m xs → IsShort n ys → IsShort (m + n) (xs ++ ys)
IsShort-append m n xs ys (a, l) (b, k) =
    (All-append _ xs ys a b, omega (arith, length-append xs ys))

IsShort-le : (m n : ℕ) (xs : Bytes) → m ≤ n → IsShort m xs → IsShort n xs
IsShort-le m n xs h (a, l) = (a, omega arith)

module _ (label host : Bytes) where
  abbrev base : NotifyKind → Bytes
  base kind = label ++ codes " on " ++ host ++ codes ": " ++ codes (event_label kind)

  base-IsShort :
      (kind : NotifyKind)
      → IsLine label
      → IsLine host
      → IsShort (length label + 4 + length host + 2 + 17) (base kind)
  base-IsShort kind l h =
      let (line, short) = event_label-IsShort kind in
      let e = codes (event_label kind) in
      let on = codes " on " in
      let colon = codes ": " in
      let lh = length label + 4 + length host in
      IsShort-append (lh + 2) 17 (label ++ on ++ host ++ colon) e
        (IsShort-append lh 2 (label ++ on ++ host) colon
          (IsShort-append (length label + 4) (length host) (label ++ on) host
            (IsShort-append (length label) 4 label on (l, omega arith)
              (IsLine-is_line on refl, omega arith))
            (h, omega arith))
          (IsLine-is_line colon refl, omega arith))
        (IsLine-is_line e line, short)

  -- Where neither the label nor the host has a newline, the text has none, whatever the detail holds;
  -- and it has at most 227 code points more than the label and the host together.
  pub format-IsShort :
      (kind : NotifyKind) (detail : Bytes)
      → IsLine label
      → IsLine host
      → IsShort (length label + length host + 227) (format label host kind detail)
  unfolding format
  format-IsShort kind detail l h =
      let limit = length label + length host + 227 in
      let d = clean_detail detail in
      let dot = codes " · " in
      let clean : IsShort 201 d = (IsLine-clean_detail detail, length-clean_detail_le detail) in
      let b = base-IsShort kind l h in
      let short = IsShort-le _ limit (base kind) (omega arith) b in
      let full =
        if-elim (IsShort limit) {x = base kind} {y = base kind ++ dot ++ d} (is_empty d)
          (λ _. short)
          (λ _.
            IsShort-le (length label + 4 + length host + 2 + 17 + 3 + 201) limit _ (omega arith) (
              IsShort-append (length label + 4 + length host + 2 + 17 + 3) 201 (base kind ++ dot) d
                (IsShort-append (length label + 4 + length host + 2 + 17) 3 (base kind) dot b
                  (IsLine-is_line dot refl, omega arith))
                clean)) in
      (elim kind
          as (λ k.
            IsShort limit (base k)
            → IsShort limit (if is_empty d then base k else base k ++ dot ++ d)
            → IsShort limit (format label host k detail)) [
              | agent_update ↦ λ alone both.
                  if-elim (IsShort limit) (is_empty d) (λ _. alone)
                    (λ _. IsShort-le 201 limit d (omega arith) clean)
              | _ ↦ λ alone both. both
            ])
        short full
