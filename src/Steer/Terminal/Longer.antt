-- ===== src/Steer/Terminal/Longer.antt =====
-- A note that was typed and not submitted, and another note that is queued before the retry: the text of
-- the two, as `joinSteerText` makes it, is another text, and it is typed behind the first one.
use aiman.Base.{
  ℕ, ◌≡◌, ◌≢◌, refl, sym, ap, ◌∙◌, true, false, List, [], ◌∷◌, ◌++◌, none, some, ◌==◌, length,
  arith, append_assoc, Bool-cases, inl, inr, length-append, All,
}
use aiman.Base.Text.{Bytes, bytes_eq_iff, split, split-ne-nil, push_first}
use aiman.Base.Fields.{trim}
use aiman.Steer.Terminal.{
  Key, typed, Answers, type_and_submit, submit_typed, Deliveries, steer_progress,
  finish_steer_submit, unix_lines, full_lines, join_spaced, steer_one_line, deliver_steer,
}

push_first-append :
    (c : ℕ) (xs ys : List Bytes) → xs ≢ [] → push_first c (xs ++ ys) ≡ push_first c xs ++ ys
push_first-append c [] ys f = ground (arith, f refl)
push_first-append c (x ∷ xs) ys f = refl

split-append : (a b : Bytes) → split (a ++ b'\n' ∷ b) ≡ split a ++ split b
unfolding split
split-append [] b = refl
split-append (c ∷ a) b = elim (Bool-cases (c == b'\n')) [
  | inl e ↦ rw e (ap (λ (ls : List Bytes). [] ∷ ls) (split-append a b))
  | inr e ↦ rw e (
      ap (push_first c) (split-append a b)
      ∙ push_first-append c (split a) (split b) (split-ne-nil a))
]

full_lines-append : (xs ys : List Bytes) → full_lines (xs ++ ys) ≡ full_lines xs ++ full_lines ys
unfolding full_lines
full_lines-append [] ys = refl
full_lines-append (x ∷ xs) ys =
    elim (trim x)
      as (λ t.
        elim t [ [] ↦ full_lines (xs ++ ys) | c ∷ cs ↦ (c ∷ cs) ∷ full_lines (xs ++ ys) ]
        ≡ elim t [ [] ↦ full_lines xs | c ∷ cs ↦ (c ∷ cs) ∷ full_lines xs ] ++ full_lines ys) [
          | [] ↦ full_lines-append xs ys
          | c ∷ cs ↦ ap (λ (ls : List Bytes). (c ∷ cs) ∷ ls) (full_lines-append xs ys)
        ]

join_spaced-append :
    (xs ys : List Bytes)
    → xs ≢ []
    → ys ≢ []
    → join_spaced (xs ++ ys) ≡ join_spaced xs ++ b' ' ∷ join_spaced ys
unfolding join_spaced
join_spaced-append [] ys f g = ground (arith, f refl)
join_spaced-append (x ∷ []) [] f g = ground (arith, g refl)
join_spaced-append (x ∷ []) (y ∷ ys) f g = refl
join_spaced-append (x ∷ z ∷ xs) ys f g =
    ap (λ (s : Bytes). x ++ b' ' ∷ s) (join_spaced-append (z ∷ xs) ys (ground arith) g)
    ∙ sym (append_assoc x (b' ' ∷ join_spaced (z ∷ xs)) (b' ' ∷ join_spaced ys))

abbrev pub NoReturn : Bytes → Type 0
NoReturn = All (λ c. (c == b'\r') ≡ false)

unix_lines-newline : (b : Bytes) → unix_lines (b'\n' ∷ b) ≡ b'\n' ∷ unix_lines b
unfolding unix_lines
unix_lines-newline [] = refl
unix_lines-newline (d ∷ b) = refl

unix_lines-append :
    (a b : Bytes) → NoReturn a → unix_lines (a ++ b'\n' ∷ b) ≡ unix_lines a ++ b'\n' ∷ unix_lines b
unfolding unix_lines
unix_lines-append [] [] n = refl
unix_lines-append [] (d ∷ b) n = refl
unix_lines-append (c ∷ []) b n = rw n.0 (ap (λ (s : Bytes). c ∷ s) (unix_lines-newline b))
unix_lines-append (c ∷ d ∷ a) b n =
    rw n.0 (ap (λ (s : Bytes). c ∷ s) (unix_lines-append (d ∷ a) b n.1))

join_spaced-ne-nil : (ls : List Bytes) → join_spaced ls ≢ [] → ls ≢ []
unfolding join_spaced
join_spaced-ne-nil [] f = ground (arith, f refl)
join_spaced-ne-nil (l ∷ ls) f = ground arith

-- An empty line stands between the two notes.
steer_one_line-append :
    (a b : Bytes)
    → NoReturn a
    → steer_one_line a ≢ []
    → steer_one_line b ≢ []
    → steer_one_line (a ++ b'\n' ∷ b'\n' ∷ b) ≡ steer_one_line a ++ b' ' ∷ steer_one_line b
unfolding steer_one_line full_lines split
steer_one_line-append a b n f g =
    let join_full = λ (ls : List Bytes). join_spaced (full_lines ls) in
    let la = split (unix_lines a) in
    let lb = split (unix_lines b) in
    ap (λ (s : Bytes). join_full (split s))
      (unix_lines-append a (b'\n' ∷ b) n
        ∙ ap (λ (s : Bytes). unix_lines a ++ b'\n' ∷ s) (unix_lines-newline b))
    ∙ ap join_full (split-append (unix_lines a) (b'\n' ∷ unix_lines b))
    ∙ ap (λ (ls : List Bytes). join_full (la ++ ls)) (split-append [] (unix_lines b))
    ∙ ap join_spaced (full_lines-append la ([] ∷ lb))
    ∙ join_spaced-append (full_lines la) (full_lines lb) (join_spaced-ne-nil (full_lines la) f)
        (join_spaced-ne-nil (full_lines lb) g)

append-ne : (x y : Bytes) → x ≢ x ++ b' ' ∷ y
append-ne x y e = omega (arith, ap length e, length-append x (b' ' ∷ y))

steer_progress-other :
    (x line : Bytes) (now : ℕ)
    → x ≢ line
    → steer_progress line (record {
      flight = some (record { text = x; typed_before = true; submit_at = 0 });
      settled_at = now;
    })
      ≡ record { typed_before = false; submit_at = 0 }
unfolding steer_progress
steer_progress-other x line now f = ground (arith, bytes_eq_iff x line, f)

-- The terminal can be written to.
pub record CanType (a : Answers) : Type 0 where
  pub found : a.found ≡ true
  pub pty : a.legacy ≡ false
  pub running : a.running ≡ true
  pub writes : a.write_ok ≡ true

module _ (strip : Bytes → Bytes) (attempts : ℕ) where
  deliver_steer_fresh :
      (text : Bytes) (a : Answers) (d : Deliveries)
      → CanType a
      → steer_progress (steer_one_line text) d ≡ record { typed_before = false; submit_at = 0 }
      → (deliver_steer strip attempts text a d).keys
        ≡ typed (steer_one_line text) ∷ (submit_typed strip attempts (steer_one_line text) a).0
  unfolding deliver_steer type_and_submit
  deliver_steer_fresh text a d c e = ground (arith, c.found, c.pty, c.running, c.writes)

  deliver_steer_stuck :
      (text : Bytes) (a : Answers) (now : ℕ)
      → CanType a
      → a.enter_ok ≡ false
      → deliver_steer strip attempts text a (record { flight = none; settled_at = now }) ≡ record {
        keys = typed (steer_one_line text) ∷ [];
        delivered = none;
        kept = record {
          flight = some (record { text = steer_one_line text; typed_before = true; submit_at = 0 });
          settled_at = now;
        };
      }
  unfolding deliver_steer type_and_submit submit_typed steer_progress finish_steer_submit
  deliver_steer_stuck text a now c e = ground (arith, c.found, c.pty, c.running, c.writes)

  -- The terminal takes the text of a note, but not Return; then another note is queued behind it, and the
  -- terminal takes the text of the two: the text of the first note is typed a second time, with no Return
  -- between. The first note has no carriage return, and neither of the two is blank.
  pub retyped :
      (first second : Bytes) (a b : Answers) (now : ℕ)
      → NoReturn first
      → steer_one_line first ≢ []
      → steer_one_line second ≢ []
      → CanType a
      → a.enter_ok ≡ false
      → CanType b
      → let one =
          deliver_steer strip attempts first a (record { flight = none; settled_at = now }) in
        let both = steer_one_line first ++ b' ' ∷ steer_one_line second in
        one.keys ++ (deliver_steer strip attempts (first ++ b'\n' ∷ b'\n' ∷ second) b one.kept).keys
        ≡ typed (steer_one_line first) ∷ typed both ∷ (submit_typed strip attempts both b).0
  retyped first second a b now n f g c e c2 =
      let x = steer_one_line first in
      let both = x ++ b' ' ∷ steer_one_line second in
      let text = first ++ b'\n' ∷ b'\n' ∷ second in
      let kept : Deliveries = record {
        flight = some (record { text = x; typed_before = true; submit_at = 0 });
        settled_at = now;
      } in
      let line : steer_one_line text ≡ both = steer_one_line-append first second n f g in
      rw (deliver_steer_stuck first a now c e) (
        ap (λ (keys : List Key). typed x ∷ keys)
          (deliver_steer_fresh text b kept c2 (
              steer_progress-other x (steer_one_line text) now
                (λ same. append-ne x (steer_one_line second) (same ∙ line)))
            ∙ ap (λ (l : Bytes). typed l ∷ (submit_typed strip attempts l b).0) line))
