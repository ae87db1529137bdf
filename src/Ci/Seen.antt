-- ===== src/Ci/Seen.antt =====
-- Which review comments a poll of `reactToComments` has marked, when it returned.
use aiman.Base.{
  ℕ, ◌≡◌, refl, sym, ◌∙◌, Bool, true, false, ◌||◌, List, [], ◌∷◌, some, String, str_eq_refl, ◌==◌,
  Bool-cases, inl, inr, arith, All, ◌⊎◌, if-elim,
}
use mathlib.Core.Path.{subst}
use aiman.Todo.Types.{TodoItem}
use aiman.Ci.{Check, PrView, ReviewComment}
use aiman.Ci.Tables.{store_failed, SeenRow, is_seen, mark_seen, clear_check, mark_check_escalated}
use aiman.Ci.Watch.{
  Session, World, Outside, Outcome, returns, fails_with, Step, continue, ◌>>=◌, ◌>>◌, give, ask,
  call, mutate_todos, append_unless_open, close_open, escalate, mark_escalated,
}
use aiman.Ci.Poll.{process, save_seen, read_comments, add_review_todo, is_history}
use aiman.Ci.Laws.{IsKept, process-Keeps}

-- What ran before a step that returned.
continue-eq-returns :
    {A B : Type 0} (x : Outcome A × World) (next : A → Step B) {b : B}
    → (continue x next).0 ≡ returns b
    → (a : A) × (x.0 ≡ returns a)
      × ((next a x.1).0 ≡ returns b)
      × ((continue x next).1 ≡ (next a x.1).1)
continue-eq-returns (returns a, w) next e = (a, refl, e, refl)
continue-eq-returns (fails_with f, w) next e = absurd (ground arith)

abbrev is_in : ℕ → List ℕ → Bool
is_in id [] = false
is_in id (c ∷ ids) = id == c || is_in id ids

module _ (session : String) where
  mark_seen-seen :
      (id : ℕ) (ids : List ℕ) (rows : List SeenRow)
      → is_seen session id rows ≡ true
      → is_seen session id (mark_seen session ids rows) ≡ true
  unfolding mark_seen is_seen
  mark_seen-seen id [] rows h = h
  mark_seen-seen id (c ∷ ids) rows h = mark_seen-seen id ids _ (ground arith)

  mark_seen-in :
      (id : ℕ) (ids : List ℕ) (rows : List SeenRow)
      → is_in id ids ≡ true
      → is_seen session id (mark_seen session ids rows) ≡ true
  unfolding mark_seen is_seen
  mark_seen-in id [] rows h = absurd (ground arith)
  mark_seen-in id (c ∷ ids) rows h = elim (Bool-cases (id == c)) [
    | inl e ↦
        let same : id ≡ c = ground arith in
        rw same (mark_seen-seen c ids _ (ground (arith, str_eq_refl session)))
    | inr e ↦ mark_seen-in id ids _ (ground arith)
  ]

module _ (o : Outside) (s : Session) where
  abbrev pub StaysSeen : World → World → Type 0
  StaysSeen a b =
      (id : ℕ) → is_seen s.id id a.tables.seen ≡ true → is_seen s.id id b.tables.seen ≡ true

  StaysSeen-same : (a b : World) → b.tables.seen ≡ a.tables.seen → StaysSeen a b
  StaysSeen-same a b e id h = rw e h

  mutate_todos-seen :
      (fn : List TodoItem → List TodoItem) (w : World)
      → (mutate_todos o s fn w).1.tables.seen ≡ w.tables.seen
  unfolding mutate_todos call
  mutate_todos-seen fn w = ground arith

  escalate-seen :
      (pr : PrView) (c : Check) (w : World) → (escalate o s pr c w).1.tables.seen ≡ w.tables.seen
  unfolding escalate call mark_escalated mark_check_escalated
  escalate-seen pr c w = ground arith

  pub StaysSeen-IsKept : IsKept o s (λ _. Unit {0}) StaysSeen
  unfolding clear_check
  StaysSeen-IsKept = record {
    same = λ w id h. h;
    chain = λ a b c p q id h. q id (p id h);
    calling = λ w n id h. h;
    adding = λ w ref text.
        StaysSeen-same w (mutate_todos o s (append_unless_open ref text) w).1
          (mutate_todos-seen (append_unless_open ref text) w);
    closing = λ w ref.
        StaysSeen-same w (mutate_todos o s (close_open ref) w).1
          (mutate_todos-seen (close_open ref) w);
    noting = λ w notes id h. h;
    viewing = λ w viewer id h. h;
    watching = λ w watches id h. h;
    seeing = λ w ids id h. mark_seen-seen s.id id ids w.tables.seen h;
    clearing = λ w other _ id h. h;
    recording = λ w other sha id h. h;
    escalating = λ w pr c _. StaysSeen-same w (escalate o s pr c w).1 (escalate-seen pr c w);
  }

  -- Each comment was seen before, or is one of those processed.
  abbrev Handled : List SeenRow → List ReviewComment → List ℕ → Type 0
  Handled seen comments ids =
      All (λ c. (is_seen s.id c.id seen ≡ true) ⊎ (is_in c.id ids ≡ true)) comments

  Handled-more :
      (seen : List SeenRow) (comments : List ReviewComment) (id : ℕ) (ids : List ℕ)
      → Handled seen comments ids
      → Handled seen comments (id ∷ ids)
  Handled-more seen [] id ids h = tt
  Handled-more seen (c ∷ comments) id ids (inl h, hs) =
      (inl h, Handled-more seen comments id ids hs)
  Handled-more seen (c ∷ comments) id ids (inr h, hs) =
      (inr (ground arith), Handled-more seen comments id ids hs)

  Handled-pushed :
      (seen : List SeenRow) (c : ReviewComment) (comments : List ReviewComment)
      (x : Outcome (List ℕ) × World) {ids : List ℕ}
      → ((given : List ℕ) → x.0 ≡ returns given → Handled seen comments given)
      → (continue x (λ given. give (c.id ∷ given))).0 ≡ returns ids
      → Handled seen (c ∷ comments) ids
  Handled-pushed seen c comments (returns given, w) {ids} ih e =
      let same : ids ≡ c.id ∷ given = ground arith in
      subst (λ k. Handled seen (c ∷ comments) k) (sym same)
        (inr (ground arith), Handled-more seen comments c.id given (ih given refl))
  Handled-pushed seen c comments (fails_with f, w) ih e = absurd (ground arith)

  process-Handled :
      (seen : List SeenRow) (since : ℕ) (viewer : String) (pr : PrView)
      (comments : List ReviewComment) (w : World) (ids : List ℕ)
      → (process o s seen since viewer pr comments w).0 ≡ returns ids
      → Handled seen comments ids
  unfolding process
  process-Handled seen since viewer pr [] w ids e = tt
  process-Handled seen since viewer pr (c ∷ comments) w ids e =
      let rest : Step (List ℕ) = process o s seen since viewer pr comments in
      let todo : Step (Unit {0}) = add_review_todo o s pr c in
      if-elim {A = Step (List ℕ)}
        (λ step. (step w).0 ≡ returns ids → Handled seen (c ∷ comments) ids)
        (is_seen s.id c.id seen)
        (λ h e'. (inl h, process-Handled seen since viewer pr comments w ids e'))
        (λ _.
          if-elim {A = Step (List ℕ)}
            (λ step. (step w).0 ≡ returns ids → Handled seen (c ∷ comments) ids)
            (is_history viewer since c)
            (λ _.
              Handled-pushed seen c comments (rest w) {ids = ids}
                (λ given e'. process-Handled seen since viewer pr comments w given e'))
            (λ _. Handled-pushed seen c comments ((todo >> rest) w) {ids = ids} (λ given e'.
              let (_, _, r, _) = continue-eq-returns (todo w) (λ _. rest) {b = given} e' in
              process-Handled seen since viewer pr comments (todo w).1 given r)))
        e

  save_seen-seen :
      (id : ℕ) (ids : List ℕ) (w : World)
      → (is_seen s.id id w.tables.seen ≡ true) ⊎ (is_in id ids ≡ true)
      → (save_seen o s ids w).0 ≡ returns tt
      → is_seen s.id id (save_seen o s ids w).1.tables.seen ≡ true
  unfolding save_seen call
  save_seen-seen id [] w (inl h) e = h
  save_seen-seen id [] w (inr h) e = absurd (ground arith)
  save_seen-seen id (c ∷ ids) w (inl h) e = elim (Bool-cases (o.fails w.calls)) [
    | inl f ↦ absurd (ground arith)
    | inr f ↦ rw (f, call) (mark_seen-seen s.id id (c ∷ ids) w.tables.seen h)
  ]
  save_seen-seen id (c ∷ ids) w (inr h) e = elim (Bool-cases (o.fails w.calls)) [
    | inl f ↦ absurd (ground arith)
    | inr f ↦ rw (f, call) (mark_seen-in s.id id (c ∷ ids) w.tables.seen h)
  ]

  -- All the comments are marked.
  abbrev pub AllSeen : List ReviewComment → World → Type 0
  AllSeen comments w = All (λ c. is_seen s.id c.id w.tables.seen ≡ true) comments

  save_seen-AllSeen :
      (seen : List SeenRow) (comments : List ReviewComment) (ids : List ℕ) (w : World)
      → Handled seen comments ids
      → ((id : ℕ) → is_seen s.id id seen ≡ true → is_seen s.id id w.tables.seen ≡ true)
      → (save_seen o s ids w).0 ≡ returns tt
      → AllSeen comments (save_seen o s ids w).1
  save_seen-AllSeen seen [] ids w h keep e = tt
  save_seen-AllSeen seen (c ∷ comments) ids w (h, hs) keep e = (
    save_seen-seen c.id ids w (elim h [ inl g ↦ inl (keep c.id g) | inr g ↦ inr g ]) e,
    save_seen-AllSeen seen comments ids w hs keep e,
  )

  read_rows :
      (w : World) (seen : List SeenRow)
      → ((call o s store_failed >> ask (λ v. v.tables.seen)) w).0 ≡ returns seen
      → ((call o s store_failed >> ask (λ v. v.tables.seen)) w).1.tables.seen ≡ seen
  unfolding call
  read_rows w seen e = ground arith

  pub read_comments-AllSeen :
      (since : ℕ) (viewer : String) (pr : PrView) (comments : List ReviewComment) (w : World)
      → (read_comments o s since viewer pr (some comments) w).0 ≡ returns tt
      → AllSeen comments (read_comments o s since viewer pr (some comments) w).1
  unfolding read_comments
  read_comments-AllSeen since viewer pr comments w e =
      let rows : Step (List SeenRow) = call o s store_failed >> ask (λ v. v.tables.seen) in
      let handle : List SeenRow → Step (Unit {0}) =
        λ seen. process o s seen since viewer pr comments >>= save_seen o s in
      let (seen, got, next, last) = continue-eq-returns (rows w) handle {b = tt} e in
      let (ids, done_ids, saved, end) =
        continue-eq-returns (process o s seen since viewer pr comments (rows w).1) (save_seen o s)
          {b = tt} next in
      let v = (process o s seen since viewer pr comments (rows w).1).1 in
      let handled = process-Handled seen since viewer pr comments (rows w).1 ids done_ids in
      let kept =
        process-Keeps o s (λ _. Unit {0}) StaysSeen StaysSeen-IsKept seen since viewer pr comments
          (rows w).1 in
      let read : (rows w).1.tables.seen ≡ seen = read_rows w seen got in
      let all = save_seen-AllSeen seen comments ids v handled (λ id h. kept id (rw read h)) saved in
      subst (λ x. AllSeen comments x) (sym (last ∙ end)) all
