-- ===== src/Ci/Comments.antt =====
-- The review comments of a poll without those that an earlier one has handled.
use aiman.Base.{
  ℕ, ◌+◌, ◌≡◌, refl, ap, Bool, true, false, ◌||◌, List, [], ◌∷◌, some, String, str_eq, ◌==◌,
  if◌then◌else◌, Bool-cases, inl, inr, arith,
}
use aiman.Ci.{PrView, ReviewComment}
use aiman.Ci.Tables.{is_seen, PrWatchState}
use aiman.Ci.Watch.{Session, World, Outside, Answers, returns, Step, ◌>>=◌, ◌>>◌, give, call}
use aiman.Ci.Poll.{
  process, save_seen, read_comments, react_to_comments, add_review_todo, is_history, login_after,
}
use aiman.Ci.Seen.{StaysSeen, AllSeen}

-- The ids of the comments of one answer.
abbrev pub has_comment : ℕ → List ReviewComment → Bool
has_comment id [] = false
has_comment id (c ∷ comments) = id == c.id || has_comment id comments

-- The comments of an answer without those of an earlier one.
abbrev pub unhandled : List ReviewComment → List ReviewComment → List ReviewComment
unhandled handled [] = []
unhandled handled (c ∷ comments) =
    let rest = unhandled handled comments in if has_comment c.id handled then rest else c ∷ rest

module _ (o : Outside) (s : Session) where
  -- Comments that are all marked are passed over.
  process-AllSeen :
      (since : ℕ) (viewer : String) (pr : PrView) (comments : List ReviewComment) (w v : World)
      → AllSeen o s comments w
      → process o s w.tables.seen since viewer pr comments v ≡ (returns [], v)
  unfolding process
  process-AllSeen since viewer pr [] w v h = refl
  process-AllSeen since viewer pr (c ∷ comments) w v (h, hs) =
      rw (h, process) (process-AllSeen since viewer pr comments w v hs)

  -- The to-dos and the notes stay as they are.
  abbrev pub Untouched : World → World → Type 0
  Untouched a b = (b.disk ≡ a.disk) × (b.notes ≡ a.notes)

  read_comments-Untouched :
      (since : ℕ) (viewer : String) (pr : PrView) (comments : List ReviewComment) (w : World)
      → AllSeen o s comments w
      → Untouched w (read_comments o s since viewer pr (some comments) w).1
  unfolding read_comments call save_seen
  read_comments-Untouched since viewer pr comments w h = elim (Bool-cases (o.fails w.calls)) [
    | inl f ↦ rw (f, call) (refl, refl)
    | inr f ↦
        rw
          (f, process-AllSeen since viewer pr comments w (record w { calls = w.calls + 1 }) h, call)
          (refl, refl)
  ]

  AllSeen-has :
      (id : ℕ) (comments : List ReviewComment) (w : World)
      → AllSeen o s comments w
      → has_comment id comments ≡ true
      → is_seen s.id id w.tables.seen ≡ true
  AllSeen-has id [] w h e = absurd (ground arith)
  AllSeen-has id (c ∷ comments) w (h, hs) e = elim (Bool-cases (id == c.id)) [
    | inl g ↦ let same : id ≡ c.id = ground arith in rw same h
    | inr g ↦ AllSeen-has id comments w hs (ground arith)
  ]

  pub AllSeen-kept :
      (comments : List ReviewComment) (w v : World)
      → StaysSeen o s w v
      → AllSeen o s comments w
      → AllSeen o s comments v
  AllSeen-kept [] w v k h = tt
  AllSeen-kept (c ∷ comments) w v k (h, hs) = (k c.id h, AllSeen-kept comments w v k hs)

  -- What is processed is what is left without the comments that are marked.
  process-unhandled :
      (since : ℕ) (viewer : String) (pr : PrView) (handled comments : List ReviewComment)
      (w : World)
      → AllSeen o s handled w
      → process o s w.tables.seen since viewer pr comments
        ≡ process o s w.tables.seen since viewer pr (unhandled handled comments)
  unfolding process
  process-unhandled since viewer pr handled [] w h = refl
  process-unhandled since viewer pr handled (c ∷ comments) w h =
      let rest = process-unhandled since viewer pr handled comments w h in
      elim (Bool-cases (has_comment c.id handled)) [
        | inl g ↦ rw (g, process, AllSeen-has c.id handled w h g) rest
        | inr g ↦
            let next : Step (List ℕ) → Step (List ℕ) = λ r.
              if is_seen s.id c.id w.tables.seen
              then r
              else if is_history viewer since c
              then r >>= (λ ids. give (c.id ∷ ids))
              else add_review_todo o s pr c >> r >>= (λ ids. give (c.id ∷ ids)) in
            rw g (ap next rest)
      ]

  read_comments-unhandled :
      (since : ℕ) (viewer : String) (pr : PrView) (handled comments : List ReviewComment)
      (w : World)
      → AllSeen o s handled w
      → read_comments o s since viewer pr (some comments) w
        ≡ read_comments o s since viewer pr (some (unhandled handled comments)) w
  unfolding read_comments call
  read_comments-unhandled since viewer pr handled comments w h =
      elim (Bool-cases (o.fails w.calls)) [
        | inl f ↦ rw (f, call) refl
        | inr f ↦
            let same = process-unhandled since viewer pr handled comments w h in
            rw (f, call)
              (ap (λ (r : Step (List ℕ)). (r >>= save_seen o s) (record w { calls = w.calls + 1 }))
                same)
      ]

  pub react_to_comments-unhandled :
      (b : Answers) (st : PrWatchState) (pr : PrView) (handled comments : List ReviewComment)
      (v : World)
      → b.comments ≡ some comments
      → AllSeen o s handled v
      → react_to_comments o s b st pr v
        ≡ react_to_comments o s (record b { comments = some (unhandled handled comments) }) st pr v
  unfolding react_to_comments
  react_to_comments-unhandled b st pr handled comments v e h =
      let viewer = login_after b.login v.viewer in
      let since = if st.watch_since == 0 then s.created_at else st.watch_since in
      elim (Bool-cases (str_eq viewer "")) [
        | inl g ↦ rw g refl
        | inr g ↦
            rw (g, e)
              (read_comments-unhandled since viewer pr handled comments
                (record v { viewer = viewer }) h)
      ]

  pub react_to_comments-Untouched :
      (b : Answers) (st : PrWatchState) (pr : PrView) (comments : List ReviewComment) (v : World)
      → AllSeen o s comments v
      → Untouched v (react_to_comments o s (record b { comments = some comments }) st pr v).1
  unfolding react_to_comments
  react_to_comments-Untouched b st pr comments v h =
      let viewer = login_after b.login v.viewer in
      let since = if st.watch_since == 0 then s.created_at else st.watch_since in
      elim (Bool-cases (str_eq viewer "")) [
        | inl g ↦ rw g (refl, refl)
        | inr g ↦
            rw g (read_comments-Untouched since viewer pr comments (record v { viewer = viewer }) h)
      ]
