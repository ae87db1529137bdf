-- ===== src/Pane/Poll/RoundTrip.antt =====
-- After a poll the client has the server's screen.
use aiman.Base.{
  ℕ, ◌<◌, ◌≡◌, ◌≢◌, ◌⊎◌, inl, inr, refl, sym, ◌∙◌, Bool, true, false, List, [], ◌∷◌, some, none,
  arith, Bool-cases, Option, String,
}
use aiman.Base.Int.{pos}
use aiman.Base.Text.{Bytes, bytes_eq, bytes_eq_iff}
use aiman.Pane.Hash.{screen_hash, screen_hash-ne-nil}
use aiman.Pane.Delta.{
  RowPatch, CaptureReply, reply_with, reply_diff, reply_for, scroll_patch, diff_screen,
  apply_screen, apply_scroll,
}
use aiman.Pane.Delta.Scroll.{scroll_patch-apply_scroll}
use aiman.Pane.Delta.Rows.{diff_screen-apply_screen}
use aiman.Pane.Poll.{
  Panes, remembered, preview_reply, pane_capture_fields, PaneCache, Outcome, update, failed,
  no_text, apply_pty_preview, poll,
}

-- The client has `screen`, under its hash.
abbrev pub Shows : Bytes → Outcome → Type 0
Shows screen (update u) =
    (u.text ≡ screen) × (u.cache.text ≡ screen) × (u.cache.hash ≡ screen_hash screen)
Shows screen (failed why) = (screen ≡ []) × (why ≡ no_text)

-- The cache of a client that has had no screen yet, or the last one under its hash.
abbrev pub IsSynced : PaneCache → Type 0
IsSynced cache = (cache.hash ≡ []) ⊎ (cache.hash ≡ screen_hash cache.text)

-- The two texts do not share a hash by accident.
abbrev pub NoCollision : Bytes → Bytes → Type 0
NoCollision a b = screen_hash a ≡ screen_hash b → a ≡ b

-- What the client makes of a reply.
receive : CaptureReply → PaneCache → Outcome
unfolding pane_capture_fields apply_pty_preview
receive reply cache = apply_pty_preview (pane_capture_fields reply) cache

reply_diff_text :
    (h text : Bytes) → reply_diff h (false, text, []) ≡ record (reply_with h) { text = text }
reply_diff_text h [] = refl
reply_diff_text h (c ∷ text) = refl

diff_screen_same :
    (prev next : Bytes) {replace : Bytes} {rows : List RowPatch}
    → diff_screen prev next ≡ (true, replace, rows)
    → prev ≡ next
unfolding diff_screen
diff_screen_same prev next e = ground (arith, bytes_eq_iff prev next)

synced_text :
    (cache : PaneCache) (text : Bytes)
    → IsSynced cache
    → NoCollision cache.text text
    → cache.hash ≡ screen_hash text
    → cache.text ≡ text
synced_text cache text s c e = elim s [
  | inl z ↦ absurd (screen_hash-ne-nil text (sym e ∙ z))
  | inr z ↦ c (sym z ∙ e)
]

module _ (screen : Bytes) (cache : PaneCache) where
  abbrev h : Bytes
  h = screen_hash screen

  receive-unchanged :
      cache.text ≡ screen
      → Shows screen (receive (record (reply_with h) { unchanged = true }) cache)
  unfolding receive
  receive-unchanged e = ground (arith, screen_hash-ne-nil screen)

  receive-text : Shows screen (receive (record (reply_with h) { text = screen }) cache)
  unfolding receive
  receive-text = ground (arith, screen_hash-ne-nil screen)

  receive-rows :
      {rows : List RowPatch}
      → rows ≢ []
      → apply_screen cache.text [] rows ≡ some screen
      → Shows screen (receive (record (reply_with h) { rows = rows }) cache)
  unfolding receive
  receive-rows ne e = ground (arith, screen_hash-ne-nil screen)

  receive-scroll :
      (n : ℕ) {append : Bytes}
      → (0 < n) ⊎ (append ≢ [])
      → apply_scroll cache.text (pos n) append ≡ some screen
      → Shows screen (receive (record (reply_with h) { drop = pos n; append = append }) cache)
  unfolding receive
  receive-scroll n moves e = ground (arith, screen_hash-ne-nil screen)

  module _ (prev : Bytes) where
    receive-scroll_patch :
        {n : ℕ} {append : Bytes}
        → cache.text ≡ prev
        → scroll_patch prev screen ≡ some (n, append)
        → Shows screen (receive (record (reply_with h) { drop = pos n; append = append }) cache)
    receive-scroll_patch {n} {append} e p =
        let (moves, gives) = scroll_patch-apply_scroll prev screen {n = n} {append = append} p in
        receive-scroll n moves (rw e gives)

    receive-diff_screen :
        {replace : Bytes} {rows : List RowPatch}
        → cache.text ≡ prev
        → diff_screen prev screen ≡ (false, replace, rows)
        → Shows screen (receive (reply_diff h (false, replace, rows)) cache)
    receive-diff_screen {replace} {rows} e p =
        elim (diff_screen-apply_screen prev screen {replace = replace} {rows = rows} p) [
          | inl q ↦ rw (q.0, q.1, reply_diff_text h screen) receive-text
          | inr q ↦ rw q.0 (receive-rows q.1 (rw e q.2))
        ]

    receive-reply_diff :
        (d : Bool × Bytes × List RowPatch)
        → cache.text ≡ prev
        → diff_screen prev screen ≡ d
        → Shows screen (receive (reply_diff h d) cache)
    receive-reply_diff (true, replace, rows) e p =
        receive-unchanged (e ∙ diff_screen_same prev screen {replace = replace} {rows = rows} p)
    receive-reply_diff (false, replace, rows) e p = receive-diff_screen e p

    -- The hash that the client holds is that of its own screen.
    receive-held :
        (o : Option (ℕ × Bytes))
        → cache.text ≡ prev
        → scroll_patch prev screen ≡ o
        → Shows screen (
            receive
              (elim o [
                | some (n, appended) ↦ record (reply_with h) { drop = pos n; append = appended }
                | none ↦ reply_diff h (diff_screen prev screen)
              ])
              cache)
    receive-held none e p = receive-reply_diff (diff_screen prev screen) e refl
    receive-held (some (n, append)) e p = receive-scroll_patch {n = n} {append = append} e p

    receive-reply_for :
        IsSynced cache
        → NoCollision cache.text screen
        → NoCollision cache.text prev
        → Shows screen (receive (reply_for prev screen cache.hash) cache)
    unfolding reply_for
    receive-reply_for s c d = elim (Bool-cases (bytes_eq cache.hash h)) [
      | inl e ↦ rw e (receive-unchanged (synced_text cache screen s c ((bytes_eq_iff _ _).0 e)))
      | inr e ↦ rw e (elim (Bool-cases (bytes_eq cache.hash (screen_hash prev))) [
        | inl f ↦ rw f (
            receive-held (scroll_patch prev screen)
              (synced_text cache prev s d ((bytes_eq_iff _ _).0 f)) refl)
        | inr f ↦ rw f receive-text
      ])
    ]

-- Whatever the server remembers for the session, and so whichever clients polled it before, the
-- client has the server's screen after its poll, under that screen's hash. Only an empty screen
-- can end in an error instead, that of a reply with no text. The client's cache is empty or holds a
-- screen under its hash, and that screen shares no hash by accident with the new one or with the
-- remembered one.
pub poll-Shows :
    (id : String) (screen : Bytes) (panes : Panes) (cache : PaneCache)
    → IsSynced cache
    → NoCollision cache.text screen
    → NoCollision cache.text (remembered id panes)
    → Shows screen (poll id screen panes cache).0
unfolding poll preview_reply receive
poll-Shows id screen panes cache = receive-reply_for screen cache (remembered id panes)
