-- ===== src/Pane/Tests.antt =====
-- Screens at work.
use aiman.Base.{◌∷◌, [], ◌≡◌, refl, sym, inr, ◌*◌, ◌≤◌, length, false, arith, some}
use aiman.Base.Int.{pos}
use aiman.Base.Text.{Bytes, codes, split, join}
use aiman.Pane.Hash.{screen_hash}
use aiman.Pane.Delta.{diff_screen, diff_rows, scroll_patch, scroll_from, reply_for}
use aiman.Pane.Delta.Economy.{reply_for-rows_le}
use aiman.Pane.Poll.{Panes, PaneCache, remembered, poll}
use aiman.Pane.Poll.RoundTrip.{Shows, NoCollision, poll-Shows}

hash_of_empty : screen_hash [] ≡ codes "cbf29ce484222325"
unfolding screen_hash
hash_of_empty = refl

hash_of_a : screen_hash (codes "a") ≡ codes "af63dc4c8601ec8c"
unfolding screen_hash
hash_of_a = refl

abbrev before : Bytes
before = codes "one\ntwo\nthree"

abbrev after : Bytes
after = codes "two\nthree\nfour"

scrolled : scroll_patch before after ≡ some (1, codes "four")
unfolding scroll_patch scroll_from split join
scrolled = refl

patched :
    diff_screen before (codes "one\n2\nthree")
    ≡ (false, [], record { index = pos 1; line = codes "2" } ∷ [])
unfolding diff_screen diff_rows split
patched = refl

abbrev memory : Panes
memory = ("s1", before) ∷ []

abbrev cache : PaneCache
cache = record { hash = codes "8d5aa9b22c2004f5"; text = before }

before_hash : screen_hash before ≡ codes "8d5aa9b22c2004f5"
unfolding screen_hash
before_hash = refl

before-after_differ : NoCollision before after
unfolding screen_hash
before-after_differ e = absurd (ground arith)

poll-Shows_example : Shows after (poll "s1" after memory cache).0
unfolding remembered
poll-Shows_example =
    poll-Shows "s1" after memory cache (inr (sym before_hash)) before-after_differ (λ _. refl)

reply_for-rows_le_example :
    length (reply_for before (codes "one\n2\nthree") cache.hash).rows * 2 ≤ 3
unfolding split
reply_for-rows_le_example = reply_for-rows_le before (codes "one\n2\nthree") cache.hash
