-- ===== src/Pane/Delta/Economy.antt =====
-- What a reply costs: row patches never touch more than half of the rows.
use aiman.Base.{◌*◌, ◌≤◌, arith, length}
use aiman.Base.Text.{Bytes, split}
use aiman.Pane.Hash.{screen_hash}
use aiman.Pane.Delta.{reply_diff, diff_screen, reply_for}

reply_diff-rows_le :
    (prev cur : Bytes)
    → length (reply_diff (screen_hash cur) (diff_screen prev cur)).rows * 2 ≤ length (split cur)
unfolding diff_screen
reply_diff-rows_le prev cur = ground arith

-- Whatever the remembered screen and the client's hash, a reply patches at most half of the new
-- screen's rows.
pub reply_for-rows_le :
    (prev cur have : Bytes) → length (reply_for prev cur have).rows * 2 ≤ length (split cur)
unfolding reply_for
reply_for-rows_le prev cur have = ground (arith, reply_diff-rows_le prev cur)
