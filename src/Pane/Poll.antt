-- ===== src/Pane/Poll.antt =====
-- One poll of a preview: `previewReply` and `paneCaptureFields` of internal/server/handlers_pty.go,
-- and `applyPTYPreview` of internal/usecase/pane_refresh.go on the decoded answer. The two clocks
-- that ride along (last_output, title_changed_at) are left out: they do not touch the screen.
pub mod RoundTrip
use aiman.Base.{
  Bool, true, false, not, ◌||◌, List, [], ◌∷◌, Option, none, some, String, str_eq, if◌then◌else◌,
  ltb,
}
use aiman.Base.Int.{ℤ, pos, negsuc}
use aiman.Base.Text.{Bytes}
use aiman.Pane.Hash.{screen_hash}
use aiman.Pane.Delta.{RowPatch, CaptureReply, is_nil, reply_for, apply_scroll, apply_screen}

-- `s.panes`: the text that the server remembers for each session; a missing one reads as "".
abbrev pub Panes : Type 0
Panes = List (String × Bytes)

unfoldable pub remembered : String → Panes → Bytes
remembered id [] = []
remembered id ((key, text) ∷ panes) = if str_eq key id then text else remembered id panes

unfoldable pub remember : String → Bytes → Panes → Panes
remember id text [] = (id, text) ∷ []
remember id text ((key, old) ∷ panes) =
    if str_eq key id then (key, text) ∷ panes else (key, old) ∷ remember id text panes

unfoldable pub drop_pane_memory : String → Panes → Panes
drop_pane_memory id [] = []
drop_pane_memory id ((key, old) ∷ panes) =
    let rest = drop_pane_memory id panes in if str_eq key id then rest else (key, old) ∷ rest

-- The server's answer to a poll that holds the hash `have`.
unfoldable pub preview_reply : String → Bytes → Bytes → Panes → CaptureReply × Panes
preview_reply id text have panes =
    (reply_for (remembered id panes) text have, remember id text panes)

-- The decoded body: a field that the server left out has Go's zero value.
pub record PtyPreviewResult : Type 0 where
  pub text : Bytes
  pub hash : Bytes
  pub unchanged : Bool
  pub rows : List RowPatch
  pub drop : ℤ
  pub append : Bytes

abbrev pub body_with : Bytes → PtyPreviewResult
body_with h = record {
  text = [];
  hash = h;
  unchanged = false;
  rows = [];
  drop = pos 0;
  append = [];
}

-- `n > 0` of an int.
abbrev is_positive : ℤ → Bool
is_positive (pos n) = ltb 0 n
is_positive (negsuc _) = false

unfoldable pub pane_capture_fields : CaptureReply → PtyPreviewResult
pane_capture_fields reply =
    if reply.unchanged
    then record (body_with reply.hash) { unchanged = true }
    else if not (is_nil reply.rows)
    then record (body_with reply.hash) { rows = reply.rows }
    else if not (is_nil reply.append) || is_positive reply.drop
    then record (body_with reply.hash) {
      drop = if is_positive reply.drop then reply.drop else pos 0;
      append = reply.append;
    }
    else record (body_with reply.hash) { text = reply.text }

pub record PaneCache : Type 0 where
  pub hash : Bytes
  pub text : Bytes

pub record PreviewUpdate : Type 0 where
  pub text : Bytes
  pub unchanged : Bool
  pub cache : PaneCache

-- The errors of `applyPTYPreview`; after one the client asks for a full capture.
pub data PreviewError : Type 0 where
  no_text scroll_not_applied rows_not_applied : PreviewError

pub data Outcome : Type 0 where
  update : PreviewUpdate → Outcome
  failed : PreviewError → Outcome

-- The update of a screen that applied; the hash of the text stands in for one that was not sent.
applied : PreviewError → Bytes → Option Bytes → Outcome
applied why h none = failed why
applied why h (some text) = update (record {
  text = text;
  unchanged = false;
  cache = record { hash = if is_nil h then screen_hash text else h; text = text };
})

unfoldable pub apply_pty_preview : PtyPreviewResult → PaneCache → Outcome
unfolding applied
apply_pty_preview res cache =
    let h = if not (is_nil res.hash) then res.hash else cache.hash in
    if res.unchanged
    then update (record {
      text = cache.text;
      unchanged = true;
      cache = record { hash = h; text = cache.text };
    })
    else if not (is_nil res.rows)
    then applied rows_not_applied h (apply_screen cache.text [] res.rows)
    else if not (is_nil res.append) || is_positive res.drop
    then applied scroll_not_applied h (apply_scroll cache.text res.drop res.append)
    else if is_nil res.text
    then failed no_text
    else applied no_text h (some res.text)

-- A poll of session `id`, whose screen is `screen`: the client's outcome and the server's memory.
unfoldable pub poll : String → Bytes → Panes → PaneCache → Outcome × Panes
poll id screen panes cache =
    let (reply, panes') = preview_reply id screen cache.hash panes in
    (apply_pty_preview (pane_capture_fields reply) cache, panes')
