-- ===== src/Steer.antt =====
-- internal/server/steer.go: the notes for the agent of one session, from the coalescing window to the
-- delivery. `none` is a session that the map does not hold; its object is replaced by another one after
-- a Forget, and `generation` tells the objects apart. Times are natural numbers, the zero time 0.
pub mod System
mod Fits
mod Finish
mod Moves
pub mod Order
pub mod Queue
mod Refines
pub mod Trace
mod Accepts
pub mod Contract
pub mod Terminal
mod Tests
use aiman.Base.{
  ℕ, zero, suc, ◌+◌, Bool, true, false, not, ◌&&◌, ◌||◌, List, [], ◌∷◌, ◌++◌, Option, none, some,
  String, str_eq, ltb, ◌==◌, if◌then◌else◌,
}
use aiman.Base.Space.{is_blank}
use aiman.Base.Join.{join_with}
use aiman.Todo.Types.{
  TodoAuthor, author_user, author_agent, author_aiman, author_verifier, other_author, TodoItem,
  is_agent,
}
use aiman.Todo.Change.{Op, steers_agent}
use aiman.Todo.Render.{format_steer_note}

-- The fields of `SteerRecord` that differ between the notes of one session; an id of 0 is a note that
-- the store did not take.
pub record SteerRecord : Type 0 where
  pub id : ℕ
  pub author : TodoAuthor
  pub text : String
  pub created_at : ℕ

pub record QueuedNote : Type 0 where
  pub seq : ℕ
  pub rec : SteerRecord
  pub submitted_at : ℕ

pub record SteerSession : Type 0 where
  pub ops : List Op
  pub op_authors : List TodoAuthor
  pub texts : List String
  pub text_author : TodoAuthor
  pub armed : Bool
  pub pending : List QueuedNote
  pub last_delivered : ℕ
  pub last_error : String
  pub held : String
  pub generation : ℕ

pub record Steerer : Type 0 where
  pub session : Option SteerSession
  pub seq : ℕ
  pub generations : ℕ

abbrev pub no_author : TodoAuthor
no_author = other_author ""

abbrev pub fresh_session : ℕ → SteerSession
fresh_session generation = record {
  ops = [];
  op_authors = [];
  texts = [];
  text_author = no_author;
  armed = false;
  pending = [];
  last_delivered = 0;
  last_error = "";
  held = "";
  generation = generation;
}

-- `sessionLocked`, and a change of the session that it returns.
unfoldable pub session_locked : Steerer → SteerSession
session_locked s = elim s.session [ some st ↦ st | none ↦ fresh_session s.generations ]

unfoldable pub on_session : (SteerSession → SteerSession) → Steerer → Steerer
unfolding session_locked
on_session f s = record s {
  session = some (f (session_locked s));
  generations = elim s.session [ some _ ↦ s.generations | none ↦ s.generations + 1 ];
}

abbrev pub is_nil {ℓ} : {A : Type ℓ} → List A → Bool
is_nil [] = true
is_nil (x ∷ xs) = false

-- The changes of a session by an enqueue, and by a delivery that is known from before.
abbrev pub with_text : TodoAuthor → String → SteerSession → SteerSession
with_text author text st = record st {
  text_author = if is_nil st.texts then author else st.text_author;
  texts = st.texts ++ text ∷ [];
  armed = true;
}

abbrev pub keep_session : SteerSession → SteerSession
keep_session st = st

unfoldable pub enqueue : TodoAuthor → String → Steerer → Steerer
unfolding on_session
enqueue author text s =
    if is_agent author || is_blank text then s else on_session (with_text author text) s

abbrev author_eq : TodoAuthor → TodoAuthor → Bool
author_eq author_user author_user = true
author_eq author_agent author_agent = true
author_eq author_aiman author_aiman = true
author_eq author_verifier author_verifier = true
author_eq (other_author a) (other_author b) = str_eq a b
author_eq _ _ = false

unfoldable pub holds_author : TodoAuthor → List TodoAuthor → Bool
holds_author a [] = false
holds_author a (b ∷ authors) = author_eq a b || holds_author a authors

abbrev pub with_ops : TodoAuthor → List Op → SteerSession → SteerSession
unfolding holds_author
with_ops author ops st = record st {
  ops = st.ops ++ ops;
  op_authors =
      if holds_author author st.op_authors then st.op_authors else st.op_authors ++ author ∷ [];
  armed = true;
}

unfoldable pub enqueue_todo : TodoAuthor → List Op → Steerer → Steerer
unfolding on_session steers_agent
enqueue_todo author ops s =
    if not (steers_agent (record { author = author; ops = ops; rev = 0 }))
    then s
    else on_session (with_ops author ops) s

-- What a flush took out of the window, and the object that it works for.
pub record SteerWindow : Type 0 where
  pub ops : List Op
  pub authors : List TodoAuthor
  pub texts : List String
  pub text_author : TodoAuthor
  pub generation : ℕ

-- The first part of `flush`: the buffers are taken and the timer is gone.
unfoldable pub take_window : SteerSession → SteerWindow × SteerSession
take_window st = (
  record {
    ops = st.ops;
    authors = st.op_authors;
    texts = st.texts;
    text_author = st.text_author;
    generation = st.generation;
  },
  record st { ops = []; op_authors = []; texts = []; text_author = no_author; armed = false },
)

abbrev first_author : List TodoAuthor → TodoAuthor
first_author [] = no_author
first_author (a ∷ authors) = a

-- The second part: at most two records. `items` is the list that the target reports, empty after an
-- error; `first_id` and `second_id` are the ids that the store gives.
unfoldable pub records_of : SteerWindow → List TodoItem → ℕ → ℕ → ℕ → List SteerRecord
unfolding format_steer_note join_with
records_of w items now first_id second_id =
    (if is_nil w.ops
      then []
      else record {
        id = first_id;
        author = first_author w.authors;
        text = format_steer_note w.authors w.ops items;
        created_at = now;
      }
        ∷ [])
    ++ (if is_nil w.texts
        then []
        else record {
          id = second_id;
          author = w.text_author;
          text = join_with "\n\n" w.texts;
          created_at = now;
        }
          ∷ [])

-- `s.seq++`, and a note with it, for each record.
unfoldable pub number_notes : ℕ → List SteerRecord → List QueuedNote
number_notes seq [] = []
number_notes seq (r ∷ recs) =
    record { seq = seq + 1; rec = r; submitted_at = 0 } ∷ number_notes (seq + 1) recs

abbrev pub count_of : List SteerRecord → ℕ
count_of [] = 0
count_of (r ∷ recs) = suc (count_of recs)

-- The last part of `flush`; a session that was forgotten meanwhile takes nothing.
unfoldable pub append_notes : ℕ → List SteerRecord → String → Steerer → Steerer
unfolding number_notes
append_notes generation recs failure s = elim s.session [
  | none ↦ s
  | some st ↦ if not (st.generation == generation) then s else record s {
    session = some (record st {
      pending = st.pending ++ number_notes s.seq recs;
      last_error = if str_eq failure "" then st.last_error else failure;
    });
    seq = s.seq + count_of recs;
  }
]

-- `Forget`, in memory.
unfoldable pub forget_session : Steerer → Steerer
forget_session s = record s { session = none }

abbrev pub holds_record : ℕ → List QueuedNote → Bool
holds_record id [] = false
holds_record id (q ∷ pending) = q.rec.id == id || holds_record id pending

-- The loop of `Load` over the records of the session.
abbrev pub with_loaded : ℕ → SteerRecord → SteerSession → SteerSession
with_loaded seq r st = record st {
  pending = st.pending ++ record { seq = seq; rec = r; submitted_at = 0 } ∷ [];
}

unfoldable pub load_notes : List SteerRecord → Steerer → Steerer
unfolding on_session session_locked
load_notes [] s = s
load_notes (r ∷ recs) s =
    let st = session_locked s in
    let opened = on_session keep_session s in
    load_notes recs (
      if holds_record r.id st.pending
      then opened
      else on_session (with_loaded (s.seq + 1) r) (record s { seq = s.seq + 1 }))

-- Its loop over the last deliveries.
abbrev pub with_delivered : ℕ → SteerSession → SteerSession
with_delivered at st = record st {
  last_delivered = if ltb st.last_delivered at then at else st.last_delivered;
}

unfoldable pub load_delivered : ℕ → Steerer → Steerer
unfolding on_session
load_delivered at s = on_session (with_delivered at) s

-- `submittedBatch`: the notes that were typed before, and the latest time.
unfoldable pub submitted_notes : List QueuedNote → List QueuedNote
submitted_notes [] = []
submitted_notes (q ∷ batch) =
    let rest = submitted_notes batch in if q.submitted_at == 0 then rest else q ∷ rest

unfoldable pub latest : List QueuedNote → ℕ
latest [] = 0
latest (q ∷ batch) =
    let rest = latest batch in if ltb rest q.submitted_at then q.submitted_at else rest

abbrev pub texts_of : List QueuedNote → List String
texts_of [] = []
texts_of (q ∷ batch) = q.rec.text ∷ texts_of batch

unfoldable pub join_steer_text : List QueuedNote → String
join_steer_text batch = join_with "\n\n" (texts_of batch)

unfoldable pub note_ids : List QueuedNote → List ℕ
note_ids [] = []
note_ids (q ∷ batch) = let rest = note_ids batch in if q.rec.id == 0 then rest else q.rec.id ∷ rest

abbrev pub batch_has_seq : List QueuedNote → ℕ → Bool
batch_has_seq [] seq = false
batch_has_seq (q ∷ batch) seq = q.seq == seq || batch_has_seq batch seq

-- What `deliver` starts with: nothing, a mark to be retried, or a message for the target.
pub data Start : Type 0 where
  nothing_to_do : Start
  retry_mark : List QueuedNote → ℕ → Start
  try_to_type : List QueuedNote → Start

unfoldable pub start_of : List QueuedNote → Start
unfolding submitted_notes latest
start_of [] = nothing_to_do
start_of (q ∷ batch) =
    let sent = submitted_notes (q ∷ batch) in
    if is_nil sent then try_to_type (q ∷ batch) else retry_mark sent (latest sent)

abbrev pub pending_of : Steerer → List QueuedNote
pending_of s = elim s.session [ none ↦ [] | some st ↦ st.pending ]

unfoldable pub deliver_start : Steerer → Start
unfolding start_of
deliver_start s = start_of (pending_of s)

abbrev pub if_there : (SteerSession → SteerSession) → Steerer → Steerer
if_there f s = record s { session = elim s.session [ none ↦ none | some st ↦ some (f st) ] }

-- The target is not ready.
unfoldable pub hold_delivery : String → Steerer → Steerer
hold_delivery why s = if_there (λ st. record st { held = why }) s

-- The target failed.
unfoldable pub fail_delivery : String → Steerer → Steerer
fail_delivery failure s = if_there (λ st. record st { held = ""; last_error = failure }) s

unfoldable pub mark_submitted : List QueuedNote → ℕ → List QueuedNote → List QueuedNote
mark_submitted batch at [] = []
mark_submitted batch at (q ∷ pending) =
    (if batch_has_seq batch q.seq then record q { submitted_at = at } else q)
    ∷ mark_submitted batch at pending

unfoldable pub delete_batch : List QueuedNote → List QueuedNote → List QueuedNote
delete_batch batch [] = []
delete_batch batch (q ∷ pending) =
    let rest = delete_batch batch pending in if batch_has_seq batch q.seq then rest else q ∷ rest

-- `finishDelivery`, after the store took the mark or failed.
unfoldable pub finish_delivery : List QueuedNote → ℕ → Option String → Steerer → Steerer
unfolding mark_submitted delete_batch
finish_delivery batch at (some failure) s =
    if_there
      (λ st. record st {
        pending = mark_submitted batch at st.pending;
        held = "";
        last_error = failure;
      })
      s
finish_delivery batch at none s =
    if_there
      (λ st. record st {
        pending = delete_batch batch st.pending;
        last_delivered = at;
        held = "";
        last_error = "";
      })
      s
