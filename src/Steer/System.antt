-- ===== src/Steer/System.antt =====
-- The steerer among its callers: every interleaving of the calls, the timers, the delivery loop and the
-- store, with a log of the notes that were typed.
use aiman.Base.{ℕ, ◌<◌, ◌≡◌, List, [], ◌∷◌, ◌++◌, Option, none, some, String}
use aiman.Todo.Types.{TodoAuthor, TodoItem}
use aiman.Todo.Change.{Op}
use aiman.Steer.{
  SteerRecord, QueuedNote, SteerSession, Steerer, SteerWindow, enqueue, enqueue_todo, take_window,
  records_of, append_notes, forget_session, load_notes, load_delivered, retry_mark, try_to_type,
  deliver_start, hold_delivery, fail_delivery, finish_delivery,
}

-- What the one delivery loop is at, outside the lock: nothing, the target that types a batch, or the
-- store that marks one as typed at a time.
pub data Job : Type 0 where
  idle : Job
  typing : List QueuedNote → Job
  marking : List QueuedNote → ℕ → Job

pub record System : Type 0 where
  pub steerer : Steerer
  pub windows : List SteerWindow
  pub job : Job
  pub log : List QueuedNote

pub data SteerStep : System → System → Type 0 where
  enqueues :
      (y : System) (author : TodoAuthor) (text : String)
      → SteerStep y (record y { steerer = enqueue author text y.steerer })
  enqueues_todo :
      (y : System) (author : TodoAuthor) (ops : List Op)
      → SteerStep y (record y { steerer = enqueue_todo author ops y.steerer })
  takes :
      (y : System) (st : SteerSession)
      → y.steerer.session ≡ some st
      → SteerStep y (record y {
        steerer = record (y.steerer) { session = some (take_window st).1 };
        windows = y.windows ++ (take_window st).0 ∷ [];
      })
  appends :
      (y : System) (w : SteerWindow) (ws : List SteerWindow) (items : List TodoItem)
      (now first_id second_id : ℕ) (failure : String)
      → y.windows ≡ w ∷ ws
      → SteerStep y (record y {
        steerer =
            append_notes w.generation (records_of w items now first_id second_id) failure y.steerer;
        windows = ws;
      })
  forgets : (y : System) → SteerStep y (record y { steerer = forget_session y.steerer })
  loads :
      (y : System) (recs : List SteerRecord) (at : ℕ)
      → SteerStep y (record y { steerer = load_delivered at (load_notes recs y.steerer) })
  retries :
      (y : System) (batch : List QueuedNote) (at : ℕ)
      → y.job ≡ idle
      → deliver_start y.steerer ≡ retry_mark batch at
      → SteerStep y (record y { job = marking batch at })
  starts :
      (y : System) (batch : List QueuedNote)
      → y.job ≡ idle
      → deliver_start y.steerer ≡ try_to_type batch
      → SteerStep y (record y { job = typing batch })
  holds :
      (y : System) (batch : List QueuedNote) (why : String)
      → y.job ≡ typing batch
      → SteerStep y (record y { steerer = hold_delivery why y.steerer; job = idle })
  fails :
      (y : System) (batch : List QueuedNote) (failure : String)
      → y.job ≡ typing batch
      → SteerStep y (record y { steerer = fail_delivery failure y.steerer; job = idle })
  types :
      (y : System) (batch : List QueuedNote) (at : ℕ)
      → y.job ≡ typing batch
      → 0 < at
      → SteerStep y (record y { job = marking batch at; log = y.log ++ batch })
  marks :
      (y : System) (batch : List QueuedNote) (at : ℕ) (failure : Option String)
      → y.job ≡ marking batch at
      → SteerStep y (record y { steerer = finish_delivery batch at failure y.steerer; job = idle })

-- The steerer as `newSteerer` makes it.
abbrev pub new_steerer : System
new_steerer = record {
  steerer = record { session = none; seq = 0; generations = 0 };
  windows = [];
  job = idle;
  log = [];
}

pub data Reach (first : System) : System → Type 0 where
  here : Reach first first
  next : {y z : System} → Reach first y → SteerStep y z → Reach first z
