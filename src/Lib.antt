-- ===== src/Lib.antt =====
-- Aiman runs coding agents in terminals on a host: a server on the host keeps the sessions, and
-- terminal clients, a phone gateway and the agents' own hooks talk to it. This library models the
-- parts of it that decide: what a client's screen shows, what a session's to-do list may hold, what
-- the host tells its operator, who may call it, and which agent runs or is updated.
--
-- The parts, and the code that they model:
-- - Pane: the capture of a screen, sent as a difference. Pane.Hash and Pane.Delta are
--   internal/pane/delta.go; Pane.Poll joins it with the server's memory
--   (internal/server/handlers_pty.go) and the client (internal/usecase/pane_refresh.go).
-- - Todo: the list of a session. Todo.Types is internal/domain/todo.go; Todo.Done, Todo.Gate and
--   Todo.Change are the files of those names in internal/todo; Todo.Store, Todo.Stamp and
--   Todo.Update are internal/todo/store.go, where `Files.update` is `update`: a step from one `Disk`
--   to the next. Todo.Normalize and Todo.Mirror are mirror.go: Todo.Mirror.Matching pairs the entries
--   of an agent's task list with the items, Todo.Mirror decides what they change, and
--   Todo.Mirror.Layout is `snapshotOrder`. Todo.Render is render.go, the texts about a list.
-- - Spool: internal/ptyhold/spool.go.
-- - Notify: internal/notify. Notify.Recorder turns observations into rows; Notify.Dispatch is the
--   tick that hands the rows to sinks; Notify.Text is format.go.
-- - Gateway: internal/gateway. Gateway.Files is the locked change of a file, on which
--   Gateway.Pairing (paircode.go) and Gateway.Devices (devices.go) stand; Gateway.Auth (auth.go)
--   asks the devices, and Gateway.Allowlist (allowlist.go) says what a device may call.
-- - Agents: Agents.Budget and Agents.Price are budget.go and price.go of internal/usage;
--   Agents.Pick is internal/coordinator/pick.go with the tiers of internal/infra/config;
--   Agents.Policy and Agents.Gate are policy.go and gate.go of internal/agentupdate.
-- - Ci: internal/ciwatch, the watch on a session's pull request, with the tables of
--   internal/infra/sqlite/ci_state.go. Ci is github.go, Ci.Tables the tables, Ci.Text the notes, and
--   Ci.Watch and Ci.Poll are checks.go, comments.go and watcher.go, from `reactToChecks` to
--   `PollSession`. It writes to-dos through Todo.Update.
-- - Coordinator: internal/coordinator. Coordinator is branch.go, and Coordinator.Consult reads the
--   report of a consult (consult.go).
-- - Steer: internal/server/steer.go, the notes that are relayed to an agent. Steer has the operations
--   of one session's queue, and Steer.System lets them interleave with the timers, the delivery loop
--   and the store. Steer.Queue is an abstract queue that runs on labels, and Steer.Trace reads each
--   step of the system as a label. Steer.Terminal is internal/server/steer_delivery.go with
--   `TypeAndSubmit` and its helpers (internal/usecase/session_terminal.go): a note is typed and Return
--   is pressed. A note about a to-do list has its text from Todo.Render.
-- - Sessions: internal/domain/session_parent.go, the parent that a new session may have.
-- - Attach: the frames of a terminal client, internal/server/attach_framing.go and the client in
--   internal/server/client.go.
-- Base has the shared names, lists and texts; each part's Tests hold runs of its definitions.
--
-- How the code is rendered. State is a record and a step is a function from state to state. What the
-- operating system, the clock, random numbers, SHA-256, letter case, a sink or a store answer is an
-- argument, for every answer. Numbers that the code keeps in 64-bit integers and only counts up are
-- natural numbers without a bound; times are natural numbers. The hash of a screen keeps its
-- wrap-around at 2^64. Texts are lists of bytes where the code works on bytes, and lists of code
-- points where it works on runes or trims; a text is taken to be valid UTF-8. Every loop is a
-- recursion on its list, but for the climb of Sessions to the root, which has fuel for one round a
-- session and one more, and the loop of Attach over its stream, which needs a round for each call
-- of the client and one more. Locks are not modelled: they make each call one
-- step. JSON, the file system and atomic renames stand outside: a file is absent, unreadable, or a
-- value, and a write may fail.
--
-- Not modelled: the terminal interface (internal/ui), the commands (cmd), the remaining handlers of
-- the server, the adapters to ssh, git, SQLite and the vendors (internal/infra, but for the tiers and
-- the tables of the watch), the session life cycle (internal/usecase), the verification runs
-- (internal/verify), the transcripts of internal/usage and internal/limits. They are glue to programs
-- whose behaviour is not in the repository, or later work. Of the steering, the gate
-- `steerReady`, the events and the tables are left out. Of internal/ciwatch, the ticker, the kicks,
-- `SetWatch` and the calls of gh are left out; what gh answers is an argument. third_party/vt10x is a
-- copy of another project; a screen that it renders is an argument.
pub mod Base
pub mod Pane
pub mod Todo
pub mod Spool
pub mod Notify
pub mod Gateway
pub mod Agents
pub mod Ci
pub mod Coordinator
pub mod Steer
pub mod Sessions
pub mod Attach
