-- ===== src/Gateway/Allowlist.antt =====
-- internal/gateway/allowlist.go: the methods that a device may call.
use aiman.Base.{Bool, false, ◌&&◌, ◌||◌, List, [], ◌∷◌, ◌++◌, String, str_eq}

abbrev pub device_read_methods : List String
device_read_methods =
    "ping" ∷ "session.list" ∷ "session.get" ∷ "session.read" ∷ "session.wait" ∷ "session.log"
    ∷ "pty.capture" ∷ "todo.get" ∷ "todo.summary" ∷ "notify.since" ∷ "usage.get" ∷ "ci.get"
    ∷ "agents.status" ∷ "repo.list" ∷ "host.stats" ∷ []

abbrev pub device_write_methods : List String
device_write_methods =
    "session.prompt" ∷ "session.create" ∷ "session.rename" ∷ "session.move" ∷ "session.restart"
    ∷ "session.terminate" ∷ "steer.send" ∷ "todo.add" ∷ "todo.update" ∷ "todo.move" ∷ "todo.remove"
    ∷ "todo.ensure_done" ∷ "todo.mark_met" ∷ "todo.gate" ∷ "todo.approve_design"
    ∷ "todo.approve_review" ∷ "ci.watch" ∷ "pty.input" ∷ "push.register" ∷ "push.unregister" ∷ []

abbrev pub device_destructive_methods : List String
device_destructive_methods =
    "pty.kill" ∷ "pty.forget" ∷ "session.forget" ∷ "review.post" ∷ "agents.update"
    ∷ "agents.move_prefix" ∷ []

unfoldable pub contains : String → List String → Bool
contains m [] = false
contains m (x ∷ xs) = str_eq x m || contains m xs

-- `deviceMayCall`, with the sets of `toSet`.
unfoldable pub device_may_call : String → Bool → Bool
unfolding contains
device_may_call method allow_destructive =
    contains method (device_read_methods ++ device_write_methods)
    || allow_destructive && contains method device_destructive_methods
