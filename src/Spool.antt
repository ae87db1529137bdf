-- ===== src/Spool.antt =====
-- internal/ptyhold/spool.go: the writer that appends a terminal's output to the file `spool` and
-- moves it to `spool.old` before it grows past a limit. The two files and the handle are the state;
-- what the operating system answers is an `Answers`.
pub mod Bounds
pub mod Rotation
mod Tests
use aiman.Base.{
  ℕ, ◌+◌, Bool, true, false, List, [], ◌++◌, Option, none, some, length, take, ltb, if◌then◌else◌,
}
use aiman.Base.Text.{Bytes}

-- The files and the writer; `handle` is whether `w.f` is set.
pub record SpoolWriter : Type 0 where
  pub spool : Option Bytes
  pub old : Option Bytes
  pub handle : Bool
  pub size : ℕ

-- Of one call: whether `spool` can be opened, whether its size can be read, whether the write
-- stopped with an error, after so many bytes, and whether `spool.old` can be removed and `spool` be
-- renamed.
pub record Answers : Type 0 where
  pub open_ok : Bool
  pub stat_ok : Bool
  pub short : Option ℕ
  pub remove_ok : Bool
  pub rename_ok : Bool

-- What `spool` holds; nothing when it is not there.
unfoldable pub contents : Option Bytes → Bytes
contents none = []
contents (some bytes) = bytes

-- `os.OpenFile` with O_CREATE, then `Stat`.
unfoldable pub open_spool : Answers → SpoolWriter → SpoolWriter
unfolding contents
open_spool a w = record w {
  spool = some (contents w.spool);
  handle = true;
  size = if a.stat_ok then length (contents w.spool) else w.size;
}

-- `os.Rename` onto `spool.old`, which it replaces; a missing `spool` cannot be renamed.
abbrev pub renamed : Answers → SpoolWriter → SpoolWriter
renamed a w = elim w.spool [
  | none ↦ w
  | some bytes ↦ if a.rename_ok then record w { spool = none; old = some bytes } else w
]

-- `rotateLocked`: the errors of both calls are ignored.
unfoldable pub rotate : Answers → SpoolWriter → SpoolWriter
rotate a w = renamed a (record w { old = if a.remove_ok then none else w.old; handle = false })

-- The end of `write`: on a nil file, `Write` fails and nothing is stored.
unfoldable pub append : Answers → Bytes → SpoolWriter → SpoolWriter
unfolding contents
append a bytes w =
    if w.handle
    then elim a.short [
      | none ↦ record w { spool = some (contents w.spool ++ bytes); size = w.size + length bytes }
      | some n ↦ record w { spool = some (contents w.spool ++ take n bytes) }
    ]
    else w

-- `write`, once the file is open.
unfoldable pub write_open : ℕ → Answers → Bytes → SpoolWriter → SpoolWriter
unfolding append rotate
write_open limit a bytes w =
    append a bytes (if ltb limit (w.size + length bytes) then rotate a w else w)

unfoldable pub write : ℕ → Answers → Bytes → SpoolWriter → SpoolWriter
unfolding write_open open_spool
write limit a bytes w =
    if w.handle
    then write_open limit a bytes w
    else if a.open_ok
    then write_open limit a bytes (open_spool a w)
    else w

unfoldable pub close : SpoolWriter → SpoolWriter
close w = record w { handle = false }
