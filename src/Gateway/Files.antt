-- ===== src/Gateway/Files.antt =====
-- A file that is read, changed and written under a lock: what `PairCodes` and `DeviceStore` of
-- internal/gateway do with theirs. JSON and the file system stand outside.
use aiman.Base.{Bool, List, [], if◌then◌else◌}

-- What a file holds: nothing yet, something that is no list of these, or the list.
pub data File (A : Type 0) : Type 0 where
  absent unreadable : File A
  stored : List A → File A

-- Whether the lock is taken and the write succeeds.
pub record Io : Type 0 where
  pub lock_ok : Bool
  pub save_ok : Bool

pub data FileError : Type 0 where
  lock_failed load_failed save_failed not_found : FileError

pub data Result (R : Type 0) : Type 0 where
  ok : R → Result R
  err : FileError → Result R

-- What a change wants: the file as it is, another list, or an error.
pub data Edit (R A : Type 0) : Type 0 where
  keep : R → Edit R A
  save : R → List A → Edit R A
  refuse : FileError → Edit R A

module _ {R A : Type 0} (io : Io) where
  abbrev pub finish : File A → Edit R A → Result R × File A
  finish file (keep r) = (ok r, file)
  finish file (save r items) = if io.save_ok then (ok r, stored items) else (err save_failed, file)
  finish file (refuse e) = (err e, file)

  abbrev pub edit_loaded : File A → (List A → Edit R A) → Result R × File A
  edit_loaded absent f = finish absent (f [])
  edit_loaded unreadable f = (err load_failed, unreadable)
  edit_loaded (stored items) f = finish (stored items) (f items)

  -- `withFileLock` about `load`, the change and `save`.
  abbrev pub edit : File A → (List A → Edit R A) → Result R × File A
  edit file f = if io.lock_ok then edit_loaded file f else (err lock_failed, file)

-- The items of a file that can be read.
abbrev pub items : {A : Type 0} → File A → List A
items absent = []
items unreadable = []
items (stored l) = l
