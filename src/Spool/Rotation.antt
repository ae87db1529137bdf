-- ===== src/Spool/Rotation.antt =====
-- The write that overflows, and the next one.
use aiman.Base.{
  ℕ, ◌+◌, ◌≤◌, ◌<◌, ◌≡◌, ap, ◌∙◌, true, false, ◌++◌, Option, none, some, length, arith,
  if◌then◌else◌,
}
use aiman.Base.Text.{Bytes}
use aiman.Spool.{SpoolWriter, Answers, contents, open_spool, rotate, append, write_open, write}

-- A write to a closed file that has room for it.
write_reopened :
    (limit : ℕ) (b : Answers) (more : Bytes) (spool old : Option Bytes) (size : ℕ)
    → length (contents spool) + length more ≤ limit
    → b.open_ok ≡ true
    → b.stat_ok ≡ true
    → b.short ≡ none
    → write limit b more (record { spool = spool; old = old; handle = false; size = size })
      ≡ record {
        spool = some (contents spool ++ more);
        old = old;
        handle = true;
        size = length (contents spool) + length more;
      }
unfolding write write_open open_spool append contents
write_reopened limit b more spool old size le opens stats whole =
    ground (arith, opens, stats, whole, le)

abbrev with_size : Option Bytes → Bytes → ℕ → SpoolWriter
with_size old bytes n = record { spool = some bytes; old = old; handle = true; size = n }

module _ (limit : ℕ) (a : Answers) (segment : Bytes) (old : Option Bytes) (size : ℕ) where
  abbrev full : SpoolWriter
  full = record { spool = some segment; old = old; handle = true; size = size }

  -- What the write that overflows leaves: a closed file, with none of the bytes.
  abbrev rotated : SpoolWriter
  rotated =
      if a.rename_ok
      then record { spool = none; old = some segment; handle = false; size = size }
      else record {
        spool = some segment;
        old = if a.remove_ok then none else old;
        handle = false;
        size = size;
      }

  write_overflow :
      (bytes : Bytes) → limit < size + length bytes → write limit a bytes full ≡ rotated
  unfolding write write_open append rotate
  write_overflow bytes lt = ground arith

  -- The open segment has too little room for the bytes of a write, and the next write fits, works, and
  -- opens the file. The first write's bytes are stored nowhere. Where the segment could be renamed, it
  -- is `spool.old`, and the next write's bytes are all of the new one; where it could not, they are
  -- added to it, if there is room, and `spool.old` is gone, unless it could not be removed either.
  pub write_rotated :
      (b : Answers) (bytes more : Bytes)
      → limit < size + length bytes
      → length more ≤ limit
      → b.open_ok ≡ true
      → b.stat_ok ≡ true
      → b.short ≡ none
      → let next = write limit b more (write limit a bytes full) in
        (a.rename_ok ≡ true
          → next
            ≡ record { spool = some more; old = some segment; handle = true; size = length more })
        × (a.rename_ok ≡ false
            → length segment + length more ≤ limit
            → next ≡ record {
              spool = some (segment ++ more);
              old = if a.remove_ok then none else old;
              handle = true;
              size = length segment + length more;
            })
  unfolding contents
  write_rotated b bytes more lt le opens stats whole =
      let overflow = write_overflow bytes lt in
      (
        (λ e.
            rw (overflow, e)
              (reopened none (some segment) (omega (arith, le))
                ∙ ap (with_size (some segment) more) (omega arith))),
        (λ e room.
            rw (overflow, e) (reopened (some segment) (if a.remove_ok then none else old) room)),
      )
    where
      reopened :
          (spool before : Option Bytes)
          → length (contents spool) + length more ≤ limit
          → write limit b more (record { spool = spool; old = before; handle = false; size = size })
            ≡ record {
              spool = some (contents spool ++ more);
              old = before;
              handle = true;
              size = length (contents spool) + length more;
            }
      reopened spool before room =
          write_reopened limit b more spool before size room opens stats whole
